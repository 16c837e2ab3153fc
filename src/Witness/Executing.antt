-- ===== src/Witness/Executing.antt =====
-- A program file with two segment headers: register information, which is passed over, and the code.
use paging_os.Base.{◌==◌, ◌≡◌, refl, inl, inr, true, if◌then◌else◌, [], ◌∷◌, ◌++◌, arith}
use paging_os.Space.{new_segment}
use paging_os.Space.Layout.{Ordered}
use paging_os.Kernel.{Kernel}
use paging_os.Life.Prepare.{CanAlloc, stack_segment}
use paging_os.Loader.{Ehdr, Phdr, ElfOps, is_executable, is_skipped, load_elf}
use paging_os.Loader.Regions.{Holds, loadable}
use paging_os.Loader.Loaded.{LoadedOr, load_elf-LoadedOr}
use paging_os.Witness.Devices.{SlotTlb, FunMap, fun_map, World, world, slot_tlb}
use paging_os.Witness.Frames.{table-CoremapOk}
use paging_os.Witness.Preparing.{starting, first_free, fresh_space}

abbrev program : Ehdr
program = record {
  mag0 = 0x7f;
  mag1 = 0x45;
  mag2 = 0x4c;
  mag3 = 0x46;
  ei_class = 1;
  ei_data = 2;
  ei_version = 1;
  e_version = 1;
  e_type = 2;
  e_machine = 8;
  e_entry = 0x40_0018;
  e_phoff = 52;
  e_phentsize = 32;
  e_phnum = 2;
}

abbrev reginfo : Phdr
reginfo = record {
  p_type = 0x7000_0000;
  p_vaddr = 0x40_0000;
  p_memsz = 24;
  p_filesz = 24;
  p_flags = 4;
  p_offset = 116;
}

abbrev text : Phdr
text = record {
  p_type = 1;
  p_vaddr = 0x40_0000;
  p_memsz = 0x1800;
  p_filesz = 0x1800;
  p_flags = 5;
  p_offset = 0x1000;
}

abbrev pub elf : ElfOps World
elf = record {
  read_ehdr = λ w v. (0, 0, program, w);
  read_phdr = λ w v offset. (0, 0, (if offset == 52 then reginfo else text), w);
  expected = program;
  pt_null = 0;
  pt_phdr = 6;
  pt_mips_reginfo = 0x7000_0000;
  pt_load = 1;
}

abbrev pub empty_kernel : Kernel SlotTlb FunMap World
empty_kernel = record starting { spaces = λ _. record fresh_space { as_segment = [] } }

empty_kernel-CanAlloc : CanAlloc empty_kernel
empty_kernel-CanAlloc = record {
  active = refl;
  unlocked = refl;
  well_formed = table-CoremapOk;
  start = λ e. omega arith;
  frame = 1;
  free = first_free;
}

is_program : is_executable elf program ≡ true
unfolding is_executable
is_program = refl

file-Holds :
    Holds elf 3 52 32 0 empty_kernel.store.world (reginfo ∷ text ∷ []) empty_kernel.store.world
unfolding is_skipped
file-Holds = (_, refl, inl refl, (_, refl, inr (refl, refl), refl))

in_order : Ordered 0 ([] ++ (loadable elf (reginfo ∷ text ∷ []) ++ stack_segment ∷ []))
unfolding is_skipped new_segment
in_order = (omega arith, refl, (omega arith, refl, omega arith))

load_elf-LoadedOr_example :
    LoadedOr slot_tlb fun_map world elf 5 program
      (reginfo ∷ text ∷ [])
      empty_kernel
      (load_elf slot_tlb fun_map world elf (λ _. true) true 3 empty_kernel)
load_elf-LoadedOr_example =
    load_elf-LoadedOr slot_tlb fun_map world elf 3 5 empty_kernel program (reginfo ∷ text ∷ [])
      empty_kernel.store.world empty_kernel.store.world refl refl (λ e. omega (arith, e)) refl
      is_program refl file-Holds refl empty_kernel-CanAlloc in_order
