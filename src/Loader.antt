-- ===== src/Loader.antt =====
-- load_elf of kern/syscall/loadelf.c: it checks the headers of a program file, and defines its regions.
pub mod Regions
pub mod Loaded
use paging_os.Base.{
  ℕ, zero, suc, ◌+◌, ◌*◌, ◌%◌, Bool, true, false, not, ◌&&◌, ◌||◌, Option, none, some, ◌==◌,
  if◌then◌else◌,
}
use paging_os.Machine.{
  u32, add32, Cmd, pure, fail, get, modify, ◌>>=◌, ◌>>◌, wild_access, Status, success, err, enoexec,
  status_of,
}
use paging_os.Machine.Platform.{TlbOps, BitmapOps, WorldOps}
use paging_os.Coremap.{null}
use paging_os.Space.{as_define_region, mask_bit}
use paging_os.Kernel.{Kernel, proc_getas, on_space}
use paging_os.Life.{as_prepare_load}

-- What load_elf reads of Elf_Ehdr and Elf_Phdr of elf.h.
pub record Ehdr : Type 0 where
  pub mag0 : ℕ
  pub mag1 : ℕ
  pub mag2 : ℕ
  pub mag3 : ℕ
  pub ei_class : ℕ
  pub ei_data : ℕ
  pub ei_version : ℕ
  pub e_version : ℕ
  pub e_type : ℕ
  pub e_machine : ℕ
  pub e_entry : ℕ
  pub e_phoff : ℕ
  pub e_phentsize : ℕ
  pub e_phnum : ℕ

pub record Phdr : Type 0 where
  pub p_type : ℕ
  pub p_vaddr : ℕ
  pub p_memsz : ℕ
  pub p_filesz : ℕ
  pub p_flags : ℕ
  pub p_offset : ℕ

-- VOP_READ of a header into a buffer of the kernel: an error code, uio_resid and the header; and the
-- constants of elf.h, those of an executable header as one record.
pub record ElfOps (W : Type 0) : Type 0 where
  pub read_ehdr : W → (vnode : ℕ) → ℕ × ℕ × Ehdr × W
  pub read_phdr : W → (vnode offset : ℕ) → ℕ × ℕ × Phdr × W
  pub expected : Ehdr
  pub pt_null : ℕ
  pub pt_phdr : ℕ
  pub pt_mips_reginfo : ℕ
  pub pt_load : ℕ

module _ {W : Type 0} (elf : ElfOps W) where
  -- the test of the executable header
  unfoldable pub is_executable : Ehdr → Bool
  is_executable eh =
      let x = elf.expected in
      (eh.mag0 == x.mag0)
      && ((eh.mag1 == x.mag1)
          && ((eh.mag2 == x.mag2)
              && ((eh.mag3 == x.mag3)
                  && ((eh.ei_class == x.ei_class)
                      && ((eh.ei_data == x.ei_data)
                          && ((eh.ei_version == x.ei_version)
                              && ((eh.e_version == x.e_version)
                                  && ((eh.e_type == x.e_type)
                                      && (eh.e_machine == x.e_machine)))))))))

  -- a segment header that is passed over
  unfoldable pub is_skipped : (p_type : ℕ) → Bool
  is_skipped p_type =
      (p_type == elf.pt_null) || ((p_type == elf.pt_phdr) || (p_type == elf.pt_mips_reginfo))

-- The error of a read, if there is one; a short read is an error.
abbrev pub read_error : (result resid : ℕ) → Option Status
read_error result resid =
    if not (result == 0)
    then some (status_of result)
    else if not (resid == 0)
    then some (err enoexec)
    else none

module _ {T B W : Type 0} (elf : ElfOps W) where
  abbrev pub set_world : W → Kernel T B W → Kernel T B W
  set_world w k = record k { store = record k.store { world = w } }

  -- as_define_region of the address space for a segment header; through NULL lies other memory.
  abbrev pub define_region : (allocated : Bool) → (space : ℕ) → Phdr → Cmd (Kernel T B W) Status
  define_region allocated space ph =
      if space == null
      then fail wild_access
      else on_space space (
          as_define_region allocated ph.p_vaddr ph.p_memsz ph.p_filesz (mask_bit 2 4 ph.p_flags)
            (mask_bit 1 2 ph.p_flags) (mask_bit 0 1 ph.p_flags) ph.p_offset)

  -- The loop over the segment headers, from header `i` on; `allocated i`: whether kmalloc had the memory
  -- for the segment of header `i`.
  unfoldable pub define_regions :
      (allocated : ℕ → Bool) → (space v phoff phentsize rounds i : ℕ) → Cmd (Kernel T B W) Status
  unfolding is_skipped
  define_regions allocated space v phoff phentsize zero i = pure success
  define_regions allocated space v phoff phentsize (suc rounds) i = do
    k ← get
    let (result, resid, ph, w) = elf.read_phdr k.store.world v (add32 phoff (i * phentsize % u32))
    modify (set_world w)
    elim (read_error result resid) [
      | some e ↦ pure e
      | none ↦
          if is_skipped elf ph.p_type
          then define_regions allocated space v phoff phentsize rounds (i + 1)
          else if not (ph.p_type == elf.pt_load)
          then pure (err enoexec)
          else do
            r ← define_region (allocated i) space ph
            elim r [
              | success ↦ define_regions allocated space v phoff phentsize rounds (i + 1)
              | err e ↦ pure (err e)
            ]
    ]

module _ {T B W : Type 0} (tlb : TlbOps T) (bits : BitmapOps B) (wld : WorldOps W)
    (elf : ElfOps W) where
  -- The result, and the entry point where load_elf stores it.
  unfoldable pub load_elf :
      (allocated : ℕ → Bool)
      → (stack_allocated : Bool) → (v : ℕ) → Cmd (Kernel T B W) (Status × Option ℕ)
  unfolding is_executable define_regions
  load_elf allocated stack_allocated v = do
    space ← proc_getas
    k ← get
    let (result, resid, eh, w) = elf.read_ehdr k.store.world v
    modify (set_world elf w)
    elim (read_error result resid) [
      | some e ↦ pure (e, none)
      | none ↦ if not (is_executable elf eh) then pure (err enoexec, none) else do
        r ← define_regions elf allocated space v eh.e_phoff eh.e_phentsize eh.e_phnum 0
        elim r [
          | err e ↦ pure (err e, none)
          | success ↦ do
            r ←
                (if space == null
                  then fail wild_access
                  else as_prepare_load tlb bits wld stack_allocated space)
            elim r [ err e ↦ pure (err e, none) | success ↦ pure (success, some eh.e_entry) ]
        ]
    ]
