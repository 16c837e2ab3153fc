-- ===== src/Witness/Ending.antt =====
-- An address space with one page in memory, one in slot 0 of the swap file, and its page table in the
-- second frame.
use paging_os.Base.{◌≡◌, refl, true, false, [], ◌∷◌, arith}
use paging_os.Machine.{ok}
use paging_os.Coremap.{CEntry, Coremap}
use paging_os.Coremap.Inv.{CoremapOk}
use paging_os.Space.{AddrSpace}
use paging_os.Kernel.{Kernel}
use paging_os.Life.{as_destroy}
use paging_os.Life.Destroy.{Destroyed, as_destroy-Destroyed}
use paging_os.Witness.Devices.{SlotTlb, FunMap, fun_map, fun_map_laws, World, world}
use paging_os.Witness.Frames.{table, AllOk-EntriesOk}
use paging_os.Witness.Booting.{code}
use paging_os.Witness.Translation.{mmu}
use paging_os.Witness.Swapping.{store}

abbrev old_space : AddrSpace
old_space = record {
  as_pt =
      record { paddr = 0x1_0000; vaddr = 0x40_0000; in_mem = true; in_swap = false; rwx = 5 }
      ∷ record { paddr = 0; vaddr = 0x40_1000; in_mem = false; in_swap = true; rwx = 5 }
      ∷ [];
  pt_paddr = 0x1_1000;
  as_segment = code ∷ [];
  v = 3;
  npages = 2;
  pt_locked = false;
}

-- the frame of the page table, which the kernel holds
abbrev pub table_frame : CEntry
table_frame = record { vaddr = 3; addrspace = 0; allocpages = 1 }

abbrev last_table : Coremap
last_table = record table {
  last_paddr = 0x1_2000;
  entries = record { vaddr = 0x40_0002; addrspace = 5; allocpages = 1 } ∷ table_frame ∷ [];
  next_svic = 0;
}

pub last_table-CoremapOk : CoremapOk last_table
last_table-CoremapOk = record {
  fits = omega arith;
  last = omega arith;
  aligned = refl;
  victim = λ _. omega arith;
  entries = AllOk-EntriesOk last_table.entries (
    record { run = omega arith; owned = λ _. refl },
    (record { run = omega arith; owned = λ ne. absurd (ne refl) }, tt),
  );
}

abbrev pub ending : Kernel SlotTlb FunMap World
ending = record {
  core = last_table;
  mmu = mmu;
  store = store;
  spaces = λ _. old_space;
  curproc = true;
  cur_as = 6;
}

as_destroy-Destroyed_example :
    (k' : Kernel SlotTlb FunMap World) × (as_destroy fun_map world 5 ending ≡ ok tt k')
    × Destroyed fun_map fun_map_laws world 5 1 table_frame ending k'
as_destroy-Destroyed_example =
    as_destroy-Destroyed fun_map fun_map_laws world 5 1 table_frame ending refl refl
      (λ e. omega arith) refl refl refl last_table-CoremapOk refl refl
