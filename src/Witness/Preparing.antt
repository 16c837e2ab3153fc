-- ===== src/Witness/Preparing.antt =====
-- A new address space with one segment, before its page table is set up.
use paging_os.Base.{◌≡◌, refl, true, false, ◌++◌, [], ◌∷◌, arith}
use paging_os.Coremap.{is_free}
use paging_os.Space.{AddrSpace, new_segment}
use paging_os.Space.Layout.{Ordered}
use paging_os.Kernel.{Kernel}
use paging_os.Life.{as_prepare_load}
use paging_os.Life.Prepare.{CanAlloc, PreparedOr, stack_segment, as_prepare_load-Prepared}
use paging_os.Witness.Devices.{SlotTlb, slot_tlb, FunMap, fun_map, World, world}
use paging_os.Witness.Frames.{table, table-CoremapOk}
use paging_os.Witness.Booting.{code}
use paging_os.Witness.Translation.{mmu}
use paging_os.Witness.Swapping.{store}

abbrev pub fresh_space : AddrSpace
fresh_space = record {
  as_pt = [];
  pt_paddr = 0;
  as_segment = code ∷ [];
  v = 3;
  npages = 0;
  pt_locked = false;
}

abbrev pub starting : Kernel SlotTlb FunMap World
starting = record {
  core = table;
  mmu = mmu;
  store = store;
  spaces = λ _. fresh_space;
  curproc = true;
  cur_as = 5;
}

pub first_free : is_free table.entries 1 ≡ true
unfolding is_free
first_free = refl

starting-CanAlloc : CanAlloc starting
starting-CanAlloc = record {
  active = refl;
  unlocked = refl;
  well_formed = table-CoremapOk;
  start = λ e. omega arith;
  frame = 1;
  free = first_free;
}

starting-Ordered : Ordered 0 (fresh_space.as_segment ++ stack_segment ∷ [])
unfolding new_segment
starting-Ordered = (omega arith, refl, (omega arith, refl, omega arith))

as_prepare_load-Prepared_example :
    PreparedOr 5 starting (as_prepare_load slot_tlb fun_map world true 5 starting)
as_prepare_load-Prepared_example =
    as_prepare_load-Prepared slot_tlb fun_map world 5 starting refl starting-CanAlloc
      starting-Ordered
