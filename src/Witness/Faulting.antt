-- ===== src/Witness/Faulting.antt =====
-- A process whose two code pages are in memory, and a kernel without free frames.
use paging_os.Base.{
  ℕ, zero, suc, ◌<◌, ◌≡◌, refl, inl, true, false, some, List, [], ◌∷◌, arith, get_elem?, ◌==◌,
}
use paging_os.Machine.{ok, fault, success, panicked, deadlock, paddr_to_kvaddr, page_frame}
use paging_os.Coremap.{Coremap, is_free}
use paging_os.Coremap.Inv.{CoremapOk}
use paging_os.Stats.Count.{Consistent}
use paging_os.Space.{PtEntry, AddrSpace}
use paging_os.Space.Layout.{PagesAt}
use paging_os.Kernel.{Kernel}
use paging_os.Vm.{
  vm_fault, vm_fault_read, vm_fault_write, get_page, get_pages, alloc_kpages, free_kpages,
}
use paging_os.Pt.Results.{Found}
use paging_os.Vm.Pages.{GotFrame, get_page_lem, alloc_kpages_full, free_kpages_panics}
use paging_os.Vm.Fault.{Ready, here, vm_fault_panics}
use paging_os.Vm.Resident.{Resident, vm_fault-Resident}
use paging_os.Witness.Devices.{SlotTlb, slot_tlb, slot_tlb_laws, FunMap, fun_map, World, world}
use paging_os.Witness.Frames.{table, table-CoremapOk, AllOk-EntriesOk}
use paging_os.Witness.Booting.{code, stack, segments, segments-Ordered, not-Covered}
use paging_os.Witness.Translation.{mmu, counters}
use paging_os.Witness.Swapping.{store}

abbrev page0 : PtEntry
page0 = record { paddr = 0x1_0000; vaddr = 0x40_0000; in_mem = true; in_swap = false; rwx = 5 }

abbrev page1 : PtEntry
page1 = record { paddr = 0x1_3000; vaddr = 0x40_1000; in_mem = true; in_swap = false; rwx = 5 }

abbrev page2 : PtEntry
page2 = record { paddr = 0; vaddr = 0x7fff_f000; in_mem = false; in_swap = false; rwx = 6 }

abbrev pages : List PtEntry
pages = page0 ∷ page1 ∷ page2 ∷ []

abbrev space : AddrSpace
space = record {
  as_pt = pages;
  pt_paddr = 0x2000;
  as_segment = segments;
  v = 3;
  npages = 3;
  pt_locked = false;
}

-- the address space stands at the address 5
abbrev kernel : Kernel SlotTlb FunMap World
kernel = record {
  core = table;
  mmu = mmu;
  store = store;
  spaces = λ _. space;
  curproc = true;
  cur_as = 5;
}

code-PagesAt : PagesAt pages 0 code
code-PagesAt zero h = (page0, refl, refl, refl)
code-PagesAt (suc zero) h = (page1, refl, refl, refl)
code-PagesAt (suc (suc i)) h = absurd (omega arith)

stack-PagesAt : PagesAt pages 2 stack
stack-PagesAt zero h = (page2, refl, refl, refl)
stack-PagesAt (suc i) h = absurd (omega arith)

kernel-Ready : Ready kernel code (stack ∷ [])
kernel-Ready = record {
  counters = refl;
  victim = omega arith;
  process = refl;
  space = λ e. omega arith;
  segments = refl;
  unlocked = refl;
  order = segments-Ordered;
  table = (code-PagesAt, (stack-PagesAt, tt));
}

code-in_mem :
    (i : ℕ) (e : PtEntry) → get_elem? pages i ≡ some e → e.vaddr ≡ 0x40_1000 → e.in_mem ≡ true
code-in_mem zero e q v = ground arith
code-in_mem (suc zero) e q v = ground arith
code-in_mem (suc (suc zero)) e q v = ground arith
code-in_mem (suc (suc (suc i))) e q v = ground arith

no_counts-Consistent : Consistent counters.counters
no_counts-Consistent = record { tlb = refl; pages = refl; disk = refl }

vm_fault-Resident_example :
    (i : ℕ) × (e : PtEntry) × (k' : Kernel SlotTlb FunMap World) × (get_elem? (here kernel).as_pt i
      ≡ some e)
    × (e.vaddr ≡ page_frame 0x40_1234)
    × (vm_fault slot_tlb fun_map world vm_fault_read 0x40_1234 kernel ≡ ok success k')
    × Resident slot_tlb (page_frame 0x40_1234) e kernel k'
vm_fault-Resident_example =
    vm_fault-Resident slot_tlb slot_tlb_laws fun_map world vm_fault_read 0x40_1234 kernel code
      (stack ∷ []) (inl refl) kernel-Ready (inl (omega arith, omega arith)) code-in_mem
      no_counts-Consistent

vm_fault_panics_example :
    vm_fault slot_tlb fun_map world vm_fault_write 0x40_2004 kernel ≡ fault panicked
vm_fault_panics_example =
    vm_fault_panics slot_tlb fun_map world vm_fault_write 0x40_2004 kernel code (stack ∷ [])
      kernel-Ready (inl not-Covered)

second_free : is_free table.entries 2 ≡ true
unfolding is_free
second_free = refl

get_page_lem_example :
    (paddr : ℕ) × (k' : Kernel SlotTlb FunMap World) × (get_page slot_tlb fun_map world false
        0x40_2000 5 kernel
      ≡ ok paddr k')
    × GotFrame false 5 paddr kernel k'
get_page_lem_example =
    get_page_lem slot_tlb fun_map world false 0x40_2000 5 2 kernel refl refl table-CoremapOk
      second_free

-- the same kernel, with a table of one frame, which is in use
abbrev full_table : Coremap
full_table = record table {
  last_paddr = 0x1_1000;
  entries = record { vaddr = 0x40_0002; addrspace = 5; allocpages = 1 } ∷ [];
  next_svic = 0;
}

full_table-CoremapOk : CoremapOk full_table
full_table-CoremapOk = record {
  fits = omega arith;
  last = omega arith;
  aligned = refl;
  victim = λ _. omega arith;
  entries =
      AllOk-EntriesOk full_table.entries (record { run = omega arith; owned = λ _. refl }, tt);
}

full_table-none : (i : ℕ) → is_free full_table.entries i ≡ false
unfolding is_free
full_table-none zero = refl
full_table-none (suc i) = refl

abbrev full_kernel : Kernel SlotTlb FunMap World
full_kernel = record kernel { core = full_table }

alloc_kpages_full_example :
    (k' : Kernel SlotTlb FunMap World) × (alloc_kpages slot_tlb fun_map world 1 0 full_kernel
      ≡ ok (paddr_to_kvaddr 0x1_0000) k')
    × (k'.core.locked ≡ true)
    × ((npages vaddr space : ℕ)
        → get_pages slot_tlb fun_map world npages vaddr space k' ≡ fault deadlock)
alloc_kpages_full_example =
    alloc_kpages_full slot_tlb fun_map world 0 full_kernel refl refl refl refl (omega arith)
      full_table-CoremapOk (λ e. omega arith) full_table-none

free_kpages_panics_example : free_kpages slot_tlb fun_map world 0x8001_0000 kernel ≡ fault panicked
free_kpages_panics_example =
    free_kpages_panics slot_tlb fun_map world 0x8001_0000 kernel refl refl refl (λ e. omega arith)
      refl

second_page : Found kernel 1 page1
second_page = record {
  process = refl;
  space = λ e. omega arith;
  unlocked = refl;
  entry = refl;
  first_v = before_v;
  first_p = before_p;
}
  where
    before_v :
        (j : ℕ) (a : PtEntry) → j < 1 → get_elem? pages j ≡ some a → (a.vaddr == 0x40_1000) ≡ false
    before_v zero a h q = ground arith
    before_v (suc j) a h q = absurd (omega arith)

    before_p :
        (j : ℕ) (a : PtEntry) → j < 1 → get_elem? pages j ≡ some a → (a.paddr == 0x1_3000) ≡ false
    before_p zero a h q = ground arith
    before_p (suc j) a h q = absurd (omega arith)
