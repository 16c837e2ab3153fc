-- ===== src/Vm/Fault.antt =====
-- vm_fault on an address of no segment, on a write to read-only memory, and on a page in memory.
use paging_os.Base.{
  ℕ, ◌<◌, ◌≡◌, ◌≢◌, ◌⊎◌, inl, inr, Bool, true, false, not, some, List, ◌∷◌, arith, ◌==◌, ==_refl,
  get_elem?, ◌∙◌,
}
use paging_os.Machine.{page_frame, has_bit, ok, fault, panicked, success}
use paging_os.Machine.Platform.{TlbOps, BitmapOps, WorldOps, num_tlb}
use paging_os.Stats.{tlb_fault, tlb_reload}
use paging_os.Stats.Count.{bumped, vm_stats_inc_lem}
use paging_os.Tlb.{Mmu, tlb_loadentry}
use paging_os.Coremap.{null}
use paging_os.Space.{PtEntry, Segment, AddrSpace, find_segment, hit, miss, search_page}
use paging_os.Space.Layout.{Ordered, Tabled}
use paging_os.Space.Lookup.{Covered, search_page-hit, search_page-miss}
use paging_os.Kernel.{Kernel, proc_getas, write_space}
use paging_os.Vm.{
  FaultType, vm_fault_readonly, vm_fault_read, vm_fault_write, vm_fault, handle_fault, page_in,
}

-- A current process with an address space whose segments are `s ∷ rest`, in order and with their
-- pages in the page table; nobody holds the page table or the counters.
pub record Ready {T B W : Type 0} (k : Kernel T B W) (s : Segment) (rest : List Segment)
    : Type 0 where
  pub counters : k.mmu.stats.locked ≡ false
  pub victim : k.mmu.next_victim < num_tlb
  pub process : k.curproc ≡ true
  pub space : k.cur_as ≢ null
  pub segments : (k.spaces k.cur_as).as_segment ≡ s ∷ rest
  pub unlocked : (k.spaces k.cur_as).pt_locked ≡ false
  pub order : Ordered 0 (s ∷ rest)
  pub table : Tabled (k.spaces k.cur_as).as_pt (s ∷ rest) 0

-- The counters of the TLB after a fault on a page in memory.
abbrev pub reload_mmu : {T : Type 0} → Mmu T → Mmu T
reload_mmu m = record m { stats = bumped tlb_reload (bumped tlb_fault m.stats) }

module _ {T B W : Type 0} where
  -- The current address space of a kernel.
  abbrev pub here : Kernel T B W → AddrSpace
  here k = k.spaces k.cur_as

  -- The kernel after the first counter and pt_acquire.
  abbrev pub entered : Kernel T B W → Kernel T B W
  entered k =
      write_space k.cur_as (record (here k) { pt_locked = true })
        (record k { mmu = record k.mmu { stats = bumped tlb_fault k.mmu.stats } })

  -- The kernel after a fault that only loaded the TLB.
  abbrev pub reloaded : Kernel T B W → Mmu T → Kernel T B W
  reloaded k m =
      write_space k.cur_as (record (here k) { pt_locked = false })
        (write_space k.cur_as (record (here k) { pt_locked = true }) (record k { mmu = m }))

module _ {T B W : Type 0} (tlb : TlbOps T) (bits : BitmapOps B) (wld : WorldOps W) where
  vm_fault-miss :
      (faulttype : FaultType) (address : ℕ) (k : Kernel T B W) (s : Segment) (rest : List Segment)
      → Ready k s rest
      → search_page (here k).as_pt s rest (page_frame address) ≡ miss
      → vm_fault tlb bits wld faulttype address k ≡ fault panicked
  unfolding vm_fault proc_getas search_page
  vm_fault-miss faulttype address k s rest r h =
      let n : (k.cur_as == null) ≡ false = ground (arith, r.space) in
      let same : (k.cur_as == k.cur_as) ≡ true = ground arith in
      let e1 = vm_stats_inc_lem tlb_fault k.mmu.stats (omega arith) r.counters in
      let e2 = r.process in
      let e3 = r.segments in let e4 = r.unlocked in let e5 = r.space in ground arith

  pub vm_fault-hit :
      (faulttype : FaultType) (address i : ℕ) (k : Kernel T B W) (s : Segment) (rest : List Segment)
      → Ready k s rest
      → search_page (here k).as_pt s rest (page_frame address) ≡ hit i
      → let found = find_segment s rest (page_frame address) 0 in
        vm_fault tlb bits wld faulttype address k
        ≡ handle_fault tlb bits wld faulttype k.cur_as i
            (page_frame address)
            found.0
            found.1
            (entered k)
  unfolding vm_fault proc_getas search_page
  vm_fault-hit faulttype address i k s rest r h =
      let n : (k.cur_as == null) ≡ false = ground (arith, r.space) in
      let same : (k.cur_as == k.cur_as) ≡ true = ground arith in
      let e1 = vm_stats_inc_lem tlb_fault k.mmu.stats (omega arith) r.counters in
      let e2 = r.process in
      let e3 = r.segments in let e4 = r.unlocked in let e5 = r.space in ground arith

  -- In a kernel that is ready for a fault, one whose address is in no segment of the current address
  -- space panics, of whatever kind it is, and so does a write to read-only memory at an address in one
  -- of them.
  pub vm_fault_panics :
      (faulttype : FaultType) (address : ℕ) (k : Kernel T B W) (s : Segment) (rest : List Segment)
      → Ready k s rest
      → (¬ Covered (page_frame address) (s ∷ rest))
        ⊎ ((faulttype ≡ vm_fault_readonly) × Covered (page_frame address) (s ∷ rest))
      → vm_fault tlb bits wld faulttype address k ≡ fault panicked
  unfolding handle_fault
  vm_fault_panics faulttype address k s rest r (inl out) =
      vm_fault-miss faulttype address k s rest r (
        search_page-miss (here k).as_pt s rest (page_frame address) r.order r.table (omega arith)
          out)
  vm_fault_panics faulttype address k s rest r (inr (q, c)) =
      let (i, e, h, _, _) =
        search_page-hit (here k).as_pt s rest (page_frame address) r.order r.table (omega arith)
          c in
      let same : (k.cur_as == k.cur_as) ≡ true = ==_refl k.cur_as in
      vm_fault-hit faulttype address i k s rest r h ∙ rw (q, same)

  pub handle_fault-resident :
      (faulttype : FaultType) (fa i : ℕ) (k : Kernel T B W) (seg : Segment) (more : Bool)
      (e : PtEntry) (m : Mmu T)
      → (faulttype ≡ vm_fault_read) ⊎ (faulttype ≡ vm_fault_write)
      → k.mmu.stats.locked ≡ false
      → get_elem? (here k).as_pt i ≡ some e
      → e.in_mem ≡ true
      → tlb_loadentry tlb fa e.paddr (not (has_bit 1 e.rwx)) (reload_mmu k.mmu) ≡ ok success m
      → handle_fault tlb bits wld faulttype k.cur_as i fa seg more (entered k)
        ≡ ok success (reloaded k m)
  unfolding handle_fault page_in
  handle_fault-resident faulttype fa i k seg more e m kind l q mem load =
      let same : (k.cur_as == k.cur_as) ≡ true = ==_refl k.cur_as in
      let counted_up = vm_stats_inc_lem tlb_reload (bumped tlb_fault k.mmu.stats) (omega arith) l in
      elim kind [ inl f ↦ rw f (ground arith) | inr f ↦ rw f (ground arith) ]
