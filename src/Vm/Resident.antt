-- ===== src/Vm/Resident.antt =====
-- vm_fault on a page that is in memory: the TLB is loaded, and the counters stay in agreement.
use paging_os.Base.{
  ℕ, ◌≡◌, refl, ◌⊎◌, inl, inr, true, false, not, some, List, ◌∷◌, arith, ◌==◌, get_elem?, ◌∙◌,
  Bool-cases, ==_refl,
}
use paging_os.Machine.{page_frame, has_bit, ok, success}
use paging_os.Machine.Platform.{TlbOps, TlbLaws, BitmapOps, WorldOps}
use paging_os.Stats.{tlb_fault, tlb_reload, tlb_fault_with_free, tlb_fault_with_replace}
use paging_os.Stats.Count.{counted, Consistent}
use paging_os.Tlb.{Mmu}
use paging_os.Tlb.Load.{Loaded, tlb_loadentry_lem}
use paging_os.Space.{PtEntry, Segment}
use paging_os.Space.Lookup.{Covered, search_page-hit}
use paging_os.Kernel.{Kernel}
use paging_os.Vm.{FaultType, vm_fault_read, vm_fault_write, vm_fault}
use paging_os.Vm.Fault.{Ready, here, reload_mmu, reloaded, vm_fault-hit, handle_fault-resident}

-- One fault that reloads a page, counted as one that replaced a TLB entry or found a free one.
reload-Consistent :
    (index : ℕ) (c : ℕ → ℕ)
    → (index ≡ tlb_fault_with_free) ⊎ (index ≡ tlb_fault_with_replace)
    → Consistent c
    → Consistent (counted index (counted tlb_reload (counted tlb_fault c)))
reload-Consistent index c (inl q) h =
    rw q record { tlb = omega (arith, h.tlb); pages = omega (arith, h.pages); disk = h.disk }
reload-Consistent index c (inr q) h =
    rw q record { tlb = omega (arith, h.tlb); pages = omega (arith, h.pages); disk = h.disk }

-- The kernel after a fault on the page of entry `e`: only the TLB and its counters changed.
pub record Resident {T B W : Type 0} (tlb : TlbOps T) (fa : ℕ) (e : PtEntry) (k k' : Kernel T B W)
    : Type 0 where
  pub slot : ℕ
  pub loaded : Loaded tlb fa e.paddr (not (has_bit 1 e.rwx)) k.mmu k'.mmu slot
  pub counters : Consistent k'.mmu.stats.counters
  pub core : k'.core ≡ k.core
  pub store : k'.store ≡ k.store
  pub spaces : (x : ℕ) → k'.spaces x ≡ k.spaces x

reloaded-spaces :
    {T B W : Type 0} (k : Kernel T B W) (m : Mmu T) (x : ℕ)
    → (k.spaces k.cur_as).pt_locked ≡ false
    → (reloaded k m).spaces x ≡ k.spaces x
reloaded-spaces k m x u = elim (Bool-cases (x == k.cur_as)) [
  | inl t ↦ let q : x ≡ k.cur_as = ground arith in rw (q, ==_refl k.cur_as) (rw⁻¹ u refl)
  | inr t ↦ rw t
]

module _ {T B W : Type 0} (tlb : TlbOps T) (laws : TlbLaws tlb) (bits : BitmapOps B)
    (wld : WorldOps W) where
  -- In a kernel that is ready for a fault, whose counters agree, a read or write fault on an address in a
  -- segment succeeds if the page-table entries of its page say that it is in memory: one slot of the
  -- TLB then maps the page to the frame of the entry, dirty exactly if the page may be written; the
  -- other slots, the coremap, the swap file and all address spaces are as before, and the counters
  -- still agree.
  pub vm_fault-Resident :
      (faulttype : FaultType) (address : ℕ) (k : Kernel T B W) (s : Segment) (rest : List Segment)
      → (faulttype ≡ vm_fault_read) ⊎ (faulttype ≡ vm_fault_write)
      → Ready k s rest
      → Covered (page_frame address) (s ∷ rest)
      → ((i : ℕ) (e : PtEntry)
          → get_elem? (here k).as_pt i ≡ some e
          → e.vaddr ≡ page_frame address
          → e.in_mem ≡ true)
      → Consistent k.mmu.stats.counters
      → (i : ℕ) × (e : PtEntry) × (k' : Kernel T B W) × (get_elem? (here k).as_pt i ≡ some e)
        × (e.vaddr ≡ page_frame address)
        × (vm_fault tlb bits wld faulttype address k ≡ ok success k')
        × Resident tlb (page_frame address) e k k'
  vm_fault-Resident faulttype address k s rest kind r c mem agree =
      let fa = page_frame address in
      let (i, e, h, q, v) =
        search_page-hit (here k).as_pt s rest fa r.order r.table (omega arith) c in
      let (slot, m, load, l, how) =
        tlb_loadentry_lem tlb laws fa e.paddr (not (has_bit 1 e.rwx)) (reload_mmu k.mmu) r.counters
          r.victim in
      (
        i,
        e,
        reloaded k m,
        q,
        v,
        vm_fault-hit tlb bits wld faulttype address i k s rest r h
            ∙ handle_fault-resident tlb bits wld faulttype fa i k _ _ e m kind r.counters q
                (mem i e q v) load,
        record {
          slot = slot;
          loaded = record { slot = l.slot; here = l.here; others = l.others; victim = l.victim };
          counters = elim how [
            | inl f ↦
                rw f.stats
                  (reload-Consistent tlb_fault_with_free k.mmu.stats.counters (inl refl) agree)
            | inr f ↦
                rw f.stats
                  (reload-Consistent tlb_fault_with_replace k.mmu.stats.counters (inr refl) agree)
          ];
          core = refl;
          store = refl;
          spaces = λ x. reloaded-spaces k m x r.unlocked;
        },
      )
