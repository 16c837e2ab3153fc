-- ===== src/Witness/Translation.antt =====
-- A TLB with one valid entry, and the counters.
use paging_os.Base.{
  ℕ, ◌%◌, ◌<◌, ◌≡◌, ◌≢◌, refl, ◌⊎◌, inl, inr, true, false, arith, ◌==◌, if◌then◌else◌, Bool-cases,
}
use paging_os.Machine.{ok, success, page_size, kseg0}
use paging_os.Machine.Platform.{num_tlb}
use paging_os.Stats.{Stats, tlb_fault_with_replace}
use paging_os.Stats.Count.{bumped}
use paging_os.Tlb.{Mmu, entry_lo, tlb_loadentry, tlb_invalidate, tlbhi_invalid, tlblo_invalid}
use paging_os.Tlb.Load.{is_valid, Loaded, Filled, Replaced, tlb_loadentry_lem}
use paging_os.Tlb.Invalidate.{TlbOk, tlb_loadentry-TlbOk, full_after_invalidate}
use paging_os.Witness.Devices.{SlotTlb, slot_tlb, slot_tlb_laws}

abbrev pub counters : Stats
counters = record {
  counters = λ _. 0;
  locked = false;
  cpu = record { present = true; spinlocks = 0; in_interrupt = false };
}

-- a TLB that has the page 0x400000 in slot 0, and no other valid entry
abbrev pub one_entry : SlotTlb
one_entry i =
    if i == 0 then (0x40_0000, entry_lo 0x1_0000 true) else (tlbhi_invalid i, tlblo_invalid)

abbrev pub mmu : Mmu SlotTlb
mmu = record { tlb = one_entry; tlb_full = false; next_victim = 0; stats = counters }

one_entry-slots :
    (i : ℕ)
    → i < num_tlb
    → (one_entry i ≡ (tlbhi_invalid i, tlblo_invalid))
      ⊎ (((one_entry i).0 < kseg0) × ((one_entry i).0 % page_size ≡ 0))
one_entry-slots i h = elim (Bool-cases (i == 0)) [
  | inl e ↦ rw e (inr (omega arith, refl))
  | inr e ↦ rw e (inl refl)
]

one_entry-distinct :
    (i j : ℕ) → i < num_tlb → j < num_tlb → i ≢ j → (one_entry i).0 ≢ (one_entry j).0
one_entry-distinct i j hi hj ne = ground arith

pub one_entry-TlbOk : TlbOk slot_tlb one_entry
one_entry-TlbOk = record { slots = one_entry-slots; distinct = one_entry-distinct }

tlb_loadentry_lem_example :
    (k : ℕ) × (m' : Mmu SlotTlb) × (tlb_loadentry slot_tlb 0x7fff_f000 0x1_1000 false mmu
      ≡ ok success m')
    × Loaded slot_tlb 0x7fff_f000 0x1_1000 false mmu m' k
    × (Filled slot_tlb mmu m' k ⊎ Replaced slot_tlb mmu m' k)
tlb_loadentry_lem_example =
    tlb_loadentry_lem slot_tlb slot_tlb_laws 0x7fff_f000 0x1_1000 false mmu refl (omega arith)

one_entry-absent : (j : ℕ) → j < num_tlb → (one_entry j).0 ≢ 0x40_1000
one_entry-absent j h = ground arith

tlb_loadentry-TlbOk_example :
    (m' : Mmu SlotTlb) × (k : ℕ) × (tlb_loadentry slot_tlb 0x40_1000 0x1_1000 true mmu
      ≡ ok success m')
    × TlbOk slot_tlb m'.tlb
    × (k < num_tlb)
    × (m'.tlb k ≡ (0x40_1000, entry_lo 0x1_1000 true))
    × ((j : ℕ) → j < num_tlb → j ≢ k → (m'.tlb j).0 ≢ 0x40_1000)
tlb_loadentry-TlbOk_example =
    tlb_loadentry-TlbOk slot_tlb slot_tlb_laws mmu 0x40_1000 0x1_1000 true refl (omega arith)
      (omega arith) refl one_entry-absent one_entry-TlbOk

-- the same TLB after it has been full
abbrev was_full : Mmu SlotTlb
was_full = record mmu { tlb_full = true; next_victim = 7 }

full_after_invalidate_example :
    (m1 m2 : Mmu SlotTlb) × (tlb_invalidate slot_tlb was_full ≡ ok tt m1)
    × ((i : ℕ) → i < num_tlb → is_valid slot_tlb m1.tlb i ≡ false)
    × (tlb_loadentry slot_tlb 0x40_1000 0x1_1000 true m1 ≡ ok success m2)
    × Loaded slot_tlb 0x40_1000 0x1_1000 true m1 m2 7
    × (m2.stats ≡ bumped tlb_fault_with_replace m1.stats)
full_after_invalidate_example =
    full_after_invalidate slot_tlb slot_tlb_laws was_full 0x40_1000 0x1_1000 true refl refl
      (omega arith)
