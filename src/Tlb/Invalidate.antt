-- ===== src/Tlb/Invalidate.antt =====
-- tlb_invalidate and tlb_invalidate_vaddr, and the invariant that keeps the TLB free of duplicates.
use paging_os.Base.{
  ℕ, zero, suc, ◌+◌, ◌%◌, ◌≤◌, ◌<◌, ◌≡◌, ◌≢◌, refl, ◌⊎◌, inl, inr, Bool, true, false, ◌&&◌, arith,
  ltb, leb, ◌==◌, if◌then◌else◌, Bool-cases, ap, sym, ◌∙◌,
}
use paging_os.Machine.{kseg0, page_size, ok, success}
use paging_os.Machine.Platform.{TlbOps, TlbLaws, num_tlb}
use paging_os.Stats.{tlb_invalidation, tlb_fault_with_replace}
use paging_os.Stats.Count.{bumped, vm_stats_inc_lem}
use paging_os.Tlb.{
  Mmu, tlb_loadentry, tlb_invalidate, invalidate_from, tlbhi_invalid, entry_lo, tlblo_invalid,
}
use paging_os.Tlb.Load.{Loaded, tlb_loadentry_lem, is_valid}

-- Each slot holds its own invalid entry or the page of a user address, and no two slots hold the
-- same page: on this processor a duplicate is a machine check.
pub record TlbOk {T : Type 0} (ops : TlbOps T) (t : T) : Type 0 where
  pub slots :
      (i : ℕ)
      → i < num_tlb
      → (ops.read t i ≡ (tlbhi_invalid i, tlblo_invalid))
        ⊎ (((ops.read t i).0 < kseg0) × ((ops.read t i).0 % page_size ≡ 0))
  pub distinct : (i j : ℕ) → i < num_tlb → j < num_tlb → i ≢ j → (ops.read t i).0 ≢ (ops.read t j).0

-- Every slot is invalid.
pub record Flushed {T : Type 0} (ops : TlbOps T) (m m' : Mmu T) : Type 0 where
  pub slots : (i : ℕ) → i < num_tlb → ops.read m'.tlb i ≡ (tlbhi_invalid i, tlblo_invalid)
  pub counted : m'.stats ≡ bumped tlb_invalidation m.stats
  pub same_victim : m'.next_victim ≡ m.next_victim
  pub same_full : m'.tlb_full ≡ m.tlb_full

module _ {T : Type 0} (ops : TlbOps T) (laws : TlbLaws ops) where
  read-invalidate_from :
      (t : T) (rounds i j : ℕ)
      → i + rounds ≤ num_tlb
      → ops.read (invalidate_from ops t rounds i) j
        ≡ (if leb i j && ltb j (i + rounds) then (tlbhi_invalid j, tlblo_invalid) else ops.read t j)
  unfolding invalidate_from
  read-invalidate_from t zero i j h = ground arith
  read-invalidate_from t (suc rounds) i j h =
      let ih =
        read-invalidate_from (ops.write t (tlbhi_invalid i) tlblo_invalid i) rounds (i + 1) j
          (omega arith) in
      elim (Bool-cases (i == j)) [
        | inl e ↦
            let p : i ≡ j = ground arith in
            let self = laws.read-write_self t (tlbhi_invalid i) tlblo_invalid i (omega arith) in
            ground arith
        | inr e ↦
            let other = laws.read-write_ne t (tlbhi_invalid i) tlblo_invalid i j (ground arith) in
            ground arith
      ]

  -- With the counters free, tlb_invalidate returns, leaves every slot invalid, and counts one
  -- invalidation; the static variables of tlb_loadentry and tlb_get_rr_victim stay as they were.
  pub tlb_invalidate-Flushed :
      (m : Mmu T)
      → m.stats.locked ≡ false
      → (m' : Mmu T) × (tlb_invalidate ops m ≡ ok tt m') × Flushed ops m m' × TlbOk ops m'.tlb
  unfolding tlb_invalidate
  tlb_invalidate-Flushed m l =
      let t = invalidate_from ops m.tlb num_tlb 0 in
      let slots = λ (i : ℕ) (h : i < num_tlb).
        let e : ops.read t i ≡ (tlbhi_invalid i, tlblo_invalid) =
          ground (arith, read-invalidate_from m.tlb num_tlb 0 i) in
        e in
      (
        record m { tlb = t; stats = bumped tlb_invalidation m.stats },
        rw (vm_stats_inc_lem tlb_invalidation m.stats (omega arith) l),
        record { slots = slots; counted = refl; same_victim = refl; same_full = refl },
        record {
          slots = λ i h. inl (slots i h);
          distinct = λ i j hi hj ne. rw (slots i hi, slots j hj) (λ e. ne (omega arith));
        },
      )

  Loaded-TlbOk :
      (m m' : Mmu T) (fa pa k : ℕ) (read_only : Bool)
      → fa < kseg0
      → fa % page_size ≡ 0
      → ((j : ℕ) → j < num_tlb → (ops.read m.tlb j).0 ≢ fa)
      → Loaded ops fa pa read_only m m' k
      → TlbOk ops m.tlb
      → TlbOk ops m'.tlb
  Loaded-TlbOk m m' fa pa k read_only user al absent new v = record {
    slots = λ i h. elim (Bool-cases (k == i)) [
      | inl e ↦ let p : k ≡ i = ground arith in rw (← p) (inr (rw new.here user, rw new.here al))
      | inr e ↦ rw (new.others i (ground arith)) (v.slots i h)
    ];
    distinct = λ i j hi hj ne. elim (Bool-cases (k == i)) [
      | inl e ↦
          let p : k ≡ i = ground arith in
          rw (← p, new.here, new.others j (ground arith)) (λ q. absent j hj (sym q))
      | inr e ↦ elim (Bool-cases (k == j)) [
        | inl e' ↦
            let p : k ≡ j = ground arith in
            rw (← p, new.here, new.others i (ground arith)) (absent i hi)
        | inr e' ↦
            rw (new.others i (ground arith), new.others j (ground arith)) (v.distinct i j hi hj ne)
      ]
    ];
  }

  -- A TLB that holds no page twice still holds none twice after tlb_loadentry of the page of a user
  -- address that it does not hold; tlb_loadentry returns, with the counters free and the round-robin
  -- victim a slot of the TLB, and afterwards the page is in one slot.
  pub tlb_loadentry-TlbOk :
      (m : Mmu T) (fa pa : ℕ) (read_only : Bool)
      → m.stats.locked ≡ false
      → m.next_victim < num_tlb
      → fa < kseg0
      → fa % page_size ≡ 0
      → ((j : ℕ) → j < num_tlb → (ops.read m.tlb j).0 ≢ fa)
      → TlbOk ops m.tlb
      → (m' : Mmu T) × (k : ℕ) × (tlb_loadentry ops fa pa read_only m ≡ ok success m')
        × TlbOk ops m'.tlb
        × (k < num_tlb)
        × (ops.read m'.tlb k ≡ (fa, entry_lo pa read_only))
        × ((j : ℕ) → j < num_tlb → j ≢ k → (ops.read m'.tlb j).0 ≢ fa)
  tlb_loadentry-TlbOk m fa pa read_only l v user al absent ok_t =
      let (k, m', load, new, _) = tlb_loadentry_lem ops laws fa pa read_only m l v in
      (
        m',
        k,
        load,
        Loaded-TlbOk m m' fa pa k read_only user al absent new ok_t,
        new.slot,
        new.here,
        λ j h ne. rw (new.others j (λ e. ne (sym e))) (absent j h),
      )

  -- Once the TLB has been full, tlb_invalidate does not make tlb_loadentry look for free slots again:
  -- although every slot is invalid, the next load goes to the round-robin victim's slot and is counted
  -- as a replacement.
  pub full_after_invalidate :
      (m : Mmu T) (fa pa : ℕ) (read_only : Bool)
      → m.tlb_full ≡ true
      → m.stats.locked ≡ false
      → m.next_victim < num_tlb
      → (m1 m2 : Mmu T) × (tlb_invalidate ops m ≡ ok tt m1)
        × ((i : ℕ) → i < num_tlb → is_valid ops m1.tlb i ≡ false)
        × (tlb_loadentry ops fa pa read_only m1 ≡ ok success m2)
        × Loaded ops fa pa read_only m1 m2 m.next_victim
        × (m2.stats ≡ bumped tlb_fault_with_replace m1.stats)
  full_after_invalidate m fa pa read_only f l v =
      let (m1, call, flushed, _) = tlb_invalidate-Flushed m l in
      let l1 : m1.stats.locked ≡ false = cc (ap (λ s. s.locked) flushed.counted) in
      let v1 : m1.next_victim < num_tlb = rw flushed.same_victim v in
      let (k, m2, load, loaded, how) = tlb_loadentry_lem ops laws fa pa read_only m1 l1 v1 in
      elim how [
        | inl filled ↦ cc (filled.never_full, flushed.same_full)
        | inr replaced ↦
            let k' : k ≡ m.next_victim = replaced.turn ∙ flushed.same_victim in
            (m1, m2, call, λ i h. rw (flushed.slots i h), load, rw k' at loaded, replaced.stats)
      ]
