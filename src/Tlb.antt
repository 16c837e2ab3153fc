-- ===== src/Tlb.antt =====
-- kern/vm/vm_tlb.c: loading, replacing and invalidating the entries of the TLB.
pub mod Load
pub mod Invalidate
use paging_os.Base.{
  ℕ, zero, suc, ◌+◌, ◌*◌, ◌%◌, Bool, true, false, not, Option, none, some, if◌then◌else◌,
}
use paging_os.Machine.{
  u32, page_frame, or_bit, has_bit, Cmd, pure, get, modify, ◌>>=◌, ◌>>◌, carry, fail, panicked,
  Status, success, err, enomem,
}
use paging_os.Machine.Platform.{TlbOps, num_tlb}
use paging_os.Stats.{
  Stats, vm_stats_inc, tlb_fault_with_free, tlb_fault_with_replace, tlb_invalidation,
}

-- The TLB, the static variables of vm_tlb.c, and the counters. Every function runs with the
-- interrupts off from its first access of the TLB to its last.
pub record Mmu (T : Type 0) : Type 0 where
  pub tlb : T
  pub tlb_full : Bool
  pub next_victim : ℕ
  pub stats : Stats

-- the bits of TLBLO_VALID and TLBLO_DIRTY
abbrev pub tlblo_valid : ℕ
tlblo_valid = 9

abbrev pub tlblo_dirty : ℕ
tlblo_dirty = 10

-- TLBHI_INVALID(i), TLBLO_INVALID()
abbrev pub tlbhi_invalid : ℕ → ℕ
tlbhi_invalid i = (0x8_0000 + i) * 4096

abbrev pub tlblo_invalid : ℕ
tlblo_invalid = 0

-- paddr | (readOnly ? 0 : TLBLO_DIRTY) | TLBLO_VALID
abbrev pub entry_lo : (paddr : ℕ) → (read_only : Bool) → ℕ
entry_lo paddr read_only =
    or_bit tlblo_valid (if read_only then paddr else or_bit tlblo_dirty paddr)

-- vm_tlbshootdown
unfoldable pub vm_tlbshootdown : {S : Type 0} → Cmd S (Unit {0})
vm_tlbshootdown = fail panicked

module _ {T : Type 0} (ops : TlbOps T) where
  -- vm_stats_inc on the counters of the machine
  abbrev pub count : ℕ → Cmd (Mmu T) (Unit {0})
  count index m = carry (λ s. record m { stats = s }) (vm_stats_inc index m.stats)

  -- The loop of tlb_loadentry over the entries: the first one that is not valid, from `i` on.
  pub find_invalid : T → (rounds i : ℕ) → Option ℕ
  find_invalid t zero i = none
  find_invalid t (suc rounds) i =
      let rest = find_invalid t rounds (i + 1) in
      if not (has_bit tlblo_valid (ops.read t i).1) then some i else rest

  unfoldable pub tlb_get_rr_victim : Cmd (Mmu T) ℕ
  tlb_get_rr_victim = do
    m ← get
    modify (λ m. record m { next_victim = (m.next_victim + 1) % num_tlb })
    pure m.next_victim

  -- The part of tlb_loadentry from `if (tlb_full)` on.
  unfoldable pub replace_entry : (faultaddress paddr : ℕ) → Bool → Cmd (Mmu T) Status
  unfolding tlb_get_rr_victim
  replace_entry faultaddress paddr read_only = do
    m ← get
    if m.tlb_full
        then (do
          k ← tlb_get_rr_victim
          modify (λ m. record m { tlb = ops.write m.tlb faultaddress (entry_lo paddr read_only) k })
          count tlb_fault_with_replace
          pure success)
        else pure (err enomem)

  unfoldable pub tlb_loadentry : (faultaddress paddr : ℕ) → Bool → Cmd (Mmu T) Status
  unfolding replace_entry
  tlb_loadentry faultaddress paddr read_only = do
    m ← get
    if m.tlb_full
        then replace_entry faultaddress paddr read_only
        else elim (find_invalid m.tlb num_tlb 0) [
          | none ↦ do
            modify (λ m. record m { tlb_full = true })
            replace_entry faultaddress paddr read_only
          | some i ↦ do
            modify
                (λ m. record m { tlb = ops.write m.tlb faultaddress (entry_lo paddr read_only) i })
            count tlb_fault_with_free
            pure success
        ]

  -- The loop of tlb_invalidate, from `i` on.
  pub invalidate_from : T → (rounds i : ℕ) → T
  invalidate_from t zero i = t
  invalidate_from t (suc rounds) i =
      invalidate_from (ops.write t (tlbhi_invalid i) tlblo_invalid i) rounds (i + 1)

  unfoldable pub tlb_invalidate : Cmd (Mmu T) (Unit {0})
  tlb_invalidate = do
    modify (λ m. record m { tlb = invalidate_from m.tlb num_tlb 0 })
    count tlb_invalidation

  unfoldable pub tlb_invalidate_vaddr : ℕ → Cmd (Mmu T) (Unit {0})
  tlb_invalidate_vaddr vaddr = do
    m ← get
    elim (ops.probe m.tlb (page_frame vaddr)) [
      | none ↦ pure tt
      | some i ↦ modify (λ m. record m { tlb = ops.write m.tlb (tlbhi_invalid i) tlblo_invalid i })
    ]
