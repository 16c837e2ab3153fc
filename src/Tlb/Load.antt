-- ===== src/Tlb/Load.antt =====
-- tlb_loadentry never fails, and what it writes.
use paging_os.Base.{
  ℕ, zero, suc, ◌+◌, ◌%◌, ◌≤◌, ◌<◌, ◌≡◌, ◌≢◌, refl, ◌⊎◌, inl, inr, Bool, true, false, Option, none,
  some, arith, ◌==◌, Bool-cases, Option-cases,
}
use paging_os.Machine.{has_bit, ok, success}
use paging_os.Machine.Platform.{TlbOps, TlbLaws, num_tlb}
use paging_os.Stats.{tlb_fault_with_free, tlb_fault_with_replace}
use paging_os.Stats.Count.{bumped, vm_stats_inc_lem}
use paging_os.Tlb.{Mmu, find_invalid, tlb_loadentry, replace_entry, entry_lo, tlblo_valid}

-- What a load into slot `k` leaves.
pub record Loaded {T : Type 0} (ops : TlbOps T) (faultaddress paddr : ℕ) (read_only : Bool)
    (m m' : Mmu T) (k : ℕ) : Type 0 where
  pub slot : k < num_tlb
  pub here : ops.read m'.tlb k ≡ (faultaddress, entry_lo paddr read_only)
  pub others : (j : ℕ) → k ≢ j → ops.read m'.tlb j ≡ ops.read m.tlb j
  pub victim : m'.next_victim < num_tlb

-- A slot of the TLB holds a valid entry.
abbrev pub is_valid : {T : Type 0} → TlbOps T → T → ℕ → Bool
is_valid ops t i = has_bit tlblo_valid (ops.read t i).1

-- The lowest invalid slot from `i` on, or none below `end`.
abbrev pub FirstInvalid : {T : Type 0} → TlbOps T → T → (i end : ℕ) → Option ℕ → Type 0
FirstInvalid ops t i end none = (j : ℕ) → i ≤ j → j < end → is_valid ops t j ≡ true
FirstInvalid ops t i end (some k) =
    (i ≤ k)
    × (k < end)
    × (is_valid ops t k ≡ false)
    × ((j : ℕ) → i ≤ j → j < k → is_valid ops t j ≡ true)

FirstInvalid-step :
    {T : Type 0} (ops : TlbOps T) (t : T) (i end : ℕ) (r : Option ℕ)
    → is_valid ops t i ≡ true
    → FirstInvalid ops t (i + 1) end r
    → FirstInvalid ops t i end r
FirstInvalid-step ops t i end none e h = λ j a b. elim (Bool-cases (j == i)) [
  | inl q ↦ let p : i ≡ j = ground arith in rw (← p) e
  | inr q ↦ h j (ground arith) b
]
FirstInvalid-step ops t i end (some k) e (lo, hi, bad, least) = (
  omega arith,
  hi,
  bad,
  λ j a b. elim (Bool-cases (j == i)) [
    | inl q ↦ let p : i ≡ j = ground arith in rw (← p) e
    | inr q ↦ least j (ground arith) b
  ],
)

find_invalid-FirstInvalid :
    {T : Type 0} (ops : TlbOps T) (t : T) (rounds i end : ℕ)
    → i + rounds ≡ end
    → FirstInvalid ops t i end (find_invalid ops t rounds i)
unfolding find_invalid
find_invalid-FirstInvalid ops t zero i end h = λ j a b. absurd (omega arith)
find_invalid-FirstInvalid ops t (suc rounds) i end h = elim (Bool-cases (is_valid ops t i)) [
  | inr e ↦ rw e (omega arith, omega arith, e, λ j a b. absurd (omega arith))
  | inl e ↦ rw e (
      FirstInvalid-step ops t i end (find_invalid ops t rounds (i + 1)) e
        (find_invalid-FirstInvalid ops t rounds (i + 1) end (omega arith)))
]

-- A load that fills the lowest invalid slot, as long as the TLB has never been full.
pub record Filled {T : Type 0} (ops : TlbOps T) (m m' : Mmu T) (k : ℕ) : Type 0 where
  pub never_full : m.tlb_full ≡ false
  pub lowest : FirstInvalid ops m.tlb 0 num_tlb (some k)
  pub stats : m'.stats ≡ bumped tlb_fault_with_free m.stats
  pub still : m'.tlb_full ≡ false

-- A load that replaces the entry of the round-robin victim.
pub record Replaced {T : Type 0} (ops : TlbOps T) (m m' : Mmu T) (k : ℕ) : Type 0 where
  pub full : (m.tlb_full ≡ true) ⊎ FirstInvalid ops m.tlb 0 num_tlb none
  pub turn : k ≡ m.next_victim
  pub next : m'.next_victim ≡ (k + 1) % num_tlb
  pub stats : m'.stats ≡ bumped tlb_fault_with_replace m.stats
  pub now_full : m'.tlb_full ≡ true

module _ {T : Type 0} (ops : TlbOps T) (laws : TlbLaws ops) (fa pa : ℕ) (read_only : Bool)
    (m : Mmu T) where
  Loaded-write :
      (m' : Mmu T) (k : ℕ)
      → k < num_tlb
      → m'.tlb ≡ ops.write m.tlb fa (entry_lo pa read_only) k
      → m'.next_victim < num_tlb
      → Loaded ops fa pa read_only m m' k
  Loaded-write m' k h e v = record {
    slot = h;
    here = rw e (laws.read-write_self m.tlb fa (entry_lo pa read_only) k h);
    others = λ j ne. rw e (laws.read-write_ne m.tlb fa (entry_lo pa read_only) k j ne);
    victim = v;
  }

  replace_entry_lem :
      (m0 : Mmu T)
      → m0.tlb_full ≡ true
      → m0.stats.locked ≡ false
      → replace_entry ops fa pa read_only m0
        ≡ ok success (record m0 {
          tlb = ops.write m0.tlb fa (entry_lo pa read_only) m0.next_victim;
          next_victim = (m0.next_victim + 1) % num_tlb;
          stats = bumped tlb_fault_with_replace m0.stats;
        })
  unfolding replace_entry
  replace_entry_lem m0 f l =
      rw (f, vm_stats_inc_lem tlb_fault_with_replace m0.stats (omega arith) l)

  load_filled :
      (k : ℕ)
      → m.tlb_full ≡ false
      → find_invalid ops m.tlb num_tlb 0 ≡ some k
      → m.stats.locked ≡ false
      → tlb_loadentry ops fa pa read_only m
        ≡ ok success (record m {
          tlb = ops.write m.tlb fa (entry_lo pa read_only) k;
          stats = bumped tlb_fault_with_free m.stats;
        })
  unfolding tlb_loadentry
  load_filled k f q l = rw (f, q, vm_stats_inc_lem tlb_fault_with_free m.stats (omega arith) l)

  load_replaced :
      (m.tlb_full ≡ true) ⊎ (find_invalid ops m.tlb num_tlb 0 ≡ none)
      → m.stats.locked ≡ false
      → tlb_loadentry ops fa pa read_only m
        ≡ ok success (record m {
          tlb = ops.write m.tlb fa (entry_lo pa read_only) m.next_victim;
          tlb_full = true;
          next_victim = (m.next_victim + 1) % num_tlb;
          stats = bumped tlb_fault_with_replace m.stats;
        })
  unfolding tlb_loadentry
  load_replaced h l = elim (Bool-cases m.tlb_full) [
    | inl f ↦ ground (arith, vm_stats_inc_lem tlb_fault_with_replace m.stats)
    | inr f ↦ ground (arith, vm_stats_inc_lem tlb_fault_with_replace m.stats)
  ]

  -- With the counters free, tlb_loadentry always succeeds, and it writes exactly one slot: the lowest
  -- invalid one if the TLB has never been full and there is one, else that of the round-robin victim.
  -- It counts one fault, with a free slot or with a replacement.
  pub tlb_loadentry_lem :
      m.stats.locked ≡ false
      → m.next_victim < num_tlb
      → (k : ℕ) × (m' : Mmu T) × (tlb_loadentry ops fa pa read_only m ≡ ok success m')
        × Loaded ops fa pa read_only m m' k
        × (Filled ops m m' k ⊎ Replaced ops m m' k)
  tlb_loadentry_lem l v =
      let spec = find_invalid-FirstInvalid ops m.tlb num_tlb 0 num_tlb refl in
      elim (Bool-cases m.tlb_full) [
        | inl f ↦ replaced (inl f) (inl f)
        | inr f ↦ elim (Option-cases (find_invalid ops m.tlb num_tlb 0)) [
          | inl q ↦ replaced (inr q) (inr (rw q at spec))
          | inr (k, q) ↦
              let lowest = rw q at spec in
              let m' : Mmu T = record m {
                tlb = ops.write m.tlb fa (entry_lo pa read_only) k;
                stats = bumped tlb_fault_with_free m.stats;
              } in
              (
                k,
                m',
                load_filled k f q l,
                Loaded-write m' k lowest.1 refl v,
                inl record { never_full = f; lowest = lowest; stats = refl; still = f },
              )
        ]
      ]
    where
      replaced :
          (m.tlb_full ≡ true) ⊎ (find_invalid ops m.tlb num_tlb 0 ≡ none)
          → (m.tlb_full ≡ true) ⊎ FirstInvalid ops m.tlb 0 num_tlb none
          → (k : ℕ) × (m' : Mmu T) × (tlb_loadentry ops fa pa read_only m ≡ ok success m')
            × Loaded ops fa pa read_only m m' k
            × (Filled ops m m' k ⊎ Replaced ops m m' k)
      replaced why full =
          let m' : Mmu T = record m {
            tlb = ops.write m.tlb fa (entry_lo pa read_only) m.next_victim;
            tlb_full = true;
            next_victim = (m.next_victim + 1) % num_tlb;
            stats = bumped tlb_fault_with_replace m.stats;
          } in
          (
            m.next_victim,
            m',
            load_replaced why l,
            Loaded-write m' m.next_victim v refl (omega arith),
            inr (record { full = full; turn = refl; next = refl; stats = refl; now_full = refl }),
          )
