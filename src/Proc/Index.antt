-- ===== src/Proc/Index.antt =====
-- The search for a free index in the table of pids: it ends, and it misses the last index only.
use paging_os.Base.{
  ℕ, zero, suc, ◌+◌, ◌-◌, ◌<◌, ◌≤◌, ◌≡◌, ◌≢◌, refl, inl, inr, false, Option, none, some, arith, leb,
  ◌==◌, if◌then◌else◌, get_elem?, get_elem?_of_lt, length, Bool-cases,
}
use paging_os.Machine.{ok}
use paging_os.Proc.{Procs, max_proc, find_index, next_index, table_entry}

-- How many steps the search makes from `i` to `last`, around the table.
abbrev pub distance : (last i : ℕ) → ℕ
distance last i = if leb i last then last - i else last + max_proc - i

-- `i` is an index of a pid.
abbrev pub IsIndex : ℕ → Type 0
IsIndex i = (0 < i) × (i ≤ max_proc)

-- The search from behind `last` meets every other index.
pub distance_next :
    (last k : ℕ)
    → last ≤ max_proc
    → IsIndex k
    → k ≢ last
    → distance last k ≤ distance last (next_index last)
distance_next last k hl hk ne = ground arith

module _ {W : Type 0} (s : Procs W) where
  -- What a search from `i` on finds: a free index, or that every index before `last` is taken.
  abbrev pub Found : (last i : ℕ) → Option ℕ → Type 0
  Found last i (some r) = IsIndex r × (r ≢ last) × (get_elem? s.process_table.proc r ≡ some 0)
  Found last i none =
      (k : ℕ)
      → IsIndex k
      → k ≢ last
      → distance last k ≤ distance last i
      → (e : ℕ) × (get_elem? s.process_table.proc k ≡ some e) × (e ≢ 0)

  Found-next :
      (last i e : ℕ) (o : Option ℕ)
      → IsIndex i
      → IsIndex last
      → i ≢ last
      → get_elem? s.process_table.proc i ≡ some e
      → e ≢ 0
      → Found last (next_index i) o
      → Found last i o
  Found-next last i e (some r) hi hl ne h live f = f
  Found-next last i e none hi hl ne h live f = λ k hk nk d. elim (Bool-cases (k == i)) [
    | inl q ↦ let z : k ≡ i = ground arith in (e, rw z h, live)
    | inr q ↦
        let closer : distance last k ≤ distance last (next_index i) = ground arith in
        f k hk nk closer
  ]

  -- The first index is free.
  pub find_index_first :
      (last rounds i : ℕ)
      → i ≢ last
      → get_elem? s.process_table.proc i ≡ some 0
      → find_index last (suc rounds) i s ≡ ok (some i) s
  unfolding find_index table_entry
  find_index_first last rounds i ne h = let e : (i == last) ≡ false = ground arith in ground arith

  -- The search from `i` on ends.
  pub find_index-Found :
      (last rounds i : ℕ)
      → length s.process_table.proc ≡ max_proc + 1
      → IsIndex i
      → IsIndex last
      → distance last i < rounds
      → (o : Option ℕ) × (find_index last rounds i s ≡ ok o s) × Found last i o
  unfolding find_index table_entry
  find_index-Found last zero i size hi hl fuel = absurd (omega arith)
  find_index-Found last (suc rounds) i size hi hl fuel = elim (Bool-cases (i == last)) [
    | inl q ↦ (none, rw q refl, λ k hk nk d. absurd (nk (ground arith)))
    | inr q ↦
        let (e, h) = get_elem?_of_lt s.process_table.proc i (omega arith) in
        elim (Bool-cases (e == 0)) [
          | inl z ↦
              let free : get_elem? s.process_table.proc i ≡ some 0 = ground arith in
              (some i, ground arith, (hi, (λ w. ground arith), free))
          | inr z ↦
              let (o, run, found) =
                find_index-Found last rounds (next_index i) size (ground arith) hl (ground arith) in
              (
                o,
                ground arith,
                Found-next last i e o hi hl (λ w. ground arith) h (λ w. ground arith) found,
              )
        ]
  ]
