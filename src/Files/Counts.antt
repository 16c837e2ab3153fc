-- ===== src/Files/Counts.antt =====
-- The reference count of an open file is the number of entries that point to it.
use paging_os.Base.{
  ℕ, zero, suc, ◌+◌, ◌<◌, ◌≡◌, ◌≢◌, inl, inr, some, List, [], ◌∷◌, arith, ◌==◌, if◌then◌else◌,
  get_elem?, set, update, length, occ, occ-set, occ-pos, length-set, update_inv,
}
use paging_os.Machine.{u32}
use paging_os.Files.{OpenFile, Files}

-- The number of entries, in all tables, that point to slot `j`.
abbrev pub refs : List (List ℕ) → (j : ℕ) → ℕ
refs [] j = 0
refs (table ∷ tables) j = occ (suc j) table + refs tables j

-- A write to one entry of one table.
pub refs-set :
    (tables : List (List ℕ)) (process fd old new x : ℕ) (table : List ℕ)
    → get_elem? tables process ≡ some table
    → get_elem? table fd ≡ some old
    → refs (update tables process λ t. set t fd new) x + (if suc x == old then 1 else 0)
      ≡ refs tables x + (if suc x == new then 1 else 0)
refs-set [] process fd old new x table h q = absurd (cc h)
refs-set (t ∷ tables) zero fd old new x table h q =
    let e : t ≡ table = cc h in
    let q' : get_elem? t fd ≡ some old = rw e q in omega (arith, occ-set (suc x) t fd old new q')
refs-set (t ∷ tables) (suc process) fd old new x table h q =
    omega (arith, refs-set tables process fd old new x table h q)

pub refs-pos :
    (tables : List (List ℕ)) (process fd j : ℕ) (table : List ℕ)
    → get_elem? tables process ≡ some table
    → get_elem? table fd ≡ some (suc j)
    → 0 < refs tables j
refs-pos [] process fd j table h q = absurd (cc h)
refs-pos (t ∷ tables) zero fd j table h q =
    let e : t ≡ table = cc h in
    let q' : get_elem? t fd ≡ some (suc j) = rw e q in omega (arith, occ-pos t fd (suc j) q')
refs-pos (t ∷ tables) (suc process) fd j table h q =
    omega (arith, refs-pos tables process fd j table h q)

-- What holds of slot `j`, to which `n` entries point.
pub record SlotOk (n : ℕ) (of : OpenFile) : Type 0 where
  pub used : of.vn ≢ 0 → of.count_ref ≡ n
  pub unused : of.vn ≡ 0 → n ≡ 0

-- Each table has its size, each entry points into the system table, and the counts are right.
pub record FilesOk {W : Type 0} (open_max : ℕ) (s : Files W) : Type 0 where
  pub slots : (j : ℕ) (of : OpenFile) → get_elem? s.system j ≡ some of → SlotOk (refs s.tables j) of
  pub in_range : (j : ℕ) → 0 < refs s.tables j → j < length s.system
  pub sizes : (p : ℕ) (table : List ℕ) → get_elem? s.tables p ≡ some table → length table ≡ open_max
  pub few : (j : ℕ) → refs s.tables j < u32

-- The sizes after a write to an entry.
pub sizes-set :
    (tables : List (List ℕ)) (open_max process fd new : ℕ)
    → ((p : ℕ) (table : List ℕ) → get_elem? tables p ≡ some table → length table ≡ open_max)
    → (p : ℕ) (table : List ℕ) → get_elem? (update tables process λ t. set t fd new) p ≡ some table
    → length table ≡ open_max
sizes-set tables open_max process fd new sizes p table h =
    let (t, q, from) = update_inv tables process p (λ t. set t fd new) table h in
    elim from [
      | inl e ↦ rw e (sizes p t q)
      | inr (e, r) ↦ rw (r, length-set t fd new) (sizes p t q)
    ]
