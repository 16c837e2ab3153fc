-- ===== src/Base/Updates.antt =====
-- In-place updates of an array: of one cell, and of a range of cells by a counted loop.
use Prim.Native.Nat.{ℕ, zero, suc, ◌+◌, ◌≤◌, ◌<◌}
use mathlib.Core.Path.{◌≡◌, refl, ap, ◌∙◌}
use mathlib.Core.Logic.{◌⊎◌, inl, inr}
use mathlib.Core.Bool.{◌&&◌}
use mathlib.Core.List.{List, [], ◌∷◌, ◌++◌}
use mathlib.Core.Option
use mathlib.Core.Option.{Option, none, some}
use native.Mathlib.Omega.{arith}
use paging_os.Base.Tests.{ltb, leb, ◌==◌, if◌then◌else◌, Option-cases, Bool-cases}
use paging_os.Base.Lists.{length, get_elem?, set}

module _ {ℓ} {A : Type ℓ} where
  -- xs[i] = f(xs[i]); nothing happens out of range.
  abbrev pub update : List A → ℕ → (A → A) → List A
  update [] _ _ = []
  update (x ∷ xs) zero f = f x ∷ xs
  update (x ∷ xs) (suc i) f = x ∷ update xs i f

  -- for (n rounds; i++) xs[i] = f(i, xs[i])
  pub update_range : (ℕ → A → A) → List A → ℕ → ℕ → List A
  update_range f xs zero i = xs
  update_range f xs (suc n) i = update_range f (update xs i (f i)) n (i + 1)

  pub length-update : (xs : List A) (i : ℕ) (f : A → A) → length (update xs i f) ≡ length xs
  length-update [] i f = refl
  length-update (x ∷ xs) zero f = refl
  length-update (x ∷ xs) (suc i) f = ap suc (length-update xs i f)

  pub get_elem?-update :
      (xs : List A) (i j : ℕ) (f : A → A)
      → get_elem? (update xs i f) j
        ≡ (if i == j then Option.map f (get_elem? xs j) else get_elem? xs j)
  get_elem?-update [] i j f = ground arith
  get_elem?-update (x ∷ xs) zero zero f = ground arith
  get_elem?-update (x ∷ xs) zero (suc j) f = ground arith
  get_elem?-update (x ∷ xs) (suc i) zero f = ground arith
  get_elem?-update (x ∷ xs) (suc i) (suc j) f = ground (arith, get_elem?-update xs i j f)

  pub length-update_range :
      (f : ℕ → A → A) (xs : List A) (n i : ℕ) → length (update_range f xs n i) ≡ length xs
  unfolding update_range
  length-update_range f xs zero i = refl
  length-update_range f xs (suc n) i =
      length-update_range f (update xs i (f i)) n (i + 1) ∙ length-update xs i (f i)

  pub get_elem?-update_range :
      (f : ℕ → A → A) (xs : List A) (n i j : ℕ)
      → get_elem? (update_range f xs n i) j
        ≡ (if leb i j && ltb j (i + n) then Option.map (f j) (get_elem? xs j) else get_elem? xs j)
  unfolding update_range
  get_elem?-update_range f xs zero i j = ground arith
  get_elem?-update_range f xs (suc n) i j = ground (
    arith,
    get_elem?-update_range f (update xs i (f i)) n (i + 1) j,
    get_elem?-update xs i j (f i),
  )

  -- Where an entry of an updated array comes from.
  pub update_inv :
      (xs : List A) (i j : ℕ) (f : A → A) (e : A)
      → get_elem? (update xs i f) j ≡ some e
      → (a : A) × (get_elem? xs j ≡ some a) × ((e ≡ a) ⊎ ((i ≡ j) × (e ≡ f a)))
  update_inv xs i j f e h = elim (Option-cases (get_elem? xs j)) [
    | inl q ↦ absurd (ground (arith, get_elem?-update xs i j f))
    | inr (a, q) ↦ (a, q, ground (arith, get_elem?-update xs i j f))
  ]

  pub update_range_inv :
      (f : ℕ → A → A) (xs : List A) (n i j : ℕ) (e : A)
      → get_elem? (update_range f xs n i) j ≡ some e
      → (a : A) × (get_elem? xs j ≡ some a) × ((e ≡ a) ⊎ ((i ≤ j) × (j < i + n) × (e ≡ f j a)))
  update_range_inv f xs n i j e h = elim (Option-cases (get_elem? xs j)) [
    | inl q ↦ absurd (ground (arith, get_elem?-update_range f xs n i j))
    | inr (a, q) ↦
        let here = get_elem?-update_range f xs n i j in
        elim (Bool-cases (leb i j && ltb j (i + n))) [
          | inl t ↦
              let in_range : (i ≤ j) × (j < i + n) = ground arith in
              (a, q, inr (in_range.0, in_range.1, cc (rw (t, q) at here)))
          | inr t ↦ (a, q, inl (cc (rw (t, q) at here)))
        ]
  ]

-- How often a number stands in a list.
abbrev pub occ : ℕ → List ℕ → ℕ
occ x [] = 0
occ x (w ∷ rest) = (if x == w then 1 else 0) + occ x rest

-- A write changes the count by the numbers that it removes and adds.
pub occ-set :
    (x : ℕ) (l : List ℕ) (i old new : ℕ)
    → get_elem? l i ≡ some old
    → occ x (set l i new) + (if x == old then 1 else 0) ≡ occ x l + (if x == new then 1 else 0)
occ-set x [] i old new h = absurd (cc h)
occ-set x (w ∷ l) zero old new h = let q : w ≡ old = cc h in rw q (omega arith)
occ-set x (w ∷ l) (suc i) old new h = omega (arith, occ-set x l i old new h)

pub occ-pos : (l : List ℕ) (i x : ℕ) → get_elem? l i ≡ some x → 0 < occ x l
occ-pos [] i x h = absurd (cc h)
occ-pos (w ∷ l) zero x h = let q : w ≡ x = cc h in ground arith
occ-pos (w ∷ l) (suc i) x h = omega (arith, occ-pos l i x h)

pub occ-append : (x : ℕ) (l m : List ℕ) → occ x (l ++ m) ≡ occ x l + occ x m
occ-append x [] m = omega arith
occ-append x (w ∷ l) m = omega (arith, occ-append x l m)

-- f with the value v at i
abbrev pub write {ℓ} : {A : Type ℓ} → (i : ℕ) → (v : A) → (ℕ → A) → ℕ → A
write i v f x = if x == i then v else f x
