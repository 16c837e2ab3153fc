-- ===== src/Synch/Channels.antt =====
-- The lists of sleeping threads agree with the places of the threads, whatever is added or woken.
use paging_os.Base.{
  occ, ℕ, ◌+◌, ◌≤◌, ◌≡◌, ◌≢◌, refl, Option, none, some, List, [], ◌∷◌, ◌++◌, arith, ◌==◌,
  if◌then◌else◌, Bool-cases, inl, inr, ◌⊎◌, sym, ==_refl,
}
use paging_os.Synch.{
  Place, outside, trying, asleep, passed, holding, releasing, waiting, cv_asleep, put, wakeone,
}

-- 1 for a place at which a thread sleeps on the channel of the semaphore, or of the condition variable.
abbrev pub at_sem : Place → ℕ
at_sem asleep = 1
at_sem _ = 0

abbrev pub at_cv : Place → ℕ
at_cv cv_asleep = 1
at_cv _ = 0

-- The threads of a channel are those at its place, each once.
abbrev pub Listed : (Place → ℕ) → List ℕ → (ℕ → Place) → Type 0
Listed spot l f = (x : ℕ) → occ x l ≡ spot (f x)

occ-append : (x t : ℕ) (l : List ℕ) → occ x (l ++ t ∷ []) ≡ occ x l + (if x == t then 1 else 0)
occ-append x t [] = omega arith
occ-append x t (w ∷ l) = omega (arith, occ-append x t l)

at_sem-le : (p : Place) → at_sem p ≤ 1
at_sem-le asleep = omega arith
at_sem-le outside = omega arith
at_sem-le trying = omega arith
at_sem-le passed = omega arith
at_sem-le holding = omega arith
at_sem-le releasing = omega arith
at_sem-le waiting = omega arith
at_sem-le cv_asleep = omega arith

pub at_cv-le : (p : Place) → at_cv p ≤ 1
at_cv-le asleep = omega arith
at_cv-le outside = omega arith
at_cv-le trying = omega arith
at_cv-le passed = omega arith
at_cv-le holding = omega arith
at_cv-le releasing = omega arith
at_cv-le waiting = omega arith
at_cv-le cv_asleep = omega arith

-- A thread sleeps on one channel at most.
pub at_cv_of_sem : (p : Place) → at_sem p ≢ 0 → at_cv p ≡ 0
at_cv_of_sem cv_asleep h = absurd (h refl)
at_cv_of_sem asleep h = refl
at_cv_of_sem outside h = refl
at_cv_of_sem trying h = refl
at_cv_of_sem passed h = refl
at_cv_of_sem holding h = refl
at_cv_of_sem releasing h = refl
at_cv_of_sem waiting h = refl

pub at_sem_of_cv : (p : Place) → at_cv p ≢ 0 → at_sem p ≡ 0
at_sem_of_cv p h = elim (Bool-cases (at_sem p == 0)) [
  | inl e ↦ ground arith
  | inr e ↦ absurd (h (at_cv_of_sem p (ground arith)))
]

module _ (spot : Place → ℕ) (f : ℕ → Place) (l : List ℕ) (v : Listed spot l f) where
  pub Listed-keep : (t : ℕ) (p : Place) → spot p ≡ spot (f t) → Listed spot l (put t p f)
  Listed-keep t p h x = elim (Bool-cases (x == t)) [
    | inl e ↦ let q : x ≡ t = ground arith in rw (e, h, ← q) (v x)
    | inr e ↦ rw e (v x)
  ]

  pub Listed-add :
      (t : ℕ) (p : Place) → spot (f t) ≡ 0 → spot p ≡ 1 → Listed spot (l ++ t ∷ []) (put t p f)
  Listed-add t p from to x =
      let o = occ-append x t l in
      elim (Bool-cases (x == t)) [
        | inl e ↦
            let q : x ≡ t = ground arith in
            let z : spot (f x) ≡ 0 = rw q from in rw (o, e, to) (omega (arith, v x))
        | inr e ↦ rw (o, e) (omega (arith, v x))
      ]

module _ (spot : Place → ℕ) (bound : (p : Place) → spot p ≤ 1) (f : ℕ → Place) where
  pub Listed-pop :
      (w : ℕ) (rest : List ℕ) (p : Place)
      → Listed spot (w ∷ rest) f
      → spot p ≡ 0
      → Listed spot rest (put w p f)
  Listed-pop w rest p v to x = elim (Bool-cases (x == w)) [
    | inl e ↦ let h = rw e at (v x) in rw (e, to) (omega (arith, h, bound (f x)))
    | inr e ↦ let h = rw e at (v x) in rw e (omega (arith, h))
  ]

  pub Listed-clear :
      (l : List ℕ) (p : Place)
      → Listed spot l f
      → spot p ≡ 0
      → Listed spot [] (λ x. if occ x l == 0 then f x else p)
  Listed-clear l p v to x = elim (Bool-cases (occ x l == 0)) [
    | inl e ↦ rw e (ground (arith, v x))
    | inr e ↦ rw (e, to)
  ]

-- The head of a channel is at its place.
pub Listed-head :
    (spot : Place → ℕ) (f : ℕ → Place) (w : ℕ) (rest : List ℕ)
    → Listed spot (w ∷ rest) f
    → spot (f w) ≢ 0
Listed-head spot f w rest v z = let h = rw (==_refl w) at (v w) in omega (arith, h)

-- The places after V woke the head of the channel.
abbrev pub woken : Option ℕ → (ℕ → Place) → ℕ → Place
woken none f = f
woken (some w) f = put w trying f

pub record Woken (l cv : List ℕ) (f : ℕ → Place) : Type 0 where
  pub sems : Listed at_sem (wakeone l).1 (woken (wakeone l).0 f)
  pub cvs : Listed at_cv cv (woken (wakeone l).0 f)
  pub same : (x : ℕ) → at_sem (f x) ≡ 0 → woken (wakeone l).0 f x ≡ f x
  pub pending :
      (w : ℕ) (rest : List ℕ)
      → (wakeone l).1 ≡ w ∷ rest
      → (x : ℕ) × (at_sem (f x) ≢ 0) × (woken (wakeone l).0 f x ≡ trying)
  -- each thread is where it was, or looks at the count
  pub only : (x : ℕ) → (woken (wakeone l).0 f x ≡ f x) ⊎ (woken (wakeone l).0 f x ≡ trying)

pub wakeone-Woken :
    (l cv : List ℕ) (f : ℕ → Place) → Listed at_sem l f → Listed at_cv cv f → Woken l cv f
unfolding wakeone
wakeone-Woken [] cv f vs vc = record {
  sems = vs;
  cvs = vc;
  same = λ x h. refl;
  pending = λ w rest h. cc h;
  only = λ x. inl refl;
}
wakeone-Woken (w ∷ l) cv f vs vc =
    let head = Listed-head at_sem f w l vs in
    record {
      sems = Listed-pop at_sem at_sem-le f w l trying vs refl;
      cvs = Listed-keep at_cv f cv vc w trying (sym (at_cv_of_sem (f w) head));
      same = λ x h. elim (Bool-cases (x == w)) [
        | inl e ↦ let q : x ≡ w = ground arith in absurd (head (rw q at h))
        | inr e ↦ rw e
      ];
      pending = λ w' rest h. (w, head, rw (==_refl w));
      only = λ x. elim (Bool-cases (x == w)) [ inl e ↦ rw e (inr refl) | inr e ↦ rw e (inl refl) ];
    }
