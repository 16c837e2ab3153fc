-- ===== src/Synch/Invariant.antt =====
-- The invariant of a lock with its condition variable: one thread at a time is behind P, and the
-- channels list the threads that sleep.
use paging_os.Base.{
  ℕ, ◌≡◌, ◌≢◌, refl, ◌⊎◌, inl, inr, Bool, true, false, Option, none, some, List, ◌∷◌, arith, ◌==◌,
  ==_refl, Bool-cases, ◌∙◌,
}
use paging_os.Synch.{
  Place, outside, trying, asleep, passed, holding, releasing, waiting, cv_asleep, System, put,
  initial, lock_do_i_hold,
}
use paging_os.Synch.Channels.{at_sem, at_cv, Listed}

-- A thread has come through P, and has not called V yet.
abbrev pub inside : Place → Bool
inside outside = false
inside trying = false
inside asleep = false
inside passed = true
inside holding = true
inside releasing = true
inside waiting = true
inside cv_asleep = false

-- What the fields of the lock and of the condition variable are when thread `h` is inside at this
-- place.
abbrev pub owner_at : Place → (h : ℕ) → Option ℕ
owner_at holding h = some h
owner_at _ h = none

abbrev pub spin_at : Place → (h : ℕ) → Option ℕ
spin_at releasing h = some h
spin_at waiting h = some h
spin_at _ h = none

abbrev pub cv_spin_at : Place → (h : ℕ) → Option ℕ
cv_spin_at waiting h = some h
cv_spin_at _ h = none

-- No thread is inside; and if one sleeps in P, then another is about to look at the count.
pub record Free (s : System) : Type 0 where
  pub count : s.lock.lk_sem.sem_count ≡ 1
  pub nobody : (x : ℕ) → inside (s.place x) ≡ false
  pub owner : s.lock.lk_owner ≡ none
  pub spin : s.lock.lk_lock ≡ none
  pub cv_spin : s.cv.cv_lock ≡ none
  pub pending :
      (w : ℕ) (rest : List ℕ) → s.lock.lk_sem.sem_wchan ≡ w ∷ rest → (x : ℕ) × (s.place x ≡ trying)

-- Thread `h` is inside, and no other.
pub record Taken (s : System) (h : ℕ) : Type 0 where
  pub count : s.lock.lk_sem.sem_count ≡ 0
  pub within : inside (s.place h) ≡ true
  pub others : (x : ℕ) → x ≢ h → inside (s.place x) ≡ false
  pub owner : s.lock.lk_owner ≡ owner_at (s.place h) h
  pub spin : s.lock.lk_lock ≡ spin_at (s.place h) h
  pub cv_spin : s.cv.cv_lock ≡ cv_spin_at (s.place h) h

pub record Exclusive (s : System) : Type 0 where
  pub state : Free s ⊎ ((h : ℕ) × Taken s h)
  pub sems : Listed at_sem s.lock.lk_sem.sem_wchan s.place
  pub cvs : Listed at_cv s.cv.cv_wchan s.place
  pub calm : (x : ℕ) → s.in_interrupt x ≡ false

-- A thread that is not inside moves to a place that is not either, while `h` stays where it is.
pub Taken-keep :
    (s u : System) (t h : ℕ) (p : Place)
    → Taken s h
    → inside (s.place t) ≡ false
    → inside p ≡ false
    → u.place ≡ put t p s.place
    → u.lock.lk_sem.sem_count ≡ s.lock.lk_sem.sem_count
    → u.lock.lk_owner ≡ s.lock.lk_owner
    → u.lock.lk_lock ≡ s.lock.lk_lock
    → u.cv.cv_lock ≡ s.cv.cv_lock
    → Taken u h
Taken-keep s u t h p k from to moved count owner spin cv_spin =
    let ne : (h == t) ≡ false = elim (Bool-cases (h == t)) [
      | inl e ↦ let q : h ≡ t = ground arith in let w = rw q at k.within in absurd (cc (w, from))
      | inr e ↦ e
    ] in
    record {
      count = count ∙ k.count;
      within = rw (moved, ne) k.within;
      others = λ x d.
          rw moved (elim (Bool-cases (x == t)) [ inl e ↦ rw e to | inr e ↦ rw e (k.others x d) ]);
      owner = rw (moved, ne) (owner ∙ k.owner);
      spin = rw (moved, ne) (spin ∙ k.spin);
      cv_spin = rw (moved, ne) (cv_spin ∙ k.cv_spin);
    }

-- The thread that is inside moves on inside.
pub Taken-move :
    (s u : System) (t : ℕ) (p : Place)
    → Taken s t
    → inside p ≡ true
    → u.place ≡ put t p s.place
    → u.lock.lk_sem.sem_count ≡ 0
    → u.lock.lk_owner ≡ owner_at p t
    → u.lock.lk_lock ≡ spin_at p t
    → u.cv.cv_lock ≡ cv_spin_at p t
    → Taken u t
Taken-move s u t p k i moved count owner spin cv_spin = record {
  count = count;
  within = rw (moved, ==_refl t) i;
  others = λ x d. let e : (x == t) ≡ false = ground arith in rw (moved, e) (k.others x d);
  owner = rw (moved, ==_refl t) owner;
  spin = rw (moved, ==_refl t) spin;
  cv_spin = rw (moved, ==_refl t) cv_spin;
}

-- A thread that is inside is the only one.
pub Taken-self : (s : System) (t : ℕ) → Exclusive s → inside (s.place t) ≡ true → Taken s t
Taken-self s t v i = elim v.state [
  | inl f ↦ absurd (cc (f.nobody t, i))
  | inr (h, k) ↦ elim (Bool-cases (h == t)) [
    | inl e ↦ let q : h ≡ t = ground arith in rw q at k
    | inr e ↦ let w = k.others t (ground arith) in absurd (cc (w, i))
  ]
]

-- lock_do_i_hold is false for a thread that is not inside.
pub not_owner :
    (s : System) (t : ℕ)
    → Exclusive s
    → inside (s.place t) ≡ false
    → lock_do_i_hold t s.lock ≡ false
not_owner s t v i = elim v.state [
  | inl f ↦ rw f.owner
  | inr (h, k) ↦ elim (Bool-cases (h == t)) [
    | inl q ↦ let z : h ≡ t = ground arith in let w = rw z at k.within in absurd (cc (w, i))
    | inr q ↦ owner_case (s.place h) h k.owner q
  ]
]
  where
    owner_case :
        (p : Place) (h : ℕ)
        → s.lock.lk_owner ≡ owner_at p h
        → (h == t) ≡ false
        → lock_do_i_hold t s.lock ≡ false
    owner_case outside h o q = rw o
    owner_case trying h o q = rw o
    owner_case asleep h o q = rw o
    owner_case passed h o q = rw o
    owner_case releasing h o q = rw o
    owner_case waiting h o q = rw o
    owner_case cv_asleep h o q = rw o
    owner_case holding h o q = rw o q

pub initial-Exclusive : Exclusive initial
initial-Exclusive = record {
  state = inl record {
    count = refl;
    nobody = λ x. refl;
    owner = refl;
    spin = refl;
    cv_spin = refl;
    pending = λ w rest h. absurd (cc h);
  };
  sems = λ x. refl;
  cvs = λ x. refl;
  calm = λ x. refl;
}
