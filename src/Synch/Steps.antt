-- ===== src/Synch/Steps.antt =====
-- The steps of lock_acquire, and those of a thread that begins to give the lock back, keep the invariant.
use paging_os.Base.{
  ℕ, ◌≡◌, refl, ◌⊎◌, inl, inr, false, Option, none, some, List, [], ◌∷◌, ◌++◌, arith, ◌==◌, ==_refl,
  Bool-cases,
}
use paging_os.Machine.{ok}
use paging_os.Synch.{
  Place, outside, trying, asleep, passed, holding, releasing, waiting, Action, release, wait,
  System, put, step, act, lock_acquire_enter, lock_acquire_try, lock_acquire_own,
  lock_release_start, p_round, cv_wait_start,
}
use paging_os.Synch.Channels.{at_sem, at_cv, Listed, Listed-keep, Listed-add}
use paging_os.Synch.Invariant.{
  inside, Taken, Exclusive, Taken-keep, Taken-move, Taken-self, not_owner,
}

spin-cases : (o : Option ℕ) → (o ≡ none) ⊎ ((h : ℕ) × (o ≡ some h))
spin-cases none = inl refl
spin-cases (some h) = inr (h, refl)

pub List-cases : (l : List ℕ) → (l ≡ []) ⊎ ((w : ℕ) × (rest : List ℕ) × (l ≡ w ∷ rest))
List-cases [] = inl refl
List-cases (w ∷ rest) = inr (w, rest, refl)

-- What a step does to a state in which the invariant holds: it returns, and the invariant holds.
abbrev pub Steps : Action → (t : ℕ) → System → Type 0
Steps a t s = (u : System) × (step a t s ≡ ok tt u) × Exclusive u

module _ (a : Action) (t : ℕ) (s : System) (v : Exclusive s) where
  -- The channels after the thread moved between places without sleep.
  sems-keep :
      (p : Place)
      → at_sem p ≡ at_sem (s.place t)
      → Listed at_sem s.lock.lk_sem.sem_wchan (put t p s.place)
  sems-keep p h = Listed-keep at_sem s.place s.lock.lk_sem.sem_wchan v.sems t p h

  cvs-keep :
      (p : Place) → at_cv p ≡ at_cv (s.place t) → Listed at_cv s.cv.cv_wchan (put t p s.place)
  cvs-keep p h = Listed-keep at_cv s.place s.cv.cv_wchan v.cvs t p h

  pub step-outside : s.place t ≡ outside → Steps a t s
  unfolding step lock_acquire_enter
  step-outside e = elim (spin-cases s.lock.lk_lock) [
    | inr (h, q) ↦ (s, rw (step, e, q), v)
    | inl q ↦
        let out : inside (s.place t) ≡ false = rw e refl in
        let mine = not_owner s t v out in
        let calm = v.calm t in
        let u : System = record s { place = put t trying s.place } in
        (
          u,
          rw (step, e, q, mine, calm),
          record {
            state = elim v.state [
              | inl f ↦ inl record {
                count = f.count;
                nobody = λ x. elim (Bool-cases (x == t)) [
                  | inl d ↦ rw d refl
                  | inr d ↦ rw d (f.nobody x)
                ];
                owner = f.owner;
                spin = f.spin;
                cv_spin = f.cv_spin;
                pending = λ w rest h. (t, rw (==_refl t));
              }
              | inr (h, k) ↦ inr (h, Taken-keep s u t h trying k out refl refl refl refl refl refl)
            ];
            sems = sems-keep trying (rw e refl);
            cvs = cvs-keep trying (rw e refl);
            calm = v.calm;
          },
        )
  ]

  pub step-trying : s.place t ≡ trying → Steps a t s
  unfolding step lock_acquire_try p_round
  step-trying e = elim v.state [
    | inl f ↦
        let u : System = record s {
          lock = record s.lock { lk_sem = record s.lock.lk_sem { sem_count = 0 } };
          place = put t passed s.place;
        } in
        (
          u,
          rw (step, e, f.count),
          record {
            state = inr (
              t,
              record {
                count = refl;
                within = rw (==_refl t) refl;
                others = λ x d. let n : (x == t) ≡ false = ground arith in rw n (f.nobody x);
                owner = rw (==_refl t) f.owner;
                spin = rw (==_refl t) f.spin;
                cv_spin = rw (==_refl t) f.cv_spin;
              },
            );
            sems = sems-keep passed (rw e refl);
            cvs = cvs-keep passed (rw e refl);
            calm = v.calm;
          },
        )
    | inr (h, k) ↦
        let l = s.lock.lk_sem.sem_wchan in
        let u : System = record s {
          lock = record s.lock { lk_sem = record s.lock.lk_sem { sem_wchan = l ++ t ∷ [] } };
          place = put t asleep s.place;
        } in
        (
          u,
          rw (step, e, k.count),
          record {
            state = inr (h, Taken-keep s u t h asleep k (rw e refl) refl refl refl refl refl refl);
            sems = Listed-add at_sem s.place l v.sems t asleep (rw e refl) refl;
            cvs = cvs-keep asleep (rw e refl);
            calm = v.calm;
          },
        )
  ]

  pub step-passed : s.place t ≡ passed → Steps a t s
  unfolding step lock_acquire_own
  step-passed e =
      let k = Taken-self s t v (rw e refl) in
      let owner : s.lock.lk_owner ≡ none = rw e at k.owner in
      let spin : s.lock.lk_lock ≡ none = rw e at k.spin in
      let cv_spin : s.cv.cv_lock ≡ none = rw e at k.cv_spin in
      let u : System = record s {
        lock = record s.lock { lk_owner = some t };
        place = put t holding s.place;
      } in
      (
        u,
        rw (step, e, spin, owner),
        record {
          state = inr (t, Taken-move s u t holding k refl refl k.count refl spin cv_spin);
          sems = sems-keep holding (rw e refl);
          cvs = cvs-keep holding (rw e refl);
          calm = v.calm;
        },
      )

  -- A thread that holds the lock.
  pub record Holder : Type 0 where
    pub k : Taken s t
    pub owner : s.lock.lk_owner ≡ some t
    pub spin : s.lock.lk_lock ≡ none
    pub cv_spin : s.cv.cv_lock ≡ none

  pub holder : s.place t ≡ holding → Holder
  holder e =
      let k = Taken-self s t v (rw e refl) in
      record { k = k; owner = rw e at k.owner; spin = rw e at k.spin; cv_spin = rw e at k.cv_spin }

  pub step-release : s.place t ≡ holding → a ≡ release → Steps a t s
  unfolding step act lock_release_start
  step-release e q =
      let h = holder e in
      let u : System = record s {
        lock = record s.lock { lk_owner = none; lk_lock = some t };
        place = put t releasing s.place;
      } in
      (
        u,
        rw (step, e, q, h.spin, h.owner, ==_refl t),
        record {
          state = inr (t, Taken-move s u t releasing h.k refl refl h.k.count refl refl h.cv_spin);
          sems = sems-keep releasing (rw e refl);
          cvs = cvs-keep releasing (rw e refl);
          calm = v.calm;
        },
      )

  pub step-wait : s.place t ≡ holding → a ≡ wait → Steps a t s
  unfolding step act cv_wait_start
  step-wait e q =
      let h = holder e in
      let u : System = record s {
        lock = record s.lock { lk_owner = none; lk_lock = some t };
        cv = record s.cv { cv_lock = some t };
        place = put t waiting s.place;
      } in
      (
        u,
        rw (step, e, q, h.owner, ==_refl t, h.cv_spin, h.spin),
        record {
          state = inr (t, Taken-move s u t waiting h.k refl refl h.k.count refl refl refl);
          sems = sems-keep waiting (rw e refl);
          cvs = cvs-keep waiting (rw e refl);
          calm = v.calm;
        },
      )
