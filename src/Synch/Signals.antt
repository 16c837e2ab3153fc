-- ===== src/Synch/Signals.antt =====
-- The steps of cv_signal and cv_broadcast keep the invariant of a lock.
use paging_os.Base.{
  occ, ℕ, ◌≡◌, ◌≢◌, refl, inl, inr, false, [], ◌∷◌, arith, ◌==◌, ==_refl, Bool-cases, sym, ◌∙◌,
  if◌then◌else◌,
}
use paging_os.Synch.{
  Place, outside, trying, asleep, passed, holding, releasing, waiting, cv_asleep, Action, signal,
  broadcast, System, put, wakeone, step, act, cv_signal, cv_broadcast,
}
use paging_os.Synch.Channels.{
  at_sem, at_cv, at_cv-le, at_sem_of_cv, Listed, Listed-keep, Listed-pop, Listed-clear, Listed-head,
}
use paging_os.Synch.Invariant.{inside, Exclusive, Taken-keep}
use paging_os.Synch.Steps.{Steps, List-cases, holder}

module _ (a : Action) (t : ℕ) (s : System) (v : Exclusive s) where
  -- A thread that sleeps on the condition variable is not inside.
  asleep_outside : (x : ℕ) → at_cv (s.place x) ≢ 0 → inside (s.place x) ≡ false
  asleep_outside x h = by_place (s.place x) h
    where
      by_place : (p : Place) → at_cv p ≢ 0 → inside p ≡ false
      by_place cv_asleep h = refl
      by_place outside h = absurd (h refl)
      by_place trying h = absurd (h refl)
      by_place asleep h = absurd (h refl)
      by_place passed h = absurd (h refl)
      by_place holding h = absurd (h refl)
      by_place releasing h = absurd (h refl)
      by_place waiting h = absurd (h refl)

  pub step-signal : s.place t ≡ holding → a ≡ signal → Steps a t s
  unfolding step act cv_signal wakeone
  step-signal e q =
      let h = holder a t s v e in
      elim (List-cases s.cv.cv_wchan) [
        | inl z ↦
            let u : System = record s { cv = record s.cv { cv_wchan = [] } } in
            (
              u,
              let h1 = h.owner in let h2 = ==_refl t in let h3 = h.cv_spin in ground arith,
              record {
                state = inr (
                  t,
                  record {
                    count = h.k.count;
                    within = h.k.within;
                    others = h.k.others;
                    owner = h.k.owner;
                    spin = h.k.spin;
                    cv_spin = h.k.cv_spin;
                  },
                );
                sems = v.sems;
                cvs = rw z at v.cvs;
                calm = v.calm;
              },
            )
        | inr (w, rest, z) ↦
            let listed : Listed at_cv (w ∷ rest) s.place = rw z at v.cvs in
            let head = Listed-head at_cv s.place w rest listed in
            let u : System = record s {
              cv = record s.cv { cv_wchan = rest };
              place = put w outside s.place;
            } in
            (
              u,
              let h1 = h.owner in let h2 = ==_refl t in let h3 = h.cv_spin in ground arith,
              record {
                state = inr (
                  t,
                  Taken-keep s u w t outside h.k (asleep_outside w head) refl refl refl refl refl
                      refl,
                );
                sems =
                    Listed-keep at_sem s.place s.lock.lk_sem.sem_wchan v.sems w outside
                      (sym (at_sem_of_cv (s.place w) head));
                cvs = Listed-pop at_cv at_cv-le s.place w rest outside listed refl;
                calm = v.calm;
              },
            )
      ]

  -- The places after cv_broadcast.
  abbrev waked : ℕ → Place
  waked x = if occ x s.cv.cv_wchan == 0 then s.place x else outside

  waked-same : (x : ℕ) → at_cv (s.place x) ≡ 0 → waked x ≡ s.place x
  waked-same x h = let o : occ x s.cv.cv_wchan ≡ 0 = v.cvs x ∙ h in rw o refl

  waked-sems : Listed at_sem s.lock.lk_sem.sem_wchan waked
  waked-sems x = elim (Bool-cases (occ x s.cv.cv_wchan == 0)) [
    | inl d ↦ rw d (v.sems x)
    | inr d ↦
        let n : at_cv (s.place x) ≢ 0 = λ z. ground (arith, v.cvs x) in
        rw d (v.sems x ∙ at_sem_of_cv (s.place x) n)
  ]

  pub step-broadcast : s.place t ≡ holding → a ≡ broadcast → Steps a t s
  unfolding step act cv_broadcast
  step-broadcast e q =
      let h = holder a t s v e in
      let same : waked t ≡ s.place t = waked-same t (rw e refl) in
      let u : System = record s { cv = record s.cv { cv_wchan = [] }; place = waked } in
      (
        u,
        let h1 = h.owner in let h2 = ==_refl t in let h3 = h.cv_spin in ground arith,
        record {
          state = inr (
            t,
            record {
              count = h.k.count;
              within = rw same h.k.within;
              others = λ x d. elim (Bool-cases (occ x s.cv.cv_wchan == 0)) [
                | inl o ↦ rw o (h.k.others x d)
                | inr o ↦ rw o refl
              ];
              owner = rw same h.k.owner;
              spin = rw same h.k.spin;
              cv_spin = rw same h.k.cv_spin;
            },
          );
          sems = waked-sems;
          cvs = Listed-clear at_cv at_cv-le s.place s.cv.cv_wchan outside v.cvs refl;
          calm = v.calm;
        },
      )
