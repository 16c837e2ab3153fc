-- ===== src/Synch/Releases.antt =====
-- The steps that call V keep the invariant of a lock.
use paging_os.Base.{
  ℕ, ◌≡◌, refl, inl, inr, false, Option, none, some, [], ◌∷◌, ◌++◌, arith, ◌==◌, Bool-cases, sym,
  ◌∙◌,
}
use paging_os.Machine.{ok}
use paging_os.Synch.{
  Place, outside, releasing, waiting, cv_asleep, Action, System, put, wakeone, step,
  lock_release_end, v_round, cv_wait_sleep,
}
use paging_os.Synch.Channels.{at_sem, at_cv, Listed-keep, Listed-add, woken, Woken, wakeone-Woken}
use paging_os.Synch.Invariant.{inside, Free, Taken, Exclusive, Taken-self}
use paging_os.Synch.Steps.{Steps}

module _ (a : Action) (t : ℕ) (s : System) (v : Exclusive s) where
  -- The places behind a V, for a thread that is about to leave the lock.
  abbrev freed : ℕ → Place
  freed = woken (wakeone s.lock.lk_sem.sem_wchan).0 s.place

  freed-Woken : Woken s.lock.lk_sem.sem_wchan s.cv.cv_wchan s.place
  freed-Woken = wakeone-Woken s.lock.lk_sem.sem_wchan s.cv.cv_wchan s.place v.sems v.cvs

  freed-inside : (x : ℕ) → inside (s.place x) ≡ false → inside (freed x) ≡ false
  freed-inside x h = elim (freed-Woken.only x) [ inl e ↦ rw e h | inr e ↦ rw e refl ]

  -- The state of the lock after a V and the move of the thread out of it.
  freed-Free :
      (u : System) (p : Place)
      → Taken s t
      → at_sem (s.place t) ≡ 0
      → inside p ≡ false
      → u.place ≡ put t p freed
      → u.lock.lk_sem.sem_count ≡ 1
      → u.lock.lk_sem.sem_wchan ≡ (wakeone s.lock.lk_sem.sem_wchan).1
      → u.lock.lk_owner ≡ none
      → u.lock.lk_lock ≡ none
      → u.cv.cv_lock ≡ none
      → Free u
  freed-Free u p k awake to moved count chan owner spin cv_spin = record {
    count = count;
    nobody = λ x. elim (Bool-cases (x == t)) [
      | inl d ↦ rw (moved, d) to
      | inr d ↦ rw (moved, d) (freed-inside x (k.others x (ground arith)))
    ];
    owner = owner;
    spin = spin;
    cv_spin = cv_spin;
    pending = λ w rest h.
        let (x, slept, now) = freed-Woken.pending w rest (sym chan ∙ h) in
        let n : (x == t) ≡ false = elim (Bool-cases (x == t)) [
          | inl d ↦ let q : x ≡ t = ground arith in absurd (slept (rw q awake))
          | inr d ↦ d
        ] in
        (x, rw (moved, n) now);
  }

  -- What V does to the semaphore.
  v_round-Taken :
      Taken s t
      → v_round s.lock.lk_sem
        ≡ ok
            (wakeone s.lock.lk_sem.sem_wchan).0
            (record { sem_count = 1; sem_wchan = (wakeone s.lock.lk_sem.sem_wchan).1 })
  unfolding v_round
  v_round-Taken k = rw k.count

  pub step-releasing : s.place t ≡ releasing → Steps a t s
  unfolding step lock_release_end
  step-releasing e =
      let k = Taken-self s t v (rw e refl) in
      let owner : s.lock.lk_owner ≡ none = rw e at k.owner in
      let cv_spin : s.cv.cv_lock ≡ none = rw e at k.cv_spin in
      let r = wakeone s.lock.lk_sem.sem_wchan in
      let u : System = record s {
        lock = record s.lock { lk_sem = record { sem_count = 1; sem_wchan = r.1 }; lk_lock = none };
        place = put t outside freed;
      } in
      let stay : freed t ≡ s.place t = freed-Woken.same t (rw e refl) in
      (
        u,
        after_v e k r.0 refl,
        record {
          state = inl (freed-Free u outside k (rw e refl) refl refl refl refl owner refl cv_spin);
          sems = Listed-keep at_sem freed r.1 freed-Woken.sems t outside (rw (stay, e));
          cvs = Listed-keep at_cv freed s.cv.cv_wchan freed-Woken.cvs t outside (rw (stay, e));
          calm = v.calm;
        },
      )
    where
      after_v :
          s.place t ≡ releasing
          → Taken s t
          → (o : Option ℕ) → (wakeone s.lock.lk_sem.sem_wchan).0 ≡ o
          → step a t s
            ≡ ok tt (record s {
              lock = record s.lock {
                lk_sem = record { sem_count = 1; sem_wchan = (wakeone s.lock.lk_sem.sem_wchan).1 };
                lk_lock = none;
              };
              place = put t outside (woken (wakeone s.lock.lk_sem.sem_wchan).0 s.place);
            })
      after_v e k none q = rw (step, e, v_round-Taken k, q)
      after_v e k (some w) q = rw (step, e, v_round-Taken k, q)

  pub step-waiting : s.place t ≡ waiting → Steps a t s
  unfolding step cv_wait_sleep
  step-waiting e =
      let k = Taken-self s t v (rw e refl) in
      let owner : s.lock.lk_owner ≡ none = rw e at k.owner in
      let r = wakeone s.lock.lk_sem.sem_wchan in
      let u : System = record s {
        lock = record s.lock { lk_sem = record { sem_count = 1; sem_wchan = r.1 }; lk_lock = none };
        cv = record { cv_wchan = s.cv.cv_wchan ++ t ∷ []; cv_lock = none };
        place = put t cv_asleep freed;
      } in
      let stay : freed t ≡ s.place t = freed-Woken.same t (rw e refl) in
      (
        u,
        after_v e k r.0 refl,
        record {
          state = inl (freed-Free u cv_asleep k (rw e refl) refl refl refl refl owner refl refl);
          sems = Listed-keep at_sem freed r.1 freed-Woken.sems t cv_asleep (rw (stay, e));
          cvs =
              Listed-add at_cv freed s.cv.cv_wchan freed-Woken.cvs t cv_asleep (rw (stay, e)) refl;
          calm = v.calm;
        },
      )
    where
      after_v :
          s.place t ≡ waiting
          → Taken s t
          → (o : Option ℕ) → (wakeone s.lock.lk_sem.sem_wchan).0 ≡ o
          → step a t s
            ≡ ok tt (record s {
              lock = record s.lock {
                lk_sem = record { sem_count = 1; sem_wchan = (wakeone s.lock.lk_sem.sem_wchan).1 };
                lk_lock = none;
              };
              cv = record { cv_wchan = s.cv.cv_wchan ++ t ∷ []; cv_lock = none };
              place = put t cv_asleep (woken (wakeone s.lock.lk_sem.sem_wchan).0 s.place);
            })
      after_v e k none q = rw (step, e, v_round-Taken k, q)
      after_v e k (some w) q = rw (step, e, v_round-Taken k, q)
