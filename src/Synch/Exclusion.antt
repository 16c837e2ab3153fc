-- ===== src/Synch/Exclusion.antt =====
-- What holds in every state that threads reach: they exclude each other, no assertion fails, and no
-- wakeup is lost.
use paging_os.Base.{ℕ, ◌≡◌, refl, ◌⊎◌, inl, inr, true, some, arith, ◌==◌, Bool-cases}
use paging_os.Machine.{ok}
use paging_os.Synch.{holding, asleep, trying, Action, System, step, Reach, start, later}
use paging_os.Synch.Invariant.{inside, Exclusive, Taken-self, initial-Exclusive}
use paging_os.Synch.Steps.{List-cases}
use paging_os.Synch.Every.{step-at}

pub Reach-Exclusive : {s : System} → Reach s → Exclusive s
Reach-Exclusive start = initial-Exclusive
Reach-Exclusive (later {s} {u} r a t e) =
    let (u', e', v) = step-at a t s (Reach-Exclusive r) (s.place t) refl in
    let q : u' ≡ u = cc (e, e') in rw q at v

-- In every state that threads reach from a new lock and condition variable, in any interleaving, at
-- most one thread is behind lock_acquire and not yet in lock_release or cv_wait, and it is the owner
-- that the lock names.
pub mutual_exclusion :
    {s : System}
    → Reach s
    → (a b : ℕ) → s.place a ≡ holding
    → s.place b ≡ holding
    → (a ≡ b) × (s.lock.lk_owner ≡ some a)
mutual_exclusion {s} r a b ha hb =
    let v = Reach-Exclusive r in
    let k = Taken-self s a v (rw ha refl) in
    let owner : s.lock.lk_owner ≡ some a = rw ha at k.owner in
    elim (Bool-cases (b == a)) [
      | inl q ↦ (ground arith, owner)
      | inr q ↦ let w = k.others b (ground arith) in let w' = rw hb at w in absurd (cc w')
    ]

-- No assertion of the lock, its semaphore and the condition variable ever fails, and nothing panics:
-- from every state that threads reach, the next step of every thread returns, whatever it does.
pub step_returns :
    {s : System} → Reach s → (a : Action) (t : ℕ) → (u : System) × (step a t s ≡ ok tt u) × Reach u
step_returns {s} r a t =
    let (u, e, _) = step-at a t s (Reach-Exclusive r) (s.place t) refl in (u, e, later r a t e)

-- No wakeup is lost: in every state that threads reach, if one sleeps in lock_acquire, then another is
-- about to look at the count of the semaphore, or is on its way from there to the next V.
pub no_lost_wakeup :
    {s : System}
    → Reach s
    → (t : ℕ) → s.place t ≡ asleep
    → (x : ℕ) × ((s.place x ≡ trying) ⊎ (inside (s.place x) ≡ true))
no_lost_wakeup {s} r t e =
    let v = Reach-Exclusive r in
    elim v.state [
      | inr (h, k) ↦ (h, inr k.within)
      | inl f ↦ elim (List-cases s.lock.lk_sem.sem_wchan) [
        | inl q ↦
            let none_there = rw q at (v.sems t) in
            let one_there = rw e at none_there in absurd (omega (arith, one_there))
        | inr (w, rest, q) ↦ let (x, p) = f.pending w rest q in (x, inl p)
      ]
    ]
