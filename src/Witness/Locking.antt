-- ===== src/Witness/Locking.antt =====
-- Two threads and a lock: thread 0 holds it, and thread 1 is asleep in lock_acquire.
use paging_os.Base.{ℕ, zero, ◌≡◌, refl, ◌⊎◌, true, some}
use paging_os.Machine.{ok}
use paging_os.Synch.{
  System, trying, asleep, holding, release, Reach, start, later, step, lock_acquire_enter,
  lock_acquire_try, lock_acquire_own, p_round,
}
use paging_os.Synch.Invariant.{inside}
use paging_os.Synch.Mutex.{MutexStep, OwnerHolds, step-MutexStep}
use paging_os.Synch.Exclusion.{mutual_exclusion, step_returns, no_lost_wakeup}

contended : (s : System) × Reach s × (s.place 0 ≡ holding) × (s.place 1 ≡ asleep)
unfolding step lock_acquire_enter lock_acquire_try lock_acquire_own p_round
contended =
    let a = later start release 0 refl in
    let b = later a release 0 refl in
    let c = later b release 0 refl in
    let d = later c release 1 refl in (_, later d release 1 refl, refl, refl)

mutual_exclusion_example : (zero ≡ 0) × (contended.0.lock.lk_owner ≡ some 0)
mutual_exclusion_example = mutual_exclusion contended.1 0 0 contended.2 contended.2

step_returns_example : (u : System) × (step release 0 contended.0 ≡ ok tt u) × Reach u
step_returns_example = step_returns contended.1 release 0

no_lost_wakeup_example :
    (x : ℕ) × ((contended.0.place x ≡ trying) ⊎ (inside (contended.0.place x) ≡ true))
no_lost_wakeup_example = no_lost_wakeup contended.1 1 contended.3

released : (u : System) × (step release 0 contended.0 ≡ ok tt u) × Reach u
released = step_returns contended.1 release 0

step-MutexStep_example :
    MutexStep 0 contended.0.lock.lk_owner released.0.lock.lk_owner
    × OwnerHolds contended.0
    × OwnerHolds released.0
step-MutexStep_example = step-MutexStep contended.1 release 0 released.1
