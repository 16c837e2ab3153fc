-- ===== src/Synch/Every.antt =====
-- Every step returns and keeps the invariant of a lock.
use paging_os.Base.{ℕ, ◌≡◌, refl}
use paging_os.Synch.{
  Place, outside, trying, asleep, passed, holding, releasing, waiting, cv_asleep, Action, release,
  wait, signal, broadcast, System, step,
}
use paging_os.Synch.Invariant.{Exclusive}
use paging_os.Synch.Steps.{Steps, step-outside, step-trying, step-passed, step-release, step-wait}
use paging_os.Synch.Signals.{step-signal, step-broadcast}
use paging_os.Synch.Releases.{step-releasing, step-waiting}

module _ (a : Action) (t : ℕ) (s : System) (v : Exclusive s) where
  step-holding : (b : Action) → a ≡ b → s.place t ≡ holding → Steps a t s
  step-holding release q e = step-release a t s v e q
  step-holding wait q e = step-wait a t s v e q
  step-holding signal q e = step-signal a t s v e q
  step-holding broadcast q e = step-broadcast a t s v e q

  pub step-at : (p : Place) → s.place t ≡ p → Steps a t s
  unfolding step
  step-at outside e = step-outside a t s v e
  step-at trying e = step-trying a t s v e
  step-at asleep e = (s, rw (step, e), v)
  step-at passed e = step-passed a t s v e
  step-at holding e = step-holding a refl e
  step-at releasing e = step-releasing a t s v e
  step-at waiting e = step-waiting a t s v e
  step-at cv_asleep e = (s, rw (step, e), v)
