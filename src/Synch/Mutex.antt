-- ===== src/Synch/Mutex.antt =====
-- The lock as a mutex: what its owner shows to the rest of the kernel.
use mathlib.Core.Logic.{◌↔◌}
use paging_os.Base.{ℕ, ◌≡◌, refl, ◌⊎◌, inl, inr, Option, none, some, arith, sym, ◌∙◌}
use paging_os.Machine.{ok}
use paging_os.Synch.{
  Place, outside, trying, asleep, passed, holding, releasing, waiting, cv_asleep, Action, release,
  wait, signal, broadcast, System, Reach, wakeone, step, act, lock_acquire_enter, lock_acquire_try,
  lock_acquire_own, lock_release_start, lock_release_end, p_round, v_round, cv_wait_start,
  cv_wait_sleep, cv_signal, cv_broadcast, later,
}
use paging_os.Synch.Invariant.{owner_at}
use paging_os.Synch.Exclusion.{mutual_exclusion, Reach-Exclusive}

-- A mutex: its state is its owner, and thread `t` takes it when it is free, or gives it back when it
-- owns it, or leaves it as it is.
pub data MutexStep : ℕ → Option ℕ → Option ℕ → Type 0 where
  leave : {t : ℕ} {o : Option ℕ} → MutexStep t o o
  take : {t : ℕ} → MutexStep t none (some t)
  give_back : {t : ℕ} → MutexStep t (some t) none

leaves : (t : ℕ) (o o' : Option ℕ) → o' ≡ o → MutexStep t o o'
leaves t o o' e = rw e leave

module _ (a : Action) (t : ℕ) (s u : System) where
  enter-owner : lock_acquire_enter t s ≡ ok tt u → u.lock.lk_owner ≡ s.lock.lk_owner
  unfolding lock_acquire_enter
  enter-owner run = ground arith

  try-owner : lock_acquire_try t s ≡ ok tt u → u.lock.lk_owner ≡ s.lock.lk_owner
  unfolding lock_acquire_try p_round
  try-owner run = ground arith

  own-owner :
      lock_acquire_own t s ≡ ok tt u
      → (u.lock.lk_owner ≡ s.lock.lk_owner)
        ⊎ ((s.lock.lk_owner ≡ none) × (u.lock.lk_owner ≡ some t))
  unfolding lock_acquire_own
  own-owner run = ground arith

  start-owner :
      lock_release_start t s ≡ ok tt u
      → (u.lock.lk_owner ≡ s.lock.lk_owner)
        ⊎ ((s.lock.lk_owner ≡ some t) × (u.lock.lk_owner ≡ none))
  unfolding lock_release_start
  start-owner run = ground arith

  end-owner : lock_release_end t s ≡ ok tt u → u.lock.lk_owner ≡ s.lock.lk_owner
  unfolding lock_release_end v_round wakeone
  end-owner run = ground arith

  wait-owner :
      cv_wait_start t s ≡ ok tt u
      → (u.lock.lk_owner ≡ s.lock.lk_owner)
        ⊎ ((s.lock.lk_owner ≡ some t) × (u.lock.lk_owner ≡ none))
  unfolding cv_wait_start
  wait-owner run = ground arith

  sleep-owner : cv_wait_sleep t s ≡ ok tt u → u.lock.lk_owner ≡ s.lock.lk_owner
  unfolding cv_wait_sleep v_round wakeone
  sleep-owner run = ground arith

  signal-owner : cv_signal t s ≡ ok tt u → u.lock.lk_owner ≡ s.lock.lk_owner
  unfolding cv_signal wakeone
  signal-owner run = ground arith

  broadcast-owner : cv_broadcast t s ≡ ok tt u → u.lock.lk_owner ≡ s.lock.lk_owner
  unfolding cv_broadcast
  broadcast-owner run = ground arith

  took :
      (u.lock.lk_owner ≡ s.lock.lk_owner) ⊎ ((s.lock.lk_owner ≡ none) × (u.lock.lk_owner ≡ some t))
      → MutexStep t s.lock.lk_owner u.lock.lk_owner
  took (inl e) = leaves t s.lock.lk_owner u.lock.lk_owner e
  took (inr (e, e')) = rw (e, e') take

  gave :
      (u.lock.lk_owner ≡ s.lock.lk_owner) ⊎ ((s.lock.lk_owner ≡ some t) × (u.lock.lk_owner ≡ none))
      → MutexStep t s.lock.lk_owner u.lock.lk_owner
  gave (inl e) = leaves t s.lock.lk_owner u.lock.lk_owner e
  gave (inr (e, e')) = rw (e, e') give_back

  left : u.lock.lk_owner ≡ s.lock.lk_owner → MutexStep t s.lock.lk_owner u.lock.lk_owner
  left e = leaves t s.lock.lk_owner u.lock.lk_owner e

  act-MutexStep : (b : Action) → act b t s ≡ ok tt u → MutexStep t s.lock.lk_owner u.lock.lk_owner
  unfolding act
  act-MutexStep release run = gave (start-owner run)
  act-MutexStep wait run = gave (wait-owner run)
  act-MutexStep signal run = left (signal-owner run)
  act-MutexStep broadcast run = left (broadcast-owner run)

  place-MutexStep :
      (p : Place)
      → s.place t ≡ p
      → step a t s ≡ ok tt u
      → MutexStep t s.lock.lk_owner u.lock.lk_owner
  unfolding step
  place-MutexStep outside e run = left (enter-owner (rw (step, e) at run))
  place-MutexStep trying e run = left (try-owner (rw (step, e) at run))
  place-MutexStep asleep e run = left (ground arith)
  place-MutexStep passed e run = took (own-owner (rw (step, e) at run))
  place-MutexStep holding e run = act-MutexStep a (rw (step, e) at run)
  place-MutexStep releasing e run = left (end-owner (rw (step, e) at run))
  place-MutexStep waiting e run = left (sleep-owner (rw (step, e) at run))
  place-MutexStep cv_asleep e run = left (ground arith)

owner_is : (p : Place) (h x : ℕ) → owner_at p h ≡ some x → (h ≡ x) × (p ≡ holding)
owner_is outside h x e = absurd (cc e)
owner_is trying h x e = absurd (cc e)
owner_is asleep h x e = absurd (cc e)
owner_is passed h x e = absurd (cc e)
owner_is holding h x e = (cc e, refl)
owner_is releasing h x e = absurd (cc e)
owner_is waiting h x e = absurd (cc e)
owner_is cv_asleep h x e = absurd (cc e)

owned : {s : System} → Reach s → (x : ℕ) → s.lock.lk_owner ≡ some x → s.place x ≡ holding
owned {s} r x e = elim (Reach-Exclusive r).state [
  | inl f ↦ absurd (cc (e, f.owner))
  | inr (h, k) ↦ let (z, p) = owner_is (s.place h) h x (sym k.owner ∙ e) in rw z at p
]

-- The thread behind lock_acquire is the owner of the lock.
pub OwnerHolds : System → Type 0
OwnerHolds s = (x : ℕ) → (s.place x ≡ holding) ↔ (s.lock.lk_owner ≡ some x)

Reach-OwnerHolds : {s : System} → Reach s → OwnerHolds s
unfolding OwnerHolds
Reach-OwnerHolds r = λ x. (λ e. (mutual_exclusion r x x e e).1, λ e. owned r x e)

-- The lock made of a semaphore implements a mutex, with the condition variable that releases it and
-- takes it again: each step that a thread takes from a reachable state leaves the owner as it is, or
-- makes the thread the owner of a lock that nobody owned, or takes the lock from the thread that owned
-- it; and before the step and after it a thread is behind lock_acquire exactly if it is the owner.
pub step-MutexStep :
    {s u : System}
    → Reach s
    → (a : Action) (t : ℕ) → step a t s ≡ ok tt u
    → MutexStep t s.lock.lk_owner u.lock.lk_owner × OwnerHolds s × OwnerHolds u
step-MutexStep {s} {u} r a t e = (
  place-MutexStep a t s u (s.place t) refl e,
  Reach-OwnerHolds r,
  Reach-OwnerHolds (later r a t e),
)
