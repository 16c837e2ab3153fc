-- ===== src/Synch.antt =====
-- kern/thread/synch.c: semaphores, locks made of them (USE_SEMAPHORE_FOR_LOCK is 1), and a condition
-- variable of such a lock, with threads that interleave in any order. What a thread does while it holds a spinlock is one step; a step that
-- needs a spinlock another thread holds leaves everything as it is, and the thread spins.
pub mod Channels
pub mod Invariant
pub mod Steps
pub mod Signals
pub mod Releases
pub mod Every
pub mod Exclusion
pub mod Mutex
use paging_os.Base.{
  ℕ, ◌+◌, ◌-◌, ◌%◌, ◌≡◌, Bool, true, false, not, ◌&&◌, Option, none, some, List, [], ◌∷◌, ◌++◌,
  ◌==◌, ltb, occ, if◌then◌else◌,
}
use paging_os.Machine.{u32, Cmd, pure, get, modify, kassert, carry, ◌>>=◌, ◌>>◌, ok}

-- `struct semaphore`, with the threads asleep on its wait channel in order; threads are numbers.
pub record Semaphore : Type 0 where
  pub sem_count : ℕ
  pub sem_wchan : List ℕ

-- `struct lock`; `lk_lock` is the thread that holds the spinlock of that name between two steps.
pub record Lock : Type 0 where
  pub lk_sem : Semaphore
  pub lk_owner : Option ℕ
  pub lk_lock : Option ℕ

-- `struct cv`; `cv_lock` is the thread that holds that spinlock between two steps.
pub record Cv : Type 0 where
  pub cv_wchan : List ℕ
  pub cv_lock : Option ℕ

-- The arguments of a create function tell which of its allocations worked.
unfoldable pub sem_create :
    (kmalloc_ok kstrdup_ok wchan_ok : Bool) → (initial_count : ℕ) → Option Semaphore
sem_create kmalloc_ok kstrdup_ok wchan_ok initial_count =
    if kmalloc_ok && (kstrdup_ok && wchan_ok)
    then some (record { sem_count = initial_count; sem_wchan = [] })
    else none

abbrev lock_of : Option Semaphore → Option Lock
lock_of none = none
lock_of (some sem) = some (record { lk_sem = sem; lk_owner = none; lk_lock = none })

unfoldable pub lock_create :
    (kmalloc_ok kstrdup_ok : Bool) → (sem_kmalloc_ok sem_kstrdup_ok wchan_ok : Bool) → Option Lock
unfolding sem_create
lock_create kmalloc_ok kstrdup_ok sem_kmalloc_ok sem_kstrdup_ok wchan_ok =
    if kmalloc_ok && kstrdup_ok
    then lock_of (sem_create sem_kmalloc_ok sem_kstrdup_ok wchan_ok 1)
    else none

unfoldable pub cv_create : (kmalloc_ok kstrdup_ok wchan_ok : Bool) → Option Cv
cv_create kmalloc_ok kstrdup_ok wchan_ok =
    if kmalloc_ok && (kstrdup_ok && wchan_ok)
    then some (record { cv_wchan = []; cv_lock = none })
    else none

-- lock_destroy and cv_destroy, of what may be NULL; wchan_destroy asserts that no thread sleeps there.
unfoldable pub lock_destroy : {S : Type 0} → Option Lock → Cmd S (Unit {0})
lock_destroy none = kassert false
lock_destroy (some lock) = kassert (elim lock.lk_sem.sem_wchan [ [] ↦ true | _ ∷ _ ↦ false ])

unfoldable pub cv_destroy : {S : Type 0} → Option Cv → Cmd S (Unit {0})
cv_destroy none = kassert false
cv_destroy (some cv) = kassert (elim cv.cv_wchan [ [] ↦ true | _ ∷ _ ↦ false ])

-- One round of P under the spinlock: the thread takes a unit, or goes to sleep on the channel. `true`:
-- P is done.
unfoldable pub p_round : (t : ℕ) → Cmd Semaphore Bool
p_round t = do
  s ← get
  if s.sem_count == 0
      then (do modify (λ s. record s { sem_wchan = s.sem_wchan ++ t ∷ [] }); pure false)
      else (do
        kassert (ltb 0 s.sem_count)
        modify (λ s. record s { sem_count = s.sem_count - 1 })
        pure true)

-- wchan_wakeone on the threads of a channel: the thread that it wakes, and those that sleep on
unfoldable pub wakeone : List ℕ → Option ℕ × List ℕ
wakeone [] = (none, [])
wakeone (w ∷ rest) = (some w, rest)

-- V under the spinlock, with the thread that it wakes
unfoldable pub v_round : Cmd Semaphore (Option ℕ)
unfolding wakeone
v_round = do
  modify (λ s. record s { sem_count = (s.sem_count + 1) % u32 })
  s ← get
  kassert (ltb 0 s.sem_count)
  modify (λ s. record s { sem_wchan = (wakeone s.sem_wchan).1 })
  pure (wakeone s.sem_wchan).0

-- Where a thread is with respect to the lock.
pub data Place : Type 0 where
  -- without the lock, and about to call lock_acquire: outside of all the functions here, or in cv_wait
  -- behind wchan_sleep
  outside : Place
  -- in P, about to look at the count
  trying : Place
  -- asleep in P
  asleep : Place
  -- behind P in lock_acquire
  passed : Place
  -- behind lock_acquire
  holding : Place
  -- in lock_release behind `lk_owner = NULL`, with the spinlock of the lock
  releasing : Place
  -- the same in the lock_release of cv_wait, with the spinlock of the condition variable too
  waiting : Place
  -- asleep in cv_wait
  cv_asleep : Place

-- What a thread that holds the lock does next.
pub data Action : Type 0 where
  release wait signal broadcast : Action

pub record System : Type 0 where
  pub lock : Lock
  pub cv : Cv
  pub place : ℕ → Place
  -- t_in_interrupt
  pub in_interrupt : ℕ → Bool

abbrev pub put : ℕ → Place → (ℕ → Place) → ℕ → Place
put t p f x = if x == t then p else f x

abbrev pub go : (t : ℕ) → Place → Cmd System (Unit {0})
go t p = modify (λ s. record s { place = put t p s.place })

abbrev on_sem : {A : Type 0} → Cmd Semaphore A → Cmd System A
on_sem m s = carry (λ x. record s { lock = record s.lock { lk_sem = x } }) (m s.lock.lk_sem)

abbrev set_lock : (Lock → Lock) → Cmd System (Unit {0})
set_lock f = modify (λ s. record s { lock = f s.lock })

-- `m` under `lk_lock`; a thread that finds it taken spins.
abbrev under_lock : Cmd System (Unit {0}) → Cmd System (Unit {0})
under_lock m s = elim s.lock.lk_lock [ none ↦ m s | some _ ↦ ok tt s ]

-- The same under `cv_lock`.
abbrev under_cv : Cmd System (Unit {0}) → Cmd System (Unit {0})
under_cv m s = elim s.cv.cv_lock [ none ↦ m s | some _ ↦ ok tt s ]

abbrev set_cv : (Cv → Cv) → Cmd System (Unit {0})
set_cv f = modify (λ s. record s { cv = f s.cv })

abbrev owned_by : ℕ → Option ℕ → Bool
owned_by t none = false
owned_by t (some o) = o == t

-- lock_do_i_hold
abbrev pub lock_do_i_hold : ℕ → Lock → Bool
lock_do_i_hold t l = owned_by t l.lk_owner

-- lock_acquire up to P
unfoldable pub lock_acquire_enter : (t : ℕ) → Cmd System (Unit {0})
lock_acquire_enter t = under_lock (do
  s ← get
  kassert (not (lock_do_i_hold t s.lock))
  kassert (not (s.in_interrupt t))
  go t trying)

-- the loop of P, once
unfoldable pub lock_acquire_try : (t : ℕ) → Cmd System (Unit {0})
unfolding p_round
lock_acquire_try t = do done ← on_sem (p_round t); go t (if done then passed else asleep)

-- lock_acquire behind P
unfoldable pub lock_acquire_own : (t : ℕ) → Cmd System (Unit {0})
lock_acquire_own t = under_lock (do
  s ← get
  kassert (elim s.lock.lk_owner [ none ↦ true | some _ ↦ false ])
  set_lock (λ l. record l { lk_owner = some t })
  go t holding)

-- lock_release up to V; it keeps the spinlock of the lock
unfoldable pub lock_release_start : (t : ℕ) → Cmd System (Unit {0})
lock_release_start t = under_lock (do
  s ← get
  kassert (lock_do_i_hold t s.lock)
  set_lock (λ l. record l { lk_owner = none; lk_lock = some t })
  go t releasing)

-- the thread that V wakes looks at the count again
abbrev wake : Option ℕ → Cmd System (Unit {0})
wake none = pure tt
wake (some w) = go w trying

-- V, and the end of lock_release
unfoldable pub lock_release_end : (t : ℕ) → Cmd System (Unit {0})
unfolding v_round
lock_release_end t = do
  woken ← on_sem v_round
  wake woken
  set_lock (λ l. record l { lk_lock = none })
  go t outside

-- cv_wait up to the V of its lock_release: `lk_lock` is taken while `cv_lock` is held.
unfoldable pub cv_wait_start : (t : ℕ) → Cmd System (Unit {0})
cv_wait_start t = do
  s ← get
  kassert (lock_do_i_hold t s.lock)
  under_cv (
      under_lock (do
        set_cv (λ c. record c { cv_lock = some t })
        set_lock (λ l. record l { lk_owner = none; lk_lock = some t })
        go t waiting))

-- the V, the end of lock_release, and wchan_sleep, which gives `cv_lock` back
unfoldable pub cv_wait_sleep : (t : ℕ) → Cmd System (Unit {0})
unfolding v_round
cv_wait_sleep t = do
  woken ← on_sem v_round
  wake woken
  set_lock (λ l. record l { lk_lock = none })
  set_cv (λ c. record c { cv_wchan = c.cv_wchan ++ t ∷ []; cv_lock = none })
  go t cv_asleep

-- a thread that cv_signal or cv_broadcast wakes goes on to lock_acquire
abbrev cv_wake : Option ℕ → Cmd System (Unit {0})
cv_wake none = pure tt
cv_wake (some w) = go w outside

unfoldable pub cv_signal : (t : ℕ) → Cmd System (Unit {0})
unfolding wakeone
cv_signal t = do
  s ← get
  kassert (lock_do_i_hold t s.lock)
  under_cv (do
    set_cv (λ c. record c { cv_wchan = (wakeone c.cv_wchan).1 })
    cv_wake (wakeone s.cv.cv_wchan).0)

-- wchan_wakeall empties the channel.
unfoldable pub cv_broadcast : (t : ℕ) → Cmd System (Unit {0})
cv_broadcast t = do
  s ← get
  kassert (lock_do_i_hold t s.lock)
  under_cv (do
    set_cv (λ c. record c { cv_wchan = [] })
    modify (λ u. record u { place = λ x. if occ x s.cv.cv_wchan == 0 then u.place x else outside }))

unfoldable pub act : Action → (t : ℕ) → Cmd System (Unit {0})
act release t = lock_release_start t
act wait t = cv_wait_start t
act signal t = cv_signal t
act broadcast t = cv_broadcast t

-- The next step of a thread, which does this action if it holds the lock.
unfoldable pub step : Action → (t : ℕ) → Cmd System (Unit {0})
unfolding lock_acquire_enter lock_acquire_try lock_acquire_own lock_release_end cv_wait_sleep act
step a t s = elim (s.place t) [
  | outside ↦ lock_acquire_enter t s
  | trying ↦ lock_acquire_try t s
  | asleep ↦ ok tt s
  | passed ↦ lock_acquire_own t s
  | holding ↦ act a t s
  | releasing ↦ lock_release_end t s
  | waiting ↦ cv_wait_sleep t s
  | cv_asleep ↦ ok tt s
]

-- The states that threads reach from a lock just created.
abbrev pub fresh_lock : Lock
fresh_lock = record {
  lk_sem = record { sem_count = 1; sem_wchan = [] };
  lk_owner = none;
  lk_lock = none;
}

abbrev pub initial : System
initial = record {
  lock = fresh_lock;
  cv = record { cv_wchan = []; cv_lock = none };
  place = λ _. outside;
  in_interrupt = λ _. false;
}

pub data Reach : System → Type 0 where
  start : Reach initial
  later : {s u : System} → Reach s → (a : Action) (t : ℕ) → step a t s ≡ ok tt u → Reach u
