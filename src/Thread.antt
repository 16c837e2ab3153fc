-- ===== src/Thread.antt =====
-- kern/thread/thread.c: the threads, the processors with their run queues, and the list operations on
-- them. A spinlock is a Boolean field, since a command runs to its end.
pub mod Ipi
pub mod Queue
pub mod Switch
pub mod Migrate
pub mod Balance
pub mod Collect
pub mod Handout
pub mod Spread
pub mod Running
pub mod Fifo
pub mod Waking
pub mod Wakeall
pub mod Shootdown
pub mod Forking
use paging_os.Base.{ℕ, Bool, true, false, ◌==◌, if◌then◌else◌, List, write}
use paging_os.Machine.{Cmd, fail, get, modify, ◌>>=◌, ◌>>◌, deadlock}

-- threadstate_t
pub data ThreadState : Type 0 where
  s_run s_ready s_sleep s_zombie : ThreadState

-- The memory of the processors and threads: each field of `struct cpu` and `struct thread` is a function
-- from pointers, which are numbers; thread 0 is NULL. c_numshootdown is the length of c_shootdown.
-- Left out are names, list nodes, the context and the machine-dependent part. The processors of allcpus
-- are the numbers below `num_cpus`; `curcpu` is the one that runs the code, and `sent` lists the calls
-- of mainbus_send_ipi, the last one first.
pub record Smp (L : Type 0) : Type 0 where
  pub num_cpus : ℕ
  pub curcpu : ℕ
  pub c_curthread : ℕ → ℕ
  pub c_zombies : ℕ → L
  pub c_isidle : ℕ → Bool
  pub c_runqueue : ℕ → L
  pub c_runqueue_lock : ℕ → Bool
  pub c_ipi_pending : ℕ → ℕ
  pub c_shootdown : ℕ → List ℕ
  pub c_ipi_lock : ℕ → Bool
  pub t_state : ℕ → ThreadState
  pub t_stack : ℕ → ℕ
  pub t_cpu : ℕ → ℕ
  pub t_proc : ℕ → ℕ
  pub t_in_interrupt : ℕ → Bool
  pub t_curspl : ℕ → ℕ
  pub t_iplhigh_count : ℕ → ℕ
  -- p_numthreads of the processes
  pub p_numthreads : ℕ → ℕ
  pub sent : List ℕ

module _ {L : Type 0} where
  abbrev pub curthread : Smp L → ℕ
  curthread s = s.c_curthread s.curcpu

  abbrev pub set_runqueue : (c : ℕ) → L → Cmd (Smp L) (Unit {0})
  set_runqueue c l = modify (λ s. record s { c_runqueue = write c l s.c_runqueue })

  abbrev pub set_zombies : (c : ℕ) → L → Cmd (Smp L) (Unit {0})
  set_zombies c l = modify (λ s. record s { c_zombies = write c l s.c_zombies })

  abbrev pub set_isidle : (c : ℕ) → Bool → Cmd (Smp L) (Unit {0})
  set_isidle c b = modify (λ s. record s { c_isidle = write c b s.c_isidle })

  abbrev pub set_state : (t : ℕ) → ThreadState → Cmd (Smp L) (Unit {0})
  set_state t x = modify (λ s. record s { t_state = write t x s.t_state })

  abbrev pub set_t_cpu : (t c : ℕ) → Cmd (Smp L) (Unit {0})
  set_t_cpu t c = modify (λ s. record s { t_cpu = write t c s.t_cpu })

  -- spinlock_acquire and spinlock_release of c_runqueue_lock
  abbrev pub queue_acquire : (c : ℕ) → Cmd (Smp L) (Unit {0})
  queue_acquire c = do
    s ← get
    if s.c_runqueue_lock c
        then fail deadlock
        else modify (λ s. record s { c_runqueue_lock = write c true s.c_runqueue_lock })

  abbrev pub queue_release : (c : ℕ) → Cmd (Smp L) (Unit {0})
  queue_release c = modify (λ s. record s { c_runqueue_lock = write c false s.c_runqueue_lock })

  -- the same of c_ipi_lock
  abbrev pub ipi_acquire : (c : ℕ) → Cmd (Smp L) (Unit {0})
  ipi_acquire c = do
    s ← get
    if s.c_ipi_lock c
        then fail deadlock
        else modify (λ s. record s { c_ipi_lock = write c true s.c_ipi_lock })

  abbrev pub ipi_release : (c : ℕ) → Cmd (Smp L) (Unit {0})
  ipi_release c = modify (λ s. record s { c_ipi_lock = write c false s.c_ipi_lock })
