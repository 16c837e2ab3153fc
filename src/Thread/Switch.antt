-- ===== src/Thread/Switch.antt =====
-- Creating, switching and destroying threads.
use paging_os.Base.{
  write, ℕ, zero, suc, ◌+◌, ◌%◌, Bool, true, false, not, ◌&&◌, ◌||◌, ◌-◌, ltb, none, some, ◌==◌,
  if◌then◌else◌,
}
use paging_os.Thread.{
  Smp, ThreadState, s_run, s_ready, s_sleep, s_zombie, curthread, set_runqueue, set_zombies,
  set_isidle, set_state, queue_acquire, queue_release,
}
use paging_os.Machine.{
  u32, Cmd, pure, fail, get, modify, kassert, ◌>>=◌, ◌>>◌, panicked, out_of_fuel, Status, success,
  err, enomem,
}
use paging_os.Machine.Threadlists.{ThreadlistOps}
use paging_os.Thread.Ipi.{IpiCodes}
use paging_os.Thread.Queue.{Wchan, thread_make_runnable}

abbrev pub is_running : ThreadState → Bool
is_running s_run = true
is_running _ = false

abbrev pub is_zombie : ThreadState → Bool
is_zombie s_zombie = true
is_zombie _ = false

-- What thread_switch did when it comes to its end, or to a wait.
pub data Switched : Type 0 where
  -- it returned at once
  stayed : Switched
  -- it switched to this thread
  switched : (next : ℕ) → Switched
  -- there is no thread to run: the processor waits in cpu_idle
  idling : Switched

module _ {L : Type 0} where
  -- thread_create: `t` is what kmalloc returns, and `name_ok` whether kstrdup had memory; IPL_HIGH is 1.
  unfoldable pub thread_create : (t : ℕ) → (name_ok : Bool) → Cmd (Smp L) ℕ
  thread_create t name_ok = if t == 0 then pure 0 else if not name_ok then pure 0 else do
    modify (λ s. record s {
      t_state = write t s_ready s.t_state;
      t_stack = write t 0 s.t_stack;
      t_cpu = write t 0 s.t_cpu;
      t_proc = write t 0 s.t_proc;
      t_in_interrupt = write t false s.t_in_interrupt;
      t_curspl = write t 1 s.t_curspl;
      t_iplhigh_count = write t 1 s.t_iplhigh_count;
    })
    pure t

  -- thread_destroy, without the release of memory
  unfoldable pub thread_destroy : (t : ℕ) → Cmd (Smp L) (Unit {0})
  thread_destroy t = do
    s ← get
    kassert (not (t == curthread s))
    kassert (not (is_running (s.t_state t)))
    kassert ((s.t_proc t) == 0)

module _ {L : Type 0} (tl : ThreadlistOps L) where
  -- The loop of exorcise.
  unfoldable pub exorcise_from : (rounds : ℕ) → Cmd (Smp L) (Unit {0})
  unfolding thread_destroy
  exorcise_from zero = fail out_of_fuel
  exorcise_from (suc rounds) = do
    s ← get
    elim (tl.remhead (s.c_zombies s.curcpu)) [
      | none ↦ pure tt
      | some (z, rest) ↦ do
        set_zombies s.curcpu rest
        kassert (not (z == curthread s))
        kassert (is_zombie (s.t_state z))
        thread_destroy z
        exorcise_from rounds
    ]

  unfoldable pub exorcise : Cmd (Smp L) (Unit {0})
  unfolding exorcise_from
  exorcise = do s ← get; exorcise_from (tl.tl_count (s.c_zombies s.curcpu) + 1)

  -- One round of the loop that looks for the next thread, with the lock of the run queue.
  unfoldable pub pick_next : Cmd (Smp L) Switched
  pick_next = do
    s ← get
    elim (tl.remhead (s.c_runqueue s.curcpu)) [
      | none ↦ do queue_release s.curcpu; pure idling
      | some (next, rest) ↦ do
        set_runqueue s.curcpu rest
        set_isidle s.curcpu false
        modify (λ u. record u { c_curthread = write s.curcpu next u.c_curthread })
        pure (switched next)
    ]

  -- The loop once more, when cpu_idle returns.
  unfoldable pub idle_return : Cmd (Smp L) Switched
  unfolding pick_next
  idle_return = do s ← get; queue_acquire s.curcpu; pick_next

  -- thread_switch behind switchframe_switch, where it runs as the thread that was switched to. Its call of
  -- as_activate is left out.
  unfoldable pub switch_end : Cmd (Smp L) (Unit {0})
  unfolding exorcise
  switch_end = do s ← get; set_state (curthread s) s_run; queue_release s.curcpu; exorcise

module _ {L : Type 0} (tl : ThreadlistOps L) (codes : IpiCodes) where
  -- The switch on `newstate`.
  unfoldable pub put_away : ThreadState → (cur : ℕ) → Wchan L → Cmd (Smp L) (Wchan L)
  unfolding thread_make_runnable
  put_away s_run cur wc = fail panicked
  put_away s_ready cur wc = do thread_make_runnable tl codes cur true; pure wc
  put_away s_sleep cur wc =
      pure (record { wc_threads = tl.addtail wc.wc_threads cur; held = false })
  put_away s_zombie cur wc = do
    s ← get
    set_zombies s.curcpu (tl.addtail (s.c_zombies s.curcpu) cur)
    pure wc

  abbrev pub is_ready : ThreadState → Bool
  is_ready s_ready = true
  is_ready _ = false

  -- thread_switch up to switchframe_switch, or up to the first cpu_idle, with the wait channel that it
  -- gets and gives back.
  unfoldable pub thread_switch :
      (newstate : ThreadState) → Wchan L → Cmd (Smp L) (Wchan L × Switched)
  unfolding put_away pick_next
  thread_switch newstate wc = do
    s ← get
    if (s.c_isidle s.curcpu) then pure (wc, stayed) else do
      queue_acquire s.curcpu
      if is_ready newstate && (tl.tl_count (s.c_runqueue s.curcpu) == 0)
          then (do queue_release s.curcpu; pure (wc, stayed))
          else (do
            wc ← put_away newstate (curthread s) wc
            set_state (curthread s) newstate
            set_isidle s.curcpu true
            r ← pick_next tl
            pure (wc, r))

  -- wchan_sleep up to the switch; `spinlocks` is curcpu->c_spinlocks.
  unfoldable pub wchan_sleep : (spinlocks : ℕ) → Wchan L → Cmd (Smp L) (Wchan L × Switched)
  unfolding thread_switch
  wchan_sleep spinlocks wc = do
    s ← get
    kassert (not (s.t_in_interrupt (curthread s)))
    kassert wc.held
    kassert (spinlocks == 1)
    thread_switch s_sleep wc

  -- thread_yield
  unfoldable pub thread_yield : Wchan L → Cmd (Smp L) (Wchan L × Switched)
  unfolding thread_switch
  thread_yield wc = thread_switch s_ready wc

  -- thread_exit up to the switch; a thread that has a process is taken off it, by proc_remthread.
  unfoldable pub thread_exit : Wchan L → Cmd (Smp L) (Wchan L × Switched)
  unfolding thread_switch
  thread_exit wc = do
    s ← get
    let p = (s.t_proc (curthread s))
    kassert ((p == 0) || ltb 0 (s.p_numthreads p))
    if p == 0
        then pure tt
        else modify (λ u. record u {
          p_numthreads = write p (s.p_numthreads p - 1) u.p_numthreads;
          t_proc = write (curthread s) 0 u.t_proc;
        })
    thread_switch s_zombie wc

  -- thread_fork: `t` and `stack` are what kmalloc returns; proc_addthread asserts that the thread has no
  -- process, counts it, and returns 0.
  unfoldable pub thread_fork : (t : ℕ) → (name_ok : Bool) → (stack proc : ℕ) → Cmd (Smp L) Status
  unfolding thread_create thread_make_runnable thread_destroy
  thread_fork t name_ok stack proc = do
    newthread ← thread_create t name_ok
    if newthread == 0 then pure (err enomem) else do
      if stack == 0 then (do thread_destroy newthread; pure (err enomem)) else (do
        s ← get
        let p = if proc == 0 then s.t_proc (curthread s) else proc
        modify (λ u. record u {
          t_stack = write newthread stack u.t_stack;
          t_cpu = write newthread (s.t_cpu (curthread s)) u.t_cpu;
        })
        s ← get
        kassert ((s.t_proc newthread) == 0)
        modify (λ u. record u {
          p_numthreads = write p ((u.p_numthreads p + 1) % u32) u.p_numthreads;
          t_proc = write newthread p u.t_proc;
          t_iplhigh_count =
              write newthread ((u.t_iplhigh_count newthread + 1) % u32) u.t_iplhigh_count;
        })
        thread_make_runnable tl codes newthread false
        pure success)
