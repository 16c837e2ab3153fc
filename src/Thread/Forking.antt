-- ===== src/Thread/Forking.antt =====
-- thread_fork: the new thread, and what happens when memory runs out.
use paging_os.Base.{
  ap, sym, write, ℕ, ◌+◌, ◌<◌, ◌≡◌, ◌≢◌, refl, ◌∙◌, Bool, true, false, arith, ◌==◌, if◌then◌else◌,
  Bool-cases, inl, inr, ==_refl, [], ◌∷◌, ◌++◌, ◌%◌, not, ◌||◌,
}
use paging_os.Machine.{ok, err, success, enomem, u32}
use paging_os.Machine.Threadlists.{ThreadlistOps, ThreadlistLaws}
use paging_os.Thread.{Smp, curthread, s_ready}
use paging_os.Thread.Ipi.{IpiCodes}
use paging_os.Thread.Queue.{thread_make_runnable}
use paging_os.Thread.Switch.{thread_create, thread_destroy, thread_fork}
use paging_os.Thread.Balance.{Free}
use paging_os.Thread.Waking.{Woken, make_runnable-Woken}

module _ {L : Type 0} (tl : ThreadlistOps L) where
  -- The thread `t` that thread_fork has made, with its process.
  pub record Forked (t stack proc : ℕ) (s s' : Smp L) : Type 0 where
    pub ready : s'.t_state t ≡ s_ready
    pub stack_set : s'.t_stack t ≡ stack
    pub proc_set : s'.t_proc t ≡ (if proc == 0 then s.t_proc (curthread s) else proc)
    pub cpu_set : s'.t_cpu t ≡ s.t_cpu (curthread s)
    pub queue :
        tl.threads (s'.c_runqueue (s.t_cpu (curthread s)))
        ≡ tl.threads (s.c_runqueue (s.t_cpu (curthread s))) ++ t ∷ []
    pub counted :
        (p : ℕ)
        → s'.p_numthreads p ≡ (
            if p == (if proc == 0 then s.t_proc (curthread s) else proc)
            then (s.p_numthreads p + 1) % u32
            else s.p_numthreads p)
    pub others : (x : ℕ) → x ≢ t → s'.t_state x ≡ s.t_state x

module _ {L : Type 0} where
  -- The process that the new thread gets.
  abbrev host : (proc : ℕ) → Smp L → ℕ
  host proc s = if proc == 0 then s.t_proc (curthread s) else proc

  -- The fields of the new thread before it is made runnable.
  abbrev cloned : (t stack proc : ℕ) → Smp L → Smp L
  cloned t stack proc s = record s {
    t_state = write t s_ready s.t_state;
    t_stack = write t stack (write t 0 s.t_stack);
    t_cpu = write t (s.t_cpu (curthread s)) (write t 0 s.t_cpu);
    t_proc = write t (host proc s) (write t 0 s.t_proc);
    t_in_interrupt = write t false s.t_in_interrupt;
    t_curspl = write t 1 s.t_curspl;
    t_iplhigh_count = write t ((1 + 1) % u32) (write t 1 s.t_iplhigh_count);
    p_numthreads = write (host proc s) ((s.p_numthreads (host proc s) + 1) % u32) s.p_numthreads;
  }

module _ {L : Type 0} (tl : ThreadlistOps L) (laws : ThreadlistLaws tl) (codes : IpiCodes) where
  thread_fork-run :
      (t stack proc : ℕ) (s s' : Smp L)
      → (t == 0) ≡ false
      → (stack == 0) ≡ false
      → (curthread s == t) ≡ false
      → thread_make_runnable tl codes t false (cloned t stack proc s) ≡ ok tt s'
      → thread_fork tl codes t true stack proc s ≡ ok success s'
  unfolding thread_fork thread_create
  thread_fork-run t stack proc s s' some_t some_stack other run =
      let self = ==_refl t in ground arith

  thread_fork-no_thread :
      (t stack proc : ℕ) (name_ok : Bool) (s : Smp L)
      → ((t == 0) || not name_ok) ≡ true
      → thread_fork tl codes t name_ok stack proc s ≡ ok (err enomem) s
  unfolding thread_fork thread_create
  thread_fork-no_thread t stack proc name_ok s h = ground arith

  thread_fork-no_stack :
      (t proc : ℕ) (s : Smp L)
      → (t == 0) ≡ false
      → (curthread s == t) ≡ false
      → (s' : Smp L) × (thread_fork tl codes t true 0 proc s ≡ ok (err enomem) s')
        × (s'.c_runqueue ≡ s.c_runqueue)
  unfolding thread_fork thread_create thread_destroy
  thread_fork-no_stack t proc s some_t other =
      let self = ==_refl t in
      let other' : (t == curthread s) ≡ false = ground arith in
      (
        record s {
          t_state = write t s_ready s.t_state;
          t_stack = write t 0 s.t_stack;
          t_cpu = write t 0 s.t_cpu;
          t_proc = write t 0 s.t_proc;
          t_in_interrupt = write t false s.t_in_interrupt;
          t_curspl = write t 1 s.t_curspl;
          t_iplhigh_count = write t 1 s.t_iplhigh_count;
        },
        ground arith,
        refl,
      )

  Woken-Forked :
      (t stack proc : ℕ) (s s' : Smp L)
      → Woken tl (t ∷ []) (cloned t stack proc s) s'
      → Forked tl t stack proc s s'
  Woken-Forked t stack proc s s' w =
      let cpus = w.cpus in
      let procs = w.procs in
      let stacks = w.stacks in
      let counts = w.counts in
      let self = ==_refl t in
      let c = s.t_cpu (curthread s) in
      let self_cpu = ==_refl c in
      record {
        ready = w.ready t (ground arith);
        stack_set = rw (stacks, self) refl;
        proc_set = rw (procs, self) refl;
        cpu_set = rw (cpus, self) refl;
        queue = w.queues c ∙ rw (self, self_cpu) refl;
        counted = λ p. elim (Bool-cases (p == host proc s)) [
          | inl e ↦
              let z : p ≡ host proc s = ground arith in
              rw (counts, e) (ap (λ x. (s.p_numthreads x + 1) % u32) (sym z))
          | inr e ↦ rw (counts, e) refl
        ];
        others = λ x d.
            let apart : (x == t) ≡ false = ground arith in
            w.others x (ground arith) ∙ rw apart refl;
      }

  -- thread_fork, with no lock held, on all branches. Without memory for the thread, its name or its stack
  -- it returns ENOMEM, and no run queue changes. Else it succeeds: the new thread is ready, with its stack,
  -- with the given process or else that of the current thread, which counts one thread more, and at the
  -- end of the run queue of the current thread's processor, and no other thread changes its state. Assumed are a new thread other
  -- than the current one and a code of the interrupt below 32.
  pub thread_fork-Forked :
      (t stack proc : ℕ) (name_ok : Bool) (s : Smp L)
      → t ≢ curthread s
      → codes.ipi_unidle < 32
      → Free s.c_runqueue_lock
      → Free s.c_ipi_lock
      → (s' : Smp L) × (if (t == 0) || not name_ok || (stack == 0)
          then (thread_fork tl codes t name_ok stack proc s ≡ ok (err enomem) s')
            × (s'.c_runqueue ≡ s.c_runqueue)
          else (thread_fork tl codes t name_ok stack proc s ≡ ok success s')
            × Forked tl t stack proc s s')
  thread_fork-Forked t stack proc name_ok s ne low free ipi =
      let other : (curthread s == t) ≡ false = ground arith in
      elim (Bool-cases ((t == 0) || not name_ok)) [
        | inl e ↦ (s, rw e (thread_fork-no_thread t stack proc name_ok s e, refl))
        | inr e ↦
            let (named, some_t) : (name_ok ≡ true) × ((t == 0) ≡ false) = ground arith in
            elim (Bool-cases (stack == 0)) [
              | inl f ↦
                  let z : stack ≡ 0 = ground arith in
                  let (s', run, same) = thread_fork-no_stack t proc s some_t other in
                  (s', rw (e, f, z, named) (run, same))
              | inr f ↦
                  let (s', made, w) =
                    make_runnable-Woken tl laws codes low t (cloned t stack proc s) free ipi in
                  (
                    s',
                    rw (e, f, named)
                        (
                          thread_fork-run t stack proc s s' some_t f other made,
                          Woken-Forked t stack proc s s' w,
                        ),
                  )
            ]
      ]
