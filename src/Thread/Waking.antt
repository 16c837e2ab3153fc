-- ===== src/Thread/Waking.antt =====
-- The threads that a wait channel wakes.
use paging_os.Base.{
  write, ℕ, ◌<◌, ◌≡◌, refl, sym, true, false, arith, ◌==◌, if◌then◌else◌, Bool-cases, inl, inr,
  ==_refl, occ, List, [], ◌∷◌, ◌++◌, not, ◌&&◌, append-nil,
}
use paging_os.Machine.{ok}
use paging_os.Machine.Threadlists.{ThreadlistOps, ThreadlistLaws}
use paging_os.Thread.{Smp, s_ready}
use paging_os.Thread.Ipi.{IpiCodes}
use paging_os.Thread.Queue.{thread_make_runnable}
use paging_os.Thread.Balance.{Free, relock}
use paging_os.Thread.Handout.{notified, ipi_send-notified}

-- The threads of a list that belong to processor `c`, in their order.
abbrev pub bound_for : (t_cpu : ℕ → ℕ) → (c : ℕ) → List ℕ → List ℕ
bound_for t_cpu c [] = []
bound_for t_cpu c (t ∷ l) = if t_cpu t == c then t ∷ bound_for t_cpu c l else bound_for t_cpu c l

module _ {L : Type 0} (tl : ThreadlistOps L) where
  -- What making the threads of a list runnable in turn does.
  pub record Woken (l : List ℕ) (s s' : Smp L) : Type 0 where
    pub ready : (t : ℕ) → 0 < occ t l → s'.t_state t ≡ s_ready
    pub others : (t : ℕ) → occ t l ≡ 0 → s'.t_state t ≡ s.t_state t
    pub queues :
        (c : ℕ)
        → tl.threads (s'.c_runqueue c) ≡ tl.threads (s.c_runqueue c) ++ bound_for s.t_cpu c l
    pub cpus : s'.t_cpu ≡ s.t_cpu
    pub procs : s'.t_proc ≡ s.t_proc
    pub stacks : s'.t_stack ≡ s.t_stack
    pub counts : s'.p_numthreads ≡ s.p_numthreads
    pub queues_free : Free s'.c_runqueue_lock
    pub ipis_free : Free s'.c_ipi_lock

module _ {L : Type 0} (tl : ThreadlistOps L) (laws : ThreadlistLaws tl) (codes : IpiCodes)
    (low : codes.ipi_unidle < 32) where
  -- thread_make_runnable without the lock
  abbrev queued : (t : ℕ) → Smp L → Smp L
  queued t s =
      let c = s.t_cpu t in
      record s {
        c_runqueue_lock = write c true s.c_runqueue_lock;
        t_state = write t s_ready s.t_state;
        c_runqueue = write c (tl.addtail (s.c_runqueue c) t) s.c_runqueue;
      }

  make_runnable-idle :
      (t : ℕ) (s : Smp L)
      → Free s.c_runqueue_lock
      → s.c_ipi_lock (s.t_cpu t) ≡ false
      → (s.c_isidle (s.t_cpu t) && not (s.t_cpu t == s.curcpu)) ≡ true
      → (let s1 = notified (s.t_cpu t) codes.ipi_unidle (queued t s) in
          thread_make_runnable tl codes t false s
          ≡ ok tt (record s1 { c_runqueue_lock = write (s.t_cpu t) false s1.c_runqueue_lock }))
  unfolding thread_make_runnable
  make_runnable-idle t s free ipi idle =
      let sent = ipi_send-notified (s.t_cpu t) codes.ipi_unidle (queued t s) low ipi in
      rw (thread_make_runnable, free (s.t_cpu t), idle, sent) refl

  make_runnable-busy :
      (t : ℕ) (s : Smp L)
      → Free s.c_runqueue_lock
      → (s.c_isidle (s.t_cpu t) && not (s.t_cpu t == s.curcpu)) ≡ false
      → (let s1 = queued t s in
          thread_make_runnable tl codes t false s
          ≡ ok tt (record s1 { c_runqueue_lock = write (s.t_cpu t) false s1.c_runqueue_lock }))
  unfolding thread_make_runnable
  make_runnable-busy t s free busy = rw (thread_make_runnable, free (s.t_cpu t), busy) refl

  one-Woken :
      (t : ℕ) (s s' : Smp L)
      → Free s'.c_runqueue_lock
      → Free s'.c_ipi_lock
      → s'.t_state ≡ write t s_ready s.t_state
      → s'.c_runqueue ≡ write (s.t_cpu t) (tl.addtail (s.c_runqueue (s.t_cpu t)) t) s.c_runqueue
      → s'.t_cpu ≡ s.t_cpu
      → s'.t_proc ≡ s.t_proc
      → s'.t_stack ≡ s.t_stack
      → s'.p_numthreads ≡ s.p_numthreads
      → Woken tl (t ∷ []) s s'
  one-Woken t s s' free ipi states queues cpus procs stacks counts = record {
    ready = λ x h. let e : (x == t) ≡ true = ground arith in rw (states, e) refl;
    others = λ x h. let e : (x == t) ≡ false = ground arith in rw (states, e) refl;
    queues = λ c. elim (Bool-cases (s.t_cpu t == c)) [
      | inl e ↦
          let z : s.t_cpu t ≡ c = ground arith in
          let self = ==_refl c in rw (queues, z, self) (laws.threads-addtail (s.c_runqueue c) t)
      | inr e ↦
          let d : (c == s.t_cpu t) ≡ false = ground arith in
          rw (queues, d, e) (sym (append-nil (tl.threads (s.c_runqueue c))))
    ];
    cpus = cpus;
    procs = procs;
    stacks = stacks;
    counts = counts;
    queues_free = free;
    ipis_free = ipi;
  }

  pub make_runnable-Woken :
      (t : ℕ) (s : Smp L)
      → Free s.c_runqueue_lock
      → Free s.c_ipi_lock
      → (s' : Smp L) × (thread_make_runnable tl codes t false s ≡ ok tt s') × Woken tl (t ∷ []) s s'
  make_runnable-Woken t s free ipi =
      let c = s.t_cpu t in
      let s1 = queued t s in
      let s2 = notified c codes.ipi_unidle s1 in
      let free' = relock s.c_runqueue_lock c free in
      elim (Bool-cases (s.c_isidle c && not (c == s.curcpu))) [
        | inl e ↦
            let s' = record s2 { c_runqueue_lock = write c false s2.c_runqueue_lock } in
            (
              s',
              make_runnable-idle t s free (ipi c) e,
              one-Woken t s s' free' (relock s.c_ipi_lock c ipi) refl refl refl refl refl refl,
            )
        | inr e ↦
            let s' = record s1 { c_runqueue_lock = write c false s1.c_runqueue_lock } in
            (
              s',
              make_runnable-busy t s free e,
              one-Woken t s s' free' ipi refl refl refl refl refl refl,
            )
      ]
