-- ===== src/Thread/Fifo.antt =====
-- The order in which threads run: a switch takes the first thread of the run queue.
use paging_os.Base.{
  write, ℕ, ◌+◌, ◌<◌, ◌≡◌, ◌≢◌, refl, ◌∙◌, ap, true, false, arith, ◌==◌, Bool-cases, inl, inr,
  ==_refl, length, occ, occ-append, List, [], ◌∷◌, ◌++◌, ◌&&◌,
}
use paging_os.Machine.{ok, pure, ◌>>=◌, ◌>>◌}
use paging_os.Machine.Threadlists.{ThreadlistOps, ThreadlistLaws, on}
use paging_os.Thread.{Smp, curthread, ThreadState, s_run, s_ready, s_sleep, s_zombie}
use paging_os.Thread.Ipi.{IpiCodes}
use paging_os.Thread.Queue.{Wchan}
use paging_os.Thread.Switch.{
  switched, exorcise, exorcise_from, switch_end, is_ready, put_away, pick_next, thread_switch,
}
use paging_os.Thread.Running.{
  Reapable, exorcise_from-none, back_in_line, asleep, buried, Away, changed, put_away-Away,
  now_running, pick_next-head,
}

occ-buried : (x : ThreadState) (t cur : ℕ) → 0 < occ t (buried x cur) → (t ≡ cur) × (x ≡ s_zombie)
occ-buried s_run t cur h = absurd (omega arith)
occ-buried s_ready t cur h = absurd (omega arith)
occ-buried s_sleep t cur h = absurd (omega arith)
occ-buried s_zombie t cur h = (ground arith, refl)

module _ {L : Type 0} (tl : ThreadlistOps L) (laws : ThreadlistLaws tl) (codes : IpiCodes) where
  -- thread_switch when there is a thread to switch to.
  abbrev switched_to :
      (x : ThreadState) (next : ℕ) (f : ℕ → ThreadState) (q z : ℕ → L) (rest : L) → Smp L → Smp L
  switched_to x next f q z rest s =
      now_running tl laws codes next rest
        (record (changed tl f q z
          (record s { c_runqueue_lock = write s.curcpu true s.c_runqueue_lock })) {
            t_state = write (curthread s) x f;
            c_isidle = write s.curcpu true s.c_isidle;
          })

  thread_switch-run :
      (x : ThreadState) (wc wc' : Wchan L) (s : Smp L) (next : ℕ) (f : ℕ → ThreadState)
      (q z : ℕ → L) (rest : L)
      → s.c_isidle s.curcpu ≡ false
      → s.c_runqueue_lock s.curcpu ≡ false
      → (is_ready tl codes x && (tl.tl_count (s.c_runqueue s.curcpu) == 0)) ≡ false
      → (let s1 = record s { c_runqueue_lock = write s.curcpu true s.c_runqueue_lock } in
          put_away tl codes x (curthread s) wc s1 ≡ ok wc' (changed tl f q z s1))
      → (let s2 =
            record (changed tl f q z
              (record s { c_runqueue_lock = write s.curcpu true s.c_runqueue_lock })) {
                t_state = write (curthread s) x f;
                c_isidle = write s.curcpu true s.c_isidle;
              } in
          pick_next tl s2 ≡ ok (switched next) (now_running tl laws codes next rest s2))
      → thread_switch tl codes x wc s ≡ ok (wc', switched next) (switched_to x next f q z rest s)
  unfolding thread_switch
  thread_switch-run x wc wc' s next f q z rest busy free guard put pick =
      rw (thread_switch, busy, free, guard, put, pick) refl

  thread_switch-switched :
      (x : ThreadState) (wc : Wchan L) (s : Smp L) (next : ℕ) (line : List ℕ)
      → x ≢ s_run
      → s.c_isidle s.curcpu ≡ false
      → s.c_runqueue_lock s.curcpu ≡ false
      → s.t_cpu (curthread s) ≡ s.curcpu
      → tl.threads (s.c_runqueue s.curcpu) ≡ next ∷ line
      → (wc' : Wchan L) × (f : ℕ → ThreadState) × (q : ℕ → L) × (z : ℕ → L) × (rest : L)
        × (thread_switch tl codes x wc s
            ≡ ok (wc', switched next) (switched_to x next f q z rest s))
        × Away tl x (curthread s) wc wc' s f q z
        × (tl.threads rest ≡ line ++ back_in_line x (curthread s))
  unfolding thread_switch
  thread_switch-switched x wc s next line ne busy free home some_there =
      let s1 = record s { c_runqueue_lock = write s.curcpu true s.c_runqueue_lock } in
      let self = ==_refl s.curcpu in
      let (wc', f, q, z, put, a) =
        put_away-Away tl laws codes x (curthread s) wc s1 ne home (rw self refl) in
      let s2 = record (changed tl f q z s1) {
        t_state = write (curthread s) x f;
        c_isidle = write s.curcpu true s.c_isidle;
      } in
      let (rest, pick, left) =
        pick_next-head tl laws codes s2 next (line ++ back_in_line x (curthread s))
          (a.queue ∙ ap (λ l. l ++ back_in_line x (curthread s)) some_there) in
      let nonempty : (tl.tl_count (s.c_runqueue s.curcpu) == 0) ≡ false =
        ground (arith, laws.count (s.c_runqueue s.curcpu), ap length some_there) in
      let guard : (is_ready tl codes x && (tl.tl_count (s.c_runqueue s.curcpu) == 0)) ≡ false =
        ground arith in
      (
        wc',
        f,
        q,
        z,
        rest,
        thread_switch-run x wc wc' s next f q z rest busy free guard put pick,
        record { queue = a.queue; channel = a.channel; zombies = a.zombies; states = a.states },
        left,
      )

  -- The list of zombies after a switch away from a thread in state `x`.
  switched-Reapable :
      (x : ThreadState) (wc wc' : Wchan L) (s s' : Smp L) (next : ℕ) (f : ℕ → ThreadState)
      (q z : ℕ → L)
      → Away tl x (curthread s) wc wc' s f q z
      → Reapable tl s (s.c_zombies s.curcpu)
      → s.t_state (curthread s) ≡ s_run
      → s.t_state next ≡ s_ready
      → (x ≡ s_zombie → s.t_proc (curthread s) ≡ 0)
      → curthread s' ≡ next
      → s'.t_proc ≡ s.t_proc
      → s'.t_state ≡ write next s_run (write (curthread s) x f)
      → Reapable tl s' (z s.curcpu)
  switched-Reapable x wc wc' s s' next f q z a r run ready end current procs states =
      let cur = curthread s in
      let before = s.c_zombies s.curcpu in
      let here = λ (t : ℕ).
        let h : on tl t (z s.curcpu) ≡ on tl t before + occ t (buried x cur) =
          rw a.zombies (occ-append t (tl.threads before) (buried x cur)) in
        h in
      let other : next ≢ cur = λ e. absurd (cc (run, ready, e)) in
      let not_next : on tl next (z s.curcpu) ≡ 0 =
        elim (Bool-cases (on tl next (z s.curcpu) == 0)) [
          | inl e ↦ ground arith
          | inr e ↦
              let some_there = here next in
              elim (Bool-cases (occ next (buried x cur) == 0)) [
                | inl f ↦ let d = r.dead next (ground arith) in absurd (cc (d, ready))
                | inr f ↦ absurd (other (occ-buried x next cur (ground arith)).0)
              ]
        ] in
      record {
        dead = λ t h.
            let some_there = here t in
            elim (Bool-cases (occ t (buried x cur) == 0)) [
              | inr e ↦
                  let (same, zombie) = occ-buried x t cur (ground arith) in
                  let e1 : (cur == next) ≡ false = ground arith in
                  let self = ==_refl cur in rw (states, same, e1, self) zombie
              | inl e ↦
                  let d = r.dead t (ground arith) in
                  let n1 : t ≢ next = λ q. absurd (cc (d, ready, q)) in
                  let n2 : t ≢ cur = λ q. absurd (cc (d, run, q)) in
                  let e1 : (t == next) ≡ false = ground arith in
                  let e2 : (t == cur) ≡ false = ground arith in
                  rw (states, e1, e2) (a.states t n2 ∙ d)
            ];
        alone = λ t h.
            let some_there = here t in
            elim (Bool-cases (occ t (buried x cur) == 0)) [
              | inr e ↦
                  let (same, zombie) = occ-buried x t cur (ground arith) in
                  rw (procs, same) (end zombie)
              | inl e ↦ rw procs (r.alone t (ground arith))
            ];
        not_current = rw current not_next;
      }

  switch_end-run :
      (s s' : Smp L) (next : ℕ)
      → curthread s ≡ next
      → (let s2 = record s {
        t_state = write next s_run s.t_state;
        c_runqueue_lock = write s.curcpu false s.c_runqueue_lock;
      } in
          exorcise_from tl (tl.tl_count (s.c_zombies s.curcpu) + 1) s2 ≡ ok tt s')
      → switch_end tl s ≡ ok tt s'
  unfolding switch_end exorcise
  switch_end-run s s' next e h = rw (switch_end, e) h

  -- A thread that gives up the processor while others wait: thread_switch, and its end in the thread that
  -- it switches to, return. The first thread of the run queue runs, with the state that goes with it, the
  -- others move up, and the thread that ran before has the new state and stands at the end of the run queue
  -- (S_READY), or of the wait channel (S_SLEEP). The spinlock is free, and no zombie is left: also the thread
  -- that ran before is destroyed (S_ZOMBIE). Assumed is that the processor is not idle, its lock free, its
  -- current thread one of its own, the first of the queue ready, and that zombies have no process.
  pub thread_switch-Switched :
      (x : ThreadState) (wc : Wchan L) (s : Smp L) (next : ℕ) (line : List ℕ)
      → x ≢ s_run
      → s.c_isidle s.curcpu ≡ false
      → s.c_runqueue_lock s.curcpu ≡ false
      → s.t_cpu (curthread s) ≡ s.curcpu
      → tl.threads (s.c_runqueue s.curcpu) ≡ next ∷ line
      → Reapable tl s (s.c_zombies s.curcpu)
      → s.t_state (curthread s) ≡ s_run
      → s.t_state next ≡ s_ready
      → (x ≡ s_zombie → s.t_proc (curthread s) ≡ 0)
      → (wc' : Wchan L) × (s' : Smp L) × ((thread_switch tl codes x wc >>= λ r.
              switch_end tl >> pure r)
            s
          ≡ ok (wc', switched next) s')
        × (curthread s' ≡ next)
        × (s'.t_state next ≡ s_run)
        × (s'.t_state (curthread s) ≡ x)
        × (tl.threads (s'.c_runqueue s.curcpu) ≡ line ++ back_in_line x (curthread s))
        × (tl.threads wc'.wc_threads ≡ tl.threads wc.wc_threads ++ asleep x (curthread s))
        × (tl.threads (s'.c_zombies s.curcpu) ≡ [])
        × (s'.c_runqueue_lock s.curcpu ≡ false)
  thread_switch-Switched x wc s next line ne busy free home some_there r run ready end =
      let (wc', f, q, z, rest, went, a, left) =
        thread_switch-switched x wc s next line ne busy free home some_there in
      let s1 = switched_to x next f q z rest s in
      let self = ==_refl s.curcpu in
      let self_next = ==_refl next in
      let s2 = record s1 {
        t_state = write next s_run s1.t_state;
        c_runqueue_lock = write s.curcpu false s1.c_runqueue_lock;
      } in
      let r2 : Reapable tl s2 (z s.curcpu) =
        switched-Reapable x wc wc' s s2 next f q z a r run ready end (rw self refl) refl refl in
      let (zs, reaped, empty) =
        exorcise_from-none tl laws (tl.tl_count (z s.curcpu) + 1) s2 r2
          (omega (arith, laws.count (z s.curcpu))) in
      let apart : (curthread s == next) ≡ false =
        let n : curthread s ≢ next = λ e. absurd (cc (run, ready, e)) in ground arith in
      let self_cur = ==_refl (curthread s) in
      (
        wc',
        record s2 { c_zombies = zs },
        rw (went, switch_end-run s1 (record s2 { c_zombies = zs }) next (rw self refl) reaped) refl,
        rw self refl,
        rw self_next refl,
        rw (apart, self_cur) refl,
        rw self left,
        a.channel,
        empty,
        rw self refl,
      )
