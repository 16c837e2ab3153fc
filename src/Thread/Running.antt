-- ===== src/Thread/Running.antt =====
-- Which thread runs next, and what becomes of the one that ran before.
use paging_os.Base.{
  write, ℕ, zero, suc, ◌<◌, ◌≡◌, ◌≢◌, refl, sym, true, false, some, arith, ◌==◌, Bool-cases,
  Option-cases, inl, inr, ==_refl, List, [], ◌∷◌, ◌++◌, append-nil,
}
use paging_os.Machine.{ok}
use paging_os.Machine.Threadlists.{ThreadlistOps, ThreadlistLaws, on, on-remhead}
use paging_os.Thread.{Smp, curthread, ThreadState, s_run, s_ready, s_sleep, s_zombie}
use paging_os.Thread.Ipi.{IpiCodes}
use paging_os.Thread.Queue.{Wchan, thread_make_runnable}
use paging_os.Thread.Switch.{switched, idling, exorcise_from, thread_destroy, pick_next, put_away}
use paging_os.Thread.Collect.{count, count-remhead}

module _ {L : Type 0} (tl : ThreadlistOps L) where
  -- The threads on the list are zombies without a process, and the current thread is none of them.
  pub record Reapable (s : Smp L) (l : L) : Type 0 where
    pub dead : (t : ℕ) → 0 < on tl t l → s.t_state t ≡ s_zombie
    pub alone : (t : ℕ) → 0 < on tl t l → s.t_proc t ≡ 0
    pub not_current : on tl (curthread s) l ≡ 0

module _ {L : Type 0} where
  thread_destroy-ok :
      (s : Smp L) (t : ℕ)
      → (t == curthread s) ≡ false
      → s.t_state t ≡ s_zombie
      → s.t_proc t ≡ 0
      → thread_destroy t s ≡ ok tt s
  unfolding thread_destroy
  thread_destroy-ok s t other dead alone = ground arith

module _ {L : Type 0} (tl : ThreadlistOps L) (laws : ThreadlistLaws tl) where
  Reapable-rest :
      (s : Smp L) (l rest : L) (t : ℕ)
      → Reapable tl s l
      → tl.remhead l ≡ some (t, rest)
      → Reapable tl (record s { c_zombies = write s.curcpu rest s.c_zombies }) rest
  Reapable-rest s l rest t r h = record {
    dead = λ x hx. r.dead x (omega (arith, on-remhead tl laws x t l rest h));
    alone = λ x hx. r.alone x (omega (arith, on-remhead tl laws x t l rest h));
    not_current =
        let z = r.not_current in omega (arith, on-remhead tl laws (curthread s) t l rest h);
  }

  pub exorcise_from-none :
      (rounds : ℕ) (s : Smp L)
      → Reapable tl s (s.c_zombies s.curcpu)
      → count tl (s.c_zombies s.curcpu) < rounds
      → (zs : ℕ → L) × (exorcise_from tl rounds s ≡ ok tt (record s { c_zombies = zs }))
        × (tl.threads (zs s.curcpu) ≡ [])
  unfolding exorcise_from
  exorcise_from-none zero s r h = absurd (omega arith)
  exorcise_from-none (suc rounds) s r h =
      let l = s.c_zombies s.curcpu in
      elim (Option-cases (tl.remhead l)) [
        | inl e ↦ (s.c_zombies, rw (exorcise_from, e) refl, laws.remhead-none l e)
        | inr ((z, rest), e) ↦
            let s1 = record s { c_zombies = write s.curcpu rest s.c_zombies } in
            let self = ==_refl s.curcpu in
            let r1 : Reapable tl s1 (s1.c_zombies s1.curcpu) =
              rw self (Reapable-rest s l rest z r e) in
            let (zs, run, empty) =
              exorcise_from-none rounds s1 r1
                (rw self (omega (arith, count-remhead tl laws l rest z e))) in
            let there : 0 < on tl z l =
              ground (arith, on-remhead tl laws z z l rest e, ==_refl z) in
            let dead = r.dead z there in
            let alone = r.alone z there in
            let other : (z == curthread s) ≡ false = elim (Bool-cases (z == curthread s)) [
              | inl f ↦
                  let q : z ≡ curthread s = ground arith in
                  let none_of = r.not_current in absurd (omega (arith, rw q at there))
              | inr f ↦ f
            ] in
            (
              zs,
              rw (exorcise_from, e, other, dead, thread_destroy-ok s1 z other dead alone) run,
              empty,
            )
      ]

-- The run queue behind the threads that wait, for the thread that gives up the processor.
abbrev pub back_in_line : ThreadState → ℕ → List ℕ
back_in_line s_ready t = t ∷ []
back_in_line _ t = []

-- The thread at the end of the wait channel, and of the list of zombies.
abbrev pub asleep : ThreadState → ℕ → List ℕ
asleep s_sleep t = t ∷ []
asleep _ t = []

abbrev pub buried : ThreadState → ℕ → List ℕ
buried s_zombie t = t ∷ []
buried _ t = []

module _ {L : Type 0} (tl : ThreadlistOps L) where
  -- States `f`, run queues `q` and zombies `z` after put_away with the current thread `t`.
  pub record Away (x : ThreadState) (t : ℕ) (wc wc' : Wchan L) (s : Smp L) (f : ℕ → ThreadState)
      (q z : ℕ → L) : Type 0 where
    pub queue : tl.threads (q s.curcpu) ≡ tl.threads (s.c_runqueue s.curcpu) ++ back_in_line x t
    pub channel : tl.threads wc'.wc_threads ≡ tl.threads wc.wc_threads ++ asleep x t
    pub zombies : tl.threads (z s.curcpu) ≡ tl.threads (s.c_zombies s.curcpu) ++ buried x t
    pub states : (y : ℕ) → y ≢ t → f y ≡ s.t_state y

  abbrev pub changed : (f : ℕ → ThreadState) → (q z : ℕ → L) → Smp L → Smp L
  changed f q z s = record s { t_state = f; c_runqueue = q; c_zombies = z }

module _ {L : Type 0} (tl : ThreadlistOps L) (laws : ThreadlistLaws tl) (codes : IpiCodes) where
  thread_make_runnable-own :
      (t : ℕ) (s : Smp L)
      → s.t_cpu t ≡ s.curcpu
      → s.c_runqueue_lock s.curcpu ≡ true
      → thread_make_runnable tl codes t true s
        ≡ ok tt (record s {
          t_state = write t s_ready s.t_state;
          c_runqueue = write s.curcpu (tl.addtail (s.c_runqueue s.curcpu) t) s.c_runqueue;
        })
  unfolding thread_make_runnable
  thread_make_runnable-own t s home held = ground arith

  pub put_away-Away :
      (x : ThreadState) (t : ℕ) (wc : Wchan L) (s : Smp L)
      → x ≢ s_run
      → s.t_cpu t ≡ s.curcpu
      → s.c_runqueue_lock s.curcpu ≡ true
      → (wc' : Wchan L) × (f : ℕ → ThreadState) × (q : ℕ → L) × (z : ℕ → L) × (put_away tl codes x t
            wc s
          ≡ ok wc' (changed tl f q z s))
        × Away tl x t wc wc' s f q z
  unfolding put_away
  put_away-Away s_run t wc s ne home held = absurd (ne refl)
  put_away-Away s_ready t wc s ne home held =
      let self = ==_refl s.curcpu in
      (
        wc,
        write t s_ready s.t_state,
        write s.curcpu (tl.addtail (s.c_runqueue s.curcpu) t) s.c_runqueue,
        s.c_zombies,
        rw (put_away, thread_make_runnable-own t s home held) refl,
        record {
          queue = rw self (laws.threads-addtail (s.c_runqueue s.curcpu) t);
          channel = sym (append-nil (tl.threads wc.wc_threads));
          zombies = sym (append-nil (tl.threads (s.c_zombies s.curcpu)));
          states = λ y d. let z : (y == t) ≡ false = ground arith in rw z refl;
        },
      )
  put_away-Away s_sleep t wc s ne home held = (
    record { wc_threads = tl.addtail wc.wc_threads t; held = false },
    s.t_state,
    s.c_runqueue,
    s.c_zombies,
    refl,
    record {
      queue = sym (append-nil (tl.threads (s.c_runqueue s.curcpu)));
      channel = laws.threads-addtail wc.wc_threads t;
      zombies = sym (append-nil (tl.threads (s.c_zombies s.curcpu)));
      states = λ y d. refl;
    },
  )
  put_away-Away s_zombie t wc s ne home held =
      let self = ==_refl s.curcpu in
      (
        wc,
        s.t_state,
        s.c_runqueue,
        write s.curcpu (tl.addtail (s.c_zombies s.curcpu) t) s.c_zombies,
        refl,
        record {
          queue = sym (append-nil (tl.threads (s.c_runqueue s.curcpu)));
          channel = sym (append-nil (tl.threads wc.wc_threads));
          zombies = rw self (laws.threads-addtail (s.c_zombies s.curcpu) t);
          states = λ y d. refl;
        },
      )

  -- The lock that the loop holds, and the thread that it takes.
  abbrev pub now_running : (next : ℕ) (rest : L) → Smp L → Smp L
  now_running next rest s = record s {
    c_runqueue = write s.curcpu rest s.c_runqueue;
    c_isidle = write s.curcpu false s.c_isidle;
    c_curthread = write s.curcpu next s.c_curthread;
  }

  pub pick_next-head :
      (s : Smp L) (next : ℕ) (line : List ℕ)
      → tl.threads (s.c_runqueue s.curcpu) ≡ next ∷ line
      → (rest : L) × (pick_next tl s ≡ ok (switched next) (now_running next rest s))
        × (tl.threads rest ≡ line)
  unfolding pick_next
  pick_next-head s next line h = elim (Option-cases (tl.remhead (s.c_runqueue s.curcpu))) [
    | inl e ↦ let z = laws.remhead-none (s.c_runqueue s.curcpu) e in absurd (cc (h, z))
    | inr ((t, rest), e) ↦
        let z = laws.remhead-some (s.c_runqueue s.curcpu) rest t e in
        let same : t ≡ next = cc (h, z) in (rest, rw (pick_next, e, same) refl, cc (h, z))
  ]

  pub pick_next-none :
      (s : Smp L)
      → tl.threads (s.c_runqueue s.curcpu) ≡ []
      → pick_next tl s
        ≡ ok idling (record s { c_runqueue_lock = write s.curcpu false s.c_runqueue_lock })
  unfolding pick_next
  pick_next-none s h = elim (Option-cases (tl.remhead (s.c_runqueue s.curcpu))) [
    | inl e ↦ rw (pick_next, e) refl
    | inr ((t, rest), e) ↦
        let z = laws.remhead-some (s.c_runqueue s.curcpu) rest t e in absurd (cc (h, z))
  ]
