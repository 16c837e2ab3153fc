-- ===== src/Thread/Spread.antt =====
-- The whole of thread_consider_migration: no thread is lost, doubled or left with the wrong processor.
use paging_os.Base.{
  write, ℕ, zero, suc, ◌+◌, ◌-◌, ◌/◌, ◌%◌, ◌<◌, ◌≤◌, ◌≡◌, refl, sym, ◌∙◌, ap, Bool, true, false,
  arith, ◌==◌, if◌then◌else◌, Bool-cases, inl, inr, length, ltb, occ, List, [], ◌∷◌,
}
use paging_os.Machine.{ok, u32}
use paging_os.Machine.Threadlists.{ThreadlistOps, ThreadlistLaws, on, on-init}
use paging_os.Thread.{Smp, curthread}
use paging_os.Thread.Ipi.{IpiCodes}
use paging_os.Thread.Balance.{
  Free, relock, released, Balanced, Balanced-same, Balanced-relock, total,
}
use paging_os.Thread.Migrate.{
  sum_counts, send_all, return_victims, migrate, thread_consider_migration,
}
use paging_os.Thread.Collect.{count, take_victims-Balanced, put_back-Balanced}
use paging_os.Thread.Handout.{fill-Balanced}

occ-empty : (x : ℕ) (l : List ℕ) → length l ≡ 0 → occ x l ≡ 0
occ-empty x [] h = refl
occ-empty x (w ∷ l) h = absurd (omega arith)

-- Each thread is on at most one run queue, which is that of its processor, and no lock is held.
pub record RunQueuesOk {L : Type 0} (tl : ThreadlistOps L) (s : Smp L) : Type 0 where
  pub once : (t : ℕ) → total tl s.c_runqueue s.num_cpus t ≤ 1
  pub home : (t c : ℕ) → c < s.num_cpus → 0 < on tl t (s.c_runqueue c) → s.t_cpu t ≡ c
  pub queues_free : (c : ℕ) → s.c_runqueue_lock c ≡ false
  pub ipis_free : (c : ℕ) → s.c_ipi_lock c ≡ false

module _ {L : Type 0} (tl : ThreadlistOps L) where
  -- The first loop only takes and releases locks, and finds the length of the own run queue.
  sum_counts-own :
      (rounds i my_count total_count : ℕ) (s : Smp L)
      → Free s.c_runqueue_lock
      → (s.curcpu < i → my_count ≡ tl.tl_count (s.c_runqueue s.curcpu))
      → s.curcpu < i + rounds
      → (lock : ℕ → Bool) × (sum : ℕ) × Free lock
        × (sum_counts tl rounds i my_count total_count s
            ≡ ok (tl.tl_count (s.c_runqueue s.curcpu), sum) (record s { c_runqueue_lock = lock }))
  unfolding sum_counts
  sum_counts-own zero i my_count total_count s free mine hi =
      (s.c_runqueue_lock, total_count, free, rw (mine (omega arith)) refl)
  sum_counts-own (suc rounds) i my_count total_count s free mine hi =
      let n = tl.tl_count (s.c_runqueue i) in
      let s1 = record s { c_runqueue_lock = write i false (write i true s.c_runqueue_lock) } in
      let free1 = relock s.c_runqueue_lock i free in
      let mine1 : s.curcpu < i + 1
          → (if i == s.curcpu then n else my_count) ≡ tl.tl_count (s.c_runqueue s.curcpu) =
        λ h. elim (Bool-cases (i == s.curcpu)) [
          | inl e ↦ let z : i ≡ s.curcpu = ground arith in rw e (rw z refl)
          | inr e ↦ rw e (mine (ground arith))
        ] in
      let (lock, sum, free', run) =
        sum_counts-own rounds (i + 1) (if i == s.curcpu then n else my_count)
          ((total_count + n) % u32) s1 free1 mine1 (omega arith) in
      (lock, sum, free', rw (sum_counts, free i) run)

module _ {L : Type 0} (tl : ThreadlistOps L) (laws : ThreadlistLaws tl) (s0 : Smp L) where
  -- Nothing is left, as on a list that has just been made.
  none_left-Balanced :
      (s : Smp L) (v : L) → Balanced tl s0 s v → count tl v ≡ 0 → Balanced tl s0 s tl.init
  none_left-Balanced s v b h =
      Balanced-same tl laws s0 s v tl.init b
        (λ x. on-init tl laws x ∙ sym (occ-empty x (tl.threads v) h))

  return_victims-Balanced :
      s0.curcpu < s0.num_cpus
      → (rounds : ℕ) (v : L) (s : Smp L) → Balanced tl s0 s v
      → Free s.c_runqueue_lock
      → count tl v < rounds
      → (s' : Smp L) × (return_victims tl rounds v s ≡ ok tt s')
        × Balanced tl s0 s' tl.init
        × Free s'.c_runqueue_lock
  unfolding return_victims
  return_victims-Balanced here rounds v s b free h = elim (Bool-cases (tl.tl_count v == 0)) [
    | inl e ↦
        let c = laws.count v in
        (s, rw (return_victims, e) refl, none_left-Balanced s v b (ground arith), free)
    | inr e ↦
        let own = s.curcpu in
        let s1 = record s { c_runqueue_lock = write own true s.c_runqueue_lock } in
        let b1 = Balanced-relock tl laws s0 s v (write own true s.c_runqueue_lock) b in
        let (x, s2, back, b2, none_left, lock) =
          put_back-Balanced tl laws s0 here rounds v s1 b1 h in
        let s3 = record s2 { c_runqueue_lock = write own false s2.c_runqueue_lock } in
        let b3 = Balanced-relock tl laws s0 s2 x (write own false s2.c_runqueue_lock) b2 in
        (
          s3,
          rw (return_victims, e, free own, back, laws.count x ∙ none_left) refl,
          none_left-Balanced s3 x b3 none_left,
          released s.c_runqueue_lock own s2.c_runqueue_lock free lock,
        )
  ]

module _ {L : Type 0} (tl : ThreadlistOps L) (laws : ThreadlistLaws tl) (codes : IpiCodes)
    (s0 : Smp L) (once : (x : ℕ) → total tl s0.c_runqueue s0.num_cpus x ≤ 1)
    (low : codes.ipi_unidle < 32) where
  -- The loop over the processors.
  send_all-Balanced :
      (rounds i one_share to_send : ℕ) (v : L) (s : Smp L)
      → Balanced tl s0 s v
      → Free s.c_runqueue_lock
      → i + rounds ≡ s0.num_cpus
      → to_send ≤ count tl v
      → (v' : L) × (s' : Smp L) × (send_all tl codes rounds i one_share to_send v s ≡ ok v' s')
        × Balanced tl s0 s' v'
        × (count tl v' ≤ count tl v)
        × Free s'.c_runqueue_lock
  unfolding send_all
  send_all-Balanced zero i one_share to_send v s b free all h = (v, s, refl, b, omega arith, free)
  send_all-Balanced (suc rounds) i one_share to_send v s b free all h =
      elim (Bool-cases (to_send == 0)) [
        | inl e ↦ (v, s, rw (send_all, e) refl, b, omega arith, free)
        | inr e ↦ elim (Bool-cases (i == s.curcpu)) [
          | inl f ↦
              let (v', s', run, b', size', free') =
                send_all-Balanced rounds (i + 1) one_share to_send v s b free (omega arith) h in
              (v', s', rw (send_all, e, f) run, b', size', free')
          | inr f ↦
              let s1 = record s { c_runqueue_lock = write i true s.c_runqueue_lock } in
              let b1 : Balanced tl s0 s1 v =
                Balanced-relock tl laws s0 s v (write i true s.c_runqueue_lock) b in
              let (left, w, s2, filled, b2, some_left, size, lock) =
                fill-Balanced tl laws codes s0 once low i one_share to_send v s1 b1 (omega arith)
                  h in
              let s3 = record s2 { c_runqueue_lock = write i false s2.c_runqueue_lock } in
              let b3 : Balanced tl s0 s3 w =
                Balanced-relock tl laws s0 s2 w (write i false s2.c_runqueue_lock) b2 in
              let (v', s', run, b', size', free') =
                send_all-Balanced rounds (i + 1) one_share left w s3 b3
                  (released s.c_runqueue_lock i s2.c_runqueue_lock free lock) (omega arith)
                  some_left in
              (v', s', rw (send_all, e, f, free i, filled) run, b', omega arith, free')
        ]
      ]

  -- The part behind the test of my_count.
  migrate-Balanced :
      (one_share to_send : ℕ) (s : Smp L)
      → Balanced tl s0 s tl.init
      → Free s.c_runqueue_lock
      → s0.curcpu < s0.num_cpus
      → to_send ≤ count tl (s.c_runqueue s.curcpu)
      → (s' : Smp L) × (migrate tl codes one_share to_send s ≡ ok tt s')
        × Balanced tl s0 s' tl.init
        × Free s'.c_runqueue_lock
  unfolding migrate
  migrate-Balanced one_share to_send s b free here h =
      let own = s.curcpu in
      let s1 = record s { c_runqueue_lock = write own true s.c_runqueue_lock } in
      let b1 = Balanced-relock tl laws s0 s tl.init (write own true s.c_runqueue_lock) b in
      let (v, s2, took, b2, size, lock) =
        take_victims-Balanced tl laws s0 here to_send tl.init s1 b1 h in
      let s3 = record s2 { c_runqueue_lock = write own false s2.c_runqueue_lock } in
      let b3 = Balanced-relock tl laws s0 s2 v (write own false s2.c_runqueue_lock) b2 in
      let free3 = released s.c_runqueue_lock own s2.c_runqueue_lock free lock in
      let empty = ap length laws.threads-init in
      let (w, s4, sent, b4, size4, free4) =
        send_all-Balanced s.num_cpus 0 one_share to_send v s3 b3 free3 (omega (arith, b.num))
          (omega arith) in
      let (s5, back, b5, free5) =
        return_victims-Balanced tl laws s0 here (to_send + 1) w s4 b4 free4 (omega arith) in
      (s5, rw (migrate, free own, took, sent) back, b5, free5)

module _ {L : Type 0} (tl : ThreadlistOps L) (laws : ThreadlistLaws tl) (codes : IpiCodes) where
  start : (s : Smp L) → RunQueuesOk tl s → Balanced tl s s tl.init
  start s good = record {
    num = refl;
    cur = refl;
    current = refl;
    states = refl;
    conserve = λ t. omega (arith, on-init tl laws t);
    home = good.home;
    away = λ t h. absurd (omega (arith, on-init tl laws t));
    kept = refl;
    ipi = good.ipis_free;
  }

  -- What is reached when no victim is left.
  settled :
      (s s' : Smp L)
      → RunQueuesOk tl s
      → Balanced tl s s' tl.init
      → Free s'.c_runqueue_lock
      → RunQueuesOk tl s'
        × ((t : ℕ) → total tl s'.c_runqueue s'.num_cpus t ≡ total tl s.c_runqueue s.num_cpus t)
        × (s'.t_cpu (curthread s') ≡ s.t_cpu (curthread s))
        × (s'.t_state ≡ s.t_state)
  settled s s' good b free =
      let num = b.num in
      let same = λ (t : ℕ).
        let h : total tl s'.c_runqueue s.num_cpus t ≡ total tl s.c_runqueue s.num_cpus t =
          omega (arith, b.conserve t, on-init tl laws t) in
        h in
      let cur = b.cur in
      let current = b.current in
      (
        record {
          once = λ t. rw (num, same t) (good.once t);
          home = λ t c low h. b.home t c (rw num at low) h;
          queues_free = free;
          ipis_free = b.ipi;
        },
        (λ t. rw num (same t)),
        rw (cur, current) b.kept,
        b.states,
      )

  -- thread_consider_migration returns, for any number of processors and threads: each thread is then on as
  -- many run queues as before, each on the queue of its processor at most once, and no lock is held. The
  -- current thread keeps its processor, and no thread changes its state. Assumed are run queues that are
  -- right before, and a code of the interrupt below 32.
  pub thread_consider_migration-RunQueuesOk :
      (s : Smp L)
      → RunQueuesOk tl s
      → s.curcpu < s.num_cpus
      → codes.ipi_unidle < 32
      → (s' : Smp L) × (thread_consider_migration tl codes s ≡ ok tt s')
        × RunQueuesOk tl s'
        × ((t : ℕ) → total tl s'.c_runqueue s'.num_cpus t ≡ total tl s.c_runqueue s.num_cpus t)
        × (s'.t_cpu (curthread s') ≡ s.t_cpu (curthread s))
        × (s'.t_state ≡ s.t_state)
  unfolding thread_consider_migration
  thread_consider_migration-RunQueuesOk s good here low =
      let (lock, sum, free, counted) =
        sum_counts-own tl s.num_cpus 0 0 0 s good.queues_free (λ h. absurd (omega arith))
          (omega arith) in
      let own = tl.tl_count (s.c_runqueue s.curcpu) in
      let share = (sum + s.num_cpus + u32 - 1) % u32 / s.num_cpus in
      let s1 = record s { c_runqueue_lock = lock } in
      let b1 = Balanced-relock tl laws s s tl.init lock (start s good) in
      elim (Bool-cases (ltb own share)) [
        | inl e ↦
            let (good', all, kept, states) = settled s s1 good b1 free in
            (s1, rw (thread_consider_migration, counted, e) refl, good', all, kept, states)
        | inr e ↦
            let (s', run, b, free') =
              migrate-Balanced tl laws codes s good.once low share (own - share) s1 b1 free here
                (omega (arith, laws.count (s.c_runqueue s.curcpu))) in
            let (good', all, kept, states) = settled s s' good b free' in
            (s', rw (thread_consider_migration, counted, e) run, good', all, kept, states)
      ]
