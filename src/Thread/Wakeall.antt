-- ===== src/Thread/Wakeall.antt =====
-- wchan_wakeall: the whole channel is emptied, and its threads wake in their order.
use paging_os.Base.{
  ℕ, zero, suc, ◌+◌, ◌<◌, ◌≡◌, refl, sym, ◌∙◌, ap, true, arith, ◌==◌, Bool-cases, Option-cases, inl,
  inr, length, occ, List, [], ◌∷◌, ◌++◌, append-nil, append_assoc,
}
use paging_os.Machine.{ok}
use paging_os.Machine.Threadlists.{ThreadlistOps, ThreadlistLaws}
use paging_os.Thread.{Smp}
use paging_os.Thread.Ipi.{IpiCodes}
use paging_os.Thread.Queue.{Wchan, grab_all, wake_list, wchan_wakeall}
use paging_os.Thread.Balance.{Free}
use paging_os.Thread.Collect.{count, count-remhead}
use paging_os.Thread.Waking.{Woken, make_runnable-Woken, bound_for}

module _ {L : Type 0} (tl : ThreadlistOps L) where
  Woken-none : (s : Smp L) → Free s.c_runqueue_lock → Free s.c_ipi_lock → Woken tl [] s s
  Woken-none s free ipi = record {
    ready = λ t h. absurd (omega arith);
    others = λ t h. refl;
    queues = λ c. sym (append-nil (tl.threads (s.c_runqueue c)));
    cpus = refl;
    procs = refl;
    counts = refl;
    stacks = refl;
    queues_free = free;
    ipis_free = ipi;
  }

  Woken-next :
      (t : ℕ) (l : List ℕ) (s s1 s2 : Smp L)
      → Woken tl (t ∷ []) s s1
      → Woken tl l s1 s2
      → Woken tl (t ∷ l) s s2
  Woken-next t l s s1 s2 a b = record {
    ready = λ x h. elim (Bool-cases (occ x l == 0)) [
      | inl e ↦ let same = b.others x (ground arith) in same ∙ a.ready x (ground arith)
      | inr e ↦ b.ready x (ground arith)
    ];
    others = λ x h. b.others x (ground arith) ∙ a.others x (ground arith);
    queues = λ c.
        let cpus = a.cpus in
        let first = a.queues c in
        let later = b.queues c in
        elim (Bool-cases (s.t_cpu t == c)) [
          | inl e ↦ rw e (
              later
              ∙ rw (cpus, first, e)
                  (append_assoc (tl.threads (s.c_runqueue c)) (t ∷ []) (bound_for s.t_cpu c l)))
          | inr e ↦ rw e (
              later
              ∙ rw (cpus, first, e)
                  (ap (λ m. m ++ bound_for s.t_cpu c l) (append-nil (tl.threads (s.c_runqueue c)))))
        ];
    cpus = b.cpus ∙ a.cpus;
    procs = b.procs ∙ a.procs;
    counts = b.counts ∙ a.counts;
    stacks = b.stacks ∙ a.stacks;
    queues_free = b.queues_free;
    ipis_free = b.ipis_free;
  }

module _ {L : Type 0} (tl : ThreadlistOps L) (laws : ThreadlistLaws tl) (codes : IpiCodes) where
  grab_all-all :
      (rounds : ℕ) (from list : L) (s : Smp L)
      → count tl from < rounds
      → (from' list' : L) × (grab_all tl codes rounds from list s ≡ ok (from', list') s)
        × (tl.threads from' ≡ [])
        × (tl.threads list' ≡ tl.threads list ++ tl.threads from)
  unfolding grab_all
  grab_all-all zero from list s h = absurd (omega arith)
  grab_all-all (suc rounds) from list s h = elim (Option-cases (tl.remhead from)) [
    | inl e ↦
        let empty = laws.remhead-none from e in
        (from, list, rw (grab_all, e) refl, empty, rw empty (sym (append-nil (tl.threads list))))
    | inr ((t, rest), e) ↦
        let fewer = count-remhead tl laws from rest t e in
        let (from', list', run, empty, all) =
          grab_all-all rounds rest (tl.addtail list t) s (omega arith) in
        (
          from',
          list',
          rw (grab_all, e) run,
          empty,
          all
              ∙ rw (laws.threads-addtail list t, laws.remhead-some from rest t e)
                  (append_assoc (tl.threads list) (t ∷ []) (tl.threads rest)),
        )
  ]

module _ {L : Type 0} (tl : ThreadlistOps L) (laws : ThreadlistLaws tl) (codes : IpiCodes) where
  wake_list-Woken :
      codes.ipi_unidle < 32
      → (rounds : ℕ) (list : L) (s : Smp L) → Free s.c_runqueue_lock
      → Free s.c_ipi_lock
      → count tl list < rounds
      → (s' : Smp L) × (wake_list tl codes rounds list s ≡ ok tt s')
        × Woken tl (tl.threads list) s s'
  unfolding wake_list
  wake_list-Woken low zero list s free ipi h = absurd (omega arith)
  wake_list-Woken low (suc rounds) list s free ipi h = elim (Option-cases (tl.remhead list)) [
    | inl e ↦ (s, rw (wake_list, e) refl, rw (laws.remhead-none list e) (Woken-none tl s free ipi))
    | inr ((t, rest), e) ↦
        let fewer = count-remhead tl laws list rest t e in
        let (s1, made, a) = make_runnable-Woken tl laws codes low t s free ipi in
        let (s2, run, b) =
          wake_list-Woken low rounds rest s1 a.queues_free a.ipis_free (omega arith) in
        (
          s2,
          rw (wake_list, e, made) run,
          rw (laws.remhead-some list rest t e) (Woken-next tl t (tl.threads rest) s s1 s2 a b),
        )
  ]

  -- wchan_wakeall, with the spinlock of the channel held and no other lock, returns and leaves the channel
  -- empty. Exactly its threads have become ready, and each run queue got those of its processor at its
  -- end, in the order in which they slept.
  pub wchan_wakeall-Woken :
      (wc : Wchan L) (s : Smp L)
      → wc.held ≡ true
      → codes.ipi_unidle < 32
      → Free s.c_runqueue_lock
      → Free s.c_ipi_lock
      → (wc' : Wchan L) × (s' : Smp L) × (wchan_wakeall tl codes wc s ≡ ok wc' s')
        × (tl.threads wc'.wc_threads ≡ [])
        × Woken tl (tl.threads wc.wc_threads) s s'
  unfolding wchan_wakeall
  wchan_wakeall-Woken wc s held low free ipi =
      let n = tl.tl_count wc.wc_threads + 1 in
      let counted = laws.count wc.wc_threads in
      let (from, list, grabbed, empty, all) =
        grab_all-all tl laws codes n wc.wc_threads tl.init s (omega arith) in
      let same : tl.threads list ≡ tl.threads wc.wc_threads =
        all ∙ ap (λ l. l ++ tl.threads wc.wc_threads) laws.threads-init in
      let (s', run, woken) =
        wake_list-Woken low n list s free ipi (omega (arith, ap length same)) in
      (
        record wc { wc_threads = from },
        s',
        rw (wchan_wakeall, held, grabbed, run) refl,
        empty,
        rw same at woken,
      )
