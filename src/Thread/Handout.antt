-- ===== src/Thread/Handout.antt =====
-- The loops of a migration that hand victims out to the other processors.
use paging_os.Base.{
  write, ℕ, zero, suc, ◌<◌, ◌≤◌, ◌≡◌, ◌≢◌, refl, ◌∙◌, true, false, arith, ◌==◌, if◌then◌else◌,
  Bool-cases, inl, inr, ==_refl, ltb, ◌∷◌,
}
use paging_os.Machine.{ok, or_bit}
use paging_os.Machine.Threadlists.{ThreadlistOps, ThreadlistLaws, on-addtail, on-remhead}
use paging_os.Thread.{Smp, curthread}
use paging_os.Thread.Ipi.{IpiCodes, ipi_send}
use paging_os.Thread.Balance.{Balanced, Balanced-same, Balanced-send, total}
use paging_os.Thread.Migrate.{fill}
use paging_os.Thread.Collect.{count, count-addtail, count-remhead, remhead-total}

module _ {L : Type 0} where
  -- What ipi_send leaves behind.
  abbrev pub notified : (target code : ℕ) → Smp L → Smp L
  notified target code s = record s {
    c_ipi_lock = write target false (write target true s.c_ipi_lock);
    c_ipi_pending = write target (or_bit code (s.c_ipi_pending target)) s.c_ipi_pending;
    sent = target ∷ s.sent;
  }

  pub ipi_send-notified :
      (target code : ℕ) (s : Smp L)
      → code < 32
      → s.c_ipi_lock target ≡ false
      → ipi_send target code s ≡ ok tt (notified target code s)
  unfolding ipi_send
  ipi_send-notified target code s low free = ground arith

module _ {L : Type 0} (tl : ThreadlistOps L) (laws : ThreadlistLaws tl) (codes : IpiCodes)
    (s0 : Smp L) where
  -- An interrupt of an idle processor changes no queue.
  pub notify-Balanced :
      (c : ℕ) (s : Smp L) (v : L)
      → codes.ipi_unidle < 32
      → Balanced tl s0 s v
      → (s' : Smp L) × ((if s.c_isidle c then ipi_send c codes.ipi_unidle else λ (u : Smp L).
              ok tt u)
            s
          ≡ ok tt s')
        × Balanced tl s0 s' v
        × (s'.c_runqueue_lock ≡ s.c_runqueue_lock)
  notify-Balanced c s v low b = elim (Bool-cases (s.c_isidle c)) [
    | inl e ↦ (
      notified c codes.ipi_unidle s,
      rw e (ipi_send-notified c codes.ipi_unidle s low (b.ipi c)),
      record {
        num = b.num;
        cur = b.cur;
        current = b.current;
        states = b.states;
        conserve = b.conserve;
        home = b.home;
        away = b.away;
        kept = b.kept;
        ipi = λ x. elim (Bool-cases (x == c)) [ inl f ↦ rw f refl | inr f ↦ rw f (b.ipi x) ];
      },
      refl,
    )
    | inr e ↦ (s, rw e refl, b, refl)
  ]

module _ {L : Type 0} (tl : ThreadlistOps L) (laws : ThreadlistLaws tl) (codes : IpiCodes)
    (s0 : Smp L) (once : (x : ℕ) → total tl s0.c_runqueue s0.num_cpus x ≤ 1)
    (low : codes.ipi_unidle < 32) where
  -- One processor is given threads up to its share, and the current thread is passed over.
  pub fill-Balanced :
      (c one_share to_send : ℕ) (v : L) (s : Smp L)
      → Balanced tl s0 s v
      → c < s0.num_cpus
      → to_send ≤ count tl v
      → (left : ℕ) × (v' : L) × (s' : Smp L) × (fill tl codes c one_share to_send v s
          ≡ ok (left, v') s')
        × Balanced tl s0 s' v'
        × (left ≤ count tl v')
        × (count tl v' ≤ count tl v)
        × (s'.c_runqueue_lock ≡ s.c_runqueue_lock)
  unfolding fill
  fill-Balanced c one_share zero v s b lc h = (0, v, s, refl, b, omega arith, omega arith, refl)
  fill-Balanced c one_share (suc to_send) v s b lc h =
      elim (Bool-cases (ltb (tl.tl_count (s.c_runqueue c)) one_share)) [
        | inr e ↦ (suc to_send, v, s, rw (fill, e) refl, b, h, omega arith, refl)
        | inl e ↦
            let (t, rest, first) = remhead-total tl laws v (omega arith) in
            let fewer = count-remhead tl laws v rest t first in
            elim (Bool-cases (t == curthread s)) [
              | inl f ↦
                  let more = count-addtail tl laws rest t in
                  let b1 = Balanced-same tl laws s0 s v (tl.addtail rest t) b (λ x.
                    omega
                      (arith, on-remhead tl laws x t v rest first, on-addtail tl laws x t rest)) in
                  let (left, v', s', run, b', some_left, size, lock) =
                    fill-Balanced c one_share to_send (tl.addtail rest t) s b1 lc (omega arith) in
                  (left, v', s', rw (fill, e, first, f) run, b', some_left, omega arith, lock)
              | inr f ↦
                  let s1 = record s {
                    t_cpu = write t c s.t_cpu;
                    c_runqueue = write c (tl.addtail (s.c_runqueue c) t) s.c_runqueue;
                  } in
                  let ne : t ≢ curthread s0 =
                    let c1 = b.cur in
                    let c2 = b.current in λ q. absurd (cc (f, ==_refl t, q, c1, c2)) in
                  let b1 = Balanced-send tl laws s0 s v rest t c b once lc ne first in
                  let (s2, told, b2, lock2) = notify-Balanced tl laws codes s0 c s1 rest low b1 in
                  let (left, v', s', run, b', some_left, size, lock) =
                    fill-Balanced c one_share to_send rest s2 b2 lc (omega arith) in
                  (
                    left,
                    v',
                    s',
                    rw (fill, e, first, f, told) run,
                    b',
                    some_left,
                    omega arith,
                    lock ∙ lock2,
                  )
            ]
      ]
