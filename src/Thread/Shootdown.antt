-- ===== src/Thread/Shootdown.antt =====
-- What a processor does with the interrupts that the others send it.
use paging_os.Base.{
  ℕ, zero, suc, ◌+◌, ◌<◌, ◌≤◌, ◌≡◌, ◌≢◌, refl, ◌∙◌, true, false, arith, ◌==◌, Bool-cases, inl, inr,
  ==_refl,
}
use paging_os.Machine.{Cmd, ok, or_bit, has_bit, ◌>>◌, modify}
use paging_os.Machine.Bits.{has_bit-or_bit}
use paging_os.Thread.{Smp}
use paging_os.Thread.Ipi.{
  IpiCodes, Taken, ipi_send, interprocessor_interrupt, ipi_broadcast, broadcast_from,
}
use paging_os.Thread.Balance.{Free, relock}
use paging_os.Thread.Handout.{notified, ipi_send-notified}

module _ {L : Type 0} (codes : IpiCodes) where
  -- The interrupt `code`, sent to `target` and taken there.
  abbrev pub sent_and_taken : (target code : ℕ) → Cmd (Smp L) Taken
  sent_and_taken target code =
      ipi_send target code
      >> modify (λ u. record u { curcpu = target })
      >> interprocessor_interrupt codes

module _ {L : Type 0} where
  -- The interrupt `code` is pending on processor `c`.
  pub record Broadcast (code num : ℕ) (s s' : Smp L) (i : ℕ) : Type 0 where
    pub reached :
        (c : ℕ) → i ≤ c → c < num → c ≢ s.curcpu → has_bit code (s'.c_ipi_pending c) ≡ true
    pub spared : s'.c_ipi_pending s.curcpu ≡ s.c_ipi_pending s.curcpu
    pub beyond : (c : ℕ) → num ≤ c → s'.c_ipi_pending c ≡ s.c_ipi_pending c
    pub before : (c : ℕ) → c < i → s'.c_ipi_pending c ≡ s.c_ipi_pending c
    pub locks : Free s'.c_ipi_lock

  broadcast_from-Broadcast :
      (code rounds i : ℕ) (s : Smp L)
      → code < 32
      → Free s.c_ipi_lock
      → (s' : Smp L) × (broadcast_from code rounds i s ≡ ok tt s')
        × Broadcast code (i + rounds) s s' i
  unfolding broadcast_from
  broadcast_from-Broadcast code zero i s low free = (
    s,
    refl,
    record {
      reached = λ c lo hi ne. absurd (omega arith);
      spared = refl;
      beyond = λ c h. refl;
      before = λ c h. refl;
      locks = free;
    },
  )
  broadcast_from-Broadcast code (suc rounds) i s low free = elim (Bool-cases (i == s.curcpu)) [
    | inl e ↦
        let (s', run, b) = broadcast_from-Broadcast code rounds (i + 1) s low free in
        (
          s',
          rw (broadcast_from, e) run,
          record {
            reached = λ c lo hi ne. b.reached c (ground arith) (omega arith) ne;
            spared = b.spared;
            beyond = λ c h. b.beyond c (omega arith);
            before = λ c h. b.before c (omega arith);
            locks = b.locks;
          },
        )
    | inr e ↦
        let s1 = notified i code s in
        let told = ipi_send-notified i code s low (free i) in
        let (s', run, b) =
          broadcast_from-Broadcast code rounds (i + 1) s1 low (relock s.c_ipi_lock i free) in
        let self = ==_refl i in
        let here : s'.c_ipi_pending i ≡ or_bit code (s.c_ipi_pending i) =
          b.before i (omega arith) ∙ rw self refl in
        (
          s',
          rw (broadcast_from, e, told) run,
          record {
            reached = λ c lo hi ne. elim (Bool-cases (c == i)) [
              | inl f ↦
                  let z : c ≡ i = ground arith in
                  rw (z, here) (has_bit-or_bit code (s.c_ipi_pending i))
              | inr f ↦ b.reached c (ground arith) (omega arith) ne
            ];
            spared = let f : (s.curcpu == i) ≡ false = ground arith in b.spared ∙ rw f refl;
            beyond = λ c h.
                let f : (c == i) ≡ false = ground arith in b.beyond c (omega arith) ∙ rw f refl;
            before = λ c h.
                let f : (c == i) ≡ false = ground arith in b.before c (omega arith) ∙ rw f refl;
            locks = b.locks;
          },
        )
  ]

  -- ipi_broadcast of a code below 32, with no lock held, returns: the interrupt is pending on every
  -- processor but the one that sends it, where nothing changes, and no lock is held.
  pub ipi_broadcast-Broadcast :
      (code : ℕ) (s : Smp L)
      → code < 32
      → Free s.c_ipi_lock
      → (s' : Smp L) × (ipi_broadcast code s ≡ ok tt s') × Broadcast code s.num_cpus s s' 0
  unfolding ipi_broadcast
  ipi_broadcast-Broadcast code s low free =
      let z : 0 + s.num_cpus ≡ s.num_cpus = omega arith in
      let (s', run, b) = broadcast_from-Broadcast code s.num_cpus 0 s low free in
      (s', run, rw z at b)
