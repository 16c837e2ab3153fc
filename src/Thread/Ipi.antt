-- ===== src/Thread/Ipi.antt =====
-- The interrupts that processors send each other.
use paging_os.Base.{write, ℕ, zero, suc, ◌+◌, List, [], ◌∷◌, ◌++◌, length, ltb, ◌==◌, if◌then◌else◌}
use paging_os.Tlb.{vm_tlbshootdown}
use paging_os.Thread.{Smp, queue_acquire, queue_release, ipi_acquire, ipi_release}
use paging_os.Machine.{
  Cmd, pure, fail, get, modify, kassert, ◌>>=◌, ◌>>◌, panicked, or_bit, has_bit,
}

-- The codes of the interrupts and TLBSHOOTDOWN_MAX, of cpu.h and the machine, which are not in the
-- repository.
pub record IpiCodes : Type 0 where
  pub ipi_panic : ℕ
  pub ipi_offline : ℕ
  pub ipi_unidle : ℕ
  pub ipi_tlbshootdown : ℕ
  pub tlbshootdown_max : ℕ

module _ {L : Type 0} where
  -- target->c_ipi_pending |= 1 << code, and mainbus_send_ipi
  abbrev pub post : (target code : ℕ) → Cmd (Smp L) (Unit {0})
  post target code = do
    modify (λ s. record s {
      c_ipi_pending = write target (or_bit code (s.c_ipi_pending target)) s.c_ipi_pending;
    })
    modify (λ s. record s { sent = target ∷ s.sent })

  unfoldable pub ipi_send : (target code : ℕ) → Cmd (Smp L) (Unit {0})
  ipi_send target code = do
    kassert (ltb code 32)
    ipi_acquire target
    post target code
    ipi_release target

  -- The loop of ipi_broadcast, from processor `i` on.
  unfoldable pub broadcast_from : (code rounds i : ℕ) → Cmd (Smp L) (Unit {0})
  unfolding ipi_send
  broadcast_from code zero i = pure tt
  broadcast_from code (suc rounds) i = do
    s ← get
    if i == s.curcpu then pure tt else ipi_send i code
    broadcast_from code rounds (i + 1)

  unfoldable pub ipi_broadcast : (code : ℕ) → Cmd (Smp L) (Unit {0})
  unfolding broadcast_from
  ipi_broadcast code = do s ← get; broadcast_from code s.num_cpus 0

module _ {L : Type 0} (codes : IpiCodes) where
  unfoldable pub ipi_tlbshootdown : (target mapping : ℕ) → Cmd (Smp L) (Unit {0})
  ipi_tlbshootdown target mapping = do
    ipi_acquire target
    s ← get
    if length (s.c_shootdown target) == codes.tlbshootdown_max
        then fail panicked
        else modify (λ s. record s {
          c_shootdown = write target (s.c_shootdown target ++ mapping ∷ []) s.c_shootdown;
        })
    post target codes.ipi_tlbshootdown
    ipi_release target

module _ {L : Type 0} (codes : IpiCodes) where
  unfoldable pub thread_shutdown : Cmd (Smp L) (Unit {0})
  unfolding ipi_broadcast
  thread_shutdown = ipi_broadcast codes.ipi_offline

module _ {L : Type 0} where
  -- the loop of interprocessor_interrupt over c_shootdown
  unfoldable pub take_shootdowns : (mappings : List ℕ) → Cmd (Smp L) (Unit {0})
  unfolding vm_tlbshootdown
  take_shootdowns [] = pure tt
  take_shootdowns (mapping ∷ rest) = do vm_tlbshootdown; take_shootdowns rest

-- What becomes of the processor that takes an interrupt.
pub data Taken : Type 0 where
  -- cpu_halt
  halted : Taken
  -- it goes on
  resumed : Taken

module _ {L : Type 0} (codes : IpiCodes) where
  abbrev clear_pending : (c : ℕ) → Cmd (Smp L) (Unit {0})
  clear_pending c = do
    modify (λ s. record s { c_ipi_pending = write c 0 s.c_ipi_pending })
    ipi_release c

  unfoldable pub interprocessor_interrupt : Cmd (Smp L) Taken
  unfolding take_shootdowns
  interprocessor_interrupt = do
    s ← get
    ipi_acquire s.curcpu
    let bits = (s.c_ipi_pending s.curcpu)
    if has_bit codes.ipi_panic bits
        then (do ipi_release s.curcpu; pure halted)
        else if has_bit codes.ipi_offline bits
        then (do ipi_release s.curcpu; queue_acquire s.curcpu; queue_release s.curcpu; pure halted)
        else if has_bit codes.ipi_tlbshootdown bits
        then (do
          take_shootdowns (s.c_shootdown s.curcpu)
          modify (λ u. record u { c_shootdown = write s.curcpu [] u.c_shootdown })
          clear_pending s.curcpu
          pure resumed)
        else (do clear_pending s.curcpu; pure resumed)
