-- ===== src/Thread/Queue.antt =====
-- Making threads runnable, and the wait channels.
use paging_os.Base.{
  ℕ, zero, suc, ◌+◌, Bool, false, not, ◌&&◌, Option, none, some, ◌==◌, if◌then◌else◌,
}
use paging_os.Thread.{Smp, s_ready, set_runqueue, set_state, queue_acquire, queue_release}
use paging_os.Machine.{Cmd, pure, fail, get, kassert, ◌>>=◌, ◌>>◌, out_of_fuel}
use paging_os.Machine.Threadlists.{ThreadlistOps}
use paging_os.Thread.Ipi.{IpiCodes, ipi_send}

-- `struct wchan` without its name, and whether the caller holds the spinlock that goes with it.
pub record Wchan (L : Type 0) : Type 0 where
  pub wc_threads : L
  pub held : Bool

module _ {L : Type 0} (tl : ThreadlistOps L) (codes : IpiCodes) where
  unfoldable pub thread_make_runnable :
      (target : ℕ) → (already_have_lock : Bool) → Cmd (Smp L) (Unit {0})
  unfolding ipi_send
  thread_make_runnable target already_have_lock = do
    s ← get
    let targetcpu = (s.t_cpu target)
    if already_have_lock then kassert (s.c_runqueue_lock targetcpu) else queue_acquire targetcpu
    set_state target s_ready
    set_runqueue targetcpu (tl.addtail (s.c_runqueue targetcpu) target)
    if (s.c_isidle targetcpu) && not (targetcpu == s.curcpu)
        then ipi_send targetcpu codes.ipi_unidle
        else pure tt
    if already_have_lock then pure tt else queue_release targetcpu

  -- wchan_create: `allocated` is whether kmalloc had the memory.
  unfoldable pub wchan_create : (allocated : Bool) → Option (Wchan L)
  wchan_create allocated =
      if allocated then some (record { wc_threads = tl.init; held = false }) else none

  unfoldable pub wchan_wakeone : Wchan L → Cmd (Smp L) (Wchan L)
  unfolding thread_make_runnable
  wchan_wakeone wc = do
    kassert wc.held
    elim (tl.remhead wc.wc_threads) [
      | none ↦ pure wc
      | some (target, rest) ↦ do
        thread_make_runnable target false
        pure (record wc { wc_threads = rest })
    ]

  -- The first loop of wchan_wakeall: the threads of `from` go to `list`.
  unfoldable pub grab_all : (rounds : ℕ) → (from list : L) → Cmd (Smp L) (L × L)
  grab_all zero from list = fail out_of_fuel
  grab_all (suc rounds) from list = elim (tl.remhead from) [
    | none ↦ pure (from, list)
    | some (target, rest) ↦ grab_all rounds rest (tl.addtail list target)
  ]

  -- The second loop: each thread of `list` is made runnable.
  unfoldable pub wake_list : (rounds : ℕ) → (list : L) → Cmd (Smp L) (Unit {0})
  unfolding thread_make_runnable
  wake_list zero list = fail out_of_fuel
  wake_list (suc rounds) list = elim (tl.remhead list) [
    | none ↦ pure tt
    | some (target, rest) ↦ do thread_make_runnable target false; wake_list rounds rest
  ]

  unfoldable pub wchan_wakeall : Wchan L → Cmd (Smp L) (Wchan L)
  unfolding grab_all wake_list
  wchan_wakeall wc = do
    kassert wc.held
    (from, list) ← grab_all (tl.tl_count wc.wc_threads + 1) wc.wc_threads tl.init
    wake_list (tl.tl_count wc.wc_threads + 1) list
    pure (record wc { wc_threads = from })

  unfoldable pub wchan_isempty : Wchan L → Cmd (Smp L) Bool
  wchan_isempty wc = do kassert wc.held; pure (tl.tl_count wc.wc_threads == 0)
