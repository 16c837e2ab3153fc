-- ===== src/Thread/Migrate.antt =====
-- thread_consider_migration
use paging_os.Base.{ℕ, zero, suc, ◌+◌, ◌-◌, ◌/◌, ◌%◌, not, none, some, ◌==◌, if◌then◌else◌, ltb}
use paging_os.Thread.{Smp, curthread, set_runqueue, set_t_cpu, queue_acquire, queue_release}
use paging_os.Machine.{u32, Cmd, pure, fail, get, kassert, ◌>>=◌, ◌>>◌, wild_access, out_of_fuel}
use paging_os.Machine.Threadlists.{ThreadlistOps}
use paging_os.Thread.Ipi.{IpiCodes, ipi_send}

module _ {L : Type 0} (tl : ThreadlistOps L) where
  -- The first loop, from processor `i` on: my_count and total_count.
  unfoldable pub sum_counts : (rounds i my_count total_count : ℕ) → Cmd (Smp L) (ℕ × ℕ)
  sum_counts zero i my_count total_count = pure (my_count, total_count)
  sum_counts (suc rounds) i my_count total_count = do
    queue_acquire i
    s ← get
    let n = tl.tl_count (s.c_runqueue i)
    queue_release i
    sum_counts rounds (i + 1) (if i == s.curcpu then n else my_count) ((total_count + n) % u32)

  -- The second loop: `rounds` threads go from the tail of the own run queue to `victims`.
  unfoldable pub take_victims : (rounds : ℕ) → (victims : L) → Cmd (Smp L) L
  take_victims zero victims = pure victims
  take_victims (suc rounds) victims = do
    s ← get
    elim (tl.remtail (s.c_runqueue s.curcpu)) [
      | none ↦ fail wild_access
      | some (t, rest) ↦ do set_runqueue s.curcpu rest; take_victims rounds (tl.addhead victims t)
    ]

  -- The last loop: what is left of `victims` goes back to the own run queue.
  unfoldable pub put_back : (rounds : ℕ) → (victims : L) → Cmd (Smp L) L
  put_back zero victims = fail out_of_fuel
  put_back (suc rounds) victims = elim (tl.remhead victims) [
    | none ↦ pure victims
    | some (t, rest) ↦ do
      s ← get
      set_runqueue s.curcpu (tl.addtail (s.c_runqueue s.curcpu) t)
      put_back rounds rest
  ]

  -- What follows the loop over the processors.
  unfoldable pub return_victims : (rounds : ℕ) → (victims : L) → Cmd (Smp L) (Unit {0})
  unfolding put_back
  return_victims rounds victims = do
    s ← get
    if tl.tl_count victims == 0 then pure tt else (do
      queue_acquire s.curcpu
      victims ← put_back rounds victims
      queue_release s.curcpu
      kassert (tl.tl_count victims == 0))

module _ {L : Type 0} (tl : ThreadlistOps L) (codes : IpiCodes) where
  -- The loop that fills the run queue of processor `c` up to `one_share`: what is left of to_send and of
  -- `victims`. Each round counts to_send down.
  unfoldable pub fill : (c one_share to_send : ℕ) → (victims : L) → Cmd (Smp L) (ℕ × L)
  unfolding ipi_send
  fill c one_share zero victims = pure (0, victims)
  fill c one_share (suc to_send) victims = do
    s ← get
    if not (ltb (tl.tl_count (s.c_runqueue c)) one_share)
        then pure (suc to_send, victims)
        else elim (tl.remhead victims) [
          | none ↦ fail wild_access
          | some (t, rest) ↦
              if t == curthread s then fill c one_share to_send (tl.addtail rest t) else do
                set_t_cpu t c
                set_runqueue c (tl.addtail (s.c_runqueue c) t)
                if (s.c_isidle c) then ipi_send c codes.ipi_unidle else pure tt
                fill c one_share to_send rest
        ]

  -- The loop over the processors, from `i` on.
  unfoldable pub send_all : (rounds i one_share to_send : ℕ) → (victims : L) → Cmd (Smp L) L
  unfolding fill
  send_all zero i one_share to_send victims = pure victims
  send_all (suc rounds) i one_share to_send victims = do
    s ← get
    if to_send == 0
        then pure victims
        else if i == s.curcpu
        then send_all rounds (i + 1) one_share to_send victims
        else do
          queue_acquire i
          (left, rest) ← fill i one_share to_send victims
          queue_release i
          send_all rounds (i + 1) one_share left rest

  -- thread_consider_migration behind the test of my_count
  unfoldable pub migrate : (one_share to_send : ℕ) → Cmd (Smp L) (Unit {0})
  unfolding take_victims send_all return_victims
  migrate one_share to_send = do
    s ← get
    queue_acquire s.curcpu
    victims ← take_victims tl to_send tl.init
    queue_release s.curcpu
    victims ← send_all s.num_cpus 0 one_share to_send victims
    return_victims tl (to_send + 1) victims

  unfoldable pub thread_consider_migration : Cmd (Smp L) (Unit {0})
  unfolding sum_counts migrate
  thread_consider_migration = do
    s ← get
    (my_count, total_count) ← sum_counts tl s.num_cpus 0 0 0
    let one_share = (total_count + s.num_cpus + u32 - 1) % u32 / s.num_cpus
    if ltb my_count one_share then pure tt else migrate one_share (my_count - one_share)
