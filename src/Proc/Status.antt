-- ===== src/Proc/Status.antt =====
-- waitpid before exit and after it.
use paging_os.Base.{
  ℕ, ◌+◌, ◌-◌, ◌%◌, ◌<◌, ◌≡◌, ◌≢◌, ap, refl, inl, inr, true, false, none, some, List, [], ◌∷◌, ◌++◌,
  arith, ltb, ◌==◌, get_elem?, ==_refl, Bool-cases, pos, sym, ◌∙◌,
}
use paging_os.Machine.{u32, ok}
use paging_os.Synch.{Semaphore, p_round, wakeone}
use paging_os.Proc.{
  Procs, ProcOps, curproc, max_proc, table_entry, proc_search_pid, set_proc, proc_destroy,
  proc_wait, sys_waitpid, sys__exit, null,
}
use paging_os.Proc.Table.{TableOk}
use paging_os.Proc.Wait.{Exited, sys__exit-Exited}
use paging_os.Proc.Reap.{
  empty_sem, without_cwd, Destroyed, proc_destroy-Destroyed, TableOk-set_proc,
}

-- The semaphore of `p`.
abbrev pub with_sem : {W : Type 0} → (p : ℕ) → Semaphore → Procs W → Procs W
with_sem p sem s = set_proc p (λ x. record x { p_sem = some sem }) s

module _ {W : Type 0} (ops : ProcOps W) where
  -- A thread that waits for a process that has not ended goes to sleep on its semaphore, behind the
  -- threads that sleep there.
  pub sys_waitpid_sleeps :
      (s : Procs W) (p pid : ℕ) (waiting : List ℕ)
      → p ≢ 0
      → p ≢ s.kproc
      → pid < max_proc
      → get_elem? s.process_table.proc pid ≡ some p
      → (s.procs p).p_pid ≡ pid
      → (s.procs p).p_sem ≡ some (record { sem_count = 0; sem_wchan = waiting })
      → sys_waitpid ops (pos pid) s
        ≡ ok none (with_sem p (record { sem_count = 0; sem_wchan = waiting ++ s.curthread ∷ [] }) s)
  unfolding sys_waitpid proc_search_pid table_entry proc_wait p_round
  sys_waitpid_sleeps s p pid waiting live not_k low here own sem =
      let some_p : (p == null) ≡ false = ground arith in
      let other_k : (p == s.kproc) ≡ false = ground arith in
      let l : ltb pid max_proc ≡ true = ground arith in ground arith

  p_round_takes : (t count : ℕ) → p_round t (empty_sem (count + 1)) ≡ ok true (empty_sem count)
  unfolding p_round
  p_round_takes t count =
      let up : (count + 1 == 0) ≡ false = ground arith in
      let some_left : ltb 0 (count + 1) ≡ true = ground arith in
      let down : count + 1 - 1 ≡ count = omega arith in ground arith

  -- P of a process that has ended takes a unit, and the process is destroyed.
  wait_destroys :
      (s s' : Procs W) (p count : ℕ)
      → p ≢ 0
      → p ≢ s.kproc
      → (s.procs p).p_sem ≡ some (empty_sem (count + 1))
      → proc_destroy ops p (with_sem p (empty_sem count) s) ≡ ok tt s'
      → proc_wait ops p s ≡ ok (some (s.procs p).p_status) s'
  unfolding proc_wait
  wait_destroys s s' p count live not_k sem run =
      let took = p_round_takes s.curthread count in
      let self = ==_refl p in
      let some_p : (p == null) ≡ false = ground arith in
      let other_k : (p == s.kproc) ≡ false = ground arith in ground arith

  search_here :
      (s : Procs W) (p pid : ℕ)
      → p ≢ 0
      → pid < max_proc
      → get_elem? s.process_table.proc pid ≡ some p
      → (s.procs p).p_pid ≡ pid
      → proc_search_pid (pos pid) s ≡ ok p s
  unfolding proc_search_pid table_entry
  search_here s p pid live low here own =
      let some_p : (p == null) ≡ false = ground arith in
      let l : ltb pid max_proc ≡ true = ground arith in
      let match_pid : ((s.procs p).p_pid == pid) ≡ true = ground arith in ground arith

  waitpid_destroys :
      (s s' : Procs W) (p pid count : ℕ)
      → p ≢ 0
      → p ≢ s.kproc
      → pid < max_proc
      → get_elem? s.process_table.proc pid ≡ some p
      → (s.procs p).p_pid ≡ pid
      → (s.procs p).p_sem ≡ some (empty_sem (count + 1))
      → proc_destroy ops p (with_sem p (empty_sem count) s) ≡ ok tt s'
      → sys_waitpid ops (pos pid) s ≡ ok (some (pos pid, some (s.procs p).p_status)) s'
  unfolding sys_waitpid
  waitpid_destroys s s' p pid count live not_k low here own sem run =
      let some_p : (p == null) ≡ false = ground arith in
      let found = search_here s p pid live low here own in
      let waited = wait_destroys s s' p count live not_k sem run in ground arith

  waitpid_ended :
      (s : Procs W) (p pid count : ℕ) (w : W)
      → TableOk s
      → p ≢ 0
      → p ≢ s.kproc
      → p ≢ curproc s
      → pid < max_proc
      → get_elem? s.process_table.proc pid ≡ some p
      → (s.procs p).p_pid ≡ pid
      → (s.procs p).p_sem ≡ some (empty_sem (count + 1))
      → (s.procs p).p_numthreads ≡ 0
      → (s.procs p).p_addrspace ≢ 0
      → ops.as_destroy (s.procs p).p_addrspace (without_cwd ops p s) ≡ ok tt w
      → (s' : Procs W) × (sys_waitpid ops (pos pid) s
          ≡ ok (some (pos pid, some (s.procs p).p_status)) s')
        × Destroyed ops p w (with_sem p (empty_sem count) s) s'
  waitpid_ended s p pid count w v live not_k not_cur low here own sem threads space gone =
      let self = ==_refl p in
      let u = with_sem p (empty_sem count) s in
      let v1 =
        TableOk-set_proc ops s p (λ x. record x { p_sem = some (empty_sem count) }) s.rest
          (λ x. refl) v in
      let here1 : get_elem? s.process_table.proc (s.procs p).p_pid ≡ some p = rw own here in
      let (s', run, d) =
        proc_destroy-Destroyed ops u p count w v1 live not_k not_cur (rw self here1) (rw self refl)
          (rw self threads) (rw self space) (rw self gone) in
      (s', waitpid_destroys s s' p pid count live not_k low here own sem run, d)

  -- The table stays valid over sys__exit.
  Exited-TableOk :
      (s s' : Procs W) (p code t : ℕ) (given : Semaphore)
      → Exited p code given s s'
      → TableOk s
      → TableOk (record s' { curthread = t })
  Exited-TableOk s s' p code t given x v =
      let table = x.table in
      record {
        size = rw table v.size;
        last = rw table v.last;
        fresh = rw table v.fresh;
        pids = λ i q h live.
            let (a, b) = v.pids i q (rw table at h) live in
            elim (Bool-cases (q == p)) [
              | inl e ↦ let z : q ≡ p = ground arith in (a, rw z (x.pid ∙ rw z at b))
              | inr e ↦ (a, ap (λ y. y.p_pid) (x.processes q (λ z. ground arith)) ∙ b)
            ];
      }

  -- When the only thread of a process exits, for which at most one thread waits, and another thread
  -- calls sys_waitpid of its pid, then both return, the second gets the low byte of the exit code, and
  -- the pid is free, in a table that is still valid. The pid is below MAX_PROC, and as_destroy of the
  -- address space of the process returns.
  pub waitpid_after_exit :
      (s : Procs W) (p pid code t : ℕ) (given : Semaphore) (w : W)
      → TableOk s
      → curproc s ≡ p
      → p ≢ 0
      → p ≢ s.kproc
      → pid < max_proc
      → get_elem? s.process_table.proc pid ≡ some p
      → (s.procs p).p_pid ≡ pid
      → (s.procs p).p_sem ≡ some given
      → given.sem_count + 1 < u32
      → (wakeone given.sem_wchan).1 ≡ []
      → (s.procs p).p_numthreads ≡ 1
      → (s.procs p).p_addrspace ≢ 0
      → t ≢ s.curthread
      → s.t_proc t ≢ p
      → ops.as_destroy (s.procs p).p_addrspace (without_cwd ops p s) ≡ ok tt w
      → (s1 : Procs W) × (s' : Procs W) × (sys__exit ops code s ≡ ok (wakeone given.sem_wchan).0 s1)
        × (sys_waitpid ops (pos pid) (record s1 { curthread = t })
            ≡ ok (some (pos pid, some (code % 256))) s')
        × (get_elem? s'.process_table.proc pid ≡ some 0)
        × TableOk s'
  waitpid_after_exit s p pid code t given w v cur live not_k low here own sem fits one threads space
        apart other gone =
      let (s1, ran, x) = sys__exit-Exited ops s p code given cur live (omega arith) sem fits in
      let s2 : Procs W = record s1 { curthread = t } in
      let status = x.status in
      let idle : (s1.procs p).p_numthreads ≡ 0 = omega (arith, x.threads, threads) in
      let (s', run, d) =
        waitpid_ended s2 p pid given.sem_count w (Exited-TableOk s s1 p code t given x v) live
          (λ e. not_k (e ∙ x.kproc)) (λ e. other (sym (e ∙ x.attached t apart))) low
          (rw x.table here) (x.pid ∙ own) (x.sem ∙ rw one refl) idle (rw x.space space)
          (rw (x.space, x.cwd, x.rest) gone) in
      let self = ==_refl p in
      let pid' : (s1.procs p).p_pid ≡ pid = x.pid ∙ own in
      (s1, s', ran, rw (← status) run, rw (self, pid') at d.free, d.valid)
