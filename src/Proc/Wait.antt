-- ===== src/Proc/Wait.antt =====
-- exit and waitpid: the status reaches the parent, and the pid is free again.
use paging_os.Base.{
  ℕ, ◌+◌, ◌-◌, ◌%◌, ◌<◌, ◌≡◌, ◌≢◌, refl, ◌⊎◌, inl, inr, true, false, ◌&&◌, Option, some, [], arith,
  ltb, leb, ◌==◌, if◌then◌else◌, get_elem?, get_elem?-lt, get_elem?-set_self, get_elem?-set_ne,
  ==_refl, length-set, Bool-cases, pos, sym, ◌∙◌,
}
use paging_os.Machine.{u32, ok, fault, assertion, panicked}
use paging_os.Synch.{Semaphore, v_round, wakeone}
use paging_os.Proc.{
  Procs, ProcOps, curproc, max_proc, table_entry, proc_search_pid, proc_init_waitpid,
  proc_end_waitpid, sem_destroy, set_proc, set_entry, set_t_proc, proc_signal_end, proc_remthread,
  sys__exit, null,
}
use paging_os.Proc.Index.{IsIndex}
use paging_os.Proc.Table.{TableOk, Registered, proc_init_waitpid-Registered}

-- The search for the pid of a process that is registered.
proc_search_pid-Registered :
    {W : Type 0} (s s' : Procs W) (p i : ℕ) (semaphore : Option Semaphore)
    → p ≢ 0
    → Registered s p i semaphore s'
    → proc_search_pid (pos i) s' ≡ (if i == max_proc then fault assertion else ok p s')
unfolding proc_search_pid table_entry
proc_search_pid-Registered s s' p i semaphore live r =
    let (lo, hi) = r.index in
    let here = r.here in
    let pid = r.pid in
    let some_p : (p == null) ≡ false = ground arith in
    let self = ==_refl i in
    elim (Bool-cases (i == max_proc)) [
      | inl e ↦ let l : ltb i max_proc ≡ false = ground arith in rw (e, l) refl
      | inr e ↦ let l : ltb i max_proc ≡ true = ground arith in ground arith
    ]

-- proc_init_waitpid panics, or it puts the process under a pid, stored in its p_pid as well, by which
-- proc_search_pid finds it, but for the last pid, MAX_PROC, where an assertion of proc_search_pid
-- fails. Assumed is that the process table is valid, and that the process is not in it.
pub search_after_init :
    {W : Type 0} (s : Procs W) (p : ℕ) (semaphore : Option Semaphore)
    → TableOk s
    → p ≢ 0
    → ((k : ℕ) → get_elem? s.process_table.proc k ≢ some p)
    → ((i : ℕ) × (s' : Procs W) × (proc_init_waitpid p semaphore s ≡ ok tt s')
        × IsIndex i
        × ((s'.procs p).p_pid ≡ i)
        × (get_elem? s'.process_table.proc i ≡ some p)
        × (proc_search_pid (pos i) s' ≡ (if i == max_proc then fault assertion else ok p s')))
      ⊎ (proc_init_waitpid p semaphore s ≡ fault panicked)
search_after_init s p semaphore v live unused =
    elim (proc_init_waitpid-Registered s p semaphore v live unused) [
      | inl (i, s', run, r) ↦
          inl (
            i,
            s',
            run,
            r.index,
            r.pid,
            r.here,
            proc_search_pid-Registered s s' p i semaphore live r,
          )
      | inr (run, _) ↦ inr run
    ]

module _ {W : Type 0} where
  -- proc_end_waitpid of a process in the table: its index is free again, and the table stays valid.
  pub proc_end_waitpid-TableOk :
      (s : Procs W) (p count : ℕ)
      → TableOk s
      → p ≢ 0
      → get_elem? s.process_table.proc (s.procs p).p_pid ≡ some p
      → (s.procs p).p_sem ≡ some (record { sem_count = count; sem_wchan = [] })
      → (proc_end_waitpid p s ≡ ok tt (set_entry (s.procs p).p_pid 0 s))
        × TableOk (set_entry (s.procs p).p_pid 0 s)
  unfolding proc_end_waitpid sem_destroy
  proc_end_waitpid-TableOk s p count v live here sem =
      let i = (s.procs p).p_pid in
      let (lo, _) = v.pids i p here live in
      let low = get_elem?-lt s.process_table.proc i here in
      let size = v.size in
      let l : ltb 0 (s.procs p).p_pid && leb (s.procs p).p_pid max_proc ≡ true = ground arith in
      let gone = get_elem?-set_self s.process_table.proc i 0 low in
      (
        ground arith,
        record {
          size = length-set s.process_table.proc i 0 ∙ v.size;
          last = v.last;
          fresh = λ z. elim (Bool-cases (i == 1)) [
            | inl e ↦ let w : i ≡ 1 = ground arith in cc (gone, w)
            | inr e ↦ get_elem?-set_ne s.process_table.proc i 1 0 (λ w. ground arith) ∙ v.fresh z
          ];
          pids = λ k q h alive. elim (Bool-cases (i == k)) [
            | inl e ↦
                let z : i ≡ k = ground arith in
                let zero_there : 0 ≡ q = cc (gone, h, z) in absurd (alive (sym zero_there))
            | inr e ↦
                v.pids k q
                  (sym (get_elem?-set_ne s.process_table.proc i k 0 (λ w. ground arith)) ∙ h) alive
          ];
        },
      )

  -- What sys__exit leaves of process `p`, which its last thread ends.
  pub record Exited (p code : ℕ) (given : Semaphore) (s s' : Procs W) : Type 0 where
    pub status : (s'.procs p).p_status ≡ code % 256
    pub threads : (s'.procs p).p_numthreads + 1 ≡ (s.procs p).p_numthreads
    pub sem :
        (s'.procs p).p_sem
        ≡ some (record { sem_count = given.sem_count + 1; sem_wchan = (wakeone given.sem_wchan).1 })
    pub pid : (s'.procs p).p_pid ≡ (s.procs p).p_pid
    pub space : (s'.procs p).p_addrspace ≡ (s.procs p).p_addrspace
    pub cwd : (s'.procs p).p_cwd ≡ (s.procs p).p_cwd
    pub detached : s'.t_proc s.curthread ≡ 0
    pub attached : (t : ℕ) → t ≢ s.curthread → s'.t_proc t ≡ s.t_proc t
    pub table : s'.process_table ≡ s.process_table
    pub processes : (q : ℕ) → q ≢ p → s'.procs q ≡ s.procs q
    pub rest : s'.rest ≡ s.rest
    pub kproc : s'.kproc ≡ s.kproc

  -- sys__exit up to thread_exit returns, wakes the first thread that waits for the process, and keeps
  -- the low byte of the status for it.
  pub sys__exit-Exited :
      (ops : ProcOps W) (s : Procs W) (p status : ℕ) (sem : Semaphore)
      → curproc s ≡ p
      → p ≢ 0
      → 0 < (s.procs p).p_numthreads
      → (s.procs p).p_sem ≡ some sem
      → sem.sem_count + 1 < u32
      → (s' : Procs W) × (sys__exit ops status s ≡ ok (wakeone sem.sem_wchan).0 s')
        × Exited p status sem s s'
  unfolding sys__exit proc_signal_end proc_remthread v_round
  sys__exit-Exited ops s p status sem cur live threads there low =
      let self = ==_refl p in
      let self_t = ==_refl s.curthread in
      let some_p : (p == null) ≡ false = ground arith in
      let wrap : (sem.sem_count + 1) % u32 ≡ sem.sem_count + 1 = omega arith in
      let up : ltb 0 (sem.sem_count + 1) ≡ true = ground arith in
      let some_t : ltb 0 (s.procs p).p_numthreads ≡ true = ground arith in
      let woken : Semaphore = record {
        sem_count = sem.sem_count + 1;
        sem_wchan = (wakeone sem.sem_wchan).1;
      } in
      let u : Procs W = set_t_proc s.curthread 0 (
        set_proc p (λ x. record x { p_numthreads = x.p_numthreads - 1 })
          (set_proc p (λ x. record x { p_status = status % 256 }) s)) in
      (
        set_proc p (λ x. record x { p_sem = some woken }) u,
        ground arith,
        record {
          status = rw self refl;
          threads = rw self (omega arith);
          sem = rw self refl;
          pid = rw self refl;
          space = rw self refl;
          cwd = rw self refl;
          detached = rw self_t refl;
          attached = λ t ne. let e : (t == s.curthread) ≡ false = ground arith in rw e refl;
          table = refl;
          processes = λ q ne. let e : (q == p) ≡ false = ground arith in rw e refl;
          rest = refl;
          kproc = refl;
        },
      )
