-- ===== src/Proc.antt =====
-- kern/proc/proc.c and kern/syscall/proc_syscalls.c: processes, the table of their pids, and
-- waitpid, exit and getpid.
pub mod Index
pub mod Table
pub mod Wait
pub mod Reap
pub mod Status
use mathlib.Core.Option
use paging_os.Base.{
  ℕ, zero, suc, ◌+◌, ◌-◌, ◌%◌, Bool, true, false, not, ◌&&◌, Option, none, some, List, [], ◌∷◌, ltb,
  leb, ◌==◌, if◌then◌else◌, get_elem?, set, ℤ, pos, negsuc, minus_one,
}
use paging_os.Machine.{
  u32, Cmd, Outcome, pure, fail, get, modify, carry, kassert, ◌>>=◌, ◌>>◌, wild_access, panicked,
  assertion, out_of_fuel, ok, fault,
}
use paging_os.Machine.Platform.{VfsOps}
use paging_os.Coremap.{null}
use paging_os.Synch.{Semaphore, sem_create, p_round, v_round}

abbrev pub max_proc : ℕ
max_proc = 100

-- `struct proc` without its name and its spinlock; pointers are numbers.
pub record Proc : Type 0 where
  pub p_numthreads : ℕ
  pub p_addrspace : ℕ
  pub p_cwd : ℕ
  pub p_status : ℕ
  pub p_pid : ℕ
  pub p_sem : Option Semaphore

-- `struct _processTable` without its spinlock: what holds it is one step here.
pub record ProcessTable : Type 0 where
  pub active : Bool
  pub proc : List ℕ
  pub last_i : ℕ

-- `procs` is the memory behind the pointers to processes, and `t_proc` the process of each thread.
pub record Procs (W : Type 0) : Type 0 where
  pub procs : ℕ → Proc
  pub process_table : ProcessTable
  pub kproc : ℕ
  pub t_proc : ℕ → ℕ
  pub curthread : ℕ
  pub rest : W

abbrev pub curproc : {W : Type 0} → Procs W → ℕ
curproc s = s.t_proc s.curthread

abbrev pub set_proc : {W : Type 0} → (p : ℕ) → (Proc → Proc) → Procs W → Procs W
set_proc p f s = record s { procs = λ x. if x == p then f (s.procs x) else s.procs x }

abbrev pub set_entry : {W : Type 0} → (i p : ℕ) → Procs W → Procs W
set_entry i p s = record s {
  process_table = record s.process_table { proc = set s.process_table.proc i p };
}

abbrev pub set_t_proc : {W : Type 0} → (t p : ℕ) → Procs W → Procs W
set_t_proc t p s = record s { t_proc = λ x. if x == t then p else s.t_proc x }

-- processTable.proc[i]; outside of the array lies other memory.
unfoldable pub table_entry : {W : Type 0} → (i : ℕ) → Cmd (Procs W) ℕ
table_entry i s = elim (get_elem? s.process_table.proc i) [
  | none ↦ fault wild_access
  | some p ↦ ok p s
]

-- proc_search_pid. What NULL points to is other memory.
unfoldable pub proc_search_pid : {W : Type 0} → (pid : ℤ) → Cmd (Procs W) ℕ
unfolding table_entry
proc_search_pid (negsuc n) = kassert false >> pure null
proc_search_pid (pos pid) = do
  kassert (ltb pid max_proc)
  p ← table_entry pid
  s ← get
  if p == null then fail wild_access else do kassert ((s.procs p).p_pid == pid); pure p

-- The index behind `i`.
abbrev pub next_index : ℕ → ℕ
next_index i = if ltb max_proc (i + 1) then 1 else i + 1

-- The search for a free index from `i` on, which ends before `last`.
unfoldable pub find_index : {W : Type 0} → (last rounds i : ℕ) → Cmd (Procs W) (Option ℕ)
unfolding table_entry
find_index last zero i = fail out_of_fuel
find_index last (suc rounds) i =
    let again = find_index last rounds (next_index i) in
    if i == last
    then pure none
    else do p ← table_entry i; if p == null then pure (some i) else again

-- proc_init_waitpid; `sem` is what sem_create returns.
unfoldable pub proc_init_waitpid :
    {W : Type 0} → (p : ℕ) → (sem : Option Semaphore) → Cmd (Procs W) (Unit {0})
unfolding find_index
proc_init_waitpid p sem = do
  modify (set_proc p λ x. record x { p_pid = 0 })
  s ← get
  found ← find_index s.process_table.last_i (max_proc + 1) (next_index s.process_table.last_i)
  elim found [
    | none ↦ fail panicked
    | some i ↦ do
      modify (set_entry i p)
      modify (λ s. record s { process_table = record s.process_table { last_i = i } })
      modify (set_proc p λ x. record x { p_pid = i })
  ]
  modify (set_proc p λ x. record x { p_status = 0; p_sem = sem })

-- sem_destroy frees the semaphore. That no thread sleeps on it, wchan_destroy asserts.
unfoldable pub sem_destroy : Option Semaphore → {W : Type 0} → Cmd (Procs W) (Unit {0})
sem_destroy none = kassert false
sem_destroy (some sem) = kassert (elim sem.sem_wchan [ [] ↦ true | _ ∷ _ ↦ false ])

-- proc_end_waitpid
unfoldable pub proc_end_waitpid : {W : Type 0} → (p : ℕ) → Cmd (Procs W) (Unit {0})
unfolding sem_destroy
proc_end_waitpid p = do
  s ← get
  kassert (ltb 0 (s.procs p).p_pid && leb (s.procs p).p_pid max_proc)
  modify (set_entry (s.procs p).p_pid null)
  sem_destroy (s.procs p).p_sem

-- proc_create: `p` and `name_ok` are what kmalloc and kstrdup return, `sem` what sem_create does.
unfoldable pub proc_create :
    {W : Type 0} → (p : ℕ) → (name_ok : Bool) → (sem : Option Semaphore) → Cmd (Procs W) ℕ
unfolding proc_init_waitpid
proc_create p name_ok sem = if p == null then pure null else if not name_ok then pure null else do
  modify (set_proc p λ x. record x { p_numthreads = 0; p_addrspace = null; p_cwd = null })
  proc_init_waitpid p sem
  pure p

-- proc_bootstrap
unfoldable pub proc_bootstrap :
    {W : Type 0} → (p : ℕ) → (name_ok : Bool) → (sem : Option Semaphore) → Cmd (Procs W) (Unit {0})
unfolding proc_create
proc_bootstrap p name_ok sem = do
  kproc ← proc_create p name_ok sem
  modify (λ s. record s { kproc = kproc })
  if kproc == null
      then fail panicked
      else modify (λ s. record s { process_table = record s.process_table { active = true } })

-- proc_addthread
unfoldable pub proc_addthread : {W : Type 0} → (p t : ℕ) → Cmd (Procs W) ℕ
proc_addthread p t = do
  s ← get
  kassert (s.t_proc t == null)
  modify (set_proc p λ x. record x { p_numthreads = (x.p_numthreads + 1) % u32 })
  modify (set_t_proc t p)
  pure 0

-- proc_remthread
unfoldable pub proc_remthread : {W : Type 0} → (t : ℕ) → Cmd (Procs W) (Unit {0})
proc_remthread t = do
  s ← get
  kassert (not (s.t_proc t == null))
  kassert (ltb 0 (s.procs (s.t_proc t)).p_numthreads)
  modify (set_proc (s.t_proc t) λ x. record x { p_numthreads = x.p_numthreads - 1 })
  modify (set_t_proc t null)

-- proc_setas
unfoldable pub proc_setas : {W : Type 0} → (newas : ℕ) → Cmd (Procs W) ℕ
proc_setas newas = do
  s ← get
  kassert (not (curproc s == null))
  modify (set_proc (curproc s) λ x. record x { p_addrspace = newas })
  pure (s.procs (curproc s)).p_addrspace

-- as_deactivate does nothing.
abbrev pub as_deactivate : {W : Type 0} → Cmd (Procs W) (Unit {0})
as_deactivate = pure tt

-- What processes use of the address spaces and of the files.
pub record ProcOps (W : Type 0) : Type 0 where
  pub as_destroy : (space : ℕ) → Cmd W (Unit {0})
  pub vop_incref : W → (vnode : ℕ) → W
  pub vop_decref : W → (vnode : ℕ) → W

module _ {W : Type 0} (ops : ProcOps W) where
  abbrev on_rest : {A : Type 0} → Cmd W A → Cmd (Procs W) A
  on_rest m s = carry (λ w. record s { rest = w }) (m s.rest)

  -- the part of proc_destroy for the address space
  unfoldable pub drop_space : (p : ℕ) → Cmd (Procs W) (Unit {0})
  unfolding proc_setas
  drop_space p = do
    s ← get
    space ←
        (if p == curproc s then (do space ← proc_setas null; as_deactivate; pure space) else (do
          modify (set_proc p λ x. record x { p_addrspace = null })
          pure (s.procs p).p_addrspace))
    on_rest (ops.as_destroy space)

  -- the part for the current directory
  abbrev drop_cwd : (p : ℕ) → Cmd (Procs W) (Unit {0})
  drop_cwd p = do
    s ← get
    modify (λ s. record s { rest = ops.vop_decref s.rest (s.procs p).p_cwd })
    modify (set_proc p λ x. record x { p_cwd = null })

  unfoldable pub proc_destroy : (p : ℕ) → Cmd (Procs W) (Unit {0})
  unfolding drop_space proc_end_waitpid
  proc_destroy p = do
    s ← get
    kassert (not (p == null))
    kassert (not (p == s.kproc))
    if (s.procs p).p_cwd == null then pure tt else drop_cwd p
    if (s.procs p).p_addrspace == null then pure tt else drop_space p
    s ← get
    kassert ((s.procs p).p_numthreads == 0)
    proc_end_waitpid p

  unfoldable pub proc_create_runprogram :
      (p : ℕ) → (name_ok : Bool) → (sem : Option Semaphore) → Cmd (Procs W) ℕ
  unfolding proc_create
  proc_create_runprogram p name_ok sem = do
    newproc ← proc_create p name_ok sem
    if newproc == null then pure null else do
      modify (set_proc newproc λ x. record x { p_addrspace = null })
      s ← get
      if (s.procs (curproc s)).p_cwd == null then pure tt else (do
        modify (λ s. record s { rest = ops.vop_incref s.rest (s.procs (curproc s)).p_cwd })
        modify (set_proc newproc λ x. record x { p_cwd = (s.procs (curproc s)).p_cwd }))
      pure newproc

  -- A command on the semaphore of a process; P and V assert that it is there.
  abbrev on_sem : {A : Type 0} → (p : ℕ) → Cmd Semaphore A → Cmd (Procs W) A
  on_sem p m s = elim (s.procs p).p_sem [
    | none ↦ fault assertion
    | some sem ↦ carry (λ sem. set_proc p (λ x. record x { p_sem = some sem }) s) (m sem)
  ]

  -- proc_wait: one round of P, and what stands behind it. `none`: the thread sleeps in P.
  unfoldable pub proc_wait : (p : ℕ) → Cmd (Procs W) (Option ℕ)
  unfolding p_round proc_destroy
  proc_wait p = do
    s ← get
    kassert (not (p == null))
    kassert (not (p == s.kproc))
    done ← on_sem p (p_round s.curthread)
    if not done then pure none else do s ← get; proc_destroy p; pure (some (s.procs p).p_status)

  -- proc_signal_end, with the thread that V wakes
  unfoldable pub proc_signal_end : (p : ℕ) → Cmd (Procs W) (Option ℕ)
  unfolding v_round
  proc_signal_end p = on_sem p v_round

  -- sys__exit up to thread_exit, with the thread that it wakes
  unfoldable pub sys__exit : (status : ℕ) → Cmd (Procs W) (Option ℕ)
  unfolding proc_signal_end proc_remthread
  sys__exit status = do
    s ← get
    modify (set_proc (curproc s) λ x. record x { p_status = status % 256 })
    proc_remthread s.curthread
    proc_signal_end (curproc s)

  -- sys_waitpid up to the write of the status: the value that it returns, and the status
  unfoldable pub sys_waitpid : (pid : ℤ) → Cmd (Procs W) (Option (ℤ × Option ℕ))
  unfolding proc_search_pid proc_wait
  sys_waitpid pid = do
    p ← proc_search_pid pid
    if p == null
        then pure (some (minus_one, none))
        else do status ← proc_wait p; pure (Option.map (λ s. (pid, some s)) status)

  -- sys_getpid
  unfoldable pub sys_getpid : Cmd (Procs W) ℕ
  sys_getpid = do s ← get; kassert (not (curproc s == null)); pure (s.procs (curproc s)).p_pid
