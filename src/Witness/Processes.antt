-- ===== src/Witness/Processes.antt =====
-- A kernel with its own process, under pid 1, and a user process, under pid 2.
use paging_os.Base.{
  ℕ, zero, suc, ◌<◌, ◌≡◌, ◌≢◌, refl, ◌⊎◌, arith, true, some, none, [], ◌∷◌, pos, get_elem?,
  get_elem?-replicate, get_elem?-lt, length-replicate, replicate, sym, ◌∙◌, if◌then◌else◌, ◌==◌,
}
use paging_os.Machine.{ok, fault, panicked, assertion}
use paging_os.Synch.{wakeone}
use paging_os.Proc.{
  Proc, Procs, ProcOps, max_proc, proc_init_waitpid, proc_search_pid, proc_end_waitpid, sys_waitpid,
  sys__exit, set_entry,
}
use paging_os.Proc.Index.{IsIndex}
use paging_os.Proc.Table.{TableOk, Registered, Full, proc_init_waitpid-Registered}
use paging_os.Proc.Wait.{search_after_init, proc_end_waitpid-TableOk}
use paging_os.Proc.Reap.{empty_sem}
use paging_os.Proc.Status.{sys_waitpid_sleeps, waitpid_after_exit, with_sem}

-- The world counts the address spaces that are destroyed.
abbrev pub counting : ProcOps ℕ
counting = record {
  as_destroy = λ space w. ok tt (suc w);
  vop_incref = λ w v. w;
  vop_decref = λ w v. w;
}

abbrev pub user_proc : (threads status : ℕ) → Proc
user_proc threads status = record {
  p_numthreads = threads;
  p_addrspace = 7;
  p_cwd = 9;
  p_status = status;
  p_pid = 2;
  p_sem = some (empty_sem 0);
}

abbrev pub kernel_proc : Proc
kernel_proc = record {
  p_numthreads = 1;
  p_addrspace = 0;
  p_cwd = 0;
  p_status = 0;
  p_pid = 1;
  p_sem = some (empty_sem 0);
}

-- Process 11 is the kernel's, and process 12 the other one; thread 5 runs in process 12.
abbrev pub scheduled : (thread : ℕ) → Procs ℕ
scheduled thread = record {
  procs = λ x. if x == 12 then user_proc 1 0 else kernel_proc;
  process_table = record { active = true; proc = 0 ∷ 11 ∷ 12 ∷ replicate 98 0; last_i = 2 };
  kproc = 11;
  t_proc = λ t. if t == 5 then 12 else 11;
  curthread = thread;
  rest = 0;
}

abbrev pub running : Procs ℕ
running = scheduled 5

running_pids :
    (i p : ℕ)
    → get_elem? running.process_table.proc i ≡ some p
    → p ≢ 0
    → (0 < i) × ((running.procs p).p_pid ≡ i)
running_pids zero p h live = let z : 0 ≡ p = cc h in absurd (live (sym z))
running_pids (suc zero) p h live = let z : 11 ≡ p = cc h in rw (← z) (omega arith, refl)
running_pids (suc (suc zero)) p h live = let z : 12 ≡ p = cc h in rw (← z) (omega arith, refl)
running_pids (suc (suc (suc i))) p h live =
    let low = get_elem?-lt (replicate 98 0) i h in
    let size = length-replicate 98 (zero) in
    let z : some 0 ≡ some p = sym (get_elem?-replicate 98 0 i (omega arith)) ∙ h in
    let q : 0 ≡ p = cc z in absurd (live (sym q))

pub scheduled-TableOk : (thread : ℕ) → TableOk (scheduled thread)
scheduled-TableOk thread = record {
  size = refl;
  last = omega arith;
  fresh = λ z. absurd (omega (arith, z));
  pids = running_pids;
}

not_there : (k : ℕ) → get_elem? running.process_table.proc k ≢ some 13
not_there zero h = let z : zero ≡ 13 = cc h in absurd (omega (arith, z))
not_there (suc zero) h = let z : 11 ≡ suc 12 = cc h in absurd (omega (arith, z))
not_there (suc (suc zero)) h = let z : 12 ≡ suc 12 = cc h in absurd (omega (arith, z))
not_there (suc (suc (suc i))) h =
    let low = get_elem?-lt (replicate 98 0) i h in
    let size = length-replicate 98 (zero) in
    let z : some zero ≡ some 13 = sym (get_elem?-replicate 98 0 i (omega arith)) ∙ h in
    let q : zero ≡ 13 = cc z in absurd (omega (arith, q))

proc_init_waitpid-Registered_example :
    ((i : ℕ) × (s' : Procs ℕ) × (proc_init_waitpid 13 (some (empty_sem 0)) running ≡ ok tt s')
      × Registered running 13 i (some (empty_sem 0)) s')
    ⊎ ((proc_init_waitpid 13 (some (empty_sem 0)) running ≡ fault panicked) × Full running)
proc_init_waitpid-Registered_example =
    proc_init_waitpid-Registered running 13 (some (empty_sem 0)) (scheduled-TableOk 5)
      (λ z. omega (arith, z)) not_there

search_after_init_example :
    ((i : ℕ) × (s' : Procs ℕ) × (proc_init_waitpid 13 (some (empty_sem 0)) running ≡ ok tt s')
      × IsIndex i
      × ((s'.procs 13).p_pid ≡ i)
      × (get_elem? s'.process_table.proc i ≡ some 13)
      × (proc_search_pid (pos i) s' ≡ (if i == max_proc then fault assertion else ok 13 s')))
    ⊎ (proc_init_waitpid 13 (some (empty_sem 0)) running ≡ fault panicked)
search_after_init_example =
    search_after_init running 13 (some (empty_sem 0)) (scheduled-TableOk 5) (λ z. omega (arith, z))
      not_there

proc_end_waitpid-TableOk_example :
    (proc_end_waitpid 12 running ≡ ok tt (set_entry 2 0 running)) × TableOk (set_entry 2 0 running)
proc_end_waitpid-TableOk_example =
    proc_end_waitpid-TableOk running 12 0 (scheduled-TableOk 5) (λ z. omega (arith, z)) refl refl

sys_waitpid_sleeps_example :
    sys_waitpid counting (pos 2) (scheduled 6)
    ≡ ok none (with_sem 12 (record { sem_count = 0; sem_wchan = 6 ∷ [] }) (scheduled 6))
sys_waitpid_sleeps_example =
    sys_waitpid_sleeps counting (scheduled 6) 12 2 [] (λ z. omega (arith, z))
      (λ z. omega (arith, z)) (omega arith) refl refl refl

waitpid_after_exit_example :
    (s1 : Procs ℕ) × (s' : Procs ℕ) × (sys__exit counting 300 running ≡ ok none s1)
    × (sys_waitpid counting (pos 2) (record s1 { curthread = 6 }) ≡ ok (some (pos 2, some 44)) s')
    × (get_elem? s'.process_table.proc 2 ≡ some 0)
    × TableOk s'
unfolding wakeone
waitpid_after_exit_example =
    waitpid_after_exit counting running 12 2 300 6 (empty_sem 0) 1 (scheduled-TableOk 5) refl
      (λ z. omega (arith, z)) (λ z. omega (arith, z)) (omega arith) refl refl refl (omega arith)
      refl refl (λ z. omega (arith, z)) (λ z. omega (arith, z)) (λ z. omega (arith, z)) refl
