-- ===== src/Fork.antt =====
-- sys_fork of kern/syscall/proc_syscalls.c, on the processes, their files, their memory and the threads.
pub mod Swapped
use paging_os.Base.{
  ℕ, Bool, true, false, not, Option, none, some, List, ◌==◌, if◌then◌else◌, update, replicate,
}
use paging_os.Machine.{
  Cmd, pure, get, modify, kassert, carry, ◌>>=◌, ◌>>◌, Status, success, err, enomem,
}
use paging_os.Machine.Platform.{TlbOps, BitmapOps, WorldOps}
use paging_os.Machine.Threadlists.{ThreadlistOps}
use paging_os.Space.{PtEntry}
use paging_os.Synch.{Semaphore}
use paging_os.Kernel.{Kernel}
use paging_os.Clone.{Creation, as_copy}
use paging_os.Files.{Files, proc_file_table_copy}
use paging_os.Proc.{Procs, ProcOps, curproc, set_proc, proc_create_runprogram, proc_destroy}
use paging_os.Thread.{Smp}
use paging_os.Thread.Ipi.{IpiCodes}
use paging_os.Thread.Switch.{thread_fork}

-- The parts that a fork changes. A pointer to a process is also the index of its fileTable.
pub record Whole (W V T B D L : Type 0) : Type 0 where
  pub files : Files W
  pub procs : Procs V
  pub kernel : Kernel T B D
  pub smp : Smp L

-- What the allocations of a fork give: the new process with its name and semaphore, the address space and
-- the memory of its segments, the contents of its page table, the copy of the registers, and the thread.
pub record Allocations : Type 0 where
  pub newproc : ℕ
  pub name_ok : Bool
  pub sem : Option Semaphore
  pub creation : Creation
  pub allocated : ℕ → Bool
  pub raw : List PtEntry
  pub tf_child : Bool
  pub newthread : ℕ
  pub thread_name_ok : Bool
  pub stack : ℕ

module _ {V L : Type 0} where
  -- t_proc and p_numthreads belong to the thread and to the process; the threads and the processes read
  -- and write the same ones.
  abbrev pub shared : Procs V → Smp L → Smp L
  shared p m = record m { t_proc = p.t_proc; p_numthreads = λ x. (p.procs x).p_numthreads }

  abbrev pub shared_back : Smp L → Procs V → Procs V
  shared_back m p = record p {
    t_proc = m.t_proc;
    procs = λ x. record (p.procs x) { p_numthreads = m.p_numthreads x };
  }

module _ {W V T B D L : Type 0} where
  abbrev pub in_files : {A : Type 0} → Cmd (Files W) A → Cmd (Whole W V T B D L) A
  in_files m s = carry (λ x. record s { files = x }) (m s.files)

  abbrev pub in_procs : {A : Type 0} → Cmd (Procs V) A → Cmd (Whole W V T B D L) A
  in_procs m s = carry (λ x. record s { procs = x }) (m s.procs)

  abbrev pub in_kernel : {A : Type 0} → Cmd (Kernel T B D) A → Cmd (Whole W V T B D L) A
  in_kernel m s = carry (λ x. record s { kernel = x }) (m s.kernel)

  abbrev pub in_smp : {A : Type 0} → Cmd (Smp L) A → Cmd (Whole W V T B D L) A
  in_smp m s =
      carry (λ x. record s { smp = x; procs = shared_back x s.procs }) (m (shared s.procs s.smp))

-- the bzero of proc_create with OPT_FILE
abbrev pub clear_table : {W : Type 0} → (open_max p : ℕ) → Cmd (Files W) (Unit {0})
clear_table open_max p =
    modify (λ s. record s { tables = update s.tables p (λ _. replicate open_max 0) })

module _ {W V T B D L : Type 0} (open_max : ℕ) (ops : ProcOps V) (tlb : TlbOps T)
    (bits : BitmapOps B) (wld : WorldOps D) (tl : ThreadlistOps L) (codes : IpiCodes) where
  -- sys_fork behind the call of as_copy.
  unfoldable pub fork_rest : (a : Allocations) → (newp : ℕ) → Cmd (Whole W V T B D L) (ℕ × Status)
  fork_rest a newp = do
    s ← get
    in_files (proc_file_table_copy open_max newp (curproc s.procs))
    if not a.tf_child then (do in_procs (proc_destroy ops newp); pure (0, err enomem)) else (do
      r ← in_smp (thread_fork tl codes a.newthread a.thread_name_ok a.stack newp)
      elim r [
        | err e ↦ do in_procs (proc_destroy ops newp); pure (0, err enomem)
        | success ↦ do s ← get; pure ((s.procs.procs newp).p_pid, success)
      ])

  -- sys_fork: the pid that is stored through `retval`, and the result.
  unfoldable pub sys_fork : (a : Allocations) → Cmd (Whole W V T B D L) (ℕ × Status)
  sys_fork a = do
    s ← get
    kassert (not (curproc s.procs == 0))
    newp ← in_procs (proc_create_runprogram ops a.newproc a.name_ok a.sem)
    if newp == 0 then pure (0, err enomem) else do
      in_files (clear_table open_max newp)
      s ← get
      (result, newas) ← in_kernel (
          as_copy tlb bits wld a.creation a.allocated a.raw
            (s.procs.procs (curproc s.procs)).p_addrspace)
      in_procs (modify (set_proc newp (λ x. record x { p_addrspace = newas })))
      if newas == 0
          then (do in_procs (proc_destroy ops newp); pure (0, err enomem))
          else fork_rest a newp
