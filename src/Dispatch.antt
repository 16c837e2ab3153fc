-- ===== src/Dispatch.antt =====
-- kern/arch/mips/syscall/syscall.c: the dispatch of system calls, on the files and the processes together.
-- Also sys_reboot of kern/main/main.c.
pub mod Registers
use paging_os.Base.{
  ◌≡◌, ℕ, zero, suc, ◌+◌, ◌-◌, ◌%◌, Bool, true, false, ◌||◌, Option, none, some, List, ◌==◌,
  if◌then◌else◌, ℤ, pos, negsuc, to_int,
}
use paging_os.Machine.{
  u32, Cmd, pure, fail, get, modify, kassert, carry, ◌>>=◌, ◌>>◌, ok, Status, success, err, Errno,
  enosys, enoent, einval,
}
use paging_os.Machine.Platform.{VfsOps, TlbOps, BitmapOps, WorldOps}
use paging_os.Machine.Threadlists.{ThreadlistOps}
use paging_os.Thread.{curthread}
use paging_os.Thread.Ipi.{IpiCodes}
use paging_os.Fork.{Whole, Allocations, sys_fork}
use paging_os.Files.{Files, sys_open, sys_close, sys_read, sys_write}
use paging_os.Proc.{Procs, ProcOps, sys__exit, sys_waitpid, sys_getpid}

-- The numbers of kern/syscall.h, kern/errno.h and kern/reboot.h, which are not in the repository.
pub record Abi : Type 0 where
  pub nr_reboot : ℕ
  pub nr_time : ℕ
  pub nr_open : ℕ
  pub nr_close : ℕ
  pub nr_remove : ℕ
  pub nr_write : ℕ
  pub nr_read : ℕ
  pub nr_exit : ℕ
  pub nr_waitpid : ℕ
  pub nr_getpid : ℕ
  pub nr_fork : ℕ
  pub errno : Errno → ℕ
  pub rb_reboot : ℕ
  pub rb_halt : ℕ
  pub rb_poweroff : ℕ

-- The registers of `struct trapframe` that the dispatch uses, as words; `tf_rest` stands for the others.
pub record TrapFrame : Type 0 where
  pub tf_v0 : ℕ
  pub tf_a0 : ℕ
  pub tf_a1 : ℕ
  pub tf_a2 : ℕ
  pub tf_a3 : ℕ
  pub tf_epc : ℕ
  pub tf_rest : List ℕ

-- The files, the processes, the memory and the threads, and what else there is.
pub record Calls (W V T B D L X : Type 0) : Type 0 where
  pub whole : Whole W V T B D L
  pub others : X

-- What a system call comes to: retval and err, or no return, since the thread ends or the machine stops.
pub data Reply : Type 0 where
  replied : (retval : ℤ) (e : ℕ) → Reply
  -- the thread sleeps, and makes the call again when it is woken
  asleep : Reply
  gone : Reply

-- a C `int` in a register
abbrev pub word : ℤ → ℕ
word (pos n) = n % u32
word (negsuc n) = u32 - 1 - n % u32

-- What the dispatch calls besides: sys___time, which is not in the repository, and the write of a status
-- through the user's pointer.
pub record OtherOps (X : Type 0) : Type 0 where
  pub sys_time : (seconds nanoseconds : ℕ) → X → ℕ × X
  pub store_int : X → (addr value : ℕ) → X

module _ {W V T B D L X : Type 0} where
  abbrev pub on_whole : {A : Type 0} → Cmd (Whole W V T B D L) A → Cmd (Calls W V T B D L X) A
  on_whole m s = carry (λ w. record s { whole = w }) (m s.whole)

  abbrev pub on_files : {A : Type 0} → Cmd (Files W) A → Cmd (Calls W V T B D L X) A
  on_files m = on_whole (λ w. carry (λ f. record w { files = f }) (m w.files))

  abbrev pub on_procs : {A : Type 0} → Cmd (Procs V) A → Cmd (Calls W V T B D L X) A
  on_procs m = on_whole (λ w. carry (λ p. record w { procs = p }) (m w.procs))

  abbrev pub on_others : {A : Type 0} → (X → A × X) → Cmd (Calls W V T B D L X) A
  on_others m s = let (a, x) = m s.others in ok a (record s { others = x })

  -- The assertions of syscall on the current thread.
  abbrev pub assert_spl : Cmd (Calls W V T B D L X) (Unit {0})
  assert_spl = do
    s ← get
    let smp = s.whole.smp
    kassert (smp.t_curspl (curthread smp) == 0)
    kassert (smp.t_iplhigh_count (curthread smp) == 0)

-- the registers of a call that returns
abbrev pub finish : TrapFrame → (retval : ℤ) → (e : ℕ) → TrapFrame
finish tf retval e = record tf {
  tf_v0 = if e == 0 then word retval else e % u32;
  tf_a3 = if e == 0 then 0 else 1;
  tf_epc = (tf.tf_epc + 4) % u32;
}

module _ (abi : Abi) where
  abbrev pub errno_of : Status → ℕ
  errno_of success = 0
  errno_of (err e) = abi.errno e

  -- `if (retval<0) err = e; else err = 0;`
  abbrev pub negative_is : (e : Errno) → ℤ → Reply
  negative_is e (pos n) = replied (pos n) 0
  negative_is e (negsuc n) = replied (negsuc n) (abi.errno e)

  -- sys_reboot; a call that shuts the machine down does not return.
  unfoldable pub sys_reboot : (code : ℕ) → Reply
  sys_reboot code =
      if (code == abi.rb_reboot) || (code == abi.rb_halt) || (code == abi.rb_poweroff)
      then gone
      else replied (pos 0) (abi.errno einval)

-- `a` is what the allocations of a fork give.
module _ (abi : Abi) {W V T B D L X : Type 0} (vfs : VfsOps W) (open_max : ℕ) (procs : ProcOps V)
    (tlb : TlbOps T) (bits : BitmapOps B) (wld : WorldOps D) (tl : ThreadlistOps L)
    (codes : IpiCodes) (ops : OtherOps X) (a : Allocations) where
  -- What SYS_waitpid answers, with the write of the status.
  abbrev pub answer_wait : (statusp : ℕ) → Option (ℤ × Option ℕ) → Cmd (Calls W V T B D L X) Reply
  answer_wait statusp none = pure asleep
  answer_wait statusp (some (retval, none)) = pure (negative_is abi enosys retval)
  answer_wait statusp (some (retval, some status)) = do
    if statusp == 0
        then pure tt
        else modify (λ s. record s { others = ops.store_int s.others statusp status })
    pure (negative_is abi enosys retval)

  unfoldable pub wait_call : (pid statusp : ℕ) → Cmd (Calls W V T B D L X) Reply
  wait_call pid statusp = do r ← on_procs (sys_waitpid procs (to_int pid)); answer_wait statusp r

  -- The switch on the number of the call.
  unfoldable pub serve : TrapFrame → Cmd (Calls W V T B D L X) Reply
  unfolding sys_reboot wait_call
  serve tf =
      let callno = tf.tf_v0 in
      if callno == abi.nr_reboot
      then pure (sys_reboot abi tf.tf_a0)
      else if callno == abi.nr_time
      then (do e ← on_others (ops.sys_time tf.tf_a0 tf.tf_a1); pure (replied (pos 0) e))
      else if callno == abi.nr_open
      then (do
        (retval, status) ← on_files (sys_open vfs open_max tf.tf_a0 tf.tf_a1 tf.tf_a2)
        pure (replied retval (errno_of abi status)))
      else if callno == abi.nr_close
      then (do
        retval ← on_files (sys_close vfs open_max (to_int tf.tf_a0))
        pure (negative_is abi enoent retval))
      else if callno == abi.nr_remove
      then pure (replied (pos 0) 0)
      else if callno == abi.nr_write
      then (do
        retval ← on_files (sys_write vfs open_max (to_int tf.tf_a0) tf.tf_a1 tf.tf_a2)
        pure (negative_is abi enosys retval))
      else if callno == abi.nr_read
      then (do
        retval ← on_files (sys_read vfs open_max (to_int tf.tf_a0) tf.tf_a1 tf.tf_a2)
        pure (negative_is abi enosys retval))
      else if callno == abi.nr_exit
      then (do woken ← on_procs (sys__exit procs tf.tf_a0); pure gone)
      else if callno == abi.nr_waitpid
      then wait_call tf.tf_a0 tf.tf_a1
      else if callno == abi.nr_getpid
      then (do pid ← on_procs (sys_getpid procs); pure (negative_is abi enosys (to_int pid)))
      else if callno == abi.nr_fork
      then (do
        (pid, status) ← on_whole (sys_fork open_max procs tlb bits wld tl codes a)
        pure (replied (to_int pid) (errno_of abi status)))
      else pure (replied (pos 0) (abi.errno enosys))

  -- syscall; `none` where it does not return now.
  unfoldable pub syscall : TrapFrame → Cmd (Calls W V T B D L X) (Option TrapFrame)
  syscall tf = do
    assert_spl
    r ← serve tf
    elim r [
      | asleep ↦ pure none
      | gone ↦ pure none
      | replied retval e ↦ do assert_spl; pure (some (finish tf retval e))
    ]

-- enter_forked_process: the registers with which the child starts.
unfoldable pub enter_forked_process : TrapFrame → TrapFrame
enter_forked_process tf = record tf { tf_v0 = 0; tf_a3 = 0; tf_epc = (tf.tf_epc + 4) % u32 }
