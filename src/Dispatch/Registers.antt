-- ===== src/Dispatch/Registers.antt =====
-- open and close as the user program sees them: what the dispatch puts into the registers, and the files behind.
use paging_os.Base.{
  ℕ, suc, ◌^◌, ◌+◌, ◌%◌, ◌≤◌, ◌<◌, ◌≡◌, ◌≢◌, refl, inl, inr, true, false, Option, some, List, arith,
  ◌==◌, get_elem?, ltb, ==_refl, ℤ, pos, minus_one, ap,
}
use paging_os.Machine.{Outcome, u32, ok, Status, enfile, emfile, enoent}
use paging_os.Machine.Platform.{VfsOps, VfsLaws, TlbOps, BitmapOps, WorldOps}
use paging_os.Machine.Threadlists.{ThreadlistOps}
use paging_os.Thread.{curthread}
use paging_os.Thread.Ipi.{IpiCodes}
use paging_os.Fork.{Allocations}
use paging_os.Files.{Files, OpenFile, set_entry, update_file, first_fd}
use paging_os.Files.Counts.{FilesOk}
use paging_os.Files.Open.{Opened, opened, sys_open-Opened}
use paging_os.Files.Close.{Dropped, sys_close-FilesOk}
use paging_os.Proc.{ProcOps}
use paging_os.Dispatch.{
  Abi, TrapFrame, Calls, replied, word, negative_is, OtherOps, serve, syscall, finish, errno_of,
}

-- The registers with which the user program goes on: a result in v0 and whether it is an error in a3,
-- the instruction behind that of the call, and the others as they were.
pub record Resumed (tf tf' : TrapFrame) (v0 a3 : ℕ) : Type 0 where
  pub result : tf'.tf_v0 ≡ v0
  pub is_error : tf'.tf_a3 ≡ a3
  pub next : tf'.tf_epc ≡ (tf.tf_epc + 4) % u32
  pub arguments : (tf'.tf_a0 ≡ tf.tf_a0) × (tf'.tf_a1 ≡ tf.tf_a1) × (tf'.tf_a2 ≡ tf.tf_a2)
  pub others : tf'.tf_rest ≡ tf.tf_rest

Resumed-finish : (tf : TrapFrame) (retval : ℤ) → Resumed tf (finish tf retval 0) (word retval) 0
Resumed-finish tf retval = record {
  result = refl;
  is_error = refl;
  next = refl;
  arguments = (refl, refl, refl);
  others = refl;
}

Resumed-finish_error :
    (tf : TrapFrame) (retval : ℤ) (e : ℕ) → e ≢ 0 → Resumed tf (finish tf retval e) (e % u32) 1
Resumed-finish_error tf retval e ne =
    let z : (e == 0) ≡ false = ground arith in
    record {
      result = rw z refl;
      is_error = rw z refl;
      next = refl;
      arguments = (refl, refl, refl);
      others = refl;
    }

-- The thread that makes the call has spl 0 and holds no spinlock.
abbrev pub MayCall : {W V T B D L X : Type 0} → Calls W V T B D L X → Type 0
MayCall s =
    let m = s.whole.smp in (m.t_curspl (curthread m) ≡ 0) × (m.t_iplhigh_count (curthread m) ≡ 0)

-- What the user program and the files show of open of a path that vfs_open opens with vnode `v`.
module _ (abi : Abi) {W : Type 0} (vfs : VfsOps W) (laws : VfsLaws vfs) (open_max : ℕ) where
  pub data OpenAnswer (tf tf' : TrapFrame) (v : ℕ) (w : W) (table : List ℕ) (s s' : Files W)
      : Type 0 where
    no_slot :
        Resumed tf tf' (abi.errno enfile % u32) 1
        → s'.vfs ≡ vfs.vfs_close w v
        → ((x : ℕ) (of : OpenFile) → get_elem? s.system x ≡ some of → of.vn ≢ 0)
        → OpenAnswer tf tf' v w table s s'
    opened_at :
        (fd j : ℕ)
        → Resumed tf tf' (fd % u32) 0
        → first_fd ≤ fd
        → get_elem? table fd ≡ some 0
        → s' ≡ set_entry s.cur fd (suc j) (update_file j (λ _. opened v) (record s { vfs = w }))
        → FilesOk open_max s'
        → OpenAnswer tf tf' v w table s s'
    no_entry :
        Resumed tf tf' (abi.errno emfile % u32) 1
        → s'.vfs ≡ vfs.vfs_close w v
        → ((fd e : ℕ) → get_elem? table fd ≡ some e → first_fd ≤ fd → e ≢ 0)
        → OpenAnswer tf tf' v w table s s'

  Opened-OpenAnswer :
      (tf : TrapFrame) (v : ℕ) (w : W) (table : List ℕ) (result : ℤ × Status) (s s' : Files W)
      → abi.errno enfile ≢ 0
      → abi.errno emfile ≢ 0
      → get_elem? s.tables s.cur ≡ some table
      → Opened vfs laws open_max v w result s s'
      → OpenAnswer tf (finish tf result.0 (errno_of abi result.1)) v w table s s'
  Opened-OpenAnswer tf v w table result s s' c1 c2 at_cur (inl (e, f, all)) =
      rw e
        (no_slot (Resumed-finish_error tf minus_one (abi.errno enfile) c1) (ap (λ x. x.vfs) f) all)
  Opened-OpenAnswer tf v w table result s s' c1 c2 at_cur
        (inr (j, of, t, _, _, at, inl (fd, e, lo, here, f, ok_f))) =
      let z : t ≡ table = cc (at, at_cur) in
      rw e (opened_at fd j (Resumed-finish tf (pos fd)) lo (rw z at here) f ok_f)
  Opened-OpenAnswer tf v w table result s s' c1 c2 at_cur
        (inr (j, of, t, _, _, at, inr (e, f, all))) =
      let z : t ≡ table = cc (at, at_cur) in
      rw e (
        no_entry (Resumed-finish_error tf minus_one (abi.errno emfile) c2) (ap (λ x. x.vfs) f)
          (rw z at all))

-- What they show of close.
module _ (abi : Abi) {W : Type 0} (vfs : VfsOps W) (open_max : ℕ) where
  pub data CloseAnswer (tf tf' : TrapFrame) (table : List ℕ) (s s' : Files W) : Type 0 where
    refused :
        Resumed tf tf' (abi.errno enoent % u32) 1
        → get_elem? table tf.tf_a0 ≡ some 0
        → s' ≡ s
        → CloseAnswer tf tf' table s s'
    closed :
        (j : ℕ) (of : OpenFile)
        → Resumed tf tf' 0 0
        → get_elem? table tf.tf_a0 ≡ some (suc j)
        → get_elem? s.system j ≡ some of
        → Dropped vfs open_max j of (set_entry s.cur tf.tf_a0 0 s) s'
        → CloseAnswer tf tf' table s s'

module _ (abi : Abi) {W V T B D L X : Type 0} (vfs : VfsOps W) (open_max : ℕ) (procs : ProcOps V)
    (tlb : TlbOps T) (bits : BitmapOps B) (wld : WorldOps D) (tl : ThreadlistOps L)
    (codes : IpiCodes) (ops : OtherOps X) (a : Allocations) where
  abbrev run : TrapFrame → Calls W V T B D L X → Outcome (Calls W V T B D L X) (Option TrapFrame)
  run = syscall abi vfs open_max procs tlb bits wld tl codes ops a

  syscall-run :
      (tf : TrapFrame) (s s' : Calls W V T B D L X) (retval : ℤ) (e : ℕ)
      → MayCall s
      → MayCall s'
      → serve abi vfs open_max procs tlb bits wld tl codes ops a tf s ≡ ok (replied retval e) s'
      → run tf s ≡ ok (some (finish tf retval e)) s'
  unfolding syscall
  syscall-run tf s s' retval e (x, y) (x', y') h = rw (syscall, x, y, h, x', y') refl

  module _ (tf : TrapFrame) (s : Calls W V T B D L X) (table : List ℕ) (may : MayCall s)
      (valid : FilesOk open_max s.whole.files)
      (at_cur : get_elem? s.whole.files.tables s.whole.files.cur ≡ some table) where
    -- The system call open with a path that vfs_open opens. With a slot of the system table and an entry
    -- of the process's table from 3 on, v0 is the number of such an entry, which was free, a3 = 0, and the
    -- counts are right again; else a3 = 1, v0 is the code of ENFILE if every slot is taken, and that of
    -- EMFILE if every entry from 3 on is taken, and the vnode is closed. Assumed are a thread with spl 0
    -- and no spinlock, right counts, numbers of the calls that differ and codes that are not 0.
    pub syscall-open :
        (laws : VfsLaws vfs) (v : ℕ) (w : W)
        → tf.tf_v0 ≡ abi.nr_open
        → abi.nr_open ≢ abi.nr_reboot
        → abi.nr_open ≢ abi.nr_time
        → abi.errno enfile ≢ 0
        → abi.errno emfile ≢ 0
        → vfs.vfs_open s.whole.files.vfs tf.tf_a0 tf.tf_a1 tf.tf_a2 ≡ (0, v, w)
        → (tf' : TrapFrame) × (s' : Calls W V T B D L X) × (syscall abi vfs open_max procs tlb bits
              wld tl codes ops a tf s
            ≡ ok (some tf') s')
          × OpenAnswer abi vfs laws open_max tf tf' v w table s.whole.files s'.whole.files
    unfolding serve
    syscall-open laws v w call n1 n2 c1 c2 opens =
        let e1 : (abi.nr_open == abi.nr_reboot) ≡ false = ground arith in
        let e2 : (abi.nr_open == abi.nr_time) ≡ false = ground arith in
        let e3 = ==_refl abi.nr_open in
        let (result, f, made, opened) =
          sys_open-Opened vfs laws open_max s.whole.files table tf.tf_a0 tf.tf_a1 tf.tf_a2 v w valid
            at_cur opens in
        let s' = record s { whole = record s.whole { files = f } } in
        let served : serve abi vfs open_max procs tlb bits wld tl codes ops a tf s
            ≡ ok (replied result.0 (errno_of abi result.1)) s' =
          rw (serve, call, e1, e2, e3, made) refl in
        let ran = syscall-run tf s s' result.0 (errno_of abi result.1) may may served in
        (
          finish tf result.0 (errno_of abi result.1),
          s',
          ran,
          Opened-OpenAnswer abi vfs laws open_max tf v w table result s.whole.files f c1 c2 at_cur
              opened,
        )

    -- The system call close of a descriptor below OPEN_MAX: if its entry is NULL, a3 = 1, v0 is the code of
    -- ENOENT and the files are as they were; else v0 and a3 are 0, the entry is NULL, and the open file
    -- has lost a reference, with its vnode closed with the last one. The counts are right again. Assumed
    -- are a thread with spl 0 and no spinlock, right counts, numbers of the calls that differ, a code of
    -- ENOENT that is not 0, and OPEN_MAX at most 2^31.
    pub syscall-close :
        tf.tf_v0 ≡ abi.nr_close
        → abi.nr_close ≢ abi.nr_reboot
        → abi.nr_close ≢ abi.nr_time
        → abi.nr_close ≢ abi.nr_open
        → abi.errno enoent ≢ 0
        → tf.tf_a0 < open_max
        → open_max ≤ 2 ^ 31
        → (tf' : TrapFrame) × (s' : Calls W V T B D L X) × (syscall abi vfs open_max procs tlb bits
              wld tl codes ops a tf s
            ≡ ok (some tf') s')
          × FilesOk open_max s'.whole.files
          × CloseAnswer abi vfs open_max tf tf' table s.whole.files s'.whole.files
    unfolding serve
    syscall-close call n1 n2 n3 c lo small =
        let e1 : (abi.nr_close == abi.nr_reboot) ≡ false = ground arith in
        let e2 : (abi.nr_close == abi.nr_time) ≡ false = ground arith in
        let e3 : (abi.nr_close == abi.nr_open) ≡ false = ground arith in
        let e4 = ==_refl abi.nr_close in
        let sign : ltb tf.tf_a0 (2 ^ 31) ≡ true = ground arith in
        let (result, f, made, right, how) =
          sys_close-FilesOk vfs open_max s.whole.files table tf.tf_a0 valid at_cur lo in
        let s' = record s { whole = record s.whole { files = f } } in
        let served : serve abi vfs open_max procs tlb bits wld tl codes ops a tf s
            ≡ ok (negative_is abi enoent result) s' =
          rw (serve, call, e1, e2, e3, e4, sign, made) refl in
        elim how [
          | inl (null, e, same) ↦ (
            finish tf minus_one (abi.errno enoent),
            s',
            syscall-run tf s s' minus_one (abi.errno enoent) may may (rw e at served),
            right,
            refused (Resumed-finish_error tf minus_one (abi.errno enoent) c) null same,
          )
          | inr (j, of, here, at_j, e, d) ↦ (
            finish tf (pos 0) 0,
            s',
            syscall-run tf s s' (pos 0) 0 may may (rw e at served),
            right,
            closed j of (Resumed-finish tf (pos 0)) here at_j d,
          )
        ]
