-- ===== src/Fork/Swapped.antt =====
-- What sys_fork does to the files of the parent.
use paging_os.Base.{
  ℕ, zero, suc, ◌+◌, ◌<◌, ◌≤◌, ◌≡◌, ◌≢◌, refl, ◌∙◌, true, false, some, List, arith, ◌==◌, get_elem?,
  set, update, length, length-set, replicate, inl, inr, Bool-cases, ==_refl, get_elem?-update,
  get_elem?-set_self, get_elem?-set_ne,
}
use paging_os.Machine.{ok, Status, success}
use paging_os.Machine.Platform.{TlbOps, BitmapOps, WorldOps}
use paging_os.Machine.Threadlists.{ThreadlistOps}
use paging_os.Kernel.{Kernel}
use paging_os.Clone.{as_copy}
use paging_os.Proc.{Procs, ProcOps, curproc, set_proc, proc_create_runprogram}
use paging_os.Thread.{Smp}
use paging_os.Thread.Ipi.{IpiCodes}
use paging_os.Thread.Switch.{thread_fork}
use paging_os.Fork.{shared, shared_back, Whole, Allocations, fork_rest, sys_fork}
use paging_os.Files.{
  Files, set_entry, entry_of, copy_entries, openfile_incr_ref_count, proc_file_table_copy,
}

module _ {W : Type 0} where
  -- A table of NULLs is copied over the table of another process.
  pub record Cleared (src dest fd : ℕ) (st dt : List ℕ) (s s' : Files W) : Type 0 where
    pub system : s'.system ≡ s.system
    pub table : List ℕ
    pub at_dest : get_elem? s'.tables dest ≡ some table
    pub at_src : get_elem? s'.tables src ≡ some st
    pub size : length table ≡ length dt
    pub before : (x : ℕ) → x < fd → get_elem? table x ≡ get_elem? dt x
    pub behind : (x : ℕ) → fd ≤ x → x < length dt → get_elem? table x ≡ some 0

  copy_entries-step :
      (src dest rounds fd : ℕ) (st : List ℕ) (s s' : Files W)
      → get_elem? s.tables src ≡ some st
      → get_elem? st fd ≡ some 0
      → copy_entries src dest rounds (fd + 1) (set_entry dest fd 0 s) ≡ ok tt s'
      → copy_entries src dest (suc rounds) fd s ≡ ok tt s'
  unfolding copy_entries entry_of openfile_incr_ref_count
  copy_entries-step src dest rounds fd st s s' at_src here run =
      rw (copy_entries, entry_of, at_src, here) run

  copy_entries-Cleared :
      (src dest rounds fd : ℕ) (st dt : List ℕ) (s : Files W)
      → src ≢ dest
      → get_elem? s.tables src ≡ some st
      → get_elem? s.tables dest ≡ some dt
      → ((x : ℕ) → x < length dt → get_elem? st x ≡ some 0)
      → fd + rounds ≡ length dt
      → (s' : Files W) × (copy_entries src dest rounds fd s ≡ ok tt s')
        × Cleared src dest fd st dt s s'
  unfolding copy_entries entry_of
  copy_entries-Cleared src dest zero fd st dt s ne at_src at_dest zeros all = (
    s,
    refl,
    record {
      system = refl;
      table = dt;
      at_dest = at_dest;
      at_src = at_src;
      size = refl;
      before = λ x h. refl;
      behind = λ x lo hi. absurd (omega arith);
    },
  )
  copy_entries-Cleared src dest (suc rounds) fd st dt s ne at_src at_dest zeros all =
      let here = zeros fd (omega arith) in
      let s1 = set_entry dest fd 0 s in
      let dt1 = set dt fd 0 in
      let apart : (dest == src) ≡ false = ground arith in
      let self = ==_refl dest in
      let src1 : get_elem? s1.tables src ≡ some st =
        get_elem?-update s.tables dest src (λ t. set t fd 0) ∙ rw apart at_src in
      let dest1 : get_elem? s1.tables dest ≡ some dt1 =
        get_elem?-update s.tables dest dest (λ t. set t fd 0) ∙ rw (self, at_dest) refl in
      let size1 = length-set dt fd 0 in
      let (s', run, c) =
        copy_entries-Cleared src dest rounds (fd + 1) st dt1 s1 ne src1 dest1
          (λ x h. zeros x (omega (arith, size1))) (omega (arith, size1)) in
      (
        s',
        copy_entries-step src dest rounds fd st s s' at_src here run,
        record {
          system = c.system;
          table = c.table;
          at_dest = c.at_dest;
          at_src = c.at_src;
          size = c.size ∙ size1;
          before = λ x h.
              c.before x (omega arith)
              ∙ get_elem?-set_ne dt fd x 0 (λ e. absurd (omega (arith, e)));
          behind = λ x lo hi. elim (Bool-cases (x == fd)) [
            | inl e ↦
                let z : x ≡ fd = ground arith in
                rw z (c.before fd (omega arith) ∙ get_elem?-set_self dt fd 0 (omega arith))
            | inr e ↦ c.behind x (ground arith) (omega (arith, size1))
          ];
        },
      )

get_elem?-replicate : (n x : ℕ) → x < n → get_elem? {A = ℕ} (replicate n 0) x ≡ some 0
get_elem?-replicate zero x h = absurd (omega arith)
get_elem?-replicate (suc n) zero h = refl
get_elem?-replicate (suc n) (suc x) h = get_elem?-replicate n x (omega arith)

-- The files after the bzero of proc_create.
abbrev emptied : {W : Type 0} → (open_max newp : ℕ) → Files W → Files W
emptied open_max newp f = record f { tables = update f.tables newp (λ _. replicate open_max 0) }

module _ {V : Type 0} where
  -- The processes after the new one has its address space.
  abbrev with_space : (newp newas : ℕ) → Procs V → Procs V
  with_space newp newas = set_proc newp (λ x. record x { p_addrspace = newas })

module _ {W V T B D L : Type 0} (open_max : ℕ) (ops : ProcOps V) (tlb : TlbOps T)
    (bits : BitmapOps B) (wld : WorldOps D) (tl : ThreadlistOps L) (codes : IpiCodes) where
  fork_rest-run :
      (a : Allocations) (newp : ℕ) (s : Whole W V T B D L) (f : Files W) (m : Smp L)
      → a.tf_child ≡ true
      → proc_file_table_copy open_max newp (curproc s.procs) s.files ≡ ok tt f
      → thread_fork tl codes a.newthread a.thread_name_ok a.stack newp (shared s.procs s.smp)
        ≡ ok success m
      → fork_rest open_max ops tlb bits wld tl codes a newp s
        ≡ ok
            ((s.procs.procs newp).p_pid, success)
            (record s { files = f; procs = shared_back m s.procs; smp = m })
  unfolding fork_rest
  fork_rest-run a newp s f m child copied forked = rw (fork_rest, copied, child, forked) refl

  sys_fork-run :
      (a : Allocations) (newp newas : ℕ) (result : Status) (s : Whole W V T B D L) (p : Procs V)
      (k : Kernel T B D) (o : ℕ × Status) (s' : Whole W V T B D L)
      → (curproc s.procs == 0) ≡ false
      → (newp == 0) ≡ false
      → (newas == 0) ≡ false
      → proc_create_runprogram ops a.newproc a.name_ok a.sem s.procs ≡ ok newp p
      → as_copy tlb bits wld a.creation a.allocated a.raw (p.procs (curproc p)).p_addrspace s.kernel
        ≡ ok (result, newas) k
      → fork_rest open_max ops tlb bits wld tl codes a newp (record s {
        files = emptied open_max newp s.files;
        procs = with_space newp newas p;
        kernel = k;
      })
        ≡ ok o s'
      → sys_fork open_max ops tlb bits wld tl codes a s ≡ ok o s'
  unfolding sys_fork
  sys_fork-run a newp newas result s p k o s' running some_p some_as made copied rest =
      rw (sys_fork, running, made, some_p, copied, some_as) rest

  -- sys_fork that succeeds leaves both processes without files: each entry of the parent's fileTable is
  -- NULL then, and each entry of the child's, while the counts in systemFileTable stay as they were. Assumed is that every part of the fork
  -- succeeds (the new process, the address space, the copy of the registers and the thread), and that both
  -- processes have a fileTable.
  pub sys_fork-Emptied :
      (a : Allocations) (newp newas : ℕ) (result : Status) (s : Whole W V T B D L) (p : Procs V)
      (k : Kernel T B D) (m : Smp L) (parent child : List ℕ)
      → curproc s.procs ≢ 0
      → newp ≢ 0
      → newas ≢ 0
      → newp ≢ curproc p
      → proc_create_runprogram ops a.newproc a.name_ok a.sem s.procs ≡ ok newp p
      → as_copy tlb bits wld a.creation a.allocated a.raw (p.procs (curproc p)).p_addrspace s.kernel
        ≡ ok (result, newas) k
      → a.tf_child ≡ true
      → thread_fork tl codes a.newthread a.thread_name_ok a.stack newp
          (shared (with_space newp newas p) s.smp)
        ≡ ok success m
      → get_elem? s.files.tables (curproc p) ≡ some parent
      → length parent ≡ open_max
      → get_elem? s.files.tables newp ≡ some child
      → (pid : ℕ) × (s' : Whole W V T B D L) × (table : List ℕ) × (sys_fork open_max ops tlb bits
            wld tl codes a s
          ≡ ok (pid, success) s')
        × (get_elem? s'.files.tables (curproc p) ≡ some table)
        × ((fd : ℕ) → fd < open_max → get_elem? table fd ≡ some 0)
        × (get_elem? s'.files.tables newp ≡ some (replicate open_max 0))
        × (s'.files.system ≡ s.files.system)
  unfolding proc_file_table_copy
  sys_fork-Emptied a newp newas result s p k m parent child run some_p some_as ne made copied tf
        forked at_cur size at_new =
      let f1 = emptied open_max newp s.files in
      let self = ==_refl newp in
      let apart : (newp == curproc p) ≡ false = ground arith in
      let e1 : (curproc s.procs == 0) ≡ false = ground arith in
      let e2 : (newp == 0) ≡ false = ground arith in
      let e3 : (newas == 0) ≡ false = ground arith in
      let zeros : List ℕ = replicate open_max 0 in
      let src : get_elem? f1.tables newp ≡ some zeros =
        get_elem?-update s.files.tables newp newp (λ _. zeros) ∙ rw (self, at_new) refl in
      let dest : get_elem? f1.tables (curproc p) ≡ some parent =
        get_elem?-update s.files.tables newp (curproc p) (λ _. zeros) ∙ rw apart at_cur in
      let (f2, swapped, c) =
        copy_entries-Cleared newp (curproc p) open_max 0 zeros parent f1 ne src dest
          (λ x h. get_elem?-replicate open_max x (omega (arith, size))) (omega (arith, size)) in
      let s1 = record s { files = f1; procs = with_space newp newas p; kernel = k } in
      (
        _,
        record s1 { files = f2; procs = shared_back m s1.procs; smp = m },
        c.table,
        sys_fork-run a newp newas result s p k _ _ e1 e2 e3 made copied
            (fork_rest-run a newp s1 f2 m tf swapped forked),
        c.at_dest,
        (λ fd h. c.behind fd (omega arith) (omega (arith, size))),
        c.at_src,
        c.system,
      )
