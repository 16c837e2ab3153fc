-- ===== src/Proc/Reap.antt =====
-- What proc_destroy leaves, and waitpid after exit.
use paging_os.Base.{
  ℕ, ◌≡◌, ◌≢◌, refl, inl, inr, true, false, some, [], arith, ◌==◌, if◌then◌else◌, get_elem?,
  get_elem?-lt, get_elem?-set_self, get_elem?-set_ne, ==_refl, Bool-cases, sym, ◌∙◌,
}
use paging_os.Machine.{ok}
use paging_os.Synch.{Semaphore}
use paging_os.Proc.{
  Proc, Procs, ProcOps, curproc, set_proc, set_entry, proc_destroy, drop_space, null,
}
use paging_os.Proc.Table.{TableOk}
use paging_os.Proc.Wait.{proc_end_waitpid-TableOk}

abbrev pub empty_sem : ℕ → Semaphore
empty_sem count = record { sem_count = count; sem_wchan = [] }

module _ {W : Type 0} (ops : ProcOps W) where
  -- A change of one process that keeps its pid keeps the table valid.
  pub TableOk-set_proc :
      (s : Procs W) (p : ℕ) (f : Proc → Proc) (w : W)
      → ((x : Proc) → (f x).p_pid ≡ x.p_pid)
      → TableOk s
      → TableOk (record (set_proc p f s) { rest = w })
  TableOk-set_proc s p f w keeps v = record {
    size = v.size;
    last = v.last;
    fresh = v.fresh;
    pids = λ i q h live.
        let (a, b) = v.pids i q h live in
        elim (Bool-cases (q == p)) [
          | inl e ↦ (a, rw e (keeps (s.procs q) ∙ b))
          | inr e ↦ (a, rw e b)
        ];
  }

  -- The world once the current directory of `p` is given back.
  abbrev pub without_cwd : (p : ℕ) → (s : Procs W) → W
  without_cwd p s =
      if (s.procs p).p_cwd == null then s.rest else ops.vop_decref s.rest (s.procs p).p_cwd

  -- What proc_destroy leaves: the pid is free, and nothing else of the table and of the other
  -- processes is changed.
  pub record Destroyed (p : ℕ) (w : W) (s s' : Procs W) : Type 0 where
    pub free : get_elem? s'.process_table.proc (s.procs p).p_pid ≡ some 0
    pub entries :
        (k : ℕ)
        → k ≢ (s.procs p).p_pid
        → get_elem? s'.process_table.proc k ≡ get_elem? s.process_table.proc k
    pub processes : (q : ℕ) → q ≢ p → s'.procs q ≡ s.procs q
    pub rest : s'.rest ≡ w
    pub valid : TableOk s'

  -- proc_destroy of a process without a current directory
  destroy_bare :
      (s : Procs W) (p count : ℕ) (w : W)
      → TableOk s
      → p ≢ 0
      → p ≢ s.kproc
      → p ≢ curproc s
      → get_elem? s.process_table.proc (s.procs p).p_pid ≡ some p
      → (s.procs p).p_sem ≡ some (empty_sem count)
      → (s.procs p).p_numthreads ≡ 0
      → (s.procs p).p_addrspace ≢ 0
      → (s.procs p).p_cwd ≡ 0
      → ops.as_destroy (s.procs p).p_addrspace s.rest ≡ ok tt w
      → (s' : Procs W) × (proc_destroy ops p s ≡ ok tt s') × Destroyed p w s s'
  unfolding proc_destroy drop_space
  destroy_bare s p count w v live not_k not_cur here sem threads space cwd gone =
      let self = ==_refl p in
      let u : Procs W = record (set_proc p (λ x. record x { p_addrspace = null }) s) { rest = w } in
      let ok_u : TableOk u =
        TableOk-set_proc s p (λ x. record x { p_addrspace = null }) w (λ x. refl) v in
      let (run, valid) =
        proc_end_waitpid-TableOk u p count ok_u live (rw self here) (rw self sem) in
      let pid : (u.procs p).p_pid ≡ (s.procs p).p_pid = rw self refl in
      let low = get_elem?-lt s.process_table.proc (s.procs p).p_pid here in
      let some_p : (p == null) ≡ false = ground arith in
      let other_k : (p == s.kproc) ≡ false = ground arith in
      let other_c : (p == curproc s) ≡ false = ground arith in
      let no_cwd : ((s.procs p).p_cwd == null) ≡ true = ground arith in
      let a_space : ((s.procs p).p_addrspace == null) ≡ false = ground arith in
      let idle : ((s.procs p).p_numthreads == 0) ≡ true = ground arith in
      (
        set_entry (u.procs p).p_pid 0 u,
        ground arith,
        record {
          free = rw pid (get_elem?-set_self s.process_table.proc (s.procs p).p_pid 0 low);
          entries = λ k ne.
              rw pid
                (get_elem?-set_ne s.process_table.proc (s.procs p).p_pid k 0 (λ e. ne (sym e)));
          processes = λ q ne. let e : (q == p) ≡ false = ground arith in rw e refl;
          rest = refl;
          valid = valid;
        },
      )

  -- `p` has no current directory any more.
  abbrev dropped : (p : ℕ) → Procs W → Procs W
  dropped p s = record (set_proc p (λ x. record x { p_cwd = null }) s) {
    rest = ops.vop_decref s.rest (s.procs p).p_cwd;
  }

  destroy_dropped :
      (s : Procs W) (p : ℕ)
      → (s.procs p).p_cwd ≢ 0
      → proc_destroy ops p s ≡ proc_destroy ops p (dropped p s)
  unfolding proc_destroy
  destroy_dropped s p cwd =
      let self = ==_refl p in
      let a_cwd : ((s.procs p).p_cwd == null) ≡ false = ground arith in
      elim (Bool-cases (p == null)) [
        | inl e ↦ rw e refl
        | inr e ↦ elim (Bool-cases (p == s.kproc)) [
          | inl t ↦ rw (e, t) refl
          | inr t ↦ rw (e, t, a_cwd, self) refl
        ]
      ]

  -- proc_destroy of a process that has ended, is not current and is in the table returns: it gives its
  -- current directory and its address space back, and frees its pid; the table stays valid.
  pub proc_destroy-Destroyed :
      (s : Procs W) (p count : ℕ) (w : W)
      → TableOk s
      → p ≢ 0
      → p ≢ s.kproc
      → p ≢ curproc s
      → get_elem? s.process_table.proc (s.procs p).p_pid ≡ some p
      → (s.procs p).p_sem ≡ some (empty_sem count)
      → (s.procs p).p_numthreads ≡ 0
      → (s.procs p).p_addrspace ≢ 0
      → ops.as_destroy (s.procs p).p_addrspace (without_cwd p s) ≡ ok tt w
      → (s' : Procs W) × (proc_destroy ops p s ≡ ok tt s') × Destroyed p w s s'
  proc_destroy-Destroyed s p count w v live not_k not_cur here sem threads space gone =
      elim (Bool-cases ((s.procs p).p_cwd == null)) [
        | inl e ↦
            destroy_bare s p count w v live not_k not_cur here sem threads space (ground arith)
              (rw e at gone)
        | inr e ↦
            let self = ==_refl p in
            let v1 =
              TableOk-set_proc s p (λ x. record x { p_cwd = null })
                (ops.vop_decref s.rest (s.procs p).p_cwd) (λ x. refl) v in
            let (s', run, d) =
              destroy_bare (dropped p s) p count w v1 live not_k not_cur (rw self here)
                (rw self sem) (rw self threads) (rw self space) (rw self refl)
                (rw self (rw e at gone)) in
            let same : ((dropped p s).procs p).p_pid ≡ (s.procs p).p_pid = rw self refl in
            (
              s',
              destroy_dropped s p (λ z. ground arith) ∙ run,
              record {
                free = rw same at d.free;
                entries = rw same at d.entries;
                processes =
                    λ q ne. let t : (q == p) ≡ false = ground arith in d.processes q ne ∙ rw t refl;
                rest = d.rest;
                valid = d.valid;
              },
            )
      ]
