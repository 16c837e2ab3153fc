-- ===== src/Proc/Table.antt =====
-- The table of pids: each index in use is the pid of the process there.
use paging_os.Base.{
  ℕ, ◌+◌, ◌<◌, ◌≤◌, ◌≡◌, ◌≢◌, ap, refl, ◌⊎◌, inl, inr, false, Option, some, arith, ◌==◌, get_elem?,
  get_elem?-lt, get_elem?-set_self, get_elem?-set_ne, ==_refl, length, length-set, Bool-cases,
  Option-cases, sym, ◌∙◌,
}
use paging_os.Machine.{ok, fault, panicked}
use paging_os.Synch.{Semaphore}
use paging_os.Proc.{Procs, max_proc, find_index, next_index, proc_init_waitpid, set_proc, set_entry}
use paging_os.Proc.Index.{IsIndex, Found, find_index-Found, find_index_first, distance_next}

-- The table has its size, and `pid` is the index of every process in it. Before the first pid,
-- index 1 is free.
pub record TableOk {W : Type 0} (s : Procs W) : Type 0 where
  pub size : length s.process_table.proc ≡ max_proc + 1
  pub last : s.process_table.last_i ≤ max_proc
  pub fresh : s.process_table.last_i ≡ 0 → get_elem? s.process_table.proc 1 ≡ some 0
  pub pids :
      (i p : ℕ)
      → get_elem? s.process_table.proc i ≡ some p
      → p ≢ 0
      → (0 < i) × ((s.procs p).p_pid ≡ i)

module _ {W : Type 0} (s : Procs W) where
  -- What proc_init_waitpid does for process `p` with the free index `i`.
  pub record Registered (p i : ℕ) (semaphore : Option Semaphore) (s' : Procs W) : Type 0 where
    pub index : IsIndex i
    pub not_last : i ≢ s.process_table.last_i
    pub free : get_elem? s.process_table.proc i ≡ some 0
    pub here : get_elem? s'.process_table.proc i ≡ some p
    pub others :
        (k : ℕ) → k ≢ i → get_elem? s'.process_table.proc k ≡ get_elem? s.process_table.proc k
    pub last : s'.process_table.last_i ≡ i
    pub pid : (s'.procs p).p_pid ≡ i
    pub sem : (s'.procs p).p_sem ≡ semaphore
    pub processes : (q : ℕ) → q ≢ p → s'.procs q ≡ s.procs q
    pub valid : TableOk s'

  -- Every index of a pid is taken, but for the one given out last.
  abbrev pub Full : Type 0
  Full =
      (k : ℕ)
      → IsIndex k
      → k ≢ s.process_table.last_i
      → (e : ℕ) × (get_elem? s.process_table.proc k ≡ some e) × (e ≢ 0)

  -- the state behind the search
  abbrev cleared : ℕ → Procs W
  cleared p = set_proc p (λ x. record x { p_pid = 0 }) s

  -- The search of proc_init_waitpid ends.
  search-total :
      (p : ℕ)
      → TableOk s
      → (o : Option ℕ) × (find_index s.process_table.last_i
            (max_proc + 1)
            (next_index s.process_table.last_i)
            (cleared p)
          ≡ ok o (cleared p))
        × Found (cleared p) s.process_table.last_i (next_index s.process_table.last_i) o
  search-total p v = elim (Bool-cases (s.process_table.last_i == 0)) [
    | inl e ↦
        let z : s.process_table.last_i ≡ 0 = ground arith in
        let free = v.fresh z in
        let n : next_index s.process_table.last_i ≡ 1 = ground arith in
        let ne : 1 ≢ s.process_table.last_i = λ w. omega (arith, w, z) in
        (
          some 1,
          rw n (find_index_first (cleared p) s.process_table.last_i max_proc 1 ne free),
          ((omega arith, omega arith), ne, free),
        )
    | inr e ↦
        let low = v.last in
        find_index-Found (cleared p) s.process_table.last_i (max_proc + 1)
          (next_index s.process_table.last_i) v.size (ground arith) (ground arith) (ground arith)
  ]

  -- the state behind proc_init_waitpid that found index `i`
  abbrev registered : (p i : ℕ) → Option Semaphore → Procs W
  registered p i semaphore =
      let u = set_entry i p (cleared p) in
      set_proc p (λ x. record x { p_status = 0; p_sem = semaphore })
        (set_proc p (λ x. record x { p_pid = i })
          (record u { process_table = record u.process_table { last_i = i } }))

  -- Only `p` has another pid there.
  registered-procs :
      (p i : ℕ) (semaphore : Option Semaphore) (q : ℕ)
      → q ≢ p
      → (registered p i semaphore).procs q ≡ s.procs q
  registered-procs p i semaphore q ne = let e : (q == p) ≡ false = ground arith in rw e

  registered-TableOk :
      (p i : ℕ) (semaphore : Option Semaphore)
      → TableOk s
      → ((k : ℕ) → get_elem? s.process_table.proc k ≢ some p)
      → IsIndex i
      → TableOk (registered p i semaphore)
  registered-TableOk p i semaphore v unused (lo, hi) = record {
    size = length-set s.process_table.proc i p ∙ v.size;
    last = hi;
    fresh = λ z. absurd (omega (arith, z));
    pids = λ k q h live. elim (Bool-cases (i == k)) [
      | inl e ↦
          let z : i ≡ k = ground arith in
          let low = v.size in
          let here = get_elem?-set_self s.process_table.proc i p (omega arith) in
          let same : p ≡ q = cc (here, h, z) in
          let self = ==_refl p in (omega arith, rw (← same, self) z)
      | inr e ↦
          let there = get_elem?-set_ne s.process_table.proc i k p (λ w. ground arith) in
          let h' = sym there ∙ h in
          let ne : q ≢ p = λ w. unused k (rw w at h') in
          let (a, b) = v.pids k q h' live in
          (a, ap (λ x. x.p_pid) (registered-procs p i semaphore q ne) ∙ b)
    ];
  }

  -- proc_init_waitpid of a process that is not in the table: it registers the process under an index
  -- that was free, changes no other entry and no other process, and keeps the table valid; it panics
  -- only if every index but the one given out last is taken. The search always ends.
  pub proc_init_waitpid-Registered :
      (p : ℕ) (semaphore : Option Semaphore)
      → TableOk s
      → p ≢ 0
      → ((k : ℕ) → get_elem? s.process_table.proc k ≢ some p)
      → ((i : ℕ) × (s' : Procs W) × (proc_init_waitpid p semaphore s ≡ ok tt s')
          × Registered p i semaphore s')
        ⊎ ((proc_init_waitpid p semaphore s ≡ fault panicked) × Full)
  unfolding proc_init_waitpid
  proc_init_waitpid-Registered p semaphore v live unused =
      let (o, run, found) = search-total p v in
      elim (Option-cases o) [
        | inl q ↦
            let run = rw q at run in
            let found = rw q at found in
            inr (
              rw run refl,
              λ k hk nk. found k hk nk (distance_next s.process_table.last_i k v.last hk nk),
            )
        | inr (i, q) ↦
            let run = rw q at run in
            let found = rw q at found in
            let (index, not_last, free) = found in
            let self = ==_refl p in
            inl (
              i,
              registered p i semaphore,
              rw run refl,
              record {
                index = index;
                not_last = not_last;
                free = free;
                here =
                    get_elem?-set_self s.process_table.proc i p
                      (get_elem?-lt s.process_table.proc i free);
                others = λ k ne. get_elem?-set_ne s.process_table.proc i k p (λ w. ne (sym w));
                last = refl;
                pid = rw self refl;
                sem = rw self refl;
                processes = λ q ne. registered-procs p i semaphore q ne;
                valid = registered-TableOk p i semaphore v unused index;
              },
            )
      ]
