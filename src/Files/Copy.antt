-- ===== src/Files/Copy.antt =====
-- proc_file_table_copy gives the new process the open files of the old one, and counts them.
use paging_os.Base.{
  ℕ, zero, suc, ◌+◌, ◌<◌, ◌≤◌, ◌≡◌, ◌≢◌, refl, inl, inr, false, some, List, [], ◌∷◌, arith, ◌==◌,
  if◌then◌else◌, get_elem?, get_elem?_of_lt, set, update, length, length-update, length-set,
  Bool-cases, ==_refl, get_elem?-update, get_elem?-set_self, get_elem?-set_ne, occ, ◌∙◌, sym,
}
use paging_os.Machine.{u32, ok}
use paging_os.Files.{
  OpenFile, Files, set_entry, update_file, entry_of, incr_ref, openfile_incr_ref_count,
  copy_entries, proc_file_table_copy,
}
use paging_os.Files.Counts.{refs, refs-set, refs-pos, SlotOk, FilesOk, sizes-set}

-- The number of entries of all tables.
abbrev pub entries : List (List ℕ) → ℕ
entries [] = 0
entries (table ∷ tables) = length table + entries tables

occ-le : (x : ℕ) (table : List ℕ) → occ x table ≤ length table
occ-le x [] = omega arith
occ-le x (e ∷ table) = ground (arith, occ-le x table)

refs-le : (tables : List (List ℕ)) (j : ℕ) → refs tables j ≤ entries tables
refs-le [] j = omega arith
refs-le (table ∷ tables) j = omega (arith, occ-le (suc j) table, refs-le tables j)

entries-set :
    (tables : List (List ℕ)) (p fd e : ℕ)
    → entries (update tables p λ t. set t fd e) ≡ entries tables
entries-set [] p fd e = refl
entries-set (t ∷ tables) zero fd e = omega (arith, length-set t fd e)
entries-set (t ∷ tables) (suc p) fd e = omega (arith, entries-set tables p fd e)

-- One more reference to a slot in use.
slot_more :
    (n m : ℕ) (of : OpenFile) → SlotOk n of → 0 < n → m ≡ n + 1 → m < u32 → SlotOk m (incr_ref of)
slot_more n m of v pointed e low =
    let live : of.vn ≢ 0 =
      λ z. let none_yet = v.unused z in absurd (omega (arith, none_yet, pointed)) in
    record {
      used = λ ne. let c = v.used ne in omega (arith, c, e, low);
      unused = λ z. absurd (live z);
    }

-- The state after one entry of the table of `dest` was filled with `e`, which was counted.
abbrev filled : {W : Type 0} → (dest fd e : ℕ) → Files W → Files W
filled dest fd zero s = set_entry dest fd 0 s
filled dest fd (suc j) s = update_file j incr_ref (set_entry dest fd (suc j) s)

module _ {W : Type 0} (open_max : ℕ) where
  -- Filling a free entry keeps the counts.
  filled-FilesOk :
      (s : Files W) (src dest fd j : ℕ) (st dt : List ℕ)
      → FilesOk open_max s
      → entries s.tables < u32
      → get_elem? s.tables src ≡ some st
      → get_elem? st fd ≡ some (suc j)
      → get_elem? s.tables dest ≡ some dt
      → get_elem? dt fd ≡ some 0
      → FilesOk open_max (filled dest fd (suc j) s)
  filled-FilesOk s src dest fd j st dt v total at_src there at_dest here =
      let tables' = update s.tables dest (λ t. set t fd (suc j)) in
      let more = λ (x : ℕ).
        let h : refs tables' x ≡ refs s.tables x + (if x == j then 1 else 0) =
          ground (arith, refs-set s.tables dest fd 0 (suc j) x dt at_dest here) in
        h in
      let pointed = refs-pos s.tables src fd j st at_src there in
      let low = v.in_range j pointed in
      let bound = λ (x : ℕ).
        let h : refs tables' x < u32 =
          omega (arith, refs-le tables' x, entries-set s.tables dest fd (suc j), total) in
        h in
      record {
        slots = λ x o q.
            let from = get_elem?-update s.system j x incr_ref in
            let b = bound x in
            elim (Bool-cases (j == x)) [
              | inl e ↦
                  let z : j ≡ x = ground arith in
                  let (of, at_j) = get_elem?_of_lt s.system j low in
                  let at_x : get_elem? s.system x ≡ some of = rw (← z) at_j in
                  let same : incr_ref of ≡ o = cc (q, rw (e, at_x) at from) in
                  let one : refs tables' x ≡ refs s.tables x + 1 = ground (arith, more x) in
                  rw (← same) (
                    slot_more (refs s.tables x) (refs tables' x) of (v.slots x of at_x)
                      (rw (← z) pointed) one b)
              | inr e ↦
                  let old = v.slots x o (sym (rw e at from) ∙ q) in
                  let same : refs tables' x ≡ refs s.tables x = ground (arith, more x) in
                  rw same old
            ];
        in_range = λ x h.
            let size = length-update s.system j incr_ref in
            elim (Bool-cases (x == j)) [
              | inl e ↦ ground arith
              | inr e ↦
                  let yet : 0 < refs s.tables x = ground (arith, more x) in
                  omega (arith, size, v.in_range x yet)
            ];
        sizes = sizes-set s.tables open_max dest fd (suc j) v.sizes;
        few = bound;
      }

  -- Clearing an entry that is NULL keeps the counts.
  cleared-FilesOk :
      (s : Files W) (dest fd : ℕ) (dt : List ℕ)
      → FilesOk open_max s
      → get_elem? s.tables dest ≡ some dt
      → get_elem? dt fd ≡ some 0
      → FilesOk open_max (filled dest fd 0 s)
  cleared-FilesOk s dest fd dt v at_dest here =
      let tables' = update s.tables dest (λ t. set t fd 0) in
      let same = λ (x : ℕ).
        let h : refs tables' x ≡ refs s.tables x =
          ground (arith, refs-set s.tables dest fd 0 0 x dt at_dest here) in
        h in
      record {
        slots = λ x o q. rw (same x) (v.slots x o q);
        in_range = λ x h. v.in_range x (rw (same x) at h);
        sizes = sizes-set s.tables open_max dest fd 0 v.sizes;
        few = λ x. rw (same x) (v.few x);
      }

  -- What copying the entries of `st` from `fd` on does to the table `dt` of `dest`.
  pub record Copied (dest fd : ℕ) (st dt : List ℕ) (s s' : Files W) : Type 0 where
    pub table : List ℕ
    pub there : get_elem? s'.tables dest ≡ some table
    pub new : (k : ℕ) → fd ≤ k → k < open_max → get_elem? table k ≡ get_elem? st k
    pub old : (k : ℕ) → k < fd → get_elem? table k ≡ get_elem? dt k
    pub others : (p : ℕ) → p ≢ dest → get_elem? s'.tables p ≡ get_elem? s.tables p
    pub keeps :
        FilesOk open_max s
        → entries s.tables < u32
        → ((k : ℕ) → fd ≤ k → k < open_max → get_elem? dt k ≡ some 0)
        → FilesOk open_max s'

  copy_entries_step :
      (s : Files W) (src dest rounds fd e : ℕ) (st : List ℕ)
      → get_elem? s.tables src ≡ some st
      → get_elem? st fd ≡ some e
      → copy_entries src dest (suc rounds) fd s
        ≡ copy_entries src dest rounds (fd + 1) (filled dest fd e s)
  unfolding copy_entries entry_of openfile_incr_ref_count
  copy_entries_step s src dest rounds fd zero st at_src there = ground arith
  copy_entries_step s src dest rounds fd (suc j) st at_src there = ground arith

  filled-tables :
      (s : Files W) (dest fd e : ℕ)
      → (filled dest fd e s).tables ≡ update s.tables dest (λ t. set t fd e)
  filled-tables s dest fd zero = refl
  filled-tables s dest fd (suc j) = refl

  filled_keeps :
      (s : Files W) (src dest fd e : ℕ) (st dt : List ℕ)
      → FilesOk open_max s
      → entries s.tables < u32
      → get_elem? s.tables src ≡ some st
      → get_elem? st fd ≡ some e
      → get_elem? s.tables dest ≡ some dt
      → get_elem? dt fd ≡ some 0
      → FilesOk open_max (filled dest fd e s)
  filled_keeps s src dest fd zero st dt v total at_src there at_dest here =
      cleared-FilesOk s dest fd dt v at_dest here
  filled_keeps s src dest fd (suc j) st dt v total at_src there at_dest here =
      filled-FilesOk s src dest fd j st dt v total at_src there at_dest here

  copy_entries-Copied :
      (s : Files W) (src dest rounds fd : ℕ) (st dt : List ℕ)
      → src ≢ dest
      → fd + rounds ≡ open_max
      → get_elem? s.tables src ≡ some st
      → length st ≡ open_max
      → get_elem? s.tables dest ≡ some dt
      → length dt ≡ open_max
      → (s' : Files W) × (copy_entries src dest rounds fd s ≡ ok tt s') × Copied dest fd st dt s s'
  unfolding copy_entries
  copy_entries-Copied s src dest zero fd st dt ne all at_src size at_dest size' = (
    s,
    refl,
    record {
      table = dt;
      there = at_dest;
      new = λ k lo hi. absurd (omega arith);
      old = λ k lo. refl;
      others = λ p d. refl;
      keeps = λ v total free. v;
    },
  )
  copy_entries-Copied s src dest (suc rounds) fd st dt ne all at_src size at_dest size' =
      let (e, here) = get_elem?_of_lt st fd (omega arith) in
      let u = filled dest fd e s in
      let tables = filled-tables s dest fd e in
      let write = λ (t : List ℕ). set t fd e in
      let at_src' : get_elem? u.tables src ≡ some st =
        let d : (dest == src) ≡ false = ground arith in
        rw tables (get_elem?-update s.tables dest src write ∙ rw d at_src) in
      let at_dest' : get_elem? u.tables dest ≡ some (set dt fd e) =
        let self = ==_refl dest in
        rw tables (get_elem?-update s.tables dest dest write ∙ rw (self, at_dest) refl) in
      let (s', run, c) =
        copy_entries-Copied u src dest rounds (fd + 1) st (set dt fd e) ne (omega arith) at_src'
          size at_dest' (length-set dt fd e ∙ size') in
      (
        s',
        copy_entries_step s src dest rounds fd e st at_src here ∙ run,
        record {
          table = c.table;
          there = c.there;
          new = λ k lo hi. elim (Bool-cases (fd == k)) [
            | inl q ↦
                let z : fd ≡ k = ground arith in
                c.old k (omega arith)
                ∙ rw (← z) (get_elem?-set_self dt fd e (omega arith) ∙ sym here)
            | inr q ↦ c.new k (ground arith) hi
          ];
          old = λ k lo.
              c.old k (omega arith) ∙ get_elem?-set_ne dt fd k e (λ z. omega (arith, z, lo));
          others = λ p d.
              let d' : (dest == p) ≡ false = ground arith in
              c.others p d ∙ rw tables (get_elem?-update s.tables dest p write ∙ rw d' refl);
          keeps = λ v total free.
              c.keeps
                (filled_keeps s src dest fd e st dt v total at_src here at_dest
                  (free fd (omega arith) (omega arith)))
                (rw tables (omega (arith, entries-set s.tables dest fd e, total)))
                (λ k lo hi.
                  get_elem?-set_ne dt fd k e (λ z. omega (arith, z, lo)) ∙ free k (omega arith) hi);
        },
      )

  -- proc_file_table_copy between two processes: it returns, the table of the destination has the entries
  -- of the source, and no other table is changed. When the counts were right and the destination had
  -- no open files, the counts are right again.
  pub proc_file_table_copy-Copied :
      (s : Files W) (src dest : ℕ) (st dt : List ℕ)
      → src ≢ dest
      → get_elem? s.tables src ≡ some st
      → length st ≡ open_max
      → get_elem? s.tables dest ≡ some dt
      → length dt ≡ open_max
      → (s' : Files W) × (proc_file_table_copy open_max src dest s ≡ ok tt s')
        × Copied dest 0 st dt s s'
  unfolding proc_file_table_copy
  proc_file_table_copy-Copied s src dest st dt ne at_src size at_dest size' =
      copy_entries-Copied s src dest open_max 0 st dt ne (omega arith) at_src size at_dest size'
