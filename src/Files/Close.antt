-- ===== src/Files/Close.antt =====
-- sys_close keeps the counts, and closes the vnode with the last reference.
use paging_os.Base.{
  ℕ, suc, ◌+◌, ◌-◌, ◌%◌, ◌<◌, ◌≤◌, ◌≡◌, ◌≢◌, refl, ◌⊎◌, inl, inr, true, false, some, List, arith,
  ◌==◌, if◌then◌else◌, get_elem?, get_elem?_of_lt, set, update, length, ltb, length-update,
  Bool-cases, ==_refl, ℤ, pos, minus_one, get_elem?-update, ◌∙◌, sym,
}
use paging_os.Machine.{u32, ok}
use paging_os.Machine.Platform.{VfsOps}
use paging_os.Files.{OpenFile, Files, set_entry, sys_close, drop_ref, entry_of, file_at}
use paging_os.Files.Counts.{refs, refs-set, refs-pos, SlotOk, FilesOk, sizes-set}

-- The slot after one of its references is dropped.
abbrev pub dropped : OpenFile → OpenFile
dropped of =
    if ltb 1 of.count_ref
    then record of { count_ref = of.count_ref - 1 }
    else record of { vn = 0; count_ref = of.count_ref - 1 }

-- The slot whose reference is dropped keeps its count right.
slot_here : (n m : ℕ) (of : OpenFile) → SlotOk n of → of.vn ≢ 0 → m + 1 ≡ n → SlotOk m (dropped of)
slot_here n m of v ne h =
    let c = v.used ne in
    elim (Bool-cases (ltb 1 of.count_ref)) [
      | inl t ↦ rw t (record { used = λ z. omega (arith, c, h); unused = λ z. absurd (ne z) })
      | inr t ↦
          let small : m ≡ 0 = ground arith in
          rw t (record { used = λ z. absurd (z refl); unused = λ z. small })
    ]

module _ {W : Type 0} (ops : VfsOps W) (open_max : ℕ) where
  -- What dropping a reference to slot `j` does: the last one frees the slot and closes the vnode.
  pub record Dropped (j : ℕ) (of : OpenFile) (s s' : Files W) : Type 0 where
    pub here : get_elem? s'.system j ≡ some (dropped of)
    pub others : (x : ℕ) → j ≢ x → get_elem? s'.system x ≡ get_elem? s.system x
    pub size : length s'.system ≡ length s.system
    pub tables : s'.tables ≡ s.tables
    pub vfs : s'.vfs ≡ (if ltb 1 of.count_ref then s.vfs else ops.vfs_close s.vfs of.vn)

  drop_ref-Dropped :
      (s : Files W) (j : ℕ) (of : OpenFile)
      → get_elem? s.system j ≡ some of
      → of.vn ≢ 0
      → 0 < of.count_ref
      → of.count_ref < u32
      → (s' : Files W) × (drop_ref ops open_max j s ≡ ok (pos 0) s') × Dropped j of s s'
  unfolding drop_ref file_at
  drop_ref-Dropped s j of q ne lo hi =
      let less = λ (o : OpenFile). record o { count_ref = (o.count_ref + u32 - 1) % u32 } in
      let gone = λ (o : OpenFile). record o { vn = 0 } in
      let self = ==_refl j in
      let n : (of.count_ref + u32 - 1) % u32 ≡ of.count_ref - 1 = omega arith in
      let at1 : get_elem? (update s.system j less) j
          ≡ some (record of { count_ref = of.count_ref - 1 }) =
        get_elem?-update s.system j j less ∙ rw (self, q, n) in
      let live : (of.vn == 0) ≡ false = ground arith in
      elim (Bool-cases (ltb 1 of.count_ref)) [
        | inl t ↦
            let t' : ltb 0 (of.count_ref - 1) ≡ true = ground arith in
            (
              record s { system = update s.system j less },
              ground arith,
              record {
                here = rw t at1;
                others = λ x d.
                    let e : (j == x) ≡ false = ground arith in
                    get_elem?-update s.system j x less ∙ rw e;
                size = length-update s.system j less;
                tables = refl;
                vfs = rw t;
              },
            )
        | inr t ↦
            let t' : ltb 0 (of.count_ref - 1) ≡ false = ground arith in
            let sys2 = update (update s.system j less) j gone in
            (
              record s { system = sys2; vfs = ops.vfs_close s.vfs of.vn },
              ground arith,
              record {
                here = rw t (get_elem?-update (update s.system j less) j j gone ∙ rw (self, at1));
                others = λ x d.
                    let e : (j == x) ≡ false = ground arith in
                    get_elem?-update (update s.system j less) j x gone
                    ∙ rw e (get_elem?-update s.system j x less ∙ rw e);
                size =
                    length-update (update s.system j less) j gone ∙ length-update s.system j less;
                tables = refl;
                vfs = rw t;
              },
            )
      ]

  -- The counts after an entry that pointed to slot `j` was cleared, and the reference dropped.
  Dropped-FilesOk :
      (s s' : Files W) (fd j : ℕ) (of : OpenFile) (table : List ℕ)
      → FilesOk open_max s
      → get_elem? s.tables s.cur ≡ some table
      → get_elem? table fd ≡ some (suc j)
      → get_elem? s.system j ≡ some of
      → Dropped j of (set_entry s.cur fd 0 s) s'
      → FilesOk open_max s'
  Dropped-FilesOk s s' fd j of table v at_cur at_fd at_j d =
      let tables' = update s.tables s.cur (λ t. set t fd 0) in
      let less = λ (x : ℕ).
        let h : refs tables' x + (if suc x == suc j then 1 else 0) ≡ refs s.tables x =
          ground (arith, refs-set s.tables s.cur fd (suc j) 0 x table at_cur at_fd) in
        h in
      let pointed = refs-pos s.tables s.cur fd j table at_cur at_fd in
      let live : of.vn ≢ 0 =
        λ z. let n = (v.slots j of at_j).unused z in absurd (omega (arith, n, pointed)) in
      let fewer =
        λ (x : ℕ). let h : refs tables' x ≤ refs s.tables x = ground (arith, less x) in h in
      record {
        slots = λ x o q. rw d.tables (elim (Bool-cases (j == x)) [
          | inl e ↦
              let z : j ≡ x = ground arith in
              let here : get_elem? s'.system j ≡ some o = rw z q in
              let same : dropped of ≡ o = cc (here, d.here) in
              let was : SlotOk (refs s.tables x) of = rw (← z) (v.slots j of at_j) in
              let one : refs tables' x + 1 ≡ refs s.tables x = ground (arith, less x) in
              rw (← same) (slot_here (refs s.tables x) (refs tables' x) of was live one)
          | inr e ↦
              let old = v.slots x o (sym (d.others x (ground arith)) ∙ q) in
              let same : refs tables' x ≡ refs s.tables x = ground (arith, less x) in rw same old
        ]);
        in_range = λ x h.
            let h' : 0 < refs tables' x = rw d.tables at h in
            rw d.size (omega (arith, h', fewer x, v.in_range x));
        sizes = rw d.tables (sizes-set s.tables open_max s.cur fd 0 v.sizes);
        few = λ x. rw d.tables (omega (arith, fewer x, v.few x));
      }

  -- What closing `fd` returns and leaves: an entry that is NULL is refused, and any other entry is
  -- cleared and gives its reference back.
  abbrev pub Closed : (fd : ℕ) → (table : List ℕ) → (result : ℤ) → (s s' : Files W) → Type 0
  Closed fd table result s s' =
      ((get_elem? table fd ≡ some 0) × (result ≡ minus_one) × (s' ≡ s))
      ⊎ ((j : ℕ) × (of : OpenFile) × (get_elem? table fd ≡ some (suc j))
          × (get_elem? s.system j ≡ some of)
          × (result ≡ pos 0)
          × Dropped j of (set_entry s.cur fd 0 s) s')

  sys_close_slot :
      (s : Files W) (table : List ℕ) (fd j : ℕ)
      → FilesOk open_max s
      → get_elem? s.tables s.cur ≡ some table
      → fd < open_max
      → get_elem? table fd ≡ some (suc j)
      → (result : ℤ) × (s' : Files W) × (sys_close ops open_max (pos fd) s ≡ ok result s')
        × FilesOk open_max s'
        × Closed fd table result s s'
  unfolding sys_close entry_of
  sys_close_slot s table fd j v at_cur lo at_fd =
      let pointed = refs-pos s.tables s.cur fd j table at_cur at_fd in
      let (of, at_j) = get_elem?_of_lt s.system j (v.in_range j pointed) in
      let live : of.vn ≢ 0 =
        λ z. let n = (v.slots j of at_j).unused z in absurd (omega (arith, n, pointed)) in
      let n = (v.slots j of at_j).used live in
      let few = v.few j in
      let (s', run, d) =
        drop_ref-Dropped (set_entry s.cur fd 0 s) j of at_j live (omega arith) (omega arith) in
      let inside : ltb open_max fd ≡ false = ground arith in
      (
        pos 0,
        s',
        ground arith,
        Dropped-FilesOk s s' fd j of table v at_cur at_fd at_j d,
        inr (j, of, at_fd, at_j, refl, d),
      )

  -- When the counts are right, sys_close of a number below OPEN_MAX returns and keeps them right:
  -- it refuses an entry that is NULL and changes nothing, and it clears any other entry, frees the
  -- slot of the open file and closes its vnode exactly with the last reference, and returns 0.
  pub sys_close-FilesOk :
      (s : Files W) (table : List ℕ) (fd : ℕ)
      → FilesOk open_max s
      → get_elem? s.tables s.cur ≡ some table
      → fd < open_max
      → (result : ℤ) × (s' : Files W) × (sys_close ops open_max (pos fd) s ≡ ok result s')
        × FilesOk open_max s'
        × Closed fd table result s s'
  unfolding sys_close entry_of
  sys_close-FilesOk s table fd v at_cur lo =
      let size = v.sizes s.cur table at_cur in
      let inside : ltb open_max fd ≡ false = ground arith in
      let (e, at_fd) = get_elem?_of_lt table fd (omega arith) in
      elim (Bool-cases (e == 0)) [
        | inl t ↦
            let z : e ≡ 0 = ground arith in
            let q : get_elem? table fd ≡ some 0 = rw (← z) at_fd in
            (minus_one, s, ground arith, v, inl (q, refl, refl))
        | inr t ↦
            let z : e ≡ suc (e - 1) = ground arith in
            let q : get_elem? table fd ≡ some (suc (e - 1)) = rw (← z) at_fd in
            sys_close_slot s table fd (e - 1) v at_cur lo q
      ]
