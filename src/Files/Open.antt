-- ===== src/Files/Open.antt =====
-- sys_open takes the first free slot and the first free entry, and keeps the counts.
use paging_os.Base.{
  ℕ, zero, suc, ◌+◌, ◌-◌, ◌<◌, ◌≤◌, ◌≡◌, ◌≢◌, refl, ◌⊎◌, inl, inr, not, ◌&&◌, none, some, List, [],
  ◌∷◌, arith, ◌==◌, if◌then◌else◌, get_elem?, set, update, ltb, length-update, Bool-cases,
  Option-cases, ℤ, pos, minus_one, get_elem?-update, get_elem?-lt, ◌∙◌, sym,
}
use paging_os.Machine.{ok, Status, success, err, enfile, emfile}
use paging_os.Machine.Platform.{VfsOps, VfsLaws}
use paging_os.Files.{
  OpenFile, Files, set_entry, update_file, sys_open, open_in_process, find_slot, find_fd, first_fd,
}
use paging_os.Files.Counts.{refs, refs-set, FilesOk, sizes-set}

-- What the search of the system table finds.
find_slot-some :
    (files : List OpenFile) (i j : ℕ)
    → find_slot files i ≡ some j
    → (of : OpenFile) × (i ≤ j) × (get_elem? files (j - i) ≡ some of) × (of.vn ≡ 0)
unfolding find_slot
find_slot-some [] i j h = absurd (cc h)
find_slot-some (of ∷ files) i j h = elim (Bool-cases (of.vn == 0)) [
  | inl e ↦
      let q : some i ≡ some j = rw e at h in
      let z : i ≡ j = cc q in
      (of, omega arith, rw (← z) (let d : i - i ≡ 0 = omega arith in rw d refl), ground arith)
  | inr e ↦
      let (o, lo, here, free) = find_slot-some files (i + 1) j (rw e at h) in
      let d : j - i ≡ suc (j - (i + 1)) = omega arith in (o, omega arith, rw d here, free)
]

find_slot-none :
    (files : List OpenFile) (i k : ℕ) (of : OpenFile)
    → find_slot files i ≡ none
    → get_elem? files k ≡ some of
    → of.vn ≢ 0
unfolding find_slot
find_slot-none [] i k of h q = absurd (cc q)
find_slot-none (o ∷ files) i zero of h q = elim (Bool-cases (o.vn == 0)) [
  | inl e ↦ let z : some i ≡ none = rw e at h in cc z
  | inr e ↦ let z : o ≡ of = cc q in λ w. ground (arith, z)
]
find_slot-none (o ∷ files) i (suc k) of h q = elim (Bool-cases (o.vn == 0)) [
  | inl e ↦ let z : some i ≡ none = rw e at h in cc z
  | inr e ↦ find_slot-none files (i + 1) k of (rw e at h) q
]

-- What the search of a process's table finds.
find_fd-some :
    (table : List ℕ) (from i fd : ℕ)
    → find_fd table from i ≡ some fd
    → (i ≤ fd) × (from ≤ fd) × (get_elem? table (fd - i) ≡ some 0)
unfolding find_fd
find_fd-some [] from i fd h = absurd (cc h)
find_fd-some (e ∷ table) from i fd h = elim (Bool-cases (not (ltb i from) && (e == 0))) [
  | inl t ↦
      let q : some i ≡ some fd = rw t at h in
      let z : i ≡ fd = cc q in
      let free : e ≡ 0 = ground arith in
      let d : fd - i ≡ 0 = omega arith in (omega arith, ground arith, rw (d, free) refl)
  | inr t ↦
      let (lo, far, here) = find_fd-some table from (i + 1) fd (rw t at h) in
      let d : fd - i ≡ suc (fd - (i + 1)) = omega arith in (omega arith, far, rw d here)
]

find_fd-none :
    (table : List ℕ) (from i k e : ℕ)
    → find_fd table from i ≡ none
    → get_elem? table k ≡ some e
    → from ≤ i + k
    → e ≢ 0
unfolding find_fd
find_fd-none [] from i k e h q lo = absurd (cc q)
find_fd-none (o ∷ table) from i zero e h q lo = elim (Bool-cases (not (ltb i from) && (o == 0))) [
  | inl t ↦ let z : some i ≡ none = rw t at h in cc z
  | inr t ↦ let z : o ≡ e = cc q in λ w. ground (arith, z)
]
find_fd-none (o ∷ table) from i (suc k) e h q lo =
    elim (Bool-cases (not (ltb i from) && (o == 0))) [
      | inl t ↦ let z : some i ≡ none = rw t at h in cc z
      | inr t ↦ find_fd-none table from (i + 1) k e (rw t at h) q (omega arith)
    ]

-- The open file of a fresh vnode.
abbrev pub opened : (v : ℕ) → OpenFile
opened v = record { vn = v; offset = 0; count_ref = 1 }

-- The slot that the search found, once it is filled and an entry points to it.
FilesOk-opened :
    {W : Type 0} (open_max : ℕ) (s : Files W) (w : W) (v j fd : ℕ) (of : OpenFile) (table : List ℕ)
    → FilesOk open_max s
    → v ≢ 0
    → get_elem? s.tables s.cur ≡ some table
    → get_elem? table fd ≡ some 0
    → get_elem? s.system j ≡ some of
    → of.vn ≡ 0
    → FilesOk open_max
        (set_entry s.cur fd (suc j) (update_file j (λ _. opened v) (record s { vfs = w })))
FilesOk-opened open_max s w v j fd of table valid live at_cur at_fd at_j free =
    let tables' = update s.tables s.cur (λ t. set t fd (suc j)) in
    let more = λ (x : ℕ).
      let h : refs tables' x ≡ refs s.tables x + (if x == j then 1 else 0) =
        ground (arith, refs-set s.tables s.cur fd 0 (suc j) x table at_cur at_fd) in
      h in
    let none_yet = (valid.slots j of at_j).unused free in
    record {
      slots = λ x o q.
          let from = get_elem?-update s.system j x (λ _. opened v) in
          elim (Bool-cases (j == x)) [
            | inl e ↦
                let z : j ≡ x = ground arith in
                let at_x : get_elem? s.system x ≡ some of = rw (← z) at_j in
                let same : opened v ≡ o = cc (q, rw (e, at_x) at from) in
                let one : refs tables' x ≡ 1 = ground (arith, more x, z, none_yet) in
                rw (← same, one) (record { used = λ h. refl; unused = λ h. absurd (live h) })
            | inr e ↦
                let old = valid.slots x o (sym (rw e at from) ∙ q) in
                let same : refs tables' x ≡ refs s.tables x = ground (arith, more x) in rw same old
          ];
      in_range = λ x h.
          let size = length-update s.system j (λ _. opened v) in
          let low = get_elem?-lt s.system j at_j in
          let was = valid.in_range x in
          elim (Bool-cases (x == j)) [
            | inl e ↦ ground arith
            | inr e ↦
                let some_yet : 0 < refs s.tables x = ground (arith, more x) in
                omega (arith, size, was some_yet)
          ];
      sizes = sizes-set s.tables open_max s.cur fd (suc j) valid.sizes;
      few = λ x. elim (Bool-cases (x == j)) [
        | inl e ↦ let z : x ≡ j = ground arith in ground (arith, more x, z, none_yet)
        | inr e ↦ ground (arith, more x, valid.few x)
      ];
    }

module _ {W : Type 0} (ops : VfsOps W) (laws : VfsLaws ops) (open_max : ℕ) where
  -- What sys_open returns and leaves when vfs_open gave vnode `v` and the files `w`.
  -- No slot: ENFILE, and the vnode is closed. A slot and an entry: the entry points to the slot.
  -- A slot and no entry: EMFILE, the vnode is closed, and the slot stays taken.
  abbrev pub Opened : (v : ℕ) → (w : W) → (result : ℤ × Status) → (s s' : Files W) → Type 0
  Opened v w result s s' =
      ((result ≡ (minus_one, err enfile))
        × (s' ≡ record s { vfs = ops.vfs_close w v })
        × ((x : ℕ) (of : OpenFile) → get_elem? s.system x ≡ some of → of.vn ≢ 0))
      ⊎ ((j : ℕ) × (of : OpenFile) × (table : List ℕ) × (get_elem? s.system j ≡ some of)
          × (of.vn ≡ 0)
          × (get_elem? s.tables s.cur ≡ some table)
          × (((fd : ℕ) × (result ≡ (pos fd, success))
                × (first_fd ≤ fd)
                × (get_elem? table fd ≡ some 0)
                × (s'
                    ≡ set_entry s.cur fd (suc j)
                        (update_file j (λ _. opened v) (record s { vfs = w })))
                × FilesOk open_max s')
              ⊎ ((result ≡ (minus_one, err emfile))
                  × (s' ≡ update_file j (λ _. opened v) (record s { vfs = ops.vfs_close w v }))
                  × ((fd e : ℕ) → get_elem? table fd ≡ some e → first_fd ≤ fd → e ≢ 0))))

  -- When the counts are right and vfs_open succeeds, sys_open returns: with ENFILE exactly when
  -- every slot of the system table is taken, otherwise it takes a free slot, and returns a
  -- descriptor from 3 on that was free and now points to that slot, with the counts right again,
  -- or EMFILE exactly when every entry from 3 on is taken.
  pub sys_open-Opened :
      (s : Files W) (table : List ℕ) (path openflags mode v : ℕ) (w : W)
      → FilesOk open_max s
      → get_elem? s.tables s.cur ≡ some table
      → ops.vfs_open s.vfs path openflags mode ≡ (0, v, w)
      → (result : ℤ × Status) × (s' : Files W) × (sys_open ops open_max path openflags mode s
          ≡ ok result s')
        × Opened v w result s s'
  unfolding sys_open open_in_process
  sys_open-Opened s table path openflags mode v w valid at_cur opens =
      let live : v ≢ 0 =
        λ z. laws.open-vnode s.vfs path openflags mode (rw opens refl) (rw opens z) in
      elim (Option-cases (find_slot s.system 0)) [
        | inl q ↦ (
          (minus_one, err enfile),
          record s { vfs = ops.vfs_close w v },
          ground arith,
          inl (refl, refl, λ x of here. find_slot-none s.system 0 x of q here),
        )
        | inr (j, q) ↦
            let (of, _, at_j', free) = find_slot-some s.system 0 j q in
            let at_j : get_elem? s.system j ≡ some of = ground arith in
            elim (Option-cases (find_fd table first_fd 0)) [
              | inl t ↦ (
                (minus_one, err emfile),
                update_file j (λ _. opened v) (record s { vfs = ops.vfs_close w v }),
                ground arith,
                inr (
                  j,
                  of,
                  table,
                  at_j,
                  free,
                  at_cur,
                  inr (
                    refl,
                    refl,
                    λ fd e here lo. find_fd-none table first_fd 0 fd e t here (omega arith),
                  ),
                ),
              )
              | inr (fd, t) ↦
                  let (_, lo, at_fd') = find_fd-some table first_fd 0 fd t in
                  let at_fd : get_elem? table fd ≡ some 0 = ground arith in
                  (
                    (pos fd, success),
                    set_entry s.cur fd (suc j)
                        (update_file j (λ _. opened v) (record s { vfs = w })),
                    ground arith,
                    inr (
                      j,
                      of,
                      table,
                      at_j,
                      free,
                      at_cur,
                      inl (
                        fd,
                        refl,
                        lo,
                        at_fd,
                        refl,
                        FilesOk-opened open_max s w v j fd of table valid live at_cur at_fd at_j
                            free,
                      ),
                    ),
                  )
            ]
      ]
