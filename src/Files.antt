-- ===== src/Files.antt =====
-- kern/syscall/file_syscalls.c with OPT_FILE, and proc_file_table_copy of kern/proc/proc.c: the
-- system-wide table of open files, the file tables of the processes, and the system calls on them.
pub mod Counts
pub mod Close
pub mod Open
pub mod Copy
use paging_os.Base.{
  ℕ, zero, suc, ◌+◌, ◌-◌, ◌*◌, ◌%◌, ◌^◌, Bool, true, false, not, ◌&&◌, ◌||◌, Option, none, some,
  List, [], ◌∷◌, ltb, ◌==◌, if◌then◌else◌, get_elem?, set, update, length, ℤ, pos, negsuc, to_int,
  minus_one,
}
use paging_os.Machine.{
  u32, Cmd, pure, fail, get, modify, ◌>>=◌, ◌>>◌, wild_access, ok, fault, Status, success, err,
  enoent, enfile, emfile,
}
use paging_os.Machine.Platform.{VfsOps}

-- `struct openfile`; a vnode that is 0 is NULL, and the slot is free.
pub record OpenFile : Type 0 where
  pub vn : ℕ
  pub offset : ℕ
  pub count_ref : ℕ

-- systemFileTable, the fileTable of each process, which process is current, and the files.
-- An entry of a fileTable is 0 for NULL, and `suc j` for a pointer to slot `j`.
pub record Files (W : Type 0) : Type 0 where
  pub system : List OpenFile
  pub tables : List (List ℕ)
  pub cur : ℕ
  pub vfs : W

-- The entry of a process at `fd`. Outside its table lies other memory.
unfoldable pub entry_of : {W : Type 0} → (process fd : ℕ) → Cmd (Files W) ℕ
entry_of process fd s = elim (get_elem? s.tables process) [
  | none ↦ fault wild_access
  | some table ↦ elim (get_elem? table fd) [ none ↦ fault wild_access | some e ↦ ok e s ]
]

abbrev pub fd_entry : {W : Type 0} → (fd : ℕ) → Cmd (Files W) ℕ
fd_entry fd s = entry_of s.cur fd s

abbrev pub set_entry : {W : Type 0} → (process fd entry : ℕ) → Files W → Files W
set_entry process fd entry s = record s {
  tables = update s.tables process λ table. set table fd entry;
}

abbrev pub update_file : {W : Type 0} → (slot : ℕ) → (OpenFile → OpenFile) → Files W → Files W
update_file slot f s = record s { system = update s.system slot f }

-- The slot that an entry points to.
unfoldable pub file_at : {W : Type 0} → (slot : ℕ) → Cmd (Files W) OpenFile
file_at slot s = elim (get_elem? s.system slot) [ none ↦ fault wild_access | some of ↦ ok of s ]

abbrev pub incr_ref : OpenFile → OpenFile
incr_ref of = record of { count_ref = (of.count_ref + 1) % u32 }

-- openfileIncrRefCount
unfoldable pub openfile_incr_ref_count : {W : Type 0} → (entry : ℕ) → Cmd (Files W) (Unit {0})
openfile_incr_ref_count zero = pure tt
openfile_incr_ref_count (suc j) = modify (update_file j incr_ref)

-- The first free slot of systemFileTable, from `i` on.
unfoldable pub find_slot : List OpenFile → (i : ℕ) → Option ℕ
find_slot [] i = none
find_slot (of ∷ files) i = let rest = find_slot files (i + 1) in if of.vn == 0 then some i else rest

-- The first NULL entry of a fileTable at or behind `from`; the list starts at index `i`.
unfoldable pub find_fd : List ℕ → (from i : ℕ) → Option ℕ
find_fd [] from i = none
find_fd (e ∷ table) from i =
    let rest = find_fd table from (i + 1) in if not (ltb i from) && (e == 0) then some i else rest

-- STDERR_FILENO + 1
abbrev pub first_fd : ℕ
first_fd = 3

-- `fd < 0 || fd > OPEN_MAX`
abbrev pub bad_fd : (open_max : ℕ) → ℤ → Bool
bad_fd open_max (negsuc n) = true
bad_fd open_max (pos fd) = ltb open_max fd

abbrev pub fd_index : ℤ → ℕ
fd_index (pos fd) = fd
fd_index (negsuc n) = 0

module _ {W : Type 0} (ops : VfsOps W) (open_max : ℕ) where
  -- file_read and file_write, which differ in the vnode operation only
  unfoldable pub file_transfer :
      (W → (vnode offset buf size : ℕ) → ℕ × ℕ × ℕ × W)
      → (fd : ℤ) → (buf size : ℕ) → Cmd (Files W) ℤ
  unfolding entry_of file_at
  file_transfer vop fd buf size = if bad_fd open_max fd then pure minus_one else do
    entry ← fd_entry (fd_index fd)
    elim entry [
      | zero ↦ pure minus_one
      | suc j ↦ do
        of ← file_at j
        s ← get
        if of.vn == 0
            then pure minus_one
            else let (result, offset, resid, vfs) = vop s.vfs of.vn of.offset buf size in
              do
                modify (λ s. record s { vfs = vfs })
                if result == 0
                    then (do
                      modify (update_file j (λ of. record of { offset = offset }))
                      pure (to_int ((size + u32 - resid) % u32)))
                    else pure (to_int result)
    ]

  abbrev pub file_read : (fd : ℤ) → (buf size : ℕ) → Cmd (Files W) ℤ
  file_read = file_transfer ops.vop_read_user

  abbrev pub file_write : (fd : ℤ) → (buf size : ℕ) → Cmd (Files W) ℤ
  file_write = file_transfer ops.vop_write_user

  -- sys_open behind the search of the system table, which has put the vnode into slot `j`.
  unfoldable pub open_in_process : (v j : ℕ) → Cmd (Files W) (ℤ × Status)
  open_in_process v j s = elim (get_elem? s.tables s.cur) [
    | none ↦ fault wild_access
    | some table ↦ elim (find_fd table first_fd 0) [
      | some fd ↦ ok (pos fd, success) (set_entry s.cur fd (suc j) s)
      | none ↦ ok (minus_one, err emfile) (record s { vfs = ops.vfs_close s.vfs v })
    ]
  ]

  -- The value that sys_open returns, and what it stores through `errp`; `success` stands for
  -- nothing.
  unfoldable pub sys_open : (path openflags mode : ℕ) → Cmd (Files W) (ℤ × Status)
  unfolding open_in_process
  sys_open path openflags mode = do
    s ← get
    let (result, v, vfs) = ops.vfs_open s.vfs path openflags mode
    modify (λ s. record s { vfs = vfs })
    if result == 0
        then (elim (find_slot s.system 0) [
          | none ↦ do
            modify (λ s. record s { vfs = ops.vfs_close s.vfs v })
            pure (minus_one, err enfile)
          | some j ↦ do
            modify (update_file j (λ _. record { vn = v; offset = 0; count_ref = 1 }))
            open_in_process v j
        ])
        else pure (minus_one, err enoent)

  -- sys_close behind `curproc->fileTable[fd] = NULL`, for slot `j`
  unfoldable pub drop_ref : (j : ℕ) → Cmd (Files W) ℤ
  unfolding file_at
  drop_ref j = do
    modify (update_file j (λ of. record of { count_ref = (of.count_ref + u32 - 1) % u32 }))
    of ← file_at j
    if ltb 0 of.count_ref then pure (pos 0) else do
      modify (update_file j (λ of. record of { vn = 0 }))
      if of.vn == 0
          then pure minus_one
          else do modify (λ s. record s { vfs = ops.vfs_close s.vfs of.vn }); pure (pos 0)

  unfoldable pub sys_close : (fd : ℤ) → Cmd (Files W) ℤ
  unfolding entry_of drop_ref
  sys_close fd = if bad_fd open_max fd then pure minus_one else do
    entry ← fd_entry (fd_index fd)
    elim entry [
      | zero ↦ pure minus_one
      | suc j ↦ do s ← get; modify (set_entry s.cur (fd_index fd) 0); drop_ref j
    ]

  -- The loops over the console: `rounds` bytes from address `p` on.
  unfoldable pub put_chars : (rounds p : ℕ) → W → W
  put_chars zero p w = w
  put_chars (suc rounds) p w = put_chars rounds (p + 1) (ops.putch w (ops.user_byte w p))

  -- the number of bytes stored before one that is negative as a `char`
  unfoldable pub get_chars : (rounds p i : ℕ) → W → ℕ × W
  get_chars zero p i w = (i, w)
  get_chars (suc rounds) p i w =
      let (c, w1) = ops.getch w in
      let w2 = ops.set_user_byte w1 p (c % 256) in
      let rest = get_chars rounds (p + 1) (i + 1) w2 in if ltb (c % 256) 128 then rest else (i, w2)

  -- The rounds of `for (i = 0; i < (int)size; i++)`.
  abbrev rounds_of : ℤ → ℕ
  rounds_of (pos n) = n
  rounds_of (negsuc n) = 0

  abbrev is_fd : ℤ → ℕ → Bool
  is_fd (pos n) k = n == k
  is_fd (negsuc n) k = false

  unfoldable pub sys_write : (fd : ℤ) → (buf size : ℕ) → Cmd (Files W) ℤ
  unfolding file_transfer
  sys_write fd buf size =
      if not (is_fd fd 1) && not (is_fd fd 2) then file_write fd buf size else do
        modify (λ s. record s { vfs = put_chars (rounds_of (to_int size)) buf s.vfs })
        pure (to_int size)

  unfoldable pub sys_read : (fd : ℤ) → (buf size : ℕ) → Cmd (Files W) ℤ
  unfolding file_transfer
  sys_read fd buf size = if not (is_fd fd 0) then file_read fd buf size else do
    s ← get
    let (n, w) = get_chars (rounds_of (to_int size)) buf 0 s.vfs
    modify (λ s. record s { vfs = w })
    pure (if n == rounds_of (to_int size) then to_int size else pos n)

-- proc_file_table_copy, from entry `fd` on with the given rounds left
unfoldable pub copy_entries : {W : Type 0} → (src dest rounds fd : ℕ) → Cmd (Files W) (Unit {0})
copy_entries src dest zero fd = pure tt
copy_entries src dest (suc rounds) fd = do
  entry ← entry_of src fd
  modify (set_entry dest fd entry)
  openfile_incr_ref_count entry
  copy_entries src dest rounds (fd + 1)

unfoldable pub proc_file_table_copy :
    {W : Type 0} → (open_max : ℕ) → (src dest : ℕ) → Cmd (Files W) (Unit {0})
proc_file_table_copy open_max src dest = copy_entries src dest open_max 0
