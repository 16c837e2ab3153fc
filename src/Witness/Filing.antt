-- ===== src/Witness/Filing.antt =====
-- Two slots in the system table: one file, which one process has open twice.
use paging_os.Base.{
  ℕ, zero, suc, ◌+◌, ◌≡◌, refl, arith, some, List, [], ◌∷◌, ℤ, pos, get_elem?, length,
}
use paging_os.Machine.{ok, Status}
use paging_os.Machine.Platform.{VfsOps, VfsLaws}
use paging_os.Files.{OpenFile, Files, sys_close, sys_open, proc_file_table_copy}
use paging_os.Files.Copy.{Copied, proc_file_table_copy-Copied}
use paging_os.Files.Counts.{FilesOk, SlotOk, refs}
use paging_os.Files.Close.{Closed, sys_close-FilesOk}
use paging_os.Files.Open.{Opened, sys_open-Opened}

-- The vnodes that were closed, the last one first; a path is opened as the vnode behind its number.
abbrev pub closing : VfsOps (List ℕ)
closing = record {
  vfs_open = λ w path flags mode. (0, path + 1, w);
  vfs_close = λ w v. v ∷ w;
  vop_incref = λ w v. w;
  vop_decref = λ w v. w;
  vop_read_user = λ w v offset buf size. (0, offset + size, 0, w);
  vop_write_user = λ w v offset buf size. (0, offset + size, 0, w);
  putch = λ w c. w;
  getch = λ w. (0, w);
  user_byte = λ w addr. 0;
  set_user_byte = λ w addr byte. w;
}

pub closing_laws : VfsLaws closing
closing_laws = record { open-vnode = λ w path flags mode e z. absurd (omega (arith, z)) }

abbrev pub opened_twice : Files (List ℕ)
opened_twice = record {
  system =
      record { vn = 7; offset = 12; count_ref = 2 }
      ∷ record { vn = 0; offset = 0; count_ref = 0 }
      ∷ [];
  tables = (0 ∷ 0 ∷ 0 ∷ 1 ∷ 1 ∷ 0 ∷ []) ∷ [];
  cur = 0;
  vfs = [];
}

opened_twice-SlotOk :
    (j : ℕ) (of : OpenFile)
    → get_elem? opened_twice.system j ≡ some of
    → SlotOk (refs opened_twice.tables j) of
opened_twice-SlotOk zero of q =
    let z : record { vn = 7; offset = 12; count_ref = 2 } ≡ of = cc q in
    rw (← z) (record { used = λ _. refl; unused = λ h. absurd (omega (arith, h)) })
opened_twice-SlotOk (suc zero) of q =
    let z : record { vn = 0; offset = 0; count_ref = 0 } ≡ of = cc q in
    rw (← z) (record { used = λ h. absurd (h refl); unused = λ _. refl })
opened_twice-SlotOk (suc (suc j)) of q = absurd (ground arith)

opened_twice-size :
    (p : ℕ) (table : List ℕ) → get_elem? opened_twice.tables p ≡ some table → length table ≡ 6
opened_twice-size zero table q = let z : 0 ∷ 0 ∷ 0 ∷ 1 ∷ 1 ∷ 0 ∷ [] ≡ table = cc q in rw (← z) refl
opened_twice-size (suc p) table q = absurd (ground arith)

pub opened_twice-FilesOk : FilesOk 6 opened_twice
opened_twice-FilesOk = record {
  slots = opened_twice-SlotOk;
  in_range = λ j h. ground arith;
  sizes = opened_twice-size;
  few = λ j. ground arith;
}

sys_close-FilesOk_example :
    (result : ℤ) × (s' : Files (List ℕ)) × (sys_close closing 6 (pos 3) opened_twice ≡ ok result s')
    × FilesOk 6 s'
    × Closed closing 6 3 (0 ∷ 0 ∷ 0 ∷ 1 ∷ 1 ∷ 0 ∷ []) result opened_twice s'
sys_close-FilesOk_example =
    sys_close-FilesOk closing 6 opened_twice (0 ∷ 0 ∷ 0 ∷ 1 ∷ 1 ∷ 0 ∷ []) 3 opened_twice-FilesOk
      refl (omega arith)

sys_open-Opened_example :
    (result : ℤ × Status) × (s' : Files (List ℕ)) × (sys_open closing 6 8 0 0 opened_twice
      ≡ ok result s')
    × Opened closing closing_laws 6 9 [] result opened_twice s'
sys_open-Opened_example =
    sys_open-Opened closing closing_laws 6 opened_twice (0 ∷ 0 ∷ 0 ∷ 1 ∷ 1 ∷ 0 ∷ []) 8 0 0 9 []
      opened_twice-FilesOk refl refl

-- The same with a second process, which has no open files.
abbrev two_tables : Files (List ℕ)
two_tables = record opened_twice {
  tables = (0 ∷ 0 ∷ 0 ∷ 1 ∷ 1 ∷ 0 ∷ []) ∷ (0 ∷ 0 ∷ 0 ∷ 0 ∷ 0 ∷ 0 ∷ []) ∷ [];
}

proc_file_table_copy-Copied_example :
    (s' : Files (List ℕ)) × (proc_file_table_copy 6 0 1 two_tables ≡ ok tt s')
    × Copied 6 1 0 (0 ∷ 0 ∷ 0 ∷ 1 ∷ 1 ∷ 0 ∷ []) (0 ∷ 0 ∷ 0 ∷ 0 ∷ 0 ∷ 0 ∷ []) two_tables s'
proc_file_table_copy-Copied_example =
    proc_file_table_copy-Copied 6 two_tables 0 1 (0 ∷ 0 ∷ 0 ∷ 1 ∷ 1 ∷ 0 ∷ [])
      (0 ∷ 0 ∷ 0 ∷ 0 ∷ 0 ∷ 0 ∷ []) (λ z. omega (arith, z)) refl refl refl refl
