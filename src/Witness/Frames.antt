-- ===== src/Witness/Frames.antt =====
-- A table of four frames, of which two in the middle are free, and the operations of the coremap on it.
use paging_os.Base.{
  ℕ, zero, suc, ◌+◌, ◌<◌, ◌≡◌, refl, true, false, some, List, [], ◌∷◌, arith, length, get_elem?,
}
use paging_os.Machine.{ok}
use paging_os.Coremap.{
  CEntry, Coremap, null, is_free, get_multiple_pages, take_run, freepages, evictable, find_victim,
  scan_run,
}
use paging_os.Coremap.Inv.{EntryOk, EntriesOk, CoremapOk}
use paging_os.Coremap.Alloc.{GotRun, get_multiple_pages_lem}
use paging_os.Coremap.Release.{freepages-get_multiple_pages}
use paging_os.Coremap.Victim.{Victim, find_victim_lem}

-- An entry check on a whole table, from index `i` on.
abbrev AllOk : (size i : ℕ) → List CEntry → Type 0
AllOk size i [] = Unit {0}
AllOk size i (e ∷ es) = EntryOk size i e × AllOk size (i + 1) es

AllOk-get_elem? :
    (size i j : ℕ) (es : List CEntry) (e : CEntry)
    → AllOk size i es
    → get_elem? es j ≡ some e
    → EntryOk size (i + j) e
AllOk-get_elem? size i j [] e all h = cc h
AllOk-get_elem? size i zero (a ∷ es) e (here, all) h =
    let q : a ≡ e = cc h in let z : i + 0 ≡ i = omega arith in rw (z, ← q) here
AllOk-get_elem? size i (suc j) (a ∷ es) e (here, all) h =
    let z : i + suc j ≡ i + 1 + j = omega arith in rw z (AllOk-get_elem? size (i + 1) j es e all h)

pub AllOk-EntriesOk : (es : List CEntry) → AllOk (length es) 0 es → EntriesOk es
AllOk-EntriesOk es all i e h =
    let z : 0 + i ≡ i = omega arith in rw z at (AllOk-get_elem? (length es) 0 i es e all h)

-- The page at 0x400000 of the address space at 5, the page of the same one at 0x401000, and two free
-- frames between them.
abbrev pub table : Coremap
table = record {
  active = true;
  first_paddr = 0x1_0000;
  last_paddr = 0x1_4000;
  entries =
      record { vaddr = 0x40_0002; addrspace = 5; allocpages = 1 }
      ∷ record { vaddr = 0; addrspace = 0; allocpages = 0 }
      ∷ record { vaddr = 0; addrspace = 0; allocpages = 0 }
      ∷ record { vaddr = 0x40_1002; addrspace = 5; allocpages = 1 }
      ∷ [];
  next_svic = 2;
  ram_used = 0;
  locked = false;
}

pub table-CoremapOk : CoremapOk table
table-CoremapOk = record {
  fits = omega arith;
  last = omega arith;
  aligned = refl;
  victim = λ _. omega arith;
  entries = AllOk-EntriesOk table.entries (
    record { run = omega arith; owned = λ _. refl },
    (
      record { run = omega arith; owned = λ ne. absurd (ne refl) },
      (
        record { run = omega arith; owned = λ ne. absurd (ne refl) },
        (record { run = omega arith; owned = λ _. refl }, tt),
      ),
    ),
  );
}

-- the table with the two free frames taken for the kernel
abbrev two_taken : Coremap
two_taken = record (take_run 2 true null 1 table) { locked = false }

got_two : get_multiple_pages 2 true null table ≡ ok 0x1_1000 two_taken
unfolding get_multiple_pages scan_run is_free
got_two = refl

get_multiple_pages_lem_example : GotRun 2 true null table (get_multiple_pages 2 true null table)
get_multiple_pages_lem_example =
    get_multiple_pages_lem 2 true null table (omega arith) refl refl table-CoremapOk

freepages-get_multiple_pages_example :
    (c'' : Coremap) × (freepages 0x1_1000 two_taken ≡ ok tt c'')
    × ((j : ℕ) → j < 4 → is_free c''.entries j ≡ is_free table.entries j)
    × CoremapOk c''
freepages-get_multiple_pages_example =
    freepages-get_multiple_pages 2 true null table (omega arith) refl refl table-CoremapOk got_two

is_evictable : evictable table.entries 5 0 ≡ true
unfolding evictable
is_evictable = refl

find_victim_lem_example : Victim table.entries 5 (find_victim table.entries 5 4 2)
find_victim_lem_example = find_victim_lem table 5 0 (omega arith) is_evictable
