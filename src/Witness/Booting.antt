-- ===== src/Witness/Booting.antt =====
-- Booting with 512 KB of RAM, and the segments of a program.
use paging_os.Base.{◌≡◌, refl, false, List, [], ◌∷◌, arith, inl, inr}
use paging_os.Machine.{ok}
use paging_os.Coremap.{Coremap, coremap_init, allign_next_addr}
use paging_os.Coremap.Init.{Booted, coremap_init-Booted}
use paging_os.Space.{Segment, page_table}
use paging_os.Space.Layout.{Ordered, Tabled, page_table-Tabled}
use paging_os.Space.Lookup.{Covered}

-- the globals of coremap.c before coremap_init
abbrev unset : Coremap
unset = record {
  active = false;
  first_paddr = 0;
  last_paddr = 0;
  entries = [];
  next_svic = 0;
  ram_used = 0;
  locked = false;
}

aligned_start : allign_next_addr 0x1_2345 ≡ 0x1_3000
unfolding allign_next_addr
aligned_start = refl

coremap_init-Booted_example :
    (c' : Coremap) × (coremap_init 0x8_0000 0x1_2345 unset ≡ ok tt c') × Booted 0x8_0000 0x1_2345 c'
coremap_init-Booted_example =
    coremap_init-Booted 0x8_0000 0x1_2345 unset (omega arith) (rw aligned_start (omega arith))
      (omega arith) refl refl

-- the code of a program, and its stack
abbrev pub code : Segment
code = record {
  start = 0x40_0000;
  size = 0x2000;
  filesize = 0x1800;
  npages = 2;
  rwx = 5;
  offset = 0x1000;
  initoffset = 0;
}

abbrev pub stack : Segment
stack = record {
  start = 0x7fff_f000;
  size = 0x1000;
  filesize = 0;
  npages = 1;
  rwx = 6;
  offset = 0;
  initoffset = 0;
}

abbrev pub segments : List Segment
segments = code ∷ stack ∷ []

pub segments-Ordered : Ordered 0 segments
segments-Ordered = (omega arith, refl, (omega arith, refl, omega arith))

pub segments-Tabled : Tabled (page_table segments) segments 0
segments-Tabled = page_table-Tabled segments 0 segments-Ordered

pub not-Covered : ¬ Covered 0x40_2000 segments
not-Covered (inl h) = omega (arith, h)
not-Covered (inr (inl h)) = omega (arith, h)
not-Covered (inr (inr h)) = h
