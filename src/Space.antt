-- ===== src/Space.antt =====
-- kern/include/addrspace.h, pt.h and segment.h, with the parts of kern/vm/addrspace.c and
-- kern/vm/pt.c that work on one address space: its regions, its page table, and the look-ups in it.
pub mod Layout
pub mod Lookup
use paging_os.Base.{
  ℕ, zero, suc, ◌+◌, ◌-◌, ◌*◌, ◌/◌, ◌%◌, Bool, true, false, not, Option, none, some, List, [], ◌∷◌,
  ◌++◌, ltb, ◌==◌, if◌then◌else◌, get_elem?,
}
use paging_os.Machine.{
  u32, page_size, add32, sub32, page_frame, page_offset, has_bit, Cmd, pure, get, modify, kassert,
  fail, panicked, ◌>>=◌, ◌>>◌, Status, success, err, enomem,
}

-- `pt_entry`
pub record PtEntry : Type 0 where
  pub paddr : ℕ
  pub vaddr : ℕ
  pub in_mem : Bool
  pub in_swap : Bool
  pub rwx : ℕ

abbrev pub sizeof_pt_entry : ℕ
sizeof_pt_entry = 12

-- `segment_t`, less its `next`: the segments of an address space are a list.
pub record Segment : Type 0 where
  pub start : ℕ
  pub size : ℕ
  pub filesize : ℕ
  pub npages : ℕ
  pub rwx : ℕ
  pub offset : ℕ
  pub initoffset : ℕ

-- `struct addrspace`. `as_pt` is the array behind the pointer of that name, and `pt_paddr` the
-- physical address at which it lies.
pub record AddrSpace : Type 0 where
  pub as_pt : List PtEntry
  pub pt_paddr : ℕ
  pub as_segment : List Segment
  pub v : ℕ
  pub npages : ℕ
  -- whether `pt_lock` is held
  pub pt_locked : Bool

abbrev pub pt_acquire : Cmd AddrSpace (Unit {0})
pt_acquire = do a ← get; kassert (not a.pt_locked); modify (λ a. record a { pt_locked = true })

abbrev pub pt_release : Cmd AddrSpace (Unit {0})
pt_release = do a ← get; kassert a.pt_locked; modify (λ a. record a { pt_locked = false })

-- The bit 2 ^ k of a word, in its place.
abbrev pub mask_bit : (k value word : ℕ) → ℕ
mask_bit k value word = if has_bit k word then value else 0

-- The segment that as_define_region fills in.
unfoldable pub new_segment :
    (vaddr memsize filesize readable writeable executable offset : ℕ) → Segment
new_segment vaddr memsize filesize readable writeable executable offset =
    let size = page_frame (add32 (add32 memsize (page_offset vaddr)) (page_size - 1)) in
    record {
      start = page_frame vaddr;
      size = size;
      filesize = filesize;
      npages = size / page_size;
      rwx = mask_bit 2 4 readable + (mask_bit 1 2 writeable + mask_bit 0 1 executable);
      offset = offset;
      initoffset = page_offset vaddr;
    }

-- `allocated`: whether kmalloc had the memory for the segment
unfoldable pub as_define_region :
    (allocated : Bool)
    → (vaddr memsize filesize readable writeable executable offset : ℕ) → Cmd AddrSpace Status
unfolding new_segment
as_define_region allocated vaddr memsize filesize readable writeable executable offset =
    if allocated
    then (do
      modify (λ a. record a {
        as_segment =
            a.as_segment
            ++ new_segment vaddr memsize filesize readable writeable executable offset ∷ [];
      })
      pure success)
    else pure (err enomem)

-- The page table that as_prepare_load fills in: for each segment its pages, from its start on.
pub segment_pages : (v rwx n : ℕ) → List PtEntry
segment_pages v rwx zero = []
segment_pages v rwx (suc n) =
    record { paddr = 0; vaddr = v; in_mem = false; in_swap = false; rwx = rwx }
    ∷ segment_pages (add32 v page_size) rwx n

unfoldable pub page_table : List Segment → List PtEntry
unfolding segment_pages
page_table [] = []
page_table (s ∷ segments) = segment_pages s.start s.rwx s.npages ++ page_table segments

-- The sum of the loop before it.
unfoldable pub total_pages : List Segment → ℕ
total_pages [] = 0
total_pages (s ∷ segments) = s.npages + total_pages segments

-- The loop of vm_fault over the segments from `s` on, with `np` pages before it: the segment, whether
-- another one follows it, and the index of its first page.
pub find_segment : Segment → List Segment → (faultaddress np : ℕ) → Segment × Bool × ℕ
find_segment s [] faultaddress np = (s, false, np)
find_segment s (next ∷ segments) faultaddress np =
    let rest = find_segment next segments faultaddress (np + s.npages) in
    if ltb faultaddress next.start then (s, true, np) else rest

-- How a search in the page table ends: at an index, at the end of its range, or by reading outside
-- the table.
pub data Search : Type 0 where
  hit : ℕ → Search
  miss : Search
  wild : Search

-- The loop of vm_fault over the pages of the segment, from `i` on.
unfoldable pub find_page : List PtEntry → (faultaddress rounds i : ℕ) → Search
find_page pt faultaddress zero i = miss
find_page pt faultaddress (suc rounds) i =
    let rest = find_page pt faultaddress rounds (i + 1) in
    elim (get_elem? pt i) [ none ↦ wild | some e ↦ if e.vaddr == faultaddress then hit i else rest ]

-- Both loops of vm_fault, for the segments `s ∷ rest`.
unfoldable pub search_page : List PtEntry → Segment → List Segment → (faultaddress : ℕ) → Search
search_page pt s rest faultaddress =
    let (seg, more, np) = find_segment s rest faultaddress 0 in
    find_page pt faultaddress seg.npages np
