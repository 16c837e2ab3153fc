-- ===== src/Elf/Ondemand.antt =====
-- What load_elf_ondemand reads: always inside the frame, and, for a segment that is aligned in its
-- file, the bytes of the page.
use paging_os.Base.{
  ℕ, ◌+◌, ◌-◌, ◌*◌, ◌%◌, ◌≤◌, ◌<◌, ◌≡◌, ap, false, arith, ltb, leb, ◌==◌, if◌then◌else◌, le→ltb,
  ◌⊎◌, inl, inr, Bool-cases,
}
use paging_os.Machine.{u32, page_size, add32, paddr_to_kvaddr, ok, success}
use paging_os.Machine.Platform.{WorldOps, WorldLaws}
use paging_os.Space.{Segment}
use paging_os.Space.Lookup.{InSegment}
use paging_os.Elf.{read_plan, load_elf_ondemand}
use paging_os.Swap.{load_segment}

-- A segment as as_define_region leaves it.
pub record SegmentOk (s : Segment) : Type 0 where
  pub aligned : s.start % page_size ≡ 0
  pub whole : s.size ≡ s.npages * page_size
  pub small : s.start + s.size < u32
  pub first : s.initoffset < page_size

-- For a page of a segment, the memory that load_elf_ondemand writes lies in the frame of the page, and
-- reaches to its end.
pub read_plan_bounds :
    (s : Segment) (a : ℕ)
    → SegmentOk s
    → InSegment a s
    → let p = read_plan s a in (p.shift + p.memsize ≡ page_size) × (p.filesize ≤ p.memsize)
unfolding read_plan
read_plan_bounds s a v (lo, hi) = ground arith

load_segment-ok :
    {W : Type 0} (wld : WorldOps W) (v offset paddr memsize filesize : ℕ) (w w' : W)
    → filesize ≤ memsize
    → wld.vop_read w v offset (paddr_to_kvaddr paddr) filesize ≡ (0, 0, w')
    → load_segment wld v offset paddr memsize filesize w ≡ ok success w'
unfolding load_segment
load_segment-ok wld v offset paddr memsize filesize w w' le e =
    let t : ltb memsize filesize ≡ false = le→ltb memsize filesize le in rw (t, e)

-- How many bytes of the page at `a` come from the file: the first page of a segment is filled to its
-- end, and a later one as far as the segment reaches in the file.
abbrev pub from_file : Segment → (a : ℕ) → ℕ
from_file s a =
    if a == s.start
    then page_size - s.initoffset
    else if leb (a + page_size) (s.start + s.filesize)
    then page_size
    else (s.start + s.filesize) - a

-- Where the first of them goes in the page.
abbrev pub first_byte : Segment → (a : ℕ) → ℕ
first_byte s a = if a == s.start then s.initoffset else 0

-- What read_plan reads, and where it puts it.
record Planned (s : Segment) (a : ℕ) : Type 0 where
  pub amount : (read_plan s a).filesize ≡ from_file s a
  pub place : (read_plan s a).shift ≡ first_byte s a
  pub source : (read_plan s a).offset ≡ s.offset + (a - s.start)
  pub inside : first_byte s a + from_file s a ≤ page_size

read_plan-Planned :
    (s : Segment) (a : ℕ)
    → SegmentOk s
    → InSegment a s
    → a % page_size ≡ 0
    → s.start + s.filesize < u32
    → Planned s a
unfolding read_plan
read_plan-Planned s a v (lo, hi) al file =
    let al' = v.aligned in
    let small = v.small in
    let whole = v.whole in
    let first = v.first in
    elim (Bool-cases (a == s.start)) [
      | inl e ↦ record {
        amount = ground arith;
        place = ground arith;
        source = ground arith;
        inside = ground arith;
      }
      | inr e ↦ record {
        amount = ground arith;
        place = ground arith;
        source = ground arith;
        inside = ground arith;
      }
    ]

module _ {W : Type 0} (wld : WorldOps W) (laws : WorldLaws wld) where
  -- load_elf_ondemand of a page of a segment: if the file holds the bytes (the read is complete), it
  -- succeeds. The first page is filled to its end from the file's offset of the segment on, however
  -- few bytes the segment has in the file, and behind the `initoffset` bytes that are left out; a
  -- later page is filled from its start, as far as the segment reaches in the file, and the offset in
  -- the file is that of the segment and the distance of the page from the segment's first page. The
  -- bytes lie in the frame, and no other byte of memory has changed. Assumed are the address of a page in
  -- a segment as as_define_region leaves it, whose bytes in the file end below 2 ^ 32, and a frame
  -- below 2 ^ 32.
  pub load_elf_ondemand_lem :
      (v paddr a : ℕ) (s : Segment) (w w' : W)
      → SegmentOk s
      → InSegment a s
      → a % page_size ≡ 0
      → s.start + s.filesize < u32
      → paddr + page_size ≤ u32
      → let k = paddr_to_kvaddr (paddr + first_byte s a) in
        wld.vop_read w v (s.offset + (a - s.start)) k (from_file s a) ≡ (0, 0, w')
        → (load_elf_ondemand wld v s paddr a w ≡ ok success w')
          × ((j : ℕ)
              → j < from_file s a
              → wld.mem w' (k + j) ≡ wld.file w v (s.offset + (a - s.start) + j))
          × ((x : ℕ) → (x < k) ⊎ (k + from_file s a ≤ x) → wld.mem w' x ≡ wld.mem w x)
          × (first_byte s a + from_file s a ≤ page_size)
  unfolding load_elf_ondemand
  load_elf_ondemand_lem v paddr a s w w' ok_s inside al file small e =
      let plan = read_plan-Planned s a ok_s inside al file in
      let (bounds, le) = read_plan_bounds s a ok_s inside in
      let first = ok_s.first in
      let low : first_byte s a < page_size = ground arith in
      let dest : add32 paddr (first_byte s a) ≡ paddr + first_byte s a = omega (arith, low) in
      let len = from_file s a in
      let k = paddr_to_kvaddr (paddr + first_byte s a) in
      let off = s.offset + (a - s.start) in
      let world : (wld.vop_read w v off k len).2 ≡ w' = ap (λ r. r.2) e in
      (
        rw (plan.source, plan.place, dest, plan.amount)
            (load_segment-ok wld v off (paddr + first_byte s a) (read_plan s a).memsize len w w'
              (rw plan.amount at le) e),
        λ j h. laws.read-mem w w' v off k len j e h,
        λ x h. rw world at (laws.read-others w v off k len x h),
        plan.inside,
      )
