-- ===== src/Space/Lookup.antt =====
-- vm_fault's two search loops: the segment of an address, and the page in the page table.
use paging_os.Base.{
  ℕ, zero, suc, ◌+◌, ◌-◌, ◌*◌, ◌/◌, ◌%◌, ◌≤◌, ◌<◌, ◌≡◌, ◌≢◌, refl, ap, sym, ◌∙◌, Bool, true, false,
  some, List, [], ◌∷◌, arith, ltb, ◌==◌, Bool-cases, inl, inr, get_elem?, ◌⊎◌,
}
use native.Mathlib.Nat.{add-zero}
use paging_os.Machine.{u32, page_size}
use paging_os.Space.{PtEntry, Segment, find_segment, find_page, hit, miss, new_segment, search_page}
use paging_os.Space.Layout.{Ordered, Tabled, PagesAt}

-- The region that as_define_region sets up starts at the page of the address, and is made of whole
-- pages that cover the memory of the segment, with less than a page to spare.
pub new_segment_covers :
    (vaddr memsize filesize r w x offset : ℕ)
    → vaddr + memsize + page_size ≤ u32
    → let s = new_segment vaddr memsize filesize r w x offset in
      (s.start % page_size ≡ 0)
      × (s.start + s.initoffset ≡ vaddr)
      × (s.size ≡ s.npages * page_size)
      × (vaddr + memsize ≤ s.start + s.size)
      × (s.start + s.size < vaddr + memsize + page_size)
unfolding new_segment
new_segment_covers vaddr memsize filesize r w x offset h =
    (omega arith, omega arith, omega arith, omega arith, omega arith)

-- An address lies in the pages of a segment.
abbrev pub InSegment : ℕ → Segment → Type 0
InSegment a s = (s.start ≤ a) × (a < s.start + s.npages * page_size)

-- A search that compares the address with each page of a segment ends at the page that has it.
pub find_page-hit :
    (pt : List PtEntry) (a d rounds b : ℕ) (s : Segment)
    → PagesAt pt b s
    → a ≡ s.start + d * page_size
    → d < s.npages
    → (i : ℕ) → i ≤ d
    → i + rounds ≡ s.npages
    → find_page pt a rounds (b + i) ≡ hit (b + d)
unfolding find_page
find_page-hit pt a d zero b s h at lt i le n = absurd (omega arith)
find_page-hit pt a d (suc rounds) b s h at lt i le n =
    let (e, q, v, _) = h i (omega arith) in
    elim (Bool-cases (i == d)) [
      | inl t ↦
          let p : (e.vaddr == a) ≡ true = ground arith in
          rw (q, find_page, p) (ap (λ k. hit (b + k)) (ground arith))
      | inr t ↦
          let p : (e.vaddr == a) ≡ false = ground arith in
          let step : b + i + 1 ≡ b + (i + 1) = omega arith in
          rw (q, find_page, p, step)
            (find_page-hit pt a d rounds b s h at lt (i + 1) (ground arith) (omega arith))
    ]

-- If no page of the segment has the address, the search ends at the end of the segment.
pub find_page-miss :
    (pt : List PtEntry) (a rounds b : ℕ) (s : Segment)
    → PagesAt pt b s
    → a % page_size ≡ 0
    → s.start % page_size ≡ 0
    → ¬ InSegment a s
    → (i : ℕ) → i + rounds ≡ s.npages
    → find_page pt a rounds (b + i) ≡ miss
unfolding find_page
find_page-miss pt a zero b s h al al' out i n = refl
find_page-miss pt a (suc rounds) b s h al al' out i n =
    let (e, q, v, _) = h i (omega arith) in
    let ne : e.vaddr ≢ a = λ t. out (omega arith) in
    let p : (e.vaddr == a) ≡ false = ground arith in
    let step : b + i + 1 ≡ b + (i + 1) = omega arith in
    rw (q, find_page, p, step) (find_page-miss pt a rounds b s h al al' out (i + 1) (omega arith))

-- An address lies in the pages of one of the segments.
abbrev pub Covered : ℕ → List Segment → Type 0
Covered a [] = ⊥
Covered a (s ∷ segments) = InSegment a s ⊎ Covered a segments

Covered-low :
    (a : ℕ) (segments : List Segment) (low : ℕ)
    → Ordered low segments
    → Covered a segments
    → low ≤ a
Covered-low a [] low o h = absurd h
Covered-low a (s ∷ segments) low (lo, al, rest) (inl h) = omega arith
Covered-low a (s ∷ segments) low (lo, al, rest) (inr h) =
    omega (arith, Covered-low a segments (s.start + s.npages * page_size) rest h)

-- What the search for the segment of an address returns: a segment with its pages where the table has
-- them; and if any segment has the address, then this one.
pub record SegmentAt (pt : List PtEntry) (a : ℕ) (segments : List Segment) (r : Segment × Bool × ℕ)
    : Type 0 where
  pub pages : PagesAt pt r.2 r.0
  pub aligned : r.0.start % page_size ≡ 0
  pub only : Covered a segments → InSegment a r.0
  pub member : InSegment a r.0 → Covered a segments

pub find_segment-SegmentAt :
    (pt : List PtEntry) (a : ℕ) (s : Segment) (rest : List Segment) (np low : ℕ)
    → Ordered low (s ∷ rest)
    → Tabled pt (s ∷ rest) np
    → SegmentAt pt a (s ∷ rest) (find_segment s rest a np)
unfolding find_segment
find_segment-SegmentAt pt a s [] np low (lo, al, o) (here, there) = record {
  pages = here;
  aligned = al;
  only = λ c. elim c [ inl h ↦ h | inr h ↦ absurd h ];
  member = λ h. inl h;
}
find_segment-SegmentAt pt a s (next ∷ rest) np low (lo, al, o) (here, there) =
    elim (Bool-cases (ltb a next.start)) [
      | inl t ↦ rw t record {
        pages = here;
        aligned = al;
        only = λ c. elim c [
          | inl h ↦ h
          | inr h ↦ elim h [
            | inl k ↦ absurd (ground arith)
            | inr k ↦
                absurd
                  (ground (arith, Covered-low a rest (next.start + next.npages * page_size) o.2 k))
          ]
        ];
        member = λ h. inl h;
      }
      | inr t ↦
          let ih =
            find_segment-SegmentAt pt a next rest (np + s.npages) (s.start + s.npages * page_size) o
              there in
          rw t record {
            pages = ih.pages;
            aligned = ih.aligned;
            only = λ c. elim c [ inl h ↦ absurd (ground arith) | inr h ↦ ih.only h ];
            member = λ h. inr (ih.member h);
          }
    ]

-- For a page-aligned address in the pages of one of the segments, the two loops end at the entry of
-- the page table that has this address.
pub search_page-hit :
    (pt : List PtEntry) (s : Segment) (rest : List Segment) (a : ℕ)
    → Ordered 0 (s ∷ rest)
    → Tabled pt (s ∷ rest) 0
    → a % page_size ≡ 0
    → Covered a (s ∷ rest)
    → (i : ℕ) × (e : PtEntry) × (search_page pt s rest a ≡ hit i)
      × (get_elem? pt i ≡ some e)
      × (e.vaddr ≡ a)
unfolding search_page
search_page-hit pt s rest a o t al c =
    let r = find_segment s rest a 0 in
    let place = find_segment-SegmentAt pt a s rest 0 0 o t in
    let inside = place.only c in
    let start = place.aligned in
    let d = (a - r.0.start) / page_size in
    let lt : d < r.0.npages = omega arith in
    let addr : a ≡ r.0.start + d * page_size = omega arith in
    let (e, q, v, _) = place.pages d lt in
    (
      r.2 + d,
      e,
      rw add-zero at (
          find_page-hit pt a d r.0.npages r.2 r.0 place.pages addr lt 0 (omega arith)
            (omega arith)),
      q,
      v ∙ sym addr,
    )

-- For a page-aligned address in no segment, the loops run to the end, and vm_fault panics.
pub search_page-miss :
    (pt : List PtEntry) (s : Segment) (rest : List Segment) (a : ℕ)
    → Ordered 0 (s ∷ rest)
    → Tabled pt (s ∷ rest) 0
    → a % page_size ≡ 0
    → ¬ Covered a (s ∷ rest)
    → search_page pt s rest a ≡ miss
unfolding search_page
search_page-miss pt s rest a o t al out =
    let r = find_segment s rest a 0 in
    let place = find_segment-SegmentAt pt a s rest 0 0 o t in
    rw add-zero at (
      find_page-miss pt a r.0.npages r.2 r.0 place.pages al place.aligned
        (λ h. out (place.member h)) 0 (omega arith))
