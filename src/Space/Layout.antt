-- ===== src/Space/Layout.antt =====
-- The page table that as_prepare_load builds has each page of each segment where vm_fault looks.
use paging_os.Base.{
  ℕ, zero, suc, ◌+◌, ◌*◌, ◌%◌, ◌≤◌, ◌<◌, ◌≡◌, refl, ap, ◌∙◌, false, some, List, [], ◌∷◌, ◌++◌,
  arith, length, get_elem?, length-append, get_elem?-append_left, get_elem?-append_right,
}
use mathlib.Core.List.{append_assoc}
use paging_os.Machine.{u32, page_size, add32}
use paging_os.Space.{PtEntry, Segment, segment_pages, page_table, total_pages}

-- The segments lie page-aligned in the address space of the user, one behind the other.
abbrev pub Ordered : (low : ℕ) → List Segment → Type 0
Ordered low [] = low < u32
Ordered low (s ∷ segments) =
    (low ≤ s.start) × (s.start % page_size ≡ 0) × Ordered (s.start + s.npages * page_size) segments

-- the entry of a page that has not been touched
abbrev pub untouched : (v rwx : ℕ) → PtEntry
untouched v rwx = record { paddr = 0; vaddr = v; in_mem = false; in_swap = false; rwx = rwx }

length-segment_pages : (v rwx n : ℕ) → length (segment_pages v rwx n) ≡ n
unfolding segment_pages
length-segment_pages v rwx zero = refl
length-segment_pages v rwx (suc n) = ap suc (length-segment_pages (add32 v page_size) rwx n)

-- The table has as many entries as the segments have pages.
pub length-page_table :
    (segments : List Segment) → length (page_table segments) ≡ total_pages segments
unfolding page_table total_pages
length-page_table [] = refl
length-page_table (s ∷ segments) = omega (
  arith,
  length-append (segment_pages s.start s.rwx s.npages) (page_table segments),
  length-segment_pages s.start s.rwx s.npages,
  length-page_table segments,
)

get_elem?-segment_pages :
    (v rwx n i : ℕ)
    → i < n
    → v + n * page_size < u32
    → get_elem? (segment_pages v rwx n) i ≡ some (untouched (v + i * page_size) rwx)
unfolding segment_pages
get_elem?-segment_pages v rwx zero i h top = absurd (omega arith)
get_elem?-segment_pages v rwx (suc n) zero h top = ap (λ a. some (untouched a rwx)) (omega arith)
get_elem?-segment_pages v rwx (suc n) (suc i) h top =
    get_elem?-segment_pages (add32 v page_size) rwx n i (omega arith) (omega arith)
    ∙ ap (λ a. some (untouched a rwx)) (omega arith)

low-lt_from : (segments : List Segment) (low : ℕ) → Ordered low segments → low < u32
low-lt_from [] low h = h
low-lt_from (s ∷ segments) low (a, b, c) =
    omega (arith, low-lt_from segments (s.start + s.npages * page_size) c)

pub low-lt : (low : ℕ) (segments : List Segment) → Ordered low segments → low < u32
low-lt low segments h = low-lt_from segments low h

-- From index `b` on, the table has the pages of the segments, in order.
abbrev pub PagesAt : List PtEntry → ℕ → Segment → Type 0
PagesAt pt b s =
    (i : ℕ)
    → i < s.npages
    → (e : PtEntry) × (get_elem? pt (b + i) ≡ some e)
      × (e.vaddr ≡ s.start + i * page_size)
      × (e.rwx ≡ s.rwx)

abbrev pub Tabled : List PtEntry → List Segment → ℕ → Type 0
Tabled pt [] b = Unit {0}
Tabled pt (s ∷ segments) b = PagesAt pt b s × Tabled pt segments (b + s.npages)

Tabled-append :
    (front : List PtEntry) (segments : List Segment) (low b : ℕ)
    → b ≡ length front
    → Ordered low segments
    → Tabled (front ++ page_table segments) segments b
unfolding page_table
Tabled-append front [] low b e h = tt
Tabled-append front (s ∷ segments) low b e (lo, al, rest) =
    let here = segment_pages s.start s.rwx s.npages in
    let n = length-segment_pages s.start s.rwx s.npages in
    let top = low-lt (s.start + s.npages * page_size) segments rest in
    (
      λ i h. (
        untouched (s.start + i * page_size) s.rwx,
        get_elem?-append_right front (here ++ page_table segments) i (b + i) (omega arith)
            ∙ get_elem?-append_left here (page_table segments) i (omega arith)
            ∙ get_elem?-segment_pages s.start s.rwx s.npages i h top,
        refl,
        refl,
      ),
      rw (append_assoc front here (page_table segments)) at (
          Tabled-append (front ++ here) segments (s.start + s.npages * page_size) (b + s.npages)
            (omega (arith, length-append front here)) rest),
    )

-- The page table that as_prepare_load builds for ordered segments has the pages of all of them.
pub page_table-Tabled :
    (segments : List Segment) (low : ℕ)
    → Ordered low segments
    → Tabled (page_table segments) segments 0
page_table-Tabled segments low h = Tabled-append [] segments low 0 refl h
