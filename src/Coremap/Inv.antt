-- ===== src/Coremap/Inv.antt =====
-- The invariant of the coremap, and that each operation of coremap.c that touches it keeps it.
use paging_os.Base.{
  ℕ, ◌+◌, ◌-◌, ◌*◌, ◌/◌, ◌%◌, ◌≤◌, ◌<◌, ◌≡◌, ◌≢◌, inl, inr, Bool, some, List, arith, length,
  get_elem?, update, update_range, length-update, length-update_range, update_inv, update_range_inv,
}
use paging_os.Machine.{u32, page_size}
use paging_os.Coremap.{CEntry, Coremap, coremap_size, frame_paddr, null, set_coreentry}

-- What holds of each entry `e` at index `i`: the pages of an allocation lie in the table, and a
-- frame with an owner is in use.
pub record EntryOk (size i : ℕ) (e : CEntry) : Type 0 where
  pub run : i + e.allocpages ≤ size
  pub owned : e.addrspace ≢ null → e.vaddr / 2 % 2 ≡ 1

abbrev pub EntriesOk : List CEntry → Type 0
EntriesOk es = (i : ℕ) (e : CEntry) → get_elem? es i ≡ some e → EntryOk (length es) i e

pub record CoremapOk (c : Coremap) : Type 0 where
  pub fits : c.first_paddr + coremap_size c * page_size ≤ c.last_paddr
  pub last : c.last_paddr < u32
  pub aligned : c.first_paddr % page_size ≡ 0
  pub victim : 0 < coremap_size c → c.next_svic < coremap_size c
  pub entries : EntriesOk c.entries

-- In a well-formed coremap the address of a frame does not wrap, and the frame can be read off it.
pub frame_paddr_bounds :
    {c : Coremap} (i : ℕ)
    → CoremapOk c
    → i < coremap_size c
    → (frame_paddr c i ≡ c.first_paddr + i * page_size)
      × (frame_paddr c i + page_size ≤ c.last_paddr)
      × (frame_paddr c i % page_size ≡ 0)
      × ((frame_paddr c i - c.first_paddr) / page_size ≡ i)
frame_paddr_bounds i v h =
    let fits = v.fits in
    let last = v.last in let al = v.aligned in (omega arith, omega arith, omega arith, omega arith)

-- An update of one entry keeps the invariant of the entries, if the new entry has it.
pub EntriesOk-update :
    (es : List CEntry) (i : ℕ) (f : CEntry → CEntry)
    → ((e : CEntry) → get_elem? es i ≡ some e → EntryOk (length es) i (f e))
    → EntriesOk es
    → EntriesOk (update es i f)
EntriesOk-update es i f new old j e h =
    let (a, q, from) = update_inv es i j f e h in
    let size : length (update es i f) ≡ length es = length-update es i f in
    elim from [ inl p ↦ rw (size, p) (old j a q) | inr (p, r) ↦ rw (size, r, ← p) (new a (rw p q)) ]

pub EntriesOk-update_range :
    (f : ℕ → CEntry → CEntry) (es : List CEntry) (n i : ℕ)
    → ((j : ℕ) (e : CEntry)
        → i ≤ j
        → j < i + n
        → EntryOk (length es) j e
        → EntryOk (length es) j (f j e))
    → EntriesOk es
    → EntriesOk (update_range f es n i)
EntriesOk-update_range f es n i new old j e h =
    let (a, q, from) = update_range_inv f es n i j e h in
    let size : length (update_range f es n i) ≡ length es = length-update_range f es n i in
    elim from [
      | inl p ↦ rw (size, p) (old j a q)
      | inr (lo, hi, r) ↦ rw (size, r) (new j a lo hi (old j a q))
    ]

-- An entry that is marked is in use, and keeps its page count.
pub EntryOk-set_coreentry :
    (size i vaddr space : ℕ) (is_reserved : Bool) (e : CEntry)
    → i + e.allocpages ≤ size
    → EntryOk size i (set_coreentry vaddr is_reserved space e)
unfolding set_coreentry
EntryOk-set_coreentry size i vaddr space is_reserved e h = ground arith

-- A marked entry is not free, and an emptied one is.
pub set_coreentry-used :
    (vaddr space : ℕ) (is_reserved : Bool) (e : CEntry)
    → (set_coreentry vaddr is_reserved space e).vaddr / 2 % 2 ≡ 1
unfolding set_coreentry
set_coreentry-used vaddr space is_reserved e = ground arith
