-- ===== src/Coremap/Init.antt =====
-- coremap_init: the layout of physical memory that it sets up.
use paging_os.Base.{
  ℕ, ◌+◌, ◌-◌, ◌*◌, ◌/◌, ◌%◌, ◌≤◌, ◌<◌, ◌≡◌, refl, true, false, arith, get_elem?-lt, replicate,
  length-replicate, get_elem?-replicate,
}
use paging_os.Machine.{u32, page_size, add32, sub32, pages_for, ok}
use paging_os.Coremap.{
  CEntry, Coremap, coremap_size, is_free, coremap_init, allign_next_addr, sizeof_c_entry,
}
use paging_os.Coremap.Inv.{CoremapOk, EntriesOk}

-- ALLIGN_NEXT_ADDR gives the lowest page boundary that is not below the address.
pub allign_next_addr_lem :
    (p : ℕ)
    → p + page_size < u32
    → (allign_next_addr p % page_size ≡ 0)
      × (p ≤ allign_next_addr p)
      × (allign_next_addr p < p + page_size)
unfolding allign_next_addr
allign_next_addr_lem p h = ground arith

-- What coremap_init leaves: `frames` entries, all free, and the table itself in the pages before
-- the first frame.
pub record Booted (ram_size first_free : ℕ) (c : Coremap) : Type 0 where
  pub well_formed : CoremapOk c
  pub active : c.active ≡ true
  pub unlocked : c.locked ≡ false
  pub all_free : (i : ℕ) → i < coremap_size c → is_free c.entries i ≡ true
  pub room : allign_next_addr first_free + coremap_size c * sizeof_c_entry ≤ c.first_paddr
  pub used_up : ram_size < c.first_paddr + (coremap_size c + 1) * page_size

sizes :
    (ram first : ℕ)
    → first % page_size ≡ 0
    → first ≤ ram
    → ram < u32
    → let size = sub32 ram first / page_size in
      let csize = pages_for (size * sizeof_c_entry % u32) in
      let frames = sub32 size csize in
      (frames + csize ≡ size)
      × (add32 first (csize * page_size % u32) ≡ first + csize * page_size)
      × (size * sizeof_c_entry ≤ csize * page_size)
      × (size ≡ (ram - first) / page_size)
sizes ram first al le lt = (omega arith, omega arith, omega arith, omega arith)

fresh : CEntry
fresh = record { vaddr = 0; addrspace = 0; allocpages = 0 }

fresh-EntriesOk : (n : ℕ) → EntriesOk (replicate n fresh)
unfolding fresh
fresh-EntriesOk n i e h =
    let lt : i < n =
      omega (arith, get_elem?-lt (replicate n fresh) i h, length-replicate n fresh) in
    let q : e ≡ fresh = cc (get_elem?-replicate n fresh i lt) in
    rw (q, length-replicate n fresh) record { run = omega arith; owned = λ ne. absurd (ne refl) }

fresh-is_free : (n i : ℕ) → i < n → is_free (replicate n fresh) i ≡ true
unfolding fresh is_free
fresh-is_free n i h = rw (get_elem?-replicate n fresh i h, is_free)

-- Booting with RAM that ends behind the first free page: coremap_init returns, the table has an
-- entry for every whole page behind itself and all are free, the table fits between the first free
-- page boundary and the first frame, and the coremap is well-formed, active and unlocked.
pub coremap_init-Booted :
    (ram_size first_free : ℕ) (c : Coremap)
    → first_free + page_size < u32
    → allign_next_addr first_free ≤ ram_size
    → ram_size < u32
    → c.locked ≡ false
    → c.next_svic ≡ 0
    → (c' : Coremap) × (coremap_init ram_size first_free c ≡ ok tt c')
      × Booted ram_size first_free c'
unfolding coremap_init fresh
coremap_init-Booted ram_size first_free c small le lt l z =
    let first = allign_next_addr first_free in
    let al = (allign_next_addr_lem first_free small).0 in
    let size = sub32 ram_size first / page_size in
    let csize = pages_for (size * sizeof_c_entry % u32) in
    let frames = sub32 size csize in
    let (sum, start, table, count) = sizes ram_size first al le lt in
    let len = length-replicate frames fresh in
    (
      record c {
        last_paddr = ram_size;
        first_paddr = add32 first (csize * page_size % u32);
        entries = replicate frames fresh;
        active = true;
        locked = false;
      },
      rw l,
      record {
        well_formed = record {
          fits = rw (len, start) (omega (arith, sum, count, le));
          last = lt;
          aligned = rw start (omega (arith, al));
          victim = rw (len, z) (λ h. h);
          entries = fresh-EntriesOk frames;
        };
        active = refl;
        unlocked = refl;
        all_free = λ i h. fresh-is_free frames i (rw len at h);
        room = rw (len, start) (omega (arith, sum, table));
        used_up = rw (len, start) (omega (arith, sum, count));
      },
    )
