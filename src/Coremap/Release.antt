-- ===== src/Coremap/Release.antt =====
-- What freepages and freeAs do to the coremap, and that freeing undoes allocating.
use paging_os.Base.{
  ℕ, ◌+◌, ◌-◌, ◌/◌, ◌≤◌, ◌<◌, ◌≡◌, refl, ◌≢◌, ◌⊎◌, inl, inr, Bool, true, false, ◌&&◌, some, List,
  map, arith, ltb, leb, ◌==◌, if◌then◌else◌, length, get_elem?, get_elem?-lt, get_elem?_of_lt,
  update, update_range, le→ltb, length-update, length-update_range, get_elem?-update,
  get_elem?-update_range, Bool-cases, ◌∙◌, length-map, get_elem?-map, sym, subst,
}
use paging_os.Machine.{page_size, ok}
use paging_os.Coremap.{
  CEntry, Coremap, coremap_size, frame_paddr, null, is_free, set_empty, freepages, free_as,
  get_multiple_pages,
}
use paging_os.Coremap.Inv.{
  EntriesOk, CoremapOk, EntriesOk-update, EntriesOk-update_range, frame_paddr_bounds,
}
use paging_os.Coremap.Alloc.{GotRun, get_multiple_pages_lem}

-- The table after freepages of frame `i`, whose entry is `e`.
abbrev released : List CEntry → ℕ → CEntry → List CEntry
released es i e =
    update_range (λ _. set_empty) (update es i λ e. record e { allocpages = 0 }) e.allocpages i

released-inside :
    (es : List CEntry) (i j : ℕ) (e : CEntry)
    → i ≤ j
    → j < i + e.allocpages
    → j < length es
    → is_free (released es i e) j ≡ true
unfolding is_free
released-inside es i j e lo hi h =
    let (a, q) = get_elem?_of_lt es j h in
    let es' = update es i (λ e. record e { allocpages = 0 }) in
    ground (
      arith,
      get_elem?-update_range (λ _. set_empty) es' e.allocpages i j,
      get_elem?-update es i j (λ e. record e { allocpages = 0 }),
    )

released-outside :
    (es : List CEntry) (i j : ℕ) (e : CEntry)
    → (j < i) ⊎ (i + e.allocpages ≤ j)
    → i ≢ j
    → get_elem? (released es i e) j ≡ get_elem? es j
released-outside es i j e out ne =
    let es' = update es i (λ e. record e { allocpages = 0 }) in
    ground (
      arith,
      get_elem?-update_range (λ _. set_empty) es' e.allocpages i j,
      get_elem?-update es i j (λ e. record e { allocpages = 0 }),
    )

released-EntriesOk :
    (es : List CEntry) (i : ℕ) (e : CEntry) → EntriesOk es → EntriesOk (released es i e)
released-EntriesOk es i e v =
    EntriesOk-update_range (λ _. set_empty) (update es i λ e. record e { allocpages = 0 })
      e.allocpages i (λ j e lo hi q. record { run = q.run; owned = λ ne. absurd (ne refl) })
      (EntriesOk-update es i _
        (λ e q. record { run = omega (arith, (v i e q).run); owned = (v i e q).owned }) v)

-- What freepages of the frame `i`, with the entry `e`, leaves behind.
pub record Released (c : Coremap) (i : ℕ) (e : CEntry) (c' : Coremap) : Type 0 where
  pub inside : (j : ℕ) → i ≤ j → j < i + e.allocpages → is_free c'.entries j ≡ true
  pub outside :
      (j : ℕ)
      → (j < i) ⊎ (i + e.allocpages ≤ j)
      → i ≢ j
      → get_elem? c'.entries j ≡ get_elem? c.entries j
  pub unlocked : c'.locked ≡ false
  pub well_formed : CoremapOk c'

freepages-at :
    (c : Coremap) (p i : ℕ) (e : CEntry)
    → c.locked ≡ false
    → c.first_paddr ≤ p
    → (p - c.first_paddr) / page_size ≡ i
    → get_elem? c.entries i ≡ some e
    → freepages p c ≡ ok tt (record c { entries = released c.entries i e; locked = false })
unfolding freepages
freepages-at c p i e l lo idx q =
    let below : ltb p c.first_paddr ≡ false = le→ltb p c.first_paddr lo in ground arith

-- freepages at the address of a frame of the table returns, and frees exactly the run of pages that
-- was allocated there: it writes no entry outside the table, and leaves the rest of the table alone.
pub freepages_lem :
    (c : Coremap) (i : ℕ) (e : CEntry)
    → c.locked ≡ false
    → CoremapOk c
    → get_elem? c.entries i ≡ some e
    → (c' : Coremap) × (freepages (frame_paddr c i) c ≡ ok tt c') × Released c i e c'
freepages_lem c i e l v q =
    let h = get_elem?-lt c.entries i q in
    let (start, _, _, idx) = frame_paddr_bounds i v h in
    let size : length (released c.entries i e) ≡ coremap_size c =
      length-update_range (λ _. set_empty) _ e.allocpages i ∙ length-update c.entries i _ in
    (
      record c { entries = released c.entries i e; locked = false },
      freepages-at c (frame_paddr c i) i e l (omega arith) idx q,
      record {
        inside =
            λ j lo hi. released-inside c.entries i j e lo hi (omega (arith, (v.entries i e q).run));
        outside = λ j out ne. released-outside c.entries i j e out ne;
        unlocked = refl;
        well_formed = record {
          fits = rw size v.fits;
          last = v.last;
          aligned = v.aligned;
          victim = rw size v.victim;
          entries = released-EntriesOk c.entries i e v.entries;
        };
      },
    )

is_free-eq :
    (es es' : List CEntry) (j : ℕ) → get_elem? es j ≡ get_elem? es' j → is_free es j ≡ is_free es' j
unfolding is_free
is_free-eq es es' j h = rw (h, is_free) refl

-- Freeing the address that getMultiplePages returned gives back exactly the frames that it took:
-- both calls return, and afterwards the same frames of the table are free as before.
pub freepages-get_multiple_pages :
    (npages : ℕ) (is_reserved : Bool) (space : ℕ) (c : Coremap) {paddr : ℕ} {c' : Coremap}
    → 0 < npages
    → c.active ≡ true
    → c.locked ≡ false
    → CoremapOk c
    → get_multiple_pages npages is_reserved space c ≡ ok paddr c'
    → (c'' : Coremap) × (freepages paddr c' ≡ ok tt c'')
      × ((j : ℕ) → j < coremap_size c → is_free c''.entries j ≡ is_free c.entries j)
      × CoremapOk c''
freepages-get_multiple_pages npages is_reserved space c {paddr} {c'} pos a l v e =
    let got =
      subst (GotRun npages is_reserved space c) e
        (get_multiple_pages_lem npages is_reserved space c pos a l v) in
    let (first, addr, run, lowest, taken) = got in
    let (e0, e1, q0, q1, _, _, count) = taken.inside first (omega arith) (omega arith) in
    let n : e1.allocpages ≡ npages = ground arith in
    let (c'', call, rel) = freepages_lem c' first e1 taken.unlocked taken.well_formed q1 in
    let start : frame_paddr c' first ≡ paddr = omega (
      arith,
      (frame_paddr_bounds first taken.well_formed (get_elem?-lt c'.entries first q1)).0,
      taken.base,
    ) in
    (
      c'',
      rw start at call,
      λ j h. elim (Bool-cases (leb first j && ltb j (first + npages))) [
        | inl t ↦
            rel.inside j (ground arith) (ground arith) ∙ sym (run j (ground arith) (ground arith))
        | inr t ↦
            is_free-eq c''.entries c.entries j
              (rel.outside j (ground arith) (ground arith) ∙ taken.outside j (ground arith))
      ],
      rel.well_formed,
    )

-- The entry after the loop of freeAs.
abbrev disowned : ℕ → CEntry → CEntry
disowned space e = if e.addrspace == space then set_empty e else e

disowned-EntriesOk :
    (space : ℕ) (es : List CEntry) → EntriesOk es → EntriesOk (map (disowned space) es)
disowned-EntriesOk space es v i e h =
    let lt : i < length es =
      omega (arith, get_elem?-lt (map (disowned space) es) i h, length-map (disowned space) es) in
    let (a, q) = get_elem?_of_lt es i lt in
    let back : e ≡ disowned space a = cc (get_elem?-map (disowned space) es i q) in
    let size = length-map (disowned space) es in
    let old = v i a q in
    rw (size, back) record { run = ground (arith, old.run); owned = ground (arith, old.owned) }

-- freeAs of an address space returns, and afterwards no frame belongs to it: its frames are free,
-- the frames of others are as before, and the coremap is well-formed and unlocked.
pub free_as_lem :
    (space : ℕ) (c : Coremap)
    → space ≢ null
    → c.locked ≡ false
    → CoremapOk c
    → (c' : Coremap) × (free_as space c ≡ ok tt c')
      × ((j : ℕ) (e : CEntry) → get_elem? c'.entries j ≡ some e → e.addrspace ≢ space)
      × ((j : ℕ) (e : CEntry)
          → get_elem? c.entries j ≡ some e
          → e.addrspace ≡ space
          → is_free c'.entries j ≡ true)
      × ((j : ℕ) (e : CEntry)
          → get_elem? c.entries j ≡ some e
          → e.addrspace ≢ space
          → get_elem? c'.entries j ≡ some e)
      × CoremapOk c'
      × (c'.locked ≡ false)
unfolding free_as is_free
free_as_lem space c ne l v =
    let size = length-map (disowned space) c.entries in
    (
      record c { entries = map (disowned space) c.entries; locked = false },
      ground arith,
      λ j e h own.
          let lt : j < length c.entries =
            omega (arith, get_elem?-lt (map (disowned space) c.entries) j h, size) in
          let (a, q) = get_elem?_of_lt c.entries j lt in
          ground (arith, get_elem?-map (disowned space) c.entries j q),
      λ j e q own. ground (arith, get_elem?-map (disowned space) c.entries j q),
      λ j e q other. ground (arith, get_elem?-map (disowned space) c.entries j q),
      record {
        fits = rw size v.fits;
        last = v.last;
        aligned = v.aligned;
        victim = rw size v.victim;
        entries = disowned-EntriesOk space c.entries v.entries;
      },
      refl,
    )
