-- ===== src/Coremap/Alloc.antt =====
-- What getMultiplePages and the first branch of getPage do to the coremap.
use paging_os.Base.{
  ℕ, ◌+◌, ◌-◌, ◌*◌, ◌/◌, ◌%◌, ◌≤◌, ◌<◌, ◌≡◌, refl, ◌⊎◌, inl, inr, Bool, true, false, none, some,
  List, arith, ◌==◌, if◌then◌else◌, length, get_elem?, get_elem?_of_lt, update, update_range,
  length-update, length-update_range, get_elem?-update, get_elem?-update_range, Option-cases, ◌∙◌,
}
use paging_os.Machine.{page_size, Outcome, ok, fault, panicked, paddr_to_kvaddr}
use paging_os.Coremap.{
  CEntry, Coremap, coremap_size, frame_paddr, null, is_free, set_coreentry, take_frame, take_run,
  get_multiple_pages, scan_run,
}
use paging_os.Coremap.Inv.{
  CoremapOk, EntriesOk-update, EntriesOk-update_range, EntryOk-set_coreentry, set_coreentry-used,
  frame_paddr_bounds,
}
use paging_os.Coremap.Scan.{FreeRun, scan_run_lem, lt_of_is_free}

-- A run of free frames lies in the table.
pub FreeRun-le : (es : List CEntry) (s n : ℕ) → 0 < n → FreeRun es s n → s + n ≤ length es
FreeRun-le es s n pos run =
    omega (arith, lt_of_is_free es (s + n - 1) (run (s + n - 1) (omega arith) (omega arith)))

module _ (is_reserved : Bool) (space : ℕ) where
  -- Marking a frame of the table with an owner keeps the coremap well-formed.
  pub take_frame-CoremapOk :
      (vaddr i : ℕ) (c : Coremap)
      → i < coremap_size c
      → CoremapOk c
      → CoremapOk (take_frame is_reserved vaddr space i c)
  unfolding take_frame
  take_frame-CoremapOk vaddr i c h v =
      let size =
        length-update c.entries i
          (λ e. record (set_coreentry vaddr is_reserved space e) { allocpages = 1 }) in
      record {
        fits = rw size v.fits;
        last = v.last;
        aligned = v.aligned;
        victim = rw size v.victim;
        entries =
            EntriesOk-update c.entries i _
              (λ e q. record {
                run = omega arith;
                owned = λ _. set_coreentry-used vaddr space is_reserved e;
              })
              v.entries;
      }

  take_run-CoremapOk :
      (npages first : ℕ) (c : Coremap)
      → first + npages ≤ coremap_size c
      → CoremapOk c
      → CoremapOk (take_run npages is_reserved space first c)
  unfolding take_run
  take_run-CoremapOk npages first c h v =
      let mark = λ (i : ℕ). set_coreentry (paddr_to_kvaddr (frame_paddr c i)) is_reserved space in
      let es = update c.entries first (λ e. record e { allocpages = npages }) in
      let size : length (update_range mark es npages first) ≡ coremap_size c =
        length-update_range mark es npages first ∙ length-update c.entries first _ in
      record {
        fits = rw size v.fits;
        last = v.last;
        aligned = v.aligned;
        victim = rw size v.victim;
        entries =
            EntriesOk-update_range mark es npages first
              (λ j e lo hi q. EntryOk-set_coreentry _ j _ space is_reserved e q.run)
              (EntriesOk-update c.entries first _
                (λ e q. record { run = h; owned = (v.entries first e q).owned }) v.entries);
      }

  -- The entries after a run of frames is taken: those of the run are marked, and the others stay.
  pub take_run-inside :
      (npages first j : ℕ) (c : Coremap) {e : CEntry}
      → get_elem? c.entries j ≡ some e
      → first ≤ j
      → j < first + npages
      → (e' : CEntry) × (get_elem? (take_run npages is_reserved space first c).entries j ≡ some e')
        × (e'.vaddr / 2 % 2 ≡ 1)
        × (e'.addrspace ≡ (if is_reserved then null else space))
        × (e'.allocpages ≡ (if first == j then npages else e.allocpages))
  unfolding take_run set_coreentry
  take_run-inside npages first j c {e} h lo hi =
      let mark = λ (i : ℕ). set_coreentry (paddr_to_kvaddr (frame_paddr c i)) is_reserved space in
      let es = update c.entries first (λ e. record e { allocpages = npages }) in
      let e0 : CEntry = if first == j then record e { allocpages = npages } else e in
      let one : get_elem? es j ≡ some e0 =
        ground
          (arith, get_elem?-update c.entries first j (λ e. record e { allocpages = npages })) in
      (
        mark j e0,
        ground (arith, get_elem?-update_range mark es npages first j),
        set_coreentry-used (paddr_to_kvaddr (frame_paddr c j)) space is_reserved e0,
        refl,
        ground arith,
      )

  pub take_run-outside :
      (npages first j : ℕ) (c : Coremap)
      → 0 < npages
      → (j < first) ⊎ (first + npages ≤ j)
      → get_elem? (take_run npages is_reserved space first c).entries j ≡ get_elem? c.entries j
  unfolding take_run
  take_run-outside npages first j c pos out =
      let mark = λ (i : ℕ). set_coreentry (paddr_to_kvaddr (frame_paddr c i)) is_reserved space in
      let es = update c.entries first (λ e. record e { allocpages = npages }) in
      ground (
        arith,
        get_elem?-update_range mark es npages first j,
        get_elem?-update c.entries first j (λ e. record e { allocpages = npages }),
      )

-- The state after `npages` frames from `first` on were handed out.
pub record RunTaken (npages : ℕ) (is_reserved : Bool) (space first : ℕ) (c c' : Coremap)
    : Type 0 where
  pub inside :
      (j : ℕ)
      → first ≤ j
      → j < first + npages
      → (e e' : CEntry) × (get_elem? c.entries j ≡ some e)
        × (get_elem? c'.entries j ≡ some e')
        × (is_free c'.entries j ≡ false)
        × (e'.addrspace ≡ (if is_reserved then null else space))
        × (e'.allocpages ≡ (if first == j then npages else e.allocpages))
  pub outside :
      (j : ℕ) → (j < first) ⊎ (first + npages ≤ j) → get_elem? c'.entries j ≡ get_elem? c.entries j
  pub base : c'.first_paddr ≡ c.first_paddr
  pub unlocked : c'.locked ≡ false
  pub well_formed : CoremapOk c'

-- getMultiplePages returns the address of the lowest run, or panics when there is no run.
abbrev pub GotRun : ℕ → Bool → ℕ → Coremap → Outcome Coremap ℕ → Type 0
GotRun npages is_reserved space c (ok paddr c') =
    (first : ℕ) × (paddr ≡ c.first_paddr + first * page_size)
    × FreeRun c.entries first npages
    × ((t : ℕ) → t < first → ¬ FreeRun c.entries t npages)
    × RunTaken npages is_reserved space first c c'
GotRun npages is_reserved space c (fault f) =
    (f ≡ panicked) × ((t : ℕ) → ¬ FreeRun c.entries t npages)

used-is_free :
    (es : List CEntry) (j : ℕ) {e : CEntry}
    → get_elem? es j ≡ some e
    → e.vaddr / 2 % 2 ≡ 1
    → is_free es j ≡ false
unfolding is_free
used-is_free es j h u = ground arith

get_multiple_pages-none :
    (npages : ℕ) (is_reserved : Bool) (space : ℕ) (c : Coremap)
    → c.active ≡ true
    → c.locked ≡ false
    → scan_run c.entries npages (coremap_size c) 0 0 ≡ none
    → get_multiple_pages npages is_reserved space c ≡ fault panicked
unfolding get_multiple_pages
get_multiple_pages-none npages is_reserved space c a l h = ground arith

get_multiple_pages-some :
    (npages : ℕ) (is_reserved : Bool) (space first : ℕ) (c : Coremap)
    → c.active ≡ true
    → c.locked ≡ false
    → scan_run c.entries npages (coremap_size c) 0 0 ≡ some first
    → get_multiple_pages npages is_reserved space c
      ≡ ok
          (frame_paddr c first)
          (record (take_run npages is_reserved space first c) { locked = false })
unfolding get_multiple_pages
get_multiple_pages-some npages is_reserved space first c a l h = ground arith

-- A run that was found and taken.
take_run-RunTaken :
    (npages : ℕ) (is_reserved : Bool) (space first : ℕ) (c : Coremap)
    → 0 < npages
    → FreeRun c.entries first npages
    → CoremapOk c
    → RunTaken npages is_reserved space first c
        (record (take_run npages is_reserved space first c) { locked = false })
unfolding take_run
take_run-RunTaken npages is_reserved space first c pos run v = record {
  inside = λ j lo hi.
      let (e, q) = get_elem?_of_lt c.entries j (lt_of_is_free c.entries j (run j lo hi)) in
      let (e', here, used, owner, count) =
        take_run-inside is_reserved space npages first j c q lo hi in
      (e, e', q, here, used-is_free _ j here used, owner, count);
  outside = λ j out. take_run-outside is_reserved space npages first j c pos out;
  base = refl;
  unlocked = refl;
  well_formed =
      let w =
        take_run-CoremapOk is_reserved space npages first c
          (FreeRun-le c.entries first npages pos run) v in
      record {
        fits = w.fits;
        last = w.last;
        aligned = w.aligned;
        victim = w.victim;
        entries = w.entries;
      };
}

-- getMultiplePages on an initialised coremap whose spinlock is free: it returns, with the lock free
-- again and the coremap well-formed, the address of the lowest run of `npages` free frames, having
-- marked exactly the frames of that run; and it panics exactly when there is no such run.
pub get_multiple_pages_lem :
    (npages : ℕ) (is_reserved : Bool) (space : ℕ) (c : Coremap)
    → 0 < npages
    → c.active ≡ true
    → c.locked ≡ false
    → CoremapOk c
    → GotRun npages is_reserved space c (get_multiple_pages npages is_reserved space c)
get_multiple_pages_lem npages is_reserved space c pos a l v =
    let found = scan_run_lem c.entries npages pos in
    elim (Option-cases (scan_run c.entries npages (coremap_size c) 0 0)) [
      | inl q ↦
          let nowhere = rw q at found in
          rw (get_multiple_pages-none npages is_reserved space c a l q)
            (refl, λ t run. nowhere t (FreeRun-le c.entries t npages pos run) run)
      | inr (first, q) ↦
          let (run, lowest) = rw q at found in
          let fits = FreeRun-le c.entries first npages pos run in
          rw (get_multiple_pages-some npages is_reserved space first c a l q) (
            first,
            (frame_paddr_bounds first v (omega arith)).0,
            run,
            lowest,
            take_run-RunTaken npages is_reserved space first c pos run v,
          )
    ]
