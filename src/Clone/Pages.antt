-- ===== src/Clone/Pages.antt =====
-- The copy of an address space none of whose pages has been touched yet.
use paging_os.Base.{
  ℕ, zero, suc, ◌+◌, ◌<◌, ◌≤◌, ◌≡◌, ◌≢◌, ap, refl, inl, inr, false, some, List, arith, ◌==◌,
  ==_refl, length, get_elem?, get_elem?_of_lt, get_elem?-lt, update, length-update,
  get_elem?-update, Bool-cases, ◌∙◌, sym,
}
use paging_os.Machine.{ok, success}
use paging_os.Machine.Platform.{TlbOps, BitmapOps, WorldOps}
use paging_os.Space.{PtEntry}
use paging_os.Kernel.{Kernel, write_space}
use paging_os.Clone.{blank, copy_page, copy_pages}

-- A page that is neither in memory nor in the swap file.
abbrev pub Untouched : PtEntry → Type 0
Untouched e = (e.in_mem ≡ false) × (e.in_swap ≡ false)

-- The entry of such a page in the copy.
abbrev pub blank_page : PtEntry → PtEntry
blank_page e = record { paddr = 0; vaddr = e.vaddr; in_mem = false; in_swap = false; rwx = e.rwx }

module _ {T B W : Type 0} (tlb : TlbOps T) (bits : BitmapOps B) (wld : WorldOps W) where
  -- the kernel after entry `i` of the table of `newas` was written
  abbrev written : (newas i : ℕ) → PtEntry → Kernel T B W → Kernel T B W
  written newas i e k =
      let a = k.spaces newas in write_space newas (record a { as_pt = update a.as_pt i λ _. e }) k

  -- What the loop from page `i` on does to the table `pt` of the copy, with the table `from`.
  pub record PagesCopied (old newas i : ℕ) (from pt : List PtEntry) (k k' : Kernel T B W)
      : Type 0 where
    pub table : List PtEntry
    pub there : (k'.spaces newas).as_pt ≡ table
    pub size : length table ≡ length pt
    pub new :
        (x : ℕ) (e : PtEntry)
        → i ≤ x
        → get_elem? from x ≡ some e
        → get_elem? table x ≡ some (blank_page e)
    pub old_pages : (x : ℕ) → x < i → get_elem? table x ≡ get_elem? pt x
    pub segments : (k'.spaces newas).as_segment ≡ (k.spaces newas).as_segment
    pub others : (x : ℕ) → x ≢ newas → k'.spaces x ≡ k.spaces x
    pub core : k'.core ≡ k.core
    pub store : k'.store ≡ k.store

  copy_page-Untouched :
      (old newas i : ℕ) (e t : PtEntry) (k : Kernel T B W)
      → old ≢ newas
      → get_elem? (k.spaces old).as_pt i ≡ some e
      → get_elem? (k.spaces newas).as_pt i ≡ some t
      → Untouched e
      → (k' : Kernel T B W) × (copy_page tlb bits wld old newas i k ≡ ok success k')
        × ((k'.spaces newas).as_pt
            ≡ update (update (k.spaces newas).as_pt i (blank e)) i (λ t. record t { paddr = 0 }))
        × ((k'.spaces newas).as_segment ≡ (k.spaces newas).as_segment)
        × ((x : ℕ) → x ≢ newas → k'.spaces x ≡ k.spaces x)
        × (k'.core ≡ k.core)
        × (k'.store ≡ k.store)
  unfolding copy_page
  copy_page-Untouched old newas i e t k ne at_old at_new (mem, swap) =
      let self = ==_refl newas in
      let a = k.spaces newas in
      let k1 = write_space newas (record a { as_pt = update a.as_pt i (blank e) }) k in
      let b = k1.spaces newas in
      (
        write_space newas (record b { as_pt = update b.as_pt i (λ t. record t { paddr = 0 }) }) k1,
        ground arith,
        rw self refl,
        rw self refl,
        (λ x d. let z : (x == newas) ≡ false = ground arith in rw z refl),
        refl,
        refl,
      )

  -- The loop of as_copy over pages none of which is in memory or in the swap file succeeds, for a table
  -- of the same length: it uses no frame, and the copy has an untouched page for each page.
  pub copy_pages-PagesCopied :
      (old newas rounds i : ℕ) (from pt : List PtEntry) (k : Kernel T B W)
      → old ≢ newas
      → (k.spaces old).as_pt ≡ from
      → (k.spaces newas).as_pt ≡ pt
      → i + rounds ≡ length from
      → length pt ≡ length from
      → ((x : ℕ) (e : PtEntry) → get_elem? from x ≡ some e → Untouched e)
      → (k' : Kernel T B W) × (copy_pages tlb bits wld old newas rounds i k ≡ ok success k')
        × PagesCopied old newas i from pt k k'
  unfolding copy_pages
  copy_pages-PagesCopied old newas zero i from pt k ne at_old at_new all size clean = (
    k,
    refl,
    record {
      table = pt;
      there = at_new;
      size = refl;
      new = λ x e lo h. let low = get_elem?-lt from x h in absurd (omega arith);
      old_pages = λ x lo. refl;
      segments = refl;
      others = λ x d. refl;
      core = refl;
      store = refl;
    },
  )
  copy_pages-PagesCopied old newas (suc rounds) i from pt k ne at_old at_new all size clean =
      let (e, here) = get_elem?_of_lt from i (omega arith) in
      let (t, raw) = get_elem?_of_lt pt i (omega arith) in
      let (k1, ran, table, segments, others, core, store) =
        copy_page-Untouched old newas i e t k ne (rw at_old here) (rw at_new raw)
          (clean i e here) in
      let zeroed = λ (p : PtEntry). record p { paddr = 0 } in
      let pt1 = update (update pt i (blank e)) i zeroed in
      let size1 : length pt1 ≡ length from =
        length-update (update pt i (blank e)) i zeroed ∙ length-update pt i (blank e) ∙ size in
      let self = ==_refl i in
      let first : get_elem? pt1 i ≡ some (blank_page e) =
        get_elem?-update (update pt i (blank e)) i i zeroed
        ∙ rw self (rw (get_elem?-update pt i i (blank e)) (rw (self, raw) refl)) in
      let kept = λ (x : ℕ) (d : (i == x) ≡ false).
        let h : get_elem? pt1 x ≡ get_elem? pt x =
          get_elem?-update (update pt i (blank e)) i x zeroed
          ∙ rw d (get_elem?-update pt i x (blank e) ∙ rw d refl) in
        h in
      let (k', run, c) =
        copy_pages-PagesCopied old newas rounds (i + 1) from pt1 k1 ne
          (ap (λ a. a.as_pt) (others old ne) ∙ at_old) (table ∙ rw at_new refl) (omega arith) size1
          clean in
      (
        k',
        rw ran run,
        record {
          table = c.table;
          there = c.there;
          size = c.size ∙ size1 ∙ sym size;
          new = λ x f lo h. elim (Bool-cases (i == x)) [
            | inl q ↦
                let z : i ≡ x = ground arith in
                let same : e ≡ f = cc (here, h, z) in
                c.old_pages x (omega arith) ∙ rw (← z, ← same) first
            | inr q ↦ c.new x f (ground arith) h
          ];
          old_pages = λ x lo. c.old_pages x (omega arith) ∙ kept x (ground arith);
          segments = c.segments ∙ segments;
          others = λ x d. c.others x d ∙ others x d;
          core = c.core ∙ core;
          store = c.store ∙ store;
        },
      )
