-- ===== src/Life/Prepare.antt =====
-- ptAlloc, and the page table that as_prepare_load sets up.
use paging_os.Base.{
  ℕ, ◌-◌, ◌*◌, ◌%◌, ◌≡◌, ◌≢◌, refl, ap, ◌∙◌, true, false, [], ◌∷◌, ◌++◌, arith, ltb, ◌==◌, ==_refl,
  Bool-cases, inl, inr,
}
use paging_os.Machine.{
  u32, pages_for, sub32, Outcome, ok, fault, panicked, carry, and_then, Status, success,
}
use paging_os.Machine.Platform.{TlbOps, BitmapOps, WorldOps}
use paging_os.Coremap.{Coremap, coremap_size, is_free, null, get_multiple_pages, get_available_ram}
use paging_os.Coremap.Inv.{CoremapOk}
use paging_os.Coremap.Alloc.{GotRun, get_multiple_pages_lem}
use paging_os.Space.{Segment, as_define_region, new_segment, total_pages, sizeof_pt_entry}
use paging_os.Space.Layout.{Ordered, Tabled, page_table-Tabled}
use paging_os.Kernel.{Kernel, write_space}
use paging_os.Vm.{pt_alloc}
use paging_os.Vm.Pages.{get_page_lem}
use paging_os.Life.{as_prepare_load, install_table, userstack, stack_size}

-- the segment of the stack
abbrev pub stack_segment : Segment
stack_segment = new_segment (userstack - stack_size) stack_size stack_size 4 2 0 0

module _ {T B W : Type 0} where
  -- An address space that is ready to be loaded.
  pub record Prepared (space : ℕ) (k k' : Kernel T B W) : Type 0 where
    pub segments : (k'.spaces space).as_segment ≡ (k.spaces space).as_segment ++ stack_segment ∷ []
    pub table : Tabled (k'.spaces space).as_pt (k'.spaces space).as_segment 0
    pub unlocked : (k'.spaces space).pt_locked ≡ false
    pub core : CoremapOk k'.core
    pub core_unlocked : k'.core.locked ≡ false

  -- as_prepare_load succeeds, or panics.
  abbrev pub PreparedOr : ℕ → Kernel T B W → Outcome (Kernel T B W) Status → Type 0
  PreparedOr space k (ok result k') = (result ≡ success) × Prepared space k k'
  PreparedOr space k (fault f) = f ≡ panicked

  -- The kernel before the call of ptAlloc.
  abbrev grown : ℕ → Kernel T B W → Kernel T B W
  grown space k =
      let a = k.spaces space in
      let segments = a.as_segment ++ stack_segment ∷ [] in
      let k1 = write_space space (record a { as_segment = segments }) k in
      let b = record a { as_segment = segments; npages = total_pages segments % u32 } in
      let k2 = write_space space b k1 in write_space space (record b { pt_locked = true }) k2

  -- A coremap that can hand out frames.
  pub record CanAlloc (k : Kernel T B W) : Type 0 where
    pub active : k.core.active ≡ true
    pub unlocked : k.core.locked ≡ false
    pub well_formed : CoremapOk k.core
    pub start : k.core.first_paddr ≢ 0
    pub frame : ℕ
    pub free : is_free k.core.entries frame ≡ true

  -- ptAlloc returned an address that is not 0, and changed only the coremap; or it panicked.
  abbrev pub Allocated : Kernel T B W → Outcome (Kernel T B W) ℕ → Type 0
  Allocated k (ok p k') =
      (p ≢ 0) × (k' ≡ record k { core = k'.core }) × CoremapOk k'.core × (k'.core.locked ≡ false)
  Allocated k (fault f) = f ≡ panicked

  run-Allocated :
      (npages : ℕ) (k : Kernel T B W) (c : Coremap) (o : Outcome Coremap ℕ)
      → c.first_paddr ≢ 0
      → GotRun npages true null c o
      → Allocated k (carry (λ c. record k { core = c }) o)
  run-Allocated npages k c (ok p c') ne (first, at_p, run, low, taken) =
      (λ z. ne (omega arith), refl, taken.well_formed, taken.unlocked)
  run-Allocated npages k c (fault f) ne (e, none) = e

module _ {T B W : Type 0} (tlb : TlbOps T) (bits : BitmapOps B) (wld : WorldOps W) where
  -- ptAlloc, when the coremap has a free frame: it returns an address that is not 0 and leaves the
  -- coremap well-formed and unlocked, or it panics for want of a run of frames.
  pt_alloc-Allocated :
      (npages : ℕ) (k : Kernel T B W) → CanAlloc k → Allocated k (pt_alloc tlb bits wld npages k)
  unfolding pt_alloc get_available_ram
  pt_alloc-Allocated npages k v =
      let c1 : Coremap = record k.core { locked = false } in
      let k1 : Kernel T B W = record k { core = c1 } in
      let w = v.well_formed in
      let ok1 : CoremapOk c1 = record {
        fits = w.fits;
        last = w.last;
        aligned = w.aligned;
        victim = w.victim;
        entries = w.entries;
      } in
      let n = pages_for (sizeof_pt_entry * npages % u32) in
      elim (Bool-cases (ltb n (sub32 (coremap_size k.core) k.core.ram_used))) [
        | inr few ↦ rw (v.unlocked, few)
        | inl enough ↦ elim (Bool-cases (ltb 1 n)) [
          | inl many ↦
              rw (v.unlocked, enough, many)
                (run-Allocated n k c1 (get_multiple_pages n true null c1) v.start
                  (get_multiple_pages_lem n true null c1 (ground arith) v.active refl ok1))
          | inr one ↦
              let (p, k', call, got) =
                get_page_lem tlb bits wld true 0 null v.frame k1 v.active refl ok1 v.free in
              rw (v.unlocked, enough, one, call)
                (
                  λ z. v.start (omega (arith, got.address)),
                  got.others,
                  got.taken.well_formed,
                  got.taken.unlocked,
                )
        ]
      ]

  as_prepare_load-steps :
      (space : ℕ) (k : Kernel T B W)
      → (k.spaces space).pt_locked ≡ false
      → as_prepare_load tlb bits wld true space k
        ≡ and_then
            (pt_alloc tlb bits wld ((grown space k).spaces space).npages (grown space k))
            (install_table space)
  unfolding as_prepare_load as_define_region
  as_prepare_load-steps space k u = let same = ==_refl space in ground arith

  install_table-Prepared :
      (space : ℕ) (k : Kernel T B W) (o : Outcome (Kernel T B W) ℕ)
      → Ordered 0 ((k.spaces space).as_segment ++ stack_segment ∷ [])
      → Allocated (grown space k) o
      → PreparedOr space k (and_then o (install_table space))
  unfolding install_table
  install_table-Prepared space k (fault f) order e = e
  install_table-Prepared space k (ok p k') order (ne, same, good, free) =
      let self = ==_refl space in
      let segments : (k'.spaces space).as_segment
          ≡ (k.spaces space).as_segment ++ stack_segment ∷ [] =
        ap (λ q. (q.spaces space).as_segment) same ∙ rw self refl in
      let held : (k'.spaces space).pt_locked ≡ true =
        ap (λ q. (q.spaces space).pt_locked) same ∙ rw self refl in
      let nz : (p == 0) ≡ false = ground arith in
      rw (nz, self, held)
        (
          refl,
          record {
            segments = rw self segments;
            table =
                rw (self, segments)
                  (page_table-Tabled ((k.spaces space).as_segment ++ stack_segment ∷ []) 0 order);
            unlocked = rw self;
            core = good;
            core_unlocked = free;
          },
        )

  -- as_prepare_load of an address space whose segments and stack are in order, when kmalloc has the memory
  -- for the segment of the stack and the coremap has a free frame: it succeeds and leaves a page
  -- table with the pages of all segments and the stack, its lock and the coremap's free, and the
  -- coremap well-formed; or it panics.
  pub as_prepare_load-Prepared :
      (space : ℕ) (k : Kernel T B W)
      → (k.spaces space).pt_locked ≡ false
      → CanAlloc k
      → Ordered 0 ((k.spaces space).as_segment ++ stack_segment ∷ [])
      → PreparedOr space k (as_prepare_load tlb bits wld true space k)
  as_prepare_load-Prepared space k u v order =
      let g = grown space k in
      let v' : CanAlloc g = record {
        active = v.active;
        unlocked = v.unlocked;
        well_formed = v.well_formed;
        start = v.start;
        frame = v.frame;
        free = v.free;
      } in
      rw (as_prepare_load-steps space k u) (
        install_table-Prepared space k (pt_alloc tlb bits wld (g.spaces space).npages g) order
          (pt_alloc-Allocated (g.spaces space).npages g v'))
