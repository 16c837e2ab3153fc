-- ===== src/Vm/Pages.antt =====
-- getPage with a free frame and without one, and what the kernel's own pages make of it:
-- alloc_kpages and free_kpages.
use paging_os.Base.{
  ℕ, ◌+◌, ◌*◌, ◌/◌, ◌%◌, ◌<◌, ◌≡◌, refl, ◌≢◌, inl, inr, Bool, true, false, some, List, arith, ltb,
  lt→ltb, le→ltb, ◌==◌, length, get_elem?, get_elem?_of_lt, update, get_elem?-update, Bool-cases,
}
use paging_os.Machine.{page_size, ok, fault, deadlock, panicked, paddr_to_kvaddr}
use paging_os.Machine.Platform.{TlbOps, BitmapOps, WorldOps}
use paging_os.Coremap.{
  CEntry, Coremap, coremap_size, frame_paddr, null, is_free, find_free, take_frame, set_coreentry,
  get_multiple_pages, is_coremap_active,
}
use paging_os.Coremap.Inv.{CoremapOk, set_coreentry-used, frame_paddr_bounds}
use paging_os.Coremap.Scan.{find_free-FirstFree, lt_of_is_free}
use paging_os.Coremap.Alloc.{RunTaken, take_frame-CoremapOk}
use paging_os.Kernel.{can_sleep, Kernel, proc_getas}
use paging_os.Stats.{check_can_lock}
use paging_os.Pt.{get_page_v_to_p}
use paging_os.Vm.{get_page, get_pages, alloc_kpages, free_kpages}

used-is_free :
    (es : List CEntry) (j : ℕ) {e : CEntry}
    → get_elem? es j ≡ some e
    → e.vaddr / 2 % 2 ≡ 1
    → is_free es j ≡ false
unfolding is_free
used-is_free es j h u = ground arith

-- The frame that the first branch of getPage takes.
take_frame-RunTaken :
    (is_reserved : Bool) (vaddr space i : ℕ) (c : Coremap)
    → is_free c.entries i ≡ true
    → CoremapOk c
    → RunTaken 1 is_reserved space i c
        (record (take_frame is_reserved vaddr space i c) { locked = false })
unfolding take_frame set_coreentry
take_frame-RunTaken is_reserved vaddr space i c f v =
    let h = lt_of_is_free c.entries i f in
    let mark =
      λ (e : CEntry). record (set_coreentry vaddr is_reserved space e) { allocpages = 1 } in
    let w = take_frame-CoremapOk is_reserved space vaddr i c h v in
    record {
      inside = λ j lo hi.
          let q : i ≡ j = omega arith in
          let (e, here) = get_elem?_of_lt c.entries i h in
          let there : get_elem? (update c.entries i mark) i ≡ some (mark e) =
            ground (arith, get_elem?-update c.entries i i mark) in
          let same : (i == i) ≡ true = ground arith in
          rw (← q) (
            e,
            mark e,
            here,
            there,
            used-is_free (update c.entries i mark) i there
                (set_coreentry-used vaddr space is_reserved e),
            refl,
            rw same,
          );
      outside = λ j out. ground (arith, get_elem?-update c.entries i j mark);
      base = refl;
      unlocked = refl;
      well_formed = record {
        fits = w.fits;
        last = w.last;
        aligned = w.aligned;
        victim = w.victim;
        entries = w.entries;
      };
    }

find_free-none :
    (es : List CEntry) → ((i : ℕ) → is_free es i ≡ false) → find_free es (length es) 0 ≡ length es
find_free-none es absent =
    let s = find_free-FirstFree es (length es) 0 (length es) (omega arith) in
    elim (Bool-cases (ltb (find_free es (length es) 0) (length es))) [
      | inl t ↦
          let h = s.free (ground arith) in let g = absent (find_free es (length es) 0) in cc (h, g)
      | inr t ↦ ground (arith, s.upto)
    ]

-- The state and the address after getPage found a free frame.
pub record GotFrame {T B W : Type 0} (is_reserved : Bool) (space paddr : ℕ) (k k' : Kernel T B W)
    : Type 0 where
  pub frame : ℕ
  pub address : paddr ≡ k.core.first_paddr + frame * page_size
  pub free : is_free k.core.entries frame ≡ true
  pub lowest : (j : ℕ) → j < frame → is_free k.core.entries j ≡ false
  pub taken : RunTaken 1 is_reserved space frame k.core k'.core
  pub others : k' ≡ record k { core = k'.core }

module _ {T B W : Type 0} (tlb : TlbOps T) (bits : BitmapOps B) (wld : WorldOps W) where
  -- Whenever a frame of an initialised, well-formed and unlocked coremap is free, getPage returns the
  -- address of the lowest free one, marks that frame and no other, and leaves the coremap well-formed
  -- with its spinlock free, and the rest of the kernel as it was.
  pub get_page_lem :
      (is_reserved : Bool) (vaddr space i : ℕ) (k : Kernel T B W)
      → k.core.active ≡ true
      → k.core.locked ≡ false
      → CoremapOk k.core
      → is_free k.core.entries i ≡ true
      → (paddr : ℕ) × (k' : Kernel T B W) × (get_page tlb bits wld is_reserved vaddr space k
          ≡ ok paddr k')
        × GotFrame is_reserved space paddr k k'
  unfolding get_page take_frame
  get_page_lem is_reserved vaddr space i k a l v f =
      let size = coremap_size k.core in
      let r = find_free k.core.entries size 0 in
      let s = find_free-FirstFree k.core.entries size 0 size (omega arith) in
      let hi = lt_of_is_free k.core.entries i f in
      let h : r < size = elim (Bool-cases (ltb i r)) [
        | inl t ↦ let g = s.least i (omega arith) (ground arith) in cc (f, g)
        | inr t ↦ ground arith
      ] in
      let c' : Coremap = record (take_frame is_reserved vaddr space r k.core) { locked = false } in
      (
        frame_paddr k.core r,
        record k { core = c' },
        rw (l, a, lt→ltb r size h),
        record {
          frame = r;
          address = (frame_paddr_bounds r v h).0;
          free = s.free h;
          lowest = λ j lt. s.least j (omega arith) lt;
          taken = take_frame-RunTaken is_reserved vaddr space r k.core (s.free h) v;
          others = refl;
        },
      )

  -- When no frame of an initialised, well-formed and unlocked coremap is free, and the caller may sleep,
  -- alloc_kpages of one page returns the kernel address of frame 0, which is in use, and leaves the
  -- coremap's spinlock taken: the next getPages, of any number of pages and for any address space,
  -- waits for it forever.
  pub alloc_kpages_full :
      (stolen : ℕ) (k : Kernel T B W)
      → k.mmu.stats.cpu.spinlocks ≡ 0
      → k.mmu.stats.cpu.in_interrupt ≡ false
      → k.core.active ≡ true
      → k.core.locked ≡ false
      → 0 < coremap_size k.core
      → CoremapOk k.core
      → k.core.first_paddr ≢ 0
      → ((i : ℕ) → is_free k.core.entries i ≡ false)
      → (k' : Kernel T B W) × (alloc_kpages tlb bits wld 1 stolen k
          ≡ ok (paddr_to_kvaddr k.core.first_paddr) k')
        × (k'.core.locked ≡ true)
        × ((npages vaddr space : ℕ) → get_pages tlb bits wld npages vaddr space k' ≡ fault deadlock)
  unfolding alloc_kpages get_multiple_pages can_sleep
  alloc_kpages_full stolen k sl ir a l pos v ne full =
      let size = coremap_size k.core in
      let r = find_free k.core.entries size 0 in
      let none_free : r ≡ size = find_free-none k.core.entries full in
      let past : ltb r size ≡ false = le→ltb r size (omega arith) in
      let zero_frame : frame_paddr k.core 0 ≡ k.core.first_paddr = omega (arith, v.fits, v.last) in
      let nz : (k.core.first_paddr == 0) ≡ false = ground arith in
      let c' : Coremap = record k.core { locked = true } in
      (
        record k { core = c' },
        elim (Bool-cases k.mmu.stats.cpu.present) [
          | inl t ↦ rw (t, sl, ir, l, a, past, zero_frame, nz) (rw nz refl)
          | inr t ↦ rw (t, l, a, past, zero_frame, nz) (rw nz refl)
        ],
        refl,
        λ npages vaddr space. elim (Bool-cases (ltb 1 npages)) [ inl t ↦ rw t | inr t ↦ rw t ],
      )

  -- free_kpages on an active coremap panics, whatever the address, if the current process has an address
  -- space, and neither the coremap nor the page table is locked.
  pub free_kpages_panics :
      (addr : ℕ) (k : Kernel T B W)
      → k.core.active ≡ true
      → k.core.locked ≡ false
      → k.curproc ≡ true
      → k.cur_as ≢ null
      → (k.spaces k.cur_as).pt_locked ≡ false
      → free_kpages tlb bits wld addr k ≡ fault panicked
  unfolding free_kpages is_coremap_active proc_getas get_page_v_to_p
  free_kpages_panics addr k a l p ne u = elim (Bool-cases (check_can_lock k.mmu.stats.cpu)) [
    | inl t ↦ ground arith
    | inr t ↦ ground arith
  ]
