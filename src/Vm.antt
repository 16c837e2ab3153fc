-- ===== src/Vm.antt =====
-- The virtual memory system as a whole: getPage and getPages of kern/vm/coremap.c, and of
-- kern/vm/addrspace.c vm_fault and the allocation of kernel pages, over the coremap, the TLB with the
-- counters, the swap file and the address spaces.
pub mod Pages
pub mod Fault
pub mod Resident
use paging_os.Base.{
  ℕ, zero, suc, ◌+◌, ◌-◌, ◌*◌, ◌/◌, ◌%◌, Bool, true, false, not, Option, none, some, List, [], ◌∷◌,
  ltb, leb, ◌==◌, if◌then◌else◌, get_elem?, length, update, map,
}
use paging_os.Machine.{
  u32, page_size, add32, sub32, page_frame, paddr_to_kvaddr, kseg0, pages_for, has_bit, Cmd,
  Outcome, ok, fault, pure, fail, get, modify, kassert, carry, and_then, ◌>>=◌, ◌>>◌, panicked,
  wild_access, out_of_fuel, Status, success, err, enomem, efault, einval,
}
use paging_os.Machine.Platform.{TlbOps, BitmapOps, WorldOps}
use paging_os.Stats.{
  Stats, vm_stats_inc, tlb_fault, tlb_reload, page_fault_zeroed, page_fault_disk, elf_read,
  swap_read, swap_write,
}
use paging_os.Tlb
use paging_os.Tlb.{Mmu, tlb_loadentry, tlb_invalidate_vaddr}
use paging_os.Swap.{Store, swap_in, swap_out, get_available_swap}
use paging_os.Coremap.{
  Coremap, coremap_size, frame_paddr, null, find_free, take_frame, find_victim, get_multiple_pages,
  freepages, is_coremap_active, get_available_ram, spin_acquire, spin_release,
}
use paging_os.Space.{
  PtEntry, Segment, AddrSpace, pt_acquire, pt_release, find_segment, find_page, Search, hit, miss,
  wild, sizeof_pt_entry,
}
use paging_os.Elf.{load_elf_ondemand}
use paging_os.Kernel.{
  can_sleep, Kernel, proc_getas, on_core, on_mmu, on_store, on_space, write_space, count, pt_entry,
  set_pt_entry,
}
use paging_os.Pt.{get_page_v_to_p, ret_one, ret_zero, ret_minus_one}

-- The kinds of vm_fault's `faulttype`.
pub data FaultType : Type 0 where
  vm_fault_readonly vm_fault_read vm_fault_write vm_fault_unknown : FaultType

-- The first page-table entry with the given physical address, from `i` on.
pub find_paddr : List PtEntry → (paddr i : ℕ) → Option ℕ
find_paddr [] paddr i = none
find_paddr (e ∷ es) paddr i =
    let rest = find_paddr es paddr (i + 1) in if e.paddr == paddr then some i else rest

module _ {T B W : Type 0} (tlb : TlbOps T) (bits : BitmapOps B) (wld : WorldOps W) where
  -- The part of getPage that takes page `j` of the address space out of its frame.
  unfoldable pub evict_page : (space j : ℕ) → Cmd (Kernel T B W) (Unit {0})
  evict_page space j = do
    e ← pt_entry space j
    if has_bit 1 e.rwx
        then (do
          r ← on_store (swap_out bits wld e.paddr)
          elim r.0 [
            | err _ ↦ kassert false
            | success ↦ do
              set_pt_entry space j (λ e. record e { paddr = r.1 })
              count swap_write
              set_pt_entry space j (λ e. record e { in_swap = true })
          ])
        else set_pt_entry space j (λ e. record e { paddr = 0 })
    set_pt_entry space j (λ e. record e { in_mem = false })
    on_mmu (tlb_invalidate_vaddr tlb e.vaddr)

  -- getPage with no free frame, from the test of `as` on.
  unfoldable pub reclaim : (space : ℕ) → Cmd (Kernel T B W) ℕ
  unfolding evict_page
  reclaim space = do
    k ← get
    if space == null then pure (frame_paddr k.core 0) else do
      room ← on_store (get_available_swap bits wld)
      if room == 0
          then fail panicked
          else elim (find_victim k.core.entries space (coremap_size k.core) k.core.next_svic) [
            | none ↦ fail out_of_fuel
            | some (i, next_svic) ↦ do
              on_core (modify λ c. record c { next_svic = next_svic })
              on_core spin_release
              on_space space pt_acquire
              k ← get
              addr ← elim (find_paddr (k.spaces space).as_pt (frame_paddr k.core i) 0) [
                | none ↦ pure 0
                | some j ↦ do evict_page space j; pure i
              ]
              on_space space pt_release
              k ← get
              pure (frame_paddr k.core addr)
          ]

  unfoldable pub get_page : (is_reserved : Bool) → (vaddr space : ℕ) → Cmd (Kernel T B W) ℕ
  unfolding reclaim
  get_page is_reserved vaddr space = do
    on_core spin_acquire
    k ← get
    if not k.core.active
        then (do on_core spin_release; pure 0)
        else let i = find_free k.core.entries (coremap_size k.core) 0 in
          if ltb i (coremap_size k.core)
          then (do
            on_core (modify (take_frame is_reserved vaddr space i))
            on_core spin_release
            pure (frame_paddr k.core i))
          else reclaim space

  unfoldable pub get_pages : (npages vaddr space : ℕ) → Cmd (Kernel T B W) ℕ
  unfolding get_page
  get_pages npages vaddr space =
      if ltb 1 npages
      then on_core (get_multiple_pages npages false space)
      else get_page false vaddr space

  -- ptAlloc
  unfoldable pub pt_alloc : (npages : ℕ) → Cmd (Kernel T B W) ℕ
  unfolding get_page
  pt_alloc npages =
      let numpages = pages_for (sizeof_pt_entry * npages % u32) in
      do
        room ← on_core get_available_ram
        if ltb numpages room
            then (if ltb 1 numpages
                then on_core (get_multiple_pages numpages true null)
                else get_page true 0 null)
            else fail panicked

  -- getppages and alloc_kpages. `stolen` is what ram_stealmem returns.
  unfoldable pub alloc_kpages : (npages stolen : ℕ) → Cmd (Kernel T B W) ℕ
  unfolding get_pages
  alloc_kpages npages stolen = do
    can_sleep
    addr ← get_pages npages 0 null
    let pa = if addr == 0 then stolen else addr
    if pa == 0 then pure 0 else pure (paddr_to_kvaddr pa)

  -- A page that getPageVtoP finds and one that it does not look for are freed by `freepages`.
  unfoldable pub free_kpages : (addr : ℕ) → Cmd (Kernel T B W) (Unit {0})
  free_kpages addr = do
    active ← on_core is_coremap_active
    if active
        then (do
          r ← get_page_v_to_p addr
          elim r.0 [
            | ret_one ↦ elim r.1 [
              | none ↦ fail wild_access
              | some paddr ↦ on_core (freepages paddr)
            ]
            | ret_zero ↦ on_core (freepages (sub32 addr kseg0))
            | ret_minus_one ↦ fail panicked
          ])
        else pure tt

  -- The branch of vm_fault for a page that is in the swap file.
  unfoldable pub fault_swap : (space i faultaddress : ℕ) → Cmd (Kernel T B W) (Unit {0})
  fault_swap space i faultaddress = do
    on_space space pt_release
    new_paddr ← get_pages 1 faultaddress space
    on_space space pt_acquire
    e ← pt_entry space i
    r ← on_store (swap_in bits wld e.paddr new_paddr true)
    set_pt_entry space i (λ e. record e { paddr = r.1 })
    set_pt_entry space i (λ e. record e { in_swap = false })
    count swap_read
    count page_fault_disk

  -- The frame of a page that is not in the swap file.
  unfoldable pub fault_frame : (space i faultaddress : ℕ) → Cmd (Kernel T B W) (Unit {0})
  fault_frame space i faultaddress = do
    e ← pt_entry space i
    if e.paddr == 0
        then (do
          on_space space pt_release
          p ← get_pages 1 faultaddress space
          set_pt_entry space i (λ e. record e { paddr = p })
          on_space space pt_acquire)
        else pure tt

  -- The branch for a page that is not in the swap file: from the program, or zeroed if the segment is
  -- the last one. The result of the load is not used.
  unfoldable pub fault_load :
      (space i faultaddress : ℕ) → Segment → (more : Bool) → Cmd (Kernel T B W) (Unit {0})
  unfolding fault_frame
  fault_load space i faultaddress seg more = do
    fault_frame space i faultaddress
    e ← pt_entry space i
    k ← get
    if more
        then (do
          _ ← on_store (λ s.
              carry (λ w. record s { world = w })
                (load_elf_ondemand wld (k.spaces space).v seg e.paddr faultaddress s.world))
          count elf_read
          count page_fault_disk)
        else (do
          on_store (
              modify
                λ s. record s { world = wld.bzero s.world (paddr_to_kvaddr e.paddr) page_size })
          count page_fault_zeroed)

  -- The case VM_FAULT_READ and VM_FAULT_WRITE of the switch.
  unfoldable pub page_in :
      (space i faultaddress : ℕ) → Segment → (more : Bool) → Cmd (Kernel T B W) (Unit {0})
  unfolding fault_swap fault_load
  page_in space i faultaddress seg more = do
    e ← pt_entry space i
    if e.in_mem then count tlb_reload else (do
      (if e.in_swap
          then fault_swap space i faultaddress
          else fault_load space i faultaddress seg more)
      set_pt_entry space i (λ e. record e { in_mem = true }))

  -- vm_fault from the switch on, for the page-table entry `i`.
  unfoldable pub handle_fault :
      FaultType → (space i faultaddress : ℕ) → Segment → (more : Bool) → Cmd (Kernel T B W) Status
  handle_fault vm_fault_readonly space i faultaddress seg more = do
    on_space space pt_release
    fail panicked
  handle_fault vm_fault_unknown space i faultaddress seg more = do
    on_space space pt_release
    pure (err einval)
  handle_fault _ space i faultaddress seg more = do
    page_in space i faultaddress seg more
    e ← pt_entry space i
    result ← on_mmu (tlb_loadentry tlb faultaddress e.paddr (not (has_bit 1 e.rwx)))
    on_space space pt_release
    pure result

  unfoldable pub vm_fault : FaultType → (address : ℕ) → Cmd (Kernel T B W) Status
  vm_fault faulttype address =
      let faultaddress = page_frame address in
      do
        count tlb_fault
        k ← get
        if not k.curproc then pure (err efault) else do
          space ← proc_getas
          if space == null then pure (err efault) else elim ((k.spaces space).as_segment) [
            | [] ↦ fail wild_access
            | s ∷ rest ↦ do
              let (seg, more, np) = find_segment s rest faultaddress 0
              on_space space pt_acquire
              k ← get
              elim (find_page (k.spaces space).as_pt faultaddress seg.npages np) [
                | wild ↦ fail wild_access
                | miss ↦ do on_space space pt_release; fail panicked
                | hit i ↦ handle_fault faulttype space i faultaddress seg more
              ]
          ]
