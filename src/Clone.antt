-- ===== src/Clone.antt =====
-- as_create and as_copy of kern/vm/addrspace.c.
pub mod Pages
use paging_os.Base.{
  ℕ, zero, suc, ◌+◌, Bool, true, false, not, List, [], ◌∷◌, ◌++◌, ◌==◌, if◌then◌else◌,
}
use paging_os.Machine.{
  page_size, paddr_to_kvaddr, Cmd, pure, get, modify, ◌>>=◌, ◌>>◌, Status, success, err, enomem,
  enoent, ok,
}
use paging_os.Machine.Platform.{TlbOps, BitmapOps, WorldOps}
use paging_os.Coremap.{null}
use paging_os.Swap.{swap_in}
use paging_os.Space.{PtEntry, Segment, AddrSpace, pt_acquire, pt_release}
use paging_os.Kernel.{Kernel, can_sleep, on_store, on_space, write_space, pt_entry, set_pt_entry}
use paging_os.Vm.{get_pages, pt_alloc}

-- What as_create gets from code that is not in the repository or that only allocates: the pointer of
-- kmalloc, the result and the vnode of vfs_open, and whether lock_create worked.
pub record Creation : Type 0 where
  pub newas : ℕ
  pub opened : Bool
  pub vnode : ℕ
  pub lock_created : Bool

module _ {T B W : Type 0} where
  -- The address space, or NULL, and what `*retVal` becomes. npages keeps what kmalloc left there.
  unfoldable pub as_create : Creation → Cmd (Kernel T B W) (ℕ × Status)
  as_create c = do
    can_sleep
    if c.newas == null
        then pure (null, err enomem)
        else if not c.opened
        then pure (null, err enoent)
        else do
          on_space c.newas
              (modify λ a. record a { v = c.vnode; as_segment = []; as_pt = []; pt_locked = false })
          if c.lock_created then pure (c.newas, success) else pure (null, err enomem)

  -- The loop of as_copy over the segments; `allocated i`: whether kmalloc had the memory for segment `i`.
  unfoldable pub copy_segments :
      (allocated : ℕ → Bool) → (newas i : ℕ) → List Segment → Cmd (Kernel T B W) Status
  copy_segments allocated newas i [] = pure success
  copy_segments allocated newas i (seg ∷ segments) =
      let rest = copy_segments allocated newas (i + 1) segments in
      if not (allocated i)
      then pure (err enomem)
      else do on_space newas (modify λ a. record a { as_segment = a.as_segment ++ seg ∷ [] }); rest

-- The entry of the copy before its frame is known.
abbrev pub blank : PtEntry → PtEntry → PtEntry
blank e t = record t { in_mem = false; in_swap = false; rwx = e.rwx; vaddr = e.vaddr }

module _ {T B W : Type 0} (tlb : TlbOps T) (bits : BitmapOps B) (wld : WorldOps W) where
  -- One round of the loop over the pages.
  unfoldable pub copy_page : (old newas i : ℕ) → Cmd (Kernel T B W) Status
  copy_page old newas i = do
    e ← pt_entry old i
    _ ← pt_entry newas i
    set_pt_entry newas i (blank e)
    if e.in_swap
        then (do
          paddr ← get_pages tlb bits wld 1 e.vaddr newas
          t ← pt_entry newas i
          r ← on_store (swap_in bits wld t.paddr paddr false)
          set_pt_entry newas i (λ t. record t { paddr = r.1 })
          elim r.0 [
            | err x ↦ pure (err x)
            | success ↦ do
              set_pt_entry newas i (λ t. record t { in_swap = false; in_mem = true })
              pure success
          ])
        else if e.in_mem
        then (do
          paddr ← get_pages tlb bits wld 1 e.vaddr newas
          e ← pt_entry old i
          on_store (
              modify λ s. record s {
                world =
                    wld.memmove s.world (paddr_to_kvaddr paddr) (paddr_to_kvaddr e.paddr) page_size;
              })
          set_pt_entry newas i (λ t. record t { paddr = paddr; in_mem = true })
          pure success)
        else (do set_pt_entry newas i (λ t. record t { paddr = 0 }); pure success)

  unfoldable pub copy_pages : (old newas rounds i : ℕ) → Cmd (Kernel T B W) Status
  unfolding copy_page
  copy_pages old newas zero i = pure success
  copy_pages old newas (suc rounds) i = do
    r ← copy_page old newas i
    elim r [ err x ↦ pure (err x) | success ↦ copy_pages old newas rounds (i + 1) ]

  -- as_copy: the result, and the address space that it stores through `ret`; NULL stands for nothing.
  -- `raw` is what the frames of the new page table hold before it is written.
  unfoldable pub as_copy :
      Creation
      → (allocated : ℕ → Bool) → (raw : List PtEntry) → (old : ℕ) → Cmd (Kernel T B W) (Status × ℕ)
  unfolding as_create copy_segments copy_pages
  as_copy c allocated raw old = do
    (newas, r) ← as_create c
    if newas == null then pure (r, null) else do
      on_space old pt_acquire
      k ← get
      r ← copy_segments allocated newas 0 (k.spaces old).as_segment
      elim r [
        | err x ↦ pure (err x, null)
        | success ↦ do
          on_space newas (modify λ a. record a { npages = (k.spaces old).npages })
          ptloc ← pt_alloc tlb bits wld (k.spaces old).npages
          if ptloc == 0 then pure (err enomem, null) else do
            on_space newas (modify λ a. record a { as_pt = raw; pt_paddr = ptloc })
            r ← copy_pages old newas (k.spaces old).npages 0
            elim r [
              | err x ↦ pure (err x, null)
              | success ↦ do on_space old pt_release; pure (success, newas)
            ]
      ]
