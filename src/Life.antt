-- ===== src/Life.antt =====
-- The life of an address space in kern/vm/addrspace.c: setting up its page table, becoming the one that
-- the processor sees, and its end.
pub mod Prepare
pub mod Destroy
pub mod Reaped
use paging_os.Base.{ℕ, ◌-◌, ◌*◌, ◌%◌, Bool, ◌==◌, if◌then◌else◌, List, [], ◌∷◌}
use paging_os.Machine.{
  u32, page_size, kseg0, Cmd, carry, pure, get, modify, ◌>>=◌, ◌>>◌, Status, success, err, enomem,
  sub32, paddr_to_kvaddr,
}
use paging_os.Machine.Platform.{TlbOps, BitmapOps, WorldOps}
use paging_os.Tlb.{tlb_invalidate}
use paging_os.Swap.{Store, clear_swap, swapmap_init}
use paging_os.Stats.{vm_stats_init}
use paging_os.Coremap.{null, freepages, free_as, coremap_init}
use paging_os.Space.{PtEntry, as_define_region, page_table, total_pages, pt_acquire, pt_release}
use paging_os.Kernel.{can_sleep, on_core, on_store, Kernel, proc_getas, on_mmu, on_space}
use paging_os.Vm.{pt_alloc}

-- STACKPAGES * PAGE_SIZE, and USERSTACK
abbrev pub stack_size : ℕ
stack_size = 18 * page_size

abbrev pub userstack : ℕ
userstack = kseg0

module _ {T B W : Type 0} where
  -- as_prepare_load from the test of `ptloc` on. The page table is written as a whole; its bytes in the
  -- frames are not part of the kernel's memory here.
  unfoldable pub install_table : (space ptloc : ℕ) → Cmd (Kernel T B W) Status
  install_table space ptloc = if ptloc == 0 then pure (err enomem) else do
    on_space space (modify λ a. record a { as_pt = page_table a.as_segment; pt_paddr = ptloc })
    on_space space pt_release
    pure success

module _ {T B W : Type 0} (tlb : TlbOps T) (bits : BitmapOps B) (wld : WorldOps W) where
  -- `allocated`: whether kmalloc had the memory for the segment of the stack.
  unfoldable pub as_prepare_load : (allocated : Bool) → (space : ℕ) → Cmd (Kernel T B W) Status
  as_prepare_load allocated space = do
    r ←
        on_space space
          (as_define_region allocated (userstack - stack_size) stack_size stack_size 4 2 0 0)
    elim r [
      | err _ ↦ pure (err enomem)
      | success ↦ do
        on_space space (modify λ a. record a { npages = total_pages a.as_segment % u32 })
        on_space space pt_acquire
        k ← get
        ptloc ← pt_alloc tlb bits wld (k.spaces space).npages
        install_table space ptloc
    ]

  unfoldable pub as_activate : Cmd (Kernel T B W) (Unit {0})
  as_activate = do
    space ← proc_getas
    if space == null then pure tt else on_mmu (tlb_invalidate tlb)

module _ {B W : Type 0} (bits : BitmapOps B) (wld : WorldOps W) where
  -- The loop of as_destroy over the page table.
  pub clear_slots : List PtEntry → Cmd (Store B W) (Unit {0})
  clear_slots [] = pure tt
  clear_slots (e ∷ pt) = do
    if e.in_swap then clear_swap bits wld e.paddr else pure tt
    clear_slots pt

module _ {T B W : Type 0} (bits : BitmapOps B) (wld : WorldOps W) where
  -- as_destroy, less the release of kernel memory by kfree and lock_destroy.
  unfoldable pub as_destroy : (space : ℕ) → Cmd (Kernel T B W) (Unit {0})
  as_destroy space = do
    can_sleep
    k ← get
    on_store (modify λ t. record t { world = wld.vfs_close t.world (k.spaces space).v })
    on_space space pt_acquire
    k ← get
    on_store (clear_slots bits wld (k.spaces space).as_pt)
    on_space space pt_release
    on_core (freepages (sub32 (paddr_to_kvaddr (k.spaces space).pt_paddr) kseg0))
    on_core (free_as space)

-- What vm_bootstrap gets from outside: whether lock_create worked for each lock, what vfs_swapon, VOP_STAT
-- and bitmap_create give, and the memory of the machine.
pub record Boot : Type 0 where
  pub stats_lock_created : Bool
  pub opened : Bool
  pub stat_ok : Bool
  pub vnode : ℕ
  pub st_size : ℕ
  pub map_created : Bool
  pub swap_lock_created : Bool
  pub ram_size : ℕ
  pub first_free : ℕ

module _ {T B W : Type 0} (bits : BitmapOps B) (wld : WorldOps W) where
  unfoldable pub vm_bootstrap : Boot → Cmd (Kernel T B W) (Unit {0})
  unfolding vm_stats_init swapmap_init coremap_init
  vm_bootstrap b = do
    (λ k.
        carry (λ s. record k { mmu = record k.mmu { stats = s } })
          (vm_stats_init b.stats_lock_created k.mmu.stats))
    on_store (
        swapmap_init bits wld b.opened b.stat_ok b.vnode b.st_size b.map_created
          b.swap_lock_created)
    on_core (coremap_init b.ram_size b.first_free)
