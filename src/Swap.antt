-- ===== src/Swap.antt =====
-- kern/vm/swapfile.c: the swap file and its bitmap; and load_segment of kern/syscall/loadelf.c,
-- through which a page is read from a file.
pub mod Count
pub mod Trip
pub mod Locks
use paging_os.Base.{
  ℕ, zero, suc, ◌+◌, ◌-◌, ◌*◌, ◌/◌, ◌%◌, ◌^◌, Bool, true, false, not, Option, none, some, ltb, ◌==◌,
  if◌then◌else◌,
}
use paging_os.Machine.{
  u32, page_size, sub32, paddr_to_kvaddr, Cmd, Outcome, ok, pure, fail, get, modify, kassert, carry,
  deadlock, panicked, assertion, ◌>>=◌, ◌>>◌, Status, success, err, enomem, enoexec, other,
  status_of,
}
use paging_os.Machine.Platform.{BitmapOps, WorldOps}

-- The globals of swapfile.c, and the world outside: memory and files. `used` is an unsigned short.
pub record Store (B W : Type 0) : Type 0 where
  pub swap_file : ℕ
  pub swap_file_size : ℕ
  pub swap_map : B
  pub used : ℕ
  -- whether `swap_lock` is held
  pub locked : Bool
  pub world : W

abbrev pub u16 : ℕ
u16 = 2 ^ 16

-- lock_acquire and lock_release of `swap_lock`
abbrev pub swap_acquire : {B W : Type 0} → Cmd (Store B W) (Unit {0})
swap_acquire = do s ← get; kassert (not s.locked); modify (λ s. record s { locked = true })

abbrev pub swap_release : {B W : Type 0} → Cmd (Store B W) (Unit {0})
swap_release = do s ← get; kassert s.locked; modify (λ s. record s { locked = false })

-- load_segment, of which `as` and `is_executable` are not used. A read that is not complete is
-- ENOEXEC.
unfoldable pub load_segment :
    {W : Type 0} → WorldOps W → (v offset paddr memsize filesize : ℕ) → Cmd W Status
load_segment wld v offset paddr memsize filesize w =
    let amount = if ltb memsize filesize then memsize else filesize in
    let (result, resid, w') = wld.vop_read w v offset (paddr_to_kvaddr paddr) amount in
    if result == 0
    then (if resid == 0 then ok success w' else ok (err enoexec) w')
    else ok (status_of result) w'

module _ {B W : Type 0} (bits : BitmapOps B) (wld : WorldOps W) where
  abbrev pub on_world : {A : Type 0} → Cmd W A → Cmd (Store B W) A
  on_world m s = carry (λ w. record s { world = w }) (m s.world)

  -- open_swapfile and the rest of swapmap_init. The arguments are what vfs_swapon, VOP_STAT,
  -- bitmap_create and lock_create give: whether each worked, the vnode, and the size of the file.
  unfoldable pub open_swapfile :
      (opened stat_ok : Bool) → (vnode st_size : ℕ) → Cmd (Store B W) (Unit {0})
  open_swapfile opened stat_ok vnode st_size = do
    kassert opened
    kassert (not (vnode == 0))
    kassert stat_ok
    kassert (st_size % page_size == 0)
    modify (λ s. record s { swap_file = vnode; swap_file_size = st_size })

  unfoldable pub swapmap_init :
      (opened stat_ok : Bool)
      → (vnode st_size : ℕ) → (map_created lock_created : Bool) → Cmd (Store B W) (Unit {0})
  unfolding open_swapfile
  swapmap_init opened stat_ok vnode st_size map_created lock_created = do
    open_swapfile opened stat_ok vnode st_size
    modify (λ s. record s { swap_map = bits.create (s.swap_file_size / page_size) })
    kassert map_created
    if lock_created then modify (λ s. record s { locked = false }) else fail panicked

  -- close_swapfile; `closed` is whether vfs_swapoff worked.
  unfoldable pub close_swapfile : (closed : Bool) → Cmd (Store B W) (Unit {0})
  close_swapfile closed = do swap_acquire; kassert closed; swap_release

  -- The result, and the value that `*swap_paddr` has afterwards.
  unfoldable pub swap_in :
      (swap_paddr ram_paddr : ℕ) → (to_remove : Bool) → Cmd (Store B W) (Status × ℕ)
  unfolding load_segment
  swap_in swap_paddr ram_paddr to_remove = do
    swap_acquire
    s ← get
    result ←
        on_world (
          load_segment wld s.swap_file (swap_paddr * page_size % u32) ram_paddr page_size page_size)
    elim result [
      | err e ↦ pure (err e, swap_paddr)
      | success ↦ do
        s ← get
        kassert (bits.isset s.swap_map swap_paddr)
        if to_remove
            then modify (λ s. record s {
              swap_map = bits.unmark s.swap_map swap_paddr;
              used = (s.used + u16 - 1) % u16;
            })
            else pure tt
        swap_release
        pure (success, ram_paddr)
    ]

  -- The part of swap_out behind bitmap_alloc, which has returned slot `i`.
  unfoldable pub write_slot : (paddr i : ℕ) → Cmd (Store B W) (Status × ℕ)
  write_slot paddr i = do
    s ← get
    let r =
        wld.vop_write s.world s.swap_file (i * page_size % u32) (paddr_to_kvaddr paddr) page_size
    modify (λ s. record s { world = r.1 })
    kassert (r.0 == 0)
    modify (λ s. record s { used = (s.used + 1) % u16 })
    swap_release
    pure (success, i)

  unfoldable pub swap_out : (paddr : ℕ) → Cmd (Store B W) (Status × ℕ)
  unfolding write_slot
  swap_out paddr = do
    swap_acquire
    s ← get
    if s.used == s.swap_file_size then pure (err enomem, paddr) else elim (bits.alloc s.swap_map) [
      | none ↦ do swap_release; pure (err (other bits.alloc_error), paddr)
      | some (i, swap_map) ↦ do modify (λ s. record s { swap_map = swap_map }); write_slot paddr i
    ]

  unfoldable pub clear_swap : (paddr : ℕ) → Cmd (Store B W) (Unit {0})
  clear_swap paddr = do
    swap_acquire
    modify
        (λ s. record s { swap_map = bits.unmark s.swap_map paddr; used = (s.used + u16 - 1) % u16 })
    swap_release

  unfoldable pub get_available_swap : Cmd (Store B W) ℕ
  get_available_swap = do swap_acquire; s ← get; swap_release; pure (sub32 s.swap_file_size s.used)
