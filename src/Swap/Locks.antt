-- ===== src/Swap/Locks.antt =====
-- The paths of swapfile.c that return without giving `swap_lock` back, and the room that
-- getAvailableSwap reports.
use paging_os.Base.{ℕ, suc, ◌*◌, ◌%◌, ◌<◌, ◌≡◌, ◌≢◌, refl, Bool, true, false, arith, ◌==◌}
use paging_os.Machine.{u32, page_size, sub32, paddr_to_kvaddr, ok, fault, assertion, err, other}
use paging_os.Machine.Platform.{BitmapOps, WorldOps}
use paging_os.Swap.{Store, swap_out, swap_in, clear_swap, get_available_swap, close_swapfile}
use paging_os.Swap.Count.{count_set-le}
use paging_os.Swap.Trip.{StoreOk}

module _ {B W : Type 0} (bits : BitmapOps B) (wld : WorldOps W) where
  -- While the caller holds `swap_lock`, each operation on the swap file fails its first assertion.
  pub record Stuck (s : Store B W) : Type 0 where
    pub on_out : (p : ℕ) → swap_out bits wld p s ≡ fault assertion
    pub on_in : (p r : ℕ) (b : Bool) → swap_in bits wld p r b s ≡ fault assertion
    pub on_clear : (p : ℕ) → clear_swap bits wld p s ≡ fault assertion
    pub on_available : get_available_swap bits wld s ≡ fault assertion
    pub on_close : (b : Bool) → close_swapfile bits wld b s ≡ fault assertion

  locked-Stuck : (s : Store B W) → s.locked ≡ true → Stuck s
  unfolding swap_out swap_in clear_swap get_available_swap close_swapfile
  locked-Stuck s l = record {
    on_out = λ p. rw l;
    on_in = λ p r b. rw l;
    on_clear = λ p. rw l;
    on_available = rw l;
    on_close = λ b. rw l;
  }

  -- When the read of a page from the swap file fails, swap_in returns the error but does not release
  -- `swap_lock`: whatever the caller asks of the swap file next fails an assertion.
  pub swap_in-Stuck :
      (s : Store B W) (i ram_paddr code : ℕ) (to_remove : Bool)
      → s.locked ≡ false
      → (wld.vop_read s.world s.swap_file
          (i * page_size % u32)
          (paddr_to_kvaddr ram_paddr)
          page_size).0
        ≡ suc code
      → (s' : Store B W) × (swap_in bits wld i ram_paddr to_remove s
          ≡ ok (err (other (suc code)), i) s')
        × Stuck s'
  unfolding swap_in
  swap_in-Stuck s i ram_paddr code to_remove l e =
      let w =
        (wld.vop_read s.world s.swap_file (i * page_size % u32) (paddr_to_kvaddr ram_paddr)
          page_size).2 in
      let s' : Store B W = record s { locked = true; world = w } in
      let n : (suc code == 0) ≡ false = ground arith in (s', rw (l, e, n), locked-Stuck s' refl)

  -- In a store whose bitmap has a bit for each page of a swap file of at least one page,
  -- getAvailableSwap reports room whatever the slots: the size is in bytes, and the count in slots.
  pub get_available_swap-ne-zero :
      (s : Store B W)
      → StoreOk bits wld s
      → bits.nbits s.swap_map * page_size ≡ s.swap_file_size
      → 0 < bits.nbits s.swap_map
      → (room : ℕ) × (get_available_swap bits wld s ≡ ok room s) × (room ≢ 0)
  unfolding get_available_swap
  get_available_swap-ne-zero s v size pos =
      let le = count_set-le bits s.swap_map (bits.nbits s.swap_map) in
      (sub32 s.swap_file_size s.used, rw v.unlocked, omega (arith, le, v.counted, v.small))
