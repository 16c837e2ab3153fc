-- ===== src/Swap/Trip.antt =====
-- A page that swap_out writes is the page that swap_in reads back, in a slot of its own.
use paging_os.Base.{
  ℕ, ◌+◌, ◌-◌, ◌*◌, ◌%◌, ◌≤◌, ◌<◌, ◌≡◌, ◌≢◌, refl, sym, ap, ◌∙◌, subst₂, true, false, none, some,
  arith, Bool-cases, Option-cases, ltb, ◌==◌, inl, inr, ◌⊎◌,
}
use paging_os.Machine.{u32, page_size, paddr_to_kvaddr, ok, success, err, other}
use paging_os.Machine.Platform.{BitmapOps, BitmapLaws, WorldOps, WorldLaws}
use paging_os.Swap.{Store, swap_out, swap_in, u16}
use paging_os.Swap.Count.{count_set, count_set-le, count_set-set}

module _ {B W : Type 0} (bits : BitmapOps B) (wld : WorldOps W) where
  -- the byte `j` of the slot `i` of the swap file, and of the frame at `paddr`
  abbrev pub slot_byte : Store B W → W → (i j : ℕ) → ℕ
  slot_byte s w i j = wld.file w s.swap_file (i * page_size % u32 + j)

  abbrev pub frame_byte : W → (paddr j : ℕ) → ℕ
  frame_byte w paddr j = wld.mem w (paddr_to_kvaddr paddr + j)

  -- The swap lock is free, the slots have offsets that do not wrap, and `used` counts the slots taken.
  pub record StoreOk (s : Store B W) : Type 0 where
    pub unlocked : s.locked ≡ false
    pub small : bits.nbits s.swap_map < u16
    pub counted : s.used ≡ count_set bits s.swap_map (bits.nbits s.swap_map)

  -- What swap_out of the frame `paddr` into slot `i` leaves.
  pub record SwappedOut (s : Store B W) (paddr i : ℕ) (s' : Store B W) : Type 0 where
    pub fresh : bits.isset s.swap_map i ≡ false
    pub in_range : i < bits.nbits s.swap_map
    pub taken : bits.isset s'.swap_map i ≡ true
    pub others : (j : ℕ) → i ≢ j → bits.isset s'.swap_map j ≡ bits.isset s.swap_map j
    pub same_file : s'.swap_file ≡ s.swap_file
    pub stored : (j : ℕ) → j < page_size → slot_byte s' s'.world i j ≡ frame_byte s.world paddr j
    pub kept :
        (k j : ℕ)
        → k ≢ i
        → k < bits.nbits s.swap_map
        → j < page_size
        → slot_byte s' s'.world k j ≡ slot_byte s s.world k j
    pub memory : (x : ℕ) → wld.mem s'.world x ≡ wld.mem s.world x
    pub well_formed : StoreOk s'

module _ {B W : Type 0} (bits : BitmapOps B) (bit_laws : BitmapLaws bits) (wld : WorldOps W)
    (laws : WorldLaws wld) where
  -- The call, up to what bitmap_alloc and VOP_WRITE return.
  swap_out-ok :
      (s : Store B W) (paddr i : ℕ) (b : B) (w : W)
      → s.locked ≡ false
      → s.used ≢ s.swap_file_size
      → bits.alloc s.swap_map ≡ some (i, b)
      → wld.vop_write s.world s.swap_file (i * page_size % u32) (paddr_to_kvaddr paddr) page_size
        ≡ (0, w)
      → swap_out bits wld paddr s
        ≡ ok
            (success, i)
            (record s { swap_map = b; world = w; used = (s.used + 1) % u16; locked = false })
  unfolding swap_out
  swap_out-ok s paddr i b w l ne q e =
      let ne' : (s.used == s.swap_file_size) ≡ false = ground arith in rw (l, ne', q, e)

  swap_out-none :
      (s : Store B W) (paddr : ℕ)
      → s.locked ≡ false
      → s.used ≢ s.swap_file_size
      → bits.alloc s.swap_map ≡ none
      → swap_out bits wld paddr s ≡ ok (err (other bits.alloc_error), paddr) s
  unfolding swap_out
  swap_out-none s paddr l ne q =
      let ne' : (s.used == s.swap_file_size) ≡ false = ground arith in ground arith

  swap_out-SwappedOut :
      (s : Store B W) (paddr i : ℕ) (b : B) (w : W)
      → StoreOk bits wld s
      → bits.alloc s.swap_map ≡ some (i, b)
      → wld.vop_write s.world s.swap_file (i * page_size % u32) (paddr_to_kvaddr paddr) page_size
        ≡ (0, w)
      → SwappedOut bits wld s paddr i
          (record s { swap_map = b; world = w; used = (s.used + 1) % u16; locked = false })
  swap_out-SwappedOut s paddr i b w v q e =
      let (fresh, lt) = bit_laws.alloc-fresh s.swap_map b i q in
      let n = bit_laws.alloc-nbits s.swap_map b i q in
      let on = bit_laws.alloc-isset s.swap_map b i q in
      let others = λ (j : ℕ) (ne : i ≢ j). bit_laws.alloc-others s.swap_map b i j q ne in
      let more = count_set-set bits s.swap_map b i (bits.nbits s.swap_map) lt fresh on others in
      let world : (wld.vop_write s.world s.swap_file (i * page_size % u32) (paddr_to_kvaddr paddr)
            page_size).1
          ≡ w =
        ap (λ r. r.1) e in
      record {
        fresh = fresh;
        in_range = lt;
        taken = on;
        others = others;
        same_file = refl;
        stored = λ j h. laws.write-file s.world w s.swap_file _ _ page_size j e h;
        kept = λ k j ne hk hj. rw world at (
            laws.write-others s.world s.swap_file (i * page_size % u32) (paddr_to_kvaddr paddr)
              page_size (k * page_size % u32 + j) (apart k j ne hk hj lt v.small));
        memory = λ x. rw world at (
            laws.write-mem s.world s.swap_file (i * page_size % u32) (paddr_to_kvaddr paddr)
              page_size x);
        well_formed = record {
          unlocked = refl;
          small = rw n v.small;
          counted = rw n (
              omega (arith, more, v.counted, v.small, count_set-le bits b (bits.nbits s.swap_map)));
        };
      }
    where
      apart :
          (k j : ℕ)
          → k ≢ i
          → k < bits.nbits s.swap_map
          → j < page_size
          → i < bits.nbits s.swap_map
          → bits.nbits s.swap_map < u16
          → (k * page_size % u32 + j < i * page_size % u32)
            ⊎ (i * page_size % u32 + page_size ≤ k * page_size % u32 + j)
      apart k j ne hk hj lt small = elim (Bool-cases (ltb k i)) [
        | inl t ↦ inl (ground arith)
        | inr t ↦ inr (ground arith)
      ]

  -- With the store well-formed, a slot count that is not the size of the file, and a disk that takes
  -- writes, swap_out returns: either it has put the page into a slot that was free, leaving the
  -- other slots and the memory as they were, or every slot is taken and it returns an error with
  -- nothing changed. Either way the store is well-formed again, its lock free.
  pub swap_out_lem :
      (s : Store B W) (paddr : ℕ)
      → StoreOk bits wld s
      → s.used ≢ s.swap_file_size
      → ((offset : ℕ)
          → (wld.vop_write s.world s.swap_file offset (paddr_to_kvaddr paddr) page_size).0 ≡ 0)
      → ((i : ℕ) × (s' : Store B W) × (swap_out bits wld paddr s ≡ ok (success, i) s')
          × SwappedOut bits wld s paddr i s')
        ⊎ (((j : ℕ) → j < bits.nbits s.swap_map → bits.isset s.swap_map j ≡ true)
            × (swap_out bits wld paddr s ≡ ok (err (other bits.alloc_error), paddr) s))
  swap_out_lem s paddr v ne works = elim (Option-cases (bits.alloc s.swap_map)) [
    | inl q ↦
        inr (λ j h. bit_laws.alloc-full s.swap_map j q h, swap_out-none s paddr v.unlocked ne q)
    | inr ((i, b), q) ↦
        let w =
          (wld.vop_write s.world s.swap_file (i * page_size % u32) (paddr_to_kvaddr paddr)
            page_size).1 in
        let e : wld.vop_write s.world s.swap_file (i * page_size % u32) (paddr_to_kvaddr paddr)
              page_size
            ≡ (0, w) =
          λ t. (works (i * page_size % u32) t, w) in
        inl (
          i,
          record s { swap_map = b; world = w; used = (s.used + 1) % u16; locked = false },
          swap_out-ok s paddr i b w v.unlocked ne q e,
          swap_out-SwappedOut s paddr i b w v q e,
        )
  ]

  -- What a successful call has done.
  pub swap_out_inv :
      (s s1 : Store B W) (paddr i : ℕ)
      → StoreOk bits wld s
      → s.used ≢ s.swap_file_size
      → ((offset : ℕ)
          → (wld.vop_write s.world s.swap_file offset (paddr_to_kvaddr paddr) page_size).0 ≡ 0)
      → swap_out bits wld paddr s ≡ ok (success, i) s1
      → SwappedOut bits wld s paddr i s1
  swap_out_inv s s1 paddr i v ne works h = elim (swap_out_lem s paddr v ne works) [
    | inl (i', s', e, done) ↦
        let p : i' ≡ i = cc in let q : s' ≡ s1 = cc in subst₂ (SwappedOut bits wld s paddr) p q done
    | inr (all, e) ↦ cc
  ]

  -- Taking a slot back frees it, and nothing else.
  unmark-StoreOk :
      (s : Store B W) (i : ℕ) (w : W)
      → StoreOk bits wld s
      → i < bits.nbits s.swap_map
      → bits.isset s.swap_map i ≡ true
      → StoreOk bits wld (record s {
        swap_map = bits.unmark s.swap_map i;
        used = (s.used + u16 - 1) % u16;
        world = w;
        locked = false;
      })
  unmark-StoreOk s i w v lt on =
      let n = bit_laws.unmark-nbits s.swap_map i in
      let less =
        count_set-set bits (bits.unmark s.swap_map i) s.swap_map i (bits.nbits s.swap_map) lt
          (bit_laws.unmark_self s.swap_map i) on
          (λ j ne. sym (bit_laws.unmark_ne s.swap_map i j ne)) in
      record {
        unlocked = refl;
        small = rw n v.small;
        counted = rw n (
            omega (
              arith,
              less,
              v.counted,
              v.small,
              count_set-le bits s.swap_map (bits.nbits s.swap_map),
            ));
      }

  swap_in-ok :
      (s : Store B W) (i ram_paddr : ℕ) (w : W)
      → s.locked ≡ false
      → bits.isset s.swap_map i ≡ true
      → wld.vop_read s.world s.swap_file (i * page_size % u32) (paddr_to_kvaddr ram_paddr) page_size
        ≡ (0, 0, w)
      → swap_in bits wld i ram_paddr true s
        ≡ ok
            (success, ram_paddr)
            (record s {
              swap_map = bits.unmark s.swap_map i;
              used = (s.used + u16 - 1) % u16;
              world = w;
              locked = false;
            })
  unfolding swap_in
  swap_in-ok s i ram_paddr w l on e = rw (l, e, on)

  -- The round trip. A page that swap_out has put into slot `i` is read back by swap_in in any later
  -- state of the store in which the slot is still taken and holds the same bytes: if the disk makes
  -- the read complete, swap_in returns, the frame holds the bytes that the page had when it was
  -- swapped out, no other memory has changed, the slot is free, and the store is well-formed.
  pub swap_in-swap_out :
      (s s1 s2 : Store B W) (paddr i ram_paddr : ℕ) (w : W)
      → StoreOk bits wld s
      → s.used ≢ s.swap_file_size
      → ((offset : ℕ)
          → (wld.vop_write s.world s.swap_file offset (paddr_to_kvaddr paddr) page_size).0 ≡ 0)
      → swap_out bits wld paddr s ≡ ok (success, i) s1
      → StoreOk bits wld s2
      → bits.isset s2.swap_map i ≡ true
      → bits.nbits s2.swap_map ≡ bits.nbits s.swap_map
      → ((j : ℕ)
          → j < page_size
          → slot_byte bits wld s2 s2.world i j ≡ slot_byte bits wld s1 s1.world i j)
      → wld.vop_read s2.world s2.swap_file
          (i * page_size % u32)
          (paddr_to_kvaddr ram_paddr)
          page_size
        ≡ (0, 0, w)
      → (s3 : Store B W) × (swap_in bits wld i ram_paddr true s2 ≡ ok (success, ram_paddr) s3)
        × ((j : ℕ)
            → j < page_size
            → frame_byte bits wld s3.world ram_paddr j ≡ frame_byte bits wld s.world paddr j)
        × ((x : ℕ)
            → (x < paddr_to_kvaddr ram_paddr) ⊎ (paddr_to_kvaddr ram_paddr + page_size ≤ x)
            → wld.mem s3.world x ≡ wld.mem s2.world x)
        × (bits.isset s3.swap_map i ≡ false)
        × StoreOk bits wld s3
  swap_in-swap_out s s1 s2 paddr i ram_paddr w v ne works h v2 on n same e =
      let done = swap_out_inv s s1 paddr i v ne works h in
      let world : (wld.vop_read s2.world s2.swap_file (i * page_size % u32)
            (paddr_to_kvaddr ram_paddr) page_size).2
          ≡ w =
        ap (λ r. r.2) e in
      (
        record s2 {
          swap_map = bits.unmark s2.swap_map i;
          used = (s2.used + u16 - 1) % u16;
          world = w;
          locked = false;
        },
        swap_in-ok s2 i ram_paddr w v2.unlocked on e,
        λ j hj.
            laws.read-mem s2.world w s2.swap_file (i * page_size % u32) (paddr_to_kvaddr ram_paddr)
              page_size j e hj
            ∙ same j hj
            ∙ done.stored j hj,
        λ x out. rw world at (
            laws.read-others s2.world s2.swap_file (i * page_size % u32) (paddr_to_kvaddr ram_paddr)
              page_size x out),
        bit_laws.unmark_self s2.swap_map i,
        unmark-StoreOk s2 i w v2 (rw n done.in_range) on,
      )
