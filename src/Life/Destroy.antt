-- ===== src/Life/Destroy.antt =====
-- What as_destroy gives back: the swap slots and the frames of the address space, and the pages of its
-- page table.
use paging_os.Base.{
  ℕ, zero, suc, ◌+◌, ◌-◌, ◌%◌, ◌<◌, ◌≤◌, ◌≡◌, ◌≢◌, refl, ◌∙◌, true, false, some, List, [], ◌∷◌,
  arith, ◌==◌, ==_refl, get_elem?, Bool-cases, inl, inr, Option-cases, get_elem?-lt,
}
use paging_os.Machine.{ok, sub32, paddr_to_kvaddr, kseg0}
use paging_os.Machine.Platform.{BitmapOps, BitmapLaws, WorldOps}
use paging_os.Swap.{Store, clear_swap, u16}
use paging_os.Space.{PtEntry}
use paging_os.Coremap.{CEntry, Coremap, null, is_free, frame_paddr}
use paging_os.Coremap.Inv.{CoremapOk, frame_paddr_bounds}
use paging_os.Coremap.Release.{freepages_lem, free_as_lem}
use paging_os.Kernel.{Kernel, can_sleep, write_space}
use paging_os.Life.{clear_slots, as_destroy}

module _ {B W : Type 0} (bits : BitmapOps B) (laws : BitmapLaws bits) (wld : WorldOps W) where
  -- The store after the slots of the swapped pages of a page table were cleared.
  pub record Cleared (pt : List PtEntry) (s s' : Store B W) : Type 0 where
    pub unlocked : s'.locked ≡ false
    pub world : s'.world ≡ s.world
    pub gone :
        (j : ℕ) (e : PtEntry)
        → get_elem? pt j ≡ some e
        → e.in_swap ≡ true
        → bits.isset s'.swap_map e.paddr ≡ false
    pub clear : (x : ℕ) → bits.isset s.swap_map x ≡ false → bits.isset s'.swap_map x ≡ false
    pub others :
        (x : ℕ)
        → ((j : ℕ) (e : PtEntry) → get_elem? pt j ≡ some e → e.in_swap ≡ true → e.paddr ≢ x)
        → bits.isset s'.swap_map x ≡ bits.isset s.swap_map x

  -- One slot.
  clear_swap_lem :
      (p : ℕ) (s : Store B W)
      → s.locked ≡ false
      → (s' : Store B W) × (clear_swap bits wld p s ≡ ok tt s')
        × (s'.locked ≡ false)
        × (s'.swap_map ≡ bits.unmark s.swap_map p)
        × (s'.world ≡ s.world)
  unfolding clear_swap
  clear_swap_lem p s l = (
    record s {
      swap_map = bits.unmark s.swap_map p;
      used = (s.used + u16 - 1) % u16;
      locked = false;
    },
    rw l,
    refl,
    refl,
    refl,
  )

  -- A page that is in memory only, before the rest of the table.
  Cleared-skip :
      (e : PtEntry) (pt : List PtEntry) (s s' : Store B W)
      → e.in_swap ≡ false
      → Cleared pt s s'
      → Cleared (e ∷ pt) s s'
  Cleared-skip e pt s s' out c = record {
    unlocked = c.unlocked;
    world = c.world;
    gone = gone;
    clear = c.clear;
    others = λ x h. c.others x (λ j a q. h (suc j) a q);
  }
    where
      gone :
          (j : ℕ) (a : PtEntry)
          → get_elem? (e ∷ pt) j ≡ some a
          → a.in_swap ≡ true
          → bits.isset s'.swap_map a.paddr ≡ false
      gone zero a q t = let z : e ≡ a = cc q in let w = rw z at out in cc (w, t)
      gone (suc j) a q t = c.gone j a q t

  -- A swapped page, whose slot was cleared before the rest.
  Cleared-cons :
      (e : PtEntry) (pt : List PtEntry) (s s1 s' : Store B W)
      → e.in_swap ≡ true
      → s1.swap_map ≡ bits.unmark s.swap_map e.paddr
      → s1.world ≡ s.world
      → Cleared pt s1 s'
      → Cleared (e ∷ pt) s s'
  Cleared-cons e pt s s1 s' swapped map1 world1 c = record {
    unlocked = c.unlocked;
    world = c.world ∙ world1;
    gone = gone;
    clear = λ x h. c.clear x (clear1 x h);
    others = λ x h.
        let ne = h zero e refl swapped in
        c.others x (λ j a q. h (suc j) a q) ∙ rw map1 (laws.unmark_ne s.swap_map e.paddr x ne);
  }
    where
      gone :
          (j : ℕ) (a : PtEntry)
          → get_elem? (e ∷ pt) j ≡ some a
          → a.in_swap ≡ true
          → bits.isset s'.swap_map a.paddr ≡ false
      gone zero a q t =
          let z : e ≡ a = cc q in
          rw (← z) (c.clear e.paddr (rw map1 (laws.unmark_self s.swap_map e.paddr)))
      gone (suc j) a q t = c.gone j a q t

      clear1 : (x : ℕ) → bits.isset s.swap_map x ≡ false → bits.isset s1.swap_map x ≡ false
      clear1 x h = elim (Bool-cases (e.paddr == x)) [
        | inl t ↦
            let z : e.paddr ≡ x = ground arith in
            rw (map1, ← z) (laws.unmark_self s.swap_map e.paddr)
        | inr t ↦ rw map1 (laws.unmark_ne s.swap_map e.paddr x (ground arith) ∙ h)
      ]

  pub clear_slots-Cleared :
      (pt : List PtEntry) (s : Store B W)
      → s.locked ≡ false
      → (s' : Store B W) × (clear_slots bits wld pt s ≡ ok tt s') × Cleared pt s s'
  unfolding clear_slots
  clear_slots-Cleared [] s l = (
    s,
    refl,
    record {
      unlocked = l;
      world = refl;
      gone = λ j e h. cc h;
      clear = λ x h. h;
      others = λ x h. refl;
    },
  )
  clear_slots-Cleared (e ∷ pt) s l = elim (Bool-cases e.in_swap) [
    | inr out ↦
        let (s', call, c) = clear_slots-Cleared pt s l in
        (s', rw out call, Cleared-skip e pt s s' out c)
    | inl swapped ↦
        let (s1, first, l1, map1, world1) = clear_swap_lem e.paddr s l in
        let (s', call, c) = clear_slots-Cleared pt s1 l1 in
        (s', rw (swapped, first) call, Cleared-cons e pt s s1 s' swapped map1 world1 c)
  ]

-- What as_destroy leaves, if the page table starts at frame `i` of the coremap, whose entry is `e`.
pub record Destroyed {T B W : Type 0} (bits : BitmapOps B) (laws : BitmapLaws bits)
    (wld : WorldOps W) (space i : ℕ) (e : CEntry) (k k' : Kernel T B W) : Type 0 where
  pub closed : k'.store.world ≡ wld.vfs_close k.store.world (k.spaces space).v
  pub slots :
      Cleared bits laws wld
        (k.spaces space).as_pt
        (record k.store { world = wld.vfs_close k.store.world (k.spaces space).v })
        k'.store
  pub frames : (j : ℕ) (a : CEntry) → get_elem? k'.core.entries j ≡ some a → a.addrspace ≢ space
  pub table : (j : ℕ) → i ≤ j → j < i + e.allocpages → is_free k'.core.entries j ≡ true
  pub well_formed : CoremapOk k'.core
  pub unlocked : (k'.spaces space).pt_locked ≡ false
  pub core_unlocked : k'.core.locked ≡ false

stays_free :
    (space j : ℕ) (c c' : Coremap)
    → ((j : ℕ) (e : CEntry)
        → get_elem? c.entries j ≡ some e
        → e.addrspace ≡ space
        → is_free c'.entries j ≡ true)
    → ((j : ℕ) (e : CEntry)
        → get_elem? c.entries j ≡ some e
        → e.addrspace ≢ space
        → get_elem? c'.entries j ≡ some e)
    → is_free c.entries j ≡ true
    → is_free c'.entries j ≡ true
unfolding is_free
stays_free space j c c' own other f = elim (Option-cases (get_elem? c.entries j)) [
  | inl q ↦ ground arith
  | inr (e, q) ↦ elim (Bool-cases (e.addrspace == space)) [
    | inl t ↦ own j e q (ground arith)
    | inr t ↦ let h = other j e q (ground arith) in rw (h, is_free) (rw (q, is_free) at f)
  ]
]

module _ {T B W : Type 0} (bits : BitmapOps B) (laws : BitmapLaws bits) (wld : WorldOps W) where
  -- as_destroy, called where the caller may sleep, of an address space whose page table lies in frames of the
  -- coremap, with the locks free: it returns, the program file is closed, the swap slots of its swapped
  -- pages are clear and no other slot has changed, no frame belongs to it, the frames of its page table are free, and the coremap is well-formed
  -- and unlocked.
  pub as_destroy-Destroyed :
      (space i : ℕ) (e : CEntry) (k : Kernel T B W)
      → k.mmu.stats.cpu.spinlocks ≡ 0
      → k.mmu.stats.cpu.in_interrupt ≡ false
      → space ≢ null
      → (k.spaces space).pt_locked ≡ false
      → k.store.locked ≡ false
      → k.core.locked ≡ false
      → CoremapOk k.core
      → get_elem? k.core.entries i ≡ some e
      → (k.spaces space).pt_paddr ≡ frame_paddr k.core i
      → (k' : Kernel T B W) × (as_destroy bits wld space k ≡ ok tt k')
        × Destroyed bits laws wld space i e k k'
  unfolding as_destroy can_sleep
  as_destroy-Destroyed space i e k sl ir ne u sw l v q at_i =
      let self = ==_refl space in
      let (s', slots, cleared) =
        clear_slots-Cleared bits laws wld (k.spaces space).as_pt
          (record k.store { world = wld.vfs_close k.store.world (k.spaces space).v }) sw in
      let (c1, freed, rel) = freepages_lem k.core i e l v q in
      let (c2, gone, frames, own, other, v2, l2) =
        free_as_lem space c1 ne rel.unlocked rel.well_formed in
      let bounds = frame_paddr_bounds i v (get_elem?-lt k.core.entries i q) in
      let addr : sub32 (paddr_to_kvaddr (k.spaces space).pt_paddr) kseg0 ≡ frame_paddr k.core i =
        omega (arith, at_i, bounds.1, v.last) in
      let a = k.spaces space in
      let k1 = write_space space (record a { pt_locked = true }) k in
      let k2 = record k1 { store = s' } in
      let k3 = write_space space (record a { pt_locked = false }) k2 in
      (
        record k3 { core = c2 },
        ground arith,
        record {
          closed = cleared.world;
          slots = cleared;
          frames = frames;
          table = λ j lo hi. stays_free space j c1 c2 own other (rel.inside j lo hi);
          well_formed = v2;
          unlocked = rw self;
          core_unlocked = l2;
        },
      )
