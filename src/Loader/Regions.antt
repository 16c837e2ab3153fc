-- ===== src/Loader/Regions.antt =====
-- The regions that load_elf defines for the headers of a program file.
use paging_os.Base.{
  ℕ, suc, ◌+◌, ◌*◌, ◌%◌, ◌≡◌, ◌≢◌, ap, refl, ◌⊎◌, inl, inr, true, false, List, [], ◌∷◌, ◌++◌, arith,
  ◌==◌, ==_refl, if◌then◌else◌, length, ◌∙◌, sym,
}
use paging_os.Machine.{u32, add32, ok, success}
use paging_os.Coremap.{null}
use paging_os.Space.{Segment, as_define_region, new_segment, mask_bit}
use paging_os.Kernel.{Kernel, write_space}
use paging_os.Loader.{Phdr, ElfOps, is_skipped, define_regions, define_region, set_world}

-- The segment of a header.
abbrev pub region : Phdr → Segment
region ph =
    new_segment ph.p_vaddr ph.p_memsz ph.p_filesz (mask_bit 2 4 ph.p_flags)
      (mask_bit 1 2 ph.p_flags) (mask_bit 0 1 ph.p_flags) ph.p_offset

pub ++_assoc : (xs ys zs : List Segment) → (xs ++ ys) ++ zs ≡ xs ++ (ys ++ zs)
++_assoc [] ys zs = refl
++_assoc (x ∷ xs) ys zs = ap (λ l. x ∷ l) (++_assoc xs ys zs)

++_nil : (xs : List Segment) → xs ++ [] ≡ xs
++_nil [] = refl
++_nil (x ∷ xs) = ap (λ l. x ∷ l) (++_nil xs)

module _ {W : Type 0} (elf : ElfOps W) where
  -- The segments of the headers that are not passed over, in their order.
  abbrev pub loadable : List Phdr → List Segment
  loadable [] = []
  loadable (h ∷ headers) =
      if is_skipped elf h.p_type then loadable headers else region h ∷ loadable headers

  -- The file holds these headers from header `i` on, each of a type that load_elf knows, and its reads
  -- take the world from `w` to `w'`.
  abbrev pub Holds : (v phoff phentsize i : ℕ) → (w : W) → List Phdr → (w' : W) → Type 0
  Holds v phoff phentsize i w [] w' = w ≡ w'
  Holds v phoff phentsize i w (h ∷ headers) w' =
      (w1 : W) × (elf.read_phdr w v (add32 phoff (i * phentsize % u32)) ≡ (0, 0, h, w1))
      × ((is_skipped elf h.p_type ≡ true)
          ⊎ ((is_skipped elf h.p_type ≡ false) × (h.p_type ≡ elf.pt_load)))
      × Holds v phoff phentsize (i + 1) w1 headers w'

module _ {T B W : Type 0} (elf : ElfOps W) where
  -- The address space has more segments, and nothing else is changed but the world.
  pub record Defined (space : ℕ) (segments : List Segment) (w : W) (k k' : Kernel T B W)
      : Type 0 where
    pub more : (k'.spaces space).as_segment ≡ (k.spaces space).as_segment ++ segments
    pub table : (k'.spaces space).as_pt ≡ (k.spaces space).as_pt
    pub unlocked : (k'.spaces space).pt_locked ≡ (k.spaces space).pt_locked
    pub others : (x : ℕ) → x ≢ space → k'.spaces x ≡ k.spaces x
    pub core : k'.core ≡ k.core
    pub mmu : k'.mmu ≡ k.mmu
    pub store : k'.store ≡ record k.store { world = w }
    pub current : k'.cur_as ≡ k.cur_as

  -- the kernel after one more region
  abbrev grown : (space : ℕ) → Segment → Kernel T B W → Kernel T B W
  grown space seg k =
      let a = k.spaces space in
      write_space space (record a { as_segment = a.as_segment ++ seg ∷ [] }) k

  region_defined :
      (space : ℕ) (h : Phdr) (k : Kernel T B W)
      → space ≢ 0
      → define_region elf true space h k ≡ ok success (grown space (region h) k)
  unfolding as_define_region
  region_defined space h k ne = let e : (space == null) ≡ false = ground arith in rw e refl

  Defined-grown :
      (space : ℕ) (seg : Segment) (segments : List Segment) (w1 w : W) (k k' : Kernel T B W)
      → Defined space segments w (grown space seg (set_world elf w1 k)) k'
      → Defined space (seg ∷ segments) w k k'
  Defined-grown space seg segments w1 w k k' d =
      let self = ==_refl space in
      record {
        more = d.more ∙ rw self (++_assoc (k.spaces space).as_segment (seg ∷ []) segments);
        table = d.table ∙ rw self refl;
        unlocked = d.unlocked ∙ rw self refl;
        others = λ x ne. let e : (x == space) ≡ false = ground arith in d.others x ne ∙ rw e refl;
        core = d.core;
        mmu = d.mmu;
        store = d.store;
        current = d.current;
      }

  -- One round of the loop.
  regions_skip :
      (space v phoff phentsize rounds i : ℕ) (h : Phdr) (w1 : W) (k : Kernel T B W)
      → elf.read_phdr k.store.world v (add32 phoff (i * phentsize % u32)) ≡ (0, 0, h, w1)
      → is_skipped elf h.p_type ≡ true
      → define_regions elf (λ _. true) space v phoff phentsize (suc rounds) i k
        ≡ define_regions elf (λ _. true) space v phoff phentsize rounds (i + 1) (set_world elf w1 k)
  unfolding define_regions
  regions_skip space v phoff phentsize rounds i h w1 k read skip = ground arith

  regions_load :
      (space v phoff phentsize rounds i : ℕ) (h : Phdr) (w1 : W) (k u : Kernel T B W)
      → elf.read_phdr k.store.world v (add32 phoff (i * phentsize % u32)) ≡ (0, 0, h, w1)
      → is_skipped elf h.p_type ≡ false
      → (h.p_type == elf.pt_load) ≡ true
      → define_region elf true space h (set_world elf w1 k) ≡ ok success u
      → define_regions elf (λ _. true) space v phoff phentsize (suc rounds) i k
        ≡ define_regions elf (λ _. true) space v phoff phentsize rounds (i + 1) u
  unfolding define_regions
  regions_load space v phoff phentsize rounds i h w1 k u read skip load defined = ground arith

  -- The loop of load_elf over headers that it can read and knows, with memory for the segments: it
  -- succeeds and adds the segments of the headers that it does not pass over, in their order.
  pub define_regions-Defined :
      (space v phoff phentsize i : ℕ) (headers : List Phdr) (w : W) (k : Kernel T B W)
      → space ≢ 0
      → Holds elf v phoff phentsize i k.store.world headers w
      → (k' : Kernel T B W) × (define_regions elf
            (λ _. true)
            space
            v
            phoff
            phentsize
            (length headers)
            i
            k
          ≡ ok success k')
        × Defined space (loadable elf headers) w k k'
  unfolding define_regions
  define_regions-Defined space v phoff phentsize i [] w k ne e = (
    k,
    refl,
    record {
      more = sym (++_nil (k.spaces space).as_segment);
      table = refl;
      unlocked = refl;
      others = λ x d. refl;
      core = refl;
      mmu = refl;
      store = rw (← e) refl;
      current = refl;
    },
  )
  define_regions-Defined space v phoff phentsize i (h ∷ headers) w k ne (w1, read, inl skip, rest) =
      let (k', run, d) =
        define_regions-Defined space v phoff phentsize (i + 1) headers w (set_world elf w1 k) ne
          rest in
      (
        k',
        regions_skip space v phoff phentsize (length headers) i h w1 k read skip ∙ run,
        rw skip record {
          more = d.more;
          table = d.table;
          unlocked = d.unlocked;
          others = d.others;
          core = d.core;
          mmu = d.mmu;
          store = d.store;
          current = d.current;
        },
      )
  define_regions-Defined space v phoff phentsize i (h ∷ headers) w k ne
        (w1, read, inr (skip, load), rest) =
      let u = grown space (region h) (set_world elf w1 k) in
      let defined = region_defined space h (set_world elf w1 k) ne in
      let known : (h.p_type == elf.pt_load) ≡ true = ground arith in
      let (k', run, d) =
        define_regions-Defined space v phoff phentsize (i + 1) headers w u ne rest in
      (
        k',
        regions_load space v phoff phentsize (length headers) i h w1 k u read skip known defined
            ∙ run,
        rw skip (Defined-grown space (region h) (loadable elf headers) w1 w k k' d),
      )
