-- ===== src/Coremap.antt =====
-- kern/vm/coremap.c and kern/include/coremap.h: the table of the physical frames.
-- A function that takes and gives back `coremap_lock` does so by `spin_acquire` and `spin_release`.
pub mod Scan
pub mod Inv
pub mod Alloc
pub mod Release
pub mod Victim
pub mod Init
use paging_os.Base.{
  ℕ, zero, suc, ◌+◌, ◌-◌, ◌*◌, ◌/◌, ◌%◌, Bool, true, false, not, ◌&&◌, ◌||◌, Option, none, some,
  List, map, ltb, leb, ◌==◌, if◌then◌else◌, length, get_elem?, replicate, update, update_range,
}
use paging_os.Machine.{
  u32, page_size, add32, sub32, pages_for, or_two, or_three, paddr_to_kvaddr, Cmd, pure, fail, get,
  modify, ◌>>=◌, ◌>>◌, deadlock, panicked, wild_access,
}

-- `struct addrspace *` as an address; 0 is NULL.
abbrev pub null : ℕ
null = 0

-- `c_entry`, and its size in bytes
pub record CEntry : Type 0 where
  pub vaddr : ℕ
  pub addrspace : ℕ
  pub allocpages : ℕ

abbrev pub sizeof_c_entry : ℕ
sizeof_c_entry = 12

-- The globals of coremap.c. `coremapSize` is the length of `entries`.
pub record Coremap : Type 0 where
  pub active : Bool
  pub first_paddr : ℕ
  pub last_paddr : ℕ
  pub entries : List CEntry
  pub next_svic : ℕ
  pub ram_used : ℕ
  -- whether `coremap_lock` is taken
  pub locked : Bool

abbrev pub coremap_size : Coremap → ℕ
coremap_size c = length c.entries

-- i * PAGE_SIZE + firstpaddr
abbrev pub frame_paddr : Coremap → ℕ → ℕ
frame_paddr c i = add32 (i * page_size % u32) c.first_paddr

abbrev pub spin_acquire : Cmd Coremap (Unit {0})
spin_acquire = do
  c ← get
  if c.locked then fail deadlock else modify (λ c. record c { locked = true })

abbrev pub spin_release : Cmd Coremap (Unit {0})
spin_release = modify (λ c. record c { locked = false })

-- CRES, CUSED: the second operand of each `&&` is a constant that is not 0.
abbrev pub cres : CEntry → Bool
cres e = not (e.vaddr % 4 == 0)

abbrev pub cused : CEntry → Bool
cused e = not (e.vaddr / 2 % 2 == 0)

-- !CUSED(i) && !CRES(i); no entry stands outside the array
unfoldable pub is_free : List CEntry → ℕ → Bool
is_free es i = elim (get_elem? es i) [ none ↦ false | some e ↦ not (cused e) && not (cres e) ]

unfoldable pub is_coremap_active : Cmd Coremap Bool
is_coremap_active = do spin_acquire; c ← get; spin_release; pure c.active

-- ALLIGN_NEXT_ADDR
unfoldable pub allign_next_addr : ℕ → ℕ
allign_next_addr p = if p % page_size == 0 then p else (p / page_size + 1) * page_size % u32

-- `ram_size` and `first_free` are what ram_getsize() and ram_getfirstfree() return.
unfoldable pub coremap_init : (ram_size first_free : ℕ) → Cmd Coremap (Unit {0})
unfolding allign_next_addr
coremap_init ram_size first_free =
    let first = allign_next_addr first_free in
    let size = sub32 ram_size first / page_size in
    let csize = pages_for (size * sizeof_c_entry % u32) in
    do
      modify (λ c. record c {
        last_paddr = ram_size;
        first_paddr = add32 first (csize * page_size % u32);
        entries =
            replicate (sub32 size csize) (record { vaddr = 0; addrspace = 0; allocpages = 0 });
      })
      spin_acquire
      modify (λ c. record c { active = true })
      spin_release

unfoldable pub set_coreentry : ℕ → Bool → ℕ → CEntry → CEntry
set_coreentry vaddr is_reserved space e = record e {
  vaddr = if is_reserved then or_three vaddr else or_two vaddr;
  addrspace = if is_reserved then null else space;
}

abbrev pub set_empty : CEntry → CEntry
set_empty e = record e { vaddr = 0; addrspace = null }

unfoldable pub free_as : ℕ → Cmd Coremap (Unit {0})
free_as space = do
  spin_acquire
  modify (λ c. record c {
    entries = map (λ e. if e.addrspace == space then set_empty e else e) c.entries;
  })
  spin_release

-- The first loop of getPage, from `i` with the given rounds left: the index at the `break`, or
-- the end.
unfoldable pub find_free : List CEntry → (rounds i : ℕ) → ℕ
find_free es zero i = i
find_free es (suc rounds) i =
    let rest = find_free es rounds (i + 1) in if is_free es i then i else rest

-- The branch of getPage that takes the free frame `i`; allocpages is set too.
unfoldable pub take_frame : (is_reserved : Bool) → (vaddr space i : ℕ) → Coremap → Coremap
unfolding set_coreentry
take_frame is_reserved vaddr space i c = record c {
  entries =
      update c.entries i λ e. record (set_coreentry vaddr is_reserved space e) { allocpages = 1 };
}

abbrev pub swapvictim : (size next_svic : ℕ) → ℕ × ℕ
swapvictim size next_svic = (next_svic, (next_svic + 1) % size)

-- An entry at which getPage's `while(1)` stops: bit 0 is clear, and it belongs to `space`.
unfoldable pub evictable : List CEntry → ℕ → ℕ → Bool
evictable es space i = elim (get_elem? es i) [
  | none ↦ false
  | some e ↦ (e.vaddr % 2 == 0) && (e.addrspace == space)
]

-- That loop, calling swapvictim in each round. `none`: the given rounds are used up.
unfoldable pub find_victim : List CEntry → (space rounds next_svic : ℕ) → Option (ℕ × ℕ)
find_victim es space zero next_svic = none
find_victim es space (suc rounds) next_svic =
    let (svic, next) = swapvictim (length es) next_svic in
    let rest = find_victim es space rounds next in
    if evictable es space svic then some (svic, next) else rest

-- The loop of getMultiplePages, from `i` with `first` and the given rounds left.
unfoldable pub scan_run : List CEntry → (npages rounds i first : ℕ) → Option ℕ
scan_run es npages zero i first = none
scan_run es npages (suc rounds) i first =
    let first' = if is_free es i && ((i == 0) || not (is_free es (i - 1))) then i else first in
    let rest = scan_run es npages rounds (i + 1) first' in
    if is_free es i && leb npages (i - first' + 1) then some first' else rest

-- What getMultiplePages does to the run that it has found.
unfoldable pub take_run :
    (npages : ℕ) → (is_reserved : Bool) → (space first : ℕ) → Coremap → Coremap
unfolding set_coreentry
take_run npages is_reserved space first c = record c {
  entries =
      update_range (λ i. set_coreentry (paddr_to_kvaddr (frame_paddr c i)) is_reserved space)
        (update c.entries first λ e. record e { allocpages = npages }) npages first;
}

unfoldable pub get_multiple_pages :
    (npages : ℕ) → (is_reserved : Bool) → (space : ℕ) → Cmd Coremap ℕ
unfolding scan_run take_run
get_multiple_pages npages is_reserved space = do
  spin_acquire
  c ← get
  if not c.active
      then (do spin_release; pure 0)
      else elim (scan_run c.entries npages (coremap_size c) 0 0) [
        | none ↦ fail panicked
        | some first ↦ do
          modify (take_run npages is_reserved space first)
          spin_release
          pure (frame_paddr c first)
      ]

unfoldable pub freepages : ℕ → Cmd Coremap (Unit {0})
freepages paddr = do
  c ← get
  if ltb paddr c.first_paddr
      then pure tt
      else let i = (paddr - c.first_paddr) / page_size in
        do
          spin_acquire
          elim (get_elem? c.entries i) [
            | none ↦ fail wild_access
            | some e ↦ do
              modify (λ c. record c {
                entries =
                    update_range (λ _. set_empty)
                      (update c.entries i λ e. record e { allocpages = 0 }) e.allocpages i;
              })
              spin_release
          ]

unfoldable pub get_available_ram : Cmd Coremap ℕ
get_available_ram = do spin_acquire; c ← get; spin_release; pure (sub32 (coremap_size c) c.ram_used)
