-- ===== src/Pt.antt =====
-- kern/vm/pt.c: the look-ups in the page table of the current process.
pub mod Results
use paging_os.Base.{
  ℕ, ◌+◌, ◌≡◌, refl, Bool, true, false, Option, none, some, List, [], ◌∷◌, ◌==◌, if◌then◌else◌, map,
  get_elem?,
}
use paging_os.Machine.{Cmd, pure, get, ◌>>=◌, ◌>>◌}
use paging_os.Stats.{check_can_lock}
use paging_os.Coremap.{null}
use paging_os.Space.{PtEntry, pt_acquire, pt_release}
use paging_os.Kernel.{Kernel, proc_getas, on_space}

-- The return value of a look-up.
pub data Ret : Type 0 where
  ret_one ret_zero ret_minus_one : Ret

-- The first index from `i` on at which a test holds: the loop with the `break`.
pub first_index : (PtEntry → Bool) → List PtEntry → (i : ℕ) → Option ℕ
first_index p [] i = none
first_index p (e ∷ es) i = let rest = first_index p es (i + 1) in if p e then some i else rest

-- The entry at that index.
unfoldable pub first_entry : (PtEntry → Bool) → List PtEntry → Option PtEntry
first_entry p pt = elim (first_index p pt 0) [ none ↦ none | some i ↦ get_elem? pt i ]

-- The last entry with a test: the loop of getPagePtoV, which goes on behind a hit. `found` is the last
-- one so far.
pub last_entry : (PtEntry → Bool) → List PtEntry → (found : Option PtEntry) → Option PtEntry
last_entry p [] found = found
last_entry p (e ∷ es) found = last_entry p es (if p e then some e else found)

-- A field of the entry found, if one was.
abbrev field_of : (PtEntry → ℕ) → Option PtEntry → Option ℕ
field_of f none = none
field_of f (some e) = some (f e)

-- Each look-up returns its value, and what it stores through its second argument, `none` if nothing.
-- The number of pages is the length of the page table.
module _ {T B W : Type 0} where
  unfoldable pub get_page_v : (vaddr : ℕ) → Cmd (Kernel T B W) (Ret × Option ℕ)
  get_page_v vaddr = do
    space ← proc_getas
    if space == null then pure (ret_zero, none) else do
      on_space space pt_acquire
      k ← get
      on_space space pt_release
      pure (ret_minus_one, first_index (λ e. e.vaddr == vaddr) (k.spaces space).as_pt 0)

  unfoldable pub get_page_p : (paddr : ℕ) → Cmd (Kernel T B W) (Ret × Option ℕ)
  get_page_p paddr = do
    space ← proc_getas
    if space == null then pure (ret_zero, none) else do
      on_space space pt_acquire
      k ← get
      on_space space pt_release
      pure (ret_minus_one, first_index (λ e. e.paddr == paddr) (k.spaces space).as_pt 0)

  unfoldable pub get_page_v_to_p : (vaddr : ℕ) → Cmd (Kernel T B W) (Ret × Option ℕ)
  get_page_v_to_p vaddr = do
    space ← proc_getas
    if space == null then pure (ret_zero, none) else do
      k ← get
      let may = check_can_lock k.mmu.stats.cpu
      if may then on_space space pt_acquire else pure tt
      k ← get
      if may then on_space space pt_release else pure tt
      pure (
        ret_minus_one,
        field_of (λ e. e.paddr) (first_entry (λ e. e.vaddr == vaddr) (k.spaces space).as_pt),
      )

  unfoldable pub get_page_p_to_v : (paddr : ℕ) → Cmd (Kernel T B W) (Ret × Option ℕ)
  get_page_p_to_v paddr = do
    space ← proc_getas
    if space == null then pure (ret_zero, none) else do
      on_space space pt_acquire
      k ← get
      on_space space pt_release
      pure (
        ret_minus_one,
        field_of (λ e. e.vaddr) (last_entry (λ e. e.paddr == paddr) (k.spaces space).as_pt none),
      )
