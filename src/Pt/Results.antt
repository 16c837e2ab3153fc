-- ===== src/Pt/Results.antt =====
-- What the look-ups of pt.c return and store.
use paging_os.Base.{
  ℕ, zero, suc, ◌+◌, ◌<◌, ◌≡◌, ◌≢◌, refl, Bool, true, false, some, List, [], ◌∷◌, arith, ◌==◌,
  ==_refl, get_elem?, Bool-cases, inl, inr,
}
use paging_os.Machine.{ok}
use paging_os.Stats.{check_can_lock}
use paging_os.Coremap.{null}
use paging_os.Space.{PtEntry}
use paging_os.Kernel.{Kernel, proc_getas, write_space}
use paging_os.Pt.{ret_minus_one, first_index, first_entry, get_page_v, get_page_p, get_page_v_to_p}

-- The lowest entry from `i` on, `d` steps ahead.
first_index-at :
    (p : PtEntry → Bool) (pt : List PtEntry) (i d : ℕ) (e : PtEntry)
    → get_elem? pt d ≡ some e
    → p e ≡ true
    → ((j : ℕ) (a : PtEntry) → j < d → get_elem? pt j ≡ some a → p a ≡ false)
    → first_index p pt i ≡ some (i + d)
unfolding first_index
first_index-at p [] i d e h t low = cc h
first_index-at p (a ∷ pt) i zero e h t low =
    let q : a ≡ e = cc h in let z : i ≡ i + 0 = omega arith in rw (q, t) (rw (← z) refl)
first_index-at p (a ∷ pt) i (suc d) e h t low =
    let n : p a ≡ false = low 0 a (omega arith) refl in
    let z : i + 1 + d ≡ i + suc d = omega arith in
    rw n (rw z at (first_index-at p pt (i + 1) d e h t (λ j b lt q. low (suc j) b (omega arith) q)))

-- A current process with an address space whose page table nobody holds, of which entry `i` is the
-- first with the virtual address, and the first with the physical address.
pub record Found {T B W : Type 0} (k : Kernel T B W) (i : ℕ) (e : PtEntry) : Type 0 where
  pub process : k.curproc ≡ true
  pub space : k.cur_as ≢ null
  pub unlocked : (k.spaces k.cur_as).pt_locked ≡ false
  pub entry : get_elem? (k.spaces k.cur_as).as_pt i ≡ some e
  pub first_v :
      (j : ℕ) (a : PtEntry)
      → j < i
      → get_elem? (k.spaces k.cur_as).as_pt j ≡ some a
      → (a.vaddr == e.vaddr) ≡ false
  pub first_p :
      (j : ℕ) (a : PtEntry)
      → j < i
      → get_elem? (k.spaces k.cur_as).as_pt j ≡ some a
      → (a.paddr == e.paddr) ≡ false

module _ {T B W : Type 0} where
  -- The kernel apart from the locks of page tables.
  pub record SameTables (k k' : Kernel T B W) : Type 0 where
    pub same : k' ≡ record k { spaces = k'.spaces }
    pub spaces : (x : ℕ) → k'.spaces x ≡ k.spaces x

  -- The kernel after the lock was taken and given back.
  abbrev relocked : Kernel T B W → Kernel T B W
  relocked k =
      let a = k.spaces k.cur_as in
      write_space k.cur_as (record a { pt_locked = false })
        (write_space k.cur_as (record a { pt_locked = true }) k)

  relocked-SameTables :
      (k : Kernel T B W) → (k.spaces k.cur_as).pt_locked ≡ false → SameTables k (relocked k)
  relocked-SameTables k u = record {
    same = refl;
    spaces = λ x. elim (Bool-cases (x == k.cur_as)) [
      | inl t ↦ let q : x ≡ k.cur_as = ground arith in rw (q, ==_refl k.cur_as) (rw⁻¹ u refl)
      | inr t ↦ rw t
    ];
  }

  module _ (k : Kernel T B W) (i : ℕ) (e : PtEntry) (f : Found k i e) where
    v_found : get_page_v e.vaddr k ≡ ok (ret_minus_one, some i) (relocked k)
    unfolding get_page_v proc_getas
    v_found =
        let at_i =
          first_index-at (λ a. a.vaddr == e.vaddr) (k.spaces k.cur_as).as_pt 0 i e f.entry
            (==_refl e.vaddr) f.first_v in
        let z : 0 + i ≡ i = omega arith in
        let same = ==_refl k.cur_as in
        let h1 = f.process in let h2 = f.space in let h3 = f.unlocked in ground arith

    p_found : get_page_p e.paddr k ≡ ok (ret_minus_one, some i) (relocked k)
    unfolding get_page_p proc_getas
    p_found =
        let at_i =
          first_index-at (λ a. a.paddr == e.paddr) (k.spaces k.cur_as).as_pt 0 i e f.entry
            (==_refl e.paddr) f.first_p in
        let z : 0 + i ≡ i = omega arith in
        let same = ==_refl k.cur_as in
        let h1 = f.process in let h2 = f.space in let h3 = f.unlocked in ground arith

    entry_found : first_entry (λ a. a.vaddr == e.vaddr) (k.spaces k.cur_as).as_pt ≡ some e
    unfolding first_entry
    entry_found =
        let at_i =
          first_index-at (λ a. a.vaddr == e.vaddr) (k.spaces k.cur_as).as_pt 0 i e f.entry
            (==_refl e.vaddr) f.first_v in
        let z : 0 + i ≡ i = omega arith in rw (first_entry, at_i, z) f.entry

    v_to_p_found :
        (k3 : Kernel T B W) × (get_page_v_to_p e.vaddr k ≡ ok (ret_minus_one, some e.paddr) k3)
        × SameTables k k3
    unfolding get_page_v_to_p proc_getas
    v_to_p_found =
        let same = ==_refl k.cur_as in
        let h = entry_found in
        let h1 = f.process in
        let h2 = f.space in
        let h3 = f.unlocked in
        elim (Bool-cases (check_can_lock k.mmu.stats.cpu)) [
          | inl t ↦ (relocked k, ground arith, relocked-SameTables k f.unlocked)
          | inr t ↦ (k, ground arith, record { same = refl; spaces = λ x. refl })
        ]

  -- When entry `i` is the first one in the page table of the current process with its virtual and with its
  -- physical address, and nobody holds the table, then getPageV and getPageP of these addresses
  -- store `i`, and getPageVtoP stores the physical address; all three return -1 all the same, and the
  -- kernel is as before.
  pub lookups_lem :
      (k : Kernel T B W) (i : ℕ) (e : PtEntry)
      → Found k i e
      → (k1 k2 k3 : Kernel T B W) × (get_page_v e.vaddr k ≡ ok (ret_minus_one, some i) k1)
        × (get_page_p e.paddr k ≡ ok (ret_minus_one, some i) k2)
        × (get_page_v_to_p e.vaddr k ≡ ok (ret_minus_one, some e.paddr) k3)
        × SameTables k k1
        × SameTables k k2
        × SameTables k k3
  lookups_lem k i e f =
      let (k3, call, same) = v_to_p_found k i e f in
      let again = relocked-SameTables k f.unlocked in
      (relocked k, relocked k, k3, v_found k i e f, p_found k i e f, call, again, again, same)
