-- ===== src/Stats/Count.antt =====
-- What vm_stats_inc changes, and when vm_stats_print finds nothing to complain about.
use paging_os.Base.{
  ℕ, ◌+◌, ◌%◌, ◌<◌, ◌≡◌, ◌↔◌, false, [], arith, ◌==◌, if◌then◌else◌, Bool-cases, inl, inr,
}
use paging_os.Machine.{u32, add32, ok}
use paging_os.Stats.{
  Stats, vm_stats_inc, vm_stats_print, stats_tot, tlb_fault, tlb_fault_with_free,
  tlb_fault_with_replace, tlb_reload, page_fault_zeroed, page_fault_disk, elf_read, swap_read,
  check_can_lock,
}

-- The counters after an increment of one of them.
abbrev pub counted : ℕ → (ℕ → ℕ) → ℕ → ℕ
counted index f i = if i == index then (f i + 1) % u32 else f i

abbrev pub bumped : ℕ → Stats → Stats
bumped index s = record s { counters = counted index s.counters }

-- With the lock free, or with a caller that may not lock, vm_stats_inc of a counter that exists
-- returns, adds one to that counter modulo 2 ^ 32, and leaves the lock free and all else as it was.
pub vm_stats_inc_lem :
    (index : ℕ) (s : Stats)
    → index < stats_tot
    → s.locked ≡ false
    → vm_stats_inc index s ≡ ok tt (bumped index s)
unfolding vm_stats_inc
vm_stats_inc_lem index s h l = elim (Bool-cases (check_can_lock s.cpu)) [
  | inl e ↦ ground arith
  | inr e ↦ ground arith
]

-- The counters agree with one another, in the arithmetic of `unsigned`.
pub record Consistent (c : ℕ → ℕ) : Type 0 where
  pub tlb : c tlb_fault ≡ add32 (c tlb_fault_with_free) (c tlb_fault_with_replace)
  pub pages : c tlb_fault ≡ add32 (add32 (c page_fault_disk) (c page_fault_zeroed)) (c tlb_reload)
  pub disk : c page_fault_disk ≡ add32 (c elf_read) (c swap_read)

-- vm_stats_print reports no inconsistency exactly when the counters agree.
pub vm_stats_print-Consistent : (c : ℕ → ℕ) → (vm_stats_print c ≡ []) ↔ Consistent c
unfolding vm_stats_print
vm_stats_print-Consistent c = (
  λ h. record { tlb = ground arith; pages = ground arith; disk = ground arith },
  λ h. ground arith,
)
