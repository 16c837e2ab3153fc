-- ===== src/Stats.antt =====
-- kern/vm/vmstats.c and kern/include/vmstats.h: the counters of the virtual memory system, and
-- checkcanLock of kern/vm/addrspace.c, by which they choose to lock.
pub mod Count
use paging_os.Base.{
  ℕ, suc, ◌+◌, ◌%◌, Bool, true, false, not, ◌&&◌, List, [], ◌∷◌, ◌++◌, ltb, ◌==◌, if◌then◌else◌,
}
use paging_os.Machine.{u32, add32, Cmd, fail, panicked, get, modify, kassert, ◌>>=◌, ◌>>◌}

-- the enumeration of vmstats.h
abbrev pub tlb_fault : ℕ
tlb_fault = 0

abbrev pub tlb_fault_with_free : ℕ
tlb_fault_with_free = 1

abbrev pub tlb_fault_with_replace : ℕ
tlb_fault_with_replace = 2

abbrev pub tlb_invalidation : ℕ
tlb_invalidation = 3

abbrev pub tlb_reload : ℕ
tlb_reload = 4

abbrev pub page_fault_zeroed : ℕ
page_fault_zeroed = 5

abbrev pub page_fault_disk : ℕ
page_fault_disk = 6

abbrev pub elf_read : ℕ
elf_read = 7

abbrev pub swap_read : ℕ
swap_read = 8

abbrev pub swap_write : ℕ
swap_write = 9

abbrev pub stats_tot : ℕ
stats_tot = 10

-- The parts of `curcpu` and `curthread` that decide whether the caller may sleep.
pub record Cpu : Type 0 where
  pub present : Bool
  pub spinlocks : ℕ
  pub in_interrupt : Bool

-- `counters`, whether `stats_lock` is held, and the processor that runs the kernel
pub record Stats : Type 0 where
  pub counters : ℕ → ℕ
  pub locked : Bool
  pub cpu : Cpu

-- checkcanLock() returns 0, and the caller may lock
unfoldable pub check_can_lock : Cpu → Bool
check_can_lock c = c.present && ((c.spinlocks == 0) && not c.in_interrupt)

-- lock_acquire and lock_release of `stats_lock`
abbrev pub stats_acquire : Cmd Stats (Unit {0})
stats_acquire = do s ← get; kassert (not s.locked); modify (λ s. record s { locked = true })

abbrev pub stats_release : Cmd Stats (Unit {0})
stats_release = do s ← get; kassert s.locked; modify (λ s. record s { locked = false })

-- `lock_created`: whether lock_create had the memory for `stats_lock`
unfoldable pub vm_stats_init : (lock_created : Bool) → Cmd Stats (Unit {0})
vm_stats_init lock_created = do
  modify (λ s. record s { counters = λ i. if ltb i stats_tot then 0 else s.counters i })
  if lock_created then modify (λ s. record s { locked = false }) else fail panicked

-- _vm_stats_inc
unfoldable pub count_up : ℕ → Cmd Stats (Unit {0})
count_up index = do
  kassert (ltb index stats_tot)
  modify (λ s. record s {
    counters = λ i. if i == index then (s.counters i + 1) % u32 else s.counters i;
  })

unfoldable pub vm_stats_inc : ℕ → Cmd Stats (Unit {0})
unfolding count_up check_can_lock
vm_stats_inc index = do
  s ← get
  if check_can_lock s.cpu then (do stats_acquire; count_up index; stats_release) else count_up index

-- The lines that begin with INCONSISTENCY in the output of vm_stats_print, by the counter that they
-- complain about.
unfoldable pub vm_stats_print : (ℕ → ℕ) → List ℕ
vm_stats_print counters =
    let faults = counters tlb_fault in
    let tot_tlb = add32 (counters tlb_fault_with_free) (counters tlb_fault_with_replace) in
    let dzr_sum =
      add32 (add32 (counters page_fault_disk) (counters page_fault_zeroed)) (counters tlb_reload) in
    let disk_sum = add32 (counters elf_read) (counters swap_read) in
    let disk = counters page_fault_disk in
    (if faults == tot_tlb then [] else tlb_fault ∷ [])
    ++ ((if faults == dzr_sum then [] else tlb_fault ∷ [])
        ++ (if disk == disk_sum then [] else page_fault_disk ∷ []))
