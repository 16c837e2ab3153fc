-- ===== src/Kernel.antt =====
-- The state of the whole kernel as the virtual memory system sees it, commands of its parts on it, and
-- proc_getas of kern/proc/proc.c.
use paging_os.Base.{◌||◌, ◌&&◌, not, ℕ, Bool, none, some, ◌==◌, if◌then◌else◌, get_elem?, update}
use paging_os.Machine.{kassert, Cmd, ok, fault, pure, get, modify, carry, ◌>>=◌, wild_access}
use paging_os.Stats.{vm_stats_inc}
use paging_os.Tlb.{Mmu}
use paging_os.Swap.{Store}
use paging_os.Coremap.{Coremap, null}
use paging_os.Space.{PtEntry, AddrSpace}

-- `spaces` is the memory behind the pointers to address spaces; `curproc` is whether there is a
-- current process, and `cur_as` its p_addrspace.
pub record Kernel (T B W : Type 0) : Type 0 where
  pub core : Coremap
  pub mmu : Mmu T
  pub store : Store B W
  pub spaces : ℕ → AddrSpace
  pub curproc : Bool
  pub cur_as : ℕ

-- proc_getas
unfoldable pub proc_getas : {T B W : Type 0} → Cmd (Kernel T B W) ℕ
proc_getas = do k ← get; pure (if k.curproc then k.cur_as else null)

module _ {T B W : Type 0} where
  -- Commands of the parts, on the kernel.
  abbrev pub on_core : {A : Type 0} → Cmd Coremap A → Cmd (Kernel T B W) A
  on_core m k = carry (λ c. record k { core = c }) (m k.core)

  abbrev pub on_mmu : {A : Type 0} → Cmd (Mmu T) A → Cmd (Kernel T B W) A
  on_mmu m k = carry (λ c. record k { mmu = c }) (m k.mmu)

  abbrev pub on_store : {A : Type 0} → Cmd (Store B W) A → Cmd (Kernel T B W) A
  on_store m k = carry (λ c. record k { store = c }) (m k.store)

  abbrev pub write_space : ℕ → AddrSpace → Kernel T B W → Kernel T B W
  write_space space a k = record k { spaces = λ x. if x == space then a else k.spaces x }

  abbrev pub on_space : {A : Type 0} → ℕ → Cmd AddrSpace A → Cmd (Kernel T B W) A
  on_space space m k = carry (λ a. write_space space a k) (m (k.spaces space))

  -- vm_stats_inc
  abbrev pub count : ℕ → Cmd (Kernel T B W) (Unit {0})
  count index k =
      carry (λ s. record k { mmu = record k.mmu { stats = s } }) (vm_stats_inc index k.mmu.stats)

  -- as->as_pt[i], read and written in place
  abbrev pub pt_entry : (space i : ℕ) → Cmd (Kernel T B W) PtEntry
  pt_entry space i k = elim (get_elem? (k.spaces space).as_pt i) [
    | none ↦ fault wild_access
    | some e ↦ ok e k
  ]

  abbrev pub set_pt_entry : (space i : ℕ) → (PtEntry → PtEntry) → Cmd (Kernel T B W) (Unit {0})
  set_pt_entry space i f = on_space space (modify λ a. record a { as_pt = update a.as_pt i f })

  -- can_sleep
  unfoldable pub can_sleep : Cmd (Kernel T B W) (Unit {0})
  can_sleep = do
    k ← get
    let cpu = k.mmu.stats.cpu
    kassert (not cpu.present || ((cpu.spinlocks == 0) && not cpu.in_interrupt))
