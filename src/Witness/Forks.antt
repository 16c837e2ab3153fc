-- ===== src/Witness/Forks.antt =====
-- Process 12 of Witness/Processes forks: process 13 is new, and thread 30 runs in it.
use paging_os.Base.{
  ℕ, ◌≡◌, ◌<◌, refl, true, false, some, List, [], ◌∷◌, ◌++◌, arith, replicate, get_elem?,
}
use paging_os.Machine.{ok, success}
use paging_os.Kernel.{Kernel}
use paging_os.Clone.{as_copy}
use paging_os.Proc.{set_proc, Procs, proc_create_runprogram}
use paging_os.Thread.{Smp}
use paging_os.Thread.Switch.{thread_fork}
use paging_os.Fork.{shared, Whole, Allocations, sys_fork}
use paging_os.Fork.Swapped.{sys_fork-Emptied}
use paging_os.Witness.Devices.{SlotTlb, FunMap, fun_map, World, world, slot_tlb}
use paging_os.Witness.Executing.{empty_kernel}
use paging_os.Witness.Filing.{opened_twice}
use paging_os.Proc.Reap.{empty_sem}
use paging_os.Witness.Processes.{counting, running}
use paging_os.Witness.Threading.{lists, codes_used, machine}

abbrev pub All : Type 0
All = Whole (List ℕ) ℕ SlotTlb FunMap World (List ℕ)

abbrev pub everything : All
everything = record {
  files = record opened_twice {
    tables = replicate 12 [] ++ (0 ∷ 0 ∷ 0 ∷ 1 ∷ 1 ∷ 0 ∷ []) ∷ (0 ∷ []) ∷ [];
  };
  procs = running;
  kernel = record empty_kernel {
    spaces = λ x. record (empty_kernel.spaces x) {
      npages = 1;
      as_pt =
          record { paddr = 0; vaddr = 0x40_0000; in_mem = false; in_swap = false; rwx = 5 } ∷ [];
    };
  };
  smp = machine;
}

abbrev pub given : Allocations
given = record {
  newproc = 13;
  name_ok = true;
  sem = some (empty_sem 0);
  creation = record { newas = 9; opened = true; vnode = 3; lock_created = true };
  allocated = λ _. true;
  raw = record { paddr = 1; vaddr = 1; in_mem = false; in_swap = false; rwx = 1 } ∷ [];
  tf_child = true;
  newthread = 30;
  thread_name_ok = true;
  stack = 4096;
}

created :
    (p : Procs ℕ) × (proc_create_runprogram counting 13 true (some (empty_sem 0)) running ≡ ok 13 p)
unfolding proc_create_runprogram
created = (_, refl)

space_copied :
    (k : Kernel SlotTlb FunMap World) × (as_copy slot_tlb fun_map world given.creation
        given.allocated given.raw 7 everything.kernel
      ≡ ok (success, 9) k)
unfolding as_copy paging_os.Kernel.can_sleep paging_os.Vm.pt_alloc
    paging_os.Coremap.get_available_ram paging_os.Coremap.find_free paging_os.Coremap.is_free
space_copied = (_, refl)

thread_forked :
    (m : Smp (List ℕ)) × (thread_fork lists codes_used 30 true 4096 13
        (shared (set_proc 13 (λ x. record x { p_addrspace = 9 }) created.0) machine)
      ≡ ok success m)
unfolding thread_fork created proc_create_runprogram
thread_forked = (_, refl)

sys_fork-Emptied_example :
    (pid : ℕ) × (s' : All) × (table : List ℕ) × (sys_fork 6 counting slot_tlb fun_map world lists
        codes_used given everything
      ≡ ok (pid, success) s')
    × (get_elem? s'.files.tables 12 ≡ some table)
    × ((fd : ℕ) → fd < 6 → get_elem? table fd ≡ some 0)
    × (get_elem? s'.files.tables 13 ≡ some (replicate 6 0))
    × (s'.files.system ≡ opened_twice.system)
unfolding created
sys_fork-Emptied_example =
    sys_fork-Emptied 6 counting slot_tlb fun_map world lists codes_used given 13 9 success
      everything created.0 space_copied.0 thread_forked.0 (0 ∷ 0 ∷ 0 ∷ 1 ∷ 1 ∷ 0 ∷ []) (0 ∷ [])
      (λ e. absurd (ground (arith, e))) (λ e. absurd (omega (arith, e)))
      (λ e. absurd (omega (arith, e))) (λ e. absurd (omega (arith, e))) created.1 space_copied.1
      refl thread_forked.1 refl refl refl
