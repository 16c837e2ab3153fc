-- ===== src/Witness/Reaping.antt =====
-- Process 12 of Witness/Processes without threads, with the address space of Witness/Ending.
use paging_os.Base.{ℕ, ◌≡◌, refl, ◌==◌, if◌then◌else◌, Bool-cases, inl, inr, arith}
use paging_os.Machine.{ok}
use paging_os.Kernel.{Kernel}
use paging_os.Proc.{Procs, proc_destroy}
use paging_os.Proc.Table.{TableOk}
use paging_os.Life.Reaped.{kernel_ops, cwd_dropped, proc_destroy-Reaped}
use paging_os.Witness.Devices.{SlotTlb, FunMap, fun_map, fun_map_laws, World, world}
use paging_os.Witness.Processes.{user_proc, kernel_proc, scheduled, scheduled-TableOk}
use paging_os.Witness.Ending.{ending, table_frame, last_table-CoremapOk}

abbrev Ended : Type 0
Ended = Procs (Kernel SlotTlb FunMap World)

abbrev ended : Ended
ended = record {
  procs = λ x. if x == 12 then record (user_proc 0 0) { p_addrspace = 5 } else kernel_proc;
  process_table = (scheduled 6).process_table;
  kproc = 11;
  t_proc = λ t. 11;
  curthread = 6;
  rest = ending;
}

ended-TableOk : TableOk ended
ended-TableOk = record {
  size = refl;
  last = omega arith;
  fresh = λ z. absurd (omega (arith, z));
  pids = λ i p h live.
      let (a, b) = (scheduled-TableOk 6).pids i p h live in
      elim (Bool-cases (p == 12)) [ inl e ↦ (a, rw e (rw e at b)) | inr e ↦ (a, rw e (rw e at b)) ];
}

abbrev keep : World → ℕ → World
keep d v = d

proc_destroy-Reaped_example :
    (k' : Kernel SlotTlb FunMap World) × (s' : Ended) × (proc_destroy
        (kernel_ops fun_map world keep keep)
        12
        ended
      ≡ ok tt s')
    × paging_os.Proc.Reap.Destroyed (kernel_ops fun_map world keep keep) 12 k' ended s'
    × paging_os.Life.Destroy.Destroyed fun_map fun_map_laws world 5 1 table_frame
        (cwd_dropped fun_map world keep keep 12 ended)
        k'
proc_destroy-Reaped_example =
    proc_destroy-Reaped fun_map world keep keep fun_map_laws ended 12 0 1 table_frame ended-TableOk
      (λ z. omega (arith, z)) (λ z. omega (arith, z)) (λ z. omega (arith, z)) refl refl refl
      (λ z. omega (arith, z)) refl refl refl refl refl last_table-CoremapOk refl refl
