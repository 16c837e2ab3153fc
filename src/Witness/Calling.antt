-- ===== src/Witness/Calling.antt =====
-- The system calls open and close, with the files of Witness/Filing and the rest of Witness/Forks.
use paging_os.Base.{ℕ, ◌≡◌, refl, List, [], ◌∷◌, some, arith}
use paging_os.Machine.{ok}
use paging_os.Files.Counts.{FilesOk}
use paging_os.Dispatch.{Abi, TrapFrame, Calls, OtherOps, syscall}
use paging_os.Dispatch.Registers.{OpenAnswer, CloseAnswer, MayCall, syscall-open, syscall-close}
use paging_os.Witness.Devices.{SlotTlb, FunMap, fun_map, World, world, slot_tlb}
use paging_os.Witness.Filing.{closing, closing_laws, opened_twice, opened_twice-FilesOk}
use paging_os.Witness.Processes.{counting}
use paging_os.Witness.Forks.{everything, given}
use paging_os.Witness.Threading.{lists, codes_used}

abbrev abi : Abi
abi = record {
  nr_reboot = 119;
  nr_time = 113;
  nr_open = 45;
  nr_close = 49;
  nr_remove = 68;
  nr_write = 55;
  nr_read = 50;
  nr_exit = 3;
  nr_waitpid = 4;
  nr_getpid = 5;
  nr_fork = 0;
  errno = λ e. 1;
  rb_reboot = 0;
  rb_halt = 1;
  rb_poweroff = 2;
}

abbrev Here : Type 0
Here = Calls (List ℕ) ℕ SlotTlb FunMap World (List ℕ) (Unit {0})

abbrev quiet : Here
quiet = record { whole = record everything { files = opened_twice }; others = tt }

abbrev other_calls : OtherOps (Unit {0})
other_calls = record { sys_time = λ a b x. (0, x); store_int = λ x a v. x }

abbrev frame_of : (call argument : ℕ) → TrapFrame
frame_of call argument = record {
  tf_v0 = call;
  tf_a0 = argument;
  tf_a1 = 0;
  tf_a2 = 0;
  tf_a3 = 9;
  tf_epc = 0x40_0100;
  tf_rest = [];
}

quiet-MayCall : MayCall quiet
quiet-MayCall = (refl, refl)

syscall-open_example :
    (tf' : TrapFrame) × (s' : Here) × (syscall abi closing 6 counting slot_tlb fun_map world lists
        codes_used other_calls given
        (frame_of 45 8)
        quiet
      ≡ ok (some tf') s')
    × OpenAnswer abi closing closing_laws 6
        (frame_of 45 8)
        tf'
        9
        []
        (0 ∷ 0 ∷ 0 ∷ 1 ∷ 1 ∷ 0 ∷ [])
        opened_twice
        s'.whole.files
syscall-open_example =
    syscall-open abi closing 6 counting slot_tlb fun_map world lists codes_used other_calls given
      (frame_of 45 8) quiet (0 ∷ 0 ∷ 0 ∷ 1 ∷ 1 ∷ 0 ∷ []) quiet-MayCall opened_twice-FilesOk refl
      closing_laws 9 [] refl (λ z. omega (arith, z)) (λ z. omega (arith, z)) (λ z. omega (arith, z))
      (λ z. omega (arith, z)) refl

syscall-close_example :
    (tf' : TrapFrame) × (s' : Here) × (syscall abi closing 6 counting slot_tlb fun_map world lists
        codes_used other_calls given
        (frame_of 49 3)
        quiet
      ≡ ok (some tf') s')
    × FilesOk 6 s'.whole.files
    × CloseAnswer abi closing 6
        (frame_of 49 3)
        tf'
        (0 ∷ 0 ∷ 0 ∷ 1 ∷ 1 ∷ 0 ∷ [])
        opened_twice
        s'.whole.files
syscall-close_example =
    syscall-close abi closing 6 counting slot_tlb fun_map world lists codes_used other_calls given
      (frame_of 49 3) quiet (0 ∷ 0 ∷ 0 ∷ 1 ∷ 1 ∷ 0 ∷ []) quiet-MayCall opened_twice-FilesOk refl
      refl (λ z. omega (arith, z)) (λ z. omega (arith, z)) (λ z. omega (arith, z))
      (λ z. omega (arith, z)) (omega arith) (omega arith)
