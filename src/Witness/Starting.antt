-- ===== src/Witness/Starting.antt =====
-- The program of Witness/Executing, started with two arguments.
use paging_os.Base.{
  ℕ, zero, suc, ◌+◌, ◌-◌, ◌%◌, ◌<◌, ◌≤◌, ◌≡◌, ◌&&◌, refl, true, Option, some, List, [], ◌∷◌, arith,
  if◌then◌else◌, ltb, leb, length, get_elem?,
}
use paging_os.Machine.{ok, success}
use paging_os.Kernel.{Kernel}
use paging_os.Clone.{Creation}
use paging_os.Life.{userstack}
use paging_os.Start.{
  UserOps, UserLaws, Works, byte_at, word_byte, entered, load_program, runprogram_with_args,
}
use paging_os.Start.Arguments.{ArgsOnStack, runprogram_with_args-ArgsOnStack}
use paging_os.Witness.Devices.{SlotTlb, FunMap, fun_map, World, world, slot_tlb}
use paging_os.Witness.Executing.{elf, empty_kernel}

abbrev Machine : Type 0
Machine = Kernel SlotTlb FunMap World

abbrev set_mem : (ℕ → ℕ → ℕ) → Machine → Machine
set_mem f k = record k {
  store = record k.store { world = record k.store.world { mem = λ x. f (k.store.world.mem x) x } };
}

abbrev user : UserOps Machine
user = record {
  copyoutstr = λ str a len k. ok 0 (
      set_mem (λ old x. if leb a x && ltb x (a + length str + 1) then byte_at str (x - a) else old)
        k);
  copyout = λ w a k.
      ok 0 (set_mem (λ old x. if leb a x && ltb x (a + 4) then word_byte w (x - a) else old) k);
  user_byte = λ k x. k.store.world.mem x;
}

user_laws : UserLaws user
user_laws = record {
  str_returns = λ str a len s. (0, _, refl);
  word_returns = λ w a s. (0, _, refl);
  str_written = λ str a s s' x h.
      let z : s'
          ≡ set_mem
              (λ old y. if leb a y && ltb y (a + length str + 1) then byte_at str (y - a) else old)
              s =
        cc h in
      rw z refl;
  word_written = λ w a s s' x h.
      let z : s'
          ≡ set_mem (λ old y. if leb a y && ltb y (a + 4) then word_byte w (y - a) else old) s =
        cc h in
      rw z refl;
}

user-Works : Works user
user-Works = record { str_works = λ str a len e s s' h. cc h; word_works = λ w a e s s' h. cc h }

abbrev no_space : Machine
no_space = record empty_kernel { cur_as = 0 }

abbrev made : Creation
made = record { newas = 5; opened = true; vnode = 3; lock_created = true }

loaded :
    (k1 : Machine) × (load_program slot_tlb fun_map world elf made (λ _. true) true no_space
      ≡ ok (success, 0x40_0018) k1)
unfolding load_program paging_os.Kernel.proc_getas paging_os.Kernel.can_sleep
    paging_os.Tlb.tlb_invalidate paging_os.Stats.vm_stats_inc paging_os.Space.as_define_region
    paging_os.Life.as_prepare_load paging_os.Vm.pt_alloc paging_os.Coremap.get_available_ram
    paging_os.Space.total_pages paging_os.Coremap.find_free paging_os.Coremap.is_free
    paging_os.Life.install_table
loaded = (_, refl)

-- "p" and "-v"
abbrev two_args : List (Option (List ℕ))
two_args = some (112 ∷ []) ∷ some (45 ∷ 118 ∷ []) ∷ []

both_there : (j : ℕ) → j < 2 → (str : List ℕ) × (get_elem? two_args j ≡ some (some str))
both_there zero h = (112 ∷ [], refl)
both_there (suc zero) h = (45 ∷ 118 ∷ [], refl)
both_there (suc (suc j)) h = absurd (omega arith)

runprogram_with_args-ArgsOnStack_example :
    (argv sp : ℕ) × (addrs : ℕ → ℕ) × (k2 : Machine) × (runprogram_with_args slot_tlb fun_map world
        elf user two_args
        (λ _. 0xdead)
        made
        (λ _. true)
        true
        no_space
      ≡ ok (entered 2 argv 0 sp 0x40_0018) k2)
    × ArgsOnStack user two_args userstack argv addrs k2
    × (sp % 8 ≡ 0)
    × (sp ≤ argv)
    × (argv < sp + 8)
runprogram_with_args-ArgsOnStack_example =
    runprogram_with_args-ArgsOnStack slot_tlb fun_map world elf user user_laws user-Works two_args
      (λ _. 0xdead) made (λ _. true) true no_space loaded.0 0x40_0018 loaded.1 both_there
      (omega arith)
