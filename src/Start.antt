-- ===== src/Start.antt =====
-- kern/syscall/runprogram.c with OPT_PAGING, and as_define_stack of kern/vm/addrspace.c: a program is started, with its arguments on the user stack.
pub mod Strings
pub mod Words
pub mod Arguments
use paging_os.Base.{
  ℕ, zero, suc, ◌+◌, ◌-◌, ◌*◌, ◌/◌, ◌%◌, ◌^◌, ◌≡◌, Bool, true, false, not, ◌&&◌, Option, none, some,
  List, [], ◌∷◌, ◌==◌, if◌then◌else◌, ltb, leb, get_elem?, length, write,
}
use paging_os.Machine.{
  u32, Cmd, pure, fail, get, modify, kassert, ◌>>=◌, ◌>>◌, ok, Status, success, err, status_of,
  einval, wild_access,
}
use paging_os.Machine.Platform.{TlbOps, BitmapOps, WorldOps}
use paging_os.Kernel.{Kernel, proc_getas}
use paging_os.Loader.{ElfOps}
use paging_os.Clone.{Creation, as_create}
use paging_os.Life.{as_activate, userstack}
use paging_os.Loader.{load_elf}

-- copyoutstr and copyout of one word, which are not in the repository, with the user's memory that they
-- write, and what they return: 0 or an error code.
pub record UserOps (S : Type 0) : Type 0 where
  -- the string goes to `uaddr` if `len` bytes are enough for it
  pub copyoutstr : (str : List ℕ) → (uaddr len : ℕ) → Cmd S ℕ
  pub copyout : (w uaddr : ℕ) → Cmd S ℕ
  pub user_byte : S → ℕ → ℕ

-- Byte `j` of a string with its terminator, and of a word (most significant first).
abbrev pub byte_at : List ℕ → ℕ → ℕ
byte_at [] j = 0
byte_at (b ∷ str) zero = b
byte_at (b ∷ str) (suc j) = byte_at str j

abbrev pub word_byte : (w j : ℕ) → ℕ
word_byte w j = w / 256 ^ (3 - j) % 256

-- They return; what they write is there after a success, and nothing else changes.
pub record UserLaws {S : Type 0} (ops : UserOps S) : Type 0 where
  pub str_returns :
      (str : List ℕ) (a len : ℕ) (s : S)
      → (r : ℕ) × (s' : S) × (ops.copyoutstr str a len s ≡ ok r s')
  pub word_returns : (w a : ℕ) (s : S) → (r : ℕ) × (s' : S) × (ops.copyout w a s ≡ ok r s')
  pub str_written :
      (str : List ℕ) (a : ℕ) (s s' : S) (x : ℕ)
      → ops.copyoutstr str a (length str + 1) s ≡ ok 0 s'
      → ops.user_byte s' x
        ≡ (if leb a x && ltb x (a + length str + 1) then byte_at str (x - a) else ops.user_byte s x)
  pub word_written :
      (w a : ℕ) (s s' : S) (x : ℕ)
      → ops.copyout w a s ≡ ok 0 s'
      → ops.user_byte s' x
        ≡ (if leb a x && ltb x (a + 4) then word_byte w (x - a) else ops.user_byte s x)

-- The user's stack is there, so that both succeed.
pub record Works {S : Type 0} (ops : UserOps S) : Type 0 where
  pub str_works :
      (str : List ℕ) (a len e : ℕ) (s s' : S) → ops.copyoutstr str a len s ≡ ok e s' → e ≡ 0
  pub word_works : (w a e : ℕ) (s s' : S) → ops.copyout w a s ≡ ok e s' → e ≡ 0

-- A loop that writes to the stack: it returns an error, or ends with a stack pointer and addrargs.
pub data Pushed : Type 0 where
  failed : (e : Status) → Pushed
  pushed : (stackptr : ℕ) → (addrargs : ℕ → ℕ) → Pushed

-- ROUNDUP(n, 4) of a size_t
abbrev pub roundup : ℕ → ℕ
roundup n = (n + 3) % u32 / 4 * 4

module _ {S : Type 0} (ops : UserOps S) where
  -- The loop over the strings, below index `i`. A pointer of `args` is none if it is NULL.
  unfoldable pub push_strings :
      (args : List (Option (List ℕ))) → (i stackptr : ℕ) → (addrargs : ℕ → ℕ) → Cmd S Pushed
  push_strings args zero stackptr addrargs = pure (pushed stackptr addrargs)
  push_strings args (suc i) stackptr addrargs = elim (get_elem? args i) [
    | none ↦ fail wild_access
    | some none ↦ pure (pushed stackptr addrargs)
    | some (some str) ↦
        let strsize = (length str + 1) % u32 in
        let top = (stackptr + u32 - roundup strsize) % u32 in
        if strsize == 0 then pure (failed (err einval)) else do
          e ← ops.copyoutstr str top strsize
          if e == 0
              then push_strings args i top (write i top addrargs)
              else pure (failed (status_of e))
  ]

  -- The loop over addrargs, with `rounds` entries left.
  unfoldable pub push_words : (rounds stackptr : ℕ) → (addrargs : ℕ → ℕ) → Cmd S Pushed
  push_words zero stackptr addrargs = pure (pushed stackptr addrargs)
  push_words (suc i) stackptr addrargs = do
    let top = (stackptr + u32 - 4) % u32
    e ← ops.copyout (addrargs i) top
    if e == 0 then push_words i top addrargs else pure (failed (status_of e))

  -- Both loops; `garbage` is what addrargs holds before.
  unfoldable pub push_args :
      (args : List (Option (List ℕ))) → (stackptr : ℕ) → (garbage : ℕ → ℕ) → Cmd S Pushed
  unfolding push_strings push_words
  push_args args stackptr garbage = do
    r ← push_strings args (length args) stackptr garbage
    elim r [
      | failed e ↦ pure (failed e)
      | pushed top addrargs ↦ push_words (length args + 1) top (write (length args) 0 addrargs)
    ]

-- What becomes of the caller: an error is returned, or enter_new_process starts the program.
pub data Started : Type 0 where
  refused : (e : Status) → Started
  entered : (argc argv env stackptr entrypoint : ℕ) → Started

-- as_complete_load and as_define_stack
abbrev pub as_complete_load : Status
as_complete_load = success

abbrev pub as_define_stack : Status × ℕ
as_define_stack = (success, userstack)

module _ {T B W : Type 0} (tlb : TlbOps T) (bits : BitmapOps B) (wld : WorldOps W)
    (elf : ElfOps W) where
  -- What runprogram and runprogramWithArgs have in common: the program is loaded.
  unfoldable pub load_program :
      (c : Creation)
      → (allocated : ℕ → Bool) → (stack_allocated : Bool) → Cmd (Kernel T B W) (Status × ℕ)
  unfolding as_create as_activate load_elf
  load_program c allocated stack_allocated = do
    space ← proc_getas
    kassert (space == 0)
    (newas, result) ← as_create c
    if newas == 0 then pure (result, 0) else do
      k ← get
      kassert k.curproc
      modify (λ k. record k { cur_as = newas })
      as_activate tlb bits wld
      k ← get
      (result, entry) ← load_elf tlb bits wld elf allocated stack_allocated (k.spaces newas).v
      elim entry [ none ↦ pure (result, 0) | some entrypoint ↦ pure (result, entrypoint) ]

  unfoldable pub runprogram :
      (c : Creation)
      → (allocated : ℕ → Bool) → (stack_allocated : Bool) → Cmd (Kernel T B W) Started
  unfolding load_program
  runprogram c allocated stack_allocated = do
    (result, entrypoint) ← load_program c allocated stack_allocated
    elim result [
      | err e ↦ pure (refused (err e))
      | success ↦ pure (entered 0 0 0 as_define_stack.1 entrypoint)
    ]

  unfoldable pub runprogram_with_args :
      (user : UserOps (Kernel T B W))
      → (args : List (Option (List ℕ))) → (garbage : ℕ → ℕ) → (c : Creation)
      → (allocated : ℕ → Bool) → (stack_allocated : Bool) → Cmd (Kernel T B W) Started
  unfolding load_program push_args
  runprogram_with_args user args garbage c allocated stack_allocated = do
    (result, entrypoint) ← load_program c allocated stack_allocated
    elim result [
      | err e ↦ pure (refused (err e))
      | success ↦ do
        r ← push_args user args as_define_stack.1 garbage
        elim r [
          | failed e ↦ pure (refused e)
          | pushed stackptr addrargs ↦
              pure (entered (length args) stackptr 0 (stackptr - stackptr % 8) entrypoint)
        ]
    ]
