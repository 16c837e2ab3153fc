-- ===== src/Base/Ints.antt =====
-- C's `int` as the library's ℤ, over the native numbers.
use Prim.Native.Nat.{ℕ, ◌-◌, ◌^◌}
use paging_os.Base.Tests.{ltb, if◌then◌else◌}

-- `negsuc n` is -1 - n
pub data ℤ : Type 0 where
  pos negsuc : ℕ → ℤ

-- a 32-bit word as an `int`
abbrev pub to_int : ℕ → ℤ
to_int w = if ltb w (2 ^ 31) then pos w else negsuc (2 ^ 32 - 1 - w)

abbrev pub minus_one : ℤ
minus_one = negsuc 0
