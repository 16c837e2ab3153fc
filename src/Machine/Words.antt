-- ===== src/Machine/Words.antt =====
-- 32-bit words (`vaddr_t`, `paddr_t`, `unsigned`) as numbers below 2 ^ 32, and the page constants.
-- A mask is written as the remainder or quotient that it takes.
use Prim.Native.Nat.{bit_and, bit_or}
use paging_os.Base.{ℕ, ◌+◌, ◌-◌, ◌/◌, ◌%◌, ◌^◌, ◌≡◌, refl, Bool, not, ◌==◌, if◌then◌else◌}

abbrev pub u32 : ℕ
u32 = 2 ^ 32

-- PAGE_SIZE
abbrev pub page_size : ℕ
page_size = 4096

-- a + b and a - b of `unsigned`
abbrev pub add32 : ℕ → ℕ → ℕ
add32 a b = (a + b) % u32

abbrev pub sub32 : ℕ → ℕ → ℕ
sub32 a b = (a + u32 - b) % u32

-- a & PAGE_FRAME
abbrev pub page_frame : ℕ → ℕ
page_frame a = a - a % page_size

-- a & ~PAGE_FRAME
abbrev pub page_offset : ℕ → ℕ
page_offset a = a % page_size

-- DIVROUNDUP(a, PAGE_SIZE), in `unsigned`
abbrev pub pages_for : ℕ → ℕ
pages_for a = add32 a (page_size - 1) / page_size

-- a | 0x2 and a | 0x3
abbrev pub or_two : ℕ → ℕ
or_two a = if a / 2 % 2 == 0 then a + 2 else a

abbrev pub or_three : ℕ → ℕ
or_three a = a - a % 4 + 3

-- a | 2 ^ k, and whether a & 2 ^ k is not 0
abbrev pub or_bit : (k a : ℕ) → ℕ
or_bit k a = if a / 2 ^ k % 2 == 0 then a + 2 ^ k else a

abbrev pub has_bit : (k a : ℕ) → Bool
has_bit k a = not (a / 2 ^ k % 2 == 0)

-- MIPS_KSEG0, and PADDR_TO_KVADDR
abbrev pub kseg0 : ℕ
kseg0 = 0x8000_0000

abbrev pub paddr_to_kvaddr : ℕ → ℕ
paddr_to_kvaddr p = add32 p kseg0

-- The masks at sample words, against the bit operations.
masks_agree :
    (page_frame 0x7fff_ee34 ≡ bit_and 0x7fff_ee34 0xffff_f000)
    × (page_offset 0x7fff_ee34 ≡ bit_and 0x7fff_ee34 0xfff)
    × (or_two 0x8001_2000 ≡ bit_or 0x8001_2000 2)
    × (or_two 0x1003 ≡ bit_or 0x1003 2)
    × (or_three 0x8001_2001 ≡ bit_or 0x8001_2001 3)
    × (or_bit 9 0x5_6400 ≡ bit_or 0x5_6400 0x200)
masks_agree = (refl, refl, refl, refl, refl, refl)
