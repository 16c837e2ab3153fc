-- ===== src/Machine/Bits.antt =====
-- Setting and testing the bits of a word.
use native.Mathlib.Nat.{div-div-eq-div-mul, pow-succ'}
use paging_os.Base.{
  ℕ, zero, suc, ◌/◌, ◌%◌, ◌^◌, ◌≡◌, ◌≢◌, refl, sym, ◌∙◌, ap, true, arith, ◌==◌, Bool-cases, inl,
  inr, not,
}
use paging_os.Machine.{or_bit, has_bit}

shift : (k a : ℕ) → a / 2 ^ suc k ≡ a / 2 / 2 ^ k
shift k a = ap (λ p. a / p) (pow-succ' 2 k) ∙ sym (div-div-eq-div-mul a 2 (2 ^ k))

-- A bit above the first is a bit of the half.
has_bit-half : (k a : ℕ) → has_bit (suc k) a ≡ has_bit k (a / 2)
has_bit-half k a = ap (λ q. not (q % 2 == 0)) (shift k a)

or_bit-half : (k a : ℕ) → or_bit (suc k) a / 2 ≡ or_bit k (a / 2)
or_bit-half k a =
    let s = shift k a in
    let p = pow-succ' 2 k in
    elim (Bool-cases (a / 2 / 2 ^ k % 2 == 0)) [
      | inl e ↦ rw (s, e, p) (omega arith)
      | inr e ↦ rw (s, e) refl
    ]

pub has_bit-or_bit : (k a : ℕ) → has_bit k (or_bit k a) ≡ true
has_bit-or_bit zero a = ground arith
has_bit-or_bit (suc k) a =
    has_bit-half k (or_bit (suc k) a) ∙ ap (has_bit k) (or_bit-half k a) ∙ has_bit-or_bit k (a / 2)

or_bit-parity : (k a : ℕ) → or_bit (suc k) a % 2 ≡ a % 2
or_bit-parity k a = let p = pow-succ' 2 k in ground arith

pub has_bit-or_bit_other : (j k a : ℕ) → j ≢ k → has_bit j (or_bit k a) ≡ has_bit j a
has_bit-or_bit_other zero zero a ne = absurd (ne refl)
has_bit-or_bit_other zero (suc k) a ne = let p = or_bit-parity k a in ground arith
has_bit-or_bit_other (suc j) zero a ne =
    let e : or_bit 0 a / 2 ≡ a / 2 = ground arith in
    has_bit-half j (or_bit 0 a) ∙ ap (has_bit j) e ∙ sym (has_bit-half j a)
has_bit-or_bit_other (suc j) (suc k) a ne =
    has_bit-half j (or_bit (suc k) a)
    ∙ ap (has_bit j) (or_bit-half k a)
    ∙ has_bit-or_bit_other j k (a / 2) (λ e. ne (ap suc e))
    ∙ sym (has_bit-half j a)
