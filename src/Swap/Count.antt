-- ===== src/Swap/Count.antt =====
-- `used` counts the slots of the swap file that are taken.
use paging_os.Base.{
  ℕ, zero, suc, ◌+◌, ◌≤◌, ◌<◌, ◌≡◌, ◌≢◌, refl, true, false, arith, if◌then◌else◌, Bool-cases, ◌==◌,
  inl, inr,
}
use paging_os.Machine.Platform.{BitmapOps}

module _ {B : Type 0} (bits : BitmapOps B) where
  -- the number of set bits below `n`
  abbrev pub count_set : B → ℕ → ℕ
  count_set b zero = 0
  count_set b (suc n) = count_set b n + (if bits.isset b n then 1 else 0)

  pub count_set-le : (b : B) (n : ℕ) → count_set b n ≤ n
  count_set-le b zero = omega arith
  count_set-le b (suc n) = ground (arith, count_set-le b n)

  -- Two maps that agree below `n` count alike.
  count_set-same :
      (b b' : B) (n : ℕ)
      → ((j : ℕ) → j < n → bits.isset b' j ≡ bits.isset b j)
      → count_set b' n ≡ count_set b n
  count_set-same b b' zero h = refl
  count_set-same b b' (suc n) h =
      ground (arith, h n, count_set-same b b' n (λ j lt. h j (omega arith)))

  -- Setting one clear bit adds one to the count.
  pub count_set-set :
      (b b' : B) (i n : ℕ)
      → i < n
      → bits.isset b i ≡ false
      → bits.isset b' i ≡ true
      → ((j : ℕ) → i ≢ j → bits.isset b' j ≡ bits.isset b j)
      → count_set b' n ≡ count_set b n + 1
  count_set-set b b' i zero lt off on same = absurd (omega arith)
  count_set-set b b' i (suc n) lt off on same = elim (Bool-cases (i == n)) [
    | inl e ↦
        let p : i ≡ n = ground arith in
        let below = count_set-same b b' n (λ j h. same j (ground arith)) in
        let off' : bits.isset b n ≡ false = rw p at off in
        let on' : bits.isset b' n ≡ true = rw p at on in ground arith
    | inr e ↦
        let here = same n (ground arith) in
        let below = count_set-set b b' i n (ground arith) off on same in ground arith
  ]
