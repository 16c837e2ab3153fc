-- ===== src/Start/Words.antt =====
-- The array of pointers below the argument strings, and the whole of what a program finds on its stack.
use paging_os.Base.{
  ℕ, zero, suc, ◌+◌, ◌-◌, ◌*◌, ◌%◌, ◌<◌, ◌≤◌, ◌≡◌, refl, ◌∙◌, true, false, ◌&&◌, ◌==◌,
  if◌then◌else◌, ltb, leb, arith, Bool-cases, inl, inr,
}
use paging_os.Machine.{u32, ok, status_of, pure}
use paging_os.Start.{UserOps, UserLaws, Works, word_byte, Pushed, failed, pushed, push_words}

module _ {S : Type 0} (ops : UserOps S) where
  -- The word `w` is at address `a`.
  abbrev pub WordAt : S → (a w : ℕ) → Type 0
  WordAt s a w = (x : ℕ) → x < 4 → ops.user_byte s (a + x) ≡ word_byte w x

  pub record Words (rounds p p' : ℕ) (addrs : ℕ → ℕ) (s s' : S) : Type 0 where
    pub words : (j : ℕ) → j < rounds → WordAt s' (p' + 4 * j) (addrs j)
    pub above : (x : ℕ) → p ≤ x → ops.user_byte s' x ≡ ops.user_byte s x
    pub moved : p' + 4 * rounds ≡ p

module _ {S : Type 0} (ops : UserOps S) (laws : UserLaws ops) where
  next_Words :
      (i p p' : ℕ) (addrs : ℕ → ℕ) (s s1 s' : S)
      → 4 ≤ p
      → ops.copyout (addrs i) (p - 4) s ≡ ok 0 s1
      → Words ops i (p - 4) p' addrs s1 s'
      → Words ops (suc i) p p' addrs s s'
  next_Words i p p' addrs s s1 s' big ran g =
      let moved = g.moved in
      record {
        words = λ j lt x hx. elim (Bool-cases (j == i)) [
          | inl e ↦
              let z : j ≡ i = ground arith in
              let w = laws.word_written (addrs i) (p - 4) s s1 (p - 4 + x) ran in
              let c : (leb (p - 4) (p - 4 + x) && ltb (p - 4 + x) (p - 4 + 4)) ≡ true =
                ground arith in
              let d : p - 4 + x - (p - 4) ≡ x = omega arith in
              let q : p' + 4 * i + x ≡ p - 4 + x = omega arith in
              rw (z, q) (g.above (p - 4 + x) (omega arith) ∙ w ∙ rw (c, d) refl)
          | inr e ↦ g.words j (ground arith) x hx
        ];
        above = λ x hx.
            let w = laws.word_written (addrs i) (p - 4) s s1 x ran in
            let c : (leb (p - 4) x && ltb x (p - 4 + 4)) ≡ false = ground arith in
            g.above x (omega arith) ∙ w ∙ rw c refl;
        moved = omega arith;
      }

  push_words-step :
      (i p a e : ℕ) (addrs : ℕ → ℕ) (s s1 s2 : S) (r : Pushed)
      → (p + u32 - 4) % u32 ≡ a
      → ops.copyout (addrs i) a s ≡ ok e s1
      → (if e == 0 then push_words ops i a addrs else pure (failed (status_of e))) s1 ≡ ok r s2
      → push_words ops (suc i) p addrs s ≡ ok r s2
  unfolding push_words
  push_words-step i p a e addrs s s1 s2 r top ran rest = rw (push_words, top, ran) rest

  pub push_words-Words :
      (i p : ℕ) (addrs : ℕ → ℕ) (s : S)
      → 4 * i ≤ p
      → p < u32
      → (r : Pushed) × (s' : S) × (push_words ops i p addrs s ≡ ok r s')
        × ((p' : ℕ) (addrs' : ℕ → ℕ) → r ≡ pushed p' addrs' → Words ops i p p' addrs s s')
        × (Works ops → (p' : ℕ) × (addrs' : ℕ → ℕ) × (r ≡ pushed p' addrs'))
  unfolding push_words
  push_words-Words zero p addrs s big small = (
    pushed p addrs,
    s,
    refl,
    (λ p' addrs' h.
        let z : p ≡ p' = cc h in
        record {
          words = λ j lt. absurd (omega arith);
          above = λ x hx. refl;
          moved = omega (arith, z);
        }),
    (λ works. (p, addrs, refl)),
  )
  push_words-Words (suc i) p addrs s big small =
      let top : (p + u32 - 4) % u32 ≡ p - 4 = omega arith in
      let (e, s1, ran) = laws.word_returns (addrs i) (p - 4) s in
      elim (Bool-cases (e == 0)) [
        | inr f ↦ (
          failed (status_of e),
          s1,
          push_words-step i p (p - 4) e addrs s s1 s1 (failed (status_of e)) top ran (rw f refl),
          (λ p' addrs' h. absurd (cc h)),
          (λ works. let z = works.word_works (addrs i) (p - 4) e s s1 ran in absurd (ground arith)),
        )
        | inl f ↦
            let z : e ≡ 0 = ground arith in
            let (r, s2, run, done, goes) =
              push_words-Words i (p - 4) addrs s1 (omega arith) (omega arith) in
            (
              r,
              s2,
              push_words-step i p (p - 4) e addrs s s1 s2 r top ran (rw f run),
              (λ p' addrs' h.
                  next_Words i p p' addrs s s1 s2 (omega arith) (ran ∙ rw z refl)
                    (done p' addrs' h)),
              goes,
            )
      ]
