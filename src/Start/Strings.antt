-- ===== src/Start/Strings.antt =====
-- The argument strings on the user stack.
use paging_os.Base.{
  ℕ, zero, suc, ◌+◌, ◌-◌, ◌*◌, ◌/◌, ◌%◌, ◌<◌, ◌≤◌, ◌≡◌, refl, ◌∙◌, ap, true, false, ◌&&◌, Option,
  none, some, List, ◌==◌, if◌then◌else◌, ltb, leb, get_elem?, length, write, arith, Bool-cases, inl,
  inr,
}
use paging_os.Machine.{u32, pure, ok, status_of}
use paging_os.Start.{
  UserOps, UserLaws, Works, byte_at, Pushed, failed, pushed, roundup, push_strings,
}

-- The room that the strings below index `i` take.
abbrev pub room : List (Option (List ℕ)) → (i : ℕ) → ℕ
room args zero = 0
room args (suc i) = room args i + elim (get_elem? args i) [
  | none ↦ 0
  | some none ↦ 0
  | some (some str) ↦ (length str + 4) / 4 * 4
]

small_size : (p n : ℕ) → (n + 4) / 4 * 4 ≤ p → p < u32 → (n + 1) % u32 ≡ n + 1
small_size p n h low = omega arith

-- The pointer moves down without a wrap-around.
next_top :
    (p n : ℕ)
    → (n + 4) / 4 * 4 ≤ p
    → p < u32
    → (p + u32 - roundup (n + 1)) % u32 ≡ p - (n + 4) / 4 * 4
next_top p n h low = let z : (n + 1 + 3) % u32 ≡ n + 4 = omega arith in rw z (omega arith)

module _ {S : Type 0} (ops : UserOps S) where
  -- The string `str` with its terminator at address `a`.
  abbrev pub StringAt : S → (a : ℕ) → List ℕ → Type 0
  StringAt s a str = (x : ℕ) → x ≤ length str → ops.user_byte s (a + x) ≡ byte_at str x

  -- The strings from index `i` on stand between `p` and `top`, in their order, at multiples of 4.
  pub record Strings (args : List (Option (List ℕ))) (top i p : ℕ) (addrs : ℕ → ℕ) (s : S)
      : Type 0 where
    pub low : (j : ℕ) (str : List ℕ) → i ≤ j → get_elem? args j ≡ some (some str) → p ≤ addrs j
    pub high :
        (j : ℕ) (str : List ℕ)
        → i ≤ j
        → get_elem? args j ≡ some (some str)
        → addrs j + length str + 1 ≤ top
    pub aligned :
        (j : ℕ) (str : List ℕ) → i ≤ j → get_elem? args j ≡ some (some str) → addrs j % 4 ≡ 0
    pub order :
        (j l : ℕ) (str str' : List ℕ)
        → i ≤ j
        → j < l
        → get_elem? args j ≡ some (some str)
        → get_elem? args l ≡ some (some str')
        → addrs j + length str + 1 ≤ addrs l
    pub there :
        (j : ℕ) (str : List ℕ)
        → i ≤ j
        → get_elem? args j ≡ some (some str)
        → StringAt s (addrs j) str

  -- What lies from `p` on has not changed.
  pub Strings-above :
      (args : List (Option (List ℕ))) (top p : ℕ) (addrs : ℕ → ℕ) (s s' : S)
      → Strings args top 0 p addrs s
      → ((x : ℕ) → p ≤ x → ops.user_byte s' x ≡ ops.user_byte s x)
      → Strings args top 0 p addrs s'
  Strings-above args top p addrs s s' g above = record {
    low = g.low;
    high = g.high;
    aligned = g.aligned;
    order = g.order;
    there = λ j str lo h x hx.
        above (addrs j + x) (omega (arith, g.low j str lo h)) ∙ g.there j str lo h x hx;
  }

module _ {S : Type 0} (ops : UserOps S) (laws : UserLaws ops) where
  -- One more string, below those that are there.
  one-Strings :
      (args : List (Option (List ℕ))) (top i p a : ℕ) (addrs : ℕ → ℕ) (s s' : S) (str : List ℕ)
      → Strings ops args top (suc i) p addrs s
      → get_elem? args i ≡ some (some str)
      → a + length str + 1 ≤ p
      → p ≤ top
      → a % 4 ≡ 0
      → ops.copyoutstr str a (length str + 1) s ≡ ok 0 s'
      → Strings ops args top i a (write i a addrs) s'
  one-Strings args top i p a addrs s s' str g here fits below align run = record {
    low = λ j t lo h. elim (Bool-cases (j == i)) [
      | inl e ↦ rw e (omega arith)
      | inr e ↦ rw e (omega (arith, g.low j t (ground arith) h))
    ];
    high = λ j t lo h. elim (Bool-cases (j == i)) [
      | inl e ↦
          let z : j ≡ i = ground arith in
          let same : t ≡ str = cc (h, here, z) in rw (e, same) (omega arith)
      | inr e ↦ rw e (g.high j t (ground arith) h)
    ];
    aligned = λ j t lo h. elim (Bool-cases (j == i)) [
      | inl e ↦ rw e align
      | inr e ↦ rw e (g.aligned j t (ground arith) h)
    ];
    order = λ j l t u lo lt h k.
        let f : (l == i) ≡ false = ground arith in
        elim (Bool-cases (j == i)) [
          | inl e ↦
              let z : j ≡ i = ground arith in
              let same : t ≡ str = cc (h, here, z) in
              rw (e, f, same) (omega (arith, g.low l u (omega arith) k))
          | inr e ↦ rw (e, f) (g.order j l t u (ground arith) lt h k)
        ];
    there = λ j t lo h x hx. elim (Bool-cases (j == i)) [
      | inl e ↦
          let z : j ≡ i = ground arith in
          let same : t ≡ str = cc (h, here, z) in
          let size = ap length same in
          let w = laws.str_written str a s s' (a + x) run in
          let c : (leb a (a + x) && ltb (a + x) (a + length str + 1)) ≡ true = ground arith in
          let d : a + x - a ≡ x = omega arith in rw (e, same) (w ∙ rw (c, d) refl)
      | inr e ↦
          let under = g.low j t (ground arith) h in
          let w = laws.str_written str a s s' (addrs j + x) run in
          let c : (leb a (addrs j + x) && ltb (addrs j + x) (a + length str + 1)) ≡ false =
            ground arith in
          rw e (w ∙ rw c (g.there j t (ground arith) h x hx))
    ];
  }

  push_strings-step :
      (args : List (Option (List ℕ))) (i p a e : ℕ) (addrs : ℕ → ℕ) (s s1 s2 : S) (str : List ℕ)
      (r : Pushed)
      → get_elem? args i ≡ some (some str)
      → (length str + 1) % u32 ≡ length str + 1
      → (p + u32 - roundup (length str + 1)) % u32 ≡ a
      → ops.copyoutstr str a (length str + 1) s ≡ ok e s1
      → (if e == 0
            then push_strings ops args i a (write i a addrs)
            else pure (failed (status_of e)))
          s1
        ≡ ok r s2
      → push_strings ops args (suc i) p addrs s ≡ ok r s2
  unfolding push_strings
  push_strings-step args i p a e addrs s s1 s2 str r here size where_to ran rest =
      let nonzero : (length str + 1 == 0) ≡ false = ground arith in
      rw (push_strings, here, size, nonzero, where_to, ran) rest

  -- The loop over the strings, none of which is NULL, with room for them: it returns an error of copyoutstr, or
  -- the strings are there, and the pointer has moved by their room.
  pub push_strings-Strings :
      (args : List (Option (List ℕ))) (top i p : ℕ) (addrs : ℕ → ℕ) (s : S)
      → ((j : ℕ) → j < length args → (str : List ℕ) × (get_elem? args j ≡ some (some str)))
      → i ≤ length args
      → Strings ops args top i p addrs s
      → p ≤ top
      → top < u32
      → room args i ≤ p
      → p % 4 ≡ 0
      → (r : Pushed) × (s' : S) × (push_strings ops args i p addrs s ≡ ok r s')
        × ((a : ℕ) (addrs' : ℕ → ℕ)
            → r ≡ pushed a addrs'
            → Strings ops args top 0 a addrs' s' × (a + room args i ≡ p) × (a % 4 ≡ 0))
        × (Works ops → (a : ℕ) × (addrs' : ℕ → ℕ) × (r ≡ pushed a addrs'))
  unfolding push_strings
  push_strings-Strings args top zero p addrs s all lo g below small fits align = (
    pushed p addrs,
    s,
    refl,
    (λ a addrs' h.
        let same_a : p ≡ a = cc h in
        let same_addrs : addrs ≡ addrs' = cc h in
        (rw (← same_a, ← same_addrs) g, omega (arith, same_a), rw (← same_a) align)),
    (λ works. (p, addrs, refl)),
  )
  push_strings-Strings args top (suc i) p addrs s all lo g below small fits align =
      let (str, here) = all i (omega arith) in
      let n = length str + 1 in
      let fits' : room args i + (length str + 4) / 4 * 4 ≤ p = rw here at fits in
      let size = small_size p (length str) (omega arith) (omega arith) in
      let a = p - (length str + 4) / 4 * 4 in
      let where_to = next_top p (length str) (omega arith) (omega arith) in
      let (e, s1, ran) = laws.str_returns str a n s in
      elim (Bool-cases (e == 0)) [
        | inr f ↦ (
          failed (status_of e),
          s1,
          push_strings-step args i p a e addrs s s1 s1 str (failed (status_of e)) here size where_to
              ran (rw f refl),
          (λ a addrs' h. absurd (cc h)),
          (λ works. let z = works.str_works str a n e s s1 ran in absurd (ground arith)),
        )
        | inl f ↦
            let z : e ≡ 0 = ground arith in
            let g1 =
              one-Strings args top i p a addrs s s1 str g here (omega arith) below (omega arith)
                (ran ∙ rw z refl) in
            let (r, s2, run, done, goes) =
              push_strings-Strings args top i a (write i a addrs) s1 all (omega arith) g1
                (omega arith) small (omega arith) (omega arith) in
            (
              r,
              s2,
              push_strings-step args i p a e addrs s s1 s2 str r here size where_to ran (rw f run),
              (λ b addrs' h.
                  let (strings, used, at_four) = done b addrs' h in
                  (strings, rw here (omega (arith, used)), at_four)),
              goes,
            )
      ]
