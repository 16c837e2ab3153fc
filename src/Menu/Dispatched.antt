-- ===== src/Menu/Dispatched.antt =====
-- Which command a line of the menu runs.
use paging_os.Base.{
  ℕ, zero, suc, ◌+◌, ◌<◌, ◌≤◌, ◌≡◌, ◌≢◌, refl, sym, ◌∙◌, ap, true, false, some, none, List, [], ◌∷◌,
  ◌++◌, arith, ◌==◌, ◌&&◌, not, ==_refl, leb, get_elem?, length, length-append, append-nil,
  append_assoc, inl, inr, Bool-cases,
}
use paging_os.Machine.{ok, Cmd}
use paging_os.Menu.{
  same, Command, MenuResult, fine, e2big, invalid, collect, find_command, cmd_dispatch,
  max_menu_args,
}

same_refl : (a : List ℕ) → same a a ≡ true
same_refl [] = refl
same_refl (x ∷ a) = let e = ==_refl x in rw (e, same_refl a) refl

same-eq : (a b : List ℕ) → same a b ≡ true → a ≡ b
same-eq [] [] h = refl
same-eq [] (x ∷ b) h = absurd (cc h)
same-eq (x ∷ a) [] h = absurd (cc h)
same-eq (x ∷ a) (y ∷ b) h =
    let (e, r) : ((x == y) ≡ true) × (same a b ≡ true) = ground arith in
    let z : x ≡ y = ground arith in rw (z, same-eq a b r) refl

same-ne : (a b : List ℕ) → a ≢ b → same a b ≡ false
same-ne a b ne = elim (Bool-cases (same a b)) [ inl e ↦ absurd (ne (same-eq a b e)) | inr e ↦ e ]

collect-all :
    (words args : List (List ℕ))
    → length args + length words ≤ max_menu_args
    → collect words args ≡ some (args ++ words)
unfolding collect
collect-all [] args h = rw (append-nil args) refl
collect-all (w ∷ words) args h =
    let e : leb max_menu_args (length args) ≡ false = ground arith in
    let size = length-append args (w ∷ []) in
    rw e (
      collect-all words (args ++ w ∷ []) (omega (arith, size))
      ∙ ap some (append_assoc args (w ∷ []) words))

collect-none :
    (words args : List (List ℕ))
    → length args ≤ max_menu_args
    → max_menu_args < length args + length words
    → collect words args ≡ none
unfolding collect
collect-none [] args most h = absurd (omega arith)
collect-none (w ∷ words) args most h = elim (Bool-cases (leb max_menu_args (length args))) [
  | inl e ↦ rw e refl
  | inr e ↦
      let size = length-append args (w ∷ []) in
      rw e (collect-none words (args ++ w ∷ []) (ground (arith, size)) (omega (arith, size)))
]

module _ {S : Type 0} where
  -- Entry `i` of the table is the first one of the name.
  pub record FirstMatch (table : List (Command S)) (name : List ℕ) (i : ℕ) (c : Command S)
      : Type 0 where
    pub here : get_elem? table i ≡ some c
    pub named : c.name ≡ name
    pub earlier : (j : ℕ) (d : Command S) → j < i → get_elem? table j ≡ some d → d.name ≢ name

  find_command-found :
      (table : List (Command S)) (first : List ℕ) (args : List (List ℕ)) (i : ℕ) (c : Command S)
      (f : List (List ℕ) → Cmd S MenuResult) (s : S)
      → first ≢ []
      → FirstMatch table first i c
      → c.func ≡ some f
      → find_command table first args s ≡ f args s
  unfolding find_command
  find_command-found [] first args i c f s some_first m func = let h = m.here in absurd (cc h)
  find_command-found (d ∷ table) first args zero c f s some_first m func =
      let z : d ≡ c = let h = m.here in cc h in
      let named = m.named in
      let e1 : same c.name [] ≡ false = same-ne c.name [] (λ q. some_first (sym named ∙ q)) in
      let e2 : same first c.name ≡ true = rw named (same_refl first) in
      rw (find_command, z, e1, e2, func) refl
  find_command-found (d ∷ table) first args (suc i) c f s some_first m func =
      let ne = m.earlier zero d (omega arith) refl in
      let e : same first d.name ≡ false = same-ne first d.name (λ q. ne (sym q)) in
      let guard : (not (same d.name []) && same first d.name) ≡ false = ground arith in
      rw (find_command, guard)
        (find_command-found table first args i c f s some_first
          (record {
            here = m.here;
            named = m.named;
            earlier = λ j x lt h. m.earlier (suc j) x (omega arith) h;
          })
          func)

  find_command-none :
      (table : List (Command S)) (first : List ℕ) (args : List (List ℕ)) (s : S)
      → ((i : ℕ) (c : Command S) → get_elem? table i ≡ some c → c.name ≢ first)
      → find_command table first args s ≡ ok invalid s
  unfolding find_command
  find_command-none [] first args s other = refl
  find_command-none (d ∷ table) first args s other =
      let e : same first d.name ≡ false = same-ne first d.name (λ q. other zero d refl (sym q)) in
      let guard : (not (same d.name []) && same first d.name) ≡ false = ground arith in
      rw (find_command, guard) (find_command-none table first args s (λ i c h. other (suc i) c h))

  -- cmd_dispatch, on all branches, for words that are not empty. More than 16 words give E2BIG, no word
  -- gives 0, and a first word that names no command EINVAL, and nothing happens. Otherwise the first command of
  -- the table with this name runs, with all the words, and its result is that of cmd_dispatch.
  pub cmd_dispatch-Dispatched :
      (table : List (Command S)) (words : List (List ℕ)) (s : S)
      → (max_menu_args < length words → cmd_dispatch table words s ≡ ok e2big s)
        × (words ≡ [] → cmd_dispatch table words s ≡ ok fine s)
        × ((first : List ℕ) (rest : List (List ℕ))
            → words ≡ first ∷ rest
            → first ≢ []
            → length words ≤ max_menu_args
            → ((i : ℕ) (c : Command S) (f : List (List ℕ) → Cmd S MenuResult)
                → FirstMatch table first i c
                → c.func ≡ some f
                → cmd_dispatch table words s ≡ f words s)
              × (((i : ℕ) (c : Command S) → get_elem? table i ≡ some c → c.name ≢ first)
                  → cmd_dispatch table words s ≡ ok invalid s))
  unfolding cmd_dispatch
  cmd_dispatch-Dispatched table words s = (
    (λ many. rw (cmd_dispatch, collect-none words [] (omega arith) (omega (arith, many))) refl),
    (λ empty. rw (cmd_dispatch, empty) refl),
    (λ first rest e some_first few.
        let all = collect-all words [] (omega (arith, few)) in
        let all' : collect words [] ≡ some (first ∷ rest) = all ∙ ap some e in
        (
          (λ i c f m func.
              rw (cmd_dispatch, all')
                (find_command-found table first (first ∷ rest) i c f s some_first m func
                  ∙ ap (λ w. f w s) (sym e))),
          (λ other. rw (cmd_dispatch, all') (find_command-none table first (first ∷ rest) s other)),
        )),
  )
