-- ===== src/Thread/Collect.antt =====
-- The loops of a migration on the own run queue: counting, taking victims and putting them back.
use paging_os.Base.{
  write, ℕ, zero, suc, ◌+◌, ◌<◌, ◌≤◌, ◌≡◌, refl, ap, some, arith, Option-cases, inl, inr, ==_refl,
  length, length-append, [], ◌∷◌,
}
use paging_os.Machine.{ok}
use paging_os.Machine.Threadlists.{
  ThreadlistOps, ThreadlistLaws, on-addhead, on-addtail, on-remhead, on-remtail,
}
use paging_os.Thread.{Smp}
use paging_os.Thread.Balance.{Balanced, Balanced-here}
use paging_os.Thread.Migrate.{take_victims, put_back}

-- The number of threads on a list.
abbrev pub count : {L : Type 0} → ThreadlistOps L → L → ℕ
count tl l = length (tl.threads l)

module _ {L : Type 0} (tl : ThreadlistOps L) (laws : ThreadlistLaws tl) where
  pub count-addhead : (l : L) (t : ℕ) → count tl (tl.addhead l t) ≡ count tl l + 1
  count-addhead l t = rw (laws.threads-addhead l t) (omega arith)

  pub count-addtail : (l : L) (t : ℕ) → count tl (tl.addtail l t) ≡ count tl l + 1
  count-addtail l t =
      rw (laws.threads-addtail l t, length-append (tl.threads l) (t ∷ [])) (omega arith)

  pub count-remhead :
      (l l' : L) (t : ℕ) → tl.remhead l ≡ some (t, l') → count tl l ≡ count tl l' + 1
  count-remhead l l' t h = rw (laws.remhead-some l l' t h) (omega arith)

  pub count-remtail :
      (l l' : L) (t : ℕ) → tl.remtail l ≡ some (t, l') → count tl l ≡ count tl l' + 1
  count-remtail l l' t h =
      rw (laws.remtail-some l l' t h, length-append (tl.threads l') (t ∷ [])) (omega arith)

  -- A list that is not empty has a head, and a tail.
  pub remhead-total : (l : L) → 0 < count tl l → (t : ℕ) × (l' : L) × (tl.remhead l ≡ some (t, l'))
  remhead-total l h = elim (Option-cases (tl.remhead l)) [
    | inl e ↦ let z = laws.remhead-none l e in absurd (omega (arith, ap length z))
    | inr ((t, l'), e) ↦ (t, l', e)
  ]

  pub remtail-total : (l : L) → 0 < count tl l → (t : ℕ) × (l' : L) × (tl.remtail l ≡ some (t, l'))
  remtail-total l h = elim (Option-cases (tl.remtail l)) [
    | inl e ↦ let z = laws.remtail-none l e in absurd (omega (arith, ap length z))
    | inr ((t, l'), e) ↦ (t, l', e)
  ]

module _ {L : Type 0} (tl : ThreadlistOps L) (laws : ThreadlistLaws tl) (s0 : Smp L)
    (low : s0.curcpu < s0.num_cpus) where
  -- The threads are taken off the own queue while there are any.
  pub take_victims-Balanced :
      (rounds : ℕ) (v : L) (s : Smp L)
      → Balanced tl s0 s v
      → rounds ≤ count tl (s.c_runqueue s.curcpu)
      → (v' : L) × (s' : Smp L) × (take_victims tl rounds v s ≡ ok v' s')
        × Balanced tl s0 s' v'
        × (count tl v' ≡ count tl v + rounds)
        × (s'.c_runqueue_lock ≡ s.c_runqueue_lock)
  unfolding take_victims
  take_victims-Balanced zero v s b h = (v, s, refl, b, omega arith, refl)
  take_victims-Balanced (suc rounds) v s b h =
      let q = s.c_runqueue s.curcpu in
      let (t, rest, taken) = remtail-total tl laws q (omega arith) in
      let s1 = record s { c_runqueue = write s.curcpu rest s.c_runqueue } in
      let self = ==_refl s.curcpu in
      let fewer = count-remtail tl laws q rest t taken in
      let b1 : Balanced tl s0 s1 (tl.addhead v t) =
        Balanced-here tl laws s0 s v (tl.addhead v t) rest b low
          (λ x. omega (arith, on-remtail tl laws x t q rest taken, on-addhead tl laws x t v)) in
      let (v', s', run, b', size, lock) =
        take_victims-Balanced rounds (tl.addhead v t) s1 b1 (rw self (omega arith)) in
      (v', s', rw taken run, b', omega (arith, size, count-addhead tl laws v t), lock)

  -- All victims that are left go back to the own queue.
  pub put_back-Balanced :
      (rounds : ℕ) (v : L) (s : Smp L)
      → Balanced tl s0 s v
      → count tl v < rounds
      → (v' : L) × (s' : Smp L) × (put_back tl rounds v s ≡ ok v' s')
        × Balanced tl s0 s' v'
        × (count tl v' ≡ 0)
        × (s'.c_runqueue_lock ≡ s.c_runqueue_lock)
  unfolding put_back
  put_back-Balanced zero v s b h = absurd (omega arith)
  put_back-Balanced (suc rounds) v s b h = elim (Option-cases (tl.remhead v)) [
    | inl e ↦ (v, s, rw (put_back, e) refl, b, ap length (laws.remhead-none v e), refl)
    | inr ((t, rest), e) ↦
        let q = s.c_runqueue s.curcpu in
        let s1 = record s { c_runqueue = write s.curcpu (tl.addtail q t) s.c_runqueue } in
        let b1 : Balanced tl s0 s1 rest =
          Balanced-here tl laws s0 s v rest (tl.addtail q t) b low
            (λ x. omega (arith, on-remhead tl laws x t v rest e, on-addtail tl laws x t q)) in
        let (v', s', run, b', size, lock) =
          put_back-Balanced rounds rest s1 b1 (omega (arith, count-remhead tl laws v rest t e)) in
        (v', s', rw (put_back, e) run, b', size, lock)
  ]
