-- ===== src/Coremap/Scan.antt =====
-- The search loops of getPage and getMultiplePages: a single free frame, and a run of free frames.
use paging_os.Base.{
  ℕ, zero, suc, ◌+◌, ◌-◌, ◌≤◌, ◌<◌, ◌≡◌, ◌≢◌, ◌⊎◌, inl, inr, true, false, not, ◌||◌, Option, none,
  some, List, arith, ltb, leb, ◌==◌, if◌then◌else◌, length, get_elem?-lt, get_elem?, Bool-cases,
  Option-cases, ap,
}
use paging_os.Coremap.{CEntry, is_free, find_free, scan_run}

-- `n` free frames from `s` on
abbrev pub FreeRun : List CEntry → (s n : ℕ) → Type 0
FreeRun es s n = (j : ℕ) → s ≤ j → j < s + n → is_free es j ≡ true

pub lt_of_is_free : (es : List CEntry) (i : ℕ) → is_free es i ≡ true → i < length es
unfolding is_free
lt_of_is_free es i h = elim (Option-cases (get_elem? es i)) [
  | inl e ↦ ground arith
  | inr (a, e) ↦ get_elem?-lt es i e
]

-- What the loop of getPage returns from `i` on: the lowest free frame, or the end if none is free.
pub record FirstFree (es : List CEntry) (i end r : ℕ) : Type 0 where
  pub from : i ≤ r
  pub upto : r ≤ end
  pub free : r < end → is_free es r ≡ true
  pub least : (j : ℕ) → i ≤ j → j < r → is_free es j ≡ false

pub find_free-FirstFree :
    (es : List CEntry) (rounds i end : ℕ)
    → i + rounds ≡ end
    → FirstFree es i end (find_free es rounds i)
unfolding find_free
find_free-FirstFree es zero i end h = record {
  from = omega arith;
  upto = omega arith;
  free = λ p. absurd (omega arith);
  least = λ j a b. absurd (omega arith);
}
find_free-FirstFree es (suc rounds) i end h =
    let ih = find_free-FirstFree es rounds (i + 1) end (omega arith) in
    elim (Bool-cases (is_free es i)) [
      | inl e ↦ rw e record {
        from = omega arith;
        upto = omega arith;
        free = λ p. e;
        least = λ j a b. absurd (omega arith);
      }
      | inr e ↦ rw e record {
        from = omega (arith, ih.from);
        upto = ih.upto;
        free = ih.free;
        least = λ j a b. ground (arith, ih.least j);
      }
    ]

-- The run that ends at `i` cannot be extended downwards past `first`.
abbrev Starts : List CEntry → ℕ → Type 0
Starts es first = (first ≡ 0) ⊎ (is_free es (first - 1) ≡ false)

-- The state of the loop of getMultiplePages before frame `i`.
record Scanning (es : List CEntry) (npages i first : ℕ) : Type 0 where
  run :
      i ≢ 0
      → is_free es (i - 1) ≡ true
      → (first < i) × FreeRun es first (i - first) × (i - first < npages) × Starts es first
  behind : (t : ℕ) → t + npages ≤ i → ¬ FreeRun es t npages

-- What the loop returns: the lowest start of `npages` free frames below `end`, or nothing if there
-- is no such run.
abbrev pub Scanned : List CEntry → (npages end : ℕ) → Option ℕ → Type 0
Scanned es npages end none = (t : ℕ) → t + npages ≤ end → ¬ FreeRun es t npages
Scanned es npages end (some s) = FreeRun es s npages × ((t : ℕ) → t < s → ¬ FreeRun es t npages)

-- `first` after the test at a free frame `i`
next_first : List CEntry → (i first : ℕ) → ℕ
next_first es i first = if (i == 0) || not (is_free es (i - 1)) then i else first

-- `f` starts the run of free frames that ends with frame `i`.
record RunTo (es : List CEntry) (i f : ℕ) : Type 0 where
  low : f ≤ i
  frames : (j : ℕ) → f ≤ j → j ≤ i → is_free es j ≡ true
  starts : Starts es f

RunTo-single : (es : List CEntry) (i : ℕ) → is_free es i ≡ true → Starts es i → RunTo es i i
RunTo-single es i h s = record {
  low = omega arith;
  frames = λ j a b. let e : i ≡ j = omega arith in rw (← e) h;
  starts = s;
}

module _ (es : List CEntry) (npages i first : ℕ) (inv : Scanning es npages i first) where
  next_first-RunTo : is_free es i ≡ true → RunTo es i (next_first es i first)
  unfolding next_first
  next_first-RunTo h = elim (Bool-cases (i == 0)) [
    | inl z ↦ rw z (RunTo-single es i h (inl (ground arith)))
    | inr nz ↦ elim (Bool-cases (is_free es (i - 1))) [
      | inr e ↦ rw (nz, e) (RunTo-single es i h (inr e))
      | inl e ↦
          let (lt, frames, small, starts) = inv.run (ground arith) e in
          rw (nz, e)
            record {
              low = omega arith;
              frames = λ j a b. elim (Bool-cases (j == i)) [
                | inl q ↦ let q' : i ≡ j = ground arith in rw (← q') h
                | inr q ↦ frames j a (ground arith)
              ];
              starts = starts;
            }
    ]
  ]

  -- A run of `npages` frames whose last frame is `i` or earlier does not start before that run.
  not_before :
      (f t : ℕ) → RunTo es i f → 0 < npages → t < f → t + npages ≤ i + 1 → ¬ FreeRun es t npages
  not_before f t r pos lt fits all = elim (Bool-cases (leb (t + npages) i)) [
    | inl q ↦ inv.behind t (ground arith) all
    | inr q ↦ elim r.starts [
      | inl z ↦ absurd (omega arith)
      | inr e ↦ let h = all (f - 1) (omega arith) (ground (arith, r.low)) in cc h
    ]
  ]

  Scanning-busy : is_free es i ≡ false → 0 < npages → Scanning es npages (i + 1) first
  Scanning-busy e pos = record {
    run = λ _ h. let p : i + 1 - 1 ≡ i = omega arith in absurd (cc (ap (is_free es) p));
    behind = λ t p all. elim (Bool-cases (leb (t + npages) i)) [
      | inl q ↦ inv.behind t (ground arith) all
      | inr q ↦ let h = all i (ground arith) (ground arith) in cc h
    ];
  }

  Scanning-free :
      (f : ℕ) → RunTo es i f → i + 1 - f < npages → 0 < npages → Scanning es npages (i + 1) f
  Scanning-free f r short pos = record {
    run = λ _ _.
        (omega (arith, r.low), λ j a b. r.frames j a (omega (arith, r.low)), short, r.starts);
    behind = λ t p all. elim (Bool-cases (ltb t f)) [
      | inl q ↦ not_before f t r pos (ground arith) p all
      | inr q ↦ ground arith
    ];
  }

-- The loop returns the lowest run of `npages` free frames, or nothing exactly if there is none.
scan_run-Scanned :
    (es : List CEntry) (npages rounds i first end : ℕ)
    → i + rounds ≡ end
    → 0 < npages
    → Scanning es npages i first
    → Scanned es npages end (scan_run es npages rounds i first)
unfolding scan_run next_first
scan_run-Scanned es npages zero i first end h pos inv = λ t p. inv.behind t (omega arith)
scan_run-Scanned es npages (suc rounds) i first end h pos inv = elim (Bool-cases (is_free es i)) [
  | inr e ↦ rw e (
      scan_run-Scanned es npages rounds (i + 1) first end (omega arith) pos
        (Scanning-busy es npages i first inv e pos))
  | inl e ↦
      let f = next_first es i first in
      let r = next_first-RunTo es npages i first inv e in
      elim (Bool-cases (leb npages (i - f + 1))) [
        | inl q ↦
            rw (e, q)
              (
                λ j a b. r.frames j a (ground (arith, r.low)),
                λ t lt. not_before es npages i first inv f t r pos lt (ground (arith, r.low)),
              )
        | inr q ↦
            rw (e, q)
              (scan_run-Scanned es npages rounds (i + 1) f end (omega arith) pos
                (Scanning-free es npages i first inv f r (ground (arith, r.low)) pos))
      ]
]

pub scan_run_lem :
    (es : List CEntry) (npages : ℕ)
    → 0 < npages
    → Scanned es npages (length es) (scan_run es npages (length es) 0 0)
scan_run_lem es npages pos =
    scan_run-Scanned es npages (length es) 0 0 (length es) (omega arith) pos
      record { run = λ z. absurd (z (omega arith)); behind = λ t p. absurd (omega arith) }
