-- ===== src/Witness/Devices.antt =====
-- Concrete devices: a TLB and a bitmap as functions, and a memory with files that never fails.
use paging_os.Base.{
  ℕ, zero, suc, ◌+◌, ◌-◌, ◌≤◌, ◌<◌, ◌≡◌, refl, ◌⊎◌, inl, inr, Bool, true, false, not, ◌&&◌, Option,
  none, some, arith, ltb, leb, ◌==◌, if◌then◌else◌, Bool-cases, sym, ap,
}
use paging_os.Machine.{page_frame}
use paging_os.Machine.Platform.{
  TlbOps, TlbLaws, BitmapOps, BitmapLaws, WorldOps, WorldLaws, num_tlb,
}

-- The first of `rounds` numbers from `i` on that passes a test.
unfoldable pub first_from : (ℕ → Bool) → (rounds i : ℕ) → Option ℕ
first_from p zero i = none
first_from p (suc rounds) i = let rest = first_from p rounds (i + 1) in if p i then some i else rest

first_from-some :
    (p : ℕ → Bool) (rounds i r : ℕ)
    → first_from p rounds i ≡ some r
    → (r < i + rounds) × (p r ≡ true)
unfolding first_from
first_from-some p zero i r h = ground arith
first_from-some p (suc rounds) i r h = elim (Bool-cases (p i)) [
  | inl e ↦ let q : some i ≡ some r = rw e at h in let z : i ≡ r = cc q in (omega arith, rw (← z) e)
  | inr e ↦ let (a, b) = first_from-some p rounds (i + 1) r (rw e at h) in (omega arith, b)
]

first_from-none :
    (p : ℕ → Bool) (rounds i j : ℕ)
    → first_from p rounds i ≡ none
    → i ≤ j
    → j < i + rounds
    → p j ≡ false
unfolding first_from
first_from-none p zero i j h lo hi = absurd (omega arith)
first_from-none p (suc rounds) i j h lo hi = elim (Bool-cases (p i)) [
  | inl e ↦ let q : some i ≡ none = rw e at h in cc q
  | inr e ↦ elim (Bool-cases (i == j)) [
    | inl t ↦ let z : i ≡ j = ground arith in rw (← z) e
    | inr t ↦ first_from-none p rounds (i + 1) j (rw e at h) (ground arith) (omega arith)
  ]
]

-- A TLB as a function from slots to entries.
abbrev pub SlotTlb : Type 0
SlotTlb = ℕ → ℕ × ℕ

abbrev pub slot_tlb : TlbOps SlotTlb
slot_tlb = record {
  read = λ t i. t i;
  write = λ t hi lo i j. if i == j then (hi, lo) else t j;
  probe = λ t hi. first_from (λ i. page_frame (t i).0 == page_frame hi) num_tlb 0;
}

pub slot_tlb_laws : TlbLaws slot_tlb
slot_tlb_laws = record {
  read-write_self = λ t hi lo i h. let e : (i == i) ≡ true = ground arith in rw e;
  read-write_ne = λ t hi lo i j ne. let e : (i == j) ≡ false = ground arith in rw e;
  probe-some = λ t hi i h.
      let (a, b) = first_from-some (λ i. page_frame (t i).0 == page_frame hi) num_tlb 0 i h in
      (omega arith, ground arith);
  probe-none = λ t hi i h lt.
      let b =
        first_from-none (λ i. page_frame (t i).0 == page_frame hi) num_tlb 0 i h (omega arith)
          (omega arith) in
      ground arith;
}

-- A bitmap as its size and a function.
pub record FunMap : Type 0 where
  pub size : ℕ
  pub bit : ℕ → Bool

abbrev set_bit : FunMap → ℕ → Bool → FunMap
set_bit m i b = record m { bit = λ j. if i == j then b else m.bit j }

abbrev first_clear : FunMap → Option ℕ
first_clear m = first_from (λ i. not (m.bit i)) m.size 0

abbrev take_bit : FunMap → Option ℕ → Option (ℕ × FunMap)
take_bit m none = none
take_bit m (some i) = some (i, set_bit m i true)

abbrev pub fun_map : BitmapOps FunMap
fun_map = record {
  create = λ n. record { size = n; bit = λ _. false };
  alloc = λ m. take_bit m (first_clear m);
  alloc_error = 36;
  unmark = λ m i. set_bit m i false;
  isset = λ m i. m.bit i;
  nbits = λ m. m.size;
}

-- What an allocation returned.
take_bit_inv :
    (m m' : FunMap) (o : Option ℕ) (i : ℕ)
    → take_bit m o ≡ some (i, m')
    → (o ≡ some i) × (m' ≡ set_bit m i true)
take_bit_inv m m' none i h = cc h
take_bit_inv m m' (some j) i h =
    let q : j ≡ i = cc h in let r : set_bit m j true ≡ m' = cc h in (ground arith, rw q at (sym r))

taken :
    (m m' : FunMap) (i : ℕ)
    → fun_map.alloc m ≡ some (i, m')
    → (i < m.size) × (m.bit i ≡ false) × (m' ≡ set_bit m i true)
taken m m' i h =
    let (e, r) = take_bit_inv m m' (first_clear m) i h in
    let (lt, clear) = first_from-some (λ i. not (m.bit i)) m.size 0 i e in
    (omega arith, ground arith, r)

full : (m : FunMap) (o : Option ℕ) → take_bit m o ≡ none → o ≡ none
full m none h = refl
full m (some i) h = cc h

pub fun_map_laws : BitmapLaws fun_map
fun_map_laws = record {
  alloc-fresh = λ m m' i h. let (lt, clear, r) = taken m m' i h in (clear, lt);
  alloc-isset = λ m m' i h.
      let (lt, clear, r) = taken m m' i h in let e : (i == i) ≡ true = ground arith in rw (r, e);
  alloc-others = λ m m' i j h ne.
      let (lt, clear, r) = taken m m' i h in let e : (i == j) ≡ false = ground arith in rw (r, e);
  alloc-full = λ m i h lt.
      let f =
        first_from-none (λ i. not (m.bit i)) m.size 0 i (full m (first_clear m) h) (omega arith)
          (omega arith) in
      ground arith;
  alloc-nbits = λ m m' i h. let (lt, clear, r) = taken m m' i h in rw r;
  unmark-nbits = λ m i. refl;
  unmark_self = λ m i. let e : (i == i) ≡ true = ground arith in rw e;
  unmark_ne = λ m i j ne. let e : (i == j) ≡ false = ground arith in rw e;
  create-clear = λ n i. refl;
}

-- Memory and files as functions.
pub record World : Type 0 where
  pub mem : ℕ → ℕ
  pub file : ℕ → ℕ → ℕ

-- `old` with `len` bytes from `a` on taken from `new`.
abbrev spliced : (old new : ℕ → ℕ) → (a len : ℕ) → ℕ → ℕ
spliced old new a len x = if leb a x && ltb x (a + len) then new (x - a) else old x

spliced-inside : (old new : ℕ → ℕ) (a len j : ℕ) → j < len → spliced old new a len (a + j) ≡ new j
spliced-inside old new a len j h =
    let p : (leb a (a + j) && ltb (a + j) (a + len)) ≡ true = ground arith in
    let q : a + j - a ≡ j = omega arith in rw (p, q)

spliced-outside :
    (old new : ℕ → ℕ) (a len x : ℕ) → (x < a) ⊎ (a + len ≤ x) → spliced old new a len x ≡ old x
spliced-outside old new a len x out =
    let p : (leb a x && ltb x (a + len)) ≡ false = ground arith in rw p

abbrev pub world : WorldOps World
world = record {
  vop_read = λ w v offset a len.
      (0, 0, record w { mem = spliced w.mem (λ j. w.file v (offset + j)) a len });
  vop_write = λ w v offset a len. (
    0,
    record w {
      file = λ u. if u == v then spliced (w.file v) (λ j. w.mem (a + j)) offset len else w.file u;
    },
  );
  bzero = λ w a len. record w { mem = spliced w.mem (λ _. 0) a len };
  memmove = λ w dst src len. record w { mem = spliced w.mem (λ j. w.mem (src + j)) dst len };
  vfs_close = λ w v. w;
  mem = λ w. w.mem;
  file = λ w. w.file;
}

pub world_laws : WorldLaws world
world_laws = record {
  read-mem = λ w w' v offset a len j h lt.
      let m = spliced w.mem (λ j. w.file v (offset + j)) a len in
      let e : m ≡ w'.mem = ap (λ r. r.2.mem) h in
      rw (← e) (spliced-inside w.mem (λ j. w.file v (offset + j)) a len j lt);
  read-others =
      λ w v offset a len x out. spliced-outside w.mem (λ j. w.file v (offset + j)) a len x out;
  read-file = λ w v offset a len u x. refl;
  write-file = λ w w' v offset a len j h lt.
      let self : (v == v) ≡ true = ground arith in
      let e : (world.vop_write w v offset a len).1 ≡ w' = ap (λ r. r.1) h in
      rw (← e, self) (spliced-inside (w.file v) (λ j. w.mem (a + j)) offset len j lt);
  write-others = λ w v offset a len x out.
      let self : (v == v) ≡ true = ground arith in
      rw self (spliced-outside (w.file v) (λ j. w.mem (a + j)) offset len x out);
  write-mem = λ w v offset a len x. refl;
  bzero-mem = λ w a len j lt. spliced-inside w.mem (λ _. 0) a len j lt;
  bzero-others = λ w a len x out. spliced-outside w.mem (λ _. 0) a len x out;
}
