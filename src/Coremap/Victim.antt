-- ===== src/Coremap/Victim.antt =====
-- getPage's search for a victim: the round-robin walk ends within one round of the table whenever
-- there is a frame to evict.
use paging_os.Base.{
  ℕ, zero, suc, ◌+◌, ◌-◌, ◌%◌, ◌<◌, ◌≡◌, refl, ◌⊎◌, inl, inr, true, Option, some, List, arith,
  length, get_elem?, get_elem?-lt, Bool-cases, Option-cases, ltb,
}
use native.Mathlib.Nat.{mod-eq_of_lt, mod_self}
use paging_os.Coremap.{CEntry, Coremap, coremap_size, evictable, find_victim}

pub lt_of_evictable : (es : List CEntry) (space i : ℕ) → evictable es space i ≡ true → i < length es
unfolding evictable
lt_of_evictable es space i h = elim (Option-cases (get_elem? es i)) [
  | inl e ↦ ground arith
  | inr (a, e) ↦ get_elem?-lt es i e
]

-- What the walk from `next` returns: the victim, and where the next walk starts.
pub record Victim (es : List CEntry) (space : ℕ) (r : Option (ℕ × ℕ)) : Type 0 where
  pub frame : ℕ
  pub next : ℕ
  pub found : r ≡ some (frame, next)
  pub evict : evictable es space frame ≡ true
  pub follows : next ≡ (frame + 1) % length es
  pub bound : next < length es

-- One step of the walk comes one step nearer to frame `i`.
nearer :
    (len next d i : ℕ)
    → next < len
    → i < len
    → (next + suc d ≡ i) ⊎ (next + suc d ≡ i + len)
    → ((next + 1) % len + d ≡ i) ⊎ ((next + 1) % len + d ≡ i + len)
nearer len next d i lt hi at = elim (Bool-cases (ltb (next + 1) len)) [
  | inl t ↦ let e = mod-eq_of_lt {n = next + 1} {m = len} (ground arith) in ground arith
  | inr t ↦
      let q : next + 1 ≡ len = ground arith in
      let e : (next + 1) % len ≡ 0 = rw q (mod_self len) in inl (ground arith)
]

-- `d` steps on, round the table, stands a frame that can be evicted.
find_victim-steps :
    (es : List CEntry) (space d rounds next i : ℕ)
    → d < rounds
    → next < length es
    → (next + d ≡ i) ⊎ (next + d ≡ i + length es)
    → evictable es space i ≡ true
    → Victim es space (find_victim es space rounds next)
unfolding find_victim
find_victim-steps es space d zero next i h lt at ev = absurd (omega arith)
find_victim-steps es space zero (suc rounds) next i h lt at ev =
    let here : i ≡ next = omega (arith, lt_of_evictable es space i ev) in
    let ev' : evictable es space next ≡ true = rw here at ev in
    record {
      frame = next;
      next = (next + 1) % length es;
      found = rw ev';
      evict = ev';
      follows = refl;
      bound = omega arith;
    }
find_victim-steps es space (suc d) (suc rounds) next i h lt at ev =
    elim (Bool-cases (evictable es space next)) [
      | inl e ↦ record {
        frame = next;
        next = (next + 1) % length es;
        found = rw e;
        evict = e;
        follows = refl;
        bound = omega arith;
      }
      | inr e ↦ rw e (
          find_victim-steps es space d rounds ((next + 1) % length es) i (omega arith) (omega arith)
            (nearer (length es) next d i lt (lt_of_evictable es space i ev) at) ev)
    ]

-- If some frame of the table can be evicted for the address space, then the loop that calls
-- swapvictim stops within one round of the table, at such a frame, and leaves `next_svic` just
-- behind it and in range.
pub find_victim_lem :
    (c : Coremap) (space i : ℕ)
    → c.next_svic < coremap_size c
    → evictable c.entries space i ≡ true
    → Victim c.entries space (find_victim c.entries space (coremap_size c) c.next_svic)
find_victim_lem c space i lt ev =
    let hi = lt_of_evictable c.entries space i ev in
    elim (Bool-cases (ltb i c.next_svic)) [
      | inl t ↦
          find_victim-steps c.entries space (i + coremap_size c - c.next_svic) (coremap_size c)
            c.next_svic i (ground arith) lt (inr (ground arith)) ev
      | inr t ↦
          find_victim-steps c.entries space (i - c.next_svic) (coremap_size c) c.next_svic i
            (ground arith) lt (inl (ground arith)) ev
    ]
