-- ===== src/Machine/Threadlists.antt =====
-- The lists of threads of threadlist.h, which is not in the repository: the operations that the kernel
-- uses, and what they do to the sequence of threads on a list.
use paging_os.Base.{
  ℕ, ◌+◌, ◌≡◌, Option, none, some, List, [], ◌∷◌, ◌++◌, ◌==◌, if◌then◌else◌, length, occ,
  occ-append, arith, refl,
}

pub record ThreadlistOps (L : Type 0) : Type 0 where
  pub init : L
  pub addhead : L → (t : ℕ) → L
  pub addtail : L → (t : ℕ) → L
  pub remhead : L → Option (ℕ × L)
  pub remtail : L → Option (ℕ × L)
  -- tl_count, which threadlist_isempty reads too
  pub tl_count : L → ℕ
  -- the threads from the head to the tail
  pub threads : L → List ℕ

pub record ThreadlistLaws {L : Type 0} (ops : ThreadlistOps L) : Type 0 where
  pub threads-init : ops.threads ops.init ≡ []
  pub threads-addhead : (l : L) (t : ℕ) → ops.threads (ops.addhead l t) ≡ t ∷ ops.threads l
  pub threads-addtail : (l : L) (t : ℕ) → ops.threads (ops.addtail l t) ≡ ops.threads l ++ t ∷ []
  pub remhead-none : (l : L) → ops.remhead l ≡ none → ops.threads l ≡ []
  pub remhead-some :
      (l l' : L) (t : ℕ) → ops.remhead l ≡ some (t, l') → ops.threads l ≡ t ∷ ops.threads l'
  pub remtail-none : (l : L) → ops.remtail l ≡ none → ops.threads l ≡ []
  pub remtail-some :
      (l l' : L) (t : ℕ) → ops.remtail l ≡ some (t, l') → ops.threads l ≡ ops.threads l' ++ t ∷ []
  pub count : (l : L) → ops.tl_count l ≡ length (ops.threads l)

-- How often a thread is on a list, and how the operations change it.
abbrev pub on : {L : Type 0} → ThreadlistOps L → (t : ℕ) → L → ℕ
on ops t l = occ t (ops.threads l)

module _ {L : Type 0} (ops : ThreadlistOps L) (laws : ThreadlistLaws ops) where
  pub on-init : (t : ℕ) → on ops t ops.init ≡ 0
  on-init t = rw laws.threads-init refl

  pub on-addhead :
      (x t : ℕ) (l : L) → on ops x (ops.addhead l t) ≡ on ops x l + (if x == t then 1 else 0)
  on-addhead x t l = rw (laws.threads-addhead l t) (omega arith)

  pub on-addtail :
      (x t : ℕ) (l : L) → on ops x (ops.addtail l t) ≡ on ops x l + (if x == t then 1 else 0)
  on-addtail x t l =
      rw (laws.threads-addtail l t, occ-append x (ops.threads l) (t ∷ [])) (omega arith)

  pub on-remhead :
      (x t : ℕ) (l l' : L)
      → ops.remhead l ≡ some (t, l')
      → on ops x l ≡ on ops x l' + (if x == t then 1 else 0)
  on-remhead x t l l' h = rw (laws.remhead-some l l' t h) (omega arith)

  pub on-remtail :
      (x t : ℕ) (l l' : L)
      → ops.remtail l ≡ some (t, l')
      → on ops x l ≡ on ops x l' + (if x == t then 1 else 0)
  on-remtail x t l l' h =
      rw (laws.remtail-some l l' t h, occ-append x (ops.threads l') (t ∷ [])) (omega arith)
