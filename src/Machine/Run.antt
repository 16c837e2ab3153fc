-- ===== src/Machine/Run.antt =====
-- The outcome of a kernel function that changes a state `S` and returns an `A`.
use paging_os.Base.{◌≡◌, refl, Bool, true, false}

-- why a function does not return
pub data Fault : Type 0 where
  -- a failed KASSERT
  assertion : Fault
  -- a call of panic()
  panicked : Fault
  -- an access outside an array, or through a NULL pointer
  wild_access : Fault
  -- a lock or a spinlock taken a second time by its holder
  deadlock : Fault
  -- a loop that has used up the rounds given to it
  out_of_fuel : Fault

pub data Outcome (S A : Type 0) : Type 0 where
  ok : A → S → Outcome S A
  fault : Fault → Outcome S A

abbrev pub Cmd : Type 0 → Type 0 → Type 0
Cmd S A = S → Outcome S A

abbrev pub and_then : {S A B : Type 0} → Outcome S A → (A → Cmd S B) → Outcome S B
and_then (ok a s) k = k a s
and_then (fault e) k = fault e

abbrev pub pure : {S A : Type 0} → A → Cmd S A
pure a s = ok a s

abbrev pub fail : {S A : Type 0} → Fault → Cmd S A
fail e s = fault e

abbrev pub get : {S : Type 0} → Cmd S S
get s = ok s s

abbrev pub modify : {S : Type 0} → (S → S) → Cmd S (Unit {0})
modify f s = ok tt (f s)

-- KASSERT(b)
abbrev pub kassert : {S : Type 0} → Bool → Cmd S (Unit {0})
kassert true s = ok tt s
kassert false s = fault assertion

infixl 5 ◌>>=◌ ◌>>◌
abbrev pub ◌>>=◌ : {S A B : Type 0} → Cmd S A → (A → Cmd S B) → Cmd S B
◌>>=◌ m k s = and_then (m s) k

abbrev pub ◌>>◌ : {S B : Type 0} → Cmd S (Unit {0}) → Cmd S B → Cmd S B
◌>>◌ m k s = and_then (m s) (λ _. k)

-- A command on a part of the state: `put` writes the changed part back.
abbrev pub carry : {S T A : Type 0} → (T → S) → Outcome T A → Outcome S A
carry put (ok a t) = ok a (put t)
carry put (fault e) = fault e

-- Inversion of a bind that returned.
pub >>=-eq-ok :
    {S A B : Type 0} (m : Cmd S A) (k : A → Cmd S B) (s : S) {b : B} {s' : S}
    → (m >>= k) s ≡ ok b s'
    → (a : A) × (t : S) × (m s ≡ ok a t) × (k a t ≡ ok b s')
>>=-eq-ok {S} {A} {B} m k s {b} {s'} h = split (m s) refl h
  where
    split :
        (o : Outcome S A)
        → m s ≡ o
        → and_then o k ≡ ok b s'
        → (a : A) × (t : S) × (m s ≡ ok a t) × (k a t ≡ ok b s')
    split (ok a t) e h = (a, t, e, h)
    split (fault f) e h = cc
