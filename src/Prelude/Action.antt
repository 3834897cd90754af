-- ===== src/Prelude/Action.antt =====
-- A method of an object that may throw: the state before gives an outcome and the state after.
-- The state comes back from a throw too, so that what was written before it stays written.
use mathlib.Core.Bool.{Bool, true, false}
use mathlib.Core.Option.{Option, none, some}

pub data Result {ℓ κ} (E : Type ℓ) (A : Type κ) : Type (ℓ ⊔ κ) where
  ok : A → Result E A
  err : E → Result E A

abbrev pub is_ok {ℓ κ} : {E : Type ℓ} {A : Type κ} → Result E A → Bool
is_ok (ok a) = true
is_ok (err e) = false

abbrev pub Action : Type 0 → Type 0 → Type 0 → Type 0
Action S E A = S → Result E A × S

infixl 5 ◌>>=◌ ◌>>◌
abbrev pub ◌>>=◌ : {S E A B : Type 0} → Action S E A → (A → Action S E B) → Action S E B
◌>>=◌ m f s = let (r, s') = m s in elim r [ ok a ↦ f a s' | err e ↦ (err e, s') ]

abbrev pub ◌>>◌ : {S E A B : Type 0} → Action S E A → Action S E B → Action S E B
m >> k = m >>= λ _. k

abbrev pub pure : {S E A : Type 0} → A → Action S E A
pure a s = (ok a, s)

abbrev pub get : {S E : Type 0} → Action S E S
get s = (ok s, s)

abbrev pub modify : {S E : Type 0} → (S → S) → Action S E (Unit {0})
modify f s = (ok tt, f s)

-- `if (bad) throw e;`
abbrev pub throw_if : {S E : Type 0} → Bool → E → Action S E (Unit {0})
throw_if true e s = (err e, s)
throw_if false e s = (ok tt, s)

-- `if (!o) throw e;`
abbrev pub or_throw : {S E A : Type 0} → Option A → E → Action S E A
or_throw none e s = (err e, s)
or_throw (some a) e s = (ok a, s)
