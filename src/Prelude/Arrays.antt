-- ===== src/Prelude/Arrays.antt =====
-- JavaScript arrays of numbers, as lists with native indexes.
use Prim.Native.Nat.{ℕ, zero, suc, ◌+◌, ◌≤◌, ◌<◌}
use mathlib.Core.Path.{◌≡◌, refl, ap, ◌∙◌}
use mathlib.Core.Bool.{Bool}
use mathlib.Core.Logic.{◌⊎◌, inl, inr}
use mathlib.Core.List.{List, [], ◌∷◌}
use native.Mathlib.Omega.{arith}
use zk_payroll_sdk.Prelude.Tests.{◌==◌, if◌then◌else◌, Bool-cases}
use zk_payroll_sdk.Prelude.Lists.{length, All}

module _ {ℓ} {A : Type ℓ} where
  -- `xs[i]`, and the default out of range.
  abbrev pub get_or : List A → ℕ → A → A
  get_or [] i d = d
  get_or (x ∷ xs) zero d = x
  get_or (x ∷ xs) (suc i) d = get_or xs i d

  -- `xs[i] = v` in range.
  abbrev pub set : List A → ℕ → A → List A
  set [] i v = []
  set (x ∷ xs) zero v = v ∷ xs
  set (x ∷ xs) (suc i) v = x ∷ set xs i v

module _ {ℓ} {A : Type ℓ} where
  -- Before the first element that it may stand before.
  abbrev pub insert_with : (A → A → Bool) → A → List A → List A
  insert_with before x [] = x ∷ []
  insert_with before x (y ∷ ys) =
      let rest = insert_with before x ys in if before x y then x ∷ y ∷ ys else y ∷ rest

  -- `xs.sort(...)`, which keeps the order of equal elements; the test says that the comparison is not
  -- above 0.
  abbrev pub sort_with : (A → A → Bool) → List A → List A
  sort_with before [] = []
  sort_with before (x ∷ xs) = insert_with before x (sort_with before xs)

module _ {ℓ} {A : Type ℓ} where
  abbrev pub Any : (A → Type 0) → List A → Type 0
  Any P [] = ⊥
  Any P (x ∷ xs) = P x ⊎ Any P xs

-- The numbers from `start`, so many.
abbrev pub range : ℕ → ℕ → List ℕ
range start zero = []
range start (suc n) = start ∷ range (suc start) n

module _ {ℓ} {A : Type ℓ} where
  pub length-set : (xs : List A) (i : ℕ) (v : A) → length (set xs i v) ≡ length xs
  length-set [] i v = refl
  length-set (x ∷ xs) zero v = refl
  length-set (x ∷ xs) (suc i) v = ap suc (length-set xs i v)

  pub get_or-set :
      (xs : List A) (i j : ℕ) (v d : A)
      → i < length xs
      → get_or (set xs i v) j d ≡ (if i == j then v else get_or xs j d)
  get_or-set [] i j v d h = absurd (omega arith)
  get_or-set (x ∷ xs) zero zero v d h = refl
  get_or-set (x ∷ xs) zero (suc j) v d h = ground arith
  get_or-set (x ∷ xs) (suc i) zero v d h = ground arith
  get_or-set (x ∷ xs) (suc i) (suc j) v d h = ground (arith, get_or-set xs i j v d)

pub length-range : (start n : ℕ) → length (range start n) ≡ n
length-range start zero = refl
length-range start (suc n) = omega (arith, length-range (suc start) n)

pub get_or-range : (start n i d : ℕ) → i < n → get_or (range start n) i d ≡ start + i
get_or-range start zero i d h = absurd (omega arith)
get_or-range start (suc n) zero d h = omega arith
get_or-range start (suc n) (suc i) d h = omega (arith, get_or-range (suc start) n i d)

pub get_or_out {ℓ} : {A : Type ℓ} (xs : List A) (i : ℕ) (d : A) → length xs ≤ i → get_or xs i d ≡ d
get_or_out [] i d h = refl
get_or_out (x ∷ xs) zero d h = absurd (omega arith)
get_or_out (x ∷ xs) (suc i) d h = get_or_out xs i d (omega arith)

module _ {ℓ κ} {A : Type ℓ} (P : A → Type κ) (before : A → A → Bool) where
  pub insert_with-All : (x : A) (xs : List A) → P x → All P xs → All P (insert_with before x xs)
  insert_with-All x [] p ps = (p, tt)
  insert_with-All x (y ∷ ys) p (q, qs) = elim (Bool-cases (before x y)) [
    | inl first ↦ rw first (p, (q, qs))
    | inr later ↦ rw later (q, insert_with-All x ys p qs)
  ]

  pub sort_with-All : (xs : List A) → All P xs → All P (sort_with before xs)
  sort_with-All [] ps = tt
  sort_with-All (x ∷ xs) (p, ps) = insert_with-All x _ p (sort_with-All xs ps)

module _ {ℓ} {A : Type ℓ} (P : A → Type 0) (before : A → A → Bool) where
  insert_with-Any : (x : A) (xs : List A) → P x ⊎ Any P xs → Any P (insert_with before x xs)
  insert_with-Any x [] h = h
  insert_with-Any x (y ∷ ys) h = elim (Bool-cases (before x y)) [
    | inl first ↦ rw first h
    | inr later ↦ rw later (elim h [
      | inl p ↦ inr (insert_with-Any x ys (inl p))
      | inr (inl q) ↦ inl q
      | inr (inr qs) ↦ inr (insert_with-Any x ys (inr qs))
    ])
  ]

  pub sort_with-Any : (xs : List A) → Any P xs → Any P (sort_with before xs)
  sort_with-Any [] h = h
  sort_with-Any (x ∷ xs) (inl p) = insert_with-Any x _ (inl p)
  sort_with-Any (x ∷ xs) (inr h) = insert_with-Any x _ (inr (sort_with-Any xs h))

module _ {ℓ} {A : Type ℓ} (before : A → A → Bool) where
  length-insert_with : (x : A) (xs : List A) → length (insert_with before x xs) ≡ suc (length xs)
  length-insert_with x [] = refl
  length-insert_with x (y ∷ ys) = ground (arith, length-insert_with x ys)

  pub length-sort_with : (xs : List A) → length (sort_with before xs) ≡ length xs
  length-sort_with [] = refl
  length-sort_with (x ∷ xs) =
      length-insert_with x (sort_with before xs) ∙ ap suc (length-sort_with xs)
