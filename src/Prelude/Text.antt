-- ===== src/Prelude/Text.antt =====
-- JavaScript strings that are compared, joined and tested for blankness, and maps keyed by them.
-- A `Map` or a `Record` keeps its keys in the order of insertion; writing a key that is present
-- keeps its place.
use Prim.Native.Char.{code}
use Prim.Native.String.{String}
use mathlib.Core.Path.{◌≡◌, refl, sym, subst}
use mathlib.Core.Logic.{◌≢◌, ◌⊎◌, inl, inr}
use mathlib.Core.Bool.{Bool, true, false, ◌&&◌, ◌||◌}
use mathlib.Core.Option.{Option, none, some}
use mathlib.Core.List.{List, [], ◌∷◌}
use Prim.Native.Nat.{ℕ, suc}
use native.Mathlib.Omega.{arith}
use text.Mathlib.Text.{◌==◌ as text_eq}
use text.Mathlib.TextEquality.{eq_iff}
use zk_payroll_sdk.Prelude.Tests.{leb, ◌==◌, if◌then◌else◌, is_some, Bool-cases}
use zk_payroll_sdk.Prelude.Lists.{length, All}

-- `a === b` on strings.
abbrev pub str_eq : String → String → Bool
str_eq = text_eq

pub str_eq→≡ : (a b : String) → str_eq a b ≡ true → a ≡ b
str_eq→≡ a b = (eq_iff a b).0

pub ≡→str_eq : (a b : String) → a ≡ b → str_eq a b ≡ true
≡→str_eq a b = (eq_iff a b).1

pub ≢→str_eq : (a b : String) → a ≢ b → str_eq a b ≡ false
≢→str_eq a b apart = elim (Bool-cases (str_eq a b)) [
  | inl same ↦ absurd (apart (str_eq→≡ a b same))
  | inr other ↦ other
]

pub str_eq_refl : (a : String) → str_eq a a ≡ true
str_eq_refl a = ≡→str_eq a a refl

-- The white space and line ends that `String.prototype.trim` strips.
abbrev pub is_space : ℕ → Bool
is_space c =
    (leb 9 c && leb c 13)
    || c == 32
    || c == 160
    || c == 0x1680
    || (leb 0x2000 c && leb c 0x200a)
    || c == 0x2028
    || c == 0x2029
    || c == 0x202f
    || c == 0x205f
    || c == 0x3000
    || c == 0xfeff

-- `!s || s.trim() === ""`
unfoldable pub is_blank : String → Bool
is_blank String.[] = true
is_blank (String.◌∷◌ c s) = is_space (code c) && is_blank s

trim_start : String → String
trim_start String.[] = String.[]
trim_start (String.◌∷◌ c s) = elim (is_space (code c)) [
  | true ↦ trim_start s
  | false ↦ String.◌∷◌ c s
]

trim_end : String → String
trim_end String.[] = String.[]
trim_end (String.◌∷◌ c s) =
    let rest = trim_end s in
    if is_space (code c) && str_eq rest "" then String.[] else String.◌∷◌ c rest

-- `s.trim()`
unfoldable pub trim : String → String
unfolding trim_start trim_end
trim s = trim_end (trim_start s)

-- `xs.includes(x)`, and a `Set` of strings.
abbrev pub includes : List String → String → Bool
includes [] x = false
includes (y ∷ ys) x = str_eq y x || includes ys x

abbrev pub Dict {ℓ} : Type ℓ → Type ℓ
Dict V = List (String × V)

module _ {ℓ} {V : Type ℓ} where
  abbrev pub lookup : String → Dict V → Option V
  lookup k [] = none
  lookup k ((j, v) ∷ d) = if str_eq j k then some v else lookup k d

  abbrev pub insert : String → V → Dict V → Dict V
  insert k v [] = (k, v) ∷ []
  insert k v ((j, w) ∷ d) = if str_eq j k then (j, v) ∷ d else (j, w) ∷ insert k v d

  -- `d.delete(k)`
  abbrev pub remove : String → Dict V → Dict V
  remove k [] = []
  remove k ((j, w) ∷ d) = let rest = remove k d in if str_eq j k then rest else (j, w) ∷ rest

  -- `Object.values(d)`
  abbrev pub values : Dict V → List V
  values [] = []
  values ((_, v) ∷ d) = v ∷ values d

module _ {ℓ} {V : Type ℓ} where
  pub lookup-insert :
      (k j : String) (v : V) (d : Dict V)
      → lookup j (insert k v d) ≡ (if str_eq k j then some v else lookup j d)
  lookup-insert k j v [] = refl
  lookup-insert k j v ((i, w) ∷ d) =
      ground (arith, eq_iff k j, eq_iff i k, eq_iff i j, lookup-insert k j v d)

  pub lookup-insert_self : (k : String) (v : V) (d : Dict V) → lookup k (insert k v d) ≡ some v
  lookup-insert_self k v d = ground (arith, lookup-insert k k v d, str_eq_refl k)

  -- A write adds an entry exactly when the key is new.
  pub length-insert :
      (k : String) (v : V) (d : Dict V)
      → length (insert k v d) ≡ (if is_some (lookup k d) then length d else suc (length d))
  length-insert k v [] = refl
  length-insert k v ((i, w) ∷ d) = ground (arith, length-insert k v d)

  pub length-values : (d : Dict V) → length (values d) ≡ length d
  length-values [] = refl
  length-values (e ∷ d) = omega (arith, length-values d)

  -- What a lookup finds after a write is what was written, or was there before.
  pub lookup-insert_cases :
      (k j : String) (v : V) {w : V} (d : Dict V)
      → lookup j (insert k v d) ≡ some w
      → ((k ≡ j) × (v ≡ w)) ⊎ ((str_eq k j ≡ false) × (lookup j d ≡ some w))
  lookup-insert_cases k j v d h = ground (arith, lookup-insert k j v d, eq_iff k j)

  -- A write of a new key leaves every present one alone.
  pub lookup-insert_new :
      (k j : String) (v : V) {w : V} (d : Dict V)
      → lookup j d ≡ some w
      → lookup k d ≡ none
      → lookup j (insert k v d) ≡ some w
  lookup-insert_new k j v d e n = ground (arith, lookup-insert k j v d, eq_iff k j)

  pub All-insert {κ} :
      (P : String × V → Type κ) (k : String) (v : V) (d : Dict V)
      → P (k, v)
      → All P d
      → All P (insert k v d)
  All-insert P k v [] p h = (p, tt)
  All-insert P k v ((i, w) ∷ d) p h = elim (Bool-cases (str_eq i k)) [
    | inl same ↦ rw same (subst (λ j. P (j, v)) (sym (str_eq→≡ i k same)) p, h.1)
    | inr other ↦ rw other (h.0, All-insert P k v d p h.1)
  ]

  pub All-values {κ} :
      (P : V → Type κ) (d : Dict V) → All (λ (e : String × V). P e.1) d → All P (values d)
  All-values P [] h = tt
  All-values P (e ∷ d) h = (h.0, All-values P d h.1)

  pub lookup-remove :
      (k j : String) (d : Dict V)
      → lookup j (remove k d) ≡ (if str_eq k j then none else lookup j d)
  lookup-remove k j [] = ground arith
  lookup-remove k j ((i, w) ∷ d) =
      ground (arith, eq_iff k j, eq_iff i k, eq_iff i j, lookup-remove k j d)
