-- ===== src/Import/Grouping.antt =====
-- packages/core/src/import/ImportDuplicateClusterDetector.ts: the groups that `pushToGroup` makes of the
-- rows, by a number for each row.
use mathlib.Core.Path.{subst}
use zk_payroll_sdk.Prelude.{
  ℕ, suc, ◌<◌, ◌==◌, ltb, ◌||◌, ◌&&◌, Bool-cases, List, [], ◌∷◌, ◌++◌, All, ◌≡◌, ◌≢◌, refl, sym, ap,
  ◌⊎◌, inl, inr, arith, ==_iff,
}
use zk_payroll_sdk.Import.Evidence.{Groups, push_to_group}
use zk_payroll_sdk.Import.Detector.{has}

-- A group of the rows below a bound: those with its number.
abbrev pub IsClass : (ℕ → ℕ) → ℕ → ℕ → List ℕ → Type 0
IsClass f i k is = (y : ℕ) → has is y ≡ (ltb y i && (f y == k))

-- Groups with different numbers, each of them with the rows of its number.
abbrev pub AreClasses : (ℕ → ℕ) → ℕ → Groups ℕ → Type 0
AreClasses f i [] = Unit
AreClasses f i ((k, is) ∷ groups) =
    IsClass f i k is × All (λ (g : ℕ × List ℕ). g.0 ≢ k) groups × AreClasses f i groups

-- One of the groups has the number.
abbrev pub HasKey : ℕ → Groups ℕ → Type 0
HasKey k [] = ⊥
HasKey k (g ∷ groups) = (g.0 ≡ k) ⊎ HasKey k groups

has-append : (is : List ℕ) (i y : ℕ) → has (is ++ (i ∷ [])) y ≡ (has is y || (i == y))
has-append [] i y = ground arith
has-append (x ∷ is) i y = ground (arith, has-append is i y)

IsClass-skip :
    (f : ℕ → ℕ) (i k : ℕ) (is : List ℕ) → f i ≢ k → IsClass f i k is → IsClass f (suc i) k is
IsClass-skip f i k is apart h y = elim (Bool-cases (i == y)) [
  | inl same ↦ ground (arith, h y, (==_iff i y).0 same, ap f ((==_iff i y).0 same))
  | inr other ↦ ground (arith, h y)
]

IsClass-push :
    (f : ℕ → ℕ) (i k : ℕ) (is : List ℕ)
    → f i ≡ k
    → IsClass f i k is
    → IsClass f (suc i) k (is ++ (i ∷ []))
IsClass-push f i k is e h y = elim (Bool-cases (i == y)) [
  | inl same ↦
      ground (arith, has-append is i y, h y, (==_iff i y).0 same, ap f ((==_iff i y).0 same))
  | inr other ↦ ground (arith, has-append is i y, h y)
]

AreClasses-skip :
    (f : ℕ → ℕ) (i : ℕ) (groups : Groups ℕ)
    → All (λ (g : ℕ × List ℕ). g.0 ≢ f i) groups
    → AreClasses f i groups
    → AreClasses f (suc i) groups
AreClasses-skip f i [] n h = tt
AreClasses-skip f i ((k, is) ∷ groups) (n, ns) (c, d, h) =
    (IsClass-skip f i k is (λ e. n (sym e)) c, d, AreClasses-skip f i groups ns h)

push-keys :
    (k key i : ℕ) (groups : Groups ℕ)
    → key ≢ k
    → All (λ (g : ℕ × List ℕ). g.0 ≢ k) groups
    → All (λ (g : ℕ × List ℕ). g.0 ≢ k) (push_to_group ◌==◌ key i groups)
push-keys k key i [] n h = (n, tt)
push-keys k key i ((l, is) ∷ groups) n (h, hs) = elim (Bool-cases (l == key)) [
  | inl same ↦ rw same (h, hs)
  | inr other ↦ rw other (h, push-keys k key i groups n hs)
]

HasKey-tail :
    (key k : ℕ) (is : List ℕ) (groups : Groups ℕ)
    → key ≢ k
    → HasKey key ((k, is) ∷ groups)
    → HasKey key groups
HasKey-tail key k is groups n (inl e) = absurd (n (sym e))
HasKey-tail key k is groups n (inr h) = h

push-AreClasses :
    (f : ℕ → ℕ) (i : ℕ) (groups : Groups ℕ)
    → AreClasses f i groups
    → ((y : ℕ) → y < i → f y ≡ f i → HasKey (f i) groups)
    → AreClasses f (suc i) (push_to_group ◌==◌ (f i) i groups)
push-AreClasses f i [] h known = (
  λ y. elim (Bool-cases (ltb y i && (f y == f i))) [
    | inl earlier ↦ absurd (known y (ground (arith, earlier)) (ground (arith, earlier)))
    | inr none_before ↦ elim (Bool-cases (i == y)) [
      | inl same ↦ ground (arith, (==_iff i y).0 same, ap f ((==_iff i y).0 same))
      | inr other ↦ ground (arith, none_before)
    ]
  ],
  tt,
  tt,
)
push-AreClasses f i ((k, is) ∷ groups) (c, d, h) known = elim (Bool-cases (k == f i)) [
  | inl same ↦
      let e = (==_iff k (f i)).0 same in
      rw same (
        IsClass-push f i k is (sym e) c,
        d,
        AreClasses-skip f i groups (subst (λ l. All (λ (g : ℕ × List ℕ). g.0 ≢ l) groups) e d) h,
      )
  | inr other ↦
      let apart : f i ≢ k = λ e. ground (arith, e) in
      rw other (
        IsClass-skip f i k is apart c,
        push-keys k (f i) i groups apart d,
        push-AreClasses f i groups h (λ y l e. HasKey-tail (f i) k is groups apart (known y l e)),
      )
]

push-new : (key i : ℕ) (groups : Groups ℕ) → HasKey key (push_to_group ◌==◌ key i groups)
push-new key i [] = inl refl
push-new key i ((k, is) ∷ groups) = elim (Bool-cases (k == key)) [
  | inl same ↦ rw same (inl ((==_iff k key).0 same))
  | inr other ↦ rw other (inr (push-new key i groups))
]

push-HasKey :
    (k key i : ℕ) (groups : Groups ℕ) → HasKey k groups → HasKey k (push_to_group ◌==◌ key i groups)
push-HasKey k key i [] h = absurd h
push-HasKey k key i ((l, is) ∷ groups) h = elim (Bool-cases (l == key)) [
  | inl same ↦ rw same (elim h [ inl e ↦ inl e | inr g ↦ inr g ])
  | inr other ↦ rw other (elim h [ inl e ↦ inl e | inr g ↦ inr (push-HasKey k key i groups g) ])
]

-- The groups of the rows below a bound.
abbrev pub AreGroupsOf : (ℕ → ℕ) → ℕ → Groups ℕ → Type 0
AreGroupsOf f i groups = AreClasses f i groups × ((y : ℕ) → y < i → HasKey (f y) groups)

pub push-AreGroupsOf :
    (f : ℕ → ℕ) (i : ℕ) (groups : Groups ℕ)
    → AreGroupsOf f i groups
    → AreGroupsOf f (suc i) (push_to_group ◌==◌ (f i) i groups)
push-AreGroupsOf f i groups (h, cover) = (
  push-AreClasses f i groups h (λ y l e. subst (λ k. HasKey k groups) e (cover y l)),
  λ y l. elim (Bool-cases (y == i)) [
    | inl same ↦
        subst (λ j. HasKey (f j) (push_to_group ◌==◌ (f i) i groups)) (sym ((==_iff y i).0 same))
          (push-new (f i) i groups)
    | inr earlier ↦ push-HasKey (f y) (f i) i groups (cover y (ground arith))
  ],
)
