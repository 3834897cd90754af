-- ===== src/Paging/Cursors.antt =====
-- The cursors that a guarded traversal requests, each of them new.
use Prim.Native.String.{String}
use mathlib.Core.Path.{subst}
use zk_payroll_sdk.Prelude.{
  ◌≡◌, ◌≢◌, refl, sym, ◌∙◌, Bool, true, false, ◌||◌, Option, none, some, List, [], ◌∷◌, none≢some,
  some_inj, true≢false, ||-false, All, All-mono,
}
use zk_payroll_sdk.Prelude.Text.{str_eq, ≡→str_eq, includes}
use zk_payroll_sdk.Paging.Guardrails.{GuardedEnd, completed, option_eq, add_seen}

abbrev pub Distinct : List (Option String) → Type 0
Distinct [] = Unit
Distinct (r ∷ rs) = All (λ (s : Option String). s ≢ r) rs × Distinct rs

-- A request for a cursor that is not the current one and was not seen.
abbrev pub IsNew : Option String → List String → Option String → Type 0
IsNew cursor seen r = (r ≢ cursor) × (c : String) × (r ≡ some c) × (includes seen c ≡ false)

abbrev pub AreNew : Option String → List String → List (Option String) → Type 0
AreNew cursor seen [] = Unit
AreNew cursor seen (r ∷ rs) = (r ≡ cursor) × All (IsNew cursor seen) rs × Distinct rs

abbrev pub is_completed : GuardedEnd → Bool
is_completed completed = true
is_completed _ = false

not_same : (a b : String) → str_eq a b ≡ false → a ≢ b
not_same a b apart e = true≢false (sym (≡→str_eq a b e) ∙ apart)

IsNew-weaken :
    (cursor : Option String) (seen : List String) (next : String) (r : Option String)
    → IsNew (some next) (add_seen cursor seen) r
    → IsNew cursor seen r
IsNew-weaken none seen next r (other, c, same, fresh) =
    (λ e. none≢some (sym e ∙ same), c, same, fresh)
IsNew-weaken (some k) seen next r (other, c, same, fresh) =
    let (apart, unseen) = ||-false (str_eq k c) (includes seen c) fresh in
    (λ e. not_same k c apart (some_inj (sym e ∙ same)), c, same, unseen)

pub cursor-IsNew :
    (cursor : Option String) (seen : List String) (next : String)
    → (option_eq (some next) cursor || includes seen next) ≡ false
    → IsNew cursor seen (some next)
cursor-IsNew none seen next h = (λ e. none≢some (sym e), next, refl, h)
cursor-IsNew (some k) seen next h =
    let (apart, unseen) = ||-false (str_eq next k) (includes seen next) h in
    (λ e. not_same next k apart (some_inj e), next, refl, unseen)

pub AreNew-Distinct :
    (cursor : Option String) (seen : List String) (rs : List (Option String))
    → AreNew cursor seen rs
    → Distinct rs
AreNew-Distinct cursor seen [] fresh = tt
AreNew-Distinct cursor seen (r ∷ rs) (at, later, distinct) =
    (All-mono (λ s q e. q.0 (e ∙ at)) rs later, distinct)

pub AreNew-cons :
    (cursor : Option String) (seen : List String) (next : String) (rs : List (Option String))
    → IsNew cursor seen (some next)
    → AreNew (some next) (add_seen cursor seen) rs
    → AreNew cursor seen (cursor ∷ rs)
AreNew-cons cursor seen next [] new later = (refl, tt, tt)
AreNew-cons cursor seen next (r ∷ rs) new (at, later, distinct) = (
  refl,
  (
    subst (IsNew cursor seen) (sym at) new,
    All-mono (λ s q. IsNew-weaken cursor seen next s q) rs later,
  ),
  (All-mono (λ s q e. q.0 (e ∙ at)) rs later, distinct),
)
