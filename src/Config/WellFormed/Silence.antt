-- ===== src/Config/WellFormed/Silence.antt =====
-- When lists of errors are empty.
use llm_endpoint.Prelude.{
  ◌≡◌, refl, sym, subst, ◌↔◌, String, Bool, true, false, List, [], ◌∷◌, ◌++◌, not, contains,
  if◌then◌else◌,
}
use mathlib.Core.List.{append-eq-nil_iff}
use llm_endpoint.Prelude.Text.{truthy}
use llm_endpoint.Config.Errors.{ConfigErrorCode, ConfigValidationError, error_if}
use llm_endpoint.Config.Names.{add_name}
use llm_endpoint.Config.WellFormed.{Named}

pub error_if-nil :
    (b : Bool) (code : ConfigErrorCode) (path message : String)
    → (error_if b code path message ≡ []) ↔ (b ≡ false)
unfolding error_if
error_if-nil true code path message = (λ h. cc, λ h. cc)
error_if-nil false code path message = (λ h. refl, λ h. refl)

pub error_unless-nil :
    (b : Bool) (code : ConfigErrorCode) (path message : String)
    → (error_if (not b) code path message ≡ []) ↔ (b ≡ true)
unfolding error_if
error_unless-nil true code path message = (λ h. refl, λ h. refl)
error_unless-nil false code path message = (λ h. cc, λ h. cc)

-- the check of a name
pub named-nil :
    (named b : Bool) (code : ConfigErrorCode) (path message : String) (e : ConfigValidationError)
    → ((if named then error_if b code path message else e ∷ []) ≡ [])
      ↔ ((named ≡ true) × (b ≡ false))
unfolding error_if
named-nil true true code path message e = (λ h. cc, λ h. cc)
named-nil true false code path message e = (λ h. (refl, refl), λ h. refl)
named-nil false b code path message e = (λ h. cc, λ h. cc)

-- a conjunction of two silences
pub both {ℓ κ} :
    {A : Type ℓ} {B : Type κ} {p q : List ConfigValidationError}
    → (p ≡ []) ↔ A
    → (q ≡ []) ↔ B
    → (p ++ q ≡ []) ↔ (A × B)
both first second = (
  λ h. let (hp, hq) = append-eq-nil_iff.0 h in (first.0 hp, second.0 hq),
  λ (a, b). append-eq-nil_iff.1 (first.1 a, second.1 b),
)

-- A new name is added to those seen.
add_name_new :
    (name : String) (seen : List String)
    → (truthy name ≡ true) × (contains name seen ≡ false)
    → add_name name seen ≡ name ∷ seen
unfolding add_name
add_name_new name seen (named, fresh) = rw (named, fresh) refl

-- A loop over named items is silent if the item's checks are and the rest is silent with the name seen.
pub loop-nil {ℓ κ} :
    {P : Type ℓ} {Later : Type κ} {p : List ConfigValidationError}
    (q : List String → List ConfigValidationError) (name : String) (names seen : List String)
    → (p ≡ []) ↔ (((truthy name ≡ true) × (contains name seen ≡ false)) × P)
    → (q (name ∷ seen) ≡ []) ↔ (Named (name ∷ seen) names × Later)
    → (p ++ q (add_name name seen) ≡ []) ↔ (Named seen (name ∷ names) × (P × Later))
loop-nil q name names seen first rest = (
  λ h.
      let (hp, hq) = append-eq-nil_iff.0 h in
      let (unique, here) = first.0 hp in
      let (named, later) = rest.0 (subst (λ s. q s ≡ []) (add_name_new name seen unique) hq) in
      ((unique, named), (here, later)),
  λ ((unique, named), (here, later)). append-eq-nil_iff.1 (
    first.1 (unique, here),
    subst (λ s. q s ≡ []) (sym (add_name_new name seen unique)) (rest.1 (named, later)),
  ),
)

-- a check of names and one of the rest, in the order of the code and of a loop
pub reorder {ℓ κ} :
    {A : Type ℓ} {B : Type κ} {p : List ConfigValidationError} → (p ≡ []) ↔ A → A ↔ B → (p ≡ []) ↔ B
reorder first second = (λ h. second.0 (first.0 h), λ b. first.1 (second.1 b))

pub never : (e : ConfigValidationError) (es : List ConfigValidationError) → (e ∷ es ≡ []) ↔ ⊥
never e es = (λ h. cc, λ h. elim h [ ])

-- a check of a number, and a second one where it holds
pub positive-nil {ℓ κ} :
    {A : Type ℓ} {B : Type κ} (wrong b : Bool) (code : ConfigErrorCode) (path message : String)
    (e : ConfigValidationError)
    → (wrong ≡ false) ↔ A
    → (b ≡ false) ↔ B
    → ((if wrong then e ∷ [] else error_if b code path message) ≡ []) ↔ (A × B)
unfolding error_if
positive-nil true b code path message e first second = (λ h. cc, λ (a, k). cc (first.1 a))
positive-nil false true code path message e first second = (λ h. cc, λ (a, k). cc (second.1 k))
positive-nil false false code path message e first second =
    (λ h. (first.0 refl, second.0 refl), λ k. refl)
