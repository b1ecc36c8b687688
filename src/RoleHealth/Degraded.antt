-- ===== src/RoleHealth/Degraded.antt =====
-- When a role with an available primary endpoint is degraded.
use llm_endpoint.Prelude.{
  ◌≡◌, refl, ℕ, suc, true, false, List, [], ◌∷◌, ◌&&◌, length, ltb, nat_eq, All, Bool-cases, inl,
  inr, arith,
}
use llm_endpoint.RoleHealth.{
  RoleHealthState, EndpointHealth, is_state, available_count, last_available, role_state,
}
use llm_endpoint.RoleHealth.Available.{IsAvailable, same_state, available_count-All, counted}

suc-not-zero : (n : ℕ) → suc n ≡ 0 → ⊥
suc-not-zero n h = omega arith

some_counted : (n : ℕ) → ltb 0 (suc n) ≡ true
some_counted n = ground arith

-- Where none is counted the last endpoint is not available.
last_uncounted :
    (h : EndpointHealth) (hs : List EndpointHealth)
    → available_count (h ∷ hs) ≡ 0
    → last_available (h ∷ hs) ≡ false
unfolding available_count last_available
last_uncounted h [] k = ground arith
last_uncounted h (j ∷ hs) k = elim (Bool-cases (is_state h.state RoleHealthState.available)) [
  | inl so ↦ elim (suc-not-zero (available_count (j ∷ hs)) (rw (so, available_count) at k)) [ ]
  | inr other ↦ last_uncounted j hs (rw (other, available_count) at k)
]

-- The last of several endpoints is that of the rest.
one_of_several :
    (h : EndpointHealth) (hs : List EndpointHealth)
    → (All IsAvailable hs → ⊥)
    → (nat_eq (suc (available_count hs)) 1 && last_available (h ∷ hs)) ≡ false
unfolding last_available
one_of_several h [] some_ill = elim (some_ill tt) [ ]
one_of_several h (j ∷ hs) some_ill = elim (Bool-cases (nat_eq (suc (available_count (j ∷ hs))) 1)) [
  | inl one ↦
      rw (one, last_uncounted j hs (omega (arith, counted (suc (available_count (j ∷ hs))) 1 one)))
        refl
  | inr more ↦ rw more refl
]

primary_counted :
    (h : EndpointHealth) (hs : List EndpointHealth)
    → IsAvailable h
    → available_count (h ∷ hs) ≡ suc (available_count hs)
unfolding available_count
primary_counted h hs well = rw ((same_state h.state).1 well) refl

not-All :
    (hs : List EndpointHealth)
    → (All IsAvailable hs → ⊥)
    → nat_eq (suc (available_count hs)) (suc (length hs)) ≡ false
not-All hs some_ill = elim (Bool-cases (nat_eq (suc (available_count hs)) (suc (length hs)))) [
  | inr other ↦ other
  | inl same ↦
      let e : available_count hs ≡ length hs =
        omega (arith, counted (suc (available_count hs)) (suc (length hs)) same) in
      elim (some_ill ((available_count-All hs).0 e)) [ ]
]

-- A role whose primary endpoint, the first one, is available, and which has another endpoint that is not, is degraded.
pub role_state-degraded :
    (h : EndpointHealth) (hs : List EndpointHealth)
    → IsAvailable h
    → (All IsAvailable hs → ⊥)
    → role_state (h ∷ hs) ≡ RoleHealthState.degraded
unfolding role_state
role_state-degraded h hs well some_ill = rw (primary_counted h hs well) (
    rw (not-All hs some_ill)
      (rw (one_of_several h hs some_ill) (rw (some_counted (available_count hs)) refl)))
