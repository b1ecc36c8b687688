-- ===== src/Router/Budget/Bounds.antt =====
-- What a candidate's budget leaves of the time that remains.
use llm_endpoint.Prelude.{
  ℕ, ◌+◌, ◌≡◌, refl, sym, ◌∙◌, subst, ◌⊎◌, inl, inr, true, ◌&&◌, ltb, length, arith, Bool-cases,
}
use llm_endpoint.Prelude.Int.{ℤ, pos, negsuc, ◌-ℤ◌, ◌≤ℤ◌, max_ℤ, min_ℤ}
use llm_endpoint.Prelude.Outcome.{ok, ok-injective, >>=-eq-ok}
use llm_endpoint.Invocation.{InvocationPlan}
use llm_endpoint.Router.Budget.{budget_at, reserve, candidate_budget}

min_le_left : (a b : ℤ) → min_ℤ a b ≤ℤ a
min_le_left a b = ground arith

min_le_right : (a b : ℤ) → min_ℤ a b ≤ℤ b
min_le_right a b = ground arith

min_positive : (a b : ℤ) → pos 1 ≤ℤ a → pos 1 ≤ℤ b → pos 1 ≤ℤ min_ℤ a b
min_positive a b h k = ground arith

max_positive : (a : ℤ) → pos 1 ≤ℤ max_ℤ (pos 1) a
max_positive a = ground arith

-- taking a part that is not negative away
sub_le : (a b : ℤ) → pos 0 ≤ℤ b → (a -ℤ b) ≤ℤ a
sub_le (pos m) (pos n) h = ground arith
sub_le (negsuc m) (pos n) h = ground arith
sub_le a (negsuc n) h = ground arith

-- A budget is fair: it is positive, within the remaining time and the candidate's own budget; and where the last
-- eligible candidate is protected, it leaves the next candidate's budget of the time, unless it is the least
-- budget, one millisecond.
pub record IsFair {W : Type 0} (plan : InvocationPlan W) (index : ℕ) (remaining budget : ℤ)
    : Type 0 where
  pub positive : pos 1 ≤ℤ budget
  pub in_time : budget ≤ℤ remaining
  pub own : (b : ℤ) → budget_at plan index ≡ ok b → budget ≤ℤ b
  pub reserved :
      (next : ℤ)
      → plan.effective_config.protect_last_eligible ≡ true
      → ltb (index + 1) (length plan.endpoint_uids) ≡ true
      → budget_at plan (index + 1) ≡ ok next
      → (budget ≤ℤ pos 1) ⊎ (budget ≤ℤ (remaining -ℤ next))

max_le : (a b c : ℤ) → b ≤ℤ c → a ≤ℤ c → max_ℤ a b ≤ℤ c
max_le a b c h k = ground arith

le_max : (a b c : ℤ) → c ≤ℤ max_ℤ a b → (c ≤ℤ a) ⊎ (c ≤ℤ b)
le_max a b c h = ground arith

le_trans : (a b c : ℤ) → a ≤ℤ b → b ≤ℤ c → a ≤ℤ c
le_trans a b c h k = omega arith

module _ {W : Type 0} (plan : InvocationPlan W) (index : ℕ) where
  reserve-natural :
      (r : ℤ)
      → ((i : ℕ) (b : ℤ) → budget_at plan i ≡ ok b → pos 1 ≤ℤ b)
      → reserve plan index ≡ ok r
      → pos 0 ≤ℤ r
  unfolding reserve
  reserve-natural r budgets h =
      elim (Bool-cases (
        ltb (index + 1) (length plan.endpoint_uids)
        && plan.effective_config.protect_last_eligible)) [
          | inl later ↦
              le_trans (pos 0) (pos 1) r (omega arith) (budgets (index + 1) r (rw later at h))
          | inr last ↦ subst (λ r. pos 0 ≤ℤ r) (ok-injective (rw last at h)) (omega arith)
        ]

  reserve_next :
      (next : ℤ)
      → plan.effective_config.protect_last_eligible ≡ true
      → ltb (index + 1) (length plan.endpoint_uids) ≡ true
      → budget_at plan (index + 1) ≡ ok next
      → reserve plan index ≡ ok next
  unfolding reserve
  reserve_next next protected later same = rw (later, protected, same) refl

  -- If every candidate's budget is positive and there is time left, a candidate's budget is fair: it is positive,
  -- within the remaining time and its own budget, and where the last eligible candidate is protected and there is
  -- a next candidate, it leaves that one's budget of the remaining time or is one millisecond.
  pub candidate_budget-IsFair :
      (remaining budget : ℤ)
      → ((i : ℕ) (b : ℤ) → budget_at plan i ≡ ok b → pos 1 ≤ℤ b)
      → pos 1 ≤ℤ remaining
      → candidate_budget plan index remaining ≡ ok budget
      → IsFair plan index remaining budget
  unfolding candidate_budget
  candidate_budget-IsFair remaining budget budgets left h =
      let (own, at_index, h₁) = >>=-eq-ok (budget_at plan index) _ h in
      let (r, kept, h₂) = >>=-eq-ok (reserve plan index) _ h₁ in
      subst (IsFair plan index remaining) (ok-injective h₂) (record {
        positive =
            min_positive own (max_ℤ (pos 1) (remaining -ℤ r)) (budgets index own at_index)
              (max_positive (remaining -ℤ r));
        in_time =
            le_trans (min_ℤ own (max_ℤ (pos 1) (remaining -ℤ r))) (max_ℤ (pos 1) (remaining -ℤ r))
              remaining (min_le_right own (max_ℤ (pos 1) (remaining -ℤ r)))
              (max_le (pos 1) (remaining -ℤ r) remaining
                (sub_le remaining r (reserve-natural r budgets kept)) left);
        own = λ b same.
            subst (λ b. min_ℤ own (max_ℤ (pos 1) (remaining -ℤ r)) ≤ℤ b)
              (ok-injective (sym at_index ∙ same))
              (min_le_left own (max_ℤ (pos 1) (remaining -ℤ r)));
        reserved = λ next protected later same.
            le_max (pos 1) (remaining -ℤ next) (min_ℤ own (max_ℤ (pos 1) (remaining -ℤ r))) (
              subst
                (λ q. min_ℤ own (max_ℤ (pos 1) (remaining -ℤ r)) ≤ℤ max_ℤ (pos 1) (remaining -ℤ q))
                (ok-injective (sym kept ∙ reserve_next next protected later same))
                (min_le_right own (max_ℤ (pos 1) (remaining -ℤ r))));
      })
