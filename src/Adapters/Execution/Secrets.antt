-- ===== src/Adapters/Execution/Secrets.antt =====
-- adapters.py: `_resolve_credential`, and which secret a resolver gives.
use llm_endpoint.Prelude.{
  String, true, false, ◌≡◌, refl, sym, ap, ◌∙◌, Option, none, some, List, [], ◌∷◌, ◌==◌, eq_iff,
  Bool-cases, inl, inr,
}
use llm_endpoint.Prelude.Outcome.{Result, ok, Call, returned, raised}
use llm_endpoint.Results.{failure_with_hint, is_retryable}
use llm_endpoint.Callbacks.{
  SecretValue, SecretResolution, SecretResolver, is_secret_resolved, secret_failure,
}
use llm_endpoint.Adapters.{AdapterInvocationPlan}
use llm_endpoint.Adapters.Execution.{
  Credential, no_credential, secret, unavailable, unavailable_because, judge_resolution, judge_call,
  resolve_ref, resolve_credential,
}
use llm_endpoint.Adapters.Execution.Judged.{IsLocal}

-- what a resolver answers for a reference, if there is a resolver
abbrev pub answer_of :
    {W : Type 0} → Option (SecretResolver W) → String → W → Option (Call SecretResolution)
answer_of none ref w = none
answer_of (some resolve) ref w = some (resolve ref w).0

-- An answer gives a secret for a reference: it is a resolution of this reference, resolved, with the secret.
pub record IsGiven (ref : String) (answer : Option (Call SecretResolution)) (v : SecretValue)
    : Type 0 where
  pub resolution : SecretResolution
  pub answered : answer ≡ some (returned resolution)
  pub same_ref : resolution.ref ≡ ref
  pub resolved : is_secret_resolved resolution.status ≡ true
  pub present : resolution.secret ≡ some v

-- What is made of the answer: the secret that it gives, or a local failure if it gives none.
abbrev pub IsResolved :
    String → String → Option (Call SecretResolution) → Result Credential → Type 0
IsResolved uid ref answer (ok (secret v)) = IsGiven ref answer v
IsResolved uid ref answer (ok (unavailable f)) =
    IsLocal uid f × ((v : SecretValue) → IsGiven ref answer v → ⊥)
IsResolved uid ref answer _ = ⊥

-- by the endpoint's reference
abbrev pub IsObtained :
    {W : Type 0}
    → String
    → Option String
    → Option (SecretResolver W)
    → W
    → Result Credential
    → Type 0
IsObtained uid none resolver w c = c ≡ ok no_credential
IsObtained uid (some ref) resolver w c = IsResolved uid ref (answer_of resolver ref w) c

same_resolution : {r q : SecretResolution} → some (returned r) ≡ some (returned q) → q ≡ r
same_resolution h = cc

some-not-none : {v : SecretValue} → some v ≡ none → ⊥
some-not-none h = cc

true-not-false : true ≡ false → ⊥
true-not-false h = cc

none-not-answer : {r : SecretResolution} → none ≡ some (returned r) → ⊥
none-not-answer h = cc

raised-not-returned :
    {name : String} {r : SecretResolution} → some (raised name) ≡ some (returned r) → ⊥
raised-not-returned h = cc

module _ (ref : String) (r : SecretResolution) (v : SecretValue)
    (g : IsGiven ref (some (returned r)) v) where
  given_ref : r.ref ≡ ref
  given_ref = ap (λ (q : SecretResolution). q.ref) (sym (same_resolution g.answered)) ∙ g.same_ref

  given_status : is_secret_resolved r.status ≡ true
  given_status =
      ap (λ (q : SecretResolution). is_secret_resolved q.status) (sym (same_resolution g.answered))
      ∙ g.resolved

  given_secret : r.secret ≡ some v
  given_secret =
      ap (λ (q : SecretResolution). q.secret) (sym (same_resolution g.answered)) ∙ g.present

module _ (p : AdapterInvocationPlan) (ref : String) where
  unavailable_because-IsResolved :
      (message : String) (context : List (String × String))
      (answer : Option (Call SecretResolution))
      → ((v : SecretValue) → IsGiven ref answer v → ⊥)
      → IsResolved p.endpoint_uid ref answer (unavailable_because p message context)
  unfolding unavailable_because is_retryable
  unavailable_because-IsResolved message context answer why =
      (record { classified = (refl, refl); final = refl; endpoint = refl; timeless = refl }, why)

  -- a resolution that is resolved, by its secret
  resolved-IsResolved :
      (r : SecretResolution) (o : Option SecretValue)
      → r.secret ≡ o
      → r.ref ≡ ref
      → is_secret_resolved r.status ≡ true
      → IsResolved p.endpoint_uid ref (some (returned r)) (elim o [
        | none ↦
            unavailable_because p "secret resolver returned resolved status without a secret"
              (("secret_ref", ref) ∷ [])
        | some v ↦ ok (secret v)
      ])
  resolved-IsResolved r none same here open_ref =
      unavailable_because-IsResolved _ _ _
        (λ v g. some-not-none (sym (given_secret ref r v g) ∙ same))
  resolved-IsResolved r (some v) same here open_ref = record {
    resolution = r;
    answered = refl;
    same_ref = here;
    resolved = open_ref;
    present = same;
  }

  judge_resolution-IsResolved :
      (r : SecretResolution)
      → IsResolved p.endpoint_uid ref (some (returned r)) (judge_resolution p ref r)
  unfolding judge_resolution is_retryable failure_with_hint secret_failure
  judge_resolution-IsResolved r = elim (Bool-cases (r.ref == ref)) [
    | inr other ↦ simp other (
        unavailable_because-IsResolved _ _ _
          (λ v g. true-not-false (sym ((eq_iff r.ref ref).1 (given_ref ref r v g)) ∙ other)))
    | inl same ↦ simp same (elim (Bool-cases (is_secret_resolved r.status)) [
      | inr unresolved ↦ simp unresolved (
        record { classified = (refl, refl); final = refl; endpoint = refl; timeless = refl },
        λ v g. true-not-false (sym (given_status ref r v g) ∙ unresolved),
      )
      | inl resolved ↦
          simp resolved (resolved-IsResolved r r.secret refl ((eq_iff r.ref ref).0 same) resolved)
    ])
  ]

  judge_call-IsResolved :
      (answer : Call SecretResolution)
      → IsResolved p.endpoint_uid ref (some answer) (judge_call p ref answer)
  unfolding judge_call
  judge_call-IsResolved (returned r) = judge_resolution-IsResolved r
  judge_call-IsResolved (raised name) =
      unavailable_because-IsResolved _ _ _ (λ v g. raised-not-returned g.answered)

module _ {W : Type 0} (p : AdapterInvocationPlan) where
  resolve_ref-IsObtained :
      (ref : Option String) (resolver : Option (SecretResolver W)) (w : W)
      → IsObtained p.endpoint_uid ref resolver w (resolve_ref p ref resolver w).0
  unfolding resolve_ref
  resolve_ref-IsObtained none resolver w = refl
  resolve_ref-IsObtained (some ref) none w =
      unavailable_because-IsResolved p ref _ _ _ (λ v g. none-not-answer g.answered)
  resolve_ref-IsObtained (some ref) (some resolve) w = judge_call-IsResolved p ref (resolve ref w).0

  -- The credential of a plan is none, or what is made of the resolver's answer for the plan's reference.
  pub resolve_credential-IsObtained :
      (resolver : Option (SecretResolver W)) (w : W)
      → IsObtained p.endpoint_uid p.credential_ref resolver w (resolve_credential p resolver w).0
  unfolding resolve_credential
  resolve_credential-IsObtained resolver w = resolve_ref-IsObtained p.credential_ref resolver w
