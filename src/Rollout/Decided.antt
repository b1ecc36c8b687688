-- ===== src/Rollout/Decided.antt =====
-- What a rollout's decision is.
use llm_endpoint.Prelude.{
  ◌≡◌, refl, ap, subst, ◌∙◌, ◌⊎◌, inl, inr, ℕ, suc, ◌+◌, String, Bool, true, false, Option, none,
  some, List, [], ◌∷◌, ◌==◌, eq_iff, eq_refl, ◌||◌, ◌&&◌, not, contains, length, nat_eq, All,
  if◌then◌else◌, if-none, Bool-cases, Option-cases, arith,
}
use llm_endpoint.Prelude.Dict.{Dict, lookup, insert, lookup-insert}
use llm_endpoint.Results.{TypedFailure}
use llm_endpoint.Invocation.{InvocationPlan}
use llm_endpoint.Rollout.{
  RolloutControls, RolloutDecision, decided, stopped, suppressed_from, suppressed_endpoints,
  candidates, forced_failure, validate_forced_endpoint, decide, apply_rollout_controls,
}

-- No text stands twice.
abbrev pub Distinct : List String → Type 0
Distinct [] = Unit
Distinct (u ∷ us) = (contains u us ≡ false) × Distinct us

some-not-none : {v : String} → some v ≡ none → ⊥
some-not-none h = cc

or_false : (a b : Bool) → (a || b) ≡ false → (a ≡ false) × (b ≡ false)
or_false true b h = cc
or_false false b h = (refl, h)

or_true : (a : Bool) → (a || true) ≡ true
or_true true = refl
or_true false = refl

length-insert_new :
    (k v : String) (d : Dict String) → lookup k d ≡ none → length (insert k v d) ≡ suc (length d)
unfolding insert lookup
length-insert_new k v [] h = refl
length-insert_new k v ((j, w) ∷ d) h = elim (Bool-cases (j == k)) [
  | inl same ↦ elim (some-not-none (rw (same, lookup) at h)) [ ]
  | inr other ↦ rw (other, insert) (ap suc (length-insert_new k v d (rw (other, lookup) at h)))
]

-- the members of a list that does not hold a text stay unknown once the text is inserted
still_unknown :
    (u v : String) (d : Dict String) (us : List String)
    → contains u us ≡ false
    → All (λ w. lookup w d ≡ none) us
    → All (λ w. lookup w (insert u v d) ≡ none) us
still_unknown u v d [] absent h = tt
still_unknown u v d (w ∷ us) absent (unknown, rest) =
    let (apart, absent') = or_false (w == u) (contains u us) absent in
    (
      lookup-insert u w v d ∙ ground (arith, apart, unknown, eq_iff u w, eq_iff w u),
      still_unknown u v d us absent' rest,
    )

-- If every candidate is disabled, all of them are suppressed.
suppressed_from-All :
    (disabled us : List String) (d : Dict String)
    → Distinct us
    → All (λ w. contains w disabled ≡ true) us
    → All (λ w. lookup w d ≡ none) us
    → length (suppressed_from disabled us d) ≡ length d + length us
unfolding suppressed_from
suppressed_from-All disabled [] d distinct off unknown = omega arith
suppressed_from-All disabled (u ∷ us) d (absent, distinct) (here, off) (new, unknown) =
    let rest =
      suppressed_from-All disabled us (insert u "rollout_disabled" d) distinct off
        (still_unknown u "rollout_disabled" d us absent unknown) in
    rw (here, suppressed_from) (omega (arith, rest, length-insert_new u "rollout_disabled" d new))

-- A list has a member that is not disabled, or all are.
some_enabled :
    (disabled us : List String)
    → ((u : String) × ((contains u us ≡ true) × (contains u disabled ≡ false)))
      ⊎ All (λ w. contains w disabled ≡ true) us
some_enabled disabled [] = inr tt
some_enabled disabled (u ∷ us) = elim (Bool-cases (contains u disabled)) [
  | inr on ↦ inl (u, (rw (eq_refl u) refl, on))
  | inl off ↦ elim (some_enabled disabled us) [
    | inl (w, (member, on)) ↦ inl (w, (rw member (or_true (u == w)), on))
    | inr rest ↦ inr (off, rest)
  ]
]

either_way : {o : Option String} (b : Bool) → (if b && true then o else o) ≡ o
either_way true = refl
either_way false = refl

never_there :
    {o : Option String} (b : Bool) → (if b && false then some "rollout_disabled" else o) ≡ o
never_there true = refl
never_there false = refl

inserted_member :
    (disabled us : List String) (d : Dict String) (u w : String)
    → contains u disabled ≡ true
    → (if contains w us && contains w disabled
        then some "rollout_disabled"
        else lookup w (insert u "rollout_disabled" d))
      ≡ (if contains w (u ∷ us) && contains w disabled then some "rollout_disabled" else lookup w d)
inserted_member disabled us d u w off = elim (Bool-cases (u == w)) [
  | inl same ↦
      rw
        (
          lookup-insert u w "rollout_disabled" d,
          same,
          subst (λ t. contains t disabled ≡ true) ((eq_iff u w).0 same) off,
        )
        (either_way (contains w us))
  | inr other ↦ rw (lookup-insert u w "rollout_disabled" d, other) refl
]

kept_member :
    (disabled us : List String) (d : Dict String) (u w : String)
    → contains u disabled ≡ false
    → (if contains w us && contains w disabled then some "rollout_disabled" else lookup w d)
      ≡ (if contains w (u ∷ us) && contains w disabled then some "rollout_disabled" else lookup w d)
kept_member disabled us d u w on = elim (Bool-cases (u == w)) [
  | inl same ↦
      rw (same, subst (λ t. contains t disabled ≡ false) ((eq_iff u w).0 same) on)
        (never_there (contains w us))
  | inr other ↦ rw other refl
]

none_known : (us : List String) → All (λ w. lookup {V = String} w [] ≡ none) us
unfolding lookup
none_known [] = tt
none_known (u ∷ us) = (refl, none_known us)

none-not-some : {v : String} → none ≡ some v → ⊥
none-not-some h = cc

some-injective : {v w : String} → some v ≡ some w → v ≡ w
some-injective h = cc

not-false : (b : Bool) → not b ≡ false → b ≡ true
not-false true h = refl
not-false false h = cc

not_decided : {W : Type 0} {f : TypedFailure} {d : RolloutDecision W} → stopped f ≡ decided d → ⊥
not_decided h = cc

decided-injective : {W : Type 0} {c d : RolloutDecision W} → decided c ≡ decided d → c ≡ d
decided-injective h = cc

equal_lengths : (m n : ℕ) → nat_eq m n ≡ false → m ≡ 0 + n → ⊥
equal_lengths m n h k = ground arith

suppressed_from-lookup :
    (disabled us : List String) (d : Dict String) (w : String)
    → lookup w (suppressed_from disabled us d)
      ≡ (if contains w us && contains w disabled then some "rollout_disabled" else lookup w d)
unfolding suppressed_from
suppressed_from-lookup disabled [] d w = refl
suppressed_from-lookup disabled (u ∷ us) d w = elim (Bool-cases (contains u disabled)) [
  | inl off ↦
      rw (off, suppressed_from)
        (suppressed_from-lookup disabled us (insert u "rollout_disabled" d) w
          ∙ inserted_member disabled us d u w off)
  | inr on ↦
      rw (on, suppressed_from)
        (suppressed_from-lookup disabled us d w ∙ kept_member disabled us d u w on)
]

module _ {W : Type 0} (plan : InvocationPlan W) (controls : RolloutControls) where
  -- A decision: a forced endpoint is a candidate and forced in test mode only; the suppressed endpoints are the
  -- disabled candidates; and one candidate at least is not disabled.
  pub record IsDecision (d : RolloutDecision W) : Type 0 where
    pub plan_of : d.plan ≡ candidates plan controls.forced_endpoint_uid
    pub forced :
        (uid : String)
        → controls.forced_endpoint_uid ≡ some uid
        → (controls.test_mode ≡ true) × (contains uid plan.endpoint_uids ≡ true)
    pub suppressed :
        (uid : String)
        → lookup uid d.suppressed_endpoint_reasons ≡ (
            if contains uid d.plan.endpoint_uids && contains uid controls.disabled_endpoint_uids
            then some "rollout_disabled"
            else none)
    pub enabled :
        (uid : String) × ((contains uid d.plan.endpoint_uids ≡ true)
          × (contains uid controls.disabled_endpoint_uids ≡ false))

  forced_failure-none :
      (test_mode : Bool) (o : Option String)
      → forced_failure plan test_mode o ≡ none
      → (uid : String) → o ≡ some uid
      → (test_mode ≡ true) × (contains uid plan.endpoint_uids ≡ true)
  unfolding forced_failure
  forced_failure-none test_mode none h uid same = elim (none-not-some same) [ ]
  forced_failure-none test_mode (some u) h uid same =
      let (mode, rest) = if-none (not test_mode) _ _ h in
      let (known, _) = if-none (not (contains u plan.endpoint_uids)) _ _ rest in
      (
        not-false test_mode mode,
        subst (λ t. contains t plan.endpoint_uids ≡ true) (some-injective same)
            (not-false (contains u plan.endpoint_uids) known),
      )

  candidates-Distinct :
      (o : Option String) → Distinct plan.endpoint_uids → Distinct (candidates plan o).endpoint_uids
  candidates-Distinct none h = h
  candidates-Distinct (some uid) h = (refl, tt)

  decide-IsDecision :
      (effective : InvocationPlan W) (d : RolloutDecision W)
      → validate_forced_endpoint plan controls ≡ none
      → effective ≡ candidates plan controls.forced_endpoint_uid
      → Distinct effective.endpoint_uids
      → decide plan controls effective
          (suppressed_endpoints controls.disabled_endpoint_uids effective.endpoint_uids)
        ≡ decided d
      → IsDecision d
  unfolding decide suppressed_endpoints validate_forced_endpoint lookup
  decide-IsDecision effective d allowed same distinct h =
      let uids = effective.endpoint_uids in
      let disabled = controls.disabled_endpoint_uids in
      elim (Bool-cases (nat_eq (length (suppressed_from disabled uids [])) (length uids))) [
        | inl all ↦ elim (not_decided (rw (all, decide) at h)) [ ]
        | inr some_left ↦
            subst IsDecision (decided-injective (rw (some_left, decide) at h)) (record {
              plan_of = same;
              forced = forced_failure-none controls.test_mode controls.forced_endpoint_uid allowed;
              suppressed = λ uid. suppressed_from-lookup disabled uids [] uid;
              enabled = elim (some_enabled disabled uids) [
                | inl found ↦ found
                | inr off ↦
                    elim (equal_lengths (length (suppressed_from disabled uids [])) (length uids)
                      some_left
                      (suppressed_from-All disabled uids [] distinct off (none_known uids))) [ ]
              ];
            })
      ]

  -- If no candidate of a plan stands twice, a decision leaves a candidate that is not disabled, suppresses exactly
  -- the disabled ones, and forces a candidate in test mode only.
  pub apply_rollout_controls-IsDecision :
      (d : RolloutDecision W)
      → Distinct plan.endpoint_uids
      → apply_rollout_controls plan controls ≡ decided d
      → IsDecision d
  unfolding apply_rollout_controls
  apply_rollout_controls-IsDecision d distinct h =
      elim (Option-cases (validate_forced_endpoint plan controls)) [
        | inl allowed ↦
            decide-IsDecision (candidates plan controls.forced_endpoint_uid) d allowed refl
              (candidates-Distinct controls.forced_endpoint_uid distinct)
              (rw (allowed, apply_rollout_controls) at h)
        | inr (f, wrong) ↦ elim (not_decided (rw (wrong, apply_rollout_controls) at h)) [ ]
      ]
