-- ===== src/RoleHealth/Available.antt =====
-- When an endpoint and a role are available.
use Prim.Native.String.{◌++◌ as ◌+++◌}
use llm_endpoint.Prelude.{
  ◌≡◌, ◌≢◌, refl, sym, ap, subst, ◌∙◌, ◌↔◌, inl, inr, ℕ, suc, String, Bool, true, false, Option,
  none, some, List, [], ◌∷◌, ◌++◌, contains, all, length, ltb, nat_eq, ◌≤◌, All, if◌then◌else◌,
  Bool-cases, Option-cases, arith,
}
use mathlib.Core.List.{append-eq-nil_iff}
use llm_endpoint.Prelude.Dict.{lookup}
use llm_endpoint.Prelude.Sort.{sort_by, sort_texts, sort_by-nil}
use llm_endpoint.Prelude.Outcome.{ok, raise, Error, ok-injective, >>=-eq-ok}
use llm_endpoint.Config.{EndpointConfig, Registry}
use llm_endpoint.RoleHealth.{
  RoleHealthState, health_state_value, EndpointHealth, HealthInputs, severity, more_severe,
  is_state, note, unregistered, note_suppressed, found_health, endpoint_health, available_count,
  common_state, role_state,
}

severity_zero : (s : RoleHealthState) → severity s ≡ some 0 → s ≡ RoleHealthState.available
unfolding severity
severity_zero RoleHealthState.available h = refl
severity_zero RoleHealthState.degraded h = cc
severity_zero RoleHealthState.fallback_only h = cc
severity_zero RoleHealthState.missing_secret h = cc
severity_zero RoleHealthState.failing_smoke h = cc
severity_zero RoleHealthState.uncertified h = cc
severity_zero RoleHealthState.suppressed h = cc
severity_zero RoleHealthState.unavailable h = cc

true-not-false : true ≡ false → ⊥
true-not-false h = cc

none-not-some : {n : ℕ} → none ≡ some n → ⊥
none-not-some h = cc

some-injective : {m n : ℕ} → some m ≡ some n → m ≡ n
some-injective h = cc

raise-not-ok : {A : Type 0} {e : Error} {a : A} → raise e ≡ ok a → ⊥
raise-not-ok h = cc

not_below_zero : (n : ℕ) → ltb 0 n ≡ false → n ≡ 0
not_below_zero n h = ground arith

-- A state that is made worse by another one that is not available is not available.
worse_not_available :
    (current candidate worse : RoleHealthState)
    → candidate ≢ RoleHealthState.available
    → more_severe current candidate ≡ ok worse
    → worse ≢ RoleHealthState.available
unfolding more_severe severity
worse_not_available current candidate worse bad h fine = elim (Option-cases (severity candidate)) [
  | inl missing ↦ raise-not-ok (rw (missing, more_severe) at h)
  | inr (c, at_c) ↦ elim (Option-cases (severity current)) [
    | inl missing ↦ raise-not-ok (rw (at_c, missing, more_severe) at h)
    | inr (n, at_n) ↦ elim (Bool-cases (ltb n c)) [
      | inl above ↦ bad (ok-injective (rw (at_c, at_n, above, more_severe) at h) ∙ fine)
      | inr below ↦
          let now = ok-injective (rw (at_c, at_n, below, more_severe) at h) in
          let least =
            subst (λ m. ltb m c ≡ false) (some-injective (sym at_n ∙ ap severity (now ∙ fine)))
              below in
          bad (severity_zero candidate (at_c ∙ ap some (not_below_zero c least)))
    ]
  ]
]

not_empty : (reasons : List String) (reason : String) → reasons ++ reason ∷ [] ≡ [] → ⊥
not_empty reasons reason h = cons-not-nil (append-eq-nil_iff.0 h).1
  where
    cons-not-nil : reason ∷ [] ≡ [] → ⊥
    cons-not-nil k = cc

-- A state is available exactly if there is no reason against it.
abbrev pub IsBlameless : RoleHealthState → List String → Type 0
IsBlameless state reasons = (state ≡ RoleHealthState.available) ↔ (reasons ≡ [])

note-IsBlameless :
    (b : Bool) (reason : String) (candidate : RoleHealthState)
    (found after : RoleHealthState × List String)
    → candidate ≢ RoleHealthState.available
    → note b reason candidate found ≡ ok after
    → IsBlameless found.0 found.1
    → IsBlameless after.0 after.1
unfolding note
note-IsBlameless false reason candidate found after bad h fine =
    subst (λ (f : RoleHealthState × List String). IsBlameless f.0 f.1) (ok-injective h) fine
note-IsBlameless true reason candidate (state, reasons) after bad h fine =
    let (worse, at_worse, h₁) = >>=-eq-ok (more_severe state candidate) _ h in
    subst (λ (f : RoleHealthState × List String). IsBlameless f.0 f.1) (ok-injective h₁)
      (
        λ same. elim (worse_not_available state candidate worse bad at_worse same) [ ],
        λ empty. elim (not_empty reasons reason empty) [ ],
      )

note_suppressed-IsBlameless :
    (o : Option String) (found after : RoleHealthState × List String)
    → note_suppressed o found ≡ ok after
    → IsBlameless found.0 found.1
    → IsBlameless after.0 after.1
unfolding note_suppressed
note_suppressed-IsBlameless none found after h fine =
    subst (λ (f : RoleHealthState × List String). IsBlameless f.0 f.1) (ok-injective h) fine
note_suppressed-IsBlameless (some reason) found after h fine =
    note-IsBlameless true ("suppressed:" +++ reason) RoleHealthState.suppressed found after
      (λ k. cc) h fine

found_health-IsBlameless :
    (inputs : HealthInputs) (uid : String) (e : EndpointConfig) (is_missing : Bool)
    (after : RoleHealthState × List String)
    → found_health inputs uid e is_missing ≡ ok after
    → IsBlameless after.0 after.1
unfolding found_health
found_health-IsBlameless inputs uid e is_missing after h =
    let (start, h₁, k₁) =
      >>=-eq-ok
        (note is_missing "adapter_unregistered" RoleHealthState.unavailable
          (RoleHealthState.available, []))
        _ h in
    let (secret, h₂, k₂) =
      >>=-eq-ok
        (note (contains e.credential_ref inputs.missing_secret_refs) "missing_secret"
          RoleHealthState.missing_secret start)
        _ k₁ in
    let (smoke, h₃, k₃) =
      >>=-eq-ok
        (note (contains uid inputs.failing_smoke_endpoint_uids) "failing_smoke"
          RoleHealthState.failing_smoke secret)
        _ k₂ in
    let (certified, h₄, k₄) =
      >>=-eq-ok
        (note (contains uid inputs.uncertified_endpoint_uids) "uncertified"
          RoleHealthState.uncertified smoke)
        _ k₃ in
    note_suppressed-IsBlameless (lookup uid inputs.suppressed_endpoint_reasons) certified after k₄ (
      note-IsBlameless _ _ RoleHealthState.uncertified smoke certified (λ k. cc) h₄
        (note-IsBlameless _ _ RoleHealthState.failing_smoke secret smoke (λ k. cc) h₃
          (note-IsBlameless _ _ RoleHealthState.missing_secret start secret (λ k. cc) h₂
            (note-IsBlameless _ _ RoleHealthState.unavailable (RoleHealthState.available, []) start
              (λ k. cc) h₁ (λ k. refl, λ k. refl)))))

sort_texts-nil : (ts : List String) → (sort_texts ts ≡ []) ↔ (ts ≡ [])
unfolding sort_by
sort_texts-nil ts = (sort_by-nil (λ t. t) ts, λ h. ap sort_texts h)

-- An endpoint whose health is found is available exactly if there is no reason against it.
pub endpoint_health-IsBlameless :
    (registry : Registry) (inputs : HealthInputs) (uid : String) (h : EndpointHealth)
    → endpoint_health registry inputs uid ≡ ok h
    → IsBlameless h.state h.reasons
unfolding endpoint_health
endpoint_health-IsBlameless registry inputs uid h found =
    elim (Option-cases (lookup uid registry.endpoints_by_uid)) [
      | inl missing ↦ elim (raise-not-ok (rw (missing, endpoint_health) at found)) [ ]
      | inr (e, listed) ↦
          let (is_missing, _, h₁) =
            >>=-eq-ok (unregistered inputs.adapters e.provider_format) _
              (rw (listed, endpoint_health) at found) in
          let (after, made, h₂) = >>=-eq-ok (found_health inputs uid e is_missing) _ h₁ in
          let fine = found_health-IsBlameless inputs uid e is_missing after made in
          subst (λ (h : EndpointHealth). IsBlameless h.state h.reasons) (ok-injective h₂)
            (λ k. (sort_texts-nil after.1).1 (fine.0 k), λ k. fine.1 ((sort_texts-nil after.1).0 k))
    ]

pub same_state :
    (s : RoleHealthState)
    → (is_state s RoleHealthState.available ≡ true) ↔ (s ≡ RoleHealthState.available)
unfolding health_state_value
same_state RoleHealthState.available = (λ h. refl, λ h. refl)
same_state RoleHealthState.degraded = (λ h. cc, λ h. cc)
same_state RoleHealthState.fallback_only = (λ h. cc, λ h. cc)
same_state RoleHealthState.missing_secret = (λ h. cc, λ h. cc)
same_state RoleHealthState.failing_smoke = (λ h. cc, λ h. cc)
same_state RoleHealthState.uncertified = (λ h. cc, λ h. cc)
same_state RoleHealthState.suppressed = (λ h. cc, λ h. cc)
same_state RoleHealthState.unavailable = (λ h. cc, λ h. cc)

abbrev pub IsAvailable : EndpointHealth → Type 0
IsAvailable h = h.state ≡ RoleHealthState.available

available_count-le : (hs : List EndpointHealth) → available_count hs ≤ length hs
unfolding available_count
available_count-le [] = omega arith
available_count-le (h ∷ hs) = elim (Bool-cases (is_state h.state RoleHealthState.available)) [
  | inl so ↦ rw (so, available_count) (omega (arith, available_count-le hs))
  | inr other ↦ rw (other, available_count) (omega (arith, available_count-le hs))
]

suc-injective : (m n : ℕ) → suc m ≡ suc n → m ≡ n
suc-injective m n h = omega arith

too_many : (m n : ℕ) → m ≤ n → m ≡ suc n → ⊥
too_many m n h k = omega arith

-- All are counted exactly if all are available.
pub available_count-All :
    (hs : List EndpointHealth) → (available_count hs ≡ length hs) ↔ All IsAvailable hs
unfolding available_count
available_count-All [] = (λ h. tt, λ h. refl)
available_count-All (h ∷ hs) = elim (Bool-cases (is_state h.state RoleHealthState.available)) [
  | inl so ↦
      rw (so, available_count)
        (
          λ k. (
            (same_state h.state).0 so,
            (available_count-All hs).0 (suc-injective (available_count hs) (length hs) k),
          ),
          λ (k, ks). ap suc ((available_count-All hs).1 ks),
        )
  | inr other ↦
      rw (other, available_count)
        (
          λ k. elim (too_many (available_count hs) (length hs) (available_count-le hs) k) [ ],
          λ (k, ks). elim (true-not-false (sym ((same_state h.state).1 k) ∙ other)) [ ],
        )
]

common_state-not-available :
    (candidates : List RoleHealthState) (hs : List EndpointHealth)
    → All (λ s. s ≢ RoleHealthState.available) candidates
    → common_state candidates hs ≢ RoleHealthState.available
unfolding common_state
common_state-not-available [] hs h k = cc
common_state-not-available (s ∷ candidates) hs (here, there) k =
    elim (Bool-cases (all (λ (h : EndpointHealth). is_state h.state s) hs)) [
      | inl so ↦ here (rw (so, common_state) at k)
      | inr other ↦ common_state-not-available candidates hs there (rw (other, common_state) at k)
    ]

pub counted : (m n : ℕ) → nat_eq m n ≡ true → m ≡ n
counted m n h = ground arith

uncounted : (m n : ℕ) → nat_eq m n ≡ false → m ≢ n
uncounted m n h k = ground arith

worse_state :
    (hs : List EndpointHealth) (some_available only_last : Bool)
    → (if some_available
        then (if only_last then RoleHealthState.fallback_only else RoleHealthState.degraded)
        else common_state
            (RoleHealthState.missing_secret ∷ RoleHealthState.failing_smoke
              ∷ RoleHealthState.uncertified ∷ RoleHealthState.suppressed ∷ [])
            hs)
      ≢ RoleHealthState.available
worse_state hs true true k = cc
worse_state hs true false k = cc
worse_state hs false b k =
    common_state-not-available _ hs (λ k. cc, (λ k. cc, (λ k. cc, (λ k. cc, tt)))) k

-- A role is available exactly if it has an endpoint and all of them are available.
pub role_state-available :
    (hs : List EndpointHealth)
    → (role_state hs ≡ RoleHealthState.available) ↔ ((hs ≢ []) × All IsAvailable hs)
unfolding role_state
role_state-available [] = (λ h. cc, λ (some_h, _). elim (some_h refl) [ ])
role_state-available (h ∷ hs) =
    elim (Bool-cases (nat_eq (available_count (h ∷ hs)) (length (h ∷ hs)))) [
      | inl so ↦
          rw (so, role_state)
            (
              λ k. (
                (λ e. cc),
                (available_count-All (h ∷ hs)).0
                    (counted (available_count (h ∷ hs)) (length (h ∷ hs)) so),
              ),
              λ k. refl,
            )
      | inr other ↦
          rw (other, role_state)
            (
              λ k. elim (worse_state (h ∷ hs) _ _ k) [ ],
              λ (_, ks).
                  elim (uncounted (available_count (h ∷ hs)) (length (h ∷ hs)) other
                    ((available_count-All (h ∷ hs)).1 ks)) [ ],
            )
    ]
