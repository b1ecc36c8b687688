-- ===== src/RoleHealth.antt =====
-- role_health.py: the health of a role's candidates, as an operator reports it.
pub mod Available
pub mod Degraded
use Prim.Native.String.{◌++◌ as ◌+++◌}
use llm_endpoint.Prelude.{
  ℕ, suc, String, Bool, true, false, Option, none, some, List, [], ◌∷◌, ◌++◌, ◌==◌, ◌&&◌, not, all,
  contains, length, ltb, nat_eq, map, if◌then◌else◌,
}
use llm_endpoint.Prelude.Text.{nat_str}
use llm_endpoint.Prelude.Dict.{Dict, lookup}
use llm_endpoint.Prelude.Sort.{sort_by, sort_texts}
use llm_endpoint.Prelude.Outcome.{Result, ok, raise, Error, ◌>>=◌}
use llm_endpoint.Telemetry.{
  TelemetryEvent, TelemetryEventFamily, RedactionStatus, telemetry_event, event_context,
}
use llm_endpoint.Config.{
  FormatValue, member, raw, format_value, EndpointConfig, Registry, ResolvedRole,
}
use llm_endpoint.Config.Building.{resolve_role}

pub data RoleHealthState : Type 0 where
  available degraded fallback_only missing_secret failing_smoke uncertified suppressed unavailable :
      RoleHealthState

-- `.value`
unfoldable pub health_state_value : RoleHealthState → String
health_state_value RoleHealthState.available = "available"
health_state_value RoleHealthState.degraded = "degraded"
health_state_value RoleHealthState.fallback_only = "fallback_only"
health_state_value RoleHealthState.missing_secret = "missing_secret"
health_state_value RoleHealthState.failing_smoke = "failing_smoke"
health_state_value RoleHealthState.uncertified = "uncertified"
health_state_value RoleHealthState.suppressed = "suppressed"
health_state_value RoleHealthState.unavailable = "unavailable"

pub record EndpointHealth : Type 0 where
  pub endpoint_uid : String
  pub state : RoleHealthState
  pub reasons : List String

pub record RoleHealthReport : Type 0 where
  pub role : String
  pub state : RoleHealthState
  pub endpoint_health : List EndpointHealth
  pub reasons : List String
  pub telemetry : List TelemetryEvent

-- What the operator knows of the endpoints. A frozenset is the list of its members; of the adapters
-- only the keys are read.
pub record HealthInputs : Type 0 where
  pub adapters : List String
  pub suppressed_endpoint_reasons : Dict String
  pub missing_secret_refs : List String
  pub failing_smoke_endpoint_uids : List String
  pub uncertified_endpoint_uids : List String

-- the numbers of `_more_severe`; the states that are not in its table raise a KeyError
unfoldable pub severity : RoleHealthState → Option ℕ
severity RoleHealthState.available = some 0
severity RoleHealthState.suppressed = some 1
severity RoleHealthState.uncertified = some 2
severity RoleHealthState.failing_smoke = some 3
severity RoleHealthState.missing_secret = some 4
severity RoleHealthState.unavailable = some 5
severity _ = none

unfoldable pub more_severe : RoleHealthState → RoleHealthState → Result RoleHealthState
unfolding severity
more_severe current candidate = elim (severity candidate) [
  | none ↦ raise (Error.key_error "severity")
  | some c ↦ elim (severity current) [
    | none ↦ raise (Error.key_error "severity")
    | some n ↦ ok (if ltb n c then candidate else current)
  ]
]

-- `state is candidate`
abbrev pub is_state : RoleHealthState → RoleHealthState → Bool
is_state s t = health_state_value s == health_state_value t

-- a reason and its state, where the condition holds
note :
    Bool
    → String
    → RoleHealthState
    → RoleHealthState × List String
    → Result (RoleHealthState × List String)
unfolding more_severe
note false reason candidate found = ok found
note true reason candidate (state, reasons) =
    more_severe state candidate >>= λ worse. ok (worse, reasons ++ reason ∷ [])

-- `f not in adapters and f.value not in adapters`: a member and its value are one key, and text has no `value`.
unregistered : List String → FormatValue → Result Bool
unfolding format_value
unregistered adapters (member f) = ok (not (contains (format_value f) adapters))
unregistered adapters (raw t) =
    if contains t adapters
    then ok false
    else raise (Error.attribute_error "'str' object has no attribute 'value'")

-- the reason of a suppression, where there is one
note_suppressed :
    Option String → RoleHealthState × List String → Result (RoleHealthState × List String)
unfolding note
note_suppressed none found = ok found
note_suppressed (some reason) found =
    note true ("suppressed:" +++ reason) RoleHealthState.suppressed found

-- the state and the reasons of an endpoint, from what is known of its adapter on
found_health :
    HealthInputs → String → EndpointConfig → Bool → Result (RoleHealthState × List String)
unfolding note note_suppressed lookup
found_health inputs uid e is_missing = do
  start ←
      note is_missing "adapter_unregistered" RoleHealthState.unavailable
        (RoleHealthState.available, [])
  secret ←
      note (contains e.credential_ref inputs.missing_secret_refs) "missing_secret"
        RoleHealthState.missing_secret start
  smoke ←
      note (contains uid inputs.failing_smoke_endpoint_uids) "failing_smoke"
        RoleHealthState.failing_smoke secret
  certified ←
      note (contains uid inputs.uncertified_endpoint_uids) "uncertified" RoleHealthState.uncertified
        smoke
  note_suppressed (lookup uid inputs.suppressed_endpoint_reasons) certified

-- `_endpoint_health`
unfoldable pub endpoint_health : Registry → HealthInputs → String → Result EndpointHealth
unfolding lookup unregistered found_health sort_by
endpoint_health registry inputs uid = elim (lookup uid registry.endpoints_by_uid) [
  | none ↦ raise (Error.key_error uid)
  | some e ↦ unregistered inputs.adapters e.provider_format >>= λ is_missing.
      found_health inputs uid e is_missing >>= λ found.
      ok (record { endpoint_uid = uid; state = found.0; reasons = sort_texts found.1 })
]

-- the health of each candidate, in order
endpoints_health : Registry → HealthInputs → List String → Result (List EndpointHealth)
unfolding endpoint_health
endpoints_health registry inputs [] = ok []
endpoints_health registry inputs (uid ∷ uids) = endpoint_health registry inputs uid >>= λ h.
    endpoints_health registry inputs uids >>= λ hs. ok (h ∷ hs)

-- `states.count(AVAILABLE)`
unfoldable pub available_count : List EndpointHealth → ℕ
unfolding health_state_value
available_count [] = 0
available_count (h ∷ hs) =
    if is_state h.state RoleHealthState.available
    then suc (available_count hs)
    else available_count hs

-- whether the last endpoint is available
last_available : List EndpointHealth → Bool
unfolding health_state_value
last_available [] = false
last_available (h ∷ []) = is_state h.state RoleHealthState.available
last_available (h ∷ k ∷ hs) = last_available (k ∷ hs)

-- the first candidate that is every endpoint's state
common_state : List RoleHealthState → List EndpointHealth → RoleHealthState
unfolding health_state_value
common_state [] hs = RoleHealthState.unavailable
common_state (s ∷ candidates) hs =
    let later = common_state candidates hs in if all (λ h. is_state h.state s) hs then s else later

-- `_role_state`
unfoldable pub role_state : List EndpointHealth → RoleHealthState
unfolding available_count last_available common_state health_state_value
role_state [] = RoleHealthState.unavailable
role_state (h ∷ hs) =
    let count = available_count (h ∷ hs) in
    if nat_eq count (length (h ∷ hs))
    then RoleHealthState.available
    else if ltb 0 count
    then (if nat_eq count 1 && last_available (h ∷ hs)
        then RoleHealthState.fallback_only
        else RoleHealthState.degraded)
    else common_state
        (RoleHealthState.missing_secret ∷ RoleHealthState.failing_smoke
          ∷ RoleHealthState.uncertified ∷ RoleHealthState.suppressed ∷ [])
        (h ∷ hs)

-- a set of texts with more texts
add_texts : List String → List String → List String
add_texts [] seen = seen
add_texts (t ∷ ts) seen = add_texts ts (if contains t seen then seen else t ∷ seen)

reason_set : List EndpointHealth → List String → List String
unfolding add_texts
reason_set [] seen = seen
reason_set (h ∷ hs) seen =
    reason_set hs
      (add_texts (map (λ (reason : String). h.endpoint_uid +++ (":" +++ reason)) h.reasons) seen)

-- `_role_reasons`
unfoldable pub role_reasons : List EndpointHealth → List String
unfolding reason_set
role_reasons hs = sort_texts (reason_set hs [])

-- `_report`
unfoldable pub report :
    String → RoleHealthState → List EndpointHealth → List String → String → Result RoleHealthReport
unfolding health_state_value nat_str
report role state healths reasons invocation_id =
    telemetry_event TelemetryEventFamily.role_health
      (record (event_context invocation_id) { role = some role })
      (("state", health_state_value state)
        ∷ ("endpoint_count", nat_str (length healths))
        ∷ ("reason_count", nat_str (length reasons))
        ∷ ("role_health_version", "v1")
        ∷ [])
      none RedactionStatus.redacted
    >>= λ event. ok (record {
      role = role;
      state = state;
      endpoint_health = healths;
      reasons = reasons;
      telemetry = event ∷ [];
    })

-- from the role's resolution on
report_for :
    Registry → String → HealthInputs → String → Result ResolvedRole → Result RoleHealthReport
unfolding endpoints_health role_state role_reasons report
report_for registry role inputs invocation_id (ok resolved) =
    endpoints_health registry inputs resolved.endpoint_uids >>= λ healths.
    report role (role_state healths) healths (role_reasons healths) invocation_id
report_for registry role inputs invocation_id (raise (Error.key_error message)) =
    report role RoleHealthState.unavailable [] ("unknown_role" ∷ []) invocation_id
report_for registry role inputs invocation_id (raise e) = raise e

unfoldable pub evaluate_role_health :
    Registry → String → HealthInputs → String → Result RoleHealthReport
unfolding report_for resolve_role
evaluate_role_health registry role inputs invocation_id =
    report_for registry role inputs invocation_id (resolve_role registry role)
