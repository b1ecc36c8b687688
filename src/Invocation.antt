-- ===== src/Invocation.antt =====
-- invocation.py: requests and plans. `W` is the state of the world outside the package, which a host's
-- cancellation token reads, and may change.
pub mod Requests
pub mod Planning
use llm_endpoint.Prelude.{String, Bool, Option, List}
use llm_endpoint.Prelude.Text.{truthy}
use llm_endpoint.Prelude.Int.{ℤ, pos, leb_ℤ}
use llm_endpoint.Prelude.Dict.{Dict}
use llm_endpoint.Prelude.Outcome.{Result, ok, Error, require, Call, ◌>>◌}
use llm_endpoint.Values.{Value}
use llm_endpoint.Policy.{CallerPolicyOverrides, EffectiveRuntimeConfig}
use llm_endpoint.Telemetry.{TelemetryEvent}
use mathlib.Core.Bool.{not}

-- `is_cancelled` of a token; it may raise
abbrev pub CancellationToken : Type 0 → Type 0
CancellationToken W = W → Call Bool × W

pub record InvocationRequest (W : Type 0) : Type 0 where
  pub role : String
  pub operation_ref : String
  pub messages : List Value
  pub deadline_ms : ℤ
  pub schema_contract_ref : Option String
  pub caller_overrides : Option CallerPolicyOverrides
  pub request_metadata : Dict String
  pub operation_invocation_id : Option String
  pub cancellation_token : Option (CancellationToken W)

pub record InvocationPlan (W : Type 0) : Type 0 where
  pub operation_invocation_id : String
  pub role : String
  pub operation_ref : String
  pub endpoint_uids : List String
  pub messages : List Value
  pub deadline_ms : ℤ
  pub effective_config : EffectiveRuntimeConfig
  pub config_identity : String
  pub policy_fingerprint : String
  pub schema_contract_ref : Option String
  pub request_metadata : Dict String
  pub cancellation_token : Option (CancellationToken W)
  pub telemetry : List TelemetryEvent

-- `InvocationPlan(…)`
unfoldable pub invocation_plan : {W : Type 0} → InvocationPlan W → Result (InvocationPlan W)
invocation_plan p = do
  require (truthy p.operation_invocation_id)
      (Error.value_error "operation_invocation_id is required")
  require (not (leb_ℤ p.deadline_ms (pos 0))) (Error.value_error "deadline_ms must be positive")
  ok p
