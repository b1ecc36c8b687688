-- ===== src/Router/State.antt =====
-- router.py: the variables of `route_invocation`'s loop, and what one candidate decides. A decision is the
-- events to emit, in order, and how the loop goes on.
use llm_endpoint.Prelude.{ℕ, String, Bool, Option, List}
use llm_endpoint.Prelude.Dict.{Dict}
use llm_endpoint.Prelude.Outcome.{Result}
use llm_endpoint.Results.{TypedFailure, TerminalResult}
use llm_endpoint.Callbacks.{SchemaContract, SecretResolver}
use llm_endpoint.Config.{Registry}
use llm_endpoint.Telemetry.{TelemetryEvent}
use llm_endpoint.Adapters.{AdapterInvocationPlan, ProviderAdapter}
use llm_endpoint.Invocation.{InvocationPlan}
use llm_endpoint.Router.{AttemptTrace}

-- the arguments of `route_invocation` that the loop reads, with the resolved schema
pub record Setup (W : Type 0) : Type 0 where
  pub plan : InvocationPlan W
  pub registry : Registry
  pub adapters : Dict (ProviderAdapter W)
  pub secret_resolver : Option (SecretResolver W)
  pub suppressed : Dict String
  pub schema : Option SchemaContract

-- the variables of the loop
pub record LoopState : Type 0 where
  pub traces : List AttemptTrace
  pub attempted : ℕ
  pub elapsed_total_ms : ℕ
  pub last_retryable_failure : Option TypedFailure

-- `return`, `continue` with the next candidate, and `break`
pub data Move : Type 0 where
  finish : TerminalResult → List AttemptTrace → Move
  advance : LoopState → Move
  leave : LoopState → Move

pub record Verdict : Type 0 where
  pub events : List (Result TelemetryEvent)
  pub move : Move

pub record Attempt (W : Type 0) : Type 0 where
  pub endpoint_uid : String
  pub adapter_plan : AdapterInvocationPlan
  pub adapter : ProviderAdapter W
  pub trace_id : String
  pub protected : Bool

pub data Before (W : Type 0) : Type 0 where
  verdict : Verdict → Before W
  attempt : Attempt W → Before W
