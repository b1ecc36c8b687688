-- ===== src/Router.antt =====
-- router.py: the data of routing, and the small functions on it. The parts of `route_invocation` are in the
-- modules below; Router/Route puts them together.
pub mod Failures
pub mod Events
pub mod Schema
pub mod State
pub mod Budget
pub mod Before
pub mod After
pub mod Route
use Prim.Native.String.{◌++◌}
use llm_endpoint.Prelude.{
  ℕ, zero, suc, ◌+◌, String, Bool, true, false, Option, none, some, List, [], ◌∷◌, if◌then◌else◌,
}
use llm_endpoint.Prelude.Int.{ℤ}
use llm_endpoint.Prelude.Text.{nat_str}
use llm_endpoint.Results.{
  FailureCode, TypedFailure, TerminalResult, structured, plain_text, failed, is_retryable,
}
use llm_endpoint.Telemetry.{TelemetryEvent}

pub data AttemptStatus : Type 0 where
  skipped_suppressed attempted success retryable_failure terminal_failure cancelled
        late_response_discarded :
      AttemptStatus

-- `.value`
unfoldable pub attempt_status_value : AttemptStatus → String
attempt_status_value AttemptStatus.skipped_suppressed = "skipped_suppressed"
attempt_status_value AttemptStatus.attempted = "attempted"
attempt_status_value AttemptStatus.success = "success"
attempt_status_value AttemptStatus.retryable_failure = "retryable_failure"
attempt_status_value AttemptStatus.terminal_failure = "terminal_failure"
attempt_status_value AttemptStatus.cancelled = "llm.input.cancelled"
attempt_status_value AttemptStatus.late_response_discarded =
    "llm.invocation.late_response_discarded"

pub record AttemptTrace : Type 0 where
  pub trace_id : String
  pub endpoint_uid : String
  pub status : AttemptStatus
  pub candidate_budget_ms : Option ℤ
  pub elapsed_ms : Option ℕ
  pub failure_code : Option FailureCode
  pub skip_reason : Option String
  pub suppression_protected : Bool

pub record PoolRouteResult : Type 0 where
  pub terminal_result : TerminalResult
  pub attempt_traces : List AttemptTrace
  pub telemetry : List TelemetryEvent

abbrev pub is_skip : AttemptStatus → Bool
is_skip AttemptStatus.skipped_suppressed = true
is_skip _ = false

abbrev pub is_success_status : AttemptStatus → Bool
is_success_status AttemptStatus.success = true
is_success_status _ = false

-- `_attempt_count` and `_skipped_count`
unfoldable pub attempt_count : List AttemptTrace → ℕ
attempt_count [] = 0
attempt_count (t ∷ ts) = (if is_skip t.status then 0 else 1) + attempt_count ts

unfoldable pub skipped_count : List AttemptTrace → ℕ
skipped_count [] = 0
skipped_count (t ∷ ts) = (if is_skip t.status then 1 else 0) + skipped_count ts

unfoldable pub trace_id : String → String → ℕ → String
unfolding nat_str
trace_id invocation_id endpoint_uid index =
    invocation_id ++ ":" ++ nat_str index ++ ":" ++ endpoint_uid

-- `_skip_trace`
unfoldable pub skip_trace : String → String → ℕ → String → AttemptTrace
skip_trace invocation_id endpoint_uid index reason = record {
  trace_id = trace_id invocation_id endpoint_uid index;
  endpoint_uid = endpoint_uid;
  status = AttemptStatus.skipped_suppressed;
  candidate_budget_ms = none;
  elapsed_ms = none;
  failure_code = none;
  skip_reason = some reason;
  suppression_protected = false;
}

-- `_failure_attempt_status`
unfoldable pub failure_attempt_status : TypedFailure → AttemptStatus
unfolding is_retryable
failure_attempt_status f = elim f.code [
  | FailureCode.cancelled ↦ AttemptStatus.cancelled
  | FailureCode.late_response_discarded ↦ AttemptStatus.late_response_discarded
  | _ ↦ if is_retryable f then AttemptStatus.retryable_failure else AttemptStatus.terminal_failure
]

abbrev pub success_trace : String → String → ℤ → ℕ → Bool → AttemptTrace
success_trace id endpoint_uid budget elapsed protected = record {
  trace_id = id;
  endpoint_uid = endpoint_uid;
  status = AttemptStatus.success;
  candidate_budget_ms = some budget;
  elapsed_ms = some elapsed;
  failure_code = none;
  skip_reason = none;
  suppression_protected = protected;
}

-- `_attempt_trace`
unfoldable pub attempt_trace : String → String → ℤ → TerminalResult → Bool → AttemptTrace
unfolding failure_attempt_status
attempt_trace id endpoint_uid budget (failed f) protected = record {
  trace_id = id;
  endpoint_uid = endpoint_uid;
  status = failure_attempt_status f;
  candidate_budget_ms = some budget;
  elapsed_ms = f.context.elapsed_ms;
  failure_code = some f.code;
  skip_reason = none;
  suppression_protected = protected;
}
attempt_trace id endpoint_uid budget (structured r) protected =
    success_trace id endpoint_uid budget r.elapsed_ms protected
attempt_trace id endpoint_uid budget (plain_text r) protected =
    success_trace id endpoint_uid budget r.elapsed_ms protected
