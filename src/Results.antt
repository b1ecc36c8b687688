-- ===== src/Results.antt =====
-- results.py: typed terminal results. Elapsed times are numbers that are not negative, so the sign tests of
-- the source's `__post_init__` methods hold by type; the test itself is made where a time comes in from a
-- host's adapter (Adapters.provider_outcome).
mod Codes
pub mod Classified
pub mod About
pub use Codes.{Retryability, FailureClass, FailureCode}
unfoldable pub use Codes.{
  retryability_value, failure_class_value, failure_code_value, retryability_by_code,
  failure_class_by_code,
}
use llm_endpoint.Prelude.{
  ℕ, String, Bool, true, false, Option, none, some, List, [], ◌||◌, not, value_or, if◌then◌else◌,
}
use llm_endpoint.Prelude.Text.{truthy, truthy_opt}
use llm_endpoint.Prelude.Dict.{Dict}
use llm_endpoint.Prelude.Outcome.{Result, ok, raise, Error}
use llm_endpoint.Values.{Fields}

pub record SafeDiagnostics : Type 0 where
  pub message : String
  pub remediation_hint : Option String
  pub safe_context : Dict String

-- `attempt_trace` is the `trace_id` of the source's `AttemptTraceRef`.
pub record FailureContext : Type 0 where
  pub operation_invocation_id : String
  pub role : Option String
  pub operation_ref : Option String
  pub endpoint_uid : Option String
  pub schema_contract_ref : Option String
  pub schema_fingerprint : Option String
  pub schema_resolution_status : Option String
  pub policy_fingerprint : Option String
  pub elapsed_ms : Option ℕ
  pub attempt_trace : Option String

pub record TypedFailure : Type 0 where
  pub code : FailureCode
  pub diagnostics : SafeDiagnostics
  pub context : FailureContext
  pub retryability : Option Retryability
  pub failure_class : Option FailureClass

-- `TypedFailure(…)`, with the defaults that `__post_init__` fills in
unfoldable pub typed_failure :
    FailureCode
    → SafeDiagnostics
    → FailureContext
    → Option Retryability
    → Option FailureClass
    → TypedFailure
unfolding retryability_by_code failure_class_by_code
typed_failure code diagnostics context retryability failure_class = record {
  code = code;
  diagnostics = diagnostics;
  context = context;
  retryability = some (value_or retryability (retryability_by_code code));
  failure_class = some (value_or failure_class (failure_class_by_code code));
}

unfoldable pub is_retryable : TypedFailure → Bool
is_retryable f = elim f.retryability [
  | none ↦ false
  | some r ↦ elim r [ Retryability.retryable ↦ true | _ ↦ false ]
]

pub record StructuredResult : Type 0 where
  pub value : Fields
  pub schema_name : String
  pub schema_version : String
  pub schema_fingerprint : String
  pub operation_invocation_id : String
  pub endpoint_uid : String
  pub policy_fingerprint : String
  pub elapsed_ms : ℕ

-- `StructuredResult(…)`
unfoldable pub structured_result : StructuredResult → Result StructuredResult
structured_result r =
    if not (truthy r.schema_name)
      || not (truthy r.schema_version)
      || not (truthy r.schema_fingerprint)
    then raise (Error.value_error "structured results require schema identity")
    else ok r

pub record PlainTextResult : Type 0 where
  pub text : String
  pub operation_invocation_id : String
  pub endpoint_uid : String
  pub policy_fingerprint : String
  pub elapsed_ms : ℕ

pub data TerminalResult : Type 0 where
  structured : StructuredResult → TerminalResult
  plain_text : PlainTextResult → TerminalResult
  failed : TypedFailure → TerminalResult

-- `attempt_trace_id` is dropped if it is empty.
trace_ref : Option String → Option String
trace_ref id = if truthy_opt id then id else none

-- The arguments of `failure` that have no default; `failure` sets the rest to None.
unfoldable pub failure : FailureCode → String → FailureContext → Dict String → TypedFailure
unfolding typed_failure trace_ref
failure code message context safe_context =
    typed_failure code
      (record { message = message; remediation_hint = none; safe_context = safe_context })
      (record context { attempt_trace = trace_ref context.attempt_trace }) none none

-- `failure(…, remediation_hint=…)`
unfoldable pub failure_with_hint :
    FailureCode → String → Option String → FailureContext → Dict String → TypedFailure
unfolding typed_failure trace_ref
failure_with_hint code message hint context safe_context =
    typed_failure code
      (record { message = message; remediation_hint = hint; safe_context = safe_context })
      (record context { attempt_trace = trace_ref context.attempt_trace }) none none

-- The context of a `failure` call that names the invocation alone; calls give the other fields anew.
abbrev pub for_invocation : String → FailureContext
for_invocation id = record {
  operation_invocation_id = id;
  role = none;
  operation_ref = none;
  endpoint_uid = none;
  schema_contract_ref = none;
  schema_fingerprint = none;
  schema_resolution_status = none;
  policy_fingerprint = none;
  elapsed_ms = none;
  attempt_trace = none;
}
