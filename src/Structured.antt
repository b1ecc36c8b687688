-- ===== src/Structured.antt =====
-- structured.py: extraction and validation of structured output.
pub mod JsonSchema
pub mod Delivered
pub mod Outcomes
use llm_endpoint.Prelude.{
  ℕ, String, Bool, true, false, Option, none, some, List, [], ◌∷◌, ◌++◌, ◌==◌, not, if◌then◌else◌,
}
use llm_endpoint.Prelude.Text.{or_else}
use llm_endpoint.Prelude.Dict.{Dict, update, insert}
use llm_endpoint.Prelude.Outcome.{Result, ok, raise, Call, returned, raised, ◌>>=◌}
use llm_endpoint.Values.{Fields}
use llm_endpoint.Results.{
  FailureCode, FailureContext, TypedFailure, TerminalResult, structured, failed, failure,
  for_invocation, structured_result, StructuredResult,
}
use llm_endpoint.Callbacks.{SchemaContract}
use llm_endpoint.Config.{StructuredOutputMode, output_mode_value}
use llm_endpoint.Adapters.{ProviderOutcome, ProviderSuccessPayload, Content}
use llm_endpoint.Structured.JsonSchema.{matches_json_schema}

pub record StructuredOutputContext : Type 0 where
  pub operation_invocation_id : String
  pub endpoint_uid : String
  pub policy_fingerprint : String
  pub elapsed_ms : ℕ
  pub schema : SchemaContract
  pub mode : StructuredOutputMode
  pub role : Option String
  pub operation_ref : Option String
  pub attempt_trace_id : Option String

unfoldable pub schema_context : SchemaContract → Dict String
schema_context s =
    ("schema_ref", s.ref)
    ∷ ("schema_name", s.name)
    ∷ ("schema_version", s.version)
    ∷ ("schema_fingerprint", s.fingerprint)
    ∷ []

-- the context of every failure of this module, `_schema_failure_identity` included
abbrev pub structured_failure_context : StructuredOutputContext → FailureContext
structured_failure_context c = record (for_invocation c.operation_invocation_id) {
  role = c.role;
  operation_ref = c.operation_ref;
  endpoint_uid = some c.endpoint_uid;
  schema_contract_ref = some c.schema.ref;
  schema_fingerprint = some c.schema.fingerprint;
  policy_fingerprint = some c.policy_fingerprint;
  elapsed_ms = some c.elapsed_ms;
  attempt_trace = c.attempt_trace_id;
}

unfoldable pub invalid_payload : StructuredOutputContext → String → Dict String → TypedFailure
unfolding failure
invalid_payload c message safe_context =
    failure FailureCode.invalid_structured_output_payload message (structured_failure_context c)
      safe_context

-- `_schema_validation_failure`
unfoldable pub schema_validation_failure :
    StructuredOutputContext → String → String → Dict String → TerminalResult
unfolding invalid_payload schema_context update
schema_validation_failure c stage message extra = failed (
    invalid_payload c message
      (update (schema_context c.schema ++ ("validation_stage", stage) ∷ []) extra))

-- `Mapping | TypedFailure`
pub data Extracted : Type 0 where
  payload : Fields → Extracted
  rejected : TypedFailure → Extracted

same_tool : Option String → String → Bool
same_tool none name = false
same_tool (some tool) name = tool == name

extract_by_mode :
    StructuredOutputMode → StructuredOutputContext → Option String → Fields → Extracted
unfolding same_tool invalid_payload schema_context insert output_mode_value
extract_by_mode StructuredOutputMode.tool_call c tool_name fs =
    if not (same_tool tool_name c.schema.name)
    then rejected (
        invalid_payload c "provider returned the wrong terminal tool"
          (insert "tool_name" (or_else tool_name "") (schema_context c.schema)))
    else payload fs
extract_by_mode StructuredOutputMode.none c tool_name fs = rejected (
    invalid_payload c "unsupported structured-output extraction mode"
      (("structured_output_mode", output_mode_value c.mode) ∷ []))
extract_by_mode _ c tool_name fs = payload fs

extract_content : StructuredOutputContext → Option String → Content → Extracted
unfolding extract_by_mode
extract_content c tool_name (Content.text s) =
    rejected
      (invalid_payload c "structured provider output must be a mapping" (schema_context c.schema))
extract_content c tool_name (Content.object fs) = extract_by_mode c.mode c tool_name fs

-- `_extract_payload`
unfoldable pub extract_payload : ProviderOutcome → StructuredOutputContext → Extracted
unfolding extract_content
extract_payload o c = elim o.payload [
  | none ↦ rejected (invalid_payload c "provider success outcome omitted structured payload" [])
  | some p ↦ extract_content c p.tool_name p.content
]

-- the arguments of the accepted result
unfoldable pub accepted_value : StructuredOutputContext → Fields → StructuredResult
accepted_value c fs = record {
  value = fs;
  schema_name = c.schema.name;
  schema_version = c.schema.version;
  schema_fingerprint = c.schema.fingerprint;
  operation_invocation_id = c.operation_invocation_id;
  endpoint_uid = c.endpoint_uid;
  policy_fingerprint = c.policy_fingerprint;
  elapsed_ms = c.elapsed_ms;
}

accept : StructuredOutputContext → Fields → Result TerminalResult
unfolding structured_result accepted_value
accept c fs = do r ← structured_result (accepted_value c fs); ok (structured r)

host_answer : StructuredOutputContext → Fields → Call Bool → Result TerminalResult
unfolding accept schema_validation_failure
host_answer c fs (raised name) = ok (
    schema_validation_failure c "host_validator" "structured provider output validator raised"
      (("validator_exception", name) ∷ []))
host_answer c fs (returned valid) =
    if not valid
    then ok (
        schema_validation_failure c "host_validator"
          "structured provider output failed host validation" [])
    else accept c fs

host_validation : StructuredOutputContext → Fields → Result TerminalResult
unfolding host_answer
host_validation c fs = elim c.schema.validate [
  | none ↦ accept c fs
  | some validate ↦ host_answer c fs (validate fs)
]

validate_payload : StructuredOutputContext → Extracted → Result TerminalResult
unfolding host_validation matches_json_schema
validate_payload c (rejected f) = ok (failed f)
validate_payload c (payload fs) = do
  good ← matches_json_schema fs c.schema.json_schema
  if not good
      then ok (
          schema_validation_failure c "json_schema"
            "structured provider output failed json schema validation" [])
      else host_validation c fs

unfoldable pub normalize_structured_provider_outcome :
    ProviderOutcome → StructuredOutputContext → Result TerminalResult
unfolding extract_payload validate_payload
normalize_structured_provider_outcome o c = elim o.payload [
  | none ↦ ok (failed (invalid_payload c "provider success outcome omitted structured payload" []))
  | some p ↦ validate_payload c (extract_payload o c)
]
