-- ===== src/Config/Validation/Endpoints.antt =====
-- config.py: the checks of `validate_config` on endpoints.
pub mod Silent
use Prim.Native.String.{◌++◌ as ◌+++◌}
use llm_endpoint.Prelude.{
  ℕ, suc, String, Bool, true, false, Option, none, some, List, [], ◌∷◌, ◌++◌, not, contains,
  is_none, ◌==◌, if◌then◌else◌,
}
use llm_endpoint.Prelude.Text.{truthy}
use llm_endpoint.Config.{ProviderFormat, format_value, FormatValue, member, raw, EndpointConfig}
use llm_endpoint.Capabilities.{CapabilityCatalog, get, format_text}
use llm_endpoint.Config.Errors.{ConfigErrorCode, ConfigValidationError, error, error_if, indexed}
use llm_endpoint.Config.Names.{add_name}

-- `ProviderFormat(value)`, for a text
format_of_text : String → Option ProviderFormat
unfolding format_value
format_of_text t =
    if t == "openai_responses"
    then some ProviderFormat.openai_responses
    else if t == "openai_chat_completions"
    then some ProviderFormat.openai_chat_completions
    else if t == "anthropic_messages"
    then some ProviderFormat.anthropic_messages
    else if t == "fake"
    then some ProviderFormat.fake
    else none

-- `_provider_format`
unfoldable pub provider_format_of : FormatValue → Option ProviderFormat
unfolding format_of_text
provider_format_of (member f) = some f
provider_format_of (raw t) = format_of_text t

module _ (catalog : CapabilityCatalog) where
  format_errors : String → EndpointConfig → List ConfigValidationError
  unfolding provider_format_of get error_if format_text format_value
  format_errors path e = elim (provider_format_of e.provider_format) [
    | none ↦
        error ConfigErrorCode.unsupported_provider_format (path +++ ".provider_format")
          ("unsupported provider format: " +++ format_text e.provider_format)
        ∷ []
    | some f ↦
        error_if (is_none (get catalog (member f) e.model_family))
          ConfigErrorCode.unsupported_model_family (path +++ ".model_family")
          ("unsupported model family for " +++ (format_value f +++ (": " +++ e.model_family)))
  ]

  uid_errors : String → List String → EndpointConfig → List ConfigValidationError
  unfolding error_if
  uid_errors path seen e =
      if truthy e.uid
      then error_if (contains e.uid seen) ConfigErrorCode.duplicate_uid (path +++ ".uid")
          "endpoint uid must be unique"
      else error ConfigErrorCode.empty_uid (path +++ ".uid") "endpoint uid is required" ∷ []

  capability_ref_errors : String → ℕ → List String → List ConfigValidationError
  unfolding error_if indexed
  capability_ref_errors path index [] = []
  capability_ref_errors path index (ref ∷ refs) =
      error_if (not (truthy ref)) ConfigErrorCode.invalid_capability_ref
        (indexed (path +++ ".capability_refs") index)
        "capability refs must be non-empty identifiers"
      ++ capability_ref_errors path (suc index) refs

  pub endpoint_errors : ℕ → List String → EndpointConfig → List ConfigValidationError
  unfolding format_errors uid_errors capability_ref_errors indexed error_if
  endpoint_errors index seen e =
      let path = indexed "endpoints" index in
      format_errors path e
      ++ (uid_errors path seen e
          ++ (error_if (not (truthy e.credential_ref)) ConfigErrorCode.invalid_credential_ref
                (path +++ ".credential_ref")
                "credential_ref is required and must not contain credential values"
              ++ capability_ref_errors path 0 e.capability_refs))

  -- the loop over the endpoints, with the uids seen before
  unfoldable pub endpoints_errors :
      ℕ → List String → List EndpointConfig → List ConfigValidationError
  unfolding endpoint_errors add_name
  endpoints_errors index seen [] = []
  endpoints_errors index seen (e ∷ es) =
      endpoint_errors index seen e ++ endpoints_errors (suc index) (add_name e.uid seen) es
