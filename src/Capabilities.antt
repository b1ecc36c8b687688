-- ===== src/Capabilities.antt =====
-- capabilities.py: the catalog of what the models of a provider can do.
use Prim.Native.String.{◌++◌}
use llm_endpoint.Prelude.{
  String, Bool, true, false, Option, none, some, List, [], ◌∷◌, ◌&&◌, ◌==◌, not, any, if◌then◌else◌,
}
use llm_endpoint.Prelude.Int.{ℤ, pos, leb_ℤ}
use llm_endpoint.Prelude.Text.{truthy}
use llm_endpoint.Prelude.Outcome.{Result, ok, raise, Error, require, ◌>>◌}
use llm_endpoint.Config.{
  ProviderFormat, format_value, FormatValue, member, raw, is_format, ReasoningMode,
  reasoning_mode_value, StructuredOutputMode,
}

pub data CapabilityFlag : Type 0 where
  structured_json_schema structured_prompt_json structured_tool_call reasoning_control token_usage :
      CapabilityFlag

-- `.value`
unfoldable pub capability_flag_value : CapabilityFlag → String
capability_flag_value CapabilityFlag.structured_json_schema = "structured_json_schema"
capability_flag_value CapabilityFlag.structured_prompt_json = "structured_prompt_json"
capability_flag_value CapabilityFlag.structured_tool_call = "structured_tool_call"
capability_flag_value CapabilityFlag.reasoning_control = "reasoning_control"
capability_flag_value CapabilityFlag.token_usage = "token_usage"

pub record CapabilityHardLimits : Type 0 where
  pub max_output_tokens : ℤ
  pub max_deadline_ms : Option ℤ

-- `x is not None and x <= 0`
abbrev pub not_positive : Option ℤ → Bool
not_positive none = false
not_positive (some n) = leb_ℤ n (pos 0)

-- `CapabilityHardLimits(…)`
unfoldable pub hard_limits : CapabilityHardLimits → Result CapabilityHardLimits
hard_limits l = do
  require (not (leb_ℤ l.max_output_tokens (pos 0)))
      (Error.value_error "max_output_tokens must be positive")
  require (not (not_positive l.max_deadline_ms))
      (Error.value_error "max_deadline_ms must be omitted or positive")
  ok l

pub record CapabilityEvidence : Type 0 where
  pub source : String
  pub note : String

-- `CapabilityEvidence(…)`
unfoldable pub evidence : CapabilityEvidence → Result CapabilityEvidence
evidence e = do
  require (truthy e.source && truthy e.note)
      (Error.value_error "capability evidence requires source and note")
  ok e

-- A frozenset is the list of its members.
pub record CapabilityProfile : Type 0 where
  pub provider_format : ProviderFormat
  pub model_family : String
  pub hard_limits : CapabilityHardLimits
  pub supported_capabilities : List CapabilityFlag
  pub supported_reasoning_modes : List ReasoningMode
  pub evidence : CapabilityEvidence

has_capability : CapabilityFlag → List CapabilityFlag → Bool
unfolding capability_flag_value
has_capability flag flags = any (λ f. capability_flag_value f == capability_flag_value flag) flags

has_reasoning_mode : ReasoningMode → List ReasoningMode → Bool
unfolding reasoning_mode_value
has_reasoning_mode mode modes = any (λ m. reasoning_mode_value m == reasoning_mode_value mode) modes

-- `CapabilityProfile(…)`
unfoldable pub capability_profile : CapabilityProfile → Result CapabilityProfile
unfolding has_reasoning_mode
capability_profile p = do
  require (truthy p.model_family) (Error.value_error "model_family is required")
  require (has_reasoning_mode ReasoningMode.disabled p.supported_reasoning_modes)
      (Error.value_error "disabled reasoning mode must always be supported")
  ok p

unfoldable pub supports_structured_output : CapabilityProfile → StructuredOutputMode → Bool
unfolding has_capability
supports_structured_output p StructuredOutputMode.none = true
supports_structured_output p StructuredOutputMode.json_schema =
    has_capability CapabilityFlag.structured_json_schema p.supported_capabilities
supports_structured_output p StructuredOutputMode.prompt_json =
    has_capability CapabilityFlag.structured_prompt_json p.supported_capabilities
supports_structured_output p StructuredOutputMode.tool_call =
    has_capability CapabilityFlag.structured_tool_call p.supported_capabilities

unfoldable pub supports_reasoning_mode : CapabilityProfile → ReasoningMode → Bool
unfolding has_reasoning_mode
supports_reasoning_mode p mode = has_reasoning_mode mode p.supported_reasoning_modes

pub record CapabilityCatalog : Type 0 where
  pub profiles : List CapabilityProfile

-- a profile's key is that of a format and a family
same_key : CapabilityProfile → CapabilityProfile → Bool
unfolding format_value
same_key p q =
    format_value p.provider_format == format_value q.provider_format
    && p.model_family == q.model_family

-- the loop over the profiles, with those that were seen
check_profiles : List CapabilityProfile → List CapabilityProfile → Result (Unit {0})
unfolding same_key
check_profiles seen [] = ok tt
check_profiles seen (p ∷ ps) =
    let later = check_profiles (p ∷ seen) ps in
    if any (λ q. same_key p q) seen
    then raise (
        Error.value_error (
          "duplicate capability profile: "
          ++ (format_value p.provider_format ++ ("/" ++ p.model_family))))
    else later

-- `CapabilityCatalog(…)`
unfoldable pub capability_catalog : List CapabilityProfile → Result CapabilityCatalog
unfolding check_profiles
capability_catalog profiles = do check_profiles [] profiles; ok (record { profiles = profiles })

fits : FormatValue → String → CapabilityProfile → Bool
unfolding is_format
fits format family p = is_format format p.provider_format && p.model_family == family

find_profile : FormatValue → String → List CapabilityProfile → Option CapabilityProfile
unfolding fits
find_profile format family [] = none
find_profile format family (p ∷ ps) =
    let later = find_profile format family ps in if fits format family p then some p else later

-- `CapabilityCatalog.get`
unfoldable pub get : CapabilityCatalog → FormatValue → String → Option CapabilityProfile
unfolding find_profile
get catalog format family = find_profile format family catalog.profiles

-- a format in a message: a member is shown as its value
unfoldable pub format_text : FormatValue → String
unfolding format_value
format_text (member f) = format_value f
format_text (raw t) = t

-- `CapabilityCatalog.require`
unfoldable pub require_profile : CapabilityCatalog → FormatValue → String → Result CapabilityProfile
unfolding get format_text
require_profile catalog format family = elim (get catalog format family) [
  | none ↦ raise (
      Error.key_error
        ("unsupported provider/model_family: " ++ (format_text format ++ ("/" ++ family))))
  | some p ↦ ok p
]

abbrev pub default_catalog : CapabilityCatalog
default_catalog = record {
  profiles =
      (record {
        provider_format = ProviderFormat.fake;
        model_family = "fake-family";
        hard_limits = record { max_output_tokens = pos 8192; max_deadline_ms = some (pos 60000) };
        supported_capabilities =
            CapabilityFlag.structured_json_schema ∷ CapabilityFlag.structured_prompt_json
            ∷ CapabilityFlag.structured_tool_call ∷ CapabilityFlag.token_usage ∷ [];
        supported_reasoning_modes =
            ReasoningMode.disabled ∷ ReasoningMode.low ∷ ReasoningMode.medium ∷ ReasoningMode.high
            ∷ [];
        evidence = record {
          source = "tests/contracts";
          note = "fake provider supports every Phase 2 planning path offline";
        };
      })
      ∷ [];
}
