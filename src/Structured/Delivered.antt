-- ===== src/Structured/Delivered.antt =====
-- structured.py: `_extract_payload`, and which mapping an outcome delivers.
use llm_endpoint.Prelude.{
  String, true, false, ◌≡◌, ◌≢◌, refl, sym, ap, ◌∙◌, Option, none, some, List, [], eq_refl, eq_iff,
  Bool-cases, Option-cases, inl, inr,
}
use llm_endpoint.Values.{Fields}
use llm_endpoint.Results.{FailureCode, TypedFailure, is_retryable}
use llm_endpoint.Results.Classified.{IsClassified}
use llm_endpoint.Config.{StructuredOutputMode}
use llm_endpoint.Adapters.{ProviderOutcome, ProviderSuccessPayload, Content}
use llm_endpoint.Structured.{
  StructuredOutputContext, Extracted, payload, rejected, invalid_payload, same_tool,
  extract_by_mode, extract_content, extract_payload,
}

-- A failure of the pipeline.
pub record IsInvalid (c : StructuredOutputContext) (f : TypedFailure) : Type 0 where
  pub code : f.code ≡ FailureCode.invalid_structured_output_payload
  pub classified : IsClassified f
  pub final : is_retryable f ≡ false
  pub endpoint : f.context.endpoint_uid ≡ some c.endpoint_uid
  pub time : f.context.elapsed_ms ≡ some c.elapsed_ms
  pub identity : f.context.schema_fingerprint ≡ some c.schema.fingerprint

pub invalid_payload-IsInvalid :
    (c : StructuredOutputContext) (message : String) (context : List (String × String))
    → IsInvalid c (invalid_payload c message context)
unfolding invalid_payload is_retryable
invalid_payload-IsInvalid c message context = record {
  code = refl;
  classified = (refl, refl);
  final = refl;
  endpoint = refl;
  time = refl;
  identity = refl;
}

-- An outcome delivers a mapping in a structured mode: its payload is the mapping, and in the mode of tool calls the
-- call of the tool that the schema names.
pub record IsDelivered (o : ProviderOutcome) (c : StructuredOutputContext) (fs : Fields)
    : Type 0 where
  pub payload : ProviderSuccessPayload
  pub at_payload : o.payload ≡ some payload
  pub content : payload.content ≡ Content.object fs
  pub structured : c.mode ≢ StructuredOutputMode.none
  pub tool : c.mode ≡ StructuredOutputMode.tool_call → payload.tool_name ≡ some c.schema.name

some_eq {ℓ} : {A : Type ℓ} {a b : A} → some a ≡ some b → a ≡ b
some_eq h = cc

object_eq : {fs gs : Fields} → Content.object fs ≡ Content.object gs → fs ≡ gs
object_eq h = cc

text-not-object : {s : String} {fs : Fields} → Content.text s ≡ Content.object fs → ⊥
text-not-object h = cc

none-not-some : {p : ProviderSuccessPayload} → none ≡ some p → ⊥
none-not-some h = cc

true-not-false : true ≡ false → ⊥
true-not-false h = cc

module _ (o : ProviderOutcome) (c : StructuredOutputContext) where
  -- what is extracted: the mapping that is delivered, or a failure where none is
  abbrev pub IsExtracted : Extracted → Type 0
  IsExtracted (payload fs) = IsDelivered o c fs
  IsExtracted (rejected f) = IsInvalid c f × ((fs : Fields) → IsDelivered o c fs → ⊥)

  -- A delivered mapping's payload is the outcome's.
  delivered_payload :
      (p : ProviderSuccessPayload) (fs : Fields) (d : IsDelivered o c fs)
      → o.payload ≡ some p
      → p ≡ d.payload
  delivered_payload p fs d h = some_eq (sym h ∙ d.at_payload)

  -- One mapping is delivered at most.
  pub delivered_once : (fs gs : Fields) → IsDelivered o c fs → IsDelivered o c gs → fs ≡ gs
  delivered_once fs gs d e = object_eq (
      sym d.content
      ∙ (ap (λ (p : ProviderSuccessPayload). p.content)
            (delivered_payload d.payload gs e d.at_payload)
          ∙ e.content))

  module _ (p : ProviderSuccessPayload) (here : o.payload ≡ some p) where
    same_tool-delivered :
        (fs : Fields)
        → c.mode ≡ StructuredOutputMode.tool_call
        → IsDelivered o c fs
        → same_tool p.tool_name c.schema.name ≡ true
    unfolding same_tool
    same_tool-delivered fs call d =
        let named : p.tool_name ≡ some c.schema.name =
          ap (λ (p : ProviderSuccessPayload). p.tool_name) (delivered_payload p fs d here)
          ∙ d.tool call in
        rw named (eq_refl c.schema.name)

    same_tool-name : (t : Option String) → same_tool t c.schema.name ≡ true → t ≡ some c.schema.name
    unfolding same_tool
    same_tool-name none h = cc
    same_tool-name (some t) h = ap some ((eq_iff t c.schema.name).0 h)

    extract_by_mode-IsExtracted :
        (mode : StructuredOutputMode) (fs : Fields)
        → c.mode ≡ mode
        → p.content ≡ Content.object fs
        → IsExtracted (extract_by_mode mode c p.tool_name fs)
    unfolding extract_by_mode
    extract_by_mode-IsExtracted StructuredOutputMode.none fs at_mode same =
        (invalid_payload-IsInvalid c _ _, λ gs d. d.structured at_mode)
    extract_by_mode-IsExtracted StructuredOutputMode.tool_call fs at_mode same =
        elim (Bool-cases (same_tool p.tool_name c.schema.name)) [
          | inl named ↦ rw named (record {
            payload = p;
            at_payload = here;
            content = same;
            structured = λ k. cc (k, at_mode);
            tool = λ _. same_tool-name p.tool_name named;
          })
          | inr other ↦ rw other (
            invalid_payload-IsInvalid c _ _,
            λ gs d. true-not-false (sym (same_tool-delivered gs at_mode d) ∙ other),
          )
        ]
    extract_by_mode-IsExtracted StructuredOutputMode.json_schema fs at_mode same = record {
      payload = p;
      at_payload = here;
      content = same;
      structured = λ k. cc (k, at_mode);
      tool = λ k. cc (k, at_mode);
    }
    extract_by_mode-IsExtracted StructuredOutputMode.prompt_json fs at_mode same = record {
      payload = p;
      at_payload = here;
      content = same;
      structured = λ k. cc (k, at_mode);
      tool = λ k. cc (k, at_mode);
    }

    extract_content-IsExtracted :
        (content : Content)
        → p.content ≡ content
        → IsExtracted (extract_content c p.tool_name content)
    unfolding extract_content
    extract_content-IsExtracted (Content.text s) same = (
      invalid_payload-IsInvalid c _ _,
      λ fs d. text-not-object (
          sym same
          ∙ (ap (λ (p : ProviderSuccessPayload). p.content) (delivered_payload p fs d here)
              ∙ d.content)),
    )
    extract_content-IsExtracted (Content.object fs) same =
        extract_by_mode-IsExtracted c.mode fs refl same

  -- The extraction gives the mapping that the outcome delivers, or rejects the outcome if it delivers none.
  pub extract_payload-IsExtracted : IsExtracted (extract_payload o c)
  unfolding extract_payload
  extract_payload-IsExtracted = elim (Option-cases o.payload) [
    | inl absent ↦
        simp (absent, extract_payload)
          (
            invalid_payload-IsInvalid c "provider success outcome omitted structured payload" [],
            λ fs d. none-not-some (sym absent ∙ d.at_payload),
          )
    | inr (p, present) ↦
        simp (present, extract_payload) (extract_content-IsExtracted p present p.content refl)
  ]
