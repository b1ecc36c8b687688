-- ===== src/Router/After/Terminal.antt =====
-- The terminal result that one attempt's output gives.
use llm_endpoint.Prelude.{
  String, Bool, true, false, ◌≡◌, refl, subst, Option, none, some, inl, inr, Bool-cases, ◌∙◌,
}
use llm_endpoint.Prelude.Outcome.{ok, ok-injective}
use llm_endpoint.Results.{
  TypedFailure, TerminalResult, structured, plain_text, failed, is_retryable,
}
use llm_endpoint.Results.Classified.{IsClassified}
use llm_endpoint.Callbacks.{SchemaContract}
use llm_endpoint.Adapters.{ProviderOutcome}
use llm_endpoint.Adapters.Execution.{AttemptOutput, outcome}
use llm_endpoint.Adapters.Execution.Judged.{IsOutput, IsLocal}
use llm_endpoint.Structured.{StructuredOutputContext}
use llm_endpoint.Structured.Outcomes.{
  IsStructuredTerminal, normalize_structured-IsStructuredTerminal,
}
use llm_endpoint.Normalization.Outcomes.{IsNormalized, normalize-IsNormalized}
use llm_endpoint.Invocation.{InvocationPlan}
use llm_endpoint.Router.Failures.{with_identity, with_schema_identity}
use llm_endpoint.Router.Schema.{is_none_mode}
use llm_endpoint.Router.After.{elapsed_of, terminal_result, structured_terminal, structured_context}

module _ {W : Type 0} (plan : InvocationPlan W) where
  abbrev pub is_text_mode : Bool
  is_text_mode = is_none_mode plan.effective_config.structured_output_mode

  -- A result tells the time of its output, and text comes in text mode only. A failure is classified by the
  -- tables, and in a structured-output mode it is not retryable.
  abbrev pub IsTerminal : AttemptOutput → TerminalResult → Type 0
  IsTerminal output (plain_text r) =
      (is_text_mode ≡ true) × (r.elapsed_ms ≡ elapsed_of output (plain_text r))
  IsTerminal output (structured r) =
      (is_text_mode ≡ false) × (r.elapsed_ms ≡ elapsed_of output (structured r))
  IsTerminal output (failed f) = IsClassified f × (is_text_mode ≡ false → is_retryable f ≡ false)

  with_schema_identity-IsClassified :
      (f : TypedFailure) (schema : Option SchemaContract)
      → IsClassified f
      → IsClassified (with_schema_identity f schema)
  unfolding with_schema_identity
  with_schema_identity-IsClassified f none h = h
  with_schema_identity-IsClassified f (some s) h = h

  with_schema_identity-final :
      (f : TypedFailure) (schema : Option SchemaContract)
      → is_retryable (with_schema_identity f schema) ≡ is_retryable f
  unfolding with_schema_identity is_retryable
  with_schema_identity-final f none = refl
  with_schema_identity-final f (some s) = refl

  local-IsTerminal :
      {uid : String} (f : TypedFailure) (schema : Option SchemaContract)
      → IsLocal uid f
      → IsTerminal (AttemptOutput.failed f) (failed (with_schema_identity f schema))
  local-IsTerminal f schema h = (
    with_schema_identity-IsClassified f schema h.classified,
    λ _. with_schema_identity-final f schema ∙ h.final,
  )

  with_identity-IsTerminal :
      (o : ProviderOutcome) (t : TerminalResult) (schema : Option SchemaContract)
      → is_text_mode ≡ true
      → IsNormalized o plan.operation_invocation_id (some plan.policy_fingerprint) true t
      → IsTerminal (outcome o) (with_identity t schema)
  unfolding with_identity elapsed_of
  with_identity-IsTerminal o (plain_text r) schema text h = (text, h.time)
  with_identity-IsTerminal o (structured r) schema text h = absurd h
  with_identity-IsTerminal o (failed f) schema text h =
      (with_schema_identity-IsClassified f schema h.classified, λ other. cc (text, other))

  structured-IsTerminal :
      (o : ProviderOutcome) (c : StructuredOutputContext) (t : TerminalResult)
      → c.elapsed_ms ≡ o.elapsed_ms
      → is_text_mode ≡ false
      → IsStructuredTerminal o c t
      → IsTerminal (outcome o) t
  unfolding elapsed_of
  structured-IsTerminal o c (plain_text r) same mode h = absurd h
  structured-IsTerminal o c (structured r) same mode h = (mode, h.time ∙ same)
  structured-IsTerminal o c (failed f) same mode h = (h.invalid.classified, λ _. h.invalid.final)

  structured_terminal-IsTerminal :
      (o : ProviderOutcome) (id : String) (schema : Option SchemaContract) (t : TerminalResult)
      → is_text_mode ≡ false
      → structured_terminal plan o id schema ≡ ok t
      → IsTerminal (outcome o) t
  unfolding structured_terminal structured_context is_retryable
  structured_terminal-IsTerminal o id none t mode h =
      subst (IsTerminal (outcome o)) (ok-injective h) ((refl, refl), λ _. refl)
  structured_terminal-IsTerminal o id (some schema) t mode h =
      structured-IsTerminal o (structured_context plan o id schema) t refl mode
        (normalize_structured-IsStructuredTerminal o (structured_context plan o id schema) t h)

  pub terminal_result-IsTerminal :
      (uid : String) (output : AttemptOutput) (id : String) (schema : Option SchemaContract)
      (t : TerminalResult)
      → IsOutput uid output
      → terminal_result plan output id schema ≡ ok t
      → IsTerminal output t
  unfolding terminal_result
  terminal_result-IsTerminal uid (AttemptOutput.failed f) id schema t i h =
      subst (IsTerminal (AttemptOutput.failed f)) (ok-injective h) (local-IsTerminal f schema i)
  terminal_result-IsTerminal uid (outcome o) id schema t i h = elim (Bool-cases is_text_mode) [
    | inl text ↦ subst (IsTerminal (outcome o)) (ok-injective (rw text at h)) (
        with_identity-IsTerminal o _ schema text (
          normalize-IsNormalized o plan.operation_invocation_id (some plan.policy_fingerprint) true
            (some plan.role) (some plan.operation_ref) (some id)))
    | inr other ↦ structured_terminal-IsTerminal o id schema t other (rw other at h)
  ]
