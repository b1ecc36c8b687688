-- ===== src/Invocation/Planning/Sound.antt =====
-- What a plan is that `invoke_plan` returns.
use llm_endpoint.Prelude.{
  ◌≡◌, refl, sym, ap, subst, ◌∙◌, String, Bool, true, false, Option, none, some, not, is_empty,
  value_or, All,
}
use llm_endpoint.Prelude.Int.{pos, ◌≤ℤ◌, leb_ℤ}
use llm_endpoint.Prelude.Text.{truthy, truthy_opt}
use llm_endpoint.Prelude.Outcome.{ok, Error, require, ok-injective, >>=-eq-ok}
use llm_endpoint.Platform.{Platform}
use llm_endpoint.Telemetry.Emitting.{Run}
use llm_endpoint.Config.{LlmEndpointConfig, Registry, OperationRuntimePolicy, ResolvedRole}
use llm_endpoint.Config.Building.{resolve_role, resolve_operation_policy}
use llm_endpoint.Capabilities.{CapabilityCatalog}
use llm_endpoint.Policy.{CallerPolicyOverrides, PolicyResolution, EffectiveRuntimeConfig}
use llm_endpoint.Policy.Effective.{effective_config}
use llm_endpoint.Policy.Limits.Within.{IsWithin}
use llm_endpoint.Policy.Resolution.Resolved.{resolve_in-IsResolution}
use llm_endpoint.Invocation.{InvocationRequest, InvocationPlan, invocation_plan}
use llm_endpoint.Invocation.Requests.{accepted, request_overrides}
use llm_endpoint.Invocation.Requests.Checked.{
  IsMessage, IsRequest, validate_request-IsRequest, request_overrides-deadline, IsReferenced,
  schema_ref-IsReferenced,
}
use llm_endpoint.Invocation.Planning.{planned_with, invocation_id_of, invoke_plan}
use llm_endpoint.Invocation.Planning.Accepted.{IsMade, IsChosen, plan_invocation-IsMade}

require-true : (b : Bool) (e : Error) {v : Unit {0}} → require b e ≡ ok v → b ≡ true
require-true true e h = refl
require-true false e h = cc

effective-deadline :
    (q : OperationRuntimePolicy) (o : CallerPolicyOverrides)
    → (effective_config q o).deadline_ms ≡ value_or o.deadline_ms q.deadline_ms
unfolding effective_config
effective-deadline q o = refl

module _ {W : Type 0} (platform : Platform) (catalog : CapabilityCatalog)
    (request : InvocationRequest W) where
  -- A plan of a request, in the registry that is given or in that of the configuration. It has the role, the
  -- operation, the messages, the deadline, the metadata and the token of the request, and the request's identifier
  -- of the invocation if there is one; its endpoints are those of the role, in their order; its configuration is
  -- the operation's policy with the request's overrides; its deadline is the effective one; its configuration keeps every limit for its endpoints; a structured
  -- mode has a schema's reference; and its telemetry is what the run's emitter has captured.
  pub record IsPlan (config : Option LlmEndpointConfig) (given : Option Registry)
      (plan : InvocationPlan W) (after : Run W) : Type 0 where
    pub registry : Registry
    pub chosen :
        IsChosen platform catalog request plan.operation_invocation_id config given registry
    pub named : truthy plan.operation_invocation_id ≡ true
    pub role : (plan.role ≡ request.role) × (truthy plan.role ≡ true)
    pub operation :
        (plan.operation_ref ≡ request.operation_ref) × (truthy plan.operation_ref ≡ true)
    pub invocation :
        truthy_opt request.operation_invocation_id ≡ true
        → request.operation_invocation_id ≡ some plan.operation_invocation_id
    pub metadata : plan.request_metadata ≡ request.request_metadata
    pub token : plan.cancellation_token ≡ request.cancellation_token
    pub resolved_role : ResolvedRole
    pub at_role : resolve_role registry plan.role ≡ ok resolved_role
    pub endpoints : plan.endpoint_uids ≡ resolved_role.endpoint_uids
    pub policy : OperationRuntimePolicy
    pub at_policy : resolve_operation_policy registry plan.operation_ref ≡ ok policy
    pub overrides : CallerPolicyOverrides
    pub at_overrides :
        request_overrides request plan.operation_invocation_id platform registry
        ≡ ok (accepted overrides)
    pub effective : plan.effective_config ≡ effective_config policy overrides
    pub identity : plan.config_identity ≡ registry.config_identity
    pub messages :
        (plan.messages ≡ request.messages)
        × ((is_empty plan.messages ≡ false) × All IsMessage plan.messages)
    pub deadline :
        (plan.deadline_ms ≡ request.deadline_ms)
        × ((pos 1 ≤ℤ plan.deadline_ms) × (plan.effective_config.deadline_ms ≡ plan.deadline_ms))
    pub within : IsWithin registry catalog plan.effective_config plan.endpoint_uids
    pub schema :
        IsReferenced request plan.operation_invocation_id
          plan.effective_config.structured_output_mode plan.schema_contract_ref
    pub telemetry : plan.telemetry ≡ after.emitter.captured_events

  planned_with-named :
      (id : String) (p : PolicyResolution) (ref : Option String) (r : Run W)
      (plan : InvocationPlan W)
      → planned_with platform catalog request id p ref r ≡ ok plan
      → (truthy id ≡ true)
        × (record {
          operation_invocation_id = id;
          role = p.role;
          operation_ref = p.operation_ref;
          endpoint_uids = p.endpoint_uids;
          messages = request.messages;
          deadline_ms = request.deadline_ms;
          effective_config = p.effective_config;
          config_identity = p.config_identity;
          policy_fingerprint = p.policy_fingerprint;
          schema_contract_ref = ref;
          request_metadata = request.request_metadata;
          cancellation_token = request.cancellation_token;
          telemetry = r.emitter.captured_events;
        }
            ≡ plan)
  unfolding planned_with invocation_plan
  planned_with-named id p ref r plan h =
      let (u, named, h₁) = >>=-eq-ok (require (truthy id) _) _ h in
      let (v, timed, h₂) = >>=-eq-ok (require (not (leb_ℤ request.deadline_ms (pos 0))) _) _ h₁ in
      (require-true (truthy id) _ named, ok-injective h₂)

  IsMade-IsPlan :
      (id : String) (config : Option LlmEndpointConfig) (given : Option Registry)
      (registry : Registry) (plan : InvocationPlan W) (after : Run W)
      → IsRequest request id
      → (truthy_opt request.operation_invocation_id ≡ true
          → request.operation_invocation_id ≡ some id)
      → IsChosen platform catalog request id config given registry
      → IsMade platform catalog request id registry plan after
      → IsPlan config given plan after
  IsMade-IsPlan id config given registry plan after asked known chosen made =
      let (named, same) = planned_with-named id made.resolution made.ref after plan made.at_plan in
      let sound =
        resolve_in-IsResolution platform request.role request.operation_ref id catalog registry
          (some made.overrides) made.resolution made.at_resolution in
      let (policy, (at_policy, agreed)) =
        request_overrides-deadline request id platform registry made.overrides made.at_overrides in
      subst (λ (plan : InvocationPlan W). IsPlan config given plan after) same
        (record {
          registry = registry;
          chosen = chosen;
          named = named;
          role = (sound.of_role, subst (λ s. truthy s ≡ true) (sym sound.of_role) asked.role);
          operation = (
            sound.of_operation,
            subst (λ s. truthy s ≡ true) (sym sound.of_operation) asked.operation,
          );
          invocation = known;
          metadata = refl;
          token = refl;
          resolved_role = sound.resolved_role;
          at_role =
              subst (λ role. resolve_role registry role ≡ ok sound.resolved_role)
                (sym sound.of_role) sound.at_role;
          endpoints = sound.endpoints;
          policy = sound.policy;
          at_policy =
              subst (λ ref. resolve_operation_policy registry ref ≡ ok sound.policy)
                (sym sound.of_operation) sound.at_policy;
          overrides = made.overrides;
          at_overrides = made.at_overrides;
          effective = sound.effective;
          identity = sound.identity;
          messages = (refl, (asked.any_message, asked.messages));
          deadline = (
            refl,
            (
              asked.deadline,
              ap (λ (e : EffectiveRuntimeConfig). e.deadline_ms) sound.effective
                  ∙ (ap
                        (λ (q : OperationRuntimePolicy).
                          (effective_config q made.overrides).deadline_ms)
                        (ok-injective (sym sound.at_policy ∙ at_policy))
                      ∙ effective-deadline policy made.overrides
                      ∙ agreed),
            ),
          );
          within = sound.within;
          schema = schema_ref-IsReferenced request id registry made.resolution made.ref made.at_ref;
          telemetry = refl;
        })

module _ {W : Type 0} (platform : Platform) (new_uuid : W → String × W) where
  some_id : (o : Option String) → truthy_opt o ≡ true → o ≡ some (value_or o "")
  some_id none h = cc
  some_id (some id) h = refl

  -- The request's identifier of the invocation is taken if there is one.
  invocation_id_of-request :
      (request : InvocationRequest W) (r : Run W)
      → truthy_opt request.operation_invocation_id ≡ true
      → request.operation_invocation_id ≡ some (invocation_id_of new_uuid request r).0
  unfolding invocation_id_of
  invocation_id_of-request request r h = rw h (some_id request.operation_invocation_id h)

  -- A plan that is returned names an invocation, a role and an operation; it has the request's role, operation,
  -- messages, deadline, metadata and cancellation token, and the request's identifier of the invocation if that is
  -- not empty. Its endpoints are those that its registry resolves the role to; its configuration is the policy of
  -- the operation with the request's overrides, has the plan's deadline, and keeps every limit for these endpoints. It has a
  -- schema's reference if its mode is a structured one, and the emitter's events. Its registry is the one that is
  -- given, or the one that is built from the configuration, and the plan has the registry's identity.
  pub invoke_plan-IsPlan :
      (request : InvocationRequest W) (config : Option LlmEndpointConfig) (given : Option Registry)
      (catalog : CapabilityCatalog) (r after : Run W) (plan : InvocationPlan W)
      → invoke_plan platform new_uuid request config given catalog r ≡ (ok (accepted plan), after)
      → IsPlan platform catalog request config given plan after
  unfolding invoke_plan
  invoke_plan-IsPlan request config given catalog r after plan h =
      let (id, r') = invocation_id_of new_uuid request r in
      let (fine, (registry, (chosen, made))) =
        plan_invocation-IsMade platform catalog request id config given r' after plan h in
      IsMade-IsPlan platform catalog request id config given registry plan after
        (validate_request-IsRequest request id fine) (invocation_id_of-request request r) chosen
        made
