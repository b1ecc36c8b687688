-- ===== src/Lib.antt =====
-- llm_endpoint: a router of invocations of language models over pools of endpoints.
--
-- A host makes a plan of an invocation: the candidate endpoints in order, the messages, a deadline, and the
-- effective runtime configuration. `route_invocation` (src/llm_endpoint/router.py) resolves the schema, goes
-- through the candidates, and for each asks the host's cancellation token, skips it, or makes one provider
-- attempt (adapters.py), normalizes its outcome (normalization.py, structured.py) into one terminal result
-- (results.py), traces it and emits telemetry (telemetry.py). It returns at the first success, at a failure
-- that may not be retried, or when no candidate or attempt is left.
--
-- The files, and the code under src/llm_endpoint/ that each models:
--   Prelude                   shared names, numbers, text, dictionaries, exceptions and host calls
--   Values                    Python values that the code handles as `Any`, and their equality
--   Results, Results/Codes    results.py: failure codes with their tables, typed failures, terminal results
--   Telemetry                 telemetry.py: redacted events, `TelemetryEmitter`
--   Callbacks                 callbacks.py: secret and schema resolutions
--   Platform                  the digest of a value's canonical JSON and `repr` of a text, as parameters
--   Config                    config.py: the data; Identity: what is hashed; Validation: `validate_config`, with a
--                             child for the checks of each part; Building: `Registry`; Lifecycle
--   Capabilities              capabilities.py: profiles, the catalog
--   Policy                    policy.py: the data; Effective, Limits, Resolution: `resolve_policy`
--   Invocation                invocation.py: requests and plans; Requests: the checks; Planning: `invoke_plan`
--   Adapters                  adapters.py: plans, outcomes, their checks; Execution: `execute_provider_attempt`;
--                             Fake: `FakeProviderAdapter`
--   Normalization             normalization.py
--   Structured                structured.py; JsonSchema: the subset of JSON Schema
--   Router                    router.py: traces and statuses; Failures, Events and Schema: the helpers of these
--                             names; Budget: budgets, suppression, failover tests; State: the loop's variables;
--                             Before and After: the loop's body up to and from the provider's call; Route:
--                             `route_invocation`
--   Rollout                   rollout.py: `apply_rollout_controls`
--   RoleHealth                role_health.py: `evaluate_role_health`
--   Migration                 migration.py: `assess_direct_migration`
--   Samples                   concrete plans and providers, tests, and the theorems on them
-- The theorems are in Adapters/Execution/Contract, Adapters/Fake/Script, Normalization/Outcomes,
-- Structured/Outcomes, Structured/JsonSchema/Sound, Telemetry/Emission, Telemetry/Growth, Router/Budget/Bounds,
-- Router/Route, Config/Validation/Decides, Config/Building/Built, Config/Lifecycle, Policy/Limits/Within,
-- Policy/Resolution, Invocation/Requests, Invocation/Planning, Rollout/Decided and RoleHealth.
--
-- How the code is rendered. An exception that the package raises is `raise` of the type `Result`. A host's
-- callback, adapter, token or sink is a function that changes a world of any type `W` and may raise (`Call`);
-- nothing is assumed of it. A host's validator of payloads may raise, and answers by the payload only. The
-- mutable emitter is passed along with the world (`Run`). The body of the loop is split at the provider's
-- call: each half gives the events to emit, in order, and the move (`return`,
-- `continue` or `break`), and the loop emits the events one by one, so that an event that cannot be built
-- raises after the events before it. The loop is by recursion on the candidates, and needs no fuel. Python's
-- integers have no bounds; elapsed times are natural numbers, as the constructors of outcomes demand. A dict
-- is a list of entries in insertion order. A mapping is a dict, and a finite float a fraction.
--
-- The canonical JSON of `json.dumps` and its SHA-256 digest are a function of the value that is hashed
-- (`Platform.digest`), and the random number of a new invocation is a function of the world; nothing is
-- assumed of either. A configuration is immutable data, and a frozenset is the list of its members.
--
-- Fields for a contract's version, which have one legal value, are left out. Not modelled:
-- debug.py, which describes a run after it is over; fake_provider.py and fixtures.py, the inputs of tests;
-- smoke.py, which calls live providers; public_surface.py, a table of the exported names, and
-- release_guard.py, which compares it with a release.
pub mod Prelude
pub mod Values
pub mod Results
pub mod Telemetry
pub mod Callbacks
pub mod Platform
pub mod Config
pub mod Capabilities
pub mod Adapters
pub mod Normalization
pub mod Structured
pub mod Policy
pub mod Invocation
pub mod Router
pub mod Rollout
pub mod RoleHealth
pub mod Migration
pub mod Samples
