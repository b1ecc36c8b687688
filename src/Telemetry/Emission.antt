-- ===== src/Telemetry/Emission.antt =====
-- What the emitter keeps, whatever the sink does.
use llm_endpoint.Prelude.{
  ◌≡◌, refl, sym, ◌∙◌, Option, none, some, List, [], ◌∷◌, ◌++◌, length, arith, ◌≤◌, ◌+◌,
  length-append,
}
use mathlib.Core.List.{append_assoc, append-nil}
use llm_endpoint.Prelude.Outcome.{Call, returned, raised}
use llm_endpoint.Telemetry.{
  TelemetryEvent, TelemetrySink, TelemetryEmitter, note_failure, forward, emit, emit_all,
}

module _ {W : Type 0} where
  -- The events of one emitter are those of another with more at the end, and there is one more failure at
  -- most for each; the sink is the same.
  pub record Extends (events : List TelemetryEvent) (before after : TelemetryEmitter W)
      : Type 0 where
    pub captured : after.captured_events ≡ before.captured_events ++ events
    pub sink : after.sink ≡ before.sink
    pub failures : length after.sink_failures ≤ length before.sink_failures + length events

  note_failure-Extends :
      (answer : Call (Unit {0})) (events : List TelemetryEvent)
      (before captured : TelemetryEmitter W)
      → Extends events before captured
      → captured.sink_failures ≡ before.sink_failures
      → 1 ≤ length events
      → Extends events before (note_failure answer captured)
  unfolding note_failure
  note_failure-Extends (returned _) events before captured h same some_event = h
  note_failure-Extends (raised name) events before captured h same some_event = record {
    captured = h.captured;
    sink = h.sink;
    failures = rw same (omega (arith, length-append before.sink_failures (name ∷ []), some_event));
  }

  forward-Extends :
      (sink : Option (TelemetrySink W)) (event : TelemetryEvent)
      (before captured : TelemetryEmitter W) (w : W)
      → Extends (event ∷ []) before captured
      → captured.sink_failures ≡ before.sink_failures
      → Extends (event ∷ []) before (forward sink event captured w).0
  unfolding forward
  forward-Extends none event before captured w h same = h
  forward-Extends (some sink) event before captured w h same =
      note_failure-Extends (sink event w).0 (event ∷ []) before captured h same (omega arith)

  pub emit-Extends :
      (event : TelemetryEvent) (emitter : TelemetryEmitter W) (w : W)
      → Extends (event ∷ []) emitter (emit event emitter w).0
  unfolding emit
  emit-Extends event emitter w =
      forward-Extends emitter.sink event emitter
        (record emitter { captured_events = emitter.captured_events ++ event ∷ [] }) w
        (record { captured = refl; sink = refl; failures = omega arith }) refl

  -- A batch of events is captured whole and in order, after those that were captured before. No more failures
  -- are noted than events are emitted, and the sink stays, whatever it does.
  pub emit_all-Extends :
      (events : List TelemetryEvent) (emitter : TelemetryEmitter W) (w : W)
      → Extends events emitter (emit_all events emitter w).0
  unfolding emit_all
  emit_all-Extends [] emitter w = record {
    captured = sym (append-nil emitter.captured_events);
    sink = refl;
    failures = omega arith;
  }
  emit_all-Extends (event ∷ events) emitter w =
      let first = emit-Extends event emitter w in
      let rest = emit_all-Extends events (emit event emitter w).0 (emit event emitter w).1 in
      record {
        captured =
            rest.captured
            ∙ rw first.captured (append_assoc emitter.captured_events (event ∷ []) events);
        sink = rest.sink ∙ first.sink;
        failures = omega (arith, first.failures, rest.failures);
      }
