-- ===== src/Telemetry/Growth.antt =====
-- What a run keeps of its emitter's events.
use llm_endpoint.Prelude.{◌≡◌, sym, ◌∙◌, List, [], ◌∷◌, ◌++◌}
use mathlib.Core.List.{append_assoc, append-nil}
use llm_endpoint.Prelude.Outcome.{Result, ok, raise}
use llm_endpoint.Telemetry.{TelemetryEvent, TelemetryEmitter, emit}
use llm_endpoint.Telemetry.Emitting.{Run, emit_events}
use llm_endpoint.Telemetry.Emission.{emit-Extends}

module _ {W : Type 0} where
  -- The events of one emitter are those of another with more at the end.
  abbrev pub Grows : TelemetryEmitter W → TelemetryEmitter W → Type 0
  Grows before after =
      (events : List TelemetryEvent) × (after.captured_events ≡ before.captured_events ++ events)

  pub Grows-refl : (e : TelemetryEmitter W) → Grows e e
  Grows-refl e = ([], sym (append-nil e.captured_events))

  pub Grows-trans : (a b c : TelemetryEmitter W) → Grows a b → Grows b c → Grows a c
  Grows-trans a b c (xs, p) (ys, q) = (xs ++ ys, q ∙ rw p (append_assoc a.captured_events xs ys))

  pub emit_events-Grows :
      (events : List (Result TelemetryEvent)) (r : Run W)
      → Grows r.emitter (emit_events events r).1.emitter
  unfolding emit_events
  emit_events-Grows [] r = Grows-refl r.emitter
  emit_events-Grows (raise e ∷ events) r = Grows-refl r.emitter
  emit_events-Grows (ok event ∷ events) r =
      let (emitter, w) = emit event r.emitter r.world in
      Grows-trans r.emitter emitter
        (emit_events events (record { emitter = emitter; world = w })).1.emitter
        (event ∷ [], (emit-Extends event r.emitter r.world).captured)
        (emit_events-Grows events (record { emitter = emitter; world = w }))
