-- ===== src/Telemetry/Emitting.antt =====
-- telemetry.py: a run, which changes an emitter and the world, and the events that it emits.
use llm_endpoint.Prelude.{List, [], ◌∷◌}
use llm_endpoint.Prelude.Outcome.{Result, ok, raise}
use llm_endpoint.Telemetry.{TelemetryEvent, TelemetryEmitter, emit}

-- what a run changes: the emitter, and the world outside the package
pub record Run (W : Type 0) : Type 0 where
  pub emitter : TelemetryEmitter W
  pub world : W

module _ {W : Type 0} where
  -- Each event is built, which may raise, and then emitted.
  unfoldable pub emit_events : List (Result TelemetryEvent) → Run W → Result (Unit {0}) × Run W
  unfolding emit
  emit_events [] r = (ok tt, r)
  emit_events (raise e ∷ events) r = (raise e, r)
  emit_events (ok event ∷ events) r =
      let (emitter, w) = emit event r.emitter r.world in
      emit_events events (record { emitter = emitter; world = w })
