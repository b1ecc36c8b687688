-- ===== src/Router/Route/Inversion.antt =====
-- How a round of the loop of `route_invocation` came by its move: by the decision before the provider's call,
-- or by the one after it.
use llm_endpoint.Prelude.{ℕ, String, Bool, ◌≡◌, refl, ap, ◌⊎◌, inl, inr}
use llm_endpoint.Prelude.Outcome.{Result, ok, raise}
use llm_endpoint.Results.{TerminalResult}
use llm_endpoint.Adapters.Execution.{AttemptOutput, execute_provider_attempt}
use llm_endpoint.Router.State.{Setup, LoopState, Move, Verdict, Attempt, Before, verdict, attempt}
use llm_endpoint.Router.Before.{before_attempt}
use llm_endpoint.Router.After.{after_attempt, terminal_result}
use llm_endpoint.Telemetry.Emitting.{Run, emit_events}
use llm_endpoint.Router.Route.{
  deliver_move, deliver, is_cancelled, concluded, conclude, judge, perform, act, started, step,
}

module _ {W : Type 0} (s : Setup W) (l : LoopState) (uid : String) (index : ℕ) where
  pub record Decided (m : Move) : Type 0 where
    pub cancelled : Bool
    pub decision : Verdict
    pub before : before_attempt s l uid index cancelled ≡ ok (verdict decision)
    pub moves : decision.move ≡ m

  pub record Attempted (m : Move) : Type 0 where
    pub made : Attempt W
    pub world : W
    pub output : AttemptOutput
    pub terminal : TerminalResult
    pub cancelled_before : Bool
    pub cancelled_after : Bool
    pub before : before_attempt s l uid index cancelled_before ≡ ok (attempt made)
    pub answered :
        (execute_provider_attempt made.adapter_plan made.adapter s.secret_resolver world).0
        ≡ ok output
    pub judged : terminal_result s.plan output made.trace_id s.schema ≡ ok terminal
    pub moves : (after_attempt s l index made output terminal cancelled_after).move ≡ m

module _ {W : Type 0} where
  deliver_move-inversion :
      (move m : Move) (e : Result (Unit {0}) × Run W) (r' : Run W)
      → deliver_move move e ≡ (ok m, r')
      → move ≡ m
  unfolding deliver_move
  deliver_move-inversion move m (ok _, r) r' h = cc
  deliver_move-inversion move m (raise e, r) r' h = cc

  deliver-inversion :
      (v : Verdict) (m : Move) (r r' : Run W) → deliver v r ≡ (ok m, r') → v.move ≡ m
  unfolding deliver
  deliver-inversion v m r r' h = deliver_move-inversion v.move m (emit_events v.events r) r' h

module _ {W : Type 0} (s : Setup W) (l : LoopState) (index : ℕ) (a : Attempt W) where
  concluded-inversion :
      (output : AttemptOutput) (terminal : TerminalResult) (m : Move) (c : Result Bool × Run W)
      (r' : Run W)
      → concluded s l index a output terminal c ≡ (ok m, r')
      → (b : Bool) × ((after_attempt s l index a output terminal b).move ≡ m)
  unfolding concluded
  concluded-inversion output terminal m (ok b, r) r' h =
      (b, deliver-inversion (after_attempt s l index a output terminal b) m r r' h)
  concluded-inversion output terminal m (raise e, r) r' h = cc

  conclude-inversion :
      (output : AttemptOutput) (t : Result TerminalResult) (m : Move) (r r' : Run W)
      → conclude s l index a output t r ≡ (ok m, r')
      → (terminal : TerminalResult) × (c : Bool) × (t ≡ ok terminal)
        × ((after_attempt s l index a output terminal c).move ≡ m)
  unfolding conclude
  conclude-inversion output (ok terminal) m r r' h =
      let (c, moves) = concluded-inversion output terminal m (is_cancelled s.plan r) r' h in
      (terminal, c, refl, moves)
  conclude-inversion output (raise e) m r r' h = cc

  judge-inversion :
      (o : Result AttemptOutput) (m : Move) (r r' : Run W)
      → judge s l index a o r ≡ (ok m, r')
      → (output : AttemptOutput) × (terminal : TerminalResult) × (c : Bool) × (o ≡ ok output)
        × (terminal_result s.plan output a.trace_id s.schema ≡ ok terminal)
        × ((after_attempt s l index a output terminal c).move ≡ m)
  unfolding judge
  judge-inversion (ok output) m r r' h =
      let (terminal, c, judged, moves) = conclude-inversion output _ m r r' h in
      (output, terminal, c, refl, judged, moves)
  judge-inversion (raise e) m r r' h = cc

module _ {W : Type 0} (s : Setup W) (l : LoopState) (uid : String) (index : ℕ) where
  perform-inversion :
      (a : Attempt W) (c : Bool) (m : Move) (r r' : Run W)
      → before_attempt s l uid index c ≡ ok (attempt a)
      → perform s l index a r ≡ (ok m, r')
      → Attempted s l uid index m
  unfolding perform
  perform-inversion a c m r r' before h =
      let (output, terminal, c', answered, judged, moves) =
        judge-inversion s l index a _ m _ r' h in
      record {
        made = a;
        world = r.world;
        output = output;
        terminal = terminal;
        cancelled_before = c;
        cancelled_after = c';
        before = before;
        answered = answered;
        judged = judged;
        moves = moves;
      }

  act-inversion :
      (b : Result (Before W)) (c : Bool) (m : Move) (r r' : Run W)
      → before_attempt s l uid index c ≡ b
      → act s l index b r ≡ (ok m, r')
      → Decided s l uid index m ⊎ Attempted s l uid index m
  unfolding act
  act-inversion (ok (verdict v)) c m r r' before h = inl (record {
    cancelled = c;
    decision = v;
    before = before;
    moves = deliver-inversion v m r r' h;
  })
  act-inversion (ok (attempt a)) c m r r' before h = inr (perform-inversion a c m r r' before h)
  act-inversion (raise e) c m r r' before h = cc

  started-inversion :
      (m : Move) (c : Result Bool × Run W)
      → (started s l uid index c).0 ≡ ok m
      → Decided s l uid index m ⊎ Attempted s l uid index m
  unfolding started
  started-inversion m (raise e, r) h = cc
  started-inversion m (ok cancelled, r) h =
      let b = before_attempt s l uid index cancelled in
      act-inversion b cancelled m r (act s l index b r).1 refl
        (ap (λ e. (e, (act s l index b r).1)) h)

  pub step-inversion :
      (m : Move) (r : Run W)
      → (step s l uid index r).0 ≡ ok m
      → Decided s l uid index m ⊎ Attempted s l uid index m
  unfolding step
  step-inversion m r h = started-inversion m (is_cancelled s.plan r) h
