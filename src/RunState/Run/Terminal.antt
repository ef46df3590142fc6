-- ===== src/RunState/Run/Terminal.antt =====
-- The run over a whole journal.
use partitur.Prelude.{◌≡◌, ◌∙◌, true, arith, refl, List, ap}
use partitur.RunState.Types.{terminal, RunLifecycle}
use partitur.RunState.Event.{Event}
use partitur.RunState.State.{State}
use partitur.RunState.Action.{ok}
use partitur.RunState.Replay.{replay, Journey, done, event, replay-Journey}
use partitur.RunState.Run.{
  RunStep, stay, start, pause, resume, succeed, fail, fail_waiting, cancel, cancel_waiting,
}
use partitur.RunState.Run.Steps.{apply-RunStep}

RunStep-terminal : {a b : RunLifecycle} → RunStep a b → terminal a ≡ true → b ≡ a
unfolding terminal
RunStep-terminal stay h = refl
RunStep-terminal start h = absurd (ground arith)
RunStep-terminal pause h = absurd (ground arith)
RunStep-terminal resume h = absurd (ground arith)
RunStep-terminal succeed h = absurd (ground arith)
RunStep-terminal fail h = absurd (ground arith)
RunStep-terminal fail_waiting h = absurd (ground arith)
RunStep-terminal cancel h = absurd (ground arith)
RunStep-terminal cancel_waiting h = absurd (ground arith)

Journey-terminal :
    {es : List Event} {s t : State} → Journey es s t → terminal s.run ≡ true → t.run ≡ s.run
Journey-terminal done over = refl
Journey-terminal {s = s} (event {e = e} accepted rest) over =
    let same = RunStep-terminal (apply-RunStep e s) over in
    Journey-terminal rest (ap terminal same ∙ over) ∙ same

-- A run that has succeeded, failed or been cancelled keeps that state through every journal that
-- replays from there.
pub replay-terminal :
    (es : List Event) (s t : State) → replay es s ≡ ok t → terminal s.run ≡ true → t.run ≡ s.run
replay-terminal es s t h over = Journey-terminal (replay-Journey es s t h) over
