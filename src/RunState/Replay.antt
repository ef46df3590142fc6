-- ===== src/RunState/Replay.antt =====
-- internal/runstore/journal.go: `replayJournal`, the fold of `Apply` over a journal.
use partitur.Prelude.{◌≡◌, arith, refl, subst, List, [], ◌∷◌}
use partitur.RunState.Event.{Event}
use partitur.RunState.State.{State}
use partitur.RunState.Action.{Result, ok, err}
use partitur.RunState.Apply.{apply}

-- The loop of `replayJournal`: it stops at the first event that is refused.
unfoldable pub replay : List Event → State → Result State
replay [] s = ok s
replay (e ∷ es) s =
    let rest = replay es (apply e s).1 in elim (apply e s).0 [ ok _ ↦ rest | err x ↦ err x ]

-- The journal's events are accepted one by one, and lead from the first state to the second.
pub data Journey : List Event → State → State → Type 0 where
  done : {s : State} → Journey [] s s
  event :
      {e : Event} {es : List Event} {s t : State}
      → (apply e s).0 ≡ ok tt
      → Journey es (apply e s).1 t
      → Journey (e ∷ es) s t

-- A journal that replays does so event by event.
pub replay-Journey : (es : List Event) (s t : State) → replay es s ≡ ok t → Journey es s t
unfolding replay
replay-Journey [] s t h = subst (Journey [] s) (ground arith) done
replay-Journey (e ∷ es) s t h = go (apply e s).0 refl (replay-Journey es (apply e s).1 t) h
  where
    go :
        (r : Result (Unit {0}))
        → (apply e s).0 ≡ r
        → (replay es (apply e s).1 ≡ ok t → Journey es (apply e s).1 t)
        → elim r [ ok _ ↦ replay es (apply e s).1 | err x ↦ err x ] ≡ ok t
        → Journey (e ∷ es) s t
    go (ok _) accepted rest h = event accepted (rest h)
    go (err x) accepted rest h = absurd (ground arith)

-- What every accepted event keeps holds at the end of a journal, if it holds before.
pub journey_keeps :
    (R : State → Type 0)
    → ((e : Event) (s : State) → (apply e s).0 ≡ ok tt → R s → R (apply e s).1)
    → {es : List Event} {s t : State} → Journey es s t
    → R s
    → R t
journey_keeps R step done r = r
journey_keeps R step {s = s} (event {e = e} accepted rest) r =
    journey_keeps R step rest (step e s accepted r)
