-- ===== src/Successor/Scenarios.antt =====
-- Failures that the theorems of the oracle are applied to.
use partitur.Prelude.{◌≡◌, refl, true, [], ◌∷◌, pos, ltb_ℤ, ◌⊎◌}
use partitur.Successor.{
  ClassificationInput, Realization, ok, pending_successor, realize, retry_disposition,
}
use partitur.Successor.Chain.{Chain, over, fell_back, Bounded, Chain-Bounded}
use partitur.Successor.Proofs.{replay_input, classify-bounded}

abbrev rate_limited : ClassificationInput
rate_limited = record {
  failure = record { attempt_kind = "rate_limited"; acceptance_reason = "" };
  has_unvisited_fallback = true;
  retries_consumed = pos 0;
  retries_per_movement = pos 2;
  remaining_time_ms = pos 60000;
}

classify-bounded_example :
    (ltb_ℤ (pos 0) (pos 60000) ≡ true)
    × (((retry_disposition "fallback").charged ≡ "fallback")
        ⊎ (((retry_disposition "fallback").charged ≡ "quality_retry")
            × (ltb_ℤ (pos 0) (pos 2) ≡ true)))
unfolding partitur.Successor.classify partitur.Successor.classify_failure
classify-bounded_example = classify-bounded rate_limited (retry_disposition "fallback") refl refl

abbrev fallen : Realization
fallen = record {
  action = pending_successor;
  performer = "p2";
  charge = "fallback";
  terminal_reason = "";
}

fallen_back :
    realize (replay_input (retry_disposition "fallback") "p1" ("p1" ∷ "p2" ∷ []) []) ≡ ok fallen
unfolding realize partitur.Successor.next_unvisited
fallen_back = refl

one_fallback : Chain ("p1" ∷ "p2" ∷ []) "p1" [] ("p2" ∷ [])
one_fallback = fell_back (retry_disposition "fallback") fallen fallen_back refl over

Chain-Bounded_example : Bounded ("p1" ∷ "p2" ∷ []) "p1" [] ("p2" ∷ [])
Chain-Bounded_example = Chain-Bounded ("p1" ∷ "p2" ∷ []) "p1" [] ("p2" ∷ []) one_fallback
