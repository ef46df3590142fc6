-- ===== src/Successor/Proofs.antt =====
-- internal/successor/oracle.go: what is decided can be realized, and each fallback that is selected is
-- a new one.
use partitur.Prelude.{
  ◌≡◌, refl, arith, String, Bool, true, false, ◌&&◌, some, List, [], ◌∷◌, str_eq, eq_iff, pos,
  ltb_ℤ, contains, is_some, subst, sym, ◌<◌, ◌≤◌, ℕ, suc, if◌then◌else◌, Bool-cases, Option-cases,
  inl, inr, ◌⊎◌, ap,
}
use partitur.RunState.Types.{Disposition}
use partitur.Successor.{
  Result, ok, err, FailureCase, ClassificationInput, FailureClass, infrastructure, quality,
  immediately_terminal, classify_failure, terminal_kinds, by_class, classify, is_zero,
  RealizationInput, Realization, pending_successor, movement_failed, next_unvisited, realize,
  retry_disposition, terminal_disposition, reason_for_budget, negative_budget, invalid_input,
}

-- The number of fallbacks that are not yet seen.
unfoldable pub unvisited : List String → List String → ℕ
unvisited seen [] = 0
unvisited seen (x ∷ xs) = let rest = unvisited seen xs in if contains seen x then rest else suc rest

pub unvisited_mono :
    (y : String) (seen xs : List String) → unvisited (y ∷ seen) xs ≤ unvisited seen xs
unfolding unvisited
unvisited_mono y seen [] = omega arith
unvisited_mono y seen (x ∷ xs) = ground (arith, unvisited_mono y seen xs)

pub next_unvisited_fresh :
    (seen xs : List String) (x : String)
    → next_unvisited seen xs ≡ some x
    → (contains seen x ≡ false) × (contains xs x ≡ true)
unfolding next_unvisited
next_unvisited_fresh seen [] x h = absurd (ground arith)
next_unvisited_fresh seen (y ∷ xs) x h = elim (Bool-cases (contains seen y)) [
  | inl old ↦ ground (arith, next_unvisited_fresh seen xs x)
  | inr new ↦
      let same : y ≡ x = ground arith in
      (subst (λ z. contains seen z ≡ false) same new, ground (arith, (eq_iff y x).1 same))
]

-- The fallback that is selected is fresh, so it leaves fewer for later.
pub next_unvisited_less :
    (seen xs : List String) (x : String)
    → next_unvisited seen xs ≡ some x
    → unvisited (x ∷ seen) xs < unvisited seen xs
unfolding next_unvisited unvisited
next_unvisited_less seen [] x h = absurd (ground arith)
next_unvisited_less seen (y ∷ xs) x h = elim (Bool-cases (contains seen y)) [
  | inl old ↦ ground (arith, next_unvisited_less seen xs x)
  | inr new ↦
      let same : y ≡ x = ground arith in
      ground (arith, unvisited_mono x seen xs, (eq_iff x y).1 (sym same))
]

terminal_kinds_named : (k : String) → contains terminal_kinds k ≡ true → str_eq k "" ≡ false
terminal_kinds_named k h = elim (Bool-cases (str_eq k "")) [
  | inl empty ↦
      let wrong = subst (λ x. contains terminal_kinds x ≡ true) ((eq_iff k "").0 empty) h in
      absurd (ground arith)
  | inr named ↦ named
]

-- A failure that ends its movement at once has a reason.
classified_named :
    (f : FailureCase) (reason : String)
    → classify_failure f ≡ ok (immediately_terminal reason)
    → str_eq reason "" ≡ false
unfolding classify_failure
classified_named f reason h = ground (arith, terminal_kinds_named reason)

-- The three dispositions that are decided on.
data Decided (i : ClassificationInput) (d : Disposition) : Type 0 where
  retried :
      d ≡ retry_disposition "quality_retry"
      → ltb_ℤ i.retries_consumed i.retries_per_movement ≡ true
      → ltb_ℤ (pos 0) i.remaining_time_ms ≡ true
      → Decided i d
  fell_back :
      d ≡ retry_disposition "fallback"
      → i.has_unvisited_fallback ≡ true
      → ltb_ℤ (pos 0) i.remaining_time_ms ≡ true
      → Decided i d
  closed :
      (reason : String) → d ≡ terminal_disposition reason → str_eq reason "" ≡ false → Decided i d

if_named :
    (b : Bool) (x : String)
    → str_eq x "" ≡ false
    → str_eq (if b then "budget_exhausted" else x) "" ≡ false
if_named true x h = refl
if_named false x h = h

by_class-Decided :
    (i : ClassificationInput) (c : FailureClass) (d : Disposition)
    → ((reason : String) → c ≡ immediately_terminal reason → str_eq reason "" ≡ false)
    → by_class i c ≡ d
    → Decided i d
by_class-Decided i infrastructure d named h =
    elim (Bool-cases (i.has_unvisited_fallback && ltb_ℤ (pos 0) i.remaining_time_ms)) [
      | inl both ↦ fell_back (ground arith) (ground arith) (ground arith)
      | inr over ↦
          closed (reason_for_budget i.remaining_time_ms "fallbacks_exhausted") (ground arith)
            (if_named (is_zero i.remaining_time_ms) "fallbacks_exhausted" refl)
    ]
by_class-Decided i quality d named h =
    elim (Bool-cases
      (ltb_ℤ i.retries_consumed i.retries_per_movement && ltb_ℤ (pos 0) i.remaining_time_ms)) [
        | inl both ↦ retried (ground arith) (ground arith) (ground arith)
        | inr over ↦
            closed (reason_for_budget i.remaining_time_ms "retries_exhausted") (ground arith)
              (if_named (is_zero i.remaining_time_ms) "retries_exhausted" refl)
      ]
by_class-Decided i (immediately_terminal reason) d named h =
    closed reason (sym h) (named reason refl)

classify-Decided : (i : ClassificationInput) (d : Disposition) → classify i ≡ ok d → Decided i d
unfolding classify
classify-Decided i d h = go (classify_failure i.failure) refl h
  where
    go :
        (r : Result FailureClass)
        → classify_failure i.failure ≡ r
        → (if negative_budget i
            then err invalid_input
            else elim r [ err x ↦ err x | ok c ↦ ok (by_class i c) ])
          ≡ ok d
        → Decided i d
    go (err x) e h = absurd (ground arith)
    go (ok c) e h =
        by_class-Decided i c d (λ reason same. classified_named i.failure reason (ground arith))
          (ground arith)

-- What is recorded is replayed as it was decided.
pub record Replays (d : Disposition) (r : Realization) : Type 0 where
  pub charge : r.charge ≡ d.charged
  pub reason : r.terminal_reason ≡ d.terminal_reason
  pub succeeds : (r.action ≡ pending_successor) ⊎ (d.movement_terminal ≡ true)

abbrev pub replay_input : Disposition → String → List String → List String → RealizationInput
replay_input d current fallbacks visited = record {
  disposition = d;
  current_performer = current;
  fallbacks = fallbacks;
  visited_performers = visited;
}

module _ (current : String) (fallbacks visited : List String) where
  -- The replay of a disposition succeeds.
  Realizes : Disposition → Type 0
  Realizes d =
      (r : Realization) × ((realize (replay_input d current fallbacks visited) ≡ ok r)
        × Replays d r)

  retry-Realizes : str_eq current "" ≡ false → Realizes (retry_disposition "quality_retry")
  unfolding Realizes realize
  retry-Realizes named = (
    record {
      action = pending_successor;
      performer = current;
      charge = "quality_retry";
      terminal_reason = "";
    },
    (rw named refl, record { charge = refl; reason = refl; succeeds = inl refl }),
  )

  fallback-Realizes :
      (x : String)
      → next_unvisited (current ∷ visited) fallbacks ≡ some x
      → Realizes (retry_disposition "fallback")
  unfolding Realizes realize
  fallback-Realizes x found = (
    record { action = pending_successor; performer = x; charge = "fallback"; terminal_reason = "" },
    (rw found refl, record { charge = refl; reason = refl; succeeds = inl refl }),
  )

  ended-Realizes :
      (reason : String) → str_eq reason "" ≡ false → Realizes (terminal_disposition reason)
  unfolding Realizes realize
  ended-Realizes reason given = (
    record { action = movement_failed; performer = ""; charge = "none"; terminal_reason = reason },
    (rw given refl, record { charge = refl; reason = refl; succeeds = inr refl }),
  )

  Decided-Realizes :
      (i : ClassificationInput) (d : Disposition)
      → str_eq current "" ≡ false
      → i.has_unvisited_fallback ≡ is_some (next_unvisited (current ∷ visited) fallbacks)
      → Decided i d
      → Realizes d
  Decided-Realizes i d named agrees (retried e bound time) =
      subst Realizes (sym e) (retry-Realizes named)
  Decided-Realizes i d named agrees (fell_back e has time) =
      elim (Option-cases (next_unvisited (current ∷ visited) fallbacks)) [
        | inl nothing ↦ absurd (ground arith)
        | inr (x, found) ↦ subst Realizes (sym e) (fallback-Realizes x found)
      ]
  Decided-Realizes i d named agrees (closed reason e given) =
      subst Realizes (sym e) (ended-Realizes reason given)

  -- What `Classify` decides, `Realize` replays with the same charge and reason, if there is a current
  -- performer and `Classify` was told rightly whether a fallback is unvisited: the replay selects a
  -- successor, or fails a movement that the disposition ends.
  pub classify-realize :
      (i : ClassificationInput) (d : Disposition)
      → str_eq current "" ≡ false
      → i.has_unvisited_fallback ≡ is_some (next_unvisited (current ∷ visited) fallbacks)
      → classify i ≡ ok d
      → (r : Realization) × ((realize (replay_input d current fallbacks visited) ≡ ok r)
          × Replays d r)
  unfolding Realizes
  classify-realize i d named agrees h = Decided-Realizes i d named agrees (classify-Decided i d h)

-- `Classify` grants another attempt only while time remains, and a retry only below the movement's
-- bound.
pub classify-bounded :
    (i : ClassificationInput) (d : Disposition)
    → classify i ≡ ok d
    → d.movement_terminal ≡ false
    → (ltb_ℤ (pos 0) i.remaining_time_ms ≡ true)
      × ((d.charged ≡ "fallback")
          ⊎ ((d.charged ≡ "quality_retry")
              × (ltb_ℤ i.retries_consumed i.retries_per_movement ≡ true)))
classify-bounded i d h goes_on = go (classify-Decided i d h)
  where
    go :
        Decided i d
        → (ltb_ℤ (pos 0) i.remaining_time_ms ≡ true)
          × ((d.charged ≡ "fallback")
              ⊎ ((d.charged ≡ "quality_retry")
                  × (ltb_ℤ i.retries_consumed i.retries_per_movement ≡ true)))
    go (retried e bound time) = (time, inr (ap (λ (x : Disposition). x.charged) e, bound))
    go (fell_back e has time) = (time, inl (ap (λ (x : Disposition). x.charged) e))
    go (closed reason e given) =
        absurd (ground (arith, ap (λ (x : Disposition). x.movement_terminal) e))
