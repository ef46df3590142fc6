-- ===== src/Successor/Chain.antt =====
-- internal/successor/oracle.go: the successors that `Realize` selects for a movement, one after the
-- other.
use partitur.Prelude.{
  ◌≡◌, refl, sym, subst, ◌∙◌, arith, ◌≤◌, String, Bool, true, false, not, ◌&&◌, some, List, [], ◌∷◌,
  length, contains, str_eq, eq_iff, Option-cases, inl, inr,
}
use partitur.RunState.Types.{Disposition}
use partitur.Successor.{ok, Realization, next_unvisited, realize}
use partitur.Successor.Proofs.{
  unvisited, unvisited_mono, next_unvisited_fresh, next_unvisited_less, replay_input,
}

-- The performers that fallbacks have selected, one after the other, from a current performer and
-- those that were visited before it. A retry goes on with the current performer. Each performer that
-- has had its attempt is visited from then on.
pub data Chain (fallbacks : List String) : String → List String → List String → Type 0 where
  over : {current : String} {visited : List String} → Chain fallbacks current visited []
  retried :
      {current : String} {visited xs : List String} (d : Disposition) (r : Realization)
      → realize (replay_input d current fallbacks visited) ≡ ok r
      → r.charge ≡ "quality_retry"
      → Chain fallbacks r.performer (current ∷ visited) xs
      → Chain fallbacks current visited xs
  fell_back :
      {current : String} {visited xs : List String} (d : Disposition) (r : Realization)
      → realize (replay_input d current fallbacks visited) ≡ ok r
      → r.charge ≡ "fallback"
      → Chain fallbacks r.performer (current ∷ visited) xs
      → Chain fallbacks current visited (r.performer ∷ xs)

-- None of the list is in the first one, or comes twice.
unfoldable pub all_new : List String → List String → Bool
all_new seen [] = true
all_new seen (x ∷ xs) = not (contains seen x) && all_new (x ∷ seen) xs

unfoldable pub all_among : List String → List String → Bool
all_among ys [] = true
all_among ys (x ∷ xs) = contains ys x && all_among ys xs

all_new_same :
    (seen other xs : List String)
    → ((y : String) → contains seen y ≡ contains other y)
    → all_new seen xs ≡ all_new other xs
unfolding all_new
all_new_same seen other [] h = refl
all_new_same seen other (x ∷ xs) h =
    ground (arith, h x, all_new_same (x ∷ seen) (x ∷ other) xs (λ y. ground (arith, h y)))

module _ (d : Disposition) (current : String) (fallbacks visited : List String)
    (r : Realization) where
  -- A realization has the charge of its disposition.
  charge_lem :
      realize (replay_input d current fallbacks visited) ≡ ok r → str_eq d.charged r.charge ≡ true
  unfolding realize
  charge_lem h = elim (Option-cases (next_unvisited (current ∷ visited) fallbacks)) [
    | inl nothing ↦ ground arith
    | inr (x, found) ↦ ground arith
  ]

  fallback_lem :
      realize (replay_input d current fallbacks visited) ≡ ok r
      → r.charge ≡ "fallback"
      → next_unvisited (current ∷ visited) fallbacks ≡ some r.performer
  unfolding realize
  fallback_lem h k =
      let charged : d.charged ≡ "fallback" = (eq_iff d.charged r.charge).0 (charge_lem h) ∙ k in
      let no_retry = subst (λ c. str_eq c "quality_retry" ≡ false) (sym charged) refl in
      let falls = subst (λ c. str_eq c "fallback" ≡ true) (sym charged) refl in
      elim (Option-cases (next_unvisited (current ∷ visited) fallbacks)) [
        | inl nothing ↦ absurd (ground arith)
        | inr (x, found) ↦ ground arith
      ]

  retry_lem :
      realize (replay_input d current fallbacks visited) ≡ ok r
      → r.charge ≡ "quality_retry"
      → r.performer ≡ current
  unfolding realize
  retry_lem h k = elim (Option-cases (next_unvisited (current ∷ visited) fallbacks)) [
    | inl nothing ↦ ground arith
    | inr (x, found) ↦ ground arith
  ]

-- What holds of the performers of a chain.
pub record Bounded (fallbacks : List String) (current : String) (visited xs : List String)
    : Type 0 where
  pub fresh : all_new (current ∷ visited) xs ≡ true
  pub bound : all_among fallbacks xs ≡ true
  pub count : length xs ≤ unvisited (current ∷ visited) fallbacks

-- The performers that fallbacks select for a movement, one after the other and with any retries
-- between them, are fallbacks of its binding; none is the performer that the movement began with or
-- one visited before it, and none is selected twice; there are at most as many as there were
-- unvisited fallbacks.
pub Chain-Bounded :
    (fallbacks : List String) (current : String) (visited xs : List String)
    → Chain fallbacks current visited xs
    → Bounded fallbacks current visited xs
unfolding all_new all_among
Chain-Bounded fallbacks current visited [] over = record {
  fresh = refl;
  bound = refl;
  count = omega arith;
}
Chain-Bounded fallbacks current visited xs (retried d r h k rest) =
    let same = retry_lem d current fallbacks visited r h k in
    let b =
      subst (λ c. Bounded fallbacks c (current ∷ visited) xs) same
        (Chain-Bounded fallbacks r.performer (current ∷ visited) xs rest) in
    record {
      fresh = ground (
        arith,
        b.fresh,
        all_new_same (current ∷ current ∷ visited) (current ∷ visited) xs (λ y. ground arith),
      );
      bound = b.bound;
      count = ground (arith, b.count, unvisited_mono current (current ∷ visited) fallbacks);
    }
Chain-Bounded fallbacks current visited (x ∷ xs) (fell_back d r h k rest) =
    let found = fallback_lem d current fallbacks visited r h k in
    let (new, listed) = next_unvisited_fresh (current ∷ visited) fallbacks r.performer found in
    let b = Chain-Bounded fallbacks r.performer (current ∷ visited) xs rest in
    record {
      fresh = ground (arith, b.fresh);
      bound = ground (arith, b.bound);
      count =
          ground
            (arith, b.count, next_unvisited_less (current ∷ visited) fallbacks r.performer found);
    }
