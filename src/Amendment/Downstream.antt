-- ===== src/Amendment/Downstream.antt =====
-- internal/amendment/evaluator.go: the movements that `movementOrDownstreamStarted` selects are just
-- those downstream of the given one.
use mathlib.Core.List.{Memᴰ}
use partitur.Prelude.{
  ◌≡◌, refl, sym, subst, arith, ℕ, zero, suc, String, Bool, true, false, ◌||◌, List, [], ◌∷◌,
  str_eq, eq_iff, contains, length, if◌then◌else◌, Bool-cases, inl, inr, ◌↔◌,
}
use partitur.RunState.State.{State}
use partitur.Score.Views.{MovementView}
use partitur.Amendment.Scope.{
  movement_started, any_within, joins, pass, select_downstream, any_started, downstream,
  movement_or_downstream_started,
}
use partitur.Amendment.Closed.{
  Downstream, missing_bound, str_eq_refl, select-keeps, select-closed, closed_complete,
}

-- Each name in the list is downstream.
abbrev AllDownstream : List MovementView → String → List String → Type 0
AllDownstream all id selected = (x : String) → contains selected x ≡ true → Downstream all id x

any_within_some :
    (selected needs : List String)
    → any_within selected needs ≡ true
    → (n : String) × (contains needs n ≡ true) × (contains selected n ≡ true)
unfolding any_within
any_within_some selected [] h = absurd (ground arith)
any_within_some selected (x ∷ needs) h = elim (Bool-cases (contains selected x)) [
  | inl here ↦ (x, ground (arith, str_eq_refl x), here)
  | inr other ↦
      let (n, needed, there) = any_within_some selected needs (ground arith) in
      (n, ground arith, there)
]

joined-AllDownstream :
    (all : List MovementView) (id : String) (m : MovementView) (selected : List String)
    → Memᴰ m all
    → AllDownstream all id selected
    → joins m selected ≡ true
    → AllDownstream all id (m.id ∷ selected)
joined-AllDownstream all id m selected there sound joined x h = elim (Bool-cases (str_eq m.id x)) [
  | inl same ↦
      let (n, needed, chosen) = any_within_some selected m.needs (ground arith) in
      subst (Downstream all id) ((eq_iff m.id x).0 same)
        (Downstream.needing m n there needed (sound n chosen))
  | inr other ↦ sound x (ground arith)
]

pass-AllDownstream :
    (all : List MovementView) (id : String) (ms : List MovementView) (selected : List String)
    (changed : Bool)
    → ((m : MovementView) → Memᴰ m ms → Memᴰ m all)
    → AllDownstream all id selected
    → AllDownstream all id (pass ms selected changed).0
unfolding pass
pass-AllDownstream all id [] selected changed within sound = sound
pass-AllDownstream all id (m ∷ ms) selected changed within sound =
    pass-AllDownstream all id ms (if joins m selected then m.id ∷ selected else selected)
      (changed || joins m selected) (λ y there. within y (Memᴰ.tail there))
      (elim (Bool-cases (joins m selected)) [
        | inl new ↦ λ x h.
            joined-AllDownstream all id m selected (within m (Memᴰ.head refl)) sound new x
              (ground arith)
        | inr old ↦ λ x h. sound x (ground arith)
      ])

select-AllDownstream :
    (fuel : ℕ) (ms : List MovementView) (id : String) (selected : List String)
    → AllDownstream ms id selected
    → AllDownstream ms id (select_downstream fuel ms selected)
unfolding select_downstream
select-AllDownstream zero ms id selected sound = sound
select-AllDownstream (suc fuel) ms id selected sound =
    let next = pass-AllDownstream ms id ms selected false (λ m there. there) sound in
    elim (Bool-cases (pass ms selected false).1) [
      | inl more ↦
          λ x h. select-AllDownstream fuel ms id (pass ms selected false).0 next x (ground arith)
      | inr done ↦ λ x h. next x (ground arith)
    ]

-- The loop selects just what is downstream of the movement.
pub downstream_iff :
    (ms : List MovementView) (id x : String)
    → (contains (downstream ms id) x ≡ true) ↔ Downstream ms id x
downstream_iff ms id x =
    let here : contains (id ∷ []) id ≡ true = ground (arith, str_eq_refl id) in
    let ended =
      select-closed (suc (length ms)) ms (id ∷ []) (omega (arith, missing_bound ms (id ∷ []))) in
    (
      select-AllDownstream (suc (length ms)) ms id (id ∷ [])
          (λ y h. subst (Downstream ms id) ((eq_iff id y).0 (ground arith)) Downstream.itself) x,
      closed_complete ms (downstream ms id) id x ended
          (select-keeps id (suc (length ms)) ms (id ∷ []) here),
    )

any_started_some :
    (s : State) (ids : List String)
    → any_started s ids ≡ true
    → (x : String) × (contains ids x ≡ true) × (movement_started s x ≡ true)
unfolding any_started
any_started_some s [] h = absurd (ground arith)
any_started_some s (id ∷ ids) h = elim (Bool-cases (movement_started s id)) [
  | inl started ↦ (id, ground (arith, str_eq_refl id), started)
  | inr other ↦
      let (x, there, started) = any_started_some s ids (ground arith) in (x, ground arith, started)
]

any_started_here :
    (s : State) (ids : List String) (x : String)
    → contains ids x ≡ true
    → movement_started s x ≡ true
    → any_started s ids ≡ true
unfolding any_started
any_started_here s [] x h k = absurd (ground arith)
any_started_here s (id ∷ ids) x h k = elim (Bool-cases (str_eq id x)) [
  | inl same ↦
      let started = subst (λ y. movement_started s y ≡ true) (sym ((eq_iff id x).0 same)) k in
      ground arith
  | inr other ↦ ground (arith, any_started_here s ids x)
]

-- `movementOrDownstreamStarted` reports just whether some movement downstream of the given one, in
-- the order that `needs` makes, has an attempt.
pub movement_or_downstream_started_iff :
    (ms : List MovementView) (s : State) (id : String)
    → (movement_or_downstream_started ms s id ≡ true)
      ↔ ((x : String) × Downstream ms id x × (movement_started s x ≡ true))
unfolding movement_or_downstream_started
movement_or_downstream_started_iff ms s id = (
  λ h.
      let (x, there, started) = any_started_some s (downstream ms id) h in
      (x, (downstream_iff ms id x).0 there, started),
  λ (x, d, started). any_started_here s (downstream ms id) x ((downstream_iff ms id x).1 d) started,
)
