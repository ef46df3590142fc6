-- ===== src/Amendment/Closed.antt =====
-- internal/amendment/evaluator.go: the loop of `movementOrDownstreamStarted` ends, with a selection
-- that has all that is downstream of the movement.
use mathlib.Core.List.{Memᴰ}
use partitur.Prelude.{
  ◌≡◌, refl, sym, subst, arith, ℕ, zero, suc, ◌+◌, ◌≤◌, ◌<◌, String, Bool, true, false, ◌&&◌, not,
  List, [], ◌∷◌, str_eq, eq_iff, contains, length, if◌then◌else◌, Bool-cases, inl, inr,
}
use partitur.Score.Views.{MovementView}
use partitur.Amendment.Scope.{any_within, joins, pass, select_downstream}

-- A movement is downstream of itself, and of what it needs.
pub data Downstream (ms : List MovementView) (id : String) : String → Type 0 where
  itself : Downstream ms id id
  needing :
      (m : MovementView) (n : String)
      → Memᴰ m ms
      → contains m.needs n ≡ true
      → Downstream ms id n
      → Downstream ms id m.id

-- The movements that are not selected.
unfoldable pub missing : List MovementView → List String → ℕ
missing [] selected = 0
missing (m ∷ ms) selected =
    let rest = missing ms selected in if contains selected m.id then rest else suc rest

abbrev count : Bool → ℕ
count true = 1
count false = 0

-- No movement joins any more.
unfoldable pub closed : List MovementView → List String → Bool
closed [] selected = true
closed (m ∷ ms) selected = not (joins m selected) && closed ms selected

missing_mono :
    (x : String) (ms : List MovementView) (selected : List String)
    → missing ms (x ∷ selected) ≤ missing ms selected
unfolding missing
missing_mono x [] selected = omega arith
missing_mono x (m ∷ ms) selected = ground (arith, missing_mono x ms selected)

pub missing_bound :
    (ms : List MovementView) (selected : List String) → missing ms selected ≤ length ms
unfolding missing
missing_bound [] selected = omega arith
missing_bound (m ∷ ms) selected = ground (arith, missing_bound ms selected)

pub str_eq_refl : (x : String) → str_eq x x ≡ true
str_eq_refl x = (eq_iff x x).1 refl

pass-keeps :
    (x : String) (ms : List MovementView) (selected : List String) (changed : Bool)
    → contains selected x ≡ true
    → contains (pass ms selected changed).0 x ≡ true
unfolding pass
pass-keeps x [] selected changed h = h
pass-keeps x (m ∷ ms) selected changed h = elim (Bool-cases (joins m selected)) [
  | inl new ↦ ground (arith, pass-keeps x ms (m.id ∷ selected) true)
  | inr old ↦ ground (arith, pass-keeps x ms selected changed)
]

-- A pass that changes the selection leaves fewer movements out.
pass-missing :
    (ms : List MovementView) (selected : List String) (changed : Bool)
    → missing ms (pass ms selected changed).0 + count (pass ms selected changed).1
      ≤ missing ms selected + count changed
unfolding pass missing
pass-missing [] selected changed = omega arith
pass-missing (m ∷ ms) selected changed = elim (Bool-cases (joins m selected)) [
  | inl new ↦ ground (
    arith,
    pass-missing ms (m.id ∷ selected) true,
    missing_mono m.id ms selected,
    pass-keeps m.id ms (m.id ∷ selected) true,
    str_eq_refl m.id,
  )
  | inr old ↦ ground (arith, pass-missing ms selected changed, pass-keeps m.id ms selected changed)
]

pass_stays : (ms : List MovementView) (selected : List String) → (pass ms selected true).1 ≡ true
unfolding pass
pass_stays [] selected = refl
pass_stays (m ∷ ms) selected =
    pass_stays ms (if joins m selected then m.id ∷ selected else selected)

-- A pass that changes nothing leaves a selection that no movement joins.
pass-closed :
    (ms : List MovementView) (selected : List String)
    → (pass ms selected false).1 ≡ false
    → ((pass ms selected false).0 ≡ selected) × (closed ms selected ≡ true)
unfolding pass closed
pass-closed [] selected h = (refl, refl)
pass-closed (m ∷ ms) selected h = elim (Bool-cases (joins m selected)) [
  | inl new ↦ absurd (ground (arith, pass_stays ms (m.id ∷ selected)))
  | inr old ↦ ground (arith, pass-closed ms selected)
]

pub select-keeps :
    (x : String) (fuel : ℕ) (ms : List MovementView) (selected : List String)
    → contains selected x ≡ true
    → contains (select_downstream fuel ms selected) x ≡ true
unfolding select_downstream
select-keeps x zero ms selected h = h
select-keeps x (suc fuel) ms selected h =
    ground
      (arith, select-keeps x fuel ms (pass ms selected false).0, pass-keeps x ms selected false)

-- With more fuel than there are movements left, the loop has ended by itself.
pub select-closed :
    (fuel : ℕ) (ms : List MovementView) (selected : List String)
    → missing ms selected < fuel
    → closed ms (select_downstream fuel ms selected) ≡ true
unfolding select_downstream
select-closed zero ms selected h = absurd (omega arith)
select-closed (suc fuel) ms selected h = elim (Bool-cases (pass ms selected false).1) [
  | inl more ↦
      ground
        (arith, select-closed fuel ms (pass ms selected false).0, pass-missing ms selected false)
  | inr done ↦ ground (arith, pass-closed ms selected)
]

joins_none :
    (m : MovementView) (ms : List MovementView) (selected : List String)
    → Memᴰ m ms
    → closed ms selected ≡ true
    → joins m selected ≡ false
unfolding closed
joins_none m [] selected there h = elim there [ ]
joins_none m (x ∷ ms) selected (Memᴰ.head same) h =
    subst (λ y. joins y selected ≡ false) (sym same) (ground arith)
joins_none m (x ∷ ms) selected (Memᴰ.tail later) h = joins_none m ms selected later (ground arith)

any_within_here :
    (selected needs : List String) (n : String)
    → contains needs n ≡ true
    → contains selected n ≡ true
    → any_within selected needs ≡ true
unfolding any_within
any_within_here selected [] n h k = absurd (ground arith)
any_within_here selected (x ∷ needs) n h k = elim (Bool-cases (str_eq x n)) [
  | inl same ↦
      let there = subst (λ y. contains selected y ≡ true) (sym ((eq_iff x n).0 same)) k in
      ground arith
  | inr other ↦ ground (arith, any_within_here selected needs n)
]

-- A closed selection that has the movement has all that is downstream of it.
pub closed_complete :
    (ms : List MovementView) (selected : List String) (id x : String)
    → closed ms selected ≡ true
    → contains selected id ≡ true
    → Downstream ms id x
    → contains selected x ≡ true
closed_complete ms selected id x h k Downstream.itself = k
closed_complete ms selected id x h k (Downstream.needing m n there needs d) = ground (
  arith,
  joins_none m ms selected there h,
  any_within_here selected m.needs n needs (closed_complete ms selected id n h k d),
)
