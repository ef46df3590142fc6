-- ===== src/Prelude/TextOrder.antt =====
-- Go's order on strings is a strict linear order.
use Prim.Native.Nat.{Ordering}
use Prim.Native.String.compare as clauses
use Prim.Native.String.{String, [], ◌∷◌, compare}
use mathlib.Core.Path.{◌≡◌}
use mathlib.Core.Bool.{true, false}
use native.Mathlib.Omega.{arith}
use text.Mathlib.TextEquality.{path_by_compare}
use partitur.Prelude.Tests.{str_ltb}

less_trans :
    (s t u : String)
    → compare s t ≡ Ordering.lt
    → compare t u ≡ Ordering.lt
    → compare s u ≡ Ordering.lt
less_trans [] [] u p q = absurd (ground (arith, clauses.nil-nil))
less_trans [] (d ∷ t) [] p q = absurd (ground (arith, clauses.cons-nil d t))
less_trans [] (d ∷ t) (e ∷ u) p q = clauses.nil-cons e u
less_trans (c ∷ s) [] u p q = absurd (ground (arith, clauses.cons-nil c s))
less_trans (c ∷ s) (d ∷ t) [] p q = absurd (ground (arith, clauses.cons-nil d t))
less_trans (c ∷ s) (d ∷ t) (e ∷ u) p q = ground (
  arith,
  less_trans s t u,
  clauses.cons-cons c d s t,
  clauses.cons-cons d e t u,
  clauses.cons-cons c e s u,
)

greater_flip : (s t : String) → compare s t ≡ Ordering.gt → compare t s ≡ Ordering.lt
greater_flip [] [] p = absurd (ground (arith, clauses.nil-nil))
greater_flip [] (d ∷ t) p = absurd (ground (arith, clauses.nil-cons d t))
greater_flip (c ∷ s) [] p = clauses.nil-cons c s
greater_flip (c ∷ s) (d ∷ t) p =
    ground (arith, greater_flip s t, clauses.cons-cons c d s t, clauses.cons-cons d c t s)

less_flip : (s t : String) → compare s t ≡ Ordering.lt → compare t s ≡ Ordering.gt
less_flip [] [] p = absurd (ground (arith, clauses.nil-nil))
less_flip [] (d ∷ t) p = clauses.cons-nil d t
less_flip (c ∷ s) [] p = absurd (ground (arith, clauses.cons-nil c s))
less_flip (c ∷ s) (d ∷ t) p =
    ground (arith, less_flip s t, clauses.cons-cons c d s t, clauses.cons-cons d c t s)

pub str_ltb_trans : (s t u : String) → str_ltb s t ≡ true → str_ltb t u ≡ true → str_ltb s u ≡ true
str_ltb_trans s t u p q = ground (arith, less_trans s t u)

pub str_ltb_asym : (s t : String) → str_ltb s t ≡ true → str_ltb t s ≡ false
str_ltb_asym s t p = ground (arith, less_flip s t)

pub str_ltb_total : (s t : String) → str_ltb s t ≡ false → str_ltb t s ≡ false → s ≡ t
str_ltb_total s t p q = ground (arith, greater_flip s t, path_by_compare s t)
