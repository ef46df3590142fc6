-- ===== src/Recovery/Requests.antt =====
-- internal/recovery/planner.go: the routed request that is missing does not depend on the order in
-- which the map is gone through, and is the least.
use mathlib.Core.List.{Permᴰ}
use partitur.Prelude.{
  ◌≡◌, refl, arith, String, Bool, true, false, ◌&&◌, not, none, some, [], ◌∷◌, str_eq, eq_iff, ◌∙◌,
  ap, subst, str_ltb_trans, str_ltb_asym, str_ltb_total, if◌then◌else◌,
}
use partitur.Dict.{Dict}
use partitur.RunState.Types.{PendingDecision, RoutedAmendment}
use partitur.RunState.State.{State}
use partitur.Recovery.Least.{pick_routed, select_routed, first_missing_routed_request}

-- Each route has the identifier of its proposal.
unfoldable pub all_named : Dict RoutedAmendment → Bool
all_named [] = true
all_named ((id, _) ∷ rs) = not (str_eq id "") && all_named rs

pick_routed_comm :
    (ds : Dict PendingDecision) (i j : String) (r q : RoutedAmendment) (x : String)
    → str_eq i "" ≡ false
    → str_eq j "" ≡ false
    → pick_routed ds i r (pick_routed ds j q x) ≡ pick_routed ds j q (pick_routed ds i r x)
unfolding pick_routed
pick_routed_comm ds i j r q x hi hj =
    grind (arith, str_ltb_trans, str_ltb_asym, str_ltb_total, eq_iff)

all_named-perm :
    {rs qs : Dict RoutedAmendment} → Permᴰ rs qs → all_named rs ≡ true → all_named qs ≡ true
unfolding all_named
all_named-perm Permᴰ.nil h = refl
all_named-perm (Permᴰ.cons {a} {b} {l₂ = qs} e p) h =
    let tail = all_named-perm p (ground arith) in
    subst (λ (x : String × RoutedAmendment). all_named (x ∷ qs) ≡ true) e (ground arith)
all_named-perm (Permᴰ.swap {a} {b} {b' = b'} {l = rs} e₁ e₂) h =
    subst (λ (x : String × RoutedAmendment). all_named (x ∷ b' ∷ rs) ≡ true) e₂
      (subst (λ (x : String × RoutedAmendment). all_named (b ∷ x ∷ rs) ≡ true) e₁ (ground arith))
all_named-perm (Permᴰ.trans p q) h = all_named-perm q (all_named-perm p h)

select_routed-perm :
    (ds : Dict PendingDecision) {rs qs : Dict RoutedAmendment} (x : String)
    → Permᴰ rs qs
    → all_named rs ≡ true
    → select_routed ds rs x ≡ select_routed ds qs x
unfolding select_routed all_named
select_routed-perm ds x Permᴰ.nil h = refl
select_routed-perm ds x (Permᴰ.cons {a} {b} {l₂ = qs} e p) h =
    select_routed-perm ds (pick_routed ds a.0 a.1 x) p (ground arith)
    ∙ ap (λ (y : String × RoutedAmendment). select_routed ds qs (pick_routed ds y.0 y.1 x)) e
select_routed-perm ds x (Permᴰ.swap {a} {b} {a'} {b'} {l = rs} e₁ e₂) h = ap (select_routed ds rs) (
    pick_routed_comm ds b.0 a.0 b.1 a.1 x (ground arith) (ground arith)
    ∙ ap (λ (y : String × RoutedAmendment). pick_routed ds y.0 y.1 (pick_routed ds b.0 b.1 x)) e₁
    ∙ ap (λ (y : String × RoutedAmendment). pick_routed ds b'.0 b'.1 (pick_routed ds y.0 y.1 x)) e₂)
select_routed-perm ds x (Permᴰ.trans p q) h =
    select_routed-perm ds x p h ∙ select_routed-perm ds x q (all_named-perm p h)

-- Two states that differ in the order of their routed amendments, each under the identifier of its
-- proposal, have the same first missing request: the order in which Go goes through the map does
-- not matter.
pub first_missing_routed_request-perm :
    (s : State) (qs : Dict RoutedAmendment)
    → all_named s.routed_amendments ≡ true
    → Permᴰ s.routed_amendments qs
    → first_missing_routed_request s
      ≡ first_missing_routed_request (record s { routed_amendments = qs })
unfolding first_missing_routed_request
first_missing_routed_request-perm s qs h p =
    ap (λ x. if str_eq x "" then none else some x) (select_routed-perm s.pending_decisions "" p h)
