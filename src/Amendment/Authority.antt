-- ===== src/Amendment/Authority.antt =====
-- internal/amendment/evaluator.go with internal/score/impact.go: the score that is approved without a
-- human has no authority that the base has not.
use partitur.Prelude.{◌≡◌, subst, arith, String, true, false, some, contains}
use partitur.Json.{Value}
use partitur.Score.Document.{Score}
use partitur.Score.Impact.{Impact}
use partitur.Score.Compare.{compare}
use partitur.Score.Narrower.{Narrower, compare-Narrower}
use partitur.Score.Grants.{grants_named, grants_lem}
use partitur.Amendment.Types.{Kind, Input, Outcome, Toolchain}
use partitur.Amendment.Evaluate.{evaluate}
use partitur.Amendment.Narrow.{narrows, evaluate-Unattended}

-- The policy is narrower, and no movement has a grant that it had not.
pub record NoBroader (before after : Score) : Type 0 where
  pub policy : Narrower before after
  pub grants :
      (id x : String)
      → contains (grants_named id after) x ≡ true
      → contains (grants_named id before) x ≡ true

-- The tools with the comparison of internal/score.
abbrev pub comparing : (String → Value → String) → Toolchain → Toolchain
comparing subtree_hash t = record t { compare = compare subtree_hash }

narrows-NoBroader :
    (subtree_hash : String → Value → String) (before after : Score) (impact : Impact)
    → compare subtree_hash before after ≡ some impact
    → narrows impact ≡ true
    → NoBroader before after
narrows-NoBroader subtree_hash before after impact compared h = record {
  policy =
      compare-Narrower subtree_hash before after impact compared (ground arith) (ground arith)
        (ground arith) (ground arith);
  grants = grants_lem subtree_hash before after impact compared (ground arith);
}

-- The score of an amendment that is approved without a human's decision, after the comparison of
-- internal/score, allows no path and no side effect that the base does not, has no budget above the
-- base's, and grants a movement nothing that the base does not grant it.
pub evaluate-NoBroader :
    (subtree_hash : String → Value → String) (t : Toolchain) (i : Input) (o : Outcome)
    (base patched : Score)
    → evaluate (comparing subtree_hash t) i ≡ some o
    → o.kind ≡ Kind.approved
    → i.human_decision ≡ false
    → i.base ≡ some base
    → o.patched ≡ some patched
    → NoBroader base patched
evaluate-NoBroader subtree_hash t i o base patched h k human given made =
    let u = evaluate-Unattended (comparing subtree_hash t) i o h k human in
    let from : u.base ≡ base = ground (arith, u.given) in
    let to : u.patched ≡ patched = ground (arith, u.made) in
    subst (λ b. NoBroader b patched) from
      (subst (NoBroader u.base) to
        (narrows-NoBroader subtree_hash u.base u.patched u.impact u.compared u.narrow))
