-- ===== src/RunState/Footprint.antt =====
-- What each event of internal/runstate/apply.go may write, by the fields of the state.
pub mod Events
pub mod Dispatch
use partitur.Prelude.{◌≡◌, arith, Bool, true, false}
use partitur.RunState.Event
use partitur.RunState.Event.{EventType}
use partitur.RunState.State.{State}

pub record Footprint : Type 0 where
  pub run : Bool
  pub movements : Bool
  pub head : Bool
  pub attempts : Bool
  pub score_head : Bool
  pub authority : Bool
  pub prepare : Bool
  pub execution : Bool
  pub evidence : Bool
  pub results : Bool
  pub candidate : Bool
  pub application : Bool
  pub promotion : Bool
  pub acceptances : Bool
  pub decisions : Bool
  pub answers : Bool
  pub gates : Bool
  pub routed : Bool
  pub cancellation : Bool
  pub sources : Bool
  pub rejected : Bool

abbrev pub untouched : Footprint
untouched = record {
  run = false;
  movements = false;
  head = false;
  attempts = false;
  score_head = false;
  authority = false;
  prepare = false;
  execution = false;
  evidence = false;
  results = false;
  candidate = false;
  application = false;
  promotion = false;
  acceptances = false;
  decisions = false;
  answers = false;
  gates = false;
  routed = false;
  cancellation = false;
  sources = false;
  rejected = false;
}

abbrev closing : Footprint
closing = record untouched { run = true; movements = true; decisions = true }

abbrev pub footprint : EventType → Footprint
footprint EventType.run_started = record untouched { run = true; score_head = true }
footprint EventType.run_succeeded = record closing { candidate = true }
footprint EventType.run_failed = closing
footprint EventType.run_cancelled = record closing { attempts = true; authority = true }
footprint EventType.movement_ready = record untouched { movements = true }
footprint EventType.movement_started = record untouched { movements = true }
footprint EventType.movement_succeeded = record closing { results = true }
footprint EventType.movement_failed = record closing { attempts = true }
footprint EventType.performer_selected = record untouched { attempts = true }
footprint EventType.attempt_started = record untouched { attempts = true; evidence = true }
footprint EventType.adapter_probed = record untouched { evidence = true }
footprint EventType.performer_completed = record untouched { attempts = true }
footprint EventType.attempt_completed = record untouched { attempts = true }
footprint EventType.attempt_blocked = record untouched { attempts = true; sources = true }
footprint EventType.attempt_failed = record untouched { attempts = true }
footprint EventType.artifact_recorded = record untouched { evidence = true }
footprint EventType.change_set_recorded = record untouched { evidence = true }
footprint EventType.verification_passed = record untouched { evidence = true }
footprint EventType.application_candidate_recorded = record untouched { candidate = true }
footprint EventType.acceptance_started = record untouched { acceptances = true }
footprint EventType.criterion_started = record untouched { acceptances = true }
footprint EventType.criterion_completed = record untouched { acceptances = true }
footprint EventType.acceptance_failed = record untouched { attempts = true }
footprint EventType.acceptance_evaluation_completed = record untouched { acceptances = true }
footprint EventType.decision_requested = closing
footprint EventType.decision_resolved = record closing { answers = true; gates = true }
footprint EventType.amendment_rejected = record closing {
  answers = true;
  routed = true;
  rejected = true;
}
footprint EventType.amendment_human_rejected = record closing { answers = true; routed = true }
footprint EventType.amendment_routed_human = record untouched { routed = true }
footprint EventType.amendment_approval_prepared = record untouched { prepare = true }
footprint EventType.amendment_quiesce_observed = record untouched { prepare = true }
footprint EventType.amendment_approval_abandoned = record untouched { prepare = true }
footprint EventType.amendment_approved = record closing {
  head = true;
  attempts = true;
  score_head = true;
  authority = true;
  prepare = true;
  answers = true;
  routed = true;
}
footprint EventType.execution_started = record untouched { execution = true }
footprint EventType.execution_stopped = record untouched { execution = true }
footprint EventType.execution_elapsed_checkpointed = record untouched { execution = true }
footprint EventType.authority_granted = record untouched { authority = true }
footprint EventType.cancel_requested = record untouched { cancellation = true }
footprint EventType.apply_started = record untouched { application = true }
footprint EventType.apply_completed = record untouched { application = true }
footprint EventType.apply_failed = record untouched { application = true }
footprint EventType.apply_recovery_required = record untouched { application = true }
footprint EventType.apply_recovery_resolved = record untouched { application = true }
footprint EventType.score_promotion_started = record untouched { promotion = true }
footprint EventType.score_promoted = record untouched { promotion = true }
footprint EventType.score_promotion_recovery_required = record untouched { promotion = true }
footprint _ = untouched

abbrev pub pick : {A : Type 0} → Bool → A → A → A
pick true old new = new
pick false old new = old

-- The second state, with the first one's fields where the footprint has none.
abbrev pub within : Footprint → State → State → State
within f s t = record {
  run = pick f.run s.run t.run;
  movements = pick f.movements s.movements t.movements;
  movement_order = pick f.head s.movement_order t.movement_order;
  repo_write_movements = pick f.head s.repo_write_movements t.repo_write_movements;
  dependency_movements = pick f.head s.dependency_movements t.dependency_movements;
  final_movements = pick f.head s.final_movements t.final_movements;
  attempts = pick f.attempts s.attempts t.attempts;
  score_head = pick f.score_head s.score_head t.score_head;
  authority = pick f.authority s.authority t.authority;
  pending_prepare = pick f.prepare s.pending_prepare t.pending_prepare;
  open_execution = pick f.execution s.open_execution t.open_execution;
  consumed_budget_ms = pick f.execution s.consumed_budget_ms t.consumed_budget_ms;
  adapter_launches = pick f.evidence s.adapter_launches t.adapter_launches;
  adapter_observations = pick f.evidence s.adapter_observations t.adapter_observations;
  artifacts = pick f.evidence s.artifacts t.artifacts;
  change_sets = pick f.evidence s.change_sets t.change_sets;
  verified_attempts = pick f.evidence s.verified_attempts t.verified_attempts;
  movement_results = pick f.results s.movement_results t.movement_results;
  application_candidate = pick f.candidate s.application_candidate t.application_candidate;
  application = pick f.application s.application t.application;
  promotion = pick f.promotion s.promotion t.promotion;
  criterion_launches = pick f.acceptances s.criterion_launches t.criterion_launches;
  acceptances = pick f.acceptances s.acceptances t.acceptances;
  pending_decisions = pick f.decisions s.pending_decisions t.pending_decisions;
  resolved_decisions = pick f.answers s.resolved_decisions t.resolved_decisions;
  resolved_human_gates = pick f.gates s.resolved_human_gates t.resolved_human_gates;
  routed_amendments = pick f.routed s.routed_amendments t.routed_amendments;
  cancel_requested = pick f.cancellation s.cancel_requested t.cancel_requested;
  question_sources = pick f.sources s.question_sources t.question_sources;
  proposal_route_sources = pick f.sources s.proposal_route_sources t.proposal_route_sources;
  rejected_amendments = pick f.rejected s.rejected_amendments t.rejected_amendments;
  applied_events = s.applied_events;
}

-- The second state differs from the first in the event's fields only.
abbrev pub Within : EventType → State → State → Type 0
Within t s new = new ≡ within (footprint t) s new

-- A field outside the footprint is the old one.
pub pick_lem : {A : Type 0} {old new : A} (b : Bool) → b ≡ false → new ≡ pick b old new → new ≡ old
pick_lem true h _ = absurd (ground arith)
pick_lem false _ h = h
