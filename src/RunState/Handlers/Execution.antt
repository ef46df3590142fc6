-- ===== src/RunState/Handlers/Execution.antt =====
-- internal/runstate/apply.go: the execution intervals, the authority and the journal repair.
use partitur.Prelude.{
  String, Bool, false, ◌||◌, Option, none, some, ℤ, pos, str_eq, leb, leb_ℤ, ltb_ℤ, ◌==◌, is_some,
  add_int64, if◌then◌else◌,
}
use partitur.Json.{Fields, must_object, must_string, must_int, must_uint}
use partitur.RunState.Types.{ExecutionInterval, terminal}
use partitur.RunState.Event.{Event}
use partitur.RunState.Action.{
  Action, gets, some_or, ◌>>=◌, ◌>>◌, modify, raise_if, raise_unless, transition, invalid,
}
use partitur.RunState.Waiting.{is_not_started}
use partitur.RunState.Decode.{start_identity}

abbrev pub is_open : String → Option ExecutionInterval → Bool
is_open id none = false
is_open id (some x) = str_eq x.id id

-- `case EventExecutionStarted`
unfoldable pub on_execution_started : Event → Fields → Action (Unit {0})
on_execution_started e p = do
  opened ← gets (λ s. is_some s.open_execution)
  raise_if opened (transition e "execution interval already open")
  modify (λ s. record s {
    open_execution = some (record {
      id = must_string p "interval_id";
      phase = must_string p "phase";
      wall_start = must_string p "wall_start";
      remaining_at_start = must_int p "remaining_at_start";
      latest_checkpoint_ms = pos 0;
      latest_checkpoint_event_id = "";
    });
  })

abbrev open_interval : Event → Fields → Action ExecutionInterval
open_interval e p = do
  found ← gets (λ s. s.open_execution)
  raise_unless (is_open (must_string p "interval_id") found)
      (transition e "matching execution interval is not open")
  some_or found (transition e "matching execution interval is not open")

-- `case EventExecutionElapsedCheckpointed`
unfoldable pub on_execution_elapsed_checkpointed : Event → Fields → Action (Unit {0})
on_execution_elapsed_checkpointed e p = do
  interval ← open_interval e p
  raise_if (leb_ℤ (must_int p "cumulative_elapsed_ms") interval.latest_checkpoint_ms)
      (transition e "cumulative_elapsed_ms must strictly increase")
  modify (λ s. record s {
    open_execution = some (record interval {
      latest_checkpoint_ms = must_int p "cumulative_elapsed_ms";
      latest_checkpoint_event_id = e.event_id;
    });
  })

-- `case EventExecutionStopped`
unfoldable pub on_execution_stopped : Event → Fields → Action (Unit {0})
on_execution_stopped e p = do
  open_interval e p
  modify (λ s. record s {
    consumed_budget_ms = add_int64 s.consumed_budget_ms (must_int p "charged_duration");
    open_execution = none;
  })

-- `case EventAuthorityGranted`
unfoldable pub on_authority_granted : Event → Fields → Action (Unit {0})
on_authority_granted e p = do
  run ← gets (λ s. s.run)
  old ← gets (λ s. s.authority.epoch)
  raise_if (is_not_started run || terminal run || leb (must_uint p "authority_epoch") old)
      (transition e "authority epoch cannot be granted")
  start ←
      some_or (start_identity (must_object p "owner_start_identity"))
        (invalid e "owner_start_identity")
  raise_if (leb_ℤ (must_int p "owner_pid") (pos 0)) (invalid e "owner_pid must be positive")
  modify (λ s. record s {
    authority = record {
      epoch = must_uint p "authority_epoch";
      owner = some (record { pid = must_int p "owner_pid"; start = start });
    };
  })

-- `case EventJournalTailTruncated`
unfoldable pub on_journal_tail_truncated : Event → Fields → Action (Unit {0})
on_journal_tail_truncated e p =
    raise_unless (must_uint p "truncated_seq" == e.seq)
      (invalid e "truncated_seq must equal the repair event sequence")

-- `AccountingGraceMS`
abbrev pub accounting_grace_ms : ℤ
accounting_grace_ms = pos 35000

-- `ClampedCharge`
unfoldable pub clamped_charge : ℤ → ℤ → ℤ
clamped_charge checkpoint_ms remaining_at_start =
    let charge = add_int64 checkpoint_ms accounting_grace_ms in
    if ltb_ℤ remaining_at_start charge then remaining_at_start else charge
