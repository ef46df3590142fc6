-- ===== src/RunState/Run.antt =====
-- The life of a run, as internal/runstate/apply.go projects it: the diagram of `RunLifecycle`.
pub mod Steps
pub mod Terminal
use partitur.Prelude.{◌≡◌, Bool, true, false, arith}
use partitur.RunState.Types.{RunLifecycle}

pub data RunStep : RunLifecycle → RunLifecycle → Type 0 where
  stay : {r : RunLifecycle} → RunStep r r
  start : RunStep RunLifecycle.not_started RunLifecycle.running
  pause : RunStep RunLifecycle.running RunLifecycle.waiting_human
  resume : RunStep RunLifecycle.waiting_human RunLifecycle.running
  succeed : RunStep RunLifecycle.running RunLifecycle.succeeded
  fail : RunStep RunLifecycle.running RunLifecycle.failed
  fail_waiting : RunStep RunLifecycle.waiting_human RunLifecycle.failed
  cancel : RunStep RunLifecycle.running RunLifecycle.cancelled
  cancel_waiting : RunStep RunLifecycle.waiting_human RunLifecycle.cancelled

ruleset run_edges =
    (stay, start, pause, resume, succeed, fail, fail_waiting, cancel, cancel_waiting)

-- The edges as a test, which computes.
abbrev pub run_edge : RunLifecycle → RunLifecycle → Bool
run_edge RunLifecycle.not_started RunLifecycle.not_started = true
run_edge RunLifecycle.not_started RunLifecycle.running = true
run_edge RunLifecycle.running RunLifecycle.running = true
run_edge RunLifecycle.running RunLifecycle.waiting_human = true
run_edge RunLifecycle.running RunLifecycle.succeeded = true
run_edge RunLifecycle.running RunLifecycle.failed = true
run_edge RunLifecycle.running RunLifecycle.cancelled = true
run_edge RunLifecycle.waiting_human RunLifecycle.waiting_human = true
run_edge RunLifecycle.waiting_human RunLifecycle.running = true
run_edge RunLifecycle.waiting_human RunLifecycle.failed = true
run_edge RunLifecycle.waiting_human RunLifecycle.cancelled = true
run_edge RunLifecycle.succeeded RunLifecycle.succeeded = true
run_edge RunLifecycle.failed RunLifecycle.failed = true
run_edge RunLifecycle.cancelled RunLifecycle.cancelled = true
run_edge _ _ = false

pub run_edge-RunStep : (a b : RunLifecycle) → run_edge a b ≡ true → RunStep a b
run_edge-RunStep RunLifecycle.not_started RunLifecycle.not_started h = stay
run_edge-RunStep RunLifecycle.running RunLifecycle.running h = stay
run_edge-RunStep RunLifecycle.waiting_human RunLifecycle.waiting_human h = stay
run_edge-RunStep RunLifecycle.succeeded RunLifecycle.succeeded h = stay
run_edge-RunStep RunLifecycle.failed RunLifecycle.failed h = stay
run_edge-RunStep RunLifecycle.cancelled RunLifecycle.cancelled h = stay
run_edge-RunStep a b h = grind (arith, run_edges)
