-- ===== src/Core/Probe.antt =====
-- crates/xray-manager-core/src/probe.rs: the queue of probes. The tasks share a semaphore, the flag
-- that cancels them and the sink of events; a schedule is a list of moves, of the caller, who may set
-- the flag, and of the tasks, where a move has what the runner answers if it is asked. A task does not
-- panic, the semaphore is never closed, and there is no channel for the outcomes.
pub mod Bounded
pub mod Finished
pub mod Reported
pub mod Quiet
use xrayctl.Common.{
  ℕ, zero, suc, String, Bool, true, false, Option, none, some, List, [], ◌∷◌, ◌++◌, map,
}
use xrayctl.Core.Error.{ManagerError, to_text, Result, ok, err}
use xrayctl.Core.Domain.{Node}
use xrayctl.Core.Events.{
  ManagerEvent, node_probe_started, node_probe_succeeded, node_probe_failed, node_probe_cancelled,
}

pub record ProbeResult : Type 0 where
  pub latency_ms : Option ℕ
  pub error : Option String

pub record NodeProbeOutcome : Type 0 where
  pub node_id : String
  pub result : ProbeResult

-- A task before it has a permit, with one, after it has found the flag clear, with the runner asked,
-- with its outcome, and joined.
pub data Task : Type 0 where
  waiting admitted cleared probing : Node → Task
  returned : NodeProbeOutcome → Task
  joined : Task

pub record Shared : Type 0 where
  pub permits : ℕ
  pub cancelled : Bool
  pub events : List ManagerEvent
  pub outcomes : List NodeProbeOutcome

abbrev pub failed : String → String → NodeProbeOutcome
failed id message = record {
  node_id = id;
  result = record { latency_ms = none; error = some message };
}

abbrev message_of : Option String → String
message_of none = "probe failed"
message_of (some message) = message

unfoldable pub measured : String → ProbeResult → Option ℕ → ManagerEvent
measured id result none = node_probe_failed id (message_of result.error)
measured id result (some latency) = node_probe_succeeded id latency

unfoldable pub event_of : String → Result ProbeResult → ManagerEvent
unfolding measured
event_of id (ok result) = measured id result result.latency_ms
event_of id (err e) = node_probe_failed id (to_text e)

abbrev pub outcome_of : String → Result ProbeResult → NodeProbeOutcome
outcome_of id (ok result) = record { node_id = id; result = result }
outcome_of id (err e) = failed id (to_text e)

-- An event, and the return of a task, which drops its permit.
abbrev pub emit : ManagerEvent → Shared → Shared
emit e s = record s { events = s.events ++ e ∷ [] }

abbrev pub release : Shared → Shared
release s = record s { permits = suc s.permits }

abbrev pub acquire : ℕ → Node → Shared → Task × Shared
acquire zero node s = (waiting node, s)
acquire (suc k) node s = (admitted node, record s { permits = k })

abbrev pub look : Bool → Node → Shared → Task × Shared
look true node s =
    (returned (failed node.id "cancelled"), release (emit (node_probe_cancelled node.id) s))
look false node s = (cleared node, s)

-- One move of a task. A task without a permit to take waits.
unfoldable pub proceed : Result ProbeResult → Task → Shared → Task × Shared
unfolding event_of
proceed answer (waiting node) s = acquire s.permits node s
proceed answer (admitted node) s = look s.cancelled node s
proceed answer (cleared node) s = (probing node, emit (node_probe_started node.id) s)
proceed answer (probing node) s =
    (returned (outcome_of node.id answer), release (emit (event_of node.id answer) s))
proceed answer (returned outcome) s = (joined, record s { outcomes = s.outcomes ++ outcome ∷ [] })
proceed answer joined s = (joined, s)

pub data Move : Type 0 where
  cancel : Move
  run : ℕ → Result ProbeResult → Move

abbrev pub Queue : Type 0
Queue = List Task × Shared

unfoldable pub run_at : ℕ → Result ProbeResult → List Task → Shared → Queue
unfolding proceed
run_at i answer [] s = ([], s)
run_at zero answer (t ∷ ts) s = let p = proceed answer t s in (p.0 ∷ ts, p.1)
run_at (suc i) answer (t ∷ ts) s = let p = run_at i answer ts s in (t ∷ p.0, p.1)

unfoldable pub move : Move → Queue → Queue
unfolding run_at
move cancel (ts, s) = (ts, record s { cancelled = true })
move (run i answer) (ts, s) = run_at i answer ts s

unfoldable pub play : List Move → Queue → Queue
unfolding move
play [] q = q
play (m ∷ ms) q = play ms (move m q)

-- `max(1)`.
abbrev pub at_least_one : ℕ → ℕ
at_least_one zero = 1
at_least_one (suc n) = suc n

-- `probe_all` after it has spawned its tasks.
abbrev pub spawned : Bool → ℕ → List Node → Queue
spawned cancelled concurrency nodes = (
  map waiting nodes,
  record { permits = at_least_one concurrency; cancelled = cancelled; events = []; outcomes = [] },
)
