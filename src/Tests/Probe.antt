-- ===== src/Tests/Probe.antt =====
-- Concrete schedules of crates/xray-manager-core/src/probe.rs.
use xrayctl.Common.{
  total, one_if, ℕ, ◌≤◌, true, false, none, some, List, [], ◌∷◌, ◌≡◌, refl, arith, ◌==◌,
}
use xrayctl.Core.Error.{ok, Result}
use xrayctl.Core.Domain.{Node}
use xrayctl.Core.Events.{node_probe_started, node_probe_succeeded, node_probe_cancelled}
use xrayctl.Core.Probe.{ProbeResult, Move, cancel, run, play, spawned, event_of}
use xrayctl.Core.Probe.Bounded.{asked, spawned-asked, reported}
use xrayctl.Core.Probe.Finished.{left, Advances, spawned-Advances, Ending, spawned-Ending}
use xrayctl.Core.Probe.Reported.{spawned-reported}
use xrayctl.Core.Probe.Quiet.{IsQuiet, play-IsQuiet}
use xrayctl.Tests.Application.{node}

abbrev answer : Result ProbeResult
answer = ok record { latency_ms = some 12; error = none }

abbrev nodes : List Node
nodes = node "a" "Berlin" ∷ node "b" "Oslo" ∷ []

-- One permit: the second task waits, and sees the flag when it has the permit.
abbrev moves : List Move
moves =
    run 0 answer
    ∷ run 1 answer
    ∷ run 0 answer
    ∷ run 0 answer
    ∷ cancel
    ∷ run 0 answer
    ∷ run 1 answer
    ∷ run 1 answer
    ∷ run 0 answer
    ∷ run 1 answer
    ∷ []

cancelled_run :
    (play moves (spawned false 1 nodes)).1.events
    ≡ (node_probe_started "a" ∷ node_probe_succeeded "a" 12 ∷ node_probe_cancelled "b" ∷ [])
unfolding play event_of
cancelled_run = refl

all_joined : total left (play moves (spawned false 1 nodes)).0 ≡ 0
unfolding play event_of
all_joined = refl

spawned-asked_example : total asked (play moves (spawned false 1 nodes)).0 ≤ 1
spawned-asked_example = spawned-asked false 1 nodes moves

spawned-Advances_example :
    (i : ℕ) × Advances
      (play (run 0 answer ∷ []) (spawned false 1 nodes)).0
      (play (run 0 answer ∷ []) (spawned false 1 nodes)).1
      i
unfolding play
spawned-Advances_example = spawned-Advances false 1 nodes (run 0 answer ∷ []) (omega arith)

spawned-Ending_example : Ending answer false 1 nodes (run 0 answer ∷ cancel ∷ [])
spawned-Ending_example = spawned-Ending answer false 1 nodes (run 0 answer ∷ cancel ∷ [])

spawned-reported_example :
    reported "b" (play moves (spawned false 1 nodes)).1.outcomes
    ≡ total (λ n. one_if ("b" == n.id)) nodes
spawned-reported_example = spawned-reported "b" false 1 nodes moves all_joined

play-IsQuiet_example : IsQuiet (spawned true 1 nodes) (play moves (spawned true 1 nodes))
play-IsQuiet_example = play-IsQuiet moves (spawned true 1 nodes) refl
