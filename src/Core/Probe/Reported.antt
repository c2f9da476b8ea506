-- ===== src/Core/Probe/Reported.antt =====
-- The outcomes at the end of a schedule of probe.rs.
use xrayctl.Common.{
  total, one_if, ℕ, ◌≤◌, String, Bool, true, false, List, [], ◌∷◌, ◌==◌, ◌≡◌, arith,
}
use xrayctl.Core.Domain.{Node}
use xrayctl.Core.Probe.{
  Task, waiting, admitted, cleared, probing, returned, joined, Move, play, spawned,
}
use xrayctl.Core.Probe.Bounded.{owes, reported, play-owes}
use xrayctl.Core.Probe.Finished.{left}

one_if-le : (b : Bool) → one_if b ≤ 1
one_if-le true = omega arith
one_if-le false = omega arith

owes-left : (id : String) (ts : List Task) → total (owes id) ts ≤ total left ts
owes-left id [] = omega arith
owes-left id (waiting n ∷ ts) =
    let h = owes-left id ts in let b = one_if-le (id == n.id) in omega arith
owes-left id (admitted n ∷ ts) =
    let h = owes-left id ts in let b = one_if-le (id == n.id) in omega arith
owes-left id (cleared n ∷ ts) =
    let h = owes-left id ts in let b = one_if-le (id == n.id) in omega arith
owes-left id (probing n ∷ ts) =
    let h = owes-left id ts in let b = one_if-le (id == n.id) in omega arith
owes-left id (returned o ∷ ts) =
    let h = owes-left id ts in let b = one_if-le (id == o.node_id) in omega arith
owes-left id (joined ∷ ts) = let h = owes-left id ts in omega arith

-- When all tasks are joined, there are as many outcomes with an identifier as there were nodes with
-- it.
pub spawned-reported :
    (id : String) (cancelled : Bool) (concurrency : ℕ) (nodes : List Node) (ms : List Move)
    → total left (play ms (spawned cancelled concurrency nodes)).0 ≡ 0
    → reported id (play ms (spawned cancelled concurrency nodes)).1.outcomes
      ≡ total (λ n. one_if (id == n.id)) nodes
spawned-reported id b c nodes ms h =
    let k = play-owes id b c nodes ms in
    let o = owes-left id (play ms (spawned b c nodes)).0 in omega arith
