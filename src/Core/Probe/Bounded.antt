-- ===== src/Core/Probe/Bounded.antt =====
-- The permits and the outcomes in the schedules of probe.rs.
use xrayctl.Common.{
  total, total-append, one_if, ℕ, zero, suc, ◌+◌, ◌≤◌, String, Bool, true, false, List, [], ◌∷◌,
  map, ◌==◌, ◌≡◌, refl, ap, ◌∙◌, arith,
}
use xrayctl.Core.Error.{Result, ok, err}
use xrayctl.Core.Domain.{Node}
use xrayctl.Core.Probe.{
  ProbeResult, NodeProbeOutcome, Task, waiting, admitted, cleared, probing, returned, joined,
  Shared, acquire, look, proceed, Move, cancel, run, Queue, run_at, move, play, at_least_one,
  spawned, outcome_of,
}

-- What one move keeps, of a task and what is shared, every schedule keeps.
module _ (f : Task → ℕ) (g : Shared → ℕ) where
  record Keeps : Type 0 where
    proceeds :
        (answer : Result ProbeResult) (t : Task) (s : Shared)
        → f (proceed answer t s).0 + g (proceed answer t s).1 ≡ f t + g s
    cancels : (s : Shared) → g (record s { cancelled = true }) ≡ g s

  run_at-total :
      Keeps
      → (i : ℕ) (answer : Result ProbeResult) (ts : List Task) (s : Shared)
      → total f (run_at i answer ts s).0 + g (run_at i answer ts s).1 ≡ total f ts + g s
  unfolding run_at
  run_at-total k i answer [] s = refl
  run_at-total k zero answer (t ∷ ts) s = let h = k.proceeds answer t s in omega arith
  run_at-total k (suc i) answer (t ∷ ts) s = let h = run_at-total k i answer ts s in omega arith

  play-total :
      Keeps
      → (ms : List Move) (q : Queue) → total f (play ms q).0 + g (play ms q).1 ≡ total f q.0 + g q.1
  unfolding play move
  play-total k [] q = refl
  play-total k (cancel ∷ ms) (ts, s) =
      play-total k ms (ts, record s { cancelled = true }) ∙ ap (λ n. total f ts + n) (k.cancels s)
  play-total k (run i answer ∷ ms) (ts, s) =
      play-total k ms (run_at i answer ts s) ∙ run_at-total k i answer ts s

-- The permits that a task holds.
abbrev pub held : Task → ℕ
held (waiting n) = 0
held (admitted n) = 1
held (cleared n) = 1
held (probing n) = 1
held (returned o) = 0
held joined = 0

acquire-held :
    (k : ℕ) (n : Node) (s : Shared)
    → k ≡ s.permits
    → held (acquire k n s).0 + (acquire k n s).1.permits ≡ s.permits
acquire-held zero n s h = omega arith
acquire-held (suc k) n s h = omega arith

look-held :
    (b : Bool) (n : Node) (s : Shared)
    → held (look b n s).0 + (look b n s).1.permits ≡ suc s.permits
look-held true n s = omega arith
look-held false n s = omega arith

proceed-held :
    (answer : Result ProbeResult) (t : Task) (s : Shared)
    → held (proceed answer t s).0 + (proceed answer t s).1.permits ≡ held t + s.permits
unfolding proceed
proceed-held answer (waiting n) s = let h = acquire-held s.permits n s refl in omega arith
proceed-held answer (admitted n) s = let h = look-held s.cancelled n s in omega arith
proceed-held answer (cleared n) s = refl
proceed-held answer (probing n) s = omega arith
proceed-held answer (returned o) s = refl
proceed-held answer joined s = refl

waiting-held : (nodes : List Node) → total held (map waiting nodes) ≡ 0
waiting-held [] = refl
waiting-held (n ∷ ns) = let h = waiting-held ns in omega arith

pub play-held :
    (cancelled : Bool) (concurrency : ℕ) (nodes : List Node) (ms : List Move)
    → let q = play ms (spawned cancelled concurrency nodes) in
      total held q.0 + q.1.permits ≡ at_least_one concurrency
play-held b c nodes ms =
    let h =
      play-total held (λ s. s.permits) (record { proceeds = proceed-held; cancels = λ s. refl }) ms
        (spawned b c nodes) in
    let w = waiting-held nodes in omega arith

-- The nodes that the runner is asked about.
abbrev pub asked : Task → ℕ
asked (probing n) = 1
asked _ = 0

asked-held : (ts : List Task) → total asked ts ≤ total held ts
asked-held [] = omega arith
asked-held (waiting n ∷ ts) = let h = asked-held ts in omega arith
asked-held (admitted n ∷ ts) = let h = asked-held ts in omega arith
asked-held (cleared n ∷ ts) = let h = asked-held ts in omega arith
asked-held (probing n ∷ ts) = let h = asked-held ts in omega arith
asked-held (returned o ∷ ts) = let h = asked-held ts in omega arith
asked-held (joined ∷ ts) = let h = asked-held ts in omega arith

-- In no schedule are there ever more probes at once than the configuration allows, or than one if
-- it allows none.
pub spawned-asked :
    (cancelled : Bool) (concurrency : ℕ) (nodes : List Node) (ms : List Move)
    → total asked (play ms (spawned cancelled concurrency nodes)).0 ≤ at_least_one concurrency
spawned-asked b c nodes ms =
    let h = play-held b c nodes ms in
    let a = asked-held (play ms (spawned b c nodes)).0 in omega arith

-- How often an identifier is among tasks and among outcomes.
abbrev pub owes : String → Task → ℕ
owes id (waiting n) = one_if (id == n.id)
owes id (admitted n) = one_if (id == n.id)
owes id (cleared n) = one_if (id == n.id)
owes id (probing n) = one_if (id == n.id)
owes id (returned o) = one_if (id == o.node_id)
owes id joined = 0

abbrev pub reported : String → List NodeProbeOutcome → ℕ
reported id = total (λ o. one_if (id == o.node_id))

acquire-owes :
    (id : String) (k : ℕ) (n : Node) (s : Shared)
    → owes id (acquire k n s).0 + reported id (acquire k n s).1.outcomes
      ≡ one_if (id == n.id) + reported id s.outcomes
acquire-owes id zero n s = refl
acquire-owes id (suc k) n s = refl

look-owes :
    (id : String) (b : Bool) (n : Node) (s : Shared)
    → owes id (look b n s).0 + reported id (look b n s).1.outcomes
      ≡ one_if (id == n.id) + reported id s.outcomes
look-owes id true n s = refl
look-owes id false n s = refl

outcome_of-owes :
    (id : String) (node_id : String) (answer : Result ProbeResult)
    → one_if (id == (outcome_of node_id answer).node_id) ≡ one_if (id == node_id)
outcome_of-owes id node_id (ok r) = refl
outcome_of-owes id node_id (err e) = refl

proceed-owes :
    (id : String) (answer : Result ProbeResult) (t : Task) (s : Shared)
    → owes id (proceed answer t s).0 + reported id (proceed answer t s).1.outcomes
      ≡ owes id t + reported id s.outcomes
unfolding proceed
proceed-owes id answer (waiting n) s = acquire-owes id s.permits n s
proceed-owes id answer (admitted n) s = look-owes id s.cancelled n s
proceed-owes id answer (cleared n) s = refl
proceed-owes id answer (probing n) s =
    ap (λ k. k + reported id s.outcomes) (outcome_of-owes id n.id answer)
proceed-owes id answer (returned o) s =
    let h = total-append (λ x. one_if (id == x.node_id)) s.outcomes (o ∷ []) in omega arith
proceed-owes id answer joined s = refl

waiting-owes :
    (id : String) (nodes : List Node)
    → total (owes id) (map waiting nodes) ≡ total (λ n. one_if (id == n.id)) nodes
waiting-owes id [] = refl
waiting-owes id (n ∷ ns) = ap (λ k. one_if (id == n.id) + k) (waiting-owes id ns)

pub play-owes :
    (id : String) (cancelled : Bool) (concurrency : ℕ) (nodes : List Node) (ms : List Move)
    → let q = play ms (spawned cancelled concurrency nodes) in
      total (owes id) q.0 + reported id q.1.outcomes ≡ total (λ n. one_if (id == n.id)) nodes
play-owes id b c nodes ms =
    let h =
      play-total (owes id) (λ s. reported id s.outcomes)
        (record { proceeds = proceed-owes id; cancels = λ s. refl }) ms (spawned b c nodes) in
    let w = waiting-owes id nodes in omega arith
