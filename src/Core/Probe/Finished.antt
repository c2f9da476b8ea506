-- ===== src/Core/Probe/Finished.antt =====
-- How the schedules of the queue of probe.rs end.
use xrayctl.Common.{
  total, ℕ, zero, suc, ◌+◌, ◌≤◌, ◌<◌, Bool, true, false, List, [], ◌∷◌, ◌++◌, length, ◌≡◌, refl,
  sym, ap, subst, ◌∙◌, arith, ◌⊎◌, inl, inr,
}
use xrayctl.Core.Error.{Result}
use xrayctl.Core.Domain.{Node}
use xrayctl.Core.Probe.{
  ProbeResult, Task, waiting, admitted, cleared, probing, returned, joined, Shared, acquire, look,
  proceed, Move, run, Queue, run_at, move, play, at_least_one, spawned,
}
use xrayctl.Core.Probe.Bounded.{held, play-held}

-- The moves that a task has left.
abbrev pub left : Task → ℕ
left (waiting n) = 5
left (admitted n) = 4
left (cleared n) = 3
left (probing n) = 2
left (returned o) = 1
left joined = 0

held-left : (ts : List Task) → total held ts ≤ total left ts
held-left [] = omega arith
held-left (waiting n ∷ ts) = let h = held-left ts in omega arith
held-left (admitted n ∷ ts) = let h = held-left ts in omega arith
held-left (cleared n ∷ ts) = let h = held-left ts in omega arith
held-left (probing n ∷ ts) = let h = held-left ts in omega arith
held-left (returned o ∷ ts) = let h = held-left ts in omega arith
held-left (joined ∷ ts) = let h = held-left ts in omega arith

look-left : (b : Bool) (n : Node) (s : Shared) → suc (left (look b n s).0) ≤ 4
look-left true n s = omega arith
look-left false n s = omega arith

-- A move that leaves less to do, whatever the runner answers.
abbrev pub Advances : List Task → Shared → ℕ → Type 0
Advances ts s i =
    (answer : Result ProbeResult) → total left (run_at i answer ts s).0 < total left ts

first-Advances :
    (t : Task) (ts : List Task) (s : Shared)
    → ((answer : Result ProbeResult) → left (proceed answer t s).0 < left t)
    → Advances (t ∷ ts) s 0
unfolding run_at
first-Advances t ts s h answer = let k = h answer in omega arith

acquire-left : (k : ℕ) (n : Node) (s : Shared) → 0 < k → left (acquire k n s).0 < 5
acquire-left zero n s h = omega arith
acquire-left (suc k) n s h = omega arith

later-Advances :
    (t : Task) (ts : List Task) (s : Shared) (i : ℕ) → Advances ts s i → Advances (t ∷ ts) s (suc i)
unfolding run_at
later-Advances t ts s i h answer = let k = h answer in omega arith

unless_blocked :
    (k : ℕ) (n : Node) (ts : List Task) (s : Shared)
    → k ≡ s.permits
    → (k ≡ 0 → (i : ℕ) × Advances ts s i)
    → (i : ℕ) × Advances (waiting n ∷ ts) s i
unfolding proceed
unless_blocked zero n ts s h later =
    let (i, a) = later refl in (suc i, later-Advances (waiting n) ts s i a)
unless_blocked (suc k) n ts s h later =
    (0, first-Advances (waiting n) ts s (λ answer. acquire-left s.permits n s (omega arith)))

runnable :
    (ts : List Task) (s : Shared)
    → 0 < total left ts
    → 0 < total held ts + s.permits
    → (i : ℕ) × Advances ts s i
unfolding proceed
runnable [] s l h = absurd (omega arith)
runnable (waiting n ∷ ts) s l h =
    unless_blocked s.permits n ts s refl
      (λ e. let k = held-left ts in runnable ts s (omega arith) (omega arith))
runnable (admitted n ∷ ts) s l h =
    (0, first-Advances (admitted n) ts s (λ answer. look-left s.cancelled n s))
runnable (cleared n ∷ ts) s l h = (0, first-Advances (cleared n) ts s (λ answer. omega arith))
runnable (probing n ∷ ts) s l h = (0, first-Advances (probing n) ts s (λ answer. omega arith))
runnable (returned o ∷ ts) s l h = (0, first-Advances (returned o) ts s (λ answer. omega arith))
runnable (joined ∷ ts) s l h =
    let (i, a) = runnable ts s (omega arith) (omega arith) in
    (suc i, later-Advances joined ts s i a)

at_least_one-positive : (n : ℕ) → 0 < at_least_one n
at_least_one-positive zero = omega arith
at_least_one-positive (suc n) = omega arith

-- No schedule leads to a deadlock: as long as a task is not joined, some task has a move that leaves
-- less to do, whatever the runner answers.
pub spawned-Advances :
    (cancelled : Bool) (concurrency : ℕ) (nodes : List Node) (ms : List Move)
    → 0 < total left (play ms (spawned cancelled concurrency nodes)).0
    → (i : ℕ) × Advances
        (play ms (spawned cancelled concurrency nodes)).0
        (play ms (spawned cancelled concurrency nodes)).1
        i
spawned-Advances b c nodes ms l =
    let h = play-held b c nodes ms in
    let k = at_least_one-positive c in
    runnable (play ms (spawned b c nodes)).0 (play ms (spawned b c nodes)).1 l (omega arith)

zero_or_positive : (n : ℕ) → (n ≡ 0) ⊎ (0 < n)
zero_or_positive zero = inl refl
zero_or_positive (suc n) = inr (omega arith)

play-append : (ms rest : List Move) (q : Queue) → play (ms ++ rest) q ≡ play rest (play ms q)
unfolding play
play-append [] rest q = refl
play-append (m ∷ ms) rest q = play-append ms rest (move m q)

append_assoc : (ms rest : List Move) (m : Move) → (ms ++ m ∷ []) ++ rest ≡ ms ++ m ∷ rest
append_assoc [] rest m = refl
append_assoc (x ∷ ms) rest m = ap (λ l. x ∷ l) (append_assoc ms rest m)

module _ (answer : Result ProbeResult) (cancelled : Bool) (concurrency : ℕ)
    (nodes : List Node) where
  abbrev pub reached : List Move → Queue
  reached ms = play ms (spawned cancelled concurrency nodes)

  abbrev pub Ending : List Move → Type 0
  Ending ms =
      (rest : List Move) × (length rest ≤ total left (reached ms).0)
      × (total left (reached (ms ++ rest)).0 ≡ 0)

  advanced :
      (ms : List Move) (i : ℕ)
      → Advances (reached ms).0 (reached ms).1 i
      → total left (reached (ms ++ run i answer ∷ [])).0 < total left (reached ms).0
  unfolding play move
  advanced ms i a =
      subst (λ q. total left q.0 < total left (reached ms).0)
        (sym (play-append ms (run i answer ∷ []) (spawned cancelled concurrency nodes))) (a answer)

  ended : (ms : List Move) → total left (reached ms).0 ≡ 0 → Ending ms
  unfolding play
  ended ms h = (
    [],
    omega arith,
    ap (λ q. total left q.0) (play-append ms [] (spawned cancelled concurrency nodes)) ∙ h,
  )

  extended :
      (ms : List Move) (i : ℕ)
      → Advances (reached ms).0 (reached ms).1 i
      → Ending (ms ++ run i answer ∷ [])
      → Ending ms
  extended ms i a (rest, l, h) =
      let k = advanced ms i a in
      (
        run i answer ∷ rest,
        omega arith,
        subst (λ l. total left (reached l).0 ≡ 0) (append_assoc ms rest (run i answer)) h,
      )

  -- `fuel` is a bound on what is left.
  ending : (fuel : ℕ) (ms : List Move) → total left (reached ms).0 ≤ fuel → Ending ms
  ending zero ms h = ended ms (omega arith)
  ending (suc fuel) ms h = elim (zero_or_positive (total left (reached ms).0)) [
    | inl e ↦ ended ms e
    | inr l ↦
        let (i, a) = spawned-Advances cancelled concurrency nodes ms l in
        let k = advanced ms i a in
        extended ms i a (ending fuel (ms ++ run i answer ∷ []) (omega arith))
  ]

  -- Every schedule of a queue can be continued until all tasks are joined, in at most as many moves
  -- as the tasks have left.
  pub spawned-Ending : (ms : List Move) → Ending ms
  spawned-Ending ms = ending (total left (reached ms).0) ms (omega arith)
