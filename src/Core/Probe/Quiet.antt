-- ===== src/Core/Probe/Quiet.antt =====
-- The probes that start after a cancellation, in the schedules of probe.rs.
use xrayctl.Common.{
  ℕ, zero, suc, ◌+◌, ap, String, Bool, true, false, List, [], ◌∷◌, ◌++◌, ◌≡◌, refl, ◌∙◌, arith,
  Option, none, some,
}
use xrayctl.Core.Error.{Result, ok, err}
use xrayctl.Core.Domain.{Node}
use xrayctl.Core.Events.{ManagerEvent, node_probe_started, node_probe_cancelled}
use xrayctl.Core.Probe.{
  ProbeResult, Task, waiting, admitted, cleared, probing, returned, joined, Shared, acquire, look,
  proceed, event_of, measured, Move, cancel, run, Queue, run_at, move, play,
}
use xrayctl.Common.{total, total-append}

-- The events that say that a probe starts.
abbrev pub is_start : ManagerEvent → ℕ
is_start (node_probe_started id) = 1
is_start _ = 0

abbrev pub starts : Shared → ℕ
starts s = total is_start s.events

-- The tasks that have found the flag clear and not yet said that they start.
abbrev pub clear : Task → ℕ
clear (cleared n) = 1
clear _ = 0

-- The flag stays set, and the probes that have started were those of tasks that had found it clear.
abbrev pub IsQuiet : Queue → Queue → Type 0
IsQuiet (ts, s) (ts', s') =
    (s'.cancelled ≡ true) × (starts s' + total clear ts' ≡ starts s + total clear ts)

-- The same of one task.
abbrev Quietly : ℕ → Shared → Task × Shared → Type 0
Quietly n s (t', s') = (s'.cancelled ≡ true) × (starts s' + clear t' ≡ starts s + n)

emitted :
    (s : Shared) (e : ManagerEvent)
    → is_start e ≡ 0
    → total is_start (s.events ++ e ∷ []) ≡ starts s
emitted s e h = let k = total-append is_start s.events (e ∷ []) in omega arith

measured-quiet : (id : String) (r : ProbeResult) (l : Option ℕ) → is_start (measured id r l) ≡ 0
unfolding measured
measured-quiet id r none = refl
measured-quiet id r (some n) = refl

event_of-quiet : (id : String) (answer : Result ProbeResult) → is_start (event_of id answer) ≡ 0
unfolding event_of
event_of-quiet id (ok r) = measured-quiet id r r.latency_ms
event_of-quiet id (err e) = refl

acquire-Quietly : (k : ℕ) (n : Node) (s : Shared) → s.cancelled ≡ true → Quietly 0 s (acquire k n s)
acquire-Quietly zero n s h = (h, refl)
acquire-Quietly (suc k) n s h = (h, refl)

look-Quietly :
    (b : Bool) (n : Node) (s : Shared) → b ≡ true → s.cancelled ≡ true → Quietly 0 s (look b n s)
look-Quietly true n s e h = (h, ap (λ k. k + 0) (emitted s (node_probe_cancelled n.id) refl))
look-Quietly false n s e h = cc e

proceed-Quietly :
    (answer : Result ProbeResult) (t : Task) (s : Shared)
    → s.cancelled ≡ true
    → Quietly (clear t) s (proceed answer t s)
unfolding proceed
proceed-Quietly answer (waiting n) s h = acquire-Quietly s.permits n s h
proceed-Quietly answer (admitted n) s h = look-Quietly s.cancelled n s h h
proceed-Quietly answer (cleared n) s h =
    let k = total-append is_start s.events (node_probe_started n.id ∷ []) in (h, omega arith)
proceed-Quietly answer (probing n) s h =
    (h, ap (λ k. k + 0) (emitted s (event_of n.id answer) (event_of-quiet n.id answer)))
proceed-Quietly answer (returned o) s h = (h, refl)
proceed-Quietly answer joined s h = (h, refl)

run_at-IsQuiet :
    (i : ℕ) (answer : Result ProbeResult) (ts : List Task) (s : Shared)
    → s.cancelled ≡ true
    → IsQuiet (ts, s) (run_at i answer ts s)
unfolding run_at
run_at-IsQuiet i answer [] s h = (h, refl)
run_at-IsQuiet zero answer (t ∷ ts) s h =
    let (c, e) = proceed-Quietly answer t s h in (c, omega arith)
run_at-IsQuiet (suc i) answer (t ∷ ts) s h =
    let (c, e) = run_at-IsQuiet i answer ts s h in (c, omega arith)

-- Once the flag is set, no schedule clears it, and in no schedule does another probe start than
-- those of the tasks that had found it clear.
pub play-IsQuiet : (ms : List Move) (q : Queue) → q.1.cancelled ≡ true → IsQuiet q (play ms q)
unfolding play move
play-IsQuiet [] q h = (h, refl)
play-IsQuiet (cancel ∷ ms) (ts, s) h = play-IsQuiet ms (ts, record s { cancelled = true }) refl
play-IsQuiet (run i answer ∷ ms) (ts, s) h =
    let (c, e) = run_at-IsQuiet i answer ts s h in
    let (d, f) = play-IsQuiet ms (run_at i answer ts s) c in (d, f ∙ e)
