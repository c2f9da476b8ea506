-- ===== src/Core/Execution/Announced.antt =====
-- The events around an execution.
use xrayctl.Common.{String, List, [], ◌∷◌, ◌++◌, ◌≡◌, refl}
use xrayctl.Core.Error.{Result, ok, err, code}
use xrayctl.Core.Events.{ManagerEvent, operation_started, operation_finished, operation_failed}
use xrayctl.Core.Backends.Tasks.{Service, proceed, ◌>>=◌, return, attempt, or_after, on_error, emit}
use xrayctl.Core.Operations.{Operation, name_of}
use xrayctl.Core.Execution.{Operator, OperationOptions, OperationResult}
use xrayctl.Core.Execution.Run.{finished, execute_inner, reported, execute}

-- The event that tells how an operation of this name ended.
abbrev pub announcement : {T : Type 0} → String → Result T → ManagerEvent
announcement name (ok x) = operation_finished name
announcement name (err e) = operation_failed name (code e)

module _ {W : Type 0} (o : Operator W) (events : W → List ManagerEvent) where
  -- An event is sent after those before it.
  abbrev pub Appends : Type 0
  Appends =
      (event : ManagerEvent) (w : W)
      → events (o.manager.backends.emit event w) ≡ events w ++ event ∷ []

  -- The world after an operation, but for its announcement, and its result.
  abbrev Announces :
      Operation → Result OperationResult → List ManagerEvent → Result OperationResult → W → Type 0
  Announces op r before r' w = (r' ≡ r) × (events w ≡ before ++ announcement (name_of op) r ∷ [])

  ended :
      (appends : Appends) (op : Operation) (r : Result OperationResult) (s : Service W)
      → let q =
          proceed
            (or_after r (λ e. emit o.manager.backends (operation_failed (name_of op) (code e))) s)
            (finished o op) in
        Announces op r (events s.world) q.0 q.1.world
  unfolding ◌>>=◌ return emit
  ended appends op (ok x) s = (refl, appends (operation_finished (name_of op)) s.world)
  ended appends op (err e) s = (refl, appends (operation_failed (name_of op) (code e)) s.world)

  -- Where an execution begins.
  abbrev pub begun : Operation → Service W → Service W
  begun op s = record {
    state = s.state;
    counter = s.counter;
    world = o.manager.backends.emit (operation_started (name_of op)) s.world;
  }

  -- An execution sends first that the operation has started and last how it ended: finished, or
  -- failed with the code of its error. Between the two it is the operation itself, and its result is
  -- that of the operation.
  pub execute-Announces :
      Appends
      → (op : Operation) (options : OperationOptions) (s : Service W)
      → let inner = execute_inner o op options (begun op s) in
        let outer = execute o op options s in
        (events (begun op s).world ≡ events s.world ++ operation_started (name_of op) ∷ [])
        × (outer.0 ≡ inner.0)
        × (events outer.1.world ≡ events inner.1.world ++ announcement (name_of op) inner.0 ∷ [])
  unfolding execute reported on_error attempt ◌>>=◌ emit
  execute-Announces appends op options s =
      let r = execute_inner o op options (begun op s) in
      let (a, b) = ended appends op r.0 r.1 in (appends _ s.world, a, b)
