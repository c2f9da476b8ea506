-- ===== src/Core/Backends/Tasks.antt =====
-- `async` functions of `ManagerService`, run one at a time: a function of the state of the service
-- that returns a result and the state after it.
use xrayctl.Common.{ℕ, List, [], ◌∷◌}
use xrayctl.Core.Error.{ManagerError, Result, ok, err}
use xrayctl.Core.Events.{ManagerEvent}
use xrayctl.Core.Domain.{ManagerState}
use xrayctl.Core.Backends.{Action, BackendSet}

-- `ManagerService` without its configuration and its ports, which never change, and with the
-- counter of generations, a static of `apply_config`.
pub record Service (W : Type 0) : Type 0 where
  pub state : ManagerState
  pub counter : ℕ
  pub world : W

abbrev pub Task : Type 0 → Type 0 → Type 0
Task W T = Service W → Result T × Service W

module _ {W : Type 0} where
  abbrev pub proceed : {T U : Type 0} → Result T × Service W → (T → Task W U) → Result U × Service W
  proceed (ok x, s) next = next x s
  proceed (err e, s) next = (err e, s)

  infixl 5 ◌>>=◌ ◌>>◌
  unfoldable pub ◌>>=◌ : {T U : Type 0} → Task W T → (T → Task W U) → Task W U
  task >>= next = λ s. proceed (task s) next

  abbrev pub ◌>>◌ : {U : Type 0} → Task W (Unit {0}) → Task W U → Task W U
  task >> next = task >>= λ _. next

  unfoldable pub return : {T : Type 0} → Result T → Task W T
  return r s = (r, s)

  -- The result of a task as a value, whether it failed or not.
  unfoldable pub attempt : {T : Type 0} → Task W T → Task W (Result T)
  attempt task s = let (r, s') = task s in (ok r, s')

  -- `let _ = task.await`.
  unfoldable pub ignore : Task W (Unit {0}) → Task W (Unit {0})
  ignore task s = (ok tt, (task s).1)

  -- `if let Err(error) = task.await { handler; return Err(error) }`.
  abbrev pub or_after : {T : Type 0} → Result T → (ManagerError → Task W (Unit {0})) → Task W T
  or_after (ok x) handler = return (ok x)
  or_after (err e) handler = handler e >> return (err e)

  unfoldable pub on_error : {T : Type 0} → (ManagerError → Task W (Unit {0})) → Task W T → Task W T
  unfolding ◌>>=◌ attempt
  on_error handler task = attempt task >>= λ r. or_after r handler

  -- A call of a port.
  unfoldable pub call : {T : Type 0} → Action W T → Task W T
  call action s =
      let (r, w) = action s.world in (r, record { state = s.state; counter = s.counter; world = w })

  -- The loop `for x in xs { body(x).await?; }`.
  unfoldable pub each : {A : Type 0} → (A → Task W (Unit {0})) → List A → Task W (Unit {0})
  each body [] = return (ok tt)
  each body (x ∷ xs) = body x >> each body xs

  unfoldable pub emit : BackendSet W → ManagerEvent → Task W (Unit {0})
  emit backends event s =
      (ok tt, record { state = s.state; counter = s.counter; world = backends.emit event s.world })

  unfoldable pub current_state : Task W ManagerState
  current_state s = (ok s.state, s)

  unfoldable pub set_state : ManagerState → Task W (Unit {0})
  set_state state s = (ok tt, record { state = state; counter = s.counter; world = s.world })
