-- ===== src/Platform/Linux/Commands.antt =====
-- crates/xray-manager-platform/src/linux/mod.rs and crates/xray-manager-core/src/ports.rs: how
-- programs are run, one after the other. An action is a function of the world that returns a result
-- and the world after it.
use xrayctl.Common.{zero, suc, String, ◌<>◌, Bool, true, false, List, trim, if◌then◌else◌}
use xrayctl.Core.Error.{other, Result, ok, err}
use xrayctl.Core.Backends.{Action}
use xrayctl.Core.Plans.{ℤ, pos, negsuc}

pub record CommandOutput : Type 0 where
  pub status : ℤ
  pub stdout : String
  pub stderr : String

abbrev pub is_zero : ℤ → Bool
is_zero (pos zero) = true
is_zero (pos (suc n)) = false
is_zero (negsuc n) = false

-- `output.status == 0`, of a program that was run.
abbrev pub succeeded : Result CommandOutput → Bool
succeeded (ok output) = is_zero output.status
succeeded (err e) = false

module _ {W : Type 0} where
  abbrev pub proceed : {T U : Type 0} → Result T × W → (T → Action W U) → Result U × W
  proceed (ok x, w) next = next x w
  proceed (err e, w) next = (err e, w)

  infixl 5 ◌>>=◌ ◌>>◌
  unfoldable pub ◌>>=◌ : {T U : Type 0} → Action W T → (T → Action W U) → Action W U
  action >>= next = λ w. proceed (action w) next

  abbrev pub ◌>>◌ : {U : Type 0} → Action W (Unit {0}) → Action W U → Action W U
  action >> next = action >>= λ _. next

  unfoldable pub return : {T : Type 0} → Result T → Action W T
  return r w = (r, w)

  -- The result of an action as a value, whether it failed or not.
  unfoldable pub attempt : {T : Type 0} → Action W T → Action W (Result T)
  attempt action w = let (r, w') = action w in (ok r, w')

  -- `if let Err(error) = action.await { let _ = handler.await; return Err(error) }`.
  abbrev pub or_after : {T : Type 0} → Action W (Unit {0}) → Result T → Action W T
  or_after handler (ok x) = return (ok x)
  or_after handler (err e) = attempt handler >>= λ _. return (err e)

  unfoldable pub on_error : {T : Type 0} → Action W (Unit {0}) → Action W T → Action W T
  unfolding ◌>>=◌ attempt
  on_error handler action = attempt action >>= or_after handler

abbrev pub Run : Type 0 → Type 0
Run W = String → List String → Action W CommandOutput

abbrev pub checked : String → CommandOutput → Result (Unit {0})
checked program output =
    if is_zero output.status
    then ok tt
    else err (other (program <> (" failed: " <> trim output.stderr)))

-- `run_checked`.
abbrev pub run_checked : {W : Type 0} → Run W → String → List String → Action W (Unit {0})
run_checked run program args = run program args >>= λ output. return (checked program output)
