-- ===== src/Platform/Unsupported/Untouched.antt =====
-- The application over the adapters of a platform that is not supported.
use xrayctl.Common.{String, true, false, ◌≡◌, ◌≢◌, refl, Bool-cases, inl, inr}
use xrayctl.Core.Error.{ok}
use xrayctl.Core.Events.{ManagerEvent}
use xrayctl.Core.Operations.{Operation, requires_administrator}
use xrayctl.Core.Application.Steps.{IsSilent}
use xrayctl.Core.Execution.{Operator, OperationOptions}
use xrayctl.Core.Execution.Run.{execute}
use xrayctl.Core.Execution.Untouched.{IsQuiet, Looks, execute-IsSilent}
use xrayctl.Core.Execution.Refused.{IsRefused, execute-IsRefused}
use xrayctl.Platform.Unsupported.{plan_only}

abbrev pub unsupported_operator : {W : Type 0} → String → Operator W → Operator W
unsupported_operator platform o = record o { operating = plan_only platform o.operating }

module _ {W O : Type 0} (platform : String) (o : Operator W) (observe : W → O)
    (finds_paths : IsQuiet o observe o.manager.backends.paths)
    (emits : (event : ManagerEvent) (w : W)
      → observe (o.manager.backends.emit event w) ≡ observe w) where
  pub plan_only-Looks : Looks (unsupported_operator platform o) observe
  unfolding plan_only
  plan_only-Looks = record {
    finds_paths = finds_paths;
    plans_install = λ c w. refl;
    plans_repair = λ c w. refl;
    plans_uninstall = λ purges w. refl;
    plans_upgrade = λ c target w. refl;
    finds_missing = λ w. refl;
    checks_privilege = λ w. refl;
    emits = emits;
  }

  pub no_privilege :
      (w : W) → ((unsupported_operator platform o).operating.is_elevated w).0 ≢ ok true
  unfolding plan_only
  no_privilege w = λ e. cc

  plan_only-IsRefused :
      (op : Operation) (options : OperationOptions)
      → options.dry_run ≡ false
      → requires_administrator op ≡ true
      → IsRefused observe (execute (unsupported_operator platform o) op options)
  plan_only-IsRefused op options d a =
      execute-IsRefused (unsupported_operator platform o) observe plan_only-Looks op options d a
        no_privilege

  -- On a platform that is not supported, no operation for which the administrator is needed changes
  -- anything that is observed of the world, or the state in memory, whatever the options are, if
  -- finding the paths and sending an event do not.
  pub plan_only-Untouched :
      (op : Operation) (options : OperationOptions)
      → requires_administrator op ≡ true
      → IsSilent observe (execute (unsupported_operator platform o) op options)
  plan_only-Untouched op options a = elim (Bool-cases options.dry_run) [
    | inl t ↦
        execute-IsSilent (unsupported_operator platform o) observe plan_only-Looks op options t
    | inr f ↦ (plan_only-IsRefused op options f a).silent
  ]
