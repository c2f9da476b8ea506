-- ===== src/Core/Execution/Untouched.antt =====
-- What an execution leaves alone, whatever is observed of the world.
use xrayctl.Common.{String, Bool, true, false, not, ◌&&◌, none, some, ◌≡◌}
use xrayctl.Core.Events.{ManagerEvent}
use xrayctl.Core.Config.{ManagerConfig}
use xrayctl.Core.Backends.{Action}
use xrayctl.Core.Backends.Tasks.{Task, attempt}
use xrayctl.Core.Operations.{
  Operation, install_manager, repair, uninstall, purge, apply, upgrade_all, upgrade_core,
  upgrade_assets, upgrade_manager, subscription_refresh, node_select, routing_apply, service_start,
  service_stop, service_restart, tun_enable, tun_disable, tun_cleanup, desktop_proxy_enable,
  desktop_proxy_disable, app_run, app_test, app_profile_remove, app_profile_put, subscription_add,
  subscription_remove, subscription_enable, config_rollback, core_rollback, asset_rollback,
  routing_preset, routing_set, requires_administrator,
}
use xrayctl.Core.Plans.{UpgradeTarget, ExecutionPlan}
use xrayctl.Core.Application.{paths}
use xrayctl.Core.Application.Steps.{
  IsSilent, >>=-IsSilent, return-IsSilent, call-IsSilent, emit-IsSilent, on_error-IsSilent,
  if-IsSilent,
}
use xrayctl.Core.Execution.{Operator, OperationOptions, OperationResult}
use xrayctl.Core.Execution.Files.{subscription_path}
use xrayctl.Core.Execution.Planning.{add_platform_requirements, plan_actions, plan_internal}
use xrayctl.Core.Execution.Run.{
  refuse, check_privilege, after_checks, reported, execute_inner, execute,
}

module _ {W O : Type 0} (o : Operator W) (observe : W → O) where
  abbrev pub IsQuiet : {T : Type 0} → Action W T → Type 0
  IsQuiet action = (w : W) → observe (action w).1 ≡ observe w

  -- The ports that only look, and the sink of events.
  pub record Looks : Type 0 where
    pub finds_paths : IsQuiet o.manager.backends.paths
    pub plans_install : (c : ManagerConfig) → IsQuiet (o.operating.plan_install c)
    pub plans_repair : (c : ManagerConfig) → IsQuiet (o.operating.plan_repair c)
    pub plans_uninstall : (purges : Bool) → IsQuiet (o.operating.plan_uninstall purges)
    pub plans_upgrade :
        (c : ManagerConfig) (target : UpgradeTarget) → IsQuiet (o.operating.plan_upgrade c target)
    pub finds_missing : IsQuiet o.operating.missing_requirements
    pub checks_privilege : IsQuiet o.operating.is_elevated
    pub emits :
        (event : ManagerEvent) (w : W) → observe (o.manager.backends.emit event w) ≡ observe w

module _ {W O : Type 0} (o : Operator W) (observe : W → O) (looks : Looks o observe) where
  paths-IsSilent : IsSilent observe (paths o.manager)
  paths-IsSilent = call-IsSilent _ looks.finds_paths

  subscription_path-IsSilent : (name : String) → IsSilent observe (subscription_path o name)
  unfolding subscription_path
  subscription_path-IsSilent name = search (>>=-IsSilent, return-IsSilent, paths-IsSilent)

  attempt-IsSilent :
      {T : Type 0} {task : Task W T} → IsSilent observe task → IsSilent observe (attempt task)
  unfolding attempt
  attempt-IsSilent q = record { kept = λ s. q.kept s }

  add_platform_requirements-IsSilent :
      (plan : ExecutionPlan) → IsSilent observe (add_platform_requirements o plan)
  unfolding add_platform_requirements
  add_platform_requirements-IsSilent plan =
      >>=-IsSilent (attempt-IsSilent (call-IsSilent _ looks.finds_missing))
        (λ missing. return-IsSilent _)

  plan_actions-IsSilent : (op : Operation) → IsSilent observe (plan_actions o op)
  unfolding plan_actions
  plan_actions-IsSilent (install_manager none) =
      >>=-IsSilent (call-IsSilent _ (looks.plans_install _))
        (λ plan. >>=-IsSilent (add_platform_requirements-IsSilent plan) (λ more. return-IsSilent _))
  plan_actions-IsSilent (install_manager (some user)) =
      >>=-IsSilent (call-IsSilent _ (looks.plans_install _)) (λ plan.
        >>=-IsSilent (add_platform_requirements-IsSilent plan)
          (λ more. >>=-IsSilent (return-IsSilent _) (λ _. return-IsSilent _)))
  plan_actions-IsSilent repair =
      >>=-IsSilent (call-IsSilent _ (looks.plans_repair _))
        (λ plan. add_platform_requirements-IsSilent plan)
  plan_actions-IsSilent uninstall = call-IsSilent _ (looks.plans_uninstall _)
  plan_actions-IsSilent purge = call-IsSilent _ (looks.plans_uninstall _)
  plan_actions-IsSilent apply = return-IsSilent _
  plan_actions-IsSilent upgrade_all = call-IsSilent _ (looks.plans_upgrade _ _)
  plan_actions-IsSilent upgrade_core = call-IsSilent _ (looks.plans_upgrade _ _)
  plan_actions-IsSilent upgrade_assets = call-IsSilent _ (looks.plans_upgrade _ _)
  plan_actions-IsSilent upgrade_manager = call-IsSilent _ (looks.plans_upgrade _ _)
  plan_actions-IsSilent (subscription_refresh name) =
      >>=-IsSilent paths-IsSilent (λ p. return-IsSilent _)
  plan_actions-IsSilent (node_select id) = return-IsSilent _
  plan_actions-IsSilent routing_apply = return-IsSilent _
  plan_actions-IsSilent service_start = return-IsSilent _
  plan_actions-IsSilent service_stop = return-IsSilent _
  plan_actions-IsSilent service_restart = return-IsSilent _
  plan_actions-IsSilent tun_enable = return-IsSilent _
  plan_actions-IsSilent tun_disable = return-IsSilent _
  plan_actions-IsSilent tun_cleanup = return-IsSilent _
  plan_actions-IsSilent (desktop_proxy_enable user) = return-IsSilent _
  plan_actions-IsSilent (desktop_proxy_disable user) = return-IsSilent _
  plan_actions-IsSilent (app_run profile command) = return-IsSilent _
  plan_actions-IsSilent (app_test profile) =
      >>=-IsSilent (return-IsSilent _) (λ _. return-IsSilent _)
  plan_actions-IsSilent (app_profile_remove name) =
      >>=-IsSilent (return-IsSilent _) (λ _. >>=-IsSilent paths-IsSilent (λ p. return-IsSilent _))
  plan_actions-IsSilent (app_profile_put profile) =
      >>=-IsSilent (return-IsSilent _) (λ _. >>=-IsSilent paths-IsSilent (λ p. return-IsSilent _))
  plan_actions-IsSilent (subscription_add name url) =
      >>=-IsSilent (subscription_path-IsSilent name) (λ path. return-IsSilent _)
  plan_actions-IsSilent (subscription_remove name) =
      >>=-IsSilent (subscription_path-IsSilent name) (λ path. return-IsSilent _)
  plan_actions-IsSilent (subscription_enable name enabled) =
      >>=-IsSilent (subscription_path-IsSilent name) (λ path. return-IsSilent _)
  plan_actions-IsSilent config_rollback = return-IsSilent _
  plan_actions-IsSilent core_rollback = return-IsSilent _
  plan_actions-IsSilent asset_rollback = return-IsSilent _
  plan_actions-IsSilent (routing_preset name) = return-IsSilent _
  plan_actions-IsSilent (routing_set routing) = return-IsSilent _

  pub plan_internal-IsSilent :
      (op : Operation) (enforce : Bool) → IsSilent observe (plan_internal o op enforce)
  unfolding plan_internal
  plan_internal-IsSilent op enforce =
      >>=-IsSilent (return-IsSilent _) (λ _. plan_actions-IsSilent op)

  pub refuse-IsSilent :
      (op : Operation) (options : OperationOptions) → IsSilent observe (refuse o op options)
  unfolding refuse
  refuse-IsSilent op options = >>=-IsSilent (return-IsSilent _) (λ _. return-IsSilent _)

  check_privilege-IsSilent :
      (op : Operation) (options : OperationOptions)
      → IsSilent observe (check_privilege o op options)
  unfolding check_privilege
  check_privilege-IsSilent op options =
      if-IsSilent (not options.dry_run && requires_administrator op)
        (>>=-IsSilent (call-IsSilent _ looks.checks_privilege) (λ elevated. return-IsSilent _))
        (return-IsSilent _)

  after_checks-IsSilent :
      (op : Operation) (plan : ExecutionPlan) (dry : Bool)
      → dry ≡ true
      → IsSilent observe (after_checks o op plan dry)
  after_checks-IsSilent op plan true h = return-IsSilent _
  after_checks-IsSilent op plan false h = cc h

  execute_inner-IsSilent :
      (op : Operation) (options : OperationOptions)
      → options.dry_run ≡ true
      → IsSilent observe (execute_inner o op options)
  unfolding execute_inner
  execute_inner-IsSilent op options h = >>=-IsSilent (refuse-IsSilent op options) (λ _.
      >>=-IsSilent (plan_internal-IsSilent op (not options.dry_run)) (λ plan.
        >>=-IsSilent (check_privilege-IsSilent op options) (λ _.
          >>=-IsSilent (return-IsSilent _) (λ _. after_checks-IsSilent op plan options.dry_run h))))

  reported-IsSilent :
      (op : Operation) (task : Task W OperationResult)
      → IsSilent observe task
      → IsSilent observe (reported o op task)
  unfolding reported
  reported-IsSilent op task q = >>=-IsSilent (emit-IsSilent _ _ looks.emits) (λ _.
      >>=-IsSilent (on_error-IsSilent (λ e. emit-IsSilent _ _ looks.emits) q)
        (λ r. >>=-IsSilent (emit-IsSilent _ _ looks.emits) (λ _. return-IsSilent _)))

  -- A dry run of any operation changes nothing that is observed of the world, and not the state in
  -- memory, if making a plan and sending an event do not.
  pub execute-IsSilent :
      (op : Operation) (options : OperationOptions)
      → options.dry_run ≡ true
      → IsSilent observe (execute o op options)
  unfolding execute
  execute-IsSilent op options h =
      reported-IsSilent op (execute_inner o op options) (execute_inner-IsSilent op options h)
