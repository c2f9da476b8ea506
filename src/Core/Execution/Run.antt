-- ===== src/Core/Execution/Run.antt =====
-- `execute` of application.rs.
use xrayctl.Common.{
  String, ◌<>◌, Bool, true, false, not, ◌&&◌, Option, none, some, List, [], ◌∷◌, ◌++◌, find, join,
  is_none, if◌then◌else◌,
}
use xrayctl.Core.Error.{
  invalid_config, platform_unsupported, manager_release_source_not_configured, privilege_required,
  code, Result, ok, err, fail_if,
}
use xrayctl.Core.Events.{operation_started, operation_finished, operation_failed}
use xrayctl.Core.Ports.{install, same, BackendSelection}
use xrayctl.Core.Json.{Value}
use xrayctl.Core.Operations.{
  Operation, install_manager, repair, uninstall, purge, apply, upgrade_all, upgrade_core,
  upgrade_assets, upgrade_manager, subscription_refresh, node_select, routing_apply, service_start,
  service_stop, service_restart, tun_enable, tun_disable, tun_cleanup, desktop_proxy_enable,
  desktop_proxy_disable, app_run, app_test, app_profile_remove, app_profile_put, subscription_add,
  subscription_remove, subscription_enable, config_rollback, core_rollback, asset_rollback,
  routing_preset, routing_set, name_of, requires_administrator,
}
use xrayctl.Core.Plans.{PlanAction, require_packages, ExecutionPlan}
use xrayctl.Core.Backends.{Location, ◌/◌}
use xrayctl.Core.Backends.Tasks.{Task, ◌>>=◌, ◌>>◌, return, on_error, call, emit, current_state}
use xrayctl.Core.Application.{paths, reload_state}
use xrayctl.Core.Application.Rollback.{config_rollback as roll_back_configuration}
use xrayctl.Core.Application.RoutingChange.{write_routing_and_apply}
use xrayctl.Core.Execution.{Operator, OperationOptions, OperationResult}
use xrayctl.Core.Execution.Files.{write_app_profile}
use xrayctl.Core.Execution.Refresh.{refresh_subscriptions}
use xrayctl.Core.Execution.Planning.{plan_internal}
use xrayctl.Core.Execution.Tun.{enable_tun, disable_tun}
use xrayctl.Core.Execution.Apps.{run_application, test_application, remove_profile}
use xrayctl.Core.Execution.Changes.{
  add_subscription, remove_subscription, enable_subscription, select_node, apply_selected,
  apply_preset, roll_back_core, roll_back_assets,
}

abbrev pub is_upgrade_manager : Operation → Bool
is_upgrade_manager upgrade_manager = true
is_upgrade_manager _ = false

abbrev pub is_purge : Operation → Bool
is_purge purge = true
is_purge _ = false

abbrev pub is_diagnostic : Operation → Bool
is_diagnostic (app_test profile) = true
is_diagnostic _ = false

abbrev pub is_install : Operation → Bool
is_install (install_manager user) = true
is_install _ = false

-- Applications run without the lock of the manager.
abbrev pub is_unlocked : Operation → Bool
is_unlocked (app_run profile command) = true
is_unlocked (app_test profile) = true
is_unlocked _ = false

abbrev pub packages_of : List PlanAction → Option (List String)
packages_of [] = none
packages_of (require_packages packages ∷ actions) = some packages
packages_of (_ ∷ actions) = packages_of actions

-- The warnings and the data of an operation.
abbrev pub Report : Type 0
Report = List String × Option Value

abbrev pub kde_warning : String
kde_warning = "KDE applications may need to be restarted before the proxy change is visible"

abbrev pub blackhole_warning : String
blackhole_warning =
    "Xray is running with a validated safe blackhole outbound; add and refresh a subscription, then select a node"

abbrev hint_of : Option String → List String → String
hint_of none packages = "install packages: " <> join ", " packages
hint_of (some hint) packages = hint

abbrev id_of : Option BackendSelection → Option String
id_of none = none
id_of (some s) = some s.backend_id

module _ {W : Type 0} (o : Operator W) where
  abbrev quietly : Task W (Unit {0}) → Task W Report
  quietly task = task >>= λ _. return (ok ([], none))

  abbrev warning : String → Task W (Unit {0}) → Task W Report
  warning text task = task >>= λ _. return (ok (text ∷ [], none))

  abbrev install_plan : ExecutionPlan → Task W Report
  install_plan plan = quietly (call (o.operating.apply_plan plan) >> reload_state o.manager)

  -- The `match` on the operation.
  unfoldable pub perform : Operation → ExecutionPlan → Task W Report
  perform (install_manager user) plan = install_plan plan
  perform repair plan = install_plan plan
  perform uninstall plan = install_plan plan
  perform purge plan = install_plan plan
  perform upgrade_all plan = install_plan plan
  perform upgrade_core plan = install_plan plan
  perform upgrade_assets plan = install_plan plan
  perform upgrade_manager plan = install_plan plan
  perform service_start plan = quietly (call (o.manager.backends.start "xray.service"))
  perform service_stop plan = quietly (call (o.manager.backends.stop "xray.service"))
  perform service_restart plan = quietly (call (o.manager.backends.restart "xray.service"))
  perform (subscription_add name url) plan = quietly (add_subscription o name url)
  perform (subscription_remove name) plan = quietly (remove_subscription o name)
  perform (subscription_enable name enabled) plan = quietly (enable_subscription o name enabled)
  perform (subscription_refresh name) plan =
      refresh_subscriptions o name >>= λ warnings. return (ok (warnings, none))
  perform (node_select id) plan = quietly (select_node o id)
  perform apply plan = quietly (apply_selected o)
  perform routing_apply plan = quietly (apply_selected o)
  perform (routing_preset name) plan = quietly (apply_preset o name)
  perform (routing_set routing) plan = quietly (write_routing_and_apply o.manager routing)
  perform config_rollback plan = quietly (roll_back_configuration o.manager)
  perform core_rollback plan = quietly (roll_back_core o)
  perform asset_rollback plan = quietly (roll_back_assets o)
  perform tun_enable plan = quietly (enable_tun o)
  perform tun_disable plan = quietly (disable_tun o)
  perform tun_cleanup plan = quietly (disable_tun o)
  perform (desktop_proxy_enable user) plan =
      warning kde_warning (call (o.operating.enable_proxy user o.manager.config))
  perform (desktop_proxy_disable user) plan =
      warning kde_warning (call (o.operating.disable_proxy user))
  perform (app_run profile command) plan = quietly (run_application o profile command)
  perform (app_test profile) plan =
      test_application o profile >>= λ value. return (ok ([], some value))
  perform (app_profile_remove name) plan = quietly (remove_profile o name)
  perform (app_profile_put profile) plan = quietly (write_app_profile o profile)

  -- Before anything is planned.
  unfoldable pub refuse : Operation → OperationOptions → Task W (Unit {0})
  refuse op options = do
    return (
        fail_if (is_upgrade_manager op && is_none o.manager.config.core.manager_repository)
          manager_release_source_not_configured)
    return (
        fail_if (is_purge op && not options.dry_run && not options.assume_yes)
          (invalid_config "purge requires explicit confirmation"))

  unfoldable pub check_privilege : Operation → OperationOptions → Task W (Unit {0})
  check_privilege op options =
      if not options.dry_run && requires_administrator op
      then (call o.operating.is_elevated >>= λ elevated.
          return (fail_if (not elevated) privilege_required))
      else return (ok tt)

  abbrev pub missing_packages : Option (List String) → Result (Unit {0})
  missing_packages none = ok tt
  missing_packages (some packages) = err (
      platform_unsupported install o.operating.platform
        (id_of (find (λ s. same s.capability install) o.operating.selections))
        "required packages are missing"
        (some (
          "Install them explicitly, then repeat the command: "
          <> hint_of (o.operating.install_hint packages) packages)))

  unfoldable pub check_packages : ExecutionPlan → OperationOptions → Result (Unit {0})
  check_packages plan options =
      if options.dry_run then ok tt else missing_packages (packages_of plan.actions)

  -- The guard is dropped when the function returns, whatever it returns.
  unfoldable pub release : {T : Type 0} → Location → Task W T → Task W T
  release path task s =
      let (r, s') = task s in
      (
        r,
        record {
          state = s'.state;
          counter = s'.counter;
          world = o.operating.release_lock path s'.world;
        },
      )

  unfoldable pub with_lock : {T : Type 0} → Operation → Task W T → Task W T
  unfolding release
  with_lock op task =
      if is_unlocked op
      then task
      else (paths o.manager >>= λ p.
          call (o.operating.acquire_lock (p.runtime_dir / "manager.lock"))
          >> release (p.runtime_dir / "manager.lock") task)

  abbrev pub blackhole_of : Operation → Option String → List String → List String
  blackhole_of op none warnings =
      if is_install op then warnings ++ blackhole_warning ∷ [] else warnings
  blackhole_of op (some id) warnings = warnings

  unfoldable pub perform_all : Operation → ExecutionPlan → Task W OperationResult
  unfolding perform
  perform_all op plan = do
    (warnings, value) ← perform op plan
    state ← current_state
    return (
        ok (record {
          operation = name_of op;
          changed = not (is_diagnostic op);
          plan = none;
          value = value;
          warnings = blackhole_of op state.selected_node_id warnings;
        }))

  abbrev pub dry_result : Operation → ExecutionPlan → OperationResult
  dry_result op plan = record {
    operation = name_of op;
    changed = false;
    plan = some plan;
    value = none;
    warnings = [];
  }

  abbrev pub after_checks : Operation → ExecutionPlan → Bool → Task W OperationResult
  after_checks op plan true = return (ok (dry_result op plan))
  after_checks op plan false = with_lock op (perform_all op plan)

  unfoldable pub execute_inner : Operation → OperationOptions → Task W OperationResult
  unfolding refuse check_privilege check_packages with_lock perform_all
  execute_inner op options = do
    refuse op options
    plan ← plan_internal o op (not options.dry_run)
    check_privilege op options
    return (check_packages plan options)
    after_checks op plan options.dry_run

  abbrev pub finished : Operation → OperationResult → Task W OperationResult
  finished op r = emit o.manager.backends (operation_finished (name_of op)) >> return (ok r)

  -- The events around an operation.
  unfoldable pub reported : Operation → Task W OperationResult → Task W OperationResult
  reported op task =
      emit o.manager.backends (operation_started (name_of op))
      >> (on_error (λ e. emit o.manager.backends (operation_failed (name_of op) (code e))) task
          >>= finished op)

  unfoldable pub execute : Operation → OperationOptions → Task W OperationResult
  unfolding execute_inner reported
  execute op options = reported op (execute_inner op options)
