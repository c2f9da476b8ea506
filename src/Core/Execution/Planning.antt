-- ===== src/Core/Execution/Planning.antt =====
-- `plan_internal` of application.rs. The map of backends in a plan is the list of its entries.
use xrayctl.Common.{
  String, ◌<>◌, Bool, true, false, not, ◌&&◌, ◌||◌, Option, none, some, List, [], ◌∷◌, ◌++◌, map,
  ◌==◌, filter, find,
}
use xrayctl.Core.Error.{platform_unsupported, Result, ok, err}
use xrayctl.Core.Ports.{Capability, firewall, policy_routing, desktop_proxy, same, BackendSelection}
use xrayctl.Core.Profiles.{validate_profile, validate_resource_name}
use xrayctl.Core.Operations.{
  Operation, install_manager, repair, uninstall, purge, apply, upgrade_all, upgrade_core,
  upgrade_assets, upgrade_manager, subscription_refresh, node_select, routing_apply, service_start,
  service_stop, service_restart, tun_enable, tun_disable, tun_cleanup, desktop_proxy_enable,
  desktop_proxy_disable, app_run, app_test, app_profile_remove, app_profile_put, subscription_add,
  subscription_remove, subscription_enable, config_rollback, core_rollback, asset_rollback,
  routing_preset, routing_set, name_of, check_operation,
}
use xrayctl.Core.Plans.{
  PlanAction, ExecutionPlan, all_parts, core, assets, manager, add_identity_to_group, write_file,
  download_artifact, require_packages, start_service, restart_service, stop_service,
  configure_firewall, configure_route, apply_configuration, configure_desktop_proxy,
  launch_application, remove_owned_path,
}
use xrayctl.Core.Backends.{◌/◌}
use xrayctl.Core.Backends.Tasks.{Task, ◌>>=◌, ◌>>◌, return, attempt, call}
use xrayctl.Core.Application.{paths}
use xrayctl.Core.Execution.{Operator}
use xrayctl.Core.Execution.Files.{subscription_path}

abbrev is_optional : Bool → String → Bool
is_optional tun_enabled requirement =
    (requirement == "mount" || requirement == "unshare")
    || (not tun_enabled && (requirement == "ip" || requirement == "nft"))

abbrev or_unavailable : Option BackendSelection → String
or_unavailable none = "unavailable"
or_unavailable (some s) = s.backend_id

abbrev pub with_packages : List String → ExecutionPlan → ExecutionPlan
with_packages [] plan = plan
with_packages (x ∷ packages) plan = record plan {
  actions = require_packages (x ∷ packages) ∷ plan.actions;
}

-- What an application starts: its command, or the profile.
abbrev launched : Option String → List String → String
launched profile (program ∷ args) = program
launched (some name) [] = name
launched none [] = "<profile>"

module _ {W : Type 0} (o : Operator W) where
  abbrev pub selected_backend : Capability → String
  selected_backend c = or_unavailable (find (λ s. same s.capability c) o.operating.selections)

  abbrev pub plan_of : Operation → List PlanAction → ExecutionPlan
  plan_of op actions = record {
    operation = name_of op;
    backend_ids = map (λ s. (s.capability, s.backend_id)) o.operating.selections;
    actions = actions;
  }

  abbrev required : Result (List String) → ExecutionPlan → Result ExecutionPlan
  required (ok missing) plan = ok (
      with_packages
        (o.operating.packages_for
          (filter (λ r. not (is_optional o.manager.config.tun.enabled r)) missing))
        plan)
  required (err (platform_unsupported c p b r s)) plan = ok plan
  required (err e) plan = err e

  unfoldable pub add_platform_requirements : ExecutionPlan → Task W ExecutionPlan
  add_platform_requirements plan =
      attempt (call o.operating.missing_requirements) >>= λ missing. return (required missing plan)

  abbrev add_user : Option String → ExecutionPlan → Task W ExecutionPlan
  add_user none plan = return (ok plan)
  add_user (some user) plan =
      return (validate_resource_name user)
      >> return (
          ok (record plan {
            actions = plan.actions ++ add_identity_to_group user "xray-manager" ∷ [];
          }))

  abbrev planned : Operation → List PlanAction → Task W ExecutionPlan
  planned op actions = return (ok (plan_of op actions))

  abbrev activation_plan : Operation → Task W ExecutionPlan
  activation_plan op = planned op (
      apply_configuration "render and validate an Xray configuration generation"
      ∷ restart_service "xray.service"
      ∷ [])

  abbrev written_subscription : Operation → String → Task W ExecutionPlan
  written_subscription op name = subscription_path o name >>= λ path.
      planned op (write_file path 0o600 "subscription configuration (URL redacted)" ∷ [])

  -- The plan of an operation whose capabilities have been checked.
  unfoldable pub plan_actions : Operation → Task W ExecutionPlan
  unfolding add_platform_requirements
  plan_actions (install_manager user) = call (o.operating.plan_install o.manager.config) >>= λ plan.
      add_platform_requirements plan >>= λ more. add_user user more
  plan_actions repair =
      call (o.operating.plan_repair o.manager.config) >>= λ plan. add_platform_requirements plan
  plan_actions uninstall = call (o.operating.plan_uninstall false)
  plan_actions purge = call (o.operating.plan_uninstall true)
  plan_actions upgrade_all = call (o.operating.plan_upgrade o.manager.config all_parts)
  plan_actions upgrade_core = call (o.operating.plan_upgrade o.manager.config core)
  plan_actions upgrade_assets = call (o.operating.plan_upgrade o.manager.config assets)
  plan_actions upgrade_manager = call (o.operating.plan_upgrade o.manager.config manager)
  plan_actions service_start = planned service_start (start_service "xray.service" ∷ [])
  plan_actions service_stop = planned service_stop (stop_service "xray.service" ∷ [])
  plan_actions service_restart = planned service_restart (restart_service "xray.service" ∷ [])
  plan_actions tun_enable = planned tun_enable (
      configure_firewall (selected_backend firewall)
      ∷ configure_route (selected_backend policy_routing) o.manager.config.tun.routing_table
      ∷ start_service "xray-tun-policy.service"
      ∷ restart_service "xray.service"
      ∷ [])
  plan_actions tun_disable = planned tun_disable (stop_service "xray-tun-policy.service" ∷ [])
  plan_actions tun_cleanup = planned tun_cleanup (stop_service "xray-tun-policy.service" ∷ [])
  plan_actions (desktop_proxy_enable user) =
      planned (desktop_proxy_enable user)
        (configure_desktop_proxy (selected_backend desktop_proxy) user true ∷ [])
  plan_actions (desktop_proxy_disable user) =
      planned (desktop_proxy_disable user)
        (configure_desktop_proxy (selected_backend desktop_proxy) user false ∷ [])
  plan_actions (app_run profile command) =
      planned (app_run profile command) (launch_application (launched profile command) true ∷ [])
  plan_actions (app_test profile) =
      return (validate_resource_name profile)
      >> planned (app_test profile)
          (launch_application ("<route-ip-check:" <> (profile <> ">")) true ∷ [])
  plan_actions (subscription_add name url) = written_subscription (subscription_add name url) name
  plan_actions (subscription_enable name enabled) =
      written_subscription (subscription_enable name enabled) name
  plan_actions (subscription_remove name) = subscription_path o name >>= λ path.
      planned (subscription_remove name) (remove_owned_path path ∷ [])
  plan_actions (app_profile_remove name) =
      return (validate_resource_name name)
      >> (paths o.manager >>= λ p.
          planned (app_profile_remove name)
            (remove_owned_path (p.config_dir / "apps.d" / (name <> ".toml")) ∷ []))
  plan_actions (app_profile_put profile) =
      return (validate_profile profile)
      >> (paths o.manager >>= λ p. planned (app_profile_put profile) (
          write_file (p.config_dir / "apps.d" / (profile.name <> ".toml")) 0o640
            "selective application profile"
          ∷ []))
  plan_actions (subscription_refresh name) = paths o.manager >>= λ p.
      planned (subscription_refresh name) (
        download_artifact "subscriptions" (p.state_dir / "nodes.json")
        ∷ apply_configuration "reconcile the selected node without exposing credentials"
        ∷ [])
  plan_actions apply = activation_plan apply
  plan_actions (node_select id) = activation_plan (node_select id)
  plan_actions routing_apply = activation_plan routing_apply
  plan_actions (routing_preset name) = activation_plan (routing_preset name)
  plan_actions (routing_set routing) = activation_plan (routing_set routing)
  plan_actions config_rollback = planned config_rollback (restart_service "xray.service" ∷ [])
  plan_actions core_rollback = planned core_rollback (restart_service "xray.service" ∷ [])
  plan_actions asset_rollback = planned asset_rollback (restart_service "xray.service" ∷ [])

  unfoldable pub plan_internal : Operation → Bool → Task W ExecutionPlan
  unfolding plan_actions
  plan_internal op enforce =
      return (
        check_operation o.operating.platform o.operating.capabilities o.operating.selections
          o.manager.config.tun.enabled op enforce)
      >> plan_actions op
