-- ===== src/Core/Execution/Apps.antt =====
-- The operations on applications of application.rs.
use xrayctl.Common.{
  zero, suc, String, ◌<>◌, show, true, false, not, Option, none, some, List, [], ◌∷◌, ◌==◌, find,
  is_empty,
}
use xrayctl.Core.Error.{invalid_config, other, Result, ok, err, fail_if, ok_or}
use xrayctl.Core.Json.{Value, str, bool, obj, object}
use xrayctl.Core.Profiles.{AppProfile, validate_resource_name}
use xrayctl.Core.Plans.{ℤ, pos, negsuc, AppLaunchRequest, AppRouteTestResult}
use xrayctl.Core.Backends.{◌/◌}
use xrayctl.Core.Backends.Tasks.{Task, ◌>>=◌, ◌>>◌, return, call}
use xrayctl.Core.Application.{paths}
use xrayctl.Core.Execution.{Operator}
use xrayctl.Core.Execution.Files.{load_app_profiles}
use xrayctl.Core.Execution.Tun.{tun_service}

abbrev show_status : ℤ → String
show_status (pos n) = show n
show_status (negsuc n) = "-" <> show (suc n)

abbrev pub exited : ℤ → Result (Unit {0})
exited (pos zero) = ok tt
exited status = err (other ("application exited with status " <> show_status status))

-- `serde_json::to_value`.
abbrev pub route_json : AppRouteTestResult → Value
route_json r = obj (
    object (
      ("direct_ip", str r.direct_ip)
      ∷ ("routed_ip", str r.routed_ip)
      ∷ ("routes_differ", bool r.routes_differ)
      ∷ []))

abbrev pub command_of : Option AppProfile → List String → List String
command_of none [] = []
command_of (some profile) [] = profile.command
command_of profile (program ∷ args) = program ∷ args

abbrev pub launch_of : Option AppProfile → List String → AppLaunchRequest
launch_of none command = record {
  command = command;
  user = "";
  override_dns = false;
  clear_proxy_environment = true;
  working_directory = none;
  environment = [];
}
launch_of (some profile) command = record {
  command = command;
  user = "";
  override_dns = profile.override_dns;
  clear_proxy_environment = profile.clear_proxy_environment;
  working_directory = profile.working_directory;
  environment = profile.environment;
}

abbrev pub find_profile : String → List AppProfile → Result AppProfile
find_profile name profiles =
    ok_or (find (λ p. p.name == name) profiles)
      (invalid_config ("app profile '" <> (name <> "' was not found")))

module _ {W : Type 0} (o : Operator W) where
  -- The policy service and the interface must be up.
  unfoldable pub require_tun : Task W (Unit {0})
  require_tun = do
    active ← call (o.operating.is_active tun_service)
    return (
        fail_if (not active)
          (other "selective TUN policy is not active; run `sudo xrayctl tun enable`"))
    up ← call (o.operating.tun_status o.manager.config.tun.interface_name)
    return (
        fail_if (not up)
          (other ("TUN interface " <> (o.manager.config.tun.interface_name <> " is not active"))))

  abbrev pub load_profile : Option String → Task W (Option AppProfile)
  load_profile none = return (ok none)
  load_profile (some name) = load_app_profiles o >>= λ profiles.
      return (find_profile name profiles) >>= λ profile. return (ok (some profile))

  -- `Operation::AppRun`.
  unfoldable pub run_application : Option String → List String → Task W (Unit {0})
  unfolding require_tun
  run_application name command = do
    require_tun
    profile ← load_profile name
    let launched = command_of profile command
    return (fail_if (is_empty launched) (invalid_config "app run requires a profile or command"))
    status ← call (o.operating.run_app (launch_of profile launched))
    return (exited status)

  -- `Operation::AppTest`; the data of the result.
  unfoldable pub test_application : String → Task W Value
  unfolding require_tun
  test_application name = do
    require_tun
    return (validate_resource_name name)
    profiles ← load_app_profiles o
    profile ← return (find_profile name profiles)
    result ← call (
        o.operating.test_route (record {
          user = "";
          override_dns = profile.override_dns;
          url = "https://api.ipify.org";
          timeout = o.manager.config.general.request_timeout_seconds;
        }))
    return (ok (route_json result))

  -- `Operation::AppProfileRemove`.
  unfoldable pub remove_profile : String → Task W (Unit {0})
  remove_profile name = do
    return (validate_resource_name name)
    p ← paths o.manager
    let directory = p.config_dir / "apps.d"
    call (o.manager.backends.remove_owned (directory / (name <> ".toml")) directory)
