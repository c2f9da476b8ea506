-- ===== src/Core/Queries/Doctor.antt =====
-- `Query::Doctor` of application.rs.
use xrayctl.Common.{
  String, ◌<>◌, Bool, true, false, ◌&&◌, Option, none, some, List, [], ◌∷◌, ◌++◌, map, all, join,
  contains_text, is_empty, is_some, if◌then◌else◌,
}
use xrayctl.Core.Error.{platform_unsupported, Result, ok, err, is_ok}
use xrayctl.Core.Json.{Value, obj, arr, items, object}
use xrayctl.Core.Backends.{Location, ◌/◌, ManagerPaths}
use xrayctl.Core.Backends.Tasks.{Task, ◌>>=◌, return, attempt, call, current_state}
use xrayctl.Core.Application.{paths}
use xrayctl.Core.Queries.{Reader, PlatformInfo}
use xrayctl.Core.Queries.Dtos.{DoctorCheck, CheckStatus, pass, warn, fail, check_json}

abbrev pass_if : Bool → CheckStatus → CheckStatus
pass_if true otherwise = pass
pass_if false otherwise = otherwise

-- `(!good).then(…)`.
abbrev unless : Bool → String → Option String
unless true text = none
unless false text = some text

abbrev text_or : String → Option String → String
text_or default none = default
text_or default (some s) = s

abbrev show_bool : Bool → String
show_bool true = "true"
show_bool false = "false"

abbrev backends_check : Bool → DoctorCheck
backends_check supported = record {
  id = "platform-backends";
  status = pass_if supported warn;
  message = "platform capability discovery completed";
  remediation = unless supported "satisfy backend requirements or select another compiled backend";
}

abbrev configuration_check : DoctorCheck
configuration_check = record {
  id = "configuration";
  status = pass;
  message = "configuration is valid";
  remediation = none;
}

abbrev platform_check : PlatformInfo → DoctorCheck
platform_check p = record {
  id = "platform";
  status = pass;
  message =
      p.os
      <> (" / "
          <> (text_or "unknown" p.distribution <> (" / " <> text_or "unknown" p.init_system)));
  remediation = none;
}

abbrev privileges_check : Bool → DoctorCheck
privileges_check elevated = record {
  id = "privileges";
  status = pass_if elevated warn;
  message =
      if elevated
      then "running with administrative privileges"
      else "running without administrative privileges";
  remediation = unless elevated "elevate only when executing a privileged system operation";
}

abbrev service_status : Option Bool → CheckStatus
service_status (some true) = pass
service_status (some false) = fail
service_status none = warn

abbrev service_check : Option Bool → DoctorCheck
service_check active = record {
  id = "xray-service";
  status = service_status active;
  message = "service state checked";
  remediation = some "run `sudo xrayctl repair` if the service is unavailable";
}

abbrev layout_check : List String → DoctorCheck
layout_check missing = record {
  id = "installed-layout";
  status = pass_if (is_empty missing) fail;
  message =
      if is_empty missing
      then "core, configuration, and assets are present"
      else "missing paths: " <> join ", " missing;
  remediation = unless (is_empty missing) "run `sudo xrayctl repair`";
}

abbrev config_check : Bool → DoctorCheck
config_check valid = record {
  id = "xray-config";
  status = pass_if valid fail;
  message =
      if valid
      then "installed Xray configuration is valid"
      else "installed Xray configuration validation failed";
  remediation = unless valid "run `sudo xrayctl repair` and inspect the previous generation";
}

abbrev health_check : Bool → DoctorCheck
health_check healthy = record {
  id = "proxy-health";
  status = pass_if healthy fail;
  message =
      if healthy then "SOCKS and HTTP proxy healthchecks succeeded" else "proxy healthcheck failed";
  remediation = unless healthy "inspect `xrayctl service logs` and roll back";
}

abbrev tun_check : Bool → Bool → Bool → DoctorCheck
tun_check interface firewall fail_closed = record {
  id = "selective-tun";
  status = pass_if (interface && (firewall && fail_closed)) fail;
  message =
      "interface="
      <> (show_bool interface
          <> (", firewall="
              <> (show_bool firewall <> (", fail_closed=" <> show_bool fail_closed))));
  remediation =
      unless (interface && (firewall && fail_closed))
        "run `sudo xrayctl tun cleanup`, then `sudo xrayctl tun enable`";
}

abbrev pub is_fail_closed : String → Bool
is_fail_closed policy =
    contains_text "blackhole default" policy && contains_text "unreachable default" policy

abbrev or_false : Result Bool → Bool
or_false (ok b) = b
or_false (err e) = false

abbrev or_empty : Result String → String
or_empty (ok s) = s
or_empty (err e) = ""

-- What a port gives, or nothing where the platform does not support it.
abbrev supported : {T : Type 0} → Result T → Result (Option T)
supported (ok x) = ok (some x)
supported (err (platform_unsupported c p b r s)) = ok none
supported (err e) = err e

abbrev is_active : Option Bool → Bool
is_active (some active) = active
is_active none = false

module _ {W : Type 0} (r : Reader W) where
  abbrev packages_check : Option (List String) → DoctorCheck
  packages_check none = record {
    id = "packages";
    status = warn;
    message = "package advice is unavailable";
    remediation = none;
  }
  packages_check (some missing) = record {
    id = "packages";
    status = pass_if (is_empty missing) fail;
    message =
        if is_empty missing
        then "required platform commands are installed"
        else "missing commands: " <> join ", " missing;
    remediation = r.operator.operating.install_hint missing;
  }

  -- The loop over the paths of the installation.
  unfoldable pub missing_paths : List Location → Task W (List String)
  missing_paths [] = return (ok [])
  missing_paths (path ∷ more) = do
    there ← call (r.operator.manager.backends.exists path)
    rest ← missing_paths more
    return (ok (if there then rest else r.show_path path ∷ rest))

  abbrev pub asset_dir : ManagerPaths → Location
  asset_dir p = p.install_dir / "assets" / "current"

  abbrev pub installed : ManagerPaths → List Location
  installed p =
      (p.install_dir / "core" / "current" / "xray")
      ∷ (p.state_dir / "current" / "conf.d")
      ∷ asset_dir p
      ∷ map (λ a. asset_dir p / a.filename) r.operator.manager.config.assets

  abbrev pub config_checks : ManagerPaths → List String → Task W (List DoctorCheck)
  config_checks p [] =
      attempt (
        call (
          r.operator.manager.backends.test_config (record {
            executable = p.install_dir / "core" / "current" / "xray";
            config_dir = p.state_dir / "current" / "conf.d";
            asset_dir = asset_dir p;
          })))
      >>= λ validation. return (ok (config_check (is_ok validation) ∷ []))
  config_checks p (path ∷ missing) = return (ok [])

  abbrev pub health_checks : Bool → Task W (List DoctorCheck)
  health_checks false = return (ok [])
  health_checks true =
      attempt (call (r.operator.manager.backends.healthcheck r.operator.manager.config))
      >>= λ health. return (ok (health_check (is_ok health) ∷ []))

  abbrev pub tun_checks : Bool → Task W (List DoctorCheck)
  tun_checks false = return (ok [])
  tun_checks true = do
    interface ←
        attempt
          (call (r.operator.operating.tun_status r.operator.manager.config.tun.interface_name))
    firewall ← attempt (call r.show_firewall)
    policy ← attempt (call (r.show_routing r.operator.manager.config))
    return (
        ok
          (tun_check (or_false interface) (is_ok firewall) (is_fail_closed (or_empty policy)) ∷ []))

  unfoldable pub full_checks : Task W (List DoctorCheck)
  unfolding missing_paths contains_text join
  full_checks = do
    missing ← attempt (call r.operator.operating.missing_requirements)
    packages ← return (supported missing)
    service ← attempt (call (r.operator.operating.is_active "xray.service"))
    active ← return (supported service)
    p ← paths r.operator.manager
    lacking ← missing_paths (installed p)
    config ← config_checks p lacking
    state ← current_state
    health ← health_checks (is_active active && is_some state.selected_node_id)
    tun ← tun_checks r.operator.manager.config.tun.enabled
    return (
        ok (
          packages_check packages
          ∷ service_check active
          ∷ layout_check lacking
          ∷ (config ++ (health ++ tun))))

  abbrev pub more_checks : Bool → Task W (List DoctorCheck)
  more_checks true = return (ok [])
  more_checks false = full_checks

  unfoldable pub examine : Bool → Task W Value
  unfolding full_checks
  examine quick = do
    platform ← call r.inspect
    elevated ← call r.operator.operating.is_elevated
    more ← more_checks quick
    return (
        ok (
          obj (
            object (
              (
                "checks",
                arr (
                    items (
                      map check_json (
                        backends_check (all (λ c. c.supported) r.operator.operating.capabilities)
                        ∷ configuration_check
                        ∷ platform_check platform
                        ∷ privileges_check elevated
                        ∷ more))),
              )
              ∷ ("backends", r.selections_json r.operator.operating.selections)
              ∷ ("capabilities", r.capabilities_json r.operator.operating.capabilities)
              ∷ []))))
