-- ===== src/Platform/Unsupported.antt =====
-- crates/xray-manager-platform/src/unsupported.rs: the adapters of a platform that is not supported,
-- and the installer that makes the plans of Linux there. What they answer to the application is
-- modelled; `logs`, `show`, `attach_tun`, `detach_tun`, `inspect`, `probe` and `version` are not.
pub mod Untouched
use xrayctl.Common.{
  ℕ, String, Bool, true, false, Option, none, some, List, [], ◌∷◌, ◌++◌, if◌then◌else◌,
}
use xrayctl.Core.Error.{ManagerError, platform_unsupported, Result, ok, err}
use xrayctl.Core.Ports.{Capability}
use xrayctl.Core.Config.{ManagerConfig}
use xrayctl.Core.Backends.{Location, Action, BackendSet}
use xrayctl.Core.Plans.{
  PlanAction, ensure_identity, ensure_group, ensure_directory, write_file, run_healthcheck,
  stop_service, remove_service, remove_owned_path, download_artifact, ExecutionPlan, UpgradeTarget,
  all_parts, core, assets, manager, OperatingSet,
}

abbrev pub unsupported : String → Capability → ManagerError
unsupported platform capability =
    platform_unsupported capability platform none
      "no runtime backend is implemented for this platform"
      (some "select a backend implemented for this platform")

abbrev pub refused : {W T : Type 0} → String → Capability → Action W T
refused platform capability w = (err (unsupported platform capability), w)

-- `LinuxPlanOnlyInstaller`.
abbrev pub only_planned : String → ManagerError
only_planned platform =
    platform_unsupported Capability.install platform (some "linux-plan-only")
      "this backend can preview a Linux plan but cannot mutate this platform"
      (some "run the mutation on a supported Linux host")

abbrev xrayctl_path : Location
xrayctl_path = "xrayctl" ∷ "bin" ∷ "local" ∷ "usr" ∷ []

abbrev pub linux_install : ManagerConfig → ExecutionPlan
linux_install config = record {
  operation = "install";
  backend_ids =
      (Capability.install, "arch")
      ∷ (Capability.service, "systemd")
      ∷ (Capability.firewall, "nftables")
      ∷ (Capability.policy_routing, "iproute2")
      ∷ (Capability.tun, "xray-linux-tun")
      ∷ [];
  actions =
      ensure_identity "xray" true
      ∷ ensure_group "xray-manager"
      ∷ ensure_group "xray-tun"
      ∷ ensure_directory ("xray-manager" ∷ "etc" ∷ []) 0o2750
      ∷ write_file ("xray.service" ∷ "system" ∷ "systemd" ∷ "etc" ∷ []) 0o644 "xray.service"
      ∷ download_artifact "xray-core" ("versions" ∷ "core" ∷ "xray-manager" ∷ "opt" ∷ [])
      ∷ download_artifact "assets" ("generations" ∷ "assets" ∷ "xray-manager" ∷ "opt" ∷ [])
      ∷ run_healthcheck config.general.healthcheck_url
      ∷ [];
}

abbrev pub linux_uninstall : Bool → ExecutionPlan
linux_uninstall purge = record {
  operation = if purge then "purge" else "uninstall";
  backend_ids = (Capability.install, "arch") ∷ [];
  actions =
      stop_service "xray.service"
      ∷ remove_service "xray.service"
      ∷ remove_owned_path xrayctl_path
      ∷ (if purge
          then remove_owned_path ("xray-manager" ∷ "etc" ∷ [])
            ∷ remove_owned_path ("xray-manager" ∷ "lib" ∷ "var" ∷ [])
            ∷ remove_owned_path ("xray-manager" ∷ "cache" ∷ "var" ∷ [])
            ∷ remove_owned_path ("xray-manager" ∷ "opt" ∷ [])
            ∷ []
          else []);
}

abbrev upgrade : UpgradeTarget → String × String × Location
upgrade all_parts = ("upgrade_all", "xray-core-and-assets", "xray-manager" ∷ "opt" ∷ [])
upgrade core = ("upgrade_core", "xray-core", "versions" ∷ "core" ∷ "xray-manager" ∷ "opt" ∷ [])
upgrade assets =
    ("upgrade_assets", "assets", "generations" ∷ "assets" ∷ "xray-manager" ∷ "opt" ∷ [])
upgrade manager = ("upgrade_manager", "xray-manager", xrayctl_path)

abbrev upgrade_plan : String × String × Location → ExecutionPlan
upgrade_plan (operation, id, destination) = record {
  operation = operation;
  backend_ids = (Capability.install, "arch") ∷ [];
  actions = download_artifact id destination ∷ [];
}

abbrev pub linux_upgrade : UpgradeTarget → ExecutionPlan
linux_upgrade target = upgrade_plan (upgrade target)

-- What these adapters put in the place of others: the lock and the downloads are those of `base`.
unfoldable pub plan_only : {W : Type 0} → String → OperatingSet W → OperatingSet W
plan_only platform base = record {
  platform = platform;
  selections = base.selections;
  capabilities = base.capabilities;
  acquire_lock = base.acquire_lock;
  release_lock = base.release_lock;
  download = base.download;
  plan_install = λ config w. (ok (linux_install config), w);
  plan_repair = λ config w. (ok (record (linux_install config) { operation = "repair" }), w);
  plan_uninstall = λ purge w. (ok (linux_uninstall purge), w);
  plan_upgrade = λ config target w. (ok (linux_upgrade target), w);
  apply_plan = λ plan w. (err (only_planned platform), w);
  missing_requirements = refused platform Capability.package_advice;
  packages_for = λ requirements. [];
  install_hint = λ packages. none;
  is_active = λ service. refused platform Capability.service;
  enable_firewall = λ config. refused platform Capability.firewall;
  enable_routing = λ config. refused platform Capability.policy_routing;
  tun_status = λ interface. refused platform Capability.tun;
  run_app = λ request. refused platform Capability.app_runner;
  test_route = λ request. refused platform Capability.app_runner;
  enable_proxy = λ user config. refused platform Capability.desktop_proxy;
  disable_proxy = λ user. refused platform Capability.desktop_proxy;
  is_elevated = λ w. (ok false, w);
}
