-- ===== src/Platform/Fake/Operating.antt =====
-- The other adapters of fake.rs: `FakeInstaller`, `FakePackageAdvisor`, `FakePrivilegeChecker`,
-- `FakeDownloader`, `FakeTunManager` and the lock of `FakeFileSystem`. Where fake.rs has no adapter,
-- its tests take those of a platform that is not supported.
use xrayctl.Common.{
  ℕ, suc, String, ◌<>◌, Bool, true, Option, none, some, List, [], ◌∷◌, ◌==◌, len, ltb, join,
  is_empty, if◌then◌else◌,
}
use xrayctl.Common.Assoc.{get}
use xrayctl.Core.Error.{download, other, Result, ok, err}
use xrayctl.Core.Ports.{Capability, CapabilityStatus}
use xrayctl.Core.Config.{ManagerConfig}
use xrayctl.Core.Backends.{ManagerPaths, Action}
use xrayctl.Core.Plans.{
  ensure_identity, ensure_directory, run_healthcheck, remove_owned_path, download_artifact,
  ExecutionPlan, UpgradeTarget, all_parts, core, assets, manager, DownloadRequest, OperatingSet,
}
use xrayctl.Platform.Fake.{FakeWorld}
use xrayctl.Platform.Unsupported.{refused}

abbrev plan_install : ManagerPaths → ManagerConfig → ExecutionPlan
plan_install paths config = record {
  operation = "install";
  backend_ids = [];
  actions =
      ensure_identity "xray" true
      ∷ ensure_directory paths.config_dir 0o750
      ∷ run_healthcheck config.general.healthcheck_url
      ∷ [];
}

abbrev plan_uninstall : ManagerPaths → Bool → ExecutionPlan
plan_uninstall paths purge = record {
  operation = if purge then "purge" else "uninstall";
  backend_ids = [];
  actions = if purge then remove_owned_path paths.config_dir ∷ [] else [];
}

abbrev upgrade_name : UpgradeTarget → String
upgrade_name all_parts = "upgrade_all"
upgrade_name core = "upgrade_core"
upgrade_name assets = "upgrade_assets"
upgrade_name manager = "upgrade_manager"

abbrev plan_upgrade : ManagerPaths → UpgradeTarget → ExecutionPlan
plan_upgrade paths target = record {
  operation = upgrade_name target;
  backend_ids = [];
  actions = download_artifact "fake-upgrade" paths.install_dir ∷ [];
}

abbrev outcome : Option String → Result (Unit {0})
outcome none = ok tt
outcome (some error) = err (other error)

abbrev apply_plan : Option String → Action FakeWorld (Unit {0})
apply_plan apply_error w = (outcome apply_error, record w { applied = suc w.applied })

abbrev limited : ℕ → Option String → Result String
limited max_bytes none = err (download "no fake response configured")
limited max_bytes (some bytes) =
    if ltb max_bytes (len bytes) then err (download "size limit exceeded") else ok bytes

unfoldable pub download_fake : List (String × String) → DownloadRequest → Action FakeWorld String
unfolding get
download_fake responses request w =
    (limited request.max_bytes (get (λ a b. a == b) request.url responses), w)

abbrev pub fake_operating :
    ManagerPaths
    → Option String
    → List (String × String)
    → List CapabilityStatus
    → OperatingSet FakeWorld
fake_operating paths apply_error responses capabilities = record {
  platform = "test";
  selections = [];
  capabilities = capabilities;
  acquire_lock = λ path w. (ok tt, record w { locks = suc w.locks });
  release_lock = λ path w. w;
  download = download_fake responses;
  plan_install = λ config w. (ok (plan_install paths config), w);
  plan_repair = λ config w. (ok (record (plan_install paths config) { operation = "repair" }), w);
  plan_uninstall = λ purge w. (ok (plan_uninstall paths purge), w);
  plan_upgrade = λ config target w. (ok (plan_upgrade paths target), w);
  apply_plan = λ plan. apply_plan apply_error;
  missing_requirements = λ w. (ok [], w);
  packages_for = λ requirements. requirements;
  install_hint =
      λ packages. if is_empty packages then none else some ("install " <> join " " packages);
  is_active = λ service w. (ok w.active, w);
  enable_firewall = λ config. refused "test" Capability.firewall;
  enable_routing = λ config. refused "test" Capability.policy_routing;
  tun_status = λ interface w. (ok w.tun, w);
  run_app = λ request. refused "test" Capability.app_runner;
  test_route = λ request. refused "test" Capability.app_runner;
  enable_proxy = λ user config. refused "test" Capability.desktop_proxy;
  disable_proxy = λ user. refused "test" Capability.desktop_proxy;
  is_elevated = λ w. (ok true, w);
}
