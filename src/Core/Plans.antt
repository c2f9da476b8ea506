-- ===== src/Core/Plans.antt =====
-- crates/xray-manager-core/src/ports.rs: the plans of operations, and the ports of `DynBackendSet`
-- that only operations use. The guard of a lock gives it back when it is dropped.
use xrayctl.Common.{ℕ, String, Bool, Option, List}
use xrayctl.Core.Ports.{Capability, BackendSelection, CapabilityStatus}
use xrayctl.Core.Config.{ManagerConfig}
use xrayctl.Core.Backends.{Location, Action}

pub data PlanAction : Type 0 where
  ensure_identity : String → Bool → PlanAction
  ensure_group : String → PlanAction
  add_identity_to_group : String → String → PlanAction
  ensure_directory : Location → ℕ → PlanAction
  write_file : Location → ℕ → String → PlanAction
  download_artifact : String → Location → PlanAction
  require_packages : List String → PlanAction
  install_service enable_service start_service restart_service : String → PlanAction
  stop_service remove_service configure_firewall : String → PlanAction
  configure_route : String → ℕ → PlanAction
  apply_configuration : String → PlanAction
  configure_desktop_proxy : String → String → Bool → PlanAction
  launch_application : String → Bool → PlanAction
  run_healthcheck : String → PlanAction
  remove_owned_path : Location → PlanAction

pub record ExecutionPlan : Type 0 where
  pub operation : String
  pub backend_ids : List (Capability × String)
  pub actions : List PlanAction

pub data UpgradeTarget : Type 0 where
  all_parts core assets manager : UpgradeTarget

pub record DownloadRequest : Type 0 where
  pub url : String
  pub max_bytes : ℕ
  pub timeout : ℕ
  pub max_redirects : ℕ

pub record AppLaunchRequest : Type 0 where
  pub command : List String
  pub user : String
  pub override_dns : Bool
  pub clear_proxy_environment : Bool
  pub working_directory : Option String
  pub environment : List (String × String)

pub record AppRouteTestRequest : Type 0 where
  pub user : String
  pub override_dns : Bool
  pub url : String
  pub timeout : ℕ

pub record AppRouteTestResult : Type 0 where
  pub direct_ip : String
  pub routed_ip : String
  pub routes_differ : Bool

-- An `i32`, where `negsuc n` is -(n + 1).
pub data ℤ : Type 0 where
  pos : ℕ → ℤ
  negsuc : ℕ → ℤ

pub record OperatingSet (W : Type 0) : Type 0 where
  pub platform : String
  pub selections : List BackendSelection
  pub capabilities : List CapabilityStatus
  pub acquire_lock : Location → Action W (Unit {0})
  pub release_lock : Location → W → W
  pub download : DownloadRequest → Action W String
  pub plan_install : ManagerConfig → Action W ExecutionPlan
  pub plan_repair : ManagerConfig → Action W ExecutionPlan
  pub plan_uninstall : Bool → Action W ExecutionPlan
  pub plan_upgrade : ManagerConfig → UpgradeTarget → Action W ExecutionPlan
  pub apply_plan : ExecutionPlan → Action W (Unit {0})
  pub missing_requirements : Action W (List String)
  pub packages_for : List String → List String
  pub install_hint : List String → Option String
  pub is_active : String → Action W Bool
  pub enable_firewall : ManagerConfig → Action W (Unit {0})
  pub enable_routing : ManagerConfig → Action W (Unit {0})
  pub tun_status : String → Action W Bool
  pub run_app : AppLaunchRequest → Action W ℤ
  pub test_route : AppRouteTestRequest → Action W AppRouteTestResult
  pub enable_proxy : String → ManagerConfig → Action W (Unit {0})
  pub disable_proxy : String → Action W (Unit {0})
  pub is_elevated : Action W Bool
