-- ===== src/Core/Queries.antt =====
-- crates/xray-manager-core/src/application.rs: `query`, and the DTOs of dto.rs that it answers with.
-- The texts that serde derives for selections, rules, profiles and probes are arguments, and so are
-- those of paths and addresses. `NodeProbeAll`, which only starts the queue of probes, is left out.
pub mod Dtos
pub mod Doctor
pub mod Answers
pub mod Silent
pub mod Public
use xrayctl.Common.{ℕ, String, Bool, Option, List, none, some, [], ◌∷◌, if◌then◌else◌}
use xrayctl.Core.Config.{IpAddr, ManagerConfig}
use xrayctl.Core.Ports.{BackendSelection, CapabilityStatus}
use xrayctl.Core.Domain.{Node}
use xrayctl.Core.Profiles.{AppProfile}
use xrayctl.Core.Routing.{RoutingConfig}
use xrayctl.Core.Json.{Value}
use xrayctl.Core.Backends.{Location, Action}
use xrayctl.Core.Execution.{Operator}

pub record PlatformInfo : Type 0 where
  pub os : String
  pub distribution : Option String
  pub init_system : Option String
  pub desktop : Option String

-- The ports that only queries use, and the texts of what is answered.
pub record Reader (W : Type 0) : Type 0 where
  pub operator : Operator W
  pub inspect : Action W PlatformInfo
  pub logs : String → ℕ → Action W String
  pub show_firewall : Action W String
  pub show_routing : ManagerConfig → Action W String
  pub probe : Node → ManagerConfig → Action W Value
  pub show_ip : IpAddr → String
  pub show_path : Location → String
  pub selections_json : List BackendSelection → Value
  pub capabilities_json : List CapabilityStatus → Value
  pub routing_json : RoutingConfig → Value
  pub show_rules : RoutingConfig → Value
  pub profiles_json : List AppProfile → Value

pub data Query : Type 0 where
  status : Query
  doctor : (quick : Bool) → Query
  nodes current_node routing assets core : Query
  service_logs : (lines : ℕ) → Query
  service_status proxy_show proxy_env tun_status subscriptions routing_validate routing_presets :
      Query
  node_probe : (id : String) → Query
  routing_explain : (name : Option String) → Query
  asset_show : (id : String) → Query
  core_list proxy_test tun_show_rules tun_test app_list menu_settings : Query
