-- ===== src/Core/Backends.antt =====
-- crates/xray-manager-core/src/ports.rs: the ports that the application calls, as operations on a
-- world that the model leaves open, and the tasks that are made of them. A file's contents are a
-- text, and a path is the list of its components, the last one first.
pub mod Tasks
pub mod Locations
use xrayctl.Common.{ℕ, String, Bool, Option, List, ◌∷◌}
use xrayctl.Core.Error.{Result}
use xrayctl.Core.Events.{ManagerEvent}
use xrayctl.Core.Config.{ManagerConfig}

abbrev pub Location : Type 0
Location = List String

-- `path.join(name)`, for a name that is one component.
infixl 6 ◌/◌
abbrev pub ◌/◌ : Location → String → Location
path / name = name ∷ path

pub record ManagerPaths : Type 0 where
  pub config_dir : Location
  pub state_dir : Location
  pub cache_dir : Location
  pub runtime_dir : Location
  pub install_dir : Location
  pub executable : Location

pub record XrayTestRequest : Type 0 where
  pub executable : Location
  pub config_dir : Location
  pub asset_dir : Location

abbrev pub Action : Type 0 → Type 0 → Type 0
Action W T = W → Result T × W

-- The ports of `DynBackendSet` that the activation of a configuration uses.
pub record BackendSet (W : Type 0) : Type 0 where
  pub paths : Action W ManagerPaths
  pub read : Location → Action W String
  pub list_files : Location → Action W (List Location)
  pub write_atomic : Location → String → Option ℕ → Action W (Unit {0})
  pub create_dir_all : Location → Action W (Unit {0})
  pub set_permissions : Location → ℕ → Action W (Unit {0})
  pub exists : Location → Action W Bool
  pub remove_owned : Location → Location → Action W (Unit {0})
  pub switch_generation : Location → Location → Location → Action W (Unit {0})
  pub rollback_generation : Location → Location → Action W (Unit {0})
  pub restore_generation :
      Location → Location → Option Location → Option Location → Action W (Unit {0})
  pub prune_generations : Location → Location → Location → ℕ → Action W (Unit {0})
  pub test_config : XrayTestRequest → Action W (Unit {0})
  pub healthcheck : ManagerConfig → Action W (Unit {0})
  pub set_ownership : Location → String → String → Bool → Action W (Unit {0})
  pub enable : String → Action W (Unit {0})
  pub disable : String → Action W (Unit {0})
  pub start : String → Action W (Unit {0})
  pub stop : String → Action W (Unit {0})
  pub restart : String → Action W (Unit {0})
  pub disable_routing : ManagerConfig → Action W (Unit {0})
  pub disable_firewall : Action W (Unit {0})
  pub unix_timestamp : W → ℕ
  pub process_id : ℕ
  pub emit : ManagerEvent → W → W
