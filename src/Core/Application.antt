-- ===== src/Core/Application.antt =====
-- crates/xray-manager-core/src/application.rs: what the service reads and writes, and the
-- activation of a configuration. serde_json and toml are parameters, and so is the renderer.
pub mod Activation
pub mod Observed
pub mod Steps
pub mod Given
pub mod Silence
pub mod Outcome
pub mod Recovery
pub mod Returned
pub mod InStep
pub mod Rollback
pub mod Exchange
pub mod RolledBack
pub mod RoutingChange
use xrayctl.Common.{
  ℕ, String, Bool, true, false, Option, none, some, List, [], ◌∷◌, ◌++◌, ◌==◌, find, rsplit_once,
  is_empty_text, if◌then◌else◌,
}
use xrayctl.Core.Error.{Result, ok, err}
use xrayctl.Core.Config.{ManagerConfig}
use xrayctl.Core.Domain.{Node, ManagerState}
use xrayctl.Core.Json.{Value}
use xrayctl.Core.Routing.{RoutingConfig, preset, parse}
use xrayctl.Core.Backends.{Location, ◌/◌, ManagerPaths, BackendSet}
use xrayctl.Core.Backends.Tasks.{Task, ◌>>=◌, ◌>>◌, return, call, current_state, set_state}

-- The readers and the writers of the formats, with the error that the code makes of theirs.
pub record Formats : Type 0 where
  pub read_routing : String → Result RoutingConfig
  pub write_routing : RoutingConfig → Result String
  pub read_json : String → Result Value
  pub write_json : Value → Result String
  pub read_nodes : String → Result (List Node)
  pub write_nodes : List Node → Result String
  pub read_state : String → Result ManagerState
  pub write_state : ManagerState → Result String

-- What never changes while the service runs. `render` is `render_xray_config`, at the configuration.
pub record Manager (W : Type 0) : Type 0 where
  pub config : ManagerConfig
  pub backends : BackendSet W
  pub formats : Formats
  pub render : Option Node → RoutingConfig → List Value → Result (List (String × Value))

-- `path.extension()`, of a path whose last component is a name.
unfoldable pub extension : Location → Option String
unfolding rsplit_once
extension [] = none
extension (name ∷ directory) = elim (rsplit_once b'.' name) [
  | none ↦ none
  | some (stem, ending) ↦ if is_empty_text stem then none else some ending
]

abbrev pub has_extension : String → Location → Bool
has_extension ending path = elim (extension path) [ none ↦ false | some e ↦ e == ending ]

abbrev pub default_state : ManagerState
default_state = record {
  current_core_version = none;
  previous_core_version = none;
  current_asset_generation = none;
  previous_asset_generation = none;
  current_config_generation = none;
  previous_config_generation = none;
  selected_node_id = none;
  last_successful_healthcheck = none;
  last_rollback_reason = none;
  installed_backends = [];
  created_identities = [];
}

module _ {W : Type 0} (m : Manager W) where
  abbrev pub paths : Task W ManagerPaths
  paths = call m.backends.paths

  unfoldable pub load_nodes : Task W (List Node)
  load_nodes = do
    p ← paths
    let path = p.state_dir / "nodes.json"
    there ← call (m.backends.exists path)
    if there
        then (call (m.backends.read path) >>= λ bytes. return (m.formats.read_nodes bytes))
        else return (ok [])

  unfoldable pub write_nodes : List Node → Task W (Unit {0})
  write_nodes nodes = do
    p ← paths
    bytes ← return (m.formats.write_nodes nodes)
    call (m.backends.write_atomic (p.state_dir / "nodes.json") bytes (some 0o640))

  unfoldable pub write_state : ManagerState → Task W (Unit {0})
  write_state state = do
    p ← paths
    bytes ← return (m.formats.write_state state)
    call (m.backends.write_atomic (p.state_dir / "state.json") bytes (some 0o640))
    set_state state

  unfoldable pub reload_state : Task W (Unit {0})
  reload_state = do
    p ← paths
    let path = p.state_dir / "state.json"
    there ← call (m.backends.exists path)
    state ←
        if there
        then (call (m.backends.read path) >>= λ bytes. return (m.formats.read_state bytes))
        else return (ok default_state)
    set_state state

  unfoldable pub load_routing : Task W (RoutingConfig × Location)
  load_routing = do
    p ← paths
    let path = p.config_dir / "routing.toml"
    there ← call (m.backends.exists path)
    if there
        then (call (m.backends.read path) >>= λ text.
            return (parse (m.formats.read_routing text)) >>= λ routing. return (ok (routing, path)))
        else (return (preset "global-proxy") >>= λ routing. return (ok (routing, path)))

  unfoldable pub selected_node : Option String → Task W (Option Node)
  selected_node none = return (ok none)
  selected_node (some id) = load_nodes >>= λ nodes. return (ok (find (λ n. n.id == id) nodes))
