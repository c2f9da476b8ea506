-- ===== src/Core/Execution/Changes.antt =====
-- The operations on subscriptions, on the selected node and on the versions in use, of
-- application.rs.
use xrayctl.Common.{
  String, ◌<>◌, Bool, true, false, not, ◌&&◌, Option, none, some, List, [], ◌∷◌, ◌==◌, any, filter,
  is_empty, join, starts_with_text,
}
use xrayctl.Core.Error.{invalid_config, invalid_node, validation, Result, ok, err, fail_if}
use xrayctl.Core.Domain.{Node, Protocol, vless, vmess, trojan, shadowsocks, hysteria2, ManagerState}
use xrayctl.Core.Routing.{preset}
use xrayctl.Core.Backends.{Location, ◌/◌}
use xrayctl.Core.Backends.Tasks.{Task, ◌>>=◌, ◌>>◌, return, call, current_state}
use xrayctl.Core.Application.{paths, load_nodes, write_nodes, selected_node}
use xrayctl.Core.Application.Activation.{apply_config}
use xrayctl.Core.Application.Rollback.{commit_generation_rollback}
use xrayctl.Core.Application.RoutingChange.{write_routing_and_apply}
use xrayctl.Core.Execution.{Operator}
use xrayctl.Core.Execution.Files.{subscription_path, write_subscription}

-- `Path::parent`; a path of a subscription has one.
abbrev parent : Location → Location
parent [] = []
parent (name ∷ directory) = directory

abbrev pub holds_selected : Option String → String → List Node → Bool
holds_selected none name nodes = false
holds_selected (some id) name nodes = any (λ n. n.id == id && n.subscription == name) nodes

abbrev pub is_hysteria2 : Protocol → Bool
is_hysteria2 hysteria2 = true
is_hysteria2 vless = false
is_hysteria2 vmess = false
is_hysteria2 trojan = false
is_hysteria2 shadowsocks = false

-- The node whose identifier begins so, if there is exactly one.
abbrev pub sole_match : String → List Node → Result Node
sole_match id (n ∷ []) = ok n
sole_match id [] = err (invalid_node ("node '" <> (id <> "' was not found")))
sole_match id (n ∷ (k ∷ more)) = err (invalid_node ("node ID prefix '" <> (id <> "' is ambiguous")))

unfoldable pub match_node : String → List Node → Result Node
match_node id nodes = sole_match id (filter (λ n. starts_with_text id n.id) nodes)

abbrev pub is_unconfirmed : Node → Bool
is_unconfirmed n = is_hysteria2 n.protocol && not (is_empty n.warnings)

-- `std::mem::swap` of the two core versions, and of the two asset generations.
abbrev pub core_swapped : ManagerState → ManagerState
core_swapped x = record x {
  current_core_version = x.previous_core_version;
  previous_core_version = x.current_core_version;
}

abbrev pub assets_swapped : ManagerState → ManagerState
assets_swapped x = record x {
  current_asset_generation = x.previous_asset_generation;
  previous_asset_generation = x.current_asset_generation;
}

module _ {W : Type 0} (o : Operator W) where
  abbrev pub add_subscription : String → String → Task W (Unit {0})
  add_subscription name url =
      write_subscription o (record { name = name; enabled = true; url = url; format = "auto" })

  -- The nodes are looked at only if one is selected.
  abbrev pub check_not_selected : Option String → String → Task W (Unit {0})
  check_not_selected none name = return (ok tt)
  check_not_selected (some id) name = load_nodes o.manager >>= λ nodes. return (
      fail_if (holds_selected (some id) name nodes) (
        invalid_config
          "cannot remove a subscription containing the selected node; select another node first"))

  -- `Operation::SubscriptionRemove`.
  unfoldable pub remove_subscription : String → Task W (Unit {0})
  remove_subscription name = do
    state ← current_state
    check_not_selected state.selected_node_id name
    path ← subscription_path o name
    call (o.manager.backends.remove_owned path (parent path))
    nodes ← load_nodes o.manager
    write_nodes o.manager (filter (λ n. not (n.subscription == name)) nodes)

  -- `Operation::SubscriptionEnable`.
  unfoldable pub enable_subscription : String → Bool → Task W (Unit {0})
  enable_subscription name enabled = do
    path ← subscription_path o name
    text ← call (o.manager.backends.read path)
    subscription ← return (o.read_subscription text)
    write_subscription o (record subscription { enabled = enabled })

  -- `Operation::NodeSelect`.
  unfoldable pub select_node : String → Task W (Unit {0})
  unfolding match_node
  select_node id = do
    nodes ← load_nodes o.manager
    selected ← return (match_node id nodes)
    return (
        fail_if (is_unconfirmed selected) (
          validation
            ("Hysteria2 node has unconfirmed parameters: " <> join ", " selected.warnings)))
    apply_config o.manager (some selected) >>= λ _. return (ok tt)

  -- `Operation::Apply` and `Operation::RoutingApply`.
  unfoldable pub apply_selected : Task W (Unit {0})
  apply_selected = do
    state ← current_state
    selected ← selected_node o.manager state.selected_node_id
    apply_config o.manager selected >>= λ _. return (ok tt)

  -- `Operation::RoutingPreset`.
  unfoldable pub apply_preset : String → Task W (Unit {0})
  apply_preset name = return (preset name) >>= λ routing. write_routing_and_apply o.manager routing

  -- The shape of the three rollbacks.
  unfoldable pub roll_back_to :
      Location → Location → (ManagerState → ManagerState) → String → Task W (Unit {0})
  roll_back_to current previous swapped component = do
    old ← current_state
    call (o.manager.backends.rollback_generation current previous)
    commit_generation_rollback o.manager current previous old (swapped old) component

  -- `Operation::CoreRollback` and `Operation::AssetRollback`.
  unfoldable pub roll_back_core : Task W (Unit {0})
  unfolding roll_back_to
  roll_back_core = do
    p ← paths o.manager
    let directory = p.install_dir / "core"
    roll_back_to (directory / "current") (directory / "previous") core_swapped "core"

  unfoldable pub roll_back_assets : Task W (Unit {0})
  unfolding roll_back_to
  roll_back_assets = do
    p ← paths o.manager
    let directory = p.install_dir / "assets"
    roll_back_to (directory / "current") (directory / "previous") assets_swapped "assets"
