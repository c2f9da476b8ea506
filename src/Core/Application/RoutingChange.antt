-- ===== src/Core/Application/RoutingChange.antt =====
-- `write_routing_and_apply` of application.rs.
use xrayctl.Common.{String, Bool, true, false, Option, none, some}
use xrayctl.Core.Error.{ok}
use xrayctl.Core.Routing.{RoutingConfig, parse}
use xrayctl.Core.Backends.{Location, ◌/◌}
use xrayctl.Core.Backends.Tasks.{Task, ◌>>=◌, ◌>>◌, return, on_error, call, current_state}
use xrayctl.Core.Application.{Manager, paths, selected_node}
use xrayctl.Core.Application.Activation.{apply_config}

module _ {W : Type 0} (m : Manager W) where
  unfoldable pub read_if : Bool → Location → Task W (Option String)
  read_if true path = call (m.backends.read path) >>= λ bytes. return (ok (some bytes))
  read_if false path = return (ok none)

  -- What becomes of the routing file when the new routing cannot be activated.
  unfoldable pub put_back : Location → Location → Option String → Task W (Unit {0})
  put_back path config_dir none = call (m.backends.remove_owned path config_dir)
  put_back path config_dir (some bytes) = call (m.backends.write_atomic path bytes (some 0o640))

  unfoldable pub write_routing_and_apply : RoutingConfig → Task W (Unit {0})
  write_routing_and_apply routing = do
    encoded ← return (m.formats.write_routing routing)
    return (parse (m.formats.read_routing encoded)) >>= λ _. return (ok tt)
    p ← paths m
    let path = p.config_dir / "routing.toml"
    there ← call (m.backends.exists path)
    previous ← read_if there path
    call (m.backends.write_atomic path encoded (some 0o640))
    state ← current_state
    selected ← selected_node m state.selected_node_id
    on_error (λ _. put_back path p.config_dir previous) (apply_config m selected) >>= λ _.
        return (ok tt)
