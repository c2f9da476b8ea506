-- ===== src/Core/Execution/Tun.antt =====
-- The operations on TUN of application.rs, and what is undone when they fail half-way.
use xrayctl.Common.{String}
use xrayctl.Core.Backends.Tasks.{Task, ◌>>◌, ignore, on_error, call}
use xrayctl.Core.Execution.{Operator}

abbrev pub tun_service : String
tun_service = "xray-tun-policy.service"

module _ {W : Type 0} (o : Operator W) where
  abbrev pub firewall_off : Task W (Unit {0})
  firewall_off = call o.manager.backends.disable_firewall

  abbrev pub routing_off : Task W (Unit {0})
  routing_off = call (o.manager.backends.disable_routing o.manager.config)

  abbrev pub undo_networking : Task W (Unit {0})
  undo_networking = ignore routing_off >> ignore firewall_off

  abbrev pub undo_service : Task W (Unit {0})
  undo_service = ignore (call (o.manager.backends.stop tun_service)) >> undo_networking

  -- `Operation::TunEnable`.
  unfoldable pub enable_tun : Task W (Unit {0})
  enable_tun = do
    call (o.operating.enable_firewall o.manager.config)
    on_error (λ _. ignore firewall_off) (call (o.operating.enable_routing o.manager.config))
    on_error (λ _. undo_networking) (call (o.manager.backends.enable tun_service))
    on_error (λ _. undo_networking) (call (o.manager.backends.start tun_service))
    on_error (λ _. undo_service) (call (o.manager.backends.restart "xray.service"))

  -- `Operation::TunDisable` and `Operation::TunCleanup`.
  unfoldable pub disable_tun : Task W (Unit {0})
  disable_tun = do
    ignore (call (o.manager.backends.stop tun_service))
    routing_off
    firewall_off
    call (o.manager.backends.disable tun_service)
