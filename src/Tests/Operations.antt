-- ===== src/Tests/Operations.antt =====
-- Concrete inputs for the operations of crates/xray-manager-core/src/application.rs.
use xrayctl.Common.{true, false, none, some, List, [], ◌∷◌, ◌≡◌, ◌↔◌, refl, starts_with_text}
use xrayctl.Core.Error.{ok, err, platform_unsupported}
use xrayctl.Core.Ports.{
  Capability, display, install, identity, service, firewall, policy_routing, tun, package_advice,
  automatic, BackendSelection, CapabilityStatus,
}
use xrayctl.Core.Operations.{
  node_select, repair, is_tun_enable, needed_capabilities, check_operation,
}
use xrayctl.Core.Operations.Needed.{needs}
use xrayctl.Core.Operations.Checked.{IsReady, check_operation_iff}

abbrev present : Capability → CapabilityStatus
present c = record { capability = c; supported = true; backend_id = some "linux"; reason = none }

abbrev missing : Capability → CapabilityStatus
missing c = record {
  capability = c;
  supported = false;
  backend_id = some "linux";
  reason = some "missing: systemctl";
}

abbrev statuses : List CapabilityStatus
statuses = present install ∷ present identity ∷ missing service ∷ present package_advice ∷ []

abbrev selections : List BackendSelection
selections = record { capability = service; backend_id = "linux"; source = automatic } ∷ []

needed_with_tun :
    needed_capabilities true (node_select "a")
    ≡ (install ∷ identity ∷ service ∷ firewall ∷ policy_routing ∷ tun ∷ [])
unfolding needed_capabilities
needed_with_tun = refl

needed_without_tun :
    needed_capabilities false repair ≡ (install ∷ identity ∷ service ∷ package_advice ∷ [])
unfolding needed_capabilities
needed_without_tun = refl

-- A repair may find the service missing.
repair_restores : check_operation "linux" statuses selections false repair true ≡ ok tt
unfolding check_operation starts_with_text
repair_restores = refl

selection_stops :
    check_operation "linux" statuses selections false (node_select "a") true
    ≡ err (
        platform_unsupported service "linux"
          (some "linux")
          "missing: systemctl"
          (some "Choose an available compiled backend with --backend service=<id>"))
unfolding check_operation display starts_with_text
selection_stops = refl

check_operation_iff_example :
    (check_operation "linux" statuses selections false repair true ≡ ok tt) ↔ (
      (is_tun_enable repair ≡ true → false ≡ true)
      × ((c : Capability)
          → needs false repair c ≡ true
          → IsReady "linux" statuses selections repair c))
check_operation_iff_example = check_operation_iff "linux" statuses selections false repair
