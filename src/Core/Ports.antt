-- ===== src/Core/Ports.antt =====
-- crates/xray-manager-core/src/ports.rs: the data that crosses the ports.
use xrayctl.Common.{ℕ, String, Bool, true, Option, List, ◌≡◌, ◌↔◌, eqb, arith}

pub data Capability : Type 0 where
  layout install identity service firewall policy_routing tun app_runner : Capability
  mount_isolation desktop_proxy package_advice : Capability

-- `impl fmt::Display for Capability`: the serialised name.
unfoldable pub display : Capability → String
display layout = "layout"
display install = "installer"
display identity = "identity"
display service = "service"
display firewall = "firewall"
display policy_routing = "policy_routing"
display tun = "tun"
display app_runner = "app_runner"
display mount_isolation = "mount_isolation"
display desktop_proxy = "desktop_proxy"
display package_advice = "package_advisor"

-- The derived order: that of the declaration.
abbrev pub rank : Capability → ℕ
rank layout = 0
rank install = 1
rank identity = 2
rank service = 3
rank firewall = 4
rank policy_routing = 5
rank tun = 6
rank app_runner = 7
rank mount_isolation = 8
rank desktop_proxy = 9
rank package_advice = 10

-- The derived equality.
abbrev pub same : Capability → Capability → Bool
same a b = eqb (rank a) (rank b)

pub same_iff : (a b : Capability) → (same a b ≡ true) ↔ (a ≡ b)
same_iff a b = ground arith

pub data SelectionSource : Type 0 where
  cli config installed_state automatic : SelectionSource

pub record BackendSelection : Type 0 where
  pub capability : Capability
  pub backend_id : String
  pub source : SelectionSource

pub record CapabilityStatus : Type 0 where
  pub capability : Capability
  pub supported : Bool
  pub backend_id : Option String
  pub reason : Option String

pub record BackendDescriptor : Type 0 where
  pub id : String
  pub contract_version : ℕ
  pub capabilities : List Capability
  pub platform : String
  pub requirements : List String

pub record BackendProbe : Type 0 where
  pub available : Bool
  pub reason : Option String

-- A map from capabilities to backend identifiers.
abbrev pub Choices : Type 0
Choices = Capability → Option String

pub record BackendPreferences : Type 0 where
  pub cli : Choices
  pub config : Choices
  pub installed : Choices
