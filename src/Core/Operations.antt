-- ===== src/Core/Operations.antt =====
-- crates/xray-manager-core/src/application.rs: the operations, the capabilities that they need, and
-- the checks of these before a plan is made.
pub mod Needed
pub mod Checked
use xrayctl.Common.{
  ℕ, String, ◌<>◌, Bool, true, false, not, ◌&&◌, ◌||◌, Option, none, some, List, [], ◌∷◌, ◌++◌,
  find, filter, any, eqb, leb, ltb, map_or, is_some, starts_with_text, if◌then◌else◌,
}
use xrayctl.Core.Error.{
  ManagerError, invalid_config, platform_unsupported, Result, ok, err, fail_if, ◌>>◌, ◌>>=◌,
}
use xrayctl.Core.Ports.{
  Capability, layout, install, identity, service, firewall, policy_routing, tun, app_runner,
  mount_isolation, desktop_proxy, package_advice, same, rank, display, SelectionSource, automatic,
  installed_state, BackendSelection, CapabilityStatus,
}
use xrayctl.Core.Profiles.{AppProfile}
use xrayctl.Core.Routing.{RoutingConfig}

pub data Operation : Type 0 where
  install_manager : Option String → Operation
  repair uninstall purge apply : Operation
  upgrade_all upgrade_core upgrade_assets upgrade_manager : Operation
  subscription_refresh : Option String → Operation
  node_select : String → Operation
  routing_apply service_start service_stop service_restart : Operation
  tun_enable tun_disable tun_cleanup : Operation
  desktop_proxy_enable desktop_proxy_disable : String → Operation
  app_run : Option String → List String → Operation
  app_test : String → Operation
  app_profile_remove : String → Operation
  app_profile_put : AppProfile → Operation
  subscription_add : String → String → Operation
  subscription_remove : String → Operation
  subscription_enable : String → Bool → Operation
  config_rollback core_rollback asset_rollback : Operation
  routing_preset : String → Operation
  routing_set : RoutingConfig → Operation

unfoldable pub name_of : Operation → String
name_of (install_manager user) = "install"
name_of repair = "repair"
name_of uninstall = "uninstall"
name_of purge = "purge"
name_of apply = "apply"
name_of upgrade_all = "upgrade_all"
name_of upgrade_core = "upgrade_core"
name_of upgrade_assets = "upgrade_assets"
name_of upgrade_manager = "upgrade_manager"
name_of (subscription_refresh name) = "subscription_refresh"
name_of (node_select id) = "node_select"
name_of routing_apply = "routing_apply"
name_of service_start = "service_start"
name_of service_stop = "service_stop"
name_of service_restart = "service_restart"
name_of tun_enable = "tun_enable"
name_of tun_disable = "tun_disable"
name_of tun_cleanup = "tun_cleanup"
name_of (desktop_proxy_enable user) = "desktop_proxy_enable"
name_of (desktop_proxy_disable user) = "desktop_proxy_disable"
name_of (app_run profile command) = "app_run"
name_of (app_test profile) = "app_test"
name_of (app_profile_remove name) = "app_profile_remove"
name_of (app_profile_put profile) = "app_profile_put"
name_of (subscription_add name url) = "subscription_add"
name_of (subscription_remove name) = "subscription_remove"
name_of (subscription_enable name true) = "subscription_enable"
name_of (subscription_enable name false) = "subscription_disable"
name_of config_rollback = "config_rollback"
name_of core_rollback = "core_rollback"
name_of asset_rollback = "asset_rollback"
name_of (routing_preset name) = "routing_preset"
name_of (routing_set routing) = "routing_set"

abbrev activation : List Capability
activation = install ∷ identity ∷ service ∷ []

abbrev pub tun_capabilities : List Capability
tun_capabilities = firewall ∷ policy_routing ∷ tun ∷ []

unfoldable pub required_capabilities : Operation → List Capability
required_capabilities (install_manager user) =
    install ∷ package_advice ∷ identity ∷ service ∷ firewall ∷ policy_routing ∷ tun ∷ []
required_capabilities repair =
    install ∷ package_advice ∷ identity ∷ service ∷ firewall ∷ policy_routing ∷ tun ∷ []
required_capabilities uninstall = []
required_capabilities purge = []
required_capabilities upgrade_all = install ∷ service ∷ []
required_capabilities upgrade_core = install ∷ service ∷ []
required_capabilities upgrade_assets = install ∷ service ∷ []
required_capabilities upgrade_manager = install ∷ []
required_capabilities apply = activation
required_capabilities (node_select id) = activation
required_capabilities routing_apply = activation
required_capabilities (routing_preset name) = activation
required_capabilities (routing_set routing) = activation
required_capabilities config_rollback = activation
required_capabilities core_rollback = activation
required_capabilities asset_rollback = activation
required_capabilities service_start = service ∷ []
required_capabilities service_stop = service ∷ []
required_capabilities service_restart = service ∷ []
required_capabilities tun_enable = firewall ∷ policy_routing ∷ service ∷ tun ∷ []
required_capabilities tun_disable = firewall ∷ policy_routing ∷ service ∷ tun ∷ []
required_capabilities tun_cleanup = firewall ∷ policy_routing ∷ service ∷ tun ∷ []
required_capabilities (desktop_proxy_enable user) = desktop_proxy ∷ []
required_capabilities (desktop_proxy_disable user) = desktop_proxy ∷ []
required_capabilities (app_run profile command) = app_runner ∷ mount_isolation ∷ []
required_capabilities (app_test profile) = app_runner ∷ mount_isolation ∷ []
required_capabilities (subscription_refresh name) = []
required_capabilities (subscription_add name url) = []
required_capabilities (subscription_remove name) = []
required_capabilities (subscription_enable name enabled) = []
required_capabilities (app_profile_remove name) = []
required_capabilities (app_profile_put profile) = []

unfoldable pub requires_administrator : Operation → Bool
requires_administrator (subscription_refresh name) = false
requires_administrator (subscription_add name url) = false
requires_administrator (subscription_remove name) = false
requires_administrator (subscription_enable name enabled) = false
requires_administrator (app_profile_remove name) = false
requires_administrator (app_profile_put profile) = false
requires_administrator _ = true

abbrev pub is_bootstrap : Operation → Bool
is_bootstrap (install_manager user) = true
is_bootstrap repair = true
is_bootstrap _ = false

-- The operations that activate a configuration, with its TUN.
abbrev pub activates : Operation → Bool
activates apply = true
activates (node_select id) = true
activates routing_apply = true
activates (routing_preset name) = true
activates (routing_set routing) = true
activates config_rollback = true
activates _ = false

abbrev pub is_tun_enable : Operation → Bool
is_tun_enable tun_enable = true
is_tun_enable _ = false

-- `sort` and `dedup`, by the order of the declaration.
unfoldable pub insert_ranked : Capability → List Capability → List Capability
insert_ranked c [] = c ∷ []
insert_ranked c (d ∷ ds) =
    let rest = insert_ranked c ds in if leb (rank c) (rank d) then c ∷ d ∷ ds else d ∷ rest

unfoldable pub sort : List Capability → List Capability
unfolding insert_ranked
sort [] = []
sort (c ∷ cs) = insert_ranked c (sort cs)

unfoldable pub dedup : List Capability → List Capability
dedup [] = []
dedup (c ∷ []) = c ∷ []
dedup (c ∷ d ∷ ds) = let rest = dedup (d ∷ ds) in if same c d then rest else c ∷ rest

unfoldable pub needed_capabilities : Bool → Operation → List Capability
unfolding required_capabilities sort dedup
needed_capabilities tun_enabled op =
    let base = required_capabilities op in
    let extended = if tun_enabled && activates op then base ++ tun_capabilities else base in
    let kept =
      if not tun_enabled && is_bootstrap op
      then filter (λ c. not (any (same c) tun_capabilities)) extended
      else extended in
    dedup (sort kept)

abbrev pub status_of : List CapabilityStatus → Capability → Option CapabilityStatus
status_of statuses c = find (λ s. same s.capability c) statuses

abbrev pub is_supported : Option CapabilityStatus → Bool
is_supported none = false
is_supported (some s) = s.supported

abbrev reason_of : Option CapabilityStatus → String
reason_of none = "no compiled backend"
reason_of (some s) = elim s.reason [ none ↦ "no compiled backend" | some r ↦ r ]

abbrev backend_of : Option CapabilityStatus → Option String
backend_of none = none
backend_of (some s) = s.backend_id

abbrev pub is_restorable : CapabilityStatus → Bool
is_restorable s =
    not s.supported && is_some s.backend_id && map_or false (starts_with_text "missing:") s.reason

abbrev pub is_unforced : BackendSelection → Bool
is_unforced s = elim s.source [ automatic ↦ true | installed_state ↦ true | _ ↦ false ]

module _ (platform : String) (statuses : List CapabilityStatus)
    (selections : List BackendSelection) where
  unfoldable pub ensure_capability : Capability → Result (Unit {0})
  ensure_capability c =
      let status = status_of statuses c in
      fail_if (not (is_supported status)) (
        platform_unsupported c platform (backend_of status) (reason_of status)
          (some ("Choose an available compiled backend with --backend " <> display c <> "=<id>")))

  unfoldable pub bootstrap_can_restore : Operation → Capability → Bool
  bootstrap_can_restore op c =
      is_bootstrap op
      && not (same c install || same c package_advice)
      && map_or false is_restorable (status_of statuses c)
      && map_or false is_unforced (find (λ s. same s.capability c) selections)

  unfoldable pub ensure_all : Operation → List Capability → Result (Unit {0})
  unfolding ensure_capability bootstrap_can_restore
  ensure_all op [] = ok tt
  ensure_all op (c ∷ cs) =
      let rest = ensure_all op cs in
      (if bootstrap_can_restore op c then ok tt else ensure_capability c) >> rest

  -- The beginning of `plan_internal`, up to the backends of the plan.
  unfoldable pub check_operation : Bool → Operation → Bool → Result (Unit {0})
  unfolding ensure_all needed_capabilities
  check_operation tun_enabled op enforce =
      fail_if (is_tun_enable op && not tun_enabled) (
        invalid_config
          "TUN is disabled in config.toml; set tun.enabled = true and run `xrayctl apply`")
      >> (if enforce then ensure_all op (needed_capabilities tun_enabled op) else ok tt)
