-- ===== src/Core/Queries/Answers.antt =====
-- `query` of application.rs, but for `Query::Doctor`.
use xrayctl.Common.{
  ℕ, String, ◌<>◌, Bool, true, not, ◌&&◌, Option, [], ◌∷◌, ◌==◌, map, any, find, show, is_some,
}
use xrayctl.Core.Error.{invalid_config, other, ok, fail_if, ok_or, is_ok}
use xrayctl.Core.Config.{AssetConfig}
use xrayctl.Core.Ports.{same, tun}
use xrayctl.Core.Domain.{ManagerState}
use xrayctl.Core.Json.{Value, bool, num, str, obj, arr, items, texts, optional, object}
use xrayctl.Core.Backends.Tasks.{Task, ◌>>=◌, ◌>>◌, return, attempt, call, current_state}
use xrayctl.Core.Application.{load_nodes, load_routing}
use xrayctl.Core.Execution.Files.{load_subscriptions, load_app_profiles}
use xrayctl.Core.Execution.Changes.{match_node}
use xrayctl.Core.Execution.Tun.{tun_service}
use xrayctl.Core.Queries.{
  Reader, Query, status, doctor, nodes, current_node, routing, assets, core, service_logs,
  service_status, proxy_show, proxy_env, tun_status, subscriptions, routing_validate,
  routing_presets, node_probe, routing_explain, asset_show, core_list, proxy_test, tun_show_rules,
  tun_test, app_list, menu_settings,
}
use xrayctl.Core.Queries.Dtos.{node_dto, subscription_json}
use xrayctl.Core.Queries.Doctor.{is_fail_closed, examine}

abbrev pair : Option String → Option String → Value
pair current previous =
    obj (object (("current", optional current) ∷ ("previous", optional previous) ∷ []))

abbrev core_role : Option String → String → Value
core_role version role = obj (object (("version", optional version) ∷ ("role", str role) ∷ []))

abbrev asset_json : AssetConfig → Value
asset_json a =
    obj (object (("id", str a.id) ∷ ("filename", str a.filename) ∷ ("configured", bool true) ∷ []))

abbrev tun_json : Bool → Bool → Bool → Bool → Bool → Value
tun_json policy interface firewall closed routes = obj (
    object (
      ("ok", bool (policy && (interface && (firewall && (closed && routes)))))
      ∷ ("policy_active", bool policy)
      ∷ ("interface_active", bool interface)
      ∷ ("firewall_present", bool firewall)
      ∷ ("fail_closed", bool closed)
      ∷ ("fail_closed_routes", bool routes)
      ∷ []))

module _ {W : Type 0} (r : Reader W) where
  abbrev status_json : ManagerState → Value
  status_json s = obj (
      object (
        ("installed", bool (is_some s.current_core_version))
        ∷ ("selected_node", optional s.selected_node_id)
        ∷ ("core_version", optional s.current_core_version)
        ∷ ("asset_generation", optional s.current_asset_generation)
        ∷ ("backends", r.selections_json r.operator.operating.selections)
        ∷ ("capabilities", r.capabilities_json r.operator.operating.capabilities)
        ∷ []))

  abbrev of_state : (ManagerState → Value) → Task W Value
  of_state f = current_state >>= λ s. return (ok (f s))

  abbrev endpoint : ℕ → String
  endpoint port = r.show_ip r.operator.manager.config.proxy.listen <> (":" <> show port)

  abbrev is_active : String → Task W Bool
  is_active service = call (r.operator.operating.is_active service)

  -- `Query::ProxyTest`.
  unfoldable pub test_proxy : Task W Value
  unfolding show
  test_proxy = do
    active ← is_active "xray.service"
    return (fail_if (not active) (other "xray.service is not active"))
    call (r.operator.manager.backends.healthcheck r.operator.manager.config)
    return (
        ok (
          obj (
            object (
              ("ok", bool true)
              ∷ ("service_active", bool true)
              ∷ ("socks", str (endpoint r.operator.manager.config.proxy.socks_port))
              ∷ ("http", str (endpoint r.operator.manager.config.proxy.http_port))
              ∷ []))))

  -- `Query::TunTest`.
  unfoldable pub test_tun : Task W Value
  test_tun = do
    policy_active ← is_active tun_service
    interface ← call (r.operator.operating.tun_status r.operator.manager.config.tun.interface_name)
    firewall ← attempt (call r.show_firewall)
    policy ← call (r.show_routing r.operator.manager.config)
    return (
        ok (
          tun_json policy_active interface (is_ok firewall)
            r.operator.manager.config.tun.fail_closed (is_fail_closed policy)))

  -- `Query::TunShowRules`.
  unfoldable pub show_tun : Task W Value
  show_tun = do
    firewall ← call r.show_firewall
    policy ← call (r.show_routing r.operator.manager.config)
    return (
        ok (
          obj (
            object (
              ("firewall", str firewall)
              ∷ ("policy_routing", str policy)
              ∷ ("routing_table", num r.operator.manager.config.tun.routing_table)
              ∷ ("packet_mark", num r.operator.manager.config.tun.packet_mark)
              ∷ []))))

  -- `Query::NodeProbe`.
  unfoldable pub probe_node : String → Task W Value
  probe_node id = do
    stored ← load_nodes r.operator.manager
    node ← return (match_node id stored)
    result ← call (r.probe node r.operator.manager.config)
    return (ok (obj (object (("node", node_dto node) ∷ ("probe", result) ∷ []))))

  unfoldable pub query : Query → Task W Value
  unfolding show
  query status = of_state status_json
  query (doctor quick) = examine r quick
  query nodes =
      load_nodes r.operator.manager >>= λ stored. return (ok (arr (items (map node_dto stored))))
  query current_node =
      of_state (λ s. obj (object (("selected_node", optional s.selected_node_id) ∷ [])))
  query routing = load_routing r.operator.manager >>= λ found. return (
      ok (
        obj (
          object
            (("path", str (r.show_path (found.1))) ∷ ("routing", r.routing_json (found.0)) ∷ []))))
  query assets = of_state (λ s. pair s.current_asset_generation s.previous_asset_generation)
  query core = of_state (λ s. pair s.current_core_version s.previous_core_version)
  query (service_logs lines) = call (r.logs "xray.service" lines) >>= λ text.
      return (ok (obj (object (("logs", str text) ∷ []))))
  query service_status = is_active "xray.service" >>= λ active.
      return (ok (obj (object (("active", bool active) ∷ []))))
  query proxy_show = return (
      ok (
        obj (
          object (
            ("listen", str (r.show_ip r.operator.manager.config.proxy.listen))
            ∷ ("socks_port", num r.operator.manager.config.proxy.socks_port)
            ∷ ("http_port", num r.operator.manager.config.proxy.http_port)
            ∷ []))))
  query proxy_env = return (
      ok (
        obj (
          object (
            ("HTTP_PROXY", str ("http://" <> endpoint r.operator.manager.config.proxy.http_port))
            ∷ ("HTTPS_PROXY", str ("http://" <> endpoint r.operator.manager.config.proxy.http_port))
            ∷ (
              "ALL_PROXY",
              str ("socks5h://" <> endpoint r.operator.manager.config.proxy.socks_port),
            )
            ∷ ("NO_PROXY", str "localhost,127.0.0.1,::1")
            ∷ []))))
  query tun_status =
      call (r.operator.operating.tun_status r.operator.manager.config.tun.interface_name)
      >>= λ active. return (
          ok (
            obj (
              object (
                (
                  "supported",
                  bool (
                      any (λ c. same c.capability tun && c.supported)
                        r.operator.operating.capabilities),
                )
                ∷ ("active", bool active)
                ∷ []))))
  query subscriptions = load_subscriptions r.operator >>= λ stored.
      return (ok (arr (items (map subscription_json stored))))
  query routing_validate = load_routing r.operator.manager >>= λ found.
      return (ok (obj (object (("valid", bool true) ∷ ("path", str (r.show_path (found.1))) ∷ []))))
  query routing_presets =
      return (ok (texts ("global-proxy" ∷ "runet-blocked-only" ∷ "ru-direct" ∷ [])))
  query (node_probe id) = probe_node id
  query (routing_explain name) = load_routing r.operator.manager >>= λ found. return (
      ok (
        obj (
          object (
            ("path", str (r.show_path (found.1)))
            ∷ ("node", optional name)
            ∷ ("default", str (found.0).default_outbound)
            ∷ ("rules", r.show_rules (found.0))
            ∷ []))))
  query (asset_show id) =
      return (
        ok_or (find (λ a. a.id == id) r.operator.manager.config.assets)
          (invalid_config ("asset '" <> (id <> "' was not found"))))
      >>= λ asset. return (ok (asset_json asset))
  query core_list = of_state (λ s. arr (
      items (
        core_role s.current_core_version "current"
        ∷ core_role s.previous_core_version "previous"
        ∷ [])))
  query proxy_test = test_proxy
  query tun_show_rules = show_tun
  query tun_test = test_tun
  query app_list =
      load_app_profiles r.operator >>= λ profiles. return (ok (r.profiles_json profiles))
  query menu_settings = return (
      ok (
        obj (
          object (
            ("probe_on_open", bool r.operator.manager.config.menu.probe_on_open)
            ∷ ("latency_green_ms", num r.operator.manager.config.menu.latency_green_ms)
            ∷ ("latency_yellow_ms", num r.operator.manager.config.menu.latency_yellow_ms)
            ∷ []))))
