-- ===== src/Core/Render.antt =====
-- crates/xray-manager-core/src/render.rs: the configuration of Xray. The text of an address and the
-- reader of JSON are arguments; a `BTreeMap` is the list of its entries in the order of their keys.
pub mod Mask
pub mod Stream
pub mod Outbound
pub mod Representable
pub mod Masked
pub mod Configured
use xrayctl.Common.{
  String, Bool, true, false, Option, none, some, List, [], ◌∷◌, ◌++◌, ◌⊎◌, if◌then◌else◌,
}
use xrayctl.Core.Error.{ManagerError, invalid_config, Result, ok, err, ◌>>=◌}
use xrayctl.Core.Config.{IpAddr, ManagerConfig}
use xrayctl.Core.Domain.{Node}
use xrayctl.Core.Routing.{RoutingConfig, to_xray_json}
use xrayctl.Core.Json.{
  Value, Fields, str, arr, obj, num, bool, end, field, insert, items, texts, object,
}
use xrayctl.Core.Render.Outbound.{render_proxy_outbound}

abbrev pub ConfigFiles : Type 0
ConfigFiles = List (String × Value)

abbrev sniffing : ManagerConfig → Value
sniffing config = obj (
    object (
      ("enabled", bool config.proxy.sniffing) ∷ ("destOverride", texts ("http" ∷ "tls" ∷ [])) ∷ []))

abbrev pub tagged : String → String → Value
tagged tag protocol = obj (object (("tag", str tag) ∷ ("protocol", str protocol) ∷ []))

-- The loop over the entries of a fragment, and that over the fragments.
unfoldable pub insert_all : Fields → Fields → Fields
unfolding insert
insert_all end m = m
insert_all (field key value more) m = insert_all more (insert key value m)

unfoldable pub merge_custom : List Value → Fields → Result Fields
unfolding insert_all
merge_custom [] m = ok m
merge_custom (obj fragment ∷ more) m = merge_custom more (insert_all fragment m)
merge_custom (_ ∷ more) m = err (invalid_config "custom fragment must be a JSON object")

abbrev pub gateways : ManagerConfig → List String
gateways config =
    config.tun.ipv4_gateway ∷ (if config.tun.ipv6_enabled then "fd00:31:255::1/126" ∷ [] else [])

abbrev pub tun_inbound : ManagerConfig → Value
tun_inbound config = obj (
    object (
      ("tag", str "tun-in")
      ∷ ("protocol", str "tun")
      ∷ (
        "settings",
        obj (
            object (
              ("name", str config.tun.interface_name)
              ∷ ("mtu", num config.tun.mtu)
              ∷ ("gateway", texts (gateways config))
              ∷ ("autoOutboundsInterface", str "auto")
              ∷ [])),
      )
      ∷ ("sniffing", sniffing config)
      ∷ []))

module _ (show_ip : IpAddr → String) (read_json : String → String ⊎ Value) where
  abbrev pub socks_inbound : ManagerConfig → Value
  socks_inbound config = obj (
      object (
        ("tag", str "socks-in")
        ∷ ("listen", str (show_ip config.proxy.listen))
        ∷ ("port", num config.proxy.socks_port)
        ∷ ("protocol", str "socks")
        ∷ ("settings", obj (object (("udp", bool config.proxy.udp) ∷ [])))
        ∷ ("sniffing", sniffing config)
        ∷ []))

  abbrev pub http_inbound : ManagerConfig → Value
  http_inbound config = obj (
      object (
        ("tag", str "http-in")
        ∷ ("listen", str (show_ip config.proxy.listen))
        ∷ ("port", num config.proxy.http_port)
        ∷ ("protocol", str "http")
        ∷ ("settings", obj end)
        ∷ ("sniffing", sniffing config)
        ∷ []))

  abbrev pub inbounds : ManagerConfig → List Value
  inbounds config =
      socks_inbound config
      ∷ http_inbound config
      ∷ (if config.tun.enabled then tun_inbound config ∷ [] else [])

  abbrev pub proxy_of : Option Node → Result Value
  proxy_of none = ok (tagged "proxy" "blackhole")
  proxy_of (some node) = render_proxy_outbound read_json node

  abbrev pub files_of : ManagerConfig → RoutingConfig → Value → Fields → ConfigFiles
  files_of config routing proxy custom_config =
      ("00_log.json", obj (object (("log", obj (object (("loglevel", str "warning") ∷ []))) ∷ [])))
      ∷ (
        "10_dns.json",
        obj (
            object
              (("dns", obj (object (("queryStrategy", str config.dns.query_strategy) ∷ []))) ∷ [])),
      )
      ∷ ("20_inbounds.json", obj (object (("inbounds", arr (items (inbounds config))) ∷ [])))
      ∷ (
        "30_outbounds.json",
        obj (
            object (
              (
                "outbounds",
                arr (items (proxy ∷ tagged "direct" "freedom" ∷ tagged "block" "blackhole" ∷ [])),
              )
              ∷ [])),
      )
      ∷ ("40_routing.json", to_xray_json routing)
      ∷ (
        "50_policy.json",
        obj (
            object (
              (
                "policy",
                obj (
                    object (
                      (
                        "levels",
                        obj (
                            object (
                              (
                                "0",
                                obj (object (("handshake", num 8) ∷ ("connIdle", num 300) ∷ [])),
                              )
                              ∷ [])),
                      )
                      ∷ [])),
              )
              ∷ [])),
      )
      ∷ ("80_custom.json", obj custom_config)
      ∷ []

  unfoldable pub render_xray_config :
      ManagerConfig → Option Node → RoutingConfig → List Value → Result ConfigFiles
  unfolding render_proxy_outbound to_xray_json merge_custom
  render_xray_config config node routing custom = proxy_of node >>= λ proxy.
      (merge_custom custom end >>= λ custom_config.
      ok (files_of config routing proxy custom_config))
