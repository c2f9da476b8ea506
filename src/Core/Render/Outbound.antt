-- ===== src/Core/Render/Outbound.antt =====
-- `render_proxy_outbound` and `required` of render.rs.
use xrayctl.Common.{
  ℕ, String, ◌<>◌, not, Option, none, some, List, [], ◌∷◌, ◌⊎◌, join, is_empty, map_or, parse_uint,
}
use xrayctl.Core.Error.{validation, Result, ok, err, fail_if, ok_or, ◌>>=◌, ◌>>◌}
use xrayctl.Core.Domain.{Node, Protocol, vless, vmess, trojan, shadowsocks, hysteria2}
use xrayctl.Core.Json.{Value, Fields, str, arr, obj, num, insert, items, object}
use xrayctl.Core.Render.Mask.{extra}
use xrayctl.Core.Render.Stream.{render_stream}

abbrev pub required : Option String → String → Result String
required value label = ok_or value (validation ("missing " <> label))

abbrev or_zero : Option ℕ → ℕ
or_zero none = 0
or_zero (some n) = n

abbrev alter_id : Option String → ℕ
alter_id none = 0
alter_id (some v) = or_zero (parse_uint 4294967295 v)

abbrev given : Option String → String → Value
given value default = str (map_or default (λ v. v) value)

abbrev outbound : String → Fields → List (String × Value) → Value
outbound protocol settings more =
    obj (
      object
        (("tag", str "proxy") ∷ ("protocol", str protocol) ∷ ("settings", obj settings) ∷ more))

-- A server with one user, and a server.
abbrev next_hop : Node → List (String × Value) → Fields
next_hop node user = object (
    (
      "vnext",
      arr (
          items (
            obj (
              object (
                ("address", str node.server)
                ∷ ("port", num node.port)
                ∷ ("users", arr (items (obj (object user) ∷ [])))
                ∷ []))
            ∷ [])),
    )
    ∷ [])

abbrev server : Node → List (String × Value) → Fields
server node more = object (
    (
      "servers",
      arr (
          items
            (obj (object (("address", str node.server) ∷ ("port", num node.port) ∷ more)) ∷ [])),
    )
    ∷ [])

abbrev pub refuse_plugin : Option String → Result (Unit {0})
refuse_plugin none = ok tt
refuse_plugin (some plugin) = err (
    validation
      ("Shadowsocks plugin cannot be represented by the built-in Xray adapter: " <> plugin))

abbrev over_hysteria : String → Fields → Fields
over_hysteria auth stream =
    insert "hysteriaSettings" (obj (object (("version", num 2) ∷ ("auth", str auth) ∷ [])))
      (insert "network" (str "hysteria") stream)

module _ (read_json : String → String ⊎ Value) where
  abbrev pub outbound_of : Protocol → Node → Result Value
  outbound_of vless node = required node.credentials.user "VLESS UUID" >>= λ id.
      (render_stream read_json node >>= λ stream. ok (
        outbound "vless"
          (next_hop node (
            ("id", str id)
            ∷ ("encryption", given (extra "encryption" node) "none")
            ∷ ("flow", given (extra "flow" node) "")
            ∷ []))
          (("streamSettings", obj stream) ∷ [])))
  outbound_of vmess node = required node.credentials.user "VMess UUID" >>= λ id.
      (render_stream read_json node >>= λ stream. ok (
        outbound "vmess"
          (next_hop node (
            ("id", str id)
            ∷ ("alterId", num (alter_id (extra "alterId" node)))
            ∷ ("security", given (extra "security" node) "auto")
            ∷ []))
          (("streamSettings", obj stream) ∷ [])))
  outbound_of trojan node = required node.credentials.password "Trojan password" >>= λ password.
      (render_stream read_json node >>= λ stream. ok (
        outbound "trojan" (server node (("password", str password) ∷ []))
          (("streamSettings", obj stream) ∷ [])))
  outbound_of shadowsocks node =
      refuse_plugin (extra "plugin" node)
      >> (required node.credentials.password "Shadowsocks password" >>= λ password. ok (
          outbound "shadowsocks"
            (server node
              (("method", given (extra "method" node) "") ∷ ("password", str password) ∷ []))
            []))
  outbound_of hysteria2 node =
      fail_if (not (is_empty node.warnings))
        (validation ("Hysteria2 node has unsupported parameters: " <> join ", " node.warnings))
      >> (render_stream read_json node >>= λ stream.
          (required node.credentials.password "Hysteria2 auth" >>= λ auth. ok (
            outbound "hysteria"
              (object
                (("version", num 2) ∷ ("address", str node.server) ∷ ("port", num node.port) ∷ []))
              (("streamSettings", obj (over_hysteria auth stream)) ∷ []))))

  unfoldable pub render_proxy_outbound : Node → Result Value
  unfolding extra render_stream parse_uint join insert
  render_proxy_outbound node = outbound_of node.protocol node
