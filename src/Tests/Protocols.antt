-- ===== src/Tests/Protocols.antt =====
-- Concrete inputs for crates/xray-manager-core/src/protocols, subscription.rs and render.rs, with
-- libraries that know one URL.
use xrayctl.Common.{
  String, true, none, some, List, [], ◌∷◌, ◌≡◌, ◌&&◌, ◌⊎◌, inl, inr, refl, all, map_or,
}
use xrayctl.Core.Error.{ok, is_ok}
use xrayctl.Core.Config.Defaults.{default_config}
use xrayctl.Core.Domain.{Node, Protocol}
use xrayctl.Core.Routing.{RoutingConfig}
use xrayctl.Core.Json.{Value, Fields, str, arr, obj, nil, get, object}
use xrayctl.Core.Subscription.{no_base64, parse_subscription}
use xrayctl.Core.Subscription.Accounted.{Accounts, parse_subscription-Accounts}
use xrayctl.Core.Protocols.{parse_uri}
use xrayctl.Core.Protocols.Shared.{Libraries, plain_security, transport_of}
use xrayctl.Core.Protocols.Vless.{parse_vless}
use xrayctl.Core.Protocols.Sound.{IsParsed, parse_uri-IsParsed}
use xrayctl.Core.Protocols.Renderable.{parse_vless-renders}
use xrayctl.Core.Render.{tagged, files_of, render_xray_config}
use xrayctl.Core.Render.Mask.{extra, render_finalmask}
use xrayctl.Core.Render.Masked.{members, fragmented, render_finalmask-fragmented}
use xrayctl.Core.Render.Outbound.{render_proxy_outbound}
use xrayctl.Core.Render.Representable.{is_object, is_representable, render_xray_config-is_ok}
use xrayctl.Core.Render.Configured.{Configures, render_xray_config-Configures}
use xrayctl.Tests.Application.{node}

abbrev given_json : String → String ⊎ Value
given_json s = inr (obj (object (("udp", arr nil) ∷ [])))

abbrev pub libraries : Libraries
libraries = record {
  parse_url = λ s. inr (record {
    username = "2c1d";
    host_str = some "example.org";
    port = some 443;
    fragment = some "Berlin";
    query_pairs = [];
  });
  percent_decode = λ s. s;
  percent_encode = λ s. s;
  form_pairs = λ s. [];
  is_uuid = λ s. true;
  decode_base64 = λ alphabet s. none;
  from_utf8 = λ bytes. none;
  read_link = λ bytes. inl "no JSON";
  read_json = given_json;
  show_value = λ v. "";
  hash = λ s. "4f";
  show_transport = λ t. t.kind;
  show_security = λ s. s.kind;
}

abbrev pub uri : String
uri = "vless://2c1d@example.org:443#Berlin"

abbrev pub parsed : Node
parsed = record {
  id = "4f";
  subscription = "main";
  name = "Berlin";
  protocol = Protocol.vless;
  server = "example.org";
  port = 443;
  credentials = record { user = some "2c1d"; password = none };
  transport = transport_of "tcp";
  security = record plain_security { kind = "none" };
  raw_uri = uri;
  warnings = [];
  extra = [];
}

pub parsed-uri : parse_uri libraries uri "main" ≡ ok parsed
unfolding parse_uri
parsed-uri = refl

parse_uri-IsParsed_example : IsParsed libraries uri "main" parsed
parse_uri-IsParsed_example = parse_uri-IsParsed libraries uri "main" parsed-uri

parsed_vless : parse_vless libraries uri "main" ≡ ok parsed
unfolding parse_vless
parsed_vless = refl

no_extra : extra "fm" parsed ≡ none
unfolding extra
no_extra = refl

parse_vless-renders_example : is_ok (render_proxy_outbound given_json parsed) ≡ true
parse_vless-renders_example =
    parse_vless-renders libraries uri "main" parsed_vless refl (inl no_extra)

-- A comment, a node and a line that is neither.
abbrev response : String
response = "# nodes\r\nvless://2c1d@example.org:443#Berlin\nftp://example.org\n"

parse_subscription-Accounts_example :
    Accounts
      (λ s. no_base64)
      (parse_uri libraries)
      response
      "main"
      (parse_subscription (λ s. no_base64) (parse_uri libraries) response "main")
parse_subscription-Accounts_example =
    parse_subscription-Accounts (λ s. no_base64) (parse_uri libraries) response "main"

-- An older client's parameters beside a mask.
abbrev masked : Node
masked = record (node "a" "Berlin") {
  protocol = Protocol.hysteria2;
  extra = ("fm", "{\"udp\":[]}") ∷ ("obfs", "salamander") ∷ ("obfs-password", "p") ∷ [];
}

abbrev given : Fields
given = object (("udp", arr nil) ∷ [])

given_extra : extra "fm" masked ≡ some "{\"udp\":[]}"
unfolding extra
given_extra = refl

rendered_mask : render_finalmask given_json masked ≡ ok (some (obj given))
unfolding render_finalmask
rendered_mask = refl

render_finalmask-fragmented_example :
    get "udp" (members (some (obj given))) ≡ fragmented "udp" masked given
unfolding extra
render_finalmask-fragmented_example =
    render_finalmask-fragmented given_json masked "udp" {given = given} {mask = some (obj given)}
      refl rendered_mask (inl refl)

abbrev fragments : List Value
fragments = obj (object (("stats", str "a") ∷ [])) ∷ obj (object (("stats", str "b") ∷ [])) ∷ []

abbrev routing : RoutingConfig
routing = record { domain_strategy = "AsIs"; default_outbound = "direct"; rules = [] }

render_xray_config-is_ok_example :
    is_ok (
      render_xray_config
        (λ ip. "127.0.0.1")
        given_json
        default_config
        (some parsed)
        routing
        fragments)
    ≡ (map_or true (λ n. is_representable given_json n.protocol n) (some parsed)
        && all is_object fragments)
render_xray_config-is_ok_example =
    render_xray_config-is_ok (λ ip. "127.0.0.1") given_json default_config (some parsed) routing
      fragments

rendered_files :
    render_xray_config (λ ip. "127.0.0.1") given_json default_config none routing fragments
    ≡ ok (
        files_of
          (λ ip. "127.0.0.1")
          given_json
          default_config
          routing
          (tagged "proxy" "blackhole")
          (object (("stats", str "b") ∷ [])))
unfolding render_xray_config
rendered_files = refl

render_xray_config-Configures_example : Configures default_config fragments "stats" (
    files_of
      (λ ip. "127.0.0.1")
      given_json
      default_config
      routing
      (tagged "proxy" "blackhole")
      (object (("stats", str "b") ∷ [])))
render_xray_config-Configures_example =
    render_xray_config-Configures (λ ip. "127.0.0.1") given_json default_config none routing
      fragments "stats" rendered_files
