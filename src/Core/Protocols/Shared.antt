-- ===== src/Core/Protocols/Shared.antt =====
-- protocols/mod.rs, and `normalized_identity` and `refresh_id` of domain.rs.
use xrayctl.Common.{
  ℕ, String, ◌<>◌, Bool, false, not, Option, none, some, List, [], ◌∷◌, ◌==◌, ◌⊎◌, inl, inr, show,
  split, filter, map, any, is_empty_text, is_blank, sort_by, to_ascii_lowercase, if◌then◌else◌,
}
use xrayctl.Common.Assoc
use xrayctl.Core.Error.{invalid_node, Result, ok, err, ok_or, ◌>>=◌}
use xrayctl.Core.Domain.{
  Protocol, vless, vmess, trojan, shadowsocks, hysteria2, Transport, Security, Node,
}
use xrayctl.Core.Json.{Value}

-- `url::Url`, by what the parsers ask of it.
pub record UrlParts : Type 0 where
  pub username : String
  pub host_str : Option String
  pub port : Option ℕ
  pub fragment : Option String
  pub query_pairs : List (String × String)

pub data Alphabet : Type 0 where
  standard standard_no_pad url_safe url_safe_no_pad : Alphabet

pub record VmessLink : Type 0 where
  pub add : String
  pub port : Value
  pub id : String
  pub aid : Value
  pub scy : String
  pub net : String
  pub header_type : String
  pub host : String
  pub path : String
  pub tls : String
  pub sni : String
  pub alpn : String
  pub fp : String
  pub ps : String

pub record Libraries : Type 0 where
  pub parse_url : String → String ⊎ UrlParts
  pub percent_decode : String → String
  pub percent_encode : String → String
  pub form_pairs : String → List (String × String)
  pub is_uuid : String → Bool
  pub decode_base64 : Alphabet → String → Option (List ℕ)
  pub from_utf8 : List ℕ → Option String
  pub read_link : List ℕ → String ⊎ VmessLink
  pub read_json : String → String ⊎ Value
  pub show_value : Value → String
  pub hash : String → String
  pub show_transport : Transport → String
  pub show_security : Security → String

abbrev pub show_protocol : Protocol → String
show_protocol vless = "Vless"
show_protocol vmess = "Vmess"
show_protocol trojan = "Trojan"
show_protocol shadowsocks = "Shadowsocks"
show_protocol hysteria2 = "Hysteria2"

abbrev pub or_empty : Option String → String
or_empty none = ""
or_empty (some s) = s

unfoldable pub normalized_identity : Libraries → Node → String
unfolding to_ascii_lowercase show
normalized_identity l n =
    show_protocol n.protocol
    <> ("|"
        <> (to_ascii_lowercase n.server
            <> ("|"
                <> (show n.port
                    <> ("|"
                        <> (or_empty n.credentials.user
                            <> ("|"
                                <> (or_empty n.credentials.password
                                    <> ("|"
                                        <> (l.show_transport n.transport
                                            <> ("|"
                                                <> (l.show_security n.security
                                                    <> ("|" <> n.subscription)))))))))))))

abbrev pub refresh_id : Libraries → Node → Node
refresh_id l n = record n { id = l.hash (normalized_identity l n) }

pub record ParsedNode : Type 0 where
  pub protocol : Protocol
  pub user : Option String
  pub password : Option String
  pub transport : Transport
  pub security : Security
  pub warnings : List String
  pub extra : List (String × String)

abbrev non_empty : Option String → Option String
non_empty none = none
non_empty (some s) = if is_empty_text s then none else some s

abbrev named : Libraries → Option String → String → String
named l none default = default
named l (some fragment) default =
    let name = l.percent_decode fragment in if is_blank name then default else name

unfoldable pub node_from_url : Libraries → UrlParts → String → String → ParsedNode → Result Node
unfolding show is_blank normalized_identity
node_from_url l url raw_uri subscription parsed =
    ok_or (non_empty url.host_str) (invalid_node "missing server") >>= λ server.
    (ok_or url.port (invalid_node "missing or invalid port") >>= λ port. ok (
      refresh_id l (record {
        id = l.hash "pending";
        subscription = subscription;
        name = named l url.fragment (server <> (":" <> show port));
        protocol = parsed.protocol;
        server = server;
        port = port;
        credentials = record { user = parsed.user; password = parsed.password };
        transport = parsed.transport;
        security = parsed.security;
        raw_uri = raw_uri;
        warnings = parsed.warnings;
        extra = parsed.extra;
      })))

-- The entries of a map: of a key that comes again, the last.
abbrev pub Entries : Type 0
Entries = List (String × String)

unfoldable pub put : String → String → Entries → Entries
unfolding Assoc.insert
put key value m = sort_by (λ e. e.0) (Assoc.insert (λ a b. a == b) key value m)

unfoldable pub map_of : Entries → Entries → Entries
unfolding put
map_of [] m = m
map_of ((key, value) ∷ more) m = map_of more (put key value m)

unfoldable pub query_map : UrlParts → Entries
unfolding map_of
query_map url = map_of url.query_pairs []

unfoldable pub value_of : String → Entries → Option String
unfolding Assoc.get
value_of key m = Assoc.get (λ a b. a == b) key m

abbrev pub split_csv : Option String → List String
split_csv none = []
split_csv (some value) = filter (λ s. not (is_empty_text s)) (split b',' value)

-- `url::Url::parse(…).map_err(…)?`, and the same of another reader.
abbrev pub parsed_as {ℓ} : {A : Type ℓ} → String → String ⊎ A → Result A
parsed_as prefix (inl failure) = err (invalid_node (prefix <> failure))
parsed_as prefix (inr x) = ok x

-- The warnings for the keys that are not known.
abbrev pub unknown : String → List String → Entries → List String
unknown prefix known query =
    map (λ e. prefix <> e.0) (filter (λ e. not (any (λ k. k == e.0) known)) query)

-- The warnings of the tests that hold, in their order.
abbrev pub raised : List (Bool × String) → List String
raised [] = []
raised ((test, warning) ∷ more) = let rest = raised more in if test then warning ∷ rest else rest

abbrev pub plain_security : Security
plain_security = record {
  kind = "";
  server_name = none;
  fingerprint = none;
  public_key = none;
  short_id = none;
  spider_x = none;
  alpn = [];
  allow_insecure = false;
  pinned_peer_cert_sha256 = none;
}

abbrev pub transport_of : String → Transport
transport_of kind = record {
  kind = kind;
  path = none;
  host = none;
  service_name = none;
  authority = none;
  mode = none;
  header_type = none;
  seed = none;
}

abbrev pub value_or : String → Option String → String
value_or default none = default
value_or default (some s) = s
