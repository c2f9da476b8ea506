-- ===== src/Core/Protocols/Vmess.antt =====
-- protocols/vmess.rs.
use xrayctl.Common.{
  ℕ, String, ◌<>◌, not, Option, none, some, List, [], ◌∷◌, leb, show, trim, split, is_blank,
  is_empty_text, strip_prefix, parse_uint, if◌then◌else◌,
}
use xrayctl.Core.Error.{invalid_node, Result, ok, fail_if, ok_or, ◌>>=◌, ◌>>◌}
use xrayctl.Core.Domain.{Node, vmess}
use xrayctl.Core.Json.{Value, num, str}
use xrayctl.Core.Protocols.Shared.{
  Libraries, standard, standard_no_pad, url_safe, url_safe_no_pad, VmessLink, refresh_id,
  normalized_identity, parsed_as, plain_security, split_csv, transport_of,
}

abbrev first_of : Option (List ℕ) → Option (List ℕ) → Option (List ℕ)
first_of none later = later
first_of (some bytes) later = some bytes

unfoldable pub decode_flexible_base64 : Libraries → String → Result (List ℕ)
unfolding trim
decode_flexible_base64 l input =
    let trimmed = trim input in
    ok_or
      (first_of (l.decode_base64 standard trimmed) (
        first_of (l.decode_base64 standard_no_pad trimmed)
          (first_of (l.decode_base64 url_safe trimmed) (l.decode_base64 url_safe_no_pad trimmed))))
      (invalid_node "invalid Base64")

abbrev pub port_of : Value → Option ℕ
port_of (str value) = parse_uint 65535 value
port_of (num value) = if leb value 65535 then some value else none
port_of _ = none

abbrev json_scalar : Libraries → Value → String
json_scalar l (str value) = value
json_scalar l other = l.show_value other

abbrev given : String → Option String
given s = if is_empty_text s then none else some s

abbrev or_default : String → String → String
or_default default s = if is_empty_text s then default else s

abbrev node_of : Libraries → VmessLink → ℕ → String → String → Node
node_of l link port uri subscription = refresh_id l (record {
  id = l.hash "pending";
  subscription = subscription;
  name = if is_empty_text link.ps then link.add <> (":" <> show port) else l.percent_decode link.ps;
  protocol = vmess;
  server = link.add;
  port = port;
  credentials = record { user = some link.id; password = none };
  transport = record (transport_of (or_default "tcp" link.net)) {
    path = given link.path;
    host = given link.host;
    header_type = given link.header_type;
  };
  security = record plain_security {
    kind = or_default "none" link.tls;
    server_name = given link.sni;
    fingerprint = given link.fp;
    alpn = split_csv (some link.alpn);
  };
  raw_uri = uri;
  warnings = [];
  extra = ("alterId", json_scalar l link.aid) ∷ ("security", link.scy) ∷ [];
})

abbrev pub of_link : Libraries → VmessLink → String → String → Result Node
of_link l link uri subscription =
    fail_if (not (l.is_uuid link.id)) (invalid_node "VMess id must be a valid UUID")
    >> (ok_or (port_of link.port) (invalid_node "invalid VMess port") >>= λ port.
        (fail_if (is_blank link.add) (invalid_node "missing VMess server")
          >> ok (node_of l link port uri subscription)))

unfoldable pub parse_vmess : Libraries → String → String → Result Node
unfolding strip_prefix decode_flexible_base64 parse_uint show normalized_identity is_blank split
parse_vmess l uri subscription =
    ok_or (strip_prefix "vmess://" uri) (invalid_node "invalid VMess scheme") >>= λ encoded.
    (decode_flexible_base64 l encoded >>= λ bytes.
    (parsed_as "invalid VMess JSON: " (l.read_link bytes) >>= λ link.
    of_link l link uri subscription))
