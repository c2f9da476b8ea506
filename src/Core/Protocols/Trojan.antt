-- ===== src/Core/Protocols/Trojan.antt =====
-- protocols/trojan.rs.
use xrayctl.Common.{String, false, none, some, List, [], ◌∷◌, is_empty_text, split}
use xrayctl.Core.Error.{invalid_node, Result, fail_if, ◌>>=◌, ◌>>◌}
use xrayctl.Core.Domain.{Node, Transport, trojan}
use xrayctl.Core.Protocols.Shared.{
  Libraries, UrlParts, ParsedNode, Entries, node_from_url, query_map, value_of, split_csv,
  parsed_as, unknown, value_or,
}

abbrev known : List String
known =
    "security" ∷ "type" ∷ "sni" ∷ "fp" ∷ "pbk" ∷ "sid" ∷ "spx" ∷ "alpn" ∷ "path" ∷ "host"
    ∷ "serviceName" ∷ "authority" ∷ []

abbrev transport : Entries → Transport
transport query = record {
  kind = value_or "tcp" (value_of "type" query);
  path = value_of "path" query;
  host = value_of "host" query;
  service_name = value_of "serviceName" query;
  authority = value_of "authority" query;
  mode = none;
  header_type = none;
  seed = none;
}

abbrev pub parsed : Libraries → UrlParts → ParsedNode
parsed l url =
    let query = query_map url in
    record {
      protocol = trojan;
      user = none;
      password = some (l.percent_decode url.username);
      transport = transport query;
      security = record {
        kind = value_or "tls" (value_of "security" query);
        server_name = value_of "sni" query;
        fingerprint = value_of "fp" query;
        public_key = value_of "pbk" query;
        short_id = value_of "sid" query;
        spider_x = value_of "spx" query;
        alpn = split_csv (value_of "alpn" query);
        allow_insecure = false;
        pinned_peer_cert_sha256 = none;
      };
      warnings = unknown "unknown query parameter: " known query;
      extra = query;
    }

abbrev pub of_url : Libraries → UrlParts → String → String → Result Node
of_url l url uri subscription =
    let password = l.percent_decode url.username in
    fail_if (is_empty_text password) (invalid_node "Trojan password is empty")
    >> node_from_url l url uri subscription (parsed l url)

unfoldable pub parse_trojan : Libraries → String → String → Result Node
unfolding node_from_url query_map value_of split
parse_trojan l uri subscription =
    parsed_as "" (l.parse_url uri) >>= λ url. of_url l url uri subscription
