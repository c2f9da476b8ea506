-- ===== src/Core/Protocols/Hysteria2.antt =====
-- protocols/hysteria2.rs.
use xrayctl.Common.{
  String, false, not, ◌++◌, none, some, List, [], ◌∷◌, ◌==◌, is_empty_text, split, map_or,
  replace_first,
}
use xrayctl.Core.Error.{invalid_node, Result, fail_if, ◌>>=◌, ◌>>◌}
use xrayctl.Core.Config.Validation.{one_of}
use xrayctl.Core.Domain.{Node, hysteria2}
use xrayctl.Core.Protocols.Shared.{
  Libraries, UrlParts, ParsedNode, Entries, node_from_url, query_map, value_of, split_csv,
  parsed_as, unknown, raised, plain_security, transport_of,
}
use xrayctl.Core.Protocols.Vless.{is_json_object}

abbrev known : List String
known =
    "sni" ∷ "insecure" ∷ "alpn" ∷ "pinSHA256" ∷ "obfs" ∷ "obfs-password" ∷ "mport" ∷ "upmbps"
    ∷ "downmbps" ∷ "fm" ∷ []

abbrev pub warnings_of : Libraries → Entries → List String
warnings_of l query =
    unknown "unsupported Hysteria2 parameter: " known query
    ++ raised (
        (
          map_or false (λ value. not (value == "salamander")) (value_of "obfs" query),
          "unsupported Hysteria2 obfs",
        )
        ∷ (
          map_or false (λ mask. not (is_json_object (l.read_json mask))) (value_of "fm" query),
          "Hysteria2 fm must be a JSON object",
        )
        ∷ [])

abbrev pub parsed : Libraries → UrlParts → ParsedNode
parsed l url =
    let query = query_map url in
    record {
      protocol = hysteria2;
      user = none;
      password = some (l.percent_decode url.username);
      transport = transport_of "hysteria";
      security = record plain_security {
        kind = "tls";
        server_name = value_of "sni" query;
        alpn = split_csv (value_of "alpn" query);
        allow_insecure =
            map_or false (λ value. one_of ("1" ∷ "true" ∷ []) value) (value_of "insecure" query);
        pinned_peer_cert_sha256 = value_of "pinSHA256" query;
      };
      warnings = warnings_of l query;
      extra = query;
    }

abbrev pub of_url : Libraries → UrlParts → String → String → Result Node
of_url l url uri subscription =
    let auth = l.percent_decode url.username in
    fail_if (is_empty_text auth) (invalid_node "Hysteria2 auth is empty")
    >> node_from_url l url uri subscription (parsed l url)

unfoldable pub parse_hysteria2 : Libraries → String → String → Result Node
unfolding node_from_url query_map value_of split replace_first
parse_hysteria2 l uri subscription =
    parsed_as "" (l.parse_url (replace_first "hy2://" "hysteria2://" uri)) >>= λ url.
    of_url l url uri subscription
