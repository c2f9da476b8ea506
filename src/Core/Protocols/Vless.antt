-- ===== src/Core/Protocols/Vless.antt =====
-- protocols/vless.rs.
use xrayctl.Common.{
  String, ◌<>◌, Bool, true, false, not, ◌&&◌, none, some, List, [], ◌∷◌, ◌++◌, ◌⊎◌, inr, split,
  is_some, map_or, to_ascii_lowercase,
}
use xrayctl.Core.Error.{invalid_node, Result, fail_if, ◌>>=◌, ◌>>◌}
use xrayctl.Core.Config.Validation.{one_of}
use xrayctl.Core.Domain.{Node, Transport, Security, vless}
use xrayctl.Core.Json.{Value, obj}
use xrayctl.Core.Render.Mask.{is_numeric_range}
use xrayctl.Core.Protocols.Shared.{
  Libraries, UrlParts, ParsedNode, Entries, node_from_url, query_map, value_of, split_csv,
  parsed_as, unknown, raised, value_or,
}

-- The keys that are known.
abbrev pub known : List String
known =
    "encryption" ∷ "flow" ∷ "security" ∷ "type" ∷ "sni" ∷ "fp" ∷ "pbk" ∷ "sid" ∷ "spx" ∷ "alpn"
    ∷ "path" ∷ "host" ∷ "serviceName" ∷ "authority" ∷ "mode" ∷ "headerType" ∷ "seed" ∷ "fragment"
    ∷ "fm" ∷ []

abbrev pub kinds : List String
kinds = "tcp" ∷ "raw" ∷ "websocket" ∷ "ws" ∷ "grpc" ∷ "httpupgrade" ∷ "xhttp" ∷ "splithttp" ∷ []

-- `is_numeric_range` is written in this file again, as it is in render.rs.
abbrev pub are_fields : List String → Bool
are_fields (length ∷ (delay ∷ (packets ∷ []))) =
    is_numeric_range length && (is_numeric_range delay && one_of ("tlshello" ∷ []) packets)
are_fields _ = false

unfoldable pub is_supported_fragment : String → Bool
unfolding split is_numeric_range
is_supported_fragment value = are_fields (split b',' value)

abbrev pub is_json_object : String ⊎ Value → Bool
is_json_object (inr (obj m)) = true
is_json_object _ = false

abbrev pub is_plain_header : String → Bool
is_plain_header kind = one_of ("none" ∷ "http" ∷ []) (to_ascii_lowercase kind)

abbrev pub checks : Libraries → Entries → List (Bool × String)
checks l query =
    let kind = value_or "tcp" (value_of "type" query) in
    (not (one_of kinds (to_ascii_lowercase kind)), "unsupported VLESS transport: " <> kind)
    ∷ (
      map_or false (λ kind. not (is_plain_header kind)) (value_of "headerType" query),
      "unsupported RAW headerType: " <> value_or "" (value_of "headerType" query),
    )
    ∷ (
      is_some (value_of "seed" query),
      "legacy seed cannot be mapped to the current Xray transport schema",
    )
    ∷ (
      map_or false (λ value. not (is_supported_fragment value)) (value_of "fragment" query),
      "fragment must use the length,delay,packets form supported by Xray FinalMask",
    )
    ∷ (
      map_or false (λ mask. not (is_json_object (l.read_json mask))) (value_of "fm" query),
      "fm must be a JSON object",
    )
    ∷ []

abbrev pub warnings_of : Libraries → Entries → List String
warnings_of l query = unknown "unknown query parameter: " known query ++ raised (checks l query)

abbrev pub transport : Entries → Transport
transport query = record {
  kind = value_or "tcp" (value_of "type" query);
  path = value_of "path" query;
  host = value_of "host" query;
  service_name = value_of "serviceName" query;
  authority = value_of "authority" query;
  mode = value_of "mode" query;
  header_type = value_of "headerType" query;
  seed = value_of "seed" query;
}

abbrev pub security : Entries → Security
security query = record {
  kind = value_or "none" (value_of "security" query);
  server_name = value_of "sni" query;
  fingerprint = value_of "fp" query;
  public_key = value_of "pbk" query;
  short_id = value_of "sid" query;
  spider_x = value_of "spx" query;
  alpn = split_csv (value_of "alpn" query);
  allow_insecure = false;
  pinned_peer_cert_sha256 = none;
}

abbrev pub parsed : Libraries → UrlParts → ParsedNode
parsed l url =
    let query = query_map url in
    record {
      protocol = vless;
      user = some url.username;
      password = none;
      transport = transport query;
      security = security query;
      warnings = warnings_of l query;
      extra = query;
    }

abbrev pub of_url : Libraries → UrlParts → String → String → Result Node
of_url l url uri subscription =
    fail_if (not (l.is_uuid url.username)) (invalid_node "VLESS user must be a valid UUID")
    >> node_from_url l url uri subscription (parsed l url)

unfoldable pub parse_vless : Libraries → String → String → Result Node
unfolding node_from_url query_map value_of split is_supported_fragment to_ascii_lowercase
parse_vless l uri subscription =
    parsed_as "" (l.parse_url uri) >>= λ url. of_url l url uri subscription
