-- ===== src/Core/Protocols/Shadowsocks.antt =====
-- protocols/shadowsocks.rs.
use xrayctl.Common.{
  String, ◌<>◌, Option, none, some, List, [], ◌∷◌, any, split_once, rsplit_once, strip_prefix,
  starts_with_text, contains_text, if◌then◌else◌,
}
use xrayctl.Core.Error.{invalid_node, Result, ok, ok_or, ◌>>=◌}
use xrayctl.Core.Domain.{Node, shadowsocks}
use xrayctl.Core.Protocols.Shared.{
  Libraries, UrlParts, ParsedNode, Entries, node_from_url, map_of, put, value_of, parsed_as,
  plain_security, transport_of,
}
use xrayctl.Core.Protocols.Vmess.{decode_flexible_base64}

-- `split_once(…).unwrap_or((s, ""))`.
abbrev pub or_whole : String → Option (String × String) → String × String
or_whole s none = (s, "")
or_whole s (some parts) = parts

-- `String::from_utf8(decode_flexible_base64(…)?)`.
abbrev decode_text : Libraries → String → String → Result String
decode_text l text message =
    decode_flexible_base64 l text >>= λ bytes. ok_or (l.from_utf8 bytes) (invalid_node message)

abbrev plugin_warnings : Option String → List String
plugin_warnings none = []
plugin_warnings (some plugin) =
    (if any (λ known. starts_with_text known plugin) ("v2ray-plugin" ∷ "obfs-local" ∷ [])
      then "recognized Shadowsocks plugin is not supported by the built-in Xray adapter: " <> plugin
      else "unsupported Shadowsocks plugin: " <> plugin)
    ∷ []

abbrev pub expanded : Libraries → String → Result String
expanded l authority =
    if contains_text "@" authority
    then ok authority
    else decode_text l authority "Shadowsocks Base64 is not UTF-8"

abbrev pub decoded_userinfo : Libraries → String → Result String
decoded_userinfo l userinfo =
    if contains_text ":" userinfo
    then ok (l.percent_decode userinfo)
    else decode_text l userinfo "Shadowsocks userinfo is not UTF-8"

abbrev pub parsed : Entries → String × String → ParsedNode
parsed query (method, password) = record {
  protocol = shadowsocks;
  user = none;
  password = some password;
  transport = transport_of "tcp";
  security = plain_security;
  warnings = plugin_warnings (value_of "plugin" query);
  extra = put "method" method query;
}

abbrev pub of_url : Libraries → UrlParts → Entries → String × String → String → String → Result Node
of_url l url query secrets uri subscription =
    node_from_url l url uri subscription (parsed query secrets)

abbrev normalized : Libraries → String × String → String → String → String
normalized l (method, password) endpoint fragment =
    "ss://"
    <> (l.percent_encode method
        <> (":" <> (l.percent_encode password <> ("@" <> (endpoint <> ("#" <> fragment))))))

-- What stands before `#`, and after it; then what stands before `?`, and after it.
abbrev pub of_parts : Libraries → String × String → String → String → String → Result Node
of_parts l (authority, query) fragment uri subscription = expanded l authority >>= λ whole.
    (ok_or (rsplit_once b'@' whole) (invalid_node "Shadowsocks URI has no endpoint") >>= λ ends.
    (decoded_userinfo l (ends.0) >>= λ userinfo.
    (ok_or (split_once b':' userinfo) (invalid_node "missing Shadowsocks method/password")
      >>= λ secrets.
          (parsed_as "" (l.parse_url (normalized l secrets (ends.1) fragment)) >>= λ url.
          of_url l url (map_of (l.form_pairs query) []) secrets uri subscription))))

abbrev pub of_body : Libraries → String × String → String → String → Result Node
of_body l (without_fragment, fragment) uri subscription =
    of_parts l (or_whole without_fragment (split_once b'?' without_fragment)) fragment uri
      subscription

unfoldable pub parse_shadowsocks : Libraries → String → String → Result Node
unfolding node_from_url map_of put value_of split_once rsplit_once strip_prefix starts_with_text
    contains_text decode_flexible_base64
parse_shadowsocks l uri subscription =
    ok_or (strip_prefix "ss://" uri) (invalid_node "invalid Shadowsocks scheme") >>= λ body.
    of_body l (or_whole body (split_once b'#' body)) uri subscription
