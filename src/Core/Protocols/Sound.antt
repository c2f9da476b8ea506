-- ===== src/Core/Protocols/Sound.antt =====
-- What each parser promises of the node that it gives.
use xrayctl.Common.{
  String, Bool, true, false, not, Option, none, some, [], ◌==◌, ◌||◌, ◌≡◌, refl, is_empty_text,
  split_once, to_ascii_lowercase, strip_prefix, rsplit_once, is_blank, ◌⊎◌, if◌then◌else◌,
}
use xrayctl.Core.Error.{
  ManagerError, Result, ok, fail_if, ok_or, ◌>>=◌, ◌>>◌, Yields, >>=-Yields, yielded,
}
use xrayctl.Core.Domain.{Node, Protocol, vless, vmess, trojan, shadowsocks, hysteria2}
use xrayctl.Core.Protocols.{parser, by_scheme, parse_uri}
use xrayctl.Core.Protocols.Shared.{
  Libraries, UrlParts, ParsedNode, VmessLink, normalized_identity, node_from_url, parsed_as, map_of,
}
use xrayctl.Core.Protocols.Vless.{parse_vless}
use xrayctl.Core.Protocols.Vless
use xrayctl.Core.Protocols.Vmess.{parse_vmess, decode_flexible_base64, port_of, of_link}
use xrayctl.Core.Protocols.Trojan.{parse_trojan}
use xrayctl.Core.Protocols.Trojan
use xrayctl.Core.Protocols.Shadowsocks.{parse_shadowsocks}
use xrayctl.Core.Protocols.Shadowsocks
use xrayctl.Core.Protocols.Hysteria2.{parse_hysteria2}
use xrayctl.Core.Protocols.Hysteria2

-- The credential of a protocol.
abbrev pub HasUser : Libraries → Option String → Type 0
HasUser l none = false ≡ true
HasUser l (some id) = l.is_uuid id ≡ true

abbrev pub HasPassword : Option String → Type 0
HasPassword none = false ≡ true
HasPassword (some password) = is_empty_text password ≡ false

abbrev pub HasCredential : Libraries → Protocol → Option String → Option String → Type 0
HasCredential l vless user password = HasUser l user
HasCredential l vmess user password = HasUser l user
HasCredential l trojan user password = HasPassword password
HasCredential l hysteria2 user password = HasPassword password
HasCredential l shadowsocks user password = (p : String) × (password ≡ some p)

-- A node of this URI and this subscription.
pub record IsParsed (l : Libraries) (uri subscription : String) (n : Node) : Type 0 where
  pub labelled : n.subscription ≡ subscription
  pub kept : n.raw_uri ≡ uri
  pub identified : n.id ≡ l.hash (normalized_identity l n)
  pub credential : HasCredential l n.protocol n.credentials.user n.credentials.password

fail_if-Yields :
    {T : Type 0} {P : T → Type 0} (t : Bool) (e : ManagerError) (r : Result T)
    → (t ≡ false → Yields P r)
    → Yields P (fail_if t e >> r)
fail_if-Yields true e r h = record { holds = tt }
fail_if-Yields false e r h = h refl

not-false : (b : Bool) → not b ≡ false → b ≡ true
not-false true h = refl
not-false false h = cc

parsed_as-Yields :
    {A T : Type 0} {P : T → Type 0} (prefix : String) (r : String ⊎ A) (f : A → Result T)
    → ((x : A) → Yields P (f x))
    → Yields P (parsed_as prefix r >>= f)
parsed_as-Yields prefix r f h = >>=-Yields (parsed_as prefix r) f h

if-Yields :
    {T : Type 0} {P : T → Type 0} (t : Bool) (r s : Result T)
    → Yields P r
    → Yields P s
    → Yields P (if t then r else s)
if-Yields true r s x y = x
if-Yields false r s x y = y

module _ (l : Libraries) (uri sub : String) where
  abbrev Parses : Result Node → Type 0
  Parses r = Yields (IsParsed l uri sub) r

  node_from_url-IsParsed :
      (url : UrlParts) (p : ParsedNode)
      → HasCredential l p.protocol p.user p.password
      → Parses (node_from_url l url uri sub p)
  unfolding node_from_url normalized_identity
  node_from_url-IsParsed url p h = >>=-Yields (ok_or _ _) _ (λ server.
      >>=-Yields (ok_or url.port _) _ (λ port. record {
        holds = record { labelled = refl; kept = refl; identified = refl; credential = h };
      }))

  parse_vless-IsParsed : Parses (parse_vless l uri sub)
  unfolding parse_vless
  parse_vless-IsParsed = parsed_as-Yields "" (l.parse_url uri) _ (λ url.
      fail_if-Yields (not (l.is_uuid url.username)) _ _
        (λ t. node_from_url-IsParsed url (Vless.parsed l url) (not-false _ t)))

  parse_trojan-IsParsed : Parses (parse_trojan l uri sub)
  unfolding parse_trojan
  parse_trojan-IsParsed = parsed_as-Yields "" (l.parse_url uri) _ (λ url.
      fail_if-Yields (is_empty_text (l.percent_decode url.username)) _ _
        (λ t. node_from_url-IsParsed url (Trojan.parsed l url) t))

  parse_hysteria2-IsParsed : Parses (parse_hysteria2 l uri sub)
  unfolding parse_hysteria2
  parse_hysteria2-IsParsed = parsed_as-Yields "" _ _ (λ url.
      fail_if-Yields (is_empty_text (l.percent_decode url.username)) _ _
        (λ t. node_from_url-IsParsed url (Hysteria2.parsed l url) t))

  of_link-IsParsed : (link : VmessLink) → Parses (of_link l link uri sub)
  unfolding normalized_identity
  of_link-IsParsed link = fail_if-Yields (not (l.is_uuid link.id)) _ _ (λ t.
      >>=-Yields (ok_or (port_of link.port) _) _ (λ port.
        fail_if-Yields (is_blank link.add) _ _ (λ _. record {
          holds = record {
            labelled = refl;
            kept = refl;
            identified = refl;
            credential = not-false _ t;
          };
        })))

  parse_vmess-IsParsed : Parses (parse_vmess l uri sub)
  unfolding parse_vmess
  parse_vmess-IsParsed = >>=-Yields (ok_or (strip_prefix "vmess://" uri) _) _ (λ encoded.
      >>=-Yields (decode_flexible_base64 l encoded) _
        (λ bytes. parsed_as-Yields _ (l.read_link bytes) _ (λ link. of_link-IsParsed link)))

  of_parts-IsParsed :
      (parts : String × String) (fragment : String)
      → Parses (Shadowsocks.of_parts l parts fragment uri sub)
  of_parts-IsParsed (authority, query) fragment =
      >>=-Yields (Shadowsocks.expanded l authority) _ (λ whole.
        >>=-Yields (ok_or (rsplit_once b'@' whole) _) _ (λ ends.
          >>=-Yields (Shadowsocks.decoded_userinfo l (ends.0)) _ (λ userinfo.
            >>=-Yields (ok_or (split_once b':' userinfo) _) _ (λ secrets.
              parsed_as-Yields "" _ _ (λ url.
                node_from_url-IsParsed url
                  (Shadowsocks.parsed (map_of (l.form_pairs query) []) secrets)
                  (secrets.1, refl))))))

  of_body-IsParsed : (parts : String × String) → Parses (Shadowsocks.of_body l parts uri sub)
  of_body-IsParsed (before, fragment) =
      of_parts-IsParsed (Shadowsocks.or_whole before (split_once b'?' before)) fragment

  parse_shadowsocks-IsParsed : Parses (parse_shadowsocks l uri sub)
  unfolding parse_shadowsocks
  parse_shadowsocks-IsParsed =
      >>=-Yields (ok_or (strip_prefix "ss://" uri) _) _
        (λ body. of_body-IsParsed (Shadowsocks.or_whole body (split_once b'#' body)))

  parser-IsParsed : (scheme : String) → Parses (parser l scheme uri sub)
  parser-IsParsed scheme = if-Yields (scheme == "vless") _ _ parse_vless-IsParsed (
      if-Yields (scheme == "vmess") _ _ parse_vmess-IsParsed (
        if-Yields (scheme == "trojan") _ _ parse_trojan-IsParsed (
          if-Yields (scheme == "ss") _ _ parse_shadowsocks-IsParsed (
            if-Yields (scheme == "hysteria2" || scheme == "hy2") _ _ parse_hysteria2-IsParsed
              (record { holds = tt })))))

  by_scheme-IsParsed : (o : Option (String × String)) → Parses (by_scheme l o uri sub)
  by_scheme-IsParsed none = record { holds = tt }
  by_scheme-IsParsed (some (scheme, rest)) = parser-IsParsed (to_ascii_lowercase scheme)

  -- The node that a URI gives belongs to the subscription, keeps the URI as its source, has the hash
  -- of its own identity for its id, and has what its protocol needs: a UUID as the user for VLESS
  -- and VMess, a password that is not empty for Trojan and Hysteria2, and a password for
  -- Shadowsocks.
  pub parse_uri-IsParsed : {n : Node} → parse_uri l uri sub ≡ ok n → IsParsed l uri sub n
  unfolding parse_uri
  parse_uri-IsParsed q = yielded (by_scheme-IsParsed (split_once b':' uri)) q
