-- ===== src/Core/Protocols.antt =====
-- crates/xray-manager-core/src/protocols and the identity of a node in domain.rs: from a URI to a
-- node. What the crates url, percent-encoding, uuid, base64, serde_json and blake3 give are
-- arguments, and so are the texts that the derived `Debug` gives of a transport and its security. A
-- `BTreeMap` is the list of its entries in the order of their keys.
pub mod Shared
pub mod Vless
pub mod Vmess
pub mod Trojan
pub mod Shadowsocks
pub mod Hysteria2
pub mod Sound
pub mod Accepted
pub mod Renderable
use xrayctl.Common.{
  String, ◌<>◌, Option, none, some, ◌==◌, ◌||◌, to_ascii_lowercase, split_once, if◌then◌else◌,
}
use xrayctl.Core.Error.{invalid_node, Result, err}
use xrayctl.Core.Domain.{Node}
use xrayctl.Core.Protocols.Shared.{Libraries}
use xrayctl.Core.Protocols.Vless.{parse_vless}
use xrayctl.Core.Protocols.Vmess.{parse_vmess}
use xrayctl.Core.Protocols.Trojan.{parse_trojan}
use xrayctl.Core.Protocols.Shadowsocks.{parse_shadowsocks}
use xrayctl.Core.Protocols.Hysteria2.{parse_hysteria2}

abbrev pub parser : Libraries → String → String → String → Result Node
parser l scheme uri subscription =
    if scheme == "vless"
    then parse_vless l uri subscription
    else if scheme == "vmess"
    then parse_vmess l uri subscription
    else if scheme == "trojan"
    then parse_trojan l uri subscription
    else if scheme == "ss"
    then parse_shadowsocks l uri subscription
    else if scheme == "hysteria2" || scheme == "hy2"
    then parse_hysteria2 l uri subscription
    else err (invalid_node ("unsupported URI scheme: " <> scheme))

abbrev pub by_scheme : Libraries → Option (String × String) → String → String → Result Node
by_scheme l none uri subscription = err (invalid_node "URI has no scheme")
by_scheme l (some (scheme, rest)) uri subscription =
    parser l (to_ascii_lowercase scheme) uri subscription

unfoldable pub parse_uri : Libraries → String → String → Result Node
unfolding split_once to_ascii_lowercase parse_vless parse_vmess parse_trojan parse_shadowsocks
    parse_hysteria2
parse_uri l uri subscription = by_scheme l (split_once b':' uri) uri subscription
