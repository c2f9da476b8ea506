-- ===== src/Core/Queries/Dtos.antt =====
-- dto.rs: what is answered of nodes and checks, as JSON.
use xrayctl.Common.{
  String, ◌<>◌, Bool, true, false, not, ◌&&◌, Option, [], ◌∷◌, show, is_empty, take_text,
  if◌then◌else◌,
}
use xrayctl.Core.Domain.{Node, Protocol, vless, vmess, trojan, shadowsocks, hysteria2}
use xrayctl.Core.Profiles.{SubscriptionConfig}
use xrayctl.Core.Json.{Value, bool, str, obj, texts, optional, object}

abbrev is_hysteria2 : Protocol → Bool
is_hysteria2 hysteria2 = true
is_hysteria2 _ = false

abbrev protocol_text : Protocol → String
protocol_text vless = "vless"
protocol_text vmess = "vmess"
protocol_text trojan = "trojan"
protocol_text shadowsocks = "shadowsocks"
protocol_text hysteria2 = "hysteria2"

abbrev support : Node → String
support n =
    if is_hysteria2 n.protocol && not (is_empty n.warnings)
    then "unsupported"
    else if is_empty n.warnings
    then "supported"
    else "partial"

-- `NodeDto::from`, with `NodeId::short`.
unfoldable pub node_dto : Node → Value
unfolding take_text show
node_dto n = obj (
    object (
      ("id", str (take_text 12 n.id))
      ∷ ("subscription", str n.subscription)
      ∷ ("name", str n.name)
      ∷ ("protocol", str (protocol_text n.protocol))
      ∷ ("endpoint", str (n.server <> (":" <> show n.port)))
      ∷ ("support", str (support n))
      ∷ ("warnings", texts n.warnings)
      ∷ []))

abbrev pub subscription_json : SubscriptionConfig → Value
subscription_json s =
    obj
      (object (("name", str s.name) ∷ ("enabled", bool s.enabled) ∷ ("format", str s.format) ∷ []))

pub data CheckStatus : Type 0 where
  pass warn fail : CheckStatus

pub record DoctorCheck : Type 0 where
  pub id : String
  pub status : CheckStatus
  pub message : String
  pub remediation : Option String

abbrev status_text : CheckStatus → String
status_text pass = "PASS"
status_text warn = "WARN"
status_text fail = "FAIL"

abbrev pub check_json : DoctorCheck → Value
check_json c = obj (
    object (
      ("id", str c.id)
      ∷ ("status", str (status_text c.status))
      ∷ ("message", str c.message)
      ∷ ("remediation", optional c.remediation)
      ∷ []))
