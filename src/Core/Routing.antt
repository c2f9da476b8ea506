-- ===== src/Core/Routing.antt =====
-- crates/xray-manager-core/src/routing.rs. `toml::from_str` is not under verification: `parse`
-- takes what it makes of the text.
pub mod Validity
pub mod Rendered
use xrayctl.Common.{
  String, ◌<>◌, Bool, true, false, not, ◌||◌, Option, none, some, List, [], ◌∷◌, ◌++◌, map, ◌==◌,
  is_blank, is_empty, filter, if◌then◌else◌,
}
use xrayctl.Core.Error.{ManagerError, invalid_config, Result, ok, err, fail_if, ◌>>=◌, ◌>>◌}
use xrayctl.Core.Config.Validation.{one_of}
use xrayctl.Core.Json.{Value, Fields, str, arr, obj, end, insert, items, texts, object}

pub record RoutingRule : Type 0 where
  pub name : String
  pub enabled : Bool
  pub domain : List String
  pub ip : List String
  pub port : Option String
  pub source_port : Option String
  pub local_port : Option String
  pub network : Option String
  pub source_ip : List String
  pub local_ip : List String
  pub inbound_tag : List String
  pub protocol : List String
  pub process : List String
  pub outbound : String

pub record RoutingConfig : Type 0 where
  pub domain_strategy : String
  pub default_outbound : String
  pub rules : List RoutingRule

abbrev pub outbounds : List String
outbounds = "proxy" ∷ "direct" ∷ "block" ∷ []

abbrev pub strategies : List String
strategies = "AsIs" ∷ "IPIfNonMatch" ∷ "IPOnDemand" ∷ []

-- The loop over the rules, with the names seen so far.
unfoldable pub check_rules : List String → List RoutingRule → Result (Unit {0})
unfolding is_blank
check_rules names [] = ok tt
check_rules names (r ∷ rules) =
    let rest = check_rules (r.name ∷ names) rules in
    fail_if (is_blank r.name || one_of names r.name)
      (invalid_config "routing rule names must be non-empty and unique")
    >> (fail_if (not (one_of outbounds r.outbound))
          (invalid_config ("routing rule '" <> r.name <> "' has an unknown outbound"))
        >> rest)

unfoldable pub check : RoutingConfig → Result (Unit {0})
check c =
    fail_if (not (one_of outbounds c.default_outbound))
      (invalid_config "default_outbound must be proxy, direct, or block")
    >> (fail_if (not (one_of strategies c.domain_strategy))
          (invalid_config "domain_strategy must be AsIs, IPIfNonMatch, or IPOnDemand")
        >> check_rules [] c.rules)

-- `RoutingConfig::parse`, where `decoded` is what the TOML reader makes of the input.
unfoldable pub parse : Result RoutingConfig → Result RoutingConfig
parse decoded = decoded >>= λ c. check c >> ok c

unfoldable pub insert_nonempty : String → List String → Fields → Fields
insert_nonempty key value m = if is_empty value then m else insert key (texts value) m

unfoldable pub insert_option : String → Option String → Fields → Fields
insert_option key none m = m
insert_option key (some value) m = insert key (str value) m

-- `RoutingRule::to_xray_json`.
unfoldable pub rule_json : RoutingRule → Fields
rule_json r =
    let m = insert "type" (str "field") end in
    let m = insert_nonempty "domain" r.domain m in
    let m = insert_nonempty "ip" r.ip m in
    let m = insert_option "port" r.port m in
    let m = insert_option "sourcePort" r.source_port m in
    let m = insert_option "localPort" r.local_port m in
    let m = insert_option "network" r.network m in
    let m = insert_nonempty "source" r.source_ip m in
    let m = insert_nonempty "local" r.local_ip m in
    let m = insert_nonempty "inboundTag" r.inbound_tag m in
    let m = insert_nonempty "protocol" r.protocol m in
    let m = insert_nonempty "process" r.process m in insert "outboundTag" (str r.outbound) m

abbrev pub default_rule : RoutingConfig → Fields
default_rule c = object (
    ("type", str "field")
    ∷ ("network", str "tcp,udp")
    ∷ ("outboundTag", str c.default_outbound)
    ∷ [])

-- The list that `to_xray_json` builds: the enabled rules in their order, then the default.
unfoldable pub rules_json : RoutingConfig → List Fields
rules_json c = map rule_json (filter (λ r. r.enabled) c.rules) ++ default_rule c ∷ []

-- `RoutingConfig::to_xray_json`.
unfoldable pub to_xray_json : RoutingConfig → Value
to_xray_json c = obj (
    object (
      (
        "routing",
        obj (
            object (
              ("domainStrategy", str c.domain_strategy)
              ∷ ("rules", arr (items (map obj (rules_json c))))
              ∷ [])),
      )
      ∷ []))

abbrev preset_rule : String → List String → List String → String → RoutingRule
preset_rule name domain ip outbound = record {
  name = name;
  enabled = true;
  domain = domain;
  ip = ip;
  port = none;
  source_port = none;
  local_port = none;
  network = none;
  source_ip = [];
  local_ip = [];
  inbound_tag = [];
  protocol = [];
  process = [];
  outbound = outbound;
}

abbrev pub default_domain_strategy : String
default_domain_strategy = "AsIs"

abbrev pub global_proxy : RoutingConfig
global_proxy = record {
  domain_strategy = default_domain_strategy;
  default_outbound = "proxy";
  rules =
      preset_rule "private-ip-direct" [] ("geoip:private" ∷ []) "direct"
      ∷ preset_rule "private-domain-direct" ("geosite:private" ∷ []) [] "direct"
      ∷ [];
}

abbrev pub runet_blocked_only : RoutingConfig
runet_blocked_only = record {
  domain_strategy = default_domain_strategy;
  default_outbound = "direct";
  rules =
      preset_rule "blocked-ip-proxy" [] ("geoip:ru-blocked" ∷ "geoip:ru-blocked-community" ∷ [])
        "proxy"
      ∷ preset_rule "blocked-domain-proxy" ("geosite:ru-blocked" ∷ "geosite:ru-blocked-all" ∷ []) []
          "proxy"
      ∷ [];
}

abbrev pub ru_direct : RoutingConfig
ru_direct = record {
  domain_strategy = default_domain_strategy;
  default_outbound = "proxy";
  rules =
      preset_rule "ru-ip-direct" [] ("geoip:ru-whitelist" ∷ []) "direct"
      ∷ preset_rule "ru-domain-direct" ("geosite:ru-available-only-inside" ∷ []) [] "direct"
      ∷ [];
}

unfoldable pub preset : String → Result RoutingConfig
preset name =
    if name == "global-proxy"
    then ok global_proxy
    else if name == "runet-blocked-only"
    then ok runet_blocked_only
    else if name == "ru-direct"
    then ok ru_direct
    else err (invalid_config ("unknown routing preset: " <> name))
