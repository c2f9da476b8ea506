-- ===== src/Tests/Core.antt =====
-- Concrete inputs for crates/xray-manager-core.
use xrayctl.Common.{String, true, none, some, [], ◌∷◌, ◌≡◌, ◌↔◌, refl, All, inl, inr, split_once}
use xrayctl.Core.Error.{ok}
use xrayctl.Core.Config.Validation.{Url, validate}
use xrayctl.Core.Config.Defaults.{default_config}
use xrayctl.Core.Config.Validity.{IsValid, validate_iff}
use xrayctl.Core.Routing.{RoutingRule, check, check_rules, rule_json, rules_json, ru_direct}
use xrayctl.Core.Routing.Rendered.{
  Renders, IsRouted, EndsWith, catch_all, rule_json-Renders, rules_json-IsRouted,
}

-- The scheme of an absolute URL.
abbrev scheme_of : String → Url
scheme_of s = elim (split_once b':' s) [
  | none ↦ inl "relative URL without a base"
  | some (scheme, rest) ↦ inr scheme
]

validate_iff_example :
    (validate scheme_of default_config ≡ ok tt) ↔ IsValid scheme_of default_config
validate_iff_example = validate_iff scheme_of default_config

abbrev sample_rule : RoutingRule
sample_rule = record {
  name = "streams";
  enabled = true;
  domain = "geosite:netflix" ∷ [];
  ip = [];
  port = some "443";
  source_port = none;
  local_port = none;
  network = some "tcp";
  source_ip = [];
  local_ip = [];
  inbound_tag = [];
  protocol = [];
  process = [];
  outbound = "direct";
}

rule_json-Renders_example : Renders sample_rule (rule_json sample_rule)
rule_json-Renders_example = rule_json-Renders sample_rule

rules_json-IsRouted_example :
    All IsRouted (rules_json ru_direct)
    × EndsWith (catch_all ru_direct.default_outbound) (rules_json ru_direct)
unfolding check check_rules
rules_json-IsRouted_example = rules_json-IsRouted ru_direct refl
