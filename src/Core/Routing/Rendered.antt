-- ===== src/Core/Routing/Rendered.antt =====
-- What Xray reads of a routing configuration.
use xrayctl.Common.{
  String, Bool, true, false, Option, none, some, List, [], ◌∷◌, ◌++◌, map, ◌==◌, ◌≡◌, ◌↔◌, inl, inr,
  refl, arith, eq_iff, All, is_blank, filter, if◌then◌else◌, Bool-cases,
}
use xrayctl.Core.Error.{ManagerError, ok, err, is_ok}
use xrayctl.Core.Config.Validation.{one_of}
use xrayctl.Core.Json.{Value, Fields, str, get, texts, get-insert, get-insert_self}
use xrayctl.Core.Routing.{
  RoutingRule, RoutingConfig, outbounds, check, insert_nonempty, insert_option, rule_json,
  default_rule, rules_json, preset, check_rules, global_proxy, runet_blocked_only, ru_direct,
}
use xrayctl.Core.Routing.Validity.{IsValidRule, IsValidRouting, check_iff}

-- A list that is left out when it is empty, and an option that is left out when it is missing.
abbrev pub given_texts : List String → Option Value
given_texts [] = none
given_texts (s ∷ ss) = some (texts (s ∷ ss))

abbrev pub given_text : Option String → Option Value
given_text none = none
given_text (some s) = some (str s)

abbrev or_kept : Option Value → Option Value → Option Value
or_kept none kept = kept
or_kept (some v) kept = some v

get-insert_nonempty :
    (k j : String) (v : List String) (m : Fields)
    → get j (insert_nonempty k v m)
      ≡ (if k == j then or_kept (given_texts v) (get j m) else get j m)
unfolding insert_nonempty
get-insert_nonempty k j [] m = ground arith
get-insert_nonempty k j (s ∷ ss) m = get-insert k j _ m

get-insert_option :
    (k j : String) (v : Option String) (m : Fields)
    → get j (insert_option k v m) ≡ (if k == j then or_kept (given_text v) (get j m) else get j m)
unfolding insert_option
get-insert_option k j none m = ground arith
get-insert_option k j (some s) m = get-insert k j _ m

-- The members of a rendered rule are those of the rule.
pub record Renders (r : RoutingRule) (m : Fields) : Type 0 where
  pub type : get "type" m ≡ some (str "field")
  pub domain : get "domain" m ≡ given_texts r.domain
  pub ip : get "ip" m ≡ given_texts r.ip
  pub port : get "port" m ≡ given_text r.port
  pub source_port : get "sourcePort" m ≡ given_text r.source_port
  pub local_port : get "localPort" m ≡ given_text r.local_port
  pub network : get "network" m ≡ given_text r.network
  pub source_ip : get "source" m ≡ given_texts r.source_ip
  pub local_ip : get "local" m ≡ given_texts r.local_ip
  pub inbound_tag : get "inboundTag" m ≡ given_texts r.inbound_tag
  pub protocol : get "protocol" m ≡ given_texts r.protocol
  pub process : get "process" m ≡ given_texts r.process
  pub outbound : get "outboundTag" m ≡ some (str r.outbound)

ruleset members = (get-insert, get-insert_nonempty, get-insert_option)

or_kept-none : (o : Option Value) → or_kept o none ≡ o
or_kept-none none = refl
or_kept-none (some v) = refl

-- What the rendered rule has under each of its thirteen keys is what the rule has, and nothing where
-- the rule has an empty list or no value.
pub rule_json-Renders : (r : RoutingRule) → Renders r (rule_json r)
unfolding rule_json get
rule_json-Renders r = record {
  type = simp (members) refl;
  domain = simp (members) (or_kept-none _);
  ip = simp (members) (or_kept-none _);
  port = simp (members) (or_kept-none _);
  source_port = simp (members) (or_kept-none _);
  local_port = simp (members) (or_kept-none _);
  network = simp (members) (or_kept-none _);
  source_ip = simp (members) (or_kept-none _);
  local_ip = simp (members) (or_kept-none _);
  inbound_tag = simp (members) (or_kept-none _);
  protocol = simp (members) (or_kept-none _);
  process = simp (members) (or_kept-none _);
  outbound = get-insert_self "outboundTag" (str r.outbound) _;
}

-- A rendered rule sends its traffic to an outbound that the rendered configuration has.
abbrev pub IsRouted : Fields → Type 0
IsRouted m = (o : String) × (get "outboundTag" m ≡ some (str o)) × (one_of outbounds o ≡ true)

rule_json-IsRouted : (r : RoutingRule) → IsValidRule r → IsRouted (rule_json r)
rule_json-IsRouted r v = (r.outbound, (rule_json-Renders r).outbound, v.known)

default_rule-IsRouted : (c : RoutingConfig) → IsValidRouting c → IsRouted (default_rule c)
unfolding get
default_rule-IsRouted c v = (c.default_outbound, refl, v.known)

enabled-IsRouted :
    (last : Fields) (rules : List RoutingRule)
    → All IsValidRule rules
    → IsRouted last
    → All IsRouted (map rule_json (filter (λ r. r.enabled) rules) ++ last ∷ [])
enabled-IsRouted last [] v l = (l, tt)
enabled-IsRouted last (r ∷ rules) (now, later) l = elim (Bool-cases r.enabled) [
  | inl t ↦ simp (t) (rule_json-IsRouted r now, enabled-IsRouted last rules later l)
  | inr f ↦ simp (f) (enabled-IsRouted last rules later l)
]

-- A rule for all of TCP and UDP, with no other condition.
abbrev pub catch_all : String → RoutingRule
catch_all outbound = record {
  name = "default";
  enabled = true;
  domain = [];
  ip = [];
  port = none;
  source_port = none;
  local_port = none;
  network = some "tcp,udp";
  source_ip = [];
  local_ip = [];
  inbound_tag = [];
  protocol = [];
  process = [];
  outbound = outbound;
}

default_rule-Renders : (c : RoutingConfig) → Renders (catch_all c.default_outbound) (default_rule c)
unfolding get
default_rule-Renders c = record {
  type = refl;
  domain = refl;
  ip = refl;
  port = refl;
  source_port = refl;
  local_port = refl;
  network = refl;
  source_ip = refl;
  local_ip = refl;
  inbound_tag = refl;
  protocol = refl;
  process = refl;
  outbound = refl;
}

-- The list ends with a rendering of the rule.
abbrev pub EndsWith : RoutingRule → List Fields → Type 0
EndsWith r [] = ⊥
EndsWith r (m ∷ []) = Renders r m
EndsWith r (m ∷ n ∷ ms) = EndsWith r (n ∷ ms)

append-EndsWith :
    (r : RoutingRule) (ms : List Fields) (last : Fields)
    → Renders r last
    → EndsWith r (ms ++ last ∷ [])
append-EndsWith r [] last h = h
append-EndsWith r (m ∷ []) last h = h
append-EndsWith r (m ∷ n ∷ ms) last h = append-EndsWith r (n ∷ ms) last h

-- Of a configuration that passes the checks, every rendered rule sends its traffic to one of the
-- outbounds proxy, direct and block. The last rule sends all of TCP and UDP to the default outbound:
-- its network is "tcp,udp", and it has none of the other keys of a condition.
pub rules_json-IsRouted :
    (c : RoutingConfig)
    → check c ≡ ok tt
    → All IsRouted (rules_json c) × EndsWith (catch_all c.default_outbound) (rules_json c)
unfolding rules_json
rules_json-IsRouted c h =
    let v = (check_iff c).0 h in
    (
      enabled-IsRouted (default_rule c) c.rules v.rules (default_rule-IsRouted c v),
      append-EndsWith (catch_all c.default_outbound)
          (map rule_json (filter (λ r. r.enabled) c.rules)) (default_rule c)
          (default_rule-Renders c),
    )

abbrev pub preset_names : List String
preset_names = "global-proxy" ∷ "runet-blocked-only" ∷ "ru-direct" ∷ []

presets_checked :
    (check global_proxy ≡ ok tt) × (check runet_blocked_only ≡ ok tt) × (check ru_direct ≡ ok tt)
unfolding check check_rules is_blank
presets_checked = (refl, refl, refl)

chosen-IsValidRouting :
    (a b d : Bool) (e : ManagerError) {c : RoutingConfig}
    → (if a
        then ok global_proxy
        else if b
        then ok runet_blocked_only
        else if d
        then ok ru_direct
        else err e)
      ≡ ok c
    → check c ≡ ok tt
chosen-IsValidRouting true b d e h = cc (h, presets_checked.0)
chosen-IsValidRouting false true d e h = cc (h, presets_checked.1)
chosen-IsValidRouting false false true e h = cc (h, presets_checked.2)
chosen-IsValidRouting false false false e h = cc h

-- A preset is known exactly under one of the three names, and what it gives passes the checks.
pub preset-IsValidRouting :
    (name : String)
    → ((is_ok (preset name) ≡ true) ↔ (one_of preset_names name ≡ true))
      × ((c : RoutingConfig) → preset name ≡ ok c → check c ≡ ok tt)
unfolding preset
preset-IsValidRouting name = (
  ground (
    arith,
    eq_iff name "global-proxy",
    eq_iff name "runet-blocked-only",
    eq_iff name "ru-direct",
    eq_iff "global-proxy" name,
    eq_iff "runet-blocked-only" name,
    eq_iff "ru-direct" name,
  ),
  λ c h. chosen-IsValidRouting _ _ _ _ h,
)
