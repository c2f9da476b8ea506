-- ===== src/Core/Routing/Validity.antt =====
-- What a routing configuration must satisfy.
use xrayctl.Common.{String, true, false, List, [], ◌∷◌, map, ◌≡◌, ◌↔◌, refl, arith, All, is_blank}
use xrayctl.Core.Error.{Result, ok, err}
use xrayctl.Core.Config.Validation.{one_of}
use xrayctl.Core.Config.Checks.{one_of_iff, Distinct, DistinctFrom, DistinctFrom-iff, All-true}
use xrayctl.Core.Routing.{
  RoutingRule, RoutingConfig, outbounds, strategies, check_rules, check, parse,
}

pub record IsValidRule (r : RoutingRule) : Type 0 where
  pub named : is_blank r.name ≡ false
  pub known : one_of outbounds r.outbound ≡ true

pub record IsValidRouting (c : RoutingConfig) : Type 0 where
  pub known : one_of outbounds c.default_outbound ≡ true
  pub strategy : one_of strategies c.domain_strategy ≡ true
  pub rules : All IsValidRule c.rules
  pub distinct : Distinct (map (λ r. r.name) c.rules)

check_rules_iff :
    (names : List String) (rules : List RoutingRule)
    → (check_rules names rules ≡ ok tt)
      ↔ (All IsValidRule rules × DistinctFrom names (map (λ r. r.name) rules))
unfolding check_rules
check_rules_iff names [] = ((λ h. (tt, tt)), λ h. refl)
check_rules_iff names (r ∷ rules) =
    ground (arith, one_of_iff names r.name, check_rules_iff (r.name ∷ names) rules)

-- A routing configuration passes the checks exactly when its outbounds and its strategy are known
-- and its rules have names, no two the same.
pub check_iff : (c : RoutingConfig) → (check c ≡ ok tt) ↔ IsValidRouting c
unfolding check
check_iff c = ground (
  arith,
  check_rules_iff [] c.rules,
  DistinctFrom-iff [] (map (λ r. r.name) c.rules),
  All-true (map (λ r. r.name) c.rules),
)

-- What `parse` accepts is what the reader gave, and is valid.
pub parse_valid :
    (decoded : Result RoutingConfig) {c : RoutingConfig}
    → parse decoded ≡ ok c
    → (decoded ≡ ok c) × IsValidRouting c
unfolding parse
parse_valid (ok c) h = ground (arith, check_iff c)
parse_valid (err e) h = cc
