-- ===== src/Core/Operations/Checked.antt =====
-- What passes the checks before a plan.
use xrayctl.Common.{
  String, Bool, true, false, not, ◌&&◌, ◌||◌, List, [], ◌∷◌, ◌++◌, ◌≡◌, ◌∙◌, ◌↔◌, ◌⊎◌, inl, inr,
  refl, sym, subst, arith, any, filter, if◌then◌else◌,
}
use xrayctl.Core.Error.{ok, fail_if}
use xrayctl.Core.Ports.{Capability, same, same_iff, BackendSelection, CapabilityStatus}
use xrayctl.Core.Config.Checks.{>>_iff, fail_if_iff}
use xrayctl.Core.Operations.{
  Operation, tun_capabilities, required_capabilities, requires_administrator, is_bootstrap,
  activates, is_tun_enable, needed_capabilities, status_of, is_supported, ensure_capability,
  bootstrap_can_restore, ensure_all, check_operation,
}
use xrayctl.Core.Operations.Needed.{has, has-sort, has-dedup, has-append, has-filter, needs}

or_cases : (a b : Bool) → (a || b) ≡ true → (a ≡ true) ⊎ (b ≡ true)
or_cases true b h = inl refl
or_cases false b h = inr h

or_left : (a b : Bool) → a ≡ true → (a || b) ≡ true
or_left true b h = refl
or_left false b h = cc h

or_right : (a b : Bool) → b ≡ true → (a || b) ≡ true
or_right true b h = refl
or_right false b h = h

implied : (a b : Bool) → (a && not b) ≡ false → a ≡ true → b ≡ true
implied a b h t = ground arith

implies : (a b : Bool) → (a ≡ true → b ≡ true) → (a && not b) ≡ false
implies true true h = refl
implies true false h = cc (h refl)
implies false b h = refl

both : (x y : Bool) → (x || y) ≡ ((x && true) || y)
both true y = refl
both false y = refl

alone : (x : Bool) → x ≡ ((x && true) || false)
alone true = refl
alone false = refl

without : (x y : Bool) → (not y && x) ≡ ((x && not y) || false)
without true true = refl
without true false = refl
without false true = refl
without false false = refl

-- The list before it is sorted, by the three tests.
kept-has :
    (t b a : Bool) (c : Capability) (base : List Capability)
    → let extended = if t && a then base ++ tun_capabilities else base in
      has c (
        if not t && b then filter (λ d. not (any (same d) tun_capabilities)) extended else extended)
      ≡ (has c base && not (not t && b && has c tun_capabilities)
          || t && a && has c tun_capabilities)
kept-has true b true c base =
    has-append c base tun_capabilities ∙ both (has c base) (has c tun_capabilities)
kept-has true b false c base = alone (has c base)
kept-has false true a c base =
    has-filter c (λ d. not (any (same d) tun_capabilities)) base
    ∙ without (has c base) (has c tun_capabilities)
kept-has false false a c base = alone (has c base)

has-needed_capabilities :
    (tun_enabled : Bool) (op : Operation) (c : Capability)
    → has c (needed_capabilities tun_enabled op) ≡ needs tun_enabled op c
unfolding needed_capabilities
has-needed_capabilities tun_enabled op c =
    has-dedup c _
    ∙ (has-sort c _
        ∙ kept-has tun_enabled (is_bootstrap op) (activates op) c (required_capabilities op))

module _ (platform : String) (statuses : List CapabilityStatus)
    (selections : List BackendSelection) where
  -- A backend supports the capability, or a bootstrap can restore one.
  abbrev pub IsReady : Operation → Capability → Type 0
  IsReady op c =
      (is_supported (status_of statuses c) ≡ true)
      ⊎ (bootstrap_can_restore platform statuses selections op c ≡ true)

  one_iff :
      (op : Operation) (c : Capability)
      → ((if bootstrap_can_restore platform statuses selections op c
            then ok tt
            else ensure_capability platform statuses selections c)
          ≡ ok tt)
        ↔ IsReady op c
  unfolding ensure_capability
  one_iff op c = ground (arith)

  ensure_all_iff :
      (op : Operation) (cs : List Capability)
      → (ensure_all platform statuses selections op cs ≡ ok tt)
        ↔ ((c : Capability) → has c cs ≡ true → IsReady op c)
  unfolding ensure_all
  ensure_all_iff op [] = ((λ h c e. cc), λ h. refl)
  ensure_all_iff op (d ∷ ds) =
      let steps =
        >>_iff
          (if bootstrap_can_restore platform statuses selections op d
            then ok tt
            else ensure_capability platform statuses selections d)
          (ensure_all platform statuses selections op ds) in
      let now = one_iff op d in
      let later = ensure_all_iff op ds in
      (
        (λ h c e. elim (or_cases (same c d) (has c ds) e) [
          | inl t ↦ subst (IsReady op) (sym ((same_iff c d).0 t)) (now.0 ((steps.0 h).0))
          | inr t ↦ later.0 ((steps.0 h).1) c t
        ]),
        λ h. steps.1 (
          now.1 (h d (or_left (same d d) (has d ds) ((same_iff d d).1 refl))),
          later.1 (λ c t. h c (or_right (same c d) (has c ds) t)),
        ),
      )

  -- The checks before a plan pass exactly when an operation that enables TUN finds it enabled in the
  -- configuration, and each capability that the operation needs is supported or, in an installation
  -- or a repair, can be restored.
  pub check_operation_iff :
      (tun_enabled : Bool) (op : Operation)
      → (check_operation platform statuses selections tun_enabled op true ≡ ok tt) ↔ (
          (is_tun_enable op ≡ true → tun_enabled ≡ true)
          × ((c : Capability) → needs tun_enabled op c ≡ true → IsReady op c))
  unfolding check_operation
  check_operation_iff tun_enabled op =
      let all_ready = ensure_all_iff op (needed_capabilities tun_enabled op) in
      let steps =
        >>_iff (fail_if (is_tun_enable op && not tun_enabled) _)
          (ensure_all platform statuses selections op (needed_capabilities tun_enabled op)) in
      let allowed = fail_if_iff (is_tun_enable op && not tun_enabled) _ in
      (
        (λ h. (
          implied (is_tun_enable op) tun_enabled (allowed.0 ((steps.0 h).0)),
          λ c t. all_ready.0 ((steps.0 h).1) c (has-needed_capabilities tun_enabled op c ∙ t),
        )),
        λ (a, b). steps.1 (
          allowed.1 (implies (is_tun_enable op) tun_enabled a),
          all_ready.1 (λ c t. b c (sym (has-needed_capabilities tun_enabled op c) ∙ t)),
        ),
      )

-- What an ordinary user may do needs no capability of the system.
pub requires_administrator-needs :
    (op : Operation) (tun_enabled : Bool) (c : Capability)
    → requires_administrator op ≡ false
    → needs tun_enabled op c ≡ false
unfolding requires_administrator required_capabilities
requires_administrator-needs op true c h = ground arith
requires_administrator-needs op false c h = ground arith
