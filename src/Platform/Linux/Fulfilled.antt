-- ===== src/Platform/Linux/Fulfilled.antt =====
-- `run_tun_internal` of crates/xray-manager-platform/src/linux/mod.rs does to the network what each
-- action is for.
use xrayctl.Common.{
  ℕ, String, Bool, true, false, not, ◌&&◌, ◌∙◌, inl, inr, refl, sym, ap, subst, if◌then◌else◌,
}
use xrayctl.Core.Error.{ManagerError, Result, ok, err}
use xrayctl.Core.Config.{ManagerConfig}
use xrayctl.Core.Backends.{Action}
use xrayctl.Platform.Linux.Commands.{◌>>=◌, return, attempt, Run, run_checked}
use xrayctl.Platform.Linux.Tun.{
  TunInternalAction, policy_up, policy_down, firewall_up, firewall_down, routes_up, routes_down,
  attach, detach, is_attachment, attach_args, detach_family, attach_tun, detach_tun,
  take_routes_down, take_firewall_down, take_policy_down, and, perform, run_tun_internal,
}
use xrayctl.Platform.Linux.Kernel.{
  Network, at_family, with_table, set_attached, Flushing, Laws, Gives, At, Moves, >>=-Gives,
  return-Gives, Gives-mono, attempted, on_error-Gives,
}
use xrayctl.Platform.Linux.Routes.{Done, bared, then_done, works_anyway, run_checked-Moves}
use xrayctl.Platform.Linux.Policy.{
  Few, Like, Routed, Cleared, ClearedDone, take_routes_down-ClearedDone, bring_routes_up-Routed,
}
use xrayctl.Platform.Linux.Internal.{
  unattached, detached_by, Loaded, Up, Lowered, Attached, Internal, deleted_route,
  take_firewall_down-Moves, bring_firewall_up-Loaded, waited,
}

Moves-Attached :
    (n : Network) (r : Result (Unit {0})) (n' : Network)
    → Moves (at_family true (set_attached true)) (at_family false (set_attached true) n) r n'
    → Attached true true n r n'
Moves-Attached n (ok _) n' h = h
Moves-Attached n (err e) n' h = ap unattached h

Loaded-Up :
    (F : Type 0) (n n' : Network) (e : ManagerError) → Loaded n (err e) n' → Up F n (err e) n'
Loaded-Up F n n' e (inl h) = inl h
Loaded-Up F n n' e (inr h) = inr (inl h)

-- The firewall is off, or left where it cannot be taken down.
abbrev Unfiltered : Type 0 → Network → Network → Type 0
Unfiltered F n n' = Cleared F (with_table false n) (with_table false n')

Moves-Unfiltered :
    (F : Type 0) (n k : Network) (r : Result (Unit {0})) (n' : Network)
    → Cleared F (with_table true n) k
    → Moves (with_table false) k r n'
    → Unfiltered F n n'
Moves-Unfiltered F n k (ok _) n' h q = (
  ap (λ m. with_table false (bared m)) q ∙ ap (with_table false) h.0,
  λ works. ap (with_table false) q ∙ ap (with_table false) (h.1 works),
)
Moves-Unfiltered F n k (err e) n' h q = (
  ap (λ m. with_table false (bared m)) q ∙ ap (with_table false) h.0,
  λ works. ap (with_table false) q ∙ ap (with_table false) (h.1 works),
)

Moves-Lowered :
    (F : Type 0) (n k : Network) (r : Result (Unit {0})) (n' : Network)
    → Cleared F n k
    → Moves (with_table false) k r n'
    → Lowered F n r n'
Moves-Lowered F n k (ok _) n' h q =
    (ap bared q ∙ ap (with_table false) h.0, λ works. q ∙ ap (with_table false) (h.1 works))
Moves-Lowered F n k (err e) n' h q = (ap bared q ∙ h.0, λ works. q ∙ h.1 works)

module _ {W : Type 0} (run : Run W) (write_temporary : String → Action W String) (rounds : ℕ)
    (observe : W → Network) (c : ManagerConfig) (laws : Laws run write_temporary observe c) where
  if-Attached :
      (n : Network) (b : Bool)
      → Gives observe
          (At (at_family false (set_attached true) n))
          (if b then run_checked run "ip" (attach_args true c.tun) else return (ok tt))
          (Attached true b n)
  if-Attached n true =
      Gives-mono
        (Moves (at_family true (set_attached true)) (at_family false (set_attached true) n))
        (run_checked-Moves run _ _ (at_family true (set_attached true)) _ (laws.attaches true))
        (Moves-Attached n)
  if-Attached n false = return-Gives (ok tt) (λ n' h. h)

  attach_tun-Attached :
      (n : Network)
      → Gives observe
          (At n)
          (attach_tun run write_temporary rounds c)
          (Attached true c.tun.ipv6_enabled n)
  unfolding attach_tun
  attach_tun-Attached n =
      >>=-Gives {Q = λ r. At n} (waited run write_temporary rounds observe c laws n rounds)
        (λ _.
          >>=-Gives {Q = Moves (at_family false (set_attached true)) n}
            (run_checked-Moves run _ _ (at_family false (set_attached true)) n
              (laws.attaches false))
            (λ _. if-Attached n c.tun.ipv6_enabled) (λ e n' h. ap unattached h))
        (λ e n' h. ap unattached h)

  detach_family-Done :
      (ipv6 : Bool) (n : Network)
      → Gives observe
          (At n)
          (detach_family run write_temporary rounds ipv6 c)
          (Done (at_family ipv6 (set_attached false) n))
  detach_family-Done ipv6 n = works_anyway _ (at_family ipv6 (set_attached false)) n (λ w.
      deleted_route ipv6 (observe w) _ _ (laws.detaches_present ipv6 w) (laws.detaches ipv6 w))

  if-Done :
      (b : Bool) (n : Network)
      → Gives observe
          (At (at_family false (set_attached false) n))
          (if b then detach_family run write_temporary rounds true c else return (ok tt))
          (Done (detached_by true b n))
  if-Done true n = detach_family-Done true (at_family false (set_attached false) n)
  if-Done false n = return-Gives (ok tt) (λ n' h. h)

  detach_tun-Done :
      (n : Network)
      → Gives observe
          (At n)
          (detach_tun run write_temporary rounds c)
          (Done (detached_by true c.tun.ipv6_enabled n))
  unfolding detach_tun
  detach_tun-Done n = then_done (detach_family-Done false n) (if-Done c.tun.ipv6_enabled n)

  abbrev F : Type 0
  F = Flushing run write_temporary observe c

  shutting :
      (n : Network)
      → Few n
      → Gives observe (At n) (take_routes_down run write_temporary rounds c) (ClearedDone F n)
  shutting n few = record {
    given = λ w h.
        (take_routes_down-ClearedDone run write_temporary rounds observe c laws n).given w
          (subst (Like n) (sym h) (few, refl));
  }

  -- The firewall is taken down from any network, with what that does.
  lowered :
      (P : Network → Type 0) (R : Result (Unit {0}) → Network → Type 0)
      → ((k : Network) (r : Result (Unit {0})) (n' : Network)
          → P k
          → Moves (with_table false) k r n'
          → R r n')
      → Gives observe P (take_firewall_down run write_temporary rounds) R
  lowered P R k = record {
    given = λ w h. k (observe w) _ _ h (
        (take_firewall_down-Moves run write_temporary rounds observe c laws (observe w)).given w
          refl);
  }

  then-Lowered :
      (n : Network) (route_result : Result (Unit {0}))
      → Gives observe
          (ClearedDone F n route_result)
          (attempt (take_firewall_down run write_temporary rounds) >>= λ firewall_result.
            return (and route_result firewall_result))
          (Lowered F n)
  then-Lowered n (ok x) =
      attempted (Lowered F n) (lowered (Cleared F n) (Lowered F n) (Moves-Lowered F n))
        (λ r. return-Gives r (λ n' h. h))
  then-Lowered n (err e) = record { given = λ w h. elim h [ ] }

  take_policy_down-Lowered :
      (n : Network)
      → Few n
      → Gives observe (At n) (take_policy_down run write_temporary rounds c) (Lowered F n)
  unfolding take_policy_down
  take_policy_down-Lowered n few = attempted (ClearedDone F n) (shutting n few) (then-Lowered n)

  perform-Up :
      (n : Network)
      → Few n
      → Gives observe (At n) (perform run write_temporary rounds policy_up c) (Up F n)
  perform-Up n few =
      >>=-Gives {Q = Loaded n}
        (bring_firewall_up-Loaded run write_temporary rounds observe c laws n)
        (λ _.
          on_error-Gives (Routed F (with_table true n)) (Unfiltered F n)
            (bring_routes_up-Routed run write_temporary rounds observe c laws (with_table true n)
              few)
            (λ x n' h. h)
            (λ e.
              lowered (Cleared F (with_table true n)) (λ r. Unfiltered F n) (Moves-Unfiltered F n))
            (λ e n' h. inr (inr h)))
        (λ e n' h. Loaded-Up F n n' e h)

  performed :
      (action : TunInternalAction) (n : Network)
      → Few n
      → Gives observe
          (At n)
          (perform run write_temporary rounds action c)
          (Internal F c true action n)
  performed policy_up n few = perform-Up n few
  performed policy_down n few = take_policy_down-Lowered n few
  performed firewall_up n few = bring_firewall_up-Loaded run write_temporary rounds observe c laws n
  performed firewall_down n few =
      take_firewall_down-Moves run write_temporary rounds observe c laws n
  performed routes_up n few = bring_routes_up-Routed run write_temporary rounds observe c laws n few
  performed routes_down n few = shutting n few
  performed attach n few = attach_tun-Attached n
  performed detach n few = detach_tun-Done n

  performed_if :
      (enabled : Bool) (action : TunInternalAction) (n : Network)
      → Few n
      → Gives observe
          (At n)
          (if not enabled && is_attachment action
            then return (ok tt)
            else perform run write_temporary rounds action c)
          (Internal F c enabled action n)
  performed_if true action n few = performed action n few
  performed_if false policy_up n few = performed policy_up n few
  performed_if false policy_down n few = performed policy_down n few
  performed_if false firewall_up n few = performed firewall_up n few
  performed_if false firewall_down n few = performed firewall_down n few
  performed_if false routes_up n few = performed routes_up n few
  performed_if false routes_down n few = performed routes_down n few
  performed_if false attach n few = return-Gives (ok tt) (λ n' h. h)
  performed_if false detach n few = return-Gives (ok tt) (λ n' h. h)

  pub run_tun_internal-Internal :
      (action : TunInternalAction) (n : Network)
      → Few n
      → Gives observe
          (At n)
          (run_tun_internal run write_temporary rounds action c)
          (Internal F c c.tun.enabled action n)
  unfolding run_tun_internal
  run_tun_internal-Internal action n few = performed_if c.tun.enabled action n few
