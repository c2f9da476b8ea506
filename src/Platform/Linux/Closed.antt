-- ===== src/Platform/Linux/Closed.antt =====
-- What sequences of the actions of crates/xray-manager-platform/src/linux/mod.rs keep, as systemd
-- runs them.
use xrayctl.Common.{
  ℕ, ◌<◌, String, Bool, true, false, ◌&&◌, List, [], ◌∷◌, ◌≡◌, inl, inr, ◌∙◌, refl, sym, ap, subst,
  arith, all,
}
use xrayctl.Core.Error.{Result, ok, err}
use xrayctl.Core.Config.{ManagerConfig}
use xrayctl.Core.Backends.{Action}
use xrayctl.Platform.Linux.Commands.{Run}
use xrayctl.Platform.Linux.Tun.{
  TunInternalAction, policy_up, policy_down, firewall_up, firewall_down, routes_up, routes_down,
  attach, detach, is_attachment, run_tun_internal,
}
use xrayctl.Platform.Linux.Kernel.{Network, with_table, Flushing, Laws}
use xrayctl.Platform.Linux.Policy.{Few, shut}
use xrayctl.Platform.Linux.Internal.{unattached, attached_by, detached_by, Up, Lowered, Internal}
use xrayctl.Platform.Linux.Fulfilled.{run_tun_internal-Internal}

-- Marked packets go to a table that has a route of last resort.
abbrev pub IsClosed : Network → Type 0
IsClosed n =
    (n.firewall ≡ true)
    × (0 < n.ipv4.rules)
    × (n.ipv4.closed ≡ true)
    × (0 < n.ipv6.rules)
    × (n.ipv6.closed ≡ true)

-- A property that is not about the routes to the interface.
attached_by-keeps :
    (P : Network → Type 0) (enabled ipv6 : Bool) (n : Network)
    → ((m : Network) → P (unattached m) → P m)
    → P (unattached n)
    → P (attached_by enabled ipv6 n)
attached_by-keeps P false ipv6 n f h = f n h
attached_by-keeps P true false n f h = f (attached_by true false n) h
attached_by-keeps P true true n f h = f (attached_by true true n) h

detached_by-keeps :
    (P : Network → Type 0) (enabled ipv6 : Bool) (n : Network)
    → ((m : Network) → P (unattached m) → P m)
    → P (unattached n)
    → P (detached_by enabled ipv6 n)
detached_by-keeps P false ipv6 n f h = f n h
detached_by-keeps P true false n f h = f (detached_by true false n) h
detached_by-keeps P true true n f h = h

Internal-Few :
    (F : Type 0) (c : ManagerConfig) (enabled : Bool) (action : TunInternalAction) (n : Network)
    (r : Result (Unit {0})) (n' : Network)
    → Few n
    → Internal F c enabled action n r n'
    → Few n'
Internal-Few F c enabled policy_up n (ok _) n' few h = subst Few (sym h) (omega arith, omega arith)
Internal-Few F c enabled policy_up n (err e) n' few (inl h) = subst Few (sym h) few
Internal-Few F c enabled policy_up n (err e) n' few (inr (inl h)) = subst Few (sym h) few
Internal-Few F c enabled policy_up n (err e) n' few (inr (inr h)) =
    subst Few (sym h.0) (omega arith, omega arith)
Internal-Few F c enabled policy_down n (ok _) n' few h =
    subst Few (sym h.0) (omega arith, omega arith)
Internal-Few F c enabled policy_down n (err e) n' few h =
    subst Few (sym h.0) (omega arith, omega arith)
Internal-Few F c enabled firewall_up n (ok _) n' few h = subst Few (sym h) few
Internal-Few F c enabled firewall_up n (err e) n' few (inl h) = subst Few (sym h) few
Internal-Few F c enabled firewall_up n (err e) n' few (inr h) = subst Few (sym h) few
Internal-Few F c enabled firewall_down n (ok _) n' few h = subst Few (sym h) few
Internal-Few F c enabled firewall_down n (err e) n' few h = subst Few (sym h) few
Internal-Few F c enabled routes_up n (ok _) n' few h = subst Few (sym h) (omega arith, omega arith)
Internal-Few F c enabled routes_up n (err e) n' few h =
    subst Few (sym h.0) (omega arith, omega arith)
Internal-Few F c enabled routes_down n (ok _) n' few h =
    subst Few (sym h.0) (omega arith, omega arith)
Internal-Few F c enabled routes_down n (err e) n' few h = elim h [ ]
Internal-Few F c enabled attach n (ok _) n' few h =
    subst Few (sym h) (attached_by-keeps Few enabled c.tun.ipv6_enabled n (λ m q. q) few)
Internal-Few F c enabled attach n (err e) n' few h = subst Few (sym h) few
Internal-Few F c enabled detach n (ok _) n' few h =
    subst Few (sym h) (detached_by-keeps Few enabled c.tun.ipv6_enabled n (λ m q. q) few)
Internal-Few F c enabled detach n (err e) n' few h = elim h [ ]

attachment-IsClosed :
    (F : Type 0) (c : ManagerConfig) (enabled : Bool) (action : TunInternalAction) (n : Network)
    (r : Result (Unit {0})) (n' : Network)
    → is_attachment action ≡ true
    → IsClosed n
    → Internal F c enabled action n r n'
    → IsClosed n'
attachment-IsClosed F c enabled attach n (ok _) n' q closed h =
    subst IsClosed (sym h)
      (attached_by-keeps IsClosed enabled c.tun.ipv6_enabled n (λ m q. q) closed)
attachment-IsClosed F c enabled attach n (err e) n' q closed h = subst IsClosed (sym h) closed
attachment-IsClosed F c enabled detach n (ok _) n' q closed h =
    subst IsClosed (sym h)
      (detached_by-keeps IsClosed enabled c.tun.ipv6_enabled n (λ m q. q) closed)
attachment-IsClosed F c enabled detach n (err e) n' q closed h = elim h [ ]
attachment-IsClosed F c enabled policy_up n r n' q closed h = cc
attachment-IsClosed F c enabled policy_down n r n' q closed h = cc
attachment-IsClosed F c enabled firewall_up n r n' q closed h = cc
attachment-IsClosed F c enabled firewall_down n r n' q closed h = cc
attachment-IsClosed F c enabled routes_up n r n' q closed h = cc
attachment-IsClosed F c enabled routes_down n r n' q closed h = cc

Internal-IsClosed :
    (F : Type 0) (c : ManagerConfig) (n : Network) (r : Result (Unit {0})) (n' : Network)
    → r ≡ ok tt
    → Internal F c c.tun.enabled policy_up n r n'
    → IsClosed n'
Internal-IsClosed F c n (ok _) n' q h =
    subst IsClosed (sym h) (refl, omega arith, refl, omega arith, refl)
Internal-IsClosed F c n (err e) n' q h = cc

abbrev taken_down : Network → Network
taken_down n = with_table false (shut n)

Up-taken_down :
    (F : Type 0) (n : Network) (r : Result (Unit {0})) (n' : Network)
    → F
    → Up F n r n'
    → taken_down n' ≡ taken_down n
Up-taken_down F n (ok _) n' works h = ap taken_down h
Up-taken_down F n (err e) n' works (inl h) = ap taken_down h
Up-taken_down F n (err e) n' works (inr (inl h)) = ap taken_down h
Up-taken_down F n (err e) n' works (inr (inr h)) = ap taken_down (h.1 works)

-- A network that is restored, but that the firewall is left if there is an error.
abbrev pub Restored : Network → Result (Unit {0}) → Network → Type 0
Restored n (ok _) n' = n' ≡ n
Restored n (err e) n' = with_table false n' ≡ n

Lowered-Restored :
    (F : Type 0) (n k : Network) (r : Result (Unit {0})) (n' : Network)
    → F
    → taken_down k ≡ n
    → Lowered F k r n'
    → Restored n r n'
Lowered-Restored F n k (ok _) n' works q h = h.1 works ∙ q
Lowered-Restored F n k (err e) n' works q h = ap (with_table false) (h.1 works) ∙ q

&&-both : (a b : Bool) → a && b ≡ true → (a ≡ true) × (b ≡ true)
&&-both true b h = (refl, h)
&&-both false b h = cc

module _ {W : Type 0} (run : Run W) (write_temporary : String → Action W String) (rounds : ℕ)
    (c : ManagerConfig) where
  -- One action after the other, whatever each gives.
  unfoldable pub run_each : List TunInternalAction → W → W
  run_each [] w = w
  run_each (action ∷ actions) w =
      run_each actions (run_tun_internal run write_temporary rounds action c w).1

module _ {W : Type 0} (run : Run W) (write_temporary : String → Action W String) (rounds : ℕ)
    (observe : W → Network) (c : ManagerConfig) (laws : Laws run write_temporary observe c) where
  abbrev F : Type 0
  F = Flushing run write_temporary observe c

  abbrev act : TunInternalAction → W → W
  act action w = (run_tun_internal run write_temporary rounds action c w).1

  abbrev each : List TunInternalAction → W → W
  each = run_each run write_temporary rounds c

  acted :
      (action : TunInternalAction) (w : W)
      → Few (observe w)
      → Internal F c c.tun.enabled action
          (observe w)
          (run_tun_internal run write_temporary rounds action c w).0
          (observe (act action w))
  acted action w few =
      (run_tun_internal-Internal run write_temporary rounds observe c laws action (observe w)
          few).given
        w refl

  acted-Few : (action : TunInternalAction) (w : W) → Few (observe w) → Few (observe (act action w))
  acted-Few action w few =
      Internal-Few F c c.tun.enabled action (observe w) _ _ few (acted action w few)

  -- There are never more than 32 rules of a family, whatever the actions are and give, if there are
  -- not at first. The laws of `nft` and `ip` are assumed.
  pub run_each-Few :
      (actions : List TunInternalAction) (w : W) → Few (observe w) → Few (observe (each actions w))
  unfolding run_each
  run_each-Few [] w few = few
  run_each-Few (action ∷ actions) w few =
      run_each-Few actions (act action w) (acted-Few action w few)

  attached-IsClosed :
      (actions : List TunInternalAction) (w : W)
      → all is_attachment actions ≡ true
      → Few (observe w)
      → IsClosed (observe w)
      → IsClosed (observe (each actions w))
  unfolding run_each
  attached-IsClosed [] w h few closed = closed
  attached-IsClosed (action ∷ actions) w h few closed =
      let both = &&-both (is_attachment action) (all is_attachment actions) h in
      attached-IsClosed actions (act action w) both.1 (acted-Few action w few) (
        attachment-IsClosed F c c.tun.enabled action (observe w) _ _ both.0 closed
          (acted action w few))

  -- Once the policy has been put up, no sequence of attachments and detachments lets a marked packet
  -- past: of each family there is a rule that sends it to the table, and the table has a route of
  -- last resort, whatever each of them gives. The laws of `nft` and `ip` are assumed, and at most 32
  -- rules of each family at first.
  pub run_each-IsClosed :
      (actions : List TunInternalAction) (w : W)
      → Few (observe w)
      → (run_tun_internal run write_temporary rounds policy_up c w).0 ≡ ok tt
      → all is_attachment actions ≡ true
      → IsClosed
          (observe (each actions (run_tun_internal run write_temporary rounds policy_up c w).1))
  run_each-IsClosed actions w few q h =
      attached-IsClosed actions (act policy_up w) h (acted-Few policy_up w few)
        (Internal-IsClosed F c (observe w) _ _ q (acted policy_up w few))

  -- On a network without a firewall, rules or routes of the manager, the policy is put up, whether
  -- that succeeds or not, and taken down again. If taking it down reports no error, the network is as
  -- it was; if it reports one, it is so but for the firewall, which may be left. Each flush is assumed
  -- to succeed, or to find no route; otherwise the laws of `nft` and `ip` are assumed, by which a
  -- command that fails has no effect.
  pub policy_down-policy_up :
      (w : W)
      → Flushing run write_temporary observe c
      → observe w ≡ with_table false (shut (observe w))
      → Restored
          (observe w)
          (run_tun_internal run write_temporary rounds policy_down c (act policy_up w)).0
          (observe (each (policy_up ∷ policy_down ∷ []) w))
  unfolding run_each
  policy_down-policy_up w works h =
      let few : Few (observe w) = subst Few (sym h) (omega arith, omega arith) in
      Lowered-Restored F (observe w) (observe (act policy_up w)) _ _ works
        (Up-taken_down F (observe w) _ _ works (acted policy_up w few) ∙ sym h)
        (acted policy_down (act policy_up w) (acted-Few policy_up w few))
