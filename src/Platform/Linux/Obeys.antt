-- ===== src/Platform/Linux/Obeys.antt =====
-- The adapters of crates/xray-manager-platform/src/linux/adapters.rs for the firewall and the policy
-- routing, and the unit of crates/xray-manager-platform/src/templates.rs that puts the policy up, obey
-- the laws that the operations on TUN rely on.
use xrayctl.Common.{
  ℕ, ltb, String, ◌==◌, Bool, true, false, ◌&&◌, ◌≡◌, ◌∙◌, inl, inr, refl, ap, if◌then◌else◌,
}
use xrayctl.Core.Error.{Result, ok, err, is_ok}
use xrayctl.Core.Config.{ManagerConfig}
use xrayctl.Core.Config.Defaults.{default_config}
use xrayctl.Core.Backends.{Action}
use xrayctl.Core.Execution.{Operator}
use xrayctl.Core.Execution.Tun.{tun_service}
use xrayctl.Core.Execution.Networking.{Networking, with_firewall, with_routing, OrUndone, Started}
use xrayctl.Core.Execution.Networking as Core
use xrayctl.Platform.Linux.Commands.{Run}
use xrayctl.Platform.Linux.Tun.{
  TunInternalAction, policy_up, policy_down, firewall_up, firewall_down, routes_up, routes_down,
  run_tun_internal,
}
use xrayctl.Platform.Linux.Kernel.{Network, Family, with_table, Flushing, Laws, Moves}
use xrayctl.Platform.Linux.Policy.{Few, Routed, Cleared, ClearedDone}
use xrayctl.Platform.Linux.Internal.{Loaded, Up, Internal, take_firewall_down-Moves}
use xrayctl.Platform.Linux.Fulfilled.{run_tun_internal-Internal}

abbrev is_closed : Family → Bool
is_closed f = ltb 0 f.rules && f.closed

-- The network as the operations see it.
abbrev pub networking : Network → Networking
networking n = record {
  firewall = n.firewall;
  routing = is_closed n.ipv4 && is_closed n.ipv6;
  at_boot = n.at_boot;
}

is_closed-none : (f : Family) → f.rules ≡ 0 → is_closed f ≡ false
is_closed-none f h = ap (λ k. ltb 0 k && f.closed) h

Loaded-OrUndone :
    (n n' : Network) (r : Result (Unit {0}))
    → Loaded n r n'
    → OrUndone (with_firewall true) (with_firewall false) (networking n) r (networking n')
Loaded-OrUndone n n' (ok _) h = ap networking h
Loaded-OrUndone n n' (err e) (inl h) = inl (ap networking h)
Loaded-OrUndone n n' (err e) (inr h) = inr (ap networking h)

-- Without rules the routing is off, whatever routes are left.
Cleared-routing :
    (F : Type 0) (n n' : Network)
    → Cleared F n n'
    → networking n' ≡ with_routing false (networking n)
Cleared-routing F n n' h =
    ap (λ b. record (networking n') { routing = b && is_closed n'.ipv6 })
      (is_closed-none n'.ipv4 (ap (λ (m : Network). m.ipv4.rules) h.0))
    ∙ ap (λ (m : Network). record { firewall = m.firewall; routing = false; at_boot = m.at_boot })
        h.0

Routed-OrUndone :
    (F : Type 0) (n n' : Network) (r : Result (Unit {0}))
    → Routed F n r n'
    → OrUndone (with_routing true) (with_routing false) (networking n) r (networking n')
Routed-OrUndone F n n' (ok _) h = ap networking h
Routed-OrUndone F n n' (err e) h = inr (Cleared-routing F n n' h)

ClearedDone-OrUndone :
    (F : Type 0) (n n' : Network) (r : Result (Unit {0}))
    → ClearedDone F n r n'
    → OrUndone (with_routing false) (λ k. k) (networking n) r (networking n')
ClearedDone-OrUndone F n n' (ok _) h = Cleared-routing F n n' h
ClearedDone-OrUndone F n n' (err e) h = elim h [ ]

ClearedDone-is_ok :
    (F : Type 0) (n n' : Network) (r : Result (Unit {0})) → ClearedDone F n r n' → is_ok r ≡ true
ClearedDone-is_ok F n n' (ok _) h = refl
ClearedDone-is_ok F n n' (err e) h = elim h [ ]

Moves-OrUndone :
    (n n' : Network) (r : Result (Unit {0}))
    → Moves (with_table false) n r n'
    → OrUndone (with_firewall false) (λ k. k) (networking n) r (networking n')
Moves-OrUndone n n' (ok _) h = ap networking h
Moves-OrUndone n n' (err e) h = inl (ap networking h)

module _ {W : Type 0} (run : Run W) (write_temporary : String → Action W String) (rounds : ℕ)
    (is_active : W → Bool) (set_active : Bool → W → W) where
  abbrev act : TunInternalAction → ManagerConfig → Action W (Unit {0})
  act action c = run_tun_internal run write_temporary rounds action c

  abbrev pub activated : Result (Unit {0}) × W → Result (Unit {0}) × W
  activated (ok _, w) = (ok tt, set_active true w)
  activated (err e, w) = (err e, w)

  -- How systemd starts and stops the unit of the policy, a oneshot that remains after its exit: an
  -- active unit is not started again, and `ExecStop` is run of no other.
  abbrev pub start_policy : ManagerConfig → Action W (Unit {0})
  start_policy c w = if is_active w then (ok tt, w) else activated (act policy_up c w)

  abbrev stop_policy : ManagerConfig → Action W (Unit {0})
  stop_policy c w =
      if is_active w then (ok tt, set_active false (act policy_down c w).1) else (ok tt, w)

  abbrev for_policy :
      Action W (Unit {0}) → (String → Action W (Unit {0})) → String → Action W (Unit {0})
  for_policy action others service = if service == tun_service then action else others service

  -- The operator with `NftablesFirewallManager`, `IpRoutePolicyManager`, and the unit of the policy.
  abbrev pub with_linux : Operator W → Operator W
  with_linux o = record o {
    manager = record o.manager {
      backends = record o.manager.backends {
        disable_firewall = act firewall_down default_config;
        disable_routing = act routes_down;
        start = for_policy (start_policy o.manager.config) o.manager.backends.start;
        stop = for_policy (stop_policy o.manager.config) o.manager.backends.stop;
      };
    };
    operating = record o.operating {
      enable_firewall = act firewall_up;
      enable_routing = act routes_up;
    };
  }

  module _ (observe : W → Network) (o : Operator W) where
    abbrev seen : W → Networking
    seen w = networking (observe w)

    -- The laws of the commands for the configuration, as few rules in each world as one call
    -- removes, and that systemd keeps apart what it knows of its units.
    pub record Host : Type 0 where
      pub laws : Laws run write_temporary observe o.manager.config
      pub few : (w : W) → Few (observe w)
      pub keeps : (b : Bool) (w : W) → observe (set_active b w) ≡ observe w

    module _ (host : Host) where
      abbrev config : ManagerConfig
      config = o.manager.config

      abbrev F : Type 0
      F = Flushing run write_temporary observe config

      acted :
          (action : TunInternalAction) (w : W)
          → Internal F config config.tun.enabled action
              (observe w)
              (act action config w).0
              (observe (act action config w).1)
      acted action w =
          (run_tun_internal-Internal run write_temporary rounds observe config host.laws action
              (observe w) (host.few w)).given
            w refl

      -- `NftablesFirewallManager::disable` takes the default configuration.
      filter_down :
          (w : W)
          → Moves
              (with_table false)
              (observe w)
              (act firewall_down default_config w).0
              (observe (act firewall_down default_config w).1)
      unfolding run_tun_internal
      filter_down w =
          (take_firewall_down-Moves run write_temporary rounds observe config host.laws
              (observe w)).given
            w refl

      activated-Started :
          (n : Network) (outcome : Result (Unit {0}) × W)
          → Up F n outcome.0 (observe outcome.1)
          → Started (networking n) (activated outcome).0 (seen (activated outcome).1)
      activated-Started n (ok _, w) h = inr (ap networking (host.keeps true w) ∙ ap networking h)
      activated-Started n (err e, w) h = tt

      start_policy-Started :
          (w : W) (b : Bool)
          → Started
              (seen w)
              (if b then (ok tt, w) else activated (act policy_up config w)).0
              (seen (if b then (ok tt, w) else activated (act policy_up config w)).1)
      start_policy-Started w true = inl refl
      start_policy-Started w false =
          activated-Started (observe w) (act policy_up config w) (acted policy_up w)

      -- What the operations on TUN assume of the firewall, of the policy routing and of a start of the
      -- policy's service holds of the adapters of Linux and of the unit that runs the manager, if the
      -- commands obey their laws; and disabling the policy routing never fails. The policy routing is
      -- on if each family has a rule and its table a route of last resort. It is assumed that in no
      -- world are there more than 32 rules of a family, and that systemd runs what the unit names
      -- unless it is active.
      pub with_linux-Adapters :
          Core.Adapters (with_linux o) seen
          × ((w : W) → is_ok ((with_linux o).manager.backends.disable_routing config w).0 ≡ true)
      with_linux-Adapters = (
        record {
          enables_firewall = λ w. Loaded-OrUndone (observe w) _ _ (acted firewall_up w);
          enables_routing = λ w. Routed-OrUndone F (observe w) _ _ (acted routes_up w);
          disables_firewall = λ w. Moves-OrUndone (observe w) _ _ (filter_down w);
          disables_routing = λ w. ClearedDone-OrUndone F (observe w) _ _ (acted routes_down w);
          starts = λ w. start_policy-Started w (is_active w);
        },
        λ w. ClearedDone-is_ok F (observe w) _ _ (acted routes_down w),
      )
