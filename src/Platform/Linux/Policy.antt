-- ===== src/Platform/Linux/Policy.antt =====
-- Putting up and taking down the policy routing of crates/xray-manager-platform/src/linux/mod.rs.
use xrayctl.Common.{
  ℕ, suc, ◌-◌, ◌≤◌, String, Bool, true, false, ◌≡◌, ◌∙◌, refl, sym, ap, subst, arith,
}
use xrayctl.Core.Error.{Result, ok, err}
use xrayctl.Core.Config.{ManagerConfig}
use xrayctl.Core.Backends.{Action}
use xrayctl.Platform.Linux.Commands.{Run, ◌>>◌}
use xrayctl.Platform.Linux.Tun.{flush, take_routes_down, close_family, bring_routes_up}
use xrayctl.Platform.Linux.Kernel.{
  Family, Network, at_family, drop, add_rule, close, flushed, Laws, Gives, At, Moves, >>=-Gives,
  Gives-mono, on_error-Gives,
}
use xrayctl.Platform.Linux.Routes.{
  bared, BaredDone, Flushes, then_done, run_checked-Moves, remove_rule-Done, flush-Bared,
}

-- As many rules as one call of `remove_rule` removes.
abbrev pub Few : Network → Type 0
Few n = (n.ipv4.rules ≤ 32) × (n.ipv6.rules ≤ 32)

abbrev bare : Family
bare = record { rules = 0; closed = false; attached = false }

-- The network without rules, and without routes in the table.
abbrev pub shut : Network → Network
shut n = record n { ipv4 = bare; ipv6 = bare }

-- The family with one rule and the route of last resort.
abbrev pub fresh : Family → Family
fresh f = record f { rules = 1; closed = true }

abbrev pub routed : Network → Network
routed n = record n { ipv4 = fresh n.ipv4; ipv6 = fresh n.ipv6 }

-- The same but for the routes and rules, of which there are few.
abbrev pub Like : Network → Network → Type 0
Like n n' = Few n' × (shut n' ≡ shut n)

abbrev down : Network → Network
down n =
    at_family true flushed
      (at_family false flushed (at_family true (drop 32) (at_family false (drop 32) n)))

abbrev emptied : Network → ℕ → ℕ → Network
emptied n k l = record n {
  ipv4 = record { rules = k; closed = false; attached = false };
  ipv6 = record { rules = l; closed = false; attached = false };
}

none_over : (k : ℕ) → k ≤ 32 → k - 32 ≡ 0
none_over k h = omega arith

few_over : (k : ℕ) → k ≤ 32 → k - 32 ≤ 32
few_over k h = omega arith

few_added : (k : ℕ) → k ≤ 32 → suc (k - 32) ≤ 32
few_added k h = omega arith

pub down-Few : (n : Network) → Few n → down n ≡ shut n
down-Few n few =
    ap (λ k. emptied n k (n.ipv6.rules - 32)) (none_over n.ipv4.rules few.0)
    ∙ ap (emptied n 0) (none_over n.ipv6.rules few.1)

-- One family is closed, or what there is can be taken down.
abbrev Closes : Bool → Network → Result (Unit {0}) → Network → Type 0
Closes ipv6 n (ok _) n' = n' ≡ at_family ipv6 fresh n
Closes ipv6 n (err e) n' = Like n n'

closed_by :
    (ipv6 : Bool) (n : Network) (few : Few n) (r : Result (Unit {0})) (n' : Network)
    → Moves (at_family ipv6 close) (at_family ipv6 add_rule (at_family ipv6 (drop 32) n)) r n'
    → Closes ipv6 n r n'
closed_by true n few (ok _) n' h =
    h
    ∙ ap (λ k. at_family true (λ f. record f { rules = suc k; closed = true }) n)
        (none_over n.ipv6.rules few.1)
closed_by false n few (ok _) n' h =
    h
    ∙ ap (λ k. at_family false (λ f. record f { rules = suc k; closed = true }) n)
        (none_over n.ipv4.rules few.0)
closed_by true n few (err e) n' h =
    subst (Like n) (sym h) ((few.0, few_added n.ipv6.rules few.1), refl)
closed_by false n few (err e) n' h =
    subst (Like n) (sym h) ((few_added n.ipv4.rules few.0, few.1), refl)

emptied_by :
    (ipv6 : Bool) (n : Network) (few : Few n) (n' : Network)
    → n' ≡ at_family ipv6 (drop 32) n
    → Like n n'
emptied_by true n few n' h = subst (Like n) (sym h) ((few.0, few_over n.ipv6.rules few.1), refl)
emptied_by false n few n' h = subst (Like n) (sym h) ((few_over n.ipv4.rules few.0, few.1), refl)

-- Both families are closed, or what there is can be taken down.
abbrev Begun : Network → Result (Unit {0}) → Network → Type 0
Begun n (ok _) n' = n' ≡ routed n
Begun n (err e) n' = Like n n'

Closes-Begun :
    (n : Network) (r : Result (Unit {0})) (n' : Network)
    → Closes true (at_family false fresh n) r n'
    → Begun n r n'
Closes-Begun n (ok _) n' h = h
Closes-Begun n (err e) n' h = h

-- The network without rules, and without routes in the table if no flush fails.
abbrev pub Cleared : Type 0 → Network → Network → Type 0
Cleared F n n' = (bared n' ≡ shut n) × (F → n' ≡ shut n)

abbrev pub ClearedDone : Type 0 → Network → Result (Unit {0}) → Network → Type 0
ClearedDone F n (ok _) n' = Cleared F n n'
ClearedDone F n (err e) n' = ⊥

pub ClearedDone-Cleared :
    (F : Type 0) (n : Network) (r : Result (Unit {0})) (n' : Network)
    → ClearedDone F n r n'
    → Cleared F n n'
ClearedDone-Cleared F n (ok _) n' h = h
ClearedDone-Cleared F n (err e) n' h = elim h [ ]

BaredDone-ClearedDone :
    (F : Type 0) (n k m : Network) (r : Result (Unit {0})) (n' : Network)
    → bared k ≡ shut n
    → m ≡ shut n
    → BaredDone F k m r n'
    → ClearedDone F n r n'
BaredDone-ClearedDone F n k m (ok _) n' p q h = (h.0 ∙ p, λ works. h.1 works ∙ q)
BaredDone-ClearedDone F n k m (err e) n' p q h = h

abbrev pub Routed : Type 0 → Network → Result (Unit {0}) → Network → Type 0
Routed F n (ok _) n' = n' ≡ routed n
Routed F n (err e) n' = Cleared F n n'

module _ {W : Type 0} (run : Run W) (write_temporary : String → Action W String) (rounds : ℕ)
    (observe : W → Network) (c : ManagerConfig) (laws : Laws run write_temporary observe c) where
  abbrev F : Type 0
  F = Flushes run write_temporary rounds observe c laws

  abbrev emptied_rules : Network → Network
  emptied_rules n = at_family true (drop 32) (at_family false (drop 32) n)

  flushed_both :
      (n : Network)
      → Gives observe
          (At n)
          (flush run write_temporary rounds false c >> flush run write_temporary rounds true c)
          (BaredDone F n (bared n))
  flushed_both n =
      >>=-Gives {Q = BaredDone F n (at_family false flushed n)}
        (record {
          given = λ w h.
              (flush-Bared run write_temporary rounds observe c laws false n n).given w
                (ap bared h, λ works. h);
        })
        (λ _. flush-Bared run write_temporary rounds observe c laws true n _) (λ e n' h. elim h [ ])

  down-BaredDone :
      (n : Network)
      → Gives observe
          (At n)
          (take_routes_down run write_temporary rounds c)
          (BaredDone F (emptied_rules n) (down n))
  unfolding take_routes_down
  down-BaredDone n =
      then_done (remove_rule-Done run write_temporary rounds observe c laws false n) (
        then_done (remove_rule-Done run write_temporary rounds observe c laws true _)
          (flushed_both (emptied_rules n)))

  pub take_routes_down-ClearedDone :
      (n : Network)
      → Gives observe (Like n) (take_routes_down run write_temporary rounds c) (ClearedDone F n)
  take_routes_down-ClearedDone n = record {
    given = λ w h.
        let cleared : down (observe w) ≡ shut n = down-Few (observe w) h.0 ∙ h.1 in
        BaredDone-ClearedDone F n (emptied_rules (observe w)) (down (observe w)) _ _ cleared cleared
          ((down-BaredDone (observe w)).given w refl);
  }

  close_family-Closes :
      (ipv6 : Bool) (n : Network)
      → Few n
      → Gives observe (At n) (close_family run write_temporary rounds ipv6 c) (Closes ipv6 n)
  unfolding close_family
  close_family-Closes ipv6 n few =
      then_done (remove_rule-Done run write_temporary rounds observe c laws ipv6 n) (
        >>=-Gives {Q = Moves (at_family ipv6 add_rule) (at_family ipv6 (drop 32) n)}
          (run_checked-Moves run _ _ (at_family ipv6 add_rule) _ (laws.adds_rule ipv6))
          (λ _.
            Gives-mono _ (run_checked-Moves run _ _ (at_family ipv6 close) _ (laws.closes ipv6))
              (closed_by ipv6 n few))
          (λ e n' h. emptied_by ipv6 n few n' h))

  pub bring_routes_up-Routed :
      (n : Network)
      → Few n
      → Gives observe (At n) (bring_routes_up run write_temporary rounds c) (Routed F n)
  unfolding bring_routes_up
  bring_routes_up-Routed n few =
      on_error-Gives (Begun n) (Cleared F n)
        (>>=-Gives {Q = Closes false n} (close_family-Closes false n few)
          (λ _.
            Gives-mono _ (close_family-Closes true (at_family false fresh n) (omega arith, few.1))
              (Closes-Begun n))
          (λ e n' h. h))
        (λ x n' h. h)
        (λ e.
          Gives-mono (ClearedDone F n) (take_routes_down-ClearedDone n) (ClearedDone-Cleared F n))
        (λ e n' h. h)
