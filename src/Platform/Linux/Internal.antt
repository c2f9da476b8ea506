-- ===== src/Platform/Linux/Internal.antt =====
-- What the actions of crates/xray-manager-platform/src/linux/mod.rs do to the network; the firewall,
-- and the wait for the interface.
use xrayctl.Common.{
  ℕ, zero, suc, String, Bool, true, false, ◌≡◌, ◌⊎◌, inl, inr, ◌∙◌, sym, ap, if◌then◌else◌,
}
use xrayctl.Core.Error.{Result, ok, err}
use xrayctl.Core.Config.{ManagerConfig}
use xrayctl.Core.Backends.{Action}
use xrayctl.Platform.Linux.Commands.{CommandOutput, succeeded, return, Run, run_checked}
use xrayctl.Platform.Linux.Tun.{
  TunInternalAction, policy_up, policy_down, firewall_up, firewall_down, routes_up, routes_down,
  attach, detach, delete_args, take_firewall_down, bring_firewall_up, wait_for_link, look_for_link,
}
use xrayctl.Platform.Linux.Kernel.{
  Network, family, Gives-mono, at_family, with_table, set_attached, Effect, Laws, Gives, At, Moves,
  >>=-Gives, return-Gives, on_error-Gives, if-Gives,
}
use xrayctl.Platform.Linux.Routes.{Done, run_checked-Moves}
use xrayctl.Platform.Linux.Policy.{routed, Routed, Cleared, ClearedDone}

-- The network but for the routes to the interface.
abbrev pub unattached : Network → Network
unattached n = at_family true (set_attached false) (at_family false (set_attached false) n)

abbrev pub Unmoved : Network → Network → Type 0
Unmoved n n' = unattached n' ≡ unattached n

-- The network with a route to the interface, if TUN is enabled, and for IPv6 if that is.
abbrev pub attached_by : Bool → Bool → Network → Network
attached_by false ipv6 n = n
attached_by true false n = at_family false (set_attached true) n
attached_by true true n = at_family true (set_attached true) (at_family false (set_attached true) n)

abbrev pub detached_by : Bool → Bool → Network → Network
detached_by false ipv6 n = n
detached_by true false n = at_family false (set_attached false) n
detached_by true true n = unattached n

abbrev pub Loaded : Network → Result (Unit {0}) → Network → Type 0
Loaded n (ok _) n' = n' ≡ with_table true n
Loaded n (err e) n' = (n' ≡ n) ⊎ (n' ≡ with_table false n)

-- Where the routes have been taken down, the firewall may be left, if that could not.
abbrev pub Up : Type 0 → Network → Result (Unit {0}) → Network → Type 0
Up F n (ok _) n' = n' ≡ with_table true (routed n)
Up F n (err e) n' =
    (n' ≡ n) ⊎ ((n' ≡ with_table false n) ⊎ Cleared F (with_table false n) (with_table false n'))

-- An error is that of the firewall, which is left.
abbrev pub Lowered : Type 0 → Network → Result (Unit {0}) → Network → Type 0
Lowered F n (ok _) n' = Cleared F (with_table false n) n'
Lowered F n (err e) n' = Cleared F n n'

abbrev pub Attached : Bool → Bool → Network → Result (Unit {0}) → Network → Type 0
Attached enabled ipv6 n (ok _) n' = n' ≡ attached_by enabled ipv6 n
Attached enabled ipv6 n (err e) n' = Unmoved n n'

-- What each action does to the network, from the result that it gives, and from whether flushes work.
abbrev pub Internal :
    Type 0
    → ManagerConfig
    → Bool
    → TunInternalAction
    → Network
    → Result (Unit {0})
    → Network
    → Type 0
Internal F c enabled policy_up n r n' = Up F n r n'
Internal F c enabled policy_down n r n' = Lowered F n r n'
Internal F c enabled firewall_up n r n' = Loaded n r n'
Internal F c enabled firewall_down n r n' = Moves (with_table false) n r n'
Internal F c enabled routes_up n r n' = Routed F n r n'
Internal F c enabled routes_down n r n' = ClearedDone F n r n'
Internal F c enabled attach n r n' = Attached enabled c.tun.ipv6_enabled n r n'
Internal F c enabled detach n r n' = Done (detached_by enabled c.tun.ipv6_enabled n) r n'

set_attached_self :
    (ipv6 : Bool) (n : Network)
    → (family ipv6 n).attached ≡ false
    → n ≡ at_family ipv6 (set_attached false) n
set_attached_self true n h = ap (λ b. at_family true (set_attached b) n) h
set_attached_self false n h = ap (λ b. at_family false (set_attached b) n) h

-- A route to the interface is deleted, or there was none.
pub deleted_route :
    (ipv6 : Bool) (n n' : Network) (b : Bool)
    → b ≡ (family ipv6 n).attached
    → Effect (at_family ipv6 (set_attached false)) n b n'
    → n' ≡ at_family ipv6 (set_attached false) n
deleted_route ipv6 n n' true h e = e
deleted_route ipv6 n n' false h e = e ∙ set_attached_self ipv6 n (sym h)

off_again :
    (n : Network) (r : Result (Unit {0})) (n' : Network)
    → Moves (with_table false) (with_table false n) r n'
    → n' ≡ with_table false n
off_again n (ok _) n' h = h
off_again n (err e) n' h = h

taken_down : (n : Network) → n.firewall ≡ false → n ≡ with_table false n
taken_down n h = ap (λ b. with_table b n) h

module _ {W : Type 0} (run : Run W) (write_temporary : String → Action W String) (rounds : ℕ)
    (observe : W → Network) (c : ManagerConfig) (laws : Laws run write_temporary observe c) where
  unseen :
      {T : Type 0} (action : Action W T) (n : Network)
      → ((w : W) → observe (action w).1 ≡ observe w)
      → Gives observe (At n) action (λ r. At n)
  unseen action n q = record { given = λ w h. q w ∙ h }

  deleted :
      (n : Network) (b : Bool)
      → b ≡ n.firewall
      → Gives observe
          (At n)
          (if b then run_checked run "nft" delete_args else return (ok tt))
          (Moves (with_table false) n)
  deleted n true h = run_checked-Moves run _ _ (with_table false) n laws.deletes
  deleted n false h = return-Gives (ok tt) (λ n' q. q ∙ taken_down n (sym h))

  abbrev Listed : Network → Result CommandOutput → Network → Type 0
  Listed n r n' = (n' ≡ n) × (succeeded r ≡ n.firewall)

  pub take_firewall_down-Moves :
      (n : Network)
      → Gives observe
          (At n)
          (take_firewall_down run write_temporary rounds)
          (Moves (with_table false) n)
  unfolding take_firewall_down
  take_firewall_down-Moves n =
      >>=-Gives {Q = Listed n}
        (record {
          given =
              λ w h. (laws.lists w ∙ h, laws.lists_table w ∙ ap (λ (k : Network). k.firewall) h);
        })
        (λ output. record { given = λ w h. (deleted n (succeeded (ok output)) h.1).given w h.0 })
        (λ e n' h. h.0)

  pub bring_firewall_up-Loaded :
      (n : Network)
      → Gives observe (At n) (bring_firewall_up run write_temporary rounds c) (Loaded n)
  unfolding bring_firewall_up
  bring_firewall_up-Loaded n =
      >>=-Gives {Q = λ r. At n} (unseen _ n laws.finds_group)
        (λ gid_output.
          >>=-Gives {Q = λ r. At n} (return-Gives _ (λ n' h. h))
            (λ gid.
              >>=-Gives {Q = λ r. At n} (unseen _ n (laws.writes _))
                (λ file.
                  >>=-Gives {Q = Moves (with_table false) n} (take_firewall_down-Moves n)
                    (λ _.
                      on_error-Gives (Moves (with_table true) (with_table false n))
                        (At (with_table false n))
                        (run_checked-Moves run _ _ (with_table true) _ (laws.loads file))
                        (λ x n' h. h)
                        (λ e.
                          Gives-mono (Moves (with_table false) (with_table false n))
                            (take_firewall_down-Moves (with_table false n)) (off_again n))
                        (λ e n' h. inr h))
                    (λ e n' h. inl h))
                (λ e n' h. inl h))
            (λ e n' h. inl h))
        (λ e n' h. inl h)

  looked :
      (n : Network) {otherwise : Action W (Unit {0})}
      → Gives observe (At n) otherwise (λ r. At n)
      → Gives observe (At n) (look_for_link run write_temporary rounds c otherwise) (λ r. At n)
  looked n g =
      >>=-Gives {Q = λ r. At n} (unseen _ n laws.shows_link)
        (λ output. if-Gives _ (return-Gives (ok tt) (λ n' h. h)) g) (λ e n' h. h)

  pub waited :
      (n : Network) (m : ℕ)
      → Gives observe (At n) (wait_for_link run write_temporary rounds m c) (λ r. At n)
  unfolding wait_for_link
  waited n zero = looked n (return-Gives _ (λ n' h. h))
  waited n (suc m) = looked n (waited n m)
