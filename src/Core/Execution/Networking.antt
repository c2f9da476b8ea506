-- ===== src/Core/Execution/Networking.antt =====
-- The firewall and the policy routing after the operations on TUN.
use xrayctl.Common.{Bool, true, false, ◌≡◌, ◌⊎◌, ◌∙◌, inl, inr, refl, sym, ap, subst}
use xrayctl.Core.Error.{ManagerError, Result, ok, err, is_ok}
use xrayctl.Core.Domain.{ManagerState}
use xrayctl.Core.Backends.{Action}
use xrayctl.Core.Backends.Tasks.{Service, Task, ◌>>◌, return, ignore, call, on_error}
use xrayctl.Core.Application.Steps.{Gives, At, view}
use xrayctl.Core.Application.Given.{
  ignore-Gives, >>=-Gives, on_error-Gives, return-Gives, ignored_then,
}
use xrayctl.Core.Execution.{Operator}
use xrayctl.Core.Execution.Tun.{
  tun_service, firewall_off, undo_networking, undo_service, enable_tun,
}

pub record Networking : Type 0 where
  pub firewall : Bool
  pub routing : Bool
  -- Whether the service of the policy is started at the next boot.
  pub at_boot : Bool

abbrev pub Seen : Type 0
Seen = Networking × ManagerState

abbrev pub with_firewall : Bool → Networking → Networking
with_firewall b n = record n { firewall = b }

abbrev pub with_routing : Bool → Networking → Networking
with_routing b n = record n { routing = b }

abbrev pub with_boot : Bool → Networking → Networking
with_boot b n = record n { at_boot = b }

-- A call that succeeds and has its effect, or fails and has none, or that of its undoing.
abbrev pub OrUndone :
    (Networking → Networking)
    → (Networking → Networking)
    → Networking
    → Result (Unit {0})
    → Networking
    → Type 0
OrUndone effect undo n (ok _) n' = n' ≡ effect n
OrUndone effect undo n (err e) n' = (n' ≡ n) ⊎ (n' ≡ undo n)

-- The same of what is seen.
abbrev seen_by : (Networking → Networking) → Seen → Seen
seen_by effect v = (effect v.0, v.1)

abbrev Either : Seen → Seen → Seen → Type 0
Either v u w = (w ≡ v) ⊎ (w ≡ u)

abbrev After :
    (Networking → Networking) → (Networking → Networking) → Seen → Result (Unit {0}) → Seen → Type 0
After effect undo v (ok _) u = u ≡ seen_by effect v
After effect undo v (err e) u = Either v (seen_by undo v) u

-- How enabling TUN can end, from what was seen before.
abbrev pub Enabled : Seen → Result (Unit {0}) → Seen → Type 0
Enabled v (ok _) u =
    (u.0.firewall ≡ true) × (u.0.routing ≡ true) × (u.0.at_boot ≡ true) × (u.1 ≡ v.1)
Enabled v (err e) u =
    (u ≡ v)
    ⊎ ((u.0.firewall ≡ false) × ((u.0.routing ≡ false) ⊎ (u.0.routing ≡ v.0.routing)) × (u.1 ≡ v.1))

-- The service of the policy after a start that succeeds.
abbrev pub Started : Networking → Result (Unit {0}) → Networking → Type 0
Started n (ok _) n' = (n' ≡ n) ⊎ (n' ≡ with_firewall true (with_routing true n))
Started n (err e) n' = Unit

abbrev pub Restarted : Networking → Result (Unit {0}) → Networking → Type 0
Restarted n (ok _) n' = n' ≡ n
Restarted n (err e) n' = Unit

module _ {W : Type 0} (o : Operator W) (observe : W → Networking) where
  abbrev pub Sets :
      (Networking → Networking) → (Networking → Networking) → Action W (Unit {0}) → Type 0
  Sets effect undo action =
      (w : W) → OrUndone effect undo (observe w) (action w).0 (observe (action w).1)

  -- A call that succeeds disables, and one that fails changes nothing.
  abbrev pub Disables : (Networking → Networking) → Action W (Unit {0}) → Type 0
  Disables effect action =
      (w : W) → OrUndone effect (λ n. n) (observe w) (action w).0 (observe (action w).1)

  -- Enabling works, does nothing, or leaves off what it was to enable. The service of the policy, when
  -- it is started, finds that it is active or puts the policy up; whatever a start that fails leaves
  -- is open, and so is what stopping it does.
  pub record Adapters : Type 0 where
    pub enables_firewall :
        Sets
          (with_firewall true)
          (with_firewall false)
          (o.operating.enable_firewall o.manager.config)
    pub enables_routing :
        Sets (with_routing true) (with_routing false) (o.operating.enable_routing o.manager.config)
    pub disables_firewall : Disables (with_firewall false) o.manager.backends.disable_firewall
    pub disables_routing :
        Disables (with_routing false) (o.manager.backends.disable_routing o.manager.config)
    pub starts :
        (w : W)
        → Started
            (observe w)
            (o.manager.backends.start tun_service w).0
            (observe (o.manager.backends.start tun_service w).1)

  -- What is assumed of the services beside. Xray's own unit only attaches and detaches TUN.
  pub record Services : Type 0 where
    pub enables_service :
        Sets (with_boot true) (with_boot false) (o.manager.backends.enable tun_service)
    pub restarts :
        (w : W)
        → Restarted
            (observe w)
            (o.manager.backends.restart "xray.service" w).0
            (observe (o.manager.backends.restart "xray.service" w).1)

  abbrev Works : Action W (Unit {0}) → Type 0
  Works action = (w : W) → is_ok (action w).0 ≡ true

  -- The calls that undo succeed.
  pub record Undoing : Type 0 where
    pub firewall_off : Works o.manager.backends.disable_firewall
    pub routing_off : Works (o.manager.backends.disable_routing o.manager.config)

seen_after :
    (effect undo : Networking → Networking) (n n' : Networking) (x : ManagerState)
    (r : Result (Unit {0}))
    → OrUndone effect undo n r n'
    → After effect undo (n, x) r (n', x)
seen_after effect undo n n' x (ok _) h = ap (λ k. (k, x)) h
seen_after effect undo n n' x (err e) (inl h) = inl (ap (λ k. (k, x)) h)
seen_after effect undo n n' x (err e) (inr h) = inr (ap (λ k. (k, x)) h)

-- A call that leaves what is seen if it succeeds; otherwise only the state in memory.
abbrev Loose : Seen → Result (Unit {0}) → Seen → Type 0
Loose v (ok _) u = u ≡ v
Loose v (err e) u = u.1 ≡ v.1

Started-Loose :
    (n n' : Networking) (x : ManagerState) (r : Result (Unit {0}))
    → with_firewall true (with_routing true n) ≡ n
    → Started n r n'
    → Loose (n, x) r (n', x)
Started-Loose n n' x (ok _) up (inl h) = ap (λ k. (k, x)) h
Started-Loose n n' x (ok _) up (inr h) = ap (λ k. (k, x)) (h ∙ up)
Started-Loose n n' x (err e) up h = refl

Restarted-Loose :
    (n n' : Networking) (x : ManagerState) (r : Result (Unit {0}))
    → Restarted n r n'
    → Loose (n, x) r (n', x)
Restarted-Loose n n' x (ok _) h = ap (λ k. (k, x)) h
Restarted-Loose n n' x (err e) h = refl

taken :
    (effect : Networking → Networking) (n n' : Networking) (r : Result (Unit {0}))
    → is_ok r ≡ true
    → OrUndone effect (λ k. k) n r n'
    → n' ≡ effect n
taken effect n n' (ok _) q h = h
taken effect n n' (err e) q h = cc

-- All is off that was to be enabled, but for the start at boot.
abbrev IsOff : Seen → Seen → Type 0
IsOff v u = (u.0.firewall ≡ false) × (u.0.routing ≡ false) × (u.1 ≡ v.1)

off-Enabled : (v w : Seen) (e : ManagerError) → IsOff v w → Enabled v (err e) w
off-Enabled v w e h = inr (h.0, inl h.1, h.2)

Either-Enabled :
    (v w : Seen) (e : ManagerError)
    → Either v (seen_by (with_firewall false) v) w
    → Enabled v (err e) w
Either-Enabled v w e (inl h) = inl h
Either-Enabled v w e (inr h) = subst (Enabled v (err e)) (sym h) (inr (refl, inr refl, refl))

-- A stage that fails is undone, and one that succeeds goes on.
abbrev Stage : Seen → Seen → Result (Unit {0}) → Seen → Type 0
Stage v u (ok _) w = w ≡ u
Stage v u (err e) w = Enabled v (err e) w

-- What a handler does, from anything that is seen.
abbrev Undoes : {W : Type 0} → (W → Networking) → (Seen → Seen) → Task W (Unit {0}) → Type 0
Undoes observe undone handler = (u : Seen) → Gives observe (At u) handler (λ r. At (undone u))

module _ {W : Type 0} {observe : W → Networking} where
  call-After :
      (effect undo : Networking → Networking) (action : Action W (Unit {0})) (v : Seen)
      → ((w : W) → OrUndone effect undo (observe w) (action w).0 (observe (action w).1))
      → Gives observe (At v) (call action) (After effect undo v)
  unfolding call
  call-After effect undo action v h = record {
    given = λ s e.
        subst
          (λ (u : Seen).
            After effect undo u (action s.world).0 (observe (action s.world).1, s.state))
          e
          (seen_after effect undo (observe s.world) (observe (action s.world).1) s.state
            (action s.world).0 (h s.world));
  }

  Either-Gives :
      (v u : Seen) (R : Result (Unit {0}) → Seen → Type 0) {task : Task W (Unit {0})}
      → Gives observe (At v) task R
      → Gives observe (At u) task R
      → Gives observe (Either v u) task R
  Either-Gives v u R g k = record {
    given = λ s h. elim h [ inl q ↦ g.given s q | inr q ↦ k.given s q ];
  }

  call-Takes :
      (effect : Networking → Networking) (action : Action W (Unit {0})) (v : Seen)
      → ((w : W) → observe (action w).1 ≡ effect (observe w))
      → Gives observe (At v) (call action) (λ r. At (effect v.0, v.1))
  unfolding call
  call-Takes effect action v h = record {
    given = λ s e.
        ap (λ (n : Networking). (n, s.state)) (h s.world) ∙ ap (λ (u : Seen). (effect u.0, u.1)) e;
  }

  handled_at :
      (u : Seen) (undone : Seen → Seen) (R : Result (Unit {0}) → Seen → Type 0)
      (handler : Task W (Unit {0})) (e : ManagerError)
      → Undoes observe undone handler
      → ((f : ManagerError) → R (err f) (undone u))
      → Gives observe (At u) (handler >> return (err e)) R
  handled_at u undone R handler e h ends =
      >>=-Gives {Q = λ r. At (undone u)} (h u)
        (λ _. return-Gives (err e) (λ y q. subst (R (err e)) (sym q) (ends e)))
        (λ f y q. subst (R (err f)) (sym q) (ends f))

  handled :
      (u w : Seen) (undone : Seen → Seen) (R : Result (Unit {0}) → Seen → Type 0)
      (handler : Task W (Unit {0})) (e : ManagerError)
      → Undoes observe undone handler
      → ((f : ManagerError) → R (err f) (undone u))
      → ((f : ManagerError) → R (err f) (undone w))
      → Gives observe (Either u w) (handler >> return (err e)) R
  handled u w undone R handler e h ends ends' =
      Either-Gives u w R (handled_at u undone R handler e h ends)
        (handled_at w undone R handler e h ends')

  staged :
      (v u : Seen) (effect undo : Networking → Networking) (undone : Seen → Seen)
      (handler : Task W (Unit {0})) {task next : Task W (Unit {0})}
      → Gives observe (At u) task (After effect undo u)
      → Undoes observe undone handler
      → ((f : ManagerError) → Enabled v (err f) (undone u))
      → ((f : ManagerError) → Enabled v (err f) (undone (seen_by undo u)))
      → Gives observe (At (seen_by effect u)) next (Enabled v)
      → Gives observe (At u) (on_error (λ _. handler) task >> next) (Enabled v)
  staged v u effect undo undone handler g k ends ends' l =
      >>=-Gives {Q = Stage v (seen_by effect u)}
        (on_error-Gives {Q = After effect undo u} _ g (λ x w h. h)
          (λ e.
            handled u (seen_by undo u) undone (Stage v (seen_by effect u)) handler e k ends ends'))
        (λ _. l) (λ e w h. h)

  call-Loose :
      (action : Action W (Unit {0})) (v : Seen)
      → ((s : Service W)
          → view observe s ≡ v
          → Loose (view observe s) (action s.world).0 (observe (action s.world).1, s.state))
      → Gives observe (At v) (call action) (Loose v)
  unfolding call
  call-Loose action v h = record {
    given = λ s e.
        subst (λ (u : Seen). Loose u (action s.world).0 (observe (action s.world).1, s.state)) e
          (h s e);
  }

  -- Whatever a call does to the world, it leaves the state in memory.
  call-open :
      (action : Action W (Unit {0})) (v : Seen)
      → Gives observe (λ u. u.1 ≡ v.1) (call action) (λ r u. u.1 ≡ v.1)
  unfolding call
  call-open action v = record { given = λ s e. e }

  -- A stage of which it is open what it leaves when it fails.
  loosely :
      (v u : Seen) (R : Result (Unit {0}) → Seen → Type 0) (handler task : Task W (Unit {0}))
      → u.1 ≡ v.1
      → Gives observe (At u) task (Loose u)
      → Gives observe (λ w. w.1 ≡ v.1) handler (λ r. IsOff v)
      → ((x : Unit {0}) (w : Seen) → w ≡ u → R (ok x) w)
      → ((e : ManagerError) (w : Seen) → IsOff v w → R (err e) w)
      → Gives observe (At u) (on_error (λ _. handler) task) R
  loosely v u R handler task same g k ends l = on_error-Gives {Q = Loose u} _ g ends (λ e.
      >>=-Gives {Q = λ r. IsOff v} (record { given = λ s h. k.given s (h ∙ same) })
        (λ _. return-Gives (err e) (l e)) (λ f w h. l f w h))

module _ {W : Type 0} (o : Operator W) (observe : W → Networking) (adapters : Adapters o observe)
    (services : Services o observe) (undoing : Undoing o observe) where
  routing_taken :
      (w : W)
      → observe (o.manager.backends.disable_routing o.manager.config w).1
        ≡ with_routing false (observe w)
  routing_taken w =
      taken (with_routing false) _ _ _ (undoing.routing_off w) (adapters.disables_routing w)

  firewall_taken :
      (w : W) → observe (o.manager.backends.disable_firewall w).1 ≡ with_firewall false (observe w)
  firewall_taken w =
      taken (with_firewall false) _ _ _ (undoing.firewall_off w) (adapters.disables_firewall w)

  off_after :
      (v : Seen)
      → Gives observe
          (At v)
          (undo_networking o)
          (λ r. At (with_firewall false (with_routing false v.0), v.1))
  off_after v =
      ignored_then (At (with_routing false v.0, v.1))
        (call-Takes (with_routing false) _ v routing_taken)
        (ignore-Gives
          (call-Takes (with_firewall false) _ (with_routing false v.0, v.1) firewall_taken))

  -- From anything that is seen.
  undone-IsOff : (v : Seen) → Gives observe (λ u. u.1 ≡ v.1) (undo_networking o) (λ r. IsOff v)
  undone-IsOff v = record {
    given = λ s h.
        let q = (off_after (view observe s)).given s refl in
        (
          ap (λ (u : Seen). u.0.firewall) q,
          ap (λ (u : Seen). u.0.routing) q,
          ap (λ (u : Seen). u.1) q ∙ h,
        );
  }

  stopped-IsOff : (v : Seen) → Gives observe (λ u. u.1 ≡ v.1) (undo_service o) (λ r. IsOff v)
  stopped-IsOff v =
      ignored_then (λ u. u.1 ≡ v.1) (call-open (o.manager.backends.stop tun_service) v)
        (undone-IsOff v)

  -- If TUN is enabled without an error, the firewall and the policy routing are on, and the service
  -- is started at boot. If there is an error, either nothing has changed, or the firewall is off and
  -- the policy routing is off or as it was. It is assumed that a call that enables works, does
  -- nothing or leaves off what it was to enable; that a start of the policy's service that succeeds
  -- has put the policy up or found it active; that a restart of Xray's service that succeeds leaves
  -- the networking alone; and that the calls that undo succeed, and then have their effect. What a
  -- start or a restart that fails has done is open, and so is what a stop does.
  pub enable_tun-Enabled : (v : Seen) → Gives observe (At v) (enable_tun o) (Enabled v)
  unfolding enable_tun
  enable_tun-Enabled v =
      let v1 : Seen = seen_by (with_firewall true) v in
      let v2 : Seen = seen_by (with_routing true) v1 in
      let v3 : Seen = seen_by (with_boot true) v2 in
      let unfiltered : Seen → Seen = seen_by (with_firewall false) in
      let off : Seen → Seen = λ u. (with_firewall false (with_routing false u.0), u.1) in
      >>=-Gives {Q = After (with_firewall true) (with_firewall false) v}
        (call-After (with_firewall true) (with_firewall false) _ v adapters.enables_firewall)
        (λ _.
          staged v v1 (with_routing true) (with_routing false) unfiltered (ignore (firewall_off o))
            (call-After (with_routing true) (with_routing false) _ v1 adapters.enables_routing)
            (λ u. ignore-Gives (call-Takes (with_firewall false) _ u firewall_taken))
            (λ f. inr (refl, inr refl, refl)) (λ f. inr (refl, inl refl, refl))
            (staged v v2 (with_boot true) (with_boot false) off (undo_networking o)
              (call-After (with_boot true) (with_boot false) _ v2 services.enables_service)
              off_after (λ f. inr (refl, inl refl, refl)) (λ f. inr (refl, inl refl, refl))
              (>>=-Gives {Q = Stage v v3}
                (loosely v v3 (Stage v v3) (undo_networking o) _ refl
                  (call-Loose _ v3 (λ s e.
                    Started-Loose (observe s.world) _ s.state _
                      (ap (λ (u : Seen). with_firewall true (with_routing true u.0)) e
                        ∙ sym (ap (λ (u : Seen). u.0) e))
                      (adapters.starts s.world)))
                  (undone-IsOff v) (λ x w h. h) (λ e w h. off-Enabled v w e h))
                (λ _.
                  loosely v v3 (Enabled v) (undo_service o) _ refl
                    (call-Loose _ v3 (λ s e.
                      Restarted-Loose (observe s.world) _ s.state _ (services.restarts s.world)))
                    (stopped-IsOff v)
                    (λ x w h. subst (Enabled v (ok x)) (sym h) (refl, refl, refl, refl))
                    (λ e w h. off-Enabled v w e h))
                (λ e w h. h))))
        (λ e w h. Either-Enabled v w e h)
