-- ===== src/Core/Application/Exchange.antt =====
-- The activation of the generation that `ConfigRollback` goes back to.
use xrayctl.Common.{
  String, show, true, Option, some, ◌≡◌, ◌⊎◌, inl, inr, refl, sym, subst, ap, ◌∙◌, is_some,
}
use xrayctl.Core.Error.{Result, ok, err, is_ok}
use xrayctl.Core.Domain.{ManagerState}
use xrayctl.Core.Backends.{Location, ◌/◌, ManagerPaths}
use xrayctl.Core.Backends.Tasks.{call}
use xrayctl.Core.Application.{Manager}
use xrayctl.Core.Application.Rollback.{activate_rollback, swapped}
use xrayctl.Core.Application.Observed.{Observed, Laws, pointed, stored}
use xrayctl.Core.Application.Steps.{At, View, Gives, call-IsSilent}
use xrayctl.Core.Application.Given.{if-Gives, >>=-Gives, silently, return-Gives, Gives-mono}
use xrayctl.Core.Application.Outcome.{Wrote, write_state-Wrote}
use xrayctl.Core.Application.Returned.{time_then}

module _ {W : Type 0} (m : Manager W) (p : ManagerPaths) (observe : W → Observed)
    (laws : Laws m p observe) where
  -- The pointers are exchanged, where there are two.
  pub rolled :
      (o : Observed) (x : ManagerState) (c t : Location)
      → o.current ≡ some c
      → o.previous ≡ some t
      → Gives observe
          (At (o, x))
          (call
            (m.backends.rollback_generation (p.state_dir / "current") (p.state_dir / "previous")))
          (λ r u. (is_ok r ≡ true) × (u ≡ (pointed (some t) (some c) o, x)))
  unfolding call
  rolled o x c t h k = record {
    given = λ s e.
        let a = ap (λ (u : View). u.0) e in
        let l =
          laws.rolls_back s.world (ap (λ (y : Observed). y.current) a ∙ h)
            (ap (λ (y : Observed). y.previous) a ∙ k) in
        (
          l.0,
          ap (λ (y : Observed). (y, s.state)) l.1
              ∙ ap (λ (u : View). (pointed (some t) (some c) u.0, u.1)) e,
        );
  }

  -- What the state becomes: the generations are exchanged, and the records of health are new.
  abbrev pub Exchanged : ManagerState → ManagerState → Type 0
  Exchanged old new = new ≡ record old {
    current_config_generation = old.previous_config_generation;
    previous_config_generation = old.current_config_generation;
    last_successful_healthcheck = new.last_successful_healthcheck;
    last_rollback_reason = some "manual configuration rollback";
  }

  -- While the rollback is activated: the pointers are exchanged, and the state is the old one or
  -- has been written.
  abbrev pub Underway : Location → Location → View → Result (Unit {0}) → View → Type 0
  Underway c t v (ok _) u =
      (bytes : String) × (m.formats.write_state u.1 ≡ ok bytes)
      × (u.0 ≡ stored bytes (pointed (some t) (some c) v.0))
      × Exchanged v.1 u.1
  Underway c t v (err e) u =
      (u ≡ (pointed (some t) (some c) v.0, v.1))
      ⊎ ((v.0.writable ≡ true)
          × ((bytes : String) × (u.0 ≡ stored bytes (pointed (some t) (some c) v.0))))

  abbrev rollback_state : ManagerState → Option String → ManagerState
  rollback_state old health = record (swapped m old) {
    last_successful_healthcheck = health;
    last_rollback_reason = some "manual configuration rollback";
  }

  Wrote-Underway :
      (c t : Location) (v : View) (bytes : String) (health : Option String) (r : Result (Unit {0}))
      (u : View)
      → v.0.writable ≡ true
      → Wrote m p observe laws
          (stored bytes (pointed (some t) (some c) v.0))
          (rollback_state v.1 v.1.last_successful_healthcheck)
          (rollback_state v.1 health)
          r
          u
      → Underway c t v r u
  Wrote-Underway c t v bytes health (ok tt) u w (_, (b, q, e)) =
      subst (Underway c t v (ok tt)) (sym e) (b, q, refl, refl)
  Wrote-Underway c t v bytes health (err f) u w (n, _) = cc (n, w)

  pub activate_rollback-Underway :
      (c t : Location) (v : View)
      → Gives observe
          (At (pointed (some t) (some c) v.0, v.1))
          (activate_rollback m (rollback_state v.1 v.1.last_successful_healthcheck))
          (Underway c t v)
  unfolding activate_rollback
  activate_rollback-Underway c t v =
      let o = pointed (some t) (some c) v.0 in
      let x = rollback_state v.1 v.1.last_successful_healthcheck in
      >>=-Gives (write_state-Wrote m p observe laws o v.1 x)
        (λ _. record {
          given = λ s (w, (bytes, q, e)).
              (silently {P = At (stored bytes o, x)} {R = Underway c t v}
                  (call-IsSilent _ (laws.restarts "xray.service"))
                  (λ _.
                    if-Gives (is_some v.1.selected_node_id)
                      (silently (call-IsSilent _ (laws.checks_health _))
                        (λ _. time_then m p observe laws _ (λ time.
                          Gives-mono _
                            (write_state-Wrote m p observe laws (stored bytes o) x
                              (rollback_state v.1 (some (show time))))
                            (λ r u h. Wrote-Underway c t v bytes (some (show time)) r u w h)))
                        (λ e u h. inr (w, (bytes, ap (λ (y : View). y.0) h))))
                      (return-Gives _
                        (λ u h. subst (Underway c t v (ok tt)) (sym h) (bytes, q, refl, refl))))
                  (λ e u h. inr (w, (bytes, ap (λ (y : View). y.0) h)))).given
                s e;
        })
        (λ e u h. inl (h.1))
