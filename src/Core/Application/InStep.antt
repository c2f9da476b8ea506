-- ===== src/Core/Application/InStep.antt =====
-- The end of an activation, and the whole of it.
use xrayctl.Common.{String, show, true, Option, none, some, ◌≡◌, refl, sym, subst, ◌∙◌}
use xrayctl.Core.Error.{Result, ok, err, is_ok}
use xrayctl.Core.Domain.{Node, ManagerState}
use xrayctl.Core.Backends.{ManagerPaths}
use xrayctl.Core.Backends.Tasks.{Service, ◌>>=◌, ◌>>◌, current_state}
use xrayctl.Core.Application.{Manager}
use xrayctl.Core.Application.Activation.{
  candidate_of, switched_state, switch_over, check_candidate, record_health, prune, finish,
  bring_up, apply_config,
}
use xrayctl.Core.Application.Observed.{Observed, Laws, switched, stored}
use xrayctl.Core.Application.Steps.{At, View, view, Gives, call-IsSilent}
use xrayctl.Core.Application.Given.{
  >>=-Gives, silently, return-Gives, on_error-Gives, IsSilent-Gives, Gives-mono, emit_then,
  ignore_then, current_then,
}
use xrayctl.Core.Application.Silence.{check_candidate-IsSilent, activate-IsSilent}
use xrayctl.Core.Application.Outcome.{Wrote, write_state-Wrote}
use xrayctl.Core.Application.Recovery.{
  InStep, Advanced, Ends, prepare-Named, switch_over-SwitchedTo,
}
use xrayctl.Core.Application.Returned.{Back, roll_back-Back, time_then}

module _ {W : Type 0} (m : Manager W) (p : ManagerPaths) (observe : W → Observed)
    (laws : Laws m p observe) where
  -- The view after the switch: the file holds what is in memory, where the pointers are.
  abbrev After : String → String → Option Node → View → View
  After generation bytes selected v =
      let c = candidate_of p generation in
      (stored bytes (switched c.path v.0), switched_state m c selected v.1)

  abbrev Done : String → Option Node → View → View → Type 0
  Done generation selected v u = InStep m p u × Advanced m p generation selected v.1 u.1

  abbrev recorded : ManagerState → Option String → Option String → ManagerState
  recorded x health reason = record x {
    last_successful_healthcheck = health;
    last_rollback_reason = reason;
  }

  After-Done :
      (generation bytes : String) (selected : Option Node) (v : View)
      (health reason : Option String)
      → InStep m p v
      → let c = candidate_of p generation in
        let new = recorded (switched_state m c selected v.1) health reason in
        m.formats.write_state new ≡ ok bytes
        → Done generation selected v (stored bytes (switched c.path v.0), new)
  After-Done generation bytes selected v health reason i q = (
    record { current = refl; previous = i.chained ∙ i.current; chained = refl; persisted = q },
    refl,
  )

  Wrote-Done :
      (generation bytes : String) (selected : Option Node) (v : View)
      (health reason : Option String) (r : Result (Unit {0})) (u : View)
      → InStep m p v
      → v.0.writable ≡ true
      → let a = After generation bytes selected v in
        Wrote m p observe laws a.0 a.1 (recorded a.1 health reason) r u
        → (is_ok r ≡ true) × Done generation selected v u
  Wrote-Done generation bytes selected v health reason (ok _) u i t (_, (b, q, e)) = (
    refl,
    subst (Done generation selected v) (sym e)
        (After-Done generation b selected v health reason i q),
  )
  Wrote-Done generation bytes selected v health reason (err e) u i t (f, _) = cc (f, t)

  record_health-Done :
      (generation bytes : String) (selected : Option Node) (v : View)
      → InStep m p v
      → v.0.writable ≡ true
      → m.formats.write_state (After generation bytes selected v).1 ≡ ok bytes
      → Gives observe
          (At (After generation bytes selected v))
          (record_health m selected)
          (λ r u. (is_ok r ≡ true) × Done generation selected v u)
  unfolding record_health
  record_health-Done generation bytes none v i t q = return-Gives _ (λ u h. (
    refl,
    subst (Done generation none v) (sym h) (
        After-Done generation bytes none v v.1.last_successful_healthcheck v.1.last_rollback_reason
          i q),
  ))
  record_health-Done generation bytes (some n) v i t q =
      current_then (After generation bytes (some n) v) _ (
        time_then m p observe laws _ (λ time.
          Gives-mono _ (write_state-Wrote m p observe laws _ _ _)
            (λ r u h. Wrote-Done generation bytes (some n) v (some (show time)) none r u i t h)))

  finish-Ends :
      (generation bytes : String) (selected : Option Node) (v : View)
      → InStep m p v
      → v.0.writable ≡ true
      → m.formats.write_state (After generation bytes selected v).1 ≡ ok bytes
      → Gives observe
          (At (After generation bytes selected v))
          (finish m (candidate_of p generation) selected)
          (λ r u. (r ≡ ok generation) × Done generation selected v u)
  unfolding finish prune
  finish-Ends generation bytes selected v i t q = emit_then m.backends _ laws.emits (
      >>=-Gives (record_health-Done generation bytes selected v i t q)
        (λ _. ignore_then (call-IsSilent _ (laws.prunes _)) (return-Gives _ (λ u h. (refl, h.1))))
        (λ e u h. cc (h.0)))

  Ends-Done :
      (generation : String) (selected : Option Node) (v : View) (r : Result String) (u : View)
      → (r ≡ ok generation) × Done generation selected v u
      → Ends m p selected v.1 r u
  Ends-Done generation selected v r u (e, d) = subst (λ r. Ends m p selected v.1 r u) (sym e) d

  abbrev Activated : String → String → Option Node → View → Result (Unit {0}) → View → Type 0
  Activated generation bytes selected v (ok _) u = At (After generation bytes selected v) u
  Activated generation bytes selected v (err e) u = Back m p observe laws v u

  bring_up-Ends :
      (generation bytes : String) (selected : Option Node) (v : View)
      → InStep m p v
      → v.0.writable ≡ true
      → m.formats.write_state (After generation bytes selected v).1 ≡ ok bytes
      → Gives observe
          (At (After generation bytes selected v))
          (bring_up m (candidate_of p generation) selected v.1)
          (Ends m p selected v.1)
  unfolding bring_up
  bring_up-Ends generation bytes selected v i t q = emit_then m.backends _ laws.emits (
      >>=-Gives {Q = Activated generation bytes selected v}
        (on_error-Gives {Q = λ r. At (After generation bytes selected v)} _
          (IsSilent-Gives (activate-IsSilent m p observe laws selected)) (λ _ u h. h)
          (λ e.
            >>=-Gives {Q = λ r. Back m p observe laws v}
              (roll_back-Back m p observe laws generation bytes v _ e i t)
              (λ _. return-Gives (err e) (λ u h. h)) (λ f u h. h)))
        (λ _.
          Gives-mono _ (finish-Ends generation bytes selected v i t q)
            (λ r u h. Ends-Done generation selected v r u h))
        (λ e u h. h))

  -- After the checks.
  switch-Ends :
      (generation : String) (selected : Option Node) (v : View)
      → InStep m p v
      → Gives observe
          (At v)
          (switch_over m (candidate_of p generation) selected v.1
            >> bring_up m (candidate_of p generation) selected v.1)
          (Ends m p selected v.1)
  switch-Ends generation selected v i =
      >>=-Gives (switch_over-SwitchedTo m p observe laws generation selected v i)
        (λ _. record {
          given =
              λ s (t, (bytes, q, e)). (bring_up-Ends generation bytes selected v i t q).given s e;
        })
        (λ e u h. subst (λ x. Ends m p selected v.1 (err e) x) (sym h) (i, refl))

  candidate-Ends :
      (generation : String) (selected : Option Node) (v : View)
      → InStep m p v
      → Gives observe
          (At v)
          (check_candidate m (candidate_of p generation)
            >> (current_state >>= λ old.
                switch_over m (candidate_of p generation) selected old
                >> bring_up m (candidate_of p generation) selected old))
          (Ends m p selected v.1)
  candidate-Ends generation selected v i =
      silently (check_candidate-IsSilent m p observe laws generation)
        (λ _. current_then v _ (switch-Ends generation selected v i))
        (λ e u h. subst (λ x. Ends m p selected v.1 (err e) x) (sym h) (i, refl))

  apply_config-Ends :
      (v : View) (selected : Option Node)
      → InStep m p v
      → Gives observe (At v) (apply_config m selected) (Ends m p selected v.1)
  unfolding apply_config
  apply_config-Ends v selected i =
      >>=-Gives (prepare-Named m p observe laws v selected)
        (λ c. record { given = λ s (e, (g, q)). rw q ((candidate-Ends g selected v i).given s e) })
        (λ e u h. subst (λ x. Ends m p selected v.1 (err e) x) (sym (h.0)) (i, refl))

  -- From a service in step, `apply_config` ends in step on every path through it. If it succeeds,
  -- the new generation is current, what was current is previous, and the node is selected; if it
  -- fails, the state is as it was but for the reason of a rollback. The laws of the ports are
  -- assumed: a switch of the pointers is atomic, they can always be put back, and a world in which
  -- the state was written once is one in which it can be written again.
  pub apply_config-InStep :
      (selected : Option Node) (s : Service W)
      → InStep m p (view observe s)
      → Ends m p selected s.state
          (apply_config m selected s).0
          (view observe (apply_config m selected s).1)
  unfolding apply_config
  apply_config-InStep selected s i = (apply_config-Ends (view observe s) selected i).given s refl
