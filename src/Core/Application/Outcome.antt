-- ===== src/Core/Application/Outcome.antt =====
-- What the steps of an activation that touch the pointers or the state do to them.
use xrayctl.Common.{
  ℕ, String, true, false, Option, some, ◌≡◌, refl, sym, subst, ap, inl, inr, if◌then◌else◌,
}
use xrayctl.Core.Error.{Result, ok, err, is_ok}
use xrayctl.Core.Domain.{ManagerState}
use xrayctl.Core.Backends.{Location, ◌/◌, ManagerPaths}
use xrayctl.Core.Backends.Tasks.{Service, Task, ◌>>=◌, return, call, set_state}
use xrayctl.Core.Application.{Manager, paths, write_state}
use xrayctl.Core.Application.Activation.{candidate_of, restore_pointers, target}
use xrayctl.Core.Application.Observed.{Observed, Laws, switched, pointed, stored, Writes, Switches}
use xrayctl.Core.Application.Steps.{At, View, view, Gives}
use xrayctl.Core.Application.Given.{>>=-Gives}

module _ {W : Type 0} (m : Manager W) (p : ManagerPaths) (observe : W → Observed)
    (laws : Laws m p observe) where
  with_paths :
      {T : Type 0} (next : ManagerPaths → Task W T) (s : Service W)
      → (paths m >>= next) s ≡ next p s
  unfolding ◌>>=◌ call
  with_paths next s = rw (laws.paths s.world) refl

  pub with_paths-Gives :
      {T : Type 0} {P : View → Type 0} {R : Result T → View → Type 0}
      (next : ManagerPaths → Task W T)
      → Gives observe P (next p) R
      → Gives observe P (paths m >>= next) R
  with_paths-Gives {R} next g = record { given = λ s h. rw (with_paths next s) (g.given s h) }

  abbrev pub Wrote : Observed → ManagerState → ManagerState → Result (Unit {0}) → View → Type 0
  Wrote o x state (ok _) v =
      (o.writable ≡ true)
      × ((bytes : String) × (m.formats.write_state state ≡ ok bytes)
          × (v ≡ (stored bytes o, state)))
  Wrote o x state (err e) v = (o.writable ≡ false) × (v ≡ (o, x))

  -- The file is written, or it is not.
  abbrev Put : Observed → ManagerState → String → Result (Unit {0}) → View → Type 0
  Put o x bytes (ok _) v = (o.writable ≡ true) × (v ≡ (stored bytes o, x))
  Put o x bytes (err e) v = (o.writable ≡ false) × (v ≡ (o, x))

  write-Put :
      (bytes : String) (x : ManagerState) (w : W) (r : Result (Unit {0})) (w' : W)
      → Writes m p observe bytes w (r, w')
      → Put (observe w) x bytes r (observe w', x)
  write-Put bytes x w (ok _) w' (a, b) =
      let t : (observe w).writable ≡ true = sym a in
      (
        t,
        ap (λ (o : Observed). (o, x))
            (subst (λ u. observe w' ≡ (if u then stored bytes (observe w) else observe w)) t b),
      )
  write-Put bytes x w (err e) w' (a, b) =
      let f : (observe w).writable ≡ false = sym a in
      (
        f,
        ap (λ (o : Observed). (o, x))
            (subst (λ u. observe w' ≡ (if u then stored bytes (observe w) else observe w)) f b),
      )

  encoded_cases : (r : Result String) → is_ok r ≡ true → (bytes : String) × (r ≡ ok bytes)
  encoded_cases (ok bytes) h = (bytes, refl)
  encoded_cases (err e) h = cc

  write_bytes-Put :
      (o : Observed) (x : ManagerState) (bytes : String) (mode : Option ℕ)
      → Gives observe
          (At (o, x))
          (call (m.backends.write_atomic (p.state_dir / "state.json") bytes mode))
          (Put o x bytes)
  unfolding call
  write_bytes-Put o x bytes mode = record {
    given = λ s h.
        let after = call (m.backends.write_atomic (p.state_dir / "state.json") bytes mode) s in
        subst (λ (v : View). Put v.0 v.1 bytes after.0 (view observe after.1)) h
          (write-Put bytes s.state s.world _ _ (laws.writes_state bytes mode s.world));
  }

  return_ok : {T U : Type 0} (x : T) (next : T → Task W U) → (return (ok x) >>= next) ≡ next x
  unfolding ◌>>=◌ return
  return_ok x next = refl

  -- The state is written and then changed in memory, or neither.
  pub write_state-Wrote :
      (o : Observed) (x state : ManagerState)
      → Gives observe (At (o, x)) (write_state m state) (Wrote o x state)
  unfolding write_state set_state
  write_state-Wrote o x state =
      let (bytes, q) = encoded_cases (m.formats.write_state state) (laws.encodes state) in
      with_paths-Gives _ (
        rw (q, return_ok bytes)
          (>>=-Gives (write_bytes-Put o x bytes (some 0o640))
            (λ _. record { given = λ s h. (h.0, (bytes, q, ap (λ (v : View). (v.0, state)) h.1)) })
            (λ e v h. h)))

  -- The pointers move to the target, or stay.
  abbrev pub Moved : Location → Observed → ManagerState → Result (Unit {0}) → View → Type 0
  Moved t o x (ok _) v = v ≡ (switched t o, x)
  Moved t o x (err e) v = v ≡ (o, x)

  Switches-Moved :
      (t : Location) (x : ManagerState) (w : W) (r : Result (Unit {0})) (w' : W)
      → Switches m p observe t w (r, w')
      → Moved t (observe w) x r (observe w', x)
  Switches-Moved t x w (ok _) w' (inl (_, q)) = ap (λ (o : Observed). (o, x)) q
  Switches-Moved t x w (ok _) w' (inr (f, _)) = cc f
  Switches-Moved t x w (err e) w' (inl (f, _)) = cc f
  Switches-Moved t x w (err e) w' (inr (_, q)) = ap (λ (o : Observed). (o, x)) q

  pub switch-Moved :
      (o : Observed) (x : ManagerState) (t : Location)
      → Gives observe
          (At (o, x))
          (call
            (m.backends.switch_generation (p.state_dir / "current") (p.state_dir / "previous") t))
          (Moved t o x)
  unfolding call
  switch-Moved o x t = record {
    given = λ s h.
        let action =
          m.backends.switch_generation (p.state_dir / "current") (p.state_dir / "previous") t in
        let after = call action s in
        subst (λ (v : View). Moved t v.0 v.1 after.0 (view observe after.1)) h
          (Switches-Moved t s.state s.world (action s.world).0 (action s.world).1
            (laws.switches t s.world));
  }

  -- The pointers are put back to what the state names.
  pub restore_pointers-Gives :
      (o : Observed) (x old : ManagerState) (generation : String)
      → let c = candidate_of p generation in
        Gives observe (At (o, x)) (restore_pointers m c old) (λ r v.
          (is_ok r ≡ true)
          × (v ≡ (
            pointed
                (target m c old.current_config_generation)
                (target m c old.previous_config_generation)
                o,
            x,
          )))
  unfolding restore_pointers call
  restore_pointers-Gives o x old generation = record {
    given = λ s h.
        let a = target m (candidate_of p generation) old.current_config_generation in
        let b = target m (candidate_of p generation) old.previous_config_generation in
        let after = restore_pointers m (candidate_of p generation) old s in
        let l = laws.restores a b s.world in
        subst
          (λ (v : View). (is_ok after.0 ≡ true) × (view observe after.1 ≡ (pointed a b v.0, v.1))) h
          (l.0, ap (λ (u : Observed). (u, s.state)) l.1);
  }
