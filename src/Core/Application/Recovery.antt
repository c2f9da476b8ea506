-- ===== src/Core/Application/Recovery.antt =====
-- When the pointers, the file of the state and the state in memory are in step, and the ends of an
-- activation.
use xrayctl.Common.{String, true, Option, none, some, ◌≡◌, refl, ap, ◌∙◌}
use xrayctl.Core.Error.{Result, ok, err}
use xrayctl.Core.Domain.{Node, ManagerState}
use xrayctl.Core.Backends.{Location, ◌/◌, ManagerPaths}
use xrayctl.Core.Backends.Tasks.{Task, ◌>>=◌, ignore}
use xrayctl.Core.Application.{Manager, default_state}
use xrayctl.Core.Application.Activation.{
  Candidate, candidate_of, target, id_of_selected, switched_state, prepare, discard,
  restore_pointers, switch_over,
}
use xrayctl.Core.Application.Observed.{Observed, Laws, switched, pointed, stored, or_kept}
use xrayctl.Core.Application.Steps.{
  At, View, IsSilent, Gives, return-IsSilent, call-IsSilent, each-IsSilent,
}
use xrayctl.Core.Application.Given.{
  >>=-Gives, silently, return-Gives, on_error-Gives, on_error-keeps, ignore-Gives, Gives-mono,
  Gives-given, IsSilent-Gives,
}
use xrayctl.Core.Application.Silence.{
  load_routing-IsSilent, read_fragments-IsSilent, new_generation-IsSilent, write_file-IsSilent,
  discard-IsSilent,
}
use xrayctl.Core.Application.Outcome.{
  Moved, with_paths-Gives, write_state-Wrote, switch-Moved, restore_pointers-Gives,
}

module _ {W : Type 0} (m : Manager W) (p : ManagerPaths) where
  abbrev pub link : Option String → Option Location
  link none = none
  link (some generation) = some (p.state_dir / "generations" / generation)

  -- What the file of the state holds, if there is one, is the state in memory.
  abbrev pub Persisted : Option String → ManagerState → Type 0
  Persisted none x = x ≡ default_state
  Persisted (some bytes) x = m.formats.write_state x ≡ ok bytes

  -- The pointers name the generations of the state, a previous one only below a current one, and
  -- the file holds the state.
  pub record InStep (v : View) : Type 0 where
    pub current : v.0.current ≡ link v.1.current_config_generation
    pub previous : v.0.previous ≡ link v.1.previous_config_generation
    pub chained : or_kept v.0.current v.0.previous ≡ v.0.current
    pub persisted : Persisted v.0.saved v.1

  -- The state after a success: the candidate is current, what was current is previous, and the node
  -- is selected; but for the two records of health, the rest is as it was.
  abbrev pub Advanced : String → Option Node → ManagerState → ManagerState → Type 0
  Advanced generation selected old new = new ≡ record old {
    current_config_generation = some generation;
    previous_config_generation = old.current_config_generation;
    selected_node_id = id_of_selected m selected;
    last_successful_healthcheck = new.last_successful_healthcheck;
    last_rollback_reason = new.last_rollback_reason;
  }

  -- The state after a failure: but for the reason, it is as it was.
  abbrev pub Reverted : ManagerState → ManagerState → Type 0
  Reverted old new = new ≡ record old { last_rollback_reason = new.last_rollback_reason }

  abbrev pub Ends : Option Node → ManagerState → Result String → View → Type 0
  Ends selected old (ok generation) v = InStep v × Advanced generation selected old v.1
  Ends selected old (err e) v = InStep v × Reverted old v.1

module _ {W : Type 0} (m : Manager W) (p : ManagerPaths) (observe : W → Observed)
    (laws : Laws m p observe) where
  -- The candidate is named by the paths, whatever its generation is called.
  abbrev pub Named : Result Candidate → Type 0
  Named (ok c) = (generation : String) × (c ≡ candidate_of p generation)
  Named (err e) = Unit

  quietly :
      {T : Type 0} {v : View} {task : Task W T} {next : T → Task W Candidate}
      → IsSilent observe task
      → ((x : T) → Gives observe (At v) (next x) (λ r u. (u ≡ v) × Named r))
      → Gives observe (At v) (task >>= next) (λ r u. (u ≡ v) × Named r)
  quietly q k = silently q k (λ e u h. (h, tt))

  pub prepare-Named :
      (v : View) (selected : Option Node)
      → Gives observe (At v) (prepare m selected) (λ r u. (u ≡ v) × Named r)
  unfolding prepare
  prepare-Named v selected = with_paths-Gives m p observe laws _ (
      quietly (load_routing-IsSilent m p observe laws) (λ q.
        quietly (call-IsSilent _ (laws.lists _)) (λ files.
          quietly (read_fragments-IsSilent m p observe laws files) (λ fragments.
            quietly (return-IsSilent _) (λ rendered.
              quietly (new_generation-IsSilent m p observe laws) (λ g.
                quietly (call-IsSilent _ (laws.creates _)) (λ _.
                  quietly (call-IsSilent _ (laws.permits _ _)) (λ _.
                    quietly (call-IsSilent _ (laws.permits _ _)) (λ _.
                      quietly (each-IsSilent _ rendered (write_file-IsSilent m p observe laws g))
                        (λ _. return-Gives _ (λ u h. (h, (g, refl)))))))))))))

  -- What holds when the pointers and the state have changed to a candidate.
  abbrev pub SwitchedTo : String → Option Node → View → Result (Unit {0}) → View → Type 0
  SwitchedTo generation selected v (ok _) u =
      let c = candidate_of p generation in
      let new = switched_state m c selected v.1 in
      (v.0.writable ≡ true)
      × ((bytes : String) × (m.formats.write_state new ≡ ok bytes)
          × (u ≡ (stored bytes (switched c.path v.0), new)))
  SwitchedTo generation selected v (err e) u = u ≡ v

  target-link :
      (generation : String) (g : Option String)
      → target m (candidate_of p generation) g ≡ link m p g
  target-link generation none = refl
  target-link generation (some g) = refl

  -- What the state of a view in step names is where the pointers were.
  pub restored :
      (generation : String) (v : View) (o : Observed)
      → InStep m p v
      → pointed
          (target m (candidate_of p generation) v.1.current_config_generation)
          (target m (candidate_of p generation) v.1.previous_config_generation)
          o
        ≡ pointed v.0.current v.0.previous o
  restored generation v o i =
      rw
        (
          target-link generation v.1.current_config_generation,
          target-link generation v.1.previous_config_generation,
          i.current,
          i.previous,
        )
        refl

  -- The pointers are put back and the candidate is removed, from a world in which all but the
  -- pointers is as in a view in step.
  undo :
      (generation : String) (v : View) (o : Observed) (P : View → Type 0)
      → InStep m p v
      → pointed v.0.current v.0.previous o ≡ v.0
      → ((u : View) → P u → At (o, v.1) u)
      → Gives observe P (ignore (restore_pointers m (candidate_of p generation) v.1)) (λ r u. u ≡ v)
  undo generation v o P i a k = ignore-Gives (
      Gives-given (At (o, v.1)) k (
        Gives-mono _ (restore_pointers-Gives m p observe laws o v.1 v.1 generation)
          (λ r u h. h.1 ∙ ap (λ (x : Observed). (x, v.1)) (restored generation v o i ∙ a))))

  pub switch_over-SwitchedTo :
      (generation : String) (selected : Option Node) (v : View)
      → InStep m p v
      → Gives observe
          (At v)
          (switch_over m (candidate_of p generation) selected v.1)
          (SwitchedTo generation selected v)
  unfolding switch_over
  switch_over-SwitchedTo generation selected v i =
      let c = candidate_of p generation in
      >>=-Gives
        (on_error-keeps (Moved m p observe laws c.path v.0 v.1) (λ _. discard m c)
          (λ e. discard-IsSilent m p observe laws generation) (λ e f u h. h)
          (switch-Moved m p observe laws v.0 v.1 c.path))
        (λ _.
          on_error-Gives _
            (write_state-Wrote m p observe laws (switched c.path v.0) v.1
              (switched_state m c selected v.1))
            (λ _ u h. h)
            (λ e.
              >>=-Gives {Q = λ r u. u ≡ v}
                (>>=-Gives {Q = λ r u. u ≡ v}
                  (undo generation v (switched c.path v.0) _ i refl (λ u h. h.1))
                  (λ _. IsSilent-Gives (discard-IsSilent m p observe laws generation)) (λ _ u h. h))
                (λ _. return-Gives (err e) (λ u h. h)) (λ _ u h. h)))
        (λ e u h. h)
