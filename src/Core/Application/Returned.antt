-- ===== src/Core/Application/Returned.antt =====
-- The rollback of an activation that fails, in `apply_config`.
use xrayctl.Common.{arith, ℕ, String, true, some, ◌≡◌, refl, sym, subst, ap, ◌∙◌}
use xrayctl.Core.Error.{ManagerError, Result, ok}
use xrayctl.Core.Domain.{ManagerState}
use xrayctl.Core.Backends.{ManagerPaths}
use xrayctl.Core.Backends.Tasks.{Task, ◌>>=◌}
use xrayctl.Core.Application.{Manager}
use xrayctl.Core.Application.Activation.{candidate_of, roll_back, timestamp}
use xrayctl.Core.Application.Observed.{Observed, Laws, switched, stored}
use xrayctl.Core.Application.Steps.{At, View, Gives, call-IsSilent, emit-IsSilent, ignore-IsSilent}
use xrayctl.Core.Application.Given.{>>=-Gives, silently, IsSilent-Gives, Gives-given, emit_then}
use xrayctl.Core.Application.Silence.{discard-IsSilent}
use xrayctl.Core.Application.Outcome.{write_state-Wrote, restore_pointers-Gives}
use xrayctl.Core.Application.Recovery.{InStep, Reverted, restored}

module _ {W : Type 0} (m : Manager W) (p : ManagerPaths) (observe : W → Observed)
    (laws : Laws m p observe) where
  abbrev pub Back : View → View → Type 0
  Back v u = InStep m p u × Reverted m p v.1 u.1

  abbrev rolled_back : ManagerState → ManagerState
  rolled_back x = record x {
    last_rollback_reason = some "configuration activation or healthcheck failed";
  }

  -- The state of a view in step with another reason, in the file and in memory.
  saved-InStep :
      (v : View) (bytes : String)
      → InStep m p v
      → m.formats.write_state (rolled_back v.1) ≡ ok bytes
      → InStep m p (stored bytes v.0, rolled_back v.1)
  saved-InStep v bytes i q = record {
    current = i.current;
    previous = i.previous;
    chained = i.chained;
    persisted = q;
  }

  saved-Back :
      (v u : View)
      → InStep m p v
      → ((bytes : String) × (m.formats.write_state (rolled_back v.1) ≡ ok bytes)
          × (u ≡ (stored bytes v.0, rolled_back v.1)))
      → Back v u
  saved-Back v u i (bytes, q, e) = subst (Back v) (sym e) (saved-InStep v bytes i q, refl)

  pub roll_back-Back :
      (generation bytes : String) (v : View) (x : ManagerState) (e : ManagerError)
      → InStep m p v
      → v.0.writable ≡ true
      → Gives observe
          (At (stored bytes (switched (candidate_of p generation).path v.0), x))
          (roll_back m (candidate_of p generation) v.1 e)
          (λ r u. Back v u)
  unfolding roll_back
  roll_back-Back generation bytes v x e i t = emit_then m.backends _ laws.emits (
      >>=-Gives (restore_pointers-Gives m p observe laws _ x v.1 generation)
        (λ _.
          >>=-Gives
            (Gives-given (At (stored bytes v.0, x))
              (λ u h.
                h.1
                ∙ ap (λ (o : Observed). (o, x))
                    (restored m p observe laws generation v
                      (stored bytes (switched (candidate_of p generation).path v.0)) i))
              (write_state-Wrote m p observe laws (stored bytes v.0) x (rolled_back v.1)))
            (λ _.
              Gives-given (λ u. Back v u) (λ u h. saved-Back v u i h.1)
                (silently (ignore-IsSilent (call-IsSilent _ (laws.restarts _)))
                  (λ _.
                    silently (discard-IsSilent m p observe laws generation)
                      (λ _. IsSilent-Gives (emit-IsSilent _ _ laws.emits)) (λ f u h. h))
                  (λ f u h. h)))
            (λ f u h. ground (arith, h.0, t)))
        (λ f u h. cc (h.0)))

  pub time_then :
      {U : Type 0} {P : View → Type 0} {R : Result U → View → Type 0} (next : ℕ → Task W U)
      → ((time : ℕ) → Gives observe P (next time) R)
      → Gives observe P (timestamp m >>= next) R
  unfolding ◌>>=◌
  time_then next k = record { given = λ s h. (k (m.backends.unix_timestamp s.world)).given s h }
