-- ===== src/Core/Application/Given.antt =====
-- What a task gives, when the tasks that it is composed of give it.
use xrayctl.Common.{◌≡◌, sym, subst, ap, Bool, true, false, if◌then◌else◌}
use xrayctl.Core.Error.{ManagerError, Result, ok, err}
use xrayctl.Core.Domain.{ManagerState}
use xrayctl.Core.Events.{ManagerEvent}
use xrayctl.Core.Backends.{BackendSet}
use xrayctl.Core.Backends.Tasks.{
  Service, Task, proceed, ◌>>=◌, ◌>>◌, return, attempt, ignore, or_after, on_error, emit,
  current_state,
}
use xrayctl.Core.Application.Steps.{At, view, IsSilent, Gives}

module _ {W O : Type 0} {observe : W → O} where
  proceed-Gives :
      {T U : Type 0} (Q : Result T → (O × ManagerState) → Type 0)
      (R : Result U → (O × ManagerState) → Type 0) (next : T → Task W U)
      → ((x : T) → Gives observe (Q (ok x)) (next x) R)
      → ((e : ManagerError) (v : (O × ManagerState)) → Q (err e) v → R (err e) v)
      → (r : Result T × Service W) → Q r.0 (view observe r.1)
      → R (proceed r next).0 (view observe (proceed r next).1)
  proceed-Gives Q R next k l (ok x, s) q = (k x).given s q
  proceed-Gives Q R next k l (err e, s) q = l e (view observe s) q

  pub >>=-Gives :
      {T U : Type 0} {P : (O × ManagerState) → Type 0} {Q : Result T → (O × ManagerState) → Type 0}
      {R : Result U → (O × ManagerState) → Type 0} {task : Task W T} {next : T → Task W U}
      → Gives observe P task Q
      → ((x : T) → Gives observe (Q (ok x)) (next x) R)
      → ((e : ManagerError) (v : (O × ManagerState)) → Q (err e) v → R (err e) v)
      → Gives observe P (task >>= next) R
  unfolding ◌>>=◌
  >>=-Gives {Q} {R} {task} {next} g k l = record {
    given = λ s h. proceed-Gives Q R next k l (task s) (g.given s h);
  }

  pub IsSilent-Gives :
      {T : Type 0} {P : (O × ManagerState) → Type 0} {task : Task W T}
      → IsSilent observe task
      → Gives observe P task (λ r v. P v)
  IsSilent-Gives {P} q = record { given = λ s h. subst P (sym (q.kept s)) h }

  or_after-Gives :
      {T : Type 0} (Q R : Result T → (O × ManagerState) → Type 0)
      (handler : ManagerError → Task W (Unit {0}))
      → ((x : T) (v : (O × ManagerState)) → Q (ok x) v → R (ok x) v)
      → ((e : ManagerError) → Gives observe (Q (err e)) (handler e >> return (err e)) R)
      → (r : Result T) → Gives observe (Q r) (or_after r handler) R
  or_after-Gives Q R handler k l (ok x) = record {
    given = λ s h. unfold return in k x (view observe s) h;
  }
  or_after-Gives Q R handler k l (err e) = l e

  pub on_error-Gives :
      {T : Type 0} {P : (O × ManagerState) → Type 0} {Q R : Result T → (O × ManagerState) → Type 0}
      (handler : ManagerError → Task W (Unit {0})) {task : Task W T}
      → Gives observe P task Q
      → ((x : T) (v : (O × ManagerState)) → Q (ok x) v → R (ok x) v)
      → ((e : ManagerError) → Gives observe (Q (err e)) (handler e >> return (err e)) R)
      → Gives observe P (on_error handler task) R
  unfolding on_error ◌>>=◌ attempt
  on_error-Gives {Q} {R} handler {task} g k l = record {
    given = λ s h. (or_after-Gives Q R handler k l (task s).0).given (task s).1 (g.given s h);
  }

  -- A silent task, and what comes after it.
  pub silently :
      {T U : Type 0} {P : (O × ManagerState) → Type 0} {R : Result U → (O × ManagerState) → Type 0}
      {task : Task W T} {next : T → Task W U}
      → IsSilent observe task
      → ((x : T) → Gives observe P (next x) R)
      → ((e : ManagerError) (v : (O × ManagerState)) → P v → R (err e) v)
      → Gives observe P (task >>= next) R
  silently q k l = >>=-Gives (IsSilent-Gives q) k l

  pub return-Gives :
      {T : Type 0} {P : (O × ManagerState) → Type 0} {R : Result T → (O × ManagerState) → Type 0}
      (r : Result T)
      → ((v : (O × ManagerState)) → P v → R r v)
      → Gives observe P (return r) R
  unfolding return
  return-Gives r k = record { given = λ s h. k (view observe s) h }

  pub ignore-Gives :
      {P Q : (O × ManagerState) → Type 0} {task : Task W (Unit {0})}
      → Gives observe P task (λ r v. Q v)
      → Gives observe P (ignore task) (λ r v. Q v)
  unfolding ignore
  ignore-Gives g = record { given = λ s h. g.given s h }

  pub Gives-mono :
      {T : Type 0} {P : (O × ManagerState) → Type 0} (Q : Result T → (O × ManagerState) → Type 0)
      {R : Result T → (O × ManagerState) → Type 0} {task : Task W T}
      → Gives observe P task Q
      → ((r : Result T) (v : (O × ManagerState)) → Q r v → R r v)
      → Gives observe P task R
  Gives-mono Q g k = record { given = λ s h. k _ _ (g.given s h) }

  -- A handler that changes nothing that matters.
  pub on_error-keeps :
      {T : Type 0} {P : (O × ManagerState) → Type 0} (Q : Result T → (O × ManagerState) → Type 0)
      (handler : ManagerError → Task W (Unit {0})) {task : Task W T}
      → ((e : ManagerError) → IsSilent observe (handler e))
      → ((e f : ManagerError) (v : (O × ManagerState)) → Q (err e) v → Q (err f) v)
      → Gives observe P task Q
      → Gives observe P (on_error handler task) Q
  on_error-keeps Q handler q same g =
      on_error-Gives handler g (λ x v h. h)
        (λ e. silently (q e) (λ _. return-Gives (err e) (λ v h. h)) (λ f v h. same e f v h))

  pub Gives-given :
      {T : Type 0} (P : (O × ManagerState) → Type 0) {P' : (O × ManagerState) → Type 0}
      {Q : Result T → (O × ManagerState) → Type 0} {task : Task W T}
      → ((v : (O × ManagerState)) → P' v → P v)
      → Gives observe P task Q
      → Gives observe P' task Q
  Gives-given P k g = record { given = λ s h. g.given s (k (view observe s) h) }

  -- Tasks that cannot fail, and what comes after them.
  pub emit_then :
      {U : Type 0} {P : (O × ManagerState) → Type 0} {R : Result U → (O × ManagerState) → Type 0}
      (backends : BackendSet W) (event : ManagerEvent) {next : Task W U}
      → ((e : ManagerEvent) (w : W) → observe (backends.emit e w) ≡ observe w)
      → Gives observe P next R
      → Gives observe P (emit backends event >> next) R
  unfolding emit ◌>>=◌
  emit_then {P} backends event q g = record {
    given = λ s h. g.given _ (subst (λ (o : O). P (o, s.state)) (sym (q event s.world)) h);
  }

  pub ignore_then :
      {U : Type 0} {P : (O × ManagerState) → Type 0} {R : Result U → (O × ManagerState) → Type 0}
      {task : Task W (Unit {0})} {next : Task W U}
      → IsSilent observe task
      → Gives observe P next R
      → Gives observe P (ignore task >> next) R
  unfolding ignore ◌>>=◌
  ignore_then {P} q g = record { given = λ s h. g.given _ (subst P (sym (q.kept s)) h) }

  pub current_then :
      {U : Type 0} (v : (O × ManagerState)) {R : Result U → (O × ManagerState) → Type 0}
      (next : ManagerState → Task W U)
      → Gives observe (At v) (next v.1) R
      → Gives observe (At v) (current_state >>= next) R
  unfolding current_state ◌>>=◌
  current_then v {R} next g = record {
    given = λ s h.
        subst (λ x. R (next x s).0 (view observe (next x s).1))
          (sym (ap (λ (u : (O × ManagerState)). u.1) h)) (g.given s h);
  }

  pub if-Gives :
      {T : Type 0} {P : (O × ManagerState) → Type 0} {R : Result T → (O × ManagerState) → Type 0}
      (b : Bool) {x y : Task W T}
      → Gives observe P x R
      → Gives observe P y R
      → Gives observe P (if b then x else y) R
  if-Gives true g h = g
  if-Gives false g h = h

  pub ignored_then :
      {U : Type 0} {P : (O × ManagerState) → Type 0} (Q : (O × ManagerState) → Type 0)
      {R : Result U → (O × ManagerState) → Type 0} {task : Task W (Unit {0})} {next : Task W U}
      → Gives observe P task (λ r v. Q v)
      → Gives observe Q next R
      → Gives observe P (ignore task >> next) R
  unfolding ignore ◌>>=◌
  ignored_then Q g k = record { given = λ s h. k.given _ (g.given s h) }
