-- ===== src/Core/Application/Steps.antt =====
-- Rules for what a task does to what is observed and to the state in memory, by the way it is made.
use xrayctl.Common.{◌≡◌, List, [], ◌∷◌, refl, ◌∙◌, ap, Bool, true, false, if◌then◌else◌}
use xrayctl.Core.Error.{ManagerError, Result, ok, err}
use xrayctl.Core.Domain.{ManagerState}
use xrayctl.Core.Events.{ManagerEvent}
use xrayctl.Core.Backends.{Action, BackendSet}
use xrayctl.Core.Backends.Tasks.{
  Service, Task, proceed, ◌>>=◌, return, attempt, ignore, or_after, on_error, call, each, emit,
}
use xrayctl.Core.Application.Observed.{Observed}

abbrev pub View : Type 0
View = Observed × ManagerState

abbrev pub At : {V : Type 0} → V → V → Type 0
At v u = u ≡ v

module _ {W O : Type 0} (observe : W → O) where
  abbrev pub view : Service W → O × ManagerState
  view s = (observe s.world, s.state)

  -- The task leaves the view as it is.
  pub record IsSilent {T : Type 0} (task : Task W T) : Type 0 where
    pub kept : (s : Service W) → view (task s).1 ≡ view s

  -- From a view with the first property, the task gives a result and a view with the second.
  pub record Gives {T : Type 0} (P : O × ManagerState → Type 0) (task : Task W T)
      (Q : Result T → O × ManagerState → Type 0) : Type 0 where
    pub given : (s : Service W) → P (view s) → Q (task s).0 (view (task s).1)

module _ {W O : Type 0} {observe : W → O} where
  proceed-IsSilent :
      {T U : Type 0} (next : T → Task W U) (v : (O × ManagerState))
      → ((x : T) → IsSilent observe (next x))
      → (r : Result T × Service W) → view observe r.1 ≡ v
      → view observe (proceed r next).1 ≡ v
  proceed-IsSilent next v k (ok x, s) q = (k x).kept s ∙ q
  proceed-IsSilent next v k (err e, s) q = q

  pub >>=-IsSilent :
      {T U : Type 0} {task : Task W T} {next : T → Task W U}
      → IsSilent observe task
      → ((x : T) → IsSilent observe (next x))
      → IsSilent observe (task >>= next)
  unfolding ◌>>=◌
  >>=-IsSilent {task} {next} q k = record {
    kept = λ s. proceed-IsSilent next (view observe s) k (task s) (q.kept s);
  }

  pub return-IsSilent : {T : Type 0} (r : Result T) → IsSilent observe {T = T} (return r)
  unfolding return
  return-IsSilent r = record { kept = λ s. refl }

  pub call-IsSilent :
      {T : Type 0} (action : Action W T)
      → ((w : W) → observe (action w).1 ≡ observe w)
      → IsSilent observe (call action)
  unfolding call
  call-IsSilent action q = record { kept = λ s. ap (λ (o : O). (o, s.state)) (q s.world) }

  pub emit-IsSilent :
      (backends : BackendSet W) (event : ManagerEvent)
      → ((e : ManagerEvent) (w : W) → observe (backends.emit e w) ≡ observe w)
      → IsSilent observe (emit backends event)
  unfolding emit
  emit-IsSilent backends event q = record {
    kept = λ s. ap (λ (o : O). (o, s.state)) (q event s.world);
  }

  pub ignore-IsSilent :
      {task : Task W (Unit {0})} → IsSilent observe task → IsSilent observe (ignore task)
  unfolding ignore
  ignore-IsSilent q = record { kept = λ s. q.kept s }

  or_after-IsSilent :
      {T : Type 0} (handler : ManagerError → Task W (Unit {0}))
      → ((e : ManagerError) → IsSilent observe (handler e))
      → (r : Result T) → IsSilent observe (or_after r handler)
  or_after-IsSilent handler k (ok x) = return-IsSilent (ok x)
  or_after-IsSilent {T} handler k (err e) =
      >>=-IsSilent (k e) (λ _. return-IsSilent {T = T} (err e))

  pub on_error-IsSilent :
      {T : Type 0} {handler : ManagerError → Task W (Unit {0})} {task : Task W T}
      → ((e : ManagerError) → IsSilent observe (handler e))
      → IsSilent observe task
      → IsSilent observe (on_error handler task)
  unfolding on_error ◌>>=◌ attempt
  on_error-IsSilent {handler} {task} k q = record {
    kept = λ s. (or_after-IsSilent handler k (task s).0).kept (task s).1 ∙ q.kept s;
  }

  pub each-IsSilent :
      {A : Type 0} (body : A → Task W (Unit {0})) (xs : List A)
      → ((x : A) → IsSilent observe (body x))
      → IsSilent observe (each body xs)
  unfolding each
  each-IsSilent body [] k = return-IsSilent (ok tt)
  each-IsSilent body (x ∷ xs) k = >>=-IsSilent (k x) (λ _. each-IsSilent body xs k)

  pub if-IsSilent :
      {T : Type 0} (b : Bool) {x y : Task W T}
      → IsSilent observe x
      → IsSilent observe y
      → IsSilent observe (if b then x else y)
  if-IsSilent true q r = q
  if-IsSilent false q r = r
