-- ===== src/Core/Execution/Refused.antt =====
-- What becomes of an execution without the privilege that it needs.
use xrayctl.Common.{Bool, true, false, not, ◌≡◌, ◌≢◌, refl}
use xrayctl.Core.Error.{ManagerError, privilege_required, Result, ok, err, is_ok, fail_if}
use xrayctl.Core.Backends.Tasks.{
  Service, Task, proceed, ◌>>=◌, return, attempt, or_after, on_error, call,
}
use xrayctl.Core.Operations.{Operation, requires_administrator}
use xrayctl.Core.Application.Steps.{
  IsSilent, >>=-IsSilent, return-IsSilent, call-IsSilent, emit-IsSilent, on_error-IsSilent,
}
use xrayctl.Core.Execution.{Operator, OperationOptions, OperationResult}
use xrayctl.Core.Execution.Run.{check_privilege, execute_inner, reported, execute}
use xrayctl.Core.Execution.Untouched.{Looks, refuse-IsSilent, plan_internal-IsSilent}

proceed-fails :
    {W T U : Type 0} (next : T → Task W U) (r : Result T × Service W)
    → is_ok r.0 ≡ false
    → is_ok (proceed r next).0 ≡ false
proceed-fails next (ok x, s) h = cc h
proceed-fails next (err e, s) h = refl

proceed-kept :
    {W T U : Type 0} (next : T → Task W U) (r : Result T × Service W)
    → is_ok r.0 ≡ false
    → (proceed r next).1 ≡ r.1
proceed-kept next (ok x, s) h = cc h
proceed-kept next (err e, s) h = refl

err_last :
    {W : Type 0} (T : Type 0) (e : ManagerError) (r : Result (Unit {0}) × Service W)
    → is_ok (proceed r (λ _. return {T = T} (err e))).0 ≡ false
unfolding return
err_last T e (ok _, s) = refl
err_last T e (err f, s) = refl

not_elevated :
    {W : Type 0} (r : Result Bool) (s : Service W)
    → r ≢ ok true
    → is_ok (proceed (r, s) (λ elevated. return (fail_if (not elevated) privilege_required))).0
      ≡ false
unfolding return
not_elevated (ok true) s h = absurd (h refl)
not_elevated (ok false) s h = refl
not_elevated (err e) s h = refl

after-fails :
    {W T : Type 0} (handler : ManagerError → Task W (Unit {0})) (r : Result T) (s : Service W)
    → is_ok r ≡ false
    → is_ok (or_after r handler s).0 ≡ false
unfolding ◌>>=◌ return
after-fails handler (ok x) s h = cc h
after-fails {T} handler (err e) s h = err_last T e (handler e s)

module _ {W O : Type 0} (observe : W → O) where
  -- The task fails, and nothing that is observed is changed.
  pub record IsRefused {T : Type 0} (task : Task W T) : Type 0 where
    pub silent : IsSilent observe task
    pub fails : (s : Service W) → is_ok (task s).0 ≡ false

module _ {W O : Type 0} {observe : W → O} where
  proceed-then_fails :
      {T U : Type 0} (next : T → Task W U) (r : Result T × Service W)
      → ((x : T) → IsRefused observe (next x))
      → is_ok (proceed r next).0 ≡ false
  proceed-then_fails next (ok x, s) k = (k x).fails s
  proceed-then_fails next (err e, s) k = refl

  -- Refused at once, and refused in the end.
  now-IsRefused :
      {T U : Type 0} {task : Task W T} (next : T → Task W U)
      → IsRefused observe task
      → IsRefused observe (task >>= next)
  unfolding ◌>>=◌
  now-IsRefused {task} next q = record {
    silent = record { kept = λ s. rw (proceed-kept next (task s) (q.fails s)) (q.silent.kept s) };
    fails = λ s. proceed-fails next (task s) (q.fails s);
  }

  then-IsRefused :
      {T U : Type 0} {task : Task W T} {next : T → Task W U}
      → IsSilent observe task
      → ((x : T) → IsRefused observe (next x))
      → IsRefused observe (task >>= next)
  unfolding ◌>>=◌
  then-IsRefused {task} {next} q k = record {
    silent = >>=-IsSilent q (λ x. (k x).silent);
    fails = λ s. proceed-then_fails next (task s) k;
  }

  error-IsRefused : {T : Type 0} (e : ManagerError) → IsRefused observe {T = T} (return (err e))
  unfolding return
  error-IsRefused e = record { silent = return-IsSilent _; fails = λ s. refl }

  on_error-IsRefused :
      {T : Type 0} {handler : ManagerError → Task W (Unit {0})} {task : Task W T}
      → ((e : ManagerError) → IsSilent observe (handler e))
      → IsRefused observe task
      → IsRefused observe (on_error handler task)
  unfolding on_error ◌>>=◌ attempt
  on_error-IsRefused {handler} {task} k q = record {
    silent = on_error-IsSilent k q.silent;
    fails = λ s. after-fails handler (task s).0 (task s).1 (q.fails s);
  }

module _ {W O : Type 0} (o : Operator W) (observe : W → O) (looks : Looks o observe) where
  asked_in_vain :
      (s : Service W)
      → (o.operating.is_elevated s.world).0 ≢ ok true
      → is_ok
          ((call o.operating.is_elevated >>= λ elevated.
              return (fail_if (not elevated) privilege_required))
            s).0
        ≡ false
  unfolding ◌>>=◌ call
  asked_in_vain s h = not_elevated (o.operating.is_elevated s.world).0 _ h

  unprivileged-IsRefused :
      (op : Operation) (options : OperationOptions)
      → options.dry_run ≡ false
      → requires_administrator op ≡ true
      → ((w : W) → (o.operating.is_elevated w).0 ≢ ok true)
      → IsRefused observe (check_privilege o op options)
  unfolding check_privilege
  unprivileged-IsRefused op options d a h =
      rw (d, a)
        (record {
          silent =
              >>=-IsSilent (call-IsSilent _ looks.checks_privilege) (λ elevated. return-IsSilent _);
          fails = λ s. asked_in_vain s (h s.world);
        })

  execute_inner-IsRefused :
      (op : Operation) (options : OperationOptions)
      → IsRefused observe (check_privilege o op options)
      → IsRefused observe (execute_inner o op options)
  unfolding execute_inner
  execute_inner-IsRefused op options h =
      then-IsRefused (refuse-IsSilent o observe looks op options) (λ _.
        then-IsRefused (plan_internal-IsSilent o observe looks op (not options.dry_run))
          (λ plan. now-IsRefused _ h))

  reported-IsRefused :
      (op : Operation) (task : Task W OperationResult)
      → IsRefused observe task
      → IsRefused observe (reported o op task)
  unfolding reported
  reported-IsRefused op task h =
      then-IsRefused (emit-IsSilent _ _ looks.emits)
        (λ _. now-IsRefused _ (on_error-IsRefused (λ e. emit-IsSilent _ _ looks.emits) h))

  -- Without administrator privileges, the execution of an operation that requires them fails and
  -- changes nothing that is observed of the world, and not the state in memory, if making a plan and
  -- sending an event do not.
  pub execute-IsRefused :
      (op : Operation) (options : OperationOptions)
      → options.dry_run ≡ false
      → requires_administrator op ≡ true
      → ((w : W) → (o.operating.is_elevated w).0 ≢ ok true)
      → IsRefused observe (execute o op options)
  unfolding execute
  execute-IsRefused op options d a h =
      reported-IsRefused op (execute_inner o op options)
        (execute_inner-IsRefused op options (unprivileged-IsRefused op options d a h))
