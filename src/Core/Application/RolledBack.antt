-- ===== src/Core/Application/RolledBack.antt =====
-- The pointers and the state after the operation `ConfigRollback`, kept or undone.
use xrayctl.Common.{
  String, true, false, none, some, ◌≡◌, ◌⊎◌, inl, inr, refl, sym, subst, ap, ◌∙◌, Option-cases,
}
use xrayctl.Core.Error.{ManagerError, Result, ok, err, is_ok}
use xrayctl.Core.Domain.{ManagerState}
use xrayctl.Core.Backends.{Location, ◌/◌, ManagerPaths}
use xrayctl.Core.Backends.Tasks.{Service, call}
use xrayctl.Core.Application.{Manager, write_state}
use xrayctl.Core.Application.Rollback.{commit_generation_rollback, swapped, config_rollback}
use xrayctl.Core.Application.Observed.{Observed, Laws, pointed, stored, or_kept}
use xrayctl.Core.Application.Steps.{At, View, view, Gives, call-IsSilent, ignore-IsSilent}
use xrayctl.Core.Application.Given.{
  >>=-Gives, return-Gives, on_error-Gives, IsSilent-Gives, Gives-mono, Gives-given, ignored_then,
  current_then,
}
use xrayctl.Core.Application.Outcome.{Wrote, write_state-Wrote, with_paths-Gives}
use xrayctl.Core.Application.Recovery.{link, Persisted, InStep}
use xrayctl.Core.Application.Exchange.{rolled, Exchanged, Underway, activate_rollback-Underway}

module _ {W : Type 0} (m : Manager W) (p : ManagerPaths) (observe : W → Observed)
    (laws : Laws m p observe) where
  -- The file may hold other bytes, if it can be written.
  abbrev Dirty : View → View → Type 0
  Dirty v u = (u ≡ v) ⊎ ((v.0.writable ≡ true) × ((bytes : String) × (u.0 ≡ stored bytes v.0)))

  saved_back :
      (v : View) (bytes : String)
      → InStep m p v
      → m.formats.write_state v.1 ≡ ok bytes
      → InStep m p (stored bytes v.0, v.1)
  saved_back v bytes i q = record {
    current = i.current;
    previous = i.previous;
    chained = i.chained;
    persisted = q;
  }

  Wrote-back :
      (v : View) (r : Result (Unit {0})) (u : View)
      → InStep m p v
      → Wrote m p observe laws v.0 v.1 v.1 r u
      → InStep m p u × (u.1 ≡ v.1)
  Wrote-back v (ok _) u i (_, (b, q, e)) =
      subst (λ x. InStep m p x × (x.1 ≡ v.1)) (sym e) (saved_back v b i q, refl)
  Wrote-back v (err f) u i (_, e) = subst (λ x. InStep m p x × (x.1 ≡ v.1)) (sym e) (i, refl)

  Wrote-over :
      (v : View) (bytes : String) (x : ManagerState) (r : Result (Unit {0})) (u : View)
      → InStep m p v
      → v.0.writable ≡ true
      → Wrote m p observe laws (stored bytes v.0) x v.1 r u
      → InStep m p u × (u.1 ≡ v.1)
  Wrote-over v bytes x (ok _) u i w (_, (b, q, e)) =
      subst (λ x. InStep m p x × (x.1 ≡ v.1)) (sym e) (saved_back v b i q, refl)
  Wrote-over v bytes x (err f) u i w (n, _) = cc (n, w)

  write_back :
      (v : View)
      → InStep m p v
      → Gives observe (Dirty v) (write_state m v.1) (λ r u. InStep m p u × (u.1 ≡ v.1))
  write_back v i = record {
    given = λ s h. elim h [
      | inl e ↦
          (Gives-mono _ (write_state-Wrote m p observe laws v.0 v.1 v.1)
              (λ r u k. Wrote-back v r u i k)).given
            s e
      | inr (w, (bytes, e)) ↦
          (Gives-mono _ (write_state-Wrote m p observe laws (stored bytes v.0) s.state v.1)
              (λ r u k. Wrote-over v bytes s.state r u i w k)).given
            s (ap (λ (o : Observed). (o, s.state)) e)
    ];
  }

  undo_rolled :
      (c t : Location) (v : View) (e : ManagerError)
      → v.0.current ≡ some c
      → v.0.previous ≡ some t
      → Gives observe
          (Underway m p observe laws c t v (err e))
          (call
            (m.backends.rollback_generation (p.state_dir / "current") (p.state_dir / "previous")))
          (λ r u. Dirty v u)
  undo_rolled c t v e h k =
      let o = pointed (some t) (some c) v.0 in
      let back : pointed (some c) (some t) o ≡ v.0 = rw (← h, ← k) refl in
      record {
        given = λ s d. elim d [
          | inl q ↦
              (Gives-mono _ {R = λ r. Dirty v} (rolled m p observe laws o v.1 t c refl refl)
                  (λ r u x. inl (x.1 ∙ ap (λ (y : Observed). (y, v.1)) back))).given
                s q
          | inr (w, (bytes, q)) ↦
              (Gives-mono _ {R = λ r. Dirty v}
                  (rolled m p observe laws (stored bytes o) s.state t c refl refl)
                  (λ r u x.
                    inr (w, (bytes, ap (λ (y : View). y.0) x.1 ∙ ap (stored bytes) back)))).given
                s (ap (λ (y : Observed). (y, s.state)) q)
        ];
      }

  abbrev pub RolledBack : View → Result (Unit {0}) → View → Type 0
  RolledBack v (ok _) u = InStep m p u × Exchanged m p observe laws v.1 u.1
  RolledBack v (err e) u = InStep m p u × (u.1 ≡ v.1)

  Underway-InStep :
      (c t : Location) (v u : View)
      → InStep m p v
      → v.0.current ≡ some c
      → v.0.previous ≡ some t
      → Underway m p observe laws c t v (ok tt) u
      → InStep m p u × Exchanged m p observe laws v.1 u.1
  Underway-InStep c t v u i h k (bytes, q, e, x) = (
    record {
      current =
          ap (λ (o : Observed). o.current) e
          ∙ (sym k
              ∙ (i.previous
                  ∙ sym (ap (λ (y : ManagerState). link m p y.current_config_generation) x)));
      previous =
          ap (λ (o : Observed). o.previous) e
          ∙ (sym h
              ∙ (i.current
                  ∙ sym (ap (λ (y : ManagerState). link m p y.previous_config_generation) x)));
      chained = subst (λ (o : Observed). or_kept o.current o.previous ≡ o.current) (sym e) refl;
      persisted = subst (λ (o : Observed). Persisted m p o.saved u.1) (sym e) q;
    },
    x,
  )

  commit-RolledBack :
      (c t : Location) (v : View)
      → InStep m p v
      → v.0.current ≡ some c
      → v.0.previous ≡ some t
      → Gives observe
          (At (pointed (some t) (some c) v.0, v.1))
          (commit_generation_rollback m
            (p.state_dir / "current")
            (p.state_dir / "previous")
            v.1
            (swapped m v.1)
            "configuration")
          (RolledBack v)
  unfolding commit_generation_rollback
  commit-RolledBack c t v i h k =
      on_error-Gives _ (activate_rollback-Underway m p observe laws c t v)
        (λ _ u d. Underway-InStep c t v u i h k d)
        (λ e.
          >>=-Gives {Q = λ r u. InStep m p u × (u.1 ≡ v.1)}
            (ignored_then (Dirty v) (undo_rolled c t v e h k) (
              >>=-Gives (write_back v i)
                (λ _.
                  IsSilent-Gives (ignore-IsSilent (call-IsSilent _ (laws.restarts "xray.service"))))
                (λ f u d. d)))
            (λ _. return-Gives (err e) (λ u d. d)) (λ f u d. d))

  from_both :
      (c t : Location) (v : View)
      → InStep m p v
      → v.0.current ≡ some c
      → v.0.previous ≡ some t
      → Gives observe (At v) (config_rollback m) (RolledBack v)
  unfolding config_rollback
  from_both c t v i h k = with_paths-Gives m p observe laws _ (
      current_then v _ (
        >>=-Gives (rolled m p observe laws v.0 v.1 c t h k)
          (λ _. Gives-given _ (λ u d. d.1) (commit-RolledBack c t v i h k)) (λ e u d. cc (d.0))))

  refused :
      (v : View)
      → v.0.previous ≡ none
      → Gives observe
          (At v)
          (call
            (m.backends.rollback_generation (p.state_dir / "current") (p.state_dir / "previous")))
          (λ r u. (is_ok r ≡ false) × (u ≡ v))
  unfolding call
  refused v k = record {
    given = λ s e.
        let l = laws.cannot_roll_back s.world (ap (λ (u : View). u.0.previous) e ∙ k) in
        (l.0, ap (λ (y : Observed). (y, s.state)) l.1 ∙ e);
  }

  from_one :
      (v : View)
      → InStep m p v
      → v.0.previous ≡ none
      → Gives observe (At v) (config_rollback m) (RolledBack v)
  unfolding config_rollback
  from_one v i k = with_paths-Gives m p observe laws _ (
      current_then v _ (
        >>=-Gives (refused v k) (λ _. record { given = λ s d. cc (d.0) })
          (λ e u d. subst (λ x. InStep m p x × (x.1 ≡ v.1)) (sym (d.1)) (i, refl))))

  -- There is no previous generation without a current one.
  has_current :
      (v : View) {t : Location} → InStep m p v → v.0.previous ≡ some t → v.0.current ≡ none → ⊥
  has_current v i k n =
      let q : or_kept none v.0.previous ≡ none =
        subst (λ x. or_kept x v.0.previous ≡ x) n i.chained in
      cc (q, k)

  -- From a service in step, the rollback of the configuration ends in step on every path. If it
  -- succeeds, current and previous generation have changed places in the state; if it fails, the
  -- state is as it was. The laws of the ports are assumed, as for `apply_config`.
  pub config_rollback-InStep :
      (s : Service W)
      → InStep m p (view observe s)
      → RolledBack (view observe s) (config_rollback m s).0 (view observe (config_rollback m s).1)
  config_rollback-InStep s i = elim (Option-cases (observe s.world).previous) [
    | inl k ↦ (from_one (view observe s) i k).given s refl
    | inr (t, k) ↦ elim (Option-cases (observe s.world).current) [
      | inl n ↦ absurd (has_current (view observe s) i k n)
      | inr (c, h) ↦ (from_both c t (view observe s) i h k).given s refl
    ]
  ]
