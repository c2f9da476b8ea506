-- ===== src/Core/Application/Silence.antt =====
-- The steps of an activation that neither touch the pointers nor the state.
use xrayctl.Common.{List, [], ◌∷◌, ap, String, Option, refl}
use xrayctl.Core.Json.{Value}
use xrayctl.Core.Domain.{Node}
use xrayctl.Core.Backends.{Location, ◌/◌, ManagerPaths}
use xrayctl.Core.Application.{Manager, paths, load_routing, has_extension}
use xrayctl.Core.Application.Activation.{
  candidate_of, read_fragments, new_generation, write_file, discard, test, check_candidate,
  configure_tun, activate, prune,
}
use xrayctl.Core.Application.Observed.{Observed, Laws}
use xrayctl.Core.Application.Steps.{
  IsSilent, >>=-IsSilent, return-IsSilent, call-IsSilent, emit-IsSilent, ignore-IsSilent,
  on_error-IsSilent, if-IsSilent,
}

module _ {W : Type 0} (m : Manager W) (p : ManagerPaths) (observe : W → Observed)
    (laws : Laws m p observe) where
  pub paths-IsSilent : IsSilent observe (paths m)
  paths-IsSilent = call-IsSilent m.backends.paths (λ w. ap (λ r. observe r.1) (laws.paths w))

  pub load_routing-IsSilent : IsSilent observe (load_routing m)
  unfolding load_routing
  load_routing-IsSilent = >>=-IsSilent paths-IsSilent (λ q.
      >>=-IsSilent (call-IsSilent _ (laws.looks _)) (λ there.
        if-IsSilent there
          (>>=-IsSilent (call-IsSilent _ (laws.reads _))
            (λ text. >>=-IsSilent (return-IsSilent _) (λ r. return-IsSilent _)))
          (>>=-IsSilent (return-IsSilent _) (λ r. return-IsSilent _))))

  pub read_fragments-IsSilent : (files : List Location) → IsSilent observe (read_fragments m files)
  unfolding read_fragments
  read_fragments-IsSilent [] = return-IsSilent _
  read_fragments-IsSilent (path ∷ more) =
      if-IsSilent (has_extension "json" path)
        (>>=-IsSilent (call-IsSilent _ (laws.reads path)) (λ bytes.
          >>=-IsSilent (return-IsSilent _)
            (λ value. >>=-IsSilent (read_fragments-IsSilent more) (λ values. return-IsSilent _))))
        (read_fragments-IsSilent more)

  pub new_generation-IsSilent : IsSilent observe (new_generation m)
  unfolding new_generation
  new_generation-IsSilent = record { kept = λ s. refl }

  pub write_file-IsSilent :
      (generation : String) (file : String × Value)
      → IsSilent observe (write_file m (p.state_dir / "generations" / generation / "conf.d") file)
  unfolding write_file
  write_file-IsSilent generation (name, value) =
      >>=-IsSilent (return-IsSilent _)
        (λ bytes. call-IsSilent _ (laws.writes_files generation name bytes _))

  pub discard-IsSilent :
      (generation : String) → IsSilent observe (discard m (candidate_of p generation))
  unfolding discard
  discard-IsSilent generation = ignore-IsSilent (call-IsSilent _ (laws.removes generation))

  pub check_candidate-IsSilent :
      (generation : String) → IsSilent observe (check_candidate m (candidate_of p generation))
  unfolding check_candidate test
  check_candidate-IsSilent generation = >>=-IsSilent (emit-IsSilent _ _ laws.emits) (λ _.
      >>=-IsSilent
        (on_error-IsSilent
          (λ e. >>=-IsSilent (emit-IsSilent _ _ laws.emits) (λ _. discard-IsSilent generation))
          (call-IsSilent _ (laws.tests _)))
        (λ _. >>=-IsSilent (emit-IsSilent _ _ laws.emits) (λ _.
          on_error-IsSilent (λ e. discard-IsSilent generation)
            (call-IsSilent _ (laws.owns _ _ _ _)))))

  pub configure_tun-IsSilent : IsSilent observe (configure_tun m)
  unfolding configure_tun
  configure_tun-IsSilent =
      if-IsSilent m.config.tun.enabled
        (>>=-IsSilent (call-IsSilent _ (laws.enables _)) (λ _. call-IsSilent _ (laws.starts _)))
        (>>=-IsSilent (ignore-IsSilent (call-IsSilent _ (laws.stops _))) (λ _.
          >>=-IsSilent (call-IsSilent _ (laws.unroutes _)) (λ _.
            >>=-IsSilent (call-IsSilent _ laws.opens_firewall)
              (λ _. call-IsSilent _ (laws.disables _)))))

  pub activate-IsSilent : (selected : Option Node) → IsSilent observe (activate m selected)
  unfolding activate
  activate-IsSilent selected = >>=-IsSilent configure_tun-IsSilent (λ _.
      >>=-IsSilent (call-IsSilent _ (laws.enables _)) (λ _.
        >>=-IsSilent (call-IsSilent _ (laws.restarts _))
          (λ _. if-IsSilent _ (call-IsSilent _ (laws.checks_health _)) (return-IsSilent _))))

  pub prune-IsSilent :
      (generation : String) → IsSilent observe (prune m (candidate_of p generation))
  unfolding prune
  prune-IsSilent generation = ignore-IsSilent (call-IsSilent _ (laws.prunes _))
