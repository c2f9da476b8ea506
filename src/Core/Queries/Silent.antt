-- ===== src/Core/Queries/Silent.antt =====
-- What queries leave alone.
use xrayctl.Common.{ℕ, String, Bool, true, false, List, [], ◌∷◌, refl}
use xrayctl.Core.Config.{ManagerConfig}
use xrayctl.Core.Domain.{Node}
use xrayctl.Core.Backends.{Location, Action, ManagerPaths, XrayTestRequest}
use xrayctl.Core.Backends.Tasks.{Task, attempt, call, current_state}
use xrayctl.Core.Application.{paths, has_extension, load_nodes, load_routing}
use xrayctl.Core.Application.Steps.{
  IsSilent, >>=-IsSilent, return-IsSilent, call-IsSilent, if-IsSilent,
}
use xrayctl.Core.Execution.Files.{
  read_subscription_file, read_profile_file, load_all, load_subscriptions, load_app_profiles,
}
use xrayctl.Core.Execution.Untouched.{IsQuiet}
use xrayctl.Core.Queries.{
  Reader, Query, status, doctor, nodes, current_node, routing, assets, core, service_logs,
  service_status, proxy_show, proxy_env, tun_status, subscriptions, routing_validate,
  routing_presets, node_probe, routing_explain, asset_show, core_list, proxy_test, tun_show_rules,
  tun_test, app_list, menu_settings,
}
use xrayctl.Core.Queries.Doctor.{
  installed, missing_paths, config_checks, health_checks, tun_checks, full_checks, more_checks,
  examine,
}
use xrayctl.Core.Queries.Answers.{test_proxy, test_tun, show_tun, probe_node, query}

module _ {W O : Type 0} (r : Reader W) (observe : W → O) where
  abbrev Quiet : {T : Type 0} → Action W T → Type 0
  Quiet action = IsQuiet r.operator observe action

  -- The ports that look, or try.
  pub record Asks : Type 0 where
    pub finds_paths : Quiet r.operator.manager.backends.paths
    pub exists : (path : Location) → Quiet (r.operator.manager.backends.exists path)
    pub reads : (path : Location) → Quiet (r.operator.manager.backends.read path)
    pub lists : (path : Location) → Quiet (r.operator.manager.backends.list_files path)
    pub tests :
        (request : XrayTestRequest) → Quiet (r.operator.manager.backends.test_config request)
    pub healthcheck : (c : ManagerConfig) → Quiet (r.operator.manager.backends.healthcheck c)
    pub is_active : (service : String) → Quiet (r.operator.operating.is_active service)
    pub tun_status : (interface : String) → Quiet (r.operator.operating.tun_status interface)
    pub finds_missing : Quiet r.operator.operating.missing_requirements
    pub is_elevated : Quiet r.operator.operating.is_elevated
    pub inspects : Quiet r.inspect
    pub logs : (service : String) (lines : ℕ) → Quiet (r.logs service lines)
    pub shows_firewall : Quiet r.show_firewall
    pub shows_routing : (c : ManagerConfig) → Quiet (r.show_routing c)
    pub probes : (node : Node) (c : ManagerConfig) → Quiet (r.probe node c)

module _ {W O : Type 0} {observe : W → O} where
  attempted :
      {T : Type 0} {task : Task W T} → IsSilent observe task → IsSilent observe (attempt task)
  unfolding attempt
  attempted q = record { kept = λ s. q.kept s }

  state-IsSilent : IsSilent observe (current_state {W = W})
  unfolding current_state
  state-IsSilent = record { kept = λ s. refl }

module _ {W O : Type 0} (r : Reader W) (observe : W → O) (asks : Asks r observe) where
  asked :
      {T : Type 0} (action : Action W T)
      → IsQuiet r.operator observe action
      → IsSilent observe (call action)
  asked action q = call-IsSilent action q

  tried :
      {T : Type 0} (action : Action W T)
      → IsQuiet r.operator observe action
      → IsSilent observe (attempt (call action))
  tried action q = attempted (asked action q)

  paths-IsSilent : IsSilent observe (paths r.operator.manager)
  paths-IsSilent = asked _ asks.finds_paths

  load_nodes-IsSilent : IsSilent observe (load_nodes r.operator.manager)
  unfolding load_nodes
  load_nodes-IsSilent = >>=-IsSilent paths-IsSilent (λ p.
      >>=-IsSilent (asked _ (asks.exists _)) (λ there.
        if-IsSilent there (>>=-IsSilent (asked _ (asks.reads _)) (λ bytes. return-IsSilent _))
          (return-IsSilent _)))

  load_routing-IsSilent : IsSilent observe (load_routing r.operator.manager)
  unfolding load_routing
  load_routing-IsSilent = >>=-IsSilent paths-IsSilent (λ p.
      >>=-IsSilent (asked _ (asks.exists _)) (λ there.
        if-IsSilent there
          (>>=-IsSilent (asked _ (asks.reads _))
            (λ text. >>=-IsSilent (return-IsSilent _) (λ c. return-IsSilent _)))
          (>>=-IsSilent (return-IsSilent _) (λ c. return-IsSilent _))))

  load_all-IsSilent :
      {A : Type 0} (load : Location → Task W A) (files : List Location)
      → ((path : Location) → IsSilent observe (load path))
      → IsSilent observe (load_all r.operator load files)
  unfolding load_all
  load_all-IsSilent load [] q = return-IsSilent _
  load_all-IsSilent load (path ∷ more) q =
      if-IsSilent (has_extension "toml" path)
        (>>=-IsSilent (q path)
          (λ x. >>=-IsSilent (load_all-IsSilent load more q) (λ xs. return-IsSilent _)))
        (load_all-IsSilent load more q)

  load_subscriptions-IsSilent : IsSilent observe (load_subscriptions r.operator)
  unfolding load_subscriptions read_subscription_file
  load_subscriptions-IsSilent = >>=-IsSilent paths-IsSilent (λ p.
      >>=-IsSilent (asked _ (asks.lists _)) (λ files.
        >>=-IsSilent
          (load_all-IsSilent (read_subscription_file r.operator) files (λ path.
            >>=-IsSilent (asked _ (asks.reads path)) (λ text.
              >>=-IsSilent (return-IsSilent _)
                (λ s. >>=-IsSilent (return-IsSilent _) (λ _. return-IsSilent _)))))
          (λ subscriptions. return-IsSilent _)))

  load_app_profiles-IsSilent : IsSilent observe (load_app_profiles r.operator)
  unfolding load_app_profiles read_profile_file
  load_app_profiles-IsSilent = >>=-IsSilent paths-IsSilent (λ p.
      >>=-IsSilent (asked _ (asks.lists _)) (λ files.
        >>=-IsSilent
          (load_all-IsSilent (read_profile_file r.operator) files (λ path.
            >>=-IsSilent (asked _ (asks.reads path)) (λ text.
              >>=-IsSilent (return-IsSilent _)
                (λ s. >>=-IsSilent (return-IsSilent _) (λ _. return-IsSilent _)))))
          (λ profiles. return-IsSilent _)))

  missing_paths-IsSilent : (files : List Location) → IsSilent observe (missing_paths r files)
  unfolding missing_paths
  missing_paths-IsSilent [] = return-IsSilent _
  missing_paths-IsSilent (path ∷ more) =
      >>=-IsSilent (asked _ (asks.exists path))
        (λ there. >>=-IsSilent (missing_paths-IsSilent more) (λ rest. return-IsSilent _))

  config_checks-IsSilent :
      (p : ManagerPaths) (lacking : List String) → IsSilent observe (config_checks r p lacking)
  config_checks-IsSilent p [] = >>=-IsSilent (tried _ (asks.tests _)) (λ valid. return-IsSilent _)
  config_checks-IsSilent p (path ∷ more) = return-IsSilent _

  health_checks-IsSilent : (b : Bool) → IsSilent observe (health_checks r b)
  health_checks-IsSilent false = return-IsSilent _
  health_checks-IsSilent true =
      >>=-IsSilent (tried _ (asks.healthcheck _)) (λ health. return-IsSilent _)

  tun_checks-IsSilent : (b : Bool) → IsSilent observe (tun_checks r b)
  tun_checks-IsSilent false = return-IsSilent _
  tun_checks-IsSilent true = >>=-IsSilent (tried _ (asks.tun_status _)) (λ interface.
      >>=-IsSilent (tried _ asks.shows_firewall)
        (λ firewall. >>=-IsSilent (tried _ (asks.shows_routing _)) (λ policy. return-IsSilent _)))

  full_checks-IsSilent : IsSilent observe (full_checks r)
  unfolding full_checks
  full_checks-IsSilent = >>=-IsSilent (tried _ asks.finds_missing) (λ missing.
      >>=-IsSilent (return-IsSilent _) (λ packages.
        >>=-IsSilent (tried _ (asks.is_active _)) (λ service.
          >>=-IsSilent (return-IsSilent _) (λ active. >>=-IsSilent paths-IsSilent (λ p.
            >>=-IsSilent (missing_paths-IsSilent (installed r p)) (λ lacking.
              >>=-IsSilent (config_checks-IsSilent p lacking) (λ config.
                >>=-IsSilent state-IsSilent (λ state.
                  >>=-IsSilent (health_checks-IsSilent _) (λ health.
                    >>=-IsSilent (tun_checks-IsSilent _) (λ tun. return-IsSilent _))))))))))

  more_checks-IsSilent : (quick : Bool) → IsSilent observe (more_checks r quick)
  more_checks-IsSilent true = return-IsSilent _
  more_checks-IsSilent false = full_checks-IsSilent

  examine-IsSilent : (quick : Bool) → IsSilent observe (examine r quick)
  unfolding examine
  examine-IsSilent quick = >>=-IsSilent (asked _ asks.inspects) (λ platform.
      >>=-IsSilent (asked _ asks.is_elevated)
        (λ elevated. >>=-IsSilent (more_checks-IsSilent quick) (λ more. return-IsSilent _)))

  probe_node-IsSilent : (id : String) → IsSilent observe (probe_node r id)
  unfolding probe_node
  probe_node-IsSilent id = >>=-IsSilent load_nodes-IsSilent (λ stored.
      >>=-IsSilent (return-IsSilent _)
        (λ node. >>=-IsSilent (asked _ (asks.probes node _)) (λ result. return-IsSilent _)))

  test_proxy-IsSilent : IsSilent observe (test_proxy r)
  unfolding test_proxy
  test_proxy-IsSilent = >>=-IsSilent (asked _ (asks.is_active _)) (λ active.
      >>=-IsSilent (return-IsSilent _)
        (λ _. >>=-IsSilent (asked _ (asks.healthcheck _)) (λ _. return-IsSilent _)))

  test_tun-IsSilent : IsSilent observe (test_tun r)
  unfolding test_tun
  test_tun-IsSilent = >>=-IsSilent (asked _ (asks.is_active _)) (λ active.
      >>=-IsSilent (asked _ (asks.tun_status _)) (λ interface.
        >>=-IsSilent (tried _ asks.shows_firewall) (λ firewall.
          >>=-IsSilent (asked _ (asks.shows_routing _)) (λ policy. return-IsSilent _))))

  show_tun-IsSilent : IsSilent observe (show_tun r)
  unfolding show_tun
  show_tun-IsSilent =
      >>=-IsSilent (asked _ asks.shows_firewall)
        (λ firewall. >>=-IsSilent (asked _ (asks.shows_routing _)) (λ policy. return-IsSilent _))

  -- A query of any kind but `NodeProbeAll`, which starts the queue of probes and reports what each
  -- gives, changes nothing that is observed of the world, and not the state in memory, if the ports
  -- that look or try do not.
  pub query-IsSilent : (q : Query) → IsSilent observe (query r q)
  unfolding query
  query-IsSilent status = >>=-IsSilent state-IsSilent (λ s. return-IsSilent _)
  query-IsSilent (doctor quick) = examine-IsSilent quick
  query-IsSilent nodes = >>=-IsSilent load_nodes-IsSilent (λ stored. return-IsSilent _)
  query-IsSilent current_node = >>=-IsSilent state-IsSilent (λ s. return-IsSilent _)
  query-IsSilent routing = >>=-IsSilent load_routing-IsSilent (λ found. return-IsSilent _)
  query-IsSilent assets = >>=-IsSilent state-IsSilent (λ s. return-IsSilent _)
  query-IsSilent core = >>=-IsSilent state-IsSilent (λ s. return-IsSilent _)
  query-IsSilent (service_logs lines) =
      >>=-IsSilent (asked _ (asks.logs _ lines)) (λ text. return-IsSilent _)
  query-IsSilent service_status =
      >>=-IsSilent (asked _ (asks.is_active _)) (λ active. return-IsSilent _)
  query-IsSilent proxy_show = return-IsSilent _
  query-IsSilent proxy_env = return-IsSilent _
  query-IsSilent tun_status =
      >>=-IsSilent (asked _ (asks.tun_status _)) (λ active. return-IsSilent _)
  query-IsSilent subscriptions =
      >>=-IsSilent load_subscriptions-IsSilent (λ stored. return-IsSilent _)
  query-IsSilent routing_validate = >>=-IsSilent load_routing-IsSilent (λ found. return-IsSilent _)
  query-IsSilent routing_presets = return-IsSilent _
  query-IsSilent (node_probe id) = probe_node-IsSilent id
  query-IsSilent (routing_explain name) =
      >>=-IsSilent load_routing-IsSilent (λ found. return-IsSilent _)
  query-IsSilent (asset_show id) = >>=-IsSilent (return-IsSilent _) (λ asset. return-IsSilent _)
  query-IsSilent core_list = >>=-IsSilent state-IsSilent (λ s. return-IsSilent _)
  query-IsSilent proxy_test = test_proxy-IsSilent
  query-IsSilent tun_show_rules = show_tun-IsSilent
  query-IsSilent tun_test = test_tun-IsSilent
  query-IsSilent app_list = >>=-IsSilent load_app_profiles-IsSilent (λ profiles. return-IsSilent _)
  query-IsSilent menu_settings = return-IsSilent _
