-- ===== src/Core/Application/Activation.antt =====
-- `apply_config` of application.rs.
use xrayctl.Common.{
  ℕ, String, ◌<>◌, ◌+◌, true, Option, none, some, List, [], ◌∷◌, show, is_some, if◌then◌else◌,
}
use xrayctl.Core.Error.{ManagerError, ok, code, to_text}
use xrayctl.Core.Events.{
  config_validation_started, config_validation_succeeded, config_validation_failed,
  service_restart_started, service_restart_succeeded, rollback_started, rollback_succeeded,
}
use xrayctl.Core.Domain.{Node, ManagerState}
use xrayctl.Core.Json.{Value}
use xrayctl.Core.Backends.{Location, ◌/◌, ManagerPaths}
use xrayctl.Core.Backends.Tasks.{
  Task, ◌>>=◌, ◌>>◌, return, ignore, on_error, call, each, emit, current_state,
}
use xrayctl.Core.Application.{Manager, paths, write_state, load_routing, has_extension}

-- The paths and the name of a generation that is being made.
pub record Candidate : Type 0 where
  pub generation : String
  pub root : Location
  pub path : Location
  pub current : Location
  pub previous : Location
  pub install_dir : Location

abbrev pub name_generation : ℕ → ℕ → ℕ → String
name_generation time process counter = show time <> ("-" <> (show process <> ("-" <> show counter)))

abbrev pub candidate_of : ManagerPaths → String → Candidate
candidate_of p generation = record {
  generation = generation;
  root = p.state_dir / "generations";
  path = p.state_dir / "generations" / generation;
  current = p.state_dir / "current";
  previous = p.state_dir / "previous";
  install_dir = p.install_dir;
}

module _ {W : Type 0} (m : Manager W) where
  -- The loop over the files of `fragments.d`.
  unfoldable pub read_fragments : List Location → Task W (List Value)
  read_fragments [] = return (ok [])
  read_fragments (path ∷ more) =
      let rest = read_fragments more in
      if has_extension "json" path
      then (call (m.backends.read path) >>= λ bytes. return (m.formats.read_json bytes) >>= λ value.
          rest >>= λ values. return (ok (value ∷ values)))
      else rest

  -- `GENERATION_COUNTER.fetch_add(1)`, in the name of the generation.
  unfoldable pub new_generation : Task W String
  new_generation s = (
    ok (name_generation (m.backends.unix_timestamp s.world) m.backends.process_id s.counter),
    record { state = s.state; counter = s.counter + 1; world = s.world },
  )

  unfoldable pub write_file : Location → String × Value → Task W (Unit {0})
  write_file directory (name, value) = do
    bytes ← return (m.formats.write_json value)
    call (m.backends.write_atomic (directory / name) bytes (some 0o640))

  -- From the beginning to the files of the candidate.
  unfoldable pub prepare : Option Node → Task W Candidate
  prepare selected = do
    p ← paths m
    (routing, _) ← load_routing m
    files ← call (m.backends.list_files (p.config_dir / "fragments.d"))
    fragments ← read_fragments files
    rendered ← return (m.render selected routing fragments)
    generation ← new_generation
    let c = candidate_of p generation
    let config_dir = c.path / "conf.d"
    call (m.backends.create_dir_all config_dir)
    call (m.backends.set_permissions c.path 0o750)
    call (m.backends.set_permissions config_dir 0o750)
    each (write_file config_dir) rendered
    return (ok c)

  unfoldable pub discard : Candidate → Task W (Unit {0})
  discard c = ignore (call (m.backends.remove_owned c.path c.root))

  unfoldable pub test : Candidate → Task W (Unit {0})
  test c = call (
      m.backends.test_config (record {
        executable = c.install_dir / "core" / "current" / "xray";
        config_dir = c.path / "conf.d";
        asset_dir = c.install_dir / "assets" / "current";
      }))

  -- The test by Xray, and the hand-over of the candidate to its user.
  unfoldable pub check_candidate : Candidate → Task W (Unit {0})
  check_candidate c = do
    emit m.backends config_validation_started
    on_error (λ e. emit m.backends (config_validation_failed (code e)) >> discard c) (test c)
    emit m.backends config_validation_succeeded
    on_error (λ _. discard c) (call (m.backends.set_ownership c.path "xray" "xray" true))

  abbrev pub target : Candidate → Option String → Option Location
  target c none = none
  target c (some generation) = some (c.root / generation)

  unfoldable pub restore_pointers : Candidate → ManagerState → Task W (Unit {0})
  restore_pointers c old = call (
      m.backends.restore_generation c.current c.previous (target c old.current_config_generation)
        (target c old.previous_config_generation))

  abbrev pub id_of_selected : Option Node → Option String
  id_of_selected none = none
  id_of_selected (some n) = some n.id

  abbrev pub switched_state : Candidate → Option Node → ManagerState → ManagerState
  switched_state c selected old = record old {
    previous_config_generation = old.current_config_generation;
    current_config_generation = some c.generation;
    selected_node_id = id_of_selected selected;
  }

  -- The pointers and the state change to the candidate.
  unfoldable pub switch_over : Candidate → Option Node → ManagerState → Task W (Unit {0})
  switch_over c selected old = do
    on_error (λ _. discard c) (call (m.backends.switch_generation c.current c.previous c.path))
    on_error (λ _. ignore (restore_pointers c old) >> discard c)
        (write_state m (switched_state c selected old))

  -- The block `activation`.
  unfoldable pub configure_tun : Task W (Unit {0})
  configure_tun =
      if m.config.tun.enabled
      then (call (m.backends.enable "xray-tun-policy.service")
          >> call (m.backends.start "xray-tun-policy.service"))
      else (ignore (call (m.backends.stop "xray-tun-policy.service"))
          >> (call (m.backends.disable_routing m.config)
              >> (call m.backends.disable_firewall
                  >> call (m.backends.disable "xray-tun-policy.service"))))

  unfoldable pub activate : Option Node → Task W (Unit {0})
  activate selected = do
    configure_tun
    call (m.backends.enable "xray.service")
    call (m.backends.restart "xray.service")
    if is_some selected then call (m.backends.healthcheck m.config) else return (ok tt)

  -- What follows a failed activation.
  unfoldable pub roll_back : Candidate → ManagerState → ManagerError → Task W (Unit {0})
  roll_back c old e = do
    emit m.backends (rollback_started (to_text e))
    restore_pointers c old
    write_state m (record old {
      last_rollback_reason = some "configuration activation or healthcheck failed";
    })
    ignore (call (m.backends.restart "xray.service"))
    discard c
    emit m.backends rollback_succeeded

  abbrev pub timestamp : Task W ℕ
  timestamp s = (ok (m.backends.unix_timestamp s.world), s)

  -- The record of a healthcheck that succeeded.
  unfoldable pub record_health : Option Node → Task W (Unit {0})
  record_health none = return (ok tt)
  record_health (some n) = do
    state ← current_state
    time ← timestamp
    write_state m (record state {
      last_successful_healthcheck = some (show time);
      last_rollback_reason = none;
    })

  unfoldable pub prune : Candidate → Task W (Unit {0})
  prune c = ignore (
      call (
        m.backends.prune_generations c.root c.current c.previous m.config.general.keep_generations))

  unfoldable pub finish : Candidate → Option Node → Task W String
  finish c selected = do
    emit m.backends service_restart_succeeded
    record_health selected
    prune c
    return (ok c.generation)

  -- From the announcement of the restart to the end.
  unfoldable pub bring_up : Candidate → Option Node → ManagerState → Task W String
  bring_up c selected old = do
    emit m.backends service_restart_started
    on_error (roll_back c old) (activate selected)
    finish c selected

  unfoldable pub apply_config : Option Node → Task W String
  apply_config selected = do
    c ← prepare selected
    check_candidate c
    old ← current_state
    switch_over c selected old
    bring_up c selected old
