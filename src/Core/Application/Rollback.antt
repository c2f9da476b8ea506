-- ===== src/Core/Application/Rollback.antt =====
-- `commit_generation_rollback` of application.rs, and the operation `ConfigRollback`.
use xrayctl.Common.{String, ◌<>◌, some, show, is_some, if◌then◌else◌}
use xrayctl.Core.Error.{ok}
use xrayctl.Core.Domain.{ManagerState}
use xrayctl.Core.Backends.{Location, ◌/◌}
use xrayctl.Core.Backends.Tasks.{Task, ◌>>=◌, ◌>>◌, return, ignore, on_error, call, current_state}
use xrayctl.Core.Application.{Manager, paths, write_state}
use xrayctl.Core.Application.Activation.{timestamp}

module _ {W : Type 0} (m : Manager W) where
  -- The block `activation` of `commit_generation_rollback`.
  unfoldable pub activate_rollback : ManagerState → Task W (Unit {0})
  activate_rollback state = do
    write_state m state
    call (m.backends.restart "xray.service")
    if is_some state.selected_node_id
        then (call (m.backends.healthcheck m.config)
            >> (timestamp m >>= λ time.
                write_state m (record state { last_successful_healthcheck = some (show time) })))
        else return (ok tt)

  unfoldable pub commit_generation_rollback :
      Location → Location → ManagerState → ManagerState → String → Task W (Unit {0})
  commit_generation_rollback current previous old rollback_state component =
      on_error
        (λ _.
          ignore (call (m.backends.rollback_generation current previous))
          >> (write_state m old >> ignore (call (m.backends.restart "xray.service"))))
        (activate_rollback (record rollback_state {
          last_rollback_reason = some ("manual " <> (component <> " rollback"));
        }))

  abbrev pub swapped : ManagerState → ManagerState
  swapped x = record x {
    current_config_generation = x.previous_config_generation;
    previous_config_generation = x.current_config_generation;
  }

  -- `Operation::ConfigRollback`.
  unfoldable pub config_rollback : Task W (Unit {0})
  config_rollback = do
    p ← paths m
    let current = p.state_dir / "current"
    let previous = p.state_dir / "previous"
    old ← current_state
    call (m.backends.rollback_generation current previous)
    commit_generation_rollback current previous old (swapped old) "configuration"
