-- ===== src/Core/Events.antt =====
-- crates/xray-manager-core/src/events.rs.
use xrayctl.Common.{ℕ, String, Option}

pub data ManagerEvent : Type 0 where
  operation_started : String → ManagerEvent
  download_progress : String → ℕ → Option ℕ → ManagerEvent
  node_probe_started : String → ManagerEvent
  node_probe_succeeded : String → ℕ → ManagerEvent
  node_probe_failed : String → String → ManagerEvent
  node_probe_cancelled : String → ManagerEvent
  config_validation_started config_validation_succeeded : ManagerEvent
  config_validation_failed : String → ManagerEvent
  service_restart_started service_restart_succeeded : ManagerEvent
  rollback_started : String → ManagerEvent
  rollback_succeeded : ManagerEvent
  operation_finished : String → ManagerEvent
  operation_failed : String → String → ManagerEvent
