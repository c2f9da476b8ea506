-- ===== src/Tests/Application.antt =====
-- Concrete inputs for crates/xray-manager-core/src/application.rs, over the adapters in memory.
use xrayctl.Common.{
  trim, trim_start, trim_end, is_whitespace, String, ◌<>◌, true, false, Option, none, some, List,
  [], ◌∷◌, refl,
}
use xrayctl.Common.Assoc.{get}
use xrayctl.Core.Error.{ok, err, io}
use xrayctl.Core.Config.Defaults.{default_config}
use xrayctl.Core.Domain.{ManagerState, Node, Protocol, reconcile_selected, normalized_name}
use xrayctl.Core.Domain.Selection.{Succeeds, reconcile_selected-Succeeds}
use xrayctl.Core.Json.{null}
use xrayctl.Core.Backends.{◌/◌, ManagerPaths}
use xrayctl.Core.Backends.Locations.{same_path}
use xrayctl.Core.Backends.Tasks.{Service}
use xrayctl.Core.Application.{Formats, Manager, default_state}
use xrayctl.Core.Application.Activation.{apply_config}
use xrayctl.Core.Application.Observed.{Laws}
use xrayctl.Core.Application.Steps.{view}
use xrayctl.Core.Application.Recovery.{InStep, Ends}
use xrayctl.Core.Application.InStep.{apply_config-InStep}
use xrayctl.Core.Application.Rollback.{config_rollback}
use xrayctl.Core.Application.RolledBack.{RolledBack, config_rollback-InStep}
use xrayctl.Platform.Fake.{FakeWorld}
use xrayctl.Platform.Fake.Obeys.{look, fake_manager, fake_manager-Laws}

abbrev pub paths : ManagerPaths
paths = record {
  config_dir = "xray-manager" ∷ "etc" ∷ [];
  state_dir = "xray-manager" ∷ "lib" ∷ "var" ∷ [];
  cache_dir = "xray-manager" ∷ "cache" ∷ "var" ∷ [];
  runtime_dir = "xray-manager" ∷ "run" ∷ [];
  install_dir = "xray-manager" ∷ "opt" ∷ [];
  executable = "xrayctl" ∷ "bin" ∷ [];
}

abbrev text_of : Option String → String
text_of none = "-"
text_of (some s) = s

-- A state is written by its generations, and only that format is needed here.
abbrev formats : Formats
formats = record {
  read_routing = λ s. err (io s);
  write_routing = λ c. ok c.domain_strategy;
  read_json = λ s. ok null;
  write_json = λ v. ok "{}";
  read_nodes = λ s. ok [];
  write_nodes = λ ns. ok "[]";
  read_state = λ s. err (io s);
  write_state = λ x.
      ok (text_of x.current_config_generation <> ("," <> text_of x.previous_config_generation));
}

abbrev pub manager : Manager FakeWorld
manager =
    fake_manager paths default_config formats none 7
      (λ selected routing fragments. ok (("00-base.json", null) ∷ []))

abbrev pub state : ManagerState
state = record default_state {
  current_config_generation = some "6-1-1";
  previous_config_generation = some "5-1-0";
}

abbrev pub world : FakeWorld
world = record {
  files = (paths.state_dir / "state.json", "6-1-1,5-1-0") ∷ [];
  generations =
      (paths.state_dir / "current", paths.state_dir / "generations" / "6-1-1")
      ∷ (paths.state_dir / "previous", paths.state_dir / "generations" / "5-1-0")
      ∷ [];
  active = true;
  events = [];
  tun = false;
  applied = 0;
  locks = 0;
}

abbrev pub service : Service FakeWorld
service = record { state = state; counter = 2; world = world }

pub obeys : Laws manager paths (look paths)
obeys =
    fake_manager-Laws paths default_config formats none 7
      (λ selected routing fragments. ok (("00-base.json", null) ∷ [])) (λ x. refl)

in_step : InStep manager paths (view (look paths) service)
unfolding get same_path
in_step = record { current = refl; previous = refl; chained = refl; persisted = refl }

apply_config-InStep_example :
    Ends manager paths none state
      (apply_config manager none service).0
      (view (look paths) (apply_config manager none service).1)
apply_config-InStep_example =
    apply_config-InStep manager paths (look paths) obeys none service in_step

config_rollback-InStep_example :
    RolledBack manager paths
      (look paths)
      obeys
      (view (look paths) service)
      (config_rollback manager service).0
      (view (look paths) (config_rollback manager service).1)
config_rollback-InStep_example =
    config_rollback-InStep manager paths (look paths) obeys service in_step

-- Two nodes of one subscription, the second under a new identifier.
abbrev pub node : String → String → Node
node id name = record {
  id = id;
  subscription = "main";
  name = name;
  protocol = Protocol.trojan;
  server = "example.org";
  port = 443;
  credentials = record { user = none; password = some "p" };
  transport = record {
    kind = "tcp";
    path = none;
    host = none;
    service_name = none;
    authority = none;
    mode = none;
    header_type = none;
    seed = none;
  };
  security = record {
    kind = "tls";
    server_name = none;
    fingerprint = none;
    public_key = none;
    short_id = none;
    spider_x = none;
    alpn = [];
    allow_insecure = false;
    pinned_peer_cert_sha256 = none;
  };
  raw_uri = "";
  warnings = [];
  extra = [];
}

abbrev refreshed : List Node
refreshed = node "c" "Tokyo" ∷ node "b" " Berlin" ∷ []

reconcile_selected-Succeeds_example :
    Succeeds (λ s. s) (node "a" "Berlin") "a" refreshed (node "b" " Berlin")
unfolding reconcile_selected normalized_name trim trim_start trim_end is_whitespace
reconcile_selected-Succeeds_example =
    reconcile_selected-Succeeds (λ s. s) (node "a" "Berlin") "a" refreshed {n = node "b" " Berlin"}
      refl
