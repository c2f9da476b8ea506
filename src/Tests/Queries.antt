-- ===== src/Tests/Queries.antt =====
-- Concrete inputs for `query` of crates/xray-manager-core/src/application.rs, over the adapters in
-- memory.
use xrayctl.Common.{false, none, some, ◌∷◌, ◌≡◌, refl}
use xrayctl.Core.Error.{ok}
use xrayctl.Core.Json.{null, str}
use xrayctl.Core.Backends.{◌/◌}
use xrayctl.Core.Backends.Tasks.{Service}
use xrayctl.Core.Application.Steps.{IsSilent}
use xrayctl.Core.Queries.{Reader, doctor, nodes}
use xrayctl.Core.Queries.Answers.{query}
use xrayctl.Core.Queries.Silent.{Asks, query-IsSilent}
use xrayctl.Core.Queries.Public.{reader_without, query-IsPublic}
use xrayctl.Platform.Fake.{FakeWorld}
use xrayctl.Platform.Fake.Obeys.{look}
use xrayctl.Tests.Application.{paths, manager, service, obeys, node}
use xrayctl.Tests.Execution.{operator, stored}

-- A reader whose file of nodes has two nodes.
abbrev reader : Reader FakeWorld
reader = record {
  operator = record operator {
    manager = record manager { formats = record manager.formats { read_nodes = λ s. ok stored } };
  };
  inspect = λ w. (
    ok (record { os = "linux"; distribution = none; init_system = some "systemd"; desktop = none }),
    w,
  );
  logs = λ name lines w. (ok name, w);
  show_firewall = λ w. (ok "table inet xray", w);
  show_routing = λ config w. (ok "blackhole default", w);
  probe = λ node config w. (ok (str node.server), w);
  show_ip = λ address. "127.0.0.1";
  show_path = λ path. "nodes.json";
  selections_json = λ selections. null;
  capabilities_json = λ capabilities. null;
  routing_json = λ routing. null;
  show_rules = λ routing. null;
  profiles_json = λ profiles. null;
}

asks : Asks reader (look paths)
asks = record {
  finds_paths = λ w. refl;
  exists = obeys.looks;
  reads = obeys.reads;
  lists = obeys.lists;
  tests = λ request w. refl;
  healthcheck = λ config w. refl;
  is_active = λ name w. refl;
  tun_status = λ interface w. refl;
  finds_missing = λ w. refl;
  is_elevated = λ w. refl;
  inspects = λ w. refl;
  logs = λ name lines w. refl;
  shows_firewall = λ w. refl;
  shows_routing = λ config w. refl;
  probes = λ node config w. refl;
}

query-IsSilent_example : IsSilent (look paths) (query reader (doctor false))
query-IsSilent_example = query-IsSilent reader (look paths) asks (doctor false)

abbrev with_nodes : Service FakeWorld
with_nodes = record service {
  world = record service.world {
    files = (paths.state_dir / "nodes.json", "[…]") ∷ service.world.files;
  };
}

query-IsPublic_example :
    query (reader_without (node "c" "Oslo") reader) nodes with_nodes ≡ query reader nodes with_nodes
query-IsPublic_example = query-IsPublic (node "c" "Oslo") reader nodes with_nodes refl
