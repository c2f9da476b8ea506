-- ===== src/Tests/Execution.antt =====
-- Concrete inputs for the operations of crates/xray-manager-core/src/application.rs, over the
-- adapters in memory and those of a platform that is not supported.
use xrayctl.Common.{
  ℕ, String, true, false, none, some, List, [], ◌∷◌, ◌++◌, ◌==◌, ◌≡◌, inr, refl, eqb,
}
use xrayctl.Core.Error.{ok, err, io}
use xrayctl.Core.Events.{ManagerEvent, operation_started}
use xrayctl.Core.Domain.{Node}
use xrayctl.Core.Profiles.{SubscriptionConfig}
use xrayctl.Core.Backends.{Action}
use xrayctl.Core.Backends.Tasks.{Service, ◌>>=◌, call, emit, return}
use xrayctl.Core.Operations.{tun_enable, service_start, name_of, requires_administrator}
use xrayctl.Core.Application.Steps.{IsSilent, Gives, At, view}
use xrayctl.Core.Execution.{Operator, OperationOptions}
use xrayctl.Core.Execution.Refresh.{fetch, replace_nodes}
use xrayctl.Core.Execution.Run.{execute_inner, execute}
use xrayctl.Core.Execution.Untouched.{Looks, execute-IsSilent}
use xrayctl.Core.Execution.Refused.{IsRefused, execute-IsRefused}
use xrayctl.Core.Execution.Announced.{begun, announcement, execute-Announces}
use xrayctl.Core.Execution.Tun.{enable_tun}
use xrayctl.Core.Execution.Networking.{
  Networking, Seen, Enabled, Adapters, Services, Undoing, enable_tun-Enabled,
}
use xrayctl.Core.Execution.Fetched.{counted, fetch-keeps}
use xrayctl.Core.Subscription.{no_base64, parse_subscription}
use xrayctl.Core.Protocols.{parse_uri}
use xrayctl.Core.Protocols.Sound.{parse_uri-IsParsed}
use xrayctl.Platform.Fake.{FakeWorld}
use xrayctl.Platform.Fake.Obeys.{look}
use xrayctl.Platform.Fake.Operating.{fake_operating, download_fake}
use xrayctl.Platform.Unsupported.Untouched.{
  unsupported_operator, plan_only-Looks, plan_only-Untouched, no_privilege,
}
use xrayctl.Tests.Application.{paths, manager, service, node}
use xrayctl.Tests.Protocols.{libraries, uri, parsed}

-- The formats are not needed here.
abbrev pub operator : Operator FakeWorld
operator = record {
  manager = manager;
  operating = fake_operating paths none (("https://example.org/s", uri) ∷ []) [];
  parse_url = λ s. inr "https";
  read_subscription = λ s. err (io s);
  write_subscription = λ s. ok s.name;
  read_profile = λ s. err (io s);
  write_profile = λ p. ok p.name;
  decode_base64 = λ s. no_base64;
  parse_uri = parse_uri libraries;
  to_lowercase = λ s. s;
}

abbrev dry_run : OperationOptions
dry_run = record { dry_run = true; assume_yes = false }

abbrev for_real : OperationOptions
for_real = record { dry_run = false; assume_yes = true }

looks : Looks operator (look paths)
looks = record {
  finds_paths = λ w. refl;
  plans_install = λ c w. refl;
  plans_repair = λ c w. refl;
  plans_uninstall = λ purges w. refl;
  plans_upgrade = λ c target w. refl;
  finds_missing = λ w. refl;
  checks_privilege = λ w. refl;
  emits = λ event w. refl;
}

execute-IsSilent_example : IsSilent (look paths) (execute operator tun_enable dry_run)
execute-IsSilent_example = execute-IsSilent operator (look paths) looks tun_enable dry_run refl

execute-IsRefused_example :
    IsRefused (look paths) (execute (unsupported_operator "windows" operator) tun_enable for_real)
unfolding requires_administrator
execute-IsRefused_example =
    execute-IsRefused (unsupported_operator "windows" operator) (look paths)
      (plan_only-Looks "windows" operator (look paths) (λ w. refl) (λ event w. refl)) tun_enable
      for_real refl refl
      (no_privilege "windows" operator (look paths) (λ w. refl) (λ event w. refl))

plan_only-Untouched_example :
    IsSilent (look paths) (execute (unsupported_operator "windows" operator) tun_enable for_real)
unfolding requires_administrator
plan_only-Untouched_example =
    plan_only-Untouched "windows" operator (look paths) (λ w. refl) (λ event w. refl) tun_enable
      for_real refl

abbrev events : FakeWorld → List ManagerEvent
events w = w.events

abbrev starting : Service FakeWorld
starting = begun operator events service_start service

execute-Announces_example :
    (events starting.world ≡ events service.world ++ operation_started (name_of service_start) ∷ [])
    × ((execute operator service_start for_real service).0
        ≡ (execute_inner operator service_start for_real starting).0)
    × (events (execute operator service_start for_real service).1.world
        ≡ events (execute_inner operator service_start for_real starting).1.world
          ++ announcement
              (name_of service_start)
              (execute_inner operator service_start for_real starting).0
            ∷ [])
execute-Announces_example =
    execute-Announces operator events (λ event w. refl) service_start for_real service

-- Adapters that keep in the counters of the world whether the firewall, the routing and the service
-- at boot are on, and of which the service does not start.
abbrev set_firewall : ℕ → Action FakeWorld (Unit {0})
set_firewall n w = (ok tt, record w { applied = n })

abbrev set_routing : ℕ → Action FakeWorld (Unit {0})
set_routing n w = (ok tt, record w { locks = n })

abbrev with_tun : Operator FakeWorld
with_tun = record operator {
  manager = record manager {
    backends = record manager.backends {
      enable = λ service w. (ok tt, record w { tun = true });
      start = λ service w. (err (io "no such unit"), w);
      disable_firewall = set_firewall 0;
      disable_routing = λ config. set_routing 0;
    };
  };
  operating = record operator.operating {
    enable_firewall = λ config. set_firewall 1;
    enable_routing = λ config. set_routing 1;
  };
}

abbrev networking : FakeWorld → Networking
networking w = record { firewall = eqb w.applied 1; routing = eqb w.locks 1; at_boot = w.tun }

adapters : Adapters with_tun networking
adapters = record {
  enables_firewall = λ w. refl;
  enables_routing = λ w. refl;
  disables_firewall = λ w. refl;
  disables_routing = λ w. refl;
  starts = λ w. tt;
}

services : Services with_tun networking
services = record { enables_service = λ w. refl; restarts = λ w. refl }

undoing : Undoing with_tun networking
undoing = record { firewall_off = λ w. refl; routing_off = λ w. refl }

abbrev seen : Seen
seen = view networking service

enable_tun-Enabled_example : Gives networking (At seen) (enable_tun with_tun) (Enabled seen)
enable_tun-Enabled_example = enable_tun-Enabled with_tun networking adapters services undoing seen

-- A refresh of one of two subscriptions.
abbrev subscription : String → SubscriptionConfig
subscription name = record {
  name = name;
  enabled = true;
  url = "https://example.org/s";
  format = "auto";
}

abbrev subscriptions : List SubscriptionConfig
subscriptions = subscription "main" ∷ subscription "other" ∷ []

abbrev pub stored : List Node
stored = node "a" "Berlin" ∷ record (node "b" "Tokyo") { subscription = "other" } ∷ []

abbrev refreshed : List Node
refreshed = record (node "b" "Tokyo") { subscription = "other" } ∷ parsed ∷ []

fetched : (fetch operator (some "main") subscriptions stored service).0 ≡ ok (refreshed, [])
unfolding fetch ◌>>=◌ call download_fake emit return parse_subscription parse_uri replace_nodes
fetched = refl

fetch-keeps_example :
    counted "other" (λ n. n.name == "Tokyo") refreshed
    ≡ counted "other" (λ n. n.name == "Tokyo") stored
fetch-keeps_example =
    fetch-keeps operator (λ uri name n q. (parse_uri-IsParsed libraries uri name q).labelled)
      (some "main") subscriptions stored "other" (λ n. n.name == "Tokyo") service refl fetched
