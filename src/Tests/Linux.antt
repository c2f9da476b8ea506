-- ===== src/Tests/Linux.antt =====
-- Concrete inputs for crates/xray-manager-platform/src/linux/mod.rs, over a machine that does what
-- `nft` and `ip` are told.
use xrayctl.Common.{
  some, sort_by, join, arith, trim, ltb, String, Bool, true, false, not, List, [], ◌∷◌, ◌==◌, ◌≡◌,
  refl, inl, if◌then◌else◌,
}
use xrayctl.Core.Error.{Result, ok, is_ok}
use xrayctl.Core.Config.Defaults.{default_config}
use xrayctl.Core.Plans.{OperatingSet, pos}
use xrayctl.Core.Backends.{Action, BackendSet}
use xrayctl.Core.Execution.{Operator}
use xrayctl.Core.Execution.Networking as Core
use xrayctl.Platform.Fake.{FakeWorld}
use xrayctl.Platform.Linux.Commands.{CommandOutput, Run, succeeded, ◌>>=◌, return, on_error}
use xrayctl.Platform.Linux.Tun.{
  policy_up, policy_down, attach, detach, run_tun_internal, bring_firewall_up, take_firewall_down,
  bring_routes_up, close_family, remove_rule, list_args, delete_args, rule_args, flush_args,
  close_args, attach_args, detach_args, mark_of, table_of,
}
use xrayctl.Platform.Linux.Kernel.{
  Family, Network, Laws, Effect, Flushed, Flushing, with_table, at_family, family, add_rule, drop,
  close, set_attached,
}
use xrayctl.Platform.Linux.Policy.{Few}
use xrayctl.Platform.Linux.Internal.{Internal}
use xrayctl.Platform.Linux.Closed.{
  IsClosed, Restored, run_each, run_each-IsClosed, policy_down-policy_up,
}
use xrayctl.Platform.Linux.Obeys.{with_linux, networking, Host, with_linux-Adapters}
use xrayctl.Platform.Linux.Adapters.{packages_for, install_hint}
use xrayctl.Tests.Execution.{operator}

-- Of each family, a machine has a rule or none, a route of last resort and a route to the interface;
-- beside them, the table of the firewall and the service at boot.
abbrev Lane : Type 0
Lane = Bool × Bool × Bool

abbrev Machine : Type 0
Machine = Bool × Lane × Lane × Bool

abbrev lane : Lane → Family
lane (rule, closed, attached) = record {
  rules = if rule then 1 else 0;
  closed = closed;
  attached = attached;
}

abbrev network : Machine → Network
network (table, ipv4, ipv6, at_boot) = record {
  firewall = table;
  ipv4 = lane ipv4;
  ipv6 = lane ipv6;
  at_boot = at_boot;
}

abbrev answer : Bool → Result CommandOutput
answer success =
    ok (record {
      status = if success then pos 0 else pos 2;
      stdout = "xray-tun:x:991:";
      stderr = "";
    })

abbrev first : List String → String
first [] = ""
first (word ∷ words) = word

abbrev rest : List String → List String
rest [] = []
rest (word ∷ words) = words

abbrev run_nft : List String → Action Machine CommandOutput
run_nft args (table, ipv4, ipv6, at_boot) =
    if first args == "list"
    then (answer table, (table, ipv4, ipv6, at_boot))
    else if first args == "delete"
    then (answer table, (false, ipv4, ipv6, at_boot))
    else (answer true, (true, ipv4, ipv6, at_boot))

abbrev run_route : List String → Lane → Result CommandOutput × Lane
run_route args (rule, closed, attached) =
    if first args == "flush"
    then (answer true, (rule, false, false))
    else if first args == "del"
    then (answer attached, (rule, closed, false))
    else if first (rest args) == "default"
    then (answer true, (rule, closed, true))
    else (answer true, (rule, true, attached))

-- A second rule is refused.
abbrev run_lane : List String → Lane → Result CommandOutput × Lane
run_lane args (rule, closed, attached) =
    if first args == "link"
    then (answer true, (rule, closed, attached))
    else if first args == "route"
    then run_route (rest args) (rule, closed, attached)
    else if first (rest args) == "add"
    then (answer (not rule), (true, closed, attached))
    else (answer rule, (false, closed, attached))

abbrev on_ipv4 : Bool → Lane → Bool → Result CommandOutput × Lane → Result CommandOutput × Machine
on_ipv4 table ipv6 at_boot (output, ipv4) = (output, (table, ipv4, ipv6, at_boot))

abbrev on_ipv6 : Bool → Lane → Bool → Result CommandOutput × Lane → Result CommandOutput × Machine
on_ipv6 table ipv4 at_boot (output, ipv6) = (output, (table, ipv4, ipv6, at_boot))

abbrev run_ip : List String → Action Machine CommandOutput
run_ip args (table, ipv4, ipv6, at_boot) =
    if first args == "-6"
    then on_ipv6 table ipv4 at_boot (run_lane (rest args) ipv6)
    else on_ipv4 table ipv6 at_boot (run_lane args ipv4)

abbrev run : Run Machine
run program args m =
    if program == "nft"
    then run_nft args m
    else if program == "ip"
    then run_ip args m
    else (answer true, m)

abbrev write_temporary : String → Action Machine String
write_temporary rules m = (ok "/tmp/rules", m)

abbrev Follows : (Network → Network) → List String → Machine → Type 0
Follows effect args w =
    Effect effect (network w) (succeeded (run "ip" args w).0) (network (run "ip" args w).1)

lists_table : (w : Machine) → succeeded (run "nft" list_args w).0 ≡ (network w).firewall
lists_table (true, ipv4, ipv6, at_boot) = refl
lists_table (false, ipv4, ipv6, at_boot) = refl

abbrev rule_line : Bool → String → List String
rule_line ipv6 action = rule_args ipv6 action (mark_of default_config) (table_of default_config)

adds_rule : (ipv6 : Bool) (w : Machine) → Follows (at_family ipv6 add_rule) (rule_line ipv6 "add") w
unfolding mark_of table_of
adds_rule true (table, ipv4, (true, closed, attached), at_boot) = refl
adds_rule true (table, ipv4, (false, closed, attached), at_boot) = refl
adds_rule false (table, (true, closed, attached), ipv6, at_boot) = refl
adds_rule false (table, (false, closed, attached), ipv6, at_boot) = refl

deletes :
    (w : Machine)
    → Effect
        (with_table false)
        (network w)
        (succeeded (run "nft" delete_args w).0)
        (network (run "nft" delete_args w).1)
deletes (true, ipv4, ipv6, at_boot) = refl
deletes (false, ipv4, ipv6, at_boot) = refl

deletes_rule :
    (ipv6 : Bool) (w : Machine)
    → Follows (at_family ipv6 (drop 1)) (rule_line ipv6 "del") w
      × (succeeded (run "ip" (rule_line ipv6 "del") w).0 ≡ ltb 0 (family ipv6 (network w)).rules)
unfolding mark_of table_of
deletes_rule true (table, ipv4, (true, closed, attached), at_boot) = (refl, refl)
deletes_rule true (table, ipv4, (false, closed, attached), at_boot) = (refl, refl)
deletes_rule false (table, (true, closed, attached), ipv6, at_boot) = (refl, refl)
deletes_rule false (table, (false, closed, attached), ipv6, at_boot) = (refl, refl)

flushes :
    (ipv6 : Bool) (w : Machine)
    → Flushed ipv6
        (network w)
        (succeeded (run "ip" (flush_args ipv6 (table_of default_config)) w).0)
        (network (run "ip" (flush_args ipv6 (table_of default_config)) w).1)
unfolding table_of
flushes true w = refl
flushes false w = refl

closes :
    (ipv6 : Bool) (w : Machine)
    → Follows (at_family ipv6 close) (close_args ipv6 (table_of default_config)) w
unfolding table_of
closes true w = refl
closes false w = refl

attaches :
    (ipv6 : Bool) (w : Machine)
    → Follows (at_family ipv6 (set_attached true)) (attach_args ipv6 default_config.tun) w
unfolding attach_args
attaches true w = refl
attaches false w = refl

detaches :
    (ipv6 : Bool) (w : Machine)
    → Follows (at_family ipv6 (set_attached false)) (detach_args ipv6 default_config.tun) w
unfolding detach_args
detaches true (table, ipv4, (rule, closed, true), at_boot) = refl
detaches true (table, ipv4, (rule, closed, false), at_boot) = refl
detaches false (table, (rule, closed, true), ipv6, at_boot) = refl
detaches false (table, (rule, closed, false), ipv6, at_boot) = refl

detaches_present :
    (ipv6 : Bool) (w : Machine)
    → succeeded (run "ip" (detach_args ipv6 default_config.tun) w).0
      ≡ (family ipv6 (network w)).attached
unfolding detach_args
detaches_present true (table, ipv4, (rule, closed, true), at_boot) = refl
detaches_present true (table, ipv4, (rule, closed, false), at_boot) = refl
detaches_present false (table, (rule, closed, true), ipv6, at_boot) = refl
detaches_present false (table, (rule, closed, false), ipv6, at_boot) = refl

laws : Laws run write_temporary network default_config
laws = record {
  finds_group = λ w. refl;
  writes = λ rules w. refl;
  lists = λ w. refl;
  lists_table = lists_table;
  deletes = deletes;
  loads = λ file w. refl;
  adds_rule = adds_rule;
  deletes_rule = λ ipv6 w. (deletes_rule ipv6 w).0;
  deletes_present = λ ipv6 w. (deletes_rule ipv6 w).1;
  flushes = flushes;
  closes = closes;
  shows_link = λ w. refl;
  attaches = attaches;
  detaches = detaches;
  detaches_present = detaches_present;
}

-- A machine with the firewall on and a route left behind, and one with nothing.
abbrev left_over : Machine
left_over = (true, (false, false, true), (true, true, false), false)

abbrev clean : Machine
clean = (false, (false, false, false), (false, false, false), true)

few : (w : Machine) → Few (network w)
few (table, (true, _, _), (true, _, _), at_boot) = (omega arith, omega arith)
few (table, (true, _, _), (false, _, _), at_boot) = (omega arith, omega arith)
few (table, (false, _, _), (true, _, _), at_boot) = (omega arith, omega arith)
few (table, (false, _, _), (false, _, _), at_boot) = (omega arith, omega arith)

put_up : (run_tun_internal run write_temporary 3 policy_up default_config left_over).0 ≡ ok tt
unfolding run_tun_internal ◌>>=◌ bring_firewall_up return trim take_firewall_down on_error
    bring_routes_up close_family remove_rule
put_up = refl

run_each-IsClosed_example : IsClosed (
    network (
      run_each run write_temporary 3 default_config
        (attach ∷ detach ∷ [])
        (run_tun_internal run write_temporary 3 policy_up default_config left_over).1))
run_each-IsClosed_example =
    run_each-IsClosed run write_temporary 3 network default_config laws (attach ∷ detach ∷ [])
      left_over (few left_over) put_up refl

flushing : Flushing run write_temporary network default_config
unfolding table_of
flushing true w = inl refl
flushing false w = inl refl

abbrev put_up_first : Machine
put_up_first = (run_tun_internal run write_temporary 3 policy_up default_config clean).1

policy_down-policy_up_example :
    Restored
      (network clean)
      (run_tun_internal run write_temporary 3 policy_down default_config put_up_first).0
      (network (run_each run write_temporary 3 default_config (policy_up ∷ policy_down ∷ []) clean))
policy_down-policy_up_example =
    policy_down-policy_up run write_temporary 3 network default_config laws clean flushing refl

-- The ports of the adapters in memory, beside a machine.
abbrev World : Type 0
World = FakeWorld × Machine

abbrev lifted : {T : Type 0} → Action FakeWorld T → Action World T
lifted action w = let (r, w') = action w.0 in (r, (w', w.1))

abbrev on_machine : {T : Type 0} → Action Machine T → Action World T
on_machine action w = let (r, m) = action w.1 in (r, (w.0, m))

abbrev lift_backends : BackendSet FakeWorld → BackendSet World
lift_backends ports = record {
  paths = lifted ports.paths;
  read = λ x. lifted (ports.read x);
  list_files = λ x. lifted (ports.list_files x);
  write_atomic = λ x y z. lifted (ports.write_atomic x y z);
  create_dir_all = λ x. lifted (ports.create_dir_all x);
  set_permissions = λ x y. lifted (ports.set_permissions x y);
  exists = λ x. lifted (ports.exists x);
  remove_owned = λ x y. lifted (ports.remove_owned x y);
  switch_generation = λ x y z. lifted (ports.switch_generation x y z);
  rollback_generation = λ x y. lifted (ports.rollback_generation x y);
  restore_generation = λ x y z u. lifted (ports.restore_generation x y z u);
  prune_generations = λ x y z u. lifted (ports.prune_generations x y z u);
  test_config = λ x. lifted (ports.test_config x);
  healthcheck = λ x. lifted (ports.healthcheck x);
  set_ownership = λ x y z u. lifted (ports.set_ownership x y z u);
  enable = λ x. lifted (ports.enable x);
  disable = λ x. lifted (ports.disable x);
  start = λ x. lifted (ports.start x);
  stop = λ x. lifted (ports.stop x);
  restart = λ x. lifted (ports.restart x);
  disable_routing = λ x. lifted (ports.disable_routing x);
  disable_firewall = lifted ports.disable_firewall;
  unix_timestamp = λ w. ports.unix_timestamp w.0;
  process_id = ports.process_id;
  emit = λ x w. (ports.emit x w.0, w.1);
}

abbrev lift_operating : OperatingSet FakeWorld → OperatingSet World
lift_operating ports = record {
  platform = ports.platform;
  selections = ports.selections;
  capabilities = ports.capabilities;
  acquire_lock = λ x. lifted (ports.acquire_lock x);
  release_lock = λ x w. (ports.release_lock x w.0, w.1);
  download = λ x. lifted (ports.download x);
  plan_install = λ x. lifted (ports.plan_install x);
  plan_repair = λ x. lifted (ports.plan_repair x);
  plan_uninstall = λ x. lifted (ports.plan_uninstall x);
  plan_upgrade = λ x y. lifted (ports.plan_upgrade x y);
  apply_plan = λ x. lifted (ports.apply_plan x);
  missing_requirements = lifted ports.missing_requirements;
  packages_for = ports.packages_for;
  install_hint = ports.install_hint;
  is_active = λ x. lifted (ports.is_active x);
  enable_firewall = λ x. lifted (ports.enable_firewall x);
  enable_routing = λ x. lifted (ports.enable_routing x);
  tun_status = λ x. lifted (ports.tun_status x);
  run_app = λ x. lifted (ports.run_app x);
  test_route = λ x. lifted (ports.test_route x);
  enable_proxy = λ x y. lifted (ports.enable_proxy x y);
  disable_proxy = λ x. lifted (ports.disable_proxy x);
  is_elevated = lifted ports.is_elevated;
}

abbrev lift_operator : Operator FakeWorld → Operator World
lift_operator o = record {
  manager = record {
    config = o.manager.config;
    backends = lift_backends o.manager.backends;
    formats = o.manager.formats;
    render = o.manager.render;
  };
  operating = lift_operating o.operating;
  parse_url = o.parse_url;
  read_subscription = o.read_subscription;
  write_subscription = o.write_subscription;
  read_profile = o.read_profile;
  write_profile = o.write_profile;
  decode_base64 = o.decode_base64;
  parse_uri = o.parse_uri;
  to_lowercase = o.to_lowercase;
}

abbrev run_beside : Run World
run_beside program args = on_machine (run program args)

abbrev write_beside : String → Action World String
write_beside rules = on_machine (write_temporary rules)

beside : Laws run_beside write_beside (λ w. network w.1) default_config
beside = record {
  finds_group = λ w. refl;
  writes = λ rules w. refl;
  lists = λ w. refl;
  lists_table = λ w. lists_table w.1;
  deletes = λ w. deletes w.1;
  loads = λ file w. refl;
  adds_rule = λ ipv6 w. adds_rule ipv6 w.1;
  deletes_rule = λ ipv6 w. (deletes_rule ipv6 w.1).0;
  deletes_present = λ ipv6 w. (deletes_rule ipv6 w.1).1;
  flushes = λ ipv6 w. flushes ipv6 w.1;
  closes = λ ipv6 w. closes ipv6 w.1;
  shows_link = λ w. refl;
  attaches = λ ipv6 w. attaches ipv6 w.1;
  detaches = λ ipv6 w. detaches ipv6 w.1;
  detaches_present = λ ipv6 w. detaches_present ipv6 w.1;
}

abbrev beside_machine : Operator World
beside_machine = lift_operator operator

abbrev unit_is_active : World → Bool
unit_is_active w = w.0.tun

abbrev set_unit_active : Bool → World → World
set_unit_active b w = (record w.0 { tun = b }, w.1)

host :
    Host run_beside write_beside 3 unit_is_active set_unit_active (λ w. network w.1) beside_machine
host = record { laws = beside; few = λ w. few w.1; keeps = λ b w. refl }

abbrev on_linux : Operator World
on_linux = with_linux run_beside write_beside 3 unit_is_active set_unit_active beside_machine

with_linux-Adapters_example :
    Core.Adapters on_linux (λ w. networking (network w.1))
    × ((w : World) → is_ok (on_linux.manager.backends.disable_routing default_config w).0 ≡ true)
with_linux-Adapters_example =
    with_linux-Adapters run_beside write_beside 3 unit_is_active set_unit_active (λ w. network w.1)
      beside_machine host

hint : install_hint ("unshare" ∷ "mount" ∷ "id" ∷ []) ≡ some "sudo pacman -S --needed id util-linux"
unfolding install_hint packages_for sort_by join
hint = refl
