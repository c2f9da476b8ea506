-- ===== src/Platform/Linux/Tun.antt =====
-- crates/xray-manager-platform/src/linux/mod.rs: the firewall and the policy routing of TUN.
use xrayctl.Common.{
  ℕ, zero, suc, String, ◌<>◌, Bool, true, false, not, ◌&&◌, Option, none, some, List, [], ◌∷◌, show,
  trim, split, parse_uint, if◌then◌else◌,
}
use xrayctl.Core.Error.{other, Result, ok, err, ok_or}
use xrayctl.Core.Config.{ManagerConfig, TunConfig}
use xrayctl.Core.Backends.{Action}
use xrayctl.Platform.Linux.Commands.{
  CommandOutput, succeeded, is_zero, ◌>>=◌, ◌>>◌, return, attempt, on_error, Run, run_checked,
}
use xrayctl.Platform.Linux.Nftables.{nftables}

pub data TunInternalAction : Type 0 where
  policy_up policy_down firewall_up firewall_down routes_up routes_down attach detach :
      TunInternalAction

-- `["-6"]` in front of the arguments of `ip`.
abbrev family_args : Bool → List String → List String
family_args true args = "-6" ∷ args
family_args false args = args

abbrev pub rule_args : Bool → String → String → String → List String
rule_args ipv6 action mark table =
    family_args ipv6 ("rule" ∷ action ∷ "fwmark" ∷ mark ∷ "lookup" ∷ table ∷ [])

abbrev pub list_args : List String
list_args = "list" ∷ "table" ∷ "inet" ∷ "xray_manager" ∷ []

abbrev pub delete_args : List String
delete_args = "delete" ∷ "table" ∷ "inet" ∷ "xray_manager" ∷ []

abbrev pub flush_args : Bool → String → List String
flush_args ipv6 table = family_args ipv6 ("route" ∷ "flush" ∷ "table" ∷ table ∷ [])

-- The route of last resort, which drops what TUN does not take.
abbrev last_resort : Bool → String
last_resort true = "unreachable"
last_resort false = "blackhole"

abbrev pub close_args : Bool → String → List String
close_args ipv6 table =
    family_args ipv6 (
      "route"
      ∷ "replace"
      ∷ last_resort ipv6
      ∷ "default"
      ∷ "table"
      ∷ table
      ∷ "metric"
      ∷ "32767"
      ∷ [])

abbrev pub link_args : String → List String
link_args interface = "link" ∷ "show" ∷ "dev" ∷ interface ∷ []

unfoldable pub attach_args : Bool → TunConfig → List String
unfolding show
attach_args ipv6 c = family_args ipv6 (
    "route"
    ∷ "replace"
    ∷ "default"
    ∷ "dev"
    ∷ c.interface_name
    ∷ "table"
    ∷ show c.routing_table
    ∷ "metric"
    ∷ "100"
    ∷ [])

unfoldable pub detach_args : Bool → TunConfig → List String
unfolding show
detach_args ipv6 c =
    family_args ipv6
      ("route" ∷ "del" ∷ "default" ∷ "dev" ∷ c.interface_name ∷ "table" ∷ show c.routing_table ∷ [])

unfoldable pub mark_of : ManagerConfig → String
unfolding show
mark_of c = show c.tun.packet_mark

unfoldable pub table_of : ManagerConfig → String
unfolding show
table_of c = show c.tun.routing_table

-- `line.trim().split(':').nth(2)`.
abbrev third : List String → Option String
third (a ∷ b ∷ c ∷ more) = some c
third _ = none

abbrev parse_gid : Option String → Option ℕ
parse_gid none = none
parse_gid (some value) = parse_uint 4294967295 value

abbrev gid_of : CommandOutput → Result ℕ
gid_of output =
    ok_or
      (if is_zero output.status then parse_gid (third (split 58 (trim output.stdout))) else none)
      (other "unable to resolve xray-tun GID")

abbrev pub is_attachment : TunInternalAction → Bool
is_attachment attach = true
is_attachment detach = true
is_attachment _ = false

-- `Result::and`.
abbrev pub and : Result (Unit {0}) → Result (Unit {0}) → Result (Unit {0})
and (ok _) r = r
and (err e) r = err e

-- `write_temporary` makes a file with the contents and gives its path. The deadline of `attach` is
-- after as many answers that there is no interface as `rounds`.
module _ {W : Type 0} (run : Run W) (write_temporary : String → Action W String) (rounds : ℕ) where
  abbrev delete_found : CommandOutput → Action W (Unit {0})
  delete_found existing =
      if is_zero existing.status then run_checked run "nft" delete_args else return (ok tt)

  unfoldable pub take_firewall_down : Action W (Unit {0})
  take_firewall_down = run "nft" list_args >>= delete_found

  unfoldable pub bring_firewall_up : ManagerConfig → Action W (Unit {0})
  unfolding split parse_uint nftables
  bring_firewall_up c = do
    gid_output ← run "getent" ("group" ∷ "xray-tun" ∷ [])
    gid ← return (gid_of gid_output)
    file ← write_temporary (nftables c.tun gid)
    take_firewall_down
    on_error take_firewall_down (run_checked run "nft" ("-f" ∷ file ∷ []))

  -- The loop of `remove_rule`.
  unfoldable pub remove_rules : ℕ → Bool → ManagerConfig → Action W (Unit {0})
  remove_rules zero ipv6 c = return (ok tt)
  remove_rules (suc n) ipv6 c =
      attempt (run "ip" (rule_args ipv6 "del" (mark_of c) (table_of c))) >>= λ output.
      if succeeded output then remove_rules n ipv6 c else return (ok tt)

  unfoldable pub remove_rule : Bool → ManagerConfig → Action W (Unit {0})
  unfolding remove_rules
  remove_rule ipv6 c = remove_rules 32 ipv6 c

  unfoldable pub flush : Bool → ManagerConfig → Action W (Unit {0})
  flush ipv6 c = attempt (run "ip" (flush_args ipv6 (table_of c))) >>= λ _. return (ok tt)

  unfoldable pub take_routes_down : ManagerConfig → Action W (Unit {0})
  take_routes_down c = do remove_rule false c; remove_rule true c; flush false c; flush true c

  -- The rule and the route of last resort of one family.
  unfoldable pub close_family : Bool → ManagerConfig → Action W (Unit {0})
  close_family ipv6 c = do
    remove_rule ipv6 c
    run_checked run "ip" (rule_args ipv6 "add" (mark_of c) (table_of c))
    run_checked run "ip" (close_args ipv6 (table_of c))

  -- `routes_up_inner`.
  abbrev pub routes_up_inner : ManagerConfig → Action W (Unit {0})
  routes_up_inner c = close_family false c >> close_family true c

  unfoldable pub bring_routes_up : ManagerConfig → Action W (Unit {0})
  bring_routes_up c = on_error (take_routes_down c) (routes_up_inner c)

  abbrev pub look_for_link : ManagerConfig → Action W (Unit {0}) → Action W (Unit {0})
  look_for_link c otherwise = run "ip" (link_args c.tun.interface_name) >>= λ output.
      if is_zero output.status then return (ok tt) else otherwise

  -- The loop of `attach`, which waits for the interface.
  unfoldable pub wait_for_link : ℕ → ManagerConfig → Action W (Unit {0})
  wait_for_link zero c =
      look_for_link c
        (return (err (other ("TUN interface " <> (c.tun.interface_name <> " did not appear")))))
  wait_for_link (suc n) c = look_for_link c (wait_for_link n c)

  abbrev if_ipv6 : ManagerConfig → Action W (Unit {0}) → Action W (Unit {0})
  if_ipv6 c action = if c.tun.ipv6_enabled then action else return (ok tt)

  unfoldable pub attach_tun : ManagerConfig → Action W (Unit {0})
  attach_tun c = do
    wait_for_link rounds c
    run_checked run "ip" (attach_args false c.tun)
    if_ipv6 c (run_checked run "ip" (attach_args true c.tun))

  abbrev pub detach_family : Bool → ManagerConfig → Action W (Unit {0})
  detach_family ipv6 c = attempt (run "ip" (detach_args ipv6 c.tun)) >>= λ _. return (ok tt)

  unfoldable pub detach_tun : ManagerConfig → Action W (Unit {0})
  detach_tun c = detach_family false c >> if_ipv6 c (detach_family true c)

  unfoldable pub take_policy_down : ManagerConfig → Action W (Unit {0})
  take_policy_down c = do
    route_result ← attempt (take_routes_down c)
    firewall_result ← attempt take_firewall_down
    return (and route_result firewall_result)

  abbrev pub perform : TunInternalAction → ManagerConfig → Action W (Unit {0})
  perform policy_up c = bring_firewall_up c >> on_error take_firewall_down (bring_routes_up c)
  perform policy_down c = take_policy_down c
  perform firewall_up c = bring_firewall_up c
  perform firewall_down c = take_firewall_down
  perform routes_up c = bring_routes_up c
  perform routes_down c = take_routes_down c
  perform attach c = attach_tun c
  perform detach c = detach_tun c

  unfoldable pub run_tun_internal : TunInternalAction → ManagerConfig → Action W (Unit {0})
  run_tun_internal action c =
      if not c.tun.enabled && is_attachment action then return (ok tt) else perform action c
