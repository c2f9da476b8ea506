-- ===== src/Platform/Linux/Adapters.antt =====
-- crates/xray-manager-platform/src/linux/adapters.rs: `ArchPackageAdvisor`, and what the adapters of
-- the firewall, the policy routing and the interface show.
use xrayctl.Common.{
  String, ◌<>◌, Bool, false, not, ◌||◌, Option, none, some, List, [], ◌∷◌, ◌==◌, map, filter, join,
  is_empty, trim, sort_by, if◌then◌else◌,
}
use xrayctl.Core.Error.{other, Result, ok, err}
use xrayctl.Core.Config.{ManagerConfig}
use xrayctl.Core.Backends.{Action}
use xrayctl.Platform.Linux.Commands.{CommandOutput, is_zero, ◌>>=◌, return, Run}
use xrayctl.Platform.Linux.Tun.{list_args, link_args, table_of}

abbrev programs : List String
programs =
    "chown" ∷ "curl" ∷ "getent" ∷ "gpasswd" ∷ "groupadd" ∷ "id" ∷ "ip" ∷ "journalctl" ∷ "mount"
    ∷ "nft" ∷ "systemctl" ∷ "unshare" ∷ "useradd" ∷ "usermod" ∷ []

unfoldable pub missing_requirements : (String → Bool) → List String
missing_requirements command_exists = filter (λ program. not (command_exists program)) programs

abbrev is_among : List String → String → Bool
is_among [] s = false
is_among (t ∷ ts) s = s == t || is_among ts s

abbrev package_of : String → String
package_of s =
    if s == "chown"
    then "coreutils"
    else if s == "curl"
    then "curl"
    else if s == "getent"
    then "glibc"
    else if is_among ("gpasswd" ∷ "groupadd" ∷ "useradd" ∷ "usermod" ∷ []) s
    then "shadow"
    else if s == "ip"
    then "iproute2"
    else if is_among ("mount" ∷ "unshare" ∷ []) s
    then "util-linux"
    else if s == "nft"
    then "nftables"
    else if is_among ("journalctl" ∷ "systemctl" ∷ []) s
    then "systemd"
    else s

-- `Vec::dedup`, which drops an element that is equal to the one before it.
dedup_after : String → List String → List String
dedup_after s [] = []
dedup_after s (t ∷ ts) = let rest = dedup_after t ts in if t == s then rest else t ∷ rest

without_repeats : List String → List String
unfolding dedup_after
without_repeats [] = []
without_repeats (s ∷ ss) = s ∷ dedup_after s ss

unfoldable pub packages_for : List String → List String
unfolding without_repeats sort_by
packages_for requirements = without_repeats (sort_by (λ s. s) (map package_of requirements))

unfoldable pub install_hint : List String → Option String
unfolding packages_for join
install_hint requirements =
    if is_empty (packages_for requirements)
    then none
    else some ("sudo pacman -S --needed " <> join " " (packages_for requirements))

abbrev shown : String → CommandOutput → Result String
shown program output =
    if is_zero output.status
    then ok output.stdout
    else err (other (program <> (" failed: " <> trim output.stderr)))

module _ {W : Type 0} (run : Run W) where
  -- `NftablesFirewallManager::show`.
  unfoldable pub show_firewall : Action W String
  show_firewall = run "nft" list_args >>= λ output. return (shown "nft" output)

  -- The loop of `IpRoutePolicyManager::show`.
  unfoldable pub show_all : List (List String) → String → Action W String
  unfolding join
  show_all [] text = return (ok text)
  show_all (args ∷ more) text = do
    result ← run "ip" args
    stdout ← return (shown "ip" result)
    show_all more (text <> ("$ ip " <> (join " " args <> ("\n" <> stdout))))

  abbrev show_args : ManagerConfig → List (List String)
  show_args c =
      ("rule" ∷ "show" ∷ [])
      ∷ ("route" ∷ "show" ∷ "table" ∷ table_of c ∷ [])
      ∷ ("-6" ∷ "rule" ∷ "show" ∷ [])
      ∷ ("-6" ∷ "route" ∷ "show" ∷ "table" ∷ table_of c ∷ [])
      ∷ []

  unfoldable pub show_routing : ManagerConfig → Action W String
  unfolding show_all
  show_routing c = show_all (show_args c) ""

  -- `LinuxTunManager::status`.
  unfoldable pub tun_status : String → Action W Bool
  tun_status interface =
      run "ip" (link_args interface) >>= λ output. return (ok (is_zero output.status))
