-- ===== src/Platform/Linux/Nftables.antt =====
-- crates/xray-manager-platform/src/templates.rs: `nftables`.
use xrayctl.Common.{ℕ, String, ◌<>◌, show, if◌then◌else◌}
use xrayctl.Core.Config.{TunConfig}

abbrev private_ipv4 : TunConfig → String
private_ipv4 c =
    if c.bypass_private_networks
    then "ip daddr { 10.0.0.0/8, 172.16.0.0/12, 192.168.0.0/16 } return"
    else ""

abbrev private_ipv6 : TunConfig → String
private_ipv6 c = if c.bypass_private_networks then "ip6 daddr fc00::/7 return" else ""

unfoldable pub nftables : TunConfig → ℕ → String
unfolding show
nftables c tun_gid =
    "table inet xray_manager {\n  chain output {\n    type route hook output priority mangle; policy accept;\n    oifname \"lo\" return\n    ip daddr 127.0.0.0/8 return\n    ip daddr 169.254.0.0/16 return\n    ip daddr 224.0.0.0/4 return\n    ip6 daddr ::1 return\n    ip6 daddr fe80::/10 return\n    ip6 daddr ff00::/8 return\n    "
    <> (private_ipv4 c
        <> ("\n    "
            <> (private_ipv6 c
                <> ("\n    meta skgid "
                    <> (show tun_gid
                        <> (" meta mark set " <> (show c.packet_mark <> "\n  }\n}\n")))))))
