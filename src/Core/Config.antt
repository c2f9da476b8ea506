-- ===== src/Core/Config.antt =====
-- crates/xray-manager-core/src/config.rs: the configuration and the checks that it passes.
-- The TOML reader and the `url` crate are not under verification: `ManagerConfig::parse` is
-- `validate` after the reader, and `scheme` gives the scheme of a URL that the crate parses.
pub mod Defaults
pub mod Checks
pub mod Validation
pub mod Validity
use Prim.Native.String.{len}
use xrayctl.Common.{
  ℕ, String, ◌<>◌, Bool, true, false, not, ◌&&◌, ◌||◌, Option, none, some, List, [], ◌∷◌, ◌==◌, ltb,
  leb, eqb, if◌then◌else◌, any, all, all_chars, is_ascii_alphanumeric, is_empty_text, is_empty,
  split, split_once, parse_uint, is_ipv4, file_name, components, length, map_or, ◌⊎◌, inl, inr,
}
use xrayctl.Core.Ports.{Choices}
use xrayctl.Core.Error.{ManagerError, invalid_config, Result, ok, err, fail_if, ok_or, ◌>>=◌, ◌>>◌}

pub record GeneralConfig : Type 0 where
  pub keep_generations : ℕ
  pub keep_core_versions : ℕ
  pub keep_asset_generations : ℕ
  pub connect_timeout_seconds : ℕ
  pub request_timeout_seconds : ℕ
  pub max_subscription_size_mb : ℕ
  pub max_core_archive_size_mb : ℕ
  pub max_asset_size_mb : ℕ
  pub healthcheck_url : String

pub record CoreConfig : Type 0 where
  pub repository : String
  pub channel : String
  pub pinned_version : String
  pub manager_repository : Option String

-- `std::net::IpAddr`.
pub data IpAddr : Type 0 where
  v4 : ℕ → ℕ → ℕ → ℕ → IpAddr
  v6 : ℕ → IpAddr

abbrev pub is_loopback : IpAddr → Bool
is_loopback (v4 a b c d) = eqb a 127
is_loopback (v6 n) = eqb n 1

pub record ProxyConfig : Type 0 where
  pub listen : IpAddr
  pub socks_port : ℕ
  pub http_port : ℕ
  pub udp : Bool
  pub sniffing : Bool

pub record DnsConfig : Type 0 where
  pub mode : String
  pub tun_servers : List IpAddr
  pub query_strategy : String

pub record TunConfig : Type 0 where
  pub enabled : Bool
  pub interface_name : String
  pub mtu : ℕ
  pub ipv4_gateway : String
  pub ipv6_enabled : Bool
  pub routing_table : ℕ
  pub packet_mark : ℕ
  pub bypass_private_networks : Bool
  pub fail_closed : Bool
  pub override_resolv_conf_for_apps : Bool

pub record MenuConfig : Type 0 where
  pub probe_on_open : Bool
  pub probe_concurrency : ℕ
  pub probe_timeout_seconds : ℕ
  pub latency_green_ms : ℕ
  pub latency_yellow_ms : ℕ

pub record AssetConfig : Type 0 where
  pub id : String
  pub filename : String
  pub url : String

pub record ManagerConfig : Type 0 where
  pub general : GeneralConfig
  pub core : CoreConfig
  pub proxy : ProxyConfig
  pub dns : DnsConfig
  pub tun : TunConfig
  pub menu : MenuConfig
  pub assets : List AssetConfig
  pub platform : Choices
