-- ===== src/Core/Config/Defaults.antt =====
-- The configuration that the manager starts from, `Default` in config.rs.
use xrayctl.Common.{
  String, split_once, file_name, last_name, components, ◌≡◌, inl, inr, refl, ap, eq_iff, true,
  false, none, [], ◌∷◌,
}
use xrayctl.Core.Error.{ok}
use xrayctl.Core.Config.{
  GeneralConfig, CoreConfig, v4, ProxyConfig, DnsConfig, TunConfig, MenuConfig, AssetConfig,
  ManagerConfig,
}
use xrayctl.Core.Config.Validation.{
  Url, is_https, validate_repository, validate_manager_repository, validate_gateway, gateway_fails,
  field_checks, validate_assets, validate,
}

abbrev pub default_general : GeneralConfig
default_general = record {
  keep_generations = 3;
  keep_core_versions = 2;
  keep_asset_generations = 2;
  connect_timeout_seconds = 8;
  request_timeout_seconds = 20;
  max_subscription_size_mb = 20;
  max_core_archive_size_mb = 150;
  max_asset_size_mb = 200;
  healthcheck_url = "https://www.gstatic.com/generate_204";
}

abbrev pub default_core : CoreConfig
default_core = record {
  repository = "XTLS/Xray-core";
  channel = "stable";
  pinned_version = "";
  manager_repository = none;
}

abbrev pub default_proxy : ProxyConfig
default_proxy = record {
  listen = v4 127 0 0 1;
  socks_port = 10808;
  http_port = 10809;
  udp = true;
  sniffing = true;
}

abbrev pub default_dns : DnsConfig
default_dns = record {
  mode = "system";
  tun_servers = v4 1 1 1 1 ∷ v4 8 8 8 8 ∷ [];
  query_strategy = "UseIP";
}

abbrev pub default_tun : TunConfig
default_tun = record {
  enabled = true;
  interface_name = "xray0";
  mtu = 1500;
  ipv4_gateway = "172.31.255.1/30";
  ipv6_enabled = false;
  routing_table = 166;
  packet_mark = 102;
  bypass_private_networks = true;
  fail_closed = true;
  override_resolv_conf_for_apps = true;
}

abbrev pub default_menu : MenuConfig
default_menu = record {
  probe_on_open = true;
  probe_concurrency = 4;
  probe_timeout_seconds = 8;
  latency_green_ms = 200;
  latency_yellow_ms = 500;
}

abbrev pub geoip : AssetConfig
geoip = record {
  id = "geoip";
  filename = "geoip.dat";
  url = "https://raw.githubusercontent.com/runetfreedom/russia-v2ray-rules-dat/release/geoip.dat";
}

abbrev pub geosite : AssetConfig
geosite = record {
  id = "geosite";
  filename = "geosite.dat";
  url = "https://raw.githubusercontent.com/runetfreedom/russia-v2ray-rules-dat/release/geosite.dat";
}

abbrev pub default_config : ManagerConfig
default_config = record {
  general = default_general;
  core = default_core;
  proxy = default_proxy;
  dns = default_dns;
  tun = default_tun;
  menu = default_menu;
  assets = geoip ∷ geosite ∷ [];
  platform = λ c. none;
}

is_https-true : (u : Url) → is_https u ≡ true → u ≡ inr "https"
is_https-true (inl message) h = cc
is_https-true (inr scheme) h = ap inr ((eq_iff scheme "https").0 h)

-- The default configuration passes the checks, if the URLs in it are read as HTTPS.
pub default_config-validate :
    (parse_url : String → Url)
    → is_https (parse_url default_general.healthcheck_url) ≡ true
    → is_https (parse_url geoip.url) ≡ true
    → is_https (parse_url geosite.url) ≡ true
    → validate parse_url default_config ≡ ok tt
unfolding validate field_checks validate_repository validate_manager_repository validate_gateway
    gateway_fails validate_assets split_once file_name last_name components
default_config-validate parse_url h i s =
    rw
      (
        is_https-true (parse_url default_general.healthcheck_url) h,
        is_https-true (parse_url geoip.url) i,
        is_https-true (parse_url geosite.url) s,
      )
      refl
