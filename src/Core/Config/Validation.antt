-- ===== src/Core/Config/Validation.antt =====
-- crates/xray-manager-core/src/config.rs: the checks of `validate`.
use Prim.Native.String.{len}
use xrayctl.Common.{
  ℕ, String, ◌<>◌, Bool, true, false, not, ◌&&◌, ◌||◌, Option, none, some, List, [], ◌∷◌, ◌==◌, ltb,
  leb, eqb, any, all_chars, is_ascii_alphanumeric, is_empty_text, is_empty, split, split_once,
  parse_uint, is_ipv4, file_name, components, length, map_or, ◌⊎◌, inl, inr,
}
use xrayctl.Core.Error.{ManagerError, invalid_config, Result, ok, fail_if, ok_or, ◌>>=◌, ◌>>◌}
use xrayctl.Core.Config.{is_loopback, AssetConfig, ManagerConfig}

abbrev pub one_of : List String → String → Bool
one_of names s = any (λ n. n == s) names

-- The characters of resource names: ASCII letters, digits, '-' and '_'.
unfoldable pub is_resource_char : ℕ → Bool
unfolding is_ascii_alphanumeric
is_resource_char c = is_ascii_alphanumeric c || eqb c b'-' || eqb c b'_'

abbrev pub is_plain_name : String → Bool
is_plain_name s = not (is_empty_text s) && all_chars is_resource_char s

-- The first check that fails, of checks made in order.
abbrev pub Check : Type 0
Check = Bool × ManagerError

abbrev pub run_checks : List Check → Result (Unit {0})
run_checks [] = ok tt
run_checks ((fails, e) ∷ cs) = fail_if fails e >> run_checks cs

unfoldable pub is_repository_char : ℕ → Bool
unfolding is_ascii_alphanumeric
is_repository_char c =
    is_ascii_alphanumeric c || eqb c b'-' || eqb c b'_' || eqb c b'.' || eqb c b'/'

-- Owner and repository, and nothing after them.
unfoldable pub has_two_parts : List String → Bool
has_two_parts (owner ∷ repository ∷ []) =
    not (is_empty_text owner) && not (is_empty_text repository)
has_two_parts _ = false

unfoldable pub repository_fails : String → Bool
unfolding is_repository_char has_two_parts split
repository_fails value =
    not (has_two_parts (split b'/' value)) || not (all_chars is_repository_char value)

unfoldable pub validate_repository : String → String → Result (Unit {0})
unfolding repository_fails
validate_repository value field =
    fail_if (repository_fails value) (invalid_config (field <> " must use owner/repository form"))

unfoldable pub validate_manager_repository : Option String → Result (Unit {0})
unfolding validate_repository
validate_manager_repository none = ok tt
validate_manager_repository (some r) = validate_repository r "core.manager_repository"

-- `gateway.parse::<Ipv4Addr>()`, and a prefix of at most 32 read as `u8`.
unfoldable pub gateway_fails : String × String → Bool
unfolding is_ipv4 parse_uint
gateway_fails (gateway, prefix) =
    not (is_ipv4 gateway) || map_or true (λ n. ltb 32 n) (parse_uint 255 prefix)

unfoldable pub validate_gateway : String → Result (Unit {0})
validate_gateway text =
    ok_or (split_once b'/' text) (invalid_config "invalid TUN IPv4 gateway") >>= λ parts.
    fail_if (gateway_fails parts) (invalid_config "invalid TUN IPv4 gateway")

abbrev pub is_whole : String → Option String → Bool
is_whole s none = false
is_whole s (some t) = t == s

unfoldable pub filename_fails : String → Bool
filename_fails s =
    is_empty_text s || not (is_whole s (file_name s)) || not (eqb (length (components s)) 1)

-- What the `url` crate makes of a text: an error message, or a URL with this scheme.
abbrev pub Url : Type 0
Url = String ⊎ String

abbrev pub is_refused : Url → Bool
is_refused (inl message) = true
is_refused (inr scheme) = false

abbrev refusal : Url → String
refusal (inl message) = message
refusal (inr scheme) = ""

abbrev pub is_https : Url → Bool
is_https (inl message) = false
is_https (inr scheme) = scheme == "https"

module _ (parse_url : String → Url) where
  unfoldable pub asset_checks : List String → List String → AssetConfig → List Check
  unfolding is_resource_char filename_fails
  asset_checks ids names a =
      (
        not (is_plain_name a.id),
        invalid_config "asset IDs may contain only ASCII letters, digits, '-' and '_'",
      )
      ∷ (
        filename_fails a.filename,
        invalid_config "asset filename must be a single UTF-8 file name without a path",
      )
      ∷ (one_of ids a.id, invalid_config ("duplicate asset ID '" <> a.id <> "'"))
      ∷ (
        one_of names a.filename,
        invalid_config ("duplicate asset filename '" <> a.filename <> "'"),
      )
      ∷ (is_refused (parse_url a.url), invalid_config (refusal (parse_url a.url)))
      ∷ (not (is_https (parse_url a.url)), invalid_config ("asset " <> a.id <> " must use HTTPS"))
      ∷ []

  -- The loop over the assets, with the identifiers and the file names seen so far.
  unfoldable pub validate_assets : List String → List String → List AssetConfig → Result (Unit {0})
  unfolding asset_checks
  validate_assets ids names [] = ok tt
  validate_assets ids names (a ∷ more) =
      let rest = validate_assets (a.id ∷ ids) (a.filename ∷ names) more in
      run_checks (asset_checks ids names a) >> rest

  -- The checks of `validate` above those of the repositories, in their order.
  unfoldable pub field_checks : ManagerConfig → List Check
  unfolding is_resource_char
  field_checks c =
      (
        eqb c.proxy.socks_port 0 || eqb c.proxy.http_port 0,
        invalid_config "SOCKS and HTTP ports must be non-zero",
      )
      ∷ (
        eqb c.proxy.socks_port c.proxy.http_port,
        invalid_config "SOCKS and HTTP ports must be different",
      )
      ∷ (not (is_loopback c.proxy.listen), invalid_config "proxy listen address must be loopback")
      ∷ (
        eqb c.menu.probe_concurrency 0,
        invalid_config "menu.probe_concurrency must be greater than zero",
      )
      ∷ (
        eqb c.general.connect_timeout_seconds 0
            || eqb c.general.request_timeout_seconds 0
            || eqb c.general.max_subscription_size_mb 0
            || eqb c.general.max_core_archive_size_mb 0
            || eqb c.general.max_asset_size_mb 0,
        invalid_config "timeouts and download size limits must be greater than zero",
      )
      ∷ (
        eqb c.menu.probe_timeout_seconds 0,
        invalid_config "menu.probe_timeout_seconds must be greater than zero",
      )
      ∷ (
        ltb c.menu.latency_yellow_ms c.menu.latency_green_ms,
        invalid_config "menu.latency_green_ms must not exceed menu.latency_yellow_ms",
      )
      ∷ (is_refused (parse_url c.general.healthcheck_url), invalid_config "invalid healthcheck URL")
      ∷ (
        not (is_https (parse_url c.general.healthcheck_url)),
        invalid_config "healthcheck URL must use HTTPS",
      )
      ∷ (
        c.tun.enabled && not c.tun.fail_closed,
        invalid_config "selective TUN requires fail_closed = true",
      )
      ∷ (
        not (leb 576 c.tun.mtu && leb c.tun.mtu 9000),
        invalid_config "TUN MTU must be between 576 and 9000",
      )
      ∷ (not (c.dns.mode == "system"), invalid_config "only dns.mode = \"system\" is supported")
      ∷ (
        not (one_of ("UseIP" ∷ "UseIPv4" ∷ "UseIPv6" ∷ "UseSystem" ∷ []) c.dns.query_strategy),
        invalid_config "dns.query_strategy must be UseIP, UseIPv4, UseIPv6, or UseSystem",
      )
      ∷ (
        c.tun.override_resolv_conf_for_apps && is_empty c.dns.tun_servers,
        invalid_config "dns.tun_servers cannot be empty when per-app DNS override is enabled",
      )
      ∷ (
        is_empty_text c.tun.interface_name
            || ltb 15 (len c.tun.interface_name)
            || not (all_chars is_resource_char c.tun.interface_name),
        invalid_config "TUN interface name must be 1-15 ASCII letters, digits, '-' or '_'",
      )
      ∷ (
        eqb c.tun.routing_table 0
            || eqb c.tun.routing_table 253
            || eqb c.tun.routing_table 254
            || eqb c.tun.routing_table 255
            || eqb c.tun.packet_mark 0,
        invalid_config "TUN requires a non-system routing table and non-zero packet mark",
      )
      ∷ (
        not (c.core.channel == "stable"),
        invalid_config "only core.channel = \"stable\" is supported",
      )
      ∷ (
        not (is_empty_text c.core.pinned_version),
        invalid_config "core.pinned_version is not implemented; leave it empty",
      )
      ∷ []

  unfoldable pub validate : ManagerConfig → Result (Unit {0})
  validate c =
      run_checks (field_checks c)
      >> (validate_repository c.core.repository "core.repository"
          >> (validate_manager_repository c.core.manager_repository
              >> (validate_gateway c.tun.ipv4_gateway >> validate_assets [] [] c.assets)))
