-- ===== src/Core/Config/Validity.antt =====
-- What a configuration must satisfy for `validate` of config.rs.
use Prim.Native.String.{len}
use xrayctl.Common.{
  String, ◌≤◌, ◌<◌, map_or, true, false, Option, none, some, List, [], ◌∷◌, map, ◌≡◌, ◌≢◌, ◌↔◌, ◌⊎◌,
  inl, inr, refl, ap, arith, eq_iff, Option-cases, All, all_chars, split_once, is_empty_text,
  is_empty,
}
use xrayctl.Core.Error.{ok}
use xrayctl.Core.Config.{ManagerConfig, AssetConfig, is_loopback}
use xrayctl.Core.Config.Validation.{
  Url, is_https, is_resource_char, one_of, repository_fails, gateway_fails, asset_checks,
  run_checks, validate_assets, field_checks, validate_repository, validate_manager_repository,
  validate_gateway, validate,
}
use xrayctl.Core.Config.Checks.{
  >>_iff, five_iff, fail_if_iff, run_checks_iff, is_empty_text_iff, is_empty_text-true, Absent,
  one_of_iff, Distinct, DistinctFrom, DistinctFrom-iff, All-true, IsFileName, filename_fails_iff,
}

abbrev pub IsResourceName : String → Type 0
IsResourceName s = (s ≢ "") × (all_chars is_resource_char s ≡ true)

module _ (parse_url : String → Url) where
  pub record IsValidAsset (a : AssetConfig) : Type 0 where
    pub named : IsResourceName a.id
    pub file : IsFileName a.filename
    pub secure : is_https (parse_url a.url) ≡ true

  abbrev ValidFrom : List String → List String → List AssetConfig → Type 0
  ValidFrom ids names [] = Unit
  ValidFrom ids names (a ∷ more) =
      (IsValidAsset a × Absent ids a.id × Absent names a.filename)
      × ValidFrom (a.id ∷ ids) (a.filename ∷ names) more

  asset_checks_iff :
      (ids names : List String) (a : AssetConfig)
      → All (λ c. c.0 ≡ false) (asset_checks parse_url ids names a)
        ↔ (IsValidAsset a × Absent ids a.id × Absent names a.filename)
  unfolding asset_checks
  asset_checks_iff ids names a = (
    (λ h. (
      record {
        named = ground (arith, is_empty_text_iff a.id);
        file = (filename_fails_iff a.filename).0 h.1.0;
        secure = ground arith;
      },
      (one_of_iff ids a.id).0 h.1.1.0,
      (one_of_iff names a.filename).0 h.1.1.1.0,
    )),
    λ h. ground (
      arith,
      is_empty_text_iff a.id,
      filename_fails_iff a.filename,
      one_of_iff ids a.id,
      one_of_iff names a.filename,
      h.0.named,
      h.0.file,
      h.0.secure,
    ),
  )

  validate_assets_iff :
      (ids names : List String) (assets : List AssetConfig)
      → (validate_assets parse_url ids names assets ≡ ok tt) ↔ ValidFrom ids names assets
  unfolding validate_assets
  validate_assets_iff ids names [] = ((λ h. tt), λ h. refl)
  validate_assets_iff ids names (a ∷ more) =
      let both =
        >>_iff (run_checks (asset_checks parse_url ids names a))
          (validate_assets parse_url (a.id ∷ ids) (a.filename ∷ names) more) in
      let now = run_checks_iff (asset_checks parse_url ids names a) in
      let this = asset_checks_iff ids names a in
      let later = validate_assets_iff (a.id ∷ ids) (a.filename ∷ names) more in
      (
        (λ h. let (x, y) = both.0 h in (this.0 (now.0 x), later.0 y)),
        λ h. both.1 (now.1 (this.1 h.0), later.1 h.1),
      )

  -- Each asset is valid, and no two share an identifier or a file name.
  pub record ValidAssets (assets : List AssetConfig) : Type 0 where
    pub each : All IsValidAsset assets
    pub ids : Distinct (map (λ a. a.id) assets)
    pub filenames : Distinct (map (λ a. a.filename) assets)

  ValidFrom-iff :
      (ids names : List String) (assets : List AssetConfig)
      → ValidFrom ids names assets ↔ (
          All IsValidAsset assets
          × DistinctFrom ids (map (λ a. a.id) assets)
          × DistinctFrom names (map (λ a. a.filename) assets))
  ValidFrom-iff ids names [] = ((λ h. (tt, tt, tt)), λ h. tt)
  ValidFrom-iff ids names (a ∷ more) =
      let ih = ValidFrom-iff (a.id ∷ ids) (a.filename ∷ names) more in
      (
        (λ h. let (e, i, n) = ih.0 h.1 in ((h.0.0, e), (h.0.1, i), (h.0.2, n))),
        λ h. ((h.0.0, h.1.0, h.2.0), ih.1 (h.0.1, h.1.1, h.2.1)),
      )

  ValidAssets-iff :
      (assets : List AssetConfig)
      → (validate_assets parse_url [] [] assets ≡ ok tt) ↔ ValidAssets assets
  ValidAssets-iff assets =
      let code = validate_assets_iff [] [] assets in
      let parts = ValidFrom-iff [] [] assets in
      let i = DistinctFrom-iff [] (map (λ a. a.id) assets) in
      let n = DistinctFrom-iff [] (map (λ a. a.filename) assets) in
      (
        (λ h.
            let (e, x, y) = parts.0 (code.0 h) in
            record { each = e; ids = (i.0 x).1; filenames = (n.0 y).1 }),
        λ h. code.1 (parts.1 (h.each, i.1 (All-true _, h.ids), n.1 (All-true _, h.filenames))),
      )

  -- A configuration that the manager accepts.
  pub record IsValid (c : ManagerConfig) : Type 0 where
    pub socks_used : c.proxy.socks_port ≢ 0
    pub http_used : c.proxy.http_port ≢ 0
    pub ports_differ : c.proxy.socks_port ≢ c.proxy.http_port
    pub local : is_loopback c.proxy.listen ≡ true
    pub concurrent : c.menu.probe_concurrency ≢ 0
    pub connect_timeout : c.general.connect_timeout_seconds ≢ 0
    pub request_timeout : c.general.request_timeout_seconds ≢ 0
    pub subscription_size : c.general.max_subscription_size_mb ≢ 0
    pub archive_size : c.general.max_core_archive_size_mb ≢ 0
    pub asset_size : c.general.max_asset_size_mb ≢ 0
    pub probe_timeout : c.menu.probe_timeout_seconds ≢ 0
    pub green_below_yellow : c.menu.latency_green_ms ≤ c.menu.latency_yellow_ms
    pub secure_healthcheck : is_https (parse_url c.general.healthcheck_url) ≡ true
    pub fails_closed : c.tun.enabled ≡ true → c.tun.fail_closed ≡ true
    pub mtu_low : 576 ≤ c.tun.mtu
    pub mtu_high : c.tun.mtu ≤ 9000
    pub system_dns : c.dns.mode ≡ "system"
    pub strategy :
        one_of ("UseIP" ∷ "UseIPv4" ∷ "UseIPv6" ∷ "UseSystem" ∷ []) c.dns.query_strategy ≡ true
    pub dns_servers :
        c.tun.override_resolv_conf_for_apps ≡ true → is_empty c.dns.tun_servers ≡ false
    pub interface_named : IsResourceName c.tun.interface_name
    pub interface_short : len c.tun.interface_name ≤ 15
    pub table_used : c.tun.routing_table ≢ 0
    pub table_user : (c.tun.routing_table < 253) ⊎ (255 < c.tun.routing_table)
    pub marked : c.tun.packet_mark ≢ 0
    pub stable : c.core.channel ≡ "stable"
    pub unpinned : c.core.pinned_version ≡ ""
    pub repository : repository_fails c.core.repository ≡ false
    pub manager_repository : map_or false repository_fails c.core.manager_repository ≡ false
    pub gateway : map_or true gateway_fails (split_once b'/' c.tun.ipv4_gateway) ≡ false
    pub assets : ValidAssets c.assets

  repository_iff :
      (value field : String)
      → (validate_repository value field ≡ ok tt) ↔ (repository_fails value ≡ false)
  unfolding validate_repository
  repository_iff value field = fail_if_iff (repository_fails value) _

  fields-IsValid :
      (c : ManagerConfig)
      → All (λ k. k.0 ≡ false) (field_checks parse_url c)
      → repository_fails c.core.repository ≡ false
      → map_or false repository_fails c.core.manager_repository ≡ false
      → map_or true gateway_fails (split_once b'/' c.tun.ipv4_gateway) ≡ false
      → ValidAssets c.assets
      → IsValid c
  unfolding field_checks
  fields-IsValid c h r m g v = record {
    socks_used = ground arith;
    http_used = ground arith;
    ports_differ = ground arith;
    local = ground arith;
    concurrent = ground arith;
    connect_timeout = ground arith;
    request_timeout = ground arith;
    subscription_size = ground arith;
    archive_size = ground arith;
    asset_size = ground arith;
    probe_timeout = ground arith;
    green_below_yellow = ground arith;
    secure_healthcheck = ground arith;
    fails_closed = ground arith;
    mtu_low = ground arith;
    mtu_high = ground arith;
    system_dns = ground (arith, eq_iff c.dns.mode "system");
    strategy = ground arith;
    dns_servers = ground arith;
    interface_named = ground (arith, is_empty_text_iff c.tun.interface_name);
    interface_short = ground arith;
    table_used = ground arith;
    table_user = ground arith;
    marked = ground arith;
    stable = ground (arith, eq_iff c.core.channel "stable");
    unpinned = is_empty_text-true c.core.pinned_version (ground arith);
    repository = r;
    manager_repository = m;
    gateway = g;
    assets = v;
  }

  fields_pass : (c : ManagerConfig) → IsValid c → All (λ k. k.0 ≡ false) (field_checks parse_url c)
  unfolding field_checks
  fields_pass c v = ground (
    arith,
    v.local,
    v.fails_closed,
    v.dns_servers,
    v.strategy,
    v.secure_healthcheck,
    v.interface_named,
    eq_iff c.dns.mode "system",
    eq_iff c.core.channel "stable",
    is_empty_text_iff c.tun.interface_name,
    ap is_empty_text v.unpinned,
  )

  manager_repository_iff :
      (r : Option String)
      → (validate_manager_repository r ≡ ok tt) ↔ (map_or false repository_fails r ≡ false)
  unfolding validate_manager_repository
  manager_repository_iff none = ((λ h. refl), λ h. refl)
  manager_repository_iff (some r) = repository_iff r "core.manager_repository"

  gateway_iff :
      (text : String)
      → (validate_gateway text ≡ ok tt) ↔ (map_or true gateway_fails (split_once b'/' text) ≡ false)
  unfolding validate_gateway
  gateway_iff text = elim (Option-cases (split_once b'/' text)) [
    | inl q ↦ rw q ((λ h. cc), λ h. cc)
    | inr (parts, q) ↦ rw q (fail_if_iff (gateway_fails parts) _)
  ]

  -- A configuration is accepted exactly when it is valid: ports used and different, a loopback
  -- address, limits and timeouts used, HTTPS URLs, fail-closed TUN, bounds on the MTU, the interface
  -- name and the routing table, repositories and gateway in form, and assets that are valid and
  -- pairwise different in identifier and file name.
  pub validate_iff : (c : ManagerConfig) → (validate parse_url c ≡ ok tt) ↔ IsValid c
  unfolding validate
  validate_iff c =
      let f = run_checks_iff (field_checks parse_url c) in
      let r = repository_iff c.core.repository "core.repository" in
      let m = manager_repository_iff c.core.manager_repository in
      let g = gateway_iff c.tun.ipv4_gateway in
      let a = ValidAssets-iff c.assets in
      let steps =
        five_iff (run_checks (field_checks parse_url c)) _ _ _
          (validate_assets parse_url [] [] c.assets) in
      (
        (λ h.
            let (x, (y, (z, (v, (w, _))))) = steps.0 h in
            fields-IsValid c (f.0 x) (r.0 y) (m.0 z) (g.0 v) (a.0 w)),
        λ v. steps.1 (
          f.1 (fields_pass c v),
          (r.1 v.repository, (m.1 v.manager_repository, (g.1 v.gateway, (a.1 v.assets, tt)))),
        ),
      )
