-- ===== src/Core/Render/Representable.antt =====
-- The nodes that can be rendered.
use xrayctl.Common.{
  String, Bool, true, false, not, ◌&&◌, Option, none, some, List, [], ◌∷◌, ◌==◌, ◌≡◌, ◌⊎◌, refl,
  ◌∙◌, ap, all, map_or, is_some, is_empty, to_ascii_lowercase, if◌then◌else◌,
}
use xrayctl.Core.Error.{ManagerError, Result, ok, err, fail_if, ok_or, is_ok, ◌>>=◌, ◌>>◌}
use xrayctl.Core.Config.{IpAddr, ManagerConfig}
use xrayctl.Core.Config.Validation.{one_of}
use xrayctl.Core.Domain.{Node, Protocol, Transport, vless, vmess, trojan, shadowsocks, hysteria2}
use xrayctl.Core.Routing.{RoutingConfig}
use xrayctl.Core.Json.{Value, Fields, null, bool, num, str, arr, obj, end}
use xrayctl.Core.Render.{merge_custom, proxy_of, render_xray_config}
use xrayctl.Core.Render.Mask.{extra, render_finalmask}
use xrayctl.Core.Render.Stream.{normalize_network, methods, with_raw, stream_base, render_stream}
use xrayctl.Core.Render.Outbound.{refuse_plugin, outbound_of, render_proxy_outbound}

is_ok->>= {ℓ κ} :
    {T : Type ℓ} {U : Type κ} (r : Result T) (f : T → Result U) (b : Bool)
    → ((x : T) → is_ok (f x) ≡ b)
    → is_ok (r >>= f) ≡ (is_ok r && b)
is_ok->>= (ok x) f b h = h x
is_ok->>= (err e) f b h = refl

unless {ℓ} :
    {U : Type ℓ} (t : Bool) (e : ManagerError) (r : Result U) (b : Bool)
    → is_ok r ≡ b
    → is_ok (fail_if (not t) e >> r) ≡ (t && b)
unless true e r b h = h
unless false e r b h = refl

is_ok-fail_if {ℓ} :
    {U : Type ℓ} (t : Bool) (e : ManagerError) (r : Result U)
    → is_ok (fail_if t e >> r) ≡ (not t && is_ok r)
is_ok-fail_if true e r = refl
is_ok-fail_if false e r = refl

is_ok->>=-ok {ℓ κ} :
    {T : Type ℓ} {U : Type κ} (r : Result T) (f : T → U) → is_ok (r >>= λ x. ok (f x)) ≡ is_ok r
is_ok->>=-ok (ok x) f = refl
is_ok->>=-ok (err e) f = refl

needed {ℓ} :
    {A : Type 0} {U : Type ℓ} (o : Option A) (e : ManagerError) (f : A → Result U) (b : Bool)
    → ((a : A) → is_ok (f a) ≡ b)
    → is_ok (ok_or o e >>= f) ≡ (is_some o && b)
needed none e f b h = refl
needed (some a) e f b h = h a

plugin_refused {ℓ} :
    {U : Type ℓ} (o : Option String) (r : Result U) (b : Bool)
    → is_ok r ≡ b
    → is_ok (refuse_plugin o >> r) ≡ (not (is_some o) && b)
plugin_refused none r b h = h
plugin_refused (some s) r b h = refl

-- A header that the plain transport can carry.
abbrev pub has_header : Option String → Bool
has_header none = true
has_header (some kind) = one_of ("none" ∷ "http" ∷ []) (to_ascii_lowercase kind)

and_true_right : (b : Bool) → (b && true) ≡ b
and_true_right true = refl
and_true_right false = refl

with_raw-is_ok :
    (t : Transport) (kind : Option String) (stream : Fields)
    → is_ok (with_raw t kind stream) ≡ has_header kind
with_raw-is_ok t none stream = refl
with_raw-is_ok t (some kind) stream =
    unless (has_header (some kind)) _ _ true refl ∙ and_true_right (has_header (some kind))

raw_if-is_ok :
    (t : Bool) (raw : Result Fields) (stream : Fields) (b : Bool)
    → is_ok raw ≡ b
    → is_ok (if t then raw else ok stream) ≡ (if t then b else true)
raw_if-is_ok true raw stream b h = h
raw_if-is_ok false raw stream b h = refl

module _ (read_json : String → String ⊎ Value) where
  abbrev pub has_stream : Node → Bool
  has_stream n =
      let method = normalize_network n.transport.kind in
      one_of methods method
      && ((if method == "tcp" then has_header n.transport.header_type else true)
          && (not (is_some n.transport.seed) && is_ok (render_finalmask read_json n)))

  abbrev pub is_representable : Protocol → Node → Bool
  is_representable vless n = is_some n.credentials.user && has_stream n
  is_representable vmess n = is_some n.credentials.user && has_stream n
  is_representable trojan n = is_some n.credentials.password && has_stream n
  is_representable shadowsocks n =
      not (is_some (extra "plugin" n)) && is_some n.credentials.password
  is_representable hysteria2 n =
      is_empty n.warnings && (has_stream n && is_some n.credentials.password)

  render_stream-is_ok : (n : Node) → is_ok (render_stream read_json n) ≡ has_stream n
  unfolding render_stream
  render_stream-is_ok n =
      let method = normalize_network n.transport.kind in
      let mask = is_ok (render_finalmask read_json n) in
      unless (one_of methods method) _ _ _ (
        is_ok->>=
          (if method == "tcp"
            then with_raw n.transport n.transport.header_type (stream_base n method)
            else ok (stream_base n method))
          _ (not (is_some n.transport.seed) && mask)
          (λ stream.
            is_ok-fail_if (is_some n.transport.seed) _ _
            ∙ ap (λ b. not (is_some n.transport.seed) && b)
                (is_ok->>=-ok (render_finalmask read_json n) _))
        ∙ ap (λ b. b && (not (is_some n.transport.seed) && mask))
            (raw_if-is_ok (method == "tcp") _ _ _
              (with_raw-is_ok n.transport n.transport.header_type (stream_base n method))))

  pub outbound_of-is_ok :
      (p : Protocol) (n : Node) → is_ok (outbound_of read_json p n) ≡ is_representable p n
  outbound_of-is_ok vless n =
      needed _ _ _ _ (λ id. is_ok->>=-ok (render_stream read_json n) _ ∙ render_stream-is_ok n)
  outbound_of-is_ok vmess n =
      needed _ _ _ _ (λ id. is_ok->>=-ok (render_stream read_json n) _ ∙ render_stream-is_ok n)
  outbound_of-is_ok trojan n =
      needed _ _ _ _ (λ id. is_ok->>=-ok (render_stream read_json n) _ ∙ render_stream-is_ok n)
  outbound_of-is_ok shadowsocks n = plugin_refused (extra "plugin" n) _ _ (
      needed n.credentials.password _ _ true (λ password. refl)
      ∙ and_true_right (is_some n.credentials.password))
  outbound_of-is_ok hysteria2 n = unless (is_empty n.warnings) _ _ _ (
      is_ok->>= (render_stream read_json n) _ (is_some n.credentials.password) (λ stream.
        needed n.credentials.password _ _ true (λ auth. refl)
        ∙ and_true_right (is_some n.credentials.password))
      ∙ ap (λ b. b && is_some n.credentials.password) (render_stream-is_ok n))

-- The rendering of a configuration.
abbrev pub is_object : Value → Bool
is_object (obj m) = true
is_object _ = false

merge_custom-is_ok :
    (custom : List Value) (m : Fields) → is_ok (merge_custom custom m) ≡ all is_object custom
unfolding merge_custom
merge_custom-is_ok [] m = refl
merge_custom-is_ok (obj f ∷ more) m = merge_custom-is_ok more _
merge_custom-is_ok (null ∷ more) m = refl
merge_custom-is_ok (bool b ∷ more) m = refl
merge_custom-is_ok (num n ∷ more) m = refl
merge_custom-is_ok (str s ∷ more) m = refl
merge_custom-is_ok (arr vs ∷ more) m = refl

module _ (show_ip : IpAddr → String) (read_json : String → String ⊎ Value) where
  proxy_of-is_ok :
      (node : Option Node)
      → is_ok (proxy_of show_ip read_json node)
        ≡ map_or true (λ n. is_representable read_json n.protocol n) node
  unfolding render_proxy_outbound
  proxy_of-is_ok none = refl
  proxy_of-is_ok (some n) = outbound_of-is_ok read_json n.protocol n

  -- A configuration is rendered exactly if each custom fragment is an object and the node, if there
  -- is one, can be represented: it has the credential of its protocol, no Shadowsocks plugin, no
  -- warning for Hysteria2, a transport that is known, no seed, a plain header that is none or of
  -- HTTP, and a mask that can be rendered.
  pub render_xray_config-is_ok :
      (config : ManagerConfig) (node : Option Node) (routing : RoutingConfig) (custom : List Value)
      → is_ok (render_xray_config show_ip read_json config node routing custom)
        ≡ (map_or true (λ n. is_representable read_json n.protocol n) node && all is_object custom)
  unfolding render_xray_config
  render_xray_config-is_ok config node routing custom =
      is_ok->>= (proxy_of show_ip read_json node) _ (all is_object custom)
        (λ proxy. is_ok->>=-ok (merge_custom custom end) _ ∙ merge_custom-is_ok custom end)
      ∙ ap (λ b. b && all is_object custom) (proxy_of-is_ok node)
