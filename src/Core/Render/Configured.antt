-- ===== src/Core/Render/Configured.antt =====
-- What the files of a configuration hold.
use xrayctl.Common.{
  String, Bool, true, false, not, is_empty, Option, none, some, List, [], ◌∷◌, map, ◌==◌, ◌≡◌, ◌⊎◌,
  refl, sym, ◌∙◌, ap, subst, if◌then◌else◌,
}
use xrayctl.Core.Error.{ok, >>=-eq-ok, fail_if, Yields, >>=-Yields, yielded, ok_inj}
use xrayctl.Core.Config.{IpAddr, ManagerConfig}
use xrayctl.Core.Domain.{Node, Protocol, vless, vmess, trojan, shadowsocks, hysteria2}
use xrayctl.Core.Routing.{RoutingConfig, outbounds}
use xrayctl.Core.Json.{
  Value, Items, Fields, null, bool, num, str, arr, obj, nil, item, end, field, get, insert,
  get-insert, items,
}
use xrayctl.Core.Render.{
  ConfigFiles, insert_all, merge_custom, tun_inbound, files_of, proxy_of, render_xray_config,
}
use xrayctl.Core.Render.Mask.{extra}
use xrayctl.Core.Render.Stream.{render_stream}
use xrayctl.Core.Render.Outbound.{refuse_plugin, required, outbound_of, render_proxy_outbound}

abbrev pub or_else : Option Value → Option Value → Option Value
or_else none later = later
or_else (some v) later = some v

-- The last value of a key in an object, and in the last of the fragments that have it.
abbrev pub last_in : String → Fields → Option Value
last_in key end = none
last_in key (field j v more) = or_else (last_in key more) (if j == key then some v else none)

abbrev pub last_of : String → List Value → Option Value
last_of key [] = none
last_of key (obj fragment ∷ more) = or_else (last_of key more) (last_in key fragment)
last_of key (_ ∷ more) = last_of key more

or_else_assoc : (a b c : Option Value) → or_else (or_else a b) c ≡ or_else a (or_else b c)
or_else_assoc none b c = refl
or_else_assoc (some v) b c = refl

or_else-if :
    (t : Bool) (v : Value) (o : Option Value)
    → (if t then some v else o) ≡ or_else (if t then some v else none) o
or_else-if true v o = refl
or_else-if false v o = refl

get-insert_all :
    (key : String) (fragment m : Fields)
    → get key (insert_all fragment m) ≡ or_else (last_in key fragment) (get key m)
unfolding insert_all
get-insert_all key end m = refl
get-insert_all key (field j v more) m =
    get-insert_all key more (insert j v m)
    ∙ ap (or_else (last_in key more)) (get-insert j key v m ∙ or_else-if (j == key) v (get key m))
    ∙ sym (or_else_assoc (last_in key more) _ _)

merge_custom-get :
    (key : String) (custom : List Value) (m : Fields) {n : Fields}
    → merge_custom custom m ≡ ok n
    → get key n ≡ or_else (last_of key custom) (get key m)
unfolding merge_custom
merge_custom-get key [] m {n} e = let e' : m ≡ n = cc in ap (get key) (sym e')
merge_custom-get key (obj fragment ∷ more) m e =
    merge_custom-get key more _ e
    ∙ ap (or_else (last_of key more)) (get-insert_all key fragment m)
    ∙ sym (or_else_assoc (last_of key more) _ _)
merge_custom-get key (null ∷ more) m e = cc
merge_custom-get key (bool b ∷ more) m e = cc
merge_custom-get key (num n ∷ more) m e = cc
merge_custom-get key (str s ∷ more) m e = cc
merge_custom-get key (arr vs ∷ more) m e = cc

-- The file of a name, a member of it, and the tags of a list of objects.
abbrev pub file : String → ConfigFiles → Option Value
file name [] = none
file name ((n, v) ∷ more) = if n == name then some v else file name more

abbrev pub member : String → Option Value → Option Value
member key (some (obj m)) = get key m
member key _ = none

abbrev pub tags : Items → List (Option Value)
tags nil = []
tags (item v more) = member "tag" (some v) ∷ tags more

abbrev pub tags_at : String → Option Value → List (Option Value)
tags_at key document = of (member key document)
  where
    of : Option Value → List (Option Value)
    of (some (arr vs)) = tags vs
    of _ = []

-- Some file of a configuration, at a key of the custom fragments.
pub record Configures (config : ManagerConfig) (custom : List Value) (key : String)
    (files : ConfigFiles) : Type 0 where
  pub inbound_tags :
      tags_at "inbounds" (file "20_inbounds.json" files)
      ≡ map
          (λ t. some (str t))
          ("socks-in" ∷ "http-in" ∷ (if config.tun.enabled then "tun-in" ∷ [] else []))
  pub outbound_tags :
      tags_at "outbounds" (file "30_outbounds.json" files) ≡ map (λ t. some (str t)) outbounds
  pub custom_member : member key (file "80_custom.json" files) ≡ last_of key custom

abbrev IsTagged : Value → Type 0
IsTagged v = member "tag" (some v) ≡ some (str "proxy")

or_else-none : (o : Option Value) → or_else o none ≡ o
or_else-none none = refl
or_else-none (some v) = refl

module _ (show_ip : IpAddr → String) (read_json : String → String ⊎ Value) where
  outbound_of-IsTagged :
      (p : Protocol) (node : Node) → Yields IsTagged (outbound_of read_json p node)
  unfolding get
  outbound_of-IsTagged vless node =
      >>=-Yields _ _
        (λ id. >>=-Yields (render_stream read_json node) _ (λ stream. record { holds = refl }))
  outbound_of-IsTagged vmess node =
      >>=-Yields _ _
        (λ id. >>=-Yields (render_stream read_json node) _ (λ stream. record { holds = refl }))
  outbound_of-IsTagged trojan node =
      >>=-Yields _ _
        (λ id. >>=-Yields (render_stream read_json node) _ (λ stream. record { holds = refl }))
  outbound_of-IsTagged shadowsocks node = >>=-Yields (refuse_plugin (extra "plugin" node)) _ (λ _.
      >>=-Yields (required node.credentials.password "Shadowsocks password") _
        (λ password. record { holds = refl }))
  outbound_of-IsTagged hysteria2 node =
      >>=-Yields (fail_if (not (is_empty node.warnings)) _) _ (λ _.
        >>=-Yields (render_stream read_json node) _ (λ stream.
          >>=-Yields (required node.credentials.password "Hysteria2 auth") _
            (λ auth. record { holds = refl })))

  proxy_of-IsTagged : (node : Option Node) → Yields IsTagged (proxy_of show_ip read_json node)
  unfolding render_proxy_outbound get
  proxy_of-IsTagged none = record { holds = refl }
  proxy_of-IsTagged (some node) = outbound_of-IsTagged node.protocol node

  tun_tags :
      (t : Bool) (tun : Value)
      → member "tag" (some tun) ≡ some (str "tun-in")
      → tags (items (if t then tun ∷ [] else []))
        ≡ map (λ s. some (str s)) (if t then "tun-in" ∷ [] else [])
  tun_tags true tun h = ap (λ o. o ∷ []) h
  tun_tags false tun h = refl

  files_of-Configures :
      (config : ManagerConfig) (routing : RoutingConfig) (proxy : Value) (custom : List Value)
      (merged : Fields) (key : String)
      → member "tag" (some proxy) ≡ some (str "proxy")
      → get key merged ≡ last_of key custom
      → Configures config custom key (files_of show_ip read_json config routing proxy merged)
  unfolding get
  files_of-Configures config routing proxy custom merged key p m = record {
    inbound_tags =
        ap (λ ts. some (str "socks-in") ∷ some (str "http-in") ∷ ts)
          (tun_tags config.tun.enabled (tun_inbound config) refl);
    outbound_tags = ap (λ t. t ∷ some (str "direct") ∷ some (str "block") ∷ []) p;
    custom_member = m;
  }

  -- A configuration that is rendered has the inbounds of both proxies, and that of the tunnel
  -- exactly if the tunnel is enabled; its outbounds are those that a routing rule may name; and each
  -- key of the custom fragments has the value of the last fragment with it.
  pub render_xray_config-Configures :
      (config : ManagerConfig) (node : Option Node) (routing : RoutingConfig) (custom : List Value)
      (key : String) {files : ConfigFiles}
      → render_xray_config show_ip read_json config node routing custom ≡ ok files
      → Configures config custom key files
  unfolding render_xray_config get
  render_xray_config-Configures config node routing custom key {files} q =
      let (proxy, p, rest) = >>=-eq-ok (proxy_of show_ip read_json node) _ q in
      let (merged, m, last) = >>=-eq-ok (merge_custom custom end) _ rest in
      let e : files_of show_ip read_json config routing proxy merged ≡ files = ok_inj last in
      subst (Configures config custom key) e (
        files_of-Configures config routing proxy custom merged key
          (yielded (proxy_of-IsTagged node) p) (merge_custom-get key custom end m ∙ or_else-none _))
