-- ===== src/Core/Queries/Public.antt =====
-- What a query keeps secret.
use xrayctl.Common.{
  String, Bool, true, false, List, [], ◌∷◌, ◌≡◌, refl, ap, ◌∙◌, map, if◌then◌else◌,
}
use xrayctl.Core.Error.{Result, ok, err}
use xrayctl.Core.Domain.{Node}
use xrayctl.Core.Backends.{BackendSet, ManagerPaths, Location, ◌/◌}
use xrayctl.Core.Backends.Tasks.{Service, Task, proceed, ◌>>=◌, return, call}
use xrayctl.Core.Application.{load_nodes, load_routing}
use xrayctl.Core.Json.{arr, items}
use xrayctl.Core.Execution.Files.{
  load_all, load_subscriptions, read_subscription_file, load_app_profiles, read_profile_file,
}
use xrayctl.Core.Queries.Doctor.{examine}
use xrayctl.Core.Queries.{
  Reader, Query, status, doctor, nodes, current_node, routing, assets, core, service_logs,
  service_status, proxy_show, proxy_env, tun_status, subscriptions, routing_validate,
  routing_presets, node_probe, routing_explain, asset_show, core_list, proxy_test, tun_show_rules,
  tun_test, app_list, menu_settings,
}
use xrayctl.Core.Queries.Dtos.{node_dto}
use xrayctl.Core.Queries.Answers.{query, test_proxy, show_tun, test_tun}

-- A node with other secrets, and other parameters of its connection.
abbrev pub masked : Node → Node → Node
masked other n = record n {
  credentials = other.credentials;
  transport = other.transport;
  security = other.security;
  raw_uri = other.raw_uri;
  extra = other.extra;
}

abbrev mask_all : Node → Result (List Node) → Result (List Node)
mask_all other (ok ns) = ok (map (masked other) ns)
mask_all other (err e) = err e

-- The same reader, but that the secrets of the stored nodes are others.
abbrev pub reader_without : {W : Type 0} → Node → Reader W → Reader W
reader_without other r = record r {
  operator = record r.operator {
    manager = record r.operator.manager {
      formats = record r.operator.manager.formats {
        read_nodes = λ text. mask_all other (r.operator.manager.formats.read_nodes text);
      };
    };
  };
}

abbrev pub is_probe : Query → Bool
is_probe (node_probe id) = true
is_probe _ = false

masked-node_dto :
    (other : Node) (ns : List Node) → map node_dto (map (masked other) ns) ≡ map node_dto ns
unfolding node_dto
masked-node_dto other [] = refl
masked-node_dto other (n ∷ ns) = ap (λ vs. node_dto n ∷ vs) (masked-node_dto other ns)

module _ {W : Type 0} (other : Node) where
  abbrev mask_outcome : Result (List Node) × Service W → Result (List Node) × Service W
  mask_outcome (r, s) = (mask_all other r, s)

  proceed-mask_outcome :
      {T : Type 0} (next' next : T → Task W (List Node))
      → ((x : T) (s : Service W) → next' x s ≡ mask_outcome (next x s))
      → (r : Result T × Service W) → proceed r next' ≡ mask_outcome (proceed r next)
  proceed-mask_outcome next' next k (ok x, s) = k x s
  proceed-mask_outcome next' next k (err e, s) = refl

  answer_masked :
      (p : Result (List Node) × Service W)
      → proceed (mask_outcome p) (λ ns. return (ok (arr (items (map node_dto ns)))))
        ≡ proceed p (λ ns. return (ok (arr (items (map node_dto ns)))))
  unfolding return
  answer_masked (ok ns, s) = ap (λ vs. (ok (arr (items vs)), s)) (masked-node_dto other ns)
  answer_masked (err e, s) = refl

module _ {W : Type 0} (other : Node) (r : Reader W) where
  abbrev backends : BackendSet W
  backends = r.operator.manager.backends

  abbrev parsed : String → Task W (List Node)
  parsed text = return (r.operator.manager.formats.read_nodes text)

  abbrev parsed_masked : String → Task W (List Node)
  parsed_masked text = return (mask_all other (r.operator.manager.formats.read_nodes text))

  abbrev file : ManagerPaths → Location
  file p = p.state_dir / "nodes.json"

  abbrev reading : (String → Task W (List Node)) → ManagerPaths → Bool → Task W (List Node)
  reading parse p there = if there then call (backends.read (file p)) >>= parse else return (ok [])

  abbrev looking : (String → Task W (List Node)) → ManagerPaths → Task W (List Node)
  looking parse p = call (backends.exists (file p)) >>= reading parse p

  reading-masked :
      (p : ManagerPaths) (there : Bool) (s : Service W)
      → reading parsed_masked p there s ≡ mask_outcome other (reading parsed p there s)
  unfolding ◌>>=◌ return
  reading-masked p true s = proceed-mask_outcome other parsed_masked parsed (λ text s'. refl) _
  reading-masked p false s = refl

  looking-masked :
      (p : ManagerPaths) (s : Service W)
      → looking parsed_masked p s ≡ mask_outcome other (looking parsed p s)
  unfolding ◌>>=◌
  looking-masked p s =
      proceed-mask_outcome other (reading parsed_masked p) (reading parsed p) (reading-masked p) _

  load_nodes-masked :
      (s : Service W)
      → load_nodes (reader_without other r).operator.manager s
        ≡ mask_outcome other (load_nodes r.operator.manager s)
  unfolding load_nodes ◌>>=◌
  load_nodes-masked s =
      proceed-mask_outcome other (looking parsed_masked) (looking parsed) looking-masked _

  nodes_alike : (s : Service W) → query (reader_without other r) nodes s ≡ query r nodes s
  unfolding query ◌>>=◌
  nodes_alike s =
      ap (λ p. proceed p (λ ns. return (ok (arr (items (map node_dto ns)))))) (load_nodes-masked s)
      ∙ answer_masked other (load_nodes r.operator.manager s)

  -- No answer to a query, nor what it does, depends on the credentials of the stored nodes, on their
  -- URIs, or on the parameters of their connections. The probe of a node is excepted, since the node
  -- is handed to Xray there, and `NodeProbeAll`, which probes them all, is not among the queries here.
  pub query-IsPublic :
      (q : Query) (s : Service W)
      → is_probe q ≡ false
      → query (reader_without other r) q s ≡ query r q s
  unfolding query examine load_routing load_subscriptions read_subscription_file load_all test_proxy
      show_tun test_tun load_app_profiles read_profile_file
  query-IsPublic status s h = refl
  query-IsPublic (doctor quick) s h = refl
  query-IsPublic nodes s h = nodes_alike s
  query-IsPublic current_node s h = refl
  query-IsPublic routing s h = refl
  query-IsPublic assets s h = refl
  query-IsPublic core s h = refl
  query-IsPublic (service_logs lines) s h = refl
  query-IsPublic service_status s h = refl
  query-IsPublic proxy_show s h = refl
  query-IsPublic proxy_env s h = refl
  query-IsPublic tun_status s h = refl
  query-IsPublic subscriptions s h = refl
  query-IsPublic routing_validate s h = refl
  query-IsPublic routing_presets s h = refl
  query-IsPublic (node_probe id) s h = cc
  query-IsPublic (routing_explain name) s h = refl
  query-IsPublic (asset_show id) s h = refl
  query-IsPublic core_list s h = refl
  query-IsPublic proxy_test s h = refl
  query-IsPublic tun_show_rules s h = refl
  query-IsPublic tun_test s h = refl
  query-IsPublic app_list s h = refl
  query-IsPublic menu_settings s h = refl
