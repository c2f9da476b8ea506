-- ===== src/Core/Domain.antt =====
-- crates/xray-manager-core/src/domain.rs: nodes and the state of the manager. A secret is its text,
-- and a `NodeId` its text; the hash that makes it is not under verification. `to_lowercase` is that
-- of the standard library.
pub mod Selection
use xrayctl.Common.{
  ℕ, String, Bool, ◌&&◌, Option, none, some, List, [], ◌∷◌, ◌==◌, find, filter, trim,
}

pub data Protocol : Type 0 where
  vless vmess trojan shadowsocks hysteria2 : Protocol

pub record SecretCredentials : Type 0 where
  pub user : Option String
  pub password : Option String

pub record Transport : Type 0 where
  pub kind : String
  pub path : Option String
  pub host : Option String
  pub service_name : Option String
  pub authority : Option String
  pub mode : Option String
  pub header_type : Option String
  pub seed : Option String

pub record Security : Type 0 where
  pub kind : String
  pub server_name : Option String
  pub fingerprint : Option String
  pub public_key : Option String
  pub short_id : Option String
  pub spider_x : Option String
  pub alpn : List String
  pub allow_insecure : Bool
  pub pinned_peer_cert_sha256 : Option String

pub record Node : Type 0 where
  pub id : String
  pub subscription : String
  pub name : String
  pub protocol : Protocol
  pub server : String
  pub port : ℕ
  pub credentials : SecretCredentials
  pub transport : Transport
  pub security : Security
  pub raw_uri : String
  pub warnings : List String
  pub extra : List (String × String)

pub record ManagerState : Type 0 where
  pub current_core_version : Option String
  pub previous_core_version : Option String
  pub current_asset_generation : Option String
  pub previous_asset_generation : Option String
  pub current_config_generation : Option String
  pub previous_config_generation : Option String
  pub selected_node_id : Option String
  pub last_successful_healthcheck : Option String
  pub last_rollback_reason : Option String
  pub installed_backends : List (String × String)
  pub created_identities : List String

-- `(matches.len() == 1).then(|| matches[0])`.
abbrev pub sole {ℓ} : {A : Type ℓ} → List A → Option A
sole (x ∷ []) = some x
sole _ = none

module _ (to_lowercase : String → String) where
  unfoldable pub normalized_name : Node → String
  normalized_name n = to_lowercase (trim n.name)

  abbrev pub is_same_named : Node → Node → Bool
  is_same_named old n =
      n.subscription == old.subscription && normalized_name n == normalized_name old

  unfoldable pub reconcile_selected : Node → String → List Node → Option Node
  reconcile_selected old selected_id refreshed = elim (find (λ n. n.id == selected_id) refreshed) [
    | some exact ↦ some exact
    | none ↦ sole (filter (is_same_named old) refreshed)
  ]
