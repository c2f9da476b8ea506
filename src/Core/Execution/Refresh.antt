-- ===== src/Core/Execution/Refresh.antt =====
-- `refresh_subscriptions` of application.rs. In the program as it is released, the product in the
-- limit of a download wraps around.
use xrayctl.Common.{
  ℕ, ◌*◌, ◌%◌, ◌^◌, String, ◌<>◌, len, Bool, true, false, not, ◌&&◌, Option, none, some, List, [],
  ◌∷◌, ◌++◌, map, ◌==◌, any, find, filter, sort_by, map_or, if◌then◌else◌,
}
use xrayctl.Core.Error.{invalid_config, Result, ok, fail_if}
use xrayctl.Core.Events.{download_progress}
use xrayctl.Core.Domain.{Node, reconcile_selected}
use xrayctl.Core.Profiles.{SubscriptionConfig, validate_resource_name}
use xrayctl.Core.Subscription.{SubscriptionParse, parse_subscription}
use xrayctl.Core.Backends.Tasks.{Task, ◌>>=◌, ◌>>◌, return, call, emit, current_state}
use xrayctl.Core.Application.{load_nodes, write_nodes, write_state}
use xrayctl.Core.Execution.{Operator}
use xrayctl.Core.Execution.Files.{load_subscriptions}

abbrev pub is_requested : Option String → SubscriptionConfig → Bool
is_requested requested s = s.enabled && map_or true (λ name. name == s.name) requested

abbrev pub is_missing : Option String → List SubscriptionConfig → Bool
is_missing none subscriptions = false
is_missing (some name) subscriptions = not (any (λ s. s.name == name) subscriptions)

abbrev check_requested : Option String → Result (Unit {0})
check_requested none = ok tt
check_requested (some name) = validate_resource_name name

abbrev text_or_empty : Option String → String
text_or_empty none = ""
text_or_empty (some s) = s

abbrev pub prefixed : String → List String → List String
prefixed name warnings = map (λ w. name <> (": " <> w)) warnings

abbrev pub node_warnings : List Node → List String
node_warnings [] = []
node_warnings (n ∷ ns) = n.warnings ++ node_warnings ns

-- The nodes of a subscription are replaced.
unfoldable pub replace_nodes : String → List Node → List Node → List Node
replace_nodes name parsed nodes = filter (λ n. not (n.subscription == name)) nodes ++ parsed

abbrev pub Refreshed : Type 0
Refreshed = List Node × List String

abbrev pub merged : SubscriptionConfig → SubscriptionParse → Refreshed → Refreshed
merged s p (nodes, warnings) = (
  replace_nodes s.name p.nodes nodes,
  warnings ++ (prefixed s.name (node_warnings p.nodes) ++ prefixed s.name p.warnings),
)

abbrev pub limit_of : ℕ → ℕ
limit_of megabytes = (megabytes * 1024 * 1024) % 2 ^ 64

abbrev selected_in : List Node → Option String → Option Node
selected_in nodes none = none
selected_in nodes (some id) = find (λ n. n.id == id) nodes

module _ {W : Type 0} (o : Operator W) where
  unfoldable pub download : SubscriptionConfig → Task W SubscriptionParse
  download s = do
    text ← call (
        o.operating.download (record {
          url = s.url;
          max_bytes = limit_of o.manager.config.general.max_subscription_size_mb;
          timeout = o.manager.config.general.request_timeout_seconds;
          max_redirects = 5;
        }))
    emit o.manager.backends
        (download_progress ("subscription:" <> s.name) (len text) (some (len text)))
    return (parse_subscription o.decode_base64 o.parse_uri text s.name)

  -- The loop over the subscriptions that are requested.
  unfoldable pub refresh_each : List SubscriptionConfig → Refreshed → Task W Refreshed
  unfolding download
  refresh_each [] r = return (ok r)
  refresh_each (s ∷ more) r = download s >>= λ p. refresh_each more (merged s p r)

  abbrev pub select : String → Node → Task W (List String)
  select old_name replacement = do
    state ← current_state
    write_state o.manager (record state { selected_node_id = some replacement.id })
    return (
        ok (
          ("selected node '"
            <> (old_name
                <> "' was reconciled by subscription and name; run `xrayctl apply` to activate refreshed credentials"))
          ∷ []))

  abbrev pub reselect : Node → Option Node → Task W (List String)
  reselect old none = return (
      ok (
        ("selected node '"
          <> (old.name
              <> "' disappeared or became ambiguous; the running configuration and saved selection were left unchanged"))
        ∷ []))
  reselect old (some replacement) =
      if replacement.id == old.id then return (ok []) else select old.name replacement

  -- The selection after the nodes have been written; the warnings of this.
  unfoldable pub reconcile : Option Node → List Node → Task W (List String)
  reconcile none nodes = return (ok [])
  reconcile (some old) nodes = reselect old (reconcile_selected o.to_lowercase old old.id nodes)

  -- From the nodes that are stored to the new ones and the warnings.
  unfoldable pub fetch : Option String → List SubscriptionConfig → List Node → Task W Refreshed
  unfolding refresh_each
  fetch requested subscriptions nodes =
      refresh_each (filter (is_requested requested) subscriptions) (nodes, [])

  unfoldable pub store : Option Node → Refreshed → Task W (List String)
  unfolding reconcile
  store old (nodes, warnings) = do
    let sorted = sort_by (λ n. n.name) nodes
    write_nodes o.manager sorted
    more ← reconcile old sorted
    return (ok (warnings ++ more))

  unfoldable pub refresh_subscriptions : Option String → Task W (List String)
  unfolding fetch store
  refresh_subscriptions requested = do
    return (check_requested requested)
    subscriptions ← load_subscriptions o
    return (
        fail_if (is_missing requested subscriptions)
          (invalid_config ("subscription '" <> (text_or_empty requested <> "' was not found"))))
    nodes ← load_nodes o.manager
    state ← current_state
    let old = selected_in nodes state.selected_node_id
    fetched ← fetch requested subscriptions nodes
    store old fetched
