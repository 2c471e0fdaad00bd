-- ===== src/Importer/Refresh.antt =====
-- Refresh, RefreshAll and Update of client/internal/subscriptionclient/importer.go.
use safelink_ssh.Base.{
  ℕ, ◌+◌, Bool, Option, none, some, List, [], ◌∷◌, ◌++◌, map, Result, ok, err, ◌>>=◌, ◌>>◌, raise,
  if◌then◌else◌,
}
use safelink_ssh.Base.Int.{ℤ, pos}
use safelink_ssh.Text.{Text, codes, is_empty, text_eq, trim_space}
use safelink_ssh.Text.Split.{join}
use safelink_ssh.Text.Table.{lookup}
use safelink_ssh.Config.Tunnel.{TunnelCfg}
use safelink_ssh.Proxy.Node.{ProxyNode}
use safelink_ssh.Store.{SubscriptionSource, kind_vpn, kind_proxy}
use safelink_ssh.Store.Disk.{load_subscriptions, load_proxy_nodes}
use safelink_ssh.Store.Subscriptions.{update_subscription, delete_proxy_nodes_by_subscription_id}
use safelink_ssh.Importer.Fetch.{Usage, FetchError, fetch_with_usage, prefix_of, compact_errors}
use safelink_ssh.Importer.{
  Failure, fetch_failed, unparsable, name_required, url_required, source_not_found, State, Call,
  Imported, Environment, of_store, of_store_ignored, import_tunnels, upsert_nodes, source_nodes,
  outcome, Content, vpn_content, proxy_content, no_content, with_usage, parse_content,
}

-- existingIDs of refreshProxyNodes, the last node of a name first.
unfoldable pub existing_ids : Text → List ProxyNode → List (Text × Text) → List (Text × Text)
existing_ids id [] ids = ids
existing_ids id (n ∷ nodes) ids =
    existing_ids id nodes (if text_eq n.subscription_id id then (n.name, n.id) ∷ ids else ids)

unfoldable pub id_or_empty : Option Text → Text
id_or_empty none = []
id_or_empty (some id) = id

module _ (env : Environment) where
  unfoldable pub refresh_vpn_tunnels :
      SubscriptionSource → List TunnelCfg → Text → Usage → Call Imported
  unfolding of_store import_tunnels outcome with_usage
  refresh_vpn_tunnels old tunnels detected usage = do
    u ← import_tunnels (prefix_of old.name) tunnels
    let errs = map env.tunnel_error u.errs
    let src = with_usage usage (record old {
      format = detected;
      kind = kind_vpn;
      last_refresh = env.now;
      last_error = join (codes "; ") errs;
      tunnel_count = pos u.imported;
      node_count = pos 0;
    })
    of_store (update_subscription src)
    outcome src kind_vpn u.imported u.skipped errs

  unfoldable pub refresh_proxy_nodes :
      SubscriptionSource → List ProxyNode → Text → Usage → Call Imported
  unfolding of_store upsert_nodes outcome with_usage source_nodes existing_ids id_or_empty lookup
  refresh_proxy_nodes old nodes detected usage = do
    existing ← of_store load_proxy_nodes
    let ids = existing_ids old.id existing []
    of_store (delete_proxy_nodes_by_subscription_id old.id)
    r ←
        upsert_nodes
          (source_nodes old.id (prefix_of old.name) (λ name n. id_or_empty (lookup name ids)) nodes)
    let errs = map env.node_error r.errs
    let src = with_usage usage (record old {
      format = detected;
      kind = kind_proxy;
      last_refresh = env.now;
      last_error = join (codes "; ") errs;
      tunnel_count = pos 0;
      node_count = pos r.imported;
    })
    of_store (update_subscription src)
    outcome src kind_proxy r.imported r.skipped errs

  -- A refresh that fails before anything is stored notes the error at the source.
  unfoldable pub note_failure : SubscriptionSource → Failure → Call Imported
  unfolding of_store_ignored
  note_failure src e = do
    of_store_ignored
        (update_subscription (record src { last_refresh = env.now; last_error = env.failure e }))
    raise e

  unfoldable pub refresh_content : SubscriptionSource → Usage → Content → Call Imported
  unfolding refresh_vpn_tunnels refresh_proxy_nodes note_failure
  refresh_content src usage (vpn_content detected tunnels) =
      refresh_vpn_tunnels src tunnels detected usage
  refresh_content src usage (proxy_content detected nodes) =
      refresh_proxy_nodes src nodes detected usage
  refresh_content src usage (no_content e e') = note_failure src (unparsable e e')

  unfoldable pub refresh_fetched :
      SubscriptionSource → Result FetchError (Text × Usage) → Call Imported
  unfolding refresh_content parse_content note_failure
  refresh_fetched src (err e) = note_failure src (fetch_failed e)
  refresh_fetched src (ok (content, usage)) = refresh_content src usage (parse_content env content)

  unfoldable pub refresh_source : SubscriptionSource → Call Imported
  unfolding refresh_fetched fetch_with_usage
  refresh_source src = refresh_fetched src (fetch_with_usage (env.respond src.url))

  -- The loops of Refresh and Update: the first source with the identifier.
  unfoldable pub with_source :
      Text → (SubscriptionSource → Call Imported) → List SubscriptionSource → Call Imported
  with_source id k [] = raise (source_not_found id)
  with_source id k (src ∷ sources) = if text_eq src.id id then k src else with_source id k sources

  -- Refresh
  unfoldable pub refresh : Text → Call Imported
  unfolding of_store with_source refresh_source
  refresh id = do sources ← of_store load_subscriptions; with_source id refresh_source sources

  unfoldable pub update_source : Text → Text → Bool → ℤ → SubscriptionSource → Call Imported
  unfolding of_store refresh_source
  update_source name url auto_refresh interval_min old = do
    let src = record old {
      name = name;
      url = url;
      auto_refresh = auto_refresh;
      interval_min = interval_min;
    }
    of_store (update_subscription src)
    refresh_source src

  -- Update
  unfoldable pub update : Text → Text → Text → Bool → ℤ → Call Imported
  unfolding of_store with_source update_source
  update id name url auto_refresh interval_min =
      let name' = trim_space name in
      let url' = trim_space url in
      if is_empty name'
      then raise name_required
      else if is_empty url'
      then raise url_required
      else do
        sources ← of_store load_subscriptions
        with_source id (update_source name' url' auto_refresh interval_min) sources

  -- The variables of RefreshAll; `errs` has the texts of the errors.
  unfoldable pub add_result :
      SubscriptionSource → Result Failure Imported → ℕ × ℕ × List Text → ℕ × ℕ × List Text
  add_result src (ok r) (imported, skipped, errs) =
      (imported + r.imported, skipped + r.skipped, errs ++ r.errors)
  add_result src (err e) (imported, skipped, errs) =
      (imported, skipped + 1, errs ++ (src.name ++ (codes ": " ++ env.failure e)) ∷ [])

  unfoldable pub refresh_each :
      List SubscriptionSource → ℕ × ℕ × List Text → State → (ℕ × ℕ × List Text) × State
  unfolding refresh_source add_result
  refresh_each [] counts s = (counts, s)
  refresh_each (src ∷ sources) counts s =
      let (r, s') = refresh_source src s in refresh_each sources (add_result src r counts) s'

  unfoldable pub compacted : (ℕ × ℕ × List Text) × State → (ℕ × ℕ × List Text) × State
  unfolding compact_errors
  compacted ((imported, skipped, errs), s) = ((imported, skipped, compact_errors errs), s)

  unfoldable pub refresh_sources :
      Result Failure (List SubscriptionSource) × State → (ℕ × ℕ × List Text) × State
  unfolding refresh_each compacted
  refresh_sources (err e, s) = ((0, 0, env.failure e ∷ []), s)
  refresh_sources (ok sources, s) = compacted (refresh_each sources (0, 0, []) s)

  -- RefreshAll
  unfoldable pub refresh_all : State → (ℕ × ℕ × List Text) × State
  unfolding of_store refresh_sources
  refresh_all s = refresh_sources (of_store load_subscriptions s)
