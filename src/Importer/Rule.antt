-- ===== src/Importer/Rule.antt =====
-- Import of client/internal/subscriptionclient/importer.go and the rule of one enabled source for each
-- kind in subscriptions.json.
use safelink_ssh.Base.{
  ℕ, ◌≡◌, refl, sym, subst, ap, inl, inr, List, [], ◌∷◌, Result, ok, err, resume, ◌>>=◌, if_rule,
  ◌==◌, map,
}
use safelink_ssh.Text.{Text, is_empty, trim_space}
use safelink_ssh.Config.Tunnel.{TunnelCfg}
use safelink_ssh.Proxy.Node.{ProxyNode}
use safelink_ssh.Store.{
  World, Files, StoreError, Action, SubscriptionSource, random_id, tunnels_path, holds, kind_vpn,
  kind_proxy,
}
use safelink_ssh.Store.Disk.Atomic.{Writes}
use safelink_ssh.Store.Subscriptions.{add_subscription}
use safelink_ssh.Store.Subscriptions.Commands.{Single, run, step, add, run-Single}
use safelink_ssh.Store.Nodes.Merging.{upsert_nodes-Upserts}
use safelink_ssh.Manager
use safelink_ssh.Manager.{Tunnels, Import, persist, bulk_upsert, after_persist, configs}
use safelink_ssh.Manager.Lifecycle.Changes.{persist-Writes}
use safelink_ssh.Importer.Fetch.{Usage, FetchError, fetch_with_usage, prefix_of}
use safelink_ssh.Importer.{
  State, Call, Failure, Imported, Environment, Content, vpn_content, proxy_content, no_content,
  of_store, with_failure, import_tunnels, upsert_nodes, outcome, import_vpn_tunnels,
  import_proxy_nodes, source_nodes, add_source, add_vpn_source, add_proxy_source, import_content,
  import_fetched, parse_content, import_subscription,
}

abbrev KeepsRule : {A : Type 0} → Call A → Type 0
KeepsRule m =
    (s : State) → Single s.world.files.subscriptions → Single (m s).1.world.files.subscriptions

bind-KeepsRule :
    {A B : Type 0} (m : Call A) (k : A → Call B)
    → KeepsRule m
    → ((a : A) → KeepsRule (k a))
    → KeepsRule (m >>= k)
bind-KeepsRule {A} m k keeps later s h = go (m s).0 (m s).1 (keeps s h)
  where
    go :
        (r : Result Failure A) (v : State)
        → Single v.world.files.subscriptions
        → Single (resume r k v).1.world.files.subscriptions
    go (ok a) v h' = later a v h'
    go (err e) v h' = h'

of_store-KeepsRule :
    {A : Type 0} (m : Action A)
    → ((w : World) → Single w.files.subscriptions → Single (m w).1.files.subscriptions)
    → KeepsRule (of_store m)
unfolding of_store with_failure
of_store-KeepsRule {A} m keeps s h = go (m s.world) (keeps s.world h)
  where
    go :
        (o : Result StoreError A × World)
        → Single o.1.files.subscriptions
        → Single (with_failure s o).1.world.files.subscriptions
    go (ok a, w) h' = h'
    go (err e, w) h' = h'

random_id-KeepsRule : KeepsRule (of_store random_id)
unfolding random_id
random_id-KeepsRule = of_store-KeepsRule random_id (λ w h. h)

add-KeepsRule : (src : SubscriptionSource) → KeepsRule (of_store (add_subscription src))
unfolding run step
add-KeepsRule src = of_store-KeepsRule (add_subscription src) (run-Single (add src ∷ []))

-- BulkUpsert writes no file but tunnels.json.
bulk_upsert-subscriptions :
    (prefix : Text) (tunnels : List TunnelCfg) (m : Tunnels) (w : World)
    → (bulk_upsert prefix tunnels m w).1.files.subscriptions ≡ w.files.subscriptions
unfolding bulk_upsert after_persist
bulk_upsert-subscriptions prefix tunnels m w =
    if_rule (λ (o : Import × World). o.1.files.subscriptions ≡ w.files.subscriptions)
      (u.imported == 0) (u, w) (after_persist u (persist u.tunnels w)) (λ e. refl)
      (λ e. saved (persist u.tunnels w) (persist-Writes u.tunnels w))
  where
    u : Import
    u =
        Manager.upsert_tunnels prefix tunnels
          (record { tunnels = m; imported = 0; skipped = 0; errs = [] })

    saved :
        (o : Result StoreError (Unit {0}) × World)
        → Writes (tunnels_path.put (holds (configs u.tunnels))) w o
        → (after_persist u o).1.files.subscriptions ≡ w.files.subscriptions
    saved (ok t, v) h = ap (λ (x : Files). x.subscriptions) h.0
    saved (err e, v) h = ap (λ (x : Files). x.subscriptions) h.0

import_tunnels-KeepsRule :
    (prefix : Text) (tunnels : List TunnelCfg) → KeepsRule (import_tunnels prefix tunnels)
unfolding import_tunnels
import_tunnels-KeepsRule prefix tunnels s h =
    subst Single (sym (bulk_upsert-subscriptions prefix tunnels s.tunnels s.world)) h

-- UpsertProxyNodes writes no file but proxy_nodes.json.
upsert_nodes-KeepsRule : (nodes : List ProxyNode) → KeepsRule (upsert_nodes nodes)
unfolding upsert_nodes
upsert_nodes-KeepsRule nodes s h = elim (upsert_nodes-Upserts nodes s.world).1 [
  | inl (same, why) ↦ subst (λ (x : Files). Single x.subscriptions) (sym same) h
  | inr (before, after, sees, files, unique, latest, keeps) ↦
      subst (λ (x : Files). Single x.subscriptions) (sym files) h
]

outcome-KeepsRule :
    (src : SubscriptionSource) (kind : Text) (imported skipped : ℕ) (errs : List Text)
    → KeepsRule (outcome src kind imported skipped errs)
unfolding outcome
outcome-KeepsRule src kind imported skipped [] s h = h
outcome-KeepsRule src kind imported skipped (e ∷ errs) s h =
    if_rule (λ (m : Call Imported). Single (m s).1.world.files.subscriptions) (imported == 0) _ _
      (λ e. h) (λ e. h)

module _ (env : Environment) where
  add_source-KeepsRule :
      (src : SubscriptionSource) (kind : Text) (imported skipped : ℕ) (errs : List Text)
      → KeepsRule (add_source env src kind imported skipped errs)
  unfolding add_source
  add_source-KeepsRule src kind imported skipped errs =
      bind-KeepsRule (of_store (add_subscription src)) (λ t. outcome src kind imported skipped errs)
        (add-KeepsRule src) (λ t. outcome-KeepsRule src kind imported skipped errs)

  import_vpn-KeepsRule :
      (name url : Text) (tunnels : List TunnelCfg) (detected : Text) (usage : Usage)
      → KeepsRule (import_vpn_tunnels env name url tunnels detected usage)
  unfolding import_vpn_tunnels add_vpn_source
  import_vpn-KeepsRule name url tunnels detected usage =
      bind-KeepsRule (import_tunnels (prefix_of name) tunnels)
        (λ u. of_store random_id >>= add_vpn_source env name url detected usage u)
        (import_tunnels-KeepsRule (prefix_of name) tunnels)
        λ u.
          bind-KeepsRule (of_store random_id) (add_vpn_source env name url detected usage u)
            random_id-KeepsRule
            λ id. add_source-KeepsRule _ kind_vpn u.imported u.skipped (map env.tunnel_error u.errs)

  import_nodes-KeepsRule :
      (name url : Text) (nodes : List ProxyNode) (detected : Text) (usage : Usage)
      → KeepsRule (import_proxy_nodes env name url nodes detected usage)
  unfolding import_proxy_nodes add_proxy_source
  import_nodes-KeepsRule name url nodes detected usage =
      bind-KeepsRule (of_store random_id)
        (λ id. upsert_nodes (labelled id) >>= add_proxy_source env name url detected usage id)
        random_id-KeepsRule
        λ id.
          bind-KeepsRule (upsert_nodes (labelled id))
            (add_proxy_source env name url detected usage id) (upsert_nodes-KeepsRule (labelled id))
            λ r. add_source-KeepsRule _ kind_proxy r.imported r.skipped (map env.node_error r.errs)
    where
      labelled : Text → List ProxyNode
      labelled id = source_nodes id (prefix_of name) (λ name old. old) nodes

  import_fetched-KeepsRule :
      (name url : Text) (r : Result FetchError (Text × Usage))
      → KeepsRule (import_fetched env name url r)
  unfolding import_fetched import_content
  import_fetched-KeepsRule name url (err e) = λ s h. h
  import_fetched-KeepsRule name url (ok (content, usage)) = go (parse_content env content)
    where
      go : (c : Content) → KeepsRule (import_content env name url usage c)
      go (vpn_content detected tunnels) = import_vpn-KeepsRule name url tunnels detected usage
      go (proxy_content detected nodes) = import_nodes-KeepsRule name url nodes detected usage
      go (no_content e e') = λ s h. h

  -- Whatever the server of the subscription answers and whichever system calls fail, Import does not
  -- leave two enabled sources of one kind in subscriptions.json, if it listed at most one of each kind
  -- before, or could not be read.
  pub import_subscription-Single :
      (name url : Text) (s : State)
      → Single s.world.files.subscriptions
      → Single (import_subscription env name url s).1.world.files.subscriptions
  unfolding import_subscription
  import_subscription-Single name url s h =
      if_rule At (is_empty (trim_space name)) _ _ (λ e. h)
        λ e.
          if_rule At (is_empty (trim_space url)) _ _ (λ e. h)
            λ e.
              import_fetched-KeepsRule (trim_space name) (trim_space url)
                (fetch_with_usage (env.respond (trim_space url))) s h
    where
      At : Call Imported → Type 0
      At m = Single (m s).1.world.files.subscriptions
