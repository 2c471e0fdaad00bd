-- ===== src/Importer.antt =====
-- Import of client/internal/subscriptionclient/importer.go, over the store, the manager and the two
-- parsers, and what the refreshes share with it. What the network answers for a URL is a parameter, and so are the
-- decoders, the time, and the wording of the errors that are stored or returned as texts.
pub mod Fetch
pub mod Refresh
pub mod Rule
use safelink_ssh.Base.{
  ℕ, ◌+◌, Bool, true, false, not, ◌&&◌, Option, none, some, List, [], ◌∷◌, ◌++◌, map, Result, ok,
  err, Exec, ◌>>=◌, ◌>>◌, pure, raise, resume, if◌then◌else◌, ◌==◌,
}
use safelink_ssh.Base.Int.{ℤ, pos}
use safelink_ssh.Text.{Text, codes, is_empty, text_eq, trim_space}
use safelink_ssh.Text.Split.{join}
use safelink_ssh.Text.Table.{lookup}
use safelink_ssh.Config.Tunnel.{TunnelCfg}
use safelink_ssh.Proxy.Node.{ProxyNode, is_informational_node_name}
use safelink_ssh.Proxy.Words as ProxyWords
use safelink_ssh.Proxy.Codec as ProxyCodec
use safelink_ssh.Proxy.Gather as ProxyGather
use safelink_ssh.Proxy.Parse as ProxyParse
use safelink_ssh.Subscription.Codec.{format_auto}
use safelink_ssh.Subscription.Codec as VpnCodec
use safelink_ssh.Subscription.Parse as VpnParse
use safelink_ssh.Store.{
  SubscriptionSource, World, StoreError, Action, kind_vpn, kind_proxy, random_id,
}
use safelink_ssh.Store.Disk.{load_subscriptions, load_proxy_nodes}
use safelink_ssh.Store.Subscriptions.{
  add_subscription, update_subscription, delete_proxy_nodes_by_subscription_id,
}
use safelink_ssh.Store.Nodes.{UpsertError, Upserted, upsert_proxy_nodes}
use safelink_ssh.Manager.{Tunnels, Import, ImportError, bulk_upsert}
use safelink_ssh.Importer.Fetch.{
  Usage, Response, FetchError, fetch_with_usage, prefix_of, compact_errors,
}

pub data Failure : Type 0 where
  name_required url_required : Failure
  fetch_failed : FetchError → Failure
  unparsable : VpnParse.ParseError → ProxyGather.ParseError → Failure
  not_stored : StoreError → Failure
  none_imported : Text → Failure
  source_not_found : Text → Failure

-- What the calls work on: the tunnels of the manager, and the store that it shares.
pub record State : Type 0 where
  pub tunnels : Tunnels
  pub world : World

abbrev pub Call : Type 0 → Type 0
Call A = Exec State Failure A

-- The Result that the calls return.
pub record Imported : Type 0 where
  pub source : SubscriptionSource
  pub kind : Text
  pub imported : ℕ
  pub skipped : ℕ
  pub errors : List Text

pub record Environment : Type 0 where
  pub respond : Text → Option Response
  pub vpn_codec : VpnCodec.Codec
  pub proxy_codec : ProxyCodec.Codec
  pub now : Text
  pub tunnel_error : ImportError → Text
  pub node_error : UpsertError → Text
  pub failure : Failure → Text

unfoldable pub with_failure :
    {A : Type 0} → State → Result StoreError A × World → Result Failure A × State
with_failure s (ok a, w) = (ok a, record s { world = w })
with_failure s (err e, w) = (err (not_stored e), record s { world = w })

-- A call of the store; its error is handed on.
unfoldable pub of_store : {A : Type 0} → Action A → Call A
unfolding with_failure
of_store m s = with_failure s (m s.world)

-- A call of the store whose error is dropped.
unfoldable pub of_store_ignored : {A : Type 0} → Action A → Call (Unit {0})
of_store_ignored m s = (ok tt, record s { world = (m s.world).1 })

unfoldable pub import_tunnels : Text → List TunnelCfg → Call Import
import_tunnels prefix tunnels s =
    let (u, w) = bulk_upsert prefix tunnels s.tunnels s.world in
    (ok u, record { tunnels = u.tunnels; world = w })

unfoldable pub upsert_nodes : List ProxyNode → Call Upserted
upsert_nodes nodes s =
    let (r, w) = upsert_proxy_nodes nodes s.world in (ok r, record s { world = w })

-- The nodes of a source: no notices, names with the prefix, and the identifiers that `ids` knows.
unfoldable pub source_nodes : Text → Text → (Text → Text → Text) → List ProxyNode → List ProxyNode
source_nodes id prefix ids [] = []
source_nodes id prefix ids (n ∷ nodes) =
    let rest = source_nodes id prefix ids nodes in
    let name = prefix ++ n.name in
    if is_informational_node_name n.name
    then rest
    else record n { id = ids name n.id; name = name; subscription_id = id } ∷ rest

-- The end of the four calls that store a source.
unfoldable pub outcome : SubscriptionSource → Text → ℕ → ℕ → List Text → Call Imported
outcome src kind imported skipped [] =
    pure (record { source = src; kind = kind; imported = imported; skipped = skipped; errors = [] })
outcome src kind imported skipped (e ∷ errs) =
    if imported == 0
    then raise (none_imported src.last_error)
    else pure (record {
      source = src;
      kind = kind;
      imported = imported;
      skipped = skipped;
      errors = e ∷ errs;
    })

pub data Content : Type 0 where
  vpn_content : Text → List TunnelCfg → Content
  proxy_content : Text → List ProxyNode → Content
  no_content : VpnParse.ParseError → ProxyGather.ParseError → Content

unfoldable pub proxies_or : VpnParse.ParseError → ProxyParse.Parsed → Content
proxies_or e (detected, ok nodes) = proxy_content detected nodes
proxies_or e (detected, err e') = no_content e e'

unfoldable pub tunnels_or :
    Text × Result VpnParse.ParseError (List TunnelCfg) → ProxyParse.Parsed → Content
unfolding proxies_or
tunnels_or (detected, ok tunnels) proxies = vpn_content detected tunnels
tunnels_or (detected, err e) proxies = proxies_or e proxies

unfoldable pub with_usage : Usage → SubscriptionSource → SubscriptionSource
with_usage usage src = record src {
  usage_upload = usage.upload;
  usage_download = usage.download;
  usage_total = usage.total;
  usage_expire = usage.expire;
}

module _ (env : Environment) where
  -- The two calls of Parse with FormatAuto.
  unfoldable pub parse_content : Text → Content
  unfolding tunnels_or
  parse_content content =
      tunnels_or (VpnParse.parse env.vpn_codec content format_auto)
        (ProxyParse.parse env.proxy_codec content ProxyWords.format_auto)

  unfoldable pub new_source :
      Text → Text → Text → Text → Text → List Text → Usage → SubscriptionSource
  unfolding with_usage
  new_source id name url detected kind errs usage = with_usage usage (record {
    id = id;
    name = name;
    url = url;
    format = detected;
    kind = kind;
    enabled = true;
    auto_refresh = false;
    interval_min = pos 0;
    last_refresh = env.now;
    last_error = join (codes "; ") errs;
    tunnel_count = pos 0;
    node_count = pos 0;
    usage_upload = 0;
    usage_download = 0;
    usage_total = 0;
    usage_expire = pos 0;
  })

  -- The end of importVPNTunnels and importProxyNodes: the source is added.
  unfoldable pub add_source : SubscriptionSource → Text → ℕ → ℕ → List Text → Call Imported
  unfolding of_store outcome
  add_source src kind imported skipped errs = do
    of_store (add_subscription src)
    outcome src kind imported skipped errs

  unfoldable pub add_vpn_source : Text → Text → Text → Usage → Import → Text → Call Imported
  unfolding add_source new_source
  add_vpn_source name url detected usage u id =
      let errs = map env.tunnel_error u.errs in
      add_source
        (record (new_source id name url detected kind_vpn errs usage) {
          tunnel_count = pos u.imported;
        })
        kind_vpn u.imported u.skipped errs

  unfoldable pub import_vpn_tunnels : Text → Text → List TunnelCfg → Text → Usage → Call Imported
  unfolding of_store import_tunnels add_vpn_source
  import_vpn_tunnels name url tunnels detected usage = do
    u ← import_tunnels (prefix_of name) tunnels
    id ← of_store random_id
    add_vpn_source name url detected usage u id

  unfoldable pub add_proxy_source : Text → Text → Text → Usage → Text → Upserted → Call Imported
  unfolding add_source new_source
  add_proxy_source name url detected usage id r =
      let errs = map env.node_error r.errs in
      add_source
        (record (new_source id name url detected kind_proxy errs usage) {
          node_count = pos r.imported;
        })
        kind_proxy r.imported r.skipped errs

  unfoldable pub import_proxy_nodes : Text → Text → List ProxyNode → Text → Usage → Call Imported
  unfolding of_store upsert_nodes add_proxy_source source_nodes
  import_proxy_nodes name url nodes detected usage = do
    id ← of_store random_id
    r ← upsert_nodes (source_nodes id (prefix_of name) (λ name old. old) nodes)
    add_proxy_source name url detected usage id r

  unfoldable pub import_content : Text → Text → Usage → Content → Call Imported
  unfolding import_vpn_tunnels import_proxy_nodes
  import_content name url usage (vpn_content detected tunnels) =
      import_vpn_tunnels name url tunnels detected usage
  import_content name url usage (proxy_content detected nodes) =
      import_proxy_nodes name url nodes detected usage
  import_content name url usage (no_content e e') = raise (unparsable e e')

  unfoldable pub import_fetched : Text → Text → Result FetchError (Text × Usage) → Call Imported
  unfolding import_content parse_content
  import_fetched name url (err e) = raise (fetch_failed e)
  import_fetched name url (ok (content, usage)) =
      import_content name url usage (parse_content content)

  -- Import
  unfoldable pub import_subscription : Text → Text → Call Imported
  unfolding import_fetched fetch_with_usage
  import_subscription name url =
      let name' = trim_space name in
      let url' = trim_space url in
      if is_empty name'
      then raise name_required
      else if is_empty url'
      then raise url_required
      else import_fetched name' url' (fetch_with_usage (env.respond url'))
