-- ===== src/Store/Active/Shown.antt =====
-- The nodes that LoadActiveProxyNodes of client/internal/store/store.go returns.
use safelink_ssh.Base.{ℕ, ◌≡◌, ◌⊎◌, true, false, List, [], ◌∷◌, Result, ok, err, All}
use safelink_ssh.Text.{Text, trim_prefix}
use safelink_ssh.Proxy.Node.{ProxyNode, is_informational_node_name}
use safelink_ssh.Store.{
  SubscriptionSource, World, StoreError, kind_proxy, subs_path, proxy_nodes_path,
}
use safelink_ssh.Store.Disk.Transact.{parsed}
use safelink_ssh.Store.Active.{active_nodes, active_subscriptions, subscription_prefix}
use safelink_ssh.Store.Active.Order.{IsSorted, with_rank}

-- A source that feeds a node: an enabled proxy source with the node's subscription, without whose
-- prefix the name of the node is not an informational one.
abbrev pub Feeds : ProxyNode → SubscriptionSource → Type 0
Feeds n s =
    (s.kind ≡ kind_proxy)
    × (s.enabled ≡ true)
    × (s.id ≡ n.subscription_id)
    × (is_informational_node_name (trim_prefix n.name (subscription_prefix s.name)) ≡ false)

unfoldable pub IsFed : List SubscriptionSource → ProxyNode → Type 0
IsFed [] n = ⊥
IsFed (s ∷ sources) n = Feeds n s ⊎ IsFed sources n

-- The nodes that are shown: each is fed by a source, they are sorted by rank, and nodes of one rank
-- stand in the order of the file.
abbrev pub Shows : World → Result StoreError (List ProxyNode) × World → Type 0
Shows w (ok shown, v) =
    (sources : List SubscriptionSource) × (nodes : List ProxyNode) × (parsed subs_path [] w
      ≡ ok sources)
    × All (IsFed sources) shown
    × IsSorted shown
    × ((r : ℕ)
        → with_rank r shown ≡ with_rank r (active_nodes (active_subscriptions sources []) nodes))
    × (((active_subscriptions sources [] ≡ []) × (nodes ≡ []))
        ⊎ (parsed proxy_nodes_path [] w ≡ ok nodes))
    × (v.files ≡ w.files)
Shows w (err e, v) = v.files ≡ w.files
