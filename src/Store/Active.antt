-- ===== src/Store/Active.antt =====
-- LoadActiveProxyNodes of client/internal/store/store.go. sort.SliceStable is the insertion sort, whose
-- result is the one stable order.
pub mod Order
pub mod Shown
use safelink_ssh.Base.{
  ℕ, zero, suc, ◌+◌, Bool, true, false, ◌&&◌, ◌||◌, not, Option, none, some, List, [], ◌∷◌, ◌++◌,
  Result, ok, err, Exec, ◌>>=◌, ◌>>◌, pure, resume, if◌then◌else◌, ltb, leb, ◌==◌, map,
}
use safelink_ssh.Text.{
  Text, codes, is_empty, text_eq, trim, trim_space, trim_prefix, equal_fold, contains,
}
use safelink_ssh.Proxy.Node.{
  ProxyNode, TlsOptions, is_informational_node_name, protocol_shadowsocks, protocol_trojan,
  protocol_vless, protocol_vmess, protocol_hysteria, protocol_hysteria2, protocol_tuic,
  protocol_anytls,
}
use safelink_ssh.Store.{SubscriptionSource, Action, kind_proxy}
use safelink_ssh.Store.Disk.{load_subscriptions, load_proxy_nodes}
use safelink_ssh.Text.Table.{lookup}

abbrev between : ℕ → ℕ → ℕ → Bool
between lo hi r = leb lo r && leb r hi

-- The runes that subscriptionPrefix keeps; every other one becomes a dash.
unfoldable pub prefix_rune : ℕ → ℕ
prefix_rune r =
    if between b'a' b'z' r
      || between b'A' b'Z' r
      || between b'0' b'9' r
      || r == b'-'
      || r == b'_'
      || r == b'.'
    then r
    else b'-'

-- if prefix == "" { prefix = "subscription" }
unfoldable pub or_subscription : Text → Text
or_subscription s = if is_empty s then codes "subscription" else s

unfoldable pub subscription_prefix : Text → Text
unfolding prefix_rune or_subscription
subscription_prefix name =
    or_subscription (trim (λ c. c == b'-') (map prefix_rune name)) ++ b'-' ∷ []

-- activeSubscriptions, on top of what it has.
unfoldable pub active_subscriptions :
    List SubscriptionSource → List (Text × Text) → List (Text × Text)
active_subscriptions [] active = active
active_subscriptions (s ∷ sources) active = active_subscriptions sources (
    if text_eq s.kind kind_proxy && s.enabled
    then (s.id, subscription_prefix s.name) ∷ active
    else active)

-- Does the loop over the nodes keep a node, by the prefix of its subscription if that is active?
unfoldable pub is_shown : ProxyNode → Option Text → Bool
is_shown n none = false
is_shown n (some prefix) = not (is_informational_node_name (trim_prefix n.name prefix))

unfoldable pub active_nodes : List (Text × Text) → List ProxyNode → List ProxyNode
unfolding is_shown
active_nodes active [] = []
active_nodes active (n ∷ nodes) =
    let rest = active_nodes active nodes in
    if is_shown n (lookup n.subscription_id active) then n ∷ rest else rest

unfoldable pub proxy_node_protocol_rank : Text → ℕ
proxy_node_protocol_rank protocol =
    if text_eq protocol protocol_shadowsocks
      || text_eq protocol protocol_trojan
      || text_eq protocol protocol_vless
      || text_eq protocol protocol_vmess
    then 0
    else if text_eq protocol protocol_hysteria2
        || text_eq protocol protocol_hysteria
        || text_eq protocol protocol_tuic
    then 1
    else if text_eq protocol protocol_anytls
    then 2
    else 3

-- node.TLS != nil && strings.TrimSpace(node.TLS.PublicKey) != ""
unfoldable pub has_reality : Option TlsOptions → Bool
has_reality none = false
has_reality (some tls) = not (is_empty (trim_space tls.public_key))

unfoldable pub proxy_node_variant_rank : ProxyNode → ℕ
unfolding has_reality
proxy_node_variant_rank node =
    let reality = has_reality node.tls in
    let vision = contains node.flow (codes "vision") in
    let ws =
      equal_fold (trim_space node.transport.type) (codes "ws")
      || equal_fold (trim_space node.transport.type) (codes "websocket") in
    if reality && vision && not ws
    then 0
    else if reality && vision
    then 1
    else if reality
    then 2
    else if not ws
    then 3
    else 4

-- The comparison of the sort.
unfoldable pub goes_before : ProxyNode → ProxyNode → Bool
goes_before a b =
    let ra = proxy_node_protocol_rank a.protocol in
    let rb = proxy_node_protocol_rank b.protocol in
    if ra == rb then ltb (proxy_node_variant_rank a) (proxy_node_variant_rank b) else ltb ra rb

-- A node goes behind those that it does not come before: the nodes are inserted from the last on.
unfoldable pub insert_node : ProxyNode → List ProxyNode → List ProxyNode
unfolding goes_before
insert_node n [] = n ∷ []
insert_node n (m ∷ nodes) =
    let rest = insert_node n nodes in if goes_before m n then m ∷ rest else n ∷ m ∷ nodes

unfoldable pub sort_nodes : List ProxyNode → List ProxyNode
unfolding insert_node
sort_nodes [] = []
sort_nodes (n ∷ nodes) = insert_node n (sort_nodes nodes)

-- if len(activeSubscriptions) == 0
unfoldable pub nodes_of : List (Text × Text) → Action (List ProxyNode)
unfolding active_nodes sort_nodes
nodes_of [] = pure []
nodes_of (a ∷ active) = do
  nodes ← load_proxy_nodes
  pure (sort_nodes (active_nodes (a ∷ active) nodes))

unfoldable pub load_active_proxy_nodes : Action (List ProxyNode)
unfolding active_subscriptions nodes_of
load_active_proxy_nodes = do
  sources ← load_subscriptions
  nodes_of (active_subscriptions sources [])
