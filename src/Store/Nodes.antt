-- ===== src/Store/Nodes.antt =====
-- The proxy nodes of client/internal/store/store.go: UpsertProxyNodes. A Go map from
-- texts is a list of its entries with the newest first, and a look-up takes the first match.
pub mod Names
pub mod Upserts
pub mod Merging
use safelink_ssh.Base.{
  ℕ, zero, suc, ◌+◌, Bool, true, false, ◌&&◌, ◌||◌, not, Option, none, some, List, [], ◌∷◌, ◌++◌,
  Result, ok, err, Exec, ◌>>=◌, ◌>>◌, pure, lift, resume, if◌then◌else◌, ltb, ◌==◌, length, set,
  get_elem?,
}
use safelink_ssh.Text.{
  Text, codes, is_empty, text_eq, trim, trim_space, trim_prefix, equal_fold, contains,
}
use safelink_ssh.Text.Table.{lookup}
use safelink_ssh.Proxy.Node.{
  ProxyNode, TlsOptions, is_informational_node_name, protocol_shadowsocks, protocol_trojan,
  protocol_vless, protocol_vmess, protocol_hysteria, protocol_hysteria2, protocol_tuic,
  protocol_anytls,
}
use safelink_ssh.Store.{SubscriptionSource, World, StoreError, Action, kind_proxy, id_or_random}
use safelink_ssh.Store.Disk.{load_subscriptions, load_proxy_nodes, save_proxy_nodes}

-- byName of the nodes from the i-th on, on top of what it has.
unfoldable pub index_names : ℕ → List ProxyNode → List (Text × ℕ) → List (Text × ℕ)
index_names i [] by_name = by_name
index_names i (n ∷ nodes) by_name = index_names (i + 1) nodes ((n.name, i) ∷ by_name)

pub data UpsertError : Type 0 where
  node_requires_name : UpsertError
  load_failed persist_failed : StoreError → UpsertError

-- The variables of the loop of UpsertProxyNodes.
pub record Upsert : Type 0 where
  pub nodes : List ProxyNode
  pub by_name : List (Text × ℕ)
  pub imported : ℕ
  pub skipped : ℕ
  pub errs : List UpsertError

-- if node.ID == "" { node.ID = nodes[idx].ID }
unfoldable pub keep_id : Option ProxyNode → ProxyNode → ProxyNode
keep_id none node = node
keep_id (some old) node = record node { id = if is_empty node.id then old.id else node.id }

unfoldable pub replace_node : ProxyNode → ℕ → Upsert → Upsert
unfolding keep_id
replace_node node idx u = record u {
  nodes = set u.nodes idx (keep_id (get_elem? u.nodes idx) node);
  imported = u.imported + 1;
}

unfoldable pub append_node : ProxyNode → Upsert → Upsert
append_node node u = record u {
  nodes = u.nodes ++ node ∷ [];
  by_name = (node.name, length u.nodes) ∷ u.by_name;
  imported = u.imported + 1;
}

unfoldable pub skip_node : Upsert → Upsert
skip_node u = record u { errs = u.errs ++ node_requires_name ∷ []; skipped = u.skipped + 1 }

unfoldable pub place_node : ProxyNode → Option ℕ → Upsert → Action Upsert
unfolding replace_node append_node
place_node node (some idx) u = pure (replace_node node idx u)
place_node node none u = do
  id ← id_or_random node.id
  pure (append_node (record node { id = id }) u)

-- One round of the loop.
unfoldable pub upsert_node : ProxyNode → Upsert → Action Upsert
unfolding skip_node place_node
upsert_node node u =
    if is_empty node.name
    then pure (skip_node u)
    else place_node node (lookup node.name u.by_name) u

unfoldable pub upsert_loop : List ProxyNode → Upsert → Action Upsert
unfolding upsert_node
upsert_loop [] u = pure u
upsert_loop (node ∷ incoming) u = do u' ← upsert_node node u; upsert_loop incoming u'

unfoldable pub start : List ProxyNode → Upsert
start nodes = record {
  nodes = nodes;
  by_name = index_names 0 nodes [];
  imported = 0;
  skipped = 0;
  errs = [];
}

-- What UpsertProxyNodes returns.
pub record Upserted : Type 0 where
  pub imported : ℕ
  pub skipped : ℕ
  pub errs : List UpsertError

unfoldable pub report : Upsert → Upserted
report u = record { imported = u.imported; skipped = u.skipped; errs = u.errs }

-- The last save; its error is one more message.
unfoldable pub after_save :
    Upsert → Result StoreError (Unit {0}) × World → Result StoreError Upserted × World
after_save u (ok t, w) = (ok (report u), w)
after_save u (err e, w) = (ok (record (report u) { errs = u.errs ++ persist_failed e ∷ [] }), w)

unfoldable pub finish_upsert : Upsert → Action Upserted
unfolding after_save report
finish_upsert u w =
    if u.imported == 0 then (ok (report u), w) else after_save u (save_proxy_nodes u.nodes w)

-- The error of the load is a message too.
unfoldable pub after_load : ℕ → Result StoreError Upserted × World → Upserted × World
after_load count (ok r, w) = (r, w)
after_load count (err e, w) =
    (record { imported = 0; skipped = count; errs = load_failed e ∷ [] }, w)

unfoldable pub upsert_proxy_nodes : List ProxyNode → World → Upserted × World
unfolding upsert_loop finish_upsert after_load
upsert_proxy_nodes incoming w = after_load (length incoming) (run w)
  where
    run : Action Upserted
    run = do nodes ← load_proxy_nodes; u ← upsert_loop incoming (start nodes); finish_upsert u
