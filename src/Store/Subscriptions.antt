-- ===== src/Store/Subscriptions.antt =====
-- The subscription operations of client/internal/store/store.go.
pub mod Single
pub mod Normalize
pub mod Transactions
pub mod Removed
pub mod Deletion
pub mod Commands
pub mod Update
use safelink_ssh.Base.{
  ℕ, zero, suc, ◌+◌, Bool, true, false, ◌&&◌, ◌||◌, not, Option, none, some, List, [], ◌∷◌, ◌++◌,
  map, Result, ok, err, Exec, ◌>>=◌, ◌>>◌, pure, raise, lift, resume, if◌then◌else◌, any,
}
use safelink_ssh.Text.{Text, is_empty, text_eq}
use safelink_ssh.Proxy.Node.{ProxyNode}
use safelink_ssh.Store.{
  SubscriptionSource, World, StoreError, Action, kind_vpn, kind_proxy, subs_path, proxy_nodes_path,
  id_or_random, subscription_id_required, subscription_not_found,
}
use safelink_ssh.Store.Disk.{
  load_subscriptions, save_subscriptions, load_proxy_nodes, save_proxy_nodes,
}

-- subscriptionKind
unfoldable pub subscription_kind : SubscriptionSource → Text
subscription_kind s = if is_empty s.kind then kind_vpn else s.kind

-- The loop of AddSubscription: is another source of the kind enabled?
unfoldable pub kind_is_taken : Text → List SubscriptionSource → Bool
kind_is_taken kind = any (λ s. s.enabled && text_eq (subscription_kind s) kind)

-- What AddSubscription makes of a source, under the identifier that it has or was given.
unfoldable pub admit : Text → SubscriptionSource → List SubscriptionSource → SubscriptionSource
admit id src sources =
    let kind = if is_empty src.kind then kind_vpn else src.kind in
    record src { id = id; kind = kind; enabled = src.enabled && not (kind_is_taken kind sources) }

unfoldable pub add_subscription : SubscriptionSource → Action (Unit {0})
add_subscription src = do
  sources ← load_subscriptions
  id ← id_or_random src.id
  save_subscriptions (sources ++ admit id src sources ∷ [])

-- The loop of UpdateSubscription: the first source with the identifier is replaced.
unfoldable pub replace_source :
    SubscriptionSource → List SubscriptionSource → Option (List SubscriptionSource)
replace_source src [] = none
replace_source src (s ∷ sources) =
    if text_eq s.id src.id
    then some (record src { kind = if is_empty src.kind then s.kind else src.kind } ∷ sources)
    else elim (replace_source src sources) [ none ↦ none | some rest ↦ some (s ∷ rest) ]

unfoldable pub or_not_found : {A : Type 0} → Text → Option A → Result StoreError A
or_not_found id none = err (subscription_not_found id)
or_not_found id (some a) = ok a

unfoldable pub update_subscription : SubscriptionSource → Action (Unit {0})
update_subscription src = if is_empty src.id then raise subscription_id_required else do
  sources ← load_subscriptions
  updated ← lift (or_not_found src.id (replace_source src sources))
  save_subscriptions updated

-- The first source with the identifier, with the sources before and behind it.
unfoldable pub split_at_id :
    Text
    → List SubscriptionSource
    → Option (List SubscriptionSource × SubscriptionSource × List SubscriptionSource)
split_at_id id [] = none
split_at_id id (s ∷ sources) =
    if text_eq s.id id then some ([], s, sources) else elim (split_at_id id sources) [
      | none ↦ none
      | some (before, target, behind) ↦ some (s ∷ before, target, behind)
    ]

-- sources[i].Enabled = false for every other source of the kind
unfoldable pub disable_if_kind : Text → SubscriptionSource → SubscriptionSource
disable_if_kind kind s =
    if text_eq (subscription_kind s) kind then record s { enabled = false } else s

unfoldable pub disable_kind : Text → List SubscriptionSource → List SubscriptionSource
disable_kind kind = map (disable_if_kind kind)

-- What SetSubscriptionEnabled makes of the list, and the target as it stands in it.
unfoldable pub switch :
    Bool
    → List SubscriptionSource × SubscriptionSource × List SubscriptionSource
    → List SubscriptionSource × SubscriptionSource
switch enabled (before, target, behind) =
    let target' = record target { enabled = enabled } in
    let kind = subscription_kind target in
    if enabled
    then (disable_kind kind before ++ target' ∷ disable_kind kind behind, target')
    else (before ++ target' ∷ behind, target')

unfoldable pub set_subscription_enabled : Text → Bool → Action SubscriptionSource
set_subscription_enabled id enabled = do
  sources ← load_subscriptions
  found ← lift (or_not_found id (split_at_id id sources))
  save_subscriptions (switch enabled found).0
  pure (switch enabled found).1

-- One round of NormalizeEnabledSubscriptions: whether the source is enabled, whether its kind was kept
-- before, and the rest of the loop with the kinds as they were and with this one kept too.
unfoldable pub keep_step :
    Bool
    → Bool
    → SubscriptionSource
    → List SubscriptionSource × Bool
    → List SubscriptionSource × Bool
    → List SubscriptionSource × Bool
keep_step false seen s same more = (s ∷ same.0, same.1)
keep_step true true s same more = (record s { enabled = false } ∷ same.0, true)
keep_step true false s same more = (s ∷ more.0, more.1)

-- The loop, with the kinds that were kept.
unfoldable pub keep_first : List Text → List SubscriptionSource → List SubscriptionSource × Bool
unfolding keep_step
keep_first kept [] = ([], false)
keep_first kept (s ∷ sources) =
    let kind = subscription_kind s in
    let same = keep_first kept sources in
    let more = keep_first (kind ∷ kept) sources in
    keep_step s.enabled (any (text_eq kind) kept) s same more

unfoldable pub normalize_enabled_subscriptions : Action (Unit {0})
normalize_enabled_subscriptions = do
  sources ← load_subscriptions
  let (kept, changed) = keep_first [] sources
  if changed then save_subscriptions kept else pure tt

-- The loop of DeleteSubscription: the sources that stay, and the last one that goes.
unfoldable pub without_source :
    Text → List SubscriptionSource → List SubscriptionSource × Option SubscriptionSource
without_source id [] = ([], none)
without_source id (s ∷ sources) =
    let (rest, removed) = without_source id sources in
    if text_eq s.id id
    then (rest, elim removed [ none ↦ some s | some r ↦ some r ])
    else (s ∷ rest, removed)

-- The loop of DeleteProxyNodesBySubscriptionID.
unfoldable pub without_subscription : Text → List ProxyNode → List ProxyNode
without_subscription id [] = []
without_subscription id (n ∷ nodes) =
    let rest = without_subscription id nodes in
    if text_eq n.subscription_id id then rest else n ∷ rest

unfoldable pub delete_proxy_nodes_by_subscription_id : Text → Action (Unit {0})
delete_proxy_nodes_by_subscription_id id = do
  nodes ← load_proxy_nodes
  save_proxy_nodes (without_subscription id nodes)

-- if removed.Kind == SubscriptionKindProxy
unfoldable pub delete_nodes_of : SubscriptionSource → Text → Action (Unit {0})
delete_nodes_of removed id =
    if text_eq removed.kind kind_proxy then delete_proxy_nodes_by_subscription_id id else pure tt

unfoldable pub delete_subscription : Text → Action (Unit {0})
delete_subscription id = do
  sources ← load_subscriptions
  removed ← lift (or_not_found id (without_source id sources).1)
  save_subscriptions (without_source id sources).0
  delete_nodes_of removed id
