-- ===== src/Store/Subscriptions/Deletion.antt =====
-- DeleteSubscription of client/internal/store/store.go, which writes two files one after the other.
use safelink_ssh.Base.{
  ◌≡◌, refl, sym, ap, ◌∙◌, ◌⊎◌, ◌≢◌, inl, inr, Bool, true, false, Option, none, some, List, [],
  if◌then◌else◌, Result, ok, err, ◌>>=◌, ◌>>◌, pure, lift,
}
use safelink_ssh.Text.{Text, text_eq}
use safelink_ssh.Text.Laws.{text_eq_iff}
use safelink_ssh.Proxy.Node.{ProxyNode}
use safelink_ssh.Store.{
  SubscriptionSource, World, Files, holds, StoreError, Action, subs_path, proxy_nodes_path,
  kind_proxy,
}
use safelink_ssh.Store.Disk.{save_subscriptions, write_file_atomic}
use safelink_ssh.Store.Disk.Transact.{
  parsed, parsed-get, load_rule, lift_rule, save_rule, Transacts, last_save-Transacts,
}
use safelink_ssh.Store.Subscriptions.{
  or_not_found, without_source, without_subscription, delete_proxy_nodes_by_subscription_id,
  delete_nodes_of, delete_subscription,
}
use safelink_ssh.Store.Subscriptions.Transactions.{Sources}
use safelink_ssh.Store.Subscriptions.Removed.{
  Keeps, HasId, IsNodeOf, IsLastWith, without_source-Keeps, without_subscription-Keeps,
  without_source-IsLastWith,
}

pub delete_nodes-Transacts :
    (id : Text) (w : World)
    → Transacts proxy_nodes_path []
        (λ nodes. ok (without_subscription id nodes, tt))
        w
        (delete_proxy_nodes_by_subscription_id id w)
unfolding delete_proxy_nodes_by_subscription_id
delete_nodes-Transacts id w =
    load_rule (Transacts proxy_nodes_path [] f w) proxy_nodes_path []
      (λ nodes. write_file_atomic proxy_nodes_path (without_subscription id nodes)) w (λ e r. refl)
      λ nodes r sees.
        last_save-Transacts proxy_nodes_path [] f w (record w { io = r }) nodes
          (without_subscription id nodes) sees refl refl
  where
    f : List ProxyNode → Result StoreError (List ProxyNode × Unit {0})
    f nodes = ok (without_subscription id nodes, tt)

-- Saved are the sources that have another identifier, all of them and in order; `removed` is the last
-- one that had it.
abbrev pub SourceGone : Text → World → World → Type 0
SourceGone id w v =
    (sources : Sources) × (removed : SubscriptionSource) × (left : Sources) × (parsed subs_path [] w
      ≡ ok sources)
    × IsLastWith id sources removed
    × Keeps (HasId id) sources left
    × (v.files.subscriptions ≡ holds left)

-- What a deletion can end in: everything done; nothing done; or the source gone and its nodes kept,
-- because their file could not be read or written.
abbrev pub Deletes : Text → World → Result StoreError (Unit {0}) × World → Type 0
Deletes id w (ok u, v) =
    (gone : SourceGone id w v) × ((gone.1.kind ≡ kind_proxy
      → (nodes : List ProxyNode) × (left : List ProxyNode) × (parsed proxy_nodes_path [] w
          ≡ ok nodes)
        × Keeps (IsNodeOf id) nodes left
        × (v.files.proxy_nodes ≡ holds left)))
    × (gone.1.kind ≢ kind_proxy → v.files.proxy_nodes ≡ w.files.proxy_nodes)
Deletes id w (err e, v) =
    (v.files.proxy_nodes ≡ w.files.proxy_nodes)
    × ((v.files.subscriptions ≡ w.files.subscriptions)
        ⊎ ((gone : SourceGone id w v) × (gone.1.kind ≡ kind_proxy)))

or_not_found-ok :
    {A : Type 0} (id : Text) (o : Option A) (a : A) → or_not_found id o ≡ ok a → o ≡ some a
unfolding or_not_found
or_not_found-ok id none a h = cc
or_not_found-ok id (some x) a h = cc

-- The second half, once the source is gone.
module _ (id : Text) (w v : World) (gone : SourceGone id w v)
    (kept : v.files.proxy_nodes ≡ w.files.proxy_nodes) where
  after_nodes :
      gone.1.kind ≡ kind_proxy
      → (o : Result StoreError (Unit {0}) × World)
      → Transacts proxy_nodes_path [] (λ nodes. ok (without_subscription id nodes, tt)) v o
      → Deletes id w o
  after_nodes proxy (ok u, x) (nodes, nodes', sees, computes, files) = (
    (
      gone.0,
      gone.1,
      gone.2,
      gone.3,
      gone.4,
      gone.5,
      ap (λ (f : Files). f.subscriptions) files ∙ gone.6,
    ),
    (λ _. (
      nodes,
      without_subscription id nodes,
      sym (parsed-get proxy_nodes_path [] v w kept) ∙ sees,
      without_subscription-Keeps id nodes,
      ap (λ (f : Files). f.proxy_nodes) files ∙ ap holds (sym (computed nodes' computes)),
    )),
    λ other. absurd (other proxy),
  )
    where
      computed :
          (ns : List ProxyNode)
          → ◌≡◌ {A = Result StoreError (List ProxyNode × Unit {0})}
              (ok (without_subscription id nodes, tt))
              (ok (ns, tt))
          → without_subscription id nodes ≡ ns
      computed ns e = cc
  after_nodes proxy (err e, x) files = (
    ap (λ (f : Files). f.proxy_nodes) files ∙ kept,
    inr (
      (
        gone.0,
        gone.1,
        gone.2,
        gone.3,
        gone.4,
        gone.5,
        ap (λ (f : Files). f.subscriptions) files ∙ gone.6,
      ),
      proxy,
    ),
  )

  finish : Deletes id w (delete_nodes_of gone.1 id v)
  unfolding delete_nodes_of
  finish = go (text_eq gone.1.kind kind_proxy) refl
    where
      go :
          (b : Bool)
          → text_eq gone.1.kind kind_proxy ≡ b
          → Deletes id w ((if b then delete_proxy_nodes_by_subscription_id id else pure tt) v)
      go true e =
          after_nodes ((text_eq_iff gone.1.kind kind_proxy).0 e)
            (delete_proxy_nodes_by_subscription_id id v) (delete_nodes-Transacts id v)
      go false e = (gone, (λ proxy. cc ((text_eq_iff gone.1.kind kind_proxy).1 proxy)), λ _. kept)

-- DeleteSubscription succeeds only if a source has the identifier. It then leaves exactly the sources
-- with other identifiers, in order, and, if the last one with the identifier was a proxy source, exactly
-- the nodes of other sources, in order; otherwise the nodes stay. When it fails, it has changed nothing,
-- or it has removed the sources, of which the last was a proxy source, and none of their nodes.
pub delete-Deletes : (id : Text) (w : World) → Deletes id w (delete_subscription id w)
unfolding delete_subscription
delete-Deletes id w =
    load_rule D subs_path [] body w (λ e r. (refl, inl refl))
      λ sources r sees.
        lift_rule D (look sources) (rest sources) (record w { io = r }) (λ e. (refl, inl refl))
          λ removed found.
            save_rule D subs_path (without_source id sources).0 (delete_nodes_of removed id)
              (record w { io = r })
              (λ e v files. (
                ap (λ (f : Files). f.proxy_nodes) files,
                inl (ap (λ (f : Files). f.subscriptions) files),
              ))
              λ v files entropy drawn.
                finish id w v
                  (
                    sources,
                    removed,
                    (without_source id sources).0,
                    sees,
                    without_source-IsLastWith id sources removed
                        (or_not_found-ok id _ removed found),
                    without_source-Keeps id sources,
                    ap (λ (f : Files). f.subscriptions) files,
                  )
                  (ap (λ (f : Files). f.proxy_nodes) files)
  where
    D : Result StoreError (Unit {0}) × World → Type 0
    D = Deletes id w

    look : Sources → Result StoreError SubscriptionSource
    look sources = or_not_found id (without_source id sources).1

    rest : Sources → SubscriptionSource → Action (Unit {0})
    rest sources removed = do
      save_subscriptions (without_source id sources).0
      delete_nodes_of removed id

    body : Sources → Action (Unit {0})
    body sources = do removed ← lift (look sources); rest sources removed
