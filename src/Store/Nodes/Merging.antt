-- ===== src/Store/Nodes/Merging.antt =====
-- UpsertProxyNodes of client/internal/store/store.go as a whole: its loop and its file.
use safelink_ssh.Base.{
  ◌+◌, ◌≡◌, ◌≢◌, ◌⊎◌, inl, inr, refl, ◌∙◌, ap, List, [], ◌∷◌, ◌++◌, arith, length, All, Bool-cases,
  ◌==◌, ==_iff, Result, ok, err, ◌>>=◌,
}
use safelink_ssh.Proxy.Node.{ProxyNode}
use safelink_ssh.Store.{World, StoreError, Action, proxy_nodes_path, holds}
use safelink_ssh.Store.Disk.{save_proxy_nodes}
use safelink_ssh.Store.Disk.Atomic.{Writes, write_file_atomic-Writes}
use safelink_ssh.Store.Disk.Transact.{parsed, load_rule}
use safelink_ssh.Store.Nodes.{
  Upsert, Upserted, upsert_loop, start, report, finish_upsert, after_save, after_load,
  upsert_proxy_nodes, UpsertError, persist_failed,
}
use safelink_ssh.Store.Nodes.Names.{Indexes, HasUniqueNames, start-Indexes}
use safelink_ssh.Store.Nodes.Upserts.{Stored, Gives, upsert_node-Places}

-- Every incoming node that has a name is stored, unless one with the same name comes later.
abbrev pub HasLatest : List ProxyNode → List ProxyNode → Type 0
HasLatest [] nodes = Unit
HasLatest (n ∷ incoming) nodes =
    (n.name ≢ [] → All (λ (m : ProxyNode). n.name ≢ m.name) incoming → Stored n nodes)
    × HasLatest incoming nodes

-- Nodes whose names do not come in stay.
abbrev pub Keeps : List ProxyNode → List ProxyNode → List ProxyNode → Type 0
Keeps incoming nodes nodes' =
    (m : ProxyNode)
    → All (λ (n : ProxyNode). m.name ≢ n.name) incoming
    → Stored m nodes
    → Stored m nodes'

-- What the loop does.
abbrev Merges : List ProxyNode → Upsert → Upsert → Type 0
Merges incoming u u' =
    (HasUniqueNames u.nodes → HasUniqueNames u'.nodes)
    × (u'.imported + u'.skipped ≡ u.imported + u.skipped + length incoming)
    × HasLatest incoming u'.nodes
    × Keeps incoming u.nodes u'.nodes

upsert_loop-Merges :
    (incoming : List ProxyNode) (u : Upsert) (w : World)
    → Indexes u.by_name u.nodes
    → Gives (Merges incoming u) w (upsert_loop incoming u w)
unfolding upsert_loop
upsert_loop-Merges [] u w h =
    (u, w, refl, refl, ((λ unique. unique), omega arith, tt, λ m apart stored. stored))
upsert_loop-Merges (n ∷ incoming) u w h =
    let (u1, w1, e1, files1, (indexes, unique1, count1, here, there)) =
      upsert_node-Places n u w h in
    let (u2, w2, e2, files2, (unique2, count2, latest, keeps)) =
      upsert_loop-Merges incoming u1 w1 indexes in
    (
      u2,
      w2,
      rw e1 e2,
      files2 ∙ files1,
      (
        (λ unique. unique2 (unique1 unique)),
        omega (arith, count1, count2),
        ((λ named apart. keeps n apart (here named)), latest),
        λ m apart stored. keeps m apart.1 (there m apart.0 stored),
      ),
    )

-- What a call returns and leaves in the file.
abbrev pub Upserts : List ProxyNode → World → Upserted × World → Type 0
Upserts incoming w (r, v) =
    (r.imported + r.skipped ≡ length incoming)
    × (((v.files ≡ w.files) × ((r.imported ≡ 0) ⊎ (r.errs ≢ [])))
        ⊎ ((nodes : List ProxyNode) × (nodes' : List ProxyNode) × (parsed proxy_nodes_path [] w
              ≡ ok nodes)
            × (v.files ≡ proxy_nodes_path.put (holds nodes') w.files)
            × (HasUniqueNames nodes → HasUniqueNames nodes')
            × HasLatest incoming nodes'
            × Keeps incoming nodes nodes'))

append-ne_nil : (es : List UpsertError) (e : UpsertError) → es ++ e ∷ [] ≢ []
append-ne_nil [] e = λ h. cc
append-ne_nil (x ∷ es) e = λ h. cc

finish-Upserts :
    (incoming nodes : List ProxyNode) (w v : World) (u : Upsert)
    → parsed proxy_nodes_path [] w ≡ ok nodes
    → v.files ≡ w.files
    → Merges incoming (start nodes) u
    → Upserts incoming w (after_load (length incoming) (finish_upsert u v))
unfolding finish_upsert after_load after_save report start
finish-Upserts incoming nodes w v u sees same (unique, count, latest, keeps) =
    elim (Bool-cases (u.imported == 0)) [
      | inl e ↦ rw e (omega (arith, count), inl (same, inl ((==_iff u.imported 0).0 e)))
      | inr e ↦
          rw e (
            saved (save_proxy_nodes u.nodes v)
              (write_file_atomic-Writes proxy_nodes_path u.nodes v))
    ]
  where
    saved :
        (o : Result StoreError (Unit {0}) × World)
        → Writes (proxy_nodes_path.put (holds u.nodes)) v o
        → Upserts incoming w (after_load (length incoming) (after_save u o))
    saved (ok t, x) h = (
      omega (arith, count),
      inr (
        nodes,
        u.nodes,
        sees,
        h.0 ∙ ap (proxy_nodes_path.put (holds u.nodes)) same,
        unique,
        latest,
        keeps,
      ),
    )
    saved (err x, y) h =
        (omega (arith, count), inl (h.0 ∙ same, inr (append-ne_nil u.errs (persist_failed x))))

-- UpsertProxyNodes counts every incoming node as imported or skipped. It leaves the file and says that
-- nothing was imported or why, or it writes nodes of which no two have the same name, if none had
-- before: of the incoming nodes of a name the last one, up to its identifier, and every node whose name
-- did not come in.
pub upsert_nodes-Upserts :
    (incoming : List ProxyNode) (w : World) → Upserts incoming w (upsert_proxy_nodes incoming w)
unfolding upsert_proxy_nodes after_load start
upsert_nodes-Upserts incoming w =
    load_rule (λ o. Upserts incoming w (after_load (length incoming) o)) proxy_nodes_path [] rest w
      (λ e r. failed e (record w { io = r }) refl)
      λ nodes r sees.
        let (u, v, e, files, merges) =
          upsert_loop-Merges incoming (start nodes) (record w { io = r }) (start-Indexes nodes) in
        rw e (finish-Upserts incoming nodes w v u sees files merges)
  where
    rest : List ProxyNode → Action Upserted
    rest nodes = do u ← upsert_loop incoming (start nodes); finish_upsert u

    failed :
        (e : StoreError) (v : World)
        → v.files ≡ w.files
        → Upserts incoming w (after_load (length incoming) (err e, v))
    failed e v same = (omega arith, inl (same, inl refl))
