-- ===== src/Store/Nodes/Upserts.antt =====
-- What UpsertProxyNodes of client/internal/store/store.go stores.
use safelink_ssh.Base.{
  ℕ, ◌+◌, ◌≡◌, ◌≢◌, inl, inr, refl, sym, ◌∙◌, ap, Option, none, some, List, [], ◌∷◌, arith, length,
  get_elem?, get-append, get-append_last, get-set_same, get-set_other, Bool-cases, if◌then◌else◌,
  Result, ok,
}
use safelink_ssh.Text.{Text, is_empty}
use safelink_ssh.Text.Laws.{is_empty_iff}
use safelink_ssh.Proxy.Node.{ProxyNode}
use safelink_ssh.Store.{World, StoreError, new_id, id_or_random_lem}
use safelink_ssh.Store.Nodes.{
  Upsert, keep_id, replace_node, append_node, skip_node, place_node, upsert_node,
}
use safelink_ssh.Text.Table.{lookup}
use safelink_ssh.Store.Nodes.Names.{
  Points, Indexes, HasUniqueNames, append-Indexes, set-Indexes, append-HasUniqueNames,
  set-HasUniqueNames,
}

-- A node is stored as it is, up to its identifier.
abbrev pub Stored : ProxyNode → List ProxyNode → Type 0
Stored n nodes =
    (i : ℕ) × (k : ProxyNode) × (get_elem? nodes i ≡ some k) × (k ≡ record n { id = k.id })

stored_name : (n k : ProxyNode) → k ≡ record n { id = k.id } → k.name ≡ n.name
stored_name n k e = ap (λ (m : ProxyNode). m.name) e

-- What one round of the loop does.
abbrev pub Places : ProxyNode → Upsert → Upsert → Type 0
Places node u u' =
    Indexes u'.by_name u'.nodes
    × (HasUniqueNames u.nodes → HasUniqueNames u'.nodes)
    × (u'.imported + u'.skipped ≡ u.imported + u.skipped + 1)
    × (node.name ≢ [] → Stored node u'.nodes)
    × ((m : ProxyNode) → m.name ≢ node.name → Stored m u.nodes → Stored m u'.nodes)

replace-Places :
    (node old : ProxyNode) (idx : ℕ) (u : Upsert)
    → Indexes u.by_name u.nodes
    → get_elem? u.nodes idx ≡ some old
    → old.name ≡ node.name
    → Places node u (replace_node node idx u)
unfolding replace_node keep_id
replace-Places node old idx u h at same = rw at (
  set-Indexes u.by_name u.nodes idx new old at same h,
  set-HasUniqueNames u.nodes idx new old at same,
  omega arith,
  λ named. (idx, new, get-set_same u.nodes idx new old at, refl),
  λ m ne (i, k, e, is).
      (i, k, get-set_other u.nodes idx i new (λ here. ne (moved m i k e is here)) ∙ e, is),
)
  where
    new : ProxyNode
    new = record node { id = if is_empty node.id then old.id else node.id }

    moved :
        (m : ProxyNode) (i : ℕ) (k : ProxyNode)
        → get_elem? u.nodes i ≡ some k
        → k ≡ record m { id = k.id }
        → i ≡ idx
        → m.name ≡ node.name
    moved m i k e is here =
        let is' : k ≡ old = cc in
        sym (stored_name m k is) ∙ ap (λ (q : ProxyNode). q.name) is' ∙ same

append-Places :
    (node : ProxyNode) (u : Upsert)
    → Indexes u.by_name u.nodes
    → Points u.nodes node.name none
    → (id : Text) → Places node u (append_node (record node { id = id }) u)
unfolding append_node
append-Places node u h new id = (
  append-Indexes u.by_name u.nodes (record node { id = id }) h,
  append-HasUniqueNames u.nodes (record node { id = id }) new,
  omega arith,
  λ named. (
    length u.nodes,
    record node { id = id },
    get-append_last u.nodes (record node { id = id }),
    refl,
  ),
  λ m ne (i, k, e, is). (i, k, get-append u.nodes (record node { id = id } ∷ []) i k e, is),
)

-- An action that succeeds and changes no file, with a property of its result.
abbrev pub Gives : (Upsert → Type 0) → World → Result StoreError Upsert × World → Type 0
Gives P w o = (u : Upsert) × (v : World) × (o ≡ (ok u, v)) × (v.files ≡ w.files) × P u

place-Places :
    (node : ProxyNode) (u : Upsert) (w : World) (at : Option ℕ)
    → Indexes u.by_name u.nodes
    → Points u.nodes node.name at
    → Gives (Places node u) w (place_node node at u w)
unfolding place_node
place-Places node u w (some idx) h (old, at, same) =
    (replace_node node idx u, w, refl, refl, replace-Places node old idx u h at same)
place-Places node u w none h new =
    let (v, e, files, entropy) = id_or_random_lem node.id w in
    (
      append_node (record node { id = new_id node.id w }) u,
      v,
      rw e,
      files,
      append-Places node u h new (new_id node.id w),
    )

pub upsert_node-Places :
    (node : ProxyNode) (u : Upsert) (w : World)
    → Indexes u.by_name u.nodes
    → Gives (Places node u) w (upsert_node node u w)
unfolding upsert_node skip_node
upsert_node-Places node u w h = elim (Bool-cases (is_empty node.name)) [
  | inl e ↦ rw e (
    skip_node u,
    w,
    refl,
    refl,
    (
      h,
      (λ unique. unique),
      omega arith,
      (λ named. elim (named ((is_empty_iff node.name).0 e)) [ ]),
      (λ m ne stored. stored),
    ),
  )
  | inr e ↦ rw e (place-Places node u w (lookup node.name u.by_name) h (h node.name))
]
