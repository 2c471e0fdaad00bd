-- ===== src/Store/Nodes/Names.antt =====
-- UpsertProxyNodes of client/internal/store/store.go: the index by name, and names that stay apart.
use safelink_ssh.Base.{
  ℕ, ◌≡◌, ◌≢◌, inl, inr, sym, ◌∙◌, ap, subst, Option, none, some, List, [], ◌∷◌, ◌++◌, length, set,
  get_elem?, get-append, get-append_last, get-append_cases, get-set_same, get-set_other,
  get-set_cases, Bool-cases, ◌==◌, ==_iff, append-nil, append_assoc, length-append_one,
}
use safelink_ssh.Text.{Text, text_eq}
use safelink_ssh.Text.Laws.{text_eq_iff}
use safelink_ssh.Proxy.Node.{ProxyNode}
use safelink_ssh.Store.Nodes.{index_names}
use safelink_ssh.Text.Table.{lookup}

-- Where the index sends a name: to a node of the name, or nowhere if no node has it.
abbrev pub Points : List ProxyNode → Text → Option ℕ → Type 0
Points nodes name none = (i : ℕ) (n : ProxyNode) → get_elem? nodes i ≡ some n → n.name ≢ name
Points nodes name (some i) = (n : ProxyNode) × (get_elem? nodes i ≡ some n) × (n.name ≡ name)

abbrev pub Indexes : List (Text × ℕ) → List ProxyNode → Type 0
Indexes by_name nodes = (name : Text) → Points nodes name (lookup name by_name)

-- No two nodes have the same name.
abbrev pub HasUniqueNames : List ProxyNode → Type 0
HasUniqueNames nodes =
    (i j : ℕ) (a b : ProxyNode)
    → get_elem? nodes i ≡ some a
    → get_elem? nodes j ≡ some b
    → a.name ≡ b.name
    → i ≡ j

Points-append :
    (by_name : Option ℕ) (nodes : List ProxyNode) (n : ProxyNode) (name : Text)
    → n.name ≢ name
    → Points nodes name by_name
    → Points (nodes ++ n ∷ []) name by_name
Points-append none nodes n name ne h = λ i m e. elim (get-append_cases nodes n i m e) [
  | inl old ↦ h i m old
  | inr (last, same) ↦ λ named. ne (ap (λ (k : ProxyNode). k.name) same ∙ named)
]
Points-append (some j) nodes n name ne (m, e, named) = (m, get-append nodes (n ∷ []) j m e, named)

pub append-Indexes :
    (by_name : List (Text × ℕ)) (nodes : List ProxyNode) (n : ProxyNode)
    → Indexes by_name nodes
    → Indexes ((n.name, length nodes) ∷ by_name) (nodes ++ n ∷ [])
unfolding lookup
append-Indexes by_name nodes n h name = elim (Bool-cases (text_eq n.name name)) [
  | inl e ↦ rw e (n, get-append_last nodes n, (text_eq_iff n.name name).0 e)
  | inr e ↦ rw e (
      Points-append (lookup name by_name) nodes n name
        (λ same. cc ((text_eq_iff n.name name).1 same)) (h name))
]

Points-set :
    (by_name : Option ℕ) (nodes : List ProxyNode) (idx : ℕ) (n old : ProxyNode) (name : Text)
    → get_elem? nodes idx ≡ some old
    → old.name ≡ n.name
    → Points nodes name by_name
    → Points (set nodes idx n) name by_name
Points-set none nodes idx n old name at same h = λ i m e. elim (get-set_cases nodes idx i n m e) [
  | inl (here, is) ↦ λ named. h idx old at (same ∙ ap (λ (k : ProxyNode). k.name) is ∙ named)
  | inr (ne, there) ↦ h i m there
]
Points-set (some j) nodes idx n old name at same (m, e, named) = elim (Bool-cases (j == idx)) [
  | inl here ↦
      let at' = subst (λ k. get_elem? nodes k ≡ some m) ((==_iff j idx).0 here) e in
      let is : old ≡ m = cc in
      (
        n,
        subst (λ k. get_elem? (set nodes idx n) k ≡ some n) (sym ((==_iff j idx).0 here))
            (get-set_same nodes idx n old at),
        sym same ∙ ap (λ (k : ProxyNode). k.name) is ∙ named,
      )
  | inr there ↦ (m, get-set_other nodes idx j n (λ e'. cc ((==_iff j idx).1 e')) ∙ e, named)
]

pub set-Indexes :
    (by_name : List (Text × ℕ)) (nodes : List ProxyNode) (idx : ℕ) (n old : ProxyNode)
    → get_elem? nodes idx ≡ some old
    → old.name ≡ n.name
    → Indexes by_name nodes
    → Indexes by_name (set nodes idx n)
set-Indexes by_name nodes idx n old at same h name =
    Points-set (lookup name by_name) nodes idx n old name at same (h name)

-- The index that the first loop builds.
index_names-Indexes :
    (seen nodes : List ProxyNode) (by_name : List (Text × ℕ))
    → Indexes by_name seen
    → Indexes (index_names (length seen) nodes by_name) (seen ++ nodes)
unfolding index_names
index_names-Indexes seen [] by_name h = subst (Indexes by_name) (sym (append-nil seen)) h
index_names-Indexes seen (n ∷ nodes) by_name h =
    let rest =
      index_names-Indexes (seen ++ n ∷ []) nodes ((n.name, length seen) ∷ by_name)
        (append-Indexes by_name seen n h) in
    subst (λ k. Indexes (index_names k nodes ((n.name, length seen) ∷ by_name)) (seen ++ n ∷ nodes))
      (length-append_one seen n)
      (subst
        (Indexes (index_names (length (seen ++ n ∷ [])) nodes ((n.name, length seen) ∷ by_name)))
        (append_assoc seen (n ∷ []) nodes) rest)

pub start-Indexes : (nodes : List ProxyNode) → Indexes (index_names 0 nodes []) nodes
unfolding lookup
start-Indexes nodes = index_names-Indexes [] nodes [] (λ name i n e. cc)

pub append-HasUniqueNames :
    (nodes : List ProxyNode) (n : ProxyNode)
    → Points nodes n.name none
    → HasUniqueNames nodes
    → HasUniqueNames (nodes ++ n ∷ [])
append-HasUniqueNames nodes n new h i j a b at at' same = elim (get-append_cases nodes n i a at) [
  | inl old ↦ elim (get-append_cases nodes n j b at') [
    | inl old' ↦ h i j a b old old' same
    | inr (last', is') ↦ elim (new i a old (same ∙ ap (λ (k : ProxyNode). k.name) (sym is'))) [ ]
  ]
  | inr (last, is) ↦ elim (get-append_cases nodes n j b at') [
    | inl old' ↦ elim (new j b old' (sym same ∙ ap (λ (k : ProxyNode). k.name) (sym is))) [ ]
    | inr (last', is') ↦ last ∙ sym last'
  ]
]

pub set-HasUniqueNames :
    (nodes : List ProxyNode) (idx : ℕ) (n old : ProxyNode)
    → get_elem? nodes idx ≡ some old
    → old.name ≡ n.name
    → HasUniqueNames nodes
    → HasUniqueNames (set nodes idx n)
set-HasUniqueNames nodes idx n old at0 keeps h i j a b at at' same =
    elim (get-set_cases nodes idx i n a at) [
      | inl (here, is) ↦ elim (get-set_cases nodes idx j n b at') [
        | inl (here', is') ↦ here ∙ sym here'
        | inr (ne', there') ↦
            here ∙ h idx j old b at0 there' (keeps ∙ ap (λ (k : ProxyNode). k.name) is ∙ same)
      ]
      | inr (ne, there) ↦ elim (get-set_cases nodes idx j n b at') [
        | inl (here', is') ↦
            h i idx a old there at0 (same ∙ sym (keeps ∙ ap (λ (k : ProxyNode). k.name) is'))
            ∙ sym here'
        | inr (ne', there') ↦ h i j a b there there' same
      ]
    ]
