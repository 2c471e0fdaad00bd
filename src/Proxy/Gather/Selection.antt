-- ===== src/Proxy/Gather/Selection.antt =====
-- Which nodes the loops of parseClashYAML and parseSingBoxJSON keep, described without the loop.
use safelink_ssh.Base.{
  ◌≡◌, ◌≢◌, ◌↔◌, ◌⊎◌, refl, sym, ap, subst, ◌∙◌, false, Option, none, some, Result, ok, err, List,
  [], ◌∷◌, Bool-cases, Option-cases, inl, inr,
}
use safelink_ssh.Proxy.Node.{ProxyNode, is_informational_node_name}
use safelink_ssh.Proxy.Valid.{NodeError, validate_node, IsUsableNode, validate_node_iff}
use safelink_ssh.Proxy.Gather.{
  Gathered, gather, gather_step, gather_valid, some_nodes, first_or_unsupported, parse_entries,
  ParseError,
}

-- A node that no check leaves out.
abbrev pub IsKept : ProxyNode → Type 0
IsKept n = (is_informational_node_name n.name ≡ false) × IsUsableNode n

-- In order, the nodes of the entries that convert to a node that is kept.
pub data Selects {A : Type 0} (convert : A → Option ProxyNode)
    : List A → List ProxyNode → Type 0 where
  nothing : Selects convert [] []
  kept :
      {x : A} {xs : List A} {n : ProxyNode} {ns : List ProxyNode}
      → convert x ≡ some n
      → IsKept n
      → Selects convert xs ns
      → Selects convert (x ∷ xs) (n ∷ ns)
  left_out :
      {x : A} {xs : List A} {ns : List ProxyNode}
      → ((n : ProxyNode) → convert x ≡ some n → IsKept n → ⊥)
      → Selects convert xs ns
      → Selects convert (x ∷ xs) ns

-- What is kept passes both tests of the loop.
gather_valid-valid :
    (n : ProxyNode) (rest : Gathered)
    → validate_node n ≡ ok tt
    → (gather_valid n (validate_node n) rest).nodes ≡ n ∷ rest.nodes
unfolding gather_valid
gather_valid-valid n rest e = rw e refl

gather_valid-invalid :
    (n : ProxyNode) (r : Result NodeError (Unit {0})) (rest : Gathered)
    → (r ≡ ok tt → ⊥)
    → (gather_valid n r rest).nodes ≡ rest.nodes
unfolding gather_valid
gather_valid-invalid n (ok u) rest never = absurd (never refl)
gather_valid-invalid n (err e) rest never = refl

gather_step-kept :
    (n : ProxyNode) (rest : Gathered)
    → IsKept n
    → (gather_step (some n) rest).nodes ≡ n ∷ rest.nodes
unfolding gather_step
gather_step-kept n rest (name, usable) =
    rw name (gather_valid-valid n rest ((validate_node_iff n).1 usable))

gather_step-left_out :
    (o : Option ProxyNode) (rest : Gathered)
    → ((n : ProxyNode) → o ≡ some n → IsKept n → ⊥)
    → (gather_step o rest).nodes ≡ rest.nodes
unfolding gather_step
gather_step-left_out none rest never = refl
gather_step-left_out (some n) rest never = elim (Bool-cases (is_informational_node_name n.name)) [
  | inl e ↦ rw e refl
  | inr e ↦ rw e (
      gather_valid-invalid n (validate_node n) rest
        (λ v. never n refl (e, (validate_node_iff n).0 v)))
]

pub Selects-gather :
    {A : Type 0} {convert : A → Option ProxyNode} {xs : List A} {ns : List ProxyNode}
    → Selects convert xs ns
    → (gather convert xs).nodes ≡ ns
unfolding gather
Selects-gather {convert = convert} nothing = refl
Selects-gather {convert = convert} (kept {x} {xs} {n} {ns} e k s) =
    rw (e, gather_step-kept n (gather convert xs) k) (ap (λ ms. n ∷ ms) (Selects-gather s))
Selects-gather {convert = convert} (left_out {x} {xs} {ns} never s) =
    gather_step-left_out _ _ never ∙ Selects-gather s

IsKept-cases : (n : ProxyNode) → IsKept n ⊎ (IsKept n → ⊥)
IsKept-cases n = elim (Bool-cases (is_informational_node_name n.name)) [
  | inl e ↦ inr (λ k. cc (e, k.0))
  | inr e ↦ usable_or_not (validate_node n) refl e
]
  where
    usable_or_not :
        (r : Result NodeError (Unit {0}))
        → validate_node n ≡ r
        → is_informational_node_name n.name ≡ false
        → IsKept n ⊎ (IsKept n → ⊥)
    usable_or_not (ok u) e name = inl (name, (validate_node_iff n).0 e)
    usable_or_not (err x) e name = inr (λ k. cc (e, (validate_node_iff n).1 k.1))

same_some : {m n : ProxyNode} → some m ≡ some n → m ≡ n
same_some e = cc

gather_step-Selects :
    {A : Type 0} {convert : A → Option ProxyNode} {x : A} {xs : List A} (rest : Gathered)
    (o : Option ProxyNode)
    → convert x ≡ o
    → Selects convert xs rest.nodes
    → Selects convert (x ∷ xs) (gather_step o rest).nodes
gather_step-Selects {convert = convert} {x} {xs} rest none e s =
    subst (Selects convert (x ∷ xs)) (sym (gather_step-left_out none rest (λ n h k. cc)))
      (left_out (λ n h k. cc (h, e)) s)
gather_step-Selects {convert = convert} {x} {xs} rest (some n) e s = elim (IsKept-cases n) [
  | inl k ↦ subst (Selects convert (x ∷ xs)) (sym (gather_step-kept n rest k)) (kept e k s)
  | inr never ↦
      subst (Selects convert (x ∷ xs))
        (sym (
          gather_step-left_out (some n) rest (λ m h k. never (subst IsKept (sym (same_some h)) k))))
        (left_out (λ m h k. never (subst IsKept (same_some (sym h ∙ e)) k)) s)
]

gather-Selects :
    {A : Type 0} (convert : A → Option ProxyNode) (xs : List A)
    → Selects convert xs (gather convert xs).nodes
unfolding gather
gather-Selects convert [] = nothing
gather-Selects convert (x ∷ xs) =
    gather_step-Selects (gather convert xs) (convert x) refl (gather-Selects convert xs)

pub some_nodes_iff :
    (ms ns : List ProxyNode) (e : ParseError) → (some_nodes ms e ≡ ok ns) ↔ ((ms ≡ ns) × (ns ≢ []))
unfolding some_nodes
some_nodes_iff [] ns e = (λ h. cc, λ (h, ne). absurd (ne (sym h)))
some_nodes_iff (m ∷ ms) ns e = (λ h. (same_ok h, λ h'. cc (same_ok h, h')), λ (h, ne). ap ok h)
  where
    same_ok :
        {ks ls : List ProxyNode}
        → ◌≡◌ {A = Result ParseError (List ProxyNode)} (ok ks) (ok ls)
        → ks ≡ ls
    same_ok h = cc

some_entries_iff :
    {A : Type 0} (convert : A → Option ProxyNode) (xs : List A) (ns : List ProxyNode)
    → (parse_entries convert (some xs) ≡ ok ns) ↔ (Selects convert xs ns × (ns ≢ []))
unfolding parse_entries gather
some_entries_iff convert [] ns = (λ h. cc, λ (s, ne). absurd (ne (sym (Selects-gather s))))
some_entries_iff convert (x ∷ xs) ns =
    let gathered =
      some_nodes_iff (gather convert (x ∷ xs)).nodes ns
        (first_or_unsupported (gather convert (x ∷ xs)).first_error) in
    (
      λ h.
          let (same, ne) = gathered.0 h in
          (subst (Selects convert (x ∷ xs)) same (gather-Selects convert (x ∷ xs)), ne),
      λ (s, ne). gathered.1 (Selects-gather s, ne),
    )

none_entries :
    {A : Type 0} (convert : A → Option ProxyNode) (ns : List ProxyNode)
    → parse_entries convert none ≡ ok ns
    → ⊥
unfolding parse_entries
none_entries convert ns h = cc

-- The parser of a list of entries succeeds exactly when the decoder does and an entry is kept, and
-- then it returns the nodes of all the entries that are kept, in order.
pub parse_entries_iff :
    {A : Type 0} (convert : A → Option ProxyNode) (document : Option (List A))
    (nodes : List ProxyNode)
    → (parse_entries convert document ≡ ok nodes) ↔ (
        (entries : List A) × (document ≡ some entries)
        × Selects convert entries nodes
        × (nodes ≢ []))
parse_entries_iff convert document nodes = (
  λ h. elim (Option-cases document) [
    | inl e ↦
        absurd (none_entries convert nodes (subst (λ d. parse_entries convert d ≡ ok nodes) e h))
    | inr (xs, e) ↦
        let (s, ne) =
          (some_entries_iff convert xs nodes).0
            (subst (λ d. parse_entries convert d ≡ ok nodes) e h) in
        (xs, e, s, ne)
  ],
  λ (xs, e, s, ne).
      subst (λ d. parse_entries convert d ≡ ok nodes) (sym e)
        ((some_entries_iff convert xs nodes).1 (s, ne)),
)
