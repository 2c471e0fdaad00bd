-- ===== src/Store/Active/Order.antt =====
-- What LoadActiveProxyNodes of client/internal/store/store.go returns.
use safelink_ssh.Base.{
  ℕ, ◌+◌, ◌*◌, ◌≤◌, ◌<◌, ◌≡◌, ◌↔◌, refl, inl, inr, true, List, [], ◌∷◌, if◌then◌else◌, ◌==◌, arith,
  All, Bool-cases,
}
use safelink_ssh.Proxy.Node.{ProxyNode}
use safelink_ssh.Store.Active.{
  proxy_node_protocol_rank, proxy_node_variant_rank, goes_before, insert_node, sort_nodes,
}

-- The two ranks in one number.
unfoldable pub rank : ProxyNode → ℕ
rank n = proxy_node_protocol_rank n.protocol * 5 + proxy_node_variant_rank n

variant_lt_five : (n : ProxyNode) → proxy_node_variant_rank n < 5
unfolding proxy_node_variant_rank
variant_lt_five n = ground arith

goes_before_iff : (a b : ProxyNode) → (goes_before a b ≡ true) ↔ (rank a < rank b)
unfolding goes_before rank
goes_before_iff a b = ground (arith, variant_lt_five a, variant_lt_five b)

-- Every node comes before the ones of a higher rank.
unfoldable pub IsSorted : List ProxyNode → Type 0
IsSorted [] = Unit
IsSorted (n ∷ nodes) = All (λ m. rank n ≤ rank m) nodes × IsSorted nodes

-- The nodes of one rank, in their order.
unfoldable pub with_rank : ℕ → List ProxyNode → List ProxyNode
with_rank r [] = []
with_rank r (n ∷ nodes) = let rest = with_rank r nodes in if rank n == r then n ∷ rest else rest

pub All-mono :
    (P Q : ProxyNode → Type 0)
    → ((n : ProxyNode) → P n → Q n)
    → (ns : List ProxyNode) → All P ns
    → All Q ns
All-mono P Q f [] h = tt
All-mono P Q f (n ∷ ns) h = (f n h.0, All-mono P Q f ns h.1)

pub insert-All :
    (P : ProxyNode → Type 0) (n : ProxyNode) (ns : List ProxyNode)
    → P n
    → All P ns
    → All P (insert_node n ns)
unfolding insert_node
insert-All P n [] p h = (p, tt)
insert-All P n (m ∷ ns) p h = elim (Bool-cases (goes_before m n)) [
  | inl e ↦ rw e (h.0, insert-All P n ns p h.1)
  | inr e ↦ rw e (p, h)
]

pub sort-All : (P : ProxyNode → Type 0) (ns : List ProxyNode) → All P ns → All P (sort_nodes ns)
unfolding sort_nodes
sort-All P [] h = tt
sort-All P (n ∷ ns) h = insert-All P n (sort_nodes ns) h.0 (sort-All P ns h.1)

insert-IsSorted : (n : ProxyNode) (ns : List ProxyNode) → IsSorted ns → IsSorted (insert_node n ns)
unfolding insert_node IsSorted
insert-IsSorted n [] h = (tt, tt)
insert-IsSorted n (m ∷ ns) h = elim (Bool-cases (goes_before m n)) [
  | inl e ↦
      let less = (goes_before_iff m n).0 e in
      rw e (insert-All (λ k. rank m ≤ rank k) n ns (omega arith) h.0, insert-IsSorted n ns h.1)
  | inr e ↦
      let more : rank n ≤ rank m = ground (arith, goes_before_iff m n) in
      rw e (
        (more, All-mono (λ k. rank m ≤ rank k) (λ k. rank n ≤ rank k) (λ k l. omega arith) ns h.0),
        h,
      )
]

pub sort-IsSorted : (ns : List ProxyNode) → IsSorted (sort_nodes ns)
unfolding sort_nodes IsSorted
sort-IsSorted [] = tt
sort-IsSorted (n ∷ ns) = insert-IsSorted n (sort_nodes ns) (sort-IsSorted ns)

with_rank-insert :
    (r : ℕ) (n : ProxyNode) (ns : List ProxyNode)
    → with_rank r (insert_node n ns) ≡ with_rank r (n ∷ ns)
unfolding insert_node with_rank
with_rank-insert r n [] = refl
with_rank-insert r n (m ∷ ns) = ground (arith, with_rank-insert r n ns, goes_before_iff m n)

pub with_rank-sort : (r : ℕ) (ns : List ProxyNode) → with_rank r (sort_nodes ns) ≡ with_rank r ns
unfolding sort_nodes with_rank
with_rank-sort r [] = refl
with_rank-sort r (n ∷ ns) =
    ground (arith, with_rank-insert r n (sort_nodes ns), with_rank-sort r ns)
