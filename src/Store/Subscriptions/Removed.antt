-- ===== src/Store/Subscriptions/Removed.antt =====
-- What the loops of DeleteSubscription and DeleteProxyNodesBySubscriptionID of
-- client/internal/store/store.go leave, said without them.
use safelink_ssh.Base.{
  ◌≡◌, refl, ap, subst, inl, inr, Bool-cases, Option, none, some, List, [], ◌∷◌, ◌++◌, All,
}
use safelink_ssh.Text.{Text, text_eq}
use safelink_ssh.Text.Laws.{text_eq_iff, eq_of_text_eq}
use safelink_ssh.Proxy.Node.{ProxyNode}
use safelink_ssh.Store.{SubscriptionSource}
use safelink_ssh.Store.Subscriptions.{without_source, without_subscription}
use safelink_ssh.Store.Subscriptions.Single.{Disjoint, IsSingle}

-- The elements that are not to go, all of them, in order.
pub data Keeps {A : Type 0} (Goes : A → Type 0) : List A → List A → Type 0 where
  nothing : Keeps Goes [] []
  goes : {x : A} {xs ys : List A} → Goes x → Keeps Goes xs ys → Keeps Goes (x ∷ xs) ys
  stays : {x : A} {xs ys : List A} → (Goes x → ⊥) → Keeps Goes xs ys → Keeps Goes (x ∷ xs) (x ∷ ys)

abbrev pub HasId : Text → SubscriptionSource → Type 0
HasId id s = s.id ≡ id

abbrev pub IsNodeOf : Text → ProxyNode → Type 0
IsNodeOf id n = n.subscription_id ≡ id

-- The last of the sources with the identifier.
abbrev pub IsLastWith : Text → List SubscriptionSource → SubscriptionSource → Type 0
IsLastWith id sources s =
    (before : List SubscriptionSource) × (behind : List SubscriptionSource) × (sources
      ≡ before ++ s ∷ behind)
    × HasId id s
    × All (λ t. HasId id t → ⊥) behind

pub without_source-Keeps :
    (id : Text) (xs : List SubscriptionSource) → Keeps (HasId id) xs (without_source id xs).0
unfolding without_source
without_source-Keeps id [] = nothing
without_source-Keeps id (x ∷ xs) = elim (Bool-cases (text_eq x.id id)) [
  | inl e ↦ rw e (goes (eq_of_text_eq x.id id e) (without_source-Keeps id xs))
  | inr e ↦ rw e (stays (λ same. cc (e, (text_eq_iff x.id id).1 same)) (without_source-Keeps id xs))
]

pub without_subscription-Keeps :
    (id : Text) (xs : List ProxyNode) → Keeps (IsNodeOf id) xs (without_subscription id xs)
unfolding without_subscription
without_subscription-Keeps id [] = nothing
without_subscription-Keeps id (x ∷ xs) = elim (Bool-cases (text_eq x.subscription_id id)) [
  | inl e ↦ rw e (goes (eq_of_text_eq x.subscription_id id e) (without_subscription-Keeps id xs))
  | inr e ↦ rw e (
      stays (λ same. cc (e, (text_eq_iff x.subscription_id id).1 same))
        (without_subscription-Keeps id xs))
]

-- Nothing was removed, or the last one.
LastOf : Text → List SubscriptionSource → Option SubscriptionSource → Type 0
LastOf id xs none = All (λ t. HasId id t → ⊥) xs
LastOf id xs (some s) = IsLastWith id xs s

without_source-LastOf :
    (id : Text) (xs : List SubscriptionSource) → LastOf id xs (without_source id xs).1
unfolding without_source LastOf
without_source-LastOf id [] = tt
without_source-LastOf id (x ∷ xs) = elim (Bool-cases (text_eq x.id id)) [
  | inl e ↦
      rw e (hit (without_source id xs).1 (eq_of_text_eq x.id id e) (without_source-LastOf id xs))
  | inr e ↦ rw e (
      miss (without_source id xs).1 (λ same. cc (e, (text_eq_iff x.id id).1 same))
        (without_source-LastOf id xs))
]
  where
    later : (s : SubscriptionSource) → IsLastWith id xs s → IsLastWith id (x ∷ xs) s
    later s (before, behind, e, same, other) = (x ∷ before, behind, ap (λ l. x ∷ l) e, same, other)

    hit :
        (o : Option SubscriptionSource)
        → HasId id x
        → LastOf id xs o
        → LastOf id (x ∷ xs) (elim o [ none ↦ some x | some r ↦ some r ])
    hit none same h = ([], xs, refl, same, h)
    hit (some s) same h = later s h

    miss :
        (o : Option SubscriptionSource) → (HasId id x → ⊥) → LastOf id xs o → LastOf id (x ∷ xs) o
    miss none other h = (other, h)
    miss (some s) other h = later s h

pub without_source-IsLastWith :
    (id : Text) (xs : List SubscriptionSource) (s : SubscriptionSource)
    → (without_source id xs).1 ≡ some s
    → IsLastWith id xs s
unfolding LastOf
without_source-IsLastWith id xs s e = subst (LastOf id xs) e (without_source-LastOf id xs)

Keeps-All :
    {Goes : SubscriptionSource → Type 0} (P : SubscriptionSource → Type 0)
    {xs ys : List SubscriptionSource}
    → Keeps Goes xs ys
    → All P xs
    → All P ys
Keeps-All P nothing h = tt
Keeps-All P (goes g k) h = Keeps-All P k h.1
Keeps-All P (stays n k) h = (h.0, Keeps-All P k h.1)

-- Sources that are left out never break the rule.
pub Keeps-IsSingle :
    {Goes : SubscriptionSource → Type 0} {xs ys : List SubscriptionSource}
    → Keeps Goes xs ys
    → IsSingle xs
    → IsSingle ys
Keeps-IsSingle nothing h = tt
Keeps-IsSingle (goes g k) h = Keeps-IsSingle k h.1
Keeps-IsSingle (stays {x} n k) h = (Keeps-All (Disjoint x) k h.0, Keeps-IsSingle k h.1)
