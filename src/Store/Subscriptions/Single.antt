-- ===== src/Store/Subscriptions/Single.antt =====
-- At most one enabled source of each kind: what the list functions behind AddSubscription,
-- SetSubscriptionEnabled, NormalizeEnabledSubscriptions and DeleteSubscription do to it.
use safelink_ssh.Base.{
  ◌≡◌, refl, sym, ◌∙◌, ◌≢◌, ◌⊎◌, inl, inr, Bool, true, false, some, List, [], ◌∷◌, ◌++◌, arith, All,
  any, Bool-cases, Option-cases, subst,
}
use mathlib.Core.List.{append-nil, map-append}
use safelink_ssh.Text.{Text}
use safelink_ssh.Text.Laws.{text_eq_iff}
use safelink_ssh.Store.{SubscriptionSource}
use safelink_ssh.Store.Subscriptions.{
  subscription_kind, kind_is_taken, admit, split_at_id, disable_if_kind, disable_kind, switch,
}

-- Two sources that do not both feed nodes of one kind.
abbrev pub Disjoint : SubscriptionSource → SubscriptionSource → Type 0
Disjoint s t = s.enabled ≡ true → t.enabled ≡ true → subscription_kind s ≢ subscription_kind t

abbrev pub IsSingle : List SubscriptionSource → Type 0
IsSingle [] = Unit
IsSingle (s ∷ sources) = All (Disjoint s) sources × IsSingle sources

IsSingle-insert :
    (xs ys : List SubscriptionSource) (t : SubscriptionSource)
    → IsSingle (xs ++ ys)
    → All (λ s. Disjoint s t) (xs ++ ys)
    → IsSingle (xs ++ t ∷ ys)
IsSingle-insert [] ys t h d = (flip ys d, h)
  where
    flip : (ys : List SubscriptionSource) → All (λ s. Disjoint s t) ys → All (Disjoint t) ys
    flip [] d = tt
    flip (y ∷ ys) d = ((λ on on' e. d.0 on' on (sym e)), flip ys d.1)
IsSingle-insert (x ∷ xs) ys t h d = (amid xs h.0, IsSingle-insert xs ys t h.1 d.1)
  where
    amid :
        (xs : List SubscriptionSource)
        → All (Disjoint x) (xs ++ ys)
        → All (Disjoint x) (xs ++ t ∷ ys)
    amid [] k = (d.0, k)
    amid (z ∷ zs) k = (k.0, amid zs k.1)

All-remove {ℓ} :
    (P : SubscriptionSource → Type ℓ) (xs ys : List SubscriptionSource) (t : SubscriptionSource)
    → All P (xs ++ t ∷ ys)
    → All P (xs ++ ys)
All-remove P [] ys t h = h.1
All-remove P (x ∷ xs) ys t h = (h.0, All-remove P xs ys t h.1)

IsSingle-remove :
    (xs ys : List SubscriptionSource) (t : SubscriptionSource)
    → IsSingle (xs ++ t ∷ ys)
    → IsSingle (xs ++ ys)
IsSingle-remove [] ys t h = h.1
IsSingle-remove (x ∷ xs) ys t h = (All-remove (Disjoint x) xs ys t h.0, IsSingle-remove xs ys t h.1)

-- A source that was at most switched off.
abbrev pub Weaker : SubscriptionSource → SubscriptionSource → Type 0
Weaker s' s = (s'.enabled ≡ true → s.enabled ≡ true) × (subscription_kind s' ≡ subscription_kind s)

Weaker-refl : (s : SubscriptionSource) → Weaker s s
Weaker-refl s = ((λ on. on), refl)

pub Disjoint-mono :
    (s' t' s t : SubscriptionSource) → Weaker s' s → Weaker t' t → Disjoint s t → Disjoint s' t'
Disjoint-mono s' t' s t ws wt d on on' e = d (ws.0 on) (wt.0 on') (sym ws.1 ∙ e ∙ wt.1)

-- AddSubscription.
kind_is_taken-Disjoint :
    (xs : List SubscriptionSource) (kind : Text)
    → kind_is_taken kind xs ≡ false
    → All (λ (s : SubscriptionSource). s.enabled ≡ true → subscription_kind s ≢ kind) xs
unfolding kind_is_taken any
kind_is_taken-Disjoint [] kind h = tt
kind_is_taken-Disjoint (s ∷ xs) kind h = (
  λ on. ground (arith, text_eq_iff (subscription_kind s) kind),
  kind_is_taken-Disjoint xs kind (ground arith),
)

subscription_kind-admit :
    (id : Text) (src : SubscriptionSource) (xs : List SubscriptionSource)
    → subscription_kind (admit id src xs) ≡ subscription_kind src
unfolding subscription_kind admit
subscription_kind-admit id src xs = ground arith

admit-enabled :
    (id : Text) (src : SubscriptionSource) (xs : List SubscriptionSource)
    → kind_is_taken (subscription_kind src) xs ≡ true
    → (admit id src xs).enabled ≢ true
unfolding admit subscription_kind
admit-enabled id src xs e = ground arith

pub admit-IsSingle :
    (id : Text) (src : SubscriptionSource) (xs : List SubscriptionSource)
    → IsSingle xs
    → IsSingle (xs ++ admit id src xs ∷ [])
admit-IsSingle id src xs h =
    IsSingle-insert xs [] (admit id src xs) (subst IsSingle (sym (append-nil xs)) h)
      (subst (All (λ s. Disjoint s (admit id src xs))) (sym (append-nil xs)) (all (Bool-cases _)))
  where
    weaken :
        (ys : List SubscriptionSource)
        → All
            (λ (s : SubscriptionSource).
              s.enabled ≡ true → subscription_kind s ≢ subscription_kind src)
            ys
        → All (λ s. Disjoint s (admit id src xs)) ys
    weaken [] k = tt
    weaken (y ∷ ys) k =
        ((λ on on' e. k.0 on (e ∙ subscription_kind-admit id src xs)), weaken ys k.1)

    off :
        (ys : List SubscriptionSource)
        → kind_is_taken (subscription_kind src) xs ≡ true
        → All (λ s. Disjoint s (admit id src xs)) ys
    off [] e = tt
    off (y ∷ ys) e = ((λ on on' _. admit-enabled id src xs e on'), off ys e)

    all :
        (kind_is_taken (subscription_kind src) xs ≡ true)
          ⊎ (kind_is_taken (subscription_kind src) xs ≡ false)
        → All (λ s. Disjoint s (admit id src xs)) xs
    all (inl e) = off xs e
    all (inr e) = weaken xs (kind_is_taken-Disjoint xs (subscription_kind src) e)

-- SetSubscriptionEnabled.
pub split_at_id-append :
    (id : Text) (xs before behind : List SubscriptionSource) (t : SubscriptionSource)
    → split_at_id id xs ≡ some (before, t, behind)
    → (xs ≡ before ++ t ∷ behind) × (t.id ≡ id)
unfolding split_at_id
split_at_id-append id [] before behind t h = cc
split_at_id-append id (s ∷ xs) before behind t h = elim (Option-cases (split_at_id id xs)) [
  | inl e ↦ ground (arith, text_eq_iff s.id id)
  | inr ((b, u, a), e) ↦ ground (arith, text_eq_iff s.id id, split_at_id-append id xs b a u e)
]

disable_if_kind-Weaker : (kind : Text) (s : SubscriptionSource) → Weaker (disable_if_kind kind s) s
unfolding disable_if_kind subscription_kind
disable_if_kind-Weaker kind s = (ground arith, ground arith)

disable_kind-Disjoint :
    (s' s : SubscriptionSource) (kind : Text) (xs : List SubscriptionSource)
    → Weaker s' s
    → All (Disjoint s) xs
    → All (Disjoint s') (disable_kind kind xs)
unfolding disable_kind
disable_kind-Disjoint s' s kind [] w h = tt
disable_kind-Disjoint s' s kind (x ∷ xs) w h = (
  Disjoint-mono s' _ s x w (disable_if_kind-Weaker kind x) h.0,
  disable_kind-Disjoint s' s kind xs w h.1,
)

disable_kind-IsSingle :
    (kind : Text) (xs : List SubscriptionSource) → IsSingle xs → IsSingle (disable_kind kind xs)
unfolding disable_kind
disable_kind-IsSingle kind [] h = tt
disable_kind-IsSingle kind (x ∷ xs) h = (
  disable_kind-Disjoint (disable_if_kind kind x) x kind xs (disable_if_kind-Weaker kind x) h.0,
  disable_kind-IsSingle kind xs h.1,
)

disable_if_kind-off :
    (kind : Text) (s : SubscriptionSource)
    → (disable_if_kind kind s).enabled ≡ true
    → subscription_kind (disable_if_kind kind s) ≢ kind
unfolding disable_if_kind
disable_if_kind-off kind s on = ground (arith, text_eq_iff (subscription_kind s) kind)

-- After the loop no source of the kind is enabled.
disable_kind-off :
    (kind : Text) (t : SubscriptionSource) (xs : List SubscriptionSource)
    → subscription_kind t ≡ kind
    → All (λ s. Disjoint s t) (disable_kind kind xs)
unfolding disable_kind
disable_kind-off kind t [] e = tt
disable_kind-off kind t (x ∷ xs) e =
    ((λ on _ same. disable_if_kind-off kind x on (same ∙ e)), disable_kind-off kind t xs e)

subscription_kind-enabled :
    (t : SubscriptionSource) (on : Bool)
    → subscription_kind (record t { enabled = on }) ≡ subscription_kind t
unfolding subscription_kind
subscription_kind-enabled t on = refl

disable_kind-append :
    (kind : Text) (xs ys : List SubscriptionSource)
    → disable_kind kind (xs ++ ys) ≡ disable_kind kind xs ++ disable_kind kind ys
unfolding disable_kind
disable_kind-append kind xs ys = map-append (disable_if_kind kind) xs ys

Disjoint-disabled :
    (t : SubscriptionSource) (xs : List SubscriptionSource)
    → All (λ s. Disjoint s (record t { enabled = false })) xs
Disjoint-disabled t [] = tt
Disjoint-disabled t (x ∷ xs) = ((λ on on' e. cc), Disjoint-disabled t xs)

pub switch-IsSingle :
    (on : Bool) (before behind : List SubscriptionSource) (t : SubscriptionSource)
    → IsSingle (before ++ t ∷ behind)
    → IsSingle (switch on (before, t, behind)).0
unfolding switch
switch-IsSingle true before behind t h =
    let kind = subscription_kind t in
    let join = disable_kind-append kind before behind in
    let t' : SubscriptionSource = record t { enabled = true } in
    IsSingle-insert (disable_kind kind before) (disable_kind kind behind) t'
      (subst IsSingle join
        (disable_kind-IsSingle kind (before ++ behind) (IsSingle-remove before behind t h)))
      (subst (All (λ s. Disjoint s t')) join
        (disable_kind-off kind t' (before ++ behind) (subscription_kind-enabled t true)))
switch-IsSingle false before behind t h =
    IsSingle-insert before behind (record t { enabled = false }) (IsSingle-remove before behind t h)
      (Disjoint-disabled t (before ++ behind))
