-- ===== src/Store/Subscriptions/Normalize.antt =====
-- NormalizeEnabledSubscriptions of client/internal/store/store.go.
use safelink_ssh.Base.{◌≡◌, refl, Bool, true, false, ◌||◌, List, [], ◌∷◌, arith, All, any}
use safelink_ssh.Text.{Text, text_eq}
use safelink_ssh.Text.Laws.{text_eq_iff}
use safelink_ssh.Store.{SubscriptionSource}
use safelink_ssh.Store.Subscriptions.{subscription_kind, keep_step, keep_first}
use safelink_ssh.Store.Subscriptions.Single.{Disjoint, IsSingle}

-- A source whose kind was not kept before.
abbrev Fresh : List Text → SubscriptionSource → Type 0
Fresh kept s = s.enabled ≡ true → any (text_eq (subscription_kind s)) kept ≡ false

module _ (P : List SubscriptionSource × Bool → Type 0) (s : SubscriptionSource)
    (same more : List SubscriptionSource × Bool) where
  -- The three ways through a round.
  keep_step_cases :
      (on seen : Bool)
      → (on ≡ false → P (s ∷ same.0, same.1))
      → (on ≡ true → seen ≡ true → P (record s { enabled = false } ∷ same.0, true))
      → (on ≡ true → seen ≡ false → P (s ∷ more.0, more.1))
      → P (keep_step on seen s same more)
  unfolding keep_step
  keep_step_cases false seen off again first = off refl
  keep_step_cases true true off again first = again refl refl
  keep_step_cases true false off again first = first refl refl

-- What is fresh for more kinds is fresh for fewer.
Fresh-tail :
    (kind : Text) (kept : List Text) (xs : List SubscriptionSource)
    → All (Fresh (kind ∷ kept)) xs
    → All (Fresh kept) xs
unfolding any
Fresh-tail kind kept [] h = tt
Fresh-tail kind kept (x ∷ xs) h = ((λ on. or_right _ _ (h.0 on)), Fresh-tail kind kept xs h.1)
  where
    or_right : (a b : Bool) → (a || b) ≡ false → b ≡ false
    or_right a b e = ground arith

-- The sources that the loop returns do not meet a kind that it was given.
keep_first-Fresh :
    (kept : List Text) (xs : List SubscriptionSource) → All (Fresh kept) (keep_first kept xs).0
unfolding keep_first
keep_first-Fresh kept [] = tt
keep_first-Fresh kept (s ∷ xs) =
    keep_step_cases (λ r. All (Fresh kept) r.0) s _ _ s.enabled _
      (λ off. ((λ on. cc), keep_first-Fresh kept xs))
      (λ on again. ((λ on'. cc), keep_first-Fresh kept xs))
      λ on first. (
        (λ on'. first),
        Fresh-tail (subscription_kind s) kept _ (keep_first-Fresh (subscription_kind s ∷ kept) xs),
      )

-- A source of a fresh kind is disjoint from one whose kind was kept.
Fresh-Disjoint :
    (s : SubscriptionSource) (kept : List Text) (xs : List SubscriptionSource)
    → All (Fresh (subscription_kind s ∷ kept)) xs
    → All (Disjoint s) xs
unfolding any
Fresh-Disjoint s kept [] h = tt
Fresh-Disjoint s kept (x ∷ xs) h = (
  λ on on' e. ground (arith, h.0 on', text_eq_iff (subscription_kind x) (subscription_kind s)),
  Fresh-Disjoint s kept xs h.1,
)

Disjoint-off :
    (s : SubscriptionSource) (xs : List SubscriptionSource)
    → s.enabled ≡ false
    → All (Disjoint s) xs
Disjoint-off s [] off = tt
Disjoint-off s (x ∷ xs) off = ((λ on on' e. cc), Disjoint-off s xs off)

pub keep_first-IsSingle :
    (kept : List Text) (xs : List SubscriptionSource) → IsSingle (keep_first kept xs).0
unfolding keep_first
keep_first-IsSingle kept [] = tt
keep_first-IsSingle kept (s ∷ xs) =
    keep_step_cases (λ r. IsSingle r.0) s _ _ s.enabled _
      (λ off. (Disjoint-off s _ off, keep_first-IsSingle kept xs))
      (λ on again.
        (Disjoint-off (record s { enabled = false }) _ refl, keep_first-IsSingle kept xs))
      λ on first. (
        Fresh-Disjoint s kept _ (keep_first-Fresh (subscription_kind s ∷ kept) xs),
        keep_first-IsSingle (subscription_kind s ∷ kept) xs,
      )

Fresh-cons :
    (s : SubscriptionSource) (kept : List Text) (xs : List SubscriptionSource)
    → s.enabled ≡ true
    → All (Disjoint s) xs
    → All (Fresh kept) xs
    → All (Fresh (subscription_kind s ∷ kept)) xs
unfolding any
Fresh-cons s kept [] on d f = tt
Fresh-cons s kept (x ∷ xs) on d f = (
  λ on'.
      ground (arith, d.0 on on', f.0 on', text_eq_iff (subscription_kind x) (subscription_kind s)),
  Fresh-cons s kept xs on d.1 f.1,
)

-- The loop reports a change only where two enabled sources had one kind: on a list with one source of
-- each kind it changes nothing.
pub keep_first-eq_self :
    (kept : List Text) (xs : List SubscriptionSource)
    → IsSingle xs
    → All (Fresh kept) xs
    → keep_first kept xs ≡ (xs, false)
unfolding keep_first
keep_first-eq_self kept [] h f = refl
keep_first-eq_self kept (s ∷ xs) h f =
    keep_step_cases (λ r. r ≡ (s ∷ xs, false)) s _ _ s.enabled _
      (λ off. rw (keep_first-eq_self kept xs h.1 f.1)) (λ on again. cc (f.0 on))
      λ on first.
        rw
          (keep_first-eq_self (subscription_kind s ∷ kept) xs h.1 (Fresh-cons s kept xs on h.0 f.1))
