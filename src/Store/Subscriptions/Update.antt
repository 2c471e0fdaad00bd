-- ===== src/Store/Subscriptions/Update.antt =====
-- UpdateSubscription of client/internal/store/store.go and the rule of one enabled source for each kind.
use safelink_ssh.Base.{
  ◌≡◌, sym, ap, ◌∙◌, ◌≢◌, inl, inr, true, some, [], ◌∷◌, subst, Result, ok, err, arith,
}
use safelink_ssh.Text.Laws.{is_empty_iff, text_eq_iff}
use safelink_ssh.Store.{SubscriptionSource, World, Files, holds, StoreError, subs_path}
use safelink_ssh.Store.Disk.Transact.{parsed, parsed_cases, Transacts}
use safelink_ssh.Store.Subscriptions.{
  update_subscription, subscription_kind, or_not_found, replace_source,
}
use safelink_ssh.Store.Subscriptions.Single.{IsSingle}
use safelink_ssh.Store.Subscriptions.Transactions.{Sources, updates, with_unit, update-Transacts}
use safelink_ssh.Store.Subscriptions.Commands.{Single, ok_first}

replace_source-second :
    (src s t : SubscriptionSource) (rest : Sources)
    → s.id ≢ src.id
    → t.id ≡ src.id
    → src.kind ≢ []
    → replace_source src (s ∷ t ∷ rest) ≡ some (s ∷ src ∷ rest)
unfolding replace_source
replace_source-second src s t rest other same kind =
    ground (arith, text_eq_iff s.id src.id, text_eq_iff t.id src.id, is_empty_iff src.kind)

updates-second :
    (src s t : SubscriptionSource) (rest a' : Sources) (u : Unit {0})
    → replace_source src (s ∷ t ∷ rest) ≡ some (s ∷ src ∷ rest)
    → updates src (s ∷ t ∷ rest) ≡ ok (a', u)
    → s ∷ src ∷ rest ≡ a'
unfolding or_not_found
updates-second src s t rest a' u found e =
    ok_first (s ∷ src ∷ rest) a' tt u (sym (ap (λ o. with_unit (or_not_found src.id o)) found) ∙ e)

-- UpdateSubscription does not keep the rule: a call that succeeds on a list whose first source is
-- enabled, with an enabled source of the same kind for the second one, leaves both enabled.
pub update_breaks_rule :
    (src s t : SubscriptionSource) (rest : Sources) (w : World)
    → w.files.subscriptions ≡ holds (s ∷ t ∷ rest)
    → (update_subscription src w).0 ≡ ok tt
    → s.id ≢ src.id
    → t.id ≡ src.id
    → s.enabled ≡ true
    → src.enabled ≡ true
    → src.kind ≢ []
    → subscription_kind s ≡ subscription_kind src
    → ¬ Single (update_subscription src w).1.files.subscriptions
update_breaks_rule src s t rest w file done other same on on' kind kinds =
    go (update_subscription src w) (update-Transacts src w) done
  where
    read : (a : Sources) → parsed subs_path [] w ≡ ok a → s ∷ t ∷ rest ≡ a
    read a sees = elim (parsed_cases subs_path [] a w sees) [
      | inl (none_yet, empty) ↦ cc
      | inr held ↦ cc
    ]

    go :
        (o : Result StoreError (Unit {0}) × World)
        → Transacts subs_path [] (updates src) w o
        → o.0 ≡ ok tt
        → ¬ Single o.1.files.subscriptions
    go (ok u, v) (a, a', sees, computes, files) d single =
        let new =
          updates-second src s t rest a' u (replace_source-second src s t rest other same kind)
            (subst (λ b. updates src b ≡ ok (a', u)) (sym (read a sees)) computes) in
        (subst IsSingle (sym new) (subst (λ (x : Files). Single x.subscriptions) files single)).0.0
          on on' kinds
    go (err e, v) files d single = cc
