-- ===== src/Store/Subscriptions/Transactions.antt =====
-- AddSubscription, UpdateSubscription, SetSubscriptionEnabled and NormalizeEnabledSubscriptions of
-- client/internal/store/store.go as transactions on subscriptions.json.
use safelink_ssh.Base.{
  ◌≡◌, refl, sym, ap, ◌⊎◌, inl, inr, Bool, List, [], ◌∷◌, ◌++◌, Bool-cases, subst, if◌then◌else◌,
  Result, ok, err, ◌>>=◌, ◌>>◌, pure, lift,
}
use safelink_ssh.Text.{Text, is_empty}
use safelink_ssh.Store.{
  SubscriptionSource, World, StoreError, Action, subs_path, new_id, id_or_random, id_or_random_lem,
}
use safelink_ssh.Store.Disk.{save_subscriptions}
use safelink_ssh.Store.Disk.Transact.{
  load_rule, bind_rule, lift_rule, Transacts, save-Transacts, last_save-Transacts,
}
use safelink_ssh.Store.Subscriptions.{
  admit, add_subscription, or_not_found, replace_source, update_subscription, split_at_id, switch,
  set_subscription_enabled, keep_first, normalize_enabled_subscriptions,
}

abbrev pub Sources : Type 0
Sources = List SubscriptionSource

-- What AddSubscription computes from the sources.
abbrev pub adds : SubscriptionSource → World → Sources → Result StoreError (Sources × Unit {0})
adds src w sources = ok (sources ++ admit (new_id src.id w) src sources ∷ [], tt)

pub add-Transacts :
    (src : SubscriptionSource) (w : World)
    → Transacts subs_path [] (adds src w) w (add_subscription src w)
unfolding add_subscription
add-Transacts src w =
    load_rule T subs_path [] body w (λ e r. refl)
      λ sources r sees.
        let (v, e, files, entropy) = id_or_random_lem src.id (record w { io = r }) in
        bind_rule T (id_or_random src.id) (write sources) (record w { io = r }) v (new_id src.id w)
          e
          (last_save-Transacts subs_path [] (adds src w) w v sources
            (sources ++ admit (new_id src.id w) src sources ∷ []) sees refl files)
  where
    T : Result StoreError (Unit {0}) × World → Type 0
    T = Transacts subs_path [] (adds src w) w

    write : Sources → Text → Action (Unit {0})
    write sources id = save_subscriptions (sources ++ admit id src sources ∷ [])

    body : Sources → Action (Unit {0})
    body sources = do id ← id_or_random src.id; write sources id

-- What UpdateSubscription and SetSubscriptionEnabled compute.
abbrev pub with_unit : {A : Type 0} → Result StoreError A → Result StoreError (A × Unit {0})
with_unit (ok a) = ok (a, tt)
with_unit (err e) = err e

abbrev pub switched :
    Bool
    → Result StoreError (Sources × SubscriptionSource × Sources)
    → Result StoreError (Sources × SubscriptionSource)
switched on (ok found) = ok (switch on found)
switched on (err e) = err e

abbrev pub updates : SubscriptionSource → Sources → Result StoreError (Sources × Unit {0})
updates src sources = with_unit (or_not_found src.id (replace_source src sources))

abbrev pub switches : Text → Bool → Sources → Result StoreError (Sources × SubscriptionSource)
switches id on sources = switched on (or_not_found id (split_at_id id sources))

pub set_enabled-Transacts :
    (id : Text) (on : Bool) (w : World)
    → Transacts subs_path [] (switches id on) w (set_subscription_enabled id on w)
unfolding set_subscription_enabled
set_enabled-Transacts id on w =
    load_rule T subs_path [] body w (λ e r. refl)
      λ sources r sees.
        lift_rule T (look sources) write (record w { io = r }) (λ e. refl)
          λ found e.
            save-Transacts subs_path [] (switches id on) w (record w { io = r }) sources
              (switch on found).0 (switch on found).1 (pure (switch on found).1) sees
              (ap (switched on) e) refl (λ u. refl)
  where
    T : Result StoreError SubscriptionSource × World → Type 0
    T = Transacts subs_path [] (switches id on) w

    look : Sources → Result StoreError (Sources × SubscriptionSource × Sources)
    look sources = or_not_found id (split_at_id id sources)

    write : Sources × SubscriptionSource × Sources → Action SubscriptionSource
    write found = do save_subscriptions (switch on found).0; pure (switch on found).1

    body : Sources → Action SubscriptionSource
    body sources = do found ← lift (look sources); write found

pub update-Transacts :
    (src : SubscriptionSource) (w : World)
    → Transacts subs_path [] (updates src) w (update_subscription src w)
unfolding update_subscription
update-Transacts src w = elim (Bool-cases (is_empty src.id)) [
  | inl e ↦ rw e refl
  | inr e ↦ rw e (
      load_rule T subs_path [] body w (λ e r. refl)
        λ sources r sees.
          lift_rule T (look sources) save_subscriptions (record w { io = r }) (λ e. refl)
            λ updated found.
              last_save-Transacts subs_path [] (updates src) w (record w { io = r }) sources updated
                sees (ap with_unit found) refl)
]
  where
    T : Result StoreError (Unit {0}) × World → Type 0
    T = Transacts subs_path [] (updates src) w

    look : Sources → Result StoreError Sources
    look sources = or_not_found src.id (replace_source src sources)

    body : Sources → Action (Unit {0})
    body sources = do updated ← lift (look sources); save_subscriptions updated

-- NormalizeEnabledSubscriptions writes the list only if its loop changed it.
abbrev pub Normalizes : World → Result StoreError (Unit {0}) × World → Type 0
Normalizes w r =
    Transacts subs_path [] (λ s. ok ((keep_first [] s).0, tt)) w r ⊎ (r.1.files ≡ w.files)

pub normalize-Normalizes : (w : World) → Normalizes w (normalize_enabled_subscriptions w)
unfolding normalize_enabled_subscriptions
normalize-Normalizes w =
    load_rule (Normalizes w) subs_path [] body w (λ e r. inr refl)
      λ sources r sees. elim (Bool-cases (keep_first [] sources).1) [
        | inl e ↦
            subst
              (λ b. Normalizes w (
                (if b then save_subscriptions (keep_first [] sources).0 else pure tt)
                  (record w { io = r })))
              (sym e)
              (inl (
                last_save-Transacts subs_path [] _ w (record w { io = r }) sources
                  (keep_first [] sources).0 sees refl refl))
        | inr e ↦
            subst
              (λ b. Normalizes w (
                (if b then save_subscriptions (keep_first [] sources).0 else pure tt)
                  (record w { io = r })))
              (sym e) (inr refl)
      ]
  where
    body : Sources → Action (Unit {0})
    body sources =
        if (keep_first [] sources).1 then save_subscriptions (keep_first [] sources).0 else pure tt
