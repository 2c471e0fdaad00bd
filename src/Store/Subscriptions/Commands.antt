-- ===== src/Store/Subscriptions/Commands.antt =====
-- Sequences of subscription operations of client/internal/store/store.go, each with whatever outcomes of
-- its system calls, and the rule of one enabled source for each kind.
use safelink_ssh.Base.{
  ◌≡◌, refl, sym, inl, inr, Bool, some, Option, List, [], ◌∷◌, none, subst, Result, ok, err,
}
use safelink_ssh.Text.{Text}
use safelink_ssh.Store.{
  SubscriptionSource, World, Files, File, missing, garbled, holds, StoreError, subs_path,
}
use safelink_ssh.Store.Disk.Transact.{parsed, parsed_cases, Transacts}
use safelink_ssh.Store.Subscriptions.{
  add_subscription, set_subscription_enabled, normalize_enabled_subscriptions, delete_subscription,
  switch, or_not_found, split_at_id,
}
use safelink_ssh.Store.Subscriptions.Single.{
  IsSingle, admit-IsSingle, split_at_id-append, switch-IsSingle,
}
use safelink_ssh.Store.Subscriptions.Normalize.{keep_first-IsSingle}
use safelink_ssh.Store.Subscriptions.Removed.{Keeps-IsSingle}
use safelink_ssh.Store.Subscriptions.Transactions.{
  Sources, adds, switches, switched, Normalizes, add-Transacts, set_enabled-Transacts,
  normalize-Normalizes,
}
use safelink_ssh.Store.Subscriptions.Deletion.{Deletes, SourceGone, delete-Deletes}

pub data Command : Type 0 where
  add : SubscriptionSource → Command
  enable : Text → Bool → Command
  delete : Text → Command
  normalize : Command

-- An operation that fails goes on from the world that it left.
unfoldable pub step : Command → World → World
step (add src) w = (add_subscription src w).1
step (enable id on) w = (set_subscription_enabled id on w).1
step (delete id) w = (delete_subscription id w).1
step normalize w = (normalize_enabled_subscriptions w).1

unfoldable pub run : List Command → World → World
unfolding step
run [] w = w
run (c ∷ cs) w = run cs (step c w)

-- The file, if it can be read, lists at most one enabled source of each kind.
abbrev pub Single : File Sources → Type 0
Single missing = Unit
Single garbled = Unit
Single (holds sources) = IsSingle sources

parsed-Single :
    (w : World) (sources : Sources)
    → Single w.files.subscriptions
    → parsed subs_path [] w ≡ ok sources
    → IsSingle sources
parsed-Single w sources h e = elim (parsed_cases subs_path [] sources w e) [
  | inl (none_yet, empty) ↦ subst IsSingle (sym empty) tt
  | inr read ↦ subst Single read h
]

-- A transaction on the file whose computation keeps the rule keeps it on disk.
Transacts-Single :
    {B : Type 0} (f : Sources → Result StoreError (Sources × B)) (w : World)
    (o : Result StoreError B × World)
    → ((a a' : Sources) (b : B) → IsSingle a → f a ≡ ok (a', b) → IsSingle a')
    → Transacts subs_path [] f w o
    → Single w.files.subscriptions
    → Single o.1.files.subscriptions
Transacts-Single f w (ok b, v) keeps (a, a', sees, computes, files) h =
    subst (λ (x : Files). Single x.subscriptions) (sym files)
      (keeps a a' b (parsed-Single w a h sees) computes)
Transacts-Single f w (err e, v) keeps files h =
    subst (λ (x : Files). Single x.subscriptions) (sym files) h

pub ok_first :
    {A B : Type 0} (a a' : A) (b b' : B)
    → ◌≡◌ {A = Result StoreError (A × B)} (ok (a, b)) (ok (a', b'))
    → a ≡ a'
ok_first a a' b b' e = cc

adds-IsSingle :
    (src : SubscriptionSource) (w : World) (a a' : Sources) (u : Unit {0})
    → IsSingle a
    → adds src w a ≡ ok (a', u)
    → IsSingle a'
adds-IsSingle src w a a' u h e = subst IsSingle (ok_first _ a' _ u e) (admit-IsSingle _ src a h)

switches-IsSingle :
    (id : Text) (on : Bool) (a a' : Sources) (b : SubscriptionSource)
    → IsSingle a
    → switches id on a ≡ ok (a', b)
    → IsSingle a'
unfolding or_not_found
switches-IsSingle id on a a' b h e = go (split_at_id id a) refl e
  where
    go :
        (o : Option (Sources × SubscriptionSource × Sources))
        → split_at_id id a ≡ o
        → switched on (or_not_found id o) ≡ ok (a', b)
        → IsSingle a'
    go none seen e = cc
    go (some (before, t, behind)) seen e =
        subst IsSingle (ok_first (switch on (before, t, behind)).0 a' _ b e) (
          switch-IsSingle on before behind t
            (subst IsSingle (split_at_id-append id a before behind t seen).0 h))

Normalizes-Single :
    (w : World) (o : Result StoreError (Unit {0}) × World)
    → Normalizes w o
    → Single w.files.subscriptions
    → Single o.1.files.subscriptions
Normalizes-Single w o (inl t) h =
    Transacts-Single _ w o
      (λ a a' u k e. subst IsSingle (ok_first _ a' _ u e) (keep_first-IsSingle [] a)) t h
Normalizes-Single w o (inr same) h = subst (λ (x : Files). Single x.subscriptions) (sym same) h

Deletes-Single :
    (id : Text) (w : World) (o : Result StoreError (Unit {0}) × World)
    → Deletes id w o
    → Single w.files.subscriptions
    → Single o.1.files.subscriptions
Deletes-Single id w (ok u, v) (gone, nodes, others) h = gone-Single v gone
  where
    gone-Single : (v : World) → SourceGone id w v → Single v.files.subscriptions
    gone-Single v (sources, removed, left, sees, found, keeps, file) =
        subst Single (sym file) (Keeps-IsSingle keeps (parsed-Single w sources h sees))
Deletes-Single id w (err e, v) (nodes, inl same) h = subst Single (sym same) h
Deletes-Single id w (err e, v)
      (nodes, inr ((sources, removed, left, sees, found, keeps, file), proxy)) h =
    subst Single (sym file) (Keeps-IsSingle keeps (parsed-Single w sources h sees))

step-Single :
    (c : Command) (w : World) → Single w.files.subscriptions → Single (step c w).files.subscriptions
unfolding step
step-Single (add src) w =
    Transacts-Single (adds src w) w (add_subscription src w) (adds-IsSingle src w)
      (add-Transacts src w)
step-Single (enable id on) w =
    Transacts-Single (switches id on) w (set_subscription_enabled id on w) (switches-IsSingle id on)
      (set_enabled-Transacts id on w)
step-Single (delete id) w = Deletes-Single id w (delete_subscription id w) (delete-Deletes id w)
step-Single normalize w =
    Normalizes-Single w (normalize_enabled_subscriptions w) (normalize-Normalizes w)

-- From a subscriptions.json that lists at most one enabled source of each kind, or none at all, no
-- sequence of AddSubscription, SetSubscriptionEnabled, DeleteSubscription and
-- NormalizeEnabledSubscriptions calls leaves two enabled sources of one kind on disk, whichever system
-- calls fail on the way.
pub run-Single :
    (cs : List Command) (w : World)
    → Single w.files.subscriptions
    → Single (run cs w).files.subscriptions
unfolding run
run-Single [] w h = h
run-Single (c ∷ cs) w h = run-Single cs (step c w) (step-Single c w h)
