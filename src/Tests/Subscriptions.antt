-- ===== src/Tests/Subscriptions.antt =====
-- The store and its subscriptions: client/internal/store/store.go.
use safelink_ssh.Base.{◌≡◌, refl, ◌≢◌, Bool, true, false, [], ◌∷◌, ok}
use safelink_ssh.Base.Int.{pos}
use safelink_ssh.Text.{Text, codes, text_eq}
use safelink_ssh.Text.Laws.{text_eq_iff}
use safelink_ssh.Store.{SubscriptionSource, Files, World, missing, holds, subs_path, kind_proxy}
use safelink_ssh.Store.Disk.{write_file_atomic, load}
use safelink_ssh.Store.Disk.Atomic.{Writes, write_file_atomic-Writes}
use safelink_ssh.Store.Subscriptions.{
  update_subscription, replace_source, or_not_found, delete_subscription, subscription_kind,
}
use safelink_ssh.Store.Subscriptions.Commands.{Single, run, add, enable, delete, run-Single}
use safelink_ssh.Store.Subscriptions.Update.{update_breaks_rule}
use safelink_ssh.Store.Subscriptions.Deletion.{Deletes, delete-Deletes}

abbrev source : Text → Text → Bool → SubscriptionSource
source id kind enabled = record {
  id = id;
  name = id;
  url = codes "https://example.com/sub";
  format = codes "auto";
  kind = kind;
  enabled = enabled;
  auto_refresh = false;
  interval_min = pos 0;
  last_refresh = [];
  last_error = [];
  tunnel_count = pos 0;
  node_count = pos 0;
  usage_upload = 0;
  usage_download = 0;
  usage_total = 0;
  usage_expire = pos 0;
}

abbrev files : Files
files = record {
  tunnels = missing;
  subscriptions =
      holds (source (codes "a") kind_proxy true ∷ source (codes "b") kind_proxy false ∷ []);
  proxy_nodes = missing;
  ssh_connections = missing;
  settings = missing;
}

-- The fourth system call from now on fails.
abbrev world : World
world = record {
  files = files;
  temps = 0;
  io = true ∷ true ∷ true ∷ false ∷ [];
  entropy = λ n. n;
  drawn = 0;
}

abbrev calm : World
calm = record world { io = [] }

run-Single_example :
    Single
      (run
        (enable (codes "b") true ∷ add (source [] kind_proxy true) ∷ delete (codes "a") ∷ [])
        world).files.subscriptions
run-Single_example =
    run-Single (enable (codes "b") true ∷ add (source [] kind_proxy true) ∷ delete (codes "a") ∷ [])
      world (((λ on on'. cc), tt), (tt, tt))

write_file_atomic-Writes_example :
    Writes (subs_path.put (holds [])) world (write_file_atomic subs_path [] world)
write_file_atomic-Writes_example = write_file_atomic-Writes subs_path [] world

delete-Deletes_example : Deletes (codes "a") world (delete_subscription (codes "a") world)
delete-Deletes_example = delete-Deletes (codes "a") world

updates_second : (update_subscription (source (codes "b") kind_proxy true) calm).0 ≡ ok tt
unfolding update_subscription load write_file_atomic replace_source or_not_found text_eq
updates_second = refl

other : ◌≢◌ {A = Text} (codes "a") (codes "b")
unfolding text_eq
other e = cc ((text_eq_iff (codes "a") (codes "b")).1 e)

update_breaks_rule_example :
    ¬ Single (update_subscription (source (codes "b") kind_proxy true) calm).1.files.subscriptions
unfolding subscription_kind
update_breaks_rule_example =
    update_breaks_rule (source (codes "b") kind_proxy true) (source (codes "a") kind_proxy true)
      (source (codes "b") kind_proxy false) [] calm refl updates_second other refl refl refl
      (λ e. cc) refl
