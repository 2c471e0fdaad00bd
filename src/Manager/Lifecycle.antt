-- ===== src/Manager/Lifecycle.antt =====
-- The calls of client/internal/manager/manager.go that change one tunnel: Add, Update, Delete,
-- StartTunnel, Stop, Restart and BulkMerge, each run to its end with no other call between. A call that
-- stops a tunnel waits until its goroutine has ended. `started` says that Start gave the manager its
-- context. The manager has a store.
pub mod Changes
pub mod Adding
pub mod Updating
use safelink_ssh.Base.{
  ℕ, ◌+◌, Bool, true, false, not, ◌||◌, Option, none, some, List, [], ◌∷◌, ◌++◌, Result, ok, err,
  if◌then◌else◌,
}
use safelink_ssh.Text.{Text, text_eq, is_empty}
use safelink_ssh.Text.Table.{lookup, erase, insert}
use safelink_ssh.Config.Tunnel.{
  TunnelCfg, TunnelError, validate_tunnel, mode_local, mode_remote, mode_dynamic, mode_vpn,
}
use safelink_ssh.Store.{StoreError, World}
use safelink_ssh.Manager.{ManagedTunnel, Tunnels, stopped_tunnel, prefixed, persist}

pub data ManagerError : Type 0 where
  manager_not_started not_found exists : ManagerError
  unknown_mode : Text → ManagerError
  invalid_tunnel : TunnelError → ManagerError
  not_persisted : StoreError → ManagerError

abbrev pub Done : Type 0
Done = Result ManagerError (Unit {0})

-- tunnel.Build
unfoldable pub build : TunnelCfg → Done
build t =
    if text_eq t.mode mode_local
      || text_eq t.mode mode_remote
      || text_eq t.mode mode_dynamic
      || text_eq t.mode mode_vpn
    then ok tt
    else err (unknown_mode t.mode)

-- The tunnel is built and its goroutine starts.
unfoldable pub launch : Text → ManagedTunnel → Done → Tunnels → Done × Tunnels
launch name t (ok built) m = (ok tt, insert name (record t { running = true }) m)
launch name t (err e) m = (err e, m)

unfoldable pub start_found : Text → Option ManagedTunnel → Tunnels → Done × Tunnels
unfolding build launch
start_found name none m = (err not_found, m)
start_found name (some t) m = if t.running then (ok tt, m) else launch name t (build t.cfg) m

-- startTunnel, which StartTunnel calls
unfoldable pub start_named : Bool → Text → Tunnels → Done × Tunnels
unfolding start_found lookup
start_named started name m =
    if started then start_found name (lookup name m) m else (err manager_not_started, m)

unfoldable pub stop_found : Text → Option ManagedTunnel → Tunnels → Done × Tunnels
stop_found name none m = (err not_found, m)
stop_found name (some t) m = (ok tt, insert name (record t { running = false }) m)

-- Stop
unfoldable pub stop_named : Text → Tunnels → Done × Tunnels
unfolding stop_found lookup
stop_named name m = stop_found name (lookup name m) m

unfoldable pub start_stopped : Bool → Text → Done × Tunnels → Done × Tunnels
unfolding start_named
start_stopped started name (ok stopped, m) = start_named started name m
start_stopped started name (err e, m) = (err e, m)

-- Restart
unfoldable pub restart : Bool → Text → Tunnels → Done × Tunnels
unfolding start_stopped stop_named
restart started name m = start_stopped started name (stop_named name m)

abbrev pub Change : Type 0
Change = Done × Tunnels × World

abbrev pub with_world : World → Done × Tunnels → Change
with_world w (r, m) = (r, m, w)

-- The end of Add, behind persist: a failure takes the tunnel out again.
unfoldable pub finish_add : Bool → Text → Tunnels → Result StoreError (Unit {0}) × World → Change
unfolding start_named
finish_add started name m (ok saved, w) = with_world w (start_named started name m)
finish_add started name m (err e, w) = (err (not_persisted e), erase name m, w)

unfoldable pub add_new : Bool → TunnelCfg → Option ManagedTunnel → Tunnels → World → Change
unfolding finish_add persist
add_new started tc (some t) m w = (err exists, m, w)
add_new started tc none m w =
    let m' = insert tc.name (stopped_tunnel tc) m in finish_add started tc.name m' (persist m' w)

unfoldable pub add_valid :
    Bool → TunnelCfg → Result TunnelError (Unit {0}) → Tunnels → World → Change
unfolding add_new lookup
add_valid started tc (err e) m w = (err (invalid_tunnel e), m, w)
add_valid started tc (ok valid) m w = add_new started tc (lookup tc.name m) m w

-- Add
unfoldable pub add_tunnel : Bool → TunnelCfg → Tunnels → World → Change
unfolding add_valid validate_tunnel
add_tunnel started tc m w = add_valid started tc (validate_tunnel tc) m w

-- The end of Update, behind persist: a failure puts the old configuration back.
unfoldable pub finish_update :
    Bool → Text → ManagedTunnel → Tunnels → Result StoreError (Unit {0}) × World → Change
unfolding restart
finish_update started name old m (ok saved, w) = with_world w (restart started name m)
finish_update started name old m (err e, w) = (err (not_persisted e), insert name old m, w)

unfoldable pub update_found :
    Bool → Text → TunnelCfg → Option ManagedTunnel → Tunnels → World → Change
unfolding finish_update persist
update_found started name tc none m w = (err not_found, m, w)
update_found started name tc (some t) m w =
    let m' = insert name (record t { cfg = tc }) m in finish_update started name t m' (persist m' w)

unfoldable pub update_valid :
    Bool → Text → TunnelCfg → Result TunnelError (Unit {0}) → Tunnels → World → Change
unfolding update_found lookup
update_valid started name tc (err e) m w = (err (invalid_tunnel e), m, w)
update_valid started name tc (ok valid) m w = update_found started name tc (lookup name m) m w

-- Update
unfoldable pub update_tunnel : Bool → Text → TunnelCfg → Tunnels → World → Change
unfolding update_valid validate_tunnel
update_tunnel started name tc m w =
    let tc' = record tc { name = name } in update_valid started name tc' (validate_tunnel tc') m w

unfoldable pub saved_or : Result StoreError (Unit {0}) → Done
saved_or (ok saved) = ok tt
saved_or (err e) = err (not_persisted e)

unfoldable pub delete_found : Text → Option ManagedTunnel → Tunnels → World → Change
unfolding saved_or persist
delete_found name none m w = (err not_found, m, w)
delete_found name (some t) m w =
    let m' = erase name m in let (r, w') = persist m' w in (saved_or r, m', w')

-- Delete: the tunnel is stopped behind its removal, and stays removed if persist fails.
unfoldable pub delete_tunnel : Text → Tunnels → World → Change
unfolding delete_found lookup
delete_tunnel name m w = delete_found name (lookup name m) m w

-- The variables of the loop of BulkMerge.
pub record Merge : Type 0 where
  pub tunnels : Tunnels
  pub world : World
  pub imported : ℕ
  pub skipped : ℕ
  pub errs : List (Text × ManagerError)

unfoldable pub count_merge : Text → Change → Merge → Merge
count_merge name (ok u, m, w) s = record s { tunnels = m; world = w; imported = s.imported + 1 }
count_merge name (err e, m, w) s = record s {
  tunnels = m;
  world = w;
  skipped = s.skipped + 1;
  errs = s.errs ++ (name, e) ∷ [];
}

unfoldable pub merge_known : Bool → TunnelCfg → Option ManagedTunnel → Tunnels → World → Change
unfolding add_tunnel update_tunnel
merge_known started tc none m w = add_tunnel started tc m w
merge_known started tc (some t) m w = update_tunnel started tc.name tc m w

unfoldable pub merge_tunnel : Bool → Text → TunnelCfg → Merge → Merge
unfolding merge_known count_merge lookup
merge_tunnel started prefix tc s =
    let tc' = prefixed prefix tc in
    count_merge tc'.name (merge_known started tc' (lookup tc'.name s.tunnels) s.tunnels s.world) s

-- BulkMerge
unfoldable pub bulk_merge : Bool → Text → List TunnelCfg → Merge → Merge
unfolding merge_tunnel
bulk_merge started prefix [] s = s
bulk_merge started prefix (tc ∷ incoming) s =
    bulk_merge started prefix incoming (merge_tunnel started prefix tc s)
