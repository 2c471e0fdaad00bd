-- ===== src/Manager.antt =====
-- client/internal/manager/manager.go: the tunnels by name, New, persist and BulkUpsert. The supervisors
-- behind a running tunnel and what they report of it (state, errors, counts) are not modelled.
pub mod Bulk
pub mod Runs
pub mod Lifecycle
use safelink_ssh.Base.{
  ℕ, ◌+◌, Bool, true, false, Option, none, some, List, [], ◌∷◌, ◌++◌, Result, ok, err, map,
  if◌then◌else◌, ◌==◌,
}
use safelink_ssh.Text.{Text, is_empty}
use safelink_ssh.Text.Table.{lookup, erase, insert}
use safelink_ssh.Config.Tunnel.{TunnelCfg, TunnelError, validate_tunnel}
use safelink_ssh.Store.{StoreError, Action, World}
use safelink_ssh.Store.Disk.{save_tunnels}

-- `running` is cancel != nil.
pub record ManagedTunnel : Type 0 where
  pub cfg : TunnelCfg
  pub running : Bool

abbrev pub Tunnels : Type 0
Tunnels = List (Text × ManagedTunnel)

abbrev pub stopped_tunnel : TunnelCfg → ManagedTunnel
stopped_tunnel tc = record { cfg = tc; running = false }

-- The loop of New, on top of the tunnels that it has.
unfoldable pub seed : List TunnelCfg → Tunnels → Tunnels
seed [] m = m
seed (tc ∷ cfgs) m = seed cfgs (insert tc.name (stopped_tunnel tc) m)

unfoldable pub new_manager : List TunnelCfg → Tunnels
unfolding seed
new_manager cfgs = seed cfgs []

-- The reasons for which a configuration is skipped, by its name, and the failure of the last write.
pub data ImportError : Type 0 where
  invalid : Text → TunnelError → ImportError
  was_running : Text → ImportError
  persist_failed : StoreError → ImportError

-- The variables of the loop of BulkUpsert.
pub record Import : Type 0 where
  pub tunnels : Tunnels
  pub imported : ℕ
  pub skipped : ℕ
  pub errs : List ImportError

unfoldable pub skip : ImportError → Import → Import
skip e u = record u { errs = u.errs ++ e ∷ []; skipped = u.skipped + 1 }

unfoldable pub take_in : TunnelCfg → ManagedTunnel → Import → Import
take_in tc t u = record u { tunnels = insert tc.name t u.tunnels; imported = u.imported + 1 }

unfoldable pub place_tunnel : TunnelCfg → Option ManagedTunnel → Import → Import
unfolding skip take_in
place_tunnel tc (some t) u =
    if t.running then skip (was_running tc.name) u else take_in tc (record t { cfg = tc }) u
place_tunnel tc none u = take_in tc (stopped_tunnel tc) u

unfoldable pub place_valid : TunnelCfg → Result TunnelError (Unit {0}) → Import → Import
unfolding place_tunnel
place_valid tc (err e) u = skip (invalid tc.name e) u
place_valid tc (ok v) u = place_tunnel tc (lookup tc.name u.tunnels) u

-- if prefix != "" { tc.Name = prefix + tc.Name }
abbrev pub prefixed : Text → TunnelCfg → TunnelCfg
prefixed prefix tc = record tc { name = prefix ++ tc.name }

-- One round of the loop.
unfoldable pub upsert_tunnel : Text → TunnelCfg → Import → Import
unfolding place_valid
upsert_tunnel prefix tc u =
    place_valid (prefixed prefix tc) (validate_tunnel (prefixed prefix tc)) u

unfoldable pub upsert_tunnels : Text → List TunnelCfg → Import → Import
unfolding upsert_tunnel
upsert_tunnels prefix [] u = u
upsert_tunnels prefix (tc ∷ incoming) u = upsert_tunnels prefix incoming (upsert_tunnel prefix tc u)

unfoldable pub configs : Tunnels → List TunnelCfg
configs [] = []
configs ((k, t) ∷ m) = t.cfg ∷ configs m

-- persist
unfoldable pub persist : Tunnels → Action (Unit {0})
unfolding configs
persist m = save_tunnels (configs m)

unfoldable pub after_persist : Import → Result StoreError (Unit {0}) × World → Import × World
after_persist u (ok v, w) = (u, w)
after_persist u (err e, w) = (record u { errs = u.errs ++ persist_failed e ∷ [] }, w)

unfoldable pub bulk_upsert : Text → List TunnelCfg → Tunnels → World → Import × World
unfolding upsert_tunnels persist after_persist
bulk_upsert prefix incoming m w =
    let u =
      upsert_tunnels prefix incoming
        (record { tunnels = m; imported = 0; skipped = 0; errs = [] }) in
    if u.imported == 0 then (u, w) else after_persist u (persist u.tunnels w)
