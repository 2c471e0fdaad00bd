-- ===== src/Manager/Lifecycle/Updating.antt =====
-- What Update of client/internal/manager/manager.go does to the tunnels and to tunnels.json.
use safelink_ssh.Base.{◌≡◌, none, some, ok, err}
use safelink_ssh.Text.{Text}
use safelink_ssh.Text.Table.{lookup, insert}
use safelink_ssh.Config.Tunnel.{TunnelCfg}
use safelink_ssh.Store.{World}
use safelink_ssh.Manager.{ManagedTunnel, Tunnels, stopped_tunnel}
use safelink_ssh.Manager.Lifecycle.{
  manager_not_started, not_found, exists, unknown_mode, invalid_tunnel, not_persisted, Change,
}
use safelink_ssh.Manager.Lifecycle.Changes.{running_tunnel, saved, IsPut, IsUnchanged}

-- What Update returns and leaves behind, for a configuration that has the name already.
unfoldable pub Updates : TunnelCfg → Tunnels → World → Change → Type 0
Updates tc m w (ok u, m', w') =
    (t : ManagedTunnel) × (lookup tc.name m ≡ some t)
    × IsPut tc.name (running_tunnel tc) m m'
    × (w'.files ≡ saved (insert tc.name (record t { cfg = tc }) m) w)
Updates tc m w (err manager_not_started, m', w') =
    (t : ManagedTunnel) × (lookup tc.name m ≡ some t)
    × IsPut tc.name (stopped_tunnel tc) m m'
    × (w'.files ≡ saved (insert tc.name (record t { cfg = tc }) m) w)
Updates tc m w (err (invalid_tunnel e), m', w') = IsUnchanged m m' w w'
Updates tc m w (err (not_persisted e), m', w') = IsUnchanged m m' w w'
Updates tc m w (err not_found, m', w') = (lookup tc.name m ≡ none) × IsUnchanged m m' w w'
Updates tc m w (err exists, m', w') = ⊥
Updates tc m w (err (unknown_mode mode), m', w') = ⊥
