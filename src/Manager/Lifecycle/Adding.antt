-- ===== src/Manager/Lifecycle/Adding.antt =====
-- What Add of client/internal/manager/manager.go does to the tunnels and to tunnels.json.
use safelink_ssh.Base.{◌≡◌, ok, err}
use safelink_ssh.Text.Table.{insert}
use safelink_ssh.Config.Tunnel.{TunnelCfg}
use safelink_ssh.Store.{World}
use safelink_ssh.Manager.{Tunnels, stopped_tunnel}
use safelink_ssh.Manager.Lifecycle.{
  manager_not_started, not_found, exists, unknown_mode, invalid_tunnel, not_persisted, Change,
}
use safelink_ssh.Manager.Lifecycle.Changes.{running_tunnel, saved, IsPut, IsUnchanged}

-- What Add returns and leaves behind.
unfoldable pub Adds : TunnelCfg → Tunnels → World → Change → Type 0
Adds tc m w (ok u, m', w') =
    IsPut tc.name (running_tunnel tc) m m'
    × (w'.files ≡ saved (insert tc.name (stopped_tunnel tc) m) w)
Adds tc m w (err manager_not_started, m', w') =
    IsPut tc.name (stopped_tunnel tc) m m'
    × (w'.files ≡ saved (insert tc.name (stopped_tunnel tc) m) w)
Adds tc m w (err (invalid_tunnel e), m', w') = IsUnchanged m m' w w'
Adds tc m w (err (not_persisted e), m', w') = IsUnchanged m m' w w'
Adds tc m w (err exists, m', w') = IsUnchanged m m' w w'
Adds tc m w (err not_found, m', w') = ⊥
Adds tc m w (err (unknown_mode mode), m', w') = ⊥
