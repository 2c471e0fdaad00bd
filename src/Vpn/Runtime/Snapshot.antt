-- ===== src/Vpn/Runtime/Snapshot.antt =====
-- Snapshot of server/internal/vpnserver/runtime.go. sort.Slice is the insertion sort; the order of clients
-- with the same time, which Go leaves open, is the order of the list.
use safelink_ssh.Base.{ℕ, ◌-◌, ◌/◌, Bool, List, [], ◌∷◌, if◌then◌else◌, ltb, length}
use safelink_ssh.Text.{Text}
use safelink_ssh.Vpn.Runtime.{ClientRuntime, Runtime}

pub record ClientSnapshot : Type 0 where
  pub id : Text
  pub remote_addr : Text
  pub connected_at : ℕ
  pub uptime_seconds : ℕ
  pub bytes_in : ℕ
  pub bytes_out : ℕ
  pub last_traffic_at : ℕ
  pub tun_name : Text
  pub last_error : Text
  pub authenticated_as : Text

pub record RuntimeSnapshot : Type 0 where
  pub started_at : ℕ
  pub uptime_seconds : ℕ
  pub listen_addr : Text
  pub subnet : Text
  pub nat_iface : Text
  pub nat_enabled : Bool
  pub padding : Bool
  pub active_clients : ℕ
  pub total_clients : ℕ
  pub total_bytes_in : ℕ
  pub total_bytes_out : ℕ
  pub clients : List ClientSnapshot

-- int64(now.Sub(t).Seconds()), for a time that is not later than now
abbrev pub seconds_since : ℕ → ℕ → ℕ
seconds_since t now = (now - t) / 1000000000

abbrev pub client_snapshot : ℕ → ClientRuntime → ClientSnapshot
client_snapshot now c = record {
  id = c.id;
  remote_addr = c.remote_addr;
  connected_at = c.connected_at;
  uptime_seconds = seconds_since c.connected_at now;
  bytes_in = c.bytes_in;
  bytes_out = c.bytes_out;
  last_traffic_at = c.last_traffic_at;
  tun_name = c.tun_name;
  last_error = c.last_error;
  authenticated_as = c.authenticated_as;
}

unfoldable pub insert_snapshot : ClientSnapshot → List ClientSnapshot → List ClientSnapshot
insert_snapshot c [] = c ∷ []
insert_snapshot c (d ∷ rest) =
    let more = insert_snapshot c rest in
    if ltb d.connected_at c.connected_at then d ∷ more else c ∷ d ∷ rest

unfoldable pub snapshots : ℕ → List (Text × ClientRuntime) → List ClientSnapshot
unfolding insert_snapshot
snapshots now [] = []
snapshots now ((k, c) ∷ clients) = insert_snapshot (client_snapshot now c) (snapshots now clients)

unfoldable pub snapshot : ℕ → Runtime → RuntimeSnapshot
unfolding snapshots
snapshot now r = record {
  started_at = r.started_at;
  uptime_seconds = seconds_since r.started_at now;
  listen_addr = r.cfg.listen_addr;
  subnet = r.cfg.subnet;
  nat_iface = r.cfg.nat_iface;
  nat_enabled = r.cfg.nat_enabled;
  padding = r.cfg.padding;
  active_clients = length (snapshots now r.clients);
  total_clients = r.total_clients;
  total_bytes_in = r.total_bytes_in;
  total_bytes_out = r.total_bytes_out;
  clients = snapshots now r.clients;
}
