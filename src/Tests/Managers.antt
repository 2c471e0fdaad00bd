-- ===== src/Tests/Managers.antt =====
-- Imports of client/internal/manager/manager.go.
use safelink_ssh.Base.{true, none, [], ◌∷◌, length}
use safelink_ssh.Text.{codes}
use safelink_ssh.Config.Tunnel.{TunnelCfg, mode_vpn}
use safelink_ssh.Store.{World, missing}
use safelink_ssh.Manager.{Tunnels, bulk_upsert}
use safelink_ssh.Manager.Bulk.{Imports, bulk_upsert-Imports}

abbrev gateway : TunnelCfg
gateway = record {
  name = codes "demo";
  mode = mode_vpn;
  ssh = record {
    addr = [];
    user = codes "admin";
    identity_file = [];
    passphrase = [];
    password = codes "changeme";
  };
  listen = [];
  forward = codes "vpn.example.com:1562";
  transport = [];
  tun = record {
    subnet = codes "10.8.0.2/24";
    dns = [];
    auto_route = true;
    tls_cert = [];
    tls_key = [];
    sni = [];
    pin_sha256 = [];
    padding = none;
  };
}

abbrev running_one : Tunnels
running_one = (codes "a-demo", record { cfg = gateway; running = true }) ∷ []

abbrev empty_disk : World
empty_disk = record {
  files = record {
    tunnels = missing;
    subscriptions = missing;
    proxy_nodes = missing;
    ssh_connections = missing;
    settings = missing;
  };
  temps = 0;
  io = [];
  entropy = λ n. n;
  drawn = 0;
}

bulk_upsert-Imports_example :
    Imports
      (length (gateway ∷ gateway ∷ []))
      (record { tunnels = running_one; imported = 0; skipped = 0; errs = [] })
      (bulk_upsert (codes "a-") (gateway ∷ gateway ∷ []) running_one empty_disk).0
bulk_upsert-Imports_example =
    bulk_upsert-Imports (codes "a-") (gateway ∷ gateway ∷ []) running_one empty_disk
