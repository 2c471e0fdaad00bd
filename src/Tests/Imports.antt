-- ===== src/Tests/Imports.antt =====
-- An import of one document of VPN tunnels on an empty disk.
use safelink_ssh.Base.{ℕ, ◌≡◌, refl, true, none, some, [], ◌∷◌, Result, ok, err}
use safelink_ssh.Base.Int.{pos}
use safelink_ssh.Text.{codes, text_eq, trim, trim_space, to_lower}
use safelink_ssh.Text.Split.{cut, split}
use safelink_ssh.Text.Number.{parse_uint}
use safelink_ssh.Config.Tunnel.{TunnelCfg, mode_vpn, validate_tunnel}
use safelink_ssh.Subscription.Parse.{parse}
use safelink_ssh.Store.{missing, random_id, id_or_random, hex_encode, draw}
use safelink_ssh.Store.Disk.{load, write_file_atomic}
use safelink_ssh.Text.Table.{lookup}
use safelink_ssh.Store.Subscriptions.{add_subscription}
use safelink_ssh.Manager.{bulk_upsert}
use safelink_ssh.Store.Subscriptions.Commands.{Single}
use safelink_ssh.Importer.{Environment, State, Failure, Imported, import_subscription}
use safelink_ssh.Importer.Fetch.{parse_usage, prefix_of}
use safelink_ssh.Importer.Rule.{import_subscription-Single}

prefix_run : prefix_of (codes " My list!") ≡ codes "My-list-"
unfolding prefix_of trim
prefix_run = refl

usage_run :
    parse_usage (codes "upload=12; total = 700;expire=x")
    ≡ record { upload = 12; download = 0; total = 700; expire = pos 0 }
unfolding parse_usage split cut trim_space text_eq parse_uint
usage_run = refl

abbrev demo : TunnelCfg
demo = record {
  name = codes "demo";
  mode = mode_vpn;
  ssh = record {
    addr = [];
    user = codes "admin";
    identity_file = [];
    passphrase = [];
    password = codes "pw";
  };
  listen = [];
  forward = codes "vpn.example.com:443";
  transport = [];
  tun = record {
    subnet = codes "10.8.0.2/24";
    dns = [];
    auto_route = true;
    tls_cert = [];
    tls_key = [];
    sni = [];
    pin_sha256 = [];
    padding = none;
  };
}

abbrev environment : Environment
environment = record {
  respond = λ url.
      some
        (record { status = 200; body = some (codes "one document"); userinfo = codes "total=700" });
  vpn_codec = record {
    read_json = λ c. some (record { version = pos 1; tunnels = demo ∷ [] });
    write_json = λ doc. none;
    read_yaml = λ c. none;
    write_yaml = λ ps. none;
  };
  proxy_codec = record {
    clash_yaml = λ content. none;
    sing_box_json = λ content. none;
    vmess_json = λ content. none;
    base64 = λ encoding text. none;
    parse_url = λ raw. none;
    query_unescape = λ text. none;
  };
  now = codes "2025-01-01T00:00:00Z";
  tunnel_error = λ e. codes "tunnel";
  node_error = λ e. codes "node";
  failure = λ e. codes "failure";
}

abbrev state : State
state = record {
  tunnels = [];
  world = record {
    files = record {
      tunnels = missing;
      subscriptions = missing;
      proxy_nodes = missing;
      ssh_connections = missing;
      settings = missing;
    };
    temps = 0;
    io = [];
    entropy = λ n. n;
    drawn = 0;
  };
}

import_counts : Result Failure Imported × State → ℕ
import_counts (ok r, s) = r.imported
import_counts (err e, s) = 0

import_run :
    import_counts
      (import_subscription environment (codes "My list") (codes "https://example.com/s") state)
    ≡ 1
unfolding import_counts import_subscription text_eq trim trim_space to_lower parse validate_tunnel
    bulk_upsert add_subscription random_id load prefix_of lookup write_file_atomic id_or_random
    hex_encode draw
import_run = refl

import_subscription-Single_example : Single (
    (import_subscription environment
      (codes "My list")
      (codes "https://example.com/s")
      state).1.world.files.subscriptions)
import_subscription-Single_example =
    import_subscription-Single environment (codes "My list") (codes "https://example.com/s") state
      tt
