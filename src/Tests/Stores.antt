-- ===== src/Tests/Stores.antt =====
-- Nodes, settings and SSH connections of client/internal/store/store.go.
use safelink_ssh.Base.{true, false, none, [], ◌∷◌, List, ◌*◌}
use safelink_ssh.Base.Int.{pos}
use safelink_ssh.Text.{Text, codes}
use safelink_ssh.Proxy.Node.{ProxyNode, protocol_vless, protocol_tuic}
use safelink_ssh.Store.{SshConnection, SubscriptionSource, World, missing, holds, kind_proxy}
use safelink_ssh.Store.Ssh.{save_ssh_connection, delete_ssh_connection}
use safelink_ssh.Store.Ssh.Lookup.{Saves, Drops, save_connection-Saves, delete_connection-Drops}
use safelink_ssh.Store.Nodes.{upsert_proxy_nodes}
use safelink_ssh.Store.Nodes.Merging.{Upserts, upsert_nodes-Upserts}
use safelink_ssh.Store.Settings.{save_settings, zero_settings}
use safelink_ssh.Store.Settings.Saved.{SavesSettings, save_settings-SavesSettings}

abbrev node : Text → Text → ProxyNode
node name protocol = record {
  id = [];
  subscription_id = codes "s";
  name = name;
  protocol = protocol;
  server = codes "example.com";
  port = pos 443;
  method = [];
  password = [];
  uuid = [];
  alter_id = pos 0;
  security = [];
  flow = [];
  udp = false;
  packet_encoding = [];
  tls = none;
  transport = record { type = []; path = []; host = []; headers = [] };
}

abbrev feed : SubscriptionSource
feed = record {
  id = codes "s";
  name = codes "air";
  url = codes "https://example.com/sub";
  format = codes "auto";
  kind = kind_proxy;
  enabled = true;
  auto_refresh = false;
  interval_min = pos 0;
  last_refresh = [];
  last_error = [];
  tunnel_count = pos 0;
  node_count = pos 2;
  usage_upload = 0;
  usage_download = 0;
  usage_total = 0;
  usage_expire = pos 0;
}

abbrev disk : World
disk = record {
  files = record {
    tunnels = missing;
    subscriptions = holds (feed ∷ []);
    proxy_nodes = holds (node (codes "t") protocol_tuic ∷ node (codes "v") protocol_vless ∷ []);
    ssh_connections = missing;
    settings = missing;
  };
  temps = 0;
  io = true ∷ true ∷ [];
  entropy = λ n. n * 7;
  drawn = 0;
}

abbrev host : SshConnection
host = record {
  id = [];
  name = codes "demo";
  addr = codes "example.com:22";
  user = codes "admin";
  password = codes "changeme";
}

save_connection-Saves_example : Saves host disk (save_ssh_connection host disk)
save_connection-Saves_example = save_connection-Saves host disk

delete_connection-Drops_example : Drops (codes "x") disk (delete_ssh_connection (codes "x") disk)
delete_connection-Drops_example = delete_connection-Drops (codes "x") disk

abbrev renewed : List ProxyNode
renewed = node (codes "t") protocol_vless ∷ node [] protocol_vless ∷ []

upsert_nodes-Upserts_example : Upserts renewed disk (upsert_proxy_nodes renewed disk)
upsert_nodes-Upserts_example = upsert_nodes-Upserts renewed disk

save_settings-SavesSettings_example :
    SavesSettings zero_settings disk (save_settings zero_settings disk)
save_settings-SavesSettings_example = save_settings-SavesSettings zero_settings disk
