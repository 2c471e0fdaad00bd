-- ===== src/Vpn/Runtime.antt =====
-- The registry of server/internal/vpnserver/runtime.go. The map of clients is a list of its entries,
-- whose order stands for the order in which Go goes through the map. Times are nanoseconds.
pub mod Traffic
pub mod Ids
pub mod Snapshot
use safelink_ssh.Base.{
  ℕ, ◌+◌, ◌-◌, ◌/◌, ◌%◌, ◌^◌, Bool, true, false, Option, none, some, List, [], ◌∷◌, ◌++◌, map,
  if◌then◌else◌, ltb, length,
}
use safelink_ssh.Base.Decimal.{decimal}
use safelink_ssh.Text.{Text, codes, text_eq}

pub record RuntimeConfig : Type 0 where
  pub listen_addr : Text
  pub subnet : Text
  pub nat_iface : Text
  pub nat_enabled : Bool
  pub padding : Bool

pub record ClientRuntime : Type 0 where
  pub id : Text
  pub remote_addr : Text
  pub connected_at : ℕ
  pub bytes_in : ℕ
  pub bytes_out : ℕ
  pub last_traffic_at : ℕ
  pub tun_name : Text
  pub last_error : Text
  pub authenticated_as : Text

pub record Runtime : Type 0 where
  pub cfg : RuntimeConfig
  pub started_at : ℕ
  pub next_client : ℕ
  pub total_clients : ℕ
  pub total_bytes_in : ℕ
  pub total_bytes_out : ℕ
  pub clients : List (Text × ClientRuntime)

-- a + b on uint64
abbrev pub add64 : ℕ → ℕ → ℕ
add64 a b = (a + b) % 2 ^ 64

unfoldable pub new_runtime : RuntimeConfig → ℕ → Runtime
new_runtime cfg now = record {
  cfg = cfg;
  started_at = now;
  next_client = 0;
  total_clients = 0;
  total_bytes_in = 0;
  total_bytes_out = 0;
  clients = [];
}

-- delete(m, id)
unfoldable pub without_client : Text → List (Text × ClientRuntime) → List (Text × ClientRuntime)
without_client id [] = []
without_client id ((k, c) ∷ clients) =
    let rest = without_client id clients in if text_eq k id then rest else (k, c) ∷ rest

-- m[id] = c
unfoldable pub put_client :
    Text → ClientRuntime → List (Text × ClientRuntime) → List (Text × ClientRuntime)
unfolding without_client
put_client id c clients = (id, c) ∷ without_client id clients

-- if c := m[id]; c != nil { ... }
unfoldable pub change_client :
    Text
    → (ClientRuntime → ClientRuntime)
    → List (Text × ClientRuntime)
    → List (Text × ClientRuntime)
change_client id f [] = []
change_client id f ((k, c) ∷ clients) =
    let rest = change_client id f clients in
    if text_eq k id then (k, f c) ∷ clients else (k, c) ∷ rest

abbrev pub client_id : ℕ → Text
client_id n = codes "client-" ++ decimal n

-- &clientRuntime{...}
abbrev pub new_client : Text → Text → ℕ → ClientRuntime
new_client id remote now = record {
  id = id;
  remote_addr = remote;
  connected_at = now;
  bytes_in = 0;
  bytes_out = 0;
  last_traffic_at = now;
  tun_name = [];
  last_error = [];
  authenticated_as = [];
}

-- A nil address has the empty text.
unfoldable pub register_client : Text → ℕ → Runtime → Text × Runtime
unfolding put_client
register_client remote now r =
    let n = add64 r.next_client 1 in
    let id = client_id n in
    (
      id,
      record r {
        next_client = n;
        total_clients = add64 r.total_clients 1;
        clients = put_client id (new_client id remote now) r.clients;
      },
    )

unfoldable pub unregister_client : Text → Runtime → Runtime
unfolding without_client
unregister_client id r = record r { clients = without_client id r.clients }

unfoldable pub set_client_tun : Text → Text → Runtime → Runtime
unfolding change_client
set_client_tun id name r = record r {
  clients = change_client id (λ c. record c { tun_name = name }) r.clients;
}

unfoldable pub set_client_user : Text → Text → Runtime → Runtime
unfolding change_client
set_client_user id username r = record r {
  clients = change_client id (λ c. record c { authenticated_as = username }) r.clients;
}

-- With no error, nothing is recorded.
unfoldable pub set_client_error : Text → Option Text → Runtime → Runtime
unfolding change_client
set_client_error id none r = r
set_client_error id (some e) r = record r {
  clients = change_client id (λ c. record c { last_error = e }) r.clients;
}

abbrev pub count_traffic : ℕ → ℕ → ℕ → ClientRuntime → ClientRuntime
count_traffic bytes_in bytes_out now c = record c {
  bytes_in = add64 c.bytes_in bytes_in;
  bytes_out = add64 c.bytes_out bytes_out;
  last_traffic_at = now;
}

unfoldable pub add_client_traffic : Text → ℕ → ℕ → ℕ → Runtime → Runtime
unfolding change_client
add_client_traffic id bytes_in bytes_out now r = record r {
  total_bytes_in = add64 r.total_bytes_in bytes_in;
  total_bytes_out = add64 r.total_bytes_out bytes_out;
  clients = change_client id (count_traffic bytes_in bytes_out now) r.clients;
}
