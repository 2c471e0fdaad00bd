-- ===== src/Store.antt =====
-- client/internal/store/store.go: the records of the store, its files and what an operation can meet.
-- A file holds the value that its JSON encodes. `io` is the outcomes of the coming system calls (when
-- it runs out they succeed), `entropy` the bytes that crypto/rand gives, `drawn` how many were taken.
pub mod Disk
pub mod Subscriptions
pub mod Hex
pub mod Ssh
pub mod Settings
pub mod Nodes
pub mod Active
use safelink_ssh.Base.{
  ℕ, zero, suc, ◌+◌, ◌-◌, ◌%◌, ◌/◌, Bool, true, false, Option, List, [], ◌∷◌, ◌++◌, Exec, pure, ◌≡◌,
  refl, Result, ok, err, ltb, if◌then◌else◌,
}
use safelink_ssh.Base.Int.{ℤ}
use safelink_ssh.Text.{Text, codes, is_empty}
use safelink_ssh.Config.Tunnel.{TunnelCfg}
use safelink_ssh.Config.Rules.{ProxyRule}
use safelink_ssh.Proxy.Node.{ProxyNode}

abbrev pub kind_vpn : Text
kind_vpn = codes "vpn"

abbrev pub kind_proxy : Text
kind_proxy = codes "proxy"

pub record SubscriptionSource : Type 0 where
  pub id : Text
  pub name : Text
  pub url : Text
  pub format : Text
  pub kind : Text
  pub enabled : Bool
  pub auto_refresh : Bool
  pub interval_min : ℤ
  pub last_refresh : Text
  pub last_error : Text
  pub tunnel_count : ℤ
  pub node_count : ℤ
  pub usage_upload : ℕ
  pub usage_download : ℕ
  pub usage_total : ℕ
  pub usage_expire : ℤ

pub record SshConnection : Type 0 where
  pub id : Text
  pub name : Text
  pub addr : Text
  pub user : Text
  pub password : Text

-- A nil slice of rules is `none`.
pub record ClientSettings : Type 0 where
  pub proxy_mode : Text
  pub system_proxy : Bool
  pub auto_start : Bool
  pub bypass_lan : Bool
  pub auto_connect : Bool
  pub minimize_to_tray : Bool
  pub rule_mode_rules : Option (List ProxyRule)
  pub rule_mode_rules_version : ℤ
  pub selected_proxy_node_id : Text
  pub selected_proxy_subscription_id : Text

-- `garbled` is a file that json.Unmarshal refuses.
pub data File (A : Type 0) : Type 0 where
  missing garbled : File A
  holds : A → File A

pub record Files : Type 0 where
  pub tunnels : File (List TunnelCfg)
  pub subscriptions : File (List SubscriptionSource)
  pub proxy_nodes : File (List ProxyNode)
  pub ssh_connections : File (List SshConnection)
  pub settings : File ClientSettings

pub record World : Type 0 where
  pub files : Files
  pub temps : ℕ
  pub io : List Bool
  pub entropy : ℕ → ℕ
  pub drawn : ℕ

-- The error messages of the store.
pub data StoreError : Type 0 where
  read_failed parse_failed : StoreError
  mkdir_failed create_failed write_failed fsync_failed close_failed rename_failed : StoreError
  ssh_name_required ssh_addr_required ssh_user_required ssh_password_required : StoreError
  ssh_connection_not_found : Text → StoreError
  subscription_id_required : StoreError
  subscription_not_found : Text → StoreError

abbrev pub Action : Type 0 → Type 0
Action A = Exec World StoreError A

-- One of the files.
pub record Slot (A : Type 0) : Type 0 where
  pub get : Files → File A
  pub put : File A → Files → Files

abbrev pub tunnels_path : Slot (List TunnelCfg)
tunnels_path = record { get = λ d. d.tunnels; put = λ f d. record d { tunnels = f } }

abbrev pub subs_path : Slot (List SubscriptionSource)
subs_path = record { get = λ d. d.subscriptions; put = λ f d. record d { subscriptions = f } }

abbrev pub proxy_nodes_path : Slot (List ProxyNode)
proxy_nodes_path = record { get = λ d. d.proxy_nodes; put = λ f d. record d { proxy_nodes = f } }

abbrev pub ssh_conns_path : Slot (List SshConnection)
ssh_conns_path = record {
  get = λ d. d.ssh_connections;
  put = λ f d. record d { ssh_connections = f };
}

abbrev pub settings_path : Slot ClientSettings
settings_path = record { get = λ d. d.settings; put = λ f d. record d { settings = f } }

-- hex.EncodeToString
unfoldable pub hex_digit : ℕ → ℕ
hex_digit n = if ltb n 10 then b'0' + n else b'a' + (n - 10)

unfoldable pub hex_encode : List ℕ → Text
hex_encode [] = []
hex_encode (b ∷ bs) = hex_digit (b / 16) ∷ hex_digit (b % 16) ∷ hex_encode bs

-- The next bytes of crypto/rand, from the n-th on.
unfoldable pub draw : ℕ → (ℕ → ℕ) → ℕ → List ℕ
draw zero entropy n = []
draw (suc k) entropy n = entropy n % 256 ∷ draw k entropy (n + 1)

-- randomID: eight random bytes.
unfoldable pub random_id : Action Text
random_id w = (ok (hex_encode (draw 8 w.entropy w.drawn)), record w { drawn = w.drawn + 8 })

-- if x.ID == "" { x.ID = randomID() }
unfoldable pub id_or_random : Text → Action Text
id_or_random id = if is_empty id then random_id else pure id

-- The identifier that comes out.
abbrev pub new_id : Text → World → Text
new_id id w = if is_empty id then hex_encode (draw 8 w.entropy w.drawn) else id

pub id_or_random_lem :
    (id : Text) (w : World)
    → (v : World) × (id_or_random id w ≡ (ok (new_id id w), v))
      × (v.files ≡ w.files)
      × (v.entropy ≡ w.entropy)
unfolding id_or_random random_id
id_or_random_lem [] w = (record w { drawn = w.drawn + 8 }, refl, refl, refl)
id_or_random_lem (c ∷ id) w = (w, refl, refl, refl)
