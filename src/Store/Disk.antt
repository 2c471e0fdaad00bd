-- ===== src/Store/Disk.antt =====
-- Reading and writing the files: the Load and Save functions and writeFileAtomic of
-- client/internal/store/store.go.
pub mod Atomic
pub mod Transact
use safelink_ssh.Base.{
  ℕ, ◌+◌, ◌-◌, Bool, true, false, List, [], ◌∷◌, Result, ok, err, Exec, ◌>>=◌, ◌>>◌, pure, raise,
  if◌then◌else◌,
}
use safelink_ssh.Config.Tunnel.{TunnelCfg}
use safelink_ssh.Proxy.Node.{ProxyNode}
use safelink_ssh.Store.{
  File, missing, garbled, holds, Files, World, StoreError, Action, Slot, SubscriptionSource,
  SshConnection, tunnels_path, subs_path, proxy_nodes_path, ssh_conns_path, read_failed,
  parse_failed, mkdir_failed, create_failed, write_failed, fsync_failed, close_failed,
  rename_failed,
}

next_outcome : List Bool → Bool × List Bool
next_outcome [] = (true, [])
next_outcome (b ∷ bs) = (b, bs)

after_call : StoreError → World → Bool × List Bool → Result StoreError (Unit {0}) × World
after_call e w (true, rest) = (ok tt, record w { io = rest })
after_call e w (false, rest) = (err e, record w { io = rest })

-- A system call that returns an error `e` if it fails.
unfoldable pub syscall : StoreError → Action (Unit {0})
unfolding next_outcome after_call
syscall e w = after_call e w (next_outcome w.io)

parse : {A : Type 0} → A → File A → Result StoreError A
parse default missing = ok default
parse default garbled = err parse_failed
parse default (holds a) = ok a

-- os.ReadFile and json.Unmarshal, with what the Load functions return for a missing file.
unfoldable pub load : {A : Type 0} → Slot A → A → Action A
unfolding syscall parse
load slot default = do syscall read_failed; λ w. (parse default (slot.get w.files), w)

create_temp : Action (Unit {0})
create_temp w = (ok tt, record w { temps = w.temps + 1 })

-- os.Rename makes the temporary file the file of the slot.
install : {A : Type 0} → Slot A → A → Action (Unit {0})
install slot a w = (ok tt, record w { temps = w.temps - 1; files = slot.put (holds a) w.files })

-- os.Remove of a temporary file; its error is dropped.
after_remove : World → Bool × List Bool → World
after_remove w (true, rest) = record w { io = rest; temps = w.temps - 1 }
after_remove w (false, rest) = record w { io = rest }

-- defer os.Remove(tmpName), which finds no file after the rename.
remove_temp : Result StoreError (Unit {0}) × World → Result StoreError (Unit {0}) × World
unfolding next_outcome after_remove
remove_temp (ok u, w) = (ok u, w)
remove_temp (err e, w) = (err e, after_remove w (next_outcome w.io))

fill_temp : {A : Type 0} → Slot A → A → Action (Unit {0})
unfolding syscall install
fill_temp slot a = do
  syscall write_failed
  syscall fsync_failed
  syscall close_failed
  syscall rename_failed
  install slot a

unfoldable pub write_file_atomic : {A : Type 0} → Slot A → A → Action (Unit {0})
unfolding syscall create_temp fill_temp remove_temp
write_file_atomic slot a = do
  syscall mkdir_failed
  syscall create_failed
  create_temp
  λ w. remove_temp (fill_temp slot a w)

-- The Load and Save functions of each file; a nil slice is saved as an empty one.
abbrev pub load_tunnels : Action (List TunnelCfg)
load_tunnels = load tunnels_path []

abbrev pub save_tunnels : List TunnelCfg → Action (Unit {0})
save_tunnels = write_file_atomic tunnels_path

abbrev pub load_subscriptions : Action (List SubscriptionSource)
load_subscriptions = load subs_path []

abbrev pub save_subscriptions : List SubscriptionSource → Action (Unit {0})
save_subscriptions = write_file_atomic subs_path

abbrev pub load_proxy_nodes : Action (List ProxyNode)
load_proxy_nodes = load proxy_nodes_path []

abbrev pub save_proxy_nodes : List ProxyNode → Action (Unit {0})
save_proxy_nodes = write_file_atomic proxy_nodes_path

abbrev pub load_ssh_connections : Action (List SshConnection)
load_ssh_connections = load ssh_conns_path []

abbrev pub save_ssh_connections : List SshConnection → Action (Unit {0})
save_ssh_connections = write_file_atomic ssh_conns_path
