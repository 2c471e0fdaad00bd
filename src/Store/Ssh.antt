-- ===== src/Store/Ssh.antt =====
-- The saved SSH connections of client/internal/store/store.go. SaveSSHConnection returns the connection
-- beside the error of the last write too; here only the error comes back then.
pub mod Lookup
use safelink_ssh.Base.{
  Bool, true, false, ◌||◌, List, [], ◌∷◌, ◌++◌, Result, ok, err, Exec, ◌>>=◌, ◌>>◌, pure, raise,
  lift, resume, if◌then◌else◌,
}
use safelink_ssh.Text.{Text, is_empty, text_eq}
use safelink_ssh.Store.{
  SshConnection, World, StoreError, Action, ssh_conns_path, id_or_random, ssh_name_required,
  ssh_addr_required, ssh_user_required, ssh_password_required, ssh_connection_not_found,
}
use safelink_ssh.Store.Disk.{load_ssh_connections, save_ssh_connections}

-- The guards of SaveSSHConnection.
unfoldable pub check_connection : SshConnection → Result StoreError (Unit {0})
check_connection conn =
    if is_empty conn.name
    then err ssh_name_required
    else if is_empty conn.addr
    then err ssh_addr_required
    else if is_empty conn.user
    then err ssh_user_required
    else if is_empty conn.password
    then err ssh_password_required
    else ok tt

-- The loop of SaveSSHConnection: the first connection with the identifier is replaced, or the new one
-- comes last.
unfoldable pub put_connection : SshConnection → List SshConnection → List SshConnection
put_connection conn [] = conn ∷ []
put_connection conn (c ∷ conns) =
    let rest = put_connection conn conns in if text_eq c.id conn.id then conn ∷ conns else c ∷ rest

unfoldable pub write_connection : List SshConnection → SshConnection → Action SshConnection
write_connection conns conn = do save_ssh_connections (put_connection conn conns); pure conn

unfoldable pub save_ssh_connection : SshConnection → Action SshConnection
unfolding write_connection
save_ssh_connection conn = do
  lift (check_connection conn)
  conns ← load_ssh_connections
  id ← id_or_random conn.id
  write_connection conns (record conn { id = id })

-- The loop of DeleteSSHConnection: the connections that stay, and whether one goes.
unfoldable pub without_connection : Text → List SshConnection → List SshConnection × Bool
without_connection id [] = ([], false)
without_connection id (c ∷ conns) =
    let (rest, found) = without_connection id conns in
    if text_eq c.id id then (rest, true) else (c ∷ rest, found)

unfoldable pub drop_connection : Text → List SshConnection × Bool → Action (Unit {0})
drop_connection id (rest, true) = save_ssh_connections rest
drop_connection id (rest, false) = raise (ssh_connection_not_found id)

unfoldable pub delete_ssh_connection : Text → Action (Unit {0})
unfolding drop_connection
delete_ssh_connection id = do
  conns ← load_ssh_connections
  drop_connection id (without_connection id conns)
