-- ===== src/Config/Tunnel.antt =====
-- pkg/config/tunnel.go and ValidateTunnel of pkg/config/validate.go.
pub mod Validity
use safelink_ssh.Base.{Bool, ◌||◌, ◌&&◌, Option, List, Result, ok, err, if◌then◌else◌}
use safelink_ssh.Text.{Text, codes, is_empty, text_eq}

abbrev pub mode_local : Text
mode_local = codes "local"

abbrev pub mode_remote : Text
mode_remote = codes "remote"

abbrev pub mode_dynamic : Text
mode_dynamic = codes "dynamic"

abbrev pub mode_vpn : Text
mode_vpn = codes "vpn"

pub record SshCfg : Type 0 where
  pub addr : Text
  pub user : Text
  pub identity_file : Text
  pub passphrase : Text
  pub password : Text

pub record TunCfg : Type 0 where
  pub subnet : Text
  pub dns : List Text
  pub auto_route : Bool
  pub tls_cert : Text
  pub tls_key : Text
  pub sni : Text
  pub pin_sha256 : Text
  pub padding : Option Bool

pub record TunnelCfg : Type 0 where
  pub name : Text
  pub mode : Text
  pub ssh : SshCfg
  pub listen : Text
  pub forward : Text
  pub transport : Text
  pub tun : TunCfg

-- The error messages of ValidateTunnel.
pub data TunnelError : Type 0 where
  name_required : TunnelError
  listen_and_forward_required : Text → TunnelError
  listen_required : TunnelError
  server_address_required : TunnelError
  auth_username_required : TunnelError
  auth_password_required : TunnelError
  unknown_mode : Text → TunnelError
  ssh_addr_and_user_required : TunnelError
  ssh_identity_or_password_required : TunnelError

-- The checks behind the switch on the mode, which the VPN case returns before.
unfoldable pub validate_ssh : SshCfg → Result TunnelError (Unit {0})
validate_ssh s =
    if is_empty s.addr || is_empty s.user
    then err ssh_addr_and_user_required
    else if is_empty s.identity_file && is_empty s.password
    then err ssh_identity_or_password_required
    else ok tt

unfoldable pub validate_vpn : TunnelCfg → Result TunnelError (Unit {0})
validate_vpn t =
    if is_empty t.forward
    then err server_address_required
    else if is_empty t.ssh.user
    then err auth_username_required
    else if is_empty t.ssh.password
    then err auth_password_required
    else ok tt

unfoldable pub validate_tunnel : TunnelCfg → Result TunnelError (Unit {0})
unfolding validate_ssh validate_vpn
validate_tunnel t =
    if is_empty t.name
    then err name_required
    else if text_eq t.mode mode_local || text_eq t.mode mode_remote
    then (if is_empty t.listen || is_empty t.forward
        then err (listen_and_forward_required t.mode)
        else validate_ssh t.ssh)
    else if text_eq t.mode mode_dynamic
    then (if is_empty t.listen then err listen_required else validate_ssh t.ssh)
    else if text_eq t.mode mode_vpn
    then validate_vpn t
    else err (unknown_mode t.mode)
