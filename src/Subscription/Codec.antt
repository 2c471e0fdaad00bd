-- ===== src/Subscription/Codec.antt =====
-- The documents of pkg/subscription/subscription.go; encoding/json and yaml.v3 are parameters.
use safelink_ssh.Base.{Bool, Option, List}
use safelink_ssh.Base.Int.{ℤ}
use safelink_ssh.Text.{Text, codes}
use safelink_ssh.Config.Tunnel.{TunnelCfg}

abbrev pub format_auto : Text
format_auto = codes "auto"

abbrev pub format_safe_link_json : Text
format_safe_link_json = codes "safelink-json"

abbrev pub format_clash_yaml : Text
format_clash_yaml = codes "clash-yaml"

abbrev pub clash_safe_link_type : Text
clash_safe_link_type = codes "safelink-vpn"

pub record Document : Type 0 where
  pub version : ℤ
  pub tunnels : List TunnelCfg

pub record ClashProxy : Type 0 where
  pub name : Text
  pub type : Text
  pub server : Text
  pub port : ℤ
  pub username : Text
  pub password : Text
  pub sni : Text
  pub subnet : Text
  pub dns : List Text
  pub auto_route : Bool
  pub pin_sha256 : Text
  pub padding : Option Bool

-- json.Unmarshal, json.MarshalIndent, yaml.Unmarshal and yaml.Marshal; none is an error.
pub record Codec : Type 0 where
  pub read_json : Text → Option Document
  pub write_json : Document → Option Text
  pub read_yaml : Text → Option (List ClashProxy)
  pub write_yaml : List ClashProxy → Option Text
