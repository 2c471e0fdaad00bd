-- ===== src/Tests/Configs.antt =====
-- Configurations: pkg/config.
use safelink_ssh.Base.{
  ◌≡◌, refl, ◌≢◌, ◌↔◌, true, none, some, List, [], ◌∷◌, ok, err, All, ℕ, Option,
}
use safelink_ssh.Text.{codes, text_eq, trim_space, to_lower, contains_any}
use safelink_ssh.Net.Prefix.{parses_as_prefix}
use safelink_ssh.Config.Tunnel.{TunnelCfg, validate_tunnel, mode_vpn, unknown_mode}
use safelink_ssh.Config.Tunnel.Validity.{IsComplete, validate_tunnel_iff}
use safelink_ssh.Config.Rules.{
  ProxyRule, normalize_proxy_rules, normalize_proxy_rule, normalize_proxy_rule_type,
  normalize_proxy_rule_outbound, normalize_value, check_proxy_rule, check_proxy_rules,
  validate_proxy_rules, invalid_cidr,
}
use safelink_ssh.Config.Rules.Normal.{IsNormal, normalize_rules_lem}
use safelink_ssh.Config.Rules.Usable.{IsUsable, validate_rules_iff}
use safelink_ssh.Config.Server.{
  ServerCfg, bytes, apply_defaults, default_server_config, load_server_config,
}

abbrev gateway : TunnelCfg
gateway = record {
  name = codes "demo";
  mode = mode_vpn;
  ssh = record {
    addr = [];
    user = codes "admin";
    identity_file = [];
    passphrase = [];
    password = codes "changeme";
  };
  listen = [];
  forward = codes "vpn.example.com:1562";
  transport = [];
  tun = record {
    subnet = codes "10.8.0.2/24";
    dns = codes "1.1.1.1" ∷ [];
    auto_route = true;
    tls_cert = [];
    tls_key = [];
    sni = [];
    pin_sha256 = [];
    padding = none;
  };
}

validate_gateway : validate_tunnel gateway ≡ ok tt
unfolding validate_tunnel text_eq
validate_gateway = refl

validate_unknown :
    validate_tunnel (record gateway { mode = codes "udp" }) ≡ err (unknown_mode (codes "udp"))
unfolding validate_tunnel text_eq
validate_unknown = refl

validate_tunnel_iff_example :
    (validate_tunnel gateway ≡ ok tt) ↔ ((gateway.name ≢ []) × IsComplete gateway)
validate_tunnel_iff_example = validate_tunnel_iff gateway

abbrev typed_by_hand : List ProxyRule
typed_by_hand =
    record {
      id = [];
      name = codes " office ";
      type = codes "CIDR";
      value = codes " 10.1.0.0/16 ";
      outbound = codes "Direct";
      enabled = true;
    }
    ∷ record {
      id = [];
      name = [];
      type = codes "cidr";
      value = codes "10.1.0.0/99";
      outbound = [];
      enabled = true;
    }
    ∷ []

second_refused : validate_proxy_rules typed_by_hand ≡ err (invalid_cidr 2 (codes "10.1.0.0/99"))
unfolding validate_proxy_rules check_proxy_rules check_proxy_rule normalize_proxy_rules
    normalize_proxy_rule normalize_proxy_rule_type normalize_proxy_rule_outbound normalize_value
    trim_space to_lower text_eq contains_any parses_as_prefix
second_refused = refl

normalize_rules_example :
    All IsNormal (normalize_proxy_rules typed_by_hand)
    × (normalize_proxy_rules (normalize_proxy_rules typed_by_hand)
        ≡ normalize_proxy_rules typed_by_hand)
normalize_rules_example = normalize_rules_lem typed_by_hand

validate_rules_iff_example :
    (validate_proxy_rules typed_by_hand ≡ ok tt)
    ↔ All (λ (r : ProxyRule). r.enabled ≡ true → IsUsable r) (normalize_proxy_rules typed_by_hand)
validate_rules_iff_example = validate_rules_iff typed_by_hand

-- A decoder that keeps the defaults of an empty file but drops the listening address.
abbrev forgetful : List ℕ → ServerCfg → Option ServerCfg
forgetful b c = some (record c { listen = [] })

load_config_run :
    load_server_config forgetful (codes "server.yaml") (bytes []) ≡ ok default_server_config
unfolding load_server_config apply_defaults
load_config_run = refl
