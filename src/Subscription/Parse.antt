-- ===== src/Subscription/Parse.antt =====
-- Parse of pkg/subscription/subscription.go.
use safelink_ssh.Base.{
  ◌+◌, Bool, false, not, ◌||◌, Result, ok, err, ok_or, and_then, List, [], ◌∷◌, if◌then◌else◌, ◌==◌,
}
use safelink_ssh.Base.Int.{ℤ, pos, negsuc}
use safelink_ssh.Base.Decimal.{decimal}
use safelink_ssh.Text.{Text, codes, is_empty, text_eq, trim_space, to_lower}
use safelink_ssh.Net.HostPort.{join_host_port}
use safelink_ssh.Config.Tunnel.{TunnelCfg, TunnelError, mode_vpn, validate_tunnel}
use safelink_ssh.Subscription.Codec.{
  Codec, ClashProxy, format_auto, format_safe_link_json, format_clash_yaml, clash_safe_link_type,
}

pub data ParseError : Type 0 where
  undecodable no_tunnels no_proxies no_vpn_proxies no_vpn_tunnels unknown_content : ParseError
  proxy_incomplete : Text → ParseError
  invalid_tunnel : Text → TunnelError → ParseError
  unsupported_format : Text → ParseError

abbrev pub Tunnels : Type 0
Tunnels = Result ParseError (List TunnelCfg)

-- if tunnel.Mode == "" { tunnel.Mode = config.ModeVPN }
abbrev pub with_mode : TunnelCfg → TunnelCfg
with_mode t = record t { mode = if is_empty t.mode then mode_vpn else t.mode }

unfoldable pub prepend : TunnelCfg → List TunnelCfg → Tunnels
prepend t rest = ok (t ∷ rest)

-- One round of the loop of normalizeTunnels: the rounds behind it run only if this one passes.
unfoldable pub normalize_step : TunnelCfg → Result TunnelError (Unit {0}) → Tunnels → Tunnels
unfolding and_then prepend
normalize_step t (err e) rest = err (invalid_tunnel t.name e)
normalize_step t (ok valid) rest = and_then rest (prepend t)

-- The round, for the tunnel with its mode filled in.
unfoldable pub normalize_one : TunnelCfg → Tunnels → Tunnels
unfolding normalize_step validate_tunnel
normalize_one t rest =
    if text_eq t.mode mode_vpn then normalize_step t (validate_tunnel t) rest else rest

unfoldable pub normalize_loop : List TunnelCfg → Tunnels
unfolding normalize_one
normalize_loop [] = ok []
normalize_loop (tunnel ∷ tunnels) = normalize_one (with_mode tunnel) (normalize_loop tunnels)

unfoldable pub some_tunnels : ParseError → List TunnelCfg → Tunnels
some_tunnels e [] = err e
some_tunnels e (t ∷ tunnels) = ok (t ∷ tunnels)

unfoldable pub normalize_tunnels : List TunnelCfg → Tunnels
unfolding normalize_loop some_tunnels and_then
normalize_tunnels tunnels = and_then (normalize_loop tunnels) (some_tunnels no_vpn_tunnels)

unfoldable pub parse_safe_link_json : Codec → Text → Tunnels
unfolding normalize_tunnels ok_or some_tunnels
parse_safe_link_json codec content =
    and_then (ok_or undecodable (codec.read_json content))
      (λ doc. and_then (some_tunnels no_tunnels doc.tunnels) normalize_tunnels)

-- strconv.Itoa
unfoldable pub itoa : ℤ → Text
unfolding decimal
itoa (pos n) = decimal n
itoa (negsuc n) = b'-' ∷ decimal (n + 1)

unfoldable pub is_zero : ℤ → Bool
is_zero (pos n) = n == 0
is_zero (negsuc n) = false

unfoldable pub clash_tunnel : ClashProxy → TunnelCfg
unfolding join_host_port itoa
clash_tunnel proxy = record {
  name = proxy.name;
  mode = mode_vpn;
  ssh = record {
    addr = [];
    user = proxy.username;
    identity_file = [];
    passphrase = [];
    password = proxy.password;
  };
  listen = [];
  forward = join_host_port proxy.server (itoa proxy.port);
  transport = [];
  tun = record {
    subnet = proxy.subnet;
    dns = proxy.dns;
    auto_route = proxy.auto_route;
    tls_cert = [];
    tls_key = [];
    sni = proxy.sni;
    pin_sha256 = proxy.pin_sha256;
    padding = proxy.padding;
  };
}

-- The loop of parseClashYAML: a proxy of the type that lacks a field ends it.
unfoldable pub clash_tunnels : List ClashProxy → Tunnels
unfolding clash_tunnel is_zero and_then prepend
clash_tunnels [] = ok []
clash_tunnels (proxy ∷ proxies) =
    let rest = clash_tunnels proxies in
    if not (text_eq proxy.type clash_safe_link_type)
    then rest
    else if is_empty proxy.name || is_empty proxy.server || is_zero proxy.port
    then err (proxy_incomplete proxy.name)
    else and_then rest (prepend (clash_tunnel proxy))

unfoldable pub some_proxies : List ClashProxy → Result ParseError (List ClashProxy)
some_proxies [] = err no_proxies
some_proxies (p ∷ proxies) = ok (p ∷ proxies)

unfoldable pub parse_clash_yaml : Codec → Text → Tunnels
unfolding some_proxies clash_tunnels some_tunnels normalize_tunnels ok_or and_then
parse_clash_yaml codec content = and_then (ok_or undecodable (codec.read_yaml content)) (λ doc.
    and_then (some_proxies doc) (λ proxies.
      and_then (clash_tunnels proxies)
        (λ tunnels. and_then (some_tunnels no_vpn_proxies tunnels) normalize_tunnels)))

unfoldable pub normalize_format : Text → Text
normalize_format format =
    let f = to_lower (trim_space format) in
    if is_empty f
    then format_auto
    else if text_eq f (codes "json")
    then format_safe_link_json
    else if text_eq f (codes "clash") || text_eq f (codes "yaml") || text_eq f (codes "yml")
    then format_clash_yaml
    else f

-- The first parser that succeeds, with its format.
unfoldable pub first_parsed : Text → Tunnels → Text × Tunnels → Text × Tunnels
first_parsed format (ok tunnels) later = (format, ok tunnels)
first_parsed format (err e) later = later

unfoldable pub parse : Codec → Text → Text → Text × Tunnels
unfolding normalize_format parse_safe_link_json parse_clash_yaml first_parsed
parse codec content format =
    let f = normalize_format format in
    if text_eq f format_safe_link_json
    then (format_safe_link_json, parse_safe_link_json codec content)
    else if text_eq f format_clash_yaml
    then (format_clash_yaml, parse_clash_yaml codec content)
    else if text_eq f format_auto
    then first_parsed format_safe_link_json (parse_safe_link_json codec content)
        (first_parsed format_clash_yaml (parse_clash_yaml codec content) ([], err unknown_content))
    else ([], err (unsupported_format format))
