-- ===== src/Subscription/Encode.antt =====
-- EncodeSafeLinkJSON and EncodeClashYAML of pkg/subscription/subscription.go.
use safelink_ssh.Base.{Result, ok, err, ok_or, and_then, List, [], ◌∷◌, if◌then◌else◌}
use safelink_ssh.Base.Int.{ℤ, pos}
use safelink_ssh.Text.{Text, text_eq}
use safelink_ssh.Text.Number.{atoi}
use safelink_ssh.Net.HostPort.{split_host_port}
use safelink_ssh.Config.Tunnel.{TunnelCfg, mode_vpn}
use safelink_ssh.Proxy.Valid.{is_port}
use safelink_ssh.Subscription.Codec.{Codec, ClashProxy, clash_safe_link_type}

pub data EncodeError : Type 0 where
  unencodable : EncodeError
  invalid_forward : Text → Text → EncodeError
  invalid_port : Text → Text → EncodeError

-- onlyVPN
unfoldable pub only_vpn : List TunnelCfg → List TunnelCfg
only_vpn [] = []
only_vpn (t ∷ tunnels) =
    let rest = only_vpn tunnels in if text_eq t.mode mode_vpn then t ∷ rest else rest

unfoldable pub encode_safe_link_json : Codec → List TunnelCfg → Result EncodeError Text
unfolding only_vpn ok_or
encode_safe_link_json codec tunnels =
    ok_or unencodable (codec.write_json (record { version = pos 1; tunnels = only_vpn tunnels }))

-- splitHostPort, for the tunnel of a name
unfoldable pub split_forward : Text → Text → Result EncodeError (Text × ℤ)
unfolding split_host_port atoi is_port ok_or and_then
split_forward name forward =
    and_then (ok_or (invalid_forward name forward) (split_host_port forward)) (λ parts.
      and_then (ok_or (invalid_port name parts.1) (atoi parts.1))
        (λ port. if is_port port then ok (parts.0, port) else err (invalid_port name parts.1)))

unfoldable pub clash_proxy : TunnelCfg → Text × ℤ → ClashProxy
clash_proxy tunnel (host, port) = record {
  name = tunnel.name;
  type = clash_safe_link_type;
  server = host;
  port = port;
  username = tunnel.ssh.user;
  password = tunnel.ssh.password;
  sni = tunnel.tun.sni;
  subnet = tunnel.tun.subnet;
  dns = tunnel.tun.dns;
  auto_route = tunnel.tun.auto_route;
  pin_sha256 = tunnel.tun.pin_sha256;
  padding = tunnel.tun.padding;
}

-- The loop of EncodeClashYAML.
unfoldable pub clash_proxies : List TunnelCfg → Result EncodeError (List ClashProxy)
unfolding split_forward clash_proxy and_then
clash_proxies [] = ok []
clash_proxies (tunnel ∷ tunnels) =
    let rest = clash_proxies tunnels in
    and_then (split_forward tunnel.name tunnel.forward)
      (λ address. and_then rest (λ proxies. ok (clash_proxy tunnel address ∷ proxies)))

unfoldable pub encode_clash_yaml : Codec → List TunnelCfg → Result EncodeError Text
unfolding only_vpn clash_proxies ok_or and_then
encode_clash_yaml codec tunnels =
    and_then (clash_proxies (only_vpn tunnels))
      (λ proxies. ok_or unencodable (codec.write_yaml proxies))
