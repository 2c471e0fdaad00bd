-- ===== src/Proxy/SingBox.antt =====
-- parseSingBoxJSON of pkg/proxysubscription/subscription.go.
use safelink_ssh.Base.{Option, none, some, Result, List, [], ◌∷◌, ◌==◌, if◌then◌else◌}
use safelink_ssh.Base.Int.{ℤ}
use safelink_ssh.Text.{Text, trim, trim_space}
use safelink_ssh.Proxy.Node.{ProxyNode}
use safelink_ssh.Proxy.Words.{
  normalize_protocol, is_supported_protocol, normalize_packet_encoding, first_non_empty,
}
use safelink_ssh.Proxy.Codec.{Codec, SingBoxOutbound}
use safelink_ssh.Proxy.Clash.{flexible_int}
use safelink_ssh.Proxy.Gather.{ParseError, parse_entries}

-- flexibleInt.UnmarshalJSON: a number, or a number in quotes
unfoldable pub flexible_json : Text → ℤ
unfolding flexible_int
flexible_json content = flexible_int (trim (λ c. c == b'"') (trim_space content))

unfoldable pub outbound_to_node : SingBoxOutbound → Option ProxyNode
unfolding normalize_protocol is_supported_protocol normalize_packet_encoding first_non_empty
    flexible_json
outbound_to_node outbound =
    let protocol = normalize_protocol outbound.type in
    if is_supported_protocol protocol
    then some (record {
      id = [];
      subscription_id = [];
      name = first_non_empty (outbound.tag ∷ outbound.server ∷ []);
      protocol = protocol;
      server = outbound.server;
      port = flexible_json outbound.server_port;
      method = outbound.method;
      password = outbound.password;
      uuid = outbound.uuid;
      alter_id = flexible_json outbound.alter_id;
      security = outbound.security;
      flow = outbound.flow;
      udp = outbound.udp;
      packet_encoding = normalize_packet_encoding outbound.packet_encoding;
      tls = outbound.tls;
      transport = outbound.transport;
    })
    else none

unfoldable pub parse_sing_box_json : Codec → Text → Result ParseError (List ProxyNode)
unfolding parse_entries outbound_to_node
parse_sing_box_json codec content = parse_entries outbound_to_node (codec.sing_box_json content)
