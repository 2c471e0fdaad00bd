-- ===== src/Proxy/Clash.antt =====
-- clashProxyToNode and parseClashYAML of pkg/proxysubscription/subscription.go, with the Unmarshal
-- methods of flexibleInt and stringList.
use safelink_ssh.Base.{
  Bool, true, false, not, ◌&&◌, ◌||◌, Option, none, some, Result, List, [], ◌∷◌, map, if◌then◌else◌,
}
use safelink_ssh.Base.Int.{ℤ, pos}
use safelink_ssh.Text.{Text, codes, is_empty, text_eq, trim_space}
use safelink_ssh.Text.Split.{split}
use safelink_ssh.Text.Number.{atoi}
use safelink_ssh.Proxy.Node.{ProxyNode, TlsOptions, TransportOptions, protocol_hysteria2}
use safelink_ssh.Proxy.Words.{
  normalize_protocol, is_supported_protocol, normalize_packet_encoding, packet_encoding_xudp,
  first_non_empty,
}
use safelink_ssh.Proxy.Codec.{
  Codec, ClashProxy, ClashWsOpts, YamlNode, sequence_node, scalar_node, other_node, query_get,
}
use safelink_ssh.Proxy.Gather.{ParseError, parse_entries}

-- flexibleInt.parse, on a variable that is 0
unfoldable pub flexible_int : Text → ℤ
unfolding atoi
flexible_int text = elim (atoi (trim_space text)) [ none ↦ pos 0 | some n ↦ n ]

-- stringList.UnmarshalYAML, on a variable that is nil
unfoldable pub string_list : YamlNode → List Text
unfolding split
string_list (sequence_node items) = items
string_list (scalar_node value) = if is_empty value then [] else map trim_space (split b',' value)
string_list other_node = []

clash_packet_encoding : ClashProxy → Text
unfolding normalize_packet_encoding
clash_packet_encoding proxy =
    let encoding = normalize_packet_encoding proxy.packet_encoding in
    if is_empty encoding && proxy.xudp then packet_encoding_xudp else encoding

clash_password : ClashProxy → Text → Text
unfolding first_non_empty
clash_password proxy protocol =
    let password = first_non_empty (proxy.password ∷ proxy.auth_str ∷ []) in
    if text_eq protocol protocol_hysteria2 && is_empty password then proxy.auth_str else password

unfoldable pub clash_tls : ClashProxy → Option TlsOptions
unfolding first_non_empty string_list
clash_tls proxy =
    if proxy.tls
      || not (is_empty proxy.sni)
      || not (is_empty proxy.server_name)
      || not (is_empty proxy.reality.public_key)
    then some (record {
      enabled = true;
      server_name = first_non_empty (proxy.server_name ∷ proxy.sni ∷ []);
      insecure = proxy.skip_cert_verify;
      alpn = string_list proxy.alpn;
      public_key = proxy.reality.public_key;
      short_id = proxy.reality.short_id;
      fingerprint = proxy.client_fingerprint;
    })
    else none

has_entries : List (Text × Text) → Bool
has_entries [] = false
has_entries (h ∷ hs) = true

-- The web socket options, on a transport of which only the type may be set.
with_ws : ClashWsOpts → TransportOptions → TransportOptions
unfolding first_non_empty query_get has_entries
with_ws ws t =
    if not (is_empty ws.path) || has_entries ws.headers
    then record {
      type = first_non_empty (t.type ∷ codes "ws" ∷ []);
      path = ws.path;
      host = query_get ws.headers (codes "Host");
      headers = ws.headers;
    }
    else t

with_grpc : Text → TransportOptions → TransportOptions
unfolding first_non_empty
with_grpc service t = if is_empty service then t else record {
  type = first_non_empty (t.type ∷ codes "grpc" ∷ []);
  path = service;
  host = t.host;
  headers = t.headers;
}

unfoldable pub clash_transport : ClashProxy → TransportOptions
unfolding with_ws with_grpc
clash_transport proxy =
    with_grpc proxy.grpc_service_name
      (with_ws proxy.ws_opts (record { type = proxy.network; path = []; host = []; headers = [] }))

unfoldable pub clash_proxy_to_node : ClashProxy → Option ProxyNode
unfolding normalize_protocol is_supported_protocol first_non_empty flexible_int
    clash_packet_encoding clash_password clash_tls clash_transport
clash_proxy_to_node proxy =
    let protocol = normalize_protocol proxy.type in
    if is_supported_protocol protocol
    then some (record {
      id = [];
      subscription_id = [];
      name = first_non_empty (proxy.name ∷ proxy.server ∷ []);
      protocol = protocol;
      server = proxy.server;
      port = flexible_int proxy.port;
      method = proxy.cipher;
      password = clash_password proxy protocol;
      uuid = proxy.uuid;
      alter_id = flexible_int proxy.alter_id;
      security = proxy.security;
      flow = proxy.flow;
      udp = proxy.udp;
      packet_encoding = clash_packet_encoding proxy;
      tls = clash_tls proxy;
      transport = clash_transport proxy;
    })
    else none

unfoldable pub parse_clash_yaml : Codec → Text → Result ParseError (List ProxyNode)
unfolding parse_entries clash_proxy_to_node
parse_clash_yaml codec content = parse_entries clash_proxy_to_node (codec.clash_yaml content)
