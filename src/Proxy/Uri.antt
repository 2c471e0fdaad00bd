-- ===== src/Proxy/Uri.antt =====
-- The URI parsers of pkg/proxysubscription/subscription.go: parseShadowsocksURI, parseVMessURI,
-- parseUserInfoURI and parseURI, which chooses among them by the scheme.
pub mod Tls
use safelink_ssh.Base.{
  Bool, true, false, not, ◌||◌, Option, none, some, Result, ok, err, ok_or, and_then, List, [], ◌∷◌,
  ◌++◌, if◌then◌else◌,
}
use safelink_ssh.Base.Int.{ℤ, pos}
use safelink_ssh.Text.{Text, codes, is_empty, text_eq, has_prefix, trim_prefix, contains}
use safelink_ssh.Text.Split.{cut, before, replace_first}
use safelink_ssh.Proxy.Node.{
  ProxyNode, TlsOptions, protocol_shadowsocks, protocol_vmess, protocol_vless, protocol_trojan,
  protocol_hysteria2, protocol_tuic, protocol_anytls,
}
use safelink_ssh.Proxy.Words.{normalize_packet_encoding, always_tls_protocol, first_non_empty}
use safelink_ssh.Proxy.Valid.{NodeError, validate_node}
use safelink_ssh.Proxy.Codec.{Codec, Url, VmessDocument, query_get}
use safelink_ssh.Proxy.Clash.{flexible_int}
use safelink_ssh.Proxy.SingBox.{flexible_json}
use safelink_ssh.Proxy.Query.{
  parse_port, strip_fragment, fragment_name, decode_base64_text, should_enable_tls, query_tls,
}
use safelink_ssh.Proxy.Gather.{
  ParseError, undecodable, invalid_node, invalid_credentials, invalid_payload, unsupported_uri,
}

-- return node, validateNode(node): the callers drop a node that comes with an error.
unfoldable pub checked : ProxyNode → Result ParseError ProxyNode
unfolding validate_node
checked n = elim (validate_node n) [ ok valid ↦ ok n | err e ↦ err (invalid_node e) ]

-- What a node has that its kind of URI does not set.
abbrev plain_node : Text → Text → Text → ℤ → ProxyNode
plain_node name protocol server port = record {
  id = [];
  subscription_id = [];
  name = name;
  protocol = protocol;
  server = server;
  port = port;
  method = [];
  password = [];
  uuid = [];
  alter_id = pos 0;
  security = [];
  flow = [];
  udp = false;
  packet_encoding = [];
  tls = none;
  transport = record { type = []; path = []; host = []; headers = [] };
}

unfoldable pub with_method : Text → Text → ProxyNode → ProxyNode
with_method method password n = record {
  id = n.id;
  subscription_id = n.subscription_id;
  name = n.name;
  protocol = n.protocol;
  server = n.server;
  port = n.port;
  method = method;
  password = password;
  uuid = n.uuid;
  alter_id = n.alter_id;
  security = n.security;
  flow = n.flow;
  udp = n.udp;
  packet_encoding = n.packet_encoding;
  tls = n.tls;
  transport = n.transport;
}

shadowsocks_node : Text → Url → ℤ → ProxyNode
unfolding with_method first_non_empty
shadowsocks_node name u port =
    with_method u.username (elim u.password [ none ↦ [] | some p ↦ p ])
      (plain_node (first_non_empty (name ∷ u.hostname ∷ [])) protocol_shadowsocks u.hostname port)

-- From the first `c` on: s[i:], nothing if there is none.
unfoldable pub suffix_from : Text → Option (Text × Text) → Text
suffix_from c none = []
suffix_from c (some (body, rest)) = c ++ rest

-- The part between the scheme and the query, decoded when it has no credentials in clear.
shadowsocks_credentials : Codec → Text → Option Text
unfolding decode_base64_text contains
shadowsocks_credentials codec body =
    if contains body (codes "@") then some body else decode_base64_text codec body

unfoldable pub parse_shadowsocks_uri : Codec → Text → Result ParseError ProxyNode
unfolding strip_fragment fragment_name shadowsocks_credentials shadowsocks_node suffix_from ok_or
    and_then parse_port checked
parse_shadowsocks_uri codec raw =
    let body = trim_prefix (strip_fragment raw) (codes "ss://") in
    let query = suffix_from (codes "?") (cut b'?' body) in
    and_then (ok_or invalid_credentials (shadowsocks_credentials codec (before b'?' body)))
      (λ clear.
        and_then (ok_or undecodable (codec.parse_url (codes "ss://" ++ (clear ++ query)))) (λ u.
          and_then (parse_port u.port)
            (λ port. checked (shadowsocks_node (fragment_name codec raw) u port))))

unfoldable pub vmess_tls : VmessDocument → Option TlsOptions
unfolding first_non_empty
vmess_tls doc =
    if text_eq doc.tls (codes "tls") || not (is_empty doc.sni)
    then some (record {
      enabled = true;
      server_name = first_non_empty (doc.sni ∷ doc.host ∷ []);
      insecure = false;
      alpn = [];
      public_key = [];
      short_id = [];
      fingerprint = [];
    })
    else none

unfoldable pub vmess_node : VmessDocument → ProxyNode
unfolding first_non_empty flexible_json vmess_tls
vmess_node doc = record {
  id = [];
  subscription_id = [];
  name = first_non_empty (doc.name ∷ doc.server ∷ []);
  protocol = protocol_vmess;
  server = doc.server;
  port = flexible_json doc.port;
  method = [];
  password = [];
  uuid = doc.uuid;
  alter_id = flexible_json doc.alter_id;
  security = doc.security;
  flow = [];
  udp = false;
  packet_encoding = [];
  tls = vmess_tls doc;
  transport = record { type = doc.network; path = doc.path; host = doc.host; headers = [] };
}

unfoldable pub parse_vmess_uri : Codec → Text → Result ParseError ProxyNode
unfolding strip_fragment decode_base64_text vmess_node checked ok_or and_then
parse_vmess_uri codec raw =
    let payload = trim_prefix (strip_fragment raw) (codes "vmess://") in
    and_then (ok_or invalid_payload (decode_base64_text codec payload)) (λ decoded.
      and_then (ok_or undecodable (codec.vmess_json decoded)) (λ doc. checked (vmess_node doc)))

-- The switch on the protocol: the identifier and the password of the node.
unfoldable pub user_secrets : Text → Url → Text × Text
unfolding query_get
user_secrets protocol u =
    if text_eq protocol protocol_vless
    then (u.username, [])
    else if text_eq protocol protocol_tuic
    then (
      u.username,
      elim u.password [ none ↦ query_get u.query (codes "password") | some password ↦ password ],
    )
    else ([], u.username)

unfoldable pub user_info_node : Codec → Text → Text → Url → ℤ → ProxyNode
unfolding user_secrets fragment_name first_non_empty query_get normalize_packet_encoding
    should_enable_tls always_tls_protocol query_tls
user_info_node codec raw protocol u port =
    let q = u.query in
    record {
      id = [];
      subscription_id = [];
      name = first_non_empty (fragment_name codec raw ∷ u.hostname ∷ []);
      protocol = protocol;
      server = u.hostname;
      port = port;
      method = [];
      password = (user_secrets protocol u).1;
      uuid = (user_secrets protocol u).0;
      alter_id = pos 0;
      security = query_get q (codes "security");
      flow = query_get q (codes "flow");
      udp = false;
      packet_encoding = normalize_packet_encoding (
          first_non_empty
            (query_get q (codes "packetEncoding") ∷ query_get q (codes "packet_encoding") ∷ []));
      tls =
          if should_enable_tls q || always_tls_protocol protocol then some (query_tls q) else none;
      transport = record {
        type = query_get q (codes "type");
        path =
            first_non_empty (query_get q (codes "path") ∷ query_get q (codes "serviceName") ∷ []);
        host = first_non_empty (query_get q (codes "host") ∷ query_get q (codes "Host") ∷ []);
        headers = [];
      };
    }

unfoldable pub parse_user_info_uri : Codec → Text → Text → Result ParseError ProxyNode
unfolding parse_port user_info_node checked ok_or and_then
parse_user_info_uri codec raw protocol =
    and_then (ok_or undecodable (codec.parse_url raw)) (λ u.
      and_then (parse_port u.port) (λ port. checked (user_info_node codec raw protocol u port)))

unfoldable pub parse_uri : Codec → Text → Result ParseError ProxyNode
unfolding parse_shadowsocks_uri parse_vmess_uri parse_user_info_uri has_prefix replace_first
parse_uri codec raw =
    if has_prefix raw (codes "ss://")
    then parse_shadowsocks_uri codec raw
    else if has_prefix raw (codes "vmess://")
    then parse_vmess_uri codec raw
    else if has_prefix raw (codes "vless://")
    then parse_user_info_uri codec raw protocol_vless
    else if has_prefix raw (codes "trojan://")
    then parse_user_info_uri codec raw protocol_trojan
    else if has_prefix raw (codes "hysteria2://") || has_prefix raw (codes "hy2://")
    then parse_user_info_uri codec (replace_first raw (codes "hy2://") (codes "hysteria2://"))
        protocol_hysteria2
    else if has_prefix raw (codes "tuic://")
    then parse_user_info_uri codec raw protocol_tuic
    else if has_prefix raw (codes "anytls://")
    then parse_user_info_uri codec raw protocol_anytls
    else err (unsupported_uri raw)
