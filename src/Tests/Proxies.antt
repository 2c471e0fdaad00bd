-- ===== src/Tests/Proxies.antt =====
-- Runs of the parsers of proxy subscriptions, with decoders that know one document each.
use safelink_ssh.Base.{◌≡◌, ◌≢◌, ◌↔◌, refl, true, false, none, some, ok, [], ◌∷◌, All, List}
use safelink_ssh.Base.Int.{pos}
use safelink_ssh.Text.{Text, codes, text_eq, trim_space, to_lower}
use safelink_ssh.Proxy.Node.{ProxyNode, TlsOptions, protocol_trojan, protocol_hysteria2}
use safelink_ssh.Proxy.Words.{format_clash_yaml}
use safelink_ssh.Proxy.Valid.{validate_node, IsUsableNode, validate_node_iff}
use safelink_ssh.Proxy.Codec.{Codec, ClashProxy, Url, sequence_node}
use safelink_ssh.Proxy.Gather.{parse_entries}
use safelink_ssh.Proxy.Gather.Selection.{IsKept, Selects, parse_entries_iff}
use safelink_ssh.Proxy.Clash.{clash_proxy_to_node}
use safelink_ssh.Proxy.Uri.{parse_uri}
use safelink_ssh.Proxy.Uri.Tls.{hysteria2, parse_uri-tls}
use safelink_ssh.Proxy.Parse.{parse}
use safelink_ssh.Proxy.Parsed.{IsKnownFormat, parse-IsProxyList}

abbrev trojan : Text → Text → ClashProxy
trojan name port = record {
  name = name;
  type = codes "Trojan";
  server = codes "a.example";
  port = port;
  cipher = [];
  password = codes "pw";
  uuid = [];
  alter_id = [];
  security = [];
  tls = false;
  server_name = [];
  sni = codes "a.example";
  network = [];
  flow = [];
  udp = true;
  packet_encoding = [];
  xudp = false;
  skip_cert_verify = false;
  client_fingerprint = [];
  ws_opts = record { path = []; headers = [] };
  grpc_service_name = [];
  reality = record { public_key = []; short_id = [] };
  alpn = sequence_node (codes "h2" ∷ []);
  auth_str = [];
}

-- A notice, a node with its port in quotes, and a node without a port.
abbrev proxies : List ClashProxy
proxies =
    trojan (codes "Traffic: 1 GB") (codes "443")
    ∷ trojan (codes "A") (codes " 443")
    ∷ trojan (codes "B") (codes "x")
    ∷ []

abbrev hy2_url : Url
hy2_url = record {
  username = codes "pw";
  password = none;
  hostname = codes "b.example";
  port = codes "8443";
  query = [];
}

abbrev codec : Codec
codec = record {
  clash_yaml = λ content. some proxies;
  sing_box_json = λ content. none;
  vmess_json = λ content. none;
  base64 = λ encoding text. none;
  parse_url = λ raw. some hy2_url;
  query_unescape = λ text. some text;
}

abbrev node_a : ProxyNode
node_a = record {
  id = [];
  subscription_id = [];
  name = codes "A";
  protocol = protocol_trojan;
  server = codes "a.example";
  port = pos 443;
  method = [];
  password = codes "pw";
  uuid = [];
  alter_id = pos 0;
  security = [];
  flow = [];
  udp = true;
  packet_encoding = [];
  tls = some (record {
    enabled = true;
    server_name = codes "a.example";
    insecure = false;
    alpn = codes "h2" ∷ [];
    public_key = [];
    short_id = [];
    fingerprint = [];
  });
  transport = record { type = []; path = []; host = []; headers = [] };
}

auto_run : parse codec (codes "proxies: …") (codes "auto") ≡ (format_clash_yaml, ok (node_a ∷ []))
unfolding parse text_eq trim_space to_lower
auto_run = refl

parse-IsProxyList_example :
    IsKnownFormat format_clash_yaml × ((node_a ∷ []) ≢ []) × All IsKept (node_a ∷ [])
parse-IsProxyList_example =
    parse-IsProxyList codec (codes "proxies: …") (codes "auto") format_clash_yaml (node_a ∷ [])
      auto_run

parse_entries_iff_example :
    (parse_entries clash_proxy_to_node (some proxies) ≡ ok (node_a ∷ [])) ↔ (
      (entries : List ClashProxy) × (some proxies ≡ some entries)
      × Selects clash_proxy_to_node entries (node_a ∷ [])
      × ((node_a ∷ []) ≢ []))
parse_entries_iff_example = parse_entries_iff clash_proxy_to_node (some proxies) (node_a ∷ [])

validate_node_iff_example : (validate_node node_a ≡ ok tt) ↔ IsUsableNode node_a
validate_node_iff_example = validate_node_iff node_a

abbrev hy2_node : ProxyNode
hy2_node = record {
  id = [];
  subscription_id = [];
  name = codes "B";
  protocol = protocol_hysteria2;
  server = codes "b.example";
  port = pos 8443;
  method = [];
  password = codes "pw";
  uuid = [];
  alter_id = pos 0;
  security = [];
  flow = [];
  udp = false;
  packet_encoding = [];
  tls = some (record {
    enabled = true;
    server_name = [];
    insecure = false;
    alpn = [];
    public_key = [];
    short_id = [];
    fingerprint = [];
  });
  transport = record { type = []; path = []; host = []; headers = [] };
}

hy2_run : parse_uri codec (codes "hy2://pw@b.example:8443#B") ≡ ok hy2_node
unfolding parse_uri text_eq trim_space to_lower
hy2_run = refl

parse_uri-tls_example : (t : TlsOptions) × (hy2_node.tls ≡ some t) × (t.enabled ≡ true)
parse_uri-tls_example =
    parse_uri-tls codec (codes "hy2://pw@b.example:8443#B") hy2_node hy2_run hysteria2
