-- ===== src/Proxy/Codec.antt =====
-- The documents that pkg/proxysubscription/subscription.go decodes, and the decoders: yaml.Unmarshal,
-- json.Unmarshal, the encodings of encoding/base64, url.Parse and url.QueryUnescape are parameters.
-- A decoded document holds the text of the values that have an Unmarshal method of their own.
use safelink_ssh.Base.{Bool, Option, none, some, List, []}
use safelink_ssh.Text.{Text}
use safelink_ssh.Text.Table.{lookup}
use safelink_ssh.Proxy.Node.{TlsOptions, TransportOptions}

-- A yaml.Node: the texts of a sequence, the text of a scalar, or another kind.
pub data YamlNode : Type 0 where
  sequence_node : List Text → YamlNode
  scalar_node : Text → YamlNode
  other_node : YamlNode

pub record ClashWsOpts : Type 0 where
  pub path : Text
  pub headers : List (Text × Text)

pub record ClashReality : Type 0 where
  pub public_key : Text
  pub short_id : Text

-- clashProxy. `port` and `alter_id` are the texts that flexibleInt reads, empty where the field is
-- absent, and `alpn` is the node that stringList reads.
pub record ClashProxy : Type 0 where
  pub name : Text
  pub type : Text
  pub server : Text
  pub port : Text
  pub cipher : Text
  pub password : Text
  pub uuid : Text
  pub alter_id : Text
  pub security : Text
  pub tls : Bool
  pub server_name : Text
  pub sni : Text
  pub network : Text
  pub flow : Text
  pub udp : Bool
  pub packet_encoding : Text
  pub xudp : Bool
  pub skip_cert_verify : Bool
  pub client_fingerprint : Text
  pub ws_opts : ClashWsOpts
  pub grpc_service_name : Text
  pub reality : ClashReality
  pub alpn : YamlNode
  pub auth_str : Text

-- singBoxOutbound. `server_port` and `alter_id` are the JSON values that flexibleInt reads.
pub record SingBoxOutbound : Type 0 where
  pub type : Text
  pub tag : Text
  pub server : Text
  pub server_port : Text
  pub method : Text
  pub password : Text
  pub uuid : Text
  pub alter_id : Text
  pub security : Text
  pub flow : Text
  pub udp : Bool
  pub packet_encoding : Text
  pub tls : Option TlsOptions
  pub transport : TransportOptions

-- The struct of parseVMessURI.
pub record VmessDocument : Type 0 where
  pub name : Text
  pub server : Text
  pub port : Text
  pub uuid : Text
  pub alter_id : Text
  pub network : Text
  pub security : Text
  pub host : Text
  pub path : Text
  pub tls : Text
  pub sni : Text

-- What the code asks of a *url.URL; `query` has the first value of each key.
pub record Url : Type 0 where
  pub username : Text
  pub password : Option Text
  pub hostname : Text
  pub port : Text
  pub query : List (Text × Text)

-- q.Get(key)
unfoldable pub query_get : List (Text × Text) → Text → Text
unfolding lookup
query_get q key = elim (lookup key q) [ none ↦ [] | some value ↦ value ]

-- The four base64 encodings, in the order of decodeBase64Text.
pub data Base64 : Type 0 where
  standard url_safe raw_standard raw_url_safe : Base64

pub record Codec : Type 0 where
  pub clash_yaml : Text → Option (List ClashProxy)
  pub sing_box_json : Text → Option (List SingBoxOutbound)
  pub vmess_json : Text → Option VmessDocument
  pub base64 : Base64 → Text → Option Text
  pub parse_url : Text → Option Url
  pub query_unescape : Text → Option Text
