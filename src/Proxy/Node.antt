-- ===== src/Proxy/Node.antt =====
-- The types of pkg/proxysubscription/subscription.go and its tests on names and protocols.
use safelink_ssh.Base.{Bool, false, Option, List, [], ◌∷◌, any, if◌then◌else◌}
use safelink_ssh.Base.Int.{ℤ}
use safelink_ssh.Text.{Text, codes, is_empty, trim_space, to_lower, contains}

abbrev pub protocol_shadowsocks : Text
protocol_shadowsocks = codes "ss"

abbrev pub protocol_vmess : Text
protocol_vmess = codes "vmess"

abbrev pub protocol_vless : Text
protocol_vless = codes "vless"

abbrev pub protocol_trojan : Text
protocol_trojan = codes "trojan"

abbrev pub protocol_hysteria : Text
protocol_hysteria = codes "hysteria"

abbrev pub protocol_hysteria2 : Text
protocol_hysteria2 = codes "hysteria2"

abbrev pub protocol_tuic : Text
protocol_tuic = codes "tuic"

abbrev pub protocol_anytls : Text
protocol_anytls = codes "anytls"

pub record TlsOptions : Type 0 where
  pub enabled : Bool
  pub server_name : Text
  pub insecure : Bool
  pub alpn : List Text
  pub public_key : Text
  pub short_id : Text
  pub fingerprint : Text

pub record TransportOptions : Type 0 where
  pub type : Text
  pub path : Text
  pub host : Text
  pub headers : List (Text × Text)

pub record ProxyNode : Type 0 where
  pub id : Text
  pub subscription_id : Text
  pub name : Text
  pub protocol : Text
  pub server : Text
  pub port : ℤ
  pub method : Text
  pub password : Text
  pub uuid : Text
  pub alter_id : ℤ
  pub security : Text
  pub flow : Text
  pub udp : Bool
  pub packet_encoding : Text
  pub tls : Option TlsOptions
  pub transport : TransportOptions

unfoldable pub informational_keywords : List Text
informational_keywords =
    codes "剩余流量"
    ∷ codes "流量"
    ∷ codes "套餐到期"
    ∷ codes "到期"
    ∷ codes "过期"
    ∷ codes "官网"
    ∷ codes "重置"
    ∷ codes "订阅"
    ∷ codes "traffic"
    ∷ codes "remaining"
    ∷ codes "expire"
    ∷ codes "expired"
    ∷ codes "reset"
    ∷ codes "official"
    ∷ codes "website"
    ∷ codes "subscription"
    ∷ []

unfoldable pub is_informational_node_name : Text → Bool
unfolding informational_keywords
is_informational_node_name name =
    let s = to_lower (trim_space name) in
    if is_empty s then false else any (contains s) informational_keywords
