-- ===== src/Proxy/Words.antt =====
-- The words that pkg/proxysubscription/subscription.go normalises: protocols, packet encodings, formats.
pub mod Laws
use safelink_ssh.Base.{Bool, true, false, ◌||◌, List, [], ◌∷◌, if◌then◌else◌, any}
use safelink_ssh.Text.{Text, codes, is_empty, text_eq, trim_space, to_lower}
use safelink_ssh.Proxy.Node.{
  protocol_shadowsocks, protocol_vmess, protocol_vless, protocol_trojan, protocol_hysteria,
  protocol_hysteria2, protocol_tuic, protocol_anytls,
}

abbrev pub format_auto : Text
format_auto = codes "auto"

abbrev pub format_clash_yaml : Text
format_clash_yaml = codes "clash-yaml"

abbrev pub format_uri_list : Text
format_uri_list = codes "uri-list"

abbrev pub format_sing_box_json : Text
format_sing_box_json = codes "sing-box-json"

abbrev pub packet_encoding_xudp : Text
packet_encoding_xudp = codes "xudp"

abbrev pub packet_encoding_packet_addr : Text
packet_encoding_packet_addr = codes "packetaddr"

abbrev pub packet_encoding_disabled : Text
packet_encoding_disabled = codes "none"

unfoldable pub encoding_of_word : Text → Text
encoding_of_word w =
    if text_eq w packet_encoding_xudp
    then packet_encoding_xudp
    else if text_eq w packet_encoding_packet_addr
        || text_eq w (codes "packet-addr")
        || text_eq w (codes "packet_addr")
    then packet_encoding_packet_addr
    else if text_eq w packet_encoding_disabled
        || text_eq w (codes "disabled")
        || text_eq w (codes "false")
    then packet_encoding_disabled
    else []

unfoldable pub normalize_packet_encoding : Text → Text
unfolding encoding_of_word
normalize_packet_encoding value = encoding_of_word (to_lower (trim_space value))

unfoldable pub protocol_of_word : Text → Text
protocol_of_word w =
    if text_eq w protocol_shadowsocks || text_eq w (codes "shadowsocks")
    then protocol_shadowsocks
    else if text_eq w (codes "hy2")
    then protocol_hysteria2
    else w

-- The cases of the switch that return their own word are left to the default, which does too.
unfoldable pub normalize_protocol : Text → Text
unfolding protocol_of_word
normalize_protocol protocol = protocol_of_word (to_lower (trim_space protocol))

unfoldable pub is_supported_protocol : Text → Bool
is_supported_protocol p =
    text_eq p protocol_shadowsocks
    || text_eq p protocol_vmess
    || text_eq p protocol_vless
    || text_eq p protocol_trojan
    || text_eq p protocol_hysteria
    || text_eq p protocol_hysteria2
    || text_eq p protocol_tuic
    || text_eq p protocol_anytls

unfoldable pub always_tls_protocol : Text → Bool
always_tls_protocol p =
    text_eq p protocol_hysteria
    || text_eq p protocol_hysteria2
    || text_eq p protocol_tuic
    || text_eq p protocol_anytls

unfoldable pub format_of_word : Text → Text
format_of_word w =
    if is_empty w || text_eq w (codes "auto")
    then format_auto
    else if text_eq w (codes "clash")
        || text_eq w (codes "yaml")
        || text_eq w (codes "yml")
        || text_eq w (codes "clash-yaml")
    then format_clash_yaml
    else if text_eq w (codes "uri")
        || text_eq w (codes "uri-list")
        || text_eq w (codes "v2ray")
        || text_eq w (codes "base64")
    then format_uri_list
    else if text_eq w (codes "sing-box")
        || text_eq w (codes "singbox")
        || text_eq w (codes "json")
        || text_eq w (codes "sing-box-json")
    then format_sing_box_json
    else w

unfoldable pub normalize_format : Text → Text
unfolding format_of_word
normalize_format format = format_of_word (to_lower (trim_space format))

-- The first value that is not blank, trimmed.
unfoldable pub first_non_empty : List Text → Text
first_non_empty [] = []
first_non_empty (v ∷ values) =
    let rest = first_non_empty values in if is_empty (trim_space v) then rest else trim_space v
