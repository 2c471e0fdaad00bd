-- ===== src/Proxy/UriList.antt =====
-- parseURIList of pkg/proxysubscription/subscription.go, with splitURIItems and looksLikeURIList.
use safelink_ssh.Base.{
  ℕ, Bool, ◌||◌, none, some, Result, ok, err, List, [], ◌∷◌, map, any, ◌==◌, if◌then◌else◌,
}
use safelink_ssh.Text.{Text, codes, is_empty, trim_space, contains}
use safelink_ssh.Text.Split.{fields_by, non_empty}
use safelink_ssh.Proxy.Node.{ProxyNode, is_informational_node_name}
use safelink_ssh.Proxy.Codec.{Codec}
use safelink_ssh.Proxy.Gather.{ParseError, no_supported_nodes, empty_list, some_nodes}
use safelink_ssh.Proxy.Query.{decode_base64_text}
use safelink_ssh.Proxy.Uri.{parse_uri}

ends_item : ℕ → Bool
ends_item r = r == b'\n' || r == b'\r' || r == b'\t'

unfoldable pub split_uri_items : Text → List Text
unfolding fields_by non_empty ends_item
split_uri_items text = non_empty (map trim_space (fields_by ends_item text))

unfoldable pub looks_like_uri_list : Text → Bool
unfolding contains any
looks_like_uri_list text = any (contains text) (
    codes "ss://"
    ∷ codes "vmess://"
    ∷ codes "vless://"
    ∷ codes "trojan://"
    ∷ codes "hysteria2://"
    ∷ codes "hy2://"
    ∷ codes "tuic://"
    ∷ codes "anytls://"
    ∷ [])

-- One round of the loop.
unfoldable pub keep_node : Result ParseError ProxyNode → List ProxyNode → List ProxyNode
unfolding is_informational_node_name
keep_node (err e) rest = rest
keep_node (ok n) rest = if is_informational_node_name n.name then rest else n ∷ rest

unfoldable pub uri_nodes : Codec → List Text → List ProxyNode
unfolding keep_node parse_uri
uri_nodes codec [] = []
uri_nodes codec (line ∷ lines) = keep_node (parse_uri codec line) (uri_nodes codec lines)

-- A text without any of the schemes may be a list in base64.
unfoldable pub uri_list_text : Codec → Text → Text
unfolding looks_like_uri_list decode_base64_text
uri_list_text codec text =
    if looks_like_uri_list text
    then text
    else elim (decode_base64_text codec text) [ none ↦ text | some decoded ↦ decoded ]

unfoldable pub parse_uri_list : Codec → Text → Result ParseError (List ProxyNode)
unfolding split_uri_items uri_nodes uri_list_text some_nodes
parse_uri_list codec content =
    let text = trim_space content in
    if is_empty text
    then err empty_list
    else some_nodes (uri_nodes codec (split_uri_items (uri_list_text codec text)))
        no_supported_nodes
