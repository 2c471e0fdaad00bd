-- ===== src/Proxy/Parse.antt =====
-- Parse of pkg/proxysubscription/subscription.go. The format stands beside the nodes or the error.
use safelink_ssh.Base.{Result, ok, err, List, [], if◌then◌else◌}
use safelink_ssh.Text.{Text, text_eq}
use safelink_ssh.Proxy.Node.{ProxyNode}
use safelink_ssh.Proxy.Words.{
  format_auto, format_clash_yaml, format_uri_list, format_sing_box_json, normalize_format,
}
use safelink_ssh.Proxy.Codec.{Codec}
use safelink_ssh.Proxy.Gather.{ParseError, unknown_content, unsupported_format}
use safelink_ssh.Proxy.Clash.{parse_clash_yaml}
use safelink_ssh.Proxy.SingBox.{parse_sing_box_json}
use safelink_ssh.Proxy.UriList.{parse_uri_list}

abbrev pub Parsed : Type 0
Parsed = Text × Result ParseError (List ProxyNode)

-- The first parser that succeeds, with its format.
unfoldable pub first_parsed : Text → Result ParseError (List ProxyNode) → Parsed → Parsed
first_parsed format (ok nodes) later = (format, ok nodes)
first_parsed format (err e) later = later

unfoldable pub parse_auto : Codec → Text → Parsed
unfolding first_parsed parse_sing_box_json parse_clash_yaml parse_uri_list
parse_auto codec content = first_parsed format_sing_box_json (parse_sing_box_json codec content) (
    first_parsed format_clash_yaml (parse_clash_yaml codec content)
      (first_parsed format_uri_list (parse_uri_list codec content) ([], err unknown_content)))

unfoldable pub parse : Codec → Text → Text → Parsed
unfolding parse_auto parse_clash_yaml parse_uri_list parse_sing_box_json normalize_format
parse codec content format =
    let f = normalize_format format in
    if text_eq f format_clash_yaml
    then (format_clash_yaml, parse_clash_yaml codec content)
    else if text_eq f format_uri_list
    then (format_uri_list, parse_uri_list codec content)
    else if text_eq f format_sing_box_json
    then (format_sing_box_json, parse_sing_box_json codec content)
    else if text_eq f format_auto
    then parse_auto codec content
    else ([], err (unsupported_format format))
