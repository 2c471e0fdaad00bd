-- ===== src/Proxy/Gather.antt =====
-- The loops of parseClashYAML and parseSingBoxJSON in pkg/proxysubscription/subscription.go: entries
-- that are no node, name a notice or do not pass validateNode are left out, and the first error is kept.
pub mod Selection
use safelink_ssh.Base.{Option, none, some, Result, ok, err, List, [], ◌∷◌, if◌then◌else◌}
use safelink_ssh.Text.{Text}
use safelink_ssh.Proxy.Node.{ProxyNode, is_informational_node_name}
use safelink_ssh.Proxy.Valid.{NodeError, validate_node}

-- The errors of the parsers. What a decoder says is not kept apart.
pub data ParseError : Type 0 where
  undecodable no_entries no_supported_nodes empty_list unknown_content : ParseError
  invalid_node : NodeError → ParseError
  invalid_credentials invalid_payload : ParseError
  invalid_port : Text → ParseError
  unsupported_uri : Text → ParseError
  unsupported_format : Text → ParseError

pub record Gathered : Type 0 where
  pub nodes : List ProxyNode
  pub first_error : Option NodeError

-- One round behind the call of validateNode.
unfoldable pub gather_valid : ProxyNode → Result NodeError (Unit {0}) → Gathered → Gathered
gather_valid n (ok valid) rest = record { nodes = n ∷ rest.nodes; first_error = rest.first_error }
gather_valid n (err e) rest = record { nodes = rest.nodes; first_error = some e }

unfoldable pub gather_step : Option ProxyNode → Gathered → Gathered
unfolding gather_valid validate_node is_informational_node_name
gather_step none rest = rest
gather_step (some n) rest =
    if is_informational_node_name n.name then rest else gather_valid n (validate_node n) rest

unfoldable pub gather : {A : Type 0} → (A → Option ProxyNode) → List A → Gathered
unfolding gather_step
gather convert [] = record { nodes = []; first_error = none }
gather convert (entry ∷ entries) = gather_step (convert entry) (gather convert entries)

unfoldable pub first_or_unsupported : Option NodeError → ParseError
first_or_unsupported none = no_supported_nodes
first_or_unsupported (some e) = invalid_node e

-- len(nodes) == 0
unfoldable pub some_nodes : List ProxyNode → ParseError → Result ParseError (List ProxyNode)
some_nodes [] e = err e
some_nodes (n ∷ nodes) e = ok (n ∷ nodes)

-- A decoded document: none when the decoder failed.
unfoldable pub parse_entries :
    {A : Type 0} → (A → Option ProxyNode) → Option (List A) → Result ParseError (List ProxyNode)
unfolding gather some_nodes first_or_unsupported
parse_entries convert none = err undecodable
parse_entries convert (some []) = err no_entries
parse_entries convert (some (entry ∷ entries)) =
    let found = gather convert (entry ∷ entries) in
    some_nodes found.nodes (first_or_unsupported found.first_error)
