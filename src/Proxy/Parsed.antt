-- ===== src/Proxy/Parsed.antt =====
-- What Parse of pkg/proxysubscription/subscription.go returns when it returns no error.
use safelink_ssh.Base.{
  ◌≡◌, ◌≢◌, ◌⊎◌, inl, inr, refl, ap, subst, Bool, Option, Result, ok, err, List, [], ◌∷◌, All,
  if_rule, and_then_rule, if◌then◌else◌,
}
use safelink_ssh.Text.{Text}
use safelink_ssh.Proxy.Node.{ProxyNode, is_informational_node_name}
use safelink_ssh.Proxy.Words.{format_clash_yaml, format_uri_list, format_sing_box_json}
use safelink_ssh.Proxy.Valid.{NodeError, validate_node, IsUsableNode, validate_node_iff}
use safelink_ssh.Proxy.Codec.{Codec}
use safelink_ssh.Proxy.Gather.{ParseError, invalid_node, some_nodes, parse_entries}
use safelink_ssh.Proxy.Gather.Selection.{
  some_nodes_iff, IsKept, Selects, nothing, kept, left_out, parse_entries_iff,
}
use safelink_ssh.Proxy.Clash.{clash_proxy_to_node, parse_clash_yaml}
use safelink_ssh.Proxy.SingBox.{outbound_to_node, parse_sing_box_json}
use safelink_ssh.Proxy.Uri.{
  checked, parse_shadowsocks_uri, parse_vmess_uri, parse_user_info_uri, parse_uri,
}
use safelink_ssh.Proxy.UriList.{keep_node, uri_nodes, parse_uri_list}
use safelink_ssh.Proxy.Parse.{Parsed, first_parsed, parse_auto, parse}

-- A node that comes without an error is usable.
abbrev AllowsUsable : Result ParseError ProxyNode → Type 0
AllowsUsable r = (n : ProxyNode) → r ≡ ok n → IsUsableNode n

err-AllowsUsable : (e : ParseError) → AllowsUsable (err e)
err-AllowsUsable e n h = cc

if_AllowsUsable :
    (b : Bool) (x y : Result ParseError ProxyNode)
    → AllowsUsable x
    → AllowsUsable y
    → AllowsUsable (if b then x else y)
if_AllowsUsable b x y h k = if_rule AllowsUsable b x y (λ e. h) (λ e. k)

checked-AllowsUsable : (n : ProxyNode) → AllowsUsable (checked n)
unfolding checked
checked-AllowsUsable n m h = by_outcome (validate_node n) refl h
  where
    same : {k l : ProxyNode} → ◌≡◌ {A = Result ParseError ProxyNode} (ok k) (ok l) → k ≡ l
    same e = cc

    by_outcome :
        (r : Result NodeError (Unit {0}))
        → validate_node n ≡ r
        → elim r [ ok valid ↦ ok n | err e ↦ err (invalid_node e) ] ≡ ok m
        → IsUsableNode m
    by_outcome (ok u) e h' = subst IsUsableNode (same h') ((validate_node_iff n).0 e)
    by_outcome (err x) e h' = cc

shadowsocks-AllowsUsable :
    (codec : Codec) (raw : Text) → AllowsUsable (parse_shadowsocks_uri codec raw)
unfolding parse_shadowsocks_uri
shadowsocks-AllowsUsable codec raw = search (and_then_rule, checked-AllowsUsable)

vmess-AllowsUsable : (codec : Codec) (raw : Text) → AllowsUsable (parse_vmess_uri codec raw)
unfolding parse_vmess_uri
vmess-AllowsUsable codec raw = search (and_then_rule, checked-AllowsUsable)

user_info-AllowsUsable :
    (codec : Codec) (raw protocol : Text) → AllowsUsable (parse_user_info_uri codec raw protocol)
unfolding parse_user_info_uri
user_info-AllowsUsable codec raw protocol = search (and_then_rule, checked-AllowsUsable)

parse_uri-AllowsUsable : (codec : Codec) (raw : Text) → AllowsUsable (parse_uri codec raw)
unfolding parse_uri
parse_uri-AllowsUsable codec raw =
    search
      (
        if_AllowsUsable, shadowsocks-AllowsUsable, vmess-AllowsUsable, user_info-AllowsUsable,
        err-AllowsUsable,
      )
      depth 12 fits 20000

keep_node-All :
    (r : Result ParseError ProxyNode) (rest : List ProxyNode)
    → AllowsUsable r
    → All IsKept rest
    → All IsKept (keep_node r rest)
unfolding keep_node
keep_node-All (err e) rest usable h = h
keep_node-All (ok n) rest usable h =
    if_rule (All IsKept) (is_informational_node_name n.name) rest (n ∷ rest) (λ e. h)
      (λ e. ((e, usable n refl), h))

uri_nodes-All : (codec : Codec) (lines : List Text) → All IsKept (uri_nodes codec lines)
unfolding uri_nodes
uri_nodes-All codec [] = tt
uri_nodes-All codec (line ∷ lines) =
    keep_node-All (parse_uri codec line) _ (parse_uri-AllowsUsable codec line)
      (uri_nodes-All codec lines)

Selects-All :
    {A : Type 0} {convert : A → Option ProxyNode} {xs : List A} {ns : List ProxyNode}
    → Selects convert xs ns
    → All IsKept ns
Selects-All nothing = tt
Selects-All (kept e k s) = (k, Selects-All s)
Selects-All (left_out e s) = Selects-All s

-- Nodes that come without an error are some, and all of them are kept.
abbrev AllowsKept : Result ParseError (List ProxyNode) → Type 0
AllowsKept r = (ns : List ProxyNode) → r ≡ ok ns → (ns ≢ []) × All IsKept ns

err-AllowsKept : (e : ParseError) → AllowsKept (err e)
err-AllowsKept e n h = cc

if_AllowsKept :
    (b : Bool) (x y : Result ParseError (List ProxyNode))
    → AllowsKept x
    → AllowsKept y
    → AllowsKept (if b then x else y)
if_AllowsKept b x y h k = if_rule AllowsKept b x y (λ e. h) (λ e. k)

entries-AllowsKept :
    {A : Type 0} (convert : A → Option ProxyNode) (document : Option (List A))
    → AllowsKept (parse_entries convert document)
entries-AllowsKept convert document ns h =
    let (entries, e, s, ne) = (parse_entries_iff convert document ns).0 h in (ne, Selects-All s)

clash-AllowsKept : (codec : Codec) (content : Text) → AllowsKept (parse_clash_yaml codec content)
unfolding parse_clash_yaml
clash-AllowsKept codec content = entries-AllowsKept clash_proxy_to_node (codec.clash_yaml content)

sing_box-AllowsKept :
    (codec : Codec) (content : Text) → AllowsKept (parse_sing_box_json codec content)
unfolding parse_sing_box_json
sing_box-AllowsKept codec content =
    entries-AllowsKept outbound_to_node (codec.sing_box_json content)

some_nodes-AllowsKept :
    (ns : List ProxyNode) (e : ParseError) → All IsKept ns → AllowsKept (some_nodes ns e)
some_nodes-AllowsKept ns e h ms h' =
    let (same, ne) = (some_nodes_iff ns ms e).0 h' in (ne, subst (All IsKept) same h)

uri_list-AllowsKept : (codec : Codec) (content : Text) → AllowsKept (parse_uri_list codec content)
unfolding parse_uri_list
uri_list-AllowsKept codec content =
    search (if_AllowsKept, err-AllowsKept, some_nodes-AllowsKept, uri_nodes-All)

unfoldable pub IsKnownFormat : Text → Type 0
IsKnownFormat f = (f ≡ format_clash_yaml) ⊎ (f ≡ format_uri_list) ⊎ (f ≡ format_sing_box_json)

-- What holds of a format and nodes without an error.
abbrev IsProxyList : Text → List ProxyNode → Type 0
IsProxyList f ns = IsKnownFormat f × (ns ≢ []) × All IsKept ns

abbrev AllowsProxyList : Parsed → Type 0
AllowsProxyList p = (f : Text) (ns : List ProxyNode) → p ≡ (f, ok ns) → IsProxyList f ns

if_AllowsProxyList :
    (b : Bool) (x y : Parsed)
    → AllowsProxyList x
    → AllowsProxyList y
    → AllowsProxyList (if b then x else y)
if_AllowsProxyList b x y h k = if_rule AllowsProxyList b x y (λ e. h) (λ e. k)

with_format :
    (f : Text) (r : Result ParseError (List ProxyNode))
    → IsKnownFormat f
    → AllowsKept r
    → AllowsProxyList (f, r)
with_format f r known allows g ns h =
    let (ne, all_kept) = allows ns (ap (λ p. p.1) h) in
    (subst IsKnownFormat (ap (λ p. p.0) h) known, ne, all_kept)

first_parsed-AllowsProxyList :
    (f : Text) (r : Result ParseError (List ProxyNode)) (later : Parsed)
    → IsKnownFormat f
    → AllowsKept r
    → AllowsProxyList later
    → AllowsProxyList (first_parsed f r later)
unfolding first_parsed
first_parsed-AllowsProxyList f (ok ns) later known allows rest = with_format f (ok ns) known allows
first_parsed-AllowsProxyList f (err e) later known allows rest = rest

clash_known : IsKnownFormat format_clash_yaml
unfolding IsKnownFormat
clash_known = inl refl

uri_known : IsKnownFormat format_uri_list
unfolding IsKnownFormat
uri_known = inr (inl refl)

sing_box_known : IsKnownFormat format_sing_box_json
unfolding IsKnownFormat
sing_box_known = inr (inr refl)

failed : (f : Text) (e : ParseError) → AllowsProxyList (f, err e)
failed f e g ns h = cc

parse_auto-AllowsProxyList :
    (codec : Codec) (content : Text) → AllowsProxyList (parse_auto codec content)
unfolding parse_auto
parse_auto-AllowsProxyList codec content =
    first_parsed-AllowsProxyList _ _ _ sing_box_known (sing_box-AllowsKept codec content) (
      first_parsed-AllowsProxyList _ _ _ clash_known (clash-AllowsKept codec content) (
        first_parsed-AllowsProxyList _ _ _ uri_known (uri_list-AllowsKept codec content)
          (failed _ _)))

-- Whatever the decoders return: when Parse returns no error, it names one of its three formats, and
-- the nodes are at least one, all of them pass validateNode's rules, and none is named as a notice.
pub parse-IsProxyList :
    (codec : Codec) (content format f : Text) (ns : List ProxyNode)
    → parse codec content format ≡ (f, ok ns)
    → IsKnownFormat f × (ns ≢ []) × All IsKept ns
unfolding parse
parse-IsProxyList codec content format = search (
  if_AllowsProxyList,
  with_format _ _ clash_known (clash-AllowsKept codec content),
  with_format _ _ uri_known (uri_list-AllowsKept codec content),
  with_format _ _ sing_box_known (sing_box-AllowsKept codec content),
  parse_auto-AllowsProxyList,
  failed,
)
