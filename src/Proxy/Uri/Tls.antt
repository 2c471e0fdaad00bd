-- ===== src/Proxy/Uri/Tls.antt =====
-- The protocols that run over TLS: alwaysTLSProtocol and the URI parsers of
-- pkg/proxysubscription/subscription.go.
use safelink_ssh.Base.{
  ◌≡◌, refl, ap, sym, ◌∙◌, subst, Bool, true, false, ◌||◌, some, Result, ok, err, if_rule,
  and_then_rule, if◌then◌else◌,
}
use safelink_ssh.Base.Int.{ℤ}
use safelink_ssh.Text.{Text, text_eq}
use safelink_ssh.Proxy.Node.{
  ProxyNode, TlsOptions, protocol_shadowsocks, protocol_vmess, protocol_hysteria,
  protocol_hysteria2, protocol_tuic, protocol_anytls,
}
use safelink_ssh.Proxy.Words.{always_tls_protocol}
use safelink_ssh.Proxy.Valid.{NodeError, validate_node}
use safelink_ssh.Proxy.Codec.{Codec, Url, VmessDocument}
use safelink_ssh.Proxy.Query.{query_tls, should_enable_tls}
use safelink_ssh.Proxy.Gather.{ParseError, invalid_node}
use safelink_ssh.Proxy.Uri.{
  checked, shadowsocks_node, vmess_node, user_info_node, parse_shadowsocks_uri, parse_vmess_uri,
  parse_user_info_uri, parse_uri,
}

-- The protocols that have no form without TLS.
pub data NeedsTls : Text → Type 0 where
  hysteria : NeedsTls protocol_hysteria
  hysteria2 : NeedsTls protocol_hysteria2
  tuic : NeedsTls protocol_tuic
  anytls : NeedsTls protocol_anytls

-- TLS is on where the protocol needs it.
HasTls : ProxyNode → Type 0
HasTls n = NeedsTls n.protocol → (t : TlsOptions) × (n.tls ≡ some t) × (t.enabled ≡ true)

NeedsTls-always_tls : {p : Text} → NeedsTls p → always_tls_protocol p ≡ true
unfolding always_tls_protocol text_eq
NeedsTls-always_tls hysteria = refl
NeedsTls-always_tls hysteria2 = refl
NeedsTls-always_tls tuic = refl
NeedsTls-always_tls anytls = refl

shadowsocks_plain : {p : Text} → p ≡ protocol_shadowsocks → NeedsTls p → ⊥
unfolding always_tls_protocol text_eq
shadowsocks_plain e h = absurd (is_false (sym (ap always_tls_protocol e) ∙ NeedsTls-always_tls h))
  where
    is_false : false ≡ true → ⊥
    is_false e' = cc

vmess_plain : {p : Text} → p ≡ protocol_vmess → NeedsTls p → ⊥
unfolding always_tls_protocol text_eq
vmess_plain e h = absurd (is_false (sym (ap always_tls_protocol e) ∙ NeedsTls-always_tls h))
  where
    is_false : false ≡ true → ⊥
    is_false e' = cc

abbrev AllowsTls : Result ParseError ProxyNode → Type 0
AllowsTls r = (n : ProxyNode) → r ≡ ok n → HasTls n

err-AllowsTls : (e : ParseError) → AllowsTls (err e)
err-AllowsTls e n h = cc

checked-AllowsTls : (n : ProxyNode) → HasTls n → AllowsTls (checked n)
unfolding checked
checked-AllowsTls n tls m h = by_outcome (validate_node n) h
  where
    same : {k l : ProxyNode} → ◌≡◌ {A = Result ParseError ProxyNode} (ok k) (ok l) → k ≡ l
    same e = cc

    by_outcome :
        (r : Result NodeError (Unit {0}))
        → elim r [ ok valid ↦ ok n | err e ↦ err (invalid_node e) ] ≡ ok m
        → HasTls m
    by_outcome (ok u) h' = subst HasTls (same h') tls
    by_outcome (err x) h' = cc

if_AllowsTls :
    (b : Bool) (x y : Result ParseError ProxyNode)
    → AllowsTls x
    → AllowsTls y
    → AllowsTls (if b then x else y)
if_AllowsTls b x y h k = if_rule AllowsTls b x y (λ e. h) (λ e. k)

shadowsocks_node-HasTls : (name : Text) (u : Url) (port : ℤ) → HasTls (shadowsocks_node name u port)
unfolding HasTls shadowsocks_node
shadowsocks_node-HasTls name u port h = absurd (shadowsocks_plain refl h)

vmess_node-HasTls : (doc : VmessDocument) → HasTls (vmess_node doc)
unfolding HasTls vmess_node
vmess_node-HasTls doc h = absurd (vmess_plain refl h)

or_right : (a b : Bool) → b ≡ true → (a || b) ≡ true
or_right true b h = refl
or_right false b h = h

user_info_node-HasTls :
    (codec : Codec) (raw protocol : Text) (u : Url) (port : ℤ)
    → HasTls (user_info_node codec raw protocol u port)
unfolding HasTls user_info_node query_tls
user_info_node-HasTls codec raw protocol u port h = (
  query_tls u.query,
  rw (or_right (should_enable_tls u.query) (always_tls_protocol protocol) (NeedsTls-always_tls h))
      refl,
  refl,
)

shadowsocks-AllowsTls : (codec : Codec) (raw : Text) → AllowsTls (parse_shadowsocks_uri codec raw)
unfolding parse_shadowsocks_uri
shadowsocks-AllowsTls codec raw = search (and_then_rule, checked-AllowsTls, shadowsocks_node-HasTls)

vmess-AllowsTls : (codec : Codec) (raw : Text) → AllowsTls (parse_vmess_uri codec raw)
unfolding parse_vmess_uri
vmess-AllowsTls codec raw = search (and_then_rule, checked-AllowsTls, vmess_node-HasTls)

user_info-AllowsTls :
    (codec : Codec) (raw protocol : Text) → AllowsTls (parse_user_info_uri codec raw protocol)
unfolding parse_user_info_uri
user_info-AllowsTls codec raw protocol =
    search (and_then_rule, checked-AllowsTls, user_info_node-HasTls)

parse_uri-HasTls :
    (codec : Codec) (raw : Text) (n : ProxyNode) → parse_uri codec raw ≡ ok n → HasTls n
unfolding parse_uri
parse_uri-HasTls codec raw =
    search
      (if_AllowsTls, shadowsocks-AllowsTls, vmess-AllowsTls, user_info-AllowsTls, err-AllowsTls)
      depth 12 fits 20000

-- A node that parseURI returns without an error has TLS on if its protocol is one of hysteria,
-- hysteria2, tuic and anytls, whatever the URI says of TLS.
pub parse_uri-tls :
    (codec : Codec) (raw : Text) (n : ProxyNode)
    → parse_uri codec raw ≡ ok n
    → NeedsTls n.protocol
    → (t : TlsOptions) × (n.tls ≡ some t) × (t.enabled ≡ true)
unfolding HasTls
parse_uri-tls = parse_uri-HasTls
