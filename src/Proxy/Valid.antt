-- ===== src/Proxy/Valid.antt =====
-- validateNode of pkg/proxysubscription/subscription.go, and what it asks for.
use safelink_ssh.Base.{
  ℕ, ◌≡◌, ◌≢◌, ◌≤◌, ◌↔◌, ◌⊎◌, inl, inr, refl, Bool, true, false, ◌||◌, ◌&&◌, not, Result, ok, err,
  [], if◌then◌else◌, leb, ltb, arith, Bool-cases,
}
use safelink_ssh.Base.Int.{ℤ, pos, negsuc}
use safelink_ssh.Text.{Text, is_empty, text_eq, trim_space}
use safelink_ssh.Text.Laws.{ne_nil, not_empty, eq_of_text_eq, text_eq_iff}
use safelink_ssh.Proxy.Node.{
  ProxyNode, protocol_shadowsocks, protocol_vmess, protocol_vless, protocol_trojan,
  protocol_hysteria, protocol_hysteria2, protocol_tuic, protocol_anytls,
}

-- The error messages, with the name of the node where they have it.
pub data NodeError : Type 0 where
  requires_name : NodeError
  requires_server requires_valid_port : Text → NodeError
  requires_method_and_password requires_uuid_and_password : Text → NodeError
  requires_uuid requires_password : Text → Text → NodeError
  unsupported_protocol : Text → Text → NodeError

-- 0 < port and port <= 65535
unfoldable pub is_port : ℤ → Bool
is_port (pos n) = ltb 0 n && leb n 65535
is_port (negsuc n) = false

-- The switch on the protocol.
unfoldable pub check_secrets : ProxyNode → Result NodeError (Unit {0})
check_secrets n =
    if text_eq n.protocol protocol_shadowsocks
    then (if is_empty n.method || is_empty n.password
        then err (requires_method_and_password n.name)
        else ok tt)
    else if text_eq n.protocol protocol_vmess || text_eq n.protocol protocol_vless
    then (if is_empty n.uuid then err (requires_uuid n.name n.protocol) else ok tt)
    else if text_eq n.protocol protocol_trojan
        || text_eq n.protocol protocol_hysteria
        || text_eq n.protocol protocol_hysteria2
        || text_eq n.protocol protocol_anytls
    then (if is_empty n.password then err (requires_password n.name n.protocol) else ok tt)
    else if text_eq n.protocol protocol_tuic
    then (if is_empty n.uuid || is_empty n.password
        then err (requires_uuid_and_password n.name)
        else ok tt)
    else err (unsupported_protocol n.name n.protocol)

unfoldable pub validate_node : ProxyNode → Result NodeError (Unit {0})
unfolding is_port check_secrets
validate_node n =
    if is_empty (trim_space n.name)
    then err requires_name
    else if is_empty (trim_space n.server)
    then err (requires_server n.name)
    else if not (is_port n.port)
    then err (requires_valid_port n.name)
    else check_secrets n

-- The secrets that a protocol needs.
pub data HasSecrets (n : ProxyNode) : Type 0 where
  shadowsocks : n.protocol ≡ protocol_shadowsocks → n.method ≢ [] → n.password ≢ [] → HasSecrets n
  with_uuid :
      (n.protocol ≡ protocol_vmess) ⊎ (n.protocol ≡ protocol_vless) → n.uuid ≢ [] → HasSecrets n
  with_password :
      (n.protocol ≡ protocol_trojan)
        ⊎ (n.protocol ≡ protocol_hysteria)
        ⊎ (n.protocol ≡ protocol_hysteria2)
        ⊎ (n.protocol ≡ protocol_anytls)
      → n.password ≢ []
      → HasSecrets n
  with_both : n.protocol ≡ protocol_tuic → n.uuid ≢ [] → n.password ≢ [] → HasSecrets n

pub record IsUsableNode (n : ProxyNode) : Type 0 where
  pub named : trim_space n.name ≢ []
  pub served : trim_space n.server ≢ []
  pub port_in_range : (p : ℕ) × (n.port ≡ pos p) × (1 ≤ p) × (p ≤ 65535)
  pub secrets : HasSecrets n

pub is_port_iff : (z : ℤ) → (is_port z ≡ true) ↔ ((p : ℕ) × (z ≡ pos p) × (1 ≤ p) × (p ≤ 65535))
unfolding is_port
is_port_iff (pos n) = (λ h. (n, refl, ground arith, ground arith), λ (p, e, lo, hi). ground arith)
is_port_iff (negsuc n) = (λ h. cc, λ (p, e, lo, hi). cc)

-- Is `p` one of two words, or of four?
two_words : (p a b : Text) → ((text_eq p a || text_eq p b) ≡ true) ↔ ((p ≡ a) ⊎ (p ≡ b))
two_words p a b = ground (arith, text_eq_iff p a, text_eq_iff p b)

four_words :
    (p a b c d : Text)
    → ((text_eq p a || text_eq p b || text_eq p c || text_eq p d) ≡ true)
      ↔ ((p ≡ a) ⊎ (p ≡ b) ⊎ (p ≡ c) ⊎ (p ≡ d))
four_words p a b c d =
    ground (arith, text_eq_iff p a, text_eq_iff p b, text_eq_iff p c, text_eq_iff p d)

check_secrets-HasSecrets : (n : ProxyNode) → check_secrets n ≡ ok tt → HasSecrets n
unfolding check_secrets
check_secrets-HasSecrets n h = elim (Bool-cases (text_eq n.protocol protocol_shadowsocks)) [
  | inl e ↦
      shadowsocks (eq_of_text_eq _ _ e) (ne_nil n.method (ground arith))
        (ne_nil n.password (ground arith))
  | inr e ↦
      elim (Bool-cases (text_eq n.protocol protocol_vmess || text_eq n.protocol protocol_vless)) [
        | inl e' ↦
            with_uuid ((two_words n.protocol protocol_vmess protocol_vless).0 e')
              (ne_nil n.uuid (ground arith))
        | inr e' ↦
            elim (Bool-cases (
              text_eq n.protocol protocol_trojan
              || text_eq n.protocol protocol_hysteria
              || text_eq n.protocol protocol_hysteria2
              || text_eq n.protocol protocol_anytls)) [
                | inl e'' ↦
                    with_password
                      ((four_words n.protocol protocol_trojan protocol_hysteria protocol_hysteria2
                          protocol_anytls).0
                        e'')
                      (ne_nil n.password (ground arith))
                | inr e'' ↦
                    with_both (eq_of_text_eq _ _ (ground arith)) (ne_nil n.uuid (ground arith))
                      (ne_nil n.password (ground arith))
              ]
      ]
]

HasSecrets-check_secrets : (n : ProxyNode) → HasSecrets n → check_secrets n ≡ ok tt
unfolding check_secrets text_eq
HasSecrets-check_secrets n (shadowsocks e m p) =
    rw (e, not_empty n.method m, not_empty n.password p) refl
HasSecrets-check_secrets n (with_uuid (inl e) u) = rw (e, not_empty n.uuid u) refl
HasSecrets-check_secrets n (with_uuid (inr e) u) = rw (e, not_empty n.uuid u) refl
HasSecrets-check_secrets n (with_password (inl e) p) = rw (e, not_empty n.password p) refl
HasSecrets-check_secrets n (with_password (inr (inl e)) p) = rw (e, not_empty n.password p) refl
HasSecrets-check_secrets n (with_password (inr (inr (inl e))) p) =
    rw (e, not_empty n.password p) refl
HasSecrets-check_secrets n (with_password (inr (inr (inr e))) p) =
    rw (e, not_empty n.password p) refl
HasSecrets-check_secrets n (with_both e u p) =
    rw (e, not_empty n.uuid u, not_empty n.password p) refl

pub validate_node_iff : (n : ProxyNode) → (validate_node n ≡ ok tt) ↔ IsUsableNode n
unfolding validate_node
validate_node_iff n = (
  λ h. record {
    named = ne_nil (trim_space n.name) (ground arith);
    served = ne_nil (trim_space n.server) (ground arith);
    port_in_range = (is_port_iff n.port).0 (ground arith);
    secrets = check_secrets-HasSecrets n (ground arith);
  },
  λ u. ground (
    arith,
    not_empty (trim_space n.name) u.named,
    not_empty (trim_space n.server) u.served,
    (is_port_iff n.port).1 u.port_in_range,
    HasSecrets-check_secrets n u.secrets,
  ),
)
