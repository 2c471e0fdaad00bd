-- ===== src/Proxy/Words/Laws.antt =====
-- The words that pkg/proxysubscription/subscription.go normalises are normal afterwards.
use safelink_ssh.Base.{
  ◌≡◌, refl, ap, ◌∙◌, Bool, true, false, ◌||◌, ◌⊎◌, inl, inr, [], if_rule, if◌then◌else◌,
}
use safelink_ssh.Text.{Text, codes, text_eq, is_empty, trim_space, to_lower}
use safelink_ssh.Text.Laws.{trim_space_idem, to_lower_idem, trim_space-to_lower}
use safelink_ssh.Proxy.Node.{protocol_shadowsocks}
use safelink_ssh.Proxy.Words.{
  encoding_of_word, normalize_packet_encoding, protocol_of_word, normalize_protocol, format_of_word,
  normalize_format, packet_encoding_xudp, packet_encoding_packet_addr, packet_encoding_disabled,
}

-- Trimmed and in small letters.
abbrev word : Text → Text
word s = to_lower (trim_space s)

word_idem : (s : Text) → word (word s) ≡ word s
word_idem s =
    ap to_lower (trim_space-to_lower (trim_space s) ∙ ap to_lower (trim_space_idem s))
    ∙ to_lower_idem (trim_space s)

-- A switch on the word gives one of its own results or leaves the word as it is.
module _ (f : Text → Text) where
  abbrev IsSettled : Text → Type 0
  IsSettled r = f (word r) ≡ r

  IsSettled-word : (s : Text) → f (word s) ≡ word s → IsSettled (word s)
  IsSettled-word s e = ap f (word_idem s) ∙ e

other_protocol :
    (w : Text)
    → (text_eq w protocol_shadowsocks || text_eq w (codes "shadowsocks")) ≡ false
    → text_eq w (codes "hy2") ≡ false
    → protocol_of_word w ≡ w
unfolding protocol_of_word
other_protocol w e e' = rw (e, e') refl

IsSettled-if :
    (f : Text → Text) (b : Bool) (x y : Text)
    → (b ≡ true → IsSettled f x)
    → (b ≡ false → IsSettled f y)
    → IsSettled f (if b then x else y)
IsSettled-if f = if_rule (IsSettled f)

normalize_protocol_idem :
    (s : Text) → normalize_protocol (normalize_protocol s) ≡ normalize_protocol s
unfolding normalize_protocol protocol_of_word text_eq trim_space to_lower
normalize_protocol_idem s =
    search (IsSettled-if protocol_of_word, IsSettled-word protocol_of_word, other_protocol)

other_format :
    (w : Text)
    → (is_empty w || text_eq w (codes "auto")) ≡ false
    → (text_eq w (codes "clash")
        || text_eq w (codes "yaml")
        || text_eq w (codes "yml")
        || text_eq w (codes "clash-yaml"))
      ≡ false
    → (text_eq w (codes "uri")
        || text_eq w (codes "uri-list")
        || text_eq w (codes "v2ray")
        || text_eq w (codes "base64"))
      ≡ false
    → (text_eq w (codes "sing-box")
        || text_eq w (codes "singbox")
        || text_eq w (codes "json")
        || text_eq w (codes "sing-box-json"))
      ≡ false
    → format_of_word w ≡ w
unfolding format_of_word
other_format w e1 e2 e3 e4 = rw (e1, e2, e3, e4) refl

normalize_format_idem : (s : Text) → normalize_format (normalize_format s) ≡ normalize_format s
unfolding normalize_format format_of_word text_eq trim_space to_lower
normalize_format_idem s =
    search (IsSettled-if format_of_word, IsSettled-word format_of_word, other_format) depth 8

normalize_packet_encoding_idem :
    (s : Text)
    → normalize_packet_encoding (normalize_packet_encoding s) ≡ normalize_packet_encoding s
unfolding normalize_packet_encoding encoding_of_word text_eq trim_space to_lower
normalize_packet_encoding_idem s = search (IsSettled-if encoding_of_word) depth 8

-- What sing-box takes, the internal mark, and nothing.
unfoldable pub IsKnownEncoding : Text → Type 0
IsKnownEncoding e =
    (e ≡ packet_encoding_xudp)
    ⊎ (e ≡ packet_encoding_packet_addr)
    ⊎ (e ≡ packet_encoding_disabled)
    ⊎ (e ≡ [])

normalize_packet_encoding-IsKnownEncoding :
    (s : Text) → IsKnownEncoding (normalize_packet_encoding s)
unfolding normalize_packet_encoding encoding_of_word IsKnownEncoding
normalize_packet_encoding-IsKnownEncoding s =
    if_rule IsKnownEncoding (text_eq (word s) packet_encoding_xudp) _ _ (λ e. inl refl)
      (λ e.
        if_rule IsKnownEncoding
          (text_eq (word s) packet_encoding_packet_addr
            || text_eq (word s) (codes "packet-addr")
            || text_eq (word s) (codes "packet_addr"))
          _ _ (λ e. inr (inl refl))
          (λ e.
            if_rule IsKnownEncoding
              (text_eq (word s) packet_encoding_disabled
                || text_eq (word s) (codes "disabled")
                || text_eq (word s) (codes "false"))
              _ _ (λ e. inr (inr (inl refl))) (λ e. inr (inr (inr refl)))))

-- Normalising a protocol, a packet encoding or a format a second time changes nothing, and a packet
-- encoding is one of the two that sing-box takes, the internal mark, or empty.
pub words_idem :
    (s : Text)
    → (normalize_protocol (normalize_protocol s) ≡ normalize_protocol s)
      × (normalize_format (normalize_format s) ≡ normalize_format s)
      × (normalize_packet_encoding (normalize_packet_encoding s) ≡ normalize_packet_encoding s)
      × IsKnownEncoding (normalize_packet_encoding s)
words_idem s = (
  normalize_protocol_idem s,
  normalize_format_idem s,
  normalize_packet_encoding_idem s,
  normalize_packet_encoding-IsKnownEncoding s,
)
