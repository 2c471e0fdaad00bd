-- ===== src/Proxy/Query.antt =====
-- The small readers of pkg/proxysubscription/subscription.go: ports, fragments, base64 texts, and the
-- query of a proxy URI.
use safelink_ssh.Base.{
  ◌-◌, ◌%◌, Bool, true, not, ◌||◌, Option, none, some, Result, ok, err, ok_or, and_then, List, [],
  ◌∷◌, ◌++◌, map, replicate, if◌then◌else◌, ◌==◌,
}
use safelink_ssh.Base.Int.{ℤ}
use safelink_ssh.Text.{Text, codes, is_empty, text_eq, trim_space, to_lower}
use safelink_ssh.Text.Split.{cut, before, split, non_empty, byte_length}
use safelink_ssh.Text.Number.{atoi}
use safelink_ssh.Proxy.Words.{first_non_empty}
use safelink_ssh.Proxy.Node.{TlsOptions}
use safelink_ssh.Proxy.Codec.{
  Codec, Base64, standard, url_safe, raw_standard, raw_url_safe, query_get,
}
use safelink_ssh.Proxy.Gather.{ParseError, invalid_port}
use safelink_ssh.Proxy.Valid.{is_port}

unfoldable pub parse_port : Text → Result ParseError ℤ
unfolding atoi is_port ok_or and_then
parse_port text =
    and_then (ok_or (invalid_port text) (atoi text))
      (λ port. if is_port port then ok port else err (invalid_port text))

unfoldable pub strip_fragment : Text → Text
unfolding before
strip_fragment raw = before b'#' raw

unfoldable pub fragment_name : Codec → Text → Text
unfolding cut
fragment_name codec raw = elim (cut b'#' raw) [
  | none ↦ []
  | some (url, fragment) ↦ elim (codec.query_unescape fragment) [
    | none ↦ fragment
    | some name ↦ name
  ]
]

-- The padding to a multiple of four bytes.
unfoldable pub pad_base64 : Text → Text
unfolding byte_length
pad_base64 text =
    let padding = byte_length text % 4 in
    if padding == 0 then text else text ++ replicate (4 - padding) b'='

first_decoded : Codec → List Base64 → Text → Option Text
first_decoded codec [] text = none
first_decoded codec (encoding ∷ encodings) text =
    let later = first_decoded codec encodings text in
    elim (codec.base64 encoding text) [ none ↦ later | some decoded ↦ some decoded ]

unfoldable pub decode_base64_text : Codec → Text → Option Text
unfolding pad_base64 first_decoded
decode_base64_text codec text =
    first_decoded codec (standard ∷ url_safe ∷ raw_standard ∷ raw_url_safe ∷ [])
      (pad_base64 (trim_space text))

-- splitALPN: an empty text has no parts that are not empty either.
unfoldable pub split_alpn : Text → List Text
unfolding split non_empty
split_alpn value = non_empty (map trim_space (split b',' (trim_space value)))

abbrev one_of : Text → Text → Text → Bool
one_of value a b = text_eq value a || text_eq value b

unfoldable pub should_enable_tls : List (Text × Text) → Bool
unfolding query_get
should_enable_tls q =
    let security = to_lower (trim_space (query_get q (codes "security"))) in
    text_eq security (codes "tls")
    || text_eq security (codes "reality")
    || text_eq security (codes "xtls")
    || not (is_empty (query_get q (codes "sni")))
    || not (is_empty (query_get q (codes "peer")))
    || not (is_empty (query_get q (codes "pbk")))

unfoldable pub tls_insecure_from_query : List (Text × Text) → Bool
unfolding query_get
tls_insecure_from_query q =
    one_of (query_get q (codes "allowInsecure")) (codes "1") (codes "true")
    || one_of (query_get q (codes "insecure")) (codes "1") (codes "true")
    || text_eq (query_get q (codes "skip-cert-verify")) (codes "true")

-- The TLS options that parseUserInfoURI sets.
unfoldable pub query_tls : List (Text × Text) → TlsOptions
unfolding query_get first_non_empty tls_insecure_from_query split_alpn
query_tls q = record {
  enabled = true;
  server_name =
      first_non_empty
        (query_get q (codes "sni") ∷ query_get q (codes "peer") ∷ query_get q (codes "host") ∷ []);
  insecure = tls_insecure_from_query q;
  alpn = split_alpn (query_get q (codes "alpn"));
  public_key = query_get q (codes "pbk");
  short_id = query_get q (codes "sid");
  fingerprint = first_non_empty (query_get q (codes "fp") ∷ query_get q (codes "fingerprint") ∷ []);
}
