-- ===== src/Vpn/Handshake/Accepts.antt =====
-- The server of server/internal/vpnserver/server.go lets in who the client of
-- client/internal/tunnel/vpn.go says it is.
use safelink_ssh.Base.{
  ℕ, ◌≡◌, ◌≢◌, ◌↔◌, refl, sym, ◌∙◌, ap, true, ◌&&◌, some, List, [], ◌∷◌, ◌++◌, arith, All,
  All-append, append_assoc,
}
use safelink_ssh.Text.{Text, codes, text_eq, has_prefix, trim_prefix, cut_prefix}
use safelink_ssh.Text.Laws.{text_eq_iff, cut_prefix-append}
use safelink_ssh.Vpn.Handshake.{
  crlf, basic, auth_payload, http_request, rev_onto, read_auth, split_lines, split_colon,
  check_parts, check_lines, authenticate,
}
use safelink_ssh.Vpn.Handshake.Lines.{
  read_auth-line, read_auth-end, rev_onto-append, rev_onto-rev_onto, split_lines-line, ==-false,
}

-- Texts without a line feed or a carriage return.
abbrev pub IsPlain : Text → Type 0
IsPlain s = All (λ c. c ≢ 10) s × All (λ c. c ≢ 13) s

append-IsPlain : (s t : Text) → IsPlain s → IsPlain t → IsPlain (s ++ t)
append-IsPlain s t h k =
    (All-append (λ c. c ≢ 10) s t h.0 k.0, All-append (λ c. c ≢ 13) s t h.1 k.1)

-- The line with the credentials.
abbrev credentials : Text → Text → Text
credentials user password = basic ++ auth_payload user password

credentials-IsPlain :
    (user password : Text) → IsPlain user → IsPlain password → IsPlain (credentials user password)
credentials-IsPlain user password h k =
    append-IsPlain basic (auth_payload user password) (omega arith, omega arith)
      (append-IsPlain user (codes ":" ++ password) h
        (append-IsPlain (codes ":") password (omega arith, omega arith) k))

abbrev post_line : Text
post_line = codes "POST /connect HTTP/1.1"

abbrev host_line : Text
host_line = codes "Host: gateway.icloud.com"

abbrev length_line : Text
length_line = codes "Content-Length: 0"

abbrev after_credentials : Text
after_credentials = length_line ++ (crlf ++ crlf)

abbrev after_host : Text → Text → Text
after_host user password = credentials user password ++ (crlf ++ after_credentials)

split_request :
    (user password : Text)
    → IsPlain user
    → IsPlain password
    → split_lines (http_request user password)
      ≡ post_line ∷ host_line ∷ credentials user password ∷ length_line ∷ [] ∷ [] ∷ []
unfolding http_request split_lines
split_request user password h k =
    split_lines-line post_line (host_line ++ (crlf ++ after_host user password)) (omega arith)
    ∙ ap (λ ls. post_line ∷ ls)
        (split_lines-line host_line (after_host user password) (omega arith))
    ∙ ap (λ ls. post_line ∷ host_line ∷ ls)
        (split_lines-line (credentials user password) after_credentials
          (credentials-IsPlain user password h k).1)
    ∙ ap (λ ls. post_line ∷ host_line ∷ credentials user password ∷ ls)
        (split_lines-line length_line crlf (omega arith))

split_colon-append :
    (user password : Text)
    → All (λ c. c ≢ b':') user
    → split_colon (user ++ (codes ":" ++ password)) ≡ some (user, password)
unfolding split_colon
split_colon-append [] password h = refl
split_colon-append (c ∷ user) password h =
    rw (==-false c b':' h.0, split_colon-append user password h.1)

has_prefix-append : (p s : Text) → has_prefix (p ++ s) p ≡ true
unfolding has_prefix
has_prefix-append p s = rw (has_prefix, cut_prefix-append p s)

-- Lines that do not start with the name of the header are passed over.
check_lines-found :
    (username password user pass : Text) (lines : List Text)
    → All (λ c. c ≢ b':') user
    → check_lines username password (post_line ∷ host_line ∷ credentials user pass ∷ lines)
      ≡ text_eq user username && text_eq pass password
unfolding check_lines has_prefix cut_prefix check_parts trim_prefix
check_lines-found username password user pass lines colon = rw (split_colon-append user pass colon)

-- Lines with their ends.
abbrev unlines : List Text → Text
unlines [] = []
unlines (l ∷ ls) = l ++ (crlf ++ unlines ls)

abbrev IsLine : Text → Type 0
IsLine [] = ⊥
IsLine (c ∷ l) = All (λ d. d ≢ 10) (c ∷ l)

read_auth-unlines :
    (ls : List Text) (s acc : List ℕ)
    → All IsLine ls
    → read_auth acc (unlines ls ++ s) ≡ read_auth (rev_onto (unlines ls) acc) s
unfolding rev_onto
read_auth-unlines [] s acc h = refl
read_auth-unlines ([] ∷ ls) s acc h = elim h.0 [ ]
read_auth-unlines ((c ∷ l) ∷ ls) s acc h =
    ap (read_auth acc) (append_assoc (c ∷ l) (crlf ++ unlines ls) s)
    ∙ read_auth-line c l (unlines ls ++ s) acc h.0
    ∙ read_auth-unlines ls s (rev_onto ((c ∷ l) ++ crlf) acc) h.1
    ∙ ap (λ a. read_auth a s)
        (sym (rev_onto-append ((c ∷ l) ++ crlf) (unlines ls) acc)
          ∙ ap (λ m. rev_onto m acc) (append_assoc (c ∷ l) crlf (unlines ls)))

request_lines : Text → Text → List Text
request_lines user password = post_line ∷ host_line ∷ credentials user password ∷ []

request-unlines :
    (user password : Text)
    → http_request user password ≡ unlines (request_lines user password) ++ after_credentials
unfolding http_request request_lines
request-unlines user password =
    ap (λ m. post_line ++ (crlf ++ (host_line ++ (crlf ++ m))))
      (sym (append_assoc (credentials user password) (crlf ++ []) after_credentials))

read_last :
    (acc s : List ℕ)
    → read_auth acc (after_credentials ++ s) ≡ some (rev_onto acc after_credentials, s)
unfolding rev_onto
read_last acc s =
    read_auth-line b'C' (codes "ontent-Length: 0") (crlf ++ s) acc (omega arith)
    ∙ read_auth-end (rev_onto length_line acc) s

-- The bytes that the client sends are read as one request, and what comes behind is left.
read_request :
    (user password s : Text)
    → IsPlain user
    → IsPlain password
    → read_auth [] (http_request user password ++ s) ≡ some (http_request user password, s)
unfolding request_lines rev_onto
read_request user password s h k =
    let ls = request_lines user password in
    ap (λ m. read_auth [] (m ++ s)) (request-unlines user password)
    ∙ ap (read_auth []) (append_assoc (unlines ls) after_credentials s)
    ∙ read_auth-unlines ls (after_credentials ++ s) []
        (omega arith, (omega arith, ((credentials-IsPlain user password h k).0, tt)))
    ∙ read_last (rev_onto (unlines ls) []) s
    ∙ ap (λ m. some (m, s))
        (rev_onto-rev_onto (unlines ls) [] after_credentials ∙ sym (request-unlines user password))

-- The server reads the request of a client as it was sent, with nothing of what comes behind it, and
-- authenticates it exactly when the user and the password are its own, if neither has a line feed or a
-- carriage return in it and the user has no colon.
pub request_accepted :
    (username password user pass s : Text)
    → IsPlain user
    → IsPlain pass
    → All (λ c. c ≢ b':') user
    → (read_auth [] (http_request user pass ++ s) ≡ some (http_request user pass, s))
      × ((authenticate username password (http_request user pass) ≡ true)
          ↔ ((user ≡ username) × (pass ≡ password)))
unfolding authenticate
request_accepted username password user pass s h k colon = (
  read_request user pass s h k,
  rw
      (
        split_request user pass h k,
        check_lines-found username password user pass (length_line ∷ [] ∷ [] ∷ []) colon,
      )
      (ground (arith, text_eq_iff user username, text_eq_iff pass password)),
)
