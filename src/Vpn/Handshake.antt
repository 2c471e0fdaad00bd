-- ===== src/Vpn/Handshake.antt =====
-- The authentication of a VPN client: the request of runOnce in client/internal/tunnel/vpn.go, and what
-- handleClient in server/internal/vpnserver/server.go reads of it. Texts are lists of bytes here.
pub mod Lines
pub mod Accepts
use safelink_ssh.Base.{
  ℕ, Bool, true, false, ◌&&◌, Option, none, some, List, [], ◌∷◌, ◌++◌, if◌then◌else◌, ◌==◌,
}
use safelink_ssh.Text.{Text, codes, text_eq, has_prefix, trim_prefix}

abbrev pub crlf : Text
crlf = 13 ∷ 10 ∷ []

abbrev pub basic : Text
basic = codes "Authorization: Basic "

-- authPayload
abbrev pub auth_payload : Text → Text → Text
auth_payload user password = user ++ (codes ":" ++ password)

-- httpReq
unfoldable pub http_request : Text → Text → Text
http_request user password =
    codes "POST /connect HTTP/1.1"
    ++ (crlf
        ++ (codes "Host: gateway.icloud.com"
            ++ (crlf
                ++ ((basic ++ auth_payload user password)
                    ++ (crlf ++ (codes "Content-Length: 0" ++ (crlf ++ crlf)))))))

-- string(authBuf[len(authBuf)-4:]) == "\r\n\r\n", with the last byte first
unfoldable pub ends_request : List ℕ → Bool
ends_request (a ∷ b ∷ c ∷ d ∷ acc) = a == 10 && b == 13 && c == 10 && d == 13
ends_request _ = false

-- The bytes in their order.
unfoldable pub rev_onto : List ℕ → List ℕ → List ℕ
rev_onto [] acc = acc
rev_onto (c ∷ s) acc = rev_onto s (c ∷ acc)

-- The loop that reads the request: `acc` is authBuf with its last byte first. It gives authBuf and the
-- bytes that are not read yet, or nothing if the stream ends before the request does.
unfoldable pub read_auth : List ℕ → List ℕ → Option (Text × List ℕ)
unfolding ends_request rev_onto
read_auth acc [] = none
read_auth acc (b ∷ s) =
    let rest = read_auth (b ∷ acc) s in
    if ends_request (b ∷ acc) then some (rev_onto (b ∷ acc) [], s) else rest

-- strings.Split(s, "\r\n")
push : ℕ → List Text → List Text
push c [] = (c ∷ []) ∷ []
push c (l ∷ ls) = (c ∷ l) ∷ ls

unfoldable pub split_lines : Text → List Text
unfolding push
split_lines [] = [] ∷ []
split_lines (c ∷ []) = (c ∷ []) ∷ []
split_lines (c ∷ d ∷ s) =
    let after = split_lines s in
    let rest = split_lines (d ∷ s) in if c == 13 && d == 10 then [] ∷ after else push c rest

-- strings.SplitN(creds, ":", 2): the two parts, if there are two.
unfoldable pub split_colon : Text → Option (Text × Text)
split_colon [] = none
split_colon (c ∷ s) =
    if c == b':'
    then some ([], s)
    else elim (split_colon s) [ none ↦ none | some (user, password) ↦ some (c ∷ user, password) ]

unfoldable pub check_parts : Text → Text → Option (Text × Text) → Bool
check_parts username password none = false
check_parts username password (some (u, p)) = text_eq u username && text_eq p password

-- The loop over the lines: the first line with credentials decides.
unfoldable pub check_lines : Text → Text → List Text → Bool
unfolding split_colon check_parts
check_lines username password [] = false
check_lines username password (line ∷ lines) =
    let rest = check_lines username password lines in
    if has_prefix line basic
    then check_parts username password (split_colon (trim_prefix line basic))
    else rest

unfoldable pub authenticate : Text → Text → Text → Bool
unfolding split_lines check_lines
authenticate username password auth_buf = check_lines username password (split_lines auth_buf)
