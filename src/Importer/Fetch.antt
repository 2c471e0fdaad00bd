-- ===== src/Importer/Fetch.antt =====
-- FetchWithUsage, parseUsage, Prefix and compactErrors of client/internal/subscriptionclient/importer.go.
use safelink_ssh.Base.{
  ℕ, ◌-◌, ◌^◌, Bool, ◌&&◌, ◌||◌, Option, none, some, List, [], ◌∷◌, ◌++◌, map, Result, ok, err,
  if◌then◌else◌, ltb, leb, ◌==◌,
}
use safelink_ssh.Base.Int.{ℤ, pos, negsuc}
use safelink_ssh.Text.{Text, codes, is_empty, text_eq, trim, trim_space}
use safelink_ssh.Text.Split.{cut, split, non_empty}
use safelink_ssh.Text.Number.{parse_uint}

pub record Usage : Type 0 where
  pub upload : ℕ
  pub download : ℕ
  pub total : ℕ
  pub expire : ℤ

abbrev pub no_usage : Usage
no_usage = record { upload = 0; download = 0; total = 0; expire = pos 0 }

-- int64(n) of a 64-bit number
unfoldable pub to_int64 : ℕ → ℤ
to_int64 n = if ltb n (2 ^ 63) then pos n else negsuc (2 ^ 64 - 1 - n)

-- The switch of parseUsage.
unfoldable pub set_usage : Text → ℕ → Usage → Usage
unfolding to_int64
set_usage key n usage =
    if text_eq key (codes "upload")
    then record usage { upload = n }
    else if text_eq key (codes "download")
    then record usage { download = n }
    else if text_eq key (codes "total")
    then record usage { total = n }
    else if text_eq key (codes "expire")
    then record usage { expire = to_int64 n }
    else usage

unfoldable pub usage_number : Text → Option ℕ → Usage → Usage
unfolding set_usage
usage_number key none usage = usage
usage_number key (some n) usage = set_usage (trim_space key) n usage

unfoldable pub usage_field : Option (Text × Text) → Usage → Usage
unfolding usage_number
usage_field none usage = usage
usage_field (some (key, value)) usage = usage_number key (parse_uint (trim_space value)) usage

unfoldable pub usage_fields : List Text → Usage → Usage
unfolding usage_field
usage_fields [] usage = usage
usage_fields (field ∷ fields) usage =
    usage_fields fields (usage_field (cut b'=' (trim_space field)) usage)

unfoldable pub parse_usage : Text → Usage
unfolding usage_fields
parse_usage raw = usage_fields (split b';' raw) no_usage

-- An HTTP response: `body` is what io.ReadAll gives of its first 2 MiB, none if it fails; `userinfo` is
-- the header subscription-userinfo.
pub record Response : Type 0 where
  pub status : ℕ
  pub body : Option Text
  pub userinfo : Text

pub data FetchError : Type 0 where
  no_response unreadable : FetchError
  http_status : ℕ → FetchError

unfoldable pub read_response : Text → Option Text → Result FetchError (Text × Usage)
unfolding parse_usage
read_response userinfo none = err unreadable
read_response userinfo (some content) = ok (content, parse_usage userinfo)

-- FetchWithUsage, for the response that came, if one did.
unfoldable pub fetch_with_usage : Option Response → Result FetchError (Text × Usage)
unfolding read_response
fetch_with_usage none = err no_response
fetch_with_usage (some r) =
    if ltb r.status 200 || leb 300 r.status
    then err (http_status r.status)
    else read_response r.userinfo r.body

unfoldable pub is_kept_rune : ℕ → Bool
is_kept_rune r =
    (leb b'a' r && leb r b'z')
    || (leb b'A' r && leb r b'Z')
    || (leb b'0' r && leb r b'9')
    || r == b'-'
    || r == b'_'
    || r == b'.'

unfoldable pub dashed : ℕ → ℕ
unfolding is_kept_rune
dashed r = if is_kept_rune r then r else b'-'

-- Prefix
unfoldable pub prefix_of : Text → Text
unfolding dashed
prefix_of name =
    let prefix = trim (λ c. c == b'-') (map dashed name) in
    (if is_empty prefix then codes "subscription" else prefix) ++ codes "-"

unfoldable pub compact_errors : List Text → List Text
compact_errors errs = non_empty (map trim_space errs)
