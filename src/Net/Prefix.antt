-- ===== src/Net/Prefix.antt =====
-- `netip.ParsePrefix`, as a test: the sources use only whether it returns an error.
-- A zone, which starts at '%', is refused in a prefix, so its text is not read.
use safelink_ssh.Base.{
  ℕ, zero, suc, ◌+◌, ◌-◌, ◌*◌, ◌≡◌, refl, Bool, true, false, ◌&&◌, ◌||◌, not, Option, none, some,
  [], ◌∷◌, leb, ltb, ◌==◌, if◌then◌else◌,
}
use safelink_ssh.Text.{Text, codes, is_empty}

abbrev is_digit : ℕ → Bool
is_digit c = leb b'0' c && leb c b'9'

abbrev is_hex_digit : ℕ → Bool
is_hex_digit c = is_digit c || (leb b'a' c && leb c b'f') || (leb b'A' c && leb c b'F')

-- parseIPv4Fields: the digits of the field so far, its value, the fields that are complete.
ipv4_fields : ℕ → ℕ → ℕ → Text → Bool
ipv4_fields digits val pos [] = ltb 0 digits && pos == 3
ipv4_fields digits val pos (c ∷ s) =
    let next = ipv4_fields (digits + 1) (val * 10 + (c - b'0')) pos s in
    let rest = ipv4_fields 0 0 (pos + 1) s in
    if is_digit c
    then (if (digits == 1 && val == 0) || ltb 255 (val * 10 + (c - b'0')) then false else next)
    else if c == b'.'
    then (if digits == 0 || is_empty s || pos == 3 then false else rest)
    else false

-- The number of leading hexadecimal digits, and what follows them.
hex_run : Text → ℕ × Text
hex_run [] = (0, [])
hex_run (c ∷ s) = let (n, rest) = hex_run s in if is_hex_digit c then (n + 1, rest) else (0, c ∷ s)

-- The end of parseIPv6, with `left` groups not given: an ellipsis must stand for at least one.
ipv6_end : ℕ → Bool → Bool
ipv6_end left ellipsis = if ltb 0 left then ellipsis else not ellipsis

pub data Follow : Type 0 where
  dot stop colon_end other : Follow
  ellipsis_end : Follow
  ellipsis : Text → Follow
  colon : Text → Follow

-- What stands behind a group.
follow : Text → Follow
follow [] = stop
follow (c ∷ []) = if c == b'.' then dot else if c == b':' then colon_end else other
follow (c ∷ d ∷ []) =
    if c == b'.'
    then dot
    else if c == b':'
    then (if d == b':' then ellipsis_end else colon (d ∷ []))
    else other
follow (c ∷ d ∷ s) =
    if c == b'.'
    then dot
    else if c == b':'
    then (if d == b':' then ellipsis s else colon (d ∷ s))
    else other

-- The loop of parseIPv6, over the groups that are left.
ipv6_groups : ℕ → Bool → Text → Bool
ipv6_groups zero seen s = is_empty s && not seen
ipv6_groups (suc k) seen s =
    let (off, rest) = hex_run s in
    if off == 0 || ltb 4 off then false else elim (follow rest) [
      | dot ↦ (seen || k == 1) && leb 1 k && ipv4_fields 0 0 0 s && ipv6_end (k - 1) seen
      | stop ↦ ipv6_end k seen
      | colon_end ↦ false
      | other ↦ false
      | ellipsis_end ↦ not seen && ipv6_end k true
      | ellipsis t ↦ if seen then false else ipv6_groups k true t
      | colon t ↦ ipv6_groups k seen t
    ]

ipv6 : Text → Bool
unfolding ipv6_groups
ipv6 [] = false
ipv6 (c ∷ []) = false
ipv6 (c ∷ d ∷ s) =
    if c == b':' && d == b':'
    then (if is_empty s then true else ipv6_groups 8 true s)
    else ipv6_groups 8 false (c ∷ d ∷ s)

-- netip.ParseAddr with no zone: the greatest prefix length of the address.
addr_bits : Text → Text → Option ℕ
unfolding ipv4_fields ipv6
addr_bits s [] = none
addr_bits s (c ∷ t) =
    let rest = addr_bits s t in
    if c == b'.'
    then (if ipv4_fields 0 0 0 s then some 32 else none)
    else if c == b':'
    then (if ipv6 s then some 128 else none)
    else if c == b'%'
    then none
    else rest

-- The text before and after the last '/'.
split_last_slash : Text → Option (Text × Text)
split_last_slash [] = none
split_last_slash (c ∷ s) = elim (split_last_slash s) [
  | some (a, b) ↦ some (c ∷ a, b)
  | none ↦ if c == b'/' then some ([], s) else none
]

-- strconv.Atoi on a text with no sign
atoi : ℕ → Text → Option ℕ
atoi n [] = some n
atoi n (c ∷ s) = let rest = atoi (n * 10 + (c - b'0')) s in if is_digit c then rest else none

prefix_bits : Text → Option ℕ
unfolding atoi
prefix_bits [] = none
prefix_bits (c ∷ []) = atoi 0 (c ∷ [])
prefix_bits (c ∷ d ∷ s) = if ltb c b'1' || ltb b'9' c then none else atoi 0 (c ∷ d ∷ s)

bits_fit : Option ℕ → Option ℕ → Bool
bits_fit none b = false
bits_fit (some most) none = false
bits_fit (some most) (some bits) = leb bits most

unfoldable pub parses_as_prefix : Text → Bool
unfolding split_last_slash addr_bits prefix_bits bits_fit hex_run follow ipv6_end
parses_as_prefix s = elim (split_last_slash s) [
  | none ↦ false
  | some (addr, bits) ↦ bits_fit (addr_bits addr addr) (prefix_bits bits)
]

accepted :
    (parses_as_prefix (codes "10.0.0.0/8") ≡ true)
    × (parses_as_prefix (codes "::1/128") ≡ true)
    × (parses_as_prefix (codes "fc00::/7") ≡ true)
    × (parses_as_prefix (codes "1:2:3:4:5:6:7:8/64") ≡ true)
    × (parses_as_prefix (codes "::ffff:1.2.3.4/96") ≡ true)
unfolding parses_as_prefix
accepted = (refl, refl, refl, refl, refl)

refused :
    (parses_as_prefix (codes "10.0.0.0/33") ≡ false)
    × (parses_as_prefix (codes "10.0.0/8") ≡ false)
    × (parses_as_prefix (codes "10.0.00.0/8") ≡ false)
    × (parses_as_prefix (codes "10.0.0.0/08") ≡ false)
    × (parses_as_prefix (codes "1::2::3/64") ≡ false)
    × (parses_as_prefix (codes "1:2:3:4:5:6:7:8::/64") ≡ false)
    × (parses_as_prefix (codes "fe80::1%eth0/64") ≡ false)
unfolding parses_as_prefix
refused = (refl, refl, refl, refl, refl, refl, refl)
