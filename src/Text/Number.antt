-- ===== src/Text/Number.antt =====
-- Numbers in texts: strconv.Atoi and strconv.ParseUint with base 10, and what they refuse.
pub mod Printed
use safelink_ssh.Base.{
  ℕ, ◌+◌, ◌-◌, ◌*◌, ◌^◌, Bool, ◌&&◌, Option, none, some, [], ◌∷◌, if◌then◌else◌, leb, ◌==◌,
}
use safelink_ssh.Base.Int.{ℤ, pos, negsuc}
use safelink_ssh.Text.{Text}

unfoldable pub is_digit : ℕ → Bool
is_digit c = leb b'0' c && leb c b'9'

-- The value of a text of digits, on top of `v`.
digits_from : ℕ → Text → Option ℕ
unfolding is_digit
digits_from v [] = some v
digits_from v (c ∷ s) =
    let rest = digits_from (v * 10 + (c - b'0')) s in if is_digit c then rest else none

unfoldable pub digits : Text → Option ℕ
unfolding digits_from
digits [] = none
digits (c ∷ s) = digits_from 0 (c ∷ s)

at_most : ℕ → Option ℕ → Option ℕ
at_most bound none = none
at_most bound (some n) = if leb n bound then some n else none

-- strconv.ParseUint(s, 10, 64)
unfoldable pub parse_uint : Text → Option ℕ
unfolding digits at_most
parse_uint s = at_most (2 ^ 64 - 1) (digits s)

positive : Option ℕ → Option ℤ
positive none = none
positive (some n) = some (pos n)

negative : Option ℕ → Option ℤ
negative none = none
negative (some n) = some (if n == 0 then pos 0 else negsuc (n - 1))

-- strconv.Atoi, on a 64-bit int
unfoldable pub atoi : Text → Option ℤ
unfolding digits at_most positive negative
atoi [] = none
atoi (c ∷ s) =
    if c == b'-'
    then negative (at_most (2 ^ 63) (digits s))
    else if c == b'+'
    then positive (at_most (2 ^ 63 - 1) (digits s))
    else positive (at_most (2 ^ 63 - 1) (digits (c ∷ s)))
