-- ===== src/Net/HostPort.antt =====
-- net.SplitHostPort and net.JoinHostPort; the errors are not told apart.
pub mod Joined
use safelink_ssh.Base.{
  ℕ, Bool, true, false, ◌||◌, not, Option, none, some, List, [], ◌∷◌, ◌++◌, if◌then◌else◌, ◌==◌,
  any,
}
use safelink_ssh.Text.{Text, is_empty}
use safelink_ssh.Text.Split.{cut}

unfoldable pub has_rune : ℕ → Text → Bool
unfolding any
has_rune c = any (λ d. d == c)

-- One character in front of a text that was cut, or that has no `c`.
unfoldable pub last_step : ℕ → ℕ → Text → Option (Text × Text) → Option (Text × Text)
last_step c d s (some (front, behind)) = some (d ∷ front, behind)
last_step c d s none = if d == c then some ([], s) else none

-- The text before the last `c` and the text behind it.
unfoldable pub cut_last : ℕ → Text → Option (Text × Text)
unfolding last_step
cut_last c [] = none
cut_last c (d ∷ s) = last_step c d s (cut_last c s)

-- Neither the host nor the port has a bracket.
no_brackets : Text → Text → Option (Text × Text)
unfolding has_rune
no_brackets host port =
    if has_rune b'[' host || has_rune b']' host || has_rune b'[' port || has_rune b']' port
    then none
    else some (host, port)

-- The host between the brackets: the first `]` ends the text before the last colon.
bracketed : Option (Text × Text) → Text → Option (Text × Text)
unfolding no_brackets
bracketed none port = none
bracketed (some (host, rest)) port = if is_empty rest then no_brackets host port else none

split_address : Text × Text → Option (Text × Text)
unfolding bracketed no_brackets has_rune cut
split_address ([], port) = no_brackets [] port
split_address (c ∷ s, port) =
    if c == b'['
    then bracketed (cut b']' s) port
    else if has_rune b':' (c ∷ s)
    then none
    else no_brackets (c ∷ s) port

split_parts : Option (Text × Text) → Option (Text × Text)
unfolding split_address
split_parts none = none
split_parts (some parts) = split_address parts

unfoldable pub split_host_port : Text → Option (Text × Text)
unfolding cut_last split_parts
split_host_port address = split_parts (cut_last b':' address)

unfoldable pub join_host_port : Text → Text → Text
unfolding has_rune
join_host_port host port =
    if has_rune b':' host then b'[' ∷ (host ++ b']' ∷ b':' ∷ port) else host ++ b':' ∷ port
