-- ===== src/Text.antt =====
-- Go's strings, as lists of the code points that a loop `for _, r := range s` reads, and the part of
-- package `strings` that the sources call. Strings that are not valid UTF-8 are not covered.
-- Of the cased letters outside ASCII, `lower_rune` knows those of Latin-1, Greek and Cyrillic and the
-- three signs whose small letter lies in those ranges; other scripts are left as they are.
pub mod Laws
pub mod Table
pub mod Split
pub mod Number
use Prim.Native.Char.{code}
use Prim.Native.String.{String}
use safelink_ssh.Base.{
  ℕ, zero, suc, ◌+◌, Bool, true, false, ◌&&◌, ◌||◌, not, Option, none, some, List, [], ◌∷◌, ◌++◌,
  map, leb, ◌==◌, if◌then◌else◌, any,
}

abbrev pub Text : Type 0
Text = List ℕ

-- The code points of a literal.
abbrev pub codes : String → Text
codes String.[] = []
codes (String.◌∷◌ c s) = code c ∷ codes s

abbrev pub is_empty : Text → Bool
is_empty [] = true
is_empty (c ∷ s) = false

-- s == t
unfoldable pub text_eq : Text → Text → Bool
text_eq [] [] = true
text_eq [] (d ∷ t) = false
text_eq (c ∷ s) [] = false
text_eq (c ∷ s) (d ∷ t) = c == d && text_eq s t

-- unicode.IsSpace
unfoldable pub is_space : ℕ → Bool
is_space c =
    (leb 9 c && leb c 13)
    || c == 32
    || c == 0x85
    || c == 0xa0
    || c == 0x1680
    || (leb 0x2000 c && leb c 0x200a)
    || c == 0x2028
    || c == 0x2029
    || c == 0x202f
    || c == 0x205f
    || c == 0x3000

-- strings.TrimLeftFunc and strings.TrimRightFunc
unfoldable pub trim_left : (ℕ → Bool) → Text → Text
trim_left p [] = []
trim_left p (c ∷ s) = if p c then trim_left p s else c ∷ s

unfoldable pub trim_right : (ℕ → Bool) → Text → Text
trim_right p [] = []
trim_right p (c ∷ s) = let rest = trim_right p s in if p c && is_empty rest then [] else c ∷ rest

unfoldable pub trim : (ℕ → Bool) → Text → Text
unfolding trim_left trim_right
trim p s = trim_right p (trim_left p s)

-- strings.TrimSpace
unfoldable pub trim_space : Text → Text
unfolding trim is_space
trim_space s = trim is_space s

abbrev in_range : ℕ → ℕ → ℕ → Bool
in_range lo hi c = leb lo c && leb c hi

-- The capital letters whose small letter lies 32 further on, and those where it is 80.
unfoldable pub lower_by_32 : ℕ → Bool
lower_by_32 c =
    in_range b'A' b'Z' c
    || in_range 0xc0 0xd6 c
    || in_range 0xd8 0xde c
    || in_range 0x391 0x3a1 c
    || in_range 0x3a3 0x3ab c
    || in_range 0x410 0x42f c

unfoldable pub lower_by_80 : ℕ → Bool
lower_by_80 c = in_range 0x400 0x40f c

-- The letters and signs whose small letter lies elsewhere.
unfoldable pub lower_sign : ℕ → ℕ
lower_sign c =
    if c == 0x130
    then b'i'
    else if c == 0x212a
    then b'k'
    else if c == 0x212b
    then 0xe5
    else if c == 0x2126
    then 0x3c9
    else if c == 0x178
    then 0xff
    else if c == 0x386
    then 0x3ac
    else if in_range 0x388 0x38a c
    then c + 37
    else if c == 0x38c
    then 0x3cc
    else if in_range 0x38e 0x38f c
    then c + 63
    else c

-- unicode.ToLower on ASCII, Latin-1, the Greek letters without the archaic ones, the basic and the
-- Ukrainian, Serbian and Macedonian Cyrillic letters, and the signs above. Every other rune is taken
-- for one without a small letter, so Latin Extended-A and B, Armenian, Georgian, the archaic Greek and
-- the extended Cyrillic letters stay as they are.
unfoldable pub lower_rune : ℕ → ℕ
unfolding lower_sign
lower_rune c = if lower_by_32 c then c + 32 else if lower_by_80 c then c + 80 else lower_sign c

-- strings.ToLower
unfoldable pub to_lower : Text → Text
unfolding lower_rune lower_by_32 lower_by_80
to_lower = map lower_rune

-- strings.EqualFold, by the small letters
unfoldable pub equal_fold : Text → Text → Bool
unfolding text_eq to_lower
equal_fold s t = text_eq (to_lower s) (to_lower t)

-- What follows the prefix, if the text has it: strings.CutPrefix.
unfoldable pub cut_prefix : Text → Text → Option Text
cut_prefix s [] = some s
cut_prefix [] (d ∷ p) = none
cut_prefix (c ∷ s) (d ∷ p) = if c == d then cut_prefix s p else none

unfoldable pub has_prefix : Text → Text → Bool
unfolding cut_prefix
has_prefix s p = elim (cut_prefix s p) [ none ↦ false | some rest ↦ true ]

-- strings.TrimPrefix
unfoldable pub trim_prefix : Text → Text → Text
unfolding cut_prefix
trim_prefix s p = elim (cut_prefix s p) [ none ↦ s | some rest ↦ rest ]

-- strings.Contains
unfoldable pub contains : Text → Text → Bool
unfolding has_prefix
contains [] p = has_prefix [] p
contains (c ∷ s) p = has_prefix (c ∷ s) p || contains s p

-- strings.ContainsAny
unfoldable pub contains_any : Text → Text → Bool
unfolding any
contains_any s chars = any (λ c. any (λ d. c == d) chars) s
