-- ===== src/Text/Split.antt =====
-- Cutting texts, as package strings of Go does it.
use safelink_ssh.Base.{
  ℕ, ◌+◌, ltb, Bool, Option, none, some, List, [], ◌∷◌, ◌++◌, if◌then◌else◌, ◌==◌,
}
use safelink_ssh.Text.{Text, is_empty, cut_prefix}

-- strings.Cut at the first `c`, none if there is none.
unfoldable pub cut : ℕ → Text → Option (Text × Text)
cut c [] = none
cut c (d ∷ s) =
    let rest = cut c s in
    if d == c
    then some ([], s)
    else elim rest [ none ↦ none | some (before, after) ↦ some (d ∷ before, after) ]

-- What stands before the first `c`: s[:i] with i = strings.Index(s, c), all of it if there is none.
unfoldable pub before : ℕ → Text → Text
before c [] = []
before c (d ∷ s) = let rest = before c s in if d == c then [] else d ∷ rest

push : ℕ → List Text → List Text
push c [] = (c ∷ []) ∷ []
push c (l ∷ ls) = (c ∷ l) ∷ ls

-- strings.Split at every `c`
unfoldable pub split : ℕ → Text → List Text
unfolding push
split c [] = [] ∷ []
split c (d ∷ s) = let rest = split c s in if d == c then [] ∷ rest else push d rest

unfoldable pub non_empty : List Text → List Text
non_empty [] = []
non_empty (s ∷ ss) = let rest = non_empty ss in if is_empty s then rest else s ∷ rest

-- The parts between the runes that `p` takes, which may be empty.
parts_by : (ℕ → Bool) → Text → List Text
unfolding push
parts_by p [] = [] ∷ []
parts_by p (d ∷ s) = let rest = parts_by p s in if p d then [] ∷ rest else push d rest

-- strings.FieldsFunc
unfoldable pub fields_by : (ℕ → Bool) → Text → List Text
unfolding parts_by non_empty
fields_by p s = non_empty (parts_by p s)

-- strings.Join
unfoldable pub join : Text → List Text → Text
join sep [] = []
join sep (s ∷ []) = s
join sep (s ∷ t ∷ ss) = s ++ (sep ++ join sep (t ∷ ss))

-- strings.Replace(s, old, by, 1), for an `old` that is not empty
unfoldable pub replace_first : Text → Text → Text → Text
unfolding cut_prefix
replace_first [] old by = []
replace_first (c ∷ s) old by =
    let later = replace_first s old by in
    elim (cut_prefix (c ∷ s) old) [ none ↦ c ∷ later | some rest ↦ by ++ rest ]

-- The bytes of the UTF-8 encoding of a rune.
utf8_size : ℕ → ℕ
utf8_size c = if ltb c 0x80 then 1 else if ltb c 0x800 then 2 else if ltb c 0x10000 then 3 else 4

-- len(s)
unfoldable pub byte_length : Text → ℕ
unfolding utf8_size
byte_length [] = 0
byte_length (c ∷ s) = utf8_size c + byte_length s
