-- ===== src/Text/Laws.antt =====
-- Laws of the text functions: equality decides the path, trimming and lowering are idempotent and
-- commute, and a prefix can be cut off where it was put.
use safelink_ssh.Base.{
  ℕ, ◌≡◌, refl, ap, ◌∙◌, ◌+◌, ◌≤◌, leb, ◌&&◌, ◌==◌, if_rule, ◌↔◌, ◌≢◌, Bool, true, false, some, [],
  ◌∷◌, ◌++◌, map, arith,
}
use safelink_ssh.Text.{
  Text, is_empty, text_eq, is_space, trim_left, trim_right, trim, trim_space, lower_by_32,
  lower_by_80, lower_sign, lower_rune, to_lower, cut_prefix, trim_prefix,
}

pub is_empty_iff : (s : Text) → (is_empty s ≡ true) ↔ (s ≡ [])
is_empty_iff [] = (λ _. refl, λ _. refl)
is_empty_iff (c ∷ s) = (λ h. cc, λ h. cc)

pub ne_nil : (s : Text) → is_empty s ≡ false → s ≢ []
ne_nil [] h = cc
ne_nil (c ∷ s) h = cc

pub not_empty : (s : Text) → s ≢ [] → is_empty s ≡ false
not_empty [] h = absurd (h refl)
not_empty (c ∷ s) h = refl

pub text_eq_refl : (s : Text) → text_eq s s ≡ true
unfolding text_eq
text_eq_refl [] = refl
text_eq_refl (c ∷ s) = ground (arith, text_eq_refl s)

pub eq_of_text_eq : (s t : Text) → text_eq s t ≡ true → s ≡ t
unfolding text_eq
eq_of_text_eq [] [] h = refl
eq_of_text_eq [] (d ∷ t) h = cc
eq_of_text_eq (c ∷ s) [] h = cc
eq_of_text_eq (c ∷ s) (d ∷ t) h = ground (arith, eq_of_text_eq s t)

pub text_eq_iff : (s t : Text) → (text_eq s t ≡ true) ↔ (s ≡ t)
text_eq_iff s t = (eq_of_text_eq s t, λ e. rw e (text_eq_refl t))

pub text_eq_comm : (s t : Text) → text_eq s t ≡ text_eq t s
text_eq_comm s t = ground (arith, text_eq_iff s t, text_eq_iff t s)

module _ (p : ℕ → Bool) where
  trim_left_idem : (s : Text) → trim_left p (trim_left p s) ≡ trim_left p s
  unfolding trim_left
  trim_left_idem [] = refl
  trim_left_idem (c ∷ s) = ground (arith, trim_left_idem s)

  trim_right_idem : (s : Text) → trim_right p (trim_right p s) ≡ trim_right p s
  unfolding trim_right
  trim_right_idem [] = refl
  trim_right_idem (c ∷ s) = ground (arith, trim_right_idem s)

  -- The text is empty or starts with a character that stays.
  abbrev Starts : Text → Type 0
  Starts [] = Unit {0}
  Starts (c ∷ s) = p c ≡ false

  trim_left-Starts : (s : Text) → Starts (trim_left p s)
  unfolding trim_left
  trim_left-Starts [] = tt
  trim_left-Starts (c ∷ s) = ground (arith, trim_left-Starts s)

  trim_right-Starts : (s : Text) → Starts s → Starts (trim_right p s)
  unfolding trim_right
  trim_right-Starts [] h = tt
  trim_right-Starts (c ∷ s) h = ground arith

  trim_left-eq_self : (s : Text) → Starts s → trim_left p s ≡ s
  unfolding trim_left
  trim_left-eq_self [] h = refl
  trim_left-eq_self (c ∷ s) h = ground arith

  pub trim_idem : (s : Text) → trim p (trim p s) ≡ trim p s
  unfolding trim
  trim_idem s =
      ap (trim_right p) (trim_left-eq_self _ (trim_right-Starts _ (trim_left-Starts s)))
      ∙ trim_right_idem (trim_left p s)

  -- A function on characters that keeps the class keeps the trimming.
  module _ (f : ℕ → ℕ) (keeps : (c : ℕ) → p (f c) ≡ p c) where
    trim_left-map : (s : Text) → trim_left p (map f s) ≡ map f (trim_left p s)
    unfolding trim_left
    trim_left-map [] = refl
    trim_left-map (c ∷ s) = ground (arith, keeps c, trim_left-map s)

    is_empty-map : (s : Text) → is_empty (map f s) ≡ is_empty s
    is_empty-map [] = refl
    is_empty-map (c ∷ s) = refl

    trim_right-map : (s : Text) → trim_right p (map f s) ≡ map f (trim_right p s)
    unfolding trim_right
    trim_right-map [] = refl
    trim_right-map (c ∷ s) =
        ground (arith, keeps c, trim_right-map s, is_empty-map (trim_right p s))

    trim-map : (s : Text) → trim p (map f s) ≡ map f (trim p s)
    unfolding trim
    trim-map s = ap (trim_right p) (trim_left-map s) ∙ trim_right-map (trim_left p s)

pub trim_space_idem : (s : Text) → trim_space (trim_space s) ≡ trim_space s
unfolding trim_space
trim_space_idem s = trim_idem is_space s

-- A rune that is no capital letter of the two rows, and none of the signs.
IsSmall : ℕ → Type 0
IsSmall c = (lower_by_32 c ≡ false) × (lower_by_80 c ≡ false) × (lower_sign c ≡ c)

small-lower_rune : (c : ℕ) → IsSmall c → lower_rune c ≡ c
unfolding lower_rune IsSmall
small-lower_rune c (e, e', e'') = rw (e, e') e''

by_32-IsSmall : (c : ℕ) → lower_by_32 c ≡ true → IsSmall (c + 32)
unfolding IsSmall lower_by_32 lower_by_80 lower_sign
by_32-IsSmall c h = (ground arith, ground arith, ground arith)

by_80-IsSmall : (c : ℕ) → lower_by_80 c ≡ true → IsSmall (c + 80)
unfolding IsSmall lower_by_32 lower_by_80 lower_sign
by_80-IsSmall c h = (ground arith, ground arith, ground arith)

accented-IsSmall : (c : ℕ) → 0x388 ≤ c → c ≤ 0x38a → IsSmall (c + 37)
unfolding IsSmall lower_by_32 lower_by_80 lower_sign
accented-IsSmall c h h' = (ground arith, ground arith, ground arith)

accented_o-IsSmall : (c : ℕ) → 0x38e ≤ c → c ≤ 0x38f → IsSmall (c + 63)
unfolding IsSmall lower_by_32 lower_by_80 lower_sign
accented_o-IsSmall c h h' = (ground arith, ground arith, ground arith)

in_range-le : (lo hi c : ℕ) → (leb lo c && leb c hi) ≡ true → (lo ≤ c) × (c ≤ hi)
in_range-le lo hi c h = ground arith

sign-IsSmall : (c : ℕ) → lower_by_32 c ≡ false → lower_by_80 c ≡ false → IsSmall (lower_sign c)
unfolding IsSmall lower_by_32 lower_by_80 lower_sign
sign-IsSmall c h h' =
    if_rule S (c == 0x130) _ _ (λ e. (refl, refl, refl))
      λ e1.
        if_rule S (c == 0x212a) _ _ (λ e. (refl, refl, refl))
          λ e2.
            if_rule S (c == 0x212b) _ _ (λ e. (refl, refl, refl))
              λ e3.
                if_rule S (c == 0x2126) _ _ (λ e. (refl, refl, refl))
                  λ e4.
                    if_rule S (c == 0x178) _ _ (λ e. (refl, refl, refl))
                      λ e5.
                        if_rule S (c == 0x386) _ _ (λ e. (refl, refl, refl))
                          λ e6.
                            if_rule S (leb 0x388 c && leb c 0x38a) _ _
                              (λ e.
                                let (lo, hi) = in_range-le 0x388 0x38a c e in
                                accented-IsSmall c lo hi)
                              λ e7.
                                if_rule S (c == 0x38c) _ _ (λ e. (refl, refl, refl))
                                  λ e8.
                                    if_rule S (leb 0x38e c && leb c 0x38f) _ _
                                      (λ e.
                                        let (lo, hi) = in_range-le 0x38e 0x38f c e in
                                        accented_o-IsSmall c lo hi)
                                      λ e9. (h, h', rw (e1, e2, e3, e4, e5, e6, e7, e8, e9) refl)
  where
    S : ℕ → Type 0
    S d = IsSmall d

lower_rune-IsSmall : (c : ℕ) → IsSmall (lower_rune c)
unfolding lower_rune
lower_rune-IsSmall c = if_rule IsSmall (lower_by_32 c) (c + 32) _ (by_32-IsSmall c) λ h.
    if_rule IsSmall (lower_by_80 c) (c + 80) (lower_sign c) (by_80-IsSmall c)
      λ h'. sign-IsSmall c h h'

lower_rune_idem : (c : ℕ) → lower_rune (lower_rune c) ≡ lower_rune c
lower_rune_idem c = small-lower_rune (lower_rune c) (lower_rune-IsSmall c)

is_space-lower_sign : (c : ℕ) → is_space (lower_sign c) ≡ is_space c
unfolding is_space lower_sign
is_space-lower_sign c = ground arith

is_space-by_32 : (c : ℕ) → lower_by_32 c ≡ true → is_space (c + 32) ≡ is_space c
unfolding is_space lower_by_32
is_space-by_32 c h = ground arith

is_space-by_80 : (c : ℕ) → lower_by_80 c ≡ true → is_space (c + 80) ≡ is_space c
unfolding is_space lower_by_80
is_space-by_80 c h = ground arith

is_space-lower_rune : (c : ℕ) → is_space (lower_rune c) ≡ is_space c
unfolding lower_rune
is_space-lower_rune c =
    if_rule (λ d. is_space d ≡ is_space c) (lower_by_32 c) (c + 32) _ (is_space-by_32 c)
      (λ h.
        if_rule (λ d. is_space d ≡ is_space c) (lower_by_80 c) (c + 80) (lower_sign c)
          (is_space-by_80 c) (λ h'. is_space-lower_sign c))

pub to_lower_idem : (s : Text) → to_lower (to_lower s) ≡ to_lower s
unfolding to_lower
to_lower_idem [] = refl
to_lower_idem (c ∷ s) = cc (lower_rune_idem c, to_lower_idem s)

pub trim_space-to_lower : (s : Text) → trim_space (to_lower s) ≡ to_lower (trim_space s)
unfolding trim_space to_lower
trim_space-to_lower s = trim-map is_space lower_rune is_space-lower_rune s

pub cut_prefix-append : (p s : Text) → cut_prefix (p ++ s) p ≡ some s
unfolding cut_prefix
cut_prefix-append [] [] = refl
cut_prefix-append [] (c ∷ s) = refl
cut_prefix-append (d ∷ p) s = ground (arith, cut_prefix-append p s)

pub trim_prefix-append : (p s : Text) → trim_prefix (p ++ s) p ≡ s
unfolding trim_prefix
trim_prefix-append p s = rw (trim_prefix, cut_prefix-append p s)
