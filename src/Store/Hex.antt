-- ===== src/Store/Hex.antt =====
-- Texts that strings.TrimSpace leaves alone, and the texts of hex.EncodeToString among them.
use safelink_ssh.Base.{
  ℕ, zero, suc, ◌+◌, ◌%◌, ◌/◌, ◌<◌, ◌≡◌, refl, ap, ◌∙◌, Bool, false, List, [], ◌∷◌, arith, All,
}
use safelink_ssh.Text.{Text, is_space, trim_left, trim_right, trim, trim_space}
use safelink_ssh.Store.{hex_digit, hex_encode, draw}

trim_right-eq_self : (p : ℕ → Bool) (s : Text) → All (λ c. p c ≡ false) s → trim_right p s ≡ s
unfolding trim_right
trim_right-eq_self p [] h = refl
trim_right-eq_self p (c ∷ s) h = ground (arith, h.0, trim_right-eq_self p s h.1)

trim_left-eq_self : (p : ℕ → Bool) (s : Text) → All (λ c. p c ≡ false) s → trim_left p s ≡ s
unfolding trim_left
trim_left-eq_self p [] h = refl
trim_left-eq_self p (c ∷ s) h = ground (arith, h.0)

pub trim_space-eq_self : (s : Text) → All (λ c. is_space c ≡ false) s → trim_space s ≡ s
unfolding trim_space trim
trim_space-eq_self s h =
    ap (trim_right is_space) (trim_left-eq_self is_space s h) ∙ trim_right-eq_self is_space s h

hex_digit-not_space : (n : ℕ) → n < 16 → is_space (hex_digit n) ≡ false
unfolding is_space hex_digit
hex_digit-not_space n h = ground arith

hex_encode-not_space :
    (bs : List ℕ) → All (λ b. b < 256) bs → All (λ c. is_space c ≡ false) (hex_encode bs)
unfolding hex_encode
hex_encode-not_space [] h = tt
hex_encode-not_space (b ∷ bs) h = (
  hex_digit-not_space (b / 16) (omega (arith, h.0)),
  (hex_digit-not_space (b % 16) (omega arith), hex_encode-not_space bs h.1),
)

draw-bytes : (k : ℕ) (entropy : ℕ → ℕ) (n : ℕ) → All (λ b. b < 256) (draw k entropy n)
unfolding draw
draw-bytes zero entropy n = tt
draw-bytes (suc k) entropy n = (omega arith, draw-bytes k entropy (n + 1))

pub trim_space-hex :
    (k : ℕ) (entropy : ℕ → ℕ) (n : ℕ)
    → trim_space (hex_encode (draw k entropy n)) ≡ hex_encode (draw k entropy n)
trim_space-hex k entropy n =
    trim_space-eq_self (hex_encode (draw k entropy n))
      (hex_encode-not_space (draw k entropy n) (draw-bytes k entropy n))
