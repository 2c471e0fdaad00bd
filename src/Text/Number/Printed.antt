-- ===== src/Text/Number/Printed.antt =====
-- strconv.Atoi reads back the digits that strconv.Itoa and fmt's %d print.
use safelink_ssh.Base.{
  ℕ, zero, suc, ◌+◌, ◌-◌, ◌*◌, ◌/◌, ◌%◌, ◌^◌, ◌≤◌, ◌<◌, ◌≡◌, refl, ap, ◌∙◌, Bool, true, false,
  Option, some, [], ◌∷◌, ◌++◌, arith, Bool-cases, inl, inr, if◌then◌else◌, ltb, ◌==◌, any, le→leb,
}
use safelink_ssh.Base.Int.{ℤ, pos}
use safelink_ssh.Base.Decimal.{decimal, decimal_from}
use safelink_ssh.Text.{Text}
use safelink_ssh.Text.Number.{is_digit, digits_from, digits, at_most, positive, atoi}

digits_from-append :
    (v : ℕ) (s : Text) (c u : ℕ)
    → is_digit c ≡ true
    → digits_from v s ≡ some u
    → digits_from v (s ++ c ∷ []) ≡ some (u * 10 + (c - b'0'))
unfolding digits_from
digits_from-append v [] c u digit h = rw digit (ap (λ x. some (x * 10 + (c - b'0'))) (same h))
  where
    same : {k l : ℕ} → some k ≡ some l → k ≡ l
    same e = cc
digits_from-append v (d ∷ s) c u digit h =
    ground (arith, digits_from-append (v * 10 + (d - b'0')) s c u digit)

last_is_digit : (n : ℕ) → is_digit (b'0' + n % 10) ≡ true
unfolding is_digit
last_is_digit n = ground arith

digits_from-decimal_from : (fuel n : ℕ) → n < fuel → digits_from 0 (decimal_from fuel n) ≡ some n
unfolding decimal_from digits_from
digits_from-decimal_from zero n h = elim h [ ]
digits_from-decimal_from (suc fuel) n h = elim (Bool-cases (ltb n 10)) [
  | inl e ↦ rw (e, last_is_digit n) (ap some (ground arith))
  | inr e ↦
      rw
        (
          e,
          digits_from-append 0 (decimal_from fuel (n / 10)) (b'0' + n % 10) (n / 10)
              (last_is_digit n) (digits_from-decimal_from fuel (n / 10) (ground arith)),
        )
        (ap some (omega arith))
]

digits-append_one :
    (s : Text) (c n : ℕ) → digits_from 0 (s ++ c ∷ []) ≡ some n → digits (s ++ c ∷ []) ≡ some n
unfolding digits
digits-append_one [] c n h = h
digits-append_one (d ∷ s) c n h = h

pub digits-decimal : (n : ℕ) → digits (decimal n) ≡ some n
unfolding decimal decimal_from
digits-decimal n =
    digits-append_one (if ltb n 10 then [] else decimal_from n (n / 10)) (b'0' + n % 10) n
      (digits_from-decimal_from (suc n) n (omega arith))

-- A character that is no digit does not occur in a text of digits.
digits_from-any :
    (c v n : ℕ) (s : Text)
    → is_digit c ≡ false
    → digits_from v s ≡ some n
    → any (λ d. d == c) s ≡ false
unfolding digits_from any is_digit
digits_from-any c v n [] other h = refl
digits_from-any c v n (d ∷ s) other h = ground (arith, digits_from-any c (v * 10 + (d - b'0')) n s)

pub digits-any :
    (c n : ℕ) (s : Text) → is_digit c ≡ false → digits s ≡ some n → any (λ d. d == c) s ≡ false
unfolding digits
digits-any c n [] other h = cc
digits-any c n (d ∷ s) other h = digits_from-any c 0 n (d ∷ s) other h

at_most-some : (bound n : ℕ) → n ≤ bound → at_most bound (some n) ≡ some n
unfolding at_most
at_most-some bound n h = rw (le→leb n bound h) refl

otherwise : (b : Bool) (x y : Option ℤ) → b ≡ false → (if b then x else y) ≡ y
otherwise b x y e = rw e refl

head_differs :
    (c d n : ℕ) (s : Text) → is_digit c ≡ false → digits (d ∷ s) ≡ some n → (d == c) ≡ false
unfolding any
head_differs c d n s other h = ground (arith, digits-any c n (d ∷ s) other h)

pub atoi-digits : (s : Text) (n : ℕ) → digits s ≡ some n → n ≤ 2 ^ 63 - 1 → atoi s ≡ some (pos n)
unfolding atoi digits is_digit positive
atoi-digits [] n h bound = cc
atoi-digits (c ∷ s) n h bound =
    otherwise (c == b'-') _ _ (head_differs b'-' c n s refl h)
    ∙ otherwise (c == b'+') _ _ (head_differs b'+' c n s refl h)
    ∙ ap (λ o. positive (at_most (2 ^ 63 - 1) o)) h
    ∙ ap positive (at_most-some (2 ^ 63 - 1) n bound)
