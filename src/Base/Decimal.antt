-- ===== src/Base/Decimal.antt =====
-- The decimal digits of a number, as fmt's %d prints them, and that they tell numbers apart.
use safelink_ssh.Base.Tests.{ltb, if◌then◌else◌, Bool-cases}
use Prim.Native.Nat.{ℕ, zero, suc, ◌+◌, ◌-◌, ◌*◌, ◌/◌, ◌%◌, ◌<◌}
use mathlib.Core.Path.{◌≡◌, refl, sym, ap, ◌∙◌}
use mathlib.Core.Logic.{inl, inr}
use mathlib.Core.List.{List, [], ◌∷◌, ◌++◌}
use native.Mathlib.Omega.{arith}

digit : ℕ → ℕ
digit n = b'0' + n

-- With more fuel than the number has digits.
unfoldable pub decimal_from : ℕ → ℕ → List ℕ
decimal_from zero n = []
decimal_from (suc fuel) n =
    let rest = decimal_from fuel (n / 10) in (if ltb n 10 then [] else rest) ++ (b'0' + n % 10) ∷ []

unfoldable pub decimal : ℕ → List ℕ
unfolding decimal_from
decimal n = decimal_from (suc n) n

value_from : ℕ → List ℕ → ℕ
value_from v [] = v
value_from v (c ∷ s) = value_from (v * 10 + (c - b'0')) s

value-append :
    (v : ℕ) (s : List ℕ) (c : ℕ) → value_from v (s ++ c ∷ []) ≡ value_from v s * 10 + (c - b'0')
unfolding value_from
value-append v [] c = refl
value-append v (d ∷ s) c = value-append (v * 10 + (d - b'0')) s c

value-decimal_from : (fuel n : ℕ) → n < fuel → value_from 0 (decimal_from fuel n) ≡ n
unfolding decimal_from
value-decimal_from zero n h = elim h [ ]
value-decimal_from (suc fuel) n h = elim (Bool-cases (ltb n 10)) [
  | inl e ↦ rw e (unfold value_from in ground arith)
  | inr e ↦
      rw
        (
          e,
          value-append 0 (decimal_from fuel (n / 10)) (b'0' + n % 10),
          value-decimal_from fuel (n / 10) (ground arith),
        )
        (omega arith)
]

pub decimal_injective : (m n : ℕ) → decimal m ≡ decimal n → m ≡ n
unfolding decimal
decimal_injective m n e =
    sym (value-decimal_from (suc m) m (omega arith))
    ∙ ap (value_from 0) e
    ∙ value-decimal_from (suc n) n (omega arith)
