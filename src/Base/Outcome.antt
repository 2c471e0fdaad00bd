-- ===== src/Base/Outcome.antt =====
-- Go's pair of a value and an error, as a result, and actions that change a state and may fail.
-- What was changed before an error stays changed, so the state comes back beside the error too.

use mathlib.Core.Option.{Option, none, some}
use mathlib.Core.Path.{◌≡◌, refl}

pub data Result {ℓ κ} (E : Type ℓ) (A : Type κ) : Type (ℓ ⊔ κ) where
  ok : A → Result E A
  err : E → Result E A

-- What comes back unless there is nothing.
unfoldable pub ok_or {ℓ} : {E A : Type ℓ} → E → Option A → Result E A
ok_or e none = err e
ok_or e (some a) = ok a

-- if err != nil { return err }
unfoldable pub and_then {ℓ} : {E A B : Type ℓ} → Result E A → (A → Result E B) → Result E B
and_then (ok a) f = f a
and_then (err e) f = err e

-- What holds of every way to go on holds of a call that succeeds.
pub and_then_rule {ℓ} :
    {E A B : Type ℓ} (P : B → Type ℓ) (r : Result E A) (f : A → Result E B)
    → ((a : A) → r ≡ ok a → (b : B) → f a ≡ ok b → P b)
    → (b : B) → and_then r f ≡ ok b
    → P b
unfolding and_then
and_then_rule P (ok a) f go b h = go a refl b h
and_then_rule P (err e) f go b h = cc

abbrev pub Exec {ℓ} : Type ℓ → Type ℓ → Type ℓ → Type ℓ
Exec S E A = S → Result E A × S

module _ {ℓ} {S E A : Type ℓ} where
  abbrev pub pure : A → Exec S E A
  pure a s = (ok a, s)

  abbrev pub raise : E → Exec S E A
  raise e s = (err e, s)

  abbrev pub lift : Result E A → Exec S E A
  lift r s = (r, s)

  abbrev pub gets : (S → A) → Exec S E A
  gets f s = (ok (f s), s)

module _ {ℓ} {S E A B : Type ℓ} where
  abbrev pub resume : Result E A → (A → Exec S E B) → Exec S E B
  resume (ok a) f s = f a s
  resume (err e) f s = (err e, s)

  infixl 5 ◌>>=◌ ◌>>◌
  abbrev pub ◌>>=◌ : Exec S E A → (A → Exec S E B) → Exec S E B
  ◌>>=◌ m f s = let (r, s') = m s in resume r f s'

  abbrev pub ◌>>◌ : Exec S E A → Exec S E B → Exec S E B
  ◌>>◌ m n s = let (r, s') = m s in resume r (λ _. n) s'
