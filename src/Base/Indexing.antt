-- ===== src/Base/Indexing.antt =====
-- What a write and an append do to the elements of a list.
use safelink_ssh.Base.Lists.{length, get_elem?, set}
use Prim.Native.Nat.{ℕ, zero, suc}
use mathlib.Core.Path.{◌≡◌, refl, ap}
use mathlib.Core.Logic.{◌⊎◌, ◌≢◌, inl, inr}
use mathlib.Core.List.{List, [], ◌∷◌, ◌++◌}
use mathlib.Core.Option.{some}
use native.Mathlib.Omega.{arith}

module _ {ℓ} {A : Type ℓ} where
  pub get-append :
      (xs ys : List A) (i : ℕ) (a : A) → get_elem? xs i ≡ some a → get_elem? (xs ++ ys) i ≡ some a
  get-append [] ys i a h = cc
  get-append (x ∷ xs) ys zero a h = h
  get-append (x ∷ xs) ys (suc i) a h = get-append xs ys i a h

  pub get-append_last : (xs : List A) (x : A) → get_elem? (xs ++ x ∷ []) (length xs) ≡ some x
  get-append_last [] x = refl
  get-append_last (y ∷ xs) x = get-append_last xs x

  pub get-append_cases :
      (xs : List A) (x : A) (i : ℕ) (a : A)
      → get_elem? (xs ++ x ∷ []) i ≡ some a
      → (get_elem? xs i ≡ some a) ⊎ ((i ≡ length xs) × (x ≡ a))
  get-append_cases [] x zero a h = inr (refl, cc)
  get-append_cases [] x (suc i) a h = cc
  get-append_cases (y ∷ xs) x zero a h = inl h
  get-append_cases (y ∷ xs) x (suc i) a h = elim (get-append_cases xs x i a h) [
    | inl e ↦ inl e
    | inr (e, e') ↦ inr (ap suc e, e')
  ]

  pub get-length : (xs : List A) (a : A) → get_elem? xs (length xs) ≢ some a
  get-length [] a = λ e. cc
  get-length (x ∷ xs) a = get-length xs a

  pub get-set_same :
      (xs : List A) (i : ℕ) (v a : A) → get_elem? xs i ≡ some a → get_elem? (set xs i v) i ≡ some v
  get-set_same [] i v a h = cc
  get-set_same (x ∷ xs) zero v a h = refl
  get-set_same (x ∷ xs) (suc i) v a h = get-set_same xs i v a h

  pub get-set_other :
      (xs : List A) (i j : ℕ) (v : A) → j ≢ i → get_elem? (set xs i v) j ≡ get_elem? xs j
  get-set_other [] i j v ne = refl
  get-set_other (x ∷ xs) zero zero v ne = elim (ne refl) [ ]
  get-set_other (x ∷ xs) zero (suc j) v ne = refl
  get-set_other (x ∷ xs) (suc i) zero v ne = refl
  get-set_other (x ∷ xs) (suc i) (suc j) v ne = get-set_other xs i j v (λ e. ne (ap suc e))

  pub get-set_cases :
      (xs : List A) (i j : ℕ) (v a : A)
      → get_elem? (set xs i v) j ≡ some a
      → ((j ≡ i) × (v ≡ a)) ⊎ ((j ≢ i) × (get_elem? xs j ≡ some a))
  get-set_cases [] i j v a h = cc
  get-set_cases (x ∷ xs) zero zero v a h = inl (refl, cc)
  get-set_cases (x ∷ xs) zero (suc j) v a h = inr (omega arith, h)
  get-set_cases (x ∷ xs) (suc i) zero v a h = inr (omega arith, h)
  get-set_cases (x ∷ xs) (suc i) (suc j) v a h = elim (get-set_cases xs i j v a h) [
    | inl (e, e') ↦ inl (ap suc e, e')
    | inr (ne, e) ↦ inr ((λ e'. ne (omega arith)), e)
  ]
