-- ===== src/Text/Table.antt =====
-- Go maps from texts: a list of entries, of which the first one with a key counts.
use safelink_ssh.Base.{
  ◌≡◌, ◌≢◌, sym, ◌∙◌, refl, ap₂, subst, Bool, true, false, Option, none, some, List, [], ◌∷◌,
  if◌then◌else◌, All, Bool-cases, inl, inr,
}
use safelink_ssh.Text.{Text, text_eq}
use safelink_ssh.Text.Laws.{text_eq_refl, text_eq_iff, eq_of_text_eq}

module _ {ℓ} {A : Type ℓ} where
  -- m[key]
  unfoldable pub lookup : Text → List (Text × A) → Option A
  lookup key [] = none
  lookup key ((k, a) ∷ entries) = if text_eq k key then some a else lookup key entries

  -- delete(m, key)
  unfoldable pub erase : Text → List (Text × A) → List (Text × A)
  erase key [] = []
  erase key ((k, a) ∷ entries) =
      let rest = erase key entries in if text_eq k key then rest else (k, a) ∷ rest

  -- m[key] = a
  unfoldable pub insert : Text → A → List (Text × A) → List (Text × A)
  unfolding erase
  insert key a entries = (key, a) ∷ erase key entries

  some_injective : {a b : A} → some a ≡ some b → a ≡ b
  some_injective e = cc

  pub lookup-insert :
      (key : Text) (a : A) (m : List (Text × A)) → lookup key (insert key a m) ≡ some a
  unfolding lookup insert
  lookup-insert key a m = rw (text_eq_refl key)

  pub lookup-erase : (key : Text) (m : List (Text × A)) → lookup key (erase key m) ≡ none
  unfolding lookup erase
  lookup-erase key [] = refl
  lookup-erase key ((k, a) ∷ m) = elim (Bool-cases (text_eq k key)) [
    | inl e ↦ rw e (lookup-erase key m)
    | inr e ↦ rw (e, e) (lookup-erase key m)
  ]

  pub erase-All {κ} :
      (P : Text × A → Type κ) (key : Text) (m : List (Text × A)) → All P m → All P (erase key m)
  unfolding erase
  erase-All P key [] h = tt
  erase-All P key ((k, a) ∷ m) h = elim (Bool-cases (text_eq k key)) [
    | inl e ↦ rw e (erase-All P key m h.1)
    | inr e ↦ rw e (h.0, erase-All P key m h.1)
  ]

  -- What holds of all entries holds of the one that is found.
  pub lookup-All {κ} :
      (P : Text × A → Type κ) (key : Text) (a : A) (m : List (Text × A))
      → All P m
      → lookup key m ≡ some a
      → P (key, a)
  unfolding lookup
  lookup-All P key a [] h e = cc
  lookup-All P key a ((k, b) ∷ m) h e = found (text_eq k key) refl e (lookup-All P key a m h.1)
    where
      found :
          (t : Bool)
          → text_eq k key ≡ t
          → (if t then some b else lookup key m) ≡ some a
          → (lookup key m ≡ some a → P (key, a))
          → P (key, a)
      found true same e' later =
          subst P (ap₂ (λ x y. (x, y)) ((text_eq_iff k key).0 same) (some_injective e')) h.0
      found false other e' later = later e'

  pub lookup-erase_other :
      (key other : Text) (m : List (Text × A))
      → other ≢ key
      → lookup other (erase key m) ≡ lookup other m
  unfolding lookup erase
  lookup-erase_other key other [] ne = refl
  lookup-erase_other key other ((k, a) ∷ m) ne = elim (Bool-cases (text_eq k key)) [
    | inl e ↦ rw (e, hides k (eq_of_text_eq k key e)) (lookup-erase_other key other m ne)
    | inr e ↦ rw (e, lookup-erase_other key other m ne)
  ]
    where
      hides : (j : Text) → j ≡ key → text_eq j other ≡ false
      hides j same = elim (Bool-cases (text_eq j other)) [
        | inl e' ↦ elim (ne (sym (eq_of_text_eq j other e') ∙ same)) [ ]
        | inr e' ↦ e'
      ]

  pub lookup-insert_other :
      (key other : Text) (a : A) (m : List (Text × A))
      → other ≢ key
      → lookup other (insert key a m) ≡ lookup other m
  unfolding lookup insert
  lookup-insert_other key other a m ne = elim (Bool-cases (text_eq key other)) [
    | inl e ↦ elim (ne (sym (eq_of_text_eq key other e))) [ ]
    | inr e ↦ rw (e, lookup-erase_other key other m ne)
  ]
