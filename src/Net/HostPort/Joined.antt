-- ===== src/Net/HostPort/Joined.antt =====
-- net.SplitHostPort takes an address apart that net.JoinHostPort made of parts like its own results.
use safelink_ssh.Base.{
  ℕ, ◌≡◌, refl, sym, ap, subst, ◌∙◌, Bool, true, false, Option, none, some, [], ◌∷◌, ◌++◌,
  append_assoc, arith, Bool-cases, if_rule, inl, inr, if◌then◌else◌, ◌==◌,
}
use safelink_ssh.Text.{Text}
use safelink_ssh.Text.Split.{cut}
use safelink_ssh.Net.HostPort.{
  has_rune, last_step, cut_last, split_parts, no_brackets, bracketed, split_address,
  split_host_port, join_host_port,
}

then_some : (b : Bool) (p q : Text × Text) → (if b then some p else none) ≡ some q → p ≡ q
then_some true p q h = cc
then_some false p q h = cc

else_some :
    (b : Bool) (p q : Text × Text) → (if b then none else some p) ≡ some q → (b ≡ false) × (p ≡ q)
else_some true p q h = cc
else_some false p q h = (refl, cc)

module _ (c : ℕ) where
  cut_last-none : (t : Text) → has_rune c t ≡ false → cut_last c t ≡ none
  unfolding cut_last has_rune
  cut_last-none [] h = refl
  cut_last-none (d ∷ t) h = ground (arith, cut_last-none t)

  cut_last-append : (s t : Text) → has_rune c t ≡ false → cut_last c (s ++ c ∷ t) ≡ some (s, t)
  unfolding cut_last
  cut_last-append [] t h = ground (arith, cut_last-none t)
  cut_last-append (d ∷ s) t h = rw (cut_last-append s t h) refl

  none-has_rune : (t : Text) → cut_last c t ≡ none → has_rune c t ≡ false
  unfolding cut_last has_rune
  none-has_rune [] h = refl
  none-has_rune (d ∷ t) h = ground (arith, none-has_rune t)

  last_step-has_rune :
      (d : ℕ) (s : Text) (o : Option (Text × Text)) (front behind : Text)
      → cut_last c s ≡ o
      → ((x y : Text) → o ≡ some (x, y) → has_rune c y ≡ false)
      → last_step c d s o ≡ some (front, behind)
      → has_rune c behind ≡ false
  unfolding last_step
  last_step-has_rune d s (some (x, y)) front behind e later h =
      subst (λ z. has_rune c z ≡ false) (snd_of h) (later x y refl)
    where
      snd_of : {k l m n : Text} → ◌≡◌ {A = Option (Text × Text)} (some (k, l)) (some (m, n)) → l ≡ n
      snd_of e' = cc
  last_step-has_rune d s none front behind e later h =
      subst (λ z. has_rune c z ≡ false)
        (ap (λ p. p.1) (then_some (d == c) ([], s) (front, behind) h)) (none-has_rune s e)

  cut_last-has_rune :
      (s front behind : Text) → cut_last c s ≡ some (front, behind) → has_rune c behind ≡ false
  unfolding cut_last
  cut_last-has_rune [] front behind h = cc
  cut_last-has_rune (d ∷ s) front behind h =
      last_step-has_rune d s (cut_last c s) front behind refl (cut_last-has_rune s) h

  cut-append : (h r : Text) → has_rune c h ≡ false → cut c (h ++ c ∷ r) ≡ some (h, r)
  unfolding cut has_rune
  cut-append [] r e = ground arith
  cut-append (d ∷ h) r e = ground (arith, cut-append h r)

-- Parts as SplitHostPort returns them: no brackets, and no colon in the port.
pub record IsAddress (host port : Text) : Type 0 where
  pub host_open : has_rune b'[' host ≡ false
  pub host_close : has_rune b']' host ≡ false
  pub port_open : has_rune b'[' port ≡ false
  pub port_close : has_rune b']' port ≡ false
  pub port_colon : has_rune b':' port ≡ false

no_brackets-clean :
    (host port : Text) → IsAddress host port → no_brackets host port ≡ some (host, port)
unfolding no_brackets
no_brackets-clean host port a = rw (a.host_open, a.host_close, a.port_open, a.port_close) refl

no_brackets-IsAddress :
    (x y host port : Text)
    → has_rune b':' y ≡ false
    → no_brackets x y ≡ some (host, port)
    → IsAddress host port
unfolding no_brackets
no_brackets-IsAddress x y host port colon h =
    let (clean, same) = else_some _ (x, y) (host, port) h in
    subst (λ p. IsAddress p.0 p.1) same
      (record {
        host_open = ground arith;
        host_close = ground arith;
        port_open = ground arith;
        port_close = ground arith;
        port_colon = colon;
      })

bracketed-IsAddress :
    (o : Option (Text × Text)) (y host port : Text)
    → has_rune b':' y ≡ false
    → bracketed o y ≡ some (host, port)
    → IsAddress host port
unfolding bracketed
bracketed-IsAddress none y host port colon h = cc
bracketed-IsAddress (some (x, [])) y host port colon h = no_brackets-IsAddress x y host port colon h
bracketed-IsAddress (some (x, d ∷ s)) y host port colon h = cc

if_none :
    (b : Bool) (o : Option (Text × Text)) (host port : Text)
    → (if b then none else o) ≡ some (host, port)
    → o ≡ some (host, port)
if_none true o host port h = cc
if_none false o host port h = h

split_address-IsAddress :
    (x y host port : Text)
    → has_rune b':' y ≡ false
    → split_address (x, y) ≡ some (host, port)
    → IsAddress host port
unfolding split_address
split_address-IsAddress [] y host port colon h = no_brackets-IsAddress [] y host port colon h
split_address-IsAddress (c ∷ s) y host port colon h =
    if_rule (λ o. o ≡ some (host, port) → IsAddress host port) (c == b'[') _ _
      (λ e. bracketed-IsAddress (cut b']' s) y host port colon)
      (λ e h'. no_brackets-IsAddress (c ∷ s) y host port colon (if_none _ _ host port h')) h

split_parts-IsAddress :
    (o : Option (Text × Text)) (host port : Text)
    → ((x y : Text) → o ≡ some (x, y) → has_rune b':' y ≡ false)
    → split_parts o ≡ some (host, port)
    → IsAddress host port
unfolding split_parts
split_parts-IsAddress none host port colon h = cc
split_parts-IsAddress (some (x, y)) host port colon h =
    split_address-IsAddress x y host port (colon x y refl) h

pub split_host_port-IsAddress :
    (address host port : Text) → split_host_port address ≡ some (host, port) → IsAddress host port
unfolding split_host_port
split_host_port-IsAddress address host port =
    split_parts-IsAddress (cut_last b':' address) host port (cut_last-has_rune b':' address)

if_false : (b : Bool) (x y : Option (Text × Text)) → b ≡ false → (if b then x else y) ≡ y
if_false b x y e = rw e refl

head_differs : (c d : ℕ) (s : Text) → has_rune c (d ∷ s) ≡ false → (d == c) ≡ false
unfolding has_rune
head_differs c d s h = ground arith

split_bracketed :
    (host port : Text)
    → IsAddress host port
    → split_address (b'[' ∷ (host ++ b']' ∷ []), port) ≡ some (host, port)
unfolding split_address bracketed
split_bracketed host port a =
    rw (cut-append b']' host [] a.host_close) (no_brackets-clean host port a)

split_plain :
    (host port : Text)
    → IsAddress host port
    → has_rune b':' host ≡ false
    → split_address (host, port) ≡ some (host, port)
unfolding split_address
split_plain [] port a e = no_brackets-clean [] port a
split_plain (c ∷ s) port a e =
    if_false (c == b'[') _ _ (head_differs b'[' c s a.host_open)
    ∙ if_false (has_rune b':' (c ∷ s)) _ _ e
    ∙ no_brackets-clean (c ∷ s) port a

-- An address put together from such parts comes apart into them.
pub split-join :
    (host port : Text)
    → IsAddress host port
    → split_host_port (join_host_port host port) ≡ some (host, port)
unfolding split_host_port split_parts join_host_port
split-join host port a = elim (Bool-cases (has_rune b':' host)) [
  | inl e ↦
      rw
        (
          e,
          sym (append_assoc host (b']' ∷ []) (b':' ∷ port)),
          cut_last-append b':' (b'[' ∷ (host ++ b']' ∷ [])) port a.port_colon,
        )
        (split_bracketed host port a)
  | inr e ↦ rw (e, cut_last-append b':' host port a.port_colon) (split_plain host port a e)
]
