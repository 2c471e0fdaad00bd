-- ===== src/Vpn/Handshake/Lines.antt =====
-- Lines of a request of server/internal/vpnserver/server.go: how they are read and split.
use safelink_ssh.Base.{
  ℕ, ◌≡◌, ◌≢◌, refl, sym, ◌∙◌, ap, false, some, List, [], ◌∷◌, ◌++◌, arith, All, ◌==◌,
}
use safelink_ssh.Text.{Text}
use safelink_ssh.Vpn.Handshake.{crlf, ends_request, rev_onto, read_auth, push, split_lines}

-- The last byte that was read, if there is one, is no line feed.
abbrev pub LeavesLine : List ℕ → Type 0
LeavesLine [] = Unit
LeavesLine (c ∷ acc) = c ≢ 10

ends_request-other : (c : ℕ) (acc : List ℕ) → c ≢ 10 → ends_request (c ∷ acc) ≡ false
unfolding ends_request
ends_request-other c [] h = refl
ends_request-other c (x ∷ []) h = refl
ends_request-other c (x ∷ y ∷ []) h = refl
ends_request-other c (x ∷ y ∷ z ∷ acc) h = ground arith

-- A text with no line feed in it is read over.
read_auth-skip :
    (l s acc : List ℕ) → All (λ c. c ≢ 10) l → read_auth acc (l ++ s) ≡ read_auth (rev_onto l acc) s
unfolding read_auth rev_onto
read_auth-skip [] s acc h = refl
read_auth-skip (c ∷ l) s acc h =
    rw (ends_request-other c acc h.0) (read_auth-skip l s (c ∷ acc) h.1)

LeavesLine-rev_onto :
    (l acc : List ℕ) → All (λ c. c ≢ 10) l → LeavesLine acc → LeavesLine (rev_onto l acc)
unfolding rev_onto
LeavesLine-rev_onto [] acc h k = k
LeavesLine-rev_onto (c ∷ l) acc h k = LeavesLine-rev_onto l (c ∷ acc) h.1 h.0

ends_request-line : (acc : List ℕ) → LeavesLine acc → ends_request (10 ∷ 13 ∷ acc) ≡ false
unfolding ends_request
ends_request-line [] h = refl
ends_request-line (c ∷ []) h = refl
ends_request-line (c ∷ d ∷ acc) h = ground arith

read_auth-crlf :
    (acc s : List ℕ) → LeavesLine acc → read_auth acc (crlf ++ s) ≡ read_auth (10 ∷ 13 ∷ acc) s
unfolding read_auth
read_auth-crlf acc s h =
    rw (ends_request-other 13 acc (λ e. omega (arith, e)), ends_request-line acc h)

pub rev_onto-append : (l m acc : List ℕ) → rev_onto (l ++ m) acc ≡ rev_onto m (rev_onto l acc)
unfolding rev_onto
rev_onto-append [] m acc = refl
rev_onto-append (c ∷ l) m acc = rev_onto-append l m (c ∷ acc)

-- The bytes come out in the order in which they came in.
pub rev_onto-rev_onto : (l acc m : List ℕ) → rev_onto (rev_onto l acc) m ≡ rev_onto acc (l ++ m)
unfolding rev_onto
rev_onto-rev_onto [] acc m = refl
rev_onto-rev_onto (c ∷ l) acc m = rev_onto-rev_onto l (c ∷ acc) m

-- A line that is not empty is read over, with its end.
pub read_auth-line :
    (c : ℕ) (l s acc : List ℕ)
    → All (λ d. d ≢ 10) (c ∷ l)
    → read_auth acc ((c ∷ l) ++ (crlf ++ s)) ≡ read_auth (rev_onto ((c ∷ l) ++ crlf) acc) s
unfolding rev_onto
read_auth-line c l s acc h =
    read_auth-skip (c ∷ l) (crlf ++ s) acc h
    ∙ read_auth-crlf (rev_onto (c ∷ l) acc) s (LeavesLine-rev_onto l (c ∷ acc) h.1 h.0)
    ∙ ap (λ a. read_auth a s) (sym (rev_onto-append (c ∷ l) crlf acc))

pub read_auth-end :
    (acc s : List ℕ)
    → read_auth (10 ∷ 13 ∷ acc) (crlf ++ s) ≡ some (rev_onto (10 ∷ 13 ∷ 10 ∷ 13 ∷ acc) [], s)
unfolding read_auth ends_request
read_auth-end acc s = rw (ends_request-other 13 (10 ∷ 13 ∷ acc) (λ e. omega (arith, e)))

pub ==-false : (a b : ℕ) → a ≢ b → (a == b) ≡ false
==-false a b h = ground arith

pub split_lines-line :
    (l s : Text) → All (λ c. c ≢ 13) l → split_lines (l ++ (crlf ++ s)) ≡ l ∷ split_lines s
unfolding split_lines push
split_lines-line [] s h = refl
split_lines-line (c ∷ []) s h = rw (==-false c 13 h.0)
split_lines-line (c ∷ d ∷ l) s h = rw (==-false c 13 h.0, split_lines-line (d ∷ l) s h.1)
