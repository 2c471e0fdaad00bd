-- ===== src/Wire/Loops/Delivery.antt =====
-- What goes in at pipeTUNtoQUIC comes out at pipeQUICtoTUN; and the receiving loop ends.
use safelink_ssh.Base.{
  lt→ltb, ltb, if◌then◌else◌, ℕ, zero, suc, ◌+◌, ◌≡◌, refl, ap, ◌≢◌, ◌≤◌, ◌<◌, Bool, true, false,
  some, ◌⊎◌, inl, inr, List, [], ◌∷◌, ◌++◌, arith, length, All, Option-cases, replicate,
}
use mathlib.Core.List.{append-nil}
use safelink_ssh.Wire.Header.{put_uint32, uint32}
use safelink_ssh.Wire.Frame.{
  read_len, frame, padding_len, read_full, read_frame, read_body, packet, closed, slice_panic,
  Round,
}
use safelink_ssh.Wire.RoundTrip.{longest, read_frame-frame}
use safelink_ssh.Wire.Loops.{parts, write_parts, send, receive, returned, out_of_fuel}

abbrev pub concat_frames : Bool → List (List ℕ) → List ℕ
concat_frames padding [] = []
concat_frames padding (p ∷ ps) = frame padding p ++ concat_frames padding ps

abbrev pub total : List (List ℕ) → ℕ
total [] = 0
total (p ∷ ps) = length p + total ps

concat : List (List ℕ) → List ℕ
concat [] = []
concat (b ∷ bs) = b ++ concat bs

write_parts-all :
    (stream : ℕ → Bool) (k : ℕ) (bs : List (List ℕ))
    → ((j : ℕ) → stream j ≡ true)
    → write_parts stream k bs ≡ (concat bs, true)
unfolding write_parts concat
write_parts-all stream k [] up = refl
write_parts-all stream k (b ∷ bs) up = rw (up k, write_parts-all stream (k + 1) bs up)

concat-parts : (padding : Bool) (p : List ℕ) → concat (parts padding p) ≡ frame padding p
unfolding concat parts frame
concat-parts false p = refl
concat-parts true p = go (padding_len (length p))
  where
    go :
        (n : ℕ)
        → put_uint32 (length p) ++ (p ++ concat (if ltb 0 n then replicate n 0 ∷ [] else []))
          ≡ put_uint32 (length p) ++ (p ++ replicate n 0)
    go zero = refl
    go (suc n) =
        rw (lt→ltb 0 (suc n) (omega arith))
          (ap (λ z. put_uint32 (length p) ++ (p ++ z)) (append-nil (replicate (suc n) 0)))

send-all :
    (stream : ℕ → Bool) (padding : Bool) (k : ℕ) (ps : List (List ℕ))
    → ((j : ℕ) → stream j ≡ true)
    → send padding stream k ps ≡ record { written = concat_frames padding ps; counted = total ps }
unfolding send
send-all stream padding k [] up = refl
send-all stream padding k (p ∷ ps) up = rw (
  write_parts-all stream k (parts padding p) up,
  send-all stream padding (k + length (parts padding p)) ps up,
  concat-parts padding p,
)

receive-frames :
    (padding : Bool) (device : ℕ → Bool) (fuel k : ℕ) (ps : List (List ℕ))
    → ((j : ℕ) → device j ≡ true)
    → All (λ p. length p ≤ longest padding) ps
    → length ps < fuel
    → receive padding device fuel k (concat_frames padding ps)
      ≡ record { delivered = ps; counted = total ps; ending = returned }
unfolding receive
receive-frames padding device zero k ps up small h = elim h [ ]
receive-frames padding device (suc fuel) k [] up small h = unfold read_frame in refl
receive-frames padding device (suc fuel) k (p ∷ ps) up small h = ground (
  arith,
  read_frame-frame padding p (concat_frames padding ps) small.0,
  up k,
  receive-frames padding device fuel (k + 1) ps up small.1,
)

read_full-length :
    (n : ℕ) (s got rest : List ℕ) → read_full n s ≡ some (got, rest) → length rest ≤ length s
unfolding read_full
read_full-length zero s got rest h = ground arith
read_full-length (suc n) [] got rest h = cc
read_full-length (suc n) (b ∷ s) got rest h = elim (Option-cases (read_full n s)) [
  | inl e ↦ ground arith
  | inr ((g, r), e) ↦ ground (arith, read_full-length n s g r e)
]

read_body-length :
    (padding : Bool) (l : ℕ) (s p rest : List ℕ)
    → read_body padding l s ≡ packet p rest
    → length rest ≤ length s
unfolding read_body
read_body-length padding l s p rest h = elim (Option-cases (read_full (read_len padding l) s)) [
  | inl e ↦ ground arith
  | inr ((g, r), e) ↦ ground (arith, read_full-length (read_len padding l) s g r e)
]

read_frame-length :
    (padding : Bool) (s p rest : List ℕ)
    → read_frame padding s ≡ packet p rest
    → length rest < length s
unfolding read_frame
read_frame-length padding (a ∷ b ∷ c ∷ d ∷ s) p rest h =
    omega (arith, read_body-length padding (uint32 a b c d) s p rest h)
read_frame-length padding _ p rest h = cc

Round-cases :
    (r : Round)
    → (r ≡ closed) ⊎ (r ≡ slice_panic) ⊎ ((p : List ℕ) × (rest : List ℕ) × (r ≡ packet p rest))
Round-cases closed = inl refl
Round-cases slice_panic = inr (inl refl)
Round-cases (packet p rest) = inr (inr (p, rest, refl))

-- Every packet that pipeTUNtoQUIC reads from its TUN device arrives at the TUN device of
-- pipeQUICtoTUN, once and in order, and both count the same bytes, if all writes succeed and no packet
-- is longer than 65535 bytes, with padding 65532. The receiver returns when the stream ends.
pub delivery :
    (padding : Bool) (stream device : ℕ → Bool) (fuel : ℕ) (ps : List (List ℕ))
    → ((j : ℕ) → stream j ≡ true)
    → ((j : ℕ) → device j ≡ true)
    → All (λ p. length p ≤ longest padding) ps
    → length ps < fuel
    → let sent = send padding stream 0 ps in
      receive padding device fuel 0 sent.written
      ≡ record { delivered = ps; counted = sent.counted; ending = returned }
delivery padding stream device fuel ps open_stream up small h =
    rw (send-all stream padding 0 ps open_stream)
      (receive-frames padding device fuel 0 ps up small h)

-- pipeQUICtoTUN ends on every stream, whatever the peer sends and whichever writes fail: each round
-- takes at least the header off the stream, so more rounds than the stream has bytes are never needed.
pub receive_ends :
    (padding : Bool) (device : ℕ → Bool) (fuel k : ℕ) (s : List ℕ)
    → length s < fuel
    → (receive padding device fuel k s).ending ≢ out_of_fuel
unfolding receive
receive_ends padding device zero k s h = elim h [ ]
receive_ends padding device (suc fuel) k s h = elim (Round-cases (read_frame padding s)) [
  | inl e ↦ ground arith
  | inr (inl e) ↦ ground arith
  | inr (inr (p, rest, e)) ↦
      ground
        (arith, read_frame-length padding s p rest e, receive_ends padding device fuel (k + 1) rest)
]
