-- ===== src/Wire/RoundTrip.antt =====
-- A frame that the sending loop wrote is read back as the same packet.
use safelink_ssh.Base.{
  ℕ, zero, ◌≡◌, refl, ◌≤◌, Bool, true, false, some, List, [], ◌∷◌, ◌++◌, arith, length, take,
  replicate, length-append, length-replicate, if◌then◌else◌,
}
use safelink_ssh.Wire.Header.{put_uint32, uint32-put}
use safelink_ssh.Wire.Frame.{
  padding_len, frame, read_full, read_len, read_body, read_frame, packet, max_packet_len,
  buffer_size, padded_frame_size_lem,
}

pub read_full-append : (xs s : List ℕ) → read_full (length xs) (xs ++ s) ≡ some (xs, s)
unfolding read_full
read_full-append [] s = refl
read_full-append (x ∷ xs) s = ground (arith, read_full-append xs s)

take-append : (xs ys : List ℕ) → take (length xs) (xs ++ ys) ≡ xs
take-append [] ys = refl
take-append (x ∷ xs) ys = ground (arith, take-append xs ys)

-- What a receiver's buffer holds: with padding three lengths fewer than a header can announce.
abbrev pub longest : Bool → ℕ
longest padding = if padding then 65532 else max_packet_len

-- The padding that a frame carries.
abbrev pub padding_of : Bool → ℕ → List ℕ
padding_of padding n = if padding then replicate (padding_len n) 0 else []

read_len-fits : (padding : Bool) (n : ℕ) → n ≤ longest padding → read_len padding n ≤ buffer_size
unfolding read_len
read_len-fits false n h = omega arith
read_len-fits true n h = omega (arith, padded_frame_size_lem n)

read_len-length :
    (padding : Bool) (p : List ℕ)
    → read_len padding (length p) ≡ length (p ++ padding_of padding (length p))
unfolding read_len
read_len-length false p = omega (arith, length-append p [])
read_len-length true p = omega (
  arith,
  length-append p (replicate (padding_len (length p)) 0),
  length-replicate (padding_len (length p)) (zero),
)

longest-le : (padding : Bool) (n : ℕ) → n ≤ longest padding → n ≤ max_packet_len
longest-le false n h = h
longest-le true n h = omega arith

-- The body of a frame, whatever comes behind it.
read_body-frame :
    (padding : Bool) (p rest : List ℕ)
    → length p ≤ longest padding
    → read_body padding (length p) ((p ++ padding_of padding (length p)) ++ rest) ≡ packet p rest
unfolding read_body
read_body-frame padding p rest h =
    let pad = padding_of padding (length p) in
    ground (
      arith,
      longest-le padding (length p) h,
      read_len-fits padding (length p) h,
      read_len-length padding p,
      read_full-append (p ++ pad) rest,
      take-append p pad,
    )

-- pipeQUICtoTUN reads back, from a stream that begins with the frame that pipeTUNtoQUIC writes for a
-- packet, that packet, and leaves what comes behind the frame. The packet is at most 65535 bytes
-- long, with padding at most 65532.
pub read_frame-frame :
    (padding : Bool) (p rest : List ℕ)
    → length p ≤ longest padding
    → read_frame padding (frame padding p ++ rest) ≡ packet p rest
unfolding read_frame frame put_uint32
read_frame-frame padding p rest h =
    rw (uint32-put (length p) (omega (arith, longest-le padding (length p) h)))
      (read_body-frame padding p rest h)
