-- ===== src/Wire/Overrun.antt =====
-- Packet lengths at which the padded frame does not fit the buffer of pipeQUICtoTUN.
use safelink_ssh.Base.{ℕ, ◌≡◌, ◌≤◌, ◌<◌, true, List, ◌∷◌, arith}
use safelink_ssh.Wire.Header.{uint32}
use safelink_ssh.Wire.Frame.{
  padded_frame_size_lem, read_len, read_body, read_frame, slice_panic, max_packet_len,
}

-- With padding, a header that announces 65533, 65534 or 65535 bytes, which the check on the length lets
-- pass, makes the slice of the buffer reach past its end: the loop panics whatever follows the header.
pub read_frame-slice_panic :
    (a b c d : ℕ) (s : List ℕ)
    → 65532 < uint32 a b c d
    → uint32 a b c d ≤ max_packet_len
    → read_frame true (a ∷ b ∷ c ∷ d ∷ s) ≡ slice_panic
unfolding read_frame read_body read_len
read_frame-slice_panic a b c d s lo hi = ground (arith, padded_frame_size_lem (uint32 a b c d))
