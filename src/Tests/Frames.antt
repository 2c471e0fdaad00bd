-- ===== src/Tests/Frames.antt =====
-- Frames and packet loops: pkg/protocol/frame.go and server/internal/vpnserver/server.go.
use safelink_ssh.Base.{
  ℕ, ◌+◌, ◌%◌, ◌≡◌, ◌≢◌, ◌≤◌, ◌<◌, refl, Bool, true, List, [], ◌∷◌, ◌++◌, arith,
}
use safelink_ssh.Wire.Header.{uint32}
use safelink_ssh.Wire.Frame.{
  padded_frame_size, padding_len, frame, read_frame, packet, slice_panic, header_size,
  padding_block_size, padded_frame_size_lem,
}
use safelink_ssh.Wire.RoundTrip.{read_frame-frame}
use safelink_ssh.Wire.Overrun.{read_frame-slice_panic}
use safelink_ssh.Wire.Loops.{send, receive, returned, out_of_fuel}
use safelink_ssh.Wire.Loops.Delivery.{delivery, receive_ends}

small_frame : padded_frame_size 1400 ≡ 1408
unfolding padded_frame_size
small_frame = refl

padded_frame_size_example :
    (padded_frame_size 1400 % padding_block_size ≡ 0)
    × (header_size + 1400 ≤ padded_frame_size 1400)
    × (padded_frame_size 1400 < header_size + 1400 + padding_block_size)
    × (header_size + 1400 + padding_len 1400 ≡ padded_frame_size 1400)
padded_frame_size_example = padded_frame_size_lem 1400

read_frame-frame_example :
    read_frame true (frame true (69 ∷ 0 ∷ 1 ∷ []) ++ 7 ∷ []) ≡ packet (69 ∷ 0 ∷ 1 ∷ []) (7 ∷ [])
read_frame-frame_example = read_frame-frame true (69 ∷ 0 ∷ 1 ∷ []) (7 ∷ []) (omega arith)

read_frame-slice_panic_example : read_frame true (0 ∷ 0 ∷ 255 ∷ 255 ∷ []) ≡ slice_panic
read_frame-slice_panic_example =
    read_frame-slice_panic 0 0 255 255 [] (unfold uint32 in omega arith)
      (unfold uint32 in omega arith)

abbrev works : ℕ → Bool
works k = true

abbrev two_packets : List (List ℕ)
two_packets = (69 ∷ 0 ∷ 1 ∷ []) ∷ (96 ∷ []) ∷ []

delivery_example : receive true works 3 0 (send true works 0 two_packets).written ≡ record {
  delivered = two_packets;
  counted = (send true works 0 two_packets).counted;
  ending = returned;
}
delivery_example =
    delivery true works works 3 two_packets (λ j. refl) (λ j. refl) (omega arith) (omega arith)

receive_ends_example : (receive true works 6 0 (0 ∷ 0 ∷ 0 ∷ 9 ∷ 1 ∷ [])).ending ≢ out_of_fuel
receive_ends_example = receive_ends true works 6 0 (0 ∷ 0 ∷ 0 ∷ 9 ∷ 1 ∷ []) (omega arith)
