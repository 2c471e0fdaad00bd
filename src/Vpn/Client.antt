-- ===== src/Vpn/Client.antt =====
-- The packet loops of client/internal/tunnel/vpn.go, write by write and read by read, with the padding
-- that the tunnel is configured for.
pub mod Same
use safelink_ssh.Base.{
  ℕ, zero, suc, ◌+◌, Bool, true, false, ◌&&◌, Option, none, some, List, [], ◌∷◌, ◌++◌, ltb, length,
  take, replicate, if◌then◌else◌,
}
use safelink_ssh.Config.Tunnel.{TunCfg}
use safelink_ssh.Wire.Header.{put_uint32, uint32}
use safelink_ssh.Wire.Frame.{padding_len, read_full, max_packet_len, buffer_size}
use safelink_ssh.Wire.Loops.{Sent, Received, returned, panicked, out_of_fuel}

-- paddingEnabled: on unless the configuration says otherwise.
unfoldable pub padding_enabled : Option Bool → Bool
padding_enabled none = true
padding_enabled (some p) = p

-- data.Write, which returns from the loop if it fails, and what follows it.
unfoldable pub write_then : Bool → List ℕ → Sent → Sent
write_then true bytes more = record more { written = bytes ++ more.written }
write_then false bytes more = record { written = []; counted = 0 }

-- Does a round write padding?
unfoldable pub pads : Bool → List ℕ → Bool
pads padding p = padding && ltb 0 (padding_len (length p))

-- One round of pipeTUNtoQUIC, which counts the packet before the first write.
unfoldable pub send_packet : Bool → (ℕ → Bool) → ℕ → List ℕ → Sent → Sent
unfolding write_then pads
send_packet padding stream k p rest =
    let pad =
      if pads padding p
      then write_then (stream (k + 1 + 1)) (replicate (padding_len (length p)) 0) rest
      else rest in
    let sent = write_then (stream k) (put_uint32 (length p)) (write_then (stream (k + 1)) p pad) in
    record sent { counted = length p + sent.counted }

unfoldable pub send_loop : Bool → (ℕ → Bool) → ℕ → List (List ℕ) → Sent
unfolding send_packet
send_loop padding stream k [] = record { written = []; counted = 0 }
send_loop padding stream k (p ∷ ps) =
    let rest = send_loop padding stream (k + (if pads padding p then 3 else 2)) ps in
    send_packet padding stream k p rest

-- pipeTUNtoQUIC
unfoldable pub client_send : TunCfg → (ℕ → Bool) → List (List ℕ) → Sent
unfolding send_loop
client_send tun stream ps = send_loop (padding_enabled tun.padding) stream 0 ps

-- What a round of pipeQUICtoTUN reads: the length in a whole header, then as many bytes and the padding
-- that goes with them, into a buffer that may be too short. None ends the loop.
unfoldable pub header_len : List ℕ → ℕ
header_len (a ∷ b ∷ c ∷ d ∷ s) = uint32 a b c d
header_len _ = 0

unfoldable pub padded_len : Bool → ℕ → ℕ
padded_len padding n = if padding then n + padding_len n else n

pub data Read : Type 0 where
  got : List ℕ → List ℕ → Read
  ended overran : Read

unfoldable pub read_packet : ℕ → Option (List ℕ × List ℕ) → Read
read_packet n none = ended
read_packet n (some (bytes, rest)) = got (take n bytes) rest

unfoldable pub read_after : Bool → ℕ → List ℕ → Read
unfolding read_packet padded_len read_full
read_after padding n s =
    if ltb max_packet_len n
    then ended
    else if ltb buffer_size (padded_len padding n)
    then overran
    else read_packet n (read_full (padded_len padding n) s)

unfoldable pub read_round : Bool → Option (List ℕ × List ℕ) → Read
unfolding read_after header_len
read_round padding none = ended
read_round padding (some (header, s)) = read_after padding (header_len header) s

unfoldable pub receive_loop : Bool → (ℕ → Bool) → ℕ → ℕ → List ℕ → Received
unfolding read_round read_full
receive_loop padding device zero k s = record { delivered = []; counted = 0; ending = out_of_fuel }
receive_loop padding device (suc fuel) k s = elim (read_round padding (read_full 4 s)) [
  | ended ↦ record { delivered = []; counted = 0; ending = returned }
  | overran ↦ record { delivered = []; counted = 0; ending = panicked }
  | got p rest ↦
      let more = receive_loop padding device fuel (k + 1) rest in
      if device k
      then record more { delivered = p ∷ more.delivered; counted = length p + more.counted }
      else record { delivered = []; counted = length p; ending = returned }
]

-- pipeQUICtoTUN
unfoldable pub client_receive : TunCfg → (ℕ → Bool) → ℕ → List ℕ → Received
unfolding receive_loop
client_receive tun device fuel s = receive_loop (padding_enabled tun.padding) device fuel 0 s
