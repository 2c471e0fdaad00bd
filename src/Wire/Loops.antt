-- ===== src/Wire/Loops.antt =====
-- The loops pipeTUNtoQUIC and pipeQUICtoTUN of server/internal/vpnserver/server.go. What the TUN
-- device reads is a list that ends with its error; `stream k` says whether the k-th write to the
-- QUIC stream succeeds and `device k` whether the k-th write to the TUN device does. A write that
-- fails leaves nothing on the stream.
pub mod Delivery
use safelink_ssh.Base.{
  ℕ, zero, suc, ◌+◌, Bool, true, false, List, [], ◌∷◌, ◌++◌, ltb, if◌then◌else◌, length, replicate,
}
use safelink_ssh.Wire.Header.{put_uint32}
use safelink_ssh.Wire.Frame.{padding_len, read_frame, packet, closed, slice_panic}

-- The writes of one round: the header, the packet, and the padding if there is any.
unfoldable pub parts : Bool → List ℕ → List (List ℕ)
parts padding p =
    put_uint32 (length p)
    ∷ p
    ∷ (if padding
        then (if ltb 0 (padding_len (length p))
            then replicate (padding_len (length p)) 0 ∷ []
            else [])
        else [])

pub record Sent : Type 0 where
  pub written : List ℕ
  pub counted : ℕ

-- Writes from the k-th on; the flag says whether all of them succeeded.
unfoldable pub write_parts : (ℕ → Bool) → ℕ → List (List ℕ) → List ℕ × Bool
write_parts stream k [] = ([], true)
write_parts stream k (b ∷ bs) =
    let (rest, done) = write_parts stream (k + 1) bs in
    if stream k then (b ++ rest, done) else ([], false)

-- pipeTUNtoQUIC: `counted` is what it adds to the outgoing traffic.
unfoldable pub send : Bool → (ℕ → Bool) → ℕ → List (List ℕ) → Sent
send padding stream k [] = record { written = []; counted = 0 }
send padding stream k (p ∷ ps) =
    let (bytes, done) = write_parts stream k (parts padding p) in
    let rest = send padding stream (k + length (parts padding p)) ps in
    if done
    then record { written = bytes ++ rest.written; counted = length p + rest.counted }
    else record { written = bytes; counted = length p }

pub data Ending : Type 0 where
  returned panicked out_of_fuel : Ending

-- `counted` is what pipeQUICtoTUN adds to the incoming traffic, also for a packet whose write fails.
pub record Received : Type 0 where
  pub delivered : List (List ℕ)
  pub counted : ℕ
  pub ending : Ending

unfoldable pub receive : Bool → (ℕ → Bool) → ℕ → ℕ → List ℕ → Received
receive padding device zero k s = record { delivered = []; counted = 0; ending = out_of_fuel }
receive padding device (suc fuel) k s = elim (read_frame padding s) [
  | closed ↦ record { delivered = []; counted = 0; ending = returned }
  | slice_panic ↦ record { delivered = []; counted = 0; ending = panicked }
  | packet p rest ↦
      let more = receive padding device fuel (k + 1) rest in
      if device k
      then record more { delivered = p ∷ more.delivered; counted = length p + more.counted }
      else record { delivered = []; counted = length p; ending = returned }
]
