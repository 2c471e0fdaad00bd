-- ===== src/Vpn/Client/Same.antt =====
-- The packet loops of client/internal/tunnel/vpn.go against those of server/internal/vpnserver/server.go.
use safelink_ssh.Base.{
  ℕ, zero, suc, ◌+◌, ◌≡◌, refl, sym, ap, ◌∙◌, ◌≤◌, ◌<◌, Bool, true, false, Option, none, some, List,
  [], ◌∷◌, ◌++◌, length, take, replicate, ltb, All, append_assoc, if◌then◌else◌, if_rule,
  Bool-cases, inl, inr, arith,
}
use safelink_ssh.Config.Tunnel.{TunCfg}
use safelink_ssh.Wire.Header.{put_uint32, uint32}
use safelink_ssh.Wire.Frame.{
  Round, packet, closed, slice_panic, padding_len, read_full, read_len, read_body, read_frame,
  max_packet_len, buffer_size,
}
use safelink_ssh.Wire.RoundTrip.{longest}
use safelink_ssh.Wire.Loops.{Sent, Received, parts, write_parts, send, receive, returned, panicked}
use safelink_ssh.Wire.Loops.Delivery.{delivery}
use safelink_ssh.Vpn.Client.{
  padding_enabled, write_then, pads, send_packet, send_loop, client_send, header_len, padded_len,
  Read, got, ended, overran, read_packet, read_after, read_round, receive_loop, client_receive,
}

-- Writes one behind the other, and a list of writes.
flatten : (b c : List ℕ) (rest : List ℕ) → (b ++ (c ++ [])) ++ rest ≡ b ++ (c ++ rest)
flatten b c rest = append_assoc b (c ++ []) rest ∙ ap (λ x. b ++ x) (append_assoc c [] rest)

flatten3 :
    (b c d : List ℕ) (rest : List ℕ) → (b ++ (c ++ (d ++ []))) ++ rest ≡ b ++ (c ++ (d ++ rest))
flatten3 b c d rest = append_assoc b (c ++ (d ++ [])) rest ∙ ap (λ x. b ++ x) (flatten c d rest)

-- What a round of the server does once its writes are made.
abbrev concluded : ℕ → List ℕ × Bool → Sent → Sent
concluded n (bytes, done) rest =
    if done
    then record { written = bytes ++ rest.written; counted = n + rest.counted }
    else record { written = bytes; counted = n }

abbrev tally : ℕ → Sent → Sent
tally n sent = record sent { counted = n + sent.counted }

abbrev sent_all : ℕ → Sent → List ℕ → Sent
sent_all n rest bytes = record { written = bytes; counted = n + rest.counted }

plus_zero :
    (n : ℕ) (bytes : List ℕ)
    → ◌≡◌ {A = Sent}
        (record { written = bytes; counted = n })
        (record { written = bytes; counted = n + 0 })
plus_zero n bytes = ap (λ m. record { written = bytes; counted = m }) (omega arith)

module _ (stream : ℕ → Bool) (k n : ℕ) (h p : List ℕ) (rest : Sent) where
  two_writes :
      concluded n (write_parts stream k (h ∷ p ∷ [])) rest
      ≡ tally n (write_then (stream k) h (write_then (stream (k + 1)) p rest))
  unfolding write_parts write_then
  two_writes = elim (Bool-cases (stream k)) [
    | inl e ↦ elim (Bool-cases (stream (k + 1))) [
      | inl e' ↦ rw (e, e') (ap (sent_all n rest) (flatten h p rest.written))
      | inr e' ↦ rw (e, e') (plus_zero n (h ++ []))
    ]
    | inr e ↦ rw e (plus_zero n [])
  ]

  three_writes :
      (pad : List ℕ)
      → concluded n (write_parts stream k (h ∷ p ∷ pad ∷ [])) rest
        ≡ tally n (
            write_then
              (stream k)
              h
              (write_then (stream (k + 1)) p (write_then (stream (k + 1 + 1)) pad rest)))
  unfolding write_parts write_then
  three_writes pad = elim (Bool-cases (stream k)) [
    | inl e ↦ elim (Bool-cases (stream (k + 1))) [
      | inl e' ↦ elim (Bool-cases (stream (k + 1 + 1))) [
        | inl e'' ↦ rw (e, e', e'') (ap (sent_all n rest) (flatten3 h p pad rest.written))
        | inr e'' ↦ rw (e, e', e'') (plus_zero n (h ++ (p ++ [])))
      ]
      | inr e' ↦ rw (e, e') (plus_zero n (h ++ []))
    ]
    | inr e ↦ rw e (plus_zero n [])
  ]

-- The client writes and counts what the server does, whichever writes fail.
pub send_loop-send :
    (padding : Bool) (stream : ℕ → Bool) (k : ℕ) (ps : List (List ℕ))
    → send_loop padding stream k ps ≡ send padding stream k ps
unfolding send_loop send send_packet parts pads
send_loop-send padding stream k [] = refl
send_loop-send true stream k (p ∷ ps) = elim (Bool-cases (ltb 0 (padding_len (length p)))) [
  | inl e ↦
      rw (e, send_loop-send true stream (k + 3) ps)
        (sym (
          three_writes stream k (length p) (put_uint32 (length p)) p (send true stream (k + 3) ps)
            (replicate (padding_len (length p)) 0)))
  | inr e ↦
      rw (e, send_loop-send true stream (k + 2) ps)
        (sym
          (two_writes stream k (length p) (put_uint32 (length p)) p (send true stream (k + 2) ps)))
]
send_loop-send false stream k (p ∷ ps) =
    rw (send_loop-send false stream (k + 2) ps) (
      sym (two_writes stream k (length p) (put_uint32 (length p)) p (send false stream (k + 2) ps)))

-- What the two loops make of a round.
abbrev as_round : Read → Round
as_round (got p rest) = packet p rest
as_round ended = closed
as_round overran = slice_panic

read_after-body :
    (padding : Bool) (n : ℕ) (s : List ℕ)
    → as_round (read_after padding n s) ≡ read_body padding n s
unfolding read_after read_body padded_len read_len
read_after-body padding n s =
    if_rule (λ r. as_round r ≡ read_body padding n s) (ltb max_packet_len n) _ _ (λ e. rw e refl)
      (λ e.
        if_rule (λ r. as_round r ≡ read_body padding n s) (ltb buffer_size (padded_len padding n)) _
          _ (λ e'. rw (e, e') refl) (λ e'. rw (e, e') (whole (read_full (padded_len padding n) s))))
  where
    whole :
        (o : Option (List ℕ × List ℕ))
        → as_round (read_packet n o)
          ≡ elim o [ none ↦ closed | some (bytes, rest) ↦ packet (take n bytes) rest ]
    whole none = refl
    whole (some (bytes, rest)) = refl

read_round-frame :
    (padding : Bool) (s : List ℕ)
    → as_round (read_round padding (read_full 4 s)) ≡ read_frame padding s
unfolding read_round read_frame read_full header_len
read_round-frame padding [] = refl
read_round-frame padding (a ∷ []) = refl
read_round-frame padding (a ∷ b ∷ []) = refl
read_round-frame padding (a ∷ b ∷ c ∷ []) = refl
read_round-frame padding (a ∷ b ∷ c ∷ d ∷ s) = read_after-body padding (uint32 a b c d) s

-- A round of the server's loop, behind its reads.
abbrev server_step : Bool → (ℕ → Bool) → ℕ → ℕ → Round → Received
server_step padding device fuel k r = elim r [
  | closed ↦ record { delivered = []; counted = 0; ending = returned }
  | slice_panic ↦ record { delivered = []; counted = 0; ending = panicked }
  | packet p rest ↦
      let more = receive padding device fuel (k + 1) rest in
      if device k
      then record more { delivered = p ∷ more.delivered; counted = length p + more.counted }
      else record { delivered = []; counted = length p; ending = returned }
]

-- The client delivers, counts and ends as the server does, on every stream.
pub receive_loop-receive :
    (padding : Bool) (device : ℕ → Bool) (fuel k : ℕ) (s : List ℕ)
    → receive_loop padding device fuel k s ≡ receive padding device fuel k s
unfolding receive_loop receive
receive_loop-receive padding device zero k s = refl
receive_loop-receive padding device (suc fuel) k s =
    by_read (read_round padding (read_full 4 s)) (receive_loop-receive padding device fuel (k + 1))
    ∙ ap (server_step padding device fuel k) (read_round-frame padding s)
  where
    by_read :
        (r : Read)
        → ((t : List ℕ)
            → receive_loop padding device fuel (k + 1) t ≡ receive padding device fuel (k + 1) t)
        → elim r [
          | ended ↦ record { delivered = []; counted = 0; ending = returned }
          | overran ↦ record { delivered = []; counted = 0; ending = panicked }
          | got p rest ↦
              let more = receive_loop padding device fuel (k + 1) rest in
              if device k
              then record more { delivered = p ∷ more.delivered; counted = length p + more.counted }
              else record { delivered = []; counted = length p; ending = returned }
        ]
          ≡ server_step padding device fuel k (as_round r)
    by_read ended same = refl
    by_read overran same = refl
    by_read (got p rest) same = rw (same rest) refl

-- Whether the other end pads as the tunnel is configured to: an end that is not configured pads.
pub data Agrees : Option Bool → Bool → Type 0 where
  unset : Agrees none true
  configured : (p : Bool) → Agrees (some p) p

Agrees-padding : {o : Option Bool} {padding : Bool} → Agrees o padding → padding_enabled o ≡ padding
unfolding padding_enabled
Agrees-padding unset = refl
Agrees-padding (configured p) = refl

-- Between a client that is configured to pad, or not configured, and a server that pads, and between a
-- client that is configured not to pad and a server that does not, packets cross in both directions
-- once and in order, and both ends count the same bytes, if all writes succeed and no packet is longer
-- than 65535 bytes, with padding 65532.
pub tunnel_delivers :
    (tun : TunCfg) (padding : Bool) (stream device : ℕ → Bool) (fuel : ℕ) (ps : List (List ℕ))
    → Agrees tun.padding padding
    → ((j : ℕ) → stream j ≡ true)
    → ((j : ℕ) → device j ≡ true)
    → All (λ p. length p ≤ longest padding) ps
    → length ps < fuel
    → (receive padding device fuel 0 (client_send tun stream ps).written ≡ record {
      delivered = ps;
      counted = (client_send tun stream ps).counted;
      ending = returned;
    })
      × (client_receive tun device fuel (send padding stream 0 ps).written ≡ record {
        delivered = ps;
        counted = (send padding stream 0 ps).counted;
        ending = returned;
      })
unfolding client_send client_receive
tunnel_delivers tun padding stream device fuel ps agree open_stream up small h =
    rw (Agrees-padding agree, send_loop-send padding stream 0 ps)
      (
        delivery padding stream device fuel ps open_stream up small h,
        receive_loop-receive padding device fuel 0 (send padding stream 0 ps).written
            ∙ delivery padding stream device fuel ps open_stream up small h,
      )
