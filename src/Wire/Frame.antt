-- ===== src/Wire/Frame.antt =====
-- pkg/protocol/frame.go, and the bytes that one round of the two loops writes and reads.
use safelink_ssh.Base.{
  ℕ, zero, suc, ◌+◌, ◌-◌, ◌%◌, ◌≡◌, ◌≤◌, ◌<◌, Bool, Option, none, some, List, [], ◌∷◌, ◌++◌, arith,
  ltb, ◌==◌, if◌then◌else◌, length, take, replicate,
}
use safelink_ssh.Wire.Header.{put_uint32, uint32}

abbrev pub padding_block_size : ℕ
padding_block_size = 128

abbrev pub header_size : ℕ
header_size = 4

abbrev pub max_packet_len : ℕ
max_packet_len = 65535

-- The buffers of the loops: `make([]byte, 65536)`.
abbrev pub buffer_size : ℕ
buffer_size = 65536

-- total += PaddingBlockSize - rem
unfoldable pub align : ℕ → ℕ → ℕ
align total rem = if rem == 0 then total else total + (padding_block_size - rem)

unfoldable pub padded_frame_size : ℕ → ℕ
unfolding align
padded_frame_size payload_len =
    align (header_size + payload_len) ((header_size + payload_len) % padding_block_size)

unfoldable pub padding_len : ℕ → ℕ
unfolding padded_frame_size
padding_len payload_len = padded_frame_size payload_len - header_size - payload_len

-- What one round of pipeTUNtoQUIC writes for a packet read from the TUN device.
unfoldable pub frame : Bool → List ℕ → List ℕ
frame padding packet =
    put_uint32 (length packet)
    ++ (packet ++ (if padding then replicate (padding_len (length packet)) 0 else []))

-- io.ReadFull: `n` bytes and what is behind them, or an error if the stream ends before.
unfoldable pub read_full : ℕ → List ℕ → Option (List ℕ × List ℕ)
read_full zero s = some ([], s)
read_full (suc n) [] = none
read_full (suc n) (b ∷ s) = elim (read_full n s) [
  | none ↦ none
  | some (got, rest) ↦ some (b ∷ got, rest)
]

-- How one round of pipeQUICtoTUN ends: a packet for the TUN device and the rest of the stream, the
-- return of the loop, or the panic of `buf[:readLen]` past the end of the buffer.
pub data Round : Type 0 where
  packet : List ℕ → List ℕ → Round
  closed : Round
  slice_panic : Round

unfoldable pub read_len : Bool → ℕ → ℕ
read_len padding l = if padding then l + padding_len l else l

-- The body behind the header: the slice is taken before the read.
unfoldable pub read_body : Bool → ℕ → List ℕ → Round
unfolding read_full
read_body padding l s =
    if ltb max_packet_len l
    then closed
    else if ltb buffer_size (read_len padding l)
    then slice_panic
    else elim (read_full (read_len padding l) s) [
      | none ↦ closed
      | some (got, rest) ↦ packet (take l got) rest
    ]

unfoldable pub read_frame : Bool → List ℕ → Round
read_frame padding (a ∷ b ∷ c ∷ d ∷ s) = read_body padding (uint32 a b c d) s
read_frame padding _ = closed

-- A padded frame is a whole number of blocks, adds less than one block, and keeps the packet inside.
pub padded_frame_size_lem :
    (n : ℕ)
    → (padded_frame_size n % padding_block_size ≡ 0)
      × (header_size + n ≤ padded_frame_size n)
      × (padded_frame_size n < header_size + n + padding_block_size)
      × (header_size + n + padding_len n ≡ padded_frame_size n)
unfolding padding_len
padded_frame_size_lem n = ground arith
