-- ===== src/Wire/Frames.antt =====
-- runtime/exec_ws.go and fakenomad/ws.go: the RFC 6455 frames of alloc-exec, on both sides. A
-- writer returns the bytes that its `Write` calls hand over when they all succeed; a reader takes
-- its bytes from the front of what has arrived, and `io.ReadFull` fails where they run out.
pub mod Bits
pub mod RoundTrip
use Prim.Native.Nat.{bit_and, bit_or, bit_xor}
use gc_runtime_nomad.Base.{
  ℕ, zero, suc, ◌+◌, ◌*◌, ◌/◌, ◌%◌, ◌^◌, Bool, true, false, Option, none, some, List, [], ◌∷◌, ◌++◌,
  not, Bytes, length, take, drop, ltb, leb, ◌==◌, if◌then◌else◌,
}

abbrev pub ws_op_text : ℕ
ws_op_text = 0x1

abbrev pub ws_op_close : ℕ
ws_op_close = 0x8

-- Why a frame is not read: the stream ended, or the mask bit is not the one expected.
pub data FrameError : Type 0 where
  short_read unmasked_client_frame masked_server_frame : FrameError

pub data Read (A : Type 0) : Type 0 where
  ok : A → Read A
  err : FrameError → Read A

infixl 5 ◌>>=◌ ◌>>◌
abbrev pub ◌>>=◌ : {A B : Type 0} → Read A → (A → Read B) → Read B
ok a >>= k = k a
err e >>= k = err e

abbrev pub ◌>>◌ : {B : Type 0} → Read (Unit {0}) → Read B → Read B
m >> k = m >>= λ _. k

abbrev pub guard : Bool → FrameError → Read (Unit {0})
guard true e = ok tt
guard false e = err e

-- `io.ReadFull(r, make([]byte, n))`
unfoldable pub read_full : ℕ → Bytes → Read (Bytes × Bytes)
read_full zero stream = ok ([], stream)
read_full (suc n) [] = err short_read
read_full (suc n) (b ∷ stream) = do (bytes, rest) ← read_full n stream; ok (b ∷ bytes, rest)

-- `binary.BigEndian.PutUint16` and `PutUint64`, at `k` bytes.
unfoldable pub put_uint : ℕ → ℕ → Bytes
put_uint zero n = []
put_uint (suc k) n = put_uint k (n / 256) ++ (n % 256) ∷ []

-- `binary.BigEndian.Uint16` and `Uint64`.
unfoldable pub get_uint : ℕ → Bytes → ℕ
get_uint acc [] = acc
get_uint acc (b ∷ bytes) = get_uint (acc * 256 + b) bytes

-- `payload[i] ^ maskKey[i%4]`; the key is four bytes, taken in turn.
unfoldable pub mask : Bytes → Bytes → Bytes
mask (k ∷ key) (b ∷ payload) = bit_xor b k ∷ mask (key ++ k ∷ []) payload
mask [] payload = payload
mask key [] = []

-- The first bytes of a frame: `flag` is 0x80 on the client's side, which masks, and 0 on the server's.
unfoldable pub frame_head : ℕ → ℕ → ℕ → Bytes
frame_head flag opcode len =
    if leb len 125
    then bit_or 0x80 opcode ∷ bit_or flag (len % 256) ∷ []
    else if leb len 0xffff
    then bit_or 0x80 opcode ∷ bit_or flag 126 ∷ put_uint 2 (len % 2 ^ 16)
    else bit_or 0x80 opcode ∷ bit_or flag 127 ∷ put_uint 8 (len % 2 ^ 64)

-- runtime/exec_ws.go, wsWriteMaskedFrame; `key` is what `rand.Read` fills.
unfoldable pub ws_write_masked_frame : Bytes → ℕ → Bytes → Bytes
unfolding mask frame_head put_uint
ws_write_masked_frame key opcode payload =
    frame_head 0x80 opcode (length payload) ++ (key ++ mask key payload)

-- fakenomad/ws.go, wsWriteFrame.
unfoldable pub ws_write_frame : ℕ → Bytes → Bytes
unfolding frame_head put_uint
ws_write_frame opcode payload = frame_head 0 opcode (length payload) ++ payload

-- The length that a frame's second byte announces, and the stream behind it.
read_length : ℕ → Bytes → Read (ℕ × Bytes)
read_length short stream =
    if short == 126
    then (read_full 2 stream >>= λ (ext, rest). ok (get_uint 0 ext, rest))
    else if short == 127
    then (read_full 8 stream >>= λ (ext, rest). ok (get_uint 0 ext, rest))
    else ok (short, stream)

-- The opcode, the mask bit, the length and the stream behind them: what both readers begin with.
read_head : Bytes → Read (ℕ × Bool × ℕ × Bytes)
read_head (first ∷ second ∷ stream) = do
  (len, rest) ← read_length (bit_and second 0x7f) stream
  ok (bit_and first 0x0f, not (bit_and second 0x80 == 0), len, rest)
read_head _ = err short_read

-- fakenomad/ws.go, wsReadFrame: the opcode, the payload and what follows the frame.
unfoldable pub server_read_frame : Bytes → Read (ℕ × Bytes × Bytes)
unfolding read_head read_length read_full get_uint mask
server_read_frame stream = do
  (opcode, masked, len, rest) ← read_head stream
  guard masked unmasked_client_frame
  (key, rest') ← read_full 4 rest
  (payload, rest'') ← read_full len rest'
  ok (opcode, mask key payload, rest'')

-- runtime/exec_ws.go, wsReadFrame.
unfoldable pub client_read_frame : Bytes → Read (ℕ × Bytes × Bytes)
unfolding read_head read_length read_full get_uint
client_read_frame stream = do
  (opcode, masked, len, rest) ← read_head stream
  guard (not masked) masked_server_frame
  (payload, rest') ← read_full len rest
  ok (opcode, payload, rest')
