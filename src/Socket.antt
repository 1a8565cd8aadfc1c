-- ===== src/Socket.antt =====
-- src/network/socket_wrapper.cpp: the frames of SocketWrapper, read in pieces.
-- The bytes of `buffer_in` below `buf_idx` are a list, and `buf_idx` is its length.
pub mod Delivery
pub mod Arrival
pub mod Blocking
pub mod Ports
mod Tests
use four_in_a_row.Base.{
  ℕ, ◌+◌, ◌-◌, ◌/◌, ◌%◌, ◌^◌, ◌≤◌, ◌<◌, Option, none, some, List, [], ◌∷◌, ◌++◌, ltb, leb, ◌==◌,
  if◌then◌else◌, length, drop,
}
use four_in_a_row.Wire.Buffer.{be2}
use four_in_a_row.Wire.Message.Write.{max_msg_size}

abbrev pub header_size : ℕ
header_size = 2

-- The third argument of `read`: an `int` that becomes a `size_t`.
unfoldable pub request : List ℕ → ℕ
request buf =
    if ltb (length buf) header_size
    then header_size - length buf
    else if leb (length buf) (be2 buf)
    then be2 buf - length buf
    else 2 ^ 64 + be2 buf - length buf

-- How `readPartMsg` ends: NULL, a payload that is handed to `readMessage`, or a thrown string.
pub data Part : Type 0 where
  incomplete : Part
  payload : List ℕ → Part
  thrown : Part

-- One call of `readPartMsg`, with the bytes that `read` stored: `none` is an error of `read`, and
-- no byte is the end of the stream. With a payload the buffer is that after `readMessage` has
-- returned.
unfoldable pub read_part_msg : List ℕ → Option (List ℕ) → List ℕ × Part
read_part_msg buf none = (buf, thrown)
read_part_msg buf (some []) = (buf, thrown)
read_part_msg buf (some (g ∷ gs)) =
    let buf' = buf ++ g ∷ gs in
    if ltb (length buf') header_size
    then (buf', incomplete)
    else if ltb max_msg_size (be2 buf')
    then (buf', thrown)
    else if length buf' == be2 buf'
    then ([], payload (drop header_size buf'))
    else (buf', incomplete)

-- The buffer when `readMessage` throws on the payload: `buf_idx` is not reset.
unfoldable pub unread : List ℕ → Option (List ℕ) → List ℕ
unread buf none = buf
unread buf (some got) = buf ++ got

abbrev pub payloads : Part → List (List ℕ)
payloads incomplete = []
payloads (payload p) = p ∷ []
payloads thrown = []

-- The calls of `readPartMsg` on the pieces that `read` returns, one after the other.
unfoldable pub receive : List ℕ → List (List ℕ) → List ℕ × List (List ℕ)
receive buf [] = (buf, [])
receive buf (got ∷ gots) =
    let r = read_part_msg buf (some got) in
    let rest = receive r.0 gots in (rest.0, payloads r.1 ++ rest.1)

-- The packet of `sendMsg` around the bytes of a message.
unfoldable pub frame : List ℕ → List ℕ
frame msg = let pktlen = length msg + header_size in (pktlen / 256 % 256) ∷ (pktlen % 256) ∷ msg
