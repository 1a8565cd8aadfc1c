-- ===== src/Socket/Arrival.antt =====
-- From `sendMsg` to `readPartMsg` of src/network/socket_wrapper.cpp, with the messages of
-- src/network/messages.cpp inside.
use four_in_a_row.Base.{ℕ, ◌+◌, ◌≤◌, ◌≡◌, refl, List, [], ◌∷◌, ◌++◌, length, map, All}
use four_in_a_row.Wire.Result.{Result, ok}
use four_in_a_row.Wire.Fields.{Ssl, SslLaws}
use four_in_a_row.Wire.Layout.{WellFormed}
use four_in_a_row.Wire.Message.{Message}
use four_in_a_row.Wire.Message.Write.{write}
use four_in_a_row.Wire.Message.Read.{read_message}
use four_in_a_row.Wire.RoundTrip.{read_message-written}
use four_in_a_row.Socket.{receive}
use four_in_a_row.Socket.Delivery.{flatten, frames, Obeys, Sendable, receive-frames}

module _ {Cert Key : Type 0} (ssl : Ssl Cert Key) (laws : SslLaws ssl) where
  -- The bytes that `write` gave for the messages, each of which fits a frame.
  abbrev pub Written : List (Message Cert Key) → List (List ℕ) → Type 0
  Written [] [] = Unit {0}
  Written (m ∷ ms) (bs ∷ bss) =
      WellFormed m × (write ssl m ≡ ok bs) × (length bs + 2 ≤ 8192) × Written ms bss
  Written _ _ = ⊥

  -- `readMessage` on a payload, with what is left of older messages behind it.
  abbrev pub decode : List ℕ → List ℕ → Result (Message Cert Key)
  decode stale p = read_message ssl (p ++ stale) (length p)

  decode-All :
      (ms : List (Message Cert Key)) (bss : List (List ℕ)) (stale : List ℕ)
      → Written ms bss
      → (map (decode stale) bss ≡ map ok ms) × All Sendable bss
  decode-All [] [] stale v = (refl, tt)
  decode-All [] (bs ∷ bss) stale v = elim v [ ]
  decode-All (m ∷ ms) [] stale v = elim v [ ]
  decode-All (m ∷ ms) (bs ∷ bss) stale v =
      let (good, w, short, rest) = v in
      let (r, long) = read_message-written ssl laws m bs stale good w in
      let (rs, sendable) = decode-All ms bss stale rest in (rw (r, rs), ((long, short), sendable))

  -- Well-formed messages that are written and sent one behind the other, each in a frame of at
  -- most 8192 bytes, are the messages that the other side reads, in their order and with nothing
  -- left in the buffer, however the stream is cut and whatever lies in memory behind a message.
  pub messages_arrive :
      (gots bss : List (List ℕ)) (ms : List (Message Cert Key)) (stale : List ℕ)
      → Written ms bss
      → flatten gots ≡ frames bss
      → Obeys [] gots
      → (map (decode stale) (receive [] gots).1 ≡ map ok ms) × ((receive [] gots).0 ≡ [])
  messages_arrive gots bss ms stale v e o =
      let (read, sendable) = decode-All ms bss stale v in
      let all = receive-frames gots bss sendable e o in (rw all read, rw all)
