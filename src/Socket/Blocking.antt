-- ===== src/Socket/Blocking.antt =====
-- The blocking calls of src/network/socket_wrapper.cpp: sendMsg, receiveAnyMsg and receiveMsg.
use four_in_a_row.Base.{
  ℕ, ◌+◌, ◌-◌, ◌*◌, ◌/◌, ◌%◌, ◌^◌, ◌≤◌, ◌≡◌, ◌≢◌, ◌∙◌, subst, refl, inl, inr, Bool, true, false,
  not, ◌||◌, Option, none, some, List, [], ◌∷◌, ◌++◌, ltb, leb, ◌==◌, if◌then◌else◌, length, take,
  drop, take-append, Bool-cases, arith,
}
use four_in_a_row.Wire.Result.{
  Result, ok, failed, raised, fault, written, written-ok, ◌>>=◌, >>=-eq-ok,
}
use four_in_a_row.Wire.Buffer.{be2}
use four_in_a_row.Wire.Fields.{Ssl, SslLaws}
use four_in_a_row.Wire.Layout.{WellFormed}
use four_in_a_row.Wire.Message.{Message, MessageType, get_type, type_code}
use four_in_a_row.Wire.Message.Write.{write, max_msg_size}
use four_in_a_row.Wire.Message.Read.{read_message}
use four_in_a_row.Wire.RoundTrip.{read_message-written}
use four_in_a_row.Socket.{header_size, frame}

-- The loop of `receiveMsg`: what it ends with, or that it still waits.
pub data Waited (M : Type 0) : Type 0 where
  blocked null crashed : Waited M
  got : M → Waited M

module _ {M S : Type 0} (handle : S → Result M → S × Result M) (wanted : M → Bool) where
  abbrev pub after : S × Result M → S × Waited M → S × Waited M
  after (s, ok m) rest = (s, if wanted m then got m else null)
  after (s, failed) rest = rest
  after (s, raised) rest = (s, null)
  after (s, fault) rest = (s, crashed)

  -- Over what the calls of `receiveAnyMsg` end with, one after the other.
  unfoldable pub receive_loop : S → List (Result M) → S × Waited M
  receive_loop s [] = (s, blocked)
  receive_loop s (r ∷ rs) = let q = handle s r in let rest = receive_loop q.0 rs in after q rest

module _ {Cert Key : Type 0} where
  abbrev pub has_type : List MessageType → Message Cert Key → Bool
  has_type [] m = false
  has_type (t ∷ types) m = (type_code (get_type m) == type_code t) || has_type types m

  unfoldable pub receive_msg :
      List MessageType → List (Result (Message Cert Key)) → Waited (Message Cert Key)
  unfolding receive_loop
  receive_msg types rs = (receive_loop {S = Unit {0}} (λ s r. (s, r)) (has_type types) tt rs).1

module _ {Cert Key : Type 0} (ssl : Ssl Cert Key) where
  abbrev pub bytes_of : Option (List ℕ) → List ℕ
  bytes_of none = []
  bytes_of (some bs) = bs

  -- `len` after both calls of `recv`: an error counts as -1.
  abbrev pub received : Option (List ℕ) → ℕ
  received none = header_size - 1
  received (some bs) = header_size + length bs

  abbrev pub read_payload : List ℕ → ℕ → Option (List ℕ) → Result (Message Cert Key)
  read_payload stale msglen bs =
      if received bs == msglen
      then read_message ssl (bytes_of bs ++ stale) ((2 ^ 16 + msglen - header_size) % 2 ^ 16)
      else failed

  -- The number of bytes that the second call asks for: an `int` that becomes a `size_t`.
  abbrev pub payload_size : ℕ → ℕ
  payload_size msglen =
      if leb header_size msglen then msglen - header_size else 2 ^ 64 + msglen - header_size

  -- With what the first call of `recv` stores, what the second one stores for the number of bytes
  -- that it asks for, and what lies in the buffer behind that. `none` is an error of `recv`.
  unfoldable pub receive_any_msg :
      List ℕ → Option (List ℕ) → (ℕ → Option (List ℕ)) → Result (Message Cert Key)
  receive_any_msg stale none recv = failed
  receive_any_msg stale (some []) recv = raised
  receive_any_msg stale (some (b ∷ bs)) recv =
      if not (length (b ∷ bs) == header_size)
      then failed
      else if ltb max_msg_size (be2 (b ∷ bs))
      then raised
      else read_payload stale (be2 (b ∷ bs)) (recv (payload_size (be2 (b ∷ bs))))

  -- The packet that goes to `send`, if any, and whether the result is 0; `sent` tells whether `send`
  -- took the whole packet.
  unfoldable pub send_msg : (List ℕ → Bool) → Message Cert Key → Result (Option (List ℕ) × Bool)
  unfolding frame
  send_msg sent m = do
    bs ← written (write ssl m)
    ok (if length bs == 0 then (none, false) else (some (frame bs), sent (frame bs)))

  send_msg-some :
      (sent : List ℕ → Bool) (m : Message Cert Key) (pkt : List ℕ) (b : Bool)
      → send_msg sent m ≡ ok (some pkt, b)
      → (bs : List ℕ) × (write ssl m ≡ ok bs) × (length bs ≢ 0) × (pkt ≡ frame bs)
  unfolding send_msg
  send_msg-some sent m pkt b e =
      let (bs, w, f) = >>=-eq-ok (written (write ssl m)) _ e in
      elim (Bool-cases (length bs == 0)) [
        | inl z ↦ let g = (rw z at f) in absurd (ground arith)
        | inr n ↦
            let g = (rw n at f) in
            let some_bytes : length bs ≢ 0 = ground arith in
            (bs, written-ok (write ssl m) bs w some_bytes, some_bytes, ground arith)
      ]

  read_payload-whole :
      (stale bs more : List ℕ) (k : ℕ)
      → k ≡ length bs + 2
      → k ≤ 8192
      → (if ltb max_msg_size k
          then raised
          else read_payload stale k (some (take (payload_size k) (bs ++ more))))
        ≡ read_message ssl (bs ++ stale) (length bs)
  read_payload-whole stale bs more k e short =
      let big : ltb max_msg_size k ≡ false = ground arith in
      let asks : payload_size k ≡ length bs = ground arith in
      let all : (2 + length bs == k) ≡ true = ground arith in
      let size : (2 ^ 16 + k - 2) % 2 ^ 16 ≡ length bs = omega arith in
      rw (big, asks, take-append bs more, all, size) refl

  receive_any_msg-frame :
      (stale bs more : List ℕ)
      → length bs + 2 ≤ 8192
      → let s = frame bs ++ more in
        receive_any_msg stale (some (take 2 s)) (λ n. some (take n (drop 2 s)))
        ≡ read_message ssl (bs ++ stale) (length bs)
  unfolding receive_any_msg frame
  receive_any_msg-frame stale bs more short =
      let n = length bs in
      let header : (n + 2) / 256 % 256 * 256 + (n + 2) % 256 ≡ n + 2 = omega arith in
      read_payload-whole stale bs more _ header (omega arith)

  -- A well-formed message whose packet `sendMsg` hands to `send`, in at most 8192 bytes, is the
  -- message that `receiveAnyMsg` reads at the head of a stream, whatever lies in its buffer.
  pub receive_any_msg-send_msg :
      (laws : SslLaws ssl) (sent : List ℕ → Bool) (m : Message Cert Key) (pkt stale more : List ℕ)
      (b : Bool)
      → WellFormed m
      → send_msg sent m ≡ ok (some pkt, b)
      → length pkt ≤ 8192
      → receive_any_msg stale
          (some (take 2 (pkt ++ more)))
          (λ n. some (take n (drop 2 (pkt ++ more))))
        ≡ ok m
  unfolding frame
  receive_any_msg-send_msg laws sent m pkt stale more b v e short =
      let (bs, w, ne, same) = send_msg-some sent m pkt b e in
      let small : length (frame bs) ≤ 8192 = subst (λ p. length p ≤ 8192) same short in
      let read = (read_message-written ssl laws m bs stale v w).0 in
      let run = receive_any_msg-frame stale bs more (omega arith) in rw same (run ∙ read)
