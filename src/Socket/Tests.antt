-- ===== src/Socket/Tests.antt =====
-- The theorems on src/network/socket_wrapper.cpp at two messages in six pieces.
use four_in_a_row.Base.{ℕ, ◌≡◌, refl, Option, none, some, List, [], ◌∷◌, map, All, arith}
use four_in_a_row.Socket.{receive, read_part_msg, request, frame, unread}
use four_in_a_row.Wire.Result.{ok}
use four_in_a_row.Wire.Buffer.{write_uint8}
use four_in_a_row.Wire.Fields.{Ssl, SslLaws}
use four_in_a_row.Wire.Message.{Message, move_message, game_end_message}
use four_in_a_row.Wire.Message.Write.{write, write_move, write_game_end, write_type, emit}
use four_in_a_row.Base.{take, true}
use four_in_a_row.Socket.Blocking.{send_msg, receive_any_msg, receive_any_msg-send_msg}
use four_in_a_row.Base.{Bool, false, ◌%◌, ◌==◌, ◌⊎◌, ◌≢◌}
use four_in_a_row.Socket.Ports.{FirstFree, bind_random_port, bind_port, bind_port_cases}
use four_in_a_row.Socket.Arrival.{Written, decode, messages_arrive}
use four_in_a_row.Socket.Delivery.{Obeys, Sendable, receive-frames}

abbrev two_messages : List (List ℕ)
two_messages = (5 ∷ 3 ∷ []) ∷ (8 ∷ []) ∷ []

-- The length of the first frame comes in one piece, its body in two, then the second frame.
abbrev pieces : List (List ℕ)
pieces = (0 ∷ 4 ∷ []) ∷ (5 ∷ []) ∷ (3 ∷ []) ∷ (0 ∷ []) ∷ (3 ∷ []) ∷ (8 ∷ []) ∷ []

two-Sendable : All Sendable two_messages
two-Sendable = ((omega arith, omega arith), ((omega arith, omega arith), tt))

pieces-Obeys : Obeys [] pieces
unfolding read_part_msg request
pieces-Obeys = (
  omega arith,
  omega arith,
  (
    omega arith,
    omega arith,
    (
      omega arith,
      omega arith,
      (omega arith, omega arith, (omega arith, omega arith, (omega arith, omega arith, tt))),
    ),
  ),
)

receive-frames_example : receive [] pieces ≡ ([], two_messages)
unfolding frame
receive-frames_example = receive-frames pieces two_messages two-Sendable refl pieces-Obeys

abbrev first_byte : List ℕ → Option ℕ
first_byte [] = none
first_byte (b ∷ bs) = some b

-- An encoding of certificates and keys as one byte.
abbrev single : Ssl ℕ ℕ
single = record {
  i2d_x509 = λ c. some (c ∷ []);
  d2i_x509 = first_byte;
  i2d_pubkey = λ k. some (k ∷ []);
  d2i_pubkey = first_byte;
}

single-SslLaws : SslLaws single
single-SslLaws = record { x509_back = λ c bs more e. cc; pubkey_back = λ k bs more e. cc }

abbrev move_and_end : List (Message ℕ ℕ)
move_and_end = move_message 3 ∷ game_end_message ∷ []

both-Written : Written single single-SslLaws move_and_end two_messages
unfolding write write_move write_game_end write_type emit write_uint8
both-Written = (omega arith, refl, omega arith, (tt, refl, omega arith, tt))

messages_arrive_example :
    (map (decode single single-SslLaws (1 ∷ [])) (receive [] pieces).1 ≡ map ok move_and_end)
    × ((receive [] pieces).0 ≡ [])
unfolding frame
messages_arrive_example =
    messages_arrive single single-SslLaws pieces two_messages move_and_end (1 ∷ []) both-Written
      refl pieces-Obeys

-- The packet of a move, behind which the next one begins, into a buffer with older bytes.
receive_any_msg-send_msg_example :
    receive_any_msg single
      (9 ∷ 9 ∷ [])
      (some (0 ∷ 4 ∷ []))
      (λ n. some (take n (5 ∷ 3 ∷ 0 ∷ 3 ∷ [])))
    ≡ ok (move_message 3)
unfolding send_msg frame write write_move write_type write_uint8 emit
receive_any_msg-send_msg_example =
    receive_any_msg-send_msg single single-SslLaws (λ p. true) (move_message 3) (0 ∷ 4 ∷ 5 ∷ 3 ∷ [])
      (9 ∷ 9 ∷ []) (0 ∷ 3 ∷ []) true (omega arith) refl (omega arith)

abbrev odd_ports : ℕ → Bool
odd_ports port = port % 2 == 1

bind_port_cases_example :
    FirstFree odd_ports 256 65534 (bind_random_port odd_ports 256 16382)
    × ((bind_random_port odd_ports 256 16382 ≢ 0) ⊎ (bind_port odd_ports 16382 true ≡ (0, false)))
bind_port_cases_example = bind_port_cases odd_ports 16382 true

-- A message of the unknown type 99 stays in the buffer.
still_there : unread (0 ∷ 3 ∷ []) (some (99 ∷ [])) ≡ 0 ∷ 3 ∷ 99 ∷ []
unfolding unread
still_there = refl
