-- ===== src/Client/Main/Tests.antt =====
-- `main` of src/client/client.cpp with one game.
use four_in_a_row.Base.{ℕ, ◌≡◌, refl, true, false, none, some, List, [], ◌∷◌, All}
use four_in_a_row.Wire.Message.{get_type}
use four_in_a_row.Wire.Fields.{c_str}
use four_in_a_row.Secure.Peers.{succeeds, waiting, accept_client, handshake_server}
use four_in_a_row.Secure.Sums.{sums}
use four_in_a_row.Client.{parse_line, Asked, answer, my_turn}
use four_in_a_row.Client.Lobby.{Link, Mode, exit_ok, connection_error, handle_stdin, do_action}
use four_in_a_row.Client.Lobby as lobby
use four_in_a_row.Client.Peers.Sides.{joined, hello, verify, start}
use four_in_a_row.Wire.Message.Read.{read_message, read_body}
use four_in_a_row.Wire.Buffer.{read_uint8}
use four_in_a_row.Socket.Blocking.{receive_loop}
use four_in_a_row.Secure.{
  init, set_other_cert, update_iv, handle_msg, make_aad, decrypt_msg, opened,
}
use four_in_a_row.Secure.Handshake.{
  generate_keys, check_signature, build_msg_to_sign, msg_to_sign, put_key, signed_name,
  send_server_hello, make_signature, hkdf, shared_secret, handle_client_hello, handle_client_verify,
}
use four_in_a_row.Secure.Receive.{receive_msg}
use four_in_a_row.Client.Peers.{wait_for_peer}
use four_in_a_row.Client.Main.{
  Task, for_peer, quits, carry_on, prompt_choose_connection, typed, lobby_loop, server_lobby,
  on_event,
}
use four_in_a_row.Client.Main.Loops.{Round, switch, turn_of, inner_loop, main_loop}
use four_in_a_row.Client.Main.Games.{Vouched, main_loop-Vouched}

-- "peer 5000 c" waits for a peer whose certificate is in the file.
abbrev peer_line : List ℕ
peer_line = b'p' ∷ b'e' ∷ b'e' ∷ b'r' ∷ b' ' ∷ b'5' ∷ b' ' ∷ b'c' ∷ []

abbrev chosen : Asked (Task ℕ)
chosen = answer (for_peer 5 (some 98))

prompts :
    prompt_choose_connection (λ name. some 98) (λ word. 5) (some (b'x' ∷ []) ∷ some peer_line ∷ [])
    ≡ chosen
unfolding prompt_choose_connection c_str
prompts = refl

abbrev a_round : Round ℕ ℕ ℕ
a_round = record {
  lobby = λ l. waiting;
  binds = true;
  connects = λ n. true;
  hellos = hello;
  verifies = verify;
  starts = start;
  nonce = 2;
  eph = 6;
  play_with_player = λ turn sw. 1;
  offline_result = 0;
}

abbrev inputs : List (Asked (Task ℕ) × List (Round ℕ ℕ ℕ))
inputs = (chosen, a_round ∷ []) ∷ (answer (quits exit_ok), []) ∷ []

main_loop-Vouched_example : All (Vouched sums) (main_loop sums (λ m. true) 99 99 inputs).0
main_loop-Vouched_example = main_loop-Vouched sums (λ m. true) 99 99 inputs

-- A game that ends with an error is followed by the lobby, and the server is not told.
abbrev broken_off : Round ℕ ℕ ℕ
broken_off = record a_round {
  lobby = λ l.
      succeeds (
        l,
        lobby.wait_for_peer (record { addr = record { s_addr = 0; sin_port = 0 }; cert = 98 }) 5,
      );
  binds = false;
}

not_told :
    turn_of sums
      (λ m. true)
      99
      99
      broken_off
      (some (record { connected = true; log = [] }))
      carry_on
    ≡ succeeds (1, true, some (record { connected = true; log = [] }), [])
unfolding turn_of switch wait_for_peer
not_told = refl

-- In the lobby an empty line changes nothing, and "exit" leaves.
lobby_left :
    server_lobby {Cert = ℕ} {Key = ℕ}
      (λ m. true)
      (λ types. none)
      (λ l. (l, true))
      (record { connected = false; log = [] })
      (typed (some []) ∷ typed (some (b'e' ∷ b'x' ∷ b'i' ∷ b't' ∷ [])) ∷ [])
    ≡ succeeds (record { connected = false; log = [] }, lobby.exit exit_ok)
unfolding server_lobby lobby_loop on_event handle_stdin do_action parse_line c_str
lobby_left = refl

one_game :
    (main_loop sums (λ m. true) 99 99 inputs).0 ≡ (record { turn = my_turn; sw = joined }) ∷ []
unfolding main_loop inner_loop turn_of switch wait_for_peer accept_client handshake_server init
    set_other_cert handle_client_hello send_server_hello handle_client_verify generate_keys
    check_signature build_msg_to_sign msg_to_sign put_key signed_name c_str make_signature hkdf
    shared_secret receive_msg receive_loop handle_msg get_type decrypt_msg opened read_message
    read_body read_uint8 make_aad update_iv
one_game = refl
