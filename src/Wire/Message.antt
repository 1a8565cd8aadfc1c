-- ===== src/Wire/Message.antt =====
-- The message classes of include/network/messages.h, one constructor for each class, with the
-- fields of the class as its arguments. A string or a buffer is the list of its bytes.
pub mod Write
pub mod Read
use four_in_a_row.Base.{ℕ, Bool, List, [], ◌∷◌}
use four_in_a_row.Wire.Fields.{SockAddr}

-- `enum MessageType`; `secure` is SECURE_MESSAGE.
pub data MessageType : Type 0 where
  secure client_hello server_hello client_verify start_game_peer move register : MessageType
  challenge game_end users_list users_list_req challenge_fwd challenge_resp : MessageType
  game_start game_cancel cert_req certificate : MessageType

-- The enumerators in their order, so that each one's place is its number.
abbrev pub message_types : List MessageType
message_types =
    secure ∷ client_hello ∷ server_hello ∷ client_verify ∷ start_game_peer ∷ move ∷ register
    ∷ challenge ∷ game_end ∷ users_list ∷ users_list_req ∷ challenge_fwd ∷ challenge_resp
    ∷ game_start ∷ game_cancel ∷ cert_req ∷ certificate ∷ []

abbrev pub type_code : MessageType → ℕ
type_code secure = 0
type_code client_hello = 1
type_code server_hello = 2
type_code client_verify = 3
type_code start_game_peer = 4
type_code move = 5
type_code register = 6
type_code challenge = 7
type_code game_end = 8
type_code users_list = 9
type_code users_list_req = 10
type_code challenge_fwd = 11
type_code challenge_resp = 12
type_code game_start = 13
type_code game_cancel = 14
type_code cert_req = 15
type_code certificate = 16

pub data Message (Cert Key : Type 0) : Type 0 where
  -- ct and tag
  secure_message : List ℕ → List ℕ → Message Cert Key
  -- eph_key, nonce, my_id and other_id
  client_hello_message : Key → ℕ → List ℕ → List ℕ → Message Cert Key
  -- eph_key, nonce, my_id, other_id and ds
  server_hello_message : Key → ℕ → List ℕ → List ℕ → List ℕ → Message Cert Key
  client_verify_message : List ℕ → Message Cert Key
  start_game_message : Message Cert Key
  move_message : ℕ → Message Cert Key
  register_message : List ℕ → Message Cert Key
  challenge_message : List ℕ → Message Cert Key
  game_end_message : Message Cert Key
  users_list_message : List ℕ → Message Cert Key
  users_list_request_message : ℕ → Message Cert Key
  challenge_forward_message : List ℕ → Message Cert Key
  -- username, response and listen_port
  challenge_response_message : List ℕ → Bool → ℕ → Message Cert Key
  -- username, addr and cert
  game_start_message : List ℕ → SockAddr → Cert → Message Cert Key
  game_cancel_message : List ℕ → Message Cert Key
  certificate_request_message : Message Cert Key
  certificate_message : Cert → Message Cert Key

module _ {Cert Key : Type 0} where
  unfoldable pub get_type : Message Cert Key → MessageType
  get_type (secure_message ct tag) = secure
  get_type (client_hello_message key nonce my_id other_id) = client_hello
  get_type (server_hello_message key nonce my_id other_id ds) = server_hello
  get_type (client_verify_message ds) = client_verify
  get_type start_game_message = start_game_peer
  get_type (move_message col) = move
  get_type (register_message username) = register
  get_type (challenge_message username) = challenge
  get_type game_end_message = game_end
  get_type (users_list_message usernames) = users_list
  get_type (users_list_request_message n) = users_list_req
  get_type (challenge_forward_message username) = challenge_fwd
  get_type (challenge_response_message username response port) = challenge_resp
  get_type (game_start_message username addr cert) = game_start
  get_type (game_cancel_message username) = game_cancel
  get_type certificate_request_message = cert_req
  get_type (certificate_message cert) = certificate
