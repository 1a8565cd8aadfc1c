-- ===== src/Secure.antt =====
-- src/security/secure_socket_wrapper.cpp: the state of SecureSocketWrapper, and its messages before
-- and after encryption. `long` numbers stand in memory with the lowest byte first.
pub mod Handshake
pub mod Iv
pub mod Transport
pub mod Guard
pub mod Receive
pub mod Delivery
pub mod Signing
pub mod Agreement
pub mod Authentic
pub mod Thrown
pub mod Keeps
pub mod Trust
pub mod Peers
pub mod Crypto
pub mod Sums
mod Tests
use Prim.Native.Nat.{bit_xor}
use four_in_a_row.Base.{
  ℕ, zero, suc, ◌+◌, ◌-◌, ◌/◌, ◌%◌, ◌^◌, Bool, true, false, not, ◌&&◌, Option, none, some, List, [],
  ◌∷◌, ◌++◌, ltb, ◌==◌, if◌then◌else◌, length,
}
use four_in_a_row.Wire.Result.{written, Result, ok, failed, raised, fault, ◌>>=◌}
use four_in_a_row.Wire.Fields.{Ssl}
use four_in_a_row.Wire.Message.{
  MessageType, secure, type_code, Message, secure_message, client_hello_message,
  server_hello_message, client_verify_message, certificate_request_message, certificate_message,
}
use four_in_a_row.Wire.Message.Write.{write, max_msg_size}
use four_in_a_row.Wire.Message.Read.{read_message, tag_size}

-- The functions of src/security/crypto.cpp and of OpenSSL behind them. `raised` is a thrown error.
-- `Priv` is a key pair, `Key` its public half.
pub record Suite (Cert Key Priv : Type 0) : Type 0 where
  pub ssl : Ssl Cert Key
  -- `aes_gcm_encrypt` and `aes_gcm_decrypt`: key, initial value, additional data and text
  pub encrypt : List ℕ → List ℕ → List ℕ → List ℕ → Option (List ℕ × List ℕ)
  pub decrypt : List ℕ → List ℕ → List ℕ → List ℕ → List ℕ → Option (List ℕ)
  pub public : Priv → Key
  -- `dhke`
  pub derive : Priv → Key → Result (List ℕ)
  -- `hkdf_one_info`: secret, info and the length of the output
  pub hkdf_one_info : List ℕ → List ℕ → ℕ → Result (List ℕ)
  -- `dsa_sign` and `dsa_verify`
  pub sign : Priv → List ℕ → Result (List ℕ)
  pub verify : Cert → List ℕ → List ℕ → Bool
  -- `verify_peer_cert` with the store of the wrapper, and `usernameFromCert`
  pub trusted : Cert → Bool
  pub username_of : Cert → List ℕ

-- The fields of the class. The buffers that each call fills anew are no state.
pub record Channel (Cert Key Priv : Type 0) : Type 0 where
  pub send_key : List ℕ
  pub recv_key : List ℕ
  pub send_iv_static : List ℕ
  pub recv_iv_static : List ℕ
  pub send_seq_num : ℕ
  pub recv_seq_num : ℕ
  pub my_id : List ℕ
  pub other_id : List ℕ
  pub sv_nonce : ℕ
  pub cl_nonce : ℕ
  pub my_eph_key : Option Priv
  pub other_eph_key : Option Key
  pub my_cert : Cert
  pub other_cert : Option Cert
  pub my_priv_key : Priv
  pub peer_authenticated : Bool

abbrev pub aad_size : ℕ
aad_size = 3

abbrev pub max_sec_msg_size : ℕ
max_sec_msg_size = max_msg_size - tag_size - 2 - 1

-- `len` is a `uint16_t` in network order.
unfoldable pub make_aad : MessageType → ℕ → List ℕ
make_aad t len = (len / 256 % 256) ∷ (len % 256) ∷ type_code t ∷ []

-- The lowest `n` bytes of a number, as they stand in memory.
abbrev pub le_bytes : ℕ → ℕ → List ℕ
le_bytes zero v = []
le_bytes (suc n) v = (v % 256) ∷ le_bytes n (v / 256)

abbrev pub mask : List ℕ → List ℕ → List ℕ
mask [] bs = []
mask (x ∷ xs) [] = x ∷ xs
mask (x ∷ xs) (b ∷ bs) = bit_xor x b ∷ mask xs bs

unfoldable pub update_iv : ℕ → List ℕ → List ℕ
update_iv seq iv_static = mask iv_static (le_bytes 8 seq)

module _ {Cert Key Priv : Type 0} (suite : Suite Cert Key Priv) where
  -- `init`, after a constructor.
  unfoldable pub init : Cert → Priv → Channel Cert Key Priv
  init cert key = record {
    send_key = [];
    recv_key = [];
    send_iv_static = [];
    recv_iv_static = [];
    send_seq_num = 0;
    recv_seq_num = 0;
    my_id = suite.username_of cert;
    other_id = [];
    sv_nonce = 0;
    cl_nonce = 0;
    my_eph_key = none;
    other_eph_key = none;
    my_cert = cert;
    other_cert = none;
    my_priv_key = key;
    peer_authenticated = false;
  }

  unfoldable pub set_other_cert : Channel Cert Key Priv → Cert → Channel Cert Key Priv × Bool
  set_other_cert c cert =
      if suite.trusted cert
      then (record c { other_cert = some cert; other_id = suite.username_of cert }, true)
      else (c, false)

  -- What `aes_gcm_encrypt` makes of the plain text; a text without a byte is an error.
  abbrev pub as_message : Option (List ℕ × List ℕ) → Option (Message Cert Key)
  as_message none = none
  as_message (some (ct, tag)) = if length ct == 0 then none else some (secure_message ct tag)

  unfoldable pub sealed : List ℕ → List ℕ → List ℕ → Option (Message Cert Key)
  unfolding make_aad
  sealed key iv pt =
      as_message (suite.encrypt key iv (make_aad secure (length pt + tag_size + aad_size)) pt)

  -- `none` is NULL.
  unfoldable pub encrypt_msg :
      Channel Cert Key Priv → Message Cert Key → Result (Option (Message Cert Key))
  unfolding sealed update_iv
  encrypt_msg c m = if not c.peer_authenticated then ok none else (do
    pt ← written (write suite.ssl m)
    ok (
        if ltb max_sec_msg_size (length pt)
        then none
        else sealed c.send_key (update_iv c.send_seq_num c.send_iv_static) pt))

  -- The plain text of a SecureMessage.
  unfoldable pub opened : Channel Cert Key Priv → List ℕ → List ℕ → Option (List ℕ)
  unfolding make_aad update_iv
  opened c ct tag =
      suite.decrypt c.recv_key (update_iv c.recv_seq_num c.recv_iv_static)
        (make_aad secure (length ct + tag_size + aad_size)) ct tag

  abbrev pub read_plain : ℕ → Option (List ℕ) → Result (Message Cert Key)
  read_plain len none = failed
  read_plain len (some pt) = if length pt == 0 then failed else read_message suite.ssl pt len

  -- `failed` is NULL. A throw of `readMessage` is not caught here.
  unfoldable pub decrypt_msg : Channel Cert Key Priv → List ℕ → List ℕ → Result (Message Cert Key)
  decrypt_msg c ct tag =
      if not c.peer_authenticated
      then failed
      else if ltb max_sec_msg_size (length ct)
      then failed
      else read_plain (length ct) (opened c ct tag)

  -- A handed-on SecureMessage counts.
  abbrev pub counted :
      Channel Cert Key Priv
      → Result (Message Cert Key)
      → Channel Cert Key Priv × Result (Message Cert Key)
  counted c (ok m) = (record c { recv_seq_num = (c.recv_seq_num + 1) % 2 ^ 64 }, ok m)
  counted c failed = (c, failed)
  counted c raised = (c, raised)
  counted c fault = (c, fault)

  abbrev pub only_if : Bool → Message Cert Key → Result (Message Cert Key)
  only_if test m = if test then ok m else failed

  unfoldable pub handle_msg :
      Channel Cert Key Priv
      → Option (Message Cert Key)
      → Channel Cert Key Priv × Result (Message Cert Key)
  unfolding decrypt_msg
  handle_msg c none = (c, failed)
  handle_msg c (some (secure_message ct tag)) = counted c (decrypt_msg c ct tag)
  handle_msg c (some (client_hello_message key nonce my_id other_id)) = (
    c,
    only_if (c.cl_nonce == 0 && not c.peer_authenticated)
        (client_hello_message key nonce my_id other_id),
  )
  handle_msg c (some (server_hello_message key nonce my_id other_id ds)) =
      (c, only_if (not c.peer_authenticated) (server_hello_message key nonce my_id other_id ds))
  handle_msg c (some (client_verify_message ds)) =
      (c, only_if (not c.peer_authenticated) (client_verify_message ds))
  handle_msg c (some (certificate_message cert)) = (c, ok (certificate_message cert))
  handle_msg c (some certificate_request_message) = (c, ok certificate_request_message)
  handle_msg c (some m) = (c, failed)

  abbrev pub hand_over :
      Channel Cert Key Priv
      → (Message Cert Key → Bool)
      → Option (Message Cert Key)
      → Channel Cert Key Priv × Option (Message Cert Key) × Bool
  hand_over c send none = (c, none, false)
  hand_over c send (some sm) =
      if send sm
      then (record c { send_seq_num = (c.send_seq_num + 1) % 2 ^ 64 }, some sm, true)
      else (c, some sm, false)

  -- `sendMsg`, with what the socket's own `sendMsg` answers: the message that goes out, if any, and
  -- whether the result is 0.
  unfoldable pub send_msg :
      Channel Cert Key Priv
      → Message Cert Key
      → (Message Cert Key → Bool)
      → Result (Channel Cert Key Priv × Option (Message Cert Key) × Bool)
  send_msg c m send = do sm ← encrypt_msg c m; ok (hand_over c send sm)
