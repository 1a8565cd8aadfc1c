-- ===== src/Secure/Handshake.antt =====
-- The handshake of src/security/secure_socket_wrapper.cpp, and `hkdf` of src/security/crypto.cpp.
use four_in_a_row.Base.{
  ℕ, ◌-◌, ◌==◌, Bool, true, false, Option, none, some, List, [], ◌∷◌, ◌++◌, ltb, if◌then◌else◌,
  length, take, replicate, min,
}
use four_in_a_row.Wire.Result.{Result, ok, failed, raised, fault, ◌>>=◌}
use four_in_a_row.Wire.Fields.{c_str, max_username_length}
use four_in_a_row.Wire.Message.{
  Message, client_hello_message, server_hello_message, client_verify_message,
}
use four_in_a_row.Secure.{Suite, Channel, le_bytes}

pub data Role : Type 0 where
  client server : Role

abbrev pub other_role : Role → Role
other_role client = server
other_role server = client

-- The strings "client" and "server", and "key_" and "iv__" in front of them.
abbrev pub role_name : Role → List ℕ
role_name client = b'c' ∷ b'l' ∷ b'i' ∷ b'e' ∷ b'n' ∷ b't' ∷ []
role_name server = b's' ∷ b'e' ∷ b'r' ∷ b'v' ∷ b'e' ∷ b'r' ∷ []

abbrev pub key_label : Role → List ℕ
key_label r = b'k' ∷ b'e' ∷ b'y' ∷ b'_' ∷ role_name r

abbrev pub iv_label : Role → List ℕ
iv_label r = b'i' ∷ b'v' ∷ b'_' ∷ b'_' ∷ role_name r

abbrev pub key_size : ℕ
key_size = 16

abbrev pub iv_size : ℕ
iv_size = 12

abbrev pub max_msg_to_sign_size : ℕ
max_msg_to_sign_size = 552

-- A name in the message to sign: `strncpy` fills up with zeros.
unfoldable pub signed_name : List ℕ → List ℕ
signed_name id =
    let size = min (length id) max_username_length in
    take size (c_str id) ++ replicate (size - length (c_str id)) 0

-- `pkey2buf` behind the bytes `out`, with its result as a `size_t`: NULL and an encoding without a
-- byte give 0, and a short buffer gives -1, which takes the index one back.
abbrev pub put_der : List ℕ → Option (List ℕ) → Result (List ℕ)
put_der out none = raised
put_der out (some der) =
    if ltb (max_msg_to_sign_size - length out) (length der)
    then ok (take (length out - 1) out)
    else if length der == 0
    then failed
    else ok (out ++ der)

unfoldable pub put_key :
    {Key : Type 0} → (Key → Option (List ℕ)) → List ℕ → Option Key → Result (List ℕ)
put_key i2d out none = failed
put_key i2d out (some key) = put_der out (i2d key)

module _ {Cert Key Priv : Type 0} (suite : Suite Cert Key Priv) where
  unfoldable pub hkdf : List ℕ → ℕ → ℕ → List ℕ → ℕ → Result (List ℕ)
  hkdf secret nonce1 nonce2 label n =
      suite.hkdf_one_info secret (label ++ (le_bytes 4 nonce1 ++ le_bytes 4 nonce2)) n

  abbrev pub my_public : Channel Cert Key Priv → Option Key
  my_public c = elim c.my_eph_key [ none ↦ none | some k ↦ some (suite.public k) ]

  -- The shared secret; a missing key is an error of OpenSSL.
  unfoldable pub shared_secret : Option Priv → Option Key → Result (List ℕ)
  shared_secret (some mine) (some theirs) = suite.derive mine theirs
  shared_secret (some mine) none = raised
  shared_secret none theirs = raised

  unfoldable pub generate_keys : Role → Channel Cert Key Priv → Result (Channel Cert Key Priv)
  unfolding hkdf shared_secret
  generate_keys role c = do
    secret ← shared_secret c.my_eph_key c.other_eph_key
    send_key ← hkdf secret c.sv_nonce c.cl_nonce (key_label role) key_size
    recv_key ← hkdf secret c.sv_nonce c.cl_nonce (key_label (other_role role)) key_size
    send_iv ← hkdf secret c.sv_nonce c.cl_nonce (iv_label role) iv_size
    recv_iv ← hkdf secret c.sv_nonce c.cl_nonce (iv_label (other_role role)) iv_size
    ok (record c {
      send_key = send_key;
      recv_key = recv_key;
      send_iv_static = send_iv;
      recv_iv_static = recv_iv;
    })

  -- The bytes of both roles: first the client's name, then the server's, the nonces and the keys.
  unfoldable pub msg_to_sign : List ℕ → List ℕ → ℕ → ℕ → Option Key → Option Key → Result (List ℕ)
  msg_to_sign a b cl_nonce sv_nonce a_key b_key = do
    out ←
        put_key (suite.ssl).i2d_pubkey
          (signed_name a ++ (signed_name b ++ (le_bytes 4 cl_nonce ++ le_bytes 4 sv_nonce))) a_key
    put_key (suite.ssl).i2d_pubkey out b_key

  unfoldable pub build_msg_to_sign : Role → Channel Cert Key Priv → Result (List ℕ)
  build_msg_to_sign server c =
      msg_to_sign c.other_id c.my_id c.cl_nonce c.sv_nonce c.other_eph_key (my_public c)
  build_msg_to_sign client c =
      msg_to_sign c.my_id c.other_id c.cl_nonce c.sv_nonce (my_public c) c.other_eph_key

  abbrev pub signed_by : Priv → Result (List ℕ) → Result (Option (List ℕ))
  signed_by key (ok msg) = do ds ← suite.sign key msg; ok (some ds)
  signed_by key failed = ok none
  signed_by key raised = raised
  signed_by key fault = fault

  -- `none` is the result -1.
  unfoldable pub make_signature : Role → Channel Cert Key Priv → Result (Option (List ℕ))
  make_signature role c = signed_by c.my_priv_key (build_msg_to_sign role c)

  -- Without a certificate of the peer OpenSSL has no key to verify with.
  abbrev pub verified_by : Option Cert → List ℕ → Result (List ℕ) → Result Bool
  verified_by none ds (ok msg) = ok false
  verified_by (some cert) ds (ok msg) = ok (suite.verify cert msg ds)
  verified_by cert ds failed = ok false
  verified_by cert ds raised = raised
  verified_by cert ds fault = fault

  unfoldable pub check_signature : List ℕ → Role → Channel Cert Key Priv → Result Bool
  check_signature ds role c = verified_by c.other_cert ds (build_msg_to_sign role c)

  -- The channel, the message that goes out, if any, and whether the result is 0.
  abbrev pub Sent : Type 0
  Sent = Result (Channel Cert Key Priv × Option (Message Cert Key) × Bool)

  module _ (send : Message Cert Key → Bool) where
    abbrev plain : Channel Cert Key Priv → Message Cert Key → Sent
    plain c m = ok (c, some m, send m)

    -- With the nonce and the key pair that `get_rand` and `get_ecdh_key` give.
    unfoldable pub send_client_hello : Channel Cert Key Priv → ℕ → Priv → Sent
    send_client_hello c nonce eph =
        let c' = record c { cl_nonce = nonce; my_eph_key = some eph } in
        plain c' (client_hello_message (suite.public eph) nonce c.my_id c.other_id)

    -- A signature without a byte has the result 0, and nothing is sent.
    abbrev pub with_signature :
        Channel Cert Key Priv → Option (List ℕ) → (List ℕ → Message Cert Key) → Sent
    with_signature c none m = ok (c, none, false)
    with_signature c (some []) m = ok (c, none, true)
    with_signature c (some (d ∷ ds)) m = plain c (m (d ∷ ds))

    unfoldable pub send_server_hello : Channel Cert Key Priv → ℕ → Priv → Sent
    send_server_hello c nonce eph = do
      c' ← generate_keys server (record c { sv_nonce = nonce; my_eph_key = some eph })
      ds ← make_signature server c'
      with_signature c' ds (server_hello_message (suite.public eph) nonce c.my_id c.other_id)

    unfoldable pub send_client_verify : Channel Cert Key Priv → Sent
    send_client_verify c = do
      ds ← make_signature client c
      with_signature c ds client_verify_message

    unfoldable pub handle_client_hello : Channel Cert Key Priv → Key → ℕ → ℕ → Priv → Sent
    handle_client_hello c key nonce sv_nonce eph =
        send_server_hello (record c { cl_nonce = nonce; other_eph_key = some key }) sv_nonce eph

    unfoldable pub handle_server_hello : Channel Cert Key Priv → Key → ℕ → List ℕ → Sent
    handle_server_hello c key nonce ds = do
      c' ← generate_keys client (record c { sv_nonce = nonce; other_eph_key = some key })
      good ← check_signature ds client c'
      if good
          then send_client_verify (record c' { peer_authenticated = true })
          else ok (c', none, false)

  unfoldable pub handle_client_verify :
      Channel Cert Key Priv → List ℕ → Result (Channel Cert Key Priv × Bool)
  handle_client_verify c ds = do
    good ← check_signature ds server c
    ok (if good then (record c { peer_authenticated = true }, true) else (c, false))
