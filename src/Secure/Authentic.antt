-- ===== src/Secure/Authentic.antt =====
-- When the handshake of src/security/secure_socket_wrapper.cpp takes the peer as authenticated.
use four_in_a_row.Base.{
  ℕ, ◌≡◌, refl, inl, inr, Bool, true, false, Option, none, some, List, Bool-cases, arith,
}
use four_in_a_row.Wire.Result.{Result, ok, failed, raised, fault, >>=-eq-ok}
use four_in_a_row.Wire.Message.{Message}
use four_in_a_row.Secure.{Suite, Channel}
use four_in_a_row.Secure.Handshake.{
  Role, client, server, hkdf, shared_secret, generate_keys, build_msg_to_sign, verified_by,
  check_signature, other_role, key_label, iv_label, key_size, iv_size, handle_server_hello,
  handle_client_verify,
}

module _ {Cert Key Priv : Type 0} (suite : Suite Cert Key Priv) where
  -- The peer's certificate verifies the signature of what the role has to sign.
  pub record Verified (role : Role) (c : Channel Cert Key Priv) (ds : List ℕ) : Type 0 where
    pub cert : Cert
    pub known : c.other_cert ≡ some cert
    pub msg : List ℕ
    pub built : build_msg_to_sign suite role c ≡ ok msg
    pub verified : suite.verify cert msg ds ≡ true

  pub generate_keys-same :
      (role : Role) (c c' : Channel Cert Key Priv)
      → generate_keys suite role c ≡ ok c'
      → (c'.peer_authenticated ≡ c.peer_authenticated) × (c'.other_cert ≡ c.other_cert)
  unfolding generate_keys
  generate_keys-same role c c' e =
      let (secret, a, f) = >>=-eq-ok (shared_secret suite c.my_eph_key c.other_eph_key) _ e in
      let (send_key, _, g) =
        >>=-eq-ok (hkdf suite secret c.sv_nonce c.cl_nonce (key_label role) key_size) _ f in
      let (recv_key, _, h) =
        >>=-eq-ok (hkdf suite secret c.sv_nonce c.cl_nonce (key_label (other_role role)) key_size) _
          g in
      let (send_iv, _, i) =
        >>=-eq-ok (hkdf suite secret c.sv_nonce c.cl_nonce (iv_label role) iv_size) _ h in
      let (recv_iv, _, j) =
        >>=-eq-ok (hkdf suite secret c.sv_nonce c.cl_nonce (iv_label (other_role role)) iv_size) _
          i in
      (ground arith, ground arith)

  verified_by-true :
      (o : Option Cert) (ds : List ℕ) (r : Result (List ℕ))
      → verified_by suite o ds r ≡ ok true
      → (cert : Cert) × (msg : List ℕ) × (o ≡ some cert)
        × (r ≡ ok msg)
        × (suite.verify cert msg ds ≡ true)
  verified_by-true none ds (ok msg) e = absurd (ground arith)
  verified_by-true (some cert) ds (ok msg) e = (cert, msg, refl, refl, ground arith)
  verified_by-true none ds failed e = absurd (ground arith)
  verified_by-true none ds raised e = absurd (ground arith)
  verified_by-true none ds fault e = absurd (ground arith)
  verified_by-true (some cert) ds failed e = absurd (ground arith)
  verified_by-true (some cert) ds raised e = absurd (ground arith)
  verified_by-true (some cert) ds fault e = absurd (ground arith)

  pub check_signature-Verified :
      (role : Role) (c : Channel Cert Key Priv) (ds : List ℕ)
      → check_signature suite ds role c ≡ ok true
      → Verified role c ds
  unfolding check_signature
  check_signature-Verified role c ds e =
      let (cert, msg, known, built, verified) = verified_by-true c.other_cert ds _ e in
      record { cert = cert; known = known; msg = msg; built = built; verified = verified }

  -- A side that has not authenticated its peer takes the server as authenticated in `handleServerHello`
  -- only if the keys have been made and, under them, the certificate of the server verifies the
  -- signature of the client's message to sign.
  pub client_authenticates :
      (c c' : Channel Cert Key Priv) (key : Key) (nonce : ℕ) (ds : List ℕ)
      (o : Option (Message Cert Key)) (b : Bool) (send : Message Cert Key → Bool)
      → c.peer_authenticated ≡ false
      → handle_server_hello suite send c key nonce ds ≡ ok (c', o, b)
      → c'.peer_authenticated ≡ true
      → (k : Channel Cert Key Priv) × (generate_keys suite client
            (record c { sv_nonce = nonce; other_eph_key = some key })
          ≡ ok k)
        × Verified client k ds
  unfolding handle_server_hello
  client_authenticates c c' key nonce ds o b send out e in_now =
      let (k, keys, f) =
        >>=-eq-ok
          (generate_keys suite client (record c { sv_nonce = nonce; other_eph_key = some key })) _
          e in
      let (good, checked, g) = >>=-eq-ok (check_signature suite ds client k) _ f in
      elim (Bool-cases good) [
        | inl yes_good ↦ (k, keys, check_signature-Verified client k ds (rw yes_good at checked))
        | inr bad ↦
            let h = (rw bad at g) in
            let same = (generate_keys-same client _ k keys).0 in absurd (ground arith)
      ]

  -- A side that has not authenticated its peer takes the client as authenticated in
  -- `handleClientVerify` only if the certificate of the client verifies the signature of the message
  -- to sign.
  pub server_authenticates :
      (c c' : Channel Cert Key Priv) (ds : List ℕ) (b : Bool)
      → c.peer_authenticated ≡ false
      → handle_client_verify suite c ds ≡ ok (c', b)
      → c'.peer_authenticated ≡ true
      → Verified server c ds
  unfolding handle_client_verify
  server_authenticates c c' ds b out e in_now =
      let (good, checked, g) = >>=-eq-ok (check_signature suite ds server c) _ e in
      elim (Bool-cases good) [
        | inl yes_good ↦ check_signature-Verified server c ds (rw yes_good at checked)
        | inr bad ↦ let h = (rw bad at g) in absurd (ground arith)
      ]
