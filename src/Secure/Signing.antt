-- ===== src/Secure/Signing.antt =====
-- What both sides of a handshake of src/security/secure_socket_wrapper.cpp sign and derive.
use four_in_a_row.Base.{
  ℕ, ◌+◌, ◌-◌, ◌≤◌, ◌<◌, ◌≡◌, ◌≢◌, refl, true, false, Option, some, List, [], ◌∷◌, ◌++◌, ltb, ◌==◌,
  length, take, replicate, min, length-append, length-take, length-replicate, arith,
}
use four_in_a_row.Wire.Result.{ok}
use four_in_a_row.Wire.Fields.{c_str}
use four_in_a_row.Wire.Message.{Message}
use four_in_a_row.Secure.{Suite, Channel, le_bytes}
use four_in_a_row.Secure.Handshake.{
  Role, other_role, key_label, iv_label, signed_name, put_key, hkdf, shared_secret, generate_keys,
  msg_to_sign, build_msg_to_sign, make_signature, check_signature, with_signature,
}

length-signed_name : (id : List ℕ) → length (signed_name id) ≤ 16
unfolding signed_name
length-signed_name id =
    let size = min (length id) 16 in
    omega (
      arith,
      length-append (take size (c_str id)) (replicate (size - length (c_str id)) 0),
      length-take size (c_str id),
      length-replicate {A = ℕ} (size - length (c_str id)) 0,
    )

put_key-ok :
    {Key : Type 0} (i2d : Key → Option (List ℕ)) (out der : List ℕ) (key : Key)
    → i2d key ≡ some der
    → 0 < length der
    → length out + length der ≤ 552
    → put_key i2d out (some key) ≡ ok (out ++ der)
unfolding put_key
put_key-ok i2d out der key e pos fits =
    let room : ltb (552 - length out) (length der) ≡ false = ground arith in
    let filled : (length der == 0) ≡ false = ground arith in rw (e, room, filled) refl

module _ {Cert Key Priv : Type 0} (suite : Suite Cert Key Priv) where
  -- A certificate and the key that belongs to it: what the key signs, the certificate verifies.
  pub record Signer (cert : Cert) (key : Priv) : Type 0 where
    pub ds : List ℕ → List ℕ
    pub signs : (msg : List ℕ) → suite.sign key msg ≡ ok (ds msg)
    pub some_ds : (msg : List ℕ) → ds msg ≢ []
    pub verifies : (msg : List ℕ) → suite.verify cert msg (ds msg) ≡ true

  -- A public key that OpenSSL can encode in up to `KEY_BIO_MAX_SIZE` bytes.
  pub record Encodes (key : Key) : Type 0 where
    pub der : List ℕ
    pub encoded : (suite.ssl).i2d_pubkey key ≡ some der
    pub filled : 0 < length der
    pub fits : length der ≤ 256

  -- What both sides sign.
  abbrev pub both_sign : List ℕ → List ℕ → ℕ → ℕ → List ℕ → List ℕ → List ℕ
  both_sign a b cl_nonce sv_nonce da db =
      ((signed_name a ++ (signed_name b ++ (le_bytes 4 cl_nonce ++ le_bytes 4 sv_nonce))) ++ da)
      ++ db

  pub msg_to_sign-ok :
      (a b : List ℕ) (n k : ℕ) (x y : Key) (ex : Encodes x) (ey : Encodes y)
      → msg_to_sign suite a b n k (some x) (some y) ≡ ok (both_sign a b n k ex.der ey.der)
  unfolding msg_to_sign
  msg_to_sign-ok a b n k x y ex ey =
      let names = signed_name a ++ (signed_name b ++ (le_bytes 4 n ++ le_bytes 4 k)) in
      let short : length names ≤ 40 = omega (
        arith,
        length-append (signed_name a) (signed_name b ++ (le_bytes 4 n ++ le_bytes 4 k)),
        length-append (signed_name b) (le_bytes 4 n ++ le_bytes 4 k),
        length-signed_name a,
        length-signed_name b,
      ) in
      rw (
        put_key-ok (suite.ssl).i2d_pubkey names ex.der x ex.encoded ex.filled
            (omega (arith, short, ex.fits)),
        put_key-ok (suite.ssl).i2d_pubkey (names ++ ex.der) ey.der y ey.encoded ey.filled
            (omega (arith, short, ex.fits, ey.fits, length-append names ex.der)),
      )

  -- The channel with the keys of its role.
  abbrev pub keyed : (List ℕ → ℕ → List ℕ) → Role → Channel Cert Key Priv → Channel Cert Key Priv
  keyed kdf role c =
      let info = λ (label : List ℕ). label ++ (le_bytes 4 c.sv_nonce ++ le_bytes 4 c.cl_nonce) in
      record c {
        send_key = kdf (info (key_label role)) 16;
        recv_key = kdf (info (key_label (other_role role))) 16;
        send_iv_static = kdf (info (iv_label role)) 12;
        recv_iv_static = kdf (info (iv_label (other_role role))) 12;
      }

  pub generate_keys-ok :
      (role : Role) (c : Channel Cert Key Priv) (z : List ℕ) (kdf : List ℕ → ℕ → List ℕ)
      → shared_secret suite c.my_eph_key c.other_eph_key ≡ ok z
      → ((info : List ℕ) (n : ℕ) → suite.hkdf_one_info z info n ≡ ok (kdf info n))
      → generate_keys suite role c ≡ ok (keyed kdf role c)
  unfolding generate_keys hkdf
  generate_keys-ok role c z kdf e k = rw (e, k, k, k, k) refl

  pub make_signature-ok :
      (role : Role) (c : Channel Cert Key Priv) (msg : List ℕ) (cert : Cert)
      (g : Signer cert c.my_priv_key)
      → build_msg_to_sign suite role c ≡ ok msg
      → make_signature suite role c ≡ ok (some (g.ds msg))
  unfolding make_signature
  make_signature-ok role c msg cert g e = rw (e, g.signs msg) refl

  pub check_signature-ok :
      (role : Role) (c : Channel Cert Key Priv) (msg : List ℕ) (cert : Cert) (key : Priv)
      (g : Signer cert key)
      → c.other_cert ≡ some cert
      → build_msg_to_sign suite role c ≡ ok msg
      → check_signature suite (g.ds msg) role c ≡ ok true
  unfolding check_signature
  check_signature-ok role c msg cert key g e b = rw (b, e, g.verifies msg) refl

  pub with_signature-some :
      (c : Channel Cert Key Priv) (ds : List ℕ) (m : List ℕ → Message Cert Key)
      → ds ≢ []
      → with_signature suite (λ m. true) c (some ds) m ≡ ok (c, some (m ds), true)
  with_signature-some c [] m ne = absurd (ne refl)
  with_signature-some c (d ∷ ds) m ne = refl
