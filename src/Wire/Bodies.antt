-- ===== src/Wire/Bodies.antt =====
-- The `read` methods of src/network/messages.cpp on the fields that the `write` methods lay out.
use four_in_a_row.Base.{
  ℕ, ◌+◌, ◌%◌, ◌^◌, ◌<◌, ◌≡◌, refl, Bool, Option, some, List, [], ◌∷◌, ◌++◌, if◌then◌else◌, length,
  append-nil, length-append, take-append, take, drop, ◌-◌, arith,
}
use four_in_a_row.Wire.Result.{ok}
use four_in_a_row.Wire.Buffer.{bytes4}
use four_in_a_row.Wire.Fields.{SockAddr, Ssl, SslLaws, read_username, buf_to_der}
use four_in_a_row.Wire.Reads.{
  IsName, name_field, cursor, length-name_field, read_uint8-Reads, read_uint16-Reads,
  read_uint32-Reads, read_bool-Reads, read_buf-Reads, read_username-Reads, read_sock_addr-Reads,
}
use four_in_a_row.Wire.Layout.{port_field}
use four_in_a_row.Wire.Message.{
  secure_message, client_hello_message, server_hello_message, client_verify_message, move_message,
  users_list_request_message, challenge_response_message, game_start_message, certificate_message,
}
use four_in_a_row.Wire.Message.Read.{
  read_move, read_users_list_request, read_challenge_response, read_secure, read_client_verify,
  read_game_start, read_client_hello, read_server_hello, read_certificate,
}

module _ (len : ℕ) (more : List ℕ) (w : len < 2 ^ 16) where
  pub name_back :
      (u : List ℕ)
      → IsName u
      → len ≡ 18
      → read_username (cursor len 1 (name_field u ++ more)) ≡ ok (u, cursor len 18 more)
  name_back u v e =
      read_username-Reads u v len 1 18 more (omega (arith, length-name_field u v.fits))
        (omega arith) w

module _ (len : ℕ) (more : List ℕ) where
  pub der_back :
      {A : Type 0} (d2i : List ℕ → Option A) (der : List ℕ) (a : A) (pos : ℕ)
      → d2i der ≡ some a
      → len ≡ pos + length der
      → buf_to_der d2i (cursor len pos (der ++ more))
        ≡ ok (a, record { len = len; pos = pos + 1; rest = drop 1 (der ++ more) })
  unfolding buf_to_der
  der_back d2i der a pos h e =
      let all : take (len - pos) (der ++ more) ≡ der =
        let n : len - pos ≡ length der = omega arith in rw n (take-append der more) in
      ground (arith, all, length-append der more)

module _ {Cert Key : Type 0} where
  module _ (len : ℕ) (more : List ℕ) (w : len < 2 ^ 16) where
    pub challenge_response_back :
        (u : List ℕ) (r : Bool) (p : ℕ)
        → IsName u
        → p < 2 ^ 16
        → len ≡ 21
        → read_challenge_response {Cert = Cert} {Key = Key}
            (cursor len 1 ((if r then 1 else 0) ∷ (port_field p ++ (name_field u ++ more))))
          ≡ ok (challenge_response_message u r p)
    unfolding read_challenge_response
    challenge_response_back u r p v hp e = rw (
      read_bool-Reads r len 1 2 (port_field p ++ (name_field u ++ more)) refl (omega arith) w,
      read_uint16-Reads p hp len 2 4 (name_field u ++ more) refl (omega arith) w,
      read_username-Reads u v len 4 21 more (omega (arith, length-name_field u v.fits))
          (omega arith) w,
    )

    pub move_back :
        (col : ℕ)
        → col < 256
        → len ≡ 2
        → read_move {Cert = Cert} {Key = Key} (cursor len 1 ((col % 256) ∷ more))
          ≡ ok (move_message col)
    unfolding read_move
    move_back col h e = rw (read_uint8-Reads col h len 1 2 more refl (omega arith) w)

    pub users_list_request_back :
        (n : ℕ)
        → n < 2 ^ 32
        → len ≡ 5
        → read_users_list_request {Cert = Cert} {Key = Key} (cursor len 1 (bytes4 n ++ more))
          ≡ ok (users_list_request_message n)
    unfolding read_users_list_request
    users_list_request_back n h e = rw (read_uint32-Reads n h len 1 5 more refl (omega arith) w)

    pub secure_back :
        (ct tag : List ℕ)
        → length tag ≡ 16
        → len ≡ 1 + length ct + 16
        → read_secure {Cert = Cert} {Key = Key} (cursor len 1 (ct ++ (tag ++ more)))
          ≡ ok (secure_message ct tag)
    unfolding read_secure
    secure_back ct tag h e = rw (
      read_buf-Reads ct ((2 ^ 16 + len - 1 - 16) % 2 ^ 16) (omega arith) len 1 (1 + length ct)
          (tag ++ more) (omega arith) (omega arith) w,
      read_buf-Reads tag 16 (omega arith) len (1 + length ct) len more (omega arith) (omega arith)
          w,
    )

    pub client_verify_back :
        (ds : List ℕ)
        → len ≡ 5 + length ds
        → read_client_verify {Cert = Cert} {Key = Key}
            (cursor len 1 (bytes4 (length ds) ++ (ds ++ more)))
          ≡ ok (client_verify_message ds)
    unfolding read_client_verify
    client_verify_back ds e = rw (
      read_uint32-Reads (length ds) (omega arith) len 1 5 (ds ++ more) refl (omega arith) w,
      read_buf-Reads ds (length ds) refl len 5 len more (omega arith) (omega arith) w,
    )

  module _ (ssl : Ssl Cert Key) (laws : SslLaws ssl) (len : ℕ) (more : List ℕ)
      (w : len < 2 ^ 16) where
    x509_whole : (c : Cert) (der : List ℕ) → ssl.i2d_x509 c ≡ some der → ssl.d2i_x509 der ≡ some c
    x509_whole c der e = rw append-nil at (laws.x509_back c der [] e)

    pubkey_whole :
        (k : Key) (der : List ℕ) → ssl.i2d_pubkey k ≡ some der → ssl.d2i_pubkey der ≡ some k
    pubkey_whole k der e = rw append-nil at (laws.pubkey_back k der [] e)

    pub certificate_back :
        (cert : Cert) (der : List ℕ)
        → ssl.i2d_x509 cert ≡ some der
        → len ≡ 1 + length der
        → read_certificate ssl (cursor len 1 (der ++ more)) ≡ ok (certificate_message cert)
    unfolding read_certificate
    certificate_back cert der h e =
        rw (der_back len more ssl.d2i_x509 der cert 1 (x509_whole cert der h) e)

    pub game_start_back :
        (u : List ℕ) (a : SockAddr) (cert : Cert) (der : List ℕ)
        → IsName u
        → a.s_addr < 2 ^ 32
        → a.sin_port < 2 ^ 16
        → ssl.i2d_x509 cert ≡ some der
        → len ≡ 24 + length der
        → read_game_start ssl (
            cursor len 1
              (bytes4 a.s_addr ++ (port_field a.sin_port ++ (name_field u ++ (der ++ more)))))
          ≡ ok (game_start_message u a cert)
    unfolding read_game_start
    game_start_back u a cert der v ha hp h e = rw (
      read_sock_addr-Reads a ha hp len 1 7 (name_field u ++ (der ++ more)) refl (omega arith) w,
      read_username-Reads u v len 7 24 (der ++ more) (omega (arith, length-name_field u v.fits))
          (omega arith) w,
      der_back len more ssl.d2i_x509 der cert 24 (x509_whole cert der h) e,
    )

    pub client_hello_back :
        (key : Key) (nonce : ℕ) (u v der : List ℕ)
        → IsName u
        → IsName v
        → nonce < 2 ^ 32
        → ssl.i2d_pubkey key ≡ some der
        → len ≡ 39 + length der
        → read_client_hello ssl
            (cursor len 1 (bytes4 nonce ++ (name_field u ++ (name_field v ++ (der ++ more)))))
          ≡ ok (client_hello_message key nonce u v)
    unfolding read_client_hello
    client_hello_back key nonce u v der hu hv hn h e = rw (
      read_uint32-Reads nonce hn len 1 5 (name_field u ++ (name_field v ++ (der ++ more))) refl
          (omega arith) w,
      read_username-Reads u hu len 5 22 (name_field v ++ (der ++ more))
          (omega (arith, length-name_field u hu.fits)) (omega arith) w,
      read_username-Reads v hv len 22 39 (der ++ more) (omega (arith, length-name_field v hv.fits))
          (omega arith) w,
      der_back len more ssl.d2i_pubkey der key 39 (pubkey_whole key der h) e,
    )

    pub server_hello_back :
        (key : Key) (nonce : ℕ) (u v ds der : List ℕ)
        → IsName u
        → IsName v
        → nonce < 2 ^ 32
        → ssl.i2d_pubkey key ≡ some der
        → len ≡ 43 + length ds + length der
        → read_server_hello ssl (
            cursor len 1 (
              bytes4 nonce
              ++ (name_field u ++ (name_field v ++ (bytes4 (length ds) ++ (ds ++ (der ++ more)))))))
          ≡ ok (server_hello_message key nonce u v ds)
    unfolding read_server_hello
    server_hello_back key nonce u v ds der hu hv hn h e = rw (
      read_uint32-Reads nonce hn len 1 5
          (name_field u ++ (name_field v ++ (bytes4 (length ds) ++ (ds ++ (der ++ more))))) refl
          (omega arith) w,
      read_username-Reads u hu len 5 22
          (name_field v ++ (bytes4 (length ds) ++ (ds ++ (der ++ more))))
          (omega (arith, length-name_field u hu.fits)) (omega arith) w,
      read_username-Reads v hv len 22 39 (bytes4 (length ds) ++ (ds ++ (der ++ more)))
          (omega (arith, length-name_field v hv.fits)) (omega arith) w,
      read_uint32-Reads (length ds) (omega arith) len 39 43 (ds ++ (der ++ more)) refl (omega arith)
          w,
      read_buf-Reads ds (length ds) refl len 43 (43 + length ds) (der ++ more) refl (omega arith) w,
      der_back len more ssl.d2i_pubkey der key (43 + length ds) (pubkey_whole key der h) e,
    )
