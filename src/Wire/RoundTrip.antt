-- ===== src/Wire/RoundTrip.antt =====
-- `readMessage` gives back what a `write` method of src/network/messages.cpp wrote.
use four_in_a_row.Base.{
  ℕ, ◌+◌, ◌≤◌, ◌<◌, ◌^◌, ◌≡◌, ◌↔◌, ◌≢◌, refl, inl, inr, Option, none, some, List, ◌++◌, length,
  append_assoc, length-append, Option-cases, arith,
}
use four_in_a_row.Wire.Result.{Result, ok, ◌>>=◌, >>=-eq-ok}
use four_in_a_row.Wire.Buffer.{bytes4, write_uint32, write_buf}
use four_in_a_row.Wire.Fields.{Ssl, SslLaws, der_to_buf, write_username, write_sock_addr}
use four_in_a_row.Wire.Reads.{name_field, length-name_field}
use four_in_a_row.Wire.Total.{encoded, write_fits}
use four_in_a_row.Wire.Layout.{WellFormed, layout, write-Yields}
use four_in_a_row.Wire.Bodies.{
  name_back, move_back, users_list_request_back, secure_back, client_verify_back,
  challenge_response_back, certificate_back, game_start_back, client_hello_back, server_hello_back,
}
use four_in_a_row.Wire.Message.{
  Message, secure_message, client_hello_message, server_hello_message, client_verify_message,
  start_game_message, move_message, register_message, challenge_message, game_end_message,
  users_list_message, users_list_request_message, challenge_forward_message,
  challenge_response_message, game_start_message, game_cancel_message, certificate_request_message,
  certificate_message, get_type, certificate, game_start, client_hello, server_hello,
}
use four_in_a_row.Wire.Message.Write.{
  emit, write, write_type, max_msg_size, write_game_start, write_client_hello, write_server_hello,
  write_certificate,
}
use four_in_a_row.Wire.Message.Read.{
  read_message, read_body, read_register, read_challenge, read_challenge_forward, read_game_cancel,
}

assoc_three : (a b c more : List ℕ) → (a ++ (b ++ c)) ++ more ≡ a ++ (b ++ (c ++ more))
assoc_three a b c more = simp append_assoc

assoc_five :
    (a b c d e more : List ℕ)
    → (a ++ (b ++ (c ++ (d ++ e)))) ++ more ≡ a ++ (b ++ (c ++ (d ++ (e ++ more))))
assoc_five a b c d e more = simp append_assoc

length_behind : (u xs : List ℕ) → length u ≤ 16 → length (name_field u ++ xs) ≡ 17 + length xs
length_behind u xs h = omega (arith, length-append (name_field u) xs, length-name_field u h)

abbrev Never : Result (List ℕ) → Type 0
Never m = (z : List ℕ) → m ≢ ok z

bind-Never :
    (m : Result (List ℕ)) (k : List ℕ → Result (List ℕ))
    → ((out : List ℕ) → Never (k out))
    → Never (m >>= k)
bind-Never m k f z e = let (a, p, q) = >>=-eq-ok m k e in f a z q

-- A value that OpenSSL cannot encode makes the field throw.
emit-der : (o : Option (List ℕ)) → o ≡ none → (out : List ℕ) → Never (emit out (der_to_buf o))
unfolding emit der_to_buf
emit-der none h out z e = cc
emit-der (some der) h out z e = cc

module _ {Cert Key : Type 0} (ssl : Ssl Cert Key) where
  unencoded : (m : Message Cert Key) → encoded ssl m ≡ none → Never (write ssl m)
  unfolding write write_certificate write_game_start write_client_hello write_server_hello
  unencoded (certificate_message cert) h = bind-Never (write_type certificate) _ (emit-der _ h)
  unencoded (game_start_message username addr cert) h = bind-Never (write_type game_start) _ (λ o.
      bind-Never (emit o (write_sock_addr addr)) _
        (λ o. bind-Never (emit o (write_username username)) _ (emit-der _ h)))
  unencoded (client_hello_message key nonce my_id other_id) h =
      bind-Never (write_type client_hello) _ (λ o. bind-Never (emit o (write_uint32 nonce)) _ (λ o.
        bind-Never (emit o (write_username my_id)) _
          (λ o. bind-Never (emit o (write_username other_id)) _ (emit-der _ h))))
  unencoded (server_hello_message key nonce my_id other_id ds) h =
      bind-Never (write_type server_hello) _ (λ o. bind-Never (emit o (write_uint32 nonce)) _ (λ o.
        bind-Never (emit o (write_username my_id)) _ (λ o.
          bind-Never (emit o (write_username other_id)) _ (λ o.
            bind-Never (emit o (write_uint32 (length ds))) _
              (λ o. bind-Never (emit o (write_buf ds)) _ (emit-der _ h))))))
  unencoded _ h = absurd (cc)

  -- A well-formed message other than a list of users is written exactly when OpenSSL can encode its
  -- certificate or key and it fits the buffer; then the bytes are its type and its fields.
  pub write_iff :
      (m : Message Cert Key) (bs : List ℕ)
      → WellFormed m
      → (write ssl m ≡ ok bs) ↔ (
          (bs ≡ layout ssl m)
          × (length (layout ssl m) ≤ max_msg_size)
          × (der : List ℕ) × (encoded ssl m ≡ some der))
  write_iff m bs v = (
    λ e.
        let (same, fits) = write-Yields ssl m v bs e in
        elim (Option-cases (encoded ssl m)) [
          | inl h ↦ absurd (unencoded m h bs e)
          | inr (der, h) ↦ (same, fits, der, h)
        ],
    λ p. let (same, fits, der, h) = p in rw same (write_fits ssl m der v h fits),
  )

  module _ (laws : SslLaws ssl) where
    layout_back :
        (m : Message Cert Key) (der more : List ℕ)
        → WellFormed m
        → encoded ssl m ≡ some der
        → length (layout ssl m) < 2 ^ 16
        → read_message ssl (layout ssl m ++ more) (length (layout ssl m)) ≡ ok m
    unfolding read_message read_body get_type read_register read_challenge read_challenge_forward
        read_game_cancel
    layout_back (secure_message ct tag) der more v h w =
        rw append_assoc (secure_back _ more w ct tag v (omega (arith, length-append ct tag)))
    layout_back (client_hello_message key nonce u u') der more v h w =
        rw (h, assoc_three (name_field u) (name_field u') der more)
          (client_hello_back ssl laws _ more (rw h at w) key nonce u u' der v.1 v.2 v.0 h (
            omega (
              arith,
              length_behind u (name_field u' ++ der) (v.1).fits,
              length_behind u' der (v.2).fits,
            )))
    layout_back (server_hello_message key nonce u u' ds) der more v h w =
        rw (h, assoc_five (name_field u) (name_field u') (bytes4 (length ds)) ds der more)
          (server_hello_back ssl laws _ more (rw h at w) key nonce u u' ds der v.1 v.2 v.0 h (
            omega (
              arith,
              length_behind u (name_field u' ++ (bytes4 (length ds) ++ (ds ++ der))) (v.1).fits,
              length_behind u' (bytes4 (length ds) ++ (ds ++ der)) (v.2).fits,
              length-append ds der,
            )))
    layout_back (client_verify_message ds) der more v h w =
        client_verify_back _ more w ds (omega arith)
    layout_back start_game_message der more v h w = refl
    layout_back (move_message col) der more v h w = move_back _ more w col v refl
    layout_back (register_message u) der more v h w =
        rw (name_back _ more w u v (omega (arith, length-name_field u v.fits)))
    layout_back (challenge_message u) der more v h w =
        rw (name_back _ more w u v (omega (arith, length-name_field u v.fits)))
    layout_back game_end_message der more v h w = refl
    layout_back (users_list_message usernames) der more v h w = elim v [ ]
    layout_back (users_list_request_message n) der more v h w =
        users_list_request_back _ more w n v refl
    layout_back (challenge_forward_message u) der more v h w =
        rw (name_back _ more w u v (omega (arith, length-name_field u v.fits)))
    layout_back (challenge_response_message u r p) der more v h w =
        challenge_response_back _ more w u r p v.0 v.1
          (omega (arith, length-name_field u (v.0).fits))
    layout_back (game_start_message u a cert) der more v h w =
        rw (h, append_assoc (name_field u) der more)
          (game_start_back ssl laws _ more (rw h at w) u a cert der v.0 v.1 v.2 h
            (omega (arith, length_behind u der (v.0).fits)))
    layout_back (game_cancel_message u) der more v h w =
        rw (name_back _ more w u v (omega (arith, length-name_field u v.fits)))
    layout_back certificate_request_message der more v h w = refl
    layout_back (certificate_message cert) der more v h w =
        rw h (certificate_back ssl laws _ more (rw h at w) cert der h (omega arith))

    -- A well-formed message other than a list of users, whose certificate or key OpenSSL can
    -- encode and that fits the buffer, is written as some bytes, and `readMessage` finds the same
    -- message in these bytes, whatever lies in memory behind them.
    pub read_message-write :
        (m : Message Cert Key) (der more : List ℕ)
        → WellFormed m
        → encoded ssl m ≡ some der
        → length (layout ssl m) ≤ max_msg_size
        → (bs : List ℕ) × (write ssl m ≡ ok bs) × (read_message ssl (bs ++ more) (length bs) ≡ ok m)
    read_message-write m der more v e h =
        (layout ssl m, write_fits ssl m der v e h, layout_back m der more v e (omega arith))

    -- The same for the bytes of a message that has been written.
    pub read_message-written :
        (m : Message Cert Key) (bs more : List ℕ)
        → WellFormed m
        → write ssl m ≡ ok bs
        → (read_message ssl (bs ++ more) (length bs) ≡ ok m) × (0 < length bs)
    read_message-written m bs more v e =
        let (same, fits, der, h) = (write_iff m bs v).0 e in
        let (bs', w, r) = read_message-write m der more v h fits in
        let again : bs' ≡ bs = cc in (rw (← again) r, rw same (omega arith))
