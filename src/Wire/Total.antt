-- ===== src/Wire/Total.antt =====
-- The `write` methods of src/network/messages.cpp succeed whenever the message fits the buffer.
use four_in_a_row.Base.{
  ℕ, ◌-◌, ◌≤◌, ◌%◌, Bool, if◌then◌else◌, ◌≡◌, refl, some, none, Option, List, [], ◌∷◌, ◌++◌, length,
  length-append, append_assoc, arith,
}
use four_in_a_row.Wire.Result.{Result, ok, ◌>>=◌}
use four_in_a_row.Wire.Buffer.{
  Writer, bytes4, write_uint8, write_uint16, write_uint32, write_bool, write_buf,
}
use four_in_a_row.Wire.Fields.{Ssl, SockAddr, der_to_buf, write_username, write_sock_addr}
use four_in_a_row.Wire.Reads.{IsName, name_field, write_username-stored, length-name_field}
use four_in_a_row.Wire.Stores.{der_bytes}
use four_in_a_row.Wire.Message.{
  Message, MessageType, secure, client_hello, server_hello, client_verify, start_game_peer, move,
  register, challenge, game_end, users_list, users_list_req, challenge_fwd, challenge_resp,
  game_start, game_cancel, cert_req, certificate, type_code, get_type, secure_message,
  client_hello_message, server_hello_message, client_verify_message, start_game_message,
  move_message, register_message, challenge_message, game_end_message, users_list_message,
  users_list_request_message, challenge_forward_message, challenge_response_message,
  game_start_message, game_cancel_message, certificate_request_message, certificate_message,
}
use four_in_a_row.Wire.Message.Write.{
  emit, write_type, max_msg_size, write, write_start_game, write_move, write_register,
  write_challenge, write_game_end, write_users_list_request, write_challenge_forward,
  write_challenge_response, write_game_cancel, write_secure, write_client_verify,
  write_certificate_request, write_game_start, write_client_hello, write_server_hello,
  write_certificate,
}
use four_in_a_row.Wire.Layout.{WellFormed, layout, port_field}

-- The writer stores `bs` whenever there is room for them.
abbrev Puts : Writer → List ℕ → Type 0
Puts w bs = (n : ℕ) → length bs ≤ n → w n ≡ ok bs

last :
    (out bs : List ℕ) (w : Writer)
    → Puts w bs
    → length (out ++ bs) ≤ max_msg_size
    → emit out w ≡ ok (out ++ bs)
unfolding emit
last out bs w p h = rw (p (max_msg_size - length out) (omega (arith, length-append out bs)))

step :
    (out bs more : List ℕ) (w : Writer) (k : List ℕ → Result (List ℕ))
    → Puts w bs
    → length (out ++ (bs ++ more)) ≤ max_msg_size
    → (length ((out ++ bs) ++ more) ≤ max_msg_size → k (out ++ bs) ≡ ok ((out ++ bs) ++ more))
    → (emit out w >>= k) ≡ ok (out ++ (bs ++ more))
step out bs more w k p h f =
    let g : length ((out ++ bs) ++ more) ≤ max_msg_size = rw append_assoc h in
    rw
      (
        last out bs w p (omega (arith, g, length-append (out ++ bs) more)),
        ← append_assoc out bs more,
      )
      (f g)

write_uint8-Puts : (v : ℕ) → Puts (write_uint8 v) ((v % 256) ∷ [])
unfolding write_uint8
write_uint8-Puts v n h = ground arith

write_bool-Puts : (v : Bool) → Puts (write_bool v) ((if v then 1 else 0) ∷ [])
unfolding write_bool
write_bool-Puts v n h = ground arith

write_uint16-Puts : (v : ℕ) → Puts (write_uint16 v) (port_field v)
unfolding write_uint16
write_uint16-Puts v n h = ground arith

write_uint32-Puts : (v : ℕ) → Puts (write_uint32 v) (bytes4 v)
unfolding write_uint32
write_uint32-Puts v n h = ground arith

write_buf-Puts : (bs : List ℕ) → Puts (write_buf bs) bs
unfolding write_buf
write_buf-Puts bs n h = ground arith

write_username-Puts : (u : List ℕ) → IsName u → Puts (write_username u) (name_field u)
write_username-Puts u v n h =
    ground (arith, write_username-stored u n v, length-name_field u v.fits)

write_sock_addr-Puts :
    (a : SockAddr) → Puts (write_sock_addr a) (bytes4 a.s_addr ++ port_field a.sin_port)
unfolding write_sock_addr
write_sock_addr-Puts a n h = ground arith

der_to_buf-Puts :
    (o : Option (List ℕ)) (der : List ℕ) → o ≡ some der → Puts (der_to_buf o) (der_bytes o)
unfolding der_to_buf
der_to_buf-Puts none der e n h = absurd (cc)
der_to_buf-Puts (some bs) der e n h = ground arith

type_first :
    (t : MessageType) (k : List ℕ → Result (List ℕ)) → (write_type t >>= k) ≡ k (type_code t ∷ [])
unfolding write_type write_uint8 emit
type_first secure k = refl
type_first client_hello k = refl
type_first server_hello k = refl
type_first client_verify k = refl
type_first start_game_peer k = refl
type_first move k = refl
type_first register k = refl
type_first challenge k = refl
type_first game_end k = refl
type_first users_list k = refl
type_first users_list_req k = refl
type_first challenge_fwd k = refl
type_first challenge_resp k = refl
type_first game_start k = refl
type_first game_cancel k = refl
type_first cert_req k = refl
type_first certificate k = refl

one_field :
    (t : MessageType) (w : Writer) (bs : List ℕ)
    → Puts w bs
    → length (type_code t ∷ bs) ≤ max_msg_size
    → (write_type t >>= λ out. emit out w) ≡ ok (type_code t ∷ bs)
one_field t w bs p h = rw (type_first t (λ out. emit out w)) (last (type_code t ∷ []) bs w p h)

module _ {Cert Key : Type 0} (ssl : Ssl Cert Key) where
  -- The encoding of the certificate or key in a message, if it has one.
  abbrev pub encoded : Message Cert Key → Option (List ℕ)
  encoded (certificate_message cert) = ssl.i2d_x509 cert
  encoded (game_start_message username addr cert) = ssl.i2d_x509 cert
  encoded (client_hello_message key nonce my_id other_id) = ssl.i2d_pubkey key
  encoded (server_hello_message key nonce my_id other_id ds) = ssl.i2d_pubkey key
  encoded _ = some []

  pub write_fits :
      (m : Message Cert Key) (der : List ℕ)
      → WellFormed m
      → encoded m ≡ some der
      → length (layout ssl m) ≤ max_msg_size
      → write ssl m ≡ ok (layout ssl m)
  unfolding write get_type
  write_fits (secure_message ct tag) der v e h =
      unfold write_secure in
      rw (type_first secure) (
        step (0 ∷ []) ct tag (write_buf ct) _ (write_buf-Puts ct) h
          (λ g. last _ tag _ (write_buf-Puts tag) g))
  write_fits (client_hello_message key nonce my_id other_id) der v e h =
      unfold write_client_hello in
      rw (type_first client_hello) (
        step _ _ _ _ _ (write_uint32-Puts nonce) h (λ h.
          step _ _ _ _ _ (write_username-Puts my_id v.1) h (λ h.
            step _ _ _ _ _ (write_username-Puts other_id v.2) h
              (λ h. last _ _ _ (der_to_buf-Puts (ssl.i2d_pubkey key) der e) h))))
  write_fits (server_hello_message key nonce my_id other_id ds) der v e h =
      unfold write_server_hello in
      rw (type_first server_hello) (
        step _ _ _ _ _ (write_uint32-Puts nonce) h (λ h.
          step _ _ _ _ _ (write_username-Puts my_id v.1) h (λ h.
            step _ _ _ _ _ (write_username-Puts other_id v.2) h (λ h.
              step _ _ _ _ _ (write_uint32-Puts (length ds)) h (λ h.
                step _ _ _ _ _ (write_buf-Puts ds) h
                  (λ h. last _ _ _ (der_to_buf-Puts (ssl.i2d_pubkey key) der e) h))))))
  write_fits (client_verify_message ds) der v e h =
      unfold write_client_verify in
      rw (type_first client_verify)
        (step _ _ _ _ _ (write_uint32-Puts (length ds)) h (λ h. last _ _ _ (write_buf-Puts ds) h))
  write_fits start_game_message der v e h =
      unfold write_start_game write_type write_uint8 emit in refl
  write_fits (move_message col) der v e h =
      unfold write_move in one_field move _ _ (write_uint8-Puts col) h
  write_fits (register_message username) der v e h =
      unfold write_register in one_field register _ _ (write_username-Puts username v) h
  write_fits (challenge_message username) der v e h =
      unfold write_challenge in one_field challenge _ _ (write_username-Puts username v) h
  write_fits game_end_message der v e h = unfold write_game_end write_type write_uint8 emit in refl
  write_fits (users_list_message usernames) der v e h = elim v [ ]
  write_fits (users_list_request_message n) der v e h =
      unfold write_users_list_request in one_field users_list_req _ _ (write_uint32-Puts n) h
  write_fits (challenge_forward_message username) der v e h =
      unfold write_challenge_forward in
      one_field challenge_fwd _ _ (write_username-Puts username v) h
  write_fits (challenge_response_message username response port) der v e h =
      unfold write_challenge_response in
      rw (type_first challenge_resp) (
        step _ _ _ _ _ (write_bool-Puts response) h (λ h.
          step _ _ _ _ _ (write_uint16-Puts port) h
            (λ h. last _ _ _ (write_username-Puts username v.0) h)))
  write_fits (game_start_message username addr cert) der v e h =
      unfold write_game_start in
      rw (type_first game_start) (
        step _ _ _ _ _ (write_sock_addr-Puts addr) h (λ h.
          step _ _ _ _ _ (write_username-Puts username v.0) h
            (λ h. last _ _ _ (der_to_buf-Puts (ssl.i2d_x509 cert) der e) h)))
  write_fits (game_cancel_message username) der v e h =
      unfold write_game_cancel in one_field game_cancel _ _ (write_username-Puts username v) h
  write_fits certificate_request_message der v e h =
      unfold write_certificate_request write_type write_uint8 emit in refl
  write_fits (certificate_message cert) der v e h =
      unfold write_certificate in
      one_field certificate _ _ (der_to_buf-Puts (ssl.i2d_x509 cert) der e) h
