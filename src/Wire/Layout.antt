-- ===== src/Wire/Layout.antt =====
-- The bytes of each message of src/network/messages.cpp, written down once: the type, then the
-- fields in their order.
use four_in_a_row.Base.{
  ℕ, ◌/◌, ◌%◌, ◌^◌, ◌≤◌, ◌<◌, ◌≡◌, List, [], ◌∷◌, ◌++◌, if◌then◌else◌, length, append_assoc,
}
use four_in_a_row.Wire.Result.{Result, ◌>>=◌}
use four_in_a_row.Wire.Buffer.{bytes4}
use four_in_a_row.Wire.Fields.{Ssl}
use four_in_a_row.Wire.Reads.{IsName, name_field}
use four_in_a_row.Wire.Stores.{
  Stores, Yields, emit-Yields, type-Yields, bind-Yields, der_bytes, write_uint8-Stores,
  write_bool-Stores, write_uint16-Stores, write_uint32-Stores, write_buf-Stores,
  write_username-Stores, write_sock_addr-Stores, der_to_buf-Stores,
}
use four_in_a_row.Wire.Message.{
  MessageType, secure, client_hello, server_hello, client_verify, start_game_peer, move, register,
  challenge, game_end, users_list_req, challenge_fwd, challenge_resp, game_start, game_cancel,
  cert_req, certificate, type_code, get_type, Message, secure_message, client_hello_message,
  server_hello_message, client_verify_message, start_game_message, move_message, register_message,
  challenge_message, game_end_message, users_list_message, users_list_request_message,
  challenge_forward_message, challenge_response_message, game_start_message, game_cancel_message,
  certificate_request_message, certificate_message,
}
use four_in_a_row.Wire.Message.Write.{
  emit, write_type, max_msg_size, write, write_start_game, write_move, write_register,
  write_challenge, write_game_end, write_users_list_request, write_challenge_forward,
  write_challenge_response, write_game_cancel, write_secure, write_client_verify,
  write_certificate_request, write_game_start, write_client_hello, write_server_hello,
  write_certificate,
}

abbrev pub port_field : ℕ → List ℕ
port_field p = (p / 256 % 256) ∷ (p % 256) ∷ []

-- The values that a message can carry: names that fit their fields, numbers of the field's width,
-- and a tag of 16 bytes. A list of users is padded to whole names, and is left out here.
abbrev pub WellFormed : {Cert Key : Type 0} → Message Cert Key → Type 0
WellFormed (secure_message ct tag) = length tag ≡ 16
WellFormed (client_hello_message key nonce my_id other_id) =
    (nonce < 2 ^ 32) × IsName my_id × IsName other_id
WellFormed (server_hello_message key nonce my_id other_id ds) =
    (nonce < 2 ^ 32) × IsName my_id × IsName other_id
WellFormed (client_verify_message ds) = Unit {0}
WellFormed start_game_message = Unit {0}
WellFormed (move_message col) = col < 256
WellFormed (register_message username) = IsName username
WellFormed (challenge_message username) = IsName username
WellFormed game_end_message = Unit {0}
WellFormed (users_list_message usernames) = ⊥
WellFormed (users_list_request_message n) = n < 2 ^ 32
WellFormed (challenge_forward_message username) = IsName username
WellFormed (challenge_response_message username response port) = IsName username × (port < 2 ^ 16)
WellFormed (game_start_message username addr cert) =
    IsName username × (addr.s_addr < 2 ^ 32) × (addr.sin_port < 2 ^ 16)
WellFormed (game_cancel_message username) = IsName username
WellFormed certificate_request_message = Unit {0}
WellFormed (certificate_message cert) = Unit {0}

-- A message that is its type and one field.
one_field :
    (t : MessageType) (w : ℕ → Result (List ℕ)) (bs : List ℕ)
    → Stores w bs
    → Yields (write_type t >>= λ out. emit out w) (type_code t ∷ bs)
one_field t w bs s =
    bind-Yields (write_type t) _ (type_code t ∷ []) _ (type-Yields t)
      (λ h. emit-Yields (type_code t ∷ []) bs w s h)

regroup : (m : Result (List ℕ)) (xs ys : List ℕ) → xs ≡ ys → Yields m xs → Yields m ys
regroup m xs ys e y = rw (← e) y

-- One more field behind `out`, and what follows.
then_field :
    (out bs zs : List ℕ) (w : ℕ → Result (List ℕ)) (k : List ℕ → Result (List ℕ))
    → Stores w bs
    → length out ≤ max_msg_size
    → (length (out ++ bs) ≤ max_msg_size → Yields (k (out ++ bs)) zs)
    → Yields (emit out w >>= k) zs
then_field out bs zs w k s h f =
    bind-Yields (emit out w) k (out ++ bs) zs (emit-Yields out bs w s h) f

module _ {Cert Key : Type 0} (ssl : Ssl Cert Key) where
  -- The fields of a message as they stand behind its type.
  abbrev pub fields : Message Cert Key → List ℕ
  fields (secure_message ct tag) = ct ++ tag
  fields (client_hello_message key nonce my_id other_id) =
      bytes4 nonce ++ (name_field my_id ++ (name_field other_id ++ der_bytes (ssl.i2d_pubkey key)))
  fields (server_hello_message key nonce my_id other_id ds) =
      bytes4 nonce
      ++ (name_field my_id
          ++ (name_field other_id
              ++ (bytes4 (length ds) ++ (ds ++ der_bytes (ssl.i2d_pubkey key)))))
  fields (client_verify_message ds) = bytes4 (length ds) ++ ds
  fields start_game_message = []
  fields (move_message col) = (col % 256) ∷ []
  fields (register_message username) = name_field username
  fields (challenge_message username) = name_field username
  fields game_end_message = []
  fields (users_list_message usernames) = []
  fields (users_list_request_message n) = bytes4 n
  fields (challenge_forward_message username) = name_field username
  fields (challenge_response_message username response port) =
      (if response then 1 else 0) ∷ (port_field port ++ name_field username)
  fields (game_start_message username addr cert) =
      bytes4 addr.s_addr
      ++ (port_field addr.sin_port ++ (name_field username ++ der_bytes (ssl.i2d_x509 cert)))
  fields (game_cancel_message username) = name_field username
  fields certificate_request_message = []
  fields (certificate_message cert) = der_bytes (ssl.i2d_x509 cert)

  abbrev pub layout : Message Cert Key → List ℕ
  layout m = type_code (get_type m) ∷ fields m

  -- Whatever well-formed message is written, the bytes are its type and its fields, and they fit
  -- the buffer of 8192 bytes.
  pub write-Yields : (m : Message Cert Key) → WellFormed m → Yields (write ssl m) (layout m)
  unfolding write get_type
  write-Yields (secure_message ct tag) v =
      unfold write_secure in
      bind-Yields (write_type secure) _ (0 ∷ []) _ (type-Yields secure) (λ h.
        then_field _ _ _ _ _ (write_buf-Stores ct) h
          (λ h. emit-Yields _ _ _ (write_buf-Stores tag) h))
  write-Yields (client_hello_message key nonce my_id other_id) v =
      unfold write_client_hello in
      regroup _ _ _ (simp append_assoc) (
        bind-Yields (write_type client_hello) _ (1 ∷ []) _ (type-Yields client_hello) (λ h.
          then_field _ _ _ _ _ (write_uint32-Stores nonce) h (λ h.
            then_field _ _ _ _ _ (write_username-Stores my_id v.1) h (λ h.
              then_field _ _ _ _ _ (write_username-Stores other_id v.2) h
                (λ h. emit-Yields _ _ _ (der_to_buf-Stores (ssl.i2d_pubkey key)) h)))))
  write-Yields (server_hello_message key nonce my_id other_id ds) v =
      unfold write_server_hello in
      regroup _ _ _ (simp append_assoc) (
        bind-Yields (write_type server_hello) _ (2 ∷ []) _ (type-Yields server_hello) (λ h.
          then_field _ _ _ _ _ (write_uint32-Stores nonce) h (λ h.
            then_field _ _ _ _ _ (write_username-Stores my_id v.1) h (λ h.
              then_field _ _ _ _ _ (write_username-Stores other_id v.2) h (λ h.
                then_field _ _ _ _ _ (write_uint32-Stores (length ds)) h (λ h.
                  then_field _ _ _ _ _ (write_buf-Stores ds) h
                    (λ h. emit-Yields _ _ _ (der_to_buf-Stores (ssl.i2d_pubkey key)) h)))))))
  write-Yields (client_verify_message ds) v =
      unfold write_client_verify in
      bind-Yields (write_type client_verify) _ (3 ∷ []) _ (type-Yields client_verify) (λ h.
        then_field _ _ _ _ _ (write_uint32-Stores (length ds)) h
          (λ h. emit-Yields _ _ _ (write_buf-Stores ds) h))
  write-Yields start_game_message v = unfold write_start_game in type-Yields start_game_peer
  write-Yields (move_message col) v =
      unfold write_move in one_field move _ _ (write_uint8-Stores col)
  write-Yields (register_message username) v =
      unfold write_register in one_field register _ _ (write_username-Stores username v)
  write-Yields (challenge_message username) v =
      unfold write_challenge in one_field challenge _ _ (write_username-Stores username v)
  write-Yields game_end_message v = unfold write_game_end in type-Yields game_end
  write-Yields (users_list_message usernames) v = elim v [ ]
  write-Yields (users_list_request_message n) v =
      unfold write_users_list_request in one_field users_list_req _ _ (write_uint32-Stores n)
  write-Yields (challenge_forward_message username) v =
      unfold write_challenge_forward in
      one_field challenge_fwd _ _ (write_username-Stores username v)
  write-Yields (challenge_response_message username response port) v =
      unfold write_challenge_response in
      bind-Yields (write_type challenge_resp) _ (12 ∷ []) _ (type-Yields challenge_resp) (λ h.
        then_field _ _ _ _ _ (write_bool-Stores response) h (λ h.
          then_field _ _ _ _ _ (write_uint16-Stores port) h
            (λ h. emit-Yields _ _ _ (write_username-Stores username v.0) h)))
  write-Yields (game_start_message username addr cert) v =
      unfold write_game_start in
      bind-Yields (write_type game_start) _ (13 ∷ []) _ (type-Yields game_start) (λ h.
        then_field _ _ _ _ _ (write_sock_addr-Stores addr) h (λ h.
          then_field _ _ _ _ _ (write_username-Stores username v.0) h
            (λ h. emit-Yields _ _ _ (der_to_buf-Stores (ssl.i2d_x509 cert)) h)))
  write-Yields (game_cancel_message username) v =
      unfold write_game_cancel in one_field game_cancel _ _ (write_username-Stores username v)
  write-Yields certificate_request_message v =
      unfold write_certificate_request in type-Yields cert_req
  write-Yields (certificate_message cert) v =
      unfold write_certificate in one_field certificate _ _ (der_to_buf-Stores (ssl.i2d_x509 cert))
