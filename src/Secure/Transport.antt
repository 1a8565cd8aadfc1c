-- ===== src/Secure/Transport.antt =====
-- Messages through `sendMsg` and `handleMsg` of src/security/secure_socket_wrapper.cpp.
use four_in_a_row.Base.{
  ℕ, ◌+◌, ◌%◌, ◌^◌, ◌≤◌, ◌≡◌, ◌≢◌, refl, sym, subst, inl, inr, Bool, true, false, Option, none,
  some, List, [], append-nil, ltb, ◌==◌, length, Bool-cases, Option-cases, arith,
}
use four_in_a_row.Wire.Result.{written, written-ok, ok, >>=-eq-ok}
use four_in_a_row.Wire.Fields.{SslLaws}
use four_in_a_row.Wire.Layout.{WellFormed}
use four_in_a_row.Wire.Message.{Message, secure, secure_message}
use four_in_a_row.Wire.Message.Write.{write}
use four_in_a_row.Wire.Message.Read.{tag_size}
use four_in_a_row.Wire.RoundTrip.{read_message-written}
use four_in_a_row.Secure.{
  Suite, Channel, make_aad, update_iv, sealed, encrypt_msg, opened, decrypt_msg, hand_over,
  handle_msg, send_msg, max_sec_msg_size, aad_size,
}

module _ {Cert Key Priv : Type 0} (suite : Suite Cert Key Priv) where
  -- AES in GCM: a text that was encrypted is decrypted under the same key, initial value and
  -- additional data; only such a text is; and it keeps its length, with a tag of 16 bytes.
  pub record Gcm : Type 0 where
    pub back :
        {key iv aad pt ct tag : List ℕ}
        → suite.encrypt key iv aad pt ≡ some (ct, tag)
        → suite.decrypt key iv aad ct tag ≡ some pt
    pub only :
        {key iv aad pt ct tag : List ℕ}
        → suite.decrypt key iv aad ct tag ≡ some pt
        → suite.encrypt key iv aad pt ≡ some (ct, tag)
    pub size :
        {key iv aad pt ct tag : List ℕ}
        → suite.encrypt key iv aad pt ≡ some (ct, tag)
        → (length ct ≡ length pt) × (length tag ≡ 16)

  -- What one side sends next is what the other expects next.
  pub record InStep (s r : Channel Cert Key Priv) : Type 0 where
    pub sender : s.peer_authenticated ≡ true
    pub receiver : r.peer_authenticated ≡ true
    pub key : s.send_key ≡ r.recv_key
    pub iv : s.send_iv_static ≡ r.recv_iv_static
    pub counter : s.send_seq_num ≡ r.recv_seq_num

  sealed-some :
      (key iv pt : List ℕ) (sm : Message Cert Key)
      → sealed suite key iv pt ≡ some sm
      → (ct : List ℕ) × (tag : List ℕ) × (suite.encrypt key iv
            (make_aad secure (length pt + tag_size + aad_size))
            pt
          ≡ some (ct, tag))
        × (length ct ≢ 0)
        × (sm ≡ secure_message ct tag)
  unfolding sealed
  sealed-some key iv pt sm h =
      elim (Option-cases
        (suite.encrypt key iv (make_aad secure (length pt + tag_size + aad_size)) pt)) [
          | inl none_made ↦ absurd (ground arith)
          | inr ((ct, tag), made) ↦ (ct, tag, made, ground arith, ground arith)
        ]

  encrypt_msg-some :
      (s : Channel Cert Key Priv) (m sm : Message Cert Key)
      → encrypt_msg suite s m ≡ ok (some sm)
      → (pt : List ℕ) × (written (write (suite.ssl) m) ≡ ok pt)
        × (length pt ≤ max_sec_msg_size)
        × (sealed suite s.send_key (update_iv s.send_seq_num s.send_iv_static) pt ≡ some sm)
  unfolding encrypt_msg
  encrypt_msg-some s m sm h = elim (Bool-cases s.peer_authenticated) [
    | inr out ↦ let c = (rw out at h) in absurd (cc)
    | inl inside ↦
        let (pt, w, f) = >>=-eq-ok (written (write (suite.ssl) m)) _ (rw inside at h) in
        elim (Bool-cases (ltb max_sec_msg_size (length pt))) [
          | inl big ↦ let c = (rw big at f) in absurd (cc)
          | inr fits ↦ let g = (rw fits at f) in (pt, w, ground arith, cc)
        ]
  ]

  module _ (gcm : Gcm) (laws : SslLaws (suite.ssl)) where
    opened-same :
        (s r : Channel Cert Key Priv) (pt ct tag : List ℕ)
        → InStep s r
        → suite.encrypt s.send_key
            (update_iv s.send_seq_num s.send_iv_static)
            (make_aad secure (length pt + tag_size + aad_size))
            pt
          ≡ some (ct, tag)
        → opened suite r ct tag ≡ some pt
    unfolding opened
    opened-same s r pt ct tag step made =
        let back = gcm.back made in
        let same_size = (gcm.size made).0 in
        let k = step.key in let i = step.iv in let n = step.counter in cc

    decrypt_msg-encrypt_msg :
        (s r : Channel Cert Key Priv) (m sm : Message Cert Key)
        → InStep s r
        → WellFormed m
        → encrypt_msg suite s m ≡ ok (some sm)
        → (ct : List ℕ) × (tag : List ℕ) × (sm ≡ secure_message ct tag)
          × (length tag ≡ 16)
          × (decrypt_msg suite r ct tag ≡ ok m)
    unfolding decrypt_msg opened
    decrypt_msg-encrypt_msg s r m sm step v h =
        let (pt, w, fits, seal) = encrypt_msg-some s m sm h in
        let (ct, tag, made, some_ct, e) = sealed-some _ _ pt sm seal in
        let (same_size, short_tag) = gcm.size made in
        let read =
          read_message-written (suite.ssl) laws m pt [] v
            (written-ok (write (suite.ssl) m) pt w (omega arith)) in
        let small : ltb max_sec_msg_size (length pt) ≡ false = ground arith in
        let some_pt : (length pt == 0) ≡ false = ground arith in
        let opens = opened-same s r pt ct tag step made in
        (
          ct,
          tag,
          e,
          short_tag,
          rw (step.receiver, same_size, small, opens, some_pt) (rw append-nil at read.0),
        )

    ok_injective : {A : Type 0} {a b : A} → ok a ≡ ok b → a ≡ b
    ok_injective e = cc

    handed_over :
        (s s' : Channel Cert Key Priv) (send : Message Cert Key → Bool)
        (o : Option (Message Cert Key)) (sm : Message Cert Key)
        → hand_over suite s send o ≡ (s', some sm, true)
        → (o ≡ some sm) × (s' ≡ record s { send_seq_num = (s.send_seq_num + 1) % 2 ^ 64 })
    handed_over s s' send none sm e = absurd (ground arith)
    handed_over s s' send (some o) sm e = elim (Bool-cases (send o)) [
      | inl sent ↦ let f = (rw sent at e) in (ground arith, ground arith)
      | inr lost ↦ let f = (rw lost at e) in absurd (ground arith)
    ]

    -- Both sides have counted the message.
    counted_both :
        (s r : Channel Cert Key Priv)
        → InStep s r
        → InStep
            (record s { send_seq_num = (s.send_seq_num + 1) % 2 ^ 64 })
            (record r { recv_seq_num = (r.recv_seq_num + 1) % 2 ^ 64 })
    counted_both s r step = record {
      sender = step.sender;
      receiver = step.receiver;
      key = step.key;
      iv = step.iv;
      counter = rw step.counter refl;
    }

    received_both :
        (s s' r : Channel Cert Key Priv) (m sm : Message Cert Key) (ct tag : List ℕ)
        → sm ≡ secure_message ct tag
        → s' ≡ record s { send_seq_num = (s.send_seq_num + 1) % 2 ^ 64 }
        → decrypt_msg suite r ct tag ≡ ok m
        → InStep s r
        → let q = handle_msg suite r (some sm) in (q.1 ≡ ok m) × InStep s' q.0
    unfolding handle_msg
    received_both s s' r m sm ct tag shape same_s read step =
        rw (shape, same_s, read) (refl, counted_both s r step)

    -- Between two sides that are in step, a well-formed message that `sendMsg` sends with success is
    -- handed on by `handleMsg` as it was, and the sides are in step again.
    pub handle_msg-send_msg :
        (s s' r : Channel Cert Key Priv) (m sm : Message Cert Key) (send : Message Cert Key → Bool)
        → InStep s r
        → WellFormed m
        → send_msg suite s m send ≡ ok (s', some sm, true)
        → let q = handle_msg suite r (some sm) in (q.1 ≡ ok m) × InStep s' q.0
    unfolding send_msg
    handle_msg-send_msg s s' r m sm send step v h =
        let (o, e, f) = >>=-eq-ok (encrypt_msg suite s m) _ h in
        let (same, same_s) = handed_over s s' send o sm (ok_injective f) in
        let (ct, tag, shape, short_tag, read) =
          decrypt_msg-encrypt_msg s r m sm step v (rw same at e) in
        received_both s s' r m sm ct tag shape same_s read step

    -- What is sent is a SecureMessage with a tag of 16 bytes.
    pub send_msg-WellFormed :
        (s s' r : Channel Cert Key Priv) (m sm : Message Cert Key) (send : Message Cert Key → Bool)
        → InStep s r
        → WellFormed m
        → send_msg suite s m send ≡ ok (s', some sm, true)
        → WellFormed sm
    unfolding send_msg
    send_msg-WellFormed s s' r m sm send step v h =
        let (o, e, f) = >>=-eq-ok (encrypt_msg suite s m) _ h in
        let (same, same_s) = handed_over s s' send o sm (ok_injective f) in
        let (ct, tag, shape, short_tag, read) =
          decrypt_msg-encrypt_msg s r m sm step v (rw same at e) in
        subst (λ (x : Message Cert Key). WellFormed x) (sym shape) short_tag
