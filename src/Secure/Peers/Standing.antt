-- ===== src/Secure/Peers/Standing.antt =====
-- What a call of src/security/secure_socket_wrapper.cpp that succeeds has done, and what receiving
-- and sending leave alone.
use four_in_a_row.Base.{
  ℕ, ◌≡◌, refl, ◌∙◌, inl, inr, Bool, true, false, Option, none, some, List, [], ◌∷◌, Bool-cases,
}
use four_in_a_row.Wire.Result.{Result, ok, failed, raised, fault, >>=-eq-ok}
use four_in_a_row.Wire.Message.{Message, MessageType, secure_message}
use four_in_a_row.Socket.Blocking.{
  Waited, blocked, null, crashed, got, after, receive_loop, has_type,
}
use four_in_a_row.Secure.{
  Suite, Channel, counted, decrypt_msg, encrypt_msg, handle_msg, hand_over, send_msg,
}
use four_in_a_row.Secure.Handshake.{Sent}
use four_in_a_row.Secure.Receive.{receive_any_msg, receive_msg}
use four_in_a_row.Secure.Peers.{
  Attempt, succeeds, fails, throws, crashes, waiting, ◌>>=◌, of_sent, of_checked, on_message,
}

pub bind-succeeds :
    {A B : Type 0} (a : Attempt A) (f : A → Attempt B) {y : B}
    → (a >>= f) ≡ succeeds y
    → (x : A) × (a ≡ succeeds x) × (f x ≡ succeeds y)
bind-succeeds (succeeds x) f e = (x, refl, e)
bind-succeeds fails f e = absurd (cc)
bind-succeeds throws f e = absurd (cc)
bind-succeeds crashes f e = absurd (cc)
bind-succeeds waiting f e = absurd (cc)

module _ {Cert Key Priv : Type 0} (suite : Suite Cert Key Priv) where
  pub of_sent-succeeds :
      (r : Sent suite) (c : Channel Cert Key Priv)
      → of_sent suite r ≡ succeeds c
      → (o : Option (Message Cert Key)) × (r ≡ ok (c, o, true))
  of_sent-succeeds (ok (d, o, true)) c e = (o, let same : d ≡ c = cc in rw same refl)
  of_sent-succeeds (ok (d, o, false)) c e = absurd (cc)
  of_sent-succeeds failed c e = absurd (cc)
  of_sent-succeeds raised c e = absurd (cc)
  of_sent-succeeds fault c e = absurd (cc)

  pub of_checked-succeeds :
      (r : Result (Channel Cert Key Priv × Bool)) (c : Channel Cert Key Priv)
      → of_checked suite r ≡ succeeds c
      → r ≡ ok (c, true)
  of_checked-succeeds (ok (d, true)) c e = let same : d ≡ c = cc in rw same refl
  of_checked-succeeds (ok (d, false)) c e = absurd (cc)
  of_checked-succeeds failed c e = absurd (cc)
  of_checked-succeeds raised c e = absurd (cc)
  of_checked-succeeds fault c e = absurd (cc)

  pub on_message-succeeds :
      (absent : Attempt (Channel Cert Key Priv))
      (f : Channel Cert Key Priv → Message Cert Key → Attempt (Channel Cert Key Priv))
      (q : Channel Cert Key Priv × Waited (Message Cert Key)) (c : Channel Cert Key Priv)
      → (absent ≡ succeeds c → ⊥)
      → on_message suite absent f q ≡ succeeds c
      → (m : Message Cert Key) × (f q.0 m ≡ succeeds c)
  on_message-succeeds absent f (d, got m) c ne e = (m, e)
  on_message-succeeds absent f (d, null) c ne e = absurd (ne e)
  on_message-succeeds absent f (d, crashed) c ne e = absurd (cc)
  on_message-succeeds absent f (d, blocked) c ne e = absurd (cc)

  -- What both sides of a handshake have signed.
  abbrev pub Session : Type 0
  Session = Option Cert × List ℕ × List ℕ × ℕ × ℕ × Option Priv × Option Key

  abbrev pub session : Channel Cert Key Priv → Session
  session c =
      (c.other_cert, c.my_id, c.other_id, c.cl_nonce, c.sv_nonce, c.my_eph_key, c.other_eph_key)

  -- What the calls that receive and send leave alone.
  abbrev pub standing : Channel Cert Key Priv → Session × Bool
  standing c = (session c, c.peer_authenticated)

  pub counted-standing :
      (c : Channel Cert Key Priv) (r : Result (Message Cert Key))
      → standing (counted suite c r).0 ≡ standing c
  counted-standing c (ok m) = refl
  counted-standing c failed = refl
  counted-standing c raised = refl
  counted-standing c fault = refl

  pub handle_msg-standing :
      (c : Channel Cert Key Priv) (o : Option (Message Cert Key))
      → standing (handle_msg suite c o).0 ≡ standing c
  unfolding handle_msg
  handle_msg-standing c none = refl
  handle_msg-standing c (some (secure_message ct tag)) =
      counted-standing c (decrypt_msg suite c ct tag)
  handle_msg-standing c (some _) = refl

  pub receive_any_msg-standing :
      (c : Channel Cert Key Priv) (r : Result (Message Cert Key))
      → standing (receive_any_msg suite c r).0 ≡ standing c
  receive_any_msg-standing c (ok m) = handle_msg-standing c (some m)
  receive_any_msg-standing c failed = handle_msg-standing c none
  receive_any_msg-standing c raised = refl
  receive_any_msg-standing c fault = refl

  pub after-standing :
      (c : Channel Cert Key Priv) (wanted : Message Cert Key → Bool)
      (q : Channel Cert Key Priv × Result (Message Cert Key))
      (rest : Channel Cert Key Priv × Waited (Message Cert Key))
      → standing q.0 ≡ standing c
      → standing rest.0 ≡ standing q.0
      → standing (after (receive_any_msg suite) wanted q rest).0 ≡ standing c
  after-standing c wanted (d, ok m) rest e f = e
  after-standing c wanted (d, failed) rest e f = f ∙ e
  after-standing c wanted (d, raised) rest e f = e
  after-standing c wanted (d, fault) rest e f = e

  pub receive_msg-standing :
      (types : List MessageType) (c : Channel Cert Key Priv) (rs : List (Result (Message Cert Key)))
      → standing (receive_msg suite types c rs).0 ≡ standing c
  unfolding receive_msg receive_loop
  receive_msg-standing types c [] = refl
  receive_msg-standing types c (r ∷ rs) =
      after-standing c (has_type types) (receive_any_msg suite c r) _ (receive_any_msg-standing c r)
        (receive_msg-standing types (receive_any_msg suite c r).0 rs)

  pub hand_over-standing :
      (c : Channel Cert Key Priv) (send : Message Cert Key → Bool) (sm : Option (Message Cert Key))
      → standing (hand_over suite c send sm).0 ≡ standing c
  hand_over-standing c send none = refl
  hand_over-standing c send (some sm) = elim (Bool-cases (send sm)) [
    | inl sent ↦ rw sent refl
    | inr lost ↦ rw lost refl
  ]

  pub send_msg-standing :
      (c c' : Channel Cert Key Priv) (m : Message Cert Key) (send : Message Cert Key → Bool)
      (o : Option (Message Cert Key)) (b : Bool)
      → send_msg suite c m send ≡ ok (c', o, b)
      → standing c' ≡ standing c
  unfolding send_msg
  send_msg-standing c c' m send o b e =
      let (sm, _, f) = >>=-eq-ok (encrypt_msg suite c m) _ e in
      let same : (hand_over suite c send sm).0 ≡ c' = cc in
      rw (← same) (hand_over-standing c send sm)
