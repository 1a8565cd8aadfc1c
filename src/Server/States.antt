-- ===== src/Server/States.antt =====
-- The state machine of a user: what `handleMessage` of src/server/server.cpp can make of the state.
use native.Mathlib.Decide.{ℕ_discrete}
use four_in_a_row.Base.{
  ℕ, Option-cases, ◌≡◌, ◌≢◌, refl, inl, inr, Bool, true, false, Option, none, some, [], ◌∷◌, length,
  Bool-cases, ◌==◌, arith,
}
use four_in_a_row.Wire.Message.{game_cancel_message}
use four_in_a_row.Server.Map.{Name, find, name_key}
use four_in_a_row.Server.User.{deref, state_eq, available, challenged, playing, disconnected}
use four_in_a_row.Server.UserList.{get_by_name}
use four_in_a_row.Server.World.{World, double_lock, Env, call, send_msg}
use four_in_a_row.Server.Frames.{heap_of}
use four_in_a_row.Server.Moves.{
  Step, ◌>->◌, put_opponent-Step, double_lock-Step, leave-Step, get_by_name-Step,
  put_state_other-Step, put_state-Step, call-Step,
}
use four_in_a_row.Server.Challenge.{
  send_cancel, forward_challenge, challenge_user, challenge_found, handle_challenge,
}
use four_in_a_row.Server.Response.{
  cancel_or_drop, settle, start_game, accept, reject, handle_challenge_response,
}

module _ {Cert Key : Type 0} (env : Env Cert) (u : ℕ) where
  abbrev Challenges : World Cert Key → World Cert Key → Type 0
  Challenges = Step u (challenged ∷ [])

  forward_challenge-Step :
      (w : World Cert Key) (c : ℕ) (name : Name)
      → c ≢ u
      → Challenges w (forward_challenge env u c name w).1
  unfolding forward_challenge send_cancel call
  forward_challenge-Step w c name ne = elim (Bool-cases (env.succeeds (length w.calls))) [
    | inl e ↦ rw e (
        call-Step env (send_msg c _)
        >-> put_state-Step u challenged (inl refl) tt
        >-> put_opponent-Step u _
        >-> put_state_other-Step c challenged ne tt
        >-> put_opponent-Step c _)
    | inr e ↦ rw e (
        call-Step env (send_msg c _)
        >-> put_state_other-Step c disconnected ne tt
        >-> call-Step env _)
  ]

  challenge_user-Step :
      (w : World Cert Key) (c : ℕ) (name : Name)
      → c ≢ u
      → Challenges w (challenge_user env u c name w).1
  unfolding challenge_user send_cancel
  challenge_user-Step w c name ne =
      let locked = (double_lock u c w).1 in
      elim (Bool-cases (state_eq (deref (heap_of locked) u).state available)) [
        | inl me ↦ elim (Bool-cases (state_eq (deref (heap_of locked) c).state available)) [
          | inl other ↦
              rw (me, other)
                (double_lock-Step u c >-> forward_challenge-Step _ c name ne >-> leave-Step c _ ne)
          | inr other ↦
              rw (me, other) (double_lock-Step u c >-> call-Step env _ >-> leave-Step c _ ne)
        ]
        | inr me ↦ rw me (double_lock-Step u c >-> leave-Step c _ ne)
      ]

  challenge_found-Step :
      (w : World Cert Key) (name : Name) (found : Option ℕ)
      → Challenges w (challenge_found env u name found w).1
  unfolding challenge_found send_cancel
  challenge_found-Step w name none = call-Step env _
  challenge_found-Step w name (some c) = elim (ℕ_discrete c u) [
    | yes e ↦ let same : (c == u) ≡ true = ground arith in rw same (call-Step env _)
    | no ne ↦
        let other : (c == u) ≡ false = ground arith in rw other (challenge_user-Step w c name ne)
  ]

  pub handle_challenge-Step :
      (w : World Cert Key) (name : Name) → Challenges w (handle_challenge env u name w).1
  unfolding handle_challenge
  handle_challenge-Step w name = get_by_name-Step name >-> challenge_found-Step _ name _

  abbrev Responds : World Cert Key → World Cert Key → Type 0
  Responds = Step u (available ∷ playing ∷ disconnected ∷ [])

  cancel_or_drop-Step :
      (w : World Cert Key) (p : ℕ) (name : Name) → Responds w (cancel_or_drop env p name w).1
  unfolding cancel_or_drop send_cancel call
  cancel_or_drop-Step w p name = elim (Bool-cases (env.succeeds (length w.calls))) [
    | inl e ↦ rw e (
        call-Step env (send_msg p (game_cancel_message name))
        >-> put_state-Step p available (inl refl) tt)
    | inr e ↦ rw e (
        call-Step env (send_msg p (game_cancel_message name))
        >-> put_state-Step p disconnected (inr (inr (inl refl))) tt)
  ]

  settle-Step : (w : World Cert Key) (c : ℕ) (b b' : Bool) → Responds w (settle env u c b b' w).1
  unfolding settle
  settle-Step w c true true =
      put_state-Step u playing (inr (inl refl)) tt >-> put_state-Step c playing (inr (inl refl)) tt
  settle-Step w c false false =
      put_state-Step c disconnected (inr (inr (inl refl))) tt
      >-> put_state-Step u disconnected (inr (inr (inl refl))) tt
  settle-Step w c false true = cancel_or_drop-Step w c _
  settle-Step w c true false = cancel_or_drop-Step w u _

  start_game-Step :
      (w : World Cert Key) (c port : ℕ) (oc uc : Cert)
      → Responds w (start_game env u c port oc uc w).1
  unfolding start_game
  start_game-Step w c port oc uc = call-Step env _ >-> call-Step env _ >-> settle-Step _ c _ _

  accept-Step : (w : World Cert Key) (c port : ℕ) → c ≢ u → Responds w (accept env u c port w).1
  unfolding accept send_cancel
  accept-Step w c port ne = elim (Bool-cases (state_eq (deref (heap_of w) u).state challenged)) [
    | inr me ↦ rw me (leave-Step c _ ne)
    | inl me ↦ elim (Bool-cases (state_eq (deref (heap_of w) c).state challenged)) [
      | inr other ↦ rw (me, other) (call-Step env _ >-> leave-Step c _ ne)
      | inl other ↦ elim (Option-cases (find (deref (heap_of w) c).username env.cert_map)) [
        | inl e ↦ rw (me, other, e) (leave-Step c _ ne)
        | inr (oc, e) ↦ elim (Option-cases (find (deref (heap_of w) u).username env.cert_map)) [
          | inl e' ↦ rw (me, other, e, e') (leave-Step c _ ne)
          | inr (uc, e') ↦
              rw (me, other, e, e') (start_game-Step _ c port oc uc >-> leave-Step c _ ne)
        ]
      ]
    ]
  ]

  reject-Step : (w : World Cert Key) (c : ℕ) → c ≢ u → Responds w (reject env u c w).1
  unfolding reject
  reject-Step w c ne =
      put_state-Step u available (inl refl) tt >-> cancel_or_drop-Step _ c _ >-> leave-Step c _ ne

  pub handle_response-Step :
      (w : World Cert Key) (response : Bool) (port : ℕ)
      → Responds w (handle_challenge_response env u response port w).1
  unfolding handle_challenge_response send_cancel get_by_name find
  handle_response-Step w response port =
      let name = (deref (heap_of w) u).opponent_username in
      elim (Option-cases (get_by_name w.users name).1) [
        | inl none_found ↦
            rw none_found (
              get_by_name-Step name
              >-> put_state-Step u available (inl refl) tt
              >-> call-Step env _)
        | inr (c, found) ↦ elim (ℕ_discrete c u) [
          | yes e ↦
              let same : (c == u) ≡ true = ground arith in
              rw (found, same)
                (get_by_name-Step name
                  >-> put_state-Step u available (inl refl) tt
                  >-> call-Step env _)
          | no ne ↦
              let other : (c == u) ≡ false = ground arith in
              elim (Bool-cases response) [
                | inl e ↦
                    rw (found, other, e)
                      (get_by_name-Step name >-> double_lock-Step u c >-> accept-Step _ c port ne)
                | inr e ↦
                    rw (found, other, e)
                      (get_by_name-Step name >-> double_lock-Step u c >-> reject-Step _ c ne)
              ]
        ]
      ]
