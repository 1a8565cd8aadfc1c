-- ===== src/Server/Duel/Game.antt =====
-- A challenge and its answer: handleChallengeMessage and handleChallengeResponseMessage of
-- src/server/server.cpp, one after the other.
use four_in_a_row.Base.{ℕ, Bool, true, false, List, [], ◌∷◌, ◌++◌}
use four_in_a_row.Wire.Message.{challenge_forward_message, game_cancel_message, game_start_message}
use four_in_a_row.Server.Map.{Name, name_key}
use four_in_a_row.Server.User.{available, playing}
use four_in_a_row.Server.World.{World, Call, Env, send_msg}
use four_in_a_row.Server.Duel.Pair.{Pair}

-- The challenge on its way to `c`, and the three messages that can answer it.
abbrev pub forwarded : {Cert Key : Type 0} → ℕ → Name → Call Cert Key
forwarded c nu = send_msg c (challenge_forward_message nu)

abbrev pub cancelled : {Cert Key : Type 0} → ℕ → Name → Call Cert Key
cancelled p name = send_msg p (game_cancel_message name)

-- To `p`: the name, the certificate and the address of the other, with the port he listens on.
abbrev pub started : {Cert Key : Type 0} → Env Cert → ℕ → ℕ → Name → ℕ → Cert → Call Cert Key
started env p other name port cert =
    send_msg p (game_start_message name (record (env.address other) { sin_port = port }) cert)

module _ {Cert Key : Type 0} (env : Env Cert) (u c : ℕ) (nu nc : Name)
    (listing : List (Name × ℕ)) where
  -- What is left of a challenge of `u` to `c` when `c` has answered.
  abbrev pub Answered : Bool → ℕ → Cert → Cert → List (Call Cert Key) → World Cert Key → Type 0
  Answered true port uc cert' cs = Pair u c nu nc listing playing playing nc nu (
      ((cs ++ forwarded c nu ∷ []) ++ started env c u nu 0 uc ∷ [])
      ++ started env u c nc port cert' ∷ [])
  Answered false port uc cert' cs =
      Pair u c nu nc listing available available nc nu
        ((cs ++ forwarded c nu ∷ []) ++ cancelled u nc ∷ [])
