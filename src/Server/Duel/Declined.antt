-- ===== src/Server/Duel/Declined.antt =====
-- A challenge that handleChallengeMessage of src/server/server.cpp does not pass on.
use four_in_a_row.Base.{ℕ, ◌≡◌, ◌⊎◌, false, Option, none, some, [], ◌∷◌, ◌++◌}
use four_in_a_row.Server.Map.{Name, name_key}
use four_in_a_row.Server.User.{UserState, deref, state_eq, available, disconnected}
use four_in_a_row.Server.World.{World, Env}
use four_in_a_row.Server.Duel.Game.{cancelled}

-- Somebody who is neither available nor disconnected.
abbrev pub Busy : UserState → Type 0
Busy s = (state_eq s available ≡ false) × (state_eq s disconnected ≡ false)

module _ {Cert Key : Type 0} where
  -- Nobody has the name, or the challenger himself, or somebody who is busy.
  abbrev pub Declines : ℕ → World Cert Key → Option ℕ → Type 0
  Declines u w none = Unit
  Declines u w (some c) = (c ≡ u) ⊎ Busy (deref w.users.heap c).state

  module _ (env : Env Cert) (u : ℕ) (name : Name) where
    abbrev pub with_cancel : World Cert Key → World Cert Key
    with_cancel w = record w { calls = w.calls ++ cancelled u name ∷ [] }
