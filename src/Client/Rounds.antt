-- ===== src/Client/Rounds.antt =====
-- Two runs of playWithPlayer of src/client/multi_player.cpp against each other.
use four_in_a_row.Base.{ℕ, true, Option, none, some, List, [], ◌∷◌}
use four_in_a_row.Board.{Board}
use four_in_a_row.Client.{Turn, my_turn, their_turn, Game, Progress, going, own_turn, peer_turn}

abbrev pub both : Progress → Option Progress → Option (Progress × Progress)
both p none = none
both p (some q) = some (p, q)

-- The move arrives as it was sent; without a move the other side still waits.
abbrev pub delivered : Board → Option (Progress × Option ℕ) → Option (Progress × Progress)
delivered d none = none
delivered d (some (p, none)) = some (p, going (record { c = d; turn = their_turn }))
delivered d (some (p, some byte)) = both p (peer_turn d (some byte))

-- A round: the side `c` moves and the side `d` receives.
unfoldable pub round : Board → Board → ℕ → Option (Progress × Progress)
round c d choosen_col = delivered d (own_turn true c choosen_col)

abbrev pub swap : Option (Progress × Progress) → Option (Progress × Progress)
swap none = none
swap (some (p, q)) = some (q, p)

abbrev pub on_turn : Turn → Board → Board → ℕ → Option (Progress × Progress)
on_turn my_turn c d choosen_col = round c d choosen_col
on_turn their_turn c d choosen_col = swap (round d c choosen_col)

abbrev pub go_on :
    (Game → Game → Option (Progress × Progress))
    → Option (Progress × Progress)
    → Option (Progress × Progress)
go_on rest none = none
go_on rest (some (going a, going b)) = rest a b
go_on rest (some (p, q)) = some (p, q)

-- The rounds for the columns that the users choose, by whose turn it is for the first side.
unfoldable pub rounds : Game → Game → List ℕ → Option (Progress × Progress)
rounds a b [] = some (going a, going b)
rounds a b (n ∷ ns) = go_on (λ a' b'. rounds a' b' ns) (on_turn a.turn a.c b.c n)
