-- ===== src/Client/Tests.antt =====
-- The theorems on src/client/multi_player.cpp and src/utils/args.cpp at a short game.
use four_in_a_row.Base.{ℕ, ◌≤◌, ◌≡◌, refl, Option, some, List, [], ◌∷◌, All, arith}
use four_in_a_row.Board.{set_player, play}
use four_in_a_row.Board.Mirror.{Renaming, mirror, mirrored, play-mirror}
use four_in_a_row.Client.{parse_line, Progress, my_turn, their_turn, ask_player, ask_column}
use four_in_a_row.Client.Parse.{join, parse_line-join, ask_column-range}
use four_in_a_row.Client.Rounds.{rounds}
use four_in_a_row.Client.Match.{Agree}
use four_in_a_row.Base.{◌<◌}
use four_in_a_row.Board.{Board, new}
use four_in_a_row.Board.Play.{new-Inv}
use four_in_a_row.Client.Single.{State, Playing, Has, Goes, single_round, single_round_ends}
use four_in_a_row.Client.Start.{
  new_game, plays_x, players-Agree, swap_markers, swap_markers-Renaming,
}
use four_in_a_row.Base.Int.{pos}

-- "hi x" is no marker, "x" is one.
abbrev lines : List (Option (List ℕ))
lines = some (b'h' ∷ b'i' ∷ b' ' ∷ b'x' ∷ []) ∷ some (b'x' ∷ []) ∷ []

four_one : All (λ n. (1 ≤ n) × (n ≤ 7)) (4 ∷ 1 ∷ 4 ∷ 1 ∷ 4 ∷ 1 ∷ 4 ∷ [])
four_one =
    let four : (1 ≤ 4) × (4 ≤ 7) = (omega arith, omega arith) in
    let one : (1 ≤ 1) × (1 ≤ 7) = (omega arith, omega arith) in
    (four, (one, (four, (one, (four, (one, (four, tt)))))))

players-Agree_example :
    (f : ℕ → ℕ) × Renaming f
    × (p : Progress × Progress) × (rounds
          (record { c = plays_x new_game; turn = my_turn })
          (record { c = plays_x new_game; turn = their_turn })
          (4 ∷ 1 ∷ 4 ∷ 1 ∷ 4 ∷ 1 ∷ 4 ∷ [])
        ≡ some p)
    × Agree f p.0 p.1
unfolding ask_player set_player parse_line
players-Agree_example =
    players-Agree lines (some (b'X' ∷ []) ∷ []) (plays_x new_game) (plays_x new_game)
      (4 ∷ 1 ∷ 4 ∷ 1 ∷ 4 ∷ 1 ∷ 4 ∷ []) refl refl four_one

parse_line-join_example :
    parse_line (join ((b'a' ∷ b'b' ∷ []) ∷ (b'c' ∷ []) ∷ []))
    ≡ (b'a' ∷ b'b' ∷ []) ∷ (b'c' ∷ []) ∷ []
parse_line-join_example = parse_line-join ((b'a' ∷ b'b' ∷ []) ∷ (b'c' ∷ []) ∷ []) (
  ((λ e. cc), ((λ e. omega arith), ((λ e. omega arith), tt))),
  ((((λ e. cc), ((λ e. omega arith), tt))), tt),
)

six_in_range : 6 ≤ 7
unfolding ask_column parse_line
six_in_range = ask_column-range (some (b'9' ∷ []) ∷ some (b'6' ∷ []) ∷ []) 6 refl

play-mirror_example :
    play (mirror swap_markers (plays_x new_game)) (pos 3) (swap_markers b'X')
    ≡ mirrored swap_markers (play (plays_x new_game) (pos 3) b'X')
play-mirror_example =
    play-mirror swap_markers swap_markers-Renaming (plays_x new_game) (pos 3) b'X' (omega arith)

abbrev a_board : Board
a_board = new 6 7 b'X' b'O'

a_board-Playing : Playing a_board
unfolding new
a_board-Playing = record {
  inv = new-Inv 6 7 b'X' b'O';
  room = refl;
  width = refl;
  player = omega arith;
  adversary = omega arith;
}

abbrev numbers : List ℕ
numbers = 10 ∷ 0 ∷ 1 ∷ 2 ∷ 4 ∷ 5 ∷ 6 ∷ []

all_columns : (k : ℕ) → k < 7 → Has k numbers
all_columns k h = ground arith

single_round_ends_example : (s : State) × (single_round a_board 4 numbers ≡ some s) × Goes s
single_round_ends_example =
    single_round_ends a_board 4 numbers a_board-Playing (omega arith) (omega arith) all_columns
