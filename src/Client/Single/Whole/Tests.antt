-- ===== src/Client/Single/Whole/Tests.antt =====
-- playSinglePlayer of src/client/single_player.cpp with four tokens in one column, and with the end
-- of the input.
use four_in_a_row.Base.{ℕ, ◌≡◌, ◌<◌, ◌∙◌, sym, arith, refl, none, some, List, [], ◌∷◌, Option}
use four_in_a_row.Base.Int.{◌+ℤ◌, neg}
use four_in_a_row.Board.{
  set_player, play, new, drop_token, load, offset, place, check_win, wins_along, count_nexts,
  count_loop, marked, store,
}
use four_in_a_row.Client.{answer, ask_player, ask_column, parse_line}
use four_in_a_row.Client.Single.{Has, single_round, computer_turn}
use four_in_a_row.Client.Single.Whole.{
  Ending, returned, Inputs, Suits, Stays, play_single_player, single_rounds,
  play_single_player-Stays,
}

abbrev x_line : List (Option (List ℕ))
x_line = some (b'x' ∷ []) ∷ []

abbrev code_of : Ending → Option ℕ
code_of (some (returned c code)) = some code
code_of other = none

-- Column 1 against the computer in column 6.
abbrev one_round : Inputs
one_round = (some (b'1' ∷ []) ∷ [], 5 ∷ [])

four_in_a_column :
    code_of (play_single_player x_line (one_round ∷ one_round ∷ one_round ∷ one_round ∷ []))
    ≡ some 0
unfolding play_single_player single_rounds single_round computer_turn ask_player ask_column
    parse_line set_player play new drop_token load offset ◌+ℤ◌ place check_win wins_along
    count_nexts count_loop marked neg store
four_in_a_column = refl

broken_off : code_of (play_single_player x_line ((none ∷ [], []) ∷ [])) ≡ some 1
unfolding play_single_player single_rounds ask_player ask_column parse_line set_player
broken_off = refl

abbrev all_numbers : List ℕ
all_numbers = 5 ∷ 0 ∷ 1 ∷ 2 ∷ 3 ∷ 4 ∷ 6 ∷ []

abbrev full_round : Inputs
full_round = (some (b'1' ∷ []) ∷ [], all_numbers)

typed_one : ask_column full_round.0 ≡ answer 1
unfolding ask_column parse_line
typed_one = refl

numbers_suffice : (k : ℕ) → k < 7 → Has k all_numbers
numbers_suffice k h = ground arith

full_round-Suits : Suits full_round
full_round-Suits = ((λ z. let e = sym typed_one ∙ z in absurd (cc)), numbers_suffice)

play_single_player-Stays_example :
    Stays (play_single_player x_line (full_round ∷ full_round ∷ full_round ∷ full_round ∷ []))
play_single_player-Stays_example =
    play_single_player-Stays x_line (full_round ∷ full_round ∷ full_round ∷ full_round ∷ [])
      (full_round-Suits, (full_round-Suits, (full_round-Suits, (full_round-Suits, tt))))
