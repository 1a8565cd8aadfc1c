-- ===== src/Board/Tests.antt =====
-- The theorems on src/client/connect4.cpp on small boards.
use four_in_a_row.Base.{ℕ, ◌<◌, ◌≡◌, ◌≢◌, refl, ◌⊎◌, inr, ◌↔◌, true, some, [], ◌∷◌, arith}
use four_in_a_row.Base.Int.{pos, negsuc, ◌+ℤ◌, neg}
use four_in_a_row.Board.{
  Board, Outcome, column_full, new, offset, load, place, drop_token, play, check_win, count_loop,
  count_nexts, wins_along, marked,
}
use four_in_a_row.Board.Grid.{cell, Inv}
use four_in_a_row.Board.Landing.{Landed}
use four_in_a_row.Board.Win.{HasLine, check_win_iff, count_nexts_ends}
use four_in_a_row.Board.Play.{play_lands, play-Inv, new-Inv}

-- One row of four tokens.
abbrev four : Board
four = record {
  rows = 1;
  cols = 4;
  size = 4;
  full = true;
  cells = b'X' ∷ b'X' ∷ b'X' ∷ b'X' ∷ [];
  player = b'X';
  adversary = b'O';
}

abbrev empty_board : Board
empty_board = new 6 7 b'X' b'O'

check_win_iff_example :
    (check_win four (pos 0) (pos 2) b'X' ≡ true) ↔ HasLine four b'X' (pos 0) (pos 2)
check_win_iff_example = check_win_iff four b'X' (pos 0) (pos 2) (omega arith)

four_wins : check_win four (pos 0) (pos 2) b'X' ≡ true
unfolding check_win wins_along count_nexts count_loop marked ◌+ℤ◌ neg
four_wins = refl

count_nexts_ends_example :
    count_loop 20 four b'X' (pos 0 +ℤ pos 0) (pos 0 +ℤ pos 1) (pos 0) (pos 1)
    ≡ count_nexts four b'X' (pos 0) (pos 0) (pos 0) (pos 1)
count_nexts_ends_example =
    count_nexts_ends four b'X' (pos 0) (pos 0) (pos 0) (pos 1) 20 (inr (λ e. cc)) (omega arith)

play_lands_example :
    ((play empty_board (pos 3) b'X' ≡ some (empty_board, column_full))
      × ((i : ℕ) → i < 6 → cell empty_board i 3 ≢ 0))
    ⊎ ((r : ℕ) × (q : Board × Outcome) × (play empty_board (pos 3) b'X' ≡ some q)
        × Landed empty_board 3 b'X' r q)
unfolding new
play_lands_example =
    play_lands empty_board 3 b'X' (new-Inv 6 7 b'X' b'O') refl (omega arith) (omega arith)

first_move : play empty_board (pos 3) b'X' ≡ some (place empty_board 5 (pos 3) b'X')
unfolding play drop_token load offset new ◌+ℤ◌
first_move = refl

play-Inv_example : Inv (place empty_board 5 (pos 3) b'X').0
unfolding new
play-Inv_example =
    play-Inv empty_board 3 b'X' (place empty_board 5 (pos 3) b'X') (new-Inv 6 7 b'X' b'O')
      (omega arith) (omega arith) first_move

-- A column left of the board is not refused: the token lands at the end of the row above.
column_minus_one : play empty_board (negsuc 0) b'X' ≡ some (place empty_board 5 (negsuc 0) b'X')
unfolding play drop_token load offset new ◌+ℤ◌
column_minus_one = refl

lands_above : offset empty_board 5 (negsuc 0) ≡ offset empty_board 4 (pos 6)
unfolding offset new ◌+ℤ◌
lands_above = refl
