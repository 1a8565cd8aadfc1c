-- ===== src/Client.antt =====
-- A game between two users: src/utils/args.cpp and playWithPlayer of src/client/multi_player.cpp.
-- A line of input is `none` at the end of the input, otherwise its bytes.
pub mod Parse
pub mod Rounds
pub mod Moves
pub mod Match
pub mod Start
pub mod Peers
pub mod Lobby
pub mod Single
pub mod Main
mod Tests
use four_in_a_row.Base.{
  ℕ, suc, ◌+◌, ◌-◌, ◌%◌, Bool, true, false, ◌&&◌, Option, none, some, List, [], ◌∷◌, ◌++◌, ltb, leb,
  ◌==◌, if◌then◌else◌,
}
use four_in_a_row.Base.Int.{ℤ, pos, negsuc, sub_ℕ}
use four_in_a_row.Board.{
  Board, Outcome, win, placed, column_full, board_full, new, play, set_player,
}

-- `word` holds the bytes since the last space.
abbrev pub split_from : List ℕ → List ℕ → List (List ℕ)
split_from [] [] = []
split_from (w ∷ word) [] = (w ∷ word) ∷ []
split_from word (ch ∷ line) =
    let next = split_from [] line in
    let more = split_from (word ++ (ch ∷ [])) line in if ch == b' ' then word ∷ next else more

unfoldable pub parse_line : List ℕ → List (List ℕ)
parse_line line = split_from [] line

-- What a loop that asks the user ends with, if the lines suffice.
pub data Asked (A : Type 0) : Type 0 where
  waits end_of_input : Asked A
  answer : A → Asked A

abbrev pub column_of_words : List (List ℕ) → Asked ℕ → Asked ℕ
column_of_words ((ch ∷ word) ∷ []) again =
    if leb b'0' ch && leb ch b'7' then answer (ch - b'0') else again
column_of_words words again = again

-- The inner loop that asks for a column; the answer is `choosen_col`, from 0 to 7.
unfoldable pub ask_column : List (Option (List ℕ)) → Asked ℕ
unfolding parse_line
ask_column [] = waits
ask_column (none ∷ lines) = end_of_input
ask_column (some line ∷ lines) =
    let again = ask_column lines in column_of_words (parse_line line) again

abbrev pub player_of_words : Board → List (List ℕ) → Asked Board → Asked Board
player_of_words c ((ch ∷ word) ∷ []) again =
    let q = set_player c ch in if q.1 then answer q.0 else again
player_of_words c words again = again

-- The loop that asks for the marker.
unfoldable pub ask_player : Board → List (Option (List ℕ)) → Asked Board
unfolding parse_line
ask_player c [] = waits
ask_player c (none ∷ lines) = end_of_input
ask_player c (some line ∷ lines) =
    let again = ask_player c lines in player_of_words c (parse_line line) again

pub data Turn : Type 0 where
  my_turn their_turn : Turn

pub record Game : Type 0 where
  pub c : Board
  pub turn : Turn

-- The loop of `playWithPlayer` after one round: it goes on, or the function has returned.
pub data Progress : Type 0 where
  going : Game → Progress
  returned : Board → ℕ → Progress

-- The column as the `char` of a MoveMessage, and back to an `int`.
abbrev pub char_of : ℤ → ℕ
char_of (pos n) = n % 256
char_of (negsuc n) = 255 - n % 256

abbrev pub int_of : ℕ → ℤ
int_of byte = if ltb byte 128 then pos byte else negsuc (255 - byte)

-- After the own move, with whether `sendMsg` succeeds.
abbrev pub after_own : Bool → Board × Outcome → Progress
after_own sent (c, win) = returned c (if sent then 0 else 1)
after_own sent (c, placed) =
    if sent then going (record { c = c; turn = their_turn }) else returned c 1
after_own sent (c, column_full) = going (record { c = c; turn = my_turn })
after_own sent (c, board_full) = returned c (if sent then 0 else 1)

-- The message that goes out, if any.
abbrev pub move_of : ℤ → Outcome → Option ℕ
move_of col column_full = none
move_of col _ = some (char_of col)

abbrev pub own_result : Bool → ℤ → Option (Board × Outcome) → Option (Progress × Option ℕ)
own_result sent col none = none
own_result sent col (some q) = some (after_own sent q, move_of col q.1)

-- A round of the user's own turn, with `choosen_col`. `none` is an access outside the board.
unfoldable pub own_turn : Bool → Board → ℕ → Option (Progress × Option ℕ)
own_turn sent c choosen_col =
    let col = sub_ℕ choosen_col 1 in own_result sent col (play c col c.player)

-- A full column ends the inner loop too, and the game goes on.
abbrev pub after_peer : Board × Outcome → Progress
after_peer (c, win) = returned c 0
after_peer (c, placed) = going (record { c = c; turn = my_turn })
after_peer (c, column_full) = going (record { c = c; turn = my_turn })
after_peer (c, board_full) = returned c 0

abbrev pub peer_result : Option (Board × Outcome) → Option Progress
peer_result none = none
peer_result (some q) = some (after_peer q)

-- A round of the other's turn, with the move that `receiveMsg` returns, or NULL.
unfoldable pub peer_turn : Board → Option ℕ → Option Progress
peer_turn c none = some (returned c 1)
peer_turn c (some byte) = peer_result (play c (int_of byte) c.adversary)
