-- ===== src/Client/Single/Whole.antt =====
-- The whole of playSinglePlayer of src/client/single_player.cpp.
mod Tests
use native.Mathlib.Decide.{ℕ_discrete}
use four_in_a_row.Base.{
  ℕ, ◌≤◌, ◌<◌, ◌≡◌, ◌≢◌, refl, inl, inr, Option, none, some, List, [], ◌∷◌, All, arith,
}
use four_in_a_row.Board.{Board, new}
use four_in_a_row.Board.Grid.{Inv}
use four_in_a_row.Board.Play.{new-Inv}
use four_in_a_row.Client.Parse.{ask_column-range}
use four_in_a_row.Client.{Asked, waits, end_of_input, answer, ask_column, ask_player}
use four_in_a_row.Client.Start.{new_game, HasMarkers, ask_player-HasMarkers}
use four_in_a_row.Client.Single.{
  State, next_round, over, no_number, single_round, Playing, Goes, Has, single_round_ends,
}

-- The lines that the user types for a column, and the numbers that `rand` gives in the round.
abbrev pub Inputs : Type 0
Inputs = List (Option (List ℕ)) × List ℕ

-- How far the function gets: it waits for a line of the user, or looks for a number that `rand` has
-- not given, or has returned, with the board at that time. `none` is an access outside the board.
pub data Stage : Type 0 where
  wants_line wants_number : Board → Stage
  returned : Board → ℕ → Stage

abbrev pub Ending : Type 0
Ending = Option Stage

abbrev pub after_round : (Board → Ending) → Option State → Ending
after_round again none = none
after_round again (some (next_round c)) = again c
after_round again (some (over c)) = some (returned c 0)
after_round again (some (no_number c)) = some (wants_number c)

abbrev pub after_column : (Board → Ending) → Board → List ℕ → Asked ℕ → Ending
after_column again c rs waits = some (wants_line c)
after_column again c rs end_of_input = some (returned c 1)
after_column again c rs (answer choosen_col) = after_round again (single_round c choosen_col rs)

-- The outer loop.
unfoldable pub single_rounds : Board → List Inputs → Ending
unfolding single_round ask_column
single_rounds c [] = some (wants_line c)
single_rounds c ((lines, rs) ∷ more) =
    after_column (λ c'. single_rounds c' more) c rs (ask_column lines)

abbrev pub with_marker : List Inputs → Asked Board → Ending
with_marker more waits = some (wants_line new_game)
with_marker more end_of_input = some (returned new_game 1)
with_marker more (answer c) = single_rounds c more

unfoldable pub play_single_player : List (Option (List ℕ)) → List Inputs → Ending
unfolding single_rounds ask_player
play_single_player markers more = with_marker more (ask_player new_game markers)

-- The numbers suffice for a round, and the column that is typed is not 0.
abbrev pub Suits : Inputs → Type 0
Suits (lines, rs) = (ask_column lines ≢ answer 0) × ((k : ℕ) → k < 7 → Has k rs)

-- No access outside the board, and no want of a number.
abbrev pub Stays : Ending → Type 0
Stays none = ⊥
Stays (some (wants_number c)) = ⊥
Stays (some (wants_line c)) = Inv c
Stays (some (returned c code)) = Inv c

after_round-Stays :
    (again : Board → Ending) (s : State)
    → ((d : Board) → Playing d → Stays (again d))
    → Goes s
    → Stays (after_round again (some s))
after_round-Stays again (next_round d) go good = go d good
after_round-Stays again (over d) go good = good
after_round-Stays again (no_number d) go good = absurd good

after_column-Stays :
    (again : Board → Ending) (c : Board) (rs : List ℕ) (lines : List (Option (List ℕ)))
    → Playing c
    → Suits (lines, rs)
    → ((d : Board) → Playing d → Stays (again d))
    → (a : Asked ℕ) → ask_column lines ≡ a
    → Stays (after_column again c rs a)
after_column-Stays again c rs lines v (typed, all) go waits e = v.inv
after_column-Stays again c rs lines v (typed, all) go end_of_input e = v.inv
after_column-Stays again c rs lines v (typed, all) go (answer n) e =
    let low : 1 ≤ n = elim (ℕ_discrete n 0) [
      | yes z ↦ absurd (typed (rw (← z) e))
      | no other ↦ omega arith
    ] in
    let (s, ends, good) = single_round_ends c n rs v low (ask_column-range lines n e) all in
    rw ends (after_round-Stays again s go good)

single_rounds-Stays :
    (more : List Inputs) (c : Board) → Playing c → All Suits more → Stays (single_rounds c more)
unfolding single_rounds
single_rounds-Stays [] c v all = v.inv
single_rounds-Stays ((lines, rs) ∷ more) c v (suits, all) =
    after_column-Stays (λ d. single_rounds d more) c rs lines v suits
      (λ d playing. single_rounds-Stays more d playing all) (ask_column lines) refl

new_game-Playing : (c : Board) → HasMarkers new_game c → Playing c
unfolding new
new_game-Playing c (inl x) = rw x (record {
  inv = new-Inv 6 7 b'X' b'O';
  room = refl;
  width = refl;
  player = omega arith;
  adversary = omega arith;
})
new_game-Playing c (inr o) = rw o (record {
  inv = new-Inv 6 7 b'O' b'X';
  room = refl;
  width = refl;
  player = omega arith;
  adversary = omega arith;
})

with_marker-Stays :
    (markers : List (Option (List ℕ))) (more : List Inputs)
    → All Suits more
    → (a : Asked Board) → ask_player new_game markers ≡ a
    → Stays (with_marker more a)
with_marker-Stays markers more all waits e = new-Inv 6 7 0 0
with_marker-Stays markers more all end_of_input e = new-Inv 6 7 0 0
with_marker-Stays markers more all (answer c) e =
    single_rounds-Stays more c (new_game-Playing c (ask_player-HasMarkers new_game c markers e)) all

-- A game against the computer in which no column 0 is typed and every column comes up among the
-- numbers of a round never leaves the board and never wants a number: it waits for a line, or has
-- returned, in both cases with a board that keeps the invariant.
pub play_single_player-Stays :
    (markers : List (Option (List ℕ))) (more : List Inputs)
    → All Suits more
    → Stays (play_single_player markers more)
unfolding play_single_player
play_single_player-Stays markers more all =
    with_marker-Stays markers more all (ask_player new_game markers) refl
