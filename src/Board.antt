-- ===== src/Board.antt =====
-- The game board: src/client/connect4.cpp and src/client/connect4.h, class Connect4.
-- A `char` is its code, a cell 0 is empty, and a column is an `int`, so it may be negative.
-- `none` is an access outside the array `cells_`.
pub mod Tokens
pub mod Win
pub mod Grid
pub mod Landing
pub mod Play
pub mod Mirror
mod Tests
use four_in_a_row.Base.{
  ℕ, zero, suc, ◌+◌, ◌*◌, ◌-◌, Bool, true, false, ◌&&◌, ◌||◌, Option, none, some, List, [], ◌∷◌,
  ltb, leb, ◌==◌, if◌then◌else◌, get_elem?, get_or, set, replicate,
}
use four_in_a_row.Base.Int.{ℤ, pos, negsuc, ◌+ℤ◌, neg}

pub record Board : Type 0 where
  pub rows : ℕ
  pub cols : ℕ
  pub size : ℕ
  pub full : Bool
  pub cells : List ℕ
  pub player : ℕ
  pub adversary : ℕ

-- What `play` returns: 1, 0, -1 and -2.
pub data Outcome : Type 0 where
  win placed column_full board_full : Outcome

abbrev pub n_in_a_row : ℕ
n_in_a_row = 4

-- The constructor leaves the two markers unset; the model takes them as arguments.
unfoldable pub new : ℕ → ℕ → ℕ → ℕ → Board
new rows columns player adversary = record {
  rows = rows;
  cols = columns;
  size = rows * columns;
  full = false;
  cells = replicate (rows * columns) 0;
  player = player;
  adversary = adversary;
}

-- The offset `i * cols_ + col` into `cells_`.
unfoldable pub offset : Board → ℕ → ℤ → ℤ
offset b i col = pos (i * b.cols) +ℤ col

-- `cells_[o]`
unfoldable pub load : List ℕ → ℤ → Option ℕ
load cells (pos n) = get_elem? cells n
load cells (negsuc n) = none

-- `cells_[o] = v`, at an offset that was read before.
unfoldable pub store : List ℕ → ℤ → ℕ → List ℕ
store cells (pos n) v = set cells n v
store cells (negsuc n) v = cells

-- The loop guard `i >= 0 && j >= 0 && i < rows_ && j < cols_`, and `cells_[i*cols_+j] == player`.
unfoldable pub marked : Board → ℕ → ℤ → ℤ → Bool
marked b player (pos i) (pos j) =
    ltb i b.rows && ltb j b.cols && (get_or b.cells (i * b.cols + j) 0 == player)
marked b player (pos i) (negsuc j) = false
marked b player (negsuc i) j = false

-- The loop of `countNexts` from (i, j) on.
unfoldable pub count_loop : ℕ → Board → ℕ → ℤ → ℤ → ℤ → ℤ → ℕ
count_loop zero b player i j di dj = 0
count_loop (suc fuel) b player i j di dj =
    let rest = count_loop fuel b player (i +ℤ di) (j +ℤ dj) di dj in
    if marked b player i j then suc rest else 0

-- A line leaves the board after at most `rows_ + cols_` cells.
abbrev pub line_fuel : Board → ℕ
line_fuel b = b.rows + b.cols + 4

unfoldable pub count_nexts : Board → ℕ → ℤ → ℤ → ℤ → ℤ → ℕ
count_nexts b player row col di dj = count_loop (line_fuel b) b player (row +ℤ di) (col +ℤ dj) di dj

-- The body of the two loops of `checkWin` at one direction.
unfoldable pub wins_along : Board → ℕ → ℤ → ℤ → ℤ → ℤ → Bool
wins_along b player row col di dj =
    leb (n_in_a_row - 1)
      (count_nexts b player row col di dj + count_nexts b player row col (neg di) (neg dj))

-- The loops visit (1, 1), (1, 0), (0, 1), and (-1, 1) in place of (0, 0), which ends both.
unfoldable pub check_win : Board → ℤ → ℤ → ℕ → Bool
check_win b row col marker =
    let player = if marker == 0 then b.player else marker in
    wins_along b player row col (pos 1) (pos 1)
    || wins_along b player row col (pos 1) (pos 0)
    || wins_along b player row col (pos 0) (pos 1)
    || wins_along b player row col (negsuc 0) (pos 1)

-- The loop of `checkFullTopRow` with `n` columns left, on the cells from column `j` on.
unfoldable pub full_from : ℕ → List ℕ → Bool
full_from zero cells = true
full_from (suc n) [] = true
full_from (suc n) (c ∷ cells) = if c == 0 then false else full_from n cells

unfoldable pub check_full_top_row : Board → Bool
check_full_top_row b = full_from b.cols b.cells

-- The body of the loop of `play` at the empty cell (i, col).
unfoldable pub place : Board → ℕ → ℤ → ℕ → Board × Outcome
place b i col player =
    let b' = record b { cells = store b.cells (offset b i col) player } in
    if check_win b' (pos i) col player
    then (b', win)
    else if i == 0 && check_full_top_row b'
    then (record b' { full = true }, board_full)
    else (b', placed)

-- The loop of `play` over the rows below `n`, from row `n - 1` upwards.
unfoldable pub drop_token : ℕ → Board → ℤ → ℕ → Option (Board × Outcome)
drop_token zero b col player = some (b, column_full)
drop_token (suc i) b col player =
    let rest = drop_token i b col player in
    elim (load b.cells (offset b i col)) [
      | none ↦ none
      | some c ↦ if c == 0 then some (place b i col player) else rest
    ]

unfoldable pub play : Board → ℤ → ℕ → Option (Board × Outcome)
play b col marker =
    let player = if marker == 0 then b.player else marker in
    if b.full then some (b, board_full) else drop_token b.rows b col player

-- `toupper` on the four letters that pass the test: 'X' 'x' 'O' 'o'.
unfoldable pub set_player : Board → ℕ → Board × Bool
set_player b player =
    if player == b'X' || player == b'x'
    then (record b { player = b'X'; adversary = b'O' }, true)
    else if player == b'O' || player == b'o'
    then (record b { player = b'O'; adversary = b'X' }, true)
    else (b, false)
