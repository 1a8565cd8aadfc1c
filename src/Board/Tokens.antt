-- ===== src/Board/Tokens.antt =====
-- Where the tokens of a player lie, for `countNexts` of src/client/connect4.cpp.
use four_in_a_row.Base.{ℕ, ◌≡◌, ◌<◌, refl, true, arith}
use four_in_a_row.Base.Int.{ℤ, pos, negsuc, pos_part, neg_part}
use four_in_a_row.Board.{Board, marked}
use four_in_a_row.Board.Grid.{cell}

-- The place (i, j) lies on the board and holds the player's token.
abbrev pub HasToken : Board → ℕ → ℤ → ℤ → Type 0
HasToken b player (pos i) (pos j) = (i < b.rows) × (j < b.cols) × (cell b i j ≡ player)
HasToken b player (pos i) (negsuc j) = ⊥
HasToken b player (negsuc i) j = ⊥

pub marked→HasToken :
    (b : Board) (player : ℕ) (i j : ℤ) → marked b player i j ≡ true → HasToken b player i j
unfolding marked
marked→HasToken b player (pos i) (pos j) h = (ground arith, ground arith, ground arith)
marked→HasToken b player (pos i) (negsuc j) h = absurd (cc)
marked→HasToken b player (negsuc i) j h = absurd (cc)

pub HasToken→marked :
    (b : Board) (player : ℕ) (i j : ℤ) → HasToken b player i j → marked b player i j ≡ true
unfolding marked
HasToken→marked b player (pos i) (pos j) (r, c, e) = ground (arith, r, c, e)
HasToken→marked b player (pos i) (negsuc j) h = absurd h
HasToken→marked b player (negsuc i) j h = absurd h

pub token_inside :
    (b : Board) (player : ℕ) (i j : ℤ)
    → HasToken b player i j
    → (pos_part i < b.rows) × (neg_part i ≡ 0) × (pos_part j < b.cols) × (neg_part j ≡ 0)
token_inside b player (pos i) (pos j) (r, c, e) = (r, refl, c, refl)
token_inside b player (pos i) (negsuc j) h = absurd h
token_inside b player (negsuc i) j h = absurd h
