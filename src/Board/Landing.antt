-- ===== src/Board/Landing.antt =====
-- The body of the loop of `play` of src/client/connect4.cpp, at the lowest empty cell of a column.
use native.Mathlib.Decide.{ℕ_discrete}
use native.Mathlib.Nat.{mul-le-mul_right}
use four_in_a_row.Base.{
  ℕ, zero, suc, ◌+◌, ◌*◌, ◌≤◌, ◌<◌, ◌≡◌, ◌≢◌, refl, ◌↔◌, Bool, true, false, ◌&&◌, ◌==◌,
  if◌then◌else◌, get_or, length, length-set, arith,
}
use four_in_a_row.Base.Int.{pos}
use four_in_a_row.Board.{
  Board, Outcome, win, placed, column_full, board_full, offset, store, check_win,
  check_full_top_row, full_from, place,
}
use four_in_a_row.Board.Grid.{cell, Inv, offset-pos, cell-store, full_from_iff}
use four_in_a_row.Board.Win.{HasLine, check_win_iff}

-- `b` with the token `p` in row `r` of column `c`.
abbrev pub with_token : Board → ℕ → ℕ → ℕ → Board
with_token b r c p = record b { cells = store b.cells (offset b r (pos c)) p }

-- Every place of the board holds a token.
abbrev pub IsFull : Board → Type 0
IsFull b = (i j : ℕ) → i < b.rows → j < b.cols → cell b i j ≢ 0

-- A token `p` has come to rest in row `r` of column `c`, on the ground or on another token, and
-- the board and the result are `q`.
pub record Landed (b : Board) (c p r : ℕ) (q : Board × Outcome) : Type 0 where
  pub inside : r < b.rows
  pub empty : cell b r c ≡ 0
  pub supported : (i : ℕ) → r < i → i < b.rows → cell b i c ≢ 0
  pub cells : q.0.cells ≡ (with_token b r c p).cells
  pub others :
      (i j : ℕ)
      → i < b.rows
      → j < b.cols
      → cell (with_token b r c p) i j ≡ (if i == r && j == c then p else cell b i j)
  pub shape :
      (q.0.rows ≡ b.rows)
      × (q.0.cols ≡ b.cols)
      × (q.0.size ≡ b.size)
      × (q.0.player ≡ b.player)
      × (q.0.adversary ≡ b.adversary)
  pub won : (q.1 ≡ win) ↔ HasLine (with_token b r c p) p (pos r) (pos c)
  pub drawn : (q.1 ≡ board_full) ↔ ((q.1 ≢ win) × IsFull (with_token b r c p))
  pub flag : (q.0.full ≡ true) ↔ (q.1 ≡ board_full)
  pub room : q.1 ≢ column_full

-- On places alone, with `g i j` the content of row `i` and column `j`.
module _ (g : ℕ → ℕ → ℕ) (rows cols : ℕ) where
  -- In a settled board nothing lies above an empty cell.
  above_empty :
      ((i j : ℕ) → suc i < rows → j < cols → g i j ≢ 0 → g (suc i) j ≢ 0)
      → (r i c : ℕ) → c < cols
      → r < rows
      → g r c ≡ 0
      → i ≤ r
      → g i c ≡ 0
  above_empty keep zero i c p q e h = let z : i ≡ 0 = omega arith in rw z e
  above_empty keep (suc r) i c p q e h =
      let over : g r c ≡ 0 = elim (ℕ_discrete (g r c) 0) [
        | yes z ↦ z
        | no ne ↦ absurd (keep r c q p ne e)
      ] in
      elim (ℕ_discrete i (suc r)) [
        | yes same ↦ rw same e
        | no ne ↦ above_empty keep r i c p (omega arith) over (omega arith)
      ]

  -- A token on the ground or on another token leaves the board settled.
  token_settles :
      (r c p i j : ℕ)
      → ((i j : ℕ) → suc i < rows → j < cols → g i j ≢ 0 → g (suc i) j ≢ 0)
      → ((i : ℕ) → r < i → i < rows → g i c ≢ 0)
      → p ≢ 0
      → suc i < rows
      → j < cols
      → (if i == r && j == c then p else g i j) ≢ 0
      → (if suc i == r && j == c then p else g (suc i) j) ≢ 0
  token_settles r c p i j keep sup hp hi hj ne = ground (arith, keep i j hi hj, sup (suc i), ne)

pub settled-with_token :
    (b : Board) (c p r : ℕ)
    → Inv b
    → p ≢ 0
    → c < b.cols
    → r < b.rows
    → ((i : ℕ) → r < i → i < b.rows → cell b i c ≢ 0)
    → (i j : ℕ) → suc i < b.rows
    → j < b.cols
    → cell (with_token b r c p) i j ≢ 0
    → cell (with_token b r c p) (suc i) j ≢ 0
settled-with_token b c p r v hp hc hr sup i j hi hj =
    rw
      (
        cell-store b r c p i j v.area hr hc (omega arith) hj,
        cell-store b r c p (suc i) j v.area hr hc hi hj,
      )
      (token_settles (cell b) b.rows b.cols r c p i j v.settled sup hp hi hj)

pub length-with_token : (b : Board) (r c p : ℕ) → length (with_token b r c p).cells ≡ length b.cells
unfolding store
length-with_token b r c p = rw (offset-pos b r c) (length-set b.cells (r * b.cols + c) p)

module _ (b : Board) (c p r : ℕ) (v : Inv b) (lower : b.full ≡ false) (hp : p ≢ 0) (hc : c < b.cols)
    (hr : r < b.rows) (free : cell b r c ≡ 0)
    (sup : (i : ℕ) → r < i → i < b.rows → cell b i c ≢ 0) where
  tops :
      (full_from b.cols (with_token b r c p).cells ≡ true)
      ↔ ((j : ℕ) → j < b.cols → get_or (with_token b r c p).cells j 0 ≢ 0)
  tops = full_from_iff b.cols (with_token b r c p).cells (
      omega (
        arith,
        length-with_token b r c p,
        v.area,
        mul-le-mul_right {m = suc r} {n = b.rows} b.cols hr,
      ))

  top_row_iff :
      (check_full_top_row (with_token b r c p) ≡ true)
      ↔ ((j : ℕ) → j < b.cols → cell (with_token b r c p) 0 j ≢ 0)
  unfolding check_full_top_row
  top_row_iff =
      let zero_row : (j : ℕ) → 0 * b.cols + j ≡ j = λ j. omega arith in
      let (f, g) = tops in
      (λ e j hj. rw (zero_row j) (f e j hj), λ h. g (λ j hj. rw (zero_row j) at (h j hj)))

  -- The test of the code for a full board, made when the token lies in the top row.
  IsFull-iff :
      ((r == 0 && check_full_top_row (with_token b r c p)) ≡ true) ↔ IsFull (with_token b r c p)
  IsFull-iff = (
    λ e i j hi hj z. top_row_iff.0 (ground arith) j hj (
        above_empty (cell (with_token b r c p)) b.rows b.cols
          (settled-with_token b c p r v hp hc hr sup) i 0 j hj hi z (omega arith)),
    λ f. elim (ℕ_discrete r 0) [
      | yes z ↦ ground (arith, top_row_iff.1 (λ j hj. f 0 j (omega arith) hj))
      | no nz ↦ absurd (
          f 0 c (omega arith) hc (
            rw (cell-store b r c p 0 c v.area hr hc (omega arith) hc) (
              ground (
                arith,
                above_empty (cell b) b.rows b.cols v.settled r 0 c hc hr free (omega arith),
              ))))
    ],
  )

  line :
      (check_win (with_token b r c p) (pos r) (pos c) p ≡ true)
      ↔ HasLine (with_token b r c p) p (pos r) (pos c)
  line = check_win_iff (with_token b r c p) p (pos r) (pos c) hp

  rest :
      (q : Board × Outcome)
      → q.0.cells ≡ (with_token b r c p).cells
      → (q.0.rows ≡ b.rows)
        × (q.0.cols ≡ b.cols)
        × (q.0.size ≡ b.size)
        × (q.0.player ≡ b.player)
        × (q.0.adversary ≡ b.adversary)
      → ((q.1 ≡ win) ↔ HasLine (with_token b r c p) p (pos r) (pos c))
      → ((q.1 ≡ board_full) ↔ ((q.1 ≢ win) × IsFull (with_token b r c p)))
      → ((q.0.full ≡ true) ↔ (q.1 ≡ board_full))
      → q.1 ≢ column_full
      → Landed b c p r q
  rest q cells shape won drawn flag room = record {
    inside = hr;
    empty = free;
    supported = sup;
    cells = cells;
    others = λ i j hi hj. cell-store b r c p i j v.area hr hc hi hj;
    shape = shape;
    won = won;
    drawn = drawn;
    flag = flag;
    room = room;
  }

  conclude :
      (w f : Bool)
      → check_win (with_token b r c p) (pos r) (pos c) p ≡ w
      → (r == 0 && check_full_top_row (with_token b r c p)) ≡ f
      → Landed b c p r (
          if w
          then (with_token b r c p, win)
          else if f
          then (record (with_token b r c p) { full = true }, board_full)
          else (with_token b r c p, placed))
  conclude true f ew ef =
      rest (with_token b r c p, win) refl (refl, refl, refl, refl, refl) (λ _. line.0 ew, λ _. refl)
        (λ e. absurd (cc), λ d. absurd (d.0 refl)) (λ e. absurd (cc), λ e. absurd (cc)) (λ e. cc)
  conclude false true ew ef =
      rest (record (with_token b r c p) { full = true }, board_full) refl
        (refl, refl, refl, refl, refl) (λ e. absurd (cc), λ l. absurd (cc (line.1 l)))
        (λ _. (λ e. cc, IsFull-iff.0 ef), λ _. refl) (λ _. refl, λ _. refl) (λ e. cc)
  conclude false false ew ef =
      rest (with_token b r c p, placed) refl (refl, refl, refl, refl, refl)
        (λ e. absurd (cc), λ l. absurd (cc (line.1 l)))
        (λ e. absurd (cc), λ d. absurd (cc (IsFull-iff.1 d.1))) (λ e. absurd (cc), λ e. absurd (cc))
        (λ e. cc)

  pub place-Landed : Landed b c p r (place b r (pos c) p)
  unfolding place
  place-Landed = conclude _ _ refl refl
