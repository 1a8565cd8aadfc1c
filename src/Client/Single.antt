-- ===== src/Client/Single.antt =====
-- The game against the computer: playSinglePlayer of src/client/single_player.cpp.
pub mod Whole
use four_in_a_row.Base.{
  Bool-cases, ℕ, ◌-◌, ◌%◌, ◌≤◌, ◌<◌, ◌≡◌, ◌≢◌, refl, sym, subst, ap, ◌∙◌, ◌⊎◌, inl, inr, false,
  Option, none, some, List, [], ◌∷◌, All, arith,
}
use four_in_a_row.Base.Int.{pos, sub_ℕ}
use four_in_a_row.Board.{Board, Outcome, win, placed, column_full, board_full, play}
use four_in_a_row.Board.Grid.{Inv, cell}
use four_in_a_row.Board.Landing.{Landed, IsFull, with_token}
use four_in_a_row.Board.Play.{play_lands, play-Inv}

-- A round ends, and the game goes on, or it is over and the function returns 0; or the numbers have
-- run out while the computer looks for a column.
pub data State : Type 0 where
  next_round over no_number : Board → State

abbrev pub after_computer : (Board → Option State) → Option (Board × Outcome) → Option State
after_computer again none = none
after_computer again (some (c, win)) = some (over c)
after_computer again (some (c, placed)) = some (next_round c)
after_computer again (some (c, column_full)) = again c
after_computer again (some (c, board_full)) = some (over c)

-- The inner loop, with the numbers that `rand` gives.
unfoldable pub computer_turn : List ℕ → Board → Option State
computer_turn [] c = some (no_number c)
computer_turn (r ∷ rs) c =
    after_computer (λ c'. computer_turn rs c') (play c (pos (r % c.cols)) c.adversary)

abbrev pub after_player : List ℕ → Option (Board × Outcome) → Option State
after_player rs none = none
after_player rs (some (c, win)) = some (over c)
after_player rs (some (c, placed)) = computer_turn rs c
after_player rs (some (c, column_full)) = some (next_round c)
after_player rs (some (c, board_full)) = some (over c)

-- The outer loop once, with `choosen_col`.
unfoldable pub single_round : Board → ℕ → List ℕ → Option State
single_round c choosen_col rs = after_player rs (play c (sub_ℕ choosen_col 1) c.player)

-- A board on which a game can go on.
pub record Playing (c : Board) : Type 0 where
  pub inv : Inv c
  pub room : c.full ≡ false
  pub width : c.cols ≡ 7
  pub player : c.player ≢ 0
  pub adversary : c.adversary ≢ 0

abbrev pub Goes : State → Type 0
Goes (next_round c) = Playing c
Goes (over c) = Inv c
Goes (no_number c) = ⊥

abbrev ColumnFull : Board → ℕ → Type 0
ColumnFull c k = (i : ℕ) → i < c.rows → cell c i k ≢ 0

lands-Playing :
    (c : Board) (k p r : ℕ) (q : Board × Outcome)
    → Playing c
    → p ≢ 0
    → k < 7
    → play c (pos k) p ≡ some q
    → Landed c k p r q
    → q.1 ≡ placed
    → Playing q.0
lands-Playing c k p r q v hp hk e l o =
    let (_, cols, _, player, adversary) = l.shape in
    record {
      inv = play-Inv c k p q v.inv hp (omega (arith, v.width)) e;
      room = elim (Bool-cases q.0.full) [
        | inr lower ↦ lower
        | inl raised ↦ let drawn = (l.flag).0 raised in absurd (cc)
      ];
      width = cols ∙ v.width;
      player = λ z. v.player (sym player ∙ z);
      adversary = λ z. v.adversary (sym adversary ∙ z);
    }

after_computer-Goes :
    (again : Board → Option State) (q : Board × Outcome)
    → q.1 ≢ column_full
    → Inv q.0
    → (q.1 ≡ placed → Playing q.0)
    → (s : State) × (after_computer again (some q) ≡ some s) × Goes s
after_computer-Goes again (c, win) ne v p = (over c, refl, v)
after_computer-Goes again (c, placed) ne v p = (next_round c, refl, p refl)
after_computer-Goes again (c, column_full) ne v p = absurd (ne refl)
after_computer-Goes again (c, board_full) ne v p = (over c, refl, v)

-- The loop ends, or every column that it has tried is full.
computer_turn-cases :
    (rs : List ℕ) (c : Board)
    → Playing c
    → ((s : State) × (computer_turn rs c ≡ some s) × Goes s) ⊎ All (λ r. ColumnFull c (r % 7)) rs
unfolding computer_turn
computer_turn-cases [] c v = inr tt
computer_turn-cases (r ∷ rs) c v =
    let again = λ (d : Board). computer_turn rs d in
    let small : r % 7 < 7 = omega arith in
    let column : play c (pos (r % c.cols)) c.adversary ≡ play c (pos (r % 7)) c.adversary =
      ap (λ w. play c (pos (r % w)) c.adversary) v.width in
    elim (play_lands c (r % 7) c.adversary v.inv v.room v.adversary
      (omega (arith, small, v.width))) [
        | inl (e, full) ↦
            let run : after_computer again (play c (pos (r % c.cols)) c.adversary)
                ≡ computer_turn rs c =
              ap (after_computer again) (column ∙ e) in
            elim (computer_turn-cases rs c v) [
              | inl (s, ends, good) ↦ inl (s, run ∙ ends, good)
              | inr others ↦ inr (full, others)
            ]
        | inr (row, q, e, l) ↦
            let (s, ends, good) =
              after_computer-Goes again q l.room
                (play-Inv c (r % 7) c.adversary q v.inv v.adversary (omega (arith, small, v.width))
                  e)
                (lands-Playing c (r % 7) c.adversary row q v v.adversary small e l) in
            inl (s, ap (after_computer again) (column ∙ e) ∙ ends, good)
      ]

-- A column comes up in the numbers.
abbrev pub Has : ℕ → List ℕ → Type 0
Has k [] = ⊥
Has k (r ∷ rs) = (r % 7 ≡ k) ⊎ Has k rs

full_at :
    (c : Board) (k : ℕ) (rs : List ℕ)
    → Has k rs
    → All (λ r. ColumnFull c (r % 7)) rs
    → ColumnFull c k
full_at c k [] h all = absurd h
full_at c k (r ∷ rs) (inl e) all = subst (ColumnFull c) e all.0
full_at c k (r ∷ rs) (inr h) all = full_at c k rs h all.1

cell_same : (d e : Board) (i j : ℕ) → d.cells ≡ e.cells → d.cols ≡ e.cols → cell d i j ≡ cell e i j
cell_same d e i j x y = rw (x, y) refl

column_left :
    (rs : List ℕ) (c d : Board) (k r : ℕ)
    → Playing c
    → Landed c k c.player r (d, placed)
    → ((k : ℕ) → k < 7 → Has k rs)
    → All (λ r. ColumnFull d (r % 7)) rs
    → ⊥
column_left rs c d k r v l comes full =
    let (rows, cols, _, _, _) = l.shape in
    let all_full : IsFull (with_token c r k c.player) = λ i j hi hj z.
      full_at d j rs (comes j (omega (arith, v.width, hj))) full i (omega (arith, rows, hi))
        (cell_same d (with_token c r k c.player) i j l.cells cols ∙ z) in
    let drawn = (l.drawn).1 ((λ e. cc), all_full) in cc

single-column : (n : ℕ) → 1 ≤ n → sub_ℕ n 1 ≡ pos (n - 1)
single-column n low = ground arith

after_player-Goes :
    (rs : List ℕ) (c : Board) (k r : ℕ) (q : Board × Outcome)
    → Playing c
    → ((k : ℕ) → k < 7 → Has k rs)
    → Inv q.0
    → Landed c k c.player r q
    → (q.1 ≡ placed → Playing q.0)
    → (s : State) × (after_player rs (some q) ≡ some s) × Goes s
after_player-Goes rs c k r (d, win) g all v l p = (over d, refl, v)
after_player-Goes rs c k r (d, board_full) g all v l p = (over d, refl, v)
after_player-Goes rs c k r (d, column_full) g all v l p = absurd (l.room refl)
after_player-Goes rs c k r (d, placed) g all v l p = elim (computer_turn-cases rs d (p refl)) [
  | inl done ↦ done
  | inr full ↦ absurd (column_left rs c d k r g l all full)
]

-- A round for a column from 1 to 7 ends, if every column comes up among the numbers that `rand`
-- gives: it stays inside the board, and then the game can go on or is over, on a board that keeps the
-- invariant.
pub single_round_ends :
    (c : Board) (n : ℕ) (rs : List ℕ)
    → Playing c
    → 1 ≤ n
    → n ≤ 7
    → ((k : ℕ) → k < 7 → Has k rs)
    → (s : State) × (single_round c n rs ≡ some s) × Goes s
unfolding single_round
single_round_ends c n rs v low high comes =
    let column = ap (λ o. play c o c.player) (single-column n low) in
    let small : n - 1 < 7 = omega arith in
    elim (play_lands c (n - 1) c.player v.inv v.room v.player (omega (arith, small, v.width))) [
      | inl (e, _) ↦ (next_round c, ap (after_player rs) (column ∙ e), v)
      | inr (r, q, e, l) ↦
          let (s, ends, good) =
            after_player-Goes rs c (n - 1) r q v comes
              (play-Inv c (n - 1) c.player q v.inv v.player (omega (arith, small, v.width)) e) l
              (lands-Playing c (n - 1) c.player r q v v.player small e l) in
          (s, ap (after_player rs) (column ∙ e) ∙ ends, good)
    ]
