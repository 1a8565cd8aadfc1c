-- ===== src/Board/Play.antt =====
-- `play` of src/client/connect4.cpp on a column of the board: where the token lands, what the
-- result says, and that the invariant of a game is kept.
use native.Mathlib.Decide.{ℕ_discrete}
use four_in_a_row.Base.{
  ℕ, zero, suc, ◌+◌, ◌*◌, ◌≤◌, ◌<◌, ◌≡◌, ◌≢◌, refl, ◌⊎◌, inl, inr, true, false, some, get_or,
  Bool-cases, arith, length-replicate, replicate, ◌∙◌,
}
use four_in_a_row.Base.Int.{ℤ, pos}
use four_in_a_row.Board.{
  Board, Outcome, column_full, board_full, new, offset, load, place, drop_token, play,
}
use four_in_a_row.Board.Grid.{cell, Inv, load-cell}
use four_in_a_row.Board.Landing.{Landed, place-Landed, settled-with_token, length-with_token}

drop_token-hit :
    (i : ℕ) (b : Board) (col : ℤ) (p : ℕ) {x : ℕ}
    → load b.cells (offset b i col) ≡ some x
    → x ≡ 0
    → drop_token (suc i) b col p ≡ some (place b i col p)
unfolding drop_token
drop_token-hit i b col p e z = ground arith

drop_token-miss :
    (i : ℕ) (b : Board) (col : ℤ) (p : ℕ) {x : ℕ}
    → load b.cells (offset b i col) ≡ some x
    → x ≢ 0
    → drop_token (suc i) b col p ≡ drop_token i b col p
unfolding drop_token
drop_token-miss i b col p e ne = ground arith

extend :
    (b : Board) (c n : ℕ)
    → cell b n c ≢ 0
    → ((i : ℕ) → suc n ≤ i → i < b.rows → cell b i c ≢ 0)
    → (i : ℕ) → n ≤ i
    → i < b.rows
    → cell b i c ≢ 0
extend b c n ne sup i h lt = elim (ℕ_discrete i n) [
  | yes e ↦ rw e ne
  | no d ↦ sup i (omega arith) lt
]

-- What the loop finds below row `n`: no room, or the lowest empty cell with tokens under it.
drop_token_cases :
    (n : ℕ) (b : Board) (c p : ℕ)
    → Inv b
    → b.full ≡ false
    → p ≢ 0
    → c < b.cols
    → n ≤ b.rows
    → ((i : ℕ) → n ≤ i → i < b.rows → cell b i c ≢ 0)
    → ((drop_token n b (pos c) p ≡ some (b, column_full)) × ((i : ℕ) → i < b.rows → cell b i c ≢ 0))
      ⊎ ((r : ℕ) × (q : Board × Outcome) × (drop_token n b (pos c) p ≡ some q) × Landed b c p r q)
drop_token_cases zero b c p v lower hp hc hn sup =
    inl (unfold drop_token in refl, λ i. sup i (omega arith))
drop_token_cases (suc i) b c p v lower hp hc hn sup = elim (ℕ_discrete (cell b i c) 0) [
  | yes e ↦ inr (
    i,
    place b i (pos c) p,
    drop_token-hit i b (pos c) p (load-cell b i c v.area hn hc) e,
    place-Landed b c p i v lower hp hc hn e (λ k lt. sup k lt),
  )
  | no ne ↦
      rw (drop_token-miss i b (pos c) p (load-cell b i c v.area hn hc) ne)
        (drop_token_cases i b c p v lower hp hc (omega arith) (extend b c i ne sup))
]

play-drop_token :
    (b : Board) (col : ℤ) (p : ℕ)
    → b.full ≡ false
    → p ≢ 0
    → play b col p ≡ drop_token b.rows b col p
unfolding play
play-drop_token b col p lower hp = ground arith

-- On a column of a board that is not full `play` always returns. Either every cell of the column
-- is taken, the result is -1 and the board stays as it was; or the token comes to rest on the
-- lowest empty cell.
pub play_lands :
    (b : Board) (c p : ℕ)
    → Inv b
    → b.full ≡ false
    → p ≢ 0
    → c < b.cols
    → ((play b (pos c) p ≡ some (b, column_full)) × ((i : ℕ) → i < b.rows → cell b i c ≢ 0))
      ⊎ ((r : ℕ) × (q : Board × Outcome) × (play b (pos c) p ≡ some q) × Landed b c p r q)
play_lands b c p v lower hp hc =
    rw (play-drop_token b (pos c) p lower hp)
      (drop_token_cases b.rows b c p v lower hp hc (omega arith) (λ i h lt. absurd (omega arith)))

-- With the flag `full_` raised `play` answers -2 and changes nothing, in whatever column.
pub play_over : (b : Board) (col : ℤ) (p : ℕ) → b.full ≡ true → play b col p ≡ some (b, board_full)
unfolding play
play_over b col p h = rw h

get_or-replicate : (n i : ℕ) → ◌≡◌ {A = ℕ} (get_or (replicate n 0) i 0) 0
get_or-replicate zero i = refl
get_or-replicate (suc n) zero = refl
get_or-replicate (suc n) (suc i) = get_or-replicate n i

Landed-Inv :
    (b : Board) (c p r : ℕ) (q : Board × Outcome)
    → Inv b
    → p ≢ 0
    → c < b.cols
    → Landed b c p r q
    → Inv q.0
Landed-Inv b c p r q v hp hc l =
    let (sr, sc, _, _, _) = l.shape in
    record {
      area = rw (l.cells, sr, sc) (length-with_token b r c p ∙ v.area);
      settled = rw (l.cells, sr, sc) (settled-with_token b c p r v hp hc l.inside l.supported);
      flagged =
          rw (l.cells, sc)
            (λ e j hj. ((l.drawn).0 ((l.flag).0 e)).1 0 j (omega (arith, l.inside)) hj);
    }

-- Every move on a column of the board keeps the invariant of a game, whatever it returns.
pub play-Inv :
    (b : Board) (c p : ℕ) (q : Board × Outcome)
    → Inv b
    → p ≢ 0
    → c < b.cols
    → play b (pos c) p ≡ some q
    → Inv q.0
play-Inv b c p q v hp hc e = elim (Bool-cases b.full) [
  | inl over ↦ carry (b, board_full) (play_over b (pos c) p over) v
  | inr lower ↦ elim (play_lands b c p v lower hp hc) [
    | inl (f, _) ↦ carry (b, column_full) f v
    | inr (r, q', f, l) ↦ carry q' f (Landed-Inv b c p r q' v hp hc l)
  ]
]
  where
    carry : (q' : Board × Outcome) → play b (pos c) p ≡ some q' → Inv q'.0 → Inv q.0
    carry q' f w = let same : q ≡ q' = cc in rw same w

-- A new board meets the invariant.
pub new-Inv : (rows columns player adversary : ℕ) → Inv (new rows columns player adversary)
unfolding new
new-Inv rows columns player adversary = record {
  area = length-replicate (rows * columns) 0;
  settled = λ i j hi hj ne. absurd (ne (get_or-replicate (rows * columns) (i * columns + j)));
  flagged = λ e. absurd (cc);
}
