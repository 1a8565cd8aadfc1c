-- ===== src/Client/Moves.antt =====
-- A move of playWithPlayer of src/client/multi_player.cpp in the middle of a game.
use four_in_a_row.Base.{
  ℕ, ◌-◌, ◌%◌, ◌≤◌, ◌<◌, ◌≡◌, ◌≢◌, refl, ◌⊎◌, inl, inr, true, false, some, ltb, Bool-cases, arith,
}
use four_in_a_row.Base.Int.{pos, sub_ℕ}
use four_in_a_row.Board.{Board, Outcome, placed, column_full, board_full, play}
use four_in_a_row.Board.Grid.{Inv}
use four_in_a_row.Board.Play.{play_lands, play-Inv}
use four_in_a_row.Client.{char_of, int_of}

pub record Moved (b : Board) (q : Board × Outcome) : Type 0 where
  pub inv : Inv q.0
  pub width : q.0.cols ≡ b.cols
  pub names : (q.0.player ≡ b.player) × (q.0.adversary ≡ b.adversary)
  pub open_board : (q.1 ≡ placed) ⊎ (q.1 ≡ column_full) → q.0.full ≡ false
  pub unmoved : q.1 ≡ column_full → q.0 ≡ b

stays_open :
    (q : Board × Outcome)
    → (q.0.full ≡ true → q.1 ≡ board_full)
    → (q.1 ≡ placed) ⊎ (q.1 ≡ column_full)
    → q.0.full ≡ false
stays_open q flag o = elim (Bool-cases q.0.full) [
  | inr lower ↦ lower
  | inl raised ↦ let drawn = flag raised in elim o [ inl e ↦ absurd (cc) | inr e ↦ absurd (cc) ]
]

pub play-Moved :
    (b : Board) (k p : ℕ)
    → Inv b
    → b.full ≡ false
    → p ≢ 0
    → k < b.cols
    → (q : Board × Outcome) × (play b (pos k) p ≡ some q) × Moved b q
play-Moved b k p v lower hp hk = elim (play_lands b k p v lower hp hk) [
  | inl (e, _) ↦ (
    (b, column_full),
    e,
    record {
      inv = v;
      width = refl;
      names = (refl, refl);
      open_board = λ o. lower;
      unmoved = λ o. refl;
    },
  )
  | inr (r, q, e, l) ↦
      let (_, cols, _, player, adversary) = l.shape in
      (
        q,
        e,
        record {
          inv = play-Inv b k p q v hp hk e;
          width = cols;
          names = (player, adversary);
          open_board = λ o. stays_open q (l.flag).0 o;
          unmoved = λ o. absurd (l.room o);
        },
      )
]

pub own_column :
    (n : ℕ)
    → 1 ≤ n
    → n ≤ 7
    → (sub_ℕ n 1 ≡ pos (n - 1)) × (int_of (char_of (pos (n - 1))) ≡ pos (n - 1))
own_column n low high =
    let byte : (n - 1) % 256 ≡ n - 1 = omega arith in
    let small : ltb (n - 1) 128 ≡ true = ground arith in (ground arith, rw (byte, small) refl)
