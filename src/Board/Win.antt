-- ===== src/Board/Win.antt =====
-- `countNexts` and `checkWin` of src/client/connect4.cpp against lines on the board.
use four_in_a_row.Base.{
  ℕ, zero, suc, ◌+◌, ◌-◌, ◌≤◌, ◌<◌, min, ◌≡◌, ◌≢◌, refl, subst, ◌⊎◌, inl, inr, ◌↔◌, Bool, true,
  false, ◌||◌, leb→le, le→leb, ◌==◌, Bool-cases, arith,
}
use four_in_a_row.Base.Int.{
  ℤ, pos, negsuc, pos_part, neg_part, ◌+ℤ◌, +ℤ_parts, neg, times, times-suc, +ℤ-times_zero,
}
use four_in_a_row.Board.Tokens.{HasToken, marked→HasToken, HasToken→marked, token_inside}
use four_in_a_row.Board.{Board, marked, count_loop, count_nexts, line_fuel, wins_along, check_win}

any_of_four :
    (p q r s : Bool)
    → (p || q || r || s) ≡ true
    → (p ≡ true) ⊎ ((q ≡ true) ⊎ ((r ≡ true) ⊎ (s ≡ true)))
any_of_four p q r s h = ground arith

four_any :
    (p q r s : Bool)
    → (p ≡ true) ⊎ ((q ≡ true) ⊎ ((r ≡ true) ⊎ (s ≡ true)))
    → (p || q || r || s) ≡ true
four_any p q r s h = ground arith

module _ (b : Board) (player : ℕ) where
  -- The first `n` cells from (i, j) on, in steps of (di, dj), hold the player's token.
  abbrev pub AllMarked : ℤ → ℤ → ℤ → ℤ → ℕ → Type 0
  AllMarked i j di dj n = (k : ℕ) → k < n → HasToken b player (i +ℤ times k di) (j +ℤ times k dj)

  AllMarked-head : (i j di dj : ℤ) (n : ℕ) → AllMarked i j di dj (suc n) → HasToken b player i j
  AllMarked-head i j di dj n h =
      subst (λ x. HasToken b player x j) (+ℤ-times_zero i di)
        (subst (λ y. HasToken b player (i +ℤ times 0 di) y) (+ℤ-times_zero j dj)
          (h 0 (omega arith)))

  AllMarked-tail :
      (i j di dj : ℤ) (n : ℕ) → AllMarked i j di dj (suc n) → AllMarked (i +ℤ di) (j +ℤ dj) di dj n
  AllMarked-tail i j di dj n h k lt =
      rw (times-suc i di k, times-suc j dj k) (h (suc k) (omega arith))

  AllMarked-cons :
      (i j di dj : ℤ) (n : ℕ)
      → HasToken b player i j
      → AllMarked (i +ℤ di) (j +ℤ dj) di dj n
      → AllMarked i j di dj (suc n)
  AllMarked-cons i j di dj n m h zero lt = rw (+ℤ-times_zero i di, +ℤ-times_zero j dj) m
  AllMarked-cons i j di dj n m h (suc k) lt =
      rw (← times-suc i di k, ← times-suc j dj k) (h k (omega arith))

  -- The loop counts at least `n` exactly when the first `n` cells hold the token.
  count_loop→AllMarked :
      (fuel n : ℕ) (i j di dj : ℤ) → n ≤ count_loop fuel b player i j di dj → AllMarked i j di dj n
  unfolding count_loop
  count_loop→AllMarked fuel zero i j di dj h = λ k lt. absurd (omega arith)
  count_loop→AllMarked zero (suc n) i j di dj h = absurd (omega arith)
  count_loop→AllMarked (suc fuel) (suc n) i j di dj h = elim (Bool-cases (marked b player i j)) [
    | inl m ↦
        AllMarked-cons i j di dj n (marked→HasToken b player i j m)
          (count_loop→AllMarked fuel n (i +ℤ di) (j +ℤ dj) di dj (ground arith))
    | inr m ↦ absurd (ground arith)
  ]

  AllMarked→count_loop :
      (fuel n : ℕ) (i j di dj : ℤ)
      → n ≤ fuel
      → AllMarked i j di dj n
      → n ≤ count_loop fuel b player i j di dj
  unfolding count_loop
  AllMarked→count_loop fuel zero i j di dj f h = omega arith
  AllMarked→count_loop zero (suc n) i j di dj f h = absurd (omega arith)
  AllMarked→count_loop (suc fuel) (suc n) i j di dj f h =
      rw (HasToken→marked b player i j (AllMarked-head i j di dj n h)) (
        let ih =
          AllMarked→count_loop fuel n (i +ℤ di) (j +ℤ dj) di dj (omega arith)
            (AllMarked-tail i j di dj n h) in
        omega arith)

  module _ (row col : ℤ) where
    -- The `n` cells beyond (row, col) in the direction (di, dj) hold the player's token.
    abbrev pub Run : ℤ → ℤ → ℕ → Type 0
    Run di dj n = AllMarked (row +ℤ di) (col +ℤ dj) di dj n

    -- Four in a row through (row, col): `n` tokens on one side and the others on the other.
    abbrev pub Aligned : ℤ → ℤ → Type 0
    Aligned di dj = (n : ℕ) × (m : ℕ) × (n + m ≡ 3) × Run di dj n × Run (neg di) (neg dj) m

    abbrev pub HasLine : Type 0
    HasLine =
        Aligned (pos 1) (pos 1)
        ⊎ (Aligned (pos 1) (pos 0) ⊎ (Aligned (pos 0) (pos 1) ⊎ Aligned (negsuc 0) (pos 1)))

    wins_along→Aligned : (di dj : ℤ) → wins_along b player row col di dj ≡ true → Aligned di dj
    unfolding wins_along count_nexts
    wins_along→Aligned di dj h =
        let f : ℕ = count_nexts b player row col di dj in
        let n : ℕ = min f 3 in
        let e = leb→le 3 _ h in
        (
          n,
          3 - n,
          omega arith,
          count_loop→AllMarked (line_fuel b) n (row +ℤ di) (col +ℤ dj) di dj (omega arith),
          count_loop→AllMarked (line_fuel b) (3 - n) (row +ℤ neg di) (col +ℤ neg dj) (neg di)
              (neg dj) (omega arith),
        )

    Aligned→wins_along : (di dj : ℤ) → Aligned di dj → wins_along b player row col di dj ≡ true
    unfolding wins_along count_nexts
    Aligned→wins_along di dj (n, m, e, f, g) =
        let p =
          AllMarked→count_loop (line_fuel b) n (row +ℤ di) (col +ℤ dj) di dj (omega arith) f in
        let q =
          AllMarked→count_loop (line_fuel b) m (row +ℤ neg di) (col +ℤ neg dj) (neg di) (neg dj)
            (omega arith) g in
        le→leb 3 _ (omega arith)

    -- `checkWin` answers true exactly when the token at (row, col) makes four in a row, on a line
    -- in one of the four directions, for any player but 0.
    pub check_win_iff : player ≢ 0 → (check_win b row col player ≡ true) ↔ HasLine
    unfolding check_win
    check_win_iff h = (
      λ e.
          let named : (player == 0) ≡ false = ground arith in
          let some_way = any_of_four _ _ _ _ (rw named at e) in
          elim some_way [
            | inl w ↦ inl (wins_along→Aligned _ _ w)
            | inr (inl w) ↦ inr (inl (wins_along→Aligned _ _ w))
            | inr (inr (inl w)) ↦ inr (inr (inl (wins_along→Aligned _ _ w)))
            | inr (inr (inr w)) ↦ inr (inr (inr (wins_along→Aligned _ _ w)))
          ],
      λ l.
          let named : (player == 0) ≡ false = ground arith in
          rw named (
            four_any _ _ _ _ (elim l [
              | inl w ↦ inl (Aligned→wins_along _ _ w)
              | inr (inl w) ↦ inr (inl (Aligned→wins_along _ _ w))
              | inr (inr (inl w)) ↦ inr (inr (inl (Aligned→wins_along _ _ w)))
              | inr (inr (inr w)) ↦ inr (inr (inr (Aligned→wins_along _ _ w)))
            ])),
    )

times_grows :
    (k : ℕ) (d : ℤ)
    → d ≢ pos 0
    → (k ≤ pos_part (times k d) + neg_part (times k d))
      × ((pos_part (times k d) ≡ 0) ⊎ (neg_part (times k d) ≡ 0))
times_grows k (pos zero) h = absurd (h refl)
times_grows k (pos (suc m)) h = unfold times in grind arith
times_grows k (negsuc m) h = unfold times in grind arith

-- Two points of a line that both lie between 0 and `r` are fewer than `r` steps apart.
steps_within :
    (i d : ℤ) (n r : ℕ)
    → d ≢ pos 0
    → (pos_part i < r) × (neg_part i ≡ 0)
    → (pos_part (i +ℤ times n d) < r) × (neg_part (i +ℤ times n d) ≡ 0)
    → n < r
steps_within i d n r h p q = omega (arith, times_grows n d h, +ℤ_parts i (times n d))

AllMarked-le :
    (b : Board) (player : ℕ) (i j di dj : ℤ) (n : ℕ)
    → (di ≢ pos 0) ⊎ (dj ≢ pos 0)
    → AllMarked b player i j di dj n
    → n ≤ b.rows + b.cols
AllMarked-le b player i j di dj zero turn h = omega arith
AllMarked-le b player i j di dj (suc n) turn h =
    let (r0, r1, c0, c1) = token_inside b player _ _ (AllMarked-head b player i j di dj n h) in
    let (s0, s1, d0, d1) = token_inside b player _ _ (h n (omega arith)) in
    elim turn [
      | inl t ↦ omega (arith, steps_within i di n b.rows t (r0, r1) (s0, s1))
      | inr t ↦ omega (arith, steps_within j dj n b.cols t (c0, c1) (d0, d1))
    ]

count_loop-le :
    (b : Board) (player fuel : ℕ) (i j di dj : ℤ)
    → (di ≢ pos 0) ⊎ (dj ≢ pos 0)
    → count_loop fuel b player i j di dj ≤ b.rows + b.cols
count_loop-le b player fuel i j di dj turn =
    AllMarked-le b player i j di dj _ turn
      (count_loop→AllMarked b player fuel _ i j di dj (omega arith))

count_loop_mono :
    (b : Board) (player f g : ℕ) (i j di dj : ℤ)
    → (di ≢ pos 0) ⊎ (dj ≢ pos 0)
    → b.rows + b.cols ≤ g
    → count_loop f b player i j di dj ≤ count_loop g b player i j di dj
count_loop_mono b player f g i j di dj turn enough =
    AllMarked→count_loop b player g _ i j di dj
      (omega (arith, count_loop-le b player f i j di dj turn))
      (count_loop→AllMarked b player f _ i j di dj (omega arith))

-- No direction but (0, 0) has more marked cells in a row than the board has rows and columns, so
-- the loop of `countNexts` ends by its own test: more fuel than `line_fuel` changes nothing.
pub count_nexts_ends :
    (b : Board) (player : ℕ) (row col di dj : ℤ) (fuel : ℕ)
    → (di ≢ pos 0) ⊎ (dj ≢ pos 0)
    → line_fuel b ≤ fuel
    → count_loop fuel b player (row +ℤ di) (col +ℤ dj) di dj ≡ count_nexts b player row col di dj
unfolding count_nexts
count_nexts_ends b player row col di dj fuel turn enough =
    let f = count_loop_mono b player fuel (line_fuel b) (row +ℤ di) (col +ℤ dj) di dj turn in
    let g = count_loop_mono b player (line_fuel b) fuel (row +ℤ di) (col +ℤ dj) di dj turn in
    omega (arith, f (omega arith), g (omega arith))
