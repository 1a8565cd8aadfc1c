-- ===== src/Board/Mirror.antt =====
-- `play` of src/client/connect4.cpp on a board whose tokens have other names.
use four_in_a_row.Base.{
  ℕ, zero, suc, ◌+◌, ◌*◌, subst, ◌≡◌, ◌≢◌, refl, sym, ap, ◌∙◌, inl, inr, Bool, true, false, ◌&&◌,
  Option, none, some, List, [], ◌∷◌, map, ◌==◌, if◌then◌else◌, get_elem?, get_or, set, Bool-cases,
  arith,
}
use four_in_a_row.Base.Int.{ℤ, pos, negsuc, ◌+ℤ◌, neg}
use four_in_a_row.Board.{
  Board, Outcome, board_full, win, placed, offset, load, store, marked, count_loop, line_fuel,
  count_nexts, wins_along, check_win, full_from, check_full_top_row, place, drop_token, play,
}

-- New names for the tokens: different tokens stay different, and an empty cell stays empty.
pub record Renaming (f : ℕ → ℕ) : Type 0 where
  pub injective : (a b : ℕ) → f a ≡ f b → a ≡ b
  pub empty : f 0 ≡ 0

-- The board of the other player: the tokens have the names that he gives them.
abbrev pub mirror : (ℕ → ℕ) → Board → Board
mirror f b = record b { cells = map f b.cells; player = f b.adversary; adversary = f b.player }

abbrev pub mirror_result : (ℕ → ℕ) → Board × Outcome → Board × Outcome
mirror_result f q = (mirror f q.0, q.1)

abbrev pub mirrored : (ℕ → ℕ) → Option (Board × Outcome) → Option (Board × Outcome)
mirrored f none = none
mirrored f (some q) = some (mirror_result f q)

abbrev renamed : (ℕ → ℕ) → Option ℕ → Option ℕ
renamed f none = none
renamed f (some c) = some (f c)

-- The same test on both sides, and branches that correspond.
branches :
    {A B : Type 0} (g : A → B) (s t : Bool) (x y : A) (u v : B)
    → s ≡ t
    → u ≡ g x
    → v ≡ g y
    → (if s then u else v) ≡ g (if t then x else y)
branches g s true x y u v e p q = rw e p
branches g s false x y u v e p q = rw e q

module _ (f : ℕ → ℕ) (r : Renaming f) where
  test_same : (a b : ℕ) → (f a == f b) ≡ (a == b)
  test_same a b = elim (Bool-cases (a == b)) [
    | inl e ↦ let same : a ≡ b = ground arith in rw same (ground arith)
    | inr n ↦
        let other : f a ≢ f b = λ e. let same = r.injective a b e in absurd (ground arith) in
        ground arith
  ]

  empty_same : (a : ℕ) → (f a == 0) ≡ (a == 0)
  empty_same a = subst (λ z. (f a == z) ≡ (a == 0)) r.empty (test_same a 0)

  get_or-map : (xs : List ℕ) (i : ℕ) → get_or (map f xs) i 0 ≡ f (get_or xs i 0)
  get_or-map [] i = sym r.empty
  get_or-map (x ∷ xs) zero = refl
  get_or-map (x ∷ xs) (suc i) = get_or-map xs i

  set-map : (xs : List ℕ) (i v : ℕ) → set (map f xs) i (f v) ≡ map f (set xs i v)
  set-map [] i v = refl
  set-map (x ∷ xs) zero v = refl
  set-map (x ∷ xs) (suc i) v = rw (set-map xs i v) refl

  store-map : (xs : List ℕ) (o : ℤ) (v : ℕ) → store (map f xs) o (f v) ≡ map f (store xs o v)
  unfolding store
  store-map xs (pos n) v = set-map xs n v
  store-map xs (negsuc n) v = refl

  marked-mirror : (b : Board) (p : ℕ) (i j : ℤ) → marked (mirror f b) (f p) i j ≡ marked b p i j
  unfolding marked
  marked-mirror b p (pos i) (pos j) =
      rw (get_or-map b.cells (i * b.cols + j), test_same (get_or b.cells (i * b.cols + j) 0) p) refl
  marked-mirror b p (pos i) (negsuc j) = refl
  marked-mirror b p (negsuc i) j = refl

  count_loop-mirror :
      (n : ℕ) (b : Board) (p : ℕ) (i j di dj : ℤ)
      → count_loop n (mirror f b) (f p) i j di dj ≡ count_loop n b p i j di dj
  unfolding count_loop
  count_loop-mirror zero b p i j di dj = refl
  count_loop-mirror (suc n) b p i j di dj =
      rw (marked-mirror b p i j, count_loop-mirror n b p (i +ℤ di) (j +ℤ dj) di dj) refl

  wins_along-mirror :
      (b : Board) (p : ℕ) (i j di dj : ℤ)
      → wins_along (mirror f b) (f p) i j di dj ≡ wins_along b p i j di dj
  unfolding wins_along count_nexts
  wins_along-mirror b p i j di dj =
      rw
        (
          count_loop-mirror (line_fuel b) b p (i +ℤ di) (j +ℤ dj) di dj,
          count_loop-mirror (line_fuel b) b p (i +ℤ neg di) (j +ℤ neg dj) (neg di) (neg dj),
        )
        refl

  check_win-mirror :
      (b : Board) (i j : ℤ) (p : ℕ) → p ≢ 0 → check_win (mirror f b) i j (f p) ≡ check_win b i j p
  unfolding check_win
  check_win-mirror b i j p ne =
      let named : (p == 0) ≡ false = ground arith in
      rw
        (
          empty_same p,
          named,
          wins_along-mirror b p i j (pos 1) (pos 1),
          wins_along-mirror b p i j (pos 1) (pos 0),
          wins_along-mirror b p i j (pos 0) (pos 1),
          wins_along-mirror b p i j (negsuc 0) (pos 1),
        )
        refl

  full_from-map : (n : ℕ) (xs : List ℕ) → full_from n (map f xs) ≡ full_from n xs
  unfolding full_from
  full_from-map zero xs = refl
  full_from-map (suc n) [] = refl
  full_from-map (suc n) (x ∷ xs) = rw (empty_same x, full_from-map n xs) refl

  load-map : (xs : List ℕ) (o : ℤ) → load (map f xs) o ≡ renamed f (load xs o)
  unfolding load
  load-map xs (pos n) = go xs n
    where
      go : (xs : List ℕ) (n : ℕ) → get_elem? (map f xs) n ≡ renamed f (get_elem? xs n)
      go [] n = refl
      go (x ∷ xs) zero = refl
      go (x ∷ xs) (suc n) = go xs n
  load-map xs (negsuc n) = refl

  place-mirror :
      (b : Board) (i : ℕ) (col : ℤ) (p : ℕ)
      → p ≢ 0
      → place (mirror f b) i col (f p) ≡ mirror_result f (place b i col p)
  unfolding place check_full_top_row offset
  place-mirror b i col p ne =
      let b' : Board = record b { cells = store b.cells (offset b i col) p } in
      let same : record (mirror f b) { cells = store (map f b.cells) (offset b i col) (f p) }
          ≡ mirror f b' =
        ap (λ cells. record (mirror f b) { cells = cells })
          (store-map b.cells (offset b i col) p) in
      let top : full_from b.cols (store (map f b.cells) (offset b i col) (f p))
          ≡ full_from b.cols b'.cells =
        rw (store-map b.cells (offset b i col) p) (full_from-map b.cols b'.cells) in
      let wins =
        subst (λ d. check_win d (pos i) col (f p) ≡ check_win b' (pos i) col p) (sym same)
          (check_win-mirror b' (pos i) col p ne) in
      branches (mirror_result f) _ _ (b', win) _ _ _ wins (ap (λ d. (d, win)) same)
        (branches (mirror_result f) _ _ (record b' { full = true }, board_full) (b', placed) _ _
          (ap (λ t. i == 0 && t) top)
          (ap (λ (d : Board). (record d { full = true }, board_full)) same)
          (ap (λ d. (d, placed)) same))

  token_at :
      (o : Option ℕ) (x : Board × Outcome) (y : Option (Board × Outcome)) (u : Board × Outcome)
      (v : Option (Board × Outcome))
      → u ≡ mirror_result f x
      → v ≡ mirrored f y
      → (elim (renamed f o) as (λ o. Option (Board × Outcome)) [
        | none ↦ none
        | some c ↦ if c == 0 then some u else v
      ])
        ≡ mirrored f (elim o as (λ o. Option (Board × Outcome)) [
          | none ↦ none
          | some c ↦ if c == 0 then some x else y
        ])
  token_at none x y u v e g = refl
  token_at (some c) x y u v e g = branches (mirrored f) _ _ _ _ _ _ (empty_same c) (ap some e) g

  drop_token-mirror :
      (n : ℕ) (b : Board) (col : ℤ) (p : ℕ)
      → p ≢ 0
      → drop_token n (mirror f b) col (f p) ≡ mirrored f (drop_token n b col p)
  unfolding drop_token offset
  drop_token-mirror zero b col p ne = refl
  drop_token-mirror (suc i) b col p ne =
      ap
        (λ o. elim o as (λ o. Option (Board × Outcome)) [
          | none ↦ none
          | some c ↦
              if c == 0
              then some (place (mirror f b) i col (f p))
              else drop_token i (mirror f b) col (f p)
        ])
        (load-map b.cells (offset b i col))
      ∙ token_at (load b.cells (offset b i col)) _ _ _ _ (place-mirror b i col p ne)
          (drop_token-mirror i b col p ne)

  own_name : (p q q' : ℕ) → p ≢ 0 → (if f p == 0 then q' else f p) ≡ f (if p == 0 then q else p)
  own_name p q q' ne = let named : (p == 0) ≡ false = ground arith in rw (empty_same p, named) refl

  named_same : (p q : ℕ) → p ≢ 0 → (if p == 0 then q else p) ≢ 0
  named_same p q ne = ground arith

  -- `play` does not look at the names of the tokens: with other names for them the same move ends in
  -- the same result, and in the same board up to the names.
  pub play-mirror :
      (b : Board) (col : ℤ) (p : ℕ)
      → p ≢ 0
      → play (mirror f b) col (f p) ≡ mirrored f (play b col p)
  unfolding play
  play-mirror b col p ne =
      branches (mirrored f) b.full b.full (some (b, board_full)) _ _ _ refl refl (
        ap (drop_token b.rows (mirror f b) col) (own_name p b.player (f b.adversary) ne)
        ∙ drop_token-mirror b.rows b col (if p == 0 then b.player else p)
            (named_same p b.player ne))
