-- ===== src/Board/Grid.antt =====
-- The cells of the board by row and column, and the invariant of a game.
use native.Mathlib.Decide.{dec_lt, ℕ_discrete}
use native.Mathlib.Nat.{mul-le-mul_right}
use four_in_a_row.Base.{
  ℕ, zero, suc, ◌+◌, ◌*◌, ◌≤◌, ◌<◌, ◌≡◌, ◌≢◌, refl, ap, ◌⊎◌, inl, inr, ◌↔◌, true, false, some, List,
  [], ◌∷◌, ◌==◌, ◌&&◌, if◌then◌else◌, get_elem?, get_or, set, length, get_or-set_self,
  get_or-set_ne, arith,
}
use four_in_a_row.Base.Int.{pos, ◌+ℤ◌}
use four_in_a_row.Board.{Board, offset, load, store, full_from}

-- The cell in row `i` and column `j`, rows counted from the top.
abbrev pub cell : Board → ℕ → ℕ → ℕ
cell b i j = get_or b.cells (i * b.cols + j) 0

-- The invariant: the array has a cell for each place, tokens lie on tokens or on the ground, and
-- the flag `full_` is raised only when no column has room.
pub record Inv (b : Board) : Type 0 where
  pub area : length b.cells ≡ b.rows * b.cols
  pub settled : (i j : ℕ) → suc i < b.rows → j < b.cols → cell b i j ≢ 0 → cell b (suc i) j ≢ 0
  pub flagged : b.full ≡ true → (j : ℕ) → j < b.cols → cell b 0 j ≢ 0

pub offset-pos : (b : Board) (i c : ℕ) → offset b i (pos c) ≡ pos (i * b.cols + c)
unfolding offset ◌+ℤ◌
offset-pos b i c = ground arith

pub flat_lt : (i j r c : ℕ) → i < r → j < c → i * c + j < r * c
flat_lt i j r c p q = grind arith

-- Two places with the same offset are the same place.
pub flat_ne : (i j k l c : ℕ) → j < c → l < c → (i ≢ k) ⊎ (j ≢ l) → k * c + l ≢ i * c + j
flat_ne i j k l c p q d e = elim (dec_lt i k) [
  | yes lt ↦ omega (arith, mul-le-mul_right {m = suc i} {n = k} c lt)
  | no ge ↦ elim (dec_lt k i) [
    | yes lt ↦ omega (arith, mul-le-mul_right {m = suc k} {n = i} c lt)
    | no le ↦
        let same : i ≡ k = omega arith in
        elim d [ inl ne ↦ ne same | inr ne ↦ ne (omega (arith, ap (λ (t : ℕ). t * c) same)) ]
  ]
]

pub get_elem?-get_or : (xs : List ℕ) (n : ℕ) → n < length xs → get_elem? xs n ≡ some (get_or xs n 0)
get_elem?-get_or [] n h = absurd (omega arith)
get_elem?-get_or (x ∷ xs) zero h = refl
get_elem?-get_or (x ∷ xs) (suc n) h = get_elem?-get_or xs n (omega arith)

-- Inside the board a read finds the cell.
pub load-cell :
    (b : Board) (i c : ℕ)
    → length b.cells ≡ b.rows * b.cols
    → i < b.rows
    → c < b.cols
    → load b.cells (offset b i (pos c)) ≡ some (cell b i c)
unfolding load
load-cell b i c a p q =
    rw (offset-pos b i c)
      (get_elem?-get_or b.cells _ (omega (arith, flat_lt i c b.rows b.cols p q)))

-- A write at (r, c) changes that cell and no other.
pub cell-store :
    (b : Board) (r c v i j : ℕ)
    → length b.cells ≡ b.rows * b.cols
    → r < b.rows
    → c < b.cols
    → i < b.rows
    → j < b.cols
    → cell (record b { cells = store b.cells (offset b r (pos c)) v }) i j
      ≡ (if i == r && j == c then v else cell b i j)
unfolding store
cell-store b r c v i j a p q s t = rw (offset-pos b r c) (elim (ℕ_discrete i r) [
  | yes e ↦ elim (ℕ_discrete j c) [
    | yes f ↦
        rw (e, f)
          (ground (
            arith,
            get_or-set_self b.cells (r * b.cols + c) v 0
                (omega (arith, flat_lt r c b.rows b.cols p q)),
          ))
    | no g ↦ other (inr g) (ground arith)
  ]
  | no g ↦ other (inl g) (ground arith)
])
  where
    other :
        (i ≢ r) ⊎ (j ≢ c)
        → (i == r && j == c) ≡ false
        → get_or (set b.cells (r * b.cols + c) v) (i * b.cols + j) 0
          ≡ (if i == r && j == c then v else cell b i j)
    other d e =
        rw e (
          get_or-set_ne b.cells (r * b.cols + c) (i * b.cols + j) v 0
            (flat_ne i j r c b.cols t q d))

first_nonzero :
    {n : ℕ} (x : ℕ) (xs : List ℕ)
    → ((j : ℕ) → j < n → get_or xs j 0 ≢ 0)
    → (j : ℕ) → j < suc n
    → get_or (suc x ∷ xs) j 0 ≢ 0
first_nonzero x xs f zero lt = λ e. cc
first_nonzero x xs f (suc j) lt = f j (omega arith)

pub full_from_iff :
    (n : ℕ) (xs : List ℕ)
    → n ≤ length xs
    → (full_from n xs ≡ true) ↔ ((j : ℕ) → j < n → get_or xs j 0 ≢ 0)
unfolding full_from
full_from_iff zero xs h = (λ e j lt. absurd (omega arith), λ f. refl)
full_from_iff (suc n) [] h = absurd (omega arith)
full_from_iff (suc n) (zero ∷ xs) h = (λ e. absurd (cc), λ f. absurd (f 0 (omega arith) refl))
full_from_iff (suc n) (suc x ∷ xs) h = (
  λ e. first_nonzero x xs ((full_from_iff n xs (omega arith)).0 (ground arith)),
  λ f. ground (arith, (full_from_iff n xs (omega arith)).1 (λ j lt. f (suc j) (omega arith))),
)
