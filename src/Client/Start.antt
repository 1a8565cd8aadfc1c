-- ===== src/Client/Start.antt =====
-- The start of playWithPlayer of src/client/multi_player.cpp on both sides, and the whole game.
use four_in_a_row.Base.{
  ℕ, ◌≤◌, ◌≡◌, ◌≢◌, refl, ◌⊎◌, inl, inr, true, Option, none, some, List, [], ◌∷◌, ◌==◌, ◌||◌,
  if◌then◌else◌, All, Bool-cases, arith,
}
use four_in_a_row.Board.{Board, new, set_player}
use four_in_a_row.Board.Play.{new-Inv}
use four_in_a_row.Board.Mirror.{Renaming, mirror}
use four_in_a_row.Client.{
  Asked, answer, parse_line, player_of_words, ask_player, Progress, my_turn, their_turn,
}
use four_in_a_row.Client.Rounds.{rounds}
use four_in_a_row.Client.Match.{Facing, Agree, first, rounds-Agree}

-- The board of a new game, before a marker is chosen.
abbrev pub new_game : Board
new_game = new 6 7 0 0

abbrev pub plays_x : Board → Board
plays_x b = record b { player = b'X'; adversary = b'O' }

abbrev pub plays_o : Board → Board
plays_o b = record b { player = b'O'; adversary = b'X' }

abbrev pub HasMarkers : Board → Board → Type 0
HasMarkers b c = (c ≡ plays_x b) ⊎ (c ≡ plays_o b)

set_player-HasMarkers :
    (b : Board) (x : ℕ) → (set_player b x).1 ≡ true → HasMarkers b (set_player b x).0
unfolding set_player
set_player-HasMarkers b x e = elim (Bool-cases (x == b'X' || x == b'x')) [
  | inl is_x ↦ inl (rw is_x refl)
  | inr not_x ↦ elim (Bool-cases (x == b'O' || x == b'o')) [
    | inl is_o ↦ inr (rw (not_x, is_o) refl)
    | inr not_o ↦ let f = (rw (not_x, not_o) at e) in absurd (cc)
  ]
]

player_of_words-HasMarkers :
    (b c : Board) (words : List (List ℕ)) (again : Asked Board)
    → player_of_words b words again ≡ answer c
    → (again ≡ answer c → HasMarkers b c)
    → HasMarkers b c
player_of_words-HasMarkers b c ((x ∷ word) ∷ []) again e h = elim (Bool-cases (set_player b x).1) [
  | inl good ↦
      let same : (set_player b x).0 ≡ c = let g = (rw good at e) in cc in
      rw (← same) (set_player-HasMarkers b x good)
  | inr bad ↦ h (rw bad at e)
]
player_of_words-HasMarkers b c [] again e h = h e
player_of_words-HasMarkers b c ([] ∷ []) again e h = h e
player_of_words-HasMarkers b c ([] ∷ v ∷ words) again e h = h e
player_of_words-HasMarkers b c ((x ∷ w) ∷ v ∷ words) again e h = h e

pub ask_player-HasMarkers :
    (b c : Board) (lines : List (Option (List ℕ))) → ask_player b lines ≡ answer c → HasMarkers b c
unfolding ask_player
ask_player-HasMarkers b c [] e = absurd (cc)
ask_player-HasMarkers b c (none ∷ lines) e = absurd (cc)
ask_player-HasMarkers b c (some line ∷ lines) e =
    player_of_words-HasMarkers b c (parse_line line) (ask_player b lines) e
      (ask_player-HasMarkers b c lines)

abbrev pub swap_markers : ℕ → ℕ
swap_markers t = if t == b'X' then b'O' else if t == b'O' then b'X' else t

pub swap_markers-Renaming : Renaming swap_markers
swap_markers-Renaming = record { injective = λ a b e. ground arith; empty = refl }

same-Renaming : Renaming (λ t. t)
same-Renaming = record { injective = λ a b e. e; empty = refl }

opening :
    (f : ℕ → ℕ) (p q : ℕ) (d : Board)
    → d ≡ mirror f (new 6 7 p q)
    → p ≢ 0
    → q ≢ 0
    → Facing f (record { c = new 6 7 p q; turn = my_turn }) (record { c = d; turn = their_turn })
unfolding new
opening f p q d e hp hq = record {
  boards = e;
  turns = first;
  inv = new-Inv 6 7 p q;
  room = refl;
  width = refl;
  player = hp;
  adversary = hq;
}

first_faces :
    (c d : Board)
    → HasMarkers new_game c
    → HasMarkers new_game d
    → (f : ℕ → ℕ) × Renaming f
      × Facing f (record { c = c; turn = my_turn }) (record { c = d; turn = their_turn })
unfolding new
first_faces c d (inl x) (inl y) = (
  swap_markers,
  swap_markers-Renaming,
  rw (x, y) (opening swap_markers b'X' b'O' (plays_x new_game) refl (omega arith) (omega arith)),
)
first_faces c d (inl x) (inr y) = (
  λ t. t,
  same-Renaming,
  rw (x, y) (opening (λ t. t) b'X' b'O' (plays_o new_game) refl (omega arith) (omega arith)),
)
first_faces c d (inr x) (inl y) = (
  λ t. t,
  same-Renaming,
  rw (x, y) (opening (λ t. t) b'O' b'X' (plays_x new_game) refl (omega arith) (omega arith)),
)
first_faces c d (inr x) (inr y) = (
  swap_markers,
  swap_markers-Renaming,
  rw (x, y) (opening swap_markers b'O' b'X' (plays_o new_game) refl (omega arith) (omega arith)),
)

-- Whatever lines the two users type until each has chosen a marker, both the same or different ones,
-- and whatever columns from 1 to 7 they choose then in turn, every round runs inside the board, and
-- afterwards both sides either go on or have both returned 0, on boards that are the same up to the
-- names of the tokens, if every move is delivered.
pub players-Agree :
    (my_lines their_lines : List (Option (List ℕ))) (c d : Board) (ns : List ℕ)
    → ask_player new_game my_lines ≡ answer c
    → ask_player new_game their_lines ≡ answer d
    → All (λ n. (1 ≤ n) × (n ≤ 7)) ns
    → (f : ℕ → ℕ) × Renaming f
      × (p : Progress × Progress) × (rounds
            (record { c = c; turn = my_turn })
            (record { c = d; turn = their_turn })
            ns
          ≡ some p)
      × Agree f p.0 p.1
players-Agree my_lines their_lines c d ns mine theirs h =
    let (f, r, v) =
      first_faces c d (ask_player-HasMarkers new_game c my_lines mine)
        (ask_player-HasMarkers new_game d their_lines theirs) in
    let (p, run, agree) = rounds-Agree f _ _ ns r v h in (f, r, p, run, agree)
