-- ===== src/Client/Parse.antt =====
-- What src/utils/args.cpp makes of a line.
use four_in_a_row.Base.{
  ℕ, ◌-◌, ◌≤◌, ◌≡◌, ◌≢◌, refl, sym, ◌∙◌, ap, inl, inr, false, ◌&&◌, Option, none, some, List, [],
  ◌∷◌, ◌++◌, append_assoc, append-nil, leb, ◌==◌, All, Bool-cases, arith,
}
use four_in_a_row.Client.{split_from, parse_line, Asked, answer, column_of_words, ask_column}

-- A word has a byte, and no space in it.
abbrev pub IsWord : List ℕ → Type 0
IsWord w = (w ≢ []) × All (λ ch. ch ≢ b' ') w

-- The words with a space between one and the next.
abbrev pub join : List (List ℕ) → List ℕ
join [] = []
join (w ∷ []) = w
join (w ∷ v ∷ ws) = w ++ (b' ' ∷ join (v ∷ ws))

split_from-word :
    (word w rest : List ℕ)
    → All (λ ch. ch ≢ b' ') w
    → split_from word (w ++ rest) ≡ split_from (word ++ w) rest
split_from-word word [] rest h = rw append-nil refl
split_from-word word (ch ∷ w) rest h =
    let other : (ch == b' ') ≡ false = ground (arith, h.0) in
    rw other (
      split_from-word (word ++ (ch ∷ [])) w rest h.1
      ∙ ap (λ x. split_from x rest) (append_assoc word (ch ∷ []) w))

last_word : (w : List ℕ) → w ≢ [] → split_from w [] ≡ w ∷ []
last_word [] ne = absurd (ne refl)
last_word (ch ∷ w) ne = refl

split_from-join : (ws : List (List ℕ)) → All IsWord ws → split_from [] (join ws) ≡ ws
split_from-join [] h = refl
split_from-join (w ∷ []) h =
    ap (split_from []) (sym (append-nil w)) ∙ split_from-word [] w [] h.0.1 ∙ last_word w h.0.0
split_from-join (w ∷ v ∷ ws) h =
    split_from-word [] w (b' ' ∷ join (v ∷ ws)) h.0.1
    ∙ ap (λ vs. w ∷ vs) (split_from-join (v ∷ ws) h.1)

-- Words without a space, each with a byte, that stand on a line with one space between two of them
-- are the arguments that are read from the line.
pub parse_line-join : (ws : List (List ℕ)) → All IsWord ws → parse_line (join ws) ≡ ws
unfolding parse_line
parse_line-join ws h = split_from-join ws h

column_of_words-range :
    (words : List (List ℕ)) (again : Asked ℕ) (n : ℕ)
    → column_of_words words again ≡ answer n
    → (again ≡ answer n → n ≤ 7)
    → n ≤ 7
column_of_words-range ((ch ∷ word) ∷ []) again n e h =
    elim (Bool-cases (leb b'0' ch && leb ch b'7')) [
      | inl digit ↦ let f = (rw digit at e) in let same : ch - b'0' ≡ n = cc in ground arith
      | inr other ↦ h (rw other at e)
    ]
column_of_words-range [] again n e h = h e
column_of_words-range ([] ∷ []) again n e h = h e
column_of_words-range ([] ∷ v ∷ words) again n e h = h e
column_of_words-range ((x ∷ w) ∷ v ∷ words) again n e h = h e

-- Whatever the user types, the column that is taken from it is between 0 and 7.
pub ask_column-range :
    (lines : List (Option (List ℕ))) (n : ℕ) → ask_column lines ≡ answer n → n ≤ 7
unfolding ask_column
ask_column-range [] n e = absurd (cc)
ask_column-range (none ∷ lines) n e = absurd (cc)
ask_column-range (some line ∷ lines) n e =
    column_of_words-range (parse_line line) (ask_column lines) n e (ask_column-range lines n)
