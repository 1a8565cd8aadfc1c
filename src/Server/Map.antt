-- ===== src/Server/Map.antt =====
-- `std::map` as an association list in the order of its keys.
use four_in_a_row.Base.{
  ℕ, suc, ◌≡◌, ◌≢◌, refl, sym, ◌↔◌, Bool, true, false, ◌&&◌, Option, none, some, List, [], ◌∷◌, ltb,
  ◌==◌, ==_iff, if◌then◌else◌, length, arith,
}

-- A key type: equality, and the order of the map.
pub record Key (K : Type 0) : Type 0 where
  pub same : K → K → Bool
  pub before : K → K → Bool
  pub same_iff : (a b : K) → (same a b ≡ true) ↔ (a ≡ b)

-- A byte string; `std::string` compares byte by byte.
abbrev pub Name : Type 0
Name = List ℕ

abbrev pub name_eq : Name → Name → Bool
name_eq [] [] = true
name_eq (a ∷ xs) (b ∷ ys) = a == b && name_eq xs ys
name_eq _ _ = false

abbrev pub name_lt : Name → Name → Bool
name_lt _ [] = false
name_lt [] (b ∷ ys) = true
name_lt (a ∷ xs) (b ∷ ys) = if a == b then name_lt xs ys else ltb a b

pub name_eq_iff : (a b : Name) → (name_eq a b ≡ true) ↔ (a ≡ b)
name_eq_iff [] [] = (λ _. refl, λ _. refl)
name_eq_iff [] (b ∷ ys) = (λ e. absurd (cc), λ e. absurd (cc))
name_eq_iff (a ∷ xs) [] = (λ e. absurd (cc), λ e. absurd (cc))
name_eq_iff (a ∷ xs) (b ∷ ys) =
    (λ e. ground (arith, name_eq_iff xs ys), λ e. ground (arith, name_eq_iff xs ys))

instance abbrev pub name_key : Key Name
name_key = record { same = name_eq; before = name_lt; same_iff = name_eq_iff }

abbrev num_eq : ℕ → ℕ → Bool
num_eq a b = a == b

instance abbrev pub fd_key : Key ℕ
fd_key = record { same = num_eq; before = ltb; same_iff = ==_iff }

module _ {K V : Type 0} ⦃key : Key K⦄ where
  unfoldable pub find : K → List (K × V) → Option V
  find k [] = none
  find k ((j, v) ∷ m) = if key.same j k then some v else find k m

  -- `insert` leaves an entry with the same key alone.
  unfoldable pub insert : K → V → List (K × V) → List (K × V)
  insert k v [] = (k, v) ∷ []
  insert k v ((j, w) ∷ m) =
      if key.same j k
      then (j, w) ∷ m
      else if key.before k j
      then (k, v) ∷ (j, w) ∷ m
      else (j, w) ∷ insert k v m

  unfoldable pub erase : K → List (K × V) → List (K × V)
  erase k [] = []
  erase k ((j, w) ∷ m) = if key.same j k then erase k m else (j, w) ∷ erase k m

  pub find-insert :
      (k j : K) (v : V) (m : List (K × V))
      → find k m ≡ none
      → find j (insert k v m) ≡ (if key.same k j then some v else find j m)
  unfolding find insert
  find-insert k j v [] h = refl
  find-insert k j v ((i, w) ∷ m) h =
      ground (arith, key.same_iff i k, key.same_iff i j, key.same_iff k j, find-insert k j v m)

  pub find-erase :
      (k j : K) (m : List (K × V)) → find j (erase k m) ≡ (if key.same k j then none else find j m)
  unfolding find erase
  find-erase k j [] = ground arith
  find-erase k j ((i, w) ∷ m) =
      ground (arith, key.same_iff i k, key.same_iff i j, key.same_iff k j, find-erase k j m)

  pub length-insert :
      (k : K) (v : V) (m : List (K × V)) → find k m ≡ none → length (insert k v m) ≡ suc (length m)
  unfolding find insert
  length-insert k v [] h = refl
  length-insert k v ((i, w) ∷ m) h = ground (arith, length-insert k v m)

  pub find-erase_self : (k : K) (m : List (K × V)) → find k (erase k m) ≡ none
  find-erase_self k m = ground (arith, find-erase k k m, key.same_iff k k)

  pub find-erase_ne : (k j : K) (m : List (K × V)) → j ≢ k → find j (erase k m) ≡ find j m
  find-erase_ne k j m ne =
      ground (arith, find-erase k j m, key.same_iff k j, λ (e : k ≡ j). ne (sym e))
