-- ===== src/Server/UserList/Listing.antt =====
-- `listAvailableFromTo` of src/server/user_list.cpp against the list of the available users.
use four_in_a_row.Base.{
  ℕ, zero, suc, ◌+◌, ◌≡◌, refl, List, [], ◌∷◌, ◌++◌, if◌then◌else◌, append-nil, arith,
}
use four_in_a_row.Base.Int.{pos}
use four_in_a_row.Server.Map.{Name}
use four_in_a_row.Server.User.{Heap, deref, state_eq, available}
use four_in_a_row.Server.UserList.{Users, list_loop, list_available_from_to}

-- The names of the available users, in the order of the map.
abbrev pub available_names : Heap → List (Name × ℕ) → List Name
available_names h [] = []
available_names h ((name, p) ∷ m) =
    let rest = available_names h m in
    if state_eq (deref h p).state available then name ∷ rest else rest

-- Each name but the tenth is followed by a comma; `k` names may still come.
abbrev pub joined : ℕ → List Name → List ℕ
joined k [] = []
joined zero (x ∷ xs) = []
joined (suc zero) (x ∷ xs) = x
joined (suc (suc k)) (x ∷ xs) = x ++ b',' ∷ joined (suc k) xs

joined-zero : (xs : List Name) → joined 0 xs ≡ []
joined-zero [] = refl
joined-zero (x ∷ xs) = refl

list_loop-joined :
    (h : Heap) (m : List (Name × ℕ)) (n k : ℕ)
    → n + k ≡ 10
    → list_loop h (pos 0) n m ≡ joined k (available_names h m)
unfolding list_loop
list_loop-joined h [] n zero e = refl
list_loop-joined h [] n (suc k) e = refl
list_loop-joined h ((name, p) ∷ m) n zero e =
    ground (arith, joined-zero (available_names h ((name, p) ∷ m)))
list_loop-joined h ((name, p) ∷ m) n (suc zero) e = ground (
  arith,
  append-nil name,
  joined-zero (available_names h m),
  list_loop-joined h m n 1 e,
  list_loop-joined h m (n + 1) 0 (omega arith),
)
list_loop-joined h ((name, p) ∷ m) n (suc (suc k)) e = ground (
  arith,
  list_loop-joined h m n (suc (suc k)) e,
  list_loop-joined h m (n + 1) (suc k) (omega arith),
)

-- From the offset 0 the list holds the first ten available users in alphabetical order, each but
-- the tenth followed by a comma, and a closing zero.
pub list_available_first :
    (s : Users)
    → list_available_from_to s (pos 0) ≡ joined 10 (available_names s.heap s.by_username) ++ 0 ∷ []
unfolding list_available_from_to
list_available_first s = rw (list_loop-joined s.heap s.by_username 0 10 refl)

list_loop_stuck : (h : Heap) (m : List (Name × ℕ)) (f : ℕ) → list_loop h (pos (suc f)) 0 m ≡ []
unfolding list_loop
list_loop_stuck h [] f = refl
list_loop_stuck h ((name, p) ∷ m) f = ground (arith, list_loop_stuck h m f)

-- From any later offset the list is empty, whoever is available: the loop skips a user without
-- counting it, so the count never reaches the offset.
pub list_available_later : (s : Users) (f : ℕ) → list_available_from_to s (pos (suc f)) ≡ 0 ∷ []
unfolding list_available_from_to
list_available_later s f = rw (list_loop_stuck s.heap s.by_username f)
