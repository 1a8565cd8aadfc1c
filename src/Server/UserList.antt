-- ===== src/Server/UserList.antt =====
-- src/server/user_list.cpp: the class UserList. Its mutex is held through each method, so a method
-- is one step.
pub mod Listing
use four_in_a_row.Base.{
  ℕ, suc, ◌+◌, ◌-◌, Bool, true, false, not, ◌&&◌, Option, none, some, is_some, List, [], ◌∷◌, ◌++◌,
  ltb, ◌==◌, if◌then◌else◌, length, set,
}
use four_in_a_row.Base.Int.{ℤ, pos, negsuc}
use four_in_a_row.Server.Map.{Name, Key, name_key, fd_key, find, insert, erase}
use four_in_a_row.Server.User.{
  User, Heap, deref, increase_refs, decrease_refs, state_eq, available, disconnected,
}

abbrev pub max_users : ℕ
max_users = 1024

abbrev pub max_users_in_message : ℕ
max_users_in_message = 10

-- The two maps, with the users that they point to.
pub record Users : Type 0 where
  pub heap : Heap
  pub by_username : List (Name × ℕ)
  pub by_fd : List (ℕ × ℕ)

abbrev pub is_empty : Name → Bool
is_empty [] = true
is_empty (b ∷ bs) = false

-- The insertions that `add` makes.
unfoldable pub insert_user : Users → ℕ → Users
unfolding insert
insert_user s p =
    let u = deref s.heap p in
    record s {
      by_fd = insert u.fd p s.by_fd;
      by_username =
          if is_empty u.username then s.by_username else insert u.username p s.by_username;
    }

unfoldable pub add : Users → ℕ → Users × Bool
add s p = if ltb (length s.by_fd) max_users then (insert_user s p, true) else (s, false)

-- A found user gets one more reference.
unfoldable pub take_ref : Users → Option ℕ → Users × Option ℕ
take_ref s none = (s, none)
take_ref s (some p) = (record s { heap = increase_refs s.heap p }, some p)

unfoldable pub get_by_name : Users → Name → Users × Option ℕ
unfolding take_ref
get_by_name s name = take_ref s (find name s.by_username)

unfoldable pub get_by_fd : Users → ℕ → Users × Option ℕ
unfolding take_ref
get_by_fd s fd = take_ref s (find fd s.by_fd)

unfoldable pub exists_name : Users → Name → Bool
exists_name s name = is_some (find name s.by_username)

unfoldable pub exists_fd : Users → ℕ → Bool
exists_fd s fd = is_some (find fd s.by_fd)

-- The deletion of a user at the end of `yield`. Erasing a missing key changes nothing.
unfoldable pub dispose : Users → ℕ → Users
dispose s p =
    let u = deref s.heap p in
    record {
      heap = set s.heap p (record u { freed = true });
      by_username = erase u.username s.by_username;
      by_fd = erase u.fd s.by_fd;
    }

unfoldable pub yield : Users → ℕ → Users
yield s p =
    let s' = record s { heap = decrease_refs s.heap p } in
    let u = deref s'.heap p in
    if u.references == 0 && state_eq u.state disconnected then dispose s' p else s'

-- `n < from + k` and `n < from`, for an `int` offset.
abbrev pub below_plus : ℕ → ℤ → ℕ → Bool
below_plus n (pos f) k = ltb n (f + k)
below_plus n (negsuc f) k = ltb (n + suc f) k

abbrev comma : Bool → List ℕ
comma true = b',' ∷ []
comma false = []

-- The loop of `listAvailableFromTo`; a user is skipped by `continue` before it is counted.
unfoldable pub list_loop : Heap → ℤ → ℕ → List (Name × ℕ) → List ℕ
list_loop h from n [] = []
list_loop h from n ((name, p) ∷ m) =
    let skip = list_loop h from n m in
    let count = list_loop h from (n + 1) m in
    if below_plus n from max_users_in_message
    then if state_eq (deref h p).state available
      then if below_plus n from 0
        then skip
        else name ++ (comma (below_plus n from (max_users_in_message - 1)) ++ count)
      else skip
    else []

unfoldable pub list_available_from_to : Users → ℤ → List ℕ
list_available_from_to s from = list_loop s.heap from 0 s.by_username ++ 0 ∷ []

unfoldable pub size : Users → ℕ
size s = length s.by_fd
