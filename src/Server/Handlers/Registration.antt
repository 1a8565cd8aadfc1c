-- ===== src/Server/Handlers/Registration.antt =====
-- `handleRegisterMessage` of src/server/server.cpp, alone and in a round of `worker`.
use four_in_a_row.Base.{
  ℕ, ◌<◌, ◌≤◌, ◌≡◌, ◌≢◌, refl, true, false, none, some, List, [], ◌∷◌, ltb, if◌then◌else◌, length,
  length-set, arith,
}
use four_in_a_row.Server.Map.{
  Name, name_key, fd_key, name_eq, name_eq_iff, find, insert, find-insert, find-erase_self,
  find-erase_ne,
}
use four_in_a_row.Server.User.{
  UserState, Heap, deref, increase_refs, decrease_refs, set_locked, set_username, set_state,
  available, disconnected, securely_connected,
}
use four_in_a_row.Server.Heap.{
  deref-set_self, deref-set_state, deref-set_username, length-set_username, deref-set_locked,
  deref-increase_refs, deref-decrease_refs, length-set_state, length-set_locked,
  length-increase_refs,
}
use four_in_a_row.Server.UserList.{
  add, is_empty, insert_user, exists_name, max_users, get_by_fd, take_ref, yield, dispose,
}
use four_in_a_row.Server.World.{World, Env, put_username, put_state, yield_user, lock, unlock}
use four_in_a_row.Server.Handlers.{
  handle_register, dispatch, handle_message, serve, worker_round, message,
}
use four_in_a_row.Wire.Message.{register_message}

name_eq_ne : (a b : Name) → a ≢ b → name_eq a b ≡ false
name_eq_ne a b ne = ground (arith, name_eq_iff a b)

ltb_yes : (m n : ℕ) → m < n → ltb m n ≡ true
ltb_yes m n lt = ground (arith, lt)

ltb_no : (m n : ℕ) → n ≤ m → ltb m n ≡ false
ltb_no m n le = ground (arith, le)

-- The user after `setUsername` and `setState`.
registered :
    (h : Heap) (u : ℕ) (name : Name) (s : UserState)
    → u < length h
    → deref (set_state (set_username h u name) u s) u
      ≡ record (deref h u) { username = name; state = s }
registered h u name s lt = rw (
  deref-set_state (set_username h u name) u (rw (length-set_username h u name) lt) s,
  deref-set_username h u lt name,
)

find-insert_name :
    (u : ℕ) (name : Name) (m : List (Name × ℕ))
    → name ≢ []
    → find name m ≡ none
    → find name (if is_empty name then m else insert name u m) ≡ some u
find-insert_name u [] m ne free = absurd (ne refl)
find-insert_name u (b ∷ bs) m ne free =
    ground (arith, find-insert (b ∷ bs) (b ∷ bs) u m free, name_eq_iff (b ∷ bs) (b ∷ bs))

-- The heap when the user `u` was told that the name is taken and `yield` has dropped its reference.
abbrev refused : Heap → ℕ → Name → Heap
refused h u name =
    let locked = set_locked (increase_refs h u) u true in
    let marked = set_state (set_username locked u name) u disconnected in
    decrease_refs (set_state (set_locked marked u false) u disconnected) u

refused_user :
    (h : Heap) (u : ℕ) (name : Name)
    → u < length h
    → (deref h u).references ≡ 0
    → deref (refused h u name) u
      ≡ record (deref h u) { state = disconnected; username = name; references = 0; locked = false }
refused_user h u name lt refs =
    let a = increase_refs h u in
    let b = set_locked a u true in
    let c = set_username b u name in
    let d = set_state c u disconnected in
    let e = set_locked d u false in
    let f = set_state e u disconnected in
    let in_a : u < length a = rw (length-increase_refs h u) lt in
    let in_b : u < length b = rw (length-set_locked a u true) in_a in
    let in_c : u < length c = rw (length-set_username b u name) in_b in
    let in_d : u < length d = rw (length-set_state c u disconnected) in_c in
    let in_e : u < length e = rw (length-set_locked d u false) in_d in
    let in_f : u < length f = rw (length-set_state e u disconnected) in_e in
    rw (
      deref-decrease_refs f u in_f,
      deref-set_state e u in_e disconnected,
      deref-set_locked d u in_d false,
      deref-set_state c u in_c disconnected,
      deref-set_username b u in_b name,
      deref-set_locked a u in_a true,
      deref-increase_refs h u lt,
      refs,
    )

length-refused : (h : Heap) (u : ℕ) (name : Name) → length (refused h u name) ≡ length h
unfolding increase_refs decrease_refs set_locked set_state set_username
length-refused h u name = simp (length-set)

module _ {Cert Key : Type 0} (env : Env Cert) where
  -- In a list with room a free name that is neither empty nor that in the server's certificate is
  -- given to whoever asks for it: the handler answers true, the user is available, and the name
  -- finds the user.
  pub register_accepts :
      (u : ℕ) (name : Name) (w : World Cert Key)
      → u < length w.users.heap
      → name ≢ env.server_name
      → name ≢ []
      → find name w.users.by_username ≡ none
      → length w.users.by_fd < max_users
      → let r = handle_register env u name w in
        (r.0 ≡ true)
        × ((deref r.1.users.heap u).state ≡ available)
        × ((deref r.1.users.heap u).username ≡ name)
        × (find name r.1.users.by_username ≡ some u)
  unfolding handle_register put_username put_state set_username set_state exists_name add
      insert_user
  register_accepts u name w lt ne nonempty free room =
      rw
        (
          name_eq_ne name env.server_name ne,
          free,
          ltb_yes (length w.users.by_fd) 1024 room,
          registered w.users.heap u name available lt,
        )
        (refl, refl, refl, find-insert_name u name w.users.by_username nonempty free)

  -- A user to whom nobody else holds a reference, and who asks for a name that is taken and is not
  -- the server's, is deleted in the same round of `worker`: neither the descriptor nor the name is
  -- found any more, although the name belonged to the user found before, while the other
  -- descriptors are found as before.
  pub register_taken :
      (u p fd : ℕ) (name : Name) (w : World Cert Key)
      → u < length w.users.heap
      → find fd w.users.by_fd ≡ some u
      → (deref w.users.heap u).state ≡ securely_connected
      → (deref w.users.heap u).fd ≡ fd
      → (deref w.users.heap u).references ≡ 0
      → name ≢ env.server_name
      → find name w.users.by_username ≡ some p
      → let s = (worker_round env fd (message (register_message name)) w).1.users in
        ((deref s.heap u).freed ≡ true)
        × (find fd s.by_fd ≡ none)
        × (find name s.by_username ≡ none)
        × ((g : ℕ) → g ≢ fd → find g s.by_fd ≡ find g w.users.by_fd)
  unfolding worker_round serve handle_message dispatch handle_register put_username put_state
      get_by_fd take_ref yield_user yield dispose exists_name lock unlock
  register_taken u p fd name w lt here st hfd refs ne taken =
      rw
        (
          here,
          deref-set_locked (increase_refs w.users.heap u) u
              (rw (length-increase_refs w.users.heap u) lt) true,
          deref-increase_refs w.users.heap u lt,
          st,
          name_eq_ne name env.server_name ne,
          taken,
          refused_user w.users.heap u name lt refs,
          hfd,
          deref-set_self (refused w.users.heap u name) u _
              (rw (length-refused w.users.heap u name) lt),
        )
        (
          refl,
          find-erase_self fd w.users.by_fd,
          find-erase_self name w.users.by_username,
          λ g ne'. find-erase_ne fd g w.users.by_fd ne',
        )

  -- In a full list a free name other than the server's is accepted just the same, the handler
  -- answers true and the user is available, but the name finds nobody.
  pub register_full :
      (u : ℕ) (name : Name) (w : World Cert Key)
      → u < length w.users.heap
      → name ≢ env.server_name
      → find name w.users.by_username ≡ none
      → max_users ≤ length w.users.by_fd
      → let r = handle_register env u name w in
        (r.0 ≡ true)
        × ((deref r.1.users.heap u).state ≡ available)
        × (find name r.1.users.by_username ≡ none)
  unfolding handle_register put_username put_state exists_name add
  register_full u name w lt ne free full =
      rw
        (
          name_eq_ne name env.server_name ne,
          free,
          ltb_no (length w.users.by_fd) 1024 full,
          registered w.users.heap u name available lt,
        )
        (refl, refl, free)
