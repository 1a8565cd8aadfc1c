-- ===== src/Server/Safety.antt =====
-- The steps of src/server/user_list.cpp and src/server/user.h under which the two maps keep pointing
-- at live users.
use four_in_a_row.Base.{
  ℕ, ◌≡◌, ◌≢◌, refl, sym, ap, ◌∙◌, subst, inl, inr, true, false, Option, none, some, ◌==◌, ◌&&◌,
  Bool-cases, set, ltb, length,
}
use four_in_a_row.Server.Map.{Name, name_lt, name_key, fd_key}
use four_in_a_row.Server.User.{
  UserState, deref, set_state, set_username, set_opponent, set_locked, increase_refs, decrease_refs,
  state_eq, disconnected,
}
use four_in_a_row.Server.Heap.{deref-set_ne}
use four_in_a_row.Server.UserList.{
  Users, is_empty, insert_user, add, max_users, take_ref, get_by_name, get_by_fd, dispose, yield,
}
use four_in_a_row.Server.World.{
  World, M, on_users, put_state, put_opponent, put_username, lock, unlock, yield_user, double_lock,
  double_unlock, leave,
}
use four_in_a_row.Server.Links.{
  Named, Live, HasFd, HasName, Linked, Kept, only_heap, Kept-trans, Kept-Linked, set-Relabels,
  set_still-Relabels, set_unnamed-Relabels, Kept-refl, insert-Found, erase-Found,
}

-- `insert_user` of a live user, who has registered if he has a name.
pub insert_user-Linked :
    (s : Users) (p : ℕ)
    → Linked s
    → Live s.heap p
    → (is_empty (deref s.heap p).username ≡ false → Named (deref s.heap p).state)
    → Linked (insert_user s p)
unfolding insert_user
insert_user-Linked s p l live named =
    let u = deref s.heap p in
    let found = insert-Found (HasFd s.heap) u.fd p s.by_fd (live, refl) l.fds in
    elim (Bool-cases (is_empty u.username)) [
      | inl e ↦ rw e (record { fds = found; names = l.names })
      | inr e ↦ rw e (record {
        fds = found;
        names =
            insert-Found (HasName s.heap) u.username p s.by_username (live, refl, named e) l.names;
      })
    ]

-- The deletion of a user.
pub dispose-Linked : (s : Users) (p : ℕ) → Linked s → Linked (dispose s p)
unfolding dispose
dispose-Linked s p l =
    let u = deref s.heap p in
    let gone = record u { freed = true } in
    let h = set s.heap p gone in
    record {
      fds =
          erase-Found (HasFd s.heap) (HasFd h) u.fd s.by_fd
            (λ g q ne has.
              let other =
                deref-set_ne s.heap p q gone
                  (λ e. ne (sym has.1 ∙ ap (λ x. (deref s.heap x).fd) (sym e))) in
              subst (λ v. (v.freed ≡ false) × (v.fd ≡ g)) (sym other) has)
            l.fds;
      names =
          erase-Found (HasName s.heap) (HasName h) u.username s.by_username
            (λ n q ne has.
              let other =
                deref-set_ne s.heap p q gone
                  (λ e. ne (sym has.1 ∙ ap (λ x. (deref s.heap x).username) (sym e))) in
              subst (λ v. (v.freed ≡ false) × (v.username ≡ n) × Named (v.state)) (sym other) has)
            l.names;
    }

-- Besides, a user that a thread has at hand has not been deleted.
pub record Safe (u : ℕ) (s : Users) : Type 0 where
  pub linked : Linked s
  pub live : Live s.heap u

pub Kept-Safe : {u : ℕ} {s t : Users} → Kept s t → Safe u s → Safe u t
Kept-Safe {u = u} k a = record { linked = Kept-Linked k a.linked; live = k.heaps.lives u ∙ a.live }

pub heap-add : (s : Users) (p : ℕ) → (add s p).0.heap ≡ s.heap
unfolding add insert_user
heap-add s p = elim (Bool-cases (ltb (length s.by_fd) max_users)) [
  | inl room ↦ rw room refl
  | inr full ↦ rw full refl
]

pub add-Linked :
    (s : Users) (p : ℕ)
    → Linked s
    → Live s.heap p
    → (is_empty (deref s.heap p).username ≡ false → Named (deref s.heap p).state)
    → Linked (add s p).0
unfolding add
add-Linked s p l live named = elim (Bool-cases (ltb (length s.by_fd) max_users)) [
  | inl room ↦ rw room (insert_user-Linked s p l live named)
  | inr full ↦ rw full l
]

pub decrease_refs-Kept : (s : Users) (p : ℕ) → Kept s (record s { heap = decrease_refs s.heap p })
unfolding decrease_refs
decrease_refs-Kept s p = only_heap (set_still-Relabels s.heap p _ refl refl refl refl) refl refl

pub take_ref-Kept : (s : Users) (o : Option ℕ) → Kept s (take_ref s o).0
unfolding take_ref increase_refs
take_ref-Kept s none = Kept-refl s
take_ref-Kept s (some p) = only_heap (set_still-Relabels s.heap p _ refl refl refl refl) refl refl

-- `yield` drops a reference, and deletes the user or not.
pub yield_either :
    (P : Users → Type 0) (s : Users) (p : ℕ)
    → P (record s { heap = decrease_refs s.heap p })
    → P (dispose (record s { heap = decrease_refs s.heap p }) p)
    → P (yield s p)
unfolding yield
yield_either P s p kept gone =
    elim (Bool-cases (
      (deref (decrease_refs s.heap p) p).references == 0
      && state_eq (deref (decrease_refs s.heap p) p).state disconnected)) [
        | inl e ↦ rw e gone
        | inr e ↦ rw e kept
      ]

pub yield-Linked : (s : Users) (p : ℕ) → Linked s → Linked (yield s p)
yield-Linked s p l =
    let after = Kept-Linked (decrease_refs-Kept s p) l in
    yield_either Linked s p after (dispose-Linked _ p after)

dispose-Live : (s : Users) (p u : ℕ) → p ≢ u → Live s.heap u → Live (dispose s p).heap u
unfolding dispose
dispose-Live s p u ne live = rw (deref-set_ne s.heap p u _ ne) live

pub yield-Safe : (s : Users) (p u : ℕ) → p ≢ u → Safe u s → Safe u (yield s p)
yield-Safe s p u ne a =
    let after = Kept-Safe (decrease_refs-Kept s p) a in
    yield_either (Safe u) s p after
      (record { linked = dispose-Linked _ p after.linked; live = dispose-Live _ p u ne after.live })

module _ {Cert Key : Type 0} where
  -- A step that leaves the two maps alone.
  abbrev pub Keeps : {A : Type 0} → M Cert Key A → Type 0
  Keeps m = (w : World Cert Key) → Kept w.users (m w).1.users

  pub put_opponent-Keeps : (p : ℕ) (n : Name) → Keeps (put_opponent p n)
  unfolding put_opponent set_opponent
  put_opponent-Keeps p n w =
      only_heap (set_still-Relabels w.users.heap p _ refl refl refl refl) refl refl

  pub lock-Keeps : (p : ℕ) → Keeps (lock p)
  unfolding lock set_locked
  lock-Keeps p w = only_heap (set_still-Relabels w.users.heap p _ refl refl refl refl) refl refl

  pub unlock-Keeps : (p : ℕ) → Keeps (unlock p)
  unfolding unlock set_locked
  unlock-Keeps p w = only_heap (set_still-Relabels w.users.heap p _ refl refl refl refl) refl refl

  pub put_state-Keeps : (p : ℕ) (s : UserState) → Named s → Keeps (put_state p s)
  unfolding put_state set_state
  put_state-Keeps p s named w =
      only_heap (set-Relabels w.users.heap p _ refl refl refl named) refl refl

  -- The state of a user who has not registered may become any, and his name any name.
  pub put_state_unnamed-Kept :
      (p : ℕ) (s : UserState) (w : World Cert Key)
      → ¬ Named (deref w.users.heap p).state
      → Kept w.users (put_state p s w).1.users
  unfolding put_state set_state
  put_state_unnamed-Kept p s w new =
      only_heap (set_unnamed-Relabels w.users.heap p _ refl refl new) refl refl

  pub put_username-Kept :
      (p : ℕ) (n : Name) (w : World Cert Key)
      → ¬ Named (deref w.users.heap p).state
      → Kept w.users (put_username p n w).1.users
  unfolding put_username set_username
  put_username-Kept p n w new =
      only_heap (set_unnamed-Relabels w.users.heap p _ refl refl new) refl refl

  pub get_by_name-Keeps : (name : Name) → Keeps (on_users (λ s. get_by_name s name))
  unfolding get_by_name
  get_by_name-Keeps name w = take_ref-Kept w.users _

  pub get_by_fd-Keeps : (fd : ℕ) → Keeps (on_users (λ s. get_by_fd s fd))
  unfolding get_by_fd
  get_by_fd-Keeps fd w = take_ref-Kept w.users _

  pub double_lock-Keeps : (u c : ℕ) → Keeps (double_lock u c)
  unfolding double_lock
  double_lock-Keeps u c w =
      elim (Bool-cases (name_lt (deref w.users.heap c).username (deref w.users.heap u).username)) [
        | inl e ↦ rw e (
            Kept-trans (unlock-Keeps u w)
              (Kept-trans (lock-Keeps c (unlock u w).1) (lock-Keeps u (lock c (unlock u w).1).1)))
        | inr e ↦ rw e (lock-Keeps c w)
      ]

  double_unlock-Keeps : (u c : ℕ) → Keeps (double_unlock u c)
  unfolding double_unlock
  double_unlock-Keeps u c w =
      elim (Bool-cases (name_lt (deref w.users.heap c).username (deref w.users.heap u).username)) [
        | inl e ↦ rw e (
            Kept-trans (unlock-Keeps u w) (
              Kept-trans (unlock-Keeps c (unlock u w).1)
                (lock-Keeps u (unlock c (unlock u w).1).1)))
        | inr e ↦ rw e (unlock-Keeps c w)
      ]

  -- Leaving the other of the two users.
  pub leave-Safe :
      {A : Type 0} (u c : ℕ) (res : A) (w : World Cert Key)
      → c ≢ u
      → Safe u w.users
      → Safe u (leave u c res w).1.users
  unfolding leave yield_user
  leave-Safe u c res w ne a = yield-Safe _ c u ne (Kept-Safe (double_unlock-Keeps u c w) a)
