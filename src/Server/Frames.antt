-- ===== src/Server/Frames.antt =====
-- Which steps of the handlers of src/server/server.cpp leave the states of the users alone.
use four_in_a_row.Base.{
  ℕ, ◌<◌, ◌≡◌, ◌≢◌, refl, ◌∙◌, inl, inr, Option, none, some, length, length-set, Bool-cases, ◌==◌,
  ◌&&◌, set,
}
use four_in_a_row.Server.Map.{Name, name_lt}
use four_in_a_row.Server.User.{
  User, UserState, Heap, deref, increase_refs, decrease_refs, set_state, set_username, set_opponent,
  set_locked, state_eq, disconnected,
}
use four_in_a_row.Server.Heap.{deref-set_self, deref-set_ne, field-set, set-outside}
use four_in_a_row.Server.UserList.{Users, get_by_name, take_ref, yield, dispose}
use four_in_a_row.Server.World.{
  World, M, on_users, put_state, put_username, put_opponent, lock, unlock, yield_user, double_lock,
  double_unlock, leave,
}

-- No user's state changes, and no user comes or goes.
pub record SameStates (h h' : Heap) : Type 0 where
  pub states : (q : ℕ) → (deref h' q).state ≡ (deref h q).state
  pub extent : length h' ≡ length h

pub same_refl : (h : Heap) → SameStates h h
same_refl h = record { states = λ q. refl; extent = refl }

pub same_trans : {h i j : Heap} → SameStates h i → SameStates i j → SameStates h j
same_trans a b = record { states = λ q. b.states q ∙ a.states q; extent = b.extent ∙ a.extent }

-- A write that leaves the user's state alone.
same_set : (h : Heap) (p : ℕ) (u : User) → u.state ≡ (deref h p).state → SameStates h (set h p u)
same_set h p u e = record {
  states = λ q. field-set (λ v. v.state) h p q u e;
  extent = length-set h p u;
}

pub increase_refs-same : (h : Heap) (p : ℕ) → SameStates h (increase_refs h p)
unfolding increase_refs
increase_refs-same h p = same_set h p _ refl

pub decrease_refs-same : (h : Heap) (p : ℕ) → SameStates h (decrease_refs h p)
unfolding decrease_refs
decrease_refs-same h p = same_set h p _ refl

pub yield-same : (s : Users) (p : ℕ) → SameStates s.heap (yield s p).heap
unfolding yield dispose
yield-same s p =
    elim (Bool-cases (
      (deref (decrease_refs s.heap p) p).references == 0
      && state_eq (deref (decrease_refs s.heap p) p).state disconnected)) [
        | inl gone ↦
            rw gone (
              same_trans (decrease_refs-same s.heap p) (same_set (decrease_refs s.heap p) p _ refl))
        | inr kept ↦ rw kept (decrease_refs-same s.heap p)
      ]

pub take_ref-same : (s : Users) (o : Option ℕ) → SameStates s.heap (take_ref s o).0.heap
unfolding take_ref
take_ref-same s none = same_refl s.heap
take_ref-same s (some p) = increase_refs-same s.heap p

module _ {Cert Key : Type 0} where
  abbrev pub heap_of : World Cert Key → Heap
  heap_of w = w.users.heap

  -- A step that changes no state.
  abbrev pub Quiet : {A : Type 0} → M Cert Key A → Type 0
  Quiet m = (w : World Cert Key) → SameStates (heap_of w) (heap_of (m w).1)

  pub put_opponent-Quiet : (p : ℕ) (n : Name) → Quiet (put_opponent p n)
  unfolding put_opponent set_opponent
  put_opponent-Quiet p n w = same_set (heap_of w) p _ refl

  pub put_username-Quiet : (p : ℕ) (n : Name) → Quiet (put_username p n)
  unfolding put_username set_username
  put_username-Quiet p n w = same_set (heap_of w) p _ refl

  pub lock-Quiet : (p : ℕ) → Quiet (lock p)
  unfolding lock set_locked
  lock-Quiet p w = same_set (heap_of w) p _ refl

  pub unlock-Quiet : (p : ℕ) → Quiet (unlock p)
  unfolding unlock set_locked
  unlock-Quiet p w = same_set (heap_of w) p _ refl

  pub yield_user-Quiet : (p : ℕ) → Quiet (yield_user p)
  unfolding yield_user
  yield_user-Quiet p w = yield-same w.users p

  pub get_by_name-Quiet : (name : Name) → Quiet (on_users (λ s. get_by_name s name))
  unfolding get_by_name
  get_by_name-Quiet name w = take_ref-same w.users _

  pub double_lock-Quiet : (u c : ℕ) → Quiet (double_lock u c)
  unfolding double_lock
  double_lock-Quiet u c w =
      elim (Bool-cases (name_lt (deref (heap_of w) c).username (deref (heap_of w) u).username)) [
        | inl e ↦ rw e (
            same_trans (unlock-Quiet u w)
              (same_trans (lock-Quiet c (unlock u w).1) (lock-Quiet u (lock c (unlock u w).1).1)))
        | inr e ↦ rw e (lock-Quiet c w)
      ]

  pub double_unlock-Quiet : (u c : ℕ) → Quiet (double_unlock u c)
  unfolding double_unlock
  double_unlock-Quiet u c w =
      elim (Bool-cases (name_lt (deref (heap_of w) c).username (deref (heap_of w) u).username)) [
        | inl e ↦ rw e (
            same_trans (unlock-Quiet u w) (
              same_trans (unlock-Quiet c (unlock u w).1)
                (lock-Quiet u (unlock c (unlock u w).1).1)))
        | inr e ↦ rw e (unlock-Quiet c w)
      ]

  pub leave-Quiet : {A : Type 0} (u c : ℕ) (res : A) → Quiet (leave u c res)
  unfolding leave
  leave-Quiet u c res w =
      same_trans (double_unlock-Quiet u c w) (yield_user-Quiet c (double_unlock u c w).1)

  pub put_state_self :
      (p : ℕ) (s : UserState) (w : World Cert Key)
      → p < length (heap_of w)
      → (deref (heap_of (put_state p s w).1) p).state ≡ s
  unfolding put_state set_state
  put_state_self p s w lt = rw (deref-set_self (heap_of w) p _ lt)

  pub put_state-other :
      (p q : ℕ) (s : UserState) (w : World Cert Key)
      → p ≢ q
      → (deref (heap_of (put_state p s w).1) q).state ≡ (deref (heap_of w) q).state
  unfolding put_state set_state
  put_state-other p q s w ne = rw (deref-set_ne (heap_of w) p q _ ne)

  pub put_state-outside :
      (p : ℕ) (s : UserState) (w : World Cert Key)
      → ¬ (p < length (heap_of w))
      → heap_of (put_state p s w).1 ≡ heap_of w
  unfolding put_state set_state
  put_state-outside p s w ge = set-outside (heap_of w) p _ ge

  pub put_state-extent :
      (p : ℕ) (s : UserState) (w : World Cert Key)
      → length (heap_of (put_state p s w).1) ≡ length (heap_of w)
  unfolding put_state set_state
  put_state-extent p s w = length-set (heap_of w) p _
