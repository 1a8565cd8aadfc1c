-- ===== src/Server/Duel.antt =====
-- What the handlers of a challenge in src/server/server.cpp do to the two users: the locks and the
-- references, which the users do not notice, and the writes and calls, which they do.
pub mod Pair
pub mod Game
pub mod Declined
mod Tests
use four_in_a_row.Base.{
  ℕ, ◌<◌, ◌≡◌, ◌≢◌, refl, sym, ap, ◌∙◌, inl, inr, true, false, Option, none, some, List, [], ◌∷◌,
  ◌++◌, length, length-set, set, Bool-cases, ◌==◌,
}
use four_in_a_row.Server.Map.{Name, name_lt, name_key, find}
use four_in_a_row.Server.User.{
  User, UserState, deref, set_state, set_opponent, set_locked, increase_refs, decrease_refs,
  state_eq, disconnected,
}
use four_in_a_row.Server.Heap.{field-set, deref-set_self, deref-set_ne}
use four_in_a_row.Server.UserList.{get_by_name, take_ref, yield}
use four_in_a_row.Server.World.{
  World, Call, Env, M, on_users, put_state, put_opponent, lock, unlock, yield_user, double_lock,
  double_unlock, leave, call,
}
use four_in_a_row.Server.Frames.{heap_of, decrease_refs-same}

module _ {Cert Key : Type 0} where
  -- No state, no name, no opponent, no entry of the map of names and no call.
  pub record Calm (w v : World Cert Key) : Type 0 where
    pub states : (q : ℕ) → (deref (heap_of v) q).state ≡ (deref (heap_of w) q).state
    pub names : (q : ℕ) → (deref (heap_of v) q).username ≡ (deref (heap_of w) q).username
    pub opponents :
        (q : ℕ) → (deref (heap_of v) q).opponent_username ≡ (deref (heap_of w) q).opponent_username
    pub extent : length (heap_of v) ≡ length (heap_of w)
    pub listed : v.users.by_username ≡ w.users.by_username
    pub calls : v.calls ≡ w.calls

  pub Calm-trans : {w v z : World Cert Key} → Calm w v → Calm v z → Calm w z
  Calm-trans a b = record {
    states = λ q. b.states q ∙ a.states q;
    names = λ q. b.names q ∙ a.names q;
    opponents = λ q. b.opponents q ∙ a.opponents q;
    extent = b.extent ∙ a.extent;
    listed = b.listed ∙ a.listed;
    calls = b.calls ∙ a.calls;
  }

  Calm-refl : (w : World Cert Key) → Calm w w
  Calm-refl w = record {
    states = λ q. refl;
    names = λ q. refl;
    opponents = λ q. refl;
    extent = refl;
    listed = refl;
    calls = refl;
  }

  -- A write to a user that leaves these fields alone.
  set-Calm :
      (w v : World Cert Key) (p : ℕ) (u : User)
      → heap_of v ≡ set (heap_of w) p u
      → u.state ≡ (deref (heap_of w) p).state
      → u.username ≡ (deref (heap_of w) p).username
      → u.opponent_username ≡ (deref (heap_of w) p).opponent_username
      → v.users.by_username ≡ w.users.by_username
      → v.calls ≡ w.calls
      → Calm w v
  set-Calm w v p u e s n o l c = record {
    states = λ q. rw e (field-set (λ x. x.state) (heap_of w) p q u s);
    names = λ q. rw e (field-set (λ x. x.username) (heap_of w) p q u n);
    opponents = λ q. rw e (field-set (λ x. x.opponent_username) (heap_of w) p q u o);
    extent = rw e (length-set (heap_of w) p u);
    listed = l;
    calls = c;
  }

  lock-Calm : (p : ℕ) (w : World Cert Key) → Calm w (lock p w).1
  unfolding lock set_locked
  lock-Calm p w = set-Calm w _ p _ refl refl refl refl refl refl

  unlock-Calm : (p : ℕ) (w : World Cert Key) → Calm w (unlock p w).1
  unfolding unlock set_locked
  unlock-Calm p w = set-Calm w _ p _ refl refl refl refl refl refl

  pub double_lock-Calm : (u c : ℕ) (w : World Cert Key) → Calm w (double_lock u c w).1
  unfolding double_lock
  double_lock-Calm u c w =
      elim (Bool-cases (name_lt (deref (heap_of w) c).username (deref (heap_of w) u).username)) [
        | inl e ↦ rw e (
            Calm-trans (unlock-Calm u w)
              (Calm-trans (lock-Calm c (unlock u w).1) (lock-Calm u (lock c (unlock u w).1).1)))
        | inr e ↦ rw e (lock-Calm c w)
      ]

  double_unlock-Calm : (u c : ℕ) (w : World Cert Key) → Calm w (double_unlock u c w).1
  unfolding double_unlock
  double_unlock-Calm u c w =
      elim (Bool-cases (name_lt (deref (heap_of w) c).username (deref (heap_of w) u).username)) [
        | inl e ↦ rw e (
            Calm-trans (unlock-Calm u w)
              (Calm-trans (unlock-Calm c (unlock u w).1) (lock-Calm u (unlock c (unlock u w).1).1)))
        | inr e ↦ rw e (unlock-Calm c w)
      ]

  take_ref-Calm :
      (w : World Cert Key) (o : Option ℕ) → Calm w (record w { users = (take_ref w.users o).0 })
  unfolding take_ref increase_refs
  take_ref-Calm w none = Calm-refl w
  take_ref-Calm w (some p) = set-Calm w _ p _ refl refl refl refl refl refl

  pub get_by_name-Calm :
      (name : Name) (w : World Cert Key) → Calm w (on_users (λ s. get_by_name s name) w).1
  unfolding get_by_name
  get_by_name-Calm name w = take_ref-Calm w (find name w.users.by_username)

  pub get_by_name-found :
      (name : Name) (w : World Cert Key)
      → (on_users (λ s. get_by_name s name) w).0 ≡ find name w.users.by_username
  unfolding get_by_name take_ref
  get_by_name-found name w = take_ref-found w (find name w.users.by_username)
    where
      take_ref-found : (w : World Cert Key) (o : Option ℕ) → (take_ref w.users o).1 ≡ o
      take_ref-found w none = refl
      take_ref-found w (some p) = refl

  -- A user who is not disconnected outlives the `yield`.
  yield_user-Calm :
      (p : ℕ) (w : World Cert Key)
      → state_eq (deref (heap_of w) p).state disconnected ≡ false
      → Calm w (yield_user p w).1
  unfolding yield_user yield
  yield_user-Calm p w on =
      let kept : state_eq (deref (decrease_refs (heap_of w) p) p).state disconnected ≡ false =
        rw ((decrease_refs-same (heap_of w) p).states p) on in
      let fewer : Calm w
          (record w { users = record (w.users) { heap = decrease_refs (heap_of w) p } }) =
        unfold decrease_refs in set-Calm w _ p _ refl refl refl refl refl refl in
      elim (Bool-cases ((deref (decrease_refs (heap_of w) p) p).references == 0)) [
        | inl last ↦ rw (last, kept) fewer
        | inr more ↦ rw more fewer
      ]

  pub leave-Calm :
      {A : Type 0} (u c : ℕ) (res : A) (w : World Cert Key)
      → state_eq (deref (heap_of w) c).state disconnected ≡ false
      → Calm w (leave u c res w).1
  unfolding leave
  leave-Calm u c res w on =
      let q = double_unlock-Calm u c w in
      Calm-trans q (yield_user-Calm c (double_unlock u c w).1 (rw (q.states c) on))

  pub leave-result :
      {A : Type 0} (u c : ℕ) (res : A) (w : World Cert Key) → (leave u c res w).0 ≡ res
  unfolding leave
  leave-result u c res w = refl

  -- A call after steps that nobody notices.
  pub call-Calm :
      (env : Env Cert) (k : Call Cert Key) {w v : World Cert Key}
      → Calm w v
      → Calm (record w { calls = w.calls ++ k ∷ [] }) (call env k v).1
  unfolding call
  call-Calm env k a = record {
    states = a.states;
    names = a.names;
    opponents = a.opponents;
    extent = a.extent;
    listed = a.listed;
    calls = ap (λ l. l ++ k ∷ []) a.calls;
  }
