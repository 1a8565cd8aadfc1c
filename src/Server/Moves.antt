-- ===== src/Server/Moves.antt =====
-- Where a handler of src/server/server.cpp can take the state of one user, by the steps it is made of.
use native.Mathlib.Decide.{ℕ_discrete, dec_lt}
use four_in_a_row.Base.{
  ℕ, ◌<◌, ◌≡◌, ◌≢◌, refl, sym, ap, subst, ◌⊎◌, inl, inr, List, [], ◌∷◌, length,
}
use four_in_a_row.Server.Map.{Name}
use four_in_a_row.Server.User.{UserState, deref}
use four_in_a_row.Server.UserList.{get_by_name, add}
use four_in_a_row.Server.World.{
  World, put_state, put_opponent, put_username, lock, unlock, double_lock, leave, on_users, Env,
  Call, call,
}
use four_in_a_row.Server.Links.{Live-in_heap, Named, Live, Kept}
use four_in_a_row.Server.Safety.{
  Safe, Kept-Safe, put_opponent-Keeps, lock-Keeps, unlock-Keeps, double_lock-Keeps,
  get_by_name-Keeps, put_state_unnamed-Kept, put_username-Kept, add-Linked, heap-add,
  put_state-Keeps, leave-Safe,
}
use four_in_a_row.Server.Frames.{
  SameStates, heap_of, put_opponent-Quiet, put_username-Quiet, lock-Quiet, unlock-Quiet,
  double_lock-Quiet, leave-Quiet, get_by_name-Quiet, put_state_self, put_state-extent,
  put_state-other, put_state-outside,
}

abbrev pub In : UserState → List UserState → Type 0
In t [] = ⊥
In t (s ∷ l) = (t ≡ s) ⊎ In t l

-- The state is kept, or becomes one of those listed.
abbrev pub Among : List UserState → UserState → UserState → Type 0
Among l s t = (t ≡ s) ⊎ In t l

Among-trans : (l : List UserState) {s t r : UserState} → Among l s t → Among l t r → Among l s r
Among-trans l a (inl e) = rw e a
Among-trans l a (inr i) = inr i

module _ {Cert Key : Type 0} (u : ℕ) (l : List UserState) where
  -- From one world to the next the user `u` goes to one of the states listed or nowhere, and the
  -- maps keep pointing at live users, of whom `u` is one.
  pub record Step (w w' : World Cert Key) : Type 0 where
    pub goes : Among l (deref (heap_of w) u).state (deref (heap_of w') u).state
    pub keeps : Safe u w.users → Safe u w'.users

module _ {Cert Key : Type 0} where
  -- Where `setState` takes the user `u`, whosever state it sets.
  pub put_state_goes :
      (u : ℕ) (l : List UserState) (p : ℕ) (s : UserState) (w : World Cert Key)
      → In s l
      → Among l (deref (heap_of w) u).state (deref (heap_of (put_state p s w).1) u).state
  put_state_goes u l p s w i = elim (ℕ_discrete p u) [
    | yes e ↦ elim (dec_lt u (length (heap_of w))) [
      | yes lt ↦ inr (rw (e, put_state_self u s w lt) i)
      | no ge ↦ inl (rw (e, put_state-outside u s w ge))
    ]
    | no ne ↦ inl (put_state-other p u s w ne)
  ]

  pub put_state-Named :
      (p : ℕ) (s : UserState) (w : World Cert Key)
      → Named s
      → Live (heap_of (put_state p s w).1) p
      → Named (deref (heap_of (put_state p s w).1) p).state
  put_state-Named p s w named live =
      let lt = subst (λ n. p < n) (put_state-extent p s w) (Live-in_heap _ p live) in
      subst Named (sym (put_state_self p s w lt)) named

module _ {Cert Key : Type 0} {u : ℕ} {l : List UserState} where
  infixr 5 ◌>->◌
  pub ◌>->◌ : {w v z : World Cert Key} → Step u l w v → Step u l v z → Step u l w z
  a >-> b = record { goes = Among-trans l a.goes b.goes; keeps = λ s. b.keeps (a.keeps s) }

  quiet :
      {w v : World Cert Key}
      → SameStates (heap_of w) (heap_of v)
      → Kept w.users v.users
      → Step u l w v
  quiet s k = record { goes = inl (s.states u); keeps = Kept-Safe k }

  pub stay : {w : World Cert Key} → Step u l w w
  stay = record { goes = inl refl; keeps = λ s. s }

  pub put_opponent-Step :
      {w : World Cert Key} (p : ℕ) (n : Name) → Step u l w (put_opponent p n w).1
  put_opponent-Step {w = w} p n = quiet (put_opponent-Quiet p n w) (put_opponent-Keeps p n w)

  pub lock-Step : {w : World Cert Key} (p : ℕ) → Step u l w (lock p w).1
  lock-Step {w = w} p = quiet (lock-Quiet p w) (lock-Keeps p w)

  pub unlock-Step : {w : World Cert Key} (p : ℕ) → Step u l w (unlock p w).1
  unlock-Step {w = w} p = quiet (unlock-Quiet p w) (unlock-Keeps p w)

  pub double_lock-Step : {w : World Cert Key} (p c : ℕ) → Step u l w (double_lock p c w).1
  double_lock-Step {w = w} p c = quiet (double_lock-Quiet p c w) (double_lock-Keeps p c w)

  pub leave-Step :
      {w : World Cert Key} {A : Type 0} (c : ℕ) (res : A) → c ≢ u → Step u l w (leave u c res w).1
  leave-Step {w = w} c res ne = record {
    goes = inl ((leave-Quiet u c res w).states u);
    keeps = leave-Safe u c res w ne;
  }

  pub get_by_name-Step :
      {w : World Cert Key} (name : Name) → Step u l w (on_users (λ s. get_by_name s name) w).1
  get_by_name-Step {w = w} name = quiet (get_by_name-Quiet name w) (get_by_name-Keeps name w)

  pub put_state_other-Step :
      {w : World Cert Key} (p : ℕ) (s : UserState)
      → p ≢ u
      → Named s
      → Step u l w (put_state p s w).1
  put_state_other-Step {w = w} p s ne named = record {
    goes = inl (put_state-other p u s w ne);
    keeps = Kept-Safe (put_state-Keeps p s named w);
  }

  pub put_state-Step :
      {w : World Cert Key} (p : ℕ) (s : UserState)
      → In s l
      → Named s
      → Step u l w (put_state p s w).1
  put_state-Step {w = w} p s i named = record {
    goes = put_state_goes u l p s w i;
    keeps = Kept-Safe (put_state-Keeps p s named w);
  }

  -- What is done to a user who has not registered.
  pub put_state_unnamed-Step :
      {w : World Cert Key} (p : ℕ) (s : UserState)
      → In s l
      → ¬ Named (deref (heap_of w) p).state
      → Step u l w (put_state p s w).1
  put_state_unnamed-Step {w = w} p s i new = record {
    goes = put_state_goes u l p s w i;
    keeps = Kept-Safe (put_state_unnamed-Kept p s w new);
  }

  pub put_username-Step :
      {w : World Cert Key} (p : ℕ) (n : Name)
      → ¬ Named (deref (heap_of w) p).state
      → Step u l w (put_username p n w).1
  put_username-Step {w = w} p n new = quiet (put_username-Quiet p n w) (put_username-Kept p n w new)

  pub add-Step :
      {w : World Cert Key}
      → (Live (heap_of w) u → Named (deref (heap_of w) u).state)
      → Step u l w (on_users (λ s. add s u) w).1
  add-Step {w = w} named = record {
    goes = inl (ap (λ h. (deref h u).state) (heap-add w.users u));
    keeps = λ s. record {
      linked = add-Linked w.users u s.linked s.live (λ _. named s.live);
      live = subst (λ h. Live h u) (sym (heap-add w.users u)) s.live;
    };
  }

  pub call-Step :
      {w : World Cert Key} (env : Env Cert) (c : Call Cert Key) → Step u l w (call env c w).1
  unfolding call
  call-Step env c = record { goes = inl refl; keeps = λ s. s }
