-- ===== src/Server/Main/Pass.antt =====
-- The loop over the descriptors of `main` in src/server/server.cpp.
use native.Mathlib.Decide.{ℕ_discrete}
use four_in_a_row.Base.{
  ℕ, zero, suc, ◌+◌, ◌<◌, ◌≤◌, ◌≡◌, ◌≢◌, refl, sym, ap, ◌∙◌, subst, inl, inr, true, false, is_some,
  List, ◌∷◌, ◌==◌, length, Bool-cases, arith,
}
use four_in_a_row.Server.Map.{find, fd_key}
use four_in_a_row.Server.UserList.{Users, max_users, exists_fd}
use four_in_a_row.Server.Links.{Linked}
use four_in_a_row.Server.Handlers.{Decoded}
use four_in_a_row.Server.Main.{
  is_set, fd_setsize, Poll, ready, RoundEnd, goes_on, exits, null_pointer, users_of, accept_client,
  visit, visits, poll_round,
}
use four_in_a_row.Server.Main.Run.{connect-Linked, Fine, visit-Fine}
use four_in_a_row.Server.Main.Sweep.{
  Apart, Settled, Ends, service-Settled, bind-Ends, Ends-imp, clear_stale-Settled,
  clear_stale_listener, insert_keeps, insert_puts, connect_lists,
}

exists-Apart :
    {i : ℕ} {s t : Users} (j : ℕ)
    → Apart i s t
    → j ≢ i
    → exists_fd s j ≡ true
    → exists_fd t j ≡ true
unfolding exists_fd
exists-Apart j a ne e = ap is_some (a.others j ne) ∙ e

is_set_ne : (i j : ℕ) (s : List ℕ) → i ≢ j → is_set j (i ∷ s) ≡ true → is_set j s ≡ true
unfolding is_set
is_set_ne i j s ne on = ground (arith, ne, on)

module _ {Cert Key : Type 0} (listener : ℕ) (readable : List ℕ) where
  -- With the descriptors below `i` done: they are in the set only with a user, those ahead on
  -- which something has arrived have users, and there is room until the listener's turn.
  record Swept (i : ℕ) (p : Poll Cert Key) : Type 0 where
    linked : Linked (users_of p)
    ahead :
        (j : ℕ) → i ≤ j → is_set j readable ≡ true → j ≢ listener → exists_fd (users_of p) j ≡ true
    behind :
        (j : ℕ)
        → j < i
        → is_set j p.active_fd_set ≡ true
        → j ≢ listener
        → exists_fd (users_of p) j ≡ true
    room : i ≤ listener → length (users_of p).by_fd < max_users

  -- At a descriptor other than the listener's.
  Settled-Swept :
      (i : ℕ) (p q : Poll Cert Key)
      → i ≢ listener
      → Swept i p
      → Settled i p q
      → Linked (users_of q)
      → Swept (i + 1) q
  Settled-Swept i p q other s d l = record {
    linked = l;
    ahead =
        λ j le on ne. exists-Apart j d.apart (ground arith) (s.ahead j (omega (arith, le)) on ne);
    behind = λ j lt on ne. elim (ℕ_discrete j i) [
      | yes e ↦ rw e (d.here (rw (← e) on))
      | no off ↦ exists-Apart j d.apart off (s.behind j (omega (arith, lt, off)) (d.fewer j on) ne)
    ];
    room = λ le.
        let fits = s.room (omega (arith, le)) in
        let less = d.apart.shorter in omega (arith, fits, less);
  }

  -- At the listener: a new user comes, or nothing happens.
  accept-Swept :
      (new_fd : ℕ) (p : Poll Cert Key)
      → Swept listener p
      → Linked (users_of (accept_client new_fd p))
      → Swept (listener + 1) (accept_client new_fd p)
  unfolding accept_client exists_fd is_set
  accept-Swept new_fd p s l =
      let lists = connect_lists (users_of p) new_fd (s.room (omega arith)) in
      let old = λ (j : ℕ) (there : exists_fd (users_of p) j ≡ true).
        ap (λ m. is_some (find j m)) lists
        ∙ insert_keeps new_fd j (length (users_of p).heap) (users_of p).by_fd there in
      record {
        linked = l;
        ahead = λ j le on ne. old j (s.ahead j (omega (arith, le)) on ne);
        behind = λ j lt on ne. elim (ℕ_discrete new_fd j) [
          | yes e ↦
              ap (λ m. is_some (find j m)) lists
              ∙ rw (← e) (insert_puts new_fd (length (users_of p).heap) (users_of p).by_fd)
          | no off ↦
              old j
                (s.behind j (omega (arith, lt, ne)) (is_set_ne new_fd j p.active_fd_set off on) ne)
        ];
        room = λ le. absurd (omega (arith, le));
      }

  skip-Swept : (p : Poll Cert Key) → Swept listener p → Swept (listener + 1) p
  skip-Swept p s = record {
    linked = s.linked;
    ahead = λ j le on ne. s.ahead j (omega (arith, le)) on ne;
    behind = λ j lt on ne. s.behind j (omega (arith, lt, ne)) on ne;
    room = λ le. absurd (omega (arith, le));
  }

  Ends-Fine :
      {P Q : Poll Cert Key → Type 0} (o : RoundEnd (Poll Cert Key))
      → ((q : Poll Cert Key) → P q → Linked (users_of q) → Q q)
      → Ends P o
      → Fine o
      → Ends Q o
  Ends-Fine (goes_on q) f p l = f q p l
  Ends-Fine exits f p l = p
  Ends-Fine null_pointer f p l = p

  module _ (new_fd : ℕ) (reads : ℕ → Decoded Cert Key) where
    visit_listener-Swept :
        (p : Poll Cert Key)
        → Swept listener p
        → Ends (Swept (listener + 1)) (visit listener readable new_fd reads listener p)
    unfolding visit accept_client
    visit_listener-Swept p s =
        let same : (listener == listener) ≡ true = ground arith in
        elim (Bool-cases (is_set listener readable)) [
          | inl on ↦
              rw (on, same) (accept-Swept new_fd p s (connect-Linked (users_of p) new_fd s.linked))
          | inr off ↦ rw (off, clear_stale_listener listener p) (skip-Swept p s)
        ]

    visit-Swept :
        (i : ℕ) (p : Poll Cert Key)
        → Swept i p
        → Ends (Swept (i + 1)) (visit listener readable new_fd reads i p)
    unfolding visit
    visit-Swept i p s =
        let fine = visit-Fine listener readable new_fd reads i p s.linked in
        elim (ℕ_discrete i listener) [
          | yes e ↦
              subst (λ x. Ends (Swept (x + 1)) (visit listener readable new_fd reads x p)) (sym e)
                (visit_listener-Swept p (subst (λ x. Swept x p) e s))
          | no ne ↦
              let other : (i == listener) ≡ false = ground arith in
              Ends-Fine (visit listener readable new_fd reads i p) (λ q. Settled-Swept i p q ne s)
                (elim (Bool-cases (is_set i readable)) [
                  | inl on ↦
                      rw (on, other)
                        (service-Settled i (reads i) p s.linked (s.ahead i (omega arith) on ne))
                  | inr off ↦ rw off (clear_stale-Settled listener i p ne)
                ])
                fine
        ]

    visits-Swept :
        (n i m : ℕ) (p : Poll Cert Key)
        → i + n ≡ m
        → Swept i p
        → Ends (Swept m) (visits listener readable new_fd reads n i p)
    unfolding visits
    visits-Swept zero i m p e s = let is : i ≡ m = omega (arith, e) in rw (← is) s
    visits-Swept (suc n) i m p e s =
        bind-Ends (Swept m) (visit listener readable new_fd reads i p)
          (visits listener readable new_fd reads n (i + 1)) (visit-Swept i p s)
          (λ q. visits-Swept n (i + 1) m q (omega (arith, e)))

module _ {Cert Key : Type 0} where
  -- What the set holds when a round is over: the listener, and descriptors with a user.
  abbrev pub Attended : ℕ → Poll Cert Key → Type 0
  Attended listener p =
      (i : ℕ)
      → i < fd_setsize
      → is_set i p.active_fd_set ≡ true
      → i ≢ listener
      → exists_fd (users_of p) i ≡ true

  -- When no thread comes in between, the list is not full and every descriptor on which something has arrived has a user, but
  -- for the listener, a round of the loop does not end the program, at a NULL pointer or
  -- otherwise, and leaves no descriptor in the set without a user, but for the listener.
  pub poll_round_attends :
      (listener new_fd : ℕ) (readable : List ℕ) (reads : ℕ → Decoded Cert Key) (p : Poll Cert Key)
      → Linked (users_of p)
      → length (users_of p).by_fd < max_users
      → ((i : ℕ) → is_set i readable ≡ true → i ≢ listener → exists_fd (users_of p) i ≡ true)
      → Ends (Attended listener) (poll_round listener (ready readable new_fd reads) p)
  unfolding poll_round
  poll_round_attends listener new_fd readable reads p l room served =
      let start : Swept listener readable 0 p = record {
        linked = l;
        ahead = λ j le on ne. served j on ne;
        behind = λ j lt on ne. absurd (omega (arith, lt));
        room = λ le. room;
      } in
      Ends-imp (Attended listener) (visits listener readable new_fd reads fd_setsize 0 p)
        (λ q s. s.behind)
        (visits-Swept listener readable new_fd reads fd_setsize 0 fd_setsize p refl start)
