-- ===== src/Server/Main/Run.antt =====
-- In every run of src/server/server.cpp the two maps of the list point at live users.
use mathlib.Core.Bool.{false≢true}
use four_in_a_row.Base.{
  ℕ, zero, suc, ◌+◌, ◌≡◌, refl, sym, ap, ◌∙◌, subst, inl, inr, false, ◌&&◌, not, Option, none, some,
  List, [], ◌∷◌, ◌++◌, ◌==◌, length, Bool-cases, Option-cases,
}
use four_in_a_row.Wire.Message.{Message}
use four_in_a_row.Server.Map.{find, name_key, fd_key}
use four_in_a_row.Server.User.{User, deref, new_user, disconnected, state_eq}
use four_in_a_row.Server.Heap.{deref-new, deref-old}
use four_in_a_row.Server.UserList.{Users, get_by_fd, exists_fd, take_ref, is_empty}
use four_in_a_row.Server.World.{World, Env, yield_user}
use four_in_a_row.Server.Links.{Live, Live-in_heap, Linked, Kept-Linked, Named}
use four_in_a_row.Server.Safety.{
  Safe, add-Linked, yield-Linked, put_state-Keeps, get_by_fd-Keeps, Kept-Safe,
}
use four_in_a_row.Server.Handlers.{
  Decoded, message, nothing, thrown, serve, worker_round, handle_message,
}
use four_in_a_row.Server.Lifecycle.{handle_message-Step}
use four_in_a_row.Server.Main.{
  connect, ◌>>=◌, is_set, fd_setsize, Poll, Select, ready, bad_descriptor, other_error, RoundEnd,
  goes_on, exits, null_pointer, users_of, accept_client, clear, clear_gone, take_message,
  service_found, service, clear_stale, visit, visits, clear_all, poll_round, work, Step, looks,
  clears, works, Steps, done, later,
}

-- A new user at the end of the heap.
append-Linked : (s : Users) (u : User) → Linked s → Linked (record s { heap = s.heap ++ u ∷ [] })
append-Linked s u l =
    let old = λ (p : ℕ) (live : Live s.heap p). deref-old s.heap p u (Live-in_heap s.heap p live) in
    record {
      fds = λ g p e.
          let has = l.fds g p e in
          subst (λ v. (v.freed ≡ false) × (v.fd ≡ g)) (sym (old p has.0)) has;
      names = λ n p e.
          let has = l.names n p e in
          subst (λ v. (v.freed ≡ false) × (v.username ≡ n) × Named (v.state)) (sym (old p has.0))
            has;
    }

pub connect-Linked : (s : Users) (fd : ℕ) → Linked s → Linked (connect s fd)
unfolding connect
connect-Linked s fd l =
    let here = deref-new s.heap (new_user fd) in
    add-Linked _ (length s.heap) (append-Linked s (new_user fd) l)
      (unfold new_user in ap (λ v. v.freed) here)
      (λ named.
        absurd (false≢true (sym named ∙ ap (λ v. is_empty v.username) (unfold new_user in here))))

take_ref-found : (s : Users) (o : Option ℕ) → (take_ref s o).1 ≡ o
unfolding take_ref
take_ref-found s none = refl
take_ref-found s (some p) = refl

pub get_by_fd-found : (s : Users) (fd : ℕ) → (get_by_fd s fd).1 ≡ find fd s.by_fd
unfolding get_by_fd
get_by_fd-found s fd = take_ref-found s (find fd s.by_fd)

module _ {Cert Key : Type 0} where
  -- The user that a descriptor finds is live.
  found-Safe :
      (w : World Cert Key) (fd u : ℕ)
      → Linked w.users
      → (get_by_fd w.users fd).1 ≡ some u
      → Safe u (get_by_fd w.users fd).0
  found-Safe w fd u l e =
      Kept-Safe (get_by_fd-Keeps fd w)
        (record { linked = l; live = (l.fds fd u (sym (get_by_fd-found w.users fd) ∙ e)).0 })

  serve-Linked :
      (env : Env Cert) (u : ℕ) (raw : Decoded Cert Key) (w : World Cert Key)
      → Safe u w.users
      → Linked (serve env (some u) raw w).1.users
  unfolding serve yield_user
  serve-Linked env u raw w s =
      let r = handle_message env u raw w in
      let after = ((handle_message-Step env u w raw).keeps s).linked in
      elim (Bool-cases r.0) [
        | inl e ↦ rw e (yield-Linked r.1.users u after)
        | inr e ↦
            rw e (yield-Linked _ u (Kept-Linked (put_state-Keeps u disconnected tt r.1) after))
      ]

  pub worker_round-Linked :
      (env : Env Cert) (fd : ℕ) (raw : Decoded Cert Key) (w : World Cert Key)
      → Linked w.users
      → Linked (worker_round env fd raw w).1.users
  unfolding worker_round serve
  worker_round-Linked env fd raw w l = elim (Option-cases (get_by_fd w.users fd).1) [
    | inl e ↦ rw e (Kept-Linked (get_by_fd-Keeps fd w) l)
    | inr (u, e) ↦ rw e (serve-Linked env u raw _ (found-Safe w fd u l e))
  ]

  work-Linked :
      (env : Env Cert) (handle_msg : ℕ → Message Cert Key → Decoded Cert Key)
      (outs : List (ℕ × Message Cert Key)) (w : World Cert Key)
      → Linked w.users
      → Linked (work env handle_msg outs w).users
  unfolding work
  work-Linked env handle_msg [] w l = l
  work-Linked env handle_msg ((fd, m) ∷ rest) w l =
      work-Linked env handle_msg rest _ (worker_round-Linked env fd (handle_msg fd m) w l)

  -- The outcomes of the main thread that go on keep the maps so.
  abbrev pub Fine : RoundEnd (Poll Cert Key) → Type 0
  Fine (goes_on p) = Linked (users_of p)
  Fine exits = Unit
  Fine null_pointer = Unit

  take_message-Linked :
      (i u : ℕ) (got : Decoded Cert Key) (p : Poll Cert Key)
      → Linked (users_of p)
      → Linked (users_of (take_message i u got p))
  unfolding take_message
  take_message-Linked i u (message m) p l = l
  take_message-Linked i u nothing p l = l
  take_message-Linked i u thrown p l = Kept-Linked (put_state-Keeps u disconnected tt p.world) l

  pub clear_gone-users : (i : ℕ) (p : Poll Cert Key) → users_of (clear_gone i p) ≡ users_of p
  unfolding clear_gone clear
  clear_gone-users i p = elim (Bool-cases (exists_fd (users_of p) i)) [
    | inl e ↦ rw e refl
    | inr e ↦ rw e refl
  ]

  service_found-Fine :
      (i : ℕ) (got : Decoded Cert Key) (p : Poll Cert Key) (found : Option ℕ)
      → Linked (users_of p)
      → Fine (service_found i got p found)
  unfolding service_found clear
  service_found-Fine i got p none l = tt
  service_found-Fine i got p (some u) l =
      elim (Bool-cases (state_eq (deref (users_of p).heap u).state disconnected)) [
        | inl e ↦ rw e (yield-Linked (users_of p) u l)
        | inr e ↦ rw e (
            subst Linked (sym (clear_gone-users i _))
              (yield-Linked _ u (take_message-Linked i u got p l)))
      ]

  service-Fine :
      (i : ℕ) (got : Decoded Cert Key) (p : Poll Cert Key)
      → Linked (users_of p)
      → Fine (service i got p)
  unfolding service
  service-Fine i got p l = service_found-Fine i got _ _ (Kept-Linked (get_by_fd-Keeps i p.world) l)

module _ {Cert Key : Type 0} (listener : ℕ) where
  pub clear_stale-users :
      (i : ℕ) (p : Poll Cert Key) → users_of (clear_stale listener i p) ≡ users_of p
  unfolding clear_stale
  clear_stale-users i p = elim (Bool-cases (is_set i p.active_fd_set && not (i == listener))) [
    | inl e ↦ rw e (clear_gone-users i p)
    | inr e ↦ rw e refl
  ]

  pub visit-Fine :
      (readable : List ℕ) (new_fd : ℕ) (reads : ℕ → Decoded Cert Key) (i : ℕ) (p : Poll Cert Key)
      → Linked (users_of p)
      → Fine (visit listener readable new_fd reads i p)
  unfolding visit accept_client
  visit-Fine readable new_fd reads i p l = elim (Bool-cases (is_set i readable)) [
    | inr e ↦ rw e (subst Linked (sym (clear_stale-users i p)) l)
    | inl e ↦ elim (Bool-cases (i == listener)) [
      | inl e' ↦ rw (e, e') (connect-Linked (users_of p) new_fd l)
      | inr e' ↦ rw (e, e') (service-Fine i (reads i) p l)
    ]
  ]

  >>=-goes_on :
      (o : RoundEnd (Poll Cert Key)) (f : Poll Cert Key → RoundEnd (Poll Cert Key))
      {q : Poll Cert Key}
      → (o >>= f) ≡ goes_on q
      → (p : Poll Cert Key) × (o ≡ goes_on p) × (f p ≡ goes_on q)
  >>=-goes_on (goes_on p) f e = (p, refl, e)
  >>=-goes_on exits f e = absurd (cc)
  >>=-goes_on null_pointer f e = absurd (cc)

  pub Steps-trans :
      {env : Env Cert} {p q r : Poll Cert Key}
      → Steps listener env p q
      → Steps listener env q r
      → Steps listener env p r
  Steps-trans run done = run
  Steps-trans run (later more s) = later (Steps-trans run more) s

  visits-Steps :
      (env : Env Cert) (readable : List ℕ) (new_fd : ℕ) (reads : ℕ → Decoded Cert Key) (n i : ℕ)
      (p : Poll Cert Key) {q : Poll Cert Key}
      → visits listener readable new_fd reads n i p ≡ goes_on q
      → Steps listener env p q
  unfolding visits
  visits-Steps env readable new_fd reads zero i p {q = q} e =
      let same : p ≡ q = cc in rw (← same) done
  visits-Steps env readable new_fd reads (suc n) i p e =
      let (r, first, rest) = >>=-goes_on _ (visits listener readable new_fd reads n (i + 1)) e in
      Steps-trans (later done (looks readable new_fd reads i first))
        (visits-Steps env readable new_fd reads n (i + 1) r rest)

  clear_all-Steps :
      (env : Env Cert) (n i : ℕ) (p : Poll Cert Key)
      → Steps listener env p (clear_all listener n i p)
  unfolding clear_all
  clear_all-Steps env zero i p = done
  clear_all-Steps env (suc n) i p =
      Steps-trans (later done (clears i)) (clear_all-Steps env n (i + 1) _)

  -- A round without other threads is a run.
  pub poll_round-Steps :
      (env : Env Cert) (selected : Select Cert Key) (p : Poll Cert Key) {q : Poll Cert Key}
      → poll_round listener selected p ≡ goes_on q
      → Steps listener env p q
  unfolding poll_round
  poll_round-Steps env (ready readable new_fd reads) p e =
      visits-Steps env readable new_fd reads fd_setsize 0 p e
  poll_round-Steps env bad_descriptor p {q = q} e =
      let same : clear_all listener fd_setsize 0 p ≡ q = cc in
      rw (← same) (clear_all-Steps env fd_setsize 0 p)
  poll_round-Steps env other_error p e = absurd (cc)

  Step-Linked :
      (env : Env Cert) {p q : Poll Cert Key}
      → Step listener env p q
      → Linked (users_of p)
      → Linked (users_of q)
  Step-Linked env {p = p} (looks readable new_fd reads i e) l =
      subst Fine e (visit-Fine readable new_fd reads i p l)
  Step-Linked env {p = p} (clears i) l = subst Linked (sym (clear_stale-users i p)) l
  Step-Linked env {p = p} (works handle_msg {outs = outs} s) l =
      work-Linked env handle_msg outs p.world l

  -- Whatever arrives and whatever the threads do in which order, also between two descriptors that the
  -- main thread looks at, from a list in which every
  -- descriptor and every name finds a user who has not been deleted, has that descriptor or that
  -- name, and, if found by name, has registered, every run of the server leads to such a list.
  pub found_are_live :
      (env : Env Cert) {p q : Poll Cert Key}
      → Steps listener env p q
      → Linked (users_of p)
      → Linked (users_of q)
  found_are_live env done l = l
  found_are_live env (later run s) l = Step-Linked env s (found_are_live env run l)
