-- ===== src/Server/Main/Sweep.antt =====
-- A round of the loop of `main` in src/server/server.cpp: which descriptors stay in the set.
use four_in_a_row.Base.{
  ℕ, ◌<◌, ◌≤◌, ◌≡◌, ◌≢◌, refl, sym, ap, ◌∙◌, inl, inr, true, false, some, is_some, List, [], ◌∷◌,
  ◌==◌, ltb, length, Bool-cases, Option-cases, if◌then◌else◌, arith,
}
use four_in_a_row.Server.Map.{find, erase, insert, name_key, fd_key, find-erase_ne}
use four_in_a_row.Server.User.{new_user, deref, disconnected, state_eq}
use four_in_a_row.Server.Heap.{deref-new}
use four_in_a_row.Server.UserList.{insert_user, Users, add, max_users, exists_fd, yield, dispose}
use four_in_a_row.Server.Links.{Linked, Kept, Kept-refl, Kept-trans}
use four_in_a_row.Server.Safety.{put_state-Keeps, get_by_fd-Keeps, yield_either, decrease_refs-Kept}
use four_in_a_row.Server.Handlers.{Decoded, message, nothing, thrown}
use four_in_a_row.Server.Main.{
  connect, ◌>>=◌, is_set, fd_clr, Poll, RoundEnd, goes_on, exits, null_pointer, users_of, clear,
  clear_gone, take_message, service_found, service, clear_stale,
}
use four_in_a_row.Server.Main.Run.{get_by_fd-found}

is_set-fd_clr :
    (i j : ℕ) (s : List ℕ) → is_set j (fd_clr i s) ≡ (if j == i then false else is_set j s)
unfolding is_set fd_clr
is_set-fd_clr i j [] = ground arith
is_set-fd_clr i j (k ∷ s) = ground (arith, is_set-fd_clr i j s)

length-erase : (k : ℕ) (m : List (ℕ × ℕ)) → length (erase k m) ≤ length m
unfolding erase
length-erase k [] = omega arith
length-erase k ((j, w) ∷ m) = ground (arith, length-erase k m)

-- A change of the list that only the descriptor `i` can see.
pub record Apart (i : ℕ) (s t : Users) : Type 0 where
  pub others : (j : ℕ) → j ≢ i → find j t.by_fd ≡ find j s.by_fd
  pub shorter : length t.by_fd ≤ length s.by_fd

Apart-trans : {i : ℕ} {s t r : Users} → Apart i s t → Apart i t r → Apart i s r
Apart-trans a b = record {
  others = λ j ne. b.others j ne ∙ a.others j ne;
  shorter = let x = a.shorter in let y = b.shorter in omega (arith, x, y);
}

Kept-Apart : (i : ℕ) {s t : Users} → Kept s t → Apart i s t
Kept-Apart i {s = s} k = record {
  others = λ j ne. ap (find j) k.same_fds;
  shorter = rw k.same_fds (omega arith);
}

yield-Apart : (s : Users) (u i : ℕ) → (deref s.heap u).fd ≡ i → Apart i s (yield s u)
unfolding dispose
yield-Apart s u i own =
    let k = decrease_refs-Kept s u in
    yield_either (Apart i s) s u (Kept-Apart i k) (
      Apart-trans (Kept-Apart i k) (record {
        others = λ j ne. find-erase_ne _ j s.by_fd (λ e. ne (e ∙ k.heaps.fds u ∙ own));
        shorter = length-erase _ s.by_fd;
      }))

module _ {Cert Key : Type 0} where
  -- What is done about the descriptor `i`: afterwards it is in the set only with a user, and
  -- nothing else comes into the set or loses its user.
  pub record Settled (i : ℕ) (p q : Poll Cert Key) : Type 0 where
    pub apart : Apart i (users_of p) (users_of q)
    pub fewer : (j : ℕ) → is_set j q.active_fd_set ≡ true → is_set j p.active_fd_set ≡ true
    pub here : is_set i q.active_fd_set ≡ true → exists_fd (users_of q) i ≡ true

  clear-Settled :
      (i : ℕ) (p q : Poll Cert Key)
      → Apart i (users_of p) (users_of q)
      → q.active_fd_set ≡ p.active_fd_set
      → Settled i p (clear i q)
  unfolding clear
  clear-Settled i p q a e = record {
    apart = a;
    fewer = λ j on. ground (arith, is_set-fd_clr i j q.active_fd_set, e);
    here = λ on. absurd (ground (arith, is_set-fd_clr i i q.active_fd_set));
  }

  clear_gone-Settled :
      (i : ℕ) (p q : Poll Cert Key)
      → Apart i (users_of p) (users_of q)
      → q.active_fd_set ≡ p.active_fd_set
      → Settled i p (clear_gone i q)
  unfolding clear_gone
  clear_gone-Settled i p q a e = elim (Bool-cases (exists_fd (users_of q) i)) [
    | inl there ↦
        rw there
          (record { apart = a; fewer = λ j on. ap (is_set j) (sym e) ∙ on; here = λ on. there })
    | inr gone ↦ rw gone (clear-Settled i p q a e)
  ]

  take_message-Kept :
      (i u : ℕ) (got : Decoded Cert Key) (p : Poll Cert Key)
      → Kept (users_of p) (users_of (take_message i u got p))
  unfolding take_message
  take_message-Kept i u (message m) p = Kept-refl _
  take_message-Kept i u nothing p = Kept-refl _
  take_message-Kept i u thrown p = put_state-Keeps u disconnected tt p.world

  take_message-active :
      (i u : ℕ) (got : Decoded Cert Key) (p : Poll Cert Key)
      → (take_message i u got p).active_fd_set ≡ p.active_fd_set
  unfolding take_message
  take_message-active i u (message m) p = refl
  take_message-active i u nothing p = refl
  take_message-active i u thrown p = refl

  -- The outcome goes on, to such a state.
  abbrev pub Ends : (Poll Cert Key → Type 0) → RoundEnd (Poll Cert Key) → Type 0
  Ends P (goes_on p) = P p
  Ends P exits = ⊥
  Ends P null_pointer = ⊥

  pub bind-Ends :
      {P : Poll Cert Key → Type 0} (Q : Poll Cert Key → Type 0) (o : RoundEnd (Poll Cert Key))
      (f : Poll Cert Key → RoundEnd (Poll Cert Key))
      → Ends P o
      → ((q : Poll Cert Key) → P q → Ends Q (f q))
      → Ends Q (o >>= f)
  bind-Ends Q (goes_on q) f p g = g q p
  bind-Ends Q exits f p g = p
  bind-Ends Q null_pointer f p g = p

  pub Ends-imp :
      {P : Poll Cert Key → Type 0} (Q : Poll Cert Key → Type 0) (o : RoundEnd (Poll Cert Key))
      → ((q : Poll Cert Key) → P q → Q q)
      → Ends P o
      → Ends Q o
  Ends-imp Q (goes_on q) f p = f q p
  Ends-imp Q exits f p = p
  Ends-imp Q null_pointer f p = p

  service_found-Settled :
      (i u : ℕ) (got : Decoded Cert Key) (p q : Poll Cert Key)
      → Kept (users_of p) (users_of q)
      → q.active_fd_set ≡ p.active_fd_set
      → (deref (users_of q).heap u).fd ≡ i
      → Ends (Settled i p) (service_found i got q (some u))
  unfolding service_found
  service_found-Settled i u got p q k e own =
      elim (Bool-cases (state_eq (deref (users_of q).heap u).state disconnected)) [
        | inl off ↦ rw off (
            clear-Settled i p _ (Apart-trans (Kept-Apart i k) (yield-Apart (users_of q) u i own)) e)
        | inr on ↦ rw on (
            let taken = take_message-Kept i u got q in
            clear_gone-Settled i p _
              (Apart-trans (Kept-Apart i (Kept-trans k taken))
                (yield-Apart _ u i (taken.heaps.fds u ∙ own)))
              (take_message-active i u got q ∙ e))
      ]

  pub service-Settled :
      (i : ℕ) (got : Decoded Cert Key) (p : Poll Cert Key)
      → Linked (users_of p)
      → exists_fd (users_of p) i ≡ true
      → Ends (Settled i p) (service i got p)
  unfolding service exists_fd
  service-Settled i got p l there = elim (Option-cases (find i (users_of p).by_fd)) [
    | inl e ↦ absurd (let c = (rw e at there) in cc)
    | inr (u, e) ↦
        let k = get_by_fd-Keeps i p.world in
        rw (get_by_fd-found (users_of p) i ∙ e)
          (service_found-Settled i u got p _ k refl (k.heaps.fds u ∙ (l.fds i u e).1))
  ]

  pub clear_stale-Settled :
      (listener i : ℕ) (p : Poll Cert Key) → i ≢ listener → Settled i p (clear_stale listener i p)
  unfolding clear_stale
  clear_stale-Settled listener i p ne =
      let other : (i == listener) ≡ false = ground arith in
      elim (Bool-cases (is_set i p.active_fd_set)) [
        | inl on ↦ rw (on, other) (clear_gone-Settled i p p (Kept-Apart i (Kept-refl _)) refl)
        | inr off ↦ rw off (record {
          apart = Kept-Apart i (Kept-refl _);
          fewer = λ j on. on;
          here = λ on. absurd (let c = (rw off at on) in cc);
        })
      ]

  pub clear_stale_listener :
      (listener : ℕ) (p : Poll Cert Key) → clear_stale listener listener p ≡ p
  unfolding clear_stale
  clear_stale_listener listener p =
      let same : (listener == listener) ≡ true = ground arith in
      elim (Bool-cases (is_set listener p.active_fd_set)) [
        | inl on ↦ rw (on, same) refl
        | inr off ↦ rw off refl
      ]

-- Insertion loses nothing, and puts the key there.
pub insert_keeps :
    (k j v : ℕ) (m : List (ℕ × ℕ))
    → is_some (find j m) ≡ true
    → is_some (find j (insert k v m)) ≡ true
unfolding find insert
insert_keeps k j v [] e = absurd (cc)
insert_keeps k j v ((i, w) ∷ m) e = ground (arith, insert_keeps k j v m)

pub insert_puts : (k v : ℕ) (m : List (ℕ × ℕ)) → is_some (find k (insert k v m)) ≡ true
unfolding find insert
insert_puts k v [] = ground arith
insert_puts k v ((i, w) ∷ m) = ground (arith, insert_puts k v m)

add_lists :
    (s : Users) (p : ℕ)
    → length s.by_fd < max_users
    → (add s p).0.by_fd ≡ insert (deref s.heap p).fd p s.by_fd
unfolding add insert_user
add_lists s p room =
    let fits : ltb (length s.by_fd) max_users ≡ true = ground (arith, room) in rw fits refl

pub connect_lists :
    (s : Users) (fd : ℕ)
    → length s.by_fd < max_users
    → (connect s fd).by_fd ≡ insert fd (length s.heap) s.by_fd
unfolding connect
connect_lists s fd room =
    add_lists _ (length s.heap) room
    ∙ ap (λ g. insert g (length s.heap) s.by_fd)
        (ap (λ u. u.fd) (deref-new s.heap (new_user fd)) ∙ unfold new_user in refl)
