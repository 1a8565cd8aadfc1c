-- ===== src/Server/Main.antt =====
-- `main` of src/server/server.cpp from the loop on: descriptors, users, the queue and its threads.
-- A descriptor set is a list; what `select`, `accept` and `readPartMsg` answer is given.
pub mod Run
pub mod Sweep
pub mod Pass
pub mod Visit
mod Tests
use four_in_a_row.Base.{
  ℕ, zero, suc, ◌+◌, ◌≡◌, Bool, true, false, not, ◌&&◌, Option, none, some, List, [], ◌∷◌, ◌++◌,
  ◌==◌, if◌then◌else◌, length,
}
use four_in_a_row.Wire.Message.{Message}
use four_in_a_row.Queue.{Pool, push_signal}
use four_in_a_row.Queue as queue
use four_in_a_row.Server.User.{new_user, deref, state_eq, disconnected}
use four_in_a_row.Server.UserList.{Users, add, get_by_fd, exists_fd, yield}
use four_in_a_row.Server.World.{World, Env, put_state}
use four_in_a_row.Server.Handlers.{Decoded, message, nothing, thrown, worker_round}

abbrev pub fd_setsize : ℕ
fd_setsize = 1024

abbrev pub max_queue_length : ℕ
max_queue_length = 1000

-- `FD_ISSET` and `FD_CLR`.
unfoldable pub is_set : ℕ → List ℕ → Bool
is_set i [] = false
is_set i (j ∷ s) = if j == i then true else is_set i s

unfoldable pub fd_clr : ℕ → List ℕ → List ℕ
fd_clr i [] = []
fd_clr i (j ∷ s) = if j == i then fd_clr i s else j ∷ fd_clr i s

-- `new User(sw)`, for the socket `fd`, and `add`, whose result is not looked at.
unfoldable pub connect : Users → ℕ → Users
unfolding add new_user
connect s fd = (add (record s { heap = s.heap ++ new_user fd ∷ [] }) (length s.heap)).0

-- The variables of the program that the loop works on.
pub record Poll (Cert Key : Type 0) : Type 0 where
  pub world : World Cert Key
  pub message_queue : Pool (ℕ × Message Cert Key)
  pub active_fd_set : List ℕ

-- `select` with the descriptors that it reports, the socket that `accept` returns in this round,
-- and what `readPartMsg` does on each of the others; or its two kinds of error.
pub data Select (Cert Key : Type 0) : Type 0 where
  ready : List ℕ → ℕ → (ℕ → Decoded Cert Key) → Select Cert Key
  bad_descriptor : Select Cert Key
  other_error : Select Cert Key

-- A round of the loop ends with the next one, with `exit`, or at a NULL pointer.
pub data RoundEnd (A : Type 0) : Type 0 where
  goes_on : A → RoundEnd A
  exits : RoundEnd A
  null_pointer : RoundEnd A

infixl 5 ◌>>=◌
abbrev pub ◌>>=◌ : {A B : Type 0} → RoundEnd A → (A → RoundEnd B) → RoundEnd B
goes_on a >>= f = f a
exits >>= f = exits
null_pointer >>= f = null_pointer

module _ {Cert Key : Type 0} where
  abbrev pub users_of : Poll Cert Key → Users
  users_of p = p.world.users

  abbrev pub with_users : Poll Cert Key → Users → Poll Cert Key
  with_users p s = record p { world = record (p.world) { users = s } }

  -- `FD_SET` of the new socket, and its user.
  unfoldable pub accept_client : ℕ → Poll Cert Key → Poll Cert Key
  unfolding connect
  accept_client fd p = record (with_users p (connect (users_of p) fd)) {
    active_fd_set = fd ∷ p.active_fd_set;
  }

  unfoldable pub clear : ℕ → Poll Cert Key → Poll Cert Key
  unfolding fd_clr
  clear i p = record p { active_fd_set = fd_clr i p.active_fd_set }

  -- A descriptor without a user is cleared.
  unfoldable pub clear_gone : ℕ → Poll Cert Key → Poll Cert Key
  unfolding clear
  clear_gone i p = if exists_fd (users_of p) i then p else clear i p

  -- The `try` block; the result of `pushSignal` is not looked at.
  unfoldable pub take_message : ℕ → ℕ → Decoded Cert Key → Poll Cert Key → Poll Cert Key
  take_message i u (message m) p = record p {
    message_queue = (push_signal max_queue_length p.message_queue (i, m)).0;
  }
  take_message i u nothing p = p
  take_message i u thrown p = record p { world = (put_state u disconnected p.world).1 }

  -- A message from the user found; `getState` of no user is a call on NULL.
  unfoldable pub service_found :
      ℕ → Decoded Cert Key → Poll Cert Key → Option ℕ → RoundEnd (Poll Cert Key)
  unfolding clear clear_gone take_message
  service_found i got p none = null_pointer
  service_found i got p (some u) =
      if state_eq (deref (users_of p).heap u).state disconnected
      then goes_on (clear i (with_users p (yield (users_of p) u)))
      else let p' = take_message i u got p in
        goes_on (clear_gone i (with_users p' (yield (users_of p') u)))

  unfoldable pub service : ℕ → Decoded Cert Key → Poll Cert Key → RoundEnd (Poll Cert Key)
  unfolding service_found
  service i got p =
      let found = get_by_fd (users_of p) i in service_found i got (with_users p found.0) found.1

  -- The rounds of `worker` on the pairs that were taken out of the queue.
  unfoldable pub work :
      Env Cert
      → (ℕ → Message Cert Key → Decoded Cert Key)
      → List (ℕ × Message Cert Key)
      → World Cert Key
      → World Cert Key
  work env handle_msg [] w = w
  work env handle_msg ((fd, m) ∷ rest) w =
      work env handle_msg rest (worker_round env fd (handle_msg fd m) w).1

  module _ (listener : ℕ) where
    -- A descriptor on which nothing has arrived, and each one after `EBADF`.
    unfoldable pub clear_stale : ℕ → Poll Cert Key → Poll Cert Key
    unfolding clear_gone
    clear_stale i p = if is_set i p.active_fd_set && not (i == listener) then clear_gone i p else p

    -- The body of the loop over the descriptors.
    unfoldable pub visit :
        List ℕ → ℕ → (ℕ → Decoded Cert Key) → ℕ → Poll Cert Key → RoundEnd (Poll Cert Key)
    unfolding accept_client service clear_stale
    visit readable new_fd reads i p =
        if is_set i readable
        then if i == listener then goes_on (accept_client new_fd p) else service i (reads i) p
        else goes_on (clear_stale i p)

    -- The loop: `n` descriptors from `i` on.
    unfoldable pub visits :
        List ℕ → ℕ → (ℕ → Decoded Cert Key) → ℕ → ℕ → Poll Cert Key → RoundEnd (Poll Cert Key)
    unfolding visit
    visits readable new_fd reads zero i p = goes_on p
    visits readable new_fd reads (suc n) i p =
        visit readable new_fd reads i p >>= visits readable new_fd reads n (i + 1)

    unfoldable pub clear_all : ℕ → ℕ → Poll Cert Key → Poll Cert Key
    unfolding clear_stale
    clear_all zero i p = p
    clear_all (suc n) i p = clear_all n (i + 1) (clear_stale i p)

    -- One round of the loop, when no other thread does anything in the meantime.
    unfoldable pub poll_round : Select Cert Key → Poll Cert Key → RoundEnd (Poll Cert Key)
    unfolding visits clear_all
    poll_round (ready readable new_fd reads) p = visits readable new_fd reads fd_setsize 0 p
    poll_round bad_descriptor p = goes_on (clear_all fd_setsize 0 p)
    poll_round other_error p = exits

    -- What the program does in one step: the main thread looks at a descriptor in one of its two
    -- loops, or a thread is at the queue, which serves what it takes out before it comes back. So
    -- between two descriptors of a round the threads can do anything.
    pub data Step (env : Env Cert) (p : Poll Cert Key) : Poll Cert Key → Type 0 where
      looks :
          (readable : List ℕ) (new_fd : ℕ) (reads : ℕ → Decoded Cert Key) (i : ℕ)
          {q : Poll Cert Key}
          → visit readable new_fd reads i p ≡ goes_on q
          → Step env p q
      clears : (i : ℕ) → Step env p (clear_stale i p)
      works :
          (handle_msg : ℕ → Message Cert Key → Decoded Cert Key)
          {outs : List (ℕ × Message Cert Key)} {t : Pool (ℕ × Message Cert Key)}
          → queue.Step max_queue_length p.message_queue [] outs t
          → Step env p (record p { world = work env handle_msg outs p.world; message_queue = t })

    pub data Steps (env : Env Cert) (p : Poll Cert Key) : Poll Cert Key → Type 0 where
      done : Steps env p p
      later : {q r : Poll Cert Key} → Steps env p q → Step env q r → Steps env p r
