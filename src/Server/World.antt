-- ===== src/Server/World.antt =====
-- The state that the handlers of src/server/server.cpp work on, the calls that they make of a
-- user's socket, and `doubleLock` and `doubleUnlock`.
-- A handler runs as one step: what other threads do while `doubleLock` waits is not modelled.
use four_in_a_row.Base.{ℕ, Bool, true, false, List, [], ◌∷◌, ◌++◌, if◌then◌else◌, length}
use four_in_a_row.Wire.Message.{Message}
use four_in_a_row.Wire.Fields.{SockAddr}
use four_in_a_row.Server.Map.{Name, name_lt}
use four_in_a_row.Server.User.{
  User, UserState, deref, set_state, set_username, set_opponent, set_locked,
}
use four_in_a_row.Server.UserList.{Users, yield}

-- A call of the socket of a user: `sendMsg`, `sendPlain`, `setOtherCert`, `handleClientHello` and
-- `handleClientVerify`.
pub data Call (Cert Key : Type 0) : Type 0 where
  send_msg : ℕ → Message Cert Key → Call Cert Key
  send_plain : ℕ → Message Cert Key → Call Cert Key
  set_other_cert : ℕ → Cert → Call Cert Key
  client_hello : ℕ → Message Cert Key → Call Cert Key
  client_verify : ℕ → Message Cert Key → Call Cert Key

pub data LockEvent : Type 0 where
  locks : ℕ → LockEvent
  unlocks : ℕ → LockEvent

-- `calls` and `trace` are in the order in which they happened.
pub record World (Cert Key : Type 0) : Type 0 where
  pub users : Users
  pub calls : List (Call Cert Key)
  pub trace : List LockEvent

-- What the handlers take from outside: whether the n-th call of a socket returns 0, the name in
-- the certificate of the server, the addresses of the users, what a local `bool` holds before it
-- is set, and the map of the certificates.
pub record Env (Cert : Type 0) : Type 0 where
  pub succeeds : ℕ → Bool
  pub server_name : Name
  pub server_cert : Cert
  pub address : ℕ → SockAddr
  pub uninitialised : Bool
  pub cert_map : List (Name × Cert)

-- A handler changes the world and returns a value.
abbrev pub M : Type 0 → Type 0 → Type 0 → Type 0
M Cert Key A = World Cert Key → A × World Cert Key

module _ {Cert Key : Type 0} where
  infixl 5 ◌>>=◌ ◌>>◌
  abbrev pub ◌>>=◌ : {A B : Type 0} → M Cert Key A → (A → M Cert Key B) → M Cert Key B
  ◌>>=◌ m f w = let r = m w in f r.0 r.1

  abbrev pub ◌>>◌ : {B : Type 0} → M Cert Key (Unit {0}) → M Cert Key B → M Cert Key B
  m >> k = m >>= λ _. k

  abbrev pub return : {A : Type 0} → A → M Cert Key A
  return a w = (a, w)

  abbrev pub user : ℕ → M Cert Key User
  user p w = (deref w.users.heap p, w)

  abbrev pub on_users : {A : Type 0} → (Users → Users × A) → M Cert Key A
  on_users f w = let r = f w.users in (r.1, record w { users = r.0 })

  unfoldable pub put_state : ℕ → UserState → M Cert Key (Unit {0})
  put_state p s w =
      (tt, record w { users = record (w.users) { heap = set_state w.users.heap p s } })

  unfoldable pub put_username : ℕ → Name → M Cert Key (Unit {0})
  put_username p n w =
      (tt, record w { users = record (w.users) { heap = set_username w.users.heap p n } })

  unfoldable pub put_opponent : ℕ → Name → M Cert Key (Unit {0})
  put_opponent p n w =
      (tt, record w { users = record (w.users) { heap = set_opponent w.users.heap p n } })

  unfoldable pub lock : ℕ → M Cert Key (Unit {0})
  lock p w = (
    tt,
    record w {
      users = record (w.users) { heap = set_locked w.users.heap p true };
      trace = w.trace ++ locks p ∷ [];
    },
  )

  unfoldable pub unlock : ℕ → M Cert Key (Unit {0})
  unlock p w = (
    tt,
    record w {
      users = record (w.users) { heap = set_locked w.users.heap p false };
      trace = w.trace ++ unlocks p ∷ [];
    },
  )

  unfoldable pub yield_user : ℕ → M Cert Key (Unit {0})
  yield_user p w = (tt, record w { users = yield w.users p })

  unfoldable pub double_lock : ℕ → ℕ → M Cert Key (Unit {0})
  double_lock u_with_lock u_without_lock = do
    a ← user u_without_lock
    b ← user u_with_lock
    if name_lt a.username b.username
        then (do unlock u_with_lock; lock u_without_lock; lock u_with_lock)
        else lock u_without_lock

  unfoldable pub double_unlock : ℕ → ℕ → M Cert Key (Unit {0})
  double_unlock u_keep_lock u_unlock = do
    a ← user u_unlock
    b ← user u_keep_lock
    if name_lt a.username b.username
        then (do unlock u_keep_lock; unlock u_unlock; lock u_keep_lock)
        else unlock u_unlock

  -- `unlock` of the other user and `yield`, with which the handlers of a challenge return.
  unfoldable pub leave : {A : Type 0} → ℕ → ℕ → A → M Cert Key A
  leave u other res = do double_unlock u other; yield_user other; return res

module _ {Cert Key : Type 0} (env : Env Cert) where
  -- A call of a socket; the answer is whether it returned 0.
  unfoldable pub call : Call Cert Key → M Cert Key Bool
  call c w = (env.succeeds (length w.calls), record w { calls = w.calls ++ c ∷ [] })
