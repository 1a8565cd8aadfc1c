-- ===== src/Server/User.antt =====
-- src/server/user.h: the class User. A `User*` is a number, the user's place on the heap.
use four_in_a_row.Base.{ℕ, ◌+◌, ◌-◌, ◌%◌, ◌^◌, Bool, true, false, List, [], get_or, set}
use four_in_a_row.Server.Map.{Name}

pub data UserState : Type 0 where
  just_connected securely_connected available challenged playing disconnected : UserState

abbrev pub state_eq : UserState → UserState → Bool
state_eq just_connected just_connected = true
state_eq securely_connected securely_connected = true
state_eq available available = true
state_eq challenged challenged = true
state_eq playing playing = true
state_eq disconnected disconnected = true
state_eq _ _ = false

-- `fd` is the descriptor of the user's socket; `locked` says that a thread holds the mutex, and
-- `freed` that the object has been deleted.
pub record User : Type 0 where
  pub fd : ℕ
  pub state : UserState
  pub username : Name
  pub opponent_username : Name
  pub references : ℕ
  pub locked : Bool
  pub freed : Bool

-- The constructor.
unfoldable pub new_user : ℕ → User
new_user fd = record {
  fd = fd;
  state = just_connected;
  username = [];
  opponent_username = [];
  references = 0;
  locked = false;
  freed = false;
}

abbrev pub Heap : Type 0
Heap = List User

-- What a dangling pointer shows; the model does not look further.
abbrev pub no_user : User
no_user = record {
  fd = 0;
  state = disconnected;
  username = [];
  opponent_username = [];
  references = 0;
  locked = false;
  freed = true;
}

unfoldable pub deref : Heap → ℕ → User
deref h p = get_or h p no_user

-- `references++` and `references--` on an `unsigned int`.
unfoldable pub increase_refs : Heap → ℕ → Heap
unfolding deref
increase_refs h p =
    let u = deref h p in set h p (record u { references = (u.references + 1) % 2 ^ 32 })

unfoldable pub decrease_refs : Heap → ℕ → Heap
unfolding deref
decrease_refs h p =
    let u = deref h p in set h p (record u { references = (u.references + 2 ^ 32 - 1) % 2 ^ 32 })

unfoldable pub set_state : Heap → ℕ → UserState → Heap
unfolding deref
set_state h p s = set h p (record (deref h p) { state = s })

unfoldable pub set_username : Heap → ℕ → Name → Heap
unfolding deref
set_username h p n = set h p (record (deref h p) { username = n })

unfoldable pub set_opponent : Heap → ℕ → Name → Heap
unfolding deref
set_opponent h p n = set h p (record (deref h p) { opponent_username = n })

unfoldable pub set_locked : Heap → ℕ → Bool → Heap
unfolding deref
set_locked h p b = set h p (record (deref h p) { locked = b })
