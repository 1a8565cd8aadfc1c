-- ===== src/Wire/Stores.antt =====
-- What the writers of src/utils/buffer_io.cpp and of the other fields store when they succeed.
use four_in_a_row.Base.{
  ℕ, ◌-◌, ◌/◌, ◌%◌, ◌≤◌, ◌<◌, ◌≡◌, Bool, Option, none, some, List, [], ◌∷◌, ◌++◌, if◌then◌else◌,
  length, length-append, arith,
}
use four_in_a_row.Wire.Result.{Result, ok, ◌>>=◌, >>=-eq-ok}
use four_in_a_row.Wire.Buffer.{
  Writer, write_buf, write_uint8, write_bool, write_uint16, write_uint32, bytes4,
}
use four_in_a_row.Wire.Fields.{SockAddr, write_username, write_sock_addr, der_to_buf}
use four_in_a_row.Wire.Reads.{IsName, name_field, write_username-name, length-name_field}
use four_in_a_row.Wire.Message.{MessageType, secure, type_code}
use four_in_a_row.Wire.Message.Write.{emit, write_type, max_msg_size}

-- If the writer succeeds, it stores `bs`, and `bs` fits the room.
abbrev pub Stores : Writer → List ℕ → Type 0
Stores w bs = (n : ℕ) (z : List ℕ) → w n ≡ ok z → (z ≡ bs) × (length bs ≤ n)

-- If the chain succeeds, `bs` has been written, and it fits the buffer.
abbrev pub Yields : Result (List ℕ) → List ℕ → Type 0
Yields m bs = (z : List ℕ) → m ≡ ok z → (z ≡ bs) × (length bs ≤ max_msg_size)

pub write_uint8-Stores : (v : ℕ) → Stores (write_uint8 v) ((v % 256) ∷ [])
unfolding write_uint8
write_uint8-Stores v n z e = ground arith

pub write_bool-Stores : (v : Bool) → Stores (write_bool v) ((if v then 1 else 0) ∷ [])
unfolding write_bool
write_bool-Stores v n z e = ground arith

pub write_uint16-Stores : (v : ℕ) → Stores (write_uint16 v) ((v / 256 % 256) ∷ (v % 256) ∷ [])
unfolding write_uint16
write_uint16-Stores v n z e = ground arith

pub write_uint32-Stores : (v : ℕ) → Stores (write_uint32 v) (bytes4 v)
unfolding write_uint32
write_uint32-Stores v n z e = ground arith

pub write_buf-Stores : (bs : List ℕ) → Stores (write_buf bs) bs
unfolding write_buf
write_buf-Stores bs n z e = ground arith

write_username-room : (u z : List ℕ) (n : ℕ) → write_username u n ≡ ok z → 17 ≤ n
unfolding write_username
write_username-room u z n e = ground arith

pub write_username-Stores : (u : List ℕ) → IsName u → Stores (write_username u) (name_field u)
write_username-Stores u v n z e = (
  write_username-name u z n v e,
  omega (arith, length-name_field u v.fits, write_username-room u z n e),
)

pub write_sock_addr-Stores :
    (a : SockAddr)
    → Stores
        (write_sock_addr a)
        (bytes4 a.s_addr ++ (a.sin_port / 256 % 256) ∷ (a.sin_port % 256) ∷ [])
unfolding write_sock_addr
write_sock_addr-Stores a n z e = ground arith

abbrev pub der_bytes : Option (List ℕ) → List ℕ
der_bytes none = []
der_bytes (some der) = der

pub der_to_buf-Stores : (o : Option (List ℕ)) → Stores (der_to_buf o) (der_bytes o)
unfolding der_to_buf
der_to_buf-Stores none n z e = cc
der_to_buf-Stores (some der) n z e = ground arith

pub emit-Yields :
    (out bs : List ℕ) (w : Writer)
    → Stores w bs
    → length out ≤ max_msg_size
    → Yields (emit out w) (out ++ bs)
unfolding emit
emit-Yields out bs w s h z e =
    let (b, p, q) = >>=-eq-ok (w (max_msg_size - length out)) _ e in
    let (same, fits) = s _ b p in (ground arith, omega (arith, length-append out bs))

type_code-lt : (t : MessageType) → type_code t < 17
type_code-lt secure = omega arith
type_code-lt _ = omega arith

pub type-Yields : (t : MessageType) → Yields (write_type t) (type_code t ∷ [])
unfolding write_type write_uint8 emit
type-Yields t z e =
    let small : type_code t % 256 ≡ type_code t = omega (arith, type_code-lt t) in
    let stored : write_type t ≡ ok (type_code t ∷ []) = rw small in ground (arith, stored)

-- A step of a `write` method, and what follows it.
pub bind-Yields :
    (m : Result (List ℕ)) (k : List ℕ → Result (List ℕ)) (out bs : List ℕ)
    → Yields m out
    → (length out ≤ max_msg_size → Yields (k out) bs)
    → Yields (m >>= k) bs
bind-Yields m k out bs y f z e =
    let (a, p, q) = >>=-eq-ok m k e in let (same, fits) = y a p in f fits z (rw same at q)
