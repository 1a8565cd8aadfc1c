-- ===== src/Wire/Reads.antt =====
-- Each field of a message is read back from the bytes that its writer stored: the functions of
-- src/utils/buffer_io.cpp, the username functions of include/network/messages.h, the address
-- functions of src/network/inet_utils.cpp and the DER functions of src/security/crypto_utils.cpp.
use four_in_a_row.Base.{
  ℕ, suc, ◌+◌, ◌-◌, ◌/◌, ◌%◌, ◌^◌, ◌≤◌, ◌<◌, min, ◌≡◌, ◌≢◌, refl, Bool, true, false, some, List, [],
  ◌∷◌, ◌++◌, ltb, leb, le→leb, if◌then◌else◌, length, take, drop, replicate, All, length-append,
  length-replicate, take-append, take_self, drop-append, append_assoc, arith,
}
use four_in_a_row.Wire.Result.{ok, failed}
use four_in_a_row.Wire.Buffer.{
  Cursor, Reader, read_bytes, read_buf, read_uint8, read_bool, read_uint16, read_uint32, bytes4,
}
use four_in_a_row.Wire.Fields.{
  SockAddr, c_str, strnlen, read_username, write_username, read_sock_addr,
}

abbrev pub cursor : ℕ → ℕ → List ℕ → Cursor
cursor len pos rest = record { len = len; pos = pos; rest = rest }

-- On memory that begins with `bs`, all of it within the length, the reader returns `v` and stops
-- behind `bs`. A length is a `uint16_t`.
abbrev pub Reads {ℓ} : {A : Type ℓ} → Reader A → List ℕ → A → Type ℓ
Reads r bs v =
    (len pos end : ℕ) (more : List ℕ)
    → pos + length bs ≡ end
    → end ≤ len
    → len < 2 ^ 16
    → r (cursor len pos (bs ++ more)) ≡ ok (v, cursor len end more)

pub read_bytes-Reads : (bs : List ℕ) (n : ℕ) → n ≡ length bs → Reads (read_bytes n) bs bs
unfolding read_bytes
read_bytes-Reads bs n e len pos end more p q w =
    let fits : leb n (length (bs ++ more)) ≡ true =
      le→leb n _ (omega (arith, length-append bs more)) in
    let stop : pos + n ≡ end = omega arith in rw (fits, stop, e, take-append, drop-append)

pub read_uint32-Reads : (v : ℕ) → v < 2 ^ 32 → Reads read_uint32 (bytes4 v) v
unfolding read_uint32
read_uint32-Reads v h len pos end more p q w = ground arith

pub read_uint16-Reads :
    (v : ℕ) → v < 2 ^ 16 → Reads read_uint16 ((v / 256 % 256) ∷ (v % 256) ∷ []) v
unfolding read_uint16
read_uint16-Reads v h len pos end more p q w = ground arith

pub read_uint8-Reads : (v : ℕ) → v < 256 → Reads read_uint8 ((v % 256) ∷ []) v
unfolding read_uint8
read_uint8-Reads v h len pos end more p q w = ground arith

pub read_bool-Reads : (v : Bool) → Reads read_bool ((if v then 1 else 0) ∷ []) v
unfolding read_bool
read_bool-Reads v len pos end more p q w = ground arith

pub read_buf-Reads : (bs : List ℕ) (n : ℕ) → n ≡ length bs → Reads (read_buf n) bs bs
unfolding read_buf
read_buf-Reads bs n e len pos end more p q w =
    let inside : leb pos len ≡ true = le→leb pos len (omega arith) in
    let enough : ltb (len - pos) n ≡ false = ground arith in
    rw (inside, enough) (read_bytes-Reads bs n e len pos end more p q w)

pub read_sock_addr-Reads :
    (a : SockAddr)
    → a.s_addr < 2 ^ 32
    → a.sin_port < 2 ^ 16
    → Reads read_sock_addr (bytes4 a.s_addr ++ (a.sin_port / 256 % 256) ∷ (a.sin_port % 256) ∷ []) a
unfolding read_sock_addr
read_sock_addr-Reads a h k len pos end more p q w = ground arith

-- A name that fits its field: at most 16 bytes and none of them zero.
pub record IsName (u : List ℕ) : Type 0 where
  pub fits : length u ≤ 16
  pub no_zero : All (λ b. b ≢ 0) u

c_str-name : (u : List ℕ) → All (λ b. b ≢ 0) u → c_str u ≡ u
unfolding c_str
c_str-name [] h = refl
c_str-name (b ∷ bs) h = ground (arith, c_str-name bs h.1)

strnlen-name :
    (u more : List ℕ) (n : ℕ)
    → All (λ b. b ≢ 0) u
    → length u ≤ n
    → strnlen (u ++ 0 ∷ more) n ≡ some (length u)
unfolding strnlen
strnlen-name [] more n h k = ground arith
strnlen-name (b ∷ bs) more n h k = ground (arith, strnlen-name bs more (n - 1) h.1)

-- The bytes of the field of a name.
abbrev pub name_field : List ℕ → List ℕ
name_field u = u ++ replicate (17 - length u) 0

pub write_username-stored :
    (u : List ℕ) (n : ℕ)
    → IsName u
    → write_username u n ≡ (if ltb n 17 then failed else ok (name_field u))
unfolding write_username
write_username-stored u n v =
    let short : min (length u) 16 ≡ length u = omega (arith, v.fits) in
    rw (c_str-name u v.no_zero, short, take_self (length u) u (omega arith))

pub write_username-name :
    (u bs : List ℕ) (n : ℕ) → IsName u → write_username u n ≡ ok bs → bs ≡ name_field u
write_username-name u bs n v e = ground (arith, write_username-stored u n v)

pub length-name_field : (u : List ℕ) → length u ≤ 16 → length (name_field u) ≡ 17
length-name_field u h = omega (
  arith,
  length-append u (replicate (17 - length u) 0),
  length-replicate (17 - length u) (let z : ℕ = 0 in z),
)

-- The first zero stands directly behind the name.
name_field-zero :
    (u more : List ℕ)
    → length u ≤ 16
    → name_field u ++ more ≡ u ++ 0 ∷ (replicate (16 - length u) 0 ++ more)
name_field-zero u more h =
    let one_more : 17 - length u ≡ suc (16 - length u) = omega arith in rw (append_assoc, one_more)

pub read_username-Reads : (u : List ℕ) → IsName u → Reads read_username (name_field u) u
unfolding read_username
read_username-Reads u v len pos end more p q w =
    let inside : leb pos len ≡ true = le→leb pos len (omega arith) in
    let size = length-name_field u v.fits in
    let n : ℕ = (2 ^ 64 + (len - pos) - 1) % 2 ^ 64 in
    let found : strnlen (name_field u ++ more) n ≡ some (length u) =
      rw (name_field-zero u more v.fits) (strnlen-name u _ n v.no_zero (omega (arith, v.fits))) in
    let short : min (length u) 16 ≡ length u = omega (arith, v.fits) in
    let stop : pos + 17 ≡ end = omega arith in
    let skipped : drop 17 (name_field u ++ more) ≡ more =
      rw size at (drop-append (name_field u) more) in
    let read : take (length u) (name_field u ++ more) ≡ u = rw append_assoc (take-append u _) in
    ground (arith, found, short, stop, skipped, read)
