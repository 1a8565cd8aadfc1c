-- ===== src/Wire/Fields.antt =====
-- Usernames (include/network/messages.h), addresses (src/network/inet_utils.cpp), and keys and
-- certificates (src/security/crypto_utils.cpp).
use four_in_a_row.Base.{
  ℕ, suc, ◌+◌, ◌-◌, ◌/◌, ◌%◌, ◌^◌, min, ◌≡◌, ◌||◌, Option, none, some, List, [], ◌∷◌, ◌++◌, ltb,
  ◌==◌, if◌then◌else◌, length, take, drop, replicate,
}
use four_in_a_row.Wire.Result.{ok, failed, raised, fault, ◌>>=◌, ◌>>◌, fail_if}
use four_in_a_row.Wire.Buffer.{Reader, Writer, room, read_bytes, be2, be4, bytes4}

abbrev pub max_username_length : ℕ
max_username_length = 16

-- `s.c_str()` up to its end: a C string stops at the first zero.
unfoldable pub c_str : List ℕ → List ℕ
c_str [] = []
c_str (b ∷ bs) = if b == 0 then [] else b ∷ c_str bs

-- The C function `strnlen`; `none` when it runs out of the memory.
unfoldable pub strnlen : List ℕ → ℕ → Option ℕ
strnlen [] n = if n == 0 then some 0 else none
strnlen (b ∷ bs) n =
    if n == 0 || b == 0
    then some 0
    else elim (strnlen bs (n - 1)) [ none ↦ none | some k ↦ some (suc k) ]

unfoldable pub username_length : List ℕ → ℕ
username_length s = min (length (c_str s)) max_username_length

-- `buf_len - 1` is a `size_t`. The cursor moves on by the whole field whatever `buf_len` says.
unfoldable pub read_username : Reader (List ℕ)
read_username c = elim (strnlen c.rest ((2 ^ 64 + room c - 1) % 2 ^ 64)) [
  | none ↦ fault
  | some k ↦ ok (
    take (min k max_username_length) c.rest,
    record c {
      pos = c.pos + (max_username_length + 1);
      rest = drop (max_username_length + 1) c.rest;
    },
  )
]

unfoldable pub write_username : List ℕ → Writer
unfolding username_length
write_username s n =
    if ltb n (max_username_length + 1)
    then failed
    else ok (
        take (username_length s) (c_str s)
        ++ replicate (max_username_length + 1 - username_length s) 0)

-- `sockaddr_in`: the address and the port, whose bytes stand in memory in network order.
pub record SockAddr : Type 0 where
  pub s_addr : ℕ
  pub sin_port : ℕ

abbrev pub serialized_sockaddr_in_len : ℕ
serialized_sockaddr_in_len = 6

unfoldable pub write_sock_addr : SockAddr → Writer
write_sock_addr src n =
    if ltb n serialized_sockaddr_in_len
    then failed
    else ok (bytes4 src.s_addr ++ (src.sin_port / 256 % 256) ∷ (src.sin_port % 256) ∷ [])

unfoldable pub read_sock_addr : Reader SockAddr
unfolding read_bytes
read_sock_addr c = do
  fail_if (ltb (room c) serialized_sockaddr_in_len)
  (a, c') ← read_bytes 4 c
  (p, c'') ← read_bytes 2 c'
  ok (record { s_addr = be4 a; sin_port = be2 p }, c'')

-- The calls of OpenSSL that write a certificate or a public key as DER and read it back.
pub record Ssl (Cert Key : Type 0) : Type 0 where
  pub i2d_x509 : Cert → Option (List ℕ)
  pub d2i_x509 : List ℕ → Option Cert
  pub i2d_pubkey : Key → Option (List ℕ)
  pub d2i_pubkey : List ℕ → Option Key

-- DER says where it ends: a value is read back whatever follows it.
pub record SslLaws {Cert Key : Type 0} (ssl : Ssl Cert Key) : Type 0 where
  pub x509_back :
      (c : Cert) (bs more : List ℕ) → ssl.i2d_x509 c ≡ some bs → ssl.d2i_x509 (bs ++ more) ≡ some c
  pub pubkey_back :
      (k : Key) (bs more : List ℕ)
      → ssl.i2d_pubkey k ≡ some bs
      → ssl.d2i_pubkey (bs ++ more) ≡ some k

-- `cert2buf` and `pkey2buf`: an error of OpenSSL is thrown, a short buffer is an error code.
unfoldable pub der_to_buf : Option (List ℕ) → Writer
der_to_buf none n = raised
der_to_buf (some der) n = if ltb n (length der) then failed else ok der

-- `buf2cert` and `buf2pkey`: OpenSSL gets `len - i` bytes, and refuses a negative length. They
-- return 1, which the callers add to their index.
unfoldable pub buf_to_der {ℓ} : {A : Type ℓ} → (List ℕ → Option A) → Reader A
buf_to_der d2i c =
    if ltb c.len c.pos
    then raised
    else if ltb (length c.rest) (c.len - c.pos)
    then fault
    else elim (d2i (take (c.len - c.pos) c.rest)) [
      | none ↦ raised
      | some a ↦ ok (a, record c { pos = c.pos + 1; rest = drop 1 c.rest })
    ]
