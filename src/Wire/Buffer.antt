-- ===== src/Wire/Buffer.antt =====
-- src/utils/buffer_io.cpp: numbers and blocks in a buffer.
-- A writer is given the room that is left and returns the bytes that it stores. A reader moves a
-- cursor: `len` is the length that the caller names, `pos` the index, and `rest` the memory from
-- the index on, which may be longer or shorter than `len` says.
use four_in_a_row.Base.{
  ℕ, ◌+◌, ◌-◌, ◌*◌, ◌/◌, ◌%◌, ◌^◌, Bool, not, List, [], ◌∷◌, ltb, leb, ◌==◌, if◌then◌else◌, length,
  take, drop,
}
use four_in_a_row.Wire.Result.{Result, ok, failed, fault, ◌>>=◌, ◌>>◌, fail_if}

pub record Cursor : Type 0 where
  pub len : ℕ
  pub pos : ℕ
  pub rest : List ℕ

abbrev pub Reader {ℓ} : Type ℓ → Type ℓ
Reader A = Cursor → Result (A × Cursor)

abbrev pub Writer : Type 0
Writer = ℕ → Result (List ℕ)

-- `len - i` as the `size_t` that the callee receives: it wraps when the index has passed the length.
abbrev pub room : Cursor → ℕ
room c = if leb c.pos c.len then c.len - c.pos else 2 ^ 64 + c.len - c.pos

-- `memcpy` out of the buffer.
unfoldable pub read_bytes : ℕ → Reader (List ℕ)
read_bytes n c =
    if leb n (length c.rest)
    then ok (take n c.rest, record c { pos = c.pos + n; rest = drop n c.rest })
    else fault

unfoldable pub read_buf : ℕ → Reader (List ℕ)
unfolding read_bytes
read_buf n c = fail_if (ltb (room c) n) >> read_bytes n c

unfoldable pub write_buf : List ℕ → Writer
write_buf val n = if ltb n (length val) then failed else ok val

abbrev pub be1 : List ℕ → ℕ
be1 (a ∷ bs) = a
be1 bs = 0

abbrev pub be2 : List ℕ → ℕ
be2 (a ∷ b ∷ bs) = a * 256 + b
be2 bs = 0

abbrev pub be4 : List ℕ → ℕ
be4 (a ∷ b ∷ c ∷ d ∷ bs) = ((a * 256 + b) * 256 + c) * 256 + d
be4 bs = 0

unfoldable pub read_uint8 : Reader ℕ
unfolding read_bytes
read_uint8 c = do fail_if (ltb (room c) 1); (bs, c') ← read_bytes 1 c; ok (be1 bs, c')

unfoldable pub write_uint8 : ℕ → Writer
write_uint8 v n = if ltb n 1 then failed else ok (v % 256 ∷ [])

-- `(bool) buf[0]`
unfoldable pub read_bool : Reader Bool
unfolding read_bytes
read_bool c = do fail_if (ltb (room c) 1); (bs, c') ← read_bytes 1 c; ok (not (be1 bs == 0), c')

unfoldable pub write_bool : Bool → Writer
write_bool v n = if ltb n 1 then failed else ok ((if v then 1 else 0) ∷ [])

-- `ntohs` of the two bytes
unfoldable pub read_uint16 : Reader ℕ
unfolding read_bytes
read_uint16 c = do fail_if (ltb (room c) 2); (bs, c') ← read_bytes 2 c; ok (be2 bs, c')

-- A `uint16_t` in network order.
unfoldable pub write_uint16 : ℕ → Writer
write_uint16 v n = if ltb n 2 then failed else ok ((v / 256 % 256) ∷ (v % 256) ∷ [])

unfoldable pub read_uint32 : Reader ℕ
unfolding read_bytes
read_uint32 c = do fail_if (ltb (room c) 4); (bs, c') ← read_bytes 4 c; ok (be4 bs, c')

-- The four bytes of a `uint32_t` in network order.
abbrev pub bytes4 : ℕ → List ℕ
bytes4 v = (v / 2 ^ 24 % 256) ∷ (v / 2 ^ 16 % 256) ∷ (v / 256 % 256) ∷ (v % 256) ∷ []

unfoldable pub write_uint32 : ℕ → Writer
write_uint32 v n = if ltb n 4 then failed else ok (bytes4 v)
