-- ===== src/Wire/Tests.antt =====
-- The theorems on src/network/messages.cpp at one message, with an encoding of certificates and
-- keys as one byte.
use four_in_a_row.Base.{
  ℕ, ◌≤◌, ◌≡◌, refl, ◌↔◌, Option, none, some, List, [], ◌∷◌, ◌++◌, length, arith,
}
use four_in_a_row.Wire.Result.{ok}
use four_in_a_row.Wire.Fields.{Ssl, SslLaws}
use four_in_a_row.Wire.Reads.{IsName}
use four_in_a_row.Wire.Layout.{WellFormed, layout}
use four_in_a_row.Wire.Message.{Message, game_start_message}
use four_in_a_row.Wire.Message.Write.{write, max_msg_size}
use four_in_a_row.Wire.Message.Read.{read_message}
use four_in_a_row.Wire.Total.{encoded}
use four_in_a_row.Wire.RoundTrip.{write_iff, read_message-write}

abbrev byte_back : List ℕ → Option ℕ
byte_back [] = none
byte_back (b ∷ bs) = some b

abbrev one_byte : Ssl ℕ ℕ
one_byte = record {
  i2d_x509 = λ c. some (c ∷ []);
  d2i_x509 = byte_back;
  i2d_pubkey = λ k. some (k ∷ []);
  d2i_pubkey = byte_back;
}

one_byte-SslLaws : SslLaws one_byte
one_byte-SslLaws = record { x509_back = λ c bs more e. cc; pubkey_back = λ k bs more e. cc }

abbrev bob : List ℕ
bob = b'b' ∷ b'o' ∷ b'b' ∷ []

bob-IsName : IsName bob
bob-IsName = record { fits = omega arith; no_zero = (λ e. cc, (λ e. cc, (λ e. cc, tt))) }

abbrev start : Message ℕ ℕ
start = game_start_message bob (record { s_addr = 2130706433; sin_port = 8080 }) 7

start-WellFormed : WellFormed start
start-WellFormed = (bob-IsName, omega arith, omega arith)

write_iff_example : (write one_byte start ≡ ok (layout one_byte start)) ↔ (
    (layout one_byte start ≡ layout one_byte start)
    × (length (layout one_byte start) ≤ max_msg_size)
    × (der : List ℕ) × (encoded one_byte start ≡ some der))
write_iff_example = write_iff one_byte start (layout one_byte start) start-WellFormed

read_message-write_example :
    (bs : List ℕ) × (write one_byte start ≡ ok bs)
    × (read_message one_byte (bs ++ (1 ∷ 2 ∷ [])) (length bs) ≡ ok start)
read_message-write_example =
    read_message-write one_byte one_byte-SslLaws start (7 ∷ []) (1 ∷ 2 ∷ []) start-WellFormed refl
      (omega arith)
