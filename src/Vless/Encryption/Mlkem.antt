-- ===== src/Vless/Encryption/Mlkem.antt =====
-- src/protocol/vless/encryption/mlkem768.rs: the encodings of polynomials. Coefficients are natural
-- numbers, as all that `modq` gives are; a polynomial is the list of them, and the loops over its
-- indices take as many at once as they advance by.
pub mod Words
pub mod Message
use elise_backend.Prelude.{ℕ, zero, suc, ◌+◌, ◌-◌, ◌*◌, ◌/◌, ◌%◌, ◌^◌, List, [], ◌∷◌, ◌++◌, bit_or}

abbrev pub q : ℕ
q = 3329

-- `(x as u32) << d`, half of `q` added, divided and masked.
abbrev pub compress : ℕ → ℕ → ℕ
compress x d = ((x * 2 ^ d) % 2 ^ 32 + q / 2) % 2 ^ 32 / q % 2 ^ d

abbrev pub decompress : ℕ → ℕ → ℕ
decompress y d = let dividend = (y * q) % 2 ^ 32 in dividend / 2 ^ d + dividend / 2 ^ (d - 1) % 2

unfoldable pub byte_encode_12 : List ℕ → List ℕ
byte_encode_12 (t0 ∷ t1 ∷ coeffs) =
    (t0 % 256)
    ∷ (bit_or (t0 / 256) ((t1 % 16) * 16) % 256)
    ∷ (t1 / 16 % 256)
    ∷ byte_encode_12 coeffs
byte_encode_12 coeffs = []

unfoldable pub byte_decode_12 : List ℕ → List ℕ
byte_decode_12 (b0 ∷ b1 ∷ b2 ∷ bytes) =
    bit_or b0 ((b1 % 16) * 256) ∷ bit_or (b1 / 16) (b2 * 16) ∷ byte_decode_12 bytes
byte_decode_12 bytes = []

-- Four numbers of ten bits in one of 64.
abbrev pub join_10 : ℕ → ℕ → ℕ → ℕ → ℕ
join_10 a b c d = bit_or (bit_or (bit_or a (b * 2 ^ 10)) (c * 2 ^ 20)) (d * 2 ^ 30)

unfoldable pub compress_and_encode_10 : List ℕ → List ℕ
compress_and_encode_10 (a ∷ b ∷ c ∷ d ∷ coeffs) =
    let x = join_10 (compress a 10) (compress b 10) (compress c 10) (compress d 10) in
    (x % 256)
    ∷ (x / 2 ^ 8 % 256)
    ∷ (x / 2 ^ 16 % 256)
    ∷ (x / 2 ^ 24 % 256)
    ∷ (x / 2 ^ 32 % 256)
    ∷ compress_and_encode_10 coeffs
compress_and_encode_10 coeffs = []

abbrev pub join_8 : ℕ → ℕ → ℕ → ℕ → ℕ → ℕ
join_8 a b c d e =
    bit_or (bit_or (bit_or (bit_or a (b * 2 ^ 8)) (c * 2 ^ 16)) (d * 2 ^ 24)) (e * 2 ^ 32)

unfoldable pub decode_and_decompress_10 : List ℕ → List ℕ
decode_and_decompress_10 (a ∷ b ∷ c ∷ d ∷ e ∷ bytes) =
    let x = join_8 a b c d e in
    decompress (x % 2 ^ 10) 10
    ∷ decompress (x / 2 ^ 10 % 2 ^ 10) 10
    ∷ decompress (x / 2 ^ 20 % 2 ^ 10) 10
    ∷ decompress (x / 2 ^ 30 % 2 ^ 10) 10
    ∷ decode_and_decompress_10 bytes
decode_and_decompress_10 bytes = []

unfoldable pub compress_and_encode_4 : List ℕ → List ℕ
compress_and_encode_4 (a ∷ b ∷ coeffs) =
    bit_or (compress a 4) ((compress b 4 * 16) % 256) ∷ compress_and_encode_4 coeffs
compress_and_encode_4 coeffs = []

unfoldable pub decode_and_decompress_4 : List ℕ → List ℕ
decode_and_decompress_4 (b ∷ bytes) =
    decompress (b % 16) 4 ∷ decompress (b / 16 % 16) 4 ∷ decode_and_decompress_4 bytes
decode_and_decompress_4 bytes = []

-- Eight coefficients make a byte, the first its lowest bit; the byte is zero before.
abbrev pub join_1 : ℕ → ℕ → ℕ → ℕ → ℕ → ℕ → ℕ → ℕ → ℕ
join_1 a b c d e f g h =
    bit_or
      (bit_or
        (bit_or (bit_or (bit_or (bit_or (bit_or (bit_or 0 a) (b * 2)) (c * 4)) (d * 8)) (e * 16))
          (f * 32))
        (g * 64))
      (h * 128)

unfoldable pub compress_and_encode_1 : List ℕ → List ℕ
compress_and_encode_1 (a ∷ b ∷ c ∷ d ∷ e ∷ f ∷ g ∷ h ∷ coeffs) =
    join_1 (compress a 1) (compress b 1) (compress c 1) (compress d 1) (compress e 1) (compress f 1)
      (compress g 1) (compress h 1)
    ∷ compress_and_encode_1 coeffs
compress_and_encode_1 coeffs = []

abbrev pub half_q : ℕ
half_q = (q + 1) / 2

abbrev pub bit_coefficient : ℕ → ℕ → ℕ
bit_coefficient byte i = byte / 2 ^ i % 2 * half_q

unfoldable pub decode_and_decompress_1 : List ℕ → List ℕ
decode_and_decompress_1 (b ∷ bytes) =
    bit_coefficient b 0
    ∷ bit_coefficient b 1
    ∷ bit_coefficient b 2
    ∷ bit_coefficient b 3
    ∷ bit_coefficient b 4
    ∷ bit_coefficient b 5
    ∷ bit_coefficient b 6
    ∷ bit_coefficient b 7
    ∷ decode_and_decompress_1 bytes
decode_and_decompress_1 bytes = []
