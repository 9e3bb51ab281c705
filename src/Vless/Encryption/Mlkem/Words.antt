-- ===== src/Vless/Encryption/Mlkem/Words.antt =====
-- src/protocol/vless/encryption/mlkem768.rs: the encodings read back.
use elise_backend.Prelude.{
  ℕ, zero, suc, ◌+◌, ◌*◌, ◌/◌, ◌%◌, ◌^◌, ◌<◌, ◌≡◌, refl, ap, ◌∙◌, List, [], ◌∷◌, bit_or, arith,
  length,
}
use elise_backend.Prelude.Bytes.{bit_or_below, All, IsByte}
use elise_backend.Vless.Encryption.Mlkem.{
  compress, decompress, byte_encode_12, byte_decode_12, join_10, join_8, compress_and_encode_10,
  decode_and_decompress_10, compress_and_encode_4, decode_and_decompress_4,
}

-- What was compressed comes back when it is compressed again.
compress-decompress_10 : (y : ℕ) → y < 1024 → compress (decompress y 10) 10 ≡ y
compress-decompress_10 y h = omega arith

compress-decompress_4 : (y : ℕ) → y < 16 → compress (decompress y 4) 4 ≡ y
compress-decompress_4 y h = omega arith

abbrev pub IsCoefficient : ℕ → Type 0
IsCoefficient t = t < 2 ^ 12

pair_12 :
    (s t : ℕ)
    → s < 4096
    → t < 4096
    → let mid = bit_or (s / 256) ((t % 16) * 16) % 256 in
      (bit_or (s % 256) ((mid % 16) * 256) ≡ s) × (bit_or (mid / 16) ((t / 16 % 256) * 16) ≡ t)
pair_12 s t hs ht =
    let mid = bit_or (s / 256) ((t % 16) * 16) % 256 in
    let joined : bit_or (s / 256) ((t % 16) * 16) ≡ s / 256 + (t % 16) * 16 =
      bit_or_below 4 (t % 16) (s / 256) (omega arith) in
    let low : bit_or (s % 256) ((mid % 16) * 256) ≡ s % 256 + (mid % 16) * 256 =
      bit_or_below 8 (mid % 16) (s % 256) (omega arith) in
    let high : bit_or (mid / 16) ((t / 16 % 256) * 16) ≡ mid / 16 + (t / 16 % 256) * 16 =
      bit_or_below 4 (t / 16 % 256) (mid / 16) (omega arith) in
    (omega (arith, joined, low), omega (arith, joined, high))

-- A polynomial with coefficients of 12 bits reads back from its bytes, three for two coefficients.
pub byte_decode_12-byte_encode_12 :
    (n : ℕ) (coeffs : List ℕ)
    → length coeffs ≡ 2 * n
    → All IsCoefficient coeffs
    → (byte_decode_12 (byte_encode_12 coeffs) ≡ coeffs) × (length (byte_encode_12 coeffs) ≡ 3 * n)
unfolding byte_decode_12 byte_encode_12
byte_decode_12-byte_encode_12 zero [] e h = (refl, omega arith)
byte_decode_12-byte_encode_12 zero (s ∷ coeffs) e h = absurd (omega arith)
byte_decode_12-byte_encode_12 (suc n) [] e h = absurd (omega arith)
byte_decode_12-byte_encode_12 (suc n) (s ∷ []) e h = absurd (omega arith)
byte_decode_12-byte_encode_12 (suc n) (s ∷ t ∷ coeffs) e h =
    let rest = byte_decode_12-byte_encode_12 n coeffs (omega (arith, e)) (h.1.1) in
    let both = pair_12 s t (h.0) (h.1.0) in
    (rw (both.0, both.1, rest.0) refl, omega (arith, rest.1))

join_10-sum :
    (a b c d : ℕ)
    → a < 1024
    → b < 1024
    → c < 1024
    → d < 1024
    → join_10 a b c d ≡ a + b * 2 ^ 10 + c * 2 ^ 20 + d * 2 ^ 30
join_10-sum a b c d ha hb hc hd =
    let two = bit_or_below 10 b a ha in
    let three = bit_or_below 20 c (a + b * 2 ^ 10) (omega arith) in
    let four = bit_or_below 30 d (a + b * 2 ^ 10 + c * 2 ^ 20) (omega arith) in
    rw (two, three, four) refl

join_8-sum :
    (a b c d e : ℕ)
    → a < 256
    → b < 256
    → c < 256
    → d < 256
    → join_8 a b c d e ≡ a + b * 2 ^ 8 + c * 2 ^ 16 + d * 2 ^ 24 + e * 2 ^ 32
join_8-sum a b c d e ha hb hc hd =
    let two = bit_or_below 8 b a ha in
    let three = bit_or_below 16 c (a + b * 2 ^ 8) (omega arith) in
    let four = bit_or_below 24 d (a + b * 2 ^ 8 + c * 2 ^ 16) (omega arith) in
    let five = bit_or_below 32 e (a + b * 2 ^ 8 + c * 2 ^ 16 + d * 2 ^ 24) (omega arith) in
    rw (two, three, four, five) refl

-- Five bytes as four numbers of ten bits, joined again.
joined_again :
    (x : ℕ)
    → x < 2 ^ 40
    → join_10 (x % 2 ^ 10) (x / 2 ^ 10 % 2 ^ 10) (x / 2 ^ 20 % 2 ^ 10) (x / 2 ^ 30 % 2 ^ 10) ≡ x
joined_again x h =
    join_10-sum (x % 2 ^ 10) (x / 2 ^ 10 % 2 ^ 10) (x / 2 ^ 20 % 2 ^ 10) (x / 2 ^ 30 % 2 ^ 10)
      (omega arith) (omega arith) (omega arith) (omega arith)
    ∙ omega arith

recompressed :
    (x : ℕ)
    → x < 2 ^ 40
    → join_10
        (compress (decompress (x % 2 ^ 10) 10) 10)
        (compress (decompress (x / 2 ^ 10 % 2 ^ 10) 10) 10)
        (compress (decompress (x / 2 ^ 20 % 2 ^ 10) 10) 10)
        (compress (decompress (x / 2 ^ 30 % 2 ^ 10) 10) 10)
      ≡ x
recompressed x h =
    let p : ℕ = x % 2 ^ 10 in
    let r : ℕ = x / 2 ^ 10 % 2 ^ 10 in
    let s : ℕ = x / 2 ^ 20 % 2 ^ 10 in
    let t : ℕ = x / 2 ^ 30 % 2 ^ 10 in
    ap
      (λ y.
        join_10 y (compress (decompress r 10) 10) (compress (decompress s 10) 10)
          (compress (decompress t 10) 10))
      (compress-decompress_10 p (omega arith))
    ∙ ap (λ y. join_10 p y (compress (decompress s 10) 10) (compress (decompress t 10) 10))
        (compress-decompress_10 r (omega arith))
    ∙ ap (λ y. join_10 p r y (compress (decompress t 10) 10))
        (compress-decompress_10 s (omega arith))
    ∙ ap (λ y. join_10 p r s y) (compress-decompress_10 t (omega arith))
    ∙ joined_again x h

abbrev five_bytes : ℕ → List ℕ → List ℕ
five_bytes x rest =
    (x % 256)
    ∷ (x / 2 ^ 8 % 256)
    ∷ (x / 2 ^ 16 % 256)
    ∷ (x / 2 ^ 24 % 256)
    ∷ (x / 2 ^ 32 % 256)
    ∷ rest

five_bytes-join_8 :
    (a b c d e : ℕ) (rest : List ℕ)
    → a < 256
    → b < 256
    → c < 256
    → d < 256
    → e < 256
    → (join_8 a b c d e < 2 ^ 40) × (five_bytes (join_8 a b c d e) rest ≡ a ∷ b ∷ c ∷ d ∷ e ∷ rest)
five_bytes-join_8 a b c d e rest ha hb hc hd he =
    let sum = join_8-sum a b c d e ha hb hc hd in
    let x : ℕ = a + b * 2 ^ 8 + c * 2 ^ 16 + d * 2 ^ 24 + e * 2 ^ 32 in
    let e0 : x % 256 ≡ a = omega arith in
    let e1 : x / 2 ^ 8 % 256 ≡ b = omega arith in
    let e2 : x / 2 ^ 16 % 256 ≡ c = omega arith in
    let e3 : x / 2 ^ 24 % 256 ≡ d = omega arith in
    let e4 : x / 2 ^ 32 % 256 ≡ e = omega arith in
    (omega (arith, sum), ap (λ y. five_bytes y rest) sum ∙ rw (e0, e1, e2, e3, e4) refl)

-- The bytes of a compressed polynomial are the ones of what is read from them: five for four
-- coefficients of ten bits.
pub compress_and_encode_10-decode_and_decompress_10 :
    (n : ℕ) (bytes : List ℕ)
    → length bytes ≡ 5 * n
    → All IsByte bytes
    → compress_and_encode_10 (decode_and_decompress_10 bytes) ≡ bytes
unfolding compress_and_encode_10 decode_and_decompress_10
compress_and_encode_10-decode_and_decompress_10 zero [] h k = refl
compress_and_encode_10-decode_and_decompress_10 zero (a ∷ bytes) h k = absurd (omega arith)
compress_and_encode_10-decode_and_decompress_10 (suc n) [] h k = absurd (omega arith)
compress_and_encode_10-decode_and_decompress_10 (suc n) (a ∷ []) h k = absurd (omega arith)
compress_and_encode_10-decode_and_decompress_10 (suc n) (a ∷ b ∷ []) h k = absurd (omega arith)
compress_and_encode_10-decode_and_decompress_10 (suc n) (a ∷ b ∷ c ∷ []) h k = absurd (omega arith)
compress_and_encode_10-decode_and_decompress_10 (suc n) (a ∷ b ∷ c ∷ d ∷ []) h k =
    absurd (omega arith)
compress_and_encode_10-decode_and_decompress_10 (suc n) (a ∷ b ∷ c ∷ d ∷ e ∷ bytes) h
      (ha, (hb, (hc, (hd, (he, more))))) =
    let x : ℕ = join_8 a b c d e in
    let parts = five_bytes-join_8 a b c d e bytes ha hb hc hd he in
    ap
      (five_bytes (
        join_10 (compress (decompress (x % 2 ^ 10) 10) 10)
          (compress (decompress (x / 2 ^ 10 % 2 ^ 10) 10) 10)
          (compress (decompress (x / 2 ^ 20 % 2 ^ 10) 10) 10)
          (compress (decompress (x / 2 ^ 30 % 2 ^ 10) 10) 10)))
      (compress_and_encode_10-decode_and_decompress_10 n bytes (omega (arith, h)) more)
    ∙ ap (λ y. five_bytes y bytes) (recompressed x (parts.0))
    ∙ parts.1

byte_4 :
    (b : ℕ)
    → b < 256
    → bit_or
        (compress (decompress (b % 16) 4) 4)
        ((compress (decompress (b / 16 % 16) 4) 4 * 16) % 256)
      ≡ b
byte_4 b h =
    let low = compress-decompress_4 (b % 16) (omega arith) in
    let high = compress-decompress_4 (b / 16 % 16) (omega arith) in
    ap (λ y. bit_or y ((compress (decompress (b / 16 % 16) 4) 4 * 16) % 256)) low
    ∙ ap (λ y. bit_or (b % 16) ((y * 16) % 256)) high
    ∙ ap (λ y. bit_or (b % 16) y) small
    ∙ bit_or_below 4 (b / 16 % 16) (b % 16) (omega arith)
    ∙ omega arith
  where
    small : ((b / 16 % 16) * 16) % 256 ≡ (b / 16 % 16) * 16
    small = omega arith

-- The same with a byte for two coefficients of four bits.
pub compress_and_encode_4-decode_and_decompress_4 :
    (bytes : List ℕ)
    → All IsByte bytes
    → compress_and_encode_4 (decode_and_decompress_4 bytes) ≡ bytes
unfolding compress_and_encode_4 decode_and_decompress_4
compress_and_encode_4-decode_and_decompress_4 [] h = refl
compress_and_encode_4-decode_and_decompress_4 (b ∷ bytes) h =
    rw (byte_4 b (h.0), compress_and_encode_4-decode_and_decompress_4 bytes (h.1)) refl
