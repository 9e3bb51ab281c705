-- ===== src/Vless/Encryption/Mlkem/Message.antt =====
-- src/protocol/vless/encryption/mlkem768.rs: the message as a polynomial, and back, also when the
-- polynomial is not exact.
use elise_backend.Prelude.{
  ℕ, zero, suc, ◌*◌, ◌/◌, ◌%◌, ◌≤◌, ◌<◌, ◌≡◌, refl, ◌⊎◌, inl, inr, List, [], ◌∷◌, arith,
}
use elise_backend.Prelude.Bytes.{All, IsByte, table_below, agree_below}
use elise_backend.Vless.Encryption.Mlkem.{
  q, compress, join_1, compress_and_encode_1, decode_and_decompress_1,
}

abbrev bits_joined : ℕ → ℕ
bits_joined b =
    join_1 (b / 1 % 2) (b / 2 % 2) (b / 4 % 2) (b / 8 % 2) (b / 16 % 2) (b / 32 % 2) (b / 64 % 2)
      (b / 128 % 2)

bits_of_byte : (b : ℕ) → b < 256 → bits_joined b ≡ b
unfolding agree_below
bits_of_byte = table_below bits_joined (λ b. b) 256 refl

-- A coefficient that stands for a bit: for a 0 it is off from 0 by at most 832 either way, wrapping
-- around at 0, and for a 1 it is 833 to 2496, at most 832 below and 831 above the exact 1665.
abbrev pub NearBit : ℕ → ℕ → Type 0
NearBit bit x =
    (x < q) × (((bit ≡ 0) × ((x ≤ 832) ⊎ (2497 ≤ x))) ⊎ ((bit ≡ 1) × (833 ≤ x) × (x ≤ 2496)))

compress_near : (bit x : ℕ) → NearBit bit x → compress x 1 ≡ bit
compress_near bit x (h, inl (e, inl near)) = omega arith
compress_near bit x (h, inl (e, inr near)) = omega arith
compress_near bit x (h, inr (e, low, high)) = omega arith

-- Coefficients near the bits of bytes, eight for each.
pub data Near : List ℕ → List ℕ → Type 0 where
  end : Near [] []
  byte :
      (b : ℕ) (x0 x1 x2 x3 x4 x5 x6 x7 : ℕ) (bytes coeffs : List ℕ)
      → NearBit (b / 1 % 2) x0
      → NearBit (b / 2 % 2) x1
      → NearBit (b / 4 % 2) x2
      → NearBit (b / 8 % 2) x3
      → NearBit (b / 16 % 2) x4
      → NearBit (b / 32 % 2) x5
      → NearBit (b / 64 % 2) x6
      → NearBit (b / 128 % 2) x7
      → Near bytes coeffs
      → Near (b ∷ bytes) (x0 ∷ x1 ∷ x2 ∷ x3 ∷ x4 ∷ x5 ∷ x6 ∷ x7 ∷ coeffs)

near_bit : (bit : ℕ) → bit < 2 → NearBit bit (bit * 1665)
near_bit zero h = (omega arith, inl (refl, inl (omega arith)))
near_bit (suc zero) h = (omega arith, inr (refl, omega arith, omega arith))
near_bit (suc (suc bit)) h = absurd (omega arith)

pub decode_and_decompress_1-Near : (bytes : List ℕ) → Near bytes (decode_and_decompress_1 bytes)
unfolding decode_and_decompress_1
decode_and_decompress_1-Near [] = end
decode_and_decompress_1-Near (b ∷ bytes) =
    byte b _ _ _ _ _ _ _ _ bytes _ (near_bit (b / 1 % 2) (omega arith))
      (near_bit (b / 2 % 2) (omega arith)) (near_bit (b / 4 % 2) (omega arith))
      (near_bit (b / 8 % 2) (omega arith)) (near_bit (b / 16 % 2) (omega arith))
      (near_bit (b / 32 % 2) (omega arith)) (near_bit (b / 64 % 2) (omega arith))
      (near_bit (b / 128 % 2) (omega arith)) (decode_and_decompress_1-Near bytes)

-- The bytes of a message come out of every polynomial whose coefficients are near its bits: below
-- the modulus 3329, at most 832 from 0 (wrapping around) for a bit 0, and from 833 to 2496 for a
-- bit 1, whose exact coefficient is 1665. So an error of up to 831 either way does no harm.
pub compress_and_encode_1-Near :
    {bytes coeffs : List ℕ}
    → Near bytes coeffs
    → All IsByte bytes
    → compress_and_encode_1 coeffs ≡ bytes
unfolding compress_and_encode_1
compress_and_encode_1-Near end h = refl
compress_and_encode_1-Near
      (byte b x0 x1 x2 x3 x4 x5 x6 x7 bytes coeffs n0 n1 n2 n3 n4 n5 n6 n7 more) h =
    rw
      (
        compress_near (b / 1 % 2) x0 n0,
        compress_near (b / 2 % 2) x1 n1,
        compress_near (b / 4 % 2) x2 n2,
        compress_near (b / 8 % 2) x3 n3,
        compress_near (b / 16 % 2) x4 n4,
        compress_near (b / 32 % 2) x5 n5,
        compress_near (b / 64 % 2) x6 n6,
        compress_near (b / 128 % 2) x7 n7,
        bits_of_byte b (h.0),
        compress_and_encode_1-Near more (h.1),
      )
      refl
