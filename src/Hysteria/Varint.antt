-- ===== src/Hysteria/Varint.antt =====
-- src/protocol/hysteria/qpack.rs: `read_quic_varint`, `write_quic_varint`, `quic_varint_len`. A reader
-- is the bytes that are left; a writer is the bytes written so far.
pub mod RoundTrip
pub mod Short
use elise_backend.Prelude.{
  ℕ, zero, suc, ◌+◌, ◌-◌, ◌*◌, ◌/◌, ◌%◌, ◌^◌, List, [], ◌∷◌, ◌++◌, bit_and, bit_or, leb,
  if◌then◌else◌, Io, ok, err, panic, unexpected_eof, ◌>>=◌,
}

-- `read_exact` into a buffer of one byte.
unfoldable pub read_byte : List ℕ → Io (ℕ × List ℕ)
read_byte [] = err unexpected_eof
read_byte (b ∷ s) = ok (b, s)

-- The loop `for _ in 1..len`, with the rounds left.
pub more_bytes : ℕ → ℕ → List ℕ → Io (ℕ × List ℕ)
unfolding read_byte
more_bytes zero val s = ok (val, s)
more_bytes (suc n) val s = do
  (b, s') ← read_byte s
  more_bytes n (bit_or (val * 2 ^ 8 % 2 ^ 64) b) s'

unfoldable pub read_quic_varint : List ℕ → Io (ℕ × List ℕ)
unfolding read_byte more_bytes
read_quic_varint s = do
  (first, s') ← read_byte s
  more_bytes (2 ^ (first / 2 ^ 6) - 1) (bit_and first 0x3f) s'

-- The bytes written, and the count that is returned.
unfoldable pub write_quic_varint : List ℕ → ℕ → List ℕ × ℕ
write_quic_varint w val =
    if leb val 63
    then (w ++ (val % 256) ∷ [], 1)
    else if leb val 16383
    then (w ++ bit_or 0x40 (val / 2 ^ 8 % 256) ∷ (val % 256) ∷ [], 2)
    else if leb val 1073741823
    then (
      w
          ++ bit_or 0x80 (bit_and (val / 2 ^ 24 % 256) 0x3f)
            ∷ (val / 2 ^ 16 % 256)
            ∷ (val / 2 ^ 8 % 256)
            ∷ (val % 256)
            ∷ [],
      4,
    )
    else (
      w
          ++ bit_or 0xc0 (bit_and (val / 2 ^ 56 % 256) 0x3f)
            ∷ (val / 2 ^ 48 % 256)
            ∷ (val / 2 ^ 40 % 256)
            ∷ (val / 2 ^ 32 % 256)
            ∷ (val / 2 ^ 24 % 256)
            ∷ (val / 2 ^ 16 % 256)
            ∷ (val / 2 ^ 8 % 256)
            ∷ (val % 256)
            ∷ [],
      8,
    )

unfoldable pub quic_varint_len : ℕ → ℕ
quic_varint_len val =
    if leb val 63 then 1 else if leb val 16383 then 2 else if leb val 1073741823 then 4 else 8
