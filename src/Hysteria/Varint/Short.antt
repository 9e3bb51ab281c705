-- ===== src/Hysteria/Varint/Short.antt =====
-- `read_quic_varint` on an integer that was cut short.
use elise_backend.Prelude.{
  ℕ, zero, suc, ◌+◌, ◌-◌, ◌*◌, ◌/◌, ◌%◌, ◌^◌, ◌<◌, ◌≡◌, refl, ◌∙◌, List, [], ◌∷◌, arith, bit_or,
  leb, take, err, unexpected_eof, length-take, length, Bool-cases, inl, inr,
}
use elise_backend.Prelude.Bytes.{mask_3f, and_3f_byte, or_40, or_80, or_c0}
use elise_backend.Hysteria.Varint.{more_bytes, read_quic_varint, write_quic_varint, quic_varint_len}
use elise_backend.Hysteria.Varint.RoundTrip.{read_first}

more_bytes_short : (n val : ℕ) (s : List ℕ) → length s < n → more_bytes n val s ≡ err unexpected_eof
unfolding more_bytes
more_bytes_short zero val s h = absurd (omega arith)
more_bytes_short (suc n) val [] h = refl
more_bytes_short (suc n) val (b ∷ s) h =
    more_bytes_short n (bit_or (val * 2 ^ 8 % 2 ^ 64) b) s (omega arith)

-- The first byte announces how many follow.
record Announced (v : ℕ) : Type 0 where
  tag : ℕ
  low : ℕ
  tail : List ℕ
  tag_small : tag < 4
  low_small : low < 64
  written : (write_quic_varint [] v).0 ≡ (tag * 64 + low) ∷ tail
  follow : length tail ≡ 2 ^ tag - 1
  total : quic_varint_len v ≡ 2 ^ tag

write-Announced : (v : ℕ) → v < 2 ^ 64 → Announced v
unfolding write_quic_varint quic_varint_len
write-Announced v h = elim (Bool-cases (leb v 63)) [
  | inl one ↦ record {
    tag = 0;
    low = v;
    tail = [];
    tag_small = omega arith;
    low_small = ground arith;
    written = ground arith;
    follow = refl;
    total = ground arith;
  }
  | inr not_one ↦ elim (Bool-cases (leb v 16383)) [
    | inl two ↦ record {
      tag = 1;
      low = v / 2 ^ 8;
      tail = v % 256 ∷ [];
      tag_small = omega arith;
      low_small = ground arith;
      written = ground (arith, or_40 (v / 2 ^ 8 % 256));
      follow = refl;
      total = ground arith;
    }
    | inr not_two ↦ elim (Bool-cases (leb v 1073741823)) [
      | inl four ↦ record {
        tag = 2;
        low = v / 2 ^ 24;
        tail = v / 2 ^ 16 % 256 ∷ v / 2 ^ 8 % 256 ∷ v % 256 ∷ [];
        tag_small = omega arith;
        low_small = ground arith;
        written = ground (arith, and_3f_byte (v / 2 ^ 24 % 256), or_80 (v / 2 ^ 24 % 256));
        follow = refl;
        total = ground arith;
      }
      | inr not_four ↦ record {
        tag = 3;
        low = v / 2 ^ 56 % 64;
        tail =
            v / 2 ^ 48 % 256
            ∷ v / 2 ^ 40 % 256
            ∷ v / 2 ^ 32 % 256
            ∷ v / 2 ^ 24 % 256
            ∷ v / 2 ^ 16 % 256
            ∷ v / 2 ^ 8 % 256
            ∷ v % 256
            ∷ [];
        tag_small = omega arith;
        low_small = omega arith;
        written = ground (arith, mask_3f (v / 2 ^ 56 % 256), or_c0 (v / 2 ^ 56 % 64));
        follow = refl;
        total = ground arith;
      }
    ]
  ]
]

-- A reader that stops inside an integer reports the end of the input, wherever it was cut.
pub read_quic_varint_short :
    (v n : ℕ)
    → v < 2 ^ 64
    → n < quic_varint_len v
    → read_quic_varint (take n (write_quic_varint [] v).0) ≡ err unexpected_eof
unfolding read_quic_varint
read_quic_varint_short v zero hv h = refl
read_quic_varint_short v (suc n) hv h =
    let a = write-Announced v hv in
    rw a.written (
      read_first a.tag a.low (take n a.tail) a.tag_small a.low_small
      ∙ more_bytes_short (2 ^ a.tag - 1) a.low (take n a.tail)
          (omega (arith, length-take n a.tail, a.follow, a.total)))
