-- ===== src/Hysteria/Varint/RoundTrip.antt =====
-- What `read_quic_varint` reads back of what `write_quic_varint` wrote.
use elise_backend.Prelude.{
  ℕ, suc, ◌+◌, ◌-◌, ◌*◌, ◌/◌, ◌%◌, ◌^◌, ◌<◌, ◌≡◌, refl, List, [], ◌∷◌, ◌++◌, arith, bit_and, bit_or,
  ok, length,
}
use elise_backend.Prelude.Bytes.{bit_or_above, mask_3f, and_3f_byte, or_40, or_80, or_c0}
use elise_backend.Hysteria.Varint.{more_bytes, read_quic_varint, write_quic_varint, quic_varint_len}

-- One round of the loop, on a byte, below the top of the word.
more_bytes_step :
    (n val b : ℕ) (s : List ℕ)
    → val < 2 ^ 56
    → b < 256
    → more_bytes (suc n) val (b ∷ s) ≡ more_bytes n (val * 256 + b) s
unfolding more_bytes
more_bytes_step n val b s hv hb =
    let e : val * 2 ^ 8 % 2 ^ 64 ≡ val * 2 ^ 8 = omega arith in rw (e, bit_or_above 8 val b hb)

-- The first byte gives the length by its top two bits.
pub read_first :
    (tag low : ℕ) (s : List ℕ)
    → tag < 4
    → low < 64
    → read_quic_varint ((tag * 64 + low) ∷ s) ≡ more_bytes (2 ^ tag - 1) low s
unfolding read_quic_varint
read_first tag low s ht hl =
    let d : (tag * 64 + low) / 2 ^ 6 ≡ tag = omega arith in
    rw (mask_3f (tag * 64 + low) (omega arith), d) (ground arith)

more_bytes_done : (val : ℕ) (s : List ℕ) → more_bytes 0 val s ≡ ok (val, s)
unfolding more_bytes
more_bytes_done val s = refl

read_one : (v : ℕ) (s : List ℕ) → v < 2 ^ 6 → read_quic_varint (v % 256 ∷ s) ≡ ok (v, s)
read_one v s h = ground (arith, read_first 0 v s, more_bytes_done v s)

read_two :
    (v : ℕ) (s : List ℕ)
    → v < 2 ^ 14
    → read_quic_varint (bit_or 0x40 (v / 2 ^ 8 % 256) ∷ v % 256 ∷ s) ≡ ok (v, s)
read_two v s h = ground (
  arith,
  or_40 (v / 2 ^ 8 % 256),
  read_first 1 (v / 2 ^ 8) ((v % 256) ∷ s),
  more_bytes_step 0 (v / 2 ^ 8) (v % 256) s,
  more_bytes_done v s,
)

read_four :
    (v : ℕ) (s : List ℕ)
    → v < 2 ^ 30
    → read_quic_varint (
        bit_or 0x80 (bit_and (v / 2 ^ 24 % 256) 0x3f)
        ∷ (v / 2 ^ 16 % 256)
        ∷ (v / 2 ^ 8 % 256)
        ∷ (v % 256)
        ∷ s)
      ≡ ok (v, s)
read_four v s h =
    let a = v / 2 ^ 24 in
    let b = v / 2 ^ 16 in
    let c = v / 2 ^ 8 in
    ground (
      arith,
      and_3f_byte (a % 256),
      or_80 (a % 256),
      read_first 2 a ((b % 256) ∷ (c % 256) ∷ (v % 256) ∷ s),
      more_bytes_step 2 a (b % 256) ((c % 256) ∷ (v % 256) ∷ s),
      more_bytes_step 1 b (c % 256) ((v % 256) ∷ s),
      more_bytes_step 0 c (v % 256) s,
      more_bytes_done v s,
    )

-- The bytes that the last branch writes.
eight_bytes : ℕ → List ℕ → List ℕ
eight_bytes v s =
    bit_or 0xc0 (bit_and (v / 2 ^ 56 % 256) 0x3f)
    ∷ v / 2 ^ 48 % 256
    ∷ v / 2 ^ 40 % 256
    ∷ v / 2 ^ 32 % 256
    ∷ v / 2 ^ 24 % 256
    ∷ v / 2 ^ 16 % 256
    ∷ v / 2 ^ 8 % 256
    ∷ v % 256
    ∷ s

read_eight : (v : ℕ) (s : List ℕ) → v < 2 ^ 62 → read_quic_varint (eight_bytes v s) ≡ ok (v, s)
unfolding eight_bytes
read_eight v s h =
    let a = v / 2 ^ 56 in
    let b = v / 2 ^ 48 in
    let c = v / 2 ^ 40 in
    let d = v / 2 ^ 32 in
    let e = v / 2 ^ 24 in
    let f = v / 2 ^ 16 in
    let g = v / 2 ^ 8 in
    let t : List ℕ = v % 256 ∷ s in
    let t₁ : List ℕ = g % 256 ∷ t in
    let t₂ : List ℕ = f % 256 ∷ t₁ in
    let t₃ : List ℕ = e % 256 ∷ t₂ in
    let t₄ : List ℕ = d % 256 ∷ t₃ in
    let t₅ : List ℕ = c % 256 ∷ t₄ in
    ground (
      arith,
      and_3f_byte (a % 256),
      or_c0 (a % 256),
      read_first 3 a (b % 256 ∷ t₅),
      more_bytes_step 6 a (b % 256) t₅,
      more_bytes_step 5 b (c % 256) t₄,
      more_bytes_step 4 c (d % 256) t₃,
      more_bytes_step 3 d (e % 256) t₂,
      more_bytes_step 2 e (f % 256) t₁,
      more_bytes_step 1 f (g % 256) t,
      more_bytes_step 0 g (v % 256) s,
      more_bytes_done v s,
    )

-- The top two bits of a word are not written.
eight_bytes-mod : (v : ℕ) (s : List ℕ) → eight_bytes v s ≡ eight_bytes (v % 2 ^ 62) s
unfolding eight_bytes
eight_bytes-mod v s =
    let e : v / 2 ^ 56 % 256 % 64 ≡ v % 2 ^ 62 / 2 ^ 56 % 256 = omega arith in
    ground (arith, mask_3f (v / 2 ^ 56 % 256), mask_3f (v % 2 ^ 62 / 2 ^ 56 % 256))

-- For every `u64`: what is written reads back as the value modulo 2 ^ 62, and what follows it is
-- left.
pub read-write_quic_varint :
    (v : ℕ) (rest : List ℕ)
    → v < 2 ^ 64
    → read_quic_varint ((write_quic_varint [] v).0 ++ rest) ≡ ok (v % 2 ^ 62, rest)
unfolding write_quic_varint eight_bytes
read-write_quic_varint v rest h = ground (
  arith,
  read_one v rest,
  read_two v rest,
  read_four v rest,
  eight_bytes-mod v rest,
  read_eight (v % 2 ^ 62) rest,
)

-- The count that the writer returns is the announced length, and it appends as many bytes, the
-- same ones behind whatever was written before.
pub write_quic_varint-len :
    (w : List ℕ) (v : ℕ)
    → ((write_quic_varint w v).0 ≡ w ++ (write_quic_varint [] v).0)
      × ((write_quic_varint w v).1 ≡ quic_varint_len v)
      × (length (write_quic_varint [] v).0 ≡ quic_varint_len v)
unfolding write_quic_varint quic_varint_len
write_quic_varint-len w v = ground arith
