-- ===== src/Hysteria/QpackInt/RoundTrip.antt =====
-- What `read_qpack_int` reads back of what `write_qpack_int` wrote.
use native.Mathlib.Nat.{pow-suc, one-le-pow}
use native.Mathlib.Numerals.{towards_suc}
use elise_backend.Prelude.{
  ℕ, zero, suc, ◌+◌, ◌-◌, ◌*◌, ◌/◌, ◌%◌, ◌^◌, ◌≤◌, ◌<◌, ◌≡◌, ap, List, [], ◌∷◌, ◌++◌, arith,
  bit_and, bit_or, ltb, ok, Bool-cases, inl, inr, ltb→lt, ltb→le,
}
use elise_backend.Prelude.Bytes.{
  mask_of_field, bit_and_mask, bit_or_above, or_80_low, bit_80_clear, bit_80_set, mask_7f,
}
use elise_backend.Hysteria.QpackInt.{
  continuation, read_qpack_int, write_continuation, write_qpack_int,
}

seven_more : (m : ℕ) → 2 ^ (m + 7) ≡ 128 * 2 ^ m
seven_more m = simp towards_suc (omega arith)

-- The lowest group of `w` and the rest, both shifted by `m`.
low_group : (w m : ℕ) → w % 128 * 2 ^ m + w / 128 * 2 ^ (m + 7) ≡ w * 2 ^ m
low_group w m =
    let split : w % 128 + 128 * (w / 128) ≡ w = omega arith in
    omega (arith, ap (λ (t : ℕ). t * 2 ^ m) split, ap (λ (t : ℕ). w / 128 * t) (seven_more m))

-- A last byte, and a byte with the top bit set.
last_byte :
    (w acc m : ℕ) (rest : List ℕ)
    → w < 128
    → m < 64
    → acc + w * 2 ^ m < 2 ^ 64
    → continuation (w ∷ rest) acc m ≡ ok (acc + w * 2 ^ m, rest)
unfolding continuation
last_byte w acc m rest hw hm fits = ground (arith, mask_7f w, bit_80_clear w)

inner_byte :
    (g acc m : ℕ) (rest : List ℕ)
    → g < 128
    → m < 64
    → acc + g * 2 ^ m < 2 ^ 64
    → continuation ((g + 128) ∷ rest) acc m ≡ continuation rest (acc + g * 2 ^ m) (m + 7)
unfolding continuation
inner_byte g acc m rest hg hm fits = ground (arith, mask_7f (g + 128), bit_80_set g)

group_byte : (w : ℕ) → bit_or (bit_and w 0x7f % 256) 0x80 ≡ w % 128 + 128
group_byte w = rw (bit_and_mask 7 w) (ground (arith, or_80_low (w % 128)))

-- `k` more groups of seven bits may follow, and `fuel` covers them.
continuation-write :
    (k fuel w acc m : ℕ) (rest : List ℕ)
    → w ≤ fuel
    → w < 128 ^ suc k
    → m + 7 * k < 64
    → acc + w * 2 ^ m < 2 ^ 64
    → continuation (write_continuation fuel w ++ rest) acc m ≡ ok (acc + w * 2 ^ m, rest)
unfolding write_continuation
continuation-write k zero w acc m rest hf hw hm fits = ground (arith, last_byte w acc m rest)
continuation-write zero (suc fuel) w acc m rest hf hw hm fits =
    ground (arith, last_byte w acc m rest)
continuation-write (suc k) (suc fuel) w acc m rest hf hw hm fits = ground (
  arith,
  last_byte w acc m rest,
  group_byte w,
  low_group w m,
  pow-suc 128 (suc k),
  inner_byte (w % 128) acc m (write_continuation fuel (w / 128) ++ rest),
  continuation-write k fuel (w / 128) (acc + w % 128 * 2 ^ m) (m + 7) rest,
)

-- An integer that was written: its first byte and the continuation.
pub record Written (q prefix_bits val : ℕ) : Type 0 where
  pub first : ℕ
  pub tail : List ℕ
  pub written : write_qpack_int [] (q * 2 ^ prefix_bits) prefix_bits val ≡ first ∷ tail
  pub is_byte : first < 256
  pub flags : first / 2 ^ prefix_bits ≡ q
  pub reads : (rest : List ℕ) → read_qpack_int first prefix_bits (tail ++ rest) ≡ ok (val, rest)

field_div : (k q r : ℕ) → r < 2 ^ k → (q * 2 ^ k + r) / 2 ^ k ≡ q
field_div k q r h = grind arith

short_int : (k q val : ℕ) → q * 2 ^ k + 2 ^ k ≤ 256 → val < 2 ^ k - 1 → Written q k val
unfolding write_qpack_int read_qpack_int
short_int k q val fits h = record {
  first = q * 2 ^ k + val;
  tail = [];
  written = ground (arith, bit_or_above k q val);
  is_byte = omega arith;
  flags = field_div k q val (omega arith);
  reads = λ rest. ground (arith, mask_of_field k q val);
}

long_int :
    (k q val : ℕ) → q * 2 ^ k + 2 ^ k ≤ 256 → 2 ^ k - 1 ≤ val → val < 2 ^ 63 → Written q k val
unfolding write_qpack_int read_qpack_int
long_int k q val fits h hv =
    let mask = 2 ^ k - 1 in
    let pos = one-le-pow k 2 (omega arith) in
    record {
      first = q * 2 ^ k + mask;
      tail = write_continuation (val - mask) (val - mask);
      written = ground (arith, bit_or_above k q mask);
      is_byte = omega arith;
      flags = field_div k q mask (omega arith);
      reads = λ rest. ground (
        arith,
        mask_of_field k q mask,
        continuation-write 8 (val - mask) (val - mask) mask 0 rest,
      );
    }

-- Every length below 2 ^ 63 reads back behind the flags that share its first byte, whichever
-- width its prefix has, and what follows it is left.
pub read-write_qpack_int : (k q val : ℕ) → q * 2 ^ k + 2 ^ k ≤ 256 → val < 2 ^ 63 → Written q k val
read-write_qpack_int k q val fits hv = elim (Bool-cases (ltb val (2 ^ k - 1))) [
  | inl short ↦ short_int k q val fits (ltb→lt _ _ short)
  | inr long ↦ long_int k q val fits (ltb→le _ _ long) hv
]
