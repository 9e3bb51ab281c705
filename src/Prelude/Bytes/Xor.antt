-- ===== src/Prelude/Bytes/Xor.antt =====
-- Exclusive or with the same word twice changes nothing.
use Prim.Native.Nat.{bit_xor, bit_xor-bitwise, differ}
use elise_backend.Prelude.Bytes.Digits.{lowest_digit}
use elise_backend.Prelude.{ℕ, zero, suc, ◌+◌, ◌*◌, ◌/◌, ◌%◌, ◌≤◌, ◌<◌, ◌≡◌, refl, ap, arith}

lowest_bit : (a b : ℕ) → bit_xor a b ≡ bit_xor (a / 2) (b / 2) * 2 + differ (a % 2) (b % 2)
lowest_bit = lowest_digit (λ b. b) differ bit_xor bit_xor-bitwise (λ b. omega arith)

differ_bits : (x y : ℕ) → x < 2 → y < 2 → (differ x y < 2) × (differ (differ x y) y ≡ x)
differ_bits zero zero hx hy = (omega arith, refl)
differ_bits zero (suc zero) hx hy = (omega arith, refl)
differ_bits (suc zero) zero hx hy = (omega arith, refl)
differ_bits (suc zero) (suc zero) hx hy = (omega arith, refl)
differ_bits zero (suc (suc y)) hx hy = absurd (omega arith)
differ_bits (suc zero) (suc (suc y)) hx hy = absurd (omega arith)
differ_bits (suc (suc x)) y hx hy = absurd (omega arith)

twice_below : (bound a b : ℕ) → a ≤ bound → b ≤ bound → bit_xor (bit_xor a b) b ≡ a
twice_below zero zero zero ha hb = refl
twice_below zero (suc a) b ha hb = absurd (omega arith)
twice_below zero zero (suc b) ha hb = absurd (omega arith)
twice_below (suc bound) a b ha hb =
    let bits = differ_bits (a % 2) (b % 2) (omega arith) (omega arith) in
    let low = lowest_bit a b in
    let high : bit_xor a b / 2 ≡ bit_xor (a / 2) (b / 2) = omega (arith, low, bits.0) in
    let last : bit_xor a b % 2 ≡ differ (a % 2) (b % 2) = omega (arith, low, bits.0) in
    omega (
      arith,
      lowest_bit (bit_xor a b) b,
      ap (λ t. bit_xor t (b / 2)) high,
      ap (λ t. differ t (b % 2)) last,
      bits.1,
      twice_below bound (a / 2) (b / 2) (omega arith) (omega arith),
    )

pub bit_xor-bit_xor : (a b : ℕ) → bit_xor (bit_xor a b) b ≡ a
bit_xor-bit_xor a b = twice_below (a + b) a b (omega arith) (omega arith)
