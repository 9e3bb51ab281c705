-- ===== src/Prelude/Bytes/And.antt =====
-- `bit_and` with a mask of `k` ones is the remainder by `2 ^ k`.
use Prim.Native.Nat.{bit_and-bitwise}
use native.Mathlib.Nat.{pow-suc, pow-succ', one-le-pow, div-div-eq-div-mul, mod-eq_of_lt}
use elise_backend.Prelude.Bytes.Digits.{lowest_digit}
use elise_backend.Prelude.{
  ℕ, zero, suc, ◌+◌, ◌-◌, ◌*◌, ◌/◌, ◌%◌, ◌^◌, ◌≤◌, ◌<◌, min, ◌≡◌, ap, arith, bit_and,
}
use elise_backend.Prelude.Bytes.Or.{double_field}

last_digit : (a b : ℕ) → bit_and a b ≡ bit_and (a / 2) (b / 2) * 2 + min (a % 2) (b % 2)
last_digit = lowest_digit (λ _. 0) min bit_and bit_and-bitwise (λ b. omega arith)

and_nothing : (bound a : ℕ) → a ≤ bound → bit_and a 0 ≡ 0
and_nothing bound zero h = bit_and-bitwise 0 0
and_nothing zero (suc a) h = absurd (omega arith)
and_nothing (suc bound) (suc a) h =
    let half = and_nothing bound (suc a / 2) (omega arith) in
    omega (arith, half, last_digit (suc a) 0)

pub mask_of_field : (k q r : ℕ) → r < 2 ^ k → bit_and (q * 2 ^ k + r) (2 ^ k - 1) ≡ r
mask_of_field zero q r h = ground (arith, and_nothing (q * 1 + r) (q * 1 + r))
mask_of_field (suc k) q r h = ground (
  arith,
  last_digit (q * 2 ^ suc k + r) (2 ^ suc k - 1),
  double_field q k,
  pow-suc 2 k,
  one-le-pow k 2,
  mask_of_field k q (r / 2) (omega (arith, pow-suc 2 k)),
)

pub bit_and_mask : (k a : ℕ) → bit_and a (2 ^ k - 1) ≡ a % 2 ^ k
bit_and_mask k a = ground (arith, one-le-pow k 2, mask_of_field k (a / 2 ^ k) (a % 2 ^ k))

div_halves : (a k : ℕ) → a / 2 ^ suc k ≡ a / 2 / 2 ^ k
div_halves a k = rw (div-div-eq-div-mul a 2 (2 ^ k)) (ap (λ (t : ℕ). a / t) (pow-succ' 2 k))

-- A mask of ones above `k` zeros clears the low bits.
pub bit_and_high :
    (k w a : ℕ) → a < 2 ^ w * 2 ^ k → bit_and a ((2 ^ w - 1) * 2 ^ k) ≡ a / 2 ^ k * 2 ^ k
bit_and_high zero w a h =
    let e : (2 ^ w - 1) * 2 ^ 0 ≡ 2 ^ w - 1 = omega arith in
    let small : a < 2 ^ w = omega arith in
    rw (e, bit_and_mask w a, mod-eq_of_lt small) (omega arith)
bit_and_high (suc k) w a h =
    let m = (2 ^ w - 1) * 2 ^ k in
    ground (
      arith,
      double_field (2 ^ w - 1) k,
      last_digit a (2 * m),
      bit_and_high k w (a / 2),
      pow-suc 2 k,
      div_halves a k,
      double_field (a / 2 / 2 ^ k) k,
      double_field (2 ^ w) k,
    )
