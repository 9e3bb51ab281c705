-- ===== src/Prelude/Bytes/Or.antt =====
-- `bit_or` of two fields that share no bit is their sum, at every width.
use Prim.Native.Nat.{bit_or-bitwise}
use native.Mathlib.Nat.{pow-suc}
use elise_backend.Prelude.Bytes.Digits.{lowest_digit}
use elise_backend.Prelude.{
  ℕ, zero, suc, ◌+◌, ◌*◌, ◌/◌, ◌%◌, ◌^◌, ◌≤◌, ◌<◌, max, ◌≡◌, ap, arith, bit_or,
}

last_digit : (a b : ℕ) → bit_or a b ≡ bit_or (a / 2) (b / 2) * 2 + max (a % 2) (b % 2)
last_digit = lowest_digit (λ y. y) max bit_or bit_or-bitwise (λ b. omega arith)

or_nothing : (bound a : ℕ) → a ≤ bound → bit_or a 0 ≡ a
or_nothing bound zero h = bit_or-bitwise 0 0
or_nothing zero (suc a) h = absurd (omega arith)
or_nothing (suc bound) (suc a) h =
    let half = or_nothing bound (suc a / 2) (omega arith) in
    omega (arith, half, last_digit (suc a) 0)

pub double_field : (q k : ℕ) → q * 2 ^ suc k ≡ 2 * (q * 2 ^ k)
double_field q k = omega (arith, ap (λ (t : ℕ). q * t) (pow-suc 2 k))

-- `(q << k) | r` for `r` of `k` bits.
pub bit_or_above : (k q r : ℕ) → r < 2 ^ k → bit_or (q * 2 ^ k) r ≡ q * 2 ^ k + r
bit_or_above zero q r h = ground (arith, or_nothing q q)
bit_or_above (suc k) q r h = ground (
  arith,
  last_digit (q * 2 ^ suc k) r,
  double_field q k,
  pow-suc 2 k,
  bit_or_above k q (r / 2) (omega (arith, pow-suc 2 k)),
)

-- `r | (q << k)` for `r` of `k` bits.
pub bit_or_below : (k q r : ℕ) → r < 2 ^ k → bit_or r (q * 2 ^ k) ≡ r + q * 2 ^ k
bit_or_below zero q r h = ground (arith, bit_or-bitwise 0 q)
bit_or_below (suc k) q r h = ground (
  arith,
  last_digit r (q * 2 ^ suc k),
  double_field q k,
  pow-suc 2 k,
  bit_or_below k q (r / 2) (omega (arith, pow-suc 2 k)),
)
