-- ===== src/Prelude/Bytes/Digits.antt =====
-- A bit operation, given by what it does with two binary digits, at the lowest digit.
use Prim.Native.Nat.{digits}
use elise_backend.Prelude.{ℕ, zero, suc, ◌+◌, ◌*◌, ◌/◌, ◌%◌, ◌≤◌, ◌≡◌, refl, sym, ◌∙◌, arith}

module _ (rest : ℕ → ℕ) (join : ℕ → ℕ → ℕ) where
  no_digits : (fuel b : ℕ) → digits rest join fuel 0 b ≡ rest b
  no_digits zero b = refl
  no_digits (suc fuel) b = refl

  enough :
      (fuel more a b : ℕ)
      → a ≤ fuel
      → a ≤ more
      → digits rest join fuel a b ≡ digits rest join more a b
  enough fuel more zero b hf hm = no_digits fuel b ∙ sym (no_digits more b)
  enough zero more (suc a) b hf hm = absurd (omega arith)
  enough (suc fuel) zero (suc a) b hf hm = absurd (omega arith)
  enough (suc fuel) (suc more) (suc a) b hf hm =
      let halves = enough fuel more (suc a / 2) (b / 2) (omega arith) (omega arith) in
      omega (arith, halves)

  module _ (op : ℕ → ℕ → ℕ) (bitwise : (a b : ℕ) → op a b ≡ digits rest join a a b)
      (rest_digit : (b : ℕ) → rest b ≡ rest (b / 2) * 2 + join 0 (b % 2)) where
    pub lowest_digit : (a b : ℕ) → op a b ≡ op (a / 2) (b / 2) * 2 + join (a % 2) (b % 2)
    lowest_digit zero b = omega (arith, bitwise 0 b, bitwise 0 (b / 2), rest_digit b)
    lowest_digit (suc a) b =
        let half = suc a / 2 in
        let settled = enough a half half (b / 2) (omega arith) (omega arith) in
        omega (arith, settled, bitwise half (b / 2), bitwise (suc a) b)
