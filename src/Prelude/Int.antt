-- ===== src/Prelude/Int.antt =====
-- Signed integers over the native numbers; `negsuc n` is -(n + 1).
use elise_backend.Prelude.{ℕ, ◌+◌, ◌-◌, ◌%◌, ◌^◌, Bool, false, ltb, if◌then◌else◌}

pub data ℤ : Type 0 where
  pos : ℕ → ℤ
  negsuc : ℕ → ℤ

-- The `i32` whose 32 bits are those of `m`.
abbrev pub as_i32 : ℕ → ℤ
as_i32 m = let low = m % 2 ^ 32 in if ltb low (2 ^ 31) then pos low else negsuc (2 ^ 32 - 1 - low)

-- a - b on `i32`, which wraps around.
abbrev pub wrapping_sub_i32 : ℕ → ℕ → ℤ
wrapping_sub_i32 a b = as_i32 (a % 2 ^ 32 + (2 ^ 32 - b % 2 ^ 32))

abbrev pub is_positive : ℤ → Bool
is_positive (pos n) = ltb 0 n
is_positive (negsuc n) = false
