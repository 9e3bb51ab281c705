-- ===== src/Prelude/Bytes/Tables.antt =====
-- Masks on one byte as arithmetic, each a table checked by evaluation.
use elise_backend.Prelude.{
  ℕ, zero, suc, ◌+◌, ◌%◌, ◌<◌, ◌≡◌, refl, Bool, true, ◌&&◌, arith, bit_and, bit_or, ◌==◌,
}

module _ (f g : ℕ → ℕ) where
  unfoldable pub agree_below : ℕ → Bool
  agree_below zero = true
  agree_below (suc n) = f n == g n && agree_below n

  pub table_below : (n : ℕ) → agree_below n ≡ true → (x : ℕ) → x < n → f x ≡ g x
  unfolding agree_below
  table_below zero e x h = absurd (omega arith)
  table_below (suc n) e x h = ground (arith, table_below n (ground arith) x)

pub mask_3f : (b : ℕ) → b < 256 → bit_and b 0x3f ≡ b % 64
unfolding agree_below
mask_3f = table_below _ _ 256 refl

pub and_3f_byte : (b : ℕ) → b < 64 → bit_and b 0x3f ≡ b
unfolding agree_below
and_3f_byte = table_below _ _ 64 refl

pub mask_7f : (b : ℕ) → b < 256 → bit_and b 0x7f ≡ b % 128
unfolding agree_below
mask_7f = table_below _ _ 256 refl

pub mask_0f : (b : ℕ) → b < 256 → bit_and b 0x0f ≡ b % 16
unfolding agree_below
mask_0f = table_below _ _ 256 refl

pub bit_80_clear : (b : ℕ) → b < 128 → bit_and b 0x80 ≡ 0
unfolding agree_below
bit_80_clear = table_below _ _ 128 refl

pub bit_80_set : (b : ℕ) → b < 128 → bit_and (b + 128) 0x80 ≡ 128
unfolding agree_below
bit_80_set = table_below _ _ 128 refl

pub or_40 : (b : ℕ) → b < 64 → bit_or 0x40 b ≡ 64 + b
unfolding agree_below
or_40 = table_below _ _ 64 refl

pub or_80 : (b : ℕ) → b < 64 → bit_or 0x80 b ≡ 128 + b
unfolding agree_below
or_80 = table_below _ _ 64 refl

pub or_c0 : (b : ℕ) → b < 64 → bit_or 0xc0 b ≡ 192 + b
unfolding agree_below
or_c0 = table_below _ _ 64 refl

pub or_80_low : (b : ℕ) → b < 128 → bit_or b 0x80 ≡ b + 128
unfolding agree_below
or_80_low = table_below _ _ 128 refl
