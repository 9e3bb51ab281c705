-- ===== src/Prelude/Bytes.antt =====
-- Bytes and big-endian words: the shifts, masks and conversions of the integers.
mod Digits
mod Or
mod And
mod Tables
mod Xor
pub use And.{bit_and_mask, bit_and_high, mask_of_field}
pub use Xor.{bit_xor-bit_xor}
pub use Or.{bit_or_above, bit_or_below}
pub use Tables.{
  mask_3f, mask_7f, mask_0f, bit_80_clear, bit_80_set, or_40, or_80, or_c0, or_80_low, and_3f_byte,
  table_below,
}
unfoldable pub use Tables.{agree_below}
use native.Mathlib.Nat.{pow-suc}
use elise_backend.Prelude.{
  zero, suc, length, length-append, ℕ, zero, suc, ◌+◌, ◌*◌, ◌/◌, ◌%◌, ◌^◌, ◌<◌, ◌≡◌, refl, List, [],
  ◌∷◌, ◌++◌, arith,
}

abbrev pub IsByte : ℕ → Type 0
IsByte b = b < 256

abbrev pub All {ℓ κ} : {A : Type ℓ} → (A → Type κ) → List A → Type κ
All P [] = Unit
All P (x ∷ xs) = P x × All P xs

pub All-append {ℓ κ} :
    {A : Type ℓ} (P : A → Type κ) (xs ys : List A) → All P xs → All P ys → All P (xs ++ ys)
All-append P [] ys hx hy = hy
All-append P (x ∷ xs) ys hx hy = (hx.0, All-append P xs ys hx.1 hy)

-- `u16::from_be_bytes`
abbrev pub from_be_u16 : ℕ → ℕ → ℕ
from_be_u16 hi lo = hi * 256 + lo

-- `(w as u16).to_be_bytes()`
abbrev pub to_be_u16 : ℕ → List ℕ
to_be_u16 w = (w / 256 % 256) ∷ (w % 256) ∷ []

-- A number in `k` bytes, the first the highest: `to_be_bytes` of wider integers, `octets`.
abbrev pub to_be_bytes : ℕ → ℕ → List ℕ
to_be_bytes zero n = []
to_be_bytes (suc k) n = to_be_bytes k (n / 256) ++ (n % 256) ∷ []

abbrev from_be_from : ℕ → List ℕ → ℕ
from_be_from n [] = n
from_be_from n (b ∷ s) = from_be_from (n * 256 + b) s

abbrev pub from_be_bytes : List ℕ → ℕ
from_be_bytes s = from_be_from 0 s

from_be_from-append :
    (n b : ℕ) (s : List ℕ) → from_be_from n (s ++ b ∷ []) ≡ from_be_from n s * 256 + b
from_be_from-append n b [] = refl
from_be_from-append n b (c ∷ s) = from_be_from-append (n * 256 + c) b s

pub length-to_be_bytes : (k n : ℕ) → length (to_be_bytes k n) ≡ k
length-to_be_bytes zero n = refl
length-to_be_bytes (suc k) n = omega (
  arith,
  length-append (to_be_bytes k (n / 256)) ((n % 256) ∷ []),
  length-to_be_bytes k (n / 256),
)

pub from-to_be_bytes : (k n : ℕ) → n < 256 ^ k → from_be_bytes (to_be_bytes k n) ≡ n
from-to_be_bytes zero n h = omega arith
from-to_be_bytes (suc k) n h = omega (
  arith,
  from_be_from-append 0 (n % 256) (to_be_bytes k (n / 256)),
  from-to_be_bytes k (n / 256) (omega (arith, h, pow-suc 256 k)),
)
