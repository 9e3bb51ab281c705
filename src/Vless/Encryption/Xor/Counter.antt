-- ===== src/Vless/Encryption/Xor/Counter.antt =====
-- src/protocol/vless/encryption/xor.rs: the counter of `Aes256Ctr`.
use native.Mathlib.Nat.{pow-suc, mul-le-mul_right, mod-eq_of_lt, mod_self}
use elise_backend.Prelude.{
  ℕ, suc, ◌+◌, ◌*◌, ◌%◌, ◌^◌, ◌≤◌, ◌<◌, ◌≡◌, refl, ap, Bool, true, false, List, [], ◌∷◌, ◌==◌,
  if◌then◌else◌, arith, length, ==_iff,
}
use elise_backend.Prelude.Bytes.{IsByte, All}
use elise_backend.Vless.Encryption.Xor.{count_up}

-- The number that bytes stand for, the first the highest.
abbrev pub value : List ℕ → ℕ
value [] = 0
value (b ∷ bs) = b * 256 ^ length bs + value bs

abbrev carry : Bool → ℕ
carry true = 1
carry false = 0

abbrev Counted : List ℕ → List ℕ × Bool → Type 0
Counted bs r =
    (length r.0 ≡ length bs)
    × All IsByte r.0
    × (value r.0 + carry r.1 * 256 ^ length bs ≡ value bs + 1)

same_power : (xs ys : List ℕ) → length xs ≡ length ys → 256 ^ length xs ≡ 256 ^ length ys
same_power xs ys e = ap (λ (n : ℕ). 256 ^ n) e

next_byte-Counted :
    (b : ℕ) (bs xs : List ℕ) (wrapped : Bool)
    → b < 256
    → Counted bs (xs, wrapped)
    → Counted
        (b ∷ bs)
        (if wrapped then (((b + 1) % 256) ∷ xs, (b + 1) % 256 == 0) else (b ∷ xs, false))
next_byte-Counted b bs xs false hb (len, bytes, v) =
    (ap suc len, (hb, bytes), ground (arith, same_power xs bs len, v))
next_byte-Counted b bs xs true hb (len, bytes, v) =
    (ap suc len, (omega arith, bytes), by_wrap ((b + 1) % 256 == 0) refl)
  where
    by_wrap :
        (z : Bool)
        → ((b + 1) % 256 == 0) ≡ z
        → value (((b + 1) % 256) ∷ xs) + carry ((b + 1) % 256 == 0) * 256 ^ length (b ∷ bs)
          ≡ value (b ∷ bs) + 1
    by_wrap true e =
        let last : b ≡ 255 = omega (arith, (==_iff ((b + 1) % 256) 0).0 e) in
        let power : 256 ^ length (b ∷ bs) ≡ 256 * 256 ^ length bs =
          omega (arith, pow-suc 256 (length bs)) in
        let zero_byte : (b + 1) % 256 ≡ 0 = (==_iff ((b + 1) % 256) 0).0 e in
        rw (e, zero_byte, power, last) (omega (arith, v, same_power xs bs len))
    by_wrap false e =
        let one_more : (b + 1) % 256 ≡ b + 1 = omega (arith, below e) in
        rw (e, one_more) (omega (arith, v, ap (λ p. (b + 1) * p) (same_power xs bs len)))
      where
        below : ((b + 1) % 256 == 0) ≡ false → b + 1 < 256
        below e = ground (arith, ==_iff ((b + 1) % 256) 0)

count_up-Counted : (bs : List ℕ) → All IsByte bs → Counted bs (count_up bs)
unfolding count_up
count_up-Counted [] h = (refl, tt, refl)
count_up-Counted (b ∷ bs) h =
    next_byte-Counted b bs (count_up bs).0 (count_up bs).1 (h.0) (count_up-Counted bs (h.1))

value_bound : (bs : List ℕ) → All IsByte bs → value bs < 256 ^ length bs
value_bound [] h = omega arith
value_bound (b ∷ bs) h =
    let power : 256 ^ length (b ∷ bs) ≡ 256 * 256 ^ length bs =
      omega (arith, pow-suc 256 (length bs)) in
    let high : b * 256 ^ length bs ≤ 255 * 256 ^ length bs =
      mul-le-mul_right (256 ^ length bs) (omega (arith, h.0)) in
    omega (arith, power, high, value_bound bs (h.1))

reduced :
    (w n m : ℕ) (wrapped : Bool) → n < w → m < w → m + carry wrapped * w ≡ n + 1 → m ≡ (n + 1) % w
reduced w n m false hn hm e =
    let small : n + 1 < w = omega arith in omega (arith, mod-eq_of_lt small)
reduced w n m true hn hm e =
    let full : n + 1 ≡ w = omega arith in rw (full, mod_self w) (omega arith)

-- The counter counts: as a number it is one more, modulo the power of its size, in as many bytes.
pub value-count_up :
    (bs : List ℕ)
    → All IsByte bs
    → (length (count_up bs).0 ≡ length bs)
      × (value (count_up bs).0 ≡ (value bs + 1) % 256 ^ length bs)
value-count_up bs h =
    let c = count_up-Counted bs h in
    (
      c.0,
      reduced (256 ^ length bs) (value bs) (value (count_up bs).0) (count_up bs).1
          (value_bound bs h)
          (omega (arith, value_bound (count_up bs).0 (c.1), same_power (count_up bs).0 bs (c.0)))
          (c.2),
    )
