-- ===== src/Prelude/Text.antt =====
-- Rust strings as their UTF-8 bytes: literals, equality, `str::from_utf8` and `to_string` of numbers.
use Prim.Native.Char.{code}
use Prim.Native.String.{String}
use elise_backend.Prelude.{
  ℕ, zero, suc, ◌+◌, ◌/◌, ◌%◌, ◌≤◌, ◌<◌, ◌≡◌, refl, Bool, true, false, ◌&&◌, Option, none, some,
  List, [], ◌∷◌, arith, ltb, leb, ◌==◌, if◌then◌else◌, Io, ok, err, invalid_data, length,
}
use elise_backend.Prelude.Bytes.{All}

-- The bytes of an ASCII literal.
abbrev pub codes : String → List ℕ
codes String.[] = []
codes (String.◌∷◌ c s) = code c ∷ codes s

-- `==` on byte strings.
unfoldable pub bytes_eq : List ℕ → List ℕ → Bool
bytes_eq [] [] = true
bytes_eq [] (y ∷ ys) = false
bytes_eq (x ∷ xs) [] = false
bytes_eq (x ∷ xs) (y ∷ ys) = x == y && bytes_eq xs ys

pub bytes_eq-eq : (xs ys : List ℕ) → bytes_eq xs ys ≡ true → xs ≡ ys
unfolding bytes_eq
bytes_eq-eq [] [] h = refl
bytes_eq-eq [] (y ∷ ys) h = cc
bytes_eq-eq (x ∷ xs) [] h = cc
bytes_eq-eq (x ∷ xs) (y ∷ ys) h = ground (arith, bytes_eq-eq xs ys)

pub bytes_eq_self : (xs : List ℕ) → bytes_eq xs xs ≡ true
unfolding bytes_eq
bytes_eq_self [] = refl
bytes_eq_self (x ∷ xs) = ground (arith, bytes_eq_self xs)

-- After a lead byte: how many continuation bytes, and the range of the first.
lead : ℕ → Option (ℕ × ℕ × ℕ)
lead b =
    if ltb b 0x80
    then some (0, 0, 0)
    else if leb 0xc2 b && leb b 0xdf
    then some (1, 0x80, 0xbf)
    else if b == 0xe0
    then some (2, 0xa0, 0xbf)
    else if b == 0xed
    then some (2, 0x80, 0x9f)
    else if leb 0xe1 b && leb b 0xef
    then some (2, 0x80, 0xbf)
    else if b == 0xf0
    then some (3, 0x90, 0xbf)
    else if leb 0xf1 b && leb b 0xf3
    then some (3, 0x80, 0xbf)
    else if b == 0xf4
    then some (3, 0x80, 0x8f)
    else none

utf8_from : ℕ → ℕ → ℕ → List ℕ → Bool
unfolding lead
utf8_from zero lo hi [] = true
utf8_from (suc n) lo hi [] = false
utf8_from zero lo hi (b ∷ s) = elim (lead b) [
  | none ↦ false
  | some (n, lo', hi') ↦ utf8_from n lo' hi' s
]
utf8_from (suc n) lo hi (b ∷ s) = (leb lo b && leb b hi) && utf8_from n 0x80 0xbf s

-- `str::from_utf8(s).is_ok()`
unfoldable pub is_utf8 : List ℕ → Bool
unfolding utf8_from
is_utf8 s = utf8_from 0 0 0 s

unfoldable pub from_utf8 : List ℕ → Io (List ℕ)
from_utf8 s = if is_utf8 s then ok s else err invalid_data

pub ascii-is_utf8 : (s : List ℕ) → All (λ b. b < 128) s → is_utf8 s ≡ true
unfolding is_utf8
ascii-is_utf8 [] h = refl
ascii-is_utf8 (b ∷ s) h = ground (arith, ascii-is_utf8 s)

-- `to_string` of an unsigned number: one round for each digit.
decimal : ℕ → ℕ → List ℕ → List ℕ
decimal zero n out = out
decimal (suc f) n out =
    let out' = (48 + n % 10) ∷ out in elim (n / 10) [ zero ↦ out' | suc m ↦ decimal f (suc m) out' ]

-- A `u16` has at most five digits.
unfoldable pub u16_to_string : ℕ → List ℕ
unfolding decimal
u16_to_string n = decimal 5 n []

decimal-ascii :
    (f n : ℕ) (out : List ℕ) → All (λ b. b < 128) out → All (λ b. b < 128) (decimal f n out)
unfolding decimal
decimal-ascii zero n out h = h
decimal-ascii (suc f) n out h =
    let h' : All (λ b. b < 128) ((48 + n % 10) ∷ out) = (omega arith, h) in
    elim (n / 10)
      as (λ m.
        All (λ b. b < 128)
          (elim m [
            | zero ↦ (48 + n % 10) ∷ out
            | suc k ↦ decimal f (suc k) ((48 + n % 10) ∷ out)
          ])) [ zero ↦ h' | suc k ↦ decimal-ascii f (suc k) ((48 + n % 10) ∷ out) h' ]

pub u16_to_string-ascii : (n : ℕ) → All (λ b. b < 128) (u16_to_string n)
unfolding u16_to_string
u16_to_string-ascii n = decimal-ascii 5 n [] tt

length-decimal : (f n : ℕ) (out : List ℕ) → length (decimal f n out) ≤ f + length out
unfolding decimal
length-decimal zero n out = omega arith
length-decimal (suc f) n out =
    elim (n / 10)
      as (λ m.
        length
          (elim m [ zero ↦ (48 + n % 10) ∷ out | suc k ↦ decimal f (suc k) ((48 + n % 10) ∷ out) ])
        ≤ suc f + length out) [
          | zero ↦ omega arith
          | suc k ↦ omega (arith, length-decimal f (suc k) ((48 + n % 10) ∷ out))
        ]

pub length-u16_to_string : (n : ℕ) → length (u16_to_string n) ≤ 5
unfolding u16_to_string
length-u16_to_string n = omega (arith, length-decimal 5 n [])

digits_example : u16_to_string 30270 ≡ codes "30270"
unfolding u16_to_string
digits_example = refl
