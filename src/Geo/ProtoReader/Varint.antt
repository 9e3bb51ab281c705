-- ===== src/Geo/ProtoReader/Varint.antt =====
-- Integers and byte strings as Protocol Buffers encode them, read back by `ProtoReader`.
use native.Mathlib.Nat.{mod-eq_of_lt}
use mathlib.Core.Path.{subst}
use elise_backend.Prelude.{
  ℕ, zero, suc, ◌+◌, ◌*◌, ◌/◌, ◌%◌, ◌^◌, ◌≤◌, ◌<◌, ◌≡◌, refl, sym, ap, ◌∙◌, true, false, Option,
  none, some, List, [], ◌∷◌, ◌++◌, arith, bit_and, bit_or, ltb, leb, ◌==◌, if◌then◌else◌, length,
  Io, ok, panic, Bool-cases, inl, inr, length-append, ltb→lt, lt→ltb, le→ltb, lt→leb,
}
use elise_backend.Prelude.Bytes.{
  bit_or_below, mask_7f, bit_80_clear, bit_80_set, table_below, agree_below,
}
use elise_backend.Prelude.Position.{At, At-append, At-index, At-slice}
use elise_backend.Geo.ProtoReader.{
  ProtoReader, read_varint_from, read_varint, take_bytes, read_bytes,
}
use elise_backend.Geo.ProtoReader.Bounds.{take_bytes-wrapped}

-- The base-128 digits of a number, the lowest first, in at most `suc rounds` bytes.
abbrev digits_128 : ℕ → ℕ → List ℕ
digits_128 zero n = n % 128 ∷ []
digits_128 (suc rounds) n = elim (ltb n 128) [
  | true ↦ n ∷ []
  | false ↦ (n % 128 + 128) ∷ digits_128 rounds (n / 128)
]

abbrev pub encoded : ℕ → List ℕ
encoded n = digits_128 9 n

-- The reader at another position.
abbrev pub at : ProtoReader → ℕ → ProtoReader
at r pos = record r { pos = pos }

-- What fits `suc rounds` digits.
abbrev digits_cap : ℕ → ℕ
digits_cap zero = 128
digits_cap (suc rounds) = 128 * digits_cap rounds

pow_7 : (k : ℕ) → k < 64 → 2 ^ (k + 7) ≡ 128 * 2 ^ k
unfolding agree_below
pow_7 = table_below _ _ 64 refl

scaled_le : (a n p : ℕ) → a ≤ n → a * p ≤ n * p
scaled_le a n p h = grind arith

scaled_lt : (r a p : ℕ) → r < p → a < 128 → r + a * p < 128 * p
scaled_lt r a p h k = grind arith

regroup : (r q m p : ℕ) → (r + m * p) + q * (128 * p) ≡ r + (128 * q + m) * p
regroup r q m p = grind arith

-- The two parts of a number on top of the bits that were read.
parts : (r n p : ℕ) → (r + n % 128 * p) + n / 128 * (128 * p) ≡ r + n * p
parts r n p =
    let whole : n ≡ 128 * (n / 128) + n % 128 = omega arith in
    regroup r (n / 128) (n % 128) p ∙ ap (λ k. r + k * p) (sym whole)

digits-small : (rounds n : ℕ) → ltb n 128 ≡ true → digits_128 (suc rounds) n ≡ n ∷ []
digits-small rounds n e = rw (digits_128, e) refl

digits-large :
    (rounds n : ℕ)
    → ltb n 128 ≡ false
    → digits_128 (suc rounds) n ≡ (n % 128 + 128) ∷ digits_128 rounds (n / 128)
digits-large rounds n e = rw (digits_128, e) refl

shorter :
    (pos : ℕ) (rest d : List ℕ)
    → length d ≡ suc (length rest)
    → pos + 1 + length rest ≡ pos + length d
shorter pos rest d h = omega (arith, h)

again : (m : ℕ) → m < 128 → (m + 128) % 128 ≡ m
again m h = omega arith

module _ (r : ProtoReader) where
  placed :
      {v w p q : ℕ}
      → v ≡ w
      → p ≡ q
      → Path (Io (Option ℕ × ProtoReader)) (ok (some v, at r p)) (ok (some w, at r q))
  placed h k = rw (h, k) refl

  -- One round on a byte that is there.
  round :
      (rounds result shift pos b : ℕ) (s : List ℕ)
      → At r.buf pos (b ∷ s)
      → read_varint_from (suc rounds) result shift (at r pos) ≡ (
          let result' = bit_or result (bit_and b 0x7f * 2 ^ shift % 2 ^ 64) in
          if bit_and b 0x80 == 0
          then ok (some result', at r (pos + 1))
          else if leb 64 (shift + 7)
          then ok (none, at r (pos + 1))
          else read_varint_from rounds result' (shift + 7) (at r (pos + 1)))
  unfolding read_varint_from
  round rounds result shift pos b s h =
      rw (lt→ltb pos (length r.buf) (omega (arith, h.0)), At-index r.buf pos b s h) refl

  last :
      (rounds n result shift pos : ℕ) (s : List ℕ)
      → n < 128
      → result < 2 ^ shift
      → result + n * 2 ^ shift < 2 ^ 64
      → At r.buf pos (n ∷ s)
      → read_varint_from (suc rounds) result shift (at r pos)
        ≡ ok (some (result + n * 2 ^ shift), at r (pos + 1))
  last rounds n result shift pos s hn hr hw h =
      let low : n % 128 ≡ n = omega arith in
      let word : n * 2 ^ shift % 2 ^ 64 ≡ n * 2 ^ shift = mod-eq_of_lt (omega arith) in
      round rounds result shift pos n s h
      ∙ rw (mask_7f n (omega arith), low, word, bit_or_below shift n result hr, bit_80_clear n hn)
          refl

  -- The digits that are left, on top of the bits that were read.
  read_digits :
      (rounds n result shift pos : ℕ) (s : List ℕ)
      → n < digits_cap rounds
      → shift + 7 * rounds ≤ 63
      → result < 2 ^ shift
      → result + n * 2 ^ shift < 2 ^ 64
      → At r.buf pos (digits_128 rounds n ++ s)
      → read_varint_from (suc rounds) result shift (at r pos)
        ≡ ok (some (result + n * 2 ^ shift), at r (pos + length (digits_128 rounds n)))
  read_digits zero n result shift pos s hn hs hr hw h =
      let h' : At r.buf pos (n ∷ s) = subst (λ d. At r.buf pos (d ∷ s)) (omega arith) h in
      last 0 n result shift pos s hn hr hw h'
  read_digits (suc rounds) n result shift pos s hn hs hr hw h = elim (Bool-cases (ltb n 128)) [
    | inl e ↦
        let small = ltb→lt n 128 e in
        let d = digits-small rounds n e in
        let h' : At r.buf pos (n ∷ s) = subst (λ l. At r.buf pos (l ++ s)) d h in
        last (suc rounds) n result shift pos s small hr hw h'
        ∙ ap (λ l. ok (some (result + n * 2 ^ shift), at r (pos + length l))) (sym d)
    | inr e ↦
        let low : ℕ = n % 128 in
        let p : ℕ = 2 ^ shift in
        let b : ℕ = low + 128 in
        let rest : List ℕ = digits_128 rounds (n / 128) in
        let d = digits-large rounds n e in
        let h' : At r.buf pos (b ∷ (rest ++ s)) = subst (λ l. At r.buf pos (l ++ s)) d h in
        let next = At-append r.buf pos (b ∷ []) (rest ++ s) (pos + 1) h' refl in
        let below : low * p ≤ n * p = scaled_le low n p (omega arith) in
        let word : low * p % 2 ^ 64 ≡ low * p = mod-eq_of_lt (omega (arith, below)) in
        let mask : bit_and b 0x7f ≡ low = mask_7f b (omega arith) ∙ again low (omega arith) in
        let joined : bit_or result (low * p) ≡ result + low * p =
          bit_or_below shift low result hr in
        let p_7 : 2 ^ (shift + 7) ≡ 128 * p = pow_7 shift (omega arith) in
        let total : (result + low * p) + n / 128 * 2 ^ (shift + 7) ≡ result + n * p =
          ap (λ q. (result + low * p) + n / 128 * q) p_7 ∙ parts result n p in
        (round (suc rounds) result shift pos b (rest ++ s) h'
          ∙ rw
              (
                mask,
                word,
                joined,
                bit_80_set low (omega arith),
                lt→leb 64 (shift + 7) (omega arith),
              )
              (read_digits rounds (n / 128) (result + low * p) (shift + 7) (pos + 1) s
                  (omega (arith, hn)) (omega (arith, hs))
                  (omega (arith, p_7, scaled_lt result low p hr (omega arith)))
                  (omega (arith, total, hw)) next
                ∙ placed total (shorter (pos) rest (digits_128 (suc rounds) n) (ap length d))))
  ]

-- Every `u64` reads back from its encoding, and the reader stands behind it.
pub read_varint-encoded :
    (r : ProtoReader) (n : ℕ) (s : List ℕ)
    → n < 2 ^ 64
    → At r.buf r.pos (encoded n ++ s)
    → read_varint r ≡ ok (some n, at r (r.pos + length (encoded n)))
unfolding read_varint
read_varint-encoded r n s h a =
    read_digits r 9 n 0 0 r.pos s (omega arith) (omega arith) (omega arith) (omega arith) a
    ∙ placed r (omega arith) refl

-- A byte string behind its encoded length reads back, and the reader stands behind it, in a buffer
-- of less than 2 ^ 63 bytes.
pub read_bytes-encoded :
    (r : ProtoReader) (b s : List ℕ)
    → length r.buf < 2 ^ 63
    → At r.buf r.pos (encoded (length b) ++ (b ++ s))
    → read_bytes r ≡ ok (some b, at r (r.pos + length (encoded (length b)) + length b))
unfolding read_bytes take_bytes
read_bytes-encoded r b s short a =
    let head : List ℕ = encoded (length b) in
    let pos : ℕ = r.pos + length head in
    let a' = At-append r.buf r.pos head (b ++ s) pos a refl in
    let size : pos + length b ≤ length r.buf = omega (arith, a'.0, length-append b s) in
    let end : (pos + length b) % 2 ^ 64 ≡ pos + length b = mod-eq_of_lt (omega (arith, size)) in
    rw
      (
        read_varint-encoded r (length b) (b ++ s) (omega (arith, size)) a,
        end,
        le→ltb (length r.buf) (pos + length b) size,
        At-slice r.buf pos b s (pos + length b) a' refl,
      )
      refl

-- A length that wraps around 2 ^ 64 makes `read_bytes` panic, in a buffer of less than 2 ^ 63 bytes.
pub read_bytes-wrapped :
    (r : ProtoReader) (len : ℕ) (s : List ℕ)
    → length r.buf < 2 ^ 63
    → len < 2 ^ 64
    → At r.buf r.pos (encoded len ++ s)
    → 2 ^ 64 ≤ r.pos + length (encoded len) + len
    → read_bytes r ≡ panic
unfolding read_bytes
read_bytes-wrapped r len s short word a wraps =
    let pos : ℕ = r.pos + length (encoded len) in
    let a' = At-append r.buf r.pos (encoded len) s pos a refl in
    rw
      (
        read_varint-encoded r len s word a,
        take_bytes-wrapped len (at r pos) (omega (arith, a'.0)) (omega (arith, a'.0)) word wraps,
      )
      refl
