-- ===== src/Hysteria/Qpack/Lines.antt =====
-- One literal field line: what `write_qpack_literal` writes, read back.
use elise_backend.Prelude.{
  ℕ, ◌+◌, ◌-◌, ◌^◌, ◌<◌, ◌≡◌, refl, true, some, List, [], ◌∷◌, ◌++◌, arith, bit_and, Io, ok,
  read_exact, length, length-append, take-length, drop-length,
}
use mathlib.Core.List.{append_assoc}
use elise_backend.Prelude.Bytes.{bit_80_clear, table_below, agree_below}
use elise_backend.Prelude.Text.{is_utf8, from_utf8}
use elise_backend.Hysteria.Varint.{read_byte}
use elise_backend.Hysteria.QpackInt.{read_qpack_int, write_qpack_int}
use elise_backend.Hysteria.QpackInt.RoundTrip.{Written, read-write_qpack_int}
use elise_backend.Hysteria.Qpack.{
  Http3Request, allocate, set_header, read_qpack_string, literal, field_line, write_qpack_literal,
}

pub read_exact-append : (xs ys : List ℕ) → read_exact (length xs) (xs ++ ys) ≡ ok (xs, ys)
unfolding read_exact
read_exact-append xs ys = ground (arith, length-append xs ys, take-length xs ys, drop-length xs ys)

pub write_qpack_int-append :
    (out : List ℕ) (p k v : ℕ) → write_qpack_int out p k v ≡ out ++ write_qpack_int [] p k v
unfolding write_qpack_int
write_qpack_int-append out p k v = ground arith

-- The flags of a literal name that is not Huffman coded.
flag_80 : (b : ℕ) → b < 8 → bit_and (32 + b) 0x80 ≡ 0
unfolding agree_below
flag_80 = table_below _ _ 8 refl

flag_40 : (b : ℕ) → b < 8 → bit_and (32 + b) 0x40 ≡ 0
unfolding agree_below
flag_40 = table_below _ _ 8 refl

flag_20 : (b : ℕ) → b < 8 → bit_and (32 + b) 0x20 ≡ 32
unfolding agree_below
flag_20 = table_below _ _ 8 refl

flag_08 : (b : ℕ) → b < 8 → bit_and (32 + b) 0x08 ≡ 0
unfolding agree_below
flag_08 = table_below _ _ 8 refl

pub write_literal-append :
    (out name value : List ℕ)
    → write_qpack_literal out name value
      ≡ out
        ++ (write_qpack_int [] 0x20 3 (length name)
            ++ (name ++ (write_qpack_int [] 0x00 7 (length value) ++ value)))
unfolding write_qpack_literal
write_literal-append out name value =
    rw
      (
        write_qpack_int-append out 0x20 3 (length name),
        write_qpack_int-append ((out ++ write_qpack_int [] 0x20 3 (length name)) ++ name) 0x00 7
            (length value),
      )
      (simp append_assoc)

abbrev pub IsText : List ℕ → Type 0
IsText s = (length s < 2 ^ 63) × (is_utf8 s ≡ true)

module _ (decode_huffman : List ℕ → Io (List ℕ)) where
  string_lem :
      (first k : ℕ) (s text rest : List ℕ)
      → bit_and first (2 ^ k) ≡ 0
      → read_qpack_int first k s ≡ ok (length text, text ++ rest)
      → length text < 2 ^ 63
      → is_utf8 text ≡ true
      → read_qpack_string decode_huffman first k s ≡ ok (text, rest)
  unfolding read_qpack_string allocate from_utf8
  string_lem first k s text rest hb hr hl hu = ground (arith, read_exact-append text rest)

  -- A string behind the first byte of its length.
  read_Written :
      (q k : ℕ) (text rest : List ℕ) (a : Written q k (length text))
      → IsText text
      → bit_and a.first (2 ^ k) ≡ 0
      → read_qpack_string decode_huffman a.first k (a.tail ++ (text ++ rest)) ≡ ok (text, rest)
  read_Written q k text rest a h flag =
      string_lem a.first k _ text rest flag (a.reads (text ++ rest)) h.0 h.1

  -- One field line, behind its first byte.
  pub literal_lem :
      (name value rest : List ℕ) (req : Http3Request) (a : Written 4 3 (length name))
      → IsText name
      → IsText value
      → field_line decode_huffman a.first
          (a.tail ++ (name ++ (write_qpack_int [] 0x00 7 (length value) ++ (value ++ rest))))
          req
        ≡ ok (some (set_header req name value, rest))
  unfolding field_line literal read_byte
  literal_lem name value rest req a hn hv =
      let b = read-write_qpack_int 7 0 (length value) (omega arith) hv.0 in
      let low : ℕ = a.first - 32 in
      let e : a.first ≡ 32 + low = omega (arith, a.flags) in
      let small : low < 8 = omega (arith, a.flags) in
      let small_b : b.first < 128 = omega (arith, b.flags) in
      let tail : List ℕ = b.tail ++ (value ++ rest) in
      let r₁ = read_Written 4 3 name (b.first ∷ tail) a hn (rw e (flag_08 low small)) in
      let r₂ = read_Written 0 7 value rest b hv (bit_80_clear b.first small_b) in
      let f₁ : bit_and a.first 0x80 ≡ 0 = rw e (flag_80 low small) in
      let f₂ : bit_and a.first 0x40 ≡ 0 = rw e (flag_40 low small) in
      let f₃ : bit_and a.first 0x20 ≡ 32 = rw e (flag_20 low small) in
      rw (b.written, f₁, f₂, f₃, r₁, r₂) refl
