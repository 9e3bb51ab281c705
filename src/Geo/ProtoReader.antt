-- ===== src/Geo/ProtoReader.antt =====
-- src/geo/dat.rs: `ProtoReader`, in 64-bit `usize` arithmetic that wraps.
pub mod Bounds
pub mod Varint
use elise_backend.Prelude.{
  ℕ, zero, suc, ◌+◌, ◌-◌, ◌*◌, ◌/◌, ◌%◌, ◌^◌, Bool, true, false, ◌&&◌, Option, none, some, List, [],
  ◌∷◌, bit_and, bit_or, ltb, leb, ◌==◌, if◌then◌else◌, length, Io, ok, err, panic, ◌>>=◌, index,
  slice,
}
use elise_backend.Prelude.Text.{is_utf8}

pub record ProtoReader : Type 0 where
  pub buf : List ℕ
  pub pos : ℕ

unfoldable pub new : List ℕ → ProtoReader
new buf = record { buf = buf; pos = 0 }

unfoldable pub is_eof : ProtoReader → Bool
is_eof r = leb (length r.buf) r.pos

unfoldable pub remaining : ProtoReader → ℕ
remaining r = length r.buf - r.pos

-- What a read gives: a value or none, and the reader, which may have moved in either case.
abbrev pub Read {ℓ} : Type ℓ → Type ℓ
Read A = Io (Option A × ProtoReader)

-- The loop of `read_varint`; the shift reaches 64 in the tenth round.
unfoldable pub read_varint_from : ℕ → ℕ → ℕ → ProtoReader → Read ℕ
read_varint_from zero result shift r = ok (none, r)
read_varint_from (suc rounds) result shift r =
    if ltb r.pos (length r.buf)
    then (do
      b ← index r.buf r.pos
      let r' : ProtoReader = record r { pos = r.pos + 1 }
      let result' = bit_or result (bit_and b 0x7f * 2 ^ shift % 2 ^ 64)
      let more = read_varint_from rounds result' (shift + 7) r'
      if bit_and b 0x80 == 0
          then ok (some result', r')
          else if leb 64 (shift + 7)
          then ok (none, r')
          else more)
    else ok (none, r)

unfoldable pub read_varint : ProtoReader → Read ℕ
unfolding read_varint_from
read_varint r = read_varint_from 10 0 0 r

-- `?` on what was read.
abbrev pub and_then {ℓ κ} : {A : Type ℓ} {B : Type κ} → Read A → (A → ProtoReader → Read B) → Read B
and_then read k = read >>= λ x. elim x.0 [ none ↦ ok (none, x.1) | some a ↦ k a x.1 ]

unfoldable pub read_tag : ProtoReader → Read (ℕ × ℕ)
read_tag r =
    and_then (read_varint r) (λ var r'. ok (some (var / 2 ^ 3 % 2 ^ 32, bit_and var 0x07), r'))

-- `self.pos + len`
abbrev pub end_of : ProtoReader → ℕ → ℕ
end_of r len = (r.pos + len) % 2 ^ 64

unfoldable pub take_bytes : ℕ → ProtoReader → Read (List ℕ)
take_bytes len r = if ltb (length r.buf) (end_of r len) then ok (none, r) else (do
  bytes ← slice r.buf r.pos (end_of r len)
  ok (some bytes, record r { pos = end_of r len }))

unfoldable pub read_bytes : ProtoReader → Read (List ℕ)
unfolding take_bytes
read_bytes r = and_then (read_varint r) take_bytes

abbrev keep_text : List ℕ → Option (List ℕ)
keep_text b = if is_utf8 b then some b else none

unfoldable pub read_string : ProtoReader → Read (List ℕ)
read_string r = and_then (read_bytes r) (λ b r'. ok (keep_text b, r'))

-- `pos += n` if that stays within the buffer.
unfoldable pub advance : ℕ → ProtoReader → Bool × ProtoReader
advance n r =
    if leb (end_of r n) (length r.buf) then (true, record r { pos = end_of r n }) else (false, r)

unfoldable pub skip_field : ℕ → ProtoReader → Io (Bool × ProtoReader)
unfolding advance
skip_field wire_type r =
    let varint = read_varint r in
    if wire_type == 0
    then (varint >>= λ x. elim x.0 [ none ↦ ok (false, x.1) | some v ↦ ok (true, x.1) ])
    else if wire_type == 1
    then ok (advance 8 r)
    else if wire_type == 2
    then (varint >>= λ x. elim x.0 [ none ↦ ok (false, x.1) | some len ↦ ok (advance len x.1) ])
    else if wire_type == 5
    then ok (advance 4 r)
    else ok (false, r)
