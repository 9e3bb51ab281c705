-- ===== src/Hysteria/QpackInt.antt =====
-- src/protocol/hysteria/qpack.rs: `read_qpack_int` and `write_qpack_int`.
pub mod RoundTrip
use native.Mathlib.Nat.{pow-suc, one-le-pow}
use native.Mathlib.Numerals.{towards_suc}
use elise_backend.Prelude.{
  ℕ, zero, suc, ◌+◌, ◌-◌, ◌*◌, ◌/◌, ◌%◌, ◌^◌, ◌≤◌, ◌<◌, ◌≡◌, refl, ap, ◌∙◌, Bool, true, false, List,
  [], ◌∷◌, ◌++◌, arith, bit_and, bit_or, ltb, ◌==◌, if◌then◌else◌, Io, ok, err, unexpected_eof,
  Bool-cases, inl, inr, ltb→lt, ltb→le,
}
use elise_backend.Prelude.Bytes.{
  mask_of_field, bit_and_mask, bit_or_above, or_80_low, bit_80_clear, bit_80_set, mask_7f,
}

-- The loop over continuation bytes: `usize` arithmetic of 64 bits, whose shift amount wraps too.
unfoldable pub continuation : List ℕ → ℕ → ℕ → Io (ℕ × List ℕ)
continuation [] val m = err unexpected_eof
continuation (b ∷ s) val m =
    let val' = (val + bit_and b 0x7f * 2 ^ (m % 64) % 2 ^ 64) % 2 ^ 64 in
    let rest = continuation s val' (m + 7) in if bit_and b 0x80 == 0 then ok (val', s) else rest

unfoldable pub read_qpack_int : ℕ → ℕ → List ℕ → Io (ℕ × List ℕ)
read_qpack_int first_byte prefix_bits s =
    let mask = 2 ^ prefix_bits - 1 in
    let val = bit_and first_byte mask in if val == mask then continuation s val 0 else ok (val, s)

-- The loop `while val >= 128`; a round at least halves `val`, so `val` rounds are enough.
write_continuation : ℕ → ℕ → List ℕ
write_continuation zero val = val % 256 ∷ []
write_continuation (suc fuel) val = elim (ltb val 128) [
  | true ↦ val % 256 ∷ []
  | false ↦ bit_or (bit_and val 0x7f % 256) 0x80 ∷ write_continuation fuel (val / 2 ^ 7)
]

unfoldable pub write_qpack_int : List ℕ → ℕ → ℕ → ℕ → List ℕ
unfolding write_continuation
write_qpack_int out prefix prefix_bits val =
    let max_prefix = 2 ^ prefix_bits - 1 in
    if ltb val max_prefix
    then out ++ bit_or prefix (val % 256) ∷ []
    else out
      ++ bit_or prefix (max_prefix % 256) ∷ write_continuation (val - max_prefix) (val - max_prefix)
