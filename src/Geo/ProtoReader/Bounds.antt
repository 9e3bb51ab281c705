-- ===== src/Geo/ProtoReader/Bounds.antt =====
-- Where `ProtoReader` stays within its buffer, and where it does not.
use elise_backend.Prelude.{
  ℕ, zero, suc, ◌+◌, ◌*◌, ◌%◌, ◌^◌, ◌≤◌, ◌<◌, ◌≡◌, refl, ap, Bool, true, false, Option, none, some,
  arith, bit_and, bit_or, ltb, leb, ◌==◌, length, ok, panic, slice, Safe, bind-Safe, if-Safe,
  weaken-Safe, Bool-cases, inl, inr, ltb→lt, leb→le, le→ltb, lt→leb,
}
use elise_backend.Prelude.Position.{index-below}
use elise_backend.Geo.ProtoReader.{
  ProtoReader, read_varint_from, read_varint, end_of, take_bytes, advance, skip_field,
}

-- The same buffer, further on or in the same place, and within it.
abbrev pub Onward : ProtoReader → ProtoReader → Type 0
Onward r r' = (r'.buf ≡ r.buf) × (r.pos ≤ r'.pos) × (r'.pos ≤ length r.buf)

read_varint_from-Safe :
    (rounds result shift : ℕ) (r : ProtoReader)
    → r.pos ≤ length r.buf
    → Safe (λ x. Onward r x.1) (read_varint_from rounds result shift r)
unfolding read_varint_from
read_varint_from-Safe zero result shift r h = (refl, omega arith, h)
read_varint_from-Safe (suc rounds) result shift r h =
    let P : Option ℕ × ProtoReader → Type 0 = λ x. Onward r x.1 in
    let r' : ProtoReader = record r { pos = r.pos + 1 } in
    if-Safe P (ltb r.pos (length r.buf)) _ _
      (λ e.
        let l = ltb→lt r.pos (length r.buf) e in
        let i = index-below r.buf r.pos l in
        let here : Onward r r' = (refl, omega arith, omega arith) in
        rw (i.1) (
          if-Safe P (bit_and i.0 0x80 == 0) _ _ (λ _. here)
            (λ _.
              if-Safe P (leb 64 (shift + 7)) _ _ (λ _. here)
                (λ _.
                  weaken-Safe (λ x. Onward r' x.1) P _
                    (read_varint_from-Safe rounds
                      (bit_or result (bit_and i.0 0x7f * 2 ^ shift % 2 ^ 64)) (shift + 7) r'
                      (omega arith))
                    (λ x o. (o.0, omega (arith, o.1), o.2))))))
      (λ _. (refl, omega arith, h))

read_varint-Safe :
    (r : ProtoReader) → r.pos ≤ length r.buf → Safe (λ x. Onward r x.1) (read_varint r)
unfolding read_varint
read_varint-Safe r h = read_varint_from-Safe 10 0 0 r h

-- A length that wraps to an end in front of the position passes the guard, and the slice panics.
pub take_bytes-wrapped :
    (len : ℕ) (r : ProtoReader)
    → r.pos < 2 ^ 63
    → r.pos ≤ length r.buf
    → len < 2 ^ 64
    → 2 ^ 64 ≤ r.pos + len
    → take_bytes len r ≡ panic
unfolding take_bytes slice
take_bytes-wrapped len r small inside word wraps =
    let before : end_of r len < r.pos = omega arith in
    rw
      (
        le→ltb (length r.buf) (end_of r len) (omega (arith, before)),
        lt→leb r.pos (end_of r len) before,
      )
      refl

-- The same buffer, and a position within it.
abbrev pub Within : ProtoReader → ProtoReader → Type 0
Within r r' = (r'.buf ≡ r.buf) × (r'.pos ≤ length r.buf)

advance-Within : (n : ℕ) (r r' : ProtoReader) → Within r r' → Within r (advance n r').1
unfolding advance
advance-Within n r r' w = elim (Bool-cases (leb (end_of r' n) (length r'.buf))) [
  | inl e ↦ rw e (w.0, omega (arith, leb→le _ _ e, ap length w.0))
  | inr e ↦ rw e w
]

-- Skipping a field of any wire type never panics, and the reader stays within its buffer.
pub skip_field-Safe :
    (wire_type : ℕ) (r : ProtoReader)
    → r.pos ≤ length r.buf
    → Safe (λ x. Within r x.1) (skip_field wire_type r)
unfolding skip_field
skip_field-Safe wire_type r h =
    let P : Bool × ProtoReader → Type 0 = λ x. Within r x.1 in
    let here : Within r r = (refl, h) in
    if-Safe P (wire_type == 0) _ _
      (λ _.
        bind-Safe (λ x. Onward r x.1) P (read_varint r) _ (read_varint-Safe r h)
          (λ x o. read_only x.0 x.1 o))
      (λ _.
        if-Safe P (wire_type == 1) _ _ (λ _. advance-Within 8 r r here)
          (λ _.
            if-Safe P (wire_type == 2) _ _
              (λ _.
                bind-Safe (λ x. Onward r x.1) P (read_varint r) _ (read_varint-Safe r h)
                  (λ x o. then_skip x.0 x.1 o))
              (λ _. if-Safe P (wire_type == 5) _ _ (λ _. advance-Within 4 r r here) (λ _. here))))
  where
    read_only :
        (v : Option ℕ) (r' : ProtoReader)
        → Onward r r'
        → Safe {A = Bool × ProtoReader}
            (λ x. Within r x.1)
            (elim v [ none ↦ ok (false, r') | some n ↦ ok (true, r') ])
    read_only none r' o = (o.0, o.2)
    read_only (some n) r' o = (o.0, o.2)

    then_skip :
        (v : Option ℕ) (r' : ProtoReader)
        → Onward r r'
        → Safe {A = Bool × ProtoReader}
            (λ x. Within r x.1)
            (elim v [ none ↦ ok (false, r') | some n ↦ ok (advance n r') ])
    then_skip none r' o = (o.0, o.2)
    then_skip (some n) r' o = advance-Within n r r' (o.0, o.2)
