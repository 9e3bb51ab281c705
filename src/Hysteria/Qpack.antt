-- ===== src/Hysteria/Qpack.antt =====
-- src/protocol/hysteria/qpack.rs: HTTP/3 requests in QPACK header blocks, and the response frame. A
-- Rust `String` is its bytes. `decode_huffman` is an argument.
mod Lines
pub mod Response
use elise_backend.Prelude.{
  ℕ, zero, suc, ◌+◌, ◌-◌, ◌*◌, ◌/◌, ◌%◌, ◌^◌, ◌≤◌, ◌<◌, ◌≡◌, refl, Bool, true, false, not, ◌||◌,
  ◌&&◌, Option, none, some, List, [], ◌∷◌, ◌++◌, arith, bit_and, ltb, ◌==◌, if◌then◌else◌, Io, ok,
  err, panic, unexpected_eof, ◌>>=◌, read_exact, length, get_elem?,
}
use elise_backend.Prelude.Text.{codes, bytes_eq, from_utf8, u16_to_string}
use elise_backend.Hysteria.Varint.{read_byte, write_quic_varint}
use elise_backend.Hysteria.QpackInt.{continuation, read_qpack_int, write_qpack_int}
use elise_backend.Hysteria.StaticTable.{qpack_static_table}

pub record Http3Request : Type 0 where
  pub method : List ℕ
  pub path : List ℕ
  pub authority : List ℕ
  pub headers : List (List ℕ × List ℕ)

abbrev pub default_request : Http3Request
default_request = record { method = []; path = []; authority = []; headers = [] }

-- `vec![0u8; len]`: a vector of more than `isize::MAX` bytes panics.
unfoldable pub allocate : ℕ → Io (Unit {0})
allocate len = if ltb len (2 ^ 63) then ok tt else panic

-- The chain of tests on the name that stands in each branch of `parse_qpack_headers`.
unfoldable pub set_header : Http3Request → List ℕ → List ℕ → Http3Request
set_header req name value =
    if bytes_eq name (codes ":method")
    then record req { method = value }
    else if bytes_eq name (codes ":path")
    then record req { path = value }
    else if bytes_eq name (codes ":authority")
        || (bytes_eq name (codes ":host") || bytes_eq name (codes "host"))
    then record req { authority = value }
    else record req { headers = req.headers ++ (name, value) ∷ [] }

module _ (decode_huffman : List ℕ → Io (List ℕ)) where
  unfoldable pub read_qpack_string : ℕ → ℕ → List ℕ → Io (List ℕ × List ℕ)
  read_qpack_string first_byte prefix_bits s = do
    let is_huffman = not (bit_and first_byte (2 ^ prefix_bits) == 0)
    (len, s₁) ← read_qpack_int first_byte prefix_bits s
    _ ← allocate len
    (raw, s₂) ← read_exact len s₁
    bytes ← if is_huffman then decode_huffman raw else ok raw
    text ← from_utf8 bytes
    ok (text, s₂)

  -- An indexed field line.
  pub indexed : ℕ → List ℕ → Http3Request → Io (Http3Request × List ℕ)
  indexed byte s req = do
    let is_static = not (bit_and byte 0x40 == 0)
    (idx, s₁) ← read_qpack_int byte 6 s
    let entry = get_elem? qpack_static_table idx
    ok (elim entry [
      | none ↦ (req, s₁)
      | some (name, val) ↦ (if is_static then set_header req name val else req, s₁)
    ])

  static_name : Bool → ℕ → List ℕ
  static_name is_static idx = elim (get_elem? qpack_static_table idx) [
    | none ↦ codes "unknown"
    | some (name, val) ↦ if is_static then name else codes "unknown"
  ]

  -- A literal field line with a name reference.
  pub named : ℕ → List ℕ → Http3Request → Io (Http3Request × List ℕ)
  unfolding static_name
  named byte s req = do
    (name_idx, s₁) ← read_qpack_int byte 4 s
    let name = static_name (not (bit_and byte 0x10 == 0)) name_idx
    (len_b, s₂) ← read_byte s₁
    (value, s₃) ← read_qpack_string len_b 7 s₂
    ok (set_header req name value, s₃)

  -- A literal field line with a literal name.
  pub literal : ℕ → List ℕ → Http3Request → Io (Http3Request × List ℕ)
  literal byte s req = do
    (name, s₁) ← read_qpack_string byte 3 s
    (val_b, s₂) ← read_byte s₁
    (value, s₃) ← read_qpack_string val_b 7 s₂
    ok (set_header req name value, s₃)

  -- One round of the loop of `parse_qpack_headers`; `none` is its `break`.
  pub field_line : ℕ → List ℕ → Http3Request → Io (Option (Http3Request × List ℕ))
  unfolding indexed named literal
  field_line byte s req =
      if not (bit_and byte 0x80 == 0)
      then (do r ← indexed byte s req; ok (some r))
      else if not (bit_and byte 0x40 == 0)
      then (do r ← named byte s req; ok (some r))
      else if not (bit_and byte 0x20 == 0)
      then (do r ← literal byte s req; ok (some r))
      else ok none

  -- The loop takes a byte at least each round, so the bytes are rounds enough.
  pub field_lines : ℕ → List ℕ → Http3Request → Io Http3Request
  field_lines fuel [] req = ok req
  field_lines zero (byte ∷ s) req = ok req
  field_lines (suc fuel) (byte ∷ s) req = do
    line ← field_line byte s req
    elim line [ none ↦ ok req | some (req', s') ↦ field_lines fuel s' req' ]

  -- The required insert count and the base, whose values are not used.
  pub skip_prefix : List ℕ → Io (List ℕ)
  skip_prefix s = do
    (first, s₁) ← read_byte s
    (ric, s₂) ← if first == 0xff then continuation s₁ first 0 else ok (first, s₁)
    (s_db, s₃) ← read_byte s₂
    let db = bit_and s_db 0x7f
    (base, s₄) ← if db == 0x7f then continuation s₃ db 0 else ok (db, s₃)
    ok s₄

  unfoldable pub parse_qpack_headers : List ℕ → Io Http3Request
  unfolding skip_prefix field_lines field_line
  parse_qpack_headers payload =
      if ltb (length payload) 2
      then err unexpected_eof
      else do s ← skip_prefix payload; field_lines (length s) s default_request

unfoldable pub write_qpack_literal : List ℕ → List ℕ → List ℕ → List ℕ
write_qpack_literal out name value =
    let out₁ = write_qpack_int out 0x20 3 (length name) ++ name in
    write_qpack_int out₁ 0x00 7 (length value) ++ value

unfoldable pub write_headers : List ℕ → List (List ℕ × List ℕ) → List ℕ
unfolding write_qpack_literal
write_headers out [] = out
write_headers out ((name, value) ∷ headers) =
    write_headers (write_qpack_literal out name value) headers

-- The local `qpack_payload` of `encode_h3_response`.
unfoldable pub qpack_payload : ℕ → List (List ℕ × List ℕ) → List ℕ
unfolding write_headers
qpack_payload status headers =
    write_headers (write_qpack_literal (0 ∷ 0 ∷ []) (codes ":status") (u16_to_string status))
      headers

abbrev pub h3_frame_headers : ℕ
h3_frame_headers = 0x01

unfoldable pub encode_h3_response : ℕ → List (List ℕ × List ℕ) → List ℕ
encode_h3_response status headers =
    let payload = qpack_payload status headers in
    let frame = (write_quic_varint [] h3_frame_headers).0 in
    (write_quic_varint frame (length payload)).0 ++ payload
