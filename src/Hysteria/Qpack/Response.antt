-- ===== src/Hysteria/Qpack/Response.antt =====
-- The response that `encode_h3_response` frames, read back by the parser.
use elise_backend.Prelude.{
  ℕ, zero, suc, ◌^◌, ◌≤◌, ◌<◌, ◌≡◌, refl, sym, ap, ◌∙◌, Bool, false, ◌||◌, List, [], ◌∷◌, ◌++◌,
  arith, Io, ok, le→ltb, ◌>>=◌, read_exact, length, length-append,
}
use mathlib.Core.List.{append_assoc, append-nil}
use elise_backend.Prelude.Text.{codes, bytes_eq, is_utf8, u16_to_string}
use elise_backend.Hysteria.Varint.{read_byte}
use elise_backend.Hysteria.QpackInt.{write_qpack_int}
use elise_backend.Hysteria.QpackInt.RoundTrip.{Written, read-write_qpack_int}
use elise_backend.Hysteria.Qpack.{
  Http3Request, default_request, set_header, field_lines, skip_prefix, parse_qpack_headers,
  write_qpack_literal, write_headers, qpack_payload,
}
use elise_backend.Hysteria.Qpack.{encode_h3_response, h3_frame_headers}
use elise_backend.Hysteria.Varint.{read_quic_varint, write_quic_varint}
use elise_backend.Hysteria.Varint.RoundTrip.{read-write_quic_varint, write_quic_varint-len}
use native.Mathlib.Nat.{mod-eq_of_lt}
use elise_backend.Prelude.Text.{ascii-is_utf8, length-u16_to_string, u16_to_string-ascii}
use elise_backend.Hysteria.Qpack.Lines.{
  read_exact-append, write_literal-append, IsText, literal_lem,
}

-- What the parser does with field lines that carry these names and values.
abbrev pub apply_headers : Http3Request → List (List ℕ × List ℕ) → Http3Request
apply_headers req [] = req
apply_headers req ((name, value) ∷ headers) = apply_headers (set_header req name value) headers

abbrev pub AreText : List (List ℕ × List ℕ) → Type 0
AreText [] = Unit {0}
AreText ((name, value) ∷ headers) = IsText name × IsText value × AreText headers

write_headers-append :
    (out : List ℕ) (headers : List (List ℕ × List ℕ))
    → write_headers out headers ≡ out ++ write_headers [] headers
unfolding write_headers
write_headers-append out [] = sym (append-nil out)
write_headers-append out ((name, value) ∷ headers) =
    rw
      (
        write_headers-append (write_qpack_literal out name value) headers,
        write_headers-append (write_qpack_literal [] name value) headers,
        write_literal-append out name value,
        write_literal-append [] name value,
      )
      (simp append_assoc)

-- A line in front of others, by its first byte.
line_shape :
    (name value : List ℕ) (headers : List (List ℕ × List ℕ)) (a : Written 4 3 (length name))
    → write_headers [] ((name, value) ∷ headers)
      ≡ a.first
        ∷ (a.tail
            ++ (name
                ++ (write_qpack_int [] 0x00 7 (length value)
                    ++ (value ++ write_headers [] headers))))
unfolding write_headers
line_shape name value headers a =
    rw
      (
        write_headers-append (write_qpack_literal [] name value) headers,
        write_literal-append [] name value,
        a.written,
      )
      (simp append_assoc)

line_longer :
    (name value : List ℕ) (headers : List (List ℕ × List ℕ)) (a : Written 4 3 (length name))
    → length (write_headers [] headers) < length (write_headers [] ((name, value) ∷ headers))
line_longer name value headers a = rw (line_shape name value headers a) (
    rw
      (
        length-append a.tail,
        length-append name,
        length-append (write_qpack_int [] 0x00 7 (length value)),
        length-append value,
      )
      (omega arith))

module _ (decode_huffman : List ℕ → Io (List ℕ)) where
  field_lines-headers :
      (headers : List (List ℕ × List ℕ)) (fuel : ℕ) (req : Http3Request)
      → AreText headers
      → length (write_headers [] headers) ≤ fuel
      → field_lines decode_huffman fuel (write_headers [] headers) req
        ≡ ok (apply_headers req headers)
  unfolding field_lines
  field_lines-headers [] fuel req h hf = unfold write_headers in refl
  field_lines-headers ((name, value) ∷ headers) zero req h hf =
      let a = read-write_qpack_int 3 4 (length name) (omega arith) h.0.0 in
      absurd (omega (arith, line_longer name value headers a))
  field_lines-headers ((name, value) ∷ headers) (suc fuel) req h hf =
      let a = read-write_qpack_int 3 4 (length name) (omega arith) h.0.0 in
      rw (line_shape name value headers a) (
        rw (literal_lem decode_huffman name value (write_headers [] headers) req a h.0 h.1) (
          field_lines-headers headers fuel (set_header req name value) h.2
            (omega (arith, line_longer name value headers a))))

payload_shape :
    (status : ℕ) (headers : List (List ℕ × List ℕ))
    → qpack_payload status headers
      ≡ 0 ∷ 0 ∷ write_headers [] ((codes ":status", u16_to_string status) ∷ headers)
unfolding qpack_payload write_headers
payload_shape status headers =
    rw
      (
        write_headers-append
            (write_qpack_literal (0 ∷ 0 ∷ []) (codes ":status") (u16_to_string status)) headers,
        write_headers-append (write_qpack_literal [] (codes ":status") (u16_to_string status))
            headers,
        write_literal-append (0 ∷ 0 ∷ []) (codes ":status") (u16_to_string status),
        write_literal-append [] (codes ":status") (u16_to_string status),
      )
      refl

-- The names that the parser keeps as headers.
abbrev pub is_pseudo : List ℕ → Bool
is_pseudo name =
    (bytes_eq name (codes ":method") || bytes_eq name (codes ":path"))
    || (bytes_eq name (codes ":authority")
        || (bytes_eq name (codes ":host") || bytes_eq name (codes "host")))

abbrev pub ArePlain : List (List ℕ × List ℕ) → Type 0
ArePlain [] = Unit {0}
ArePlain ((name, value) ∷ headers) = (is_pseudo name ≡ false) × ArePlain headers

apply_headers-plain :
    (req : Http3Request) (headers : List (List ℕ × List ℕ))
    → ArePlain headers
    → apply_headers req headers ≡ record req { headers = req.headers ++ headers }
apply_headers-plain req [] h = ground (arith, append-nil req.headers)
apply_headers-plain req ((name, value) ∷ headers) h =
    let e : set_header req name value ≡ record req { headers = req.headers ++ (name, value) ∷ [] } =
      unfold set_header in ground arith in
    rw e (
      apply_headers-plain (record req { headers = req.headers ++ (name, value) ∷ [] }) headers h.1
      ∙ ap (λ (l : List (List ℕ × List ℕ)). record req { headers = l })
          (append_assoc req.headers ((name, value) ∷ []) headers))

status_IsText : (status : ℕ) → IsText (u16_to_string status)
status_IsText status =
    (omega (arith, length-u16_to_string status), ascii-is_utf8 _ (u16_to_string-ascii status))

parse_zeros :
    (decode_huffman : List ℕ → Io (List ℕ)) (s : List ℕ)
    → parse_qpack_headers decode_huffman (0 ∷ 0 ∷ s)
      ≡ field_lines decode_huffman (length s) s default_request
unfolding parse_qpack_headers skip_prefix read_byte
parse_zeros decode_huffman s = rw (le→ltb (suc (suc (length s))) 2 (omega arith))

parse_payload :
    (decode_huffman : List ℕ → Io (List ℕ)) (status : ℕ) (headers : List (List ℕ × List ℕ))
    → AreText headers
    → ArePlain headers
    → parse_qpack_headers decode_huffman (qpack_payload status headers)
      ≡ ok (record default_request { headers = (codes ":status", u16_to_string status) ∷ headers })
parse_payload decode_huffman status headers text plain =
    let hs : List (List ℕ × List ℕ) = (codes ":status", u16_to_string status) ∷ headers in
    let name_IsText : IsText (codes ":status") = (omega arith, unfold is_utf8 in refl) in
    rw (payload_shape status headers, parse_zeros decode_huffman (write_headers [] hs))
      (field_lines-headers decode_huffman hs (length (write_headers [] hs)) default_request
          (name_IsText, status_IsText status, text) (omega arith)
        ∙ ap ok (apply_headers-plain default_request hs (unfold bytes_eq in (refl, plain))))

-- A reader of one frame: its type, its length, and the header block.
abbrev pub read_frame : (List ℕ → Io Http3Request) → List ℕ → Io (ℕ × Http3Request × List ℕ)
read_frame parse s = do
  (kind, s₁) ← read_quic_varint s
  (len, s₂) ← read_quic_varint s₁
  (payload, s₃) ← read_exact len s₂
  req ← parse payload
  ok (kind, req, s₃)

-- A response frame reads back whole: its type, a block of the announced length that parses to the
-- status and the headers in order, and whatever follows the frame is left. The headers are texts
-- whose names the parser does not file elsewhere, and the block fits a QUIC integer.
pub parse-encode_h3_response :
    (decode_huffman : List ℕ → Io (List ℕ)) (status : ℕ) (headers : List (List ℕ × List ℕ))
    (rest : List ℕ)
    → AreText headers
    → ArePlain headers
    → length (qpack_payload status headers) < 2 ^ 62
    → read_frame (parse_qpack_headers decode_huffman) (encode_h3_response status headers ++ rest)
      ≡ ok (
        h3_frame_headers,
        record default_request { headers = (codes ":status", u16_to_string status) ∷ headers },
        rest,
      )
unfolding encode_h3_response
parse-encode_h3_response decode_huffman status headers rest text plain fits =
    let payload : List ℕ = qpack_payload status headers in
    let kind : List ℕ = (write_quic_varint [] h3_frame_headers).0 in
    let len : List ℕ = (write_quic_varint [] (length payload)).0 in
    let shape : (encode_h3_response status headers ++ rest) ≡ kind ++ (len ++ (payload ++ rest)) =
      rw (
        (write_quic_varint-len kind (length payload)).0,
        append_assoc (kind ++ len),
        append_assoc kind,
      ) in
    rw (
      shape,
      read-write_quic_varint h3_frame_headers (len ++ (payload ++ rest)) (omega arith),
      read-write_quic_varint (length payload) (payload ++ rest) (omega arith),
      mod-eq_of_lt fits,
      read_exact-append payload rest,
      parse_payload decode_huffman status headers text plain,
    )
