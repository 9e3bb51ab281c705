-- ===== src/Hysteria/Examples.antt =====
-- qpack.rs on concrete values, and the theorems about it there.
use elise_backend.Prelude.{ℕ, ◌≡◌, refl, List, [], ◌∷◌, ◌++◌, arith, Io, ok, err, invalid_data}
use elise_backend.Prelude.Text.{codes, bytes_eq, is_utf8, u16_to_string}
use elise_backend.Hysteria.QpackInt.{write_qpack_int}
use elise_backend.Hysteria.Qpack.{
  default_request, parse_qpack_headers, qpack_payload, write_headers, write_qpack_literal,
  encode_h3_response, h3_frame_headers,
}
use elise_backend.Hysteria.Qpack.Response.{read_frame, parse-encode_h3_response}

abbrev no_huffman : List ℕ → Io (List ℕ)
no_huffman s = err invalid_data

abbrev auth_headers : List (List ℕ × List ℕ)
auth_headers = (codes "hysteria-udp", codes "true") ∷ (codes "hysteria-cc-rx", codes "auto") ∷ []

parse-encode_h3_response_example :
    read_frame (parse_qpack_headers no_huffman) (encode_h3_response 233 auth_headers ++ (0 ∷ []))
    ≡ ok (
      h3_frame_headers,
      record default_request { headers = (codes ":status", u16_to_string 233) ∷ auth_headers },
      0 ∷ [],
    )
parse-encode_h3_response_example =
    parse-encode_h3_response no_huffman 233 auth_headers (0 ∷ [])
      (unfold is_utf8 in
        ((omega arith, refl), (omega arith, refl), ((omega arith, refl), (omega arith, refl), tt)))
      (unfold bytes_eq in (refl, (refl, tt)))
      (unfold qpack_payload write_headers write_qpack_literal write_qpack_int u16_to_string in
        omega arith)
