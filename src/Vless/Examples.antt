-- ===== src/Vless/Examples.antt =====
-- src/protocol/vless/header.rs on a concrete request, and the theorems about it there.
use elise_backend.Prelude.{
  true, false, some, take, Returns, ◌>>=◌, ℕ, ◌≡◌, refl, List, [], ◌∷◌, ◌++◌, arith, ok, length,
  slice,
}
use elise_backend.Prelude.Text.{codes}
use elise_backend.Prelude.Strings.{contains_text}
use elise_backend.Vless.Header.{no_addons, parse_fields, parse_addons, parse_vless_request_header}
use elise_backend.Vless.Header.Rounds.{parse_addons-rounds}
use elise_backend.Vless.Vision.{
  TrafficState, new_traffic_state, filter_tls, new_writer, write_payload, padding_len, new_reader,
  VisionWriter, set_writer_control, set_reader_control, tls13_supported_versions, vision_cmd_direct,
  server_hello, scan_hello, choose_command, switched,
}
use elise_backend.Vless.Vision.Filter.{filter_each}
use elise_backend.Vless.Vision.RoundTrip.{
  Gets, payload_of, write_each, read_each, read_each-write_each,
}
use elise_backend.Vless.Header.RoundTrip.{
  domain, request_bytes, target_host_of, target_ip_of, parse-request_bytes,
}

abbrev uuid : List ℕ
uuid = 1 ∷ 2 ∷ 3 ∷ 4 ∷ 5 ∷ 6 ∷ 7 ∷ 8 ∷ 9 ∷ 10 ∷ 11 ∷ 12 ∷ 13 ∷ 14 ∷ 15 ∷ 16 ∷ []

abbrev vision : List ℕ
vision = codes "xtls-rprx-vision"

-- Text that is UTF-8 stays as it is.
abbrev as_is : List ℕ → List ℕ
as_is s = s

abbrev addons : List ℕ
addons = 0x0a ∷ length vision ∷ (vision ++ (0x12 ∷ 2 ∷ (7 ∷ 9 ∷ [])))

parse-request_bytes_example :
    parse_vless_request_header as_is
      (request_bytes uuid addons 1 443 (domain (codes "example.com")) ++ (22 ∷ []))
    ≡ ok (
      record {
        version = 0;
        uuid_bytes = uuid;
        addons = parse_addons as_is addons;
        command = 1;
        target_port = 443;
        target_host = target_host_of as_is (domain (codes "example.com"));
        target_ip = target_ip_of (domain (codes "example.com"));
      },
      22 ∷ [],
    )
parse-request_bytes_example =
    parse-request_bytes as_is uuid addons 1 443 (domain (codes "example.com")) (22 ∷ []) refl refl
      (omega arith) (omega arith)

parse_addons-rounds_example :
    parse_fields as_is 40 addons no_addons ≡ some (parse_addons as_is addons)
parse_addons-rounds_example = parse_addons-rounds as_is 40 addons (omega arith)

-- A TLS record with application data, and what the peer sends behind it.
abbrev app_data : List ℕ
app_data = 0x17 ∷ 0x03 ∷ 0x03 ∷ 0x00 ∷ 0x02 ∷ 0x09 ∷ 0x09 ∷ []

-- A server hello that offers TLS 1.3.
abbrev hello : List ℕ
hello = 0x16 ∷ 0x03 ∷ 0x03 ∷ 0x00 ∷ 0x08 ∷ 0x02 ∷ 0x00 ∷ tls13_supported_versions

abbrev client_hello : List ℕ
client_hello = 0x16 ∷ 0x03 ∷ 0x01 ∷ 0x00 ∷ 0x02 ∷ 0x01 ∷ 0x00 ∷ []

abbrev with_control : VisionWriter
with_control = set_writer_control true (new_writer uuid)

-- Behind a hello of TLS 1.3, application data goes out in a frame DIRECT, and what follows as it is.
direct_frame :
    Returns
      (λ r. (take 1 r.1 ≡ vision_cmd_direct ∷ []) × (r.0.direct ≡ true) × (r.0.direct_write ≡ true))
      (do (w, out) ← write_payload 5 with_control hello; write_payload 77 w app_data)
unfolding write_payload filter_tls padding_len server_hello scan_hello contains_text choose_command
    switched slice
direct_frame = (refl, refl, refl)

abbrev reads : List (ℕ × ℕ)
reads = (4, 9) ∷ (64, 1) ∷ (64, 3) ∷ (64, 3) ∷ []

read_each-write_each_example :
    Returns (Gets (hello ++ payload_of ((77, app_data) ∷ (3, codes "raw") ∷ [])) 4) (
      write_each with_control ((5, hello) ∷ (77, app_data) ∷ (3, codes "raw") ∷ [])
      >>= read_each reads (set_reader_control true (new_reader uuid)))
read_each-write_each_example =
    read_each-write_each uuid true true 5 hello ((77, app_data) ∷ (3, codes "raw") ∷ []) reads refl
      (omega arith) (omega arith)

-- The hello turns XTLS on.
allowed_by_hello :
    Returns
      (λ (u : TrafficState). (u.enable_xtls ≡ true) × (u.is_tls ≡ true))
      (filter_each (new_traffic_state uuid) ((client_hello, false) ∷ (hello, true) ∷ []))
unfolding filter_each filter_tls server_hello scan_hello contains_text slice
allowed_by_hello = (refl, refl)

switches :
    Returns
      (λ r. (r.0.direct ≡ true) × (take 4 r.1 ≡ 1 ∷ 0 ∷ 7 ∷ 4 ∷ []))
      (write_payload 300 (record (new_writer uuid) { is_first = false }) app_data)
unfolding write_payload filter_tls padding_len
switches = (refl, refl)
