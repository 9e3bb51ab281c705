-- ===== src/Conn/Sniffer/Examples.antt =====
-- src/conn/sniffer.rs on concrete first bytes, and the theorems about it there.
use elise_backend.Prelude.{
  ℕ, zero, suc, ◌≡◌, refl, true, some, List, [], ◌∷◌, ◌++◌, arith, ok, take,
}
use elise_backend.Prelude.Text.{codes, is_utf8}
use elise_backend.Prelude.Strings.{lines, strip_prefix, split_on}
use elise_backend.Prelude.Net.{v4}
use elise_backend.Conn.Sniffer.{
  parse_tls_sni, parse_http_host, sniff_domain, first_read, sniff_and_detect_stream,
}
use elise_backend.Conn.Sniffer.Bounds.{Quiet, sniff_domain-Quiet}
use elise_backend.Conn.Sniffer.ClientHello.{
  ClientHello, client_hello_bytes, WellFormed, parse_tls_sni-client_hello,
}
use elise_backend.Conn.Sniffer.Stream.{AllUnread, refuses, sniff_and_detect_stream-AllUnread}

abbrev zeros : ℕ → List ℕ
zeros zero = []
zeros (suc n) = 0 ∷ zeros n

-- A session id of three bytes, one cipher suite, and an extension before the server name and one
-- behind.
abbrev hello : ClientHello
hello = record {
  front = 0 ∷ 1 ∷ 2 ∷ 3 ∷ 3 ∷ zeros 32;
  session_id = 7 ∷ 8 ∷ 9 ∷ [];
  ciphers = 19 ∷ 1 ∷ [];
  compression = 0 ∷ [];
  others = (23, []) ∷ (65281, 0 ∷ []) ∷ [];
  host = codes "api.ip.sb";
  behind = 0 ∷ 43 ∷ 0 ∷ 1 ∷ 4 ∷ [];
}

hello-WellFormed : WellFormed hello
unfolding is_utf8
hello-WellFormed = (
  refl,
  omega arith,
  omega arith,
  omega arith,
  omega arith,
  ((omega arith, omega arith, omega arith), ((omega arith, omega arith, omega arith), tt)),
  refl,
)

parse_tls_sni-client_hello_example :
    parse_tls_sni (0x16 ∷ 3 ∷ 1 ∷ 0 ∷ 90 ∷ client_hello_bytes hello) ≡ ok (some (codes "api.ip.sb"))
parse_tls_sni-client_hello_example = parse_tls_sni-client_hello hello 3 1 0 90 hello-WellFormed

-- `GET / HTTP/1.1`, and the host behind it.
abbrev request : List ℕ
request = codes "GET / HTTP/1.1" ++ (10 ∷ codes "Host:api.ip.sb:80")

host_of_request : parse_http_host (λ s. s) request ≡ some (codes "api.ip.sb")
unfolding parse_http_host is_utf8 lines strip_prefix split_on
host_of_request = refl

sniff_domain-Quiet_example : Quiet (sniff_domain (λ s. s) (0x16 ∷ 3 ∷ 1 ∷ []))
sniff_domain-Quiet_example = sniff_domain-Quiet (λ s. s) (0x16 ∷ 3 ∷ 1 ∷ [])

sniff_and_detect_stream-AllUnread_example :
    AllUnread request (refuses true (take (first_read 20) request) (some (λ chunk. true))) (
      sniff_and_detect_stream
        (λ s. s)
        request
        20
        (some (v4 16843009))
        true
        true
        (some (λ chunk. true)))
sniff_and_detect_stream-AllUnread_example =
    sniff_and_detect_stream-AllUnread (λ s. s) request 20 (some (v4 16843009)) true true
      (some (λ chunk. true))
