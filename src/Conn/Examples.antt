-- ===== src/Conn/Examples.antt =====
-- src/conn/proxy_protocol.rs on the messages of its tests, and the theorems about it at concrete streams.
use elise_backend.Prelude.{
  ℕ, ◌≡◌, refl, Bool, true, false, Option, some, List, [], ◌∷◌, ◌++◌, arith, ok, Safe,
}
use elise_backend.Prelude.Text.{codes, bytes_eq, is_utf8}
use elise_backend.Prelude.Net.{IpAddr, v4, ip_eq, SocketAddr}
use elise_backend.Conn.ProxyHeader.{
  auto, strict, from_str_opt, encode_proxy_protocol_v2, parse_proxy_protocol_datagram,
}
use elise_backend.Conn.ProxyHeader.Datagram.{announced, parse_datagram-encode}
use elise_backend.Conn.ProxyLine.{
  addresses, parse_line, parse_parts, parse_pair, parse_u16, digits_u16, split_whitespace,
  words_from,
}
use elise_backend.Conn.ProxyStream.{PrefixedStream, is_trusted, read_proxy_protocol_with_meta}
use elise_backend.Conn.ProxyStream.Poll.{unread}
use elise_backend.Conn.ProxyStream.Keeps.{Keeps, read_proxy_protocol-Keeps}
use elise_backend.Conn.ProxyStream.Outcome.{outcome}
use elise_backend.Conn.ProxyStream.RoundTrip.{read-encode_v2}

abbrev client : SocketAddr
client = record { ip = v4 0x01020304; port = 12345 }

abbrev server : SocketAddr
server = record { ip = v4 0x05060708; port = 80 }

abbrev peer : SocketAddr
peer = record { ip = v4 0x7f000001; port = 9 }

-- Only the two addresses of the example are read.
abbrev parse_two : List ℕ → Option IpAddr
parse_two s = elim (bytes_eq s (codes "192.168.1.100")) [
  | true ↦ some (v4 0xc0a80164)
  | false ↦ some (v4 0x0a000001)
]

abbrev only_loopback : Option (List (IpAddr → Bool))
only_loopback = some ((λ ip. ip_eq ip (v4 0x7f000001)) ∷ [])

-- The line of the test of version 1.
parse_line_example :
    parse_line parse_two (codes "PROXY TCP4 192.168.1.100 10.0.0.1 54321 443")
    ≡ addresses
        (record { ip = v4 0xc0a80164; port = 54321 })
        (record { ip = v4 0x0a000001; port = 443 })
unfolding parse_line parse_parts parse_pair parse_u16 digits_u16 split_whitespace words_from is_utf8
    bytes_eq
parse_line_example = refl

strict_by_force : from_str_opt (codes "FORCE") ≡ strict
unfolding from_str_opt bytes_eq
strict_by_force = refl

parse_datagram-encode_example :
    parse_proxy_protocol_datagram
      (encode_proxy_protocol_v2 client server ++ codes "Hello Elise")
      auto
    ≡ ok (announced client server, codes "Hello Elise")
parse_datagram-encode_example =
    parse_datagram-encode auto client server (codes "Hello Elise") refl (omega arith, omega arith)
      (omega arith, omega arith)

abbrev half_read : PrefixedStream
half_read = record { inner = codes "Elise"; prefix = some (codes "Hello "); pos = 3 }

-- A line of version 1, of which the first read gives 9 bytes, and what follows it.
abbrev unknown_line : List ℕ
unknown_line = codes "PROXY UNKNOWN" ++ (13 ∷ 10 ∷ codes "Hello")

read_proxy_protocol-Keeps_example :
    Safe
      (Keeps unknown_line (is_trusted only_loopback (v4 0x7f000001)))
      (read_proxy_protocol_with_meta parse_two 9 unknown_line peer auto only_loopback)
read_proxy_protocol-Keeps_example =
    read_proxy_protocol-Keeps parse_two 9 unknown_line peer auto only_loopback

-- The first read gives 20 bytes of the 28 of the header.
read-encode_v2_example :
    (stream : PrefixedStream) × (unread stream ≡ codes "Hello Elise")
    × (read_proxy_protocol_with_meta parse_two 20
          (encode_proxy_protocol_v2 client server ++ codes "Hello Elise")
          peer
          strict
          only_loopback
        ≡ outcome strict (is_trusted only_loopback (v4 0x7f000001)) peer client server stream)
read-encode_v2_example =
    read-encode_v2 parse_two 20 peer strict only_loopback client server (codes "Hello Elise") refl
      (omega arith) (omega arith, omega arith) (omega arith, omega arith)
