-- ===== src/Conn/ProxyHeader.antt =====
-- src/conn/proxy_protocol.rs: the modes, the header of version 2, and the datagrams that carry it.
pub mod Fields
pub mod Datagram
use elise_backend.Prelude.{
  ℕ, zero, suc, ◌+◌, ◌-◌, ◌*◌, ◌/◌, ◌%◌, ◌^◌, Bool, true, false, ◌&&◌, ◌||◌, not, Option, none,
  some, List, [], ◌∷◌, ◌++◌, map, bit_and, ltb, leb, ◌==◌, if◌then◌else◌, Io, ok, err, panic, ◌>>=◌,
  invalid_data, unexpected_eof, index, slice, length, starts_with, drop,
}
use elise_backend.Prelude.Bytes.{to_be_u16, from_be_u16, to_be_bytes, from_be_bytes}
use elise_backend.Prelude.Text.{codes, bytes_eq}
use elise_backend.Prelude.Net.{IpAddr, v4, v6, SocketAddr}

pub data ProxyProtocolMode : Type 0 where
  off auto strict : ProxyProtocolMode

abbrev pub is_strict : ProxyProtocolMode → Bool
is_strict strict = true
is_strict _ = false

abbrev to_ascii_lowercase : List ℕ → List ℕ
to_ascii_lowercase val = map (λ c. if leb 65 c && leb c 90 then c + 32 else c) val

unfoldable pub from_str_opt : List ℕ → ProxyProtocolMode
from_str_opt val =
    let s = to_ascii_lowercase val in
    if (bytes_eq s (codes "strict") || bytes_eq s (codes "force"))
      || (bytes_eq s (codes "1") || bytes_eq s (codes "true"))
    then strict
    else if bytes_eq s (codes "auto") || bytes_eq s (codes "detect")
    then auto
    else off

abbrev pub v2_signature : List ℕ
v2_signature =
    0x0d ∷ 0x0a ∷ 0x0d ∷ 0x0a ∷ 0x00 ∷ 0x0d ∷ 0x0a ∷ 0x51 ∷ 0x55 ∷ 0x49 ∷ 0x54 ∷ 0x0a ∷ []

-- What follows the signature: the two addresses if both are of one family.
abbrev pub v2_fields : IpAddr → ℕ → IpAddr → ℕ → List ℕ
v2_fields (v4 s) sport (v4 d) dport =
    0x21
    ∷ 0x11
    ∷ (to_be_u16 12
        ++ (to_be_bytes 4 s ++ (to_be_bytes 4 d ++ (to_be_u16 sport ++ to_be_u16 dport))))
v2_fields (v6 s) sport (v6 d) dport =
    0x21
    ∷ 0x21
    ∷ (to_be_u16 36
        ++ (to_be_bytes 16 s ++ (to_be_bytes 16 d ++ (to_be_u16 sport ++ to_be_u16 dport))))
v2_fields _ sport _ dport = 0x20 ∷ 0x00 ∷ to_be_u16 0

unfoldable pub encode_proxy_protocol_v2 : SocketAddr → SocketAddr → List ℕ
encode_proxy_protocol_v2 src dst = v2_signature ++ v2_fields src.ip src.port dst.ip dst.port

-- The address in the bytes from `at` on, with its port at `port_at`.
unfoldable pub port_from : List ℕ → ℕ → Io ℕ
port_from buf at = do hi ← index buf at; lo ← index buf (at + 1); ok (from_be_u16 hi lo)

unfoldable pub v4_from : List ℕ → ℕ → ℕ → Io SocketAddr
unfolding port_from
v4_from buf at port_at = do
  octets ← slice buf at (at + 4)
  port ← port_from buf port_at
  ok (record { ip = v4 (from_be_bytes octets); port = port })

unfoldable pub v6_from : List ℕ → ℕ → ℕ → Io SocketAddr
unfolding port_from
v6_from buf at port_at = do
  octets ← slice buf at (at + 16)
  port ← port_from buf port_at
  ok (record { ip = v6 (from_be_bytes octets); port = port })

-- The source address in the payload of a datagram's header, as its command and family say.
unfoldable pub datagram_source : List ℕ → ℕ → ℕ → Io (Option SocketAddr)
datagram_source payload version_cmd fam_trans =
    let fam = bit_and (fam_trans / 2 ^ 4) 0x0f in
    if bit_and version_cmd 0x0f == 0x01 && (fam == 0x01 && leb 12 (length payload))
    then (do a ← v4_from payload 0 8; ok (some a))
    else if bit_and version_cmd 0x0f == 0x01 && (fam == 0x02 && leb 36 (length payload))
    then (do a ← v6_from payload 0 32; ok (some a))
    else ok none

-- A header that is not taken: an error in strict mode, else the datagram as it is.
abbrev refuse_datagram :
    ProxyProtocolMode → List ℕ → Io (Option SocketAddr × List ℕ) → Io (Option SocketAddr × List ℕ)
refuse_datagram mode datagram error = if is_strict mode then error else ok (none, datagram)

unfoldable pub datagram_header : ProxyProtocolMode → List ℕ → Io (Option SocketAddr × List ℕ)
datagram_header mode datagram = do
  version_cmd ← index datagram 12
  fam_trans ← index datagram 13
  payload_len ← port_from datagram 14
  let total_header_len = 16 + payload_len
  if not (version_cmd / 2 ^ 4 == 2)
      then refuse_datagram mode datagram (err invalid_data)
      else if ltb (length datagram) total_header_len
      then refuse_datagram mode datagram (err unexpected_eof)
      else (do
        payload ← slice datagram 16 total_header_len
        rest ← slice datagram total_header_len (length datagram)
        src ← datagram_source payload version_cmd fam_trans
        ok (src, rest))

abbrev pub is_off : ProxyProtocolMode → Bool
is_off off = true
is_off _ = false

unfoldable pub parse_proxy_protocol_datagram :
    List ℕ → ProxyProtocolMode → Io (Option SocketAddr × List ℕ)
unfolding datagram_header
parse_proxy_protocol_datagram datagram mode =
    if is_off mode || ltb (length datagram) 16
    then ok (none, datagram)
    else if starts_with datagram v2_signature
    then datagram_header mode datagram
    else refuse_datagram mode datagram (err invalid_data)
