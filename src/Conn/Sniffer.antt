-- ===== src/Conn/Sniffer.antt =====
-- src/conn/sniffer.rs: the server name in the first bytes of a connection. `trim` is `str::trim`.
-- Loops have the size of the buffer as fuel; one that ran out of it would be a `panic`.
pub mod Bounds
pub mod Extensions
pub mod ClientHello
pub mod Stream
mod Examples
use elise_backend.Prelude.{
  ℕ, zero, suc, ◌+◌, ◌-◌, ◌*◌, ◌^◌, min, Bool, true, false, ◌&&◌, ◌||◌, not, Option, none, some,
  List, [], ◌∷◌, bit_and, ltb, leb, ◌==◌, if◌then◌else◌, Io, ok, err, panic, ◌>>=◌,
  permission_denied, index, slice, length, get_elem?, starts_with, take, drop,
}
use mathlib.Core.Option.{map}
use elise_backend.Prelude.Bytes.{from_be_u16}
use elise_backend.Prelude.Text.{codes, is_utf8}
use elise_backend.Prelude.Strings.{any, is_empty, lines, strip_prefix, split_on}
use elise_backend.Prelude.Net.{IpAddr}
use elise_backend.Conn.ProxyStream.{PrefixedStream, new_stream}

-- `u16::from_be_bytes([buf[pos], buf[pos + 1]])`
unfoldable pub be_at : List ℕ → ℕ → Io ℕ
be_at buf pos = index buf pos >>= λ hi. index buf (pos + 1) >>= λ lo. ok (from_be_u16 hi lo)

-- A name, if it is text.
unfoldable pub name_or : Io (Option (List ℕ)) → List ℕ → Io (Option (List ℕ))
name_or rest name = if is_utf8 name then ok (some name) else rest

-- The loop over the names of the list.
unfoldable pub server_names : ℕ → List ℕ → ℕ → ℕ → Io (Option (List ℕ))
unfolding be_at name_or
server_names zero buf pos list_end = panic
server_names (suc fuel) buf pos list_end =
    if leb (pos + 3) list_end
    then (index buf pos >>= λ name_type. be_at buf (pos + 1) >>= λ name_len.
        let rest = server_names fuel buf (pos + 3 + name_len) list_end in
        if name_type == 0 && leb (pos + 3 + name_len) list_end
        then slice buf (pos + 3) (pos + 3 + name_len) >>= name_or rest
        else rest)
    else ok none

-- The names of an extension whose content begins at `pos`.
unfoldable pub in_extension : List ℕ → ℕ → ℕ → ℕ → Io (Option (List ℕ))
unfolding server_names be_at
in_extension buf pos end_ext ext_type =
    if ext_type == 0 && leb (pos + 2) end_ext
    then (be_at buf pos >>= λ list_len.
        server_names (suc (length buf)) buf (pos + 2) (min (pos + 2 + list_len) end_ext))
    else ok none

unfoldable pub found_or : Io (Option (List ℕ)) → Option (List ℕ) → Io (Option (List ℕ))
found_or next none = next
found_or next (some name) = ok (some name)

-- The loop over the extensions.
unfoldable pub extensions : ℕ → List ℕ → ℕ → ℕ → Io (Option (List ℕ))
unfolding in_extension found_or be_at
extensions zero buf pos end_ext = panic
extensions (suc fuel) buf pos end_ext =
    if leb (pos + 4) end_ext
    then (be_at buf pos >>= λ ext_type. be_at buf (pos + 2) >>= λ ext_size.
        let next = extensions fuel buf (pos + 4 + ext_size) end_ext in
        in_extension buf (pos + 4) end_ext ext_type >>= found_or next)
    else ok none

-- The body of a ClientHello from its compression methods, from its cipher suites, and all of it.
unfoldable pub after_compression : List ℕ → ℕ → Io (Option (List ℕ))
unfolding extensions be_at
after_compression buf pos =
    if ltb (length buf) (pos + 2)
    then ok none
    else be_at buf pos >>= λ ext_len.
        extensions (suc (length buf)) buf (pos + 2) (min (pos + 2 + ext_len) (length buf))

unfoldable pub after_ciphers : List ℕ → ℕ → Io (Option (List ℕ))
unfolding after_compression
after_ciphers buf pos =
    if leb (length buf) pos
    then ok none
    else index buf pos >>= λ comp_len. after_compression buf (pos + (1 + comp_len))

unfoldable pub after_session_id : List ℕ → ℕ → Io (Option (List ℕ))
unfolding after_ciphers be_at
after_session_id buf pos =
    if ltb (length buf) (pos + 2)
    then ok none
    else be_at buf pos >>= λ cipher_len. after_ciphers buf (pos + (2 + cipher_len))

unfoldable pub parse_client_hello_body : List ℕ → Io (Option (List ℕ))
unfolding after_session_id
parse_client_hello_body buf =
    if ltb (length buf) (4 + 2 + 32)
    then ok none
    else if leb (length buf) 38
    then ok none
    else index buf 38 >>= λ session_id_len. after_session_id buf (38 + (1 + session_id_len))

unfoldable pub parse_tls_sni : List ℕ → Io (Option (List ℕ))
unfolding parse_client_hello_body
parse_tls_sni buf =
    if ltb (length buf) 5
    then ok none
    else index buf 0 >>= λ kind.
        if not (kind == 0x16)
        then ok none
        else if leb (length buf) 5
        then ok none
        else index buf 5 >>= λ message.
            if not (message == 0x01) then ok none else parse_client_hello_body (drop 5 buf)

-- The host of the first line that names one.
unfoldable pub host_line : (List ℕ → List ℕ) → List (List ℕ) → Option (List ℕ)
host_line trim [] = none
host_line trim (line ∷ more) = elim (strip_prefix (codes "Host:") (trim line)) [
  | none ↦ host_line trim more
  | some host_val ↦ elim (split_on b':' (trim host_val)) [
    | [] ↦ some (trim host_val)
    | host ∷ parts ↦ some host
  ]
]

unfoldable pub parse_http_host : (List ℕ → List ℕ) → List ℕ → Option (List ℕ)
unfolding host_line
parse_http_host trim buf = if is_utf8 buf then host_line trim (lines buf) else none

-- `buf.get(i) == Some(&b)`
abbrev pub is_at : List ℕ → ℕ → ℕ → Bool
is_at buf i b = elim (get_elem? buf i) [ none ↦ false | some c ↦ c == b ]

-- The loop over the places `i` where a ClientHello may begin; `count` of them are left.
unfoldable pub quic_from : ℕ → List ℕ → ℕ → Io (Option (List ℕ))
unfolding parse_client_hello_body found_or
quic_from zero buf i = ok none
quic_from (suc count) buf i =
    let rest = quic_from count buf (i + 1) in
    index buf i >>= λ b.
    if b == 0x01 && (is_at buf (i + 4) 0x03 && is_at buf (i + 5) 0x03)
    then parse_client_hello_body (drop i buf) >>= found_or rest
    else rest

unfoldable pub parse_quic_sni : List ℕ → Io (Option (List ℕ))
unfolding quic_from
parse_quic_sni buf = quic_from (length buf - 40) buf 0

pub data Protocol : Type 0 where
  tls http quic : Protocol

abbrev pub http_prefixes : List (List ℕ)
http_prefixes =
    codes "GET "
    ∷ codes "POST "
    ∷ codes "HEAD "
    ∷ codes "CONNECT "
    ∷ codes "OPTIONS "
    ∷ codes "PUT "
    ∷ codes "DELETE "
    ∷ []

-- The name that is found, with its protocol, or what is tried next.
unfoldable pub named :
    Protocol → Io (Option (List ℕ × Protocol)) → Option (List ℕ) → Io (Option (List ℕ × Protocol))
named p next none = next
named p next (some name) = ok (some (name, p))

unfoldable pub try_quic : List ℕ → Io (Option (List ℕ × Protocol))
unfolding parse_quic_sni named
try_quic buf = index buf 0 >>= λ b.
    if not (bit_and b 0x80 == 0) && ltb 40 (length buf)
    then parse_quic_sni buf >>= named quic (ok none)
    else ok none

unfoldable pub try_http : (List ℕ → List ℕ) → List ℕ → Io (Option (List ℕ × Protocol))
unfolding try_quic named
try_http trim buf =
    if any (starts_with buf) http_prefixes
    then named http (try_quic buf) (parse_http_host trim buf)
    else try_quic buf

unfoldable pub sniff_domain : (List ℕ → List ℕ) → List ℕ → Io (Option (List ℕ × Protocol))
unfolding try_http parse_tls_sni named
sniff_domain trim buffer =
    if is_empty buffer
    then ok none
    else index buffer 0 >>= λ b.
        if b == 0x16 && ltb 43 (length buffer)
        then parse_tls_sni buffer >>= named tls (try_http trim buffer)
        else try_http trim buffer

abbrev pub is_some : Option IpAddr → Bool
is_some none = false
is_some (some ip) = true

abbrev pub blocks : Option (List ℕ → Bool) → List ℕ → Bool
blocks none prefix = false
blocks (some should_block) prefix = should_block prefix

-- What the first read gives within its 150 ms: bytes, at most 1024, or nothing (the end of the
-- stream, an error, or no answer in time).
abbrev pub first_read : ℕ → ℕ
first_read got = min got 1024

-- `inner` is what the stream gives; the first read finds `got` bytes of it.
unfoldable pub sniff_async_stream :
    (List ℕ → List ℕ) → List ℕ → ℕ → Option IpAddr → Bool → Io (Option (List ℕ) × PrefixedStream)
unfolding sniff_domain
sniff_async_stream trim inner got target_ip sniff_enabled =
    let prefix = take (first_read got) inner in
    if not sniff_enabled || not (is_some target_ip)
    then ok (none, new_stream inner none)
    else if is_empty prefix
    then ok (none, new_stream inner none)
    else sniff_domain trim prefix >>= λ sniffed.
        ok (map (λ s. s.0) sniffed, new_stream (drop (first_read got) inner) (some prefix))

-- `blocks` is `should_block_payload` where there is an audit controller.
unfoldable pub sniff_and_detect_stream :
    (List ℕ → List ℕ)
    → List ℕ
    → ℕ
    → Option IpAddr
    → Bool
    → Bool
    → Option (List ℕ → Bool)
    → Io (Option (List ℕ) × PrefixedStream)
unfolding sniff_domain
sniff_and_detect_stream trim inner got target_ip sniff_enabled detect_packet audit =
    let prefix = take (first_read got) inner in
    let stream = new_stream (drop (first_read got) inner) (some prefix) in
    if not sniff_enabled && not detect_packet
    then ok (none, new_stream inner none)
    else if is_empty prefix
    then ok (none, new_stream inner none)
    else if detect_packet && blocks audit prefix
    then err permission_denied
    else if sniff_enabled && is_some target_ip
    then (sniff_domain trim prefix >>= λ sniffed. ok (map (λ s. s.0) sniffed, stream))
    else ok (none, stream)
