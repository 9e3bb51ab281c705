-- ===== src/Conn/ProxyStream.antt =====
-- src/conn/proxy_protocol.rs: `read_proxy_protocol_with_meta` and `PrefixedStream`. A stream is the
-- bytes that will come; the first `read` gives `got` of them, later ones are exact. A trusted
-- network is its `contains`.
pub mod Poll
pub mod Header
pub mod Keeps
pub mod HeaderTwo
pub mod Outcome
pub mod RoundTrip
use elise_backend.Prelude.{
  ℕ, zero, suc, ◌+◌, ◌-◌, ◌*◌, ◌/◌, ◌%◌, ◌^◌, min, Bool, true, false, ◌&&◌, ◌||◌, not, Option, none,
  some, List, [], ◌∷◌, ◌++◌, bit_and, ltb, leb, ◌==◌, if◌then◌else◌, Io, ok, err, panic, ◌>>=◌,
  invalid_data, permission_denied, unexpected_eof, index, slice, read_exact, length, starts_with,
  drop, take,
}
use elise_backend.Prelude.Text.{codes, bytes_eq}
use elise_backend.Prelude.Net.{IpAddr, v4, v6, ip_eq, SocketAddr}
use elise_backend.Conn.ProxyHeader.{
  ProxyProtocolMode, off, auto, strict, is_off, is_strict, v2_signature, port_from, v4_from,
  v6_from,
}
use elise_backend.Conn.ProxyLine.{
  find_crlf, fill_line, Line, addresses, unknown, malformed, parse_line,
}

pub record PrefixedStream : Type 0 where
  pub inner : List ℕ
  pub prefix : Option (List ℕ)
  pub pos : ℕ

abbrev pub new_stream : List ℕ → Option (List ℕ) → PrefixedStream
new_stream inner prefix = record { inner = inner; prefix = prefix; pos = 0 }

-- `poll_read` into a buffer with room for `remaining`, of which the inner stream would fill `got`.
unfoldable pub poll_inner : ℕ → PrefixedStream → List ℕ × PrefixedStream
poll_inner got s = (take got s.inner, record s { inner = drop got s.inner })

unfoldable pub poll_prefix : ℕ → List ℕ → PrefixedStream → List ℕ × PrefixedStream
poll_prefix remaining prefix s =
    let to_copy = min (length prefix - s.pos) remaining in
    let pos = s.pos + to_copy in
    (
      take to_copy (drop s.pos prefix),
      record s { pos = pos; prefix = if leb (length prefix) pos then none else s.prefix },
    )

unfoldable pub poll_read : ℕ → ℕ → PrefixedStream → List ℕ × PrefixedStream
unfolding poll_inner poll_prefix
poll_read remaining got s = elim s.prefix [
  | none ↦ poll_inner (min got remaining) s
  | some prefix ↦
      if ltb s.pos (length prefix)
      then poll_prefix remaining prefix s
      else poll_inner (min got remaining) s
]

pub record ConnectionMeta : Type 0 where
  pub transport_peer_addr : SocketAddr
  pub client_addr : SocketAddr
  pub proxy_destination_addr : Option SocketAddr
  pub proxy_protocol_version : Option ℕ

unfoldable pub new_meta : SocketAddr → ConnectionMeta
new_meta peer_addr = record {
  transport_peer_addr = peer_addr;
  client_addr = peer_addr;
  proxy_destination_addr = none;
  proxy_protocol_version = none;
}

unfoldable pub any_contains : List (IpAddr → Bool) → IpAddr → Bool
any_contains [] ip = false
any_contains (net ∷ nets) ip = net ip || any_contains nets ip

unfoldable pub is_trusted : Option (List (IpAddr → Bool)) → IpAddr → Bool
unfolding any_contains
is_trusted none ip = true
is_trusted (some trusted) ip = any_contains trusted ip

-- What is read before the protocol's own bytes, or why the connection is refused.
abbrev pub Opened : Type 0
Opened = Io (ConnectionMeta × PrefixedStream)

-- The bytes behind the header, if there are any.
abbrev pub left_over : List ℕ → Option (List ℕ)
left_over [] = none
left_over (b ∷ s) = some (b ∷ s)

-- A header with addresses: they are taken from a trusted peer, and else refused or passed over.
unfoldable pub take_addresses :
    ProxyProtocolMode
    → Bool
    → ConnectionMeta
    → ℕ
    → SocketAddr
    → SocketAddr
    → PrefixedStream
    → Opened
take_addresses mode trusted meta version client dest stream =
    if trusted
    then ok (
      record meta {
        client_addr = client;
        proxy_destination_addr = some dest;
        proxy_protocol_version = some version;
      },
      stream,
    )
    else if is_strict mode
    then err permission_denied
    else ok (meta, stream)

-- `while buf.len() < 16`, a byte at a time, with the rounds left.
unfoldable pub push_bytes : ℕ → List ℕ → List ℕ → Io (List ℕ × List ℕ)
push_bytes zero buf rest = ok (buf, rest)
push_bytes (suc n) buf [] = err unexpected_eof
push_bytes (suc n) buf (b ∷ rest) = push_bytes n (buf ++ b ∷ []) rest

-- `while buf.len() < total`, whose one round reads all that is needed.
unfoldable pub fill_to : ℕ → List ℕ → List ℕ → Io (List ℕ × List ℕ)
fill_to total buf rest =
    if ltb (length buf) total
    then (do (temp, rest') ← read_exact (total - length buf) rest; ok (buf ++ temp, rest'))
    else ok (buf, rest)

-- The commands and families of a complete header.
unfoldable pub v2_command :
    ProxyProtocolMode → Bool → ConnectionMeta → List ℕ → ℕ → ℕ → ℕ → PrefixedStream → Opened
unfolding take_addresses
v2_command mode trusted meta buf version_cmd fam_trans payload_len stream =
    let fam = bit_and (fam_trans / 2 ^ 4) 0x0f in
    if bit_and version_cmd 0x0f == 0x01 && (fam == 0x01 && leb 12 payload_len)
    then (do
      client ← v4_from buf 16 24
      dest ← v4_from buf 20 26
      take_addresses mode trusted meta 2 client dest stream)
    else if bit_and version_cmd 0x0f == 0x01 && (fam == 0x02 && leb 36 payload_len)
    then (do
      client ← v6_from buf 16 48
      dest ← v6_from buf 32 50
      take_addresses mode trusted meta 2 client dest stream)
    else ok (record meta { proxy_protocol_version = some 2 }, stream)

unfoldable pub read_v2 : ProxyProtocolMode → Bool → ConnectionMeta → List ℕ → List ℕ → Opened
unfolding v2_command push_bytes fill_to
read_v2 mode trusted meta chunk rest₀ = do
  (buf₁, rest₁) ← push_bytes (16 - length chunk) chunk rest₀
  version_cmd ← index buf₁ 12
  fam_trans ← index buf₁ 13
  payload_len ← port_from buf₁ 14
  if not (version_cmd / 2 ^ 4 == 2)
      then (if is_strict mode then err invalid_data else ok (meta, new_stream rest₁ (some buf₁)))
      else (do
        (buf, rest) ← fill_to (16 + payload_len) buf₁ rest₁
        let prefix = left_over (drop (16 + payload_len) buf)
        v2_command mode trusted meta buf version_cmd fam_trans payload_len (new_stream rest prefix))

-- `chunk.len() >= n && &chunk[..n] == p`, a slice that would panic without the test.
unfoldable pub has_prefix : ℕ → List ℕ → List ℕ → Io Bool
has_prefix n p chunk =
    if leb n (length chunk) then (do front ← slice chunk 0 n; ok (bytes_eq front p)) else ok false

-- No header: an error in strict mode, else everything that was read is given back.
unfoldable pub no_header : ProxyProtocolMode → ConnectionMeta → List ℕ → List ℕ → Opened
no_header mode meta buf rest =
    if is_strict mode then err invalid_data else ok (meta, new_stream rest (some buf))

addr_eq : SocketAddr → SocketAddr → Bool
unfolding ip_eq
addr_eq a b = ip_eq a.ip b.ip && a.port == b.port

-- The source that is reported to a caller who asks for no more.
reported : SocketAddr → ConnectionMeta → Option SocketAddr
unfolding addr_eq
reported dummy_addr meta = elim meta.proxy_protocol_version [
  | none ↦ none
  | some version ↦ if addr_eq meta.client_addr dummy_addr then none else some meta.client_addr
]

module _ (parse_ip : List ℕ → Option IpAddr) where
  unfoldable pub v1_line : ProxyProtocolMode → Bool → ConnectionMeta → List ℕ → List ℕ → ℕ → Opened
  unfolding no_header take_addresses
  v1_line mode trusted meta buf rest pos =
      let stream = new_stream rest (left_over (drop (pos + 2) buf)) in
      elim (parse_line parse_ip (take pos buf)) [
        | addresses client dest ↦ take_addresses mode trusted meta 1 client dest stream
        | unknown ↦ ok (record meta { proxy_protocol_version = some 1 }, stream)
        | malformed ↦ no_header mode meta buf rest
      ]

  unfoldable pub read_v1 : ProxyProtocolMode → Bool → ConnectionMeta → List ℕ → List ℕ → Opened
  unfolding v1_line no_header
  read_v1 mode trusted meta chunk rest₀ =
      let filled = fill_line chunk rest₀ in
      elim (find_crlf filled.0) [
        | none ↦ no_header mode meta filled.0 filled.1
        | some pos ↦ v1_line mode trusted meta filled.0 filled.1 pos
      ]

  unfoldable pub read_chunk : ProxyProtocolMode → Bool → ConnectionMeta → List ℕ → List ℕ → Opened
  unfolding read_v2 read_v1 no_header has_prefix
  read_chunk mode trusted meta chunk rest = do
    two ← has_prefix 12 v2_signature chunk
    if two then read_v2 mode trusted meta chunk rest else (do
      one ← has_prefix 6 (codes "PROXY ") chunk
      if one then read_v1 mode trusted meta chunk rest else no_header mode meta chunk rest)

  -- `got` is what the first `read` returns, of at most 1024 bytes.
  unfoldable pub read_proxy_protocol_with_meta :
      ℕ → List ℕ → SocketAddr → ProxyProtocolMode → Option (List (IpAddr → Bool)) → Opened
  unfolding new_meta is_trusted read_chunk
  read_proxy_protocol_with_meta got stream peer_addr mode trusted_proxies =
      let meta = new_meta peer_addr in
      let chunk = take (min got 1024) stream in
      let rest = drop (min got 1024) stream in
      if is_off mode
      then ok (meta, new_stream stream none)
      else if length chunk == 0
      then ok (meta, new_stream rest none)
      else read_chunk mode (is_trusted trusted_proxies peer_addr.ip) meta chunk rest

  unfoldable pub read_proxy_protocol :
      ℕ → List ℕ → ProxyProtocolMode → Io (Option SocketAddr × PrefixedStream)
  unfolding reported read_proxy_protocol_with_meta
  read_proxy_protocol got stream mode = do
    let dummy_addr : SocketAddr = record { ip = v4 0; port = 0 }
    (meta, s) ← read_proxy_protocol_with_meta got stream dummy_addr mode none
    ok (reported dummy_addr meta, s)
