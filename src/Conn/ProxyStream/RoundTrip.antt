-- ===== src/Conn/ProxyStream/RoundTrip.antt =====
-- A connection that begins with a PROXY header of version 2.
use elise_backend.Prelude.{
  ℕ, ◌≤◌, min, ◌≡◌, refl, ap, ◌∙◌, Bool, true, false, Option, none, some, List, [], ◌∷◌, ◌++◌,
  arith, ◌==◌, if◌then◌else◌, length, drop, take, take-append-drop, length-take, ok, starts_with,
  starts_with-append, le→leb,
}
use elise_backend.Prelude.Net.{IpAddr, v4, v6, SocketAddr}
use elise_backend.Conn.ProxyHeader.{
  ProxyProtocolMode, is_off, v2_signature, v2_fields, encode_proxy_protocol_v2,
}
use elise_backend.Conn.ProxyHeader.Fields.{IsSocketAddr, pair_bytes}
use elise_backend.Conn.ProxyStream.{
  PrefixedStream, new_stream, ConnectionMeta, new_meta, is_trusted, v2_command, read_v2, read_chunk,
  read_proxy_protocol_with_meta,
}
use elise_backend.Conn.ProxyStream.Poll.{unread}
use elise_backend.Conn.ProxyStream.Header.{has_prefix-lem}
use elise_backend.Conn.ProxyStream.HeaderTwo.{prefix_of, read_v2-header}
use elise_backend.Conn.ProxyStream.Outcome.{outcome, command-v4, command-v6}

not_empty : (n : ℕ) → 1 ≤ n → (n == 0) ≡ false
not_empty n h = ground arith

signed :
    (parse_ip : List ℕ → Option IpAddr) (got : ℕ) (peer : SocketAddr) (mode : ProxyProtocolMode)
    (trusted_proxies : Option (List (IpAddr → Bool))) (tail : List ℕ)
    → is_off mode ≡ false
    → 12 ≤ got
    → read_proxy_protocol_with_meta parse_ip got (v2_signature ++ tail) peer mode trusted_proxies
      ≡ read_v2 mode
          (is_trusted trusted_proxies peer.ip)
          (new_meta peer)
          (take (min got 1024) (v2_signature ++ tail))
          (drop (min got 1024) (v2_signature ++ tail))
unfolding read_proxy_protocol_with_meta read_chunk
signed parse_ip got peer mode trusted_proxies tail on h =
    let n : ℕ = min got 1024 in
    let chunk : List ℕ = take n (v2_signature ++ tail) in
    let rest : List ℕ = drop n (v2_signature ++ tail) in
    let size : 12 ≤ length chunk = omega (arith, length-take n (v2_signature ++ tail)) in
    let p =
      prefix_of v2_signature tail chunk rest (take-append-drop n (v2_signature ++ tail)) size in
    let starts : starts_with chunk v2_signature ≡ true =
      ap (λ c. starts_with c v2_signature) (p.1) ∙ starts_with-append v2_signature (p.0) in
    pick mode (is_trusted trusted_proxies peer.ip) (new_meta peer) chunk rest on size starts
  where
    pick :
        (mode : ProxyProtocolMode) (trusted : Bool) (meta : ConnectionMeta) (chunk rest : List ℕ)
        → is_off mode ≡ false
        → 12 ≤ length chunk
        → starts_with chunk v2_signature ≡ true
        → (if is_off mode
            then ok (meta, new_stream (v2_signature ++ tail) none)
            else if length chunk == 0
            then ok (meta, new_stream rest none)
            else read_chunk parse_ip mode trusted meta chunk rest)
          ≡ read_v2 mode trusted meta chunk rest
    pick mode trusted meta chunk rest on size starts =
        let some_read : (length chunk == 0) ≡ false = not_empty (length chunk) (omega arith) in
        rw
          (
            on,
            some_read,
            has_prefix-lem v2_signature chunk 12 refl,
            le→leb 12 (length chunk) size,
            starts,
          )
          refl

opens_local :
    (parse_ip : List ℕ → Option IpAddr) (got : ℕ) (peer : SocketAddr) (mode : ProxyProtocolMode)
    (trusted_proxies : Option (List (IpAddr → Bool))) (payload : List ℕ)
    → is_off mode ≡ false
    → 12 ≤ got
    → (stream : PrefixedStream) × (unread stream ≡ payload)
      × (read_proxy_protocol_with_meta parse_ip got
            (v2_signature ++ (0x20 ∷ 0 ∷ 0 ∷ 0 ∷ payload))
            peer
            mode
            trusted_proxies
          ≡ ok (record (new_meta peer) { proxy_protocol_version = some 2 }, stream))
unfolding v2_command
opens_local parse_ip got peer mode trusted_proxies payload on h =
    let stream : List ℕ = v2_signature ++ (0x20 ∷ 0 ∷ 0 ∷ 0 ∷ payload) in
    let trusted = is_trusted trusted_proxies peer.ip in
    let r =
      read_v2-header 0x20 0 [] payload mode trusted (new_meta peer) _ _ refl (omega arith)
        (take-append-drop (min got 1024) stream) in
    (
      r.1,
      r.2,
      signed parse_ip got peer mode trusted_proxies (0x20 ∷ 0 ∷ 0 ∷ 0 ∷ payload) on h ∙ r.3,
    )

opens :
    (parse_ip : List ℕ → Option IpAddr) (got : ℕ) (peer : SocketAddr) (mode : ProxyProtocolMode)
    (trusted_proxies : Option (List (IpAddr → Bool))) (s d : IpAddr) (sport dport : ℕ)
    (payload : List ℕ)
    → is_off mode ≡ false
    → 12 ≤ got
    → IsSocketAddr (record { ip = s; port = sport })
    → IsSocketAddr (record { ip = d; port = dport })
    → (stream : PrefixedStream) × (unread stream ≡ payload)
      × (read_proxy_protocol_with_meta parse_ip got
            (v2_signature ++ (v2_fields s sport d dport ++ payload))
            peer
            mode
            trusted_proxies
          ≡ outcome mode
              (is_trusted trusted_proxies peer.ip)
              peer
              (record { ip = s; port = sport })
              (record { ip = d; port = dport })
              stream)
opens parse_ip got peer mode trusted_proxies (v4 s) (v4 d) sport dport payload on h hs hd =
    let fields : List ℕ = pair_bytes 4 s sport d dport [] in
    let trusted = is_trusted trusted_proxies peer.ip in
    let r =
      read_v2-header 0x21 0x11 fields payload mode trusted (new_meta peer) _ _ refl (omega arith) (
        take-append-drop (min got 1024)
          (v2_signature ++ (v2_fields (v4 s) sport (v4 d) dport ++ payload))) in
    (
      r.1,
      r.2,
      signed parse_ip got peer mode trusted_proxies (v2_fields (v4 s) sport (v4 d) dport ++ payload)
            on h
          ∙ r.3
          ∙ command-v4 mode trusted peer sport dport s d (r.0) (r.1) (hs.0) (hs.1) (hd.0) (hd.1),
    )
opens parse_ip got peer mode trusted_proxies (v6 s) (v6 d) sport dport payload on h hs hd =
    let fields : List ℕ = pair_bytes 16 s sport d dport [] in
    let trusted = is_trusted trusted_proxies peer.ip in
    let r =
      read_v2-header 0x21 0x21 fields payload mode trusted (new_meta peer) _ _ refl (omega arith) (
        take-append-drop (min got 1024)
          (v2_signature ++ (v2_fields (v6 s) sport (v6 d) dport ++ payload))) in
    (
      r.1,
      r.2,
      signed parse_ip got peer mode trusted_proxies (v2_fields (v6 s) sport (v6 d) dport ++ payload)
            on h
          ∙ r.3
          ∙ command-v6 mode trusted peer sport dport s d (r.0) (r.1) (hs.0) (hs.1) (hd.0) (hd.1),
    )
opens parse_ip got peer mode trusted_proxies (v4 s) (v6 d) sport dport payload on h hs hd =
    opens_local parse_ip got peer mode trusted_proxies payload on h
opens parse_ip got peer mode trusted_proxies (v6 s) (v4 d) sport dport payload on h hs hd =
    opens_local parse_ip got peer mode trusted_proxies payload on h

-- A connection that begins with the header that `encode_proxy_protocol_v2` writes, in every mode
-- but `off`, if the first read gives the signature at least: from a trusted peer it opens with the
-- addresses of the header, from another it is refused in strict mode and opens unchanged in auto
-- mode, and a header for two families only sets the version; in each case what is behind the header
-- is what is left to read.
pub read-encode_v2 :
    (parse_ip : List ℕ → Option IpAddr) (got : ℕ) (peer : SocketAddr) (mode : ProxyProtocolMode)
    (trusted_proxies : Option (List (IpAddr → Bool))) (src dst : SocketAddr) (payload : List ℕ)
    → is_off mode ≡ false
    → 12 ≤ got
    → IsSocketAddr src
    → IsSocketAddr dst
    → (stream : PrefixedStream) × (unread stream ≡ payload)
      × (read_proxy_protocol_with_meta parse_ip got
            (encode_proxy_protocol_v2 src dst ++ payload)
            peer
            mode
            trusted_proxies
          ≡ outcome mode (is_trusted trusted_proxies peer.ip) peer src dst stream)
unfolding encode_proxy_protocol_v2
read-encode_v2 parse_ip got peer mode trusted_proxies src dst payload on h hs hd =
    opens parse_ip got peer mode trusted_proxies src.ip dst.ip src.port dst.port payload on h hs hd
