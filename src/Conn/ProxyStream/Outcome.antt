-- ===== src/Conn/ProxyStream/Outcome.antt =====
-- What a connection opens as when a PROXY header of version 2 was read.
use elise_backend.Prelude.{
  ℕ, ◌^◌, ◌<◌, ◌≡◌, refl, Bool, some, List, [], ◌++◌, arith, if◌then◌else◌, ok, err,
  permission_denied,
}
use elise_backend.Prelude.Net.{IpAddr, v4, v6, SocketAddr}
use elise_backend.Conn.ProxyHeader.{ProxyProtocolMode, is_strict}
use elise_backend.Conn.ProxyHeader.Fields.{pair_bytes, pair-v4, pair-v6}
use elise_backend.Conn.ProxyStream.{PrefixedStream, new_meta, Opened, take_addresses, v2_command}
use elise_backend.Conn.ProxyStream.HeaderTwo.{header}

-- What a connection opens as behind the header that `encode_proxy_protocol_v2` writes.
abbrev pub outcome_ip :
    IpAddr
    → IpAddr
    → ProxyProtocolMode
    → Bool
    → SocketAddr
    → SocketAddr
    → SocketAddr
    → PrefixedStream
    → Opened
outcome_ip (v4 _) (v6 _) mode trusted peer src dst s =
    ok (record (new_meta peer) { proxy_protocol_version = some 2 }, s)
outcome_ip (v6 _) (v4 _) mode trusted peer src dst s =
    ok (record (new_meta peer) { proxy_protocol_version = some 2 }, s)
outcome_ip _ _ mode trusted peer src dst s =
    if trusted
    then ok (
      record {
        transport_peer_addr = peer;
        client_addr = src;
        proxy_destination_addr = some dst;
        proxy_protocol_version = some 2;
      },
      s,
    )
    else if is_strict mode
    then err permission_denied
    else ok (new_meta peer, s)

abbrev pub outcome :
    ProxyProtocolMode → Bool → SocketAddr → SocketAddr → SocketAddr → PrefixedStream → Opened
outcome mode trusted peer src dst s = outcome_ip src.ip dst.ip mode trusted peer src dst s

module _ (mode : ProxyProtocolMode) (trusted : Bool) (peer : SocketAddr) (sport dport : ℕ) where
  module _ (s d : ℕ) (more : List ℕ) (stream : PrefixedStream) where
    pub command-v4 :
        s < 2 ^ 32
        → sport < 2 ^ 16
        → d < 2 ^ 32
        → dport < 2 ^ 16
        → v2_command mode trusted
            (new_meta peer)
            (header 0x21 0x11 (pair_bytes 4 s sport d dport []) [] ++ more)
            0x21
            0x11
            12
            stream
          ≡ outcome mode trusted peer
              (record { ip = v4 s; port = sport })
              (record { ip = v4 d; port = dport })
              stream
    unfolding v2_command take_addresses
    command-v4 hs hsp hd hdp =
        let buf : List ℕ = header 0x21 0x11 (pair_bytes 4 s sport d dport []) [] ++ more in
        let p = pair-v4 buf 16 s sport d dport more hs hsp hd hdp (omega arith, refl) in
        rw (p.0, p.1) (unfold new_meta in refl)

    pub command-v6 :
        s < 2 ^ 128
        → sport < 2 ^ 16
        → d < 2 ^ 128
        → dport < 2 ^ 16
        → v2_command mode trusted
            (new_meta peer)
            (header 0x21 0x21 (pair_bytes 16 s sport d dport []) [] ++ more)
            0x21
            0x21
            36
            stream
          ≡ outcome mode trusted peer
              (record { ip = v6 s; port = sport })
              (record { ip = v6 d; port = dport })
              stream
    unfolding v2_command take_addresses
    command-v6 hs hsp hd hdp =
        let buf : List ℕ = header 0x21 0x21 (pair_bytes 16 s sport d dport []) [] ++ more in
        let p = pair-v6 buf 16 s sport d dport more hs hsp hd hdp (omega arith, refl) in
        rw (p.0, p.1) (unfold new_meta in refl)
