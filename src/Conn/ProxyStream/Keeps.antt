-- ===== src/Conn/ProxyStream/Keeps.antt =====
-- No byte of a connection is lost or doubled while its PROXY header is read.
use elise_backend.Prelude.{
  ℕ, ◌+◌, ◌-◌, ◌/◌, ◌^◌, ◌≤◌, min, ◌≡◌, ◌⊎◌, refl, sym, ap, ◌∙◌, Bool, true, false, not, ◌&&◌,
  Option, none, some, List, [], ◌∷◌, ◌++◌, arith, leb, ◌==◌, length, drop, take, take-append-drop,
  inl, inr, leb→le, ok, Safe, bind-Safe, if-Safe, bit_and, starts_with,
}
use mathlib.Core.List.{append_assoc}
use elise_backend.Prelude.Position.{index-below}
use elise_backend.Prelude.Text.{codes}
use elise_backend.Prelude.Net.{IpAddr, SocketAddr}
use elise_backend.Conn.ProxyHeader.{ProxyProtocolMode, is_off, is_strict, v2_signature}
use elise_backend.Conn.ProxyHeader.Fields.{port_from-below, v4_from-below, v6_from-below}
use elise_backend.Conn.ProxyLine.{find_crlf, fill_line, addresses, unknown, malformed, parse_line}
use elise_backend.Conn.ProxyStream.{
  PrefixedStream, new_stream, ConnectionMeta, new_meta, is_trusted, left_over, take_addresses,
  push_bytes, fill_to, v2_command, read_v2, no_header, v1_line, read_v1, read_chunk,
  read_proxy_protocol_with_meta,
}
use elise_backend.Conn.ProxyStream.Header.{
  Header, HeaderOne, HeaderTwo, has_prefix-lem, push_bytes-lem, fill_to-lem, fill_line-lem,
  front-HeaderTwo, front-HeaderOne,
}
use elise_backend.Conn.ProxyStream.Poll.{unread}

-- The bytes are the unread ones, or those behind one header: its version was found, or the peer is
-- not trusted and no version is on record.
abbrev pub Keeps : List ℕ → Bool → ConnectionMeta × PrefixedStream → Type 0
Keeps stream trusted (meta, s) =
    ((stream ≡ unread s) × (meta.proxy_protocol_version ≡ none))
    ⊎ ((version : ℕ) × (header : List ℕ) × Header version header
        × (stream ≡ header ++ unread s)
        × ((meta.proxy_protocol_version ≡ some version)
            ⊎ ((trusted ≡ false) × (meta.proxy_protocol_version ≡ none))))

pub unread-left_over : (rest s : List ℕ) → unread (new_stream rest (left_over s)) ≡ s ++ rest
unread-left_over rest [] = refl
unread-left_over rest (b ∷ s) = refl

module _ (stream : List ℕ) (trusted : Bool) where
  -- Nothing was passed over.
  all_kept :
      (meta : ConnectionMeta) (rest buf : List ℕ)
      → meta.proxy_protocol_version ≡ none
      → stream ≡ buf ++ rest
      → Keeps stream trusted (meta, new_stream rest (some buf))
  all_kept meta rest buf new h = inl (h, new)

  no_header-Keeps :
      (mode : ProxyProtocolMode) (meta : ConnectionMeta) (buf rest : List ℕ)
      → meta.proxy_protocol_version ≡ none
      → stream ≡ buf ++ rest
      → Safe (Keeps stream trusted) (no_header mode meta buf rest)
  unfolding no_header
  no_header-Keeps mode meta buf rest new h =
      if-Safe (Keeps stream trusted) (is_strict mode) _ _ (λ _. tt)
        (λ _. all_kept meta rest buf new h)

  -- Behind a header of `n` bytes in the buffer.
  behind :
      (version : ℕ) (meta : ConnectionMeta) (buf rest : List ℕ) (n : ℕ)
      → stream ≡ buf ++ rest
      → Header version (take n buf)
      → (meta.proxy_protocol_version ≡ some version)
        ⊎ ((trusted ≡ false) × (meta.proxy_protocol_version ≡ none))
      → Keeps stream trusted (meta, new_stream rest (left_over (drop n buf)))
  behind version meta buf rest n h header why = inr (
    version,
    take n buf,
    header,
    h
        ∙ ap (λ t. t ++ rest) (sym (take-append-drop n buf))
        ∙ append_assoc (take n buf) (drop n buf) rest
        ∙ ap (λ t. take n buf ++ t) (sym (unread-left_over rest (drop n buf))),
    why,
  )

  take_addresses-Keeps :
      (mode : ProxyProtocolMode) (meta : ConnectionMeta) (version : ℕ) (client dest : SocketAddr)
      (buf rest : List ℕ) (n : ℕ)
      → meta.proxy_protocol_version ≡ none
      → stream ≡ buf ++ rest
      → Header version (take n buf)
      → Safe (Keeps stream trusted) (
          take_addresses mode trusted meta version client dest
            (new_stream rest (left_over (drop n buf))))
  unfolding take_addresses
  take_addresses-Keeps mode meta version client dest buf rest n new h header =
      if-Safe (Keeps stream trusted) trusted _ _
        (λ _.
          behind version
            (record meta {
              client_addr = client;
              proxy_destination_addr = some dest;
              proxy_protocol_version = some version;
            })
            buf rest n h header (inl refl))
        (λ e.
          if-Safe (Keeps stream trusted) (is_strict mode) _ _ (λ _. tt)
            (λ _. behind version meta buf rest n h header (inr (e, new))))

  last_test : (a b c : Bool) → (a && (b && c)) ≡ true → c ≡ true
  last_test a b c h = ground (arith, h)

  v2_command-Keeps :
      (mode : ProxyProtocolMode) (meta : ConnectionMeta) (buf rest : List ℕ) (vc ft payload_len : ℕ)
      → meta.proxy_protocol_version ≡ none
      → stream ≡ buf ++ rest
      → 16 + payload_len ≤ length buf
      → HeaderTwo (take (16 + payload_len) buf)
      → Safe (Keeps stream trusted) (
          v2_command mode trusted meta buf vc ft payload_len
            (new_stream rest (left_over (drop (16 + payload_len) buf))))
  unfolding v2_command
  v2_command-Keeps mode meta buf rest vc ft payload_len new h fits two =
      let K = Keeps stream trusted in
      let cmd = bit_and vc 0x0f == 0x01 in
      let fam = bit_and (ft / 2 ^ 4) 0x0f in
      let n : ℕ = 16 + payload_len in
      if-Safe K (cmd && (fam == 0x01 && leb 12 payload_len)) _ _
        (λ e.
          let long = leb→le 12 payload_len (last_test cmd (fam == 0x01) _ e) in
          let client = v4_from-below buf 16 24 (omega arith) (omega arith) in
          let dest = v4_from-below buf 20 26 (omega arith) (omega arith) in
          rw (client.1, dest.1)
            (take_addresses-Keeps mode meta 2 client.0 dest.0 buf rest n new h (inl (refl, two))))
        (λ _.
          if-Safe K (cmd && (fam == 0x02 && leb 36 payload_len)) _ _
            (λ e.
              let long = leb→le 36 payload_len (last_test cmd (fam == 0x02) _ e) in
              let client = v6_from-below buf 16 48 (omega arith) (omega arith) in
              let dest = v6_from-below buf 32 50 (omega arith) (omega arith) in
              rw (client.1, dest.1)
                (take_addresses-Keeps mode meta 2 client.0 dest.0 buf rest n new h
                  (inl (refl, two))))
            (λ _.
              behind 2 (record meta { proxy_protocol_version = some 2 }) buf rest n h
                (inl (refl, two)) (inl refl)))

  read_v2-Keeps :
      (mode : ProxyProtocolMode) (meta : ConnectionMeta) (chunk rest : List ℕ)
      → meta.proxy_protocol_version ≡ none
      → stream ≡ chunk ++ rest
      → starts_with chunk v2_signature ≡ true
      → Safe (Keeps stream trusted) (read_v2 mode trusted meta chunk rest)
  unfolding read_v2
  read_v2-Keeps mode meta chunk rest new h starts =
      let K = Keeps stream trusted in
      bind-Safe
        (λ r.
          (more : List ℕ) × (r.0 ≡ chunk ++ more)
          × (chunk ++ rest ≡ r.0 ++ r.1)
          × (length r.0 ≡ length chunk + (16 - length chunk)))
        K (push_bytes (16 - length chunk) chunk rest) _
        (push_bytes-lem (16 - length chunk) chunk rest)
        (λ r k.
          let long : 16 ≤ length r.0 = omega (arith, k.3) in
          let vc = index-below r.0 12 (omega arith) in
          let ft = index-below r.0 13 (omega arith) in
          let n = port_from-below r.0 14 (omega arith) in
          rw (vc.1, ft.1, n.1)
            (if-Safe K (not (vc.0 / 2 ^ 4 == 2)) _ _
              (λ _.
                if-Safe K (is_strict mode) _ _ (λ _. tt) (λ _. all_kept meta r.1 r.0 new (h ∙ k.2)))
              (λ _.
                bind-Safe
                  (λ q.
                    (more : List ℕ) × (q.0 ≡ r.0 ++ more)
                    × (r.0 ++ r.1 ≡ q.0 ++ q.1)
                    × (16 + n.0 ≤ length q.0))
                  K (fill_to (16 + n.0) r.0 r.1) _ (fill_to-lem (16 + n.0) r.0 r.1)
                  (λ q j. v2_command-Keeps mode meta q.0 q.1 vc.0 ft.0 n.0 new (h ∙ k.2 ∙ j.2) j.3 (
                    front-HeaderTwo chunk (k.0) (j.0) r.0 q.0 n.0 (k.1) (j.1) starts n.1 long
                      j.3)))))

  v1_line-Keeps :
      (parse_ip : List ℕ → Option IpAddr) (mode : ProxyProtocolMode) (meta : ConnectionMeta)
      (buf rest : List ℕ) (pos : ℕ)
      → meta.proxy_protocol_version ≡ none
      → stream ≡ buf ++ rest
      → HeaderOne (take (pos + 2) buf)
      → Safe (Keeps stream trusted) (v1_line parse_ip mode trusted meta buf rest pos)
  unfolding v1_line
  v1_line-Keeps parse_ip mode meta buf rest pos new h one =
      elim (parse_line parse_ip (take pos buf))
        as (λ l. Safe (Keeps stream trusted) (elim l [
          | addresses client dest ↦
              take_addresses mode trusted meta 1 client dest
                (new_stream rest (left_over (drop (pos + 2) buf)))
          | unknown ↦ ok (
            record meta { proxy_protocol_version = some 1 },
            new_stream rest (left_over (drop (pos + 2) buf)),
          )
          | malformed ↦ no_header mode meta buf rest
        ])) [
          | addresses client dest ↦
              take_addresses-Keeps mode meta 1 client dest buf rest (pos + 2) new h
                (inr (refl, one))
          | unknown ↦
              behind 1 (record meta { proxy_protocol_version = some 1 }) buf rest (pos + 2) h
                (inr (refl, one)) (inl refl)
          | malformed ↦ no_header-Keeps mode meta buf rest new h
        ]

  read_v1-Keeps :
      (parse_ip : List ℕ → Option IpAddr) (mode : ProxyProtocolMode) (meta : ConnectionMeta)
      (chunk rest : List ℕ)
      → meta.proxy_protocol_version ≡ none
      → stream ≡ chunk ++ rest
      → starts_with chunk (codes "PROXY ") ≡ true
      → Safe (Keeps stream trusted) (read_v1 parse_ip mode trusted meta chunk rest)
  unfolding read_v1
  read_v1-Keeps parse_ip mode meta chunk rest new h starts =
      let filled = fill_line-lem chunk rest in
      at (fill_line chunk rest).0 (fill_line chunk rest).1 (filled.0) (filled.1) (h ∙ filled.2)
        (find_crlf (fill_line chunk rest).0) refl
    where
      at :
          (buf rest' more : List ℕ)
          → buf ≡ chunk ++ more
          → stream ≡ buf ++ rest'
          → (o : Option ℕ) → find_crlf buf ≡ o
          → Safe (Keeps stream trusted) (elim o [
            | none ↦ no_header mode meta buf rest'
            | some pos ↦ v1_line parse_ip mode trusted meta buf rest' pos
          ])
      at buf rest' more b whole none e = no_header-Keeps mode meta buf rest' new whole
      at buf rest' more b whole (some pos) e =
          v1_line-Keeps parse_ip mode meta buf rest' pos new whole
            (front-HeaderOne chunk more buf pos b starts e)

no_length : (xs : List ℕ) → (length xs == 0) ≡ true → xs ≡ []
no_length [] h = refl
no_length (x ∷ xs) h = absurd (ground (arith, h))

-- Reading the header of a connection never panics, whatever it sends and however its first bytes
-- arrive. If the connection is opened, either all its bytes are still unread and no version is on
-- record, or they are one complete header and then those still unread: a header of version 2 is the
-- signature, four bytes and as many as the last two of them say, one of version 1 begins with
-- `PROXY ` and ends with its first CRLF. The version on record is then that of the header, or none
-- for a peer who is not trusted.
pub read_proxy_protocol-Keeps :
    (parse_ip : List ℕ → Option IpAddr) (got : ℕ) (stream : List ℕ) (peer_addr : SocketAddr)
    (mode : ProxyProtocolMode) (trusted_proxies : Option (List (IpAddr → Bool)))
    → Safe
        (Keeps stream (is_trusted trusted_proxies peer_addr.ip))
        (read_proxy_protocol_with_meta parse_ip got stream peer_addr mode trusted_proxies)
unfolding read_proxy_protocol_with_meta read_chunk new_meta
read_proxy_protocol-Keeps parse_ip got stream peer_addr mode trusted_proxies =
    let trusted = is_trusted trusted_proxies peer_addr.ip in
    let K = Keeps stream trusted in
    let meta = new_meta peer_addr in
    let n = min got 1024 in
    let chunk : List ℕ = take n stream in
    let rest : List ℕ = drop n stream in
    let whole : stream ≡ chunk ++ rest = sym (take-append-drop n stream) in
    if-Safe K (is_off mode) _ _ (λ _. inl (refl, refl))
      (λ _.
        if-Safe K (length chunk == 0) _ _
          (λ e. inl (whole ∙ ap (λ t. t ++ rest) (no_length chunk e), refl))
          (λ _.
            rw
              (
                has_prefix-lem v2_signature chunk 12 refl,
                has_prefix-lem (codes "PROXY ") chunk 6 refl,
              )
              (if-Safe K (leb 12 (length chunk) && starts_with chunk v2_signature) _ _
                (λ e. read_v2-Keeps stream trusted mode meta chunk rest refl whole (second _ _ e))
                (λ _.
                  if-Safe K (leb 6 (length chunk) && starts_with chunk (codes "PROXY ")) _ _
                    (λ e.
                      read_v1-Keeps stream trusted parse_ip mode meta chunk rest refl whole
                        (second _ _ e))
                    (λ _. no_header-Keeps stream trusted mode meta chunk rest refl whole)))))
  where
    second : (a b : Bool) → a && b ≡ true → b ≡ true
    second true b h = h
    second false b h = cc
