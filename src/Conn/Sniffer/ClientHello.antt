-- ===== src/Conn/Sniffer/ClientHello.antt =====
-- src/conn/sniffer.rs: the server name of a ClientHello is found.
use elise_backend.Prelude.{
  ℕ, suc, ◌+◌, ◌^◌, ◌≤◌, ◌<◌, ◌≡◌, refl, min, true, some, List, [], ◌∷◌, ◌++◌, arith, ok, length,
  length-append, le→ltb, lt→leb,
}
use elise_backend.Prelude.Bytes.{to_be_u16, All}
use elise_backend.Prelude.Position.{At, At-append, At-index}
use elise_backend.Prelude.Text.{is_utf8}
use elise_backend.Conn.Sniffer.{
  after_compression, after_ciphers, after_session_id, parse_client_hello_body, parse_tls_sni,
}
use elise_backend.Conn.Sniffer.Extensions.{
  Other, extension_bytes, extensions_bytes, server_name_bytes, be_at-At, extensions-At,
}

fewer : (es : List (ℕ × List ℕ)) → length es ≤ length (extensions_bytes es)
fewer [] = omega arith
fewer (e ∷ es) =
    omega (arith, fewer es, length-append (extension_bytes e.0 e.1) (extensions_bytes es))

-- A ClientHello: the 37 bytes behind its type, the session id, the cipher suites, the compression
-- methods, the extensions before the server name, the host, and the bytes of the extensions behind.
pub record ClientHello : Type 0 where
  pub front : List ℕ
  pub session_id : List ℕ
  pub ciphers : List ℕ
  pub compression : List ℕ
  pub others : List (ℕ × List ℕ)
  pub host : List ℕ
  pub behind : List ℕ

abbrev pub named_extensions : ClientHello → List ℕ
named_extensions h =
    extensions_bytes h.others ++ (extension_bytes 0 (server_name_bytes h.host) ++ h.behind)

abbrev pub client_hello_bytes : ClientHello → List ℕ
client_hello_bytes h =
    (1 ∷ h.front)
    ++ (length h.session_id
        ∷ (h.session_id
            ++ (to_be_u16 (length h.ciphers)
                ++ (h.ciphers
                    ++ (length h.compression
                        ∷ (h.compression
                            ++ (to_be_u16 (length (named_extensions h)) ++ named_extensions h)))))))

-- The sizes that the length fields can tell, and a host that is text.
abbrev pub WellFormed : ClientHello → Type 0
WellFormed h =
    (length h.front ≡ 37)
    × (length h.session_id < 256)
    × (length h.ciphers < 2 ^ 16)
    × (length h.compression < 256)
    × (length (named_extensions h) < 2 ^ 16)
    × All Other h.others
    × (is_utf8 h.host ≡ true)

module _ (h : ClientHello) (well : WellFormed h) (buf : List ℕ) where
  size :
      length (named_extensions h)
      ≡ length (extensions_bytes h.others) + (9 + length h.host + length h.behind)
  size = omega (
    arith,
    length-append (extensions_bytes h.others)
        (extension_bytes 0 (server_name_bytes h.host) ++ h.behind),
    length-append (extension_bytes 0 (server_name_bytes h.host)) h.behind,
  )

  after_compression-At :
      (pos : ℕ)
      → At buf pos (to_be_u16 (length (named_extensions h)) ++ named_extensions h)
      → after_compression buf pos ≡ ok (some h.host)
  unfolding after_compression
  after_compression-At pos a =
      let n = length (named_extensions h) in
      let exts = At-append buf pos (to_be_u16 n) (named_extensions h) (pos + 2) a refl in
      rw
        (
          le→ltb (length buf) (pos + 2) (omega (arith, exts.0)),
          be_at-At buf pos n (named_extensions h) (well.4) a,
          extensions-At buf (suc (length buf)) (pos + 2) (min (pos + 2 + n) (length buf)) h.others
              h.host h.behind (well.5) (omega (arith, size, well.4)) (well.6)
              (omega (arith, fewer h.others, size, exts.0)) (omega (arith, size, exts.0)) exts,
        )
        refl

  after_ciphers-At :
      (pos : ℕ)
      → At buf pos (
          length h.compression
          ∷ (h.compression ++ (to_be_u16 (length (named_extensions h)) ++ named_extensions h)))
      → after_ciphers buf pos ≡ ok (some h.host)
  unfolding after_ciphers
  after_ciphers-At pos a =
      let tail = to_be_u16 (length (named_extensions h)) ++ named_extensions h in
      rw
        (
          lt→leb (length buf) pos (omega (arith, a.0)),
          At-index buf pos (length h.compression) (h.compression ++ tail) a,
          after_compression-At (pos + (1 + length h.compression)) (
              At-append buf pos (length h.compression ∷ h.compression) tail
                (pos + (1 + length h.compression)) a (omega arith)),
        )
        refl

  after_session_id-At :
      (pos : ℕ)
      → At buf pos (
          to_be_u16 (length h.ciphers)
          ++ (h.ciphers
              ++ (length h.compression
                  ∷ (h.compression
                      ++ (to_be_u16 (length (named_extensions h)) ++ named_extensions h)))))
      → after_session_id buf pos ≡ ok (some h.host)
  unfolding after_session_id
  after_session_id-At pos a =
      let tail =
        length h.compression
        ∷ (h.compression ++ (to_be_u16 (length (named_extensions h)) ++ named_extensions h)) in
      let n = length h.ciphers in
      rw
        (
          le→ltb (length buf) (pos + 2) (omega (arith, a.0)),
          be_at-At buf pos n (h.ciphers ++ tail) (well.2) a,
          after_ciphers-At (pos + (2 + n))
              (At-append buf pos (to_be_u16 n ++ h.ciphers) tail (pos + (2 + n)) a (omega arith)),
        )
        refl

  hello-At : At buf 0 (client_hello_bytes h) → parse_client_hello_body buf ≡ ok (some h.host)
  unfolding parse_client_hello_body
  hello-At a =
      let tail =
        to_be_u16 (length h.ciphers)
        ++ (h.ciphers
            ++ (length h.compression
                ∷ (h.compression
                    ++ (to_be_u16 (length (named_extensions h)) ++ named_extensions h)))) in
      let n = length h.session_id in
      let id =
        At-append buf 0 (1 ∷ h.front) (n ∷ (h.session_id ++ tail)) 38 a (omega (arith, well.0)) in
      rw
        (
          le→ltb (length buf) 38 (omega (arith, id.0)),
          lt→leb (length buf) 38 (omega (arith, id.0)),
          At-index buf 38 n (h.session_id ++ tail) id,
          after_session_id-At (38 + (1 + n))
              (At-append buf 38 (n ∷ h.session_id) tail (38 + (1 + n)) id (omega arith)),
        )
        refl

-- The server name of a ClientHello, in a record with any version and length: whatever the session
-- id, the cipher suites and the other extensions before and behind it are.
pub parse_tls_sni-client_hello :
    (h : ClientHello) (v w x y : ℕ)
    → WellFormed h
    → parse_tls_sni (0x16 ∷ v ∷ w ∷ x ∷ y ∷ client_hello_bytes h) ≡ ok (some h.host)
unfolding parse_tls_sni
parse_tls_sni-client_hello h v w x y well =
    let bytes = client_hello_bytes h in
    rw
      (
        le→ltb (length (0x16 ∷ v ∷ w ∷ x ∷ y ∷ bytes)) 5 (omega arith),
        lt→leb (length (0x16 ∷ v ∷ w ∷ x ∷ y ∷ bytes)) 5 (omega arith),
        hello-At h well bytes (omega arith, refl),
      )
      refl
