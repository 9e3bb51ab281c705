-- ===== src/Conn/Sniffer/Bounds.antt =====
-- src/conn/sniffer.rs: no bytes make the sniffer panic.
use elise_backend.Prelude.{
  ℕ, zero, suc, ◌+◌, ◌-◌, ◌≤◌, ◌<◌, ◌≡◌, min, false, not, ◌&&◌, Option, none, some, List, [], ◌∷◌,
  ltb, leb, ◌==◌, arith, Io, ok, index, length, drop, Returns, bind-Returns, if-Returns, leb→le,
  leb→lt, ltb→le, bit_and,
}
use elise_backend.Prelude.Position.{index-below, slice-below}
use elise_backend.Prelude.Text.{is_utf8}
use elise_backend.Prelude.Strings.{any, is_empty}
use elise_backend.Prelude.{starts_with}
use elise_backend.Conn.Sniffer.{
  be_at, name_or, server_names, in_extension, found_or, extensions, after_compression,
  after_ciphers, after_session_id, parse_client_hello_body, parse_tls_sni, quic_from,
  parse_quic_sni, parse_http_host, http_prefixes, is_at, tls, http, quic, Protocol, named, try_quic,
  try_http, sniff_domain,
}

abbrev pub Quiet {ℓ} : {A : Type ℓ} → Io A → Type 0
Quiet m = Returns (λ a. Unit) m

index-Quiet : (buf : List ℕ) (i : ℕ) → i < length buf → Quiet (index buf i)
index-Quiet buf i h = rw ((index-below buf i h).1) tt

be_at-Quiet : (buf : List ℕ) (i : ℕ) → i + 1 < length buf → Quiet (be_at buf i)
unfolding be_at
be_at-Quiet buf i h = rw ((index-below buf i (omega arith)).1, (index-below buf (i + 1) h).1) tt

name_or-Quiet :
    (rest : Io (Option (List ℕ))) (name : List ℕ) → Quiet rest → Quiet (name_or rest name)
unfolding name_or
name_or-Quiet rest name h =
    if-Returns (λ a. Unit) (is_utf8 name) (ok (some name)) rest (λ e. tt) (λ e. h)

found_or-Quiet :
    (next : Io (Option (List ℕ))) (o : Option (List ℕ)) → Quiet next → Quiet (found_or next o)
unfolding found_or
found_or-Quiet next none h = h
found_or-Quiet next (some x) h = tt

module _ (buf : List ℕ) where
  server_names-Quiet :
      (fuel pos list_end : ℕ)
      → list_end ≤ length buf
      → list_end < pos + fuel
      → 0 < fuel
      → Quiet (server_names fuel buf pos list_end)
  unfolding server_names
  server_names-Quiet zero pos list_end h k z = absurd (omega arith)
  server_names-Quiet (suc fuel) pos list_end h k z =
      if-Returns (λ a. Unit) (leb (pos + 3) list_end) _ _
        (λ e.
          let room : pos + 3 ≤ list_end = leb→le (pos + 3) list_end e in
          bind-Returns (λ a. Unit) (λ a. Unit) (index buf pos) _ (index-Quiet buf pos (omega arith))
            (λ name_type u.
              bind-Returns (λ a. Unit) (λ a. Unit) (be_at buf (pos + 1)) _
                (be_at-Quiet buf (pos + 1) (omega arith))
                (λ name_len v.
                  let rest =
                    server_names-Quiet fuel (pos + 3 + name_len) list_end h (omega arith)
                      (omega arith) in
                  if-Returns (λ a. Unit) (name_type == 0 && leb (pos + 3 + name_len) list_end) _ _
                    (λ f.
                      let ends : pos + 3 + name_len ≤ list_end =
                        ground (arith, f, leb→le (pos + 3 + name_len) list_end) in
                      let s =
                        slice-below buf (pos + 3) (pos + 3 + name_len) (omega arith)
                          (omega arith) in
                      rw (s.1) (
                        name_or-Quiet (server_names fuel buf (pos + 3 + name_len) list_end) s.0
                          rest))
                    (λ f. rest))))
        (λ e. tt)

  in_extension-Quiet :
      (pos end_ext ext_type : ℕ)
      → end_ext ≤ length buf
      → Quiet (in_extension buf pos end_ext ext_type)
  unfolding in_extension
  in_extension-Quiet pos end_ext ext_type h =
      if-Returns (λ a. Unit) (ext_type == 0 && leb (pos + 2) end_ext) _ _
        (λ e.
          let room : pos + 2 ≤ end_ext = ground (arith, e, leb→le (pos + 2) end_ext) in
          bind-Returns (λ a. Unit) (λ a. Unit) (be_at buf pos) _ (be_at-Quiet buf pos (omega arith))
            (λ list_len u.
              server_names-Quiet (suc (length buf)) (pos + 2) (min (pos + 2 + list_len) end_ext)
                (omega arith) (omega arith) (omega arith)))
        (λ e. tt)

  extensions-Quiet :
      (fuel pos end_ext : ℕ)
      → end_ext ≤ length buf
      → end_ext < pos + fuel
      → 0 < fuel
      → Quiet (extensions fuel buf pos end_ext)
  unfolding extensions
  extensions-Quiet zero pos end_ext h k z = absurd (omega arith)
  extensions-Quiet (suc fuel) pos end_ext h k z =
      if-Returns (λ a. Unit) (leb (pos + 4) end_ext) _ _
        (λ e.
          let room : pos + 4 ≤ end_ext = leb→le (pos + 4) end_ext e in
          bind-Returns (λ a. Unit) (λ a. Unit) (be_at buf pos) _ (be_at-Quiet buf pos (omega arith))
            (λ ext_type u.
              bind-Returns (λ a. Unit) (λ a. Unit) (be_at buf (pos + 2)) _
                (be_at-Quiet buf (pos + 2) (omega arith))
                (λ ext_size v.
                  let next =
                    extensions-Quiet fuel (pos + 4 + ext_size) end_ext h (omega arith)
                      (omega arith) in
                  bind-Returns (λ a. Unit) (λ a. Unit) (in_extension buf (pos + 4) end_ext ext_type)
                    _ (in_extension-Quiet (pos + 4) end_ext ext_type h)
                    (λ o w.
                      found_or-Quiet (extensions fuel buf (pos + 4 + ext_size) end_ext) o next))))
        (λ e. tt)

  after_compression-Quiet : (pos : ℕ) → Quiet (after_compression buf pos)
  unfolding after_compression
  after_compression-Quiet pos =
      if-Returns (λ a. Unit) (ltb (length buf) (pos + 2)) _ _ (λ e. tt)
        (λ e.
          let room : pos + 2 ≤ length buf = ltb→le (length buf) (pos + 2) e in
          bind-Returns (λ a. Unit) (λ a. Unit) (be_at buf pos) _ (be_at-Quiet buf pos (omega arith))
            (λ ext_len u.
              extensions-Quiet (suc (length buf)) (pos + 2) (min (pos + 2 + ext_len) (length buf))
                (omega arith) (omega arith) (omega arith)))

  after_ciphers-Quiet : (pos : ℕ) → Quiet (after_ciphers buf pos)
  unfolding after_ciphers
  after_ciphers-Quiet pos =
      if-Returns (λ a. Unit) (leb (length buf) pos) _ _ (λ e. tt)
        (λ e.
          bind-Returns (λ a. Unit) (λ a. Unit) (index buf pos) _
            (index-Quiet buf pos (leb→lt (length buf) pos e))
            (λ n u. after_compression-Quiet (pos + (1 + n))))

  after_session_id-Quiet : (pos : ℕ) → Quiet (after_session_id buf pos)
  unfolding after_session_id
  after_session_id-Quiet pos =
      if-Returns (λ a. Unit) (ltb (length buf) (pos + 2)) _ _ (λ e. tt)
        (λ e.
          let room : pos + 2 ≤ length buf = ltb→le (length buf) (pos + 2) e in
          bind-Returns (λ a. Unit) (λ a. Unit) (be_at buf pos) _ (be_at-Quiet buf pos (omega arith))
            (λ n u. after_ciphers-Quiet (pos + (2 + n))))

  parse_client_hello_body-Quiet : Quiet (parse_client_hello_body buf)
  unfolding parse_client_hello_body
  parse_client_hello_body-Quiet =
      if-Returns (λ a. Unit) (ltb (length buf) (4 + 2 + 32)) _ _ (λ e. tt)
        (λ e.
          if-Returns (λ a. Unit) (leb (length buf) 38) _ _ (λ f. tt)
            (λ f.
              bind-Returns (λ a. Unit) (λ a. Unit) (index buf 38) _
                (index-Quiet buf 38 (leb→lt (length buf) 38 f))
                (λ n u. after_session_id-Quiet (38 + (1 + n)))))

parse_tls_sni-Quiet : (buf : List ℕ) → Quiet (parse_tls_sni buf)
unfolding parse_tls_sni
parse_tls_sni-Quiet buf =
    if-Returns (λ a. Unit) (ltb (length buf) 5) _ _ (λ e. tt)
      (λ e.
        let room : 5 ≤ length buf = ltb→le (length buf) 5 e in
        bind-Returns (λ a. Unit) (λ a. Unit) (index buf 0) _ (index-Quiet buf 0 (omega arith))
          (λ kind u.
            if-Returns (λ a. Unit) (not (kind == 0x16)) _ _ (λ f. tt)
              (λ f.
                if-Returns (λ a. Unit) (leb (length buf) 5) _ _ (λ g. tt)
                  (λ g.
                    bind-Returns (λ a. Unit) (λ a. Unit) (index buf 5) _
                      (index-Quiet buf 5 (leb→lt (length buf) 5 g))
                      (λ message v.
                        if-Returns (λ a. Unit) (not (message == 0x01)) _ _ (λ h. tt)
                          (λ h. parse_client_hello_body-Quiet (drop 5 buf)))))))

quic_from-Quiet :
    (count : ℕ) (buf : List ℕ) (i : ℕ) → i + count ≤ length buf → Quiet (quic_from count buf i)
unfolding quic_from
quic_from-Quiet zero buf i h = tt
quic_from-Quiet (suc count) buf i h =
    let rest = quic_from-Quiet count buf (i + 1) (omega arith) in
    bind-Returns (λ a. Unit) (λ a. Unit) (index buf i) _ (index-Quiet buf i (omega arith))
      (λ b u.
        if-Returns (λ a. Unit) (b == 0x01 && (is_at buf (i + 4) 0x03 && is_at buf (i + 5) 0x03)) _ _
          (λ e.
            bind-Returns (λ a. Unit) (λ a. Unit) (parse_client_hello_body (drop i buf)) _
              (parse_client_hello_body-Quiet (drop i buf))
              (λ o v. found_or-Quiet (quic_from count buf (i + 1)) o rest))
          (λ e. rest))

named-Quiet :
    (p : Protocol) (next : Io (Option (List ℕ × Protocol))) (o : Option (List ℕ))
    → Quiet next
    → Quiet (named p next o)
unfolding named
named-Quiet p next none h = h
named-Quiet p next (some x) h = tt

try_quic-Quiet : (buf : List ℕ) → 0 < length buf → Quiet (try_quic buf)
unfolding try_quic parse_quic_sni
try_quic-Quiet buf h =
    bind-Returns (λ a. Unit) (λ a. Unit) (index buf 0) _ (index-Quiet buf 0 h)
      (λ b u.
        if-Returns (λ a. Unit) (not (bit_and b 0x80 == 0) && ltb 40 (length buf)) _ _
          (λ e.
            bind-Returns (λ a. Unit) (λ a. Unit) (quic_from (length buf - 40) buf 0) _
              (quic_from-Quiet (length buf - 40) buf 0 (omega arith))
              (λ o v. named-Quiet quic (ok none) o tt))
          (λ e. tt))

try_http-Quiet :
    (trim : List ℕ → List ℕ) (buf : List ℕ) → 0 < length buf → Quiet (try_http trim buf)
unfolding try_http
try_http-Quiet trim buf h =
    if-Returns (λ a. Unit) (any (starts_with buf) http_prefixes) _ _
      (λ e. named-Quiet http (try_quic buf) (parse_http_host trim buf) (try_quic-Quiet buf h))
      (λ e. try_quic-Quiet buf h)

something : (buf : List ℕ) → is_empty buf ≡ false → 0 < length buf
something [] h = cc
something (b ∷ buf) h = omega arith

-- On any bytes the sniffer returns: it never reads out of bounds, and no loop runs out of its fuel.
pub sniff_domain-Quiet : (trim : List ℕ → List ℕ) (buf : List ℕ) → Quiet (sniff_domain trim buf)
unfolding sniff_domain
sniff_domain-Quiet trim buf =
    if-Returns (λ a. Unit) (is_empty buf) _ _ (λ e. tt)
      (λ e.
        let some_byte = something buf e in
        bind-Returns (λ a. Unit) (λ a. Unit) (index buf 0) _ (index-Quiet buf 0 some_byte)
          (λ b u.
            if-Returns (λ a. Unit) (b == 0x16 && ltb 43 (length buf)) _ _
              (λ f.
                bind-Returns (λ a. Unit) (λ a. Unit) (parse_tls_sni buf) _ (parse_tls_sni-Quiet buf)
                  (λ o v.
                    named-Quiet tls (try_http trim buf) o (try_http-Quiet trim buf some_byte)))
              (λ f. try_http-Quiet trim buf some_byte)))
