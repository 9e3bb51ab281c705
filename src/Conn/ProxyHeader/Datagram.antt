-- ===== src/Conn/ProxyHeader/Datagram.antt =====
-- Datagrams with a PROXY header: what was encoded is found, and no datagram makes the reader panic.
use elise_backend.Prelude.{
  ℕ, ◌+◌, ◌-◌, ◌/◌, ◌^◌, ◌≤◌, ◌<◌, ◌≡◌, refl, sym, ap, ◌∙◌, Bool, true, false, not, ◌&&◌, ◌||◌,
  Option, none, some, List, [], ◌∷◌, ◌++◌, arith, bit_and, ltb, leb, ◌==◌, Io, ok, err, ◌>>=◌,
  slice, length, le→leb, le→ltb, take, drop, length-take, length-drop, starts_with, Safe, bind-Safe,
  if-Safe, ltb→le, leb→le, invalid_data, unexpected_eof,
}
use mathlib.Core.List.{append-nil}
use elise_backend.Prelude.Bytes.{to_be_u16}
use elise_backend.Prelude.Net.{IpAddr, v4, v6, SocketAddr}
use elise_backend.Prelude.Position.{At, At-append, At-index, At-slice, index-below, slice-below}
use elise_backend.Conn.ProxyHeader.{
  ProxyProtocolMode, is_off, is_strict, v2_signature, v2_fields, encode_proxy_protocol_v2,
  datagram_source, refuse_datagram, datagram_header, parse_proxy_protocol_datagram,
}
use elise_backend.Conn.ProxyHeader.Fields.{
  IsSocketAddr, pair_bytes, pair-v4, pair-v6, port_from-At, port_from-below, v4_from-below,
  v6_from-below,
}

-- The source that a header announces: none if the two addresses are of different families.
abbrev pub announced_ip : IpAddr → IpAddr → SocketAddr → Option SocketAddr
announced_ip (v4 s) (v4 d) src = some src
announced_ip (v6 s) (v6 d) src = some src
announced_ip _ _ src = none

abbrev pub announced : SocketAddr → SocketAddr → Option SocketAddr
announced src dst = announced_ip src.ip dst.ip src

header-At :
    (mode : ProxyProtocolMode) (buf payload rest : List ℕ) (version_cmd fam_trans : ℕ)
    → length payload < 2 ^ 16
    → (version_cmd / 2 ^ 4 == 2) ≡ true
    → At buf 12 (version_cmd ∷ fam_trans ∷ (to_be_u16 (length payload) ++ (payload ++ rest)))
    → datagram_header mode buf
      ≡ (datagram_source payload version_cmd fam_trans >>= λ src. ok (src, rest))
unfolding datagram_header
header-At mode buf payload rest vc ft fits version h =
    let tail = to_be_u16 (length payload) ++ (payload ++ rest) in
    let h₁₃ = At-append buf 12 (vc ∷ []) (ft ∷ tail) 13 h refl in
    let h₁₄ = At-append buf 12 (vc ∷ ft ∷ []) tail 14 h refl in
    let h₁₆ = At-append buf 14 (to_be_u16 (length payload)) (payload ++ rest) 16 h₁₄ refl in
    let total : ℕ = 16 + length payload in
    let h' = At-append buf 16 payload rest total h₁₆ refl in
    let h'' : At buf total (rest ++ []) =
      (omega (arith, h'.0, ap length (append-nil rest)), h'.1 ∙ sym (append-nil rest)) in
    rw
      (
        At-index buf 12 vc _ h,
        At-index buf 13 ft _ h₁₃,
        port_from-At buf 14 (length payload) _ fits h₁₄,
        version,
        le→ltb (length buf) total (omega (arith, h'.0)),
        At-slice buf 16 payload rest total h₁₆ refl,
        At-slice buf total rest [] (length buf) h'' (omega (arith, h'.0)),
      )
      refl

source-v4 :
    (s sport d dport : ℕ)
    → s < 2 ^ 32
    → sport < 2 ^ 16
    → d < 2 ^ 32
    → dport < 2 ^ 16
    → datagram_source (pair_bytes 4 s sport d dport []) 0x21 0x11
      ≡ ok (some (record { ip = v4 s; port = sport }))
unfolding datagram_source
source-v4 s sport d dport hs hsp hd hdp =
    rw
      ((pair-v4 (pair_bytes 4 s sport d dport []) 0 s sport d dport [] hs hsp hd hdp
        (refl, refl)).0)
      refl

source-v6 :
    (s sport d dport : ℕ)
    → s < 2 ^ 128
    → sport < 2 ^ 16
    → d < 2 ^ 128
    → dport < 2 ^ 16
    → datagram_source (pair_bytes 16 s sport d dport []) 0x21 0x21
      ≡ ok (some (record { ip = v6 s; port = sport }))
unfolding datagram_source
source-v6 s sport d dport hs hsp hd hdp =
    rw
      ((pair-v6 (pair_bytes 16 s sport d dport []) 0 s sport d dport [] hs hsp hd hdp
        (refl, refl)).0)
      refl

signed :
    (mode : ProxyProtocolMode) (tail : List ℕ)
    → is_off mode ≡ false
    → 4 ≤ length tail
    → parse_proxy_protocol_datagram (v2_signature ++ tail) mode
      ≡ datagram_header mode (v2_signature ++ tail)
unfolding parse_proxy_protocol_datagram
signed mode tail on h = rw (on, le→ltb (length (v2_signature ++ tail)) 16 (omega arith)) refl

header-local :
    (mode : ProxyProtocolMode) (rest : List ℕ)
    → datagram_header mode (v2_signature ++ (0x20 ∷ 0 ∷ 0 ∷ 0 ∷ rest)) ≡ ok (none, rest)
unfolding datagram_source
header-local mode rest =
    header-At mode (v2_signature ++ (0x20 ∷ 0 ∷ 0 ∷ 0 ∷ rest)) [] rest 0x20 0 (omega arith) refl
      (omega arith, refl)

header-fields :
    (mode : ProxyProtocolMode) (s d : IpAddr) (sport dport : ℕ) (rest : List ℕ)
    → IsSocketAddr (record { ip = s; port = sport })
    → IsSocketAddr (record { ip = d; port = dport })
    → datagram_header mode (v2_signature ++ (v2_fields s sport d dport ++ rest))
      ≡ ok (announced_ip s d (record { ip = s; port = sport }), rest)
header-fields mode (v4 s) (v4 d) sport dport rest hs hd =
    rw
      (
        header-At mode (v2_signature ++ (v2_fields (v4 s) sport (v4 d) dport ++ rest))
            (pair_bytes 4 s sport d dport []) rest 0x21 0x11 (omega arith) refl (omega arith, refl),
        source-v4 s sport d dport (hs.0) (hs.1) (hd.0) (hd.1),
      )
      refl
header-fields mode (v6 s) (v6 d) sport dport rest hs hd =
    rw
      (
        header-At mode (v2_signature ++ (v2_fields (v6 s) sport (v6 d) dport ++ rest))
            (pair_bytes 16 s sport d dport []) rest 0x21 0x21 (omega arith) refl
            (omega arith, refl),
        source-v6 s sport d dport (hs.0) (hs.1) (hd.0) (hd.1),
      )
      refl
header-fields mode (v4 s) (v6 d) sport dport rest hs hd = header-local mode rest
header-fields mode (v6 s) (v4 d) sport dport rest hs hd = header-local mode rest

-- Behind a header that `encode_proxy_protocol_v2` wrote, in every mode but `off`: the source, and
-- the datagram without the header. For addresses of different families the header names none.
pub parse_datagram-encode :
    (mode : ProxyProtocolMode) (src dst : SocketAddr) (rest : List ℕ)
    → is_off mode ≡ false
    → IsSocketAddr src
    → IsSocketAddr dst
    → parse_proxy_protocol_datagram (encode_proxy_protocol_v2 src dst ++ rest) mode
      ≡ ok (announced src dst, rest)
unfolding parse_proxy_protocol_datagram encode_proxy_protocol_v2
parse_datagram-encode mode src dst rest on hs hd =
    let fields : List ℕ = v2_fields src.ip src.port dst.ip dst.port in
    signed mode (fields ++ rest) on (long src.ip dst.ip src.port dst.port rest)
    ∙ header-fields mode src.ip dst.ip src.port dst.port rest hs hd
  where
    long :
        (s d : IpAddr) (sport dport : ℕ) (rest : List ℕ)
        → 4 ≤ length (v2_fields s sport d dport ++ rest)
    long (v4 s) (v4 d) sport dport rest = omega arith
    long (v6 s) (v6 d) sport dport rest = omega arith
    long (v4 s) (v6 d) sport dport rest = omega arith
    long (v6 s) (v4 d) sport dport rest = omega arith

last_test : (a b c : Bool) → (a && (b && c)) ≡ true → c ≡ true
last_test a b c h = ground (arith, h)

-- The parts of a payload that is long enough are there.
source-Safe :
    (payload : List ℕ) (version_cmd fam_trans : ℕ)
    → Safe (λ src. Unit {0}) (datagram_source payload version_cmd fam_trans)
unfolding datagram_source
source-Safe payload vc ft =
    let P : Option SocketAddr → Type 0 = λ src. Unit {0} in
    let cmd = bit_and vc 0x0f == 0x01 in
    let fam = bit_and (ft / 2 ^ 4) 0x0f in
    if-Safe P (cmd && (fam == 0x01 && leb 12 (length payload))) _ _
      (λ e.
        let n = leb→le 12 (length payload) (last_test cmd (fam == 0x01) _ e) in
        rw ((v4_from-below payload 0 8 (omega arith) (omega arith)).1) tt)
      (λ e.
        if-Safe P (cmd && (fam == 0x02 && leb 36 (length payload))) _ _
          (λ e'.
            let n = leb→le 36 (length payload) (last_test cmd (fam == 0x02) _ e') in
            rw ((v6_from-below payload 0 32 (omega arith) (omega arith)).1) tt)
          (λ e'. tt))

length-slice_tail :
    (buf s : List ℕ) (a : ℕ)
    → slice buf a (length buf) ≡ ok s
    → a ≤ length buf
    → length s ≤ length buf
unfolding slice
length-slice_tail buf s a e h =
    let t : List ℕ = take (length buf - a) (drop a buf) in
    let e' : ok t ≡ ok s =
      sym (rw (le→leb a (length buf) h, le→leb (length buf) (length buf) (omega arith)) refl) ∙ e in
    let same : t ≡ s = cc in
    omega
      (arith, sym (ap length same), length-take (length buf - a) (drop a buf), length-drop a buf)

-- Whatever a datagram holds, reading its header does not panic, and what is left of it is not
-- longer than the datagram.
pub parse_datagram-Safe :
    (datagram : List ℕ) (mode : ProxyProtocolMode)
    → Safe (λ r. length r.1 ≤ length datagram) (parse_proxy_protocol_datagram datagram mode)
unfolding parse_proxy_protocol_datagram datagram_header
parse_datagram-Safe datagram mode =
    let P : Option SocketAddr × List ℕ → Type 0 = λ r. length r.1 ≤ length datagram in
    let refused : (e : Io (Option SocketAddr × List ℕ))
        → Safe P e
        → Safe P (refuse_datagram mode datagram e) =
      λ e h. if-Safe P (is_strict mode) e (ok (none, datagram)) (λ _. h) (λ _. omega arith) in
    if-Safe P (is_off mode || ltb (length datagram) 16) _ _ (λ e. omega arith)
      (λ e.
        if-Safe P (starts_with datagram v2_signature) _ _
          (λ e'.
            let long : 16 ≤ length datagram = long_enough (is_off mode) (length datagram) e in
            let vc = index-below datagram 12 (omega arith) in
            let ft = index-below datagram 13 (omega arith) in
            let n = port_from-below datagram 14 (omega arith) in
            rw (vc.1, ft.1, n.1)
              (if-Safe P (not (vc.0 / 2 ^ 4 == 2)) _ _ (λ _. refused (err invalid_data) tt)
                (λ _.
                  if-Safe P (ltb (length datagram) (16 + n.0)) _ _
                    (λ _. refused (err unexpected_eof) tt)
                    (λ k.
                      let fits = ltb→le (length datagram) (16 + n.0) k in
                      let payload = slice-below datagram 16 (16 + n.0) (omega arith) fits in
                      let rest =
                        slice-below datagram (16 + n.0) (length datagram) fits (omega arith) in
                      rw (payload.1, rest.1)
                        (bind-Safe (λ src. Unit {0}) P (datagram_source payload.0 vc.0 ft.0) _
                          (source-Safe payload.0 vc.0 ft.0)
                          (λ src _. length-slice_tail datagram rest.0 (16 + n.0) rest.1 fits))))))
          (λ e'. refused (err invalid_data) tt))
  where
    long_enough : (b : Bool) (n : ℕ) → (b || ltb n 16) ≡ false → 16 ≤ n
    long_enough b n h = ground (arith, h)
