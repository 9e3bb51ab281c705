-- ===== src/Vless/Encryption/Xor/Records.antt =====
-- src/protocol/vless/encryption/xor.rs: of a sequence of records the filter hides the headers.
use elise_backend.Prelude.{
  ℕ, ◌+◌, ◌-◌, ◌*◌, ◌/◌, ◌%◌, ◌≤◌, ◌≡◌, refl, ap, ◌∙◌, false, List, [], ◌∷◌, ◌++◌, arith, length,
  ok, le→leb,
}
use elise_backend.Prelude.Bytes.{All}
use elise_backend.Vless.Encryption.Xor.{
  Aes256Ctr, encode_header, decode_header, skip_behind, xor_keystream, Direction, XorFilter,
}
use elise_backend.Vless.Encryption.Xor.Bytewise.{direction, run, run-append, run-front, run-skip}
use elise_backend.Vless.Encryption.Xor.RoundTrip.{
  outgoing, with_outgoing, concat, filter_out_each, filter_out_each-run,
}

-- The sizes of the body of a record.
abbrev pub Fits : List ℕ → Type 0
Fits body = (17 ≤ length body) × (length body ≤ 16640)

abbrev pub records : List (List ℕ) → List ℕ
records [] = []
records (body ∷ bodies) = (encode_header (length body) ++ body) ++ records bodies

-- The records with only their headers put through the cipher.
abbrev pub hidden : Aes256Ctr → List (List ℕ) → List ℕ × Aes256Ctr
hidden c [] = ([], c)
hidden c (body ∷ bodies) =
    let h = xor_keystream c (encode_header (length body)) in
    let rest = hidden h.1 bodies in ((h.0 ++ body) ++ rest.0, rest.1)

decode-encode_header : (l : ℕ) → 17 ≤ l → l ≤ 16640 → decode_header (encode_header l) ≡ ok l
unfolding decode_header
decode-encode_header l low high =
    let word : (l / 256 % 256) * 256 + l % 256 ≡ l = omega arith in
    rw (word, le→leb 17 l low, le→leb l 16640 high) refl

run-record :
    (c : Aes256Ctr) (body : List ℕ)
    → Fits body
    → let h = xor_keystream c (encode_header (length body)) in
      run false (direction c 0 []) (encode_header (length body) ++ body)
      ≡ (h.0 ++ body, direction h.1 0 [])
run-record c body fit =
    let header : List ℕ = encode_header (length body) in
    let h = xor_keystream c header in
    let none_left : length body - length body ≡ 0 = omega arith in
    run-front false c [] header body (omega arith) refl
    ∙ ap
        (λ n.
          (h.0 ++ (run false (direction h.1 n []) body).0, (run false (direction h.1 n []) body).1))
        (ap skip_behind (decode-encode_header (length body) fit.0 fit.1))
    ∙ ap (λ r. (h.0 ++ r.0, r.1)) (run-skip false h.1 (length body) [] body (omega arith))
    ∙ ap (λ n. (h.0 ++ body, direction h.1 n [])) none_left

run-records :
    (c : Aes256Ctr) (bodies : List (List ℕ))
    → All Fits bodies
    → run false (direction c 0 []) (records bodies)
      ≡ ((hidden c bodies).0, direction (hidden c bodies).1 0 [])
unfolding run
run-records c [] fit = refl
run-records c (body ∷ bodies) fit =
    let h = xor_keystream c (encode_header (length body)) in
    run-append false (direction c 0 []) (encode_header (length body) ++ body) (records bodies)
    ∙ ap (λ r. (r.0 ++ (run false r.1 (records bodies)).0, (run false r.1 (records bodies)).1))
        (run-record c body (fit.0))
    ∙ ap (λ r. ((h.0 ++ body) ++ r.0, r.1)) (run-records h.1 bodies (fit.1))

-- Records with bodies of 17 to 16640 bytes, in any buffers: the filter sends the bodies as they
-- are, puts the headers through the cipher one after the other, and then waits for a header.
pub filter_out_each-records :
    (f : XorFilter) (bodies bufs : List (List ℕ))
    → All Fits bodies
    → outgoing f ≡ direction f.ctr 0 []
    → concat bufs ≡ records bodies
    → let sent = hidden f.ctr bodies in
      filter_out_each f bufs ≡ (sent.0, with_outgoing f (direction sent.1 0 []))
filter_out_each-records f bodies bufs fit start e =
    let none_yet : f.out_header ≡ [] = ap (λ (d : Direction). d.header) start in
    filter_out_each-run f bufs (omega (arith, ap length none_yet))
    ∙ ap (λ r. (r.0, with_outgoing f r.1))
        (ap (λ d. run false d (concat bufs)) start
          ∙ ap (λ bytes. run false (direction f.ctr 0 []) bytes) e
          ∙ run-records f.ctr bodies fit)
