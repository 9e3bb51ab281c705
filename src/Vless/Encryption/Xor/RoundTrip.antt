-- ===== src/Vless/Encryption/Xor/RoundTrip.antt =====
-- src/protocol/vless/encryption/xor.rs: a filter undoes what the peer's filter did, however the
-- bytes are cut.
use elise_backend.Prelude.{
  ℕ, ◌<◌, ◌≡◌, refl, sym, ap, ◌∙◌, Bool, true, false, List, [], ◌∷◌, ◌++◌, leb, ◌==◌, arith, length,
  leb→lt,
}
use elise_backend.Prelude.Bytes.{bit_xor-bit_xor}
use elise_backend.Vless.Encryption.Xor.{
  Aes256Ctr, next_block, key_byte, xor_byte, Direction, XorFilter, filter_out, filter_in,
}
use elise_backend.Vless.Encryption.Xor.Bytewise.{
  direction, header_end, step, run, run-append, filter_from-run,
}

-- A byte that went out comes in as it was, and both sides move on alike.
step-step : (d : Direction) (b : ℕ) → step true d (step false d b).0 ≡ (b, (step false d b).1)
unfolding step xor_byte
step-step d b = by_skip (d.skip == 0) refl
  where
    by_skip :
        (z : Bool) → (d.skip == 0) ≡ z → step true d (step false d b).0 ≡ (b, (step false d b).1)
    by_skip true e = let k = key_byte (next_block d.cipher) in rw (e, bit_xor-bit_xor b k) refl
    by_skip false e = rw e refl

run-run : (d : Direction) (bs : List ℕ) → run true d (run false d bs).0 ≡ (bs, (run false d bs).1)
unfolding run
run-run d [] = refl
run-run d (b ∷ bs) =
    let out = step false d b in
    ap
      (λ s.
        (s.0 ∷ (run true s.1 (run false out.1 bs).0).0, (run true s.1 (run false out.1 bs).0).1))
      (step-step d b)
    ∙ ap (λ r. (b ∷ r.0, r.1)) (run-run out.1 bs)

header_end-Short : (c : Aes256Ctr) (header : List ℕ) → length (header_end c header).header < 5
unfolding header_end
header_end-Short c header = by_length (leb 5 (length header)) refl
  where
    by_length : (z : Bool) → leb 5 (length header) ≡ z → length (header_end c header).header < 5
    by_length true e = rw e (omega arith)
    by_length false e = rw e (leb→lt 5 (length header) e)

run-Short :
    (incoming : Bool) (d : Direction) (bs : List ℕ)
    → length d.header < 5
    → length (run incoming d bs).1.header < 5
unfolding run step
run-Short incoming d [] h = h
run-Short incoming d (b ∷ bs) h =
    run-Short incoming (step incoming d b).1 bs (short d b (d.skip == 0) refl h)
  where
    short :
        (d : Direction) (b : ℕ) (z : Bool)
        → (d.skip == 0) ≡ z
        → length d.header < 5
        → length (step incoming d b).1.header < 5
    short d b true e h = rw e (header_end-Short (xor_byte d.cipher b).1 _)
    short d b false e h = rw e h

abbrev pub outgoing : XorFilter → Direction
outgoing f = direction f.ctr f.out_skip f.out_header

abbrev pub incoming : XorFilter → Direction
incoming f = direction f.peer_ctr f.in_skip f.in_header

-- Buffers that are filtered one after the other, and all their bytes.
unfoldable pub filter_out_each : XorFilter → List (List ℕ) → List ℕ × XorFilter
filter_out_each f [] = ([], f)
filter_out_each f (buf ∷ bufs) =
    let r = filter_out f buf in let rest = filter_out_each r.1 bufs in (r.0 ++ rest.0, rest.1)

unfoldable pub filter_in_each : XorFilter → List (List ℕ) → List ℕ × XorFilter
filter_in_each f [] = ([], f)
filter_in_each f (buf ∷ bufs) =
    let r = filter_in f buf in let rest = filter_in_each r.1 bufs in (r.0 ++ rest.0, rest.1)

abbrev pub concat : List (List ℕ) → List ℕ
concat [] = []
concat (buf ∷ bufs) = buf ++ concat bufs

-- A filter with this outgoing direction, and the others as they are.
abbrev pub with_outgoing : XorFilter → Direction → XorFilter
with_outgoing f d = record f { ctr = d.cipher; out_skip = d.skip; out_header = d.header }

abbrev with_incoming : XorFilter → Direction → XorFilter
with_incoming f d = record f { peer_ctr = d.cipher; in_skip = d.skip; in_header = d.header }

pub filter_out_each-run :
    (f : XorFilter) (bufs : List (List ℕ))
    → length f.out_header < 5
    → let r = run false (outgoing f) (concat bufs) in
      filter_out_each f bufs ≡ (r.0, with_outgoing f r.1)
unfolding filter_out_each filter_out run
filter_out_each-run f [] h = refl
filter_out_each-run f (buf ∷ bufs) h =
    let r = run false (outgoing f) buf in
    let f' = with_outgoing f r.1 in
    ap
      (λ s. (
        s.0 ++ (filter_out_each (with_outgoing f s.1) bufs).0,
        (filter_out_each (with_outgoing f s.1) bufs).1,
      ))
      (filter_from-run false (length buf) (outgoing f) buf h (omega arith))
    ∙ ap (λ s. (r.0 ++ s.0, s.1)) (filter_out_each-run f' bufs (run-Short false (outgoing f) buf h))
    ∙ ap (λ s. (s.0, with_outgoing f s.1)) (sym (run-append false (outgoing f) buf (concat bufs)))

filter_in_each-run :
    (f : XorFilter) (bufs : List (List ℕ))
    → length f.in_header < 5
    → let r = run true (incoming f) (concat bufs) in
      filter_in_each f bufs ≡ (r.0, with_incoming f r.1)
unfolding filter_in_each filter_in run
filter_in_each-run f [] h = refl
filter_in_each-run f (buf ∷ bufs) h =
    let r = run true (incoming f) buf in
    let f' = with_incoming f r.1 in
    ap
      (λ s. (
        s.0 ++ (filter_in_each (with_incoming f s.1) bufs).0,
        (filter_in_each (with_incoming f s.1) bufs).1,
      ))
      (filter_from-run true (length buf) (incoming f) buf h (omega arith))
    ∙ ap (λ s. (r.0 ++ s.0, s.1)) (filter_in_each-run f' bufs (run-Short true (incoming f) buf h))
    ∙ ap (λ s. (s.0, with_incoming f s.1)) (sym (run-append true (incoming f) buf (concat bufs)))

-- What a filter let out in any buffers comes out of the peer's as it was, in whatever pieces it
-- arrives, if the two directions started alike; and they end alike.
pub filter_in_each-filter_out_each :
    (f g : XorFilter) (bufs pieces : List (List ℕ))
    → incoming g ≡ outgoing f
    → length f.out_header < 5
    → concat pieces ≡ (filter_out_each f bufs).0
    → ((filter_in_each g pieces).0 ≡ concat bufs)
      × (incoming (filter_in_each g pieces).1 ≡ outgoing (filter_out_each f bufs).1)
filter_in_each-filter_out_each f g bufs pieces same h e =
    let sent = filter_out_each-run f bufs h in
    let got = filter_in_each-run g pieces (rw (ap (λ (d : Direction). d.header) same) h) in
    let all : run true (incoming g) (concat pieces)
        ≡ (concat bufs, (run false (outgoing f) (concat bufs)).1) =
      ap (λ bytes. run true (incoming g) bytes) (e ∙ ap (λ r. r.0) sent)
      ∙ ap (λ d. run true d (run false (outgoing f) (concat bufs)).0) same
      ∙ run-run (outgoing f) (concat bufs) in
    (
      ap (λ r. r.0) got ∙ ap (λ r. r.0) all,
      ap (λ r. incoming r.1) got ∙ ap (λ r. r.1) all ∙ sym (ap (λ r. outgoing r.1) sent),
    )
