-- ===== src/Vless/Encryption/Xor.antt =====
-- src/protocol/vless/encryption/xor.rs: the counter mode cipher, and the filter that applies it to
-- the headers of records and to nothing else. The block cipher and the key derivation are arguments.
pub mod Bytewise
pub mod RoundTrip
pub mod Records
pub mod Counter
use elise_backend.Prelude.{
  ℕ, zero, suc, ◌+◌, ◌-◌, ◌*◌, ◌/◌, ◌%◌, min, Bool, true, false, ◌||◌, ◌&&◌, not, List, [], ◌∷◌,
  ◌++◌, ltb, leb, ◌==◌, if◌then◌else◌, length, take, drop, Option, none, some, get_elem?, Io, ok,
  err, panic, unexpected_eof, invalid_data, bit_xor,
}
use elise_backend.Prelude.Strings.{is_empty}

-- `decode_header`; a header has five bytes where it is called.
unfoldable pub decode_header : List ℕ → Io ℕ
decode_header (a ∷ b ∷ c ∷ hi ∷ lo ∷ more) =
    let l = if not (a == 23) || not (b == 3) || not (c == 3) then 0 else hi * 256 + lo in
    if leb 17 l && leb l 16640 then ok l else err invalid_data
decode_header _ = err unexpected_eof

abbrev pub encode_header : ℕ → List ℕ
encode_header l = 23 ∷ 3 ∷ 3 ∷ (l / 256 % 256) ∷ (l % 256) ∷ []

pub record Aes256Ctr : Type 0 where
  pub cipher : List ℕ → List ℕ
  pub ctr : List ℕ
  pub keystream : List ℕ
  pub keystream_pos : ℕ

abbrev pub zeros : ℕ → List ℕ
zeros zero = []
zeros (suc n) = 0 ∷ zeros n

-- `aes` is AES-256 for a key, and `derive_key` the key derivation for "VLESS".
abbrev pub new_ctr : (List ℕ → List ℕ → List ℕ) → (List ℕ → List ℕ) → List ℕ → List ℕ → Aes256Ctr
new_ctr aes derive_key key iv = record {
  cipher = aes (derive_key key);
  ctr = take (min (length iv) 16) iv ++ zeros (16 - min (length iv) 16);
  keystream = zeros 16;
  keystream_pos = 16;
}

-- The counter is counted up from its last byte; the Boolean says that all its bytes wrapped.
unfoldable pub count_up : List ℕ → List ℕ × Bool
count_up [] = ([], true)
count_up (b ∷ bs) =
    let low = count_up bs in
    if low.1 then (((b + 1) % 256) ∷ low.0, (b + 1) % 256 == 0) else (b ∷ low.0, false)

-- A new block of the key stream where the last one is used up.
unfoldable pub next_block : Aes256Ctr → Aes256Ctr
unfolding count_up
next_block c =
    if leb 16 c.keystream_pos
    then record c { keystream = c.cipher c.ctr; keystream_pos = 0; ctr = (count_up c.ctr).0 }
    else c

-- The byte of the key stream; a block has 16, so there is one.
abbrev pub key_byte : Aes256Ctr → ℕ
key_byte c = elim (get_elem? c.keystream c.keystream_pos) [ none ↦ 0 | some k ↦ k ]

-- A byte, and the state behind it.
unfoldable pub xor_byte : Aes256Ctr → ℕ → ℕ × Aes256Ctr
unfolding next_block
xor_byte c byte =
    let d = next_block c in
    (bit_xor byte (key_byte d), record d { keystream_pos = d.keystream_pos + 1 })

unfoldable pub xor_keystream : Aes256Ctr → List ℕ → List ℕ × Aes256Ctr
unfolding xor_byte
xor_keystream c [] = ([], c)
xor_keystream c (byte ∷ buf) =
    let x = xor_byte c byte in let rest = xor_keystream x.1 buf in (x.0 ∷ rest.0, rest.1)

pub record XorFilter : Type 0 where
  pub ctr : Aes256Ctr
  pub peer_ctr : Aes256Ctr
  pub out_skip : ℕ
  pub out_header : List ℕ
  pub in_skip : ℕ
  pub in_header : List ℕ

abbrev pub new_filter : Aes256Ctr → Aes256Ctr → ℕ → ℕ → XorFilter
new_filter ctr peer_ctr out_skip in_skip = record {
  ctr = ctr;
  peer_ctr = peer_ctr;
  out_skip = out_skip;
  out_header = [];
  in_skip = in_skip;
  in_header = [];
}

-- What one direction of the filter keeps: the cipher, the bytes of a record to be skipped, and the
-- header so far.
pub record Direction : Type 0 where
  pub cipher : Aes256Ctr
  pub skip : ℕ
  pub header : List ℕ

-- The bytes to be skipped behind a header.
abbrev pub skip_behind : Io ℕ → ℕ
skip_behind (ok l) = l
skip_behind (err e) = 0
skip_behind panic = 0

-- The loop of `filter_out`, and with `incoming` the one of `filter_in`, on the bytes from `offset`.
-- They differ in the header, which is read before it is encrypted, or after it is decrypted. A
-- round behind the first takes a byte at least, so the number of bytes is fuel enough.
unfoldable pub filter_from : Bool → ℕ → Direction → List ℕ → List ℕ × Direction
unfolding xor_keystream decode_header
filter_from incoming zero d buf = (buf, d)
filter_from incoming (suc fuel) d buf =
    let rest = drop d.skip buf in
    let need = 5 - length d.header in
    let part = xor_keystream d.cipher rest in
    let whole = xor_keystream d.cipher (take need rest) in
    let next =
      filter_from incoming fuel
        (record {
          cipher = whole.1;
          skip =
              skip_behind
                (decode_header (d.header ++ (if incoming then whole.0 else take need rest)));
          header = [];
        })
        (drop need rest) in
    if is_empty buf
    then ([], d)
    else if leb (length buf) d.skip
    then (buf, record d { skip = d.skip - length buf })
    else if ltb (length rest) need
    then (
      take d.skip buf ++ part.0,
      record {
        cipher = part.1;
        skip = 0;
        header = d.header ++ (if incoming then part.0 else rest);
      },
    )
    else (take d.skip buf ++ (whole.0 ++ next.0), next.1)

unfoldable pub filter_out : XorFilter → List ℕ → List ℕ × XorFilter
unfolding filter_from
filter_out f buf =
    let d : Direction = record { cipher = f.ctr; skip = f.out_skip; header = f.out_header } in
    let r = filter_from false (length buf) d buf in
    (r.0, record f { ctr = r.1.cipher; out_skip = r.1.skip; out_header = r.1.header })

unfoldable pub filter_in : XorFilter → List ℕ → List ℕ × XorFilter
unfolding filter_from
filter_in f buf =
    let d : Direction = record { cipher = f.peer_ctr; skip = f.in_skip; header = f.in_header } in
    let r = filter_from true (length buf) d buf in
    (r.0, record f { peer_ctr = r.1.cipher; in_skip = r.1.skip; in_header = r.1.header })
