-- ===== src/Vless/Encryption/Xor/Bytewise.antt =====
-- src/protocol/vless/encryption/xor.rs: the filter works byte by byte.
use mathlib.Core.List.{append_assoc, append-nil}
use elise_backend.Prelude.{
  ℕ, zero, suc, ◌+◌, ◌-◌, ◌≤◌, ◌<◌, ◌≡◌, refl, sym, ap, ◌∙◌, Bool, true, false, List, [], ◌∷◌, ◌++◌,
  ltb, leb, ◌==◌, if◌then◌else◌, arith, length, take, drop, take-append-drop, length-take,
  length-drop, length-append, ==_iff, leb→le, le→leb, leb→lt, ltb→lt, ltb→le,
}
use elise_backend.Prelude.Strings.{is_empty}
use elise_backend.Vless.Encryption.Xor.{
  Aes256Ctr, xor_byte, xor_keystream, Direction, skip_behind, decode_header, filter_from,
}

abbrev pub direction : Aes256Ctr → ℕ → List ℕ → Direction
direction c skip header = record { cipher = c; skip = skip; header = header }

-- A byte of a header goes through the cipher, and the fifth one says how many bytes to skip.
unfoldable pub header_end : Aes256Ctr → List ℕ → Direction
header_end c header =
    if leb 5 (length header)
    then direction c (skip_behind (decode_header header)) []
    else direction c 0 header

unfoldable pub step : Bool → Direction → ℕ → ℕ × Direction
step incoming d b =
    let x = xor_byte d.cipher b in
    if d.skip == 0
    then (x.0, header_end x.1 (d.header ++ (if incoming then x.0 else b) ∷ []))
    else (b, direction d.cipher (d.skip - 1) d.header)

unfoldable pub run : Bool → Direction → List ℕ → List ℕ × Direction
run incoming d [] = ([], d)
run incoming d (b ∷ bs) =
    let x = step incoming d b in let rest = run incoming x.1 bs in (x.0 ∷ rest.0, rest.1)

pub run-append :
    (incoming : Bool) (d : Direction) (xs ys : List ℕ)
    → run incoming d (xs ++ ys) ≡ (
      (run incoming d xs).0 ++ (run incoming (run incoming d xs).1 ys).0,
      (run incoming (run incoming d xs).1 ys).1,
    )
unfolding run
run-append incoming d [] ys = refl
run-append incoming d (b ∷ xs) ys =
    ap (λ r. ((step incoming d b).0 ∷ r.0, r.1)) (run-append incoming (step incoming d b).1 xs ys)

step-skip :
    (incoming : Bool) (c : Aes256Ctr) (skip : ℕ) (header : List ℕ) (b : ℕ)
    → step incoming (direction c (suc skip) header) b ≡ (b, direction c skip header)
unfolding step
step-skip incoming c skip header b =
    let nonzero : (suc skip == 0) ≡ false = ground (arith, ==_iff (suc skip) 0) in
    let less : suc skip - 1 ≡ skip = omega arith in rw (nonzero, less) refl

pub run-skip :
    (incoming : Bool) (c : Aes256Ctr) (skip : ℕ) (header xs : List ℕ)
    → length xs ≤ skip
    → run incoming (direction c skip header) xs ≡ (xs, direction c (skip - length xs) header)
unfolding run
run-skip incoming c skip header [] h =
    let e : skip ≡ skip - 0 = omega arith in ap (λ n. ([], direction c n header)) e
run-skip incoming c zero header (x ∷ xs) h = absurd (omega arith)
run-skip incoming c (suc skip) header (x ∷ xs) h =
    let e : skip - length xs ≡ suc skip - suc (length xs) = omega arith in
    ap (λ s. (s.0 ∷ (run incoming s.1 xs).0, (run incoming s.1 xs).1))
      (step-skip incoming c skip header x)
    ∙ ap (λ r. (x ∷ r.0, r.1)) (run-skip incoming c skip header xs (omega (arith, h)))
    ∙ ap (λ n. (x ∷ xs, direction c n header)) e

-- What the header keeps of bytes.
abbrev pub kept : Bool → List ℕ → List ℕ → List ℕ
kept incoming raw done = if incoming then done else raw

kept-cons :
    (incoming : Bool) (header : List ℕ) (b x : ℕ) (bs xs : List ℕ)
    → (header ++ (if incoming then x else b) ∷ []) ++ kept incoming bs xs
      ≡ header ++ kept incoming (b ∷ bs) (x ∷ xs)
kept-cons true header b x bs xs = append_assoc header (x ∷ []) xs
kept-cons false header b x bs xs = append_assoc header (b ∷ []) bs

kept-nil : (incoming : Bool) (header : List ℕ) → header ++ kept incoming [] [] ≡ header
kept-nil true header = append-nil header
kept-nil false header = append-nil header

one_more : (header : List ℕ) (b : ℕ) → length (header ++ b ∷ []) ≡ suc (length header)
one_more header b = omega (arith, length-append header (b ∷ []))

within_header :
    (c : Aes256Ctr) (header : List ℕ)
    → length header < 5
    → header_end c header ≡ direction c 0 header
unfolding header_end
within_header c header h = ground (arith, leb→le 5 (length header))

full_header :
    (c : Aes256Ctr) (header : List ℕ)
    → length header ≡ 5
    → header_end c header ≡ direction c (skip_behind (decode_header header)) []
unfolding header_end
full_header c header h = ground (arith, le→leb 5 (length header))

run-part :
    (incoming : Bool) (c : Aes256Ctr) (header xs : List ℕ)
    → length header + length xs < 5
    → let x = xor_keystream c xs in
      run incoming (direction c 0 header) xs
      ≡ (x.0, direction x.1 0 (header ++ kept incoming xs x.0))
unfolding run step xor_keystream
run-part incoming c header [] h = ap (λ t. ([], direction c 0 t)) (sym (kept-nil incoming header))
run-part incoming c header (b ∷ bs) h =
    let x = xor_byte c b in
    let header' : List ℕ = header ++ (if incoming then x.0 else b) ∷ [] in
    let more = one_more header (if incoming then x.0 else b) in
    ap (λ d. (x.0 ∷ (run incoming d bs).0, (run incoming d bs).1))
      (within_header x.1 header' (omega (arith, more)))
    ∙ ap (λ r. (x.0 ∷ r.0, r.1)) (run-part incoming x.1 header' bs (omega (arith, more)))
    ∙ ap (λ t. (x.0 ∷ (xor_keystream x.1 bs).0, direction (xor_keystream x.1 bs).1 0 t))
        (kept-cons incoming header b x.0 bs (xor_keystream x.1 bs).0)

run-whole :
    (incoming : Bool) (c : Aes256Ctr) (header : List ℕ) (b : ℕ) (bs : List ℕ)
    → length header + suc (length bs) ≡ 5
    → let x = xor_keystream c (b ∷ bs) in
      run incoming (direction c 0 header) (b ∷ bs)
      ≡ (x.0, direction x.1 (skip_behind (decode_header (header ++ kept incoming (b ∷ bs) x.0))) [])
unfolding run step xor_keystream
run-whole incoming c header b [] h =
    let x = xor_byte c b in
    let header' : List ℕ = header ++ (if incoming then x.0 else b) ∷ [] in
    ap (λ d. (x.0 ∷ [], d))
      (full_header x.1 header' (omega (arith, one_more header (if incoming then x.0 else b))))
    ∙ ap (λ t. (x.0 ∷ [], direction x.1 (skip_behind (decode_header t)) []))
        (sym (kept-nil incoming header') ∙ kept-cons incoming header b x.0 [] [])
run-whole incoming c header b (b' ∷ bs) h =
    let x = xor_byte c b in
    let header' : List ℕ = header ++ (if incoming then x.0 else b) ∷ [] in
    let more = one_more header (if incoming then x.0 else b) in
    let next = xor_keystream x.1 (b' ∷ bs) in
    ap (λ d. (x.0 ∷ (run incoming d (b' ∷ bs)).0, (run incoming d (b' ∷ bs)).1))
      (within_header x.1 header' (omega (arith, more)))
    ∙ ap (λ r. (x.0 ∷ r.0, r.1)) (run-whole incoming x.1 header' b' bs (omega (arith, more)))
    ∙ ap (λ t. (x.0 ∷ next.0, direction next.1 (skip_behind (decode_header t)) []))
        (kept-cons incoming header b x.0 (b' ∷ bs) next.0)

choose :
    (b : Bool) (x y z : List ℕ × Direction)
    → (b ≡ true → x ≡ z)
    → (b ≡ false → y ≡ z)
    → (if b then x else y) ≡ z
choose true x y z h g = h refl
choose false x y z h g = g refl

nothing : (xs : List ℕ) → is_empty xs ≡ true → xs ≡ []
nothing [] h = refl
nothing (x ∷ xs) h = cc

-- Bytes behind the skipped ones.
run-behind :
    (incoming : Bool) (c : Aes256Ctr) (skip : ℕ) (header buf : List ℕ) (r : List ℕ × Direction)
    → skip ≤ length buf
    → run incoming (direction c 0 header) (drop skip buf) ≡ r
    → run incoming (direction c skip header) buf ≡ (take skip buf ++ r.0, r.1)
run-behind incoming c skip header buf r h e =
    let front : List ℕ = take skip buf in
    let all : skip - length front ≡ 0 = omega (arith, length-take skip buf) in
    ap (run incoming (direction c skip header)) (sym (take-append-drop skip buf))
    ∙ run-append incoming (direction c skip header) front (drop skip buf)
    ∙ ap (λ s. (s.0 ++ (run incoming s.1 (drop skip buf)).0, (run incoming s.1 (drop skip buf)).1))
        (run-skip incoming c skip header front (omega (arith, length-take skip buf))
          ∙ ap (λ n. (front, direction c n header)) all)
    ∙ ap (λ s. (front ++ s.0, s.1)) e

pub run-front :
    (incoming : Bool) (c : Aes256Ctr) (header xs ys : List ℕ)
    → length header < 5
    → length header + length xs ≡ 5
    → let x = xor_keystream c xs in
      let next =
        run incoming
          (direction x.1 (skip_behind (decode_header (header ++ kept incoming xs x.0))) [])
          ys in
      run incoming (direction c 0 header) (xs ++ ys) ≡ (x.0 ++ next.0, next.1)
run-front incoming c header [] ys h k = absurd (omega arith)
run-front incoming c header (b ∷ bs) ys h k =
    run-append incoming (direction c 0 header) (b ∷ bs) ys
    ∙ ap (λ r. (r.0 ++ (run incoming r.1 ys).0, (run incoming r.1 ys).1))
        (run-whole incoming c header b bs k)

run-header :
    (incoming : Bool) (c : Aes256Ctr) (header buf : List ℕ) (r : List ℕ × Direction)
    → length header < 5
    → 5 ≤ length header + length buf
    → let need = 5 - length header in
      let x = xor_keystream c (take need buf) in
      r
        ≡ run incoming
            (direction x.1
              (skip_behind (decode_header (header ++ kept incoming (take need buf) x.0)))
              [])
            (drop need buf)
      → run incoming (direction c 0 header) buf ≡ (x.0 ++ r.0, r.1)
run-header incoming c header buf r h k e =
    let need = 5 - length header in
    let x = xor_keystream c (take need buf) in
    ap (run incoming (direction c 0 header)) (sym (take-append-drop need buf))
    ∙ run-front incoming c header (take need buf) (drop need buf) h
        (omega (arith, length-take need buf))
    ∙ ap (λ t. (x.0 ++ t.0, t.1)) (sym e)

-- The loop gives what the bytes give one by one.
pub filter_from-run :
    (incoming : Bool) (fuel : ℕ) (d : Direction) (buf : List ℕ)
    → length d.header < 5
    → length buf ≤ fuel
    → filter_from incoming fuel d buf ≡ run incoming d buf
unfolding filter_from run
filter_from-run incoming zero d [] h k = refl
filter_from-run incoming zero d (b ∷ buf) h k = absurd (omega arith)
filter_from-run incoming (suc fuel) d buf h k =
    let rest = drop d.skip buf in
    let need = 5 - length d.header in
    let whole = xor_keystream d.cipher (take need rest) in
    choose (is_empty buf) _ _ _ (λ e. ap (run incoming d) (sym (nothing buf e)))
      (λ some.
        choose (leb (length buf) d.skip) _ _ _
          (λ all.
            sym (run-skip incoming d.cipher d.skip d.header buf (leb→le (length buf) d.skip all)))
          (λ more.
            let longer : d.skip < length buf = leb→lt (length buf) d.skip more in
            choose (ltb (length rest) need) _ _ _
              (λ short. sym (
                run-behind incoming d.cipher d.skip d.header buf _ (omega arith) (
                  run-part incoming d.cipher d.header rest
                    (omega (arith, ltb→lt (length rest) need short)))))
              (λ long. sym (
                run-behind incoming d.cipher d.skip d.header buf _ (omega arith) (
                  run-header incoming d.cipher d.header rest _ h
                    (omega (arith, ltb→le (length rest) need long))
                    (filter_from-run incoming fuel
                      (direction whole.1
                        (skip_behind
                          (decode_header (d.header ++ kept incoming (take need rest) whole.0)))
                        [])
                      (drop need rest) (omega arith)
                      (omega (arith, length-drop need rest, length-drop d.skip buf))))))))
