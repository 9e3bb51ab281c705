-- ===== src/Conn/ProxyStream/Header.antt =====
-- src/conn/proxy_protocol.rs: what the bytes of a PROXY header are, and the buffer that is filled
-- until it holds one.
use mathlib.Core.List.{append_assoc, append-nil}
use elise_backend.Prelude.{
  ℕ, zero, suc, ◌+◌, ◌-◌, ◌<◌, ◌≤◌, ◌≡◌, ◌⊎◌, refl, sym, ap, ◌∙◌, Bool, true, false, ◌&&◌, Option,
  none, some, List, [], ◌∷◌, ◌++◌, arith, ltb, leb, ◌==◌, if◌then◌else◌, length, drop, take,
  take-append-drop, length-take, length-append, Bool-cases, inl, inr, ltb→le, leb→le, le→leb, Io,
  ok, panic, slice, ◌>>=◌, Safe, weaken-Safe, if-Safe, read_exact, starts_with, get_elem?, index,
}
use elise_backend.Prelude.Bytes.{from_be_u16}
use elise_backend.Prelude.Text.{codes, bytes_eq}
use elise_backend.Conn.ProxyHeader.{v2_signature, port_from}
use elise_backend.Conn.ProxyLine.{find_crlf, fill_line}
use elise_backend.Conn.ProxyStream.{push_bytes, fill_to, has_prefix}

-- A header of version 2: the signature, and as many bytes behind the first 16 as the 15th and 16th
-- say.
abbrev pub HeaderTwo : List ℕ → Type 0
HeaderTwo header =
    (starts_with header v2_signature ≡ true)
    × (payload_len : ℕ) × (port_from header 14 ≡ ok payload_len)
    × (length header ≡ 16 + payload_len)

-- A line of version 1: it begins with `PROXY ` and ends with its first CRLF.
abbrev pub HeaderOne : List ℕ → Type 0
HeaderOne header =
    (starts_with header (codes "PROXY ") ≡ true)
    × (pos : ℕ) × (find_crlf header ≡ some pos)
    × (length header ≡ pos + 2)

-- The bytes of one header of this version, and no byte more.
abbrev pub Header : ℕ → List ℕ → Type 0
Header version header = ((version ≡ 2) × HeaderTwo header) ⊎ ((version ≡ 1) × HeaderOne header)

get_elem-append : (xs ys : List ℕ) (i : ℕ) → i < length xs → get_elem? (xs ++ ys) i ≡ get_elem? xs i
get_elem-append [] ys i h = absurd (omega arith)
get_elem-append (x ∷ xs) ys zero h = refl
get_elem-append (x ∷ xs) ys (suc i) h = get_elem-append xs ys i (omega arith)

get_elem-take : (n : ℕ) (xs : List ℕ) (i : ℕ) → i < n → get_elem? (take n xs) i ≡ get_elem? xs i
get_elem-take zero xs i h = absurd (omega arith)
get_elem-take (suc n) [] i h = refl
get_elem-take (suc n) (x ∷ xs) zero h = refl
get_elem-take (suc n) (x ∷ xs) (suc i) h = get_elem-take n xs i (omega arith)

port_from-same :
    (xs ys : List ℕ) (i : ℕ)
    → get_elem? xs i ≡ get_elem? ys i
    → get_elem? xs (i + 1) ≡ get_elem? ys (i + 1)
    → port_from xs i ≡ port_from ys i
unfolding port_from
port_from-same xs ys i h k =
    let found : Option ℕ → Io ℕ = λ o. elim o [ none ↦ panic | some b ↦ ok b ] in
    ap (λ o. found o >>= λ hi. index xs (i + 1) >>= λ lo. ok (from_be_u16 hi lo)) h
    ∙ ap (λ o. index ys i >>= λ hi. found o >>= λ lo. ok (from_be_u16 hi lo)) k

port_from-append :
    (xs ys : List ℕ) (i : ℕ) → i + 1 < length xs → port_from (xs ++ ys) i ≡ port_from xs i
port_from-append xs ys i h =
    port_from-same (xs ++ ys) xs i (get_elem-append xs ys i (omega arith))
      (get_elem-append xs ys (i + 1) h)

port_from-take :
    (n : ℕ) (xs : List ℕ) (i : ℕ) → i + 1 < n → port_from (take n xs) i ≡ port_from xs i
port_from-take n xs i h =
    port_from-same (take n xs) xs i (get_elem-take n xs i (omega arith))
      (get_elem-take n xs (i + 1) h)

starts_with-more : (xs ys p : List ℕ) → starts_with xs p ≡ true → starts_with (xs ++ ys) p ≡ true
starts_with-more xs ys [] h = refl
starts_with-more [] ys (p ∷ ps) h = cc
starts_with-more (x ∷ xs) ys (p ∷ ps) h = ground (arith, h, starts_with-more xs ys ps)

starts_with-take :
    (n : ℕ) (xs p : List ℕ)
    → length p ≤ n
    → starts_with xs p ≡ true
    → starts_with (take n xs) p ≡ true
starts_with-take n xs [] k h = refl
starts_with-take n [] (p ∷ ps) k h = cc
starts_with-take zero (x ∷ xs) (p ∷ ps) k h = absurd (omega arith)
starts_with-take (suc n) (x ∷ xs) (p ∷ ps) k h =
    ground (arith, h, starts_with-take n xs ps (omega arith))

bytes_eq-take :
    (xs p : List ℕ) → length p ≤ length xs → bytes_eq (take (length p) xs) p ≡ starts_with xs p
unfolding bytes_eq
bytes_eq-take xs [] h = refl
bytes_eq-take [] (p ∷ ps) h = absurd (omega arith)
bytes_eq-take (x ∷ xs) (p ∷ ps) h = rw (bytes_eq-take xs ps (omega arith)) refl

-- The slice of the front is only taken where it is there.
pub has_prefix-lem :
    (p chunk : List ℕ) (n : ℕ)
    → n ≡ length p
    → has_prefix n p chunk ≡ ok (leb n (length chunk) && starts_with chunk p)
unfolding has_prefix slice
has_prefix-lem p chunk n e = elim (Bool-cases (leb n (length chunk))) [
  | inr short ↦ rw short refl
  | inl long ↦
      let none_before : n - 0 ≡ n = omega arith in
      rw
        (
          long,
          le→leb 0 n (omega arith),
          none_before,
          e,
          bytes_eq-take chunk p (omega (arith, e, leb→le n (length chunk) long)),
        )
        refl
]

some_value : Option ℕ → ℕ
some_value none = 0
some_value (some n) = n

-- The first CRLF is also the first of what ends with it.
abbrev EndsFirst : List ℕ → ℕ → Type 0
EndsFirst s pos = (find_crlf (take (suc (suc pos)) s) ≡ some pos) × (suc (suc pos) ≤ length s)

module _ (b c : ℕ) (t : List ℕ) (pos : ℕ)
    (again : (i : ℕ) → find_crlf (c ∷ t) ≡ some i → EndsFirst (c ∷ t) i) where
  find_crlf-at :
      (here : Bool) (later : Option ℕ)
      → (b == 13 && c == 10) ≡ here
      → find_crlf (c ∷ t) ≡ later
      → (if here then some 0 else elim later [ none ↦ none | some i ↦ some (suc i) ]) ≡ some pos
      → EndsFirst (b ∷ c ∷ t) pos
  unfolding find_crlf some_value
  find_crlf-at true later h l e = (rw h e, (let p : 0 ≡ pos = ap some_value e in omega (arith, p)))
  find_crlf-at false none h l e = cc
  find_crlf-at false (some i) h l e =
      let p : suc i ≡ pos = ap some_value e in
      let more = again i l in (rw (h, ← p) (rw (more.0) refl), omega (arith, p, more.1))

pub find_crlf-take : (s : List ℕ) (pos : ℕ) → find_crlf s ≡ some pos → EndsFirst s pos
unfolding find_crlf
find_crlf-take [] pos e = cc
find_crlf-take (b ∷ []) pos e = cc
find_crlf-take (b ∷ c ∷ t) pos e =
    find_crlf-at b c t pos (λ i h. find_crlf-take (c ∷ t) i h) (b == 13 && c == 10)
      (find_crlf (c ∷ t)) refl refl e

-- Bytes that are pushed stand behind those that were there, and come from the stream.
pub push_bytes-lem :
    (n : ℕ) (buf rest : List ℕ)
    → Safe
        (λ r.
          (more : List ℕ) × (r.0 ≡ buf ++ more)
          × (buf ++ rest ≡ r.0 ++ r.1)
          × (length r.0 ≡ length buf + n))
        (push_bytes n buf rest)
unfolding push_bytes
push_bytes-lem zero buf rest = ([], sym (append-nil buf), refl, omega arith)
push_bytes-lem (suc n) buf [] = tt
push_bytes-lem (suc n) buf (b ∷ rest) =
    weaken-Safe _
      (λ r.
        (more : List ℕ) × (r.0 ≡ buf ++ more)
        × (buf ++ b ∷ rest ≡ r.0 ++ r.1)
        × (length r.0 ≡ length buf + suc n))
      (push_bytes n (buf ++ b ∷ []) rest) (push_bytes-lem n (buf ++ b ∷ []) rest)
      (λ r h. (
        b ∷ h.0,
        h.1 ∙ append_assoc buf (b ∷ []) (h.0),
        sym (append_assoc buf (b ∷ []) rest) ∙ h.2,
        omega (arith, h.3, length-append buf (b ∷ [])),
      ))

pub fill_to-lem :
    (total : ℕ) (buf rest : List ℕ)
    → Safe
        (λ r.
          (more : List ℕ) × (r.0 ≡ buf ++ more) × (buf ++ rest ≡ r.0 ++ r.1) × (total ≤ length r.0))
        (fill_to total buf rest)
unfolding fill_to read_exact
fill_to-lem total buf rest =
    let P : List ℕ × List ℕ → Type 0 = λ r.
      (more : List ℕ) × (r.0 ≡ buf ++ more) × (buf ++ rest ≡ r.0 ++ r.1) × (total ≤ length r.0) in
    let n = total - length buf in
    if-Safe P (ltb (length buf) total) _ _
      (λ e. elim (Bool-cases (leb n (length rest))) [
        | inr e' ↦ rw e' tt
        | inl e' ↦ rw e' (
          take n rest,
          refl,
          sym (
              append_assoc buf (take n rest) (drop n rest)
              ∙ ap (λ t. buf ++ t) (take-append-drop n rest)),
          omega (
            arith,
            leb→le n (length rest) e',
            length-append buf (take n rest),
            length-take n rest,
          ),
        )
      ])
      (λ e. ([], sym (append-nil buf), refl, ltb→le (length buf) total e))

-- The line that is filled begins with what was there, and takes its bytes from the stream.
abbrev Filled : List ℕ → List ℕ → List ℕ × List ℕ → Type 0
Filled buf rest r = (more : List ℕ) × (r.0 ≡ buf ++ more) × (buf ++ rest ≡ r.0 ++ r.1)

either :
    (b : Bool) (buf rest : List ℕ) (p q : List ℕ × List ℕ)
    → Filled buf rest p
    → Filled buf rest q
    → Filled buf rest (if b then p else q)
either true buf rest p q h k = h
either false buf rest p q h k = k

pub fill_line-lem :
    (buf rest : List ℕ)
    → (more : List ℕ) × ((fill_line buf rest).0 ≡ buf ++ more)
      × (buf ++ rest ≡ (fill_line buf rest).0 ++ (fill_line buf rest).1)
unfolding fill_line
fill_line-lem buf [] = ([], sym (append-nil buf), refl)
fill_line-lem buf (b ∷ rest) =
    let r = fill_line-lem (buf ++ b ∷ []) rest in
    either _ buf (b ∷ rest) (fill_line (buf ++ b ∷ []) rest) (buf, b ∷ rest)
      (b ∷ r.0, r.1 ∙ append_assoc buf (b ∷ []) (r.0), sym (append_assoc buf (b ∷ []) rest) ∙ r.2)
      ([], sym (append-nil buf), refl)

-- The header of version 2 at the front of a buffer that was filled far enough.
pub front-HeaderTwo :
    (chunk more more' r q : List ℕ) (n : ℕ)
    → r ≡ chunk ++ more
    → q ≡ r ++ more'
    → starts_with chunk v2_signature ≡ true
    → port_from r 14 ≡ ok n
    → 16 ≤ length r
    → 16 + n ≤ length q
    → HeaderTwo (take (16 + n) q)
front-HeaderTwo chunk more more' r q n er eq starts port long fits = (
  starts_with-take (16 + n) q v2_signature (omega arith) (
      ap (λ t. starts_with t v2_signature) (eq ∙ ap (λ t. t ++ more') er)
      ∙ starts_with-more (chunk ++ more) more' v2_signature
          (starts_with-more chunk more v2_signature starts)),
  n,
  port_from-take (16 + n) q 14 (omega arith)
      ∙ ap (λ t. port_from t 14) eq
      ∙ port_from-append r more' 14 (omega arith)
      ∙ port,
  omega (arith, length-take (16 + n) q),
)

starts_with-prefix : (xs p : List ℕ) → starts_with xs p ≡ true → (t : List ℕ) × (xs ≡ p ++ t)
starts_with-prefix xs [] h = (xs, refl)
starts_with-prefix [] (p ∷ ps) h = cc
starts_with-prefix (x ∷ xs) (p ∷ ps) h =
    let rest = starts_with-prefix xs ps (ground (arith, h)) in
    let same : x ≡ p = ground (arith, h) in
    (rest.0, ap (λ y. y ∷ xs) same ∙ ap (λ ys. p ∷ ys) (rest.1))

-- There is no CRLF within `PROXY `.
behind_proxy : (t : List ℕ) (pos : ℕ) → find_crlf (codes "PROXY " ++ t) ≡ some pos → 5 ≤ pos
unfolding find_crlf some_value
behind_proxy t pos e = at (find_crlf (32 ∷ t)) e
  where
    next : Option ℕ → Option ℕ
    next o = elim o [ none ↦ none | some i ↦ some (suc i) ]

    at : (o : Option ℕ) → next (next (next (next (next o)))) ≡ some pos → 5 ≤ pos
    at none h = cc
    at (some i) h =
        let p : suc (suc (suc (suc (suc i)))) ≡ pos = ap some_value h in omega (arith, p)

pub front-HeaderOne :
    (chunk more buf : List ℕ) (pos : ℕ)
    → buf ≡ chunk ++ more
    → starts_with chunk (codes "PROXY ") ≡ true
    → find_crlf buf ≡ some pos
    → HeaderOne (take (pos + 2) buf)
front-HeaderOne chunk more buf pos eb starts e =
    let first = find_crlf-take buf pos e in
    let same : pos + 2 ≡ suc (suc pos) = omega arith in
    let begins =
      ap (λ t. starts_with t (codes "PROXY ")) eb
      ∙ starts_with-more chunk more (codes "PROXY ") starts in
    let p = starts_with-prefix buf (codes "PROXY ") begins in
    let far = behind_proxy (p.0) pos (ap find_crlf (sym (p.1)) ∙ e) in
    rw same (
      starts_with-take (suc (suc pos)) buf (codes "PROXY ") (omega (arith, far)) begins,
      pos,
      first.0,
      omega (arith, length-take (suc (suc pos)) buf, first.1),
    )
