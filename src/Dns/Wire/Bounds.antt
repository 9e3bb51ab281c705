-- ===== src/Dns/Wire/Bounds.antt =====
-- The reads of dns/wire.rs stay within the buffer.
use elise_backend.Prelude.{
  ℕ, zero, suc, ◌+◌, ◌≤◌, ◌<◌, ◌≡◌, refl, ◌&&◌, Option, none, some, List, [], ◌∷◌, arith, bit_and,
  ltb, leb, ◌==◌, Io, ok, err, panic, inl, inr, Safe, bind-Safe, if-Safe, Bool-cases, ltb→lt,
  ltb→le, length, length-append,
}
use elise_backend.Prelude.Position.{index-below, slice-below}
use elise_backend.Prelude.Bytes.{from_be_u16}
use elise_backend.Prelude.Net.{IpAddr, v4, v6}
use elise_backend.Dns.Wire.{
  be_u16_at, at_label, skip_label, skip_labels, skip_name, skip_questions, push_address,
  rest_of_record, read_record, read_answers, parse_sections, parse_response, number, type_a,
  type_aaaa,
}

pub be_u16_at-below :
    (buf : List ℕ) (pos : ℕ) → pos + 1 < length buf → (n : ℕ) × (be_u16_at buf pos ≡ ok n)
unfolding be_u16_at
be_u16_at-below buf pos h =
    let hi = index-below buf pos (omega arith) in
    let lo = index-below buf (pos + 1) h in (from_be_u16 hi.0 lo.0, rw (hi.1, lo.1))

abbrev pub Next : List ℕ → ℕ → ℕ → Type 0
Next buf pos pos' = (pos < pos') × (pos' ≤ length buf)

at_label-Safe :
    (buf : List ℕ) (pos : ℕ) (more : ℕ → Io ℕ)
    → pos < length buf
    → ((len : ℕ) → Safe (Next buf pos) (more len))
    → (len : ℕ) → Safe (Next buf pos) (at_label buf pos more len)
unfolding at_label
at_label-Safe buf pos more h k len =
    if-Safe (Next buf pos) (len == 0) _ _ (λ e. (omega arith, omega arith))
      (λ e.
        if-Safe (Next buf pos) (bit_and len 0xc0 == 0xc0) _ _
          (λ e'.
            if-Safe (Next buf pos) (ltb (length buf) (pos + 2)) _ _ (λ l. tt)
              (λ l. (omega arith, ltb→le (length buf) (pos + 2) l)))
          (λ e'. k len))

skip_label-Safe :
    (buf : List ℕ) (pos : ℕ) (more : ℕ → Io ℕ)
    → ((len : ℕ) → Safe (Next buf pos) (more len))
    → Safe (Next buf pos) (skip_label buf pos more)
unfolding skip_label
skip_label-Safe buf pos more k =
    if-Safe (Next buf pos) (ltb pos (length buf)) _ _
      (λ e.
        let h = ltb→lt pos (length buf) e in
        let i = index-below buf pos h in rw (i.1) (at_label-Safe buf pos more h k i.0))
      (λ e. tt)

weaken :
    (buf : List ℕ) (pos pos₁ : ℕ) (r : Io ℕ)
    → pos ≤ pos₁
    → Safe (Next buf pos₁) r
    → Safe (Next buf pos) r
weaken buf pos pos₁ (ok a) h s = (omega arith, s.1)
weaken buf pos pos₁ (err e) h s = s
weaken buf pos pos₁ panic h s = s

later : (r : Io ℕ) (pos pos₁ : ℕ) → pos ≤ pos₁ → Safe (λ p. pos₁ ≤ p) r → Safe (λ p. pos ≤ p) r
later (ok a) pos pos₁ h s = omega arith
later (err e) pos pos₁ h s = s
later panic pos pos₁ h s = s

skip_labels-Safe :
    (left : ℕ) (buf : List ℕ) (pos : ℕ) → Safe (Next buf pos) (skip_labels left buf pos)
unfolding skip_labels
skip_labels-Safe zero buf pos = skip_label-Safe buf pos _ (λ len. tt)
skip_labels-Safe (suc left) buf pos = skip_label-Safe buf pos _ (λ len.
    weaken buf pos (pos + (1 + len)) (skip_labels left buf (pos + (1 + len))) (omega arith)
      (skip_labels-Safe left buf (pos + (1 + len))))

-- The end of a name lies behind its start and within the buffer, and no read of it panics.
pub skip_name-Safe : (buf : List ℕ) (pos : ℕ) → Safe (Next buf pos) (skip_name buf pos)
unfolding skip_name
skip_name-Safe buf pos = skip_labels-Safe 128 buf pos

skip_questions-Safe :
    (n : ℕ) (buf : List ℕ) (pos : ℕ) → Safe (λ p. pos ≤ p) (skip_questions n buf pos)
unfolding skip_questions
skip_questions-Safe zero buf pos = omega arith
skip_questions-Safe (suc n) buf pos =
    bind-Safe (Next buf pos) (λ p. pos ≤ p) (skip_name buf pos) _ (skip_name-Safe buf pos)
      (λ pos' h.
        if-Safe (λ p. pos ≤ p) (ltb (length buf) (pos' + 4)) _ _ (λ e. tt)
          (λ e.
            later (skip_questions n buf (pos' + 4)) pos (pos' + 4) (omega arith)
              (skip_questions-Safe n buf (pos' + 4))))

push_address-length :
    (atype rdlength : ℕ) (rdata : List ℕ) (ips : List IpAddr)
    → length (push_address atype rdlength rdata ips) ≤ suc (length ips)
unfolding push_address
push_address-length atype rdlength rdata ips =
    let a4 = length-append ips (v4 (number rdata) ∷ []) in
    let a6 = length-append ips (v6 (number rdata) ∷ []) in
    elim (Bool-cases (atype == type_a && rdlength == 4)) [
      | inl e ↦ rw e (omega arith)
      | inr e ↦ elim (Bool-cases (atype == type_aaaa && rdlength == 16)) [
        | inl e' ↦ rw (e, e') (omega arith)
        | inr e' ↦ rw (e, e') (omega arith)
      ]
    ]

-- Where the loop goes on, behind the record, with at most one address more.
abbrev AfterRecord : ℕ → List IpAddr → Option (ℕ × List IpAddr) → Type 0
AfterRecord pos ips none = Unit {0}
AfterRecord pos ips (some (pos', ips')) = (pos ≤ pos') × (length ips' ≤ suc (length ips))

rest_of_record-Safe :
    (buf : List ℕ) (pos : ℕ) (ips : List IpAddr) (atype rdlength : ℕ)
    → Safe (AfterRecord pos ips) (rest_of_record buf pos ips atype rdlength)
unfolding rest_of_record
rest_of_record-Safe buf pos ips atype rdlength =
    if-Safe (AfterRecord pos ips) (ltb (length buf) (pos + rdlength)) _ _ (λ e. tt)
      (λ e.
        let s = slice-below buf pos (pos + rdlength) (omega arith) (ltb→le _ _ e) in
        rw (s.1) (omega arith, push_address-length atype rdlength s.0 ips))

read_record-Safe :
    (buf : List ℕ) (pos : ℕ) (ips : List IpAddr)
    → Safe (AfterRecord (pos + 10) ips) (read_record buf pos ips)
unfolding read_record
read_record-Safe buf pos ips =
    if-Safe (AfterRecord (pos + 10) ips) (ltb (length buf) (pos + 10)) _ _ (λ e. tt)
      (λ e.
        let h = ltb→le (length buf) (pos + 10) e in
        let a = be_u16_at-below buf pos (omega arith) in
        let c = be_u16_at-below buf (pos + 2) (omega arith) in
        let t = be_u16_at-below buf (pos + 4) (omega arith) in
        let u = be_u16_at-below buf (pos + 6) (omega arith) in
        let r = be_u16_at-below buf (pos + 8) (omega arith) in
        rw (a.1, c.1, t.1, u.1, r.1) (rest_of_record-Safe buf (pos + 10) ips a.0 r.0))

fewer :
    (r : Io (List IpAddr)) (a b : ℕ)
    → a ≤ b
    → Safe (λ ips. length ips ≤ a) r
    → Safe (λ ips. length ips ≤ b) r
fewer (ok ips) a b h s = omega arith
fewer (err e) a b h s = s
fewer panic a b h s = s

read_answers-Safe :
    (n : ℕ) (buf : List ℕ) (pos : ℕ) (ips : List IpAddr)
    → Safe (λ ips'. length ips' ≤ n + length ips) (read_answers n buf pos ips)
unfolding read_answers
read_answers-Safe zero buf pos ips = omega arith
read_answers-Safe (suc n) buf pos ips =
    let P : List IpAddr → Type 0 = λ ips'. length ips' ≤ suc n + length ips in
    if-Safe P (leb (length buf) pos) _ _ (λ e. omega arith)
      (λ e. bind-Safe (Next buf pos) P (skip_name buf pos) _ (skip_name-Safe buf pos) (λ pos' h.
        bind-Safe (AfterRecord (pos' + 10) ips) P (read_record buf pos' ips) _
          (read_record-Safe buf pos' ips)
          (λ next.
            elim next
              as (λ o.
                AfterRecord (pos' + 10) ips o
                → Safe P (elim o [ none ↦ ok ips | some (p, i) ↦ read_answers n buf p i ])) [
                  | none ↦ λ k. omega arith
                  | some (pos'', ips') ↦ λ k.
                      fewer (read_answers n buf pos'' ips') (n + length ips') (suc n + length ips)
                        (omega (arith, k.1)) (read_answers-Safe n buf pos'' ips')
                ])))

-- The answer count in the header.
abbrev pub ancount : List ℕ → ℕ
ancount buf = elim (be_u16_at buf 6) [ ok n ↦ n | _ ↦ 0 ]

parse_sections-Safe :
    (buf : List ℕ) (n : ℕ)
    → 12 ≤ length buf
    → be_u16_at buf 6 ≡ ok n
    → Safe (λ ips. length ips ≤ n) (parse_sections buf)
unfolding parse_sections
parse_sections-Safe buf n h e =
    let q = be_u16_at-below buf 4 (omega arith) in
    rw (q.1, e)
      (if-Safe (λ ips. length ips ≤ n) (n == 0) _ _ (λ z. omega arith)
        (λ z.
          bind-Safe (λ p. 12 ≤ p) (λ ips. length ips ≤ n) (skip_questions q.0 buf 12) _
            (skip_questions-Safe q.0 buf 12)
            (λ pos k.
              fewer (read_answers n buf pos []) (n + 0) n (omega arith)
                (read_answers-Safe n buf pos []))))

-- Reading a response never panics, whatever the bytes are, and a result has at most as many
-- addresses as the header announces answers.
pub parse_response-Safe :
    (buf : List ℕ) → Safe (λ ips. length ips ≤ ancount buf) (parse_response buf)
unfolding parse_response
parse_response-Safe buf =
    if-Safe (λ ips. length ips ≤ ancount buf) (ltb (length buf) 12) _ _ (λ e. tt)
      (λ e.
        let h = ltb→le (length buf) 12 e in
        let f = be_u16_at-below buf 2 (omega arith) in
        let a = be_u16_at-below buf 6 (omega arith) in
        let count : ancount buf ≡ a.0 = rw (ancount, a.1) refl in
        rw (f.1) (
          if-Safe (λ ips. length ips ≤ ancount buf) (bit_and f.0 0x000f == 0) _ _
            (λ e'.
              fewer (parse_sections buf) a.0 (ancount buf) (omega (arith, count))
                (parse_sections-Safe buf a.0 h (a.1)))
            (λ e'. omega arith)))
