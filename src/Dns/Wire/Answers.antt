-- ===== src/Dns/Wire/Answers.antt =====
-- The answer section of a DNS response (dns/wire.rs, `parse_response`).
use elise_backend.Prelude.{
  ℕ, suc, ◌+◌, ◌-◌, ◌*◌, ◌^◌, ◌≤◌, ◌<◌, ◌≡◌, refl, sym, ap, false, ◌&&◌, some, List, [], ◌∷◌, ◌++◌,
  arith, ◌==◌, if◌then◌else◌, ok, inl, inr, slice, le→leb, ==_iff, Bool-cases, length,
  length-append, le→ltb, lt→leb, take-length,
}
use mathlib.Core.Path.{subst}
use mathlib.Core.List.{append_assoc, append-nil}
use elise_backend.Prelude.Position.{At, At-append}
use elise_backend.Prelude.Bytes.{to_be_u16}
use elise_backend.Prelude.Net.{IpAddr, v4, v6}
use elise_backend.Dns.Wire.{
  skip_name, push_address, rest_of_record, read_record, read_answers, type_a, type_aaaa, number,
}
use elise_backend.Dns.Wire.Layout.{
  At-be_u16, skip_labels-At, NameEnd, root, pointer, end_bytes, IsEnd, labels_bytes, AreLabels,
}

-- A resource record, as RFC 1035 lays it out.
pub record Answer : Type 0 where
  pub labels : List (List ℕ)
  pub end : NameEnd
  pub atype : ℕ
  pub aclass : ℕ
  pub ttl_high : ℕ
  pub ttl_low : ℕ
  pub rdata : List ℕ

-- The fields behind the name, then the data.
abbrev pub fields_bytes : Answer → List ℕ → List ℕ
fields_bytes a s =
    to_be_u16 a.atype
    ++ (to_be_u16 a.aclass
        ++ (to_be_u16 a.ttl_high
            ++ (to_be_u16 a.ttl_low ++ (to_be_u16 (length a.rdata) ++ (a.rdata ++ s)))))

abbrev pub answers_bytes : List Answer → List ℕ → List ℕ
answers_bytes [] s = s
answers_bytes (a ∷ answers) s =
    labels_bytes a.labels (end_bytes a.end) ++ fields_bytes a (answers_bytes answers s)

abbrev pub IsWord : ℕ → Type 0
IsWord w = w < 2 ^ 16

abbrev pub AreAnswers : List Answer → Type 0
AreAnswers [] = Unit {0}
AreAnswers (a ∷ answers) =
    (length a.labels ≤ 128)
    × AreLabels a.labels
    × IsEnd a.end
    × IsWord a.atype
    × IsWord a.aclass
    × IsWord a.ttl_high
    × IsWord a.ttl_low
    × IsWord (length a.rdata)
    × AreAnswers answers

abbrev v4_address : List ℕ → List IpAddr
v4_address (a ∷ b ∷ c ∷ d ∷ []) = v4 (((a * 256 + b) * 256 + c) * 256 + d) ∷ []
v4_address rdata = []

-- The address that a record carries, if it is an A or AAAA record of the right length.
abbrev pub address : ℕ → List ℕ → List IpAddr
address atype rdata =
    if atype == type_a
    then v4_address rdata
    else if atype == type_aaaa && length rdata == 16
    then v6 (number rdata) ∷ []
    else []

abbrev pub addresses : List Answer → List IpAddr
addresses [] = []
addresses (a ∷ answers) = address a.atype a.rdata ++ addresses answers

push_address-a :
    (rdata : List ℕ) (ips : List IpAddr)
    → push_address type_a (length rdata) rdata ips ≡ ips ++ v4_address rdata
unfolding push_address number
push_address-a [] ips = sym (append-nil ips)
push_address-a (a ∷ []) ips = sym (append-nil ips)
push_address-a (a ∷ b ∷ []) ips = sym (append-nil ips)
push_address-a (a ∷ b ∷ c ∷ []) ips = sym (append-nil ips)
push_address-a (a ∷ b ∷ c ∷ d ∷ []) ips = ap (λ n. ips ++ v4 n ∷ []) (omega arith)
push_address-a (a ∷ b ∷ c ∷ d ∷ e ∷ rdata) ips =
    let long : (suc (suc (suc (suc (suc (length rdata))))) == 4) ≡ false = ground arith in
    rw long (sym (append-nil ips))

push_address-address :
    (atype : ℕ) (rdata : List ℕ) (ips : List IpAddr)
    → push_address atype (length rdata) rdata ips ≡ ips ++ address atype rdata
unfolding push_address
push_address-address atype rdata ips = elim (Bool-cases (atype == type_a)) [
  | inr e ↦ rw e (elim (Bool-cases (atype == type_aaaa && length rdata == 16)) [
    | inl e' ↦ rw e' refl
    | inr e' ↦ rw (e', append-nil ips) refl
  ])
  | inl e ↦
      subst (λ t. push_address t (length rdata) rdata ips ≡ ips ++ address t rdata)
        (sym ((==_iff atype type_a).0 e)) (push_address-a rdata ips)
]

rest_of_record-At :
    (buf : List ℕ) (pos : ℕ) (rdata s : List ℕ) (ips : List IpAddr) (atype : ℕ)
    → At buf pos (rdata ++ s)
    → rest_of_record buf pos ips atype (length rdata)
      ≡ ok (some (pos + length rdata, ips ++ address atype rdata))
unfolding rest_of_record slice
rest_of_record-At buf pos rdata s ips atype h =
    rw
      (
        le→ltb (length buf) (pos + length rdata) (omega (arith, h.0, length-append rdata s)),
        le→leb pos (pos + length rdata) (omega arith),
        le→leb (pos + length rdata) (length buf) (omega (arith, h.0, length-append rdata s)),
        h.1,
        minus pos (length rdata),
        take-length rdata s,
        push_address-address atype rdata ips,
      )
      refl
  where
    minus : (a b : ℕ) → (a + b) - a ≡ b
    minus a b = omega arith

fields-At :
    (buf : List ℕ) (pos : ℕ) (a : Answer) (s : List ℕ) (ips : List IpAddr)
    → IsWord a.atype
    → IsWord a.aclass
    → IsWord a.ttl_high
    → IsWord a.ttl_low
    → IsWord (length a.rdata)
    → At buf pos (fields_bytes a s)
    → read_record buf pos ips
      ≡ ok (some (pos + 10 + length a.rdata, ips ++ address a.atype a.rdata))
unfolding read_record
fields-At buf pos a s ips ha hc hh hl hr h =
    let B : ℕ → List ℕ = to_be_u16 in
    let tail = a.rdata ++ s in
    let h₂ = At-append buf pos (B a.atype) _ (pos + 2) h refl in
    let h₄ = At-append buf (pos + 2) (B a.aclass) _ (pos + 4) h₂ (omega arith) in
    let h₆ = At-append buf (pos + 4) (B a.ttl_high) _ (pos + 6) h₄ (omega arith) in
    let h₈ = At-append buf (pos + 6) (B a.ttl_low) _ (pos + 8) h₆ (omega arith) in
    let h₁₀ = At-append buf (pos + 8) (B (length a.rdata)) tail (pos + 10) h₈ (omega arith) in
    rw
      (
        le→ltb (length buf) (pos + 10) (omega (arith, h₁₀.0)),
        At-be_u16 buf pos a.atype _ ha h,
        At-be_u16 buf (pos + 2) a.aclass _ hc h₂,
        At-be_u16 buf (pos + 4) a.ttl_high _ hh h₄,
        At-be_u16 buf (pos + 6) a.ttl_low _ hl h₆,
        At-be_u16 buf (pos + 8) (length a.rdata) _ hr h₈,
        rest_of_record-At buf (pos + 10) a.rdata s ips a.atype h₁₀,
      )
      refl

name_longer :
    (labels : List (List ℕ)) (end : NameEnd) → 1 ≤ length (labels_bytes labels (end_bytes end))
name_longer [] root = omega arith
name_longer [] (pointer hi lo) = omega arith
name_longer (label ∷ labels) end = omega arith

fields-length :
    (a : Answer) (s : List ℕ) → length (fields_bytes a s) ≡ 10 + (length a.rdata + length s)
fields-length a s = omega (arith, length-append a.rdata s)

fields-behind :
    (buf : List ℕ) (pos : ℕ) (a : Answer) (s : List ℕ)
    → At buf pos (fields_bytes a s)
    → At buf (pos + 10 + length a.rdata) s
fields-behind buf pos a s h =
    let B : ℕ → List ℕ = to_be_u16 in
    let head : List ℕ =
      B a.atype ++ (B a.aclass ++ (B a.ttl_high ++ (B a.ttl_low ++ B (length a.rdata)))) in
    At-append buf (pos + 10) a.rdata s (pos + 10 + length a.rdata)
      (At-append buf pos head (a.rdata ++ s) (pos + 10) h refl) refl

pub read_answers-At :
    (answers : List Answer) (buf : List ℕ) (pos : ℕ) (ips : List IpAddr) (s : List ℕ)
    → AreAnswers answers
    → At buf pos (answers_bytes answers s)
    → read_answers (length answers) buf pos ips ≡ ok (ips ++ addresses answers)
unfolding read_answers skip_name
read_answers-At [] buf pos ips s v h = ap ok (sym (append-nil ips))
read_answers-At (a ∷ answers) buf pos ips s v h =
    let name : List ℕ = labels_bytes a.labels (end_bytes a.end) in
    let fields : List ℕ = fields_bytes a (answers_bytes answers s) in
    let pos₁ : ℕ = pos + length name in
    let pos₂ : ℕ = pos₁ + 10 + length a.rdata in
    let h₁ : At buf pos₁ fields = At-append buf pos name fields pos₁ h refl in
    let h₂ : At buf pos₂ (answers_bytes answers s) =
      fields-behind buf pos₁ a (answers_bytes answers s) h₁ in
    rw
      (
        lt→leb (length buf) pos (
            omega
              (arith, h₁.0, name_longer a.labels a.end, fields-length a (answers_bytes answers s))),
        skip_labels-At a.labels 128 buf pos a.end fields (v.0) (v.1) (v.2) h,
        fields-At buf pos₁ a (answers_bytes answers s) ips (v.3) (v.4) (v.5) (v.6) (v.7) h₁,
        read_answers-At answers buf pos₂ (ips ++ address a.atype a.rdata) s (v.8) h₂,
      )
      (ap ok (append_assoc ips (address a.atype a.rdata) (addresses answers)))
