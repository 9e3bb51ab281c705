-- ===== src/Dns/Wire.antt =====
-- src/dns/wire.rs: `build_query`, `parse_response` and `skip_name`. A buffer is its bytes; an index out
-- of bounds is `panic`. Domain names are ASCII.
pub mod Bounds
pub mod Layout
pub mod Answers
pub mod Query
pub mod RoundTrip
use elise_backend.Prelude.{
  ℕ, zero, suc, ◌+◌, ◌-◌, ◌*◌, ◌/◌, ◌%◌, ◌^◌, ◌≤◌, Bool, true, false, ◌&&◌, ◌||◌, List, [], ◌∷◌,
  ◌++◌, Option, none, some, bit_and, ltb, leb, ◌==◌, if◌then◌else◌, Io, ok, err, panic,
  unexpected_eof, invalid_data, invalid_input, ◌>>=◌, index, slice, length,
}
use mathlib.Core.List.{reverse, foldl}
use elise_backend.Prelude.Bytes.{from_be_u16, to_be_u16}
use elise_backend.Prelude.Net.{IpAddr, v4, v6}

abbrev pub type_a : ℕ
type_a = 1

abbrev pub type_aaaa : ℕ
type_aaaa = 28

abbrev pub class_in : ℕ
class_in = 1

-- `char::is_whitespace` on ASCII.
abbrev is_space : ℕ → Bool
is_space c = (leb 9 c && leb c 13) || c == 32

unfoldable pub drop_while : (ℕ → Bool) → List ℕ → List ℕ
drop_while p [] = []
drop_while p (c ∷ s) = let rest = drop_while p s in if p c then rest else c ∷ s

-- `domain.trim().trim_end_matches('.')`
unfoldable pub clean_domain : List ℕ → List ℕ
unfolding drop_while
clean_domain domain =
    let trimmed = reverse (drop_while is_space (reverse (drop_while is_space domain))) in
    reverse (drop_while (λ c. c == b'.') (reverse trimmed))

-- `split('.')`: one part more than there are dots.
unfoldable pub split : List ℕ → List (List ℕ)
split [] = [] ∷ []
split (c ∷ s) = elim (split s) [
  | [] ↦ [] ∷ []
  | part ∷ parts ↦ if c == b'.' then [] ∷ (part ∷ parts) else (c ∷ part) ∷ parts
]

-- The loop over the labels.
unfoldable pub push_labels : List ℕ → List (List ℕ) → Io (List ℕ)
push_labels buf [] = ok buf
push_labels buf (label ∷ labels) =
    let rest = push_labels (buf ++ ((length label % 256) ∷ label)) labels in
    if length label == 0 || ltb 63 (length label) then err invalid_input else rest

unfoldable pub build_query : List ℕ → ℕ → ℕ → Io (List ℕ)
unfolding push_labels
build_query domain qtype id =
    let header =
      to_be_u16 id
      ++ (to_be_u16 0x0100 ++ (to_be_u16 1 ++ (to_be_u16 0 ++ (to_be_u16 0 ++ to_be_u16 0)))) in
    let clean = clean_domain domain in
    if length clean == 0 then err invalid_input else do
      buf ← push_labels header (split clean)
      ok (buf ++ (0x00 ∷ (to_be_u16 qtype ++ to_be_u16 class_in)))

-- `u16::from_be_bytes([buf[pos], buf[pos + 1]])`
unfoldable pub be_u16_at : List ℕ → ℕ → Io ℕ
be_u16_at buf pos = do hi ← index buf pos; lo ← index buf (pos + 1); ok (from_be_u16 hi lo)

-- One turn of the loop of `skip_name`; `more` is what happens behind a label of that length.
unfoldable pub at_label : List ℕ → ℕ → (ℕ → Io ℕ) → ℕ → Io ℕ
at_label buf pos more len =
    if len == 0
    then ok (pos + 1)
    else if bit_and len 0xc0 == 0xc0
    then (if ltb (length buf) (pos + 2) then err unexpected_eof else ok (pos + 2))
    else more len

unfoldable pub skip_label : List ℕ → ℕ → (ℕ → Io ℕ) → Io ℕ
unfolding at_label
skip_label buf pos more =
    if ltb pos (length buf) then (index buf pos >>= at_label buf pos more) else err unexpected_eof

-- The loop of `skip_name`, with `128 - jumps` labels left.
unfoldable pub skip_labels : ℕ → List ℕ → ℕ → Io ℕ
unfolding skip_label
skip_labels zero buf pos = skip_label buf pos (λ len. err invalid_data)
skip_labels (suc left) buf pos = skip_label buf pos (λ len. skip_labels left buf (pos + (1 + len)))

unfoldable pub skip_name : List ℕ → ℕ → Io ℕ
unfolding skip_labels
skip_name buf pos = skip_labels 128 buf pos

unfoldable pub skip_questions : ℕ → List ℕ → ℕ → Io ℕ
skip_questions zero buf pos = ok pos
skip_questions (suc qdcount) buf pos = do
  pos' ← skip_name buf pos
  if ltb (length buf) (pos' + 4) then err unexpected_eof else skip_questions qdcount buf (pos' + 4)

unfoldable pub number : List ℕ → ℕ
number = foldl (λ n b. n * 256 + b) 0

-- The `match` on the type of a record.
unfoldable pub push_address : ℕ → ℕ → List ℕ → List IpAddr → List IpAddr
unfolding number
push_address atype rdlength rdata ips =
    if atype == type_a && rdlength == 4
    then ips ++ v4 (number rdata) ∷ []
    else if atype == type_aaaa && rdlength == 16
    then ips ++ v6 (number rdata) ∷ []
    else ips

-- One record behind its name: `none` where the loop breaks, else the next position.
unfoldable pub rest_of_record : List ℕ → ℕ → List IpAddr → ℕ → ℕ → Io (Option (ℕ × List IpAddr))
rest_of_record buf pos ips atype rdlength =
    if ltb (length buf) (pos + rdlength) then ok none else (do
      rdata ← slice buf pos (pos + rdlength)
      ok (some (pos + rdlength, push_address atype rdlength rdata ips)))

unfoldable pub read_record : List ℕ → ℕ → List IpAddr → Io (Option (ℕ × List IpAddr))
unfolding rest_of_record
read_record buf pos ips = if ltb (length buf) (pos + 10) then ok none else (do
  atype ← be_u16_at buf pos
  aclass ← be_u16_at buf (pos + 2)
  ttl_high ← be_u16_at buf (pos + 4)
  ttl_low ← be_u16_at buf (pos + 6)
  rdlength ← be_u16_at buf (pos + 8)
  rest_of_record buf (pos + 10) ips atype rdlength)

unfoldable pub read_answers : ℕ → List ℕ → ℕ → List IpAddr → Io (List IpAddr)
unfolding read_record
read_answers zero buf pos ips = ok ips
read_answers (suc ancount) buf pos ips = if leb (length buf) pos then ok ips else do
  pos' ← skip_name buf pos
  next ← read_record buf pos' ips
  elim next [ none ↦ ok ips | some (pos'', ips') ↦ read_answers ancount buf pos'' ips' ]

unfoldable pub parse_sections : List ℕ → Io (List IpAddr)
unfolding skip_questions read_answers
parse_sections buf = do
  qdcount ← be_u16_at buf 4
  ancount ← be_u16_at buf 6
  if ancount == 0
      then ok []
      else skip_questions qdcount buf 12 >>= λ pos. read_answers ancount buf pos []

unfoldable pub parse_response : List ℕ → Io (List IpAddr)
unfolding parse_sections
parse_response buf = if ltb (length buf) 12 then err unexpected_eof else (do
  flags ← be_u16_at buf 2
  if bit_and flags 0x000f == 0 then parse_sections buf else ok [])
