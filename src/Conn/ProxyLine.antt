-- ===== src/Conn/ProxyLine.antt =====
-- src/conn/proxy_protocol.rs: the text line of version 1. The line is ASCII; `parse_ip`, the reading of
-- an address from its text, is an argument.
use elise_backend.Prelude.{
  ℕ, suc, ◌+◌, ◌-◌, ◌*◌, ◌^◌, Bool, true, false, ◌&&◌, ◌||◌, Option, none, some, List, [], ◌∷◌,
  ◌++◌, ltb, leb, ◌==◌, if◌then◌else◌, length,
}
use elise_backend.Prelude.Text.{codes, bytes_eq, is_utf8}
use elise_backend.Prelude.Net.{IpAddr, SocketAddr}

-- `buf.windows(2).position(|w| w == b"\r\n")`
unfoldable pub find_crlf : List ℕ → Option ℕ
find_crlf [] = none
find_crlf (b ∷ []) = none
find_crlf (b ∷ c ∷ s) =
    let later = find_crlf (c ∷ s) in
    if b == 13 && c == 10 then some 0 else elim later [ none ↦ none | some i ↦ some (suc i) ]

abbrev is_none {ℓ} : {A : Type ℓ} → Option A → Bool
is_none none = true
is_none (some a) = false

-- The loop that reads on byte by byte, which the end of the stream breaks.
unfoldable pub fill_line : List ℕ → List ℕ → List ℕ × List ℕ
unfolding find_crlf
fill_line buf [] = (buf, [])
fill_line buf (b ∷ rest) =
    let more = fill_line (buf ++ b ∷ []) rest in
    if is_none (find_crlf buf) && ltb (length buf) 108 then more else (buf, b ∷ rest)

-- `char::is_whitespace` on ASCII.
abbrev is_space : ℕ → Bool
is_space c = (leb 9 c && leb c 13) || c == 32

-- `split_whitespace`, with the word that is being read.
unfoldable pub words_from : List ℕ → List ℕ → List (List ℕ)
words_from [] [] = []
words_from (w ∷ word) [] = (w ∷ word) ∷ []
words_from [] (c ∷ s) = elim (is_space c) [ true ↦ words_from [] s | false ↦ words_from (c ∷ []) s ]
words_from (w ∷ word) (c ∷ s) = elim (is_space c) [
  | true ↦ (w ∷ word) ∷ words_from [] s
  | false ↦ words_from ((w ∷ word) ++ c ∷ []) s
]

unfoldable pub split_whitespace : List ℕ → List (List ℕ)
unfolding words_from
split_whitespace s = words_from [] s

-- The digits of `str::parse::<u16>`.
unfoldable pub digits_u16 : ℕ → List ℕ → Option ℕ
digits_u16 n [] = some n
digits_u16 n (c ∷ s) =
    let n' = n * 10 + (c - 48) in
    let rest = digits_u16 n' s in if leb 48 c && (leb c 57 && ltb n' (2 ^ 16)) then rest else none

-- `str::parse::<u16>`: digits, perhaps behind a plus.
unfoldable pub parse_u16 : List ℕ → Option ℕ
unfolding digits_u16
parse_u16 [] = none
parse_u16 (c ∷ []) = digits_u16 0 (c ∷ [])
parse_u16 (c ∷ d ∷ s) = if c == 43 then digits_u16 0 (d ∷ s) else digits_u16 0 (c ∷ d ∷ s)

infixl 5 ◌>>=◌
abbrev ◌>>=◌ {ℓ κ} : {A : Type ℓ} {B : Type κ} → Option A → (A → Option B) → Option B
none >>= f = none
some a >>= f = f a

-- What the line says: two addresses, that they are unknown, or nothing that is understood.
pub data Line : Type 0 where
  addresses : SocketAddr → SocketAddr → Line
  unknown malformed : Line

abbrev or_malformed : Option Line → Line
or_malformed none = malformed
or_malformed (some line) = line

module _ (parse_ip : List ℕ → Option IpAddr) where
  -- The `if let` on the four texts.
  unfoldable pub parse_pair : List ℕ → List ℕ → List ℕ → List ℕ → Line
  parse_pair src dst sport dport = or_malformed (do
    s ← parse_ip src
    d ← parse_ip dst
    p ← parse_u16 sport
    q ← parse_u16 dport
    some (addresses (record { ip = s; port = p }) (record { ip = d; port = q })))

  unfoldable pub parse_parts : List (List ℕ) → Line
  unfolding parse_pair
  parse_parts (p₀ ∷ p₁ ∷ p₂ ∷ p₃ ∷ p₄ ∷ p₅ ∷ more) =
      if bytes_eq p₁ (codes "TCP4") || bytes_eq p₁ (codes "TCP6")
      then parse_pair p₂ p₃ p₄ p₅
      else if bytes_eq p₁ (codes "UNKNOWN")
      then unknown
      else malformed
  parse_parts (p₀ ∷ p₁ ∷ more) = if bytes_eq p₁ (codes "UNKNOWN") then unknown else malformed
  parse_parts _ = malformed

  unfoldable pub parse_line : List ℕ → Line
  unfolding parse_parts
  parse_line line = if is_utf8 line then parse_parts (split_whitespace line) else malformed
