-- ===== src/Prelude/Strings.antt =====
-- `str` methods on bytes: prefixes, suffixes, parts, and numbers.
use elise_backend.Prelude.{
  ℕ, ◌+◌, ◌-◌, ◌*◌, ◌≡◌, refl, Bool, true, false, ◌&&◌, ◌||◌, Option, none, some, List, [], ◌∷◌,
  ◌++◌, map, ltb, leb, ◌==◌, if◌then◌else◌, length, drop, starts_with, Bool-cases, inl, inr,
}
use elise_backend.Prelude.Text.{bytes_eq}

-- `iter().any`
module _ {ℓ} {A : Type ℓ} where
  abbrev pub any : (A → Bool) → List A → Bool
  any p [] = false
  any p (x ∷ xs) = p x || any p xs

  pub any-append : (p : A → Bool) (xs ys : List A) → any p (xs ++ ys) ≡ (any p xs || any p ys)
  any-append p [] ys = refl
  any-append p (x ∷ xs) ys = elim (Bool-cases (p x)) [
    | inl e ↦ rw e
    | inr e ↦ rw (e, any-append p xs ys) refl
  ]

  abbrev pub is_empty : List A → Bool
  is_empty [] = true
  is_empty (x ∷ xs) = false

-- `strip_prefix`
unfoldable pub strip_prefix : List ℕ → List ℕ → Option (List ℕ)
strip_prefix [] s = some s
strip_prefix (p ∷ ps) [] = none
strip_prefix (p ∷ ps) (c ∷ s) = if p == c then strip_prefix ps s else none

-- A chain of `strip_prefix` by `or_else`.
unfoldable pub strip_any : List (List ℕ) → List ℕ → Option (List ℕ)
unfolding strip_prefix
strip_any [] s = none
strip_any (p ∷ ps) s = elim (strip_prefix p s) [ none ↦ strip_any ps s | some rest ↦ some rest ]

-- `s.contains(part)` for a text.
unfoldable pub contains_text : List ℕ → List ℕ → Bool
contains_text [] part = starts_with [] part
contains_text (c ∷ s) part = starts_with (c ∷ s) part || contains_text s part

-- `s.ends_with(part)`
unfoldable pub ends_with : List ℕ → List ℕ → Bool
ends_with s part = leb (length part) (length s) && bytes_eq (drop (length s - length part) s) part

-- `split(c)`: one part more than there are separators.
unfoldable pub split_on : ℕ → List ℕ → List (List ℕ)
split_on sep [] = [] ∷ []
split_on sep (c ∷ s) = elim (split_on sep s) [
  | [] ↦ [] ∷ []
  | part ∷ parts ↦ if c == sep then [] ∷ (part ∷ parts) else (c ∷ part) ∷ parts
]

-- `split_once(c)`
unfoldable pub split_once : ℕ → List ℕ → Option (List ℕ × List ℕ)
split_once sep [] = none
split_once sep (c ∷ s) =
    let rest : Option (List ℕ × List ℕ) = elim (split_once sep s) [
      | none ↦ none
      | some p ↦ some (c ∷ p.0, p.1)
    ] in
    if c == sep then some ([], s) else rest

-- `eq_ignore_ascii_case`
abbrev pub ascii_lower : ℕ → ℕ
ascii_lower c = if leb 65 c && leb c 90 then c + 32 else c

unfoldable pub eq_ignore_ascii_case : List ℕ → List ℕ → Bool
eq_ignore_ascii_case a b = bytes_eq (map ascii_lower a) (map ascii_lower b)

-- The digits of a number below `bound`.
unfoldable pub digits_below : ℕ → ℕ → List ℕ → Option ℕ
digits_below bound n [] = some n
digits_below bound n (c ∷ s) =
    let n' = n * 10 + (c - 48) in
    let rest = digits_below bound n' s in
    if leb 48 c && (leb c 57 && ltb n' bound) then rest else none

-- `str::parse` of an unsigned integer: digits, perhaps behind a plus.
unfoldable pub parse_below : ℕ → List ℕ → Option ℕ
unfolding digits_below
parse_below bound [] = none
parse_below bound (c ∷ []) = digits_below bound 0 (c ∷ [])
parse_below bound (c ∷ d ∷ s) =
    if c == 43 then digits_below bound 0 (d ∷ s) else digits_below bound 0 (c ∷ d ∷ s)

-- `str::lines`, `cur` the line that is being read.
without_cr : List ℕ → List ℕ
without_cr [] = []
without_cr (c ∷ []) = if c == 13 then [] else c ∷ []
without_cr (c ∷ d ∷ s) = c ∷ without_cr (d ∷ s)

lines_from : List ℕ → List ℕ → List (List ℕ)
unfolding without_cr
lines_from cur [] = if is_empty cur then [] else cur ∷ []
lines_from cur (c ∷ s) = elim (c == 10) [
  | true ↦ without_cr cur ∷ lines_from [] s
  | false ↦ lines_from (cur ++ c ∷ []) s
]

unfoldable pub lines : List ℕ → List (List ℕ)
unfolding lines_from
lines s = lines_from [] s
