-- ===== src/Prelude/Position.antt =====
-- What a buffer holds from a position on, and what reads there give.
use elise_backend.Prelude.{
  ℕ, zero, suc, ◌+◌, ◌-◌, ◌≡◌, refl, ap, ◌∙◌, List, [], ◌∷◌, ◌++◌, arith, ok, index, slice, take,
  drop, length, length-append, le→leb, take-length, drop-length, ◌≤◌, ◌<◌,
}

-- `buf` reads as `s` from `pos` on.
abbrev pub At : List ℕ → ℕ → List ℕ → Type 0
At buf pos s = (pos + length s ≡ length buf) × (drop pos buf ≡ s)

pred : (c b : ℕ) → suc c ≡ 0 + suc b → c ≡ b
pred c b e = omega (arith, e)

pub drop-drop : (c a b : ℕ) (xs : List ℕ) → c ≡ a + b → drop c xs ≡ drop b (drop a xs)
drop-drop zero zero zero xs e = refl
drop-drop zero zero (suc b) xs e = absurd (omega arith)
drop-drop zero (suc a) b xs e = absurd (omega arith)
drop-drop (suc c) zero zero xs e = absurd (omega arith)
drop-drop (suc c) zero (suc b) xs e = rw (pred c b e) refl
drop-drop (suc c) (suc a) zero [] e = refl
drop-drop (suc c) (suc a) (suc b) [] e = refl
drop-drop (suc c) (suc a) b (x ∷ xs) e = drop-drop c a b xs (omega (arith, e))

pub At-append :
    (buf : List ℕ) (pos : ℕ) (xs s : List ℕ) (pos' : ℕ)
    → At buf pos (xs ++ s)
    → pos' ≡ pos + length xs
    → At buf pos' s
At-append buf pos xs s pos' h e = (
  omega (arith, length-append xs s, h.0),
  drop-drop pos' pos (length xs) buf e ∙ ap (drop (length xs)) (h.1) ∙ drop-length xs s,
)

pub index-drop :
    (buf : List ℕ) (pos x : ℕ) (s : List ℕ) → drop pos buf ≡ x ∷ s → index buf pos ≡ ok x
index-drop [] zero x s h = absurd (ground (arith, h))
index-drop [] (suc pos) x s h = absurd (ground (arith, h))
index-drop (y ∷ buf) zero x s h = ground (arith, h)
index-drop (y ∷ buf) (suc pos) x s h = index-drop buf pos x s h

pub At-index : (buf : List ℕ) (pos x : ℕ) (s : List ℕ) → At buf pos (x ∷ s) → index buf pos ≡ ok x
At-index buf pos x s h = index-drop buf pos x s (h.1)

pub At-slice :
    (buf : List ℕ) (pos : ℕ) (xs s : List ℕ) (end : ℕ)
    → At buf pos (xs ++ s)
    → end ≡ pos + length xs
    → slice buf pos end ≡ ok xs
unfolding slice
At-slice buf pos xs s end h e =
    let n : end - pos ≡ length xs = omega (arith, e) in
    rw
      (
        le→leb pos end (omega (arith, e)),
        le→leb end (length buf) (omega (arith, h.0, length-append xs s, e)),
        n,
        h.1,
        take-length xs s,
      )
      refl

-- Within the buffer, reads give something.
pub index-below : (buf : List ℕ) (i : ℕ) → i < length buf → (b : ℕ) × (index buf i ≡ ok b)
index-below [] i h = absurd (omega arith)
index-below (x ∷ buf) zero h = (x, refl)
index-below (x ∷ buf) (suc i) h = index-below buf i (omega arith)

pub slice-below :
    (buf : List ℕ) (a b : ℕ) → a ≤ b → b ≤ length buf → (s : List ℕ) × (slice buf a b ≡ ok s)
unfolding slice
slice-below buf a b h k = (take (b - a) (drop a buf), rw (le→leb a b h, le→leb b (length buf) k))

pub drop-all : (n : ℕ) (xs : List ℕ) → length xs ≤ n → drop n xs ≡ []
drop-all zero [] h = refl
drop-all zero (x ∷ xs) h = absurd (omega arith)
drop-all (suc n) [] h = refl
drop-all (suc n) (x ∷ xs) h = drop-all n xs (omega arith)
