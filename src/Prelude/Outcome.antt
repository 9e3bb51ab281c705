-- ===== src/Prelude/Outcome.antt =====
-- `std::io::Result`, with the panic of an index out of bounds as a third outcome, and the
-- reads of `std::io::Read` on a byte slice or a cursor.
use Prim.Native.Nat.{ℕ, ◌-◌}
use mathlib.Core.List.{◌++◌}
use mathlib.Core.Bool.{Bool, true, false, ◌&&◌}
use mathlib.Core.Path.{◌≡◌, refl}
use mathlib.Core.List.{List}
use mathlib.Core.Option.{none, some}
use elise_backend.Prelude.Tests.{leb, if◌then◌else◌, le→leb}
use native.Mathlib.Omega.{arith}
use elise_backend.Prelude.Lists.{
  length, get_elem?, take, drop, length-append, take-length, drop-length,
}

pub data ErrorKind : Type 0 where
  unexpected_eof invalid_data invalid_input permission_denied : ErrorKind

pub data Io {ℓ} (A : Type ℓ) : Type ℓ where
  ok : A → Io A
  err : ErrorKind → Io A
  panic : Io A

infixl 5 ◌>>=◌
abbrev pub ◌>>=◌ {ℓ κ} : {A : Type ℓ} {B : Type κ} → Io A → (A → Io B) → Io B
ok a >>= f = f a
err e >>= f = err e
panic >>= f = panic

-- `buf[i]`
abbrev pub index : List ℕ → ℕ → Io ℕ
index buf i = elim (get_elem? buf i) [ none ↦ panic | some b ↦ ok b ]

-- `read_exact` of `n` bytes: the bytes, and what is left to read.
unfoldable pub read_exact : ℕ → List ℕ → Io (List ℕ × List ℕ)
read_exact n s = if leb n (length s) then ok (take n s, drop n s) else err unexpected_eof

pub read_exact-append :
    (n : ℕ) (xs s : List ℕ) → n ≡ length xs → read_exact n (xs ++ s) ≡ ok (xs, s)
unfolding read_exact
read_exact-append n xs s e =
    rw
      (
        e,
        le→leb (length xs) (length (xs ++ s)) (omega (arith, length-append xs s)),
        take-length xs s,
        drop-length xs s,
      )
      refl

-- `&buf[a..b]`
unfoldable pub slice : List ℕ → ℕ → ℕ → Io (List ℕ)
slice buf a b = if leb a b && leb b (length buf) then ok (take (b - a) (drop a buf)) else panic

-- No panic, and `P` of a result.
abbrev pub Safe {ℓ} : {A : Type ℓ} → (A → Type 0) → Io A → Type 0
Safe P (ok a) = P a
Safe P (err e) = Unit {0}
Safe P panic = ⊥

pub bind-Safe {ℓ κ} :
    {A : Type ℓ} {B : Type κ} (P : A → Type 0) (Q : B → Type 0) (r : Io A) (f : A → Io B)
    → Safe P r
    → ((a : A) → P a → Safe Q (f a))
    → Safe Q (r >>= f)
bind-Safe P Q (ok a) f h k = k a h
bind-Safe P Q (err e) f h k = h
bind-Safe P Q panic f h k = h

pub if-Safe {ℓ} :
    {A : Type ℓ} (P : A → Type 0) (b : Bool) (r t : Io A)
    → (b ≡ true → Safe P r)
    → (b ≡ false → Safe P t)
    → Safe P (if b then r else t)
if-Safe P true r t h k = h refl
if-Safe P false r t h k = k refl

pub weaken-Safe {ℓ} :
    {A : Type ℓ} (P Q : A → Type 0) (r : Io A) → Safe P r → ((a : A) → P a → Q a) → Safe Q r
weaken-Safe P Q (ok a) h k = k a h
weaken-Safe P Q (err e) h k = h
weaken-Safe P Q panic h k = h

-- A result, and `P` of it.
abbrev pub Returns {ℓ} : {A : Type ℓ} → (A → Type 0) → Io A → Type 0
Returns P (ok a) = P a
Returns P (err e) = ⊥
Returns P panic = ⊥

pub bind-Returns {ℓ κ} :
    {A : Type ℓ} {B : Type κ} (P : A → Type 0) (Q : B → Type 0) (r : Io A) (f : A → Io B)
    → Returns P r
    → ((a : A) → P a → Returns Q (f a))
    → Returns Q (r >>= f)
bind-Returns P Q (ok a) f h k = k a h
bind-Returns P Q (err e) f h k = h
bind-Returns P Q panic f h k = h

pub weaken-Returns {ℓ} :
    {A : Type ℓ} (P Q : A → Type 0) (r : Io A) → Returns P r → ((a : A) → P a → Q a) → Returns Q r
weaken-Returns P Q (ok a) h k = k a h
weaken-Returns P Q (err e) h k = h
weaken-Returns P Q panic h k = h

pub if-Returns {ℓ} :
    {A : Type ℓ} (P : A → Type 0) (b : Bool) (r t : Io A)
    → (b ≡ true → Returns P r)
    → (b ≡ false → Returns P t)
    → Returns P (if b then r else t)
if-Returns P true r t h k = h refl
if-Returns P false r t h k = k refl
