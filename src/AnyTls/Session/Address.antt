-- ===== src/AnyTls/Session/Address.antt =====
-- src/protocol/anytls/stream.rs: `parse_socks5_addr`.
use elise_backend.Prelude.{
  ℕ, ◌+◌, ◌≤◌, ◌<◌, Option, none, List, [], ◌∷◌, ltb, ◌==◌, if◌then◌else◌, arith, length, Io, ok,
  ◌>>=◌, index, slice, Safe, bind-Safe, if-Safe, ltb→le,
}
use elise_backend.Prelude.Bytes.{from_be_u16}
use elise_backend.Prelude.Position.{index-below, slice-below}
use elise_backend.AnyTls.Session.{Target, parse_socks5_addr}

abbrev Fine {ℓ} : {A : Type ℓ} → Io A → Type 0
Fine r = Safe (λ _. Unit {0}) r

then-Fine {ℓ κ} :
    {A : Type ℓ} {B : Type κ} (r : Io A) (f : A → Io B)
    → Fine r
    → ((a : A) → Fine (f a))
    → Fine (r >>= f)
then-Fine r f h k = bind-Safe (λ _. Unit) (λ _. Unit) r f h (λ a _. k a)

index-Fine : (buf : List ℕ) (i : ℕ) → i < length buf → Fine (index buf i)
index-Fine buf i h = let found = index-below buf i h in rw (found.1) tt

slice-Fine : (buf : List ℕ) (a b : ℕ) → a ≤ b → b ≤ length buf → Fine (slice buf a b)
slice-Fine buf a b h k = let found = slice-below buf a b h k in rw (found.1) tt

-- The port at `i` and the rest from `j` on.
port_rest-Fine :
    (buf : List ℕ) (i j : ℕ) (g : ℕ → List ℕ → Option Target)
    → i + 2 ≤ length buf
    → j ≤ length buf
    → Fine (
        index buf i
        >>= (λ hi. index buf (i + 1) >>= (λ lo. ok (from_be_u16 hi lo)))
        >>= (λ port. slice buf j (length buf) >>= (λ rest. ok (g port rest))))
port_rest-Fine buf i j g h k =
    then-Fine _ _
      (then-Fine (index buf i) _ (index-Fine buf i (omega arith))
        (λ hi. then-Fine (index buf (i + 1)) _ (index-Fine buf (i + 1) (omega arith)) (λ lo. tt)))
      (λ port.
        then-Fine (slice buf j (length buf)) _ (slice-Fine buf j (length buf) k (omega arith))
          (λ rest. tt))

guarded-Fine :
    {A : Type 0} (buf : List ℕ) (n : ℕ) (r : Io (Option A))
    → (n ≤ length buf → Fine r)
    → Fine (if ltb (length buf) n then ok none else r)
guarded-Fine buf n r h =
    if-Safe (λ _. Unit) (ltb (length buf) n) (ok none) r (λ _. tt)
      (λ e. h (ltb→le (length buf) n e))

-- No bytes make the parser of a target panic.
pub parse_socks5_addr-Safe :
    (lossy : List ℕ → List ℕ) (buf : List ℕ) → Safe (λ _. Unit {0}) (parse_socks5_addr lossy buf)
unfolding parse_socks5_addr
parse_socks5_addr-Safe lossy [] = tt
parse_socks5_addr-Safe lossy (atyp ∷ s) =
    let buf : List ℕ = atyp ∷ s in
    if-Safe (λ _. Unit) (atyp == 1) _ _
      (λ _. guarded-Fine buf 7 _ (λ h.
        then-Fine (slice buf 1 5) _ (slice-Fine buf 1 5 (omega arith) (omega (arith, h)))
          (λ o. port_rest-Fine buf 5 7 _ (omega (arith, h)) h)))
      (λ _.
        if-Safe (λ _. Unit) (atyp == 3) _ _
          (λ _. guarded-Fine buf 2 _ (λ h.
            then-Fine (index buf 1) _ (index-Fine buf 1 (omega (arith, h))) (λ len.
              guarded-Fine buf (2 + len + 2) _ (λ k.
                then-Fine (slice buf 2 (2 + len)) _
                  (slice-Fine buf 2 (2 + len) (omega arith) (omega (arith, k)))
                  (λ name. port_rest-Fine buf (2 + len) (4 + len) _ k (omega (arith, k)))))))
          (λ _.
            if-Safe (λ _. Unit) (atyp == 4) _ _
              (λ _. guarded-Fine buf 19 _ (λ h.
                then-Fine (slice buf 1 17) _ (slice-Fine buf 1 17 (omega arith) (omega (arith, h)))
                  (λ o. port_rest-Fine buf 17 19 _ (omega (arith, h)) h)))
              (λ _. tt)))
