-- ===== src/Conn/ProxyStream/Poll.antt =====
-- `PrefixedStream`: what is read is the prefix, then the inner stream.
use elise_backend.Prelude.{
  ℕ, zero, suc, ◌+◌, ◌-◌, ◌<◌, min, ◌≡◌, ◌≢◌, refl, sym, ap, ◌∙◌, Option, none, some, List, [], ◌∷◌,
  ◌++◌, arith, ltb, leb, length, drop, take, take-append-drop, length-take, length-drop, Bool-cases,
  inl, inr, ltb→lt, ltb→le, leb→le,
}
use mathlib.Core.List.{append_assoc, append-nil}
use elise_backend.Prelude.Position.{drop-drop, drop-all}
use elise_backend.Conn.ProxyStream.{PrefixedStream, poll_inner, poll_prefix, poll_read}

abbrev pub unread_prefix : Option (List ℕ) → ℕ → List ℕ
unread_prefix none pos = []
unread_prefix (some prefix) pos = drop pos prefix

-- The bytes that are still to be read.
abbrev pub unread : PrefixedStream → List ℕ
unread s = unread_prefix s.prefix s.pos ++ s.inner

take-all : (n : ℕ) (xs : List ℕ) → drop n xs ≡ [] → take n xs ≡ xs
take-all n xs h =
    sym (append-nil (take n xs)) ∙ ap (λ t. take n xs ++ t) (sym h) ∙ take-append-drop n xs

poll_prefix-unread :
    (remaining pos : ℕ) (prefix inner : List ℕ)
    → pos < length prefix
    → let s : PrefixedStream = record { inner = inner; prefix = some prefix; pos = pos } in
      (poll_prefix remaining prefix s).0 ++ unread (poll_prefix remaining prefix s).1 ≡ unread s
unfolding poll_prefix
poll_prefix-unread remaining pos prefix inner h =
    let to_copy = min (length prefix - pos) remaining in
    let next = drop-drop (pos + to_copy) pos to_copy prefix refl in
    let whole =
      sym (append_assoc (take to_copy (drop pos prefix)) (drop to_copy (drop pos prefix)) inner)
      ∙ ap (λ t. t ++ inner) (take-append-drop to_copy (drop pos prefix)) in
    elim (Bool-cases (leb (length prefix) (pos + to_copy))) [
      | inl e ↦ rw e (
          ap (λ t. t ++ inner)
            (take-all to_copy (drop pos prefix)
              (sym next ∙ drop-all (pos + to_copy) prefix (leb→le _ _ e))))
      | inr e ↦ rw (e, next) whole
    ]

take-some : (n : ℕ) (xs : List ℕ) → 0 < n → xs ≢ [] → take n xs ≢ []
take-some zero xs h k = absurd (omega arith)
take-some (suc n) [] h k = absurd (k refl)
take-some (suc n) (x ∷ xs) h k = λ e. cc

inner-unread :
    (n pos : ℕ) (prefix : Option (List ℕ)) (inner : List ℕ)
    → unread_prefix prefix pos ≡ []
    → let s : PrefixedStream = record { inner = inner; prefix = prefix; pos = pos } in
      ((poll_inner n s).0 ++ unread (poll_inner n s).1 ≡ unread s)
      × (0 < n → unread s ≢ [] → (poll_inner n s).0 ≢ [])
unfolding poll_inner
inner-unread n pos prefix inner h = rw h (take-append-drop n inner, λ a b. take-some n inner a b)

poll_prefix-some :
    (remaining pos : ℕ) (prefix inner : List ℕ)
    → pos < length prefix
    → 0 < remaining
    → (poll_prefix remaining prefix (record { inner = inner; prefix = some prefix; pos = pos })).0
      ≢ []
unfolding poll_prefix
poll_prefix-some remaining pos prefix inner h k =
    let n = min (length prefix - pos) remaining in
    λ e. omega (arith, ap length e, length-take n (drop pos prefix), length-drop pos prefix)

poll_read-parts :
    (remaining got pos : ℕ) (prefix : Option (List ℕ)) (inner : List ℕ)
    → let s : PrefixedStream = record { inner = inner; prefix = prefix; pos = pos } in
      ((poll_read remaining got s).0 ++ unread (poll_read remaining got s).1 ≡ unread s)
      × (0 < remaining → 0 < got → unread s ≢ [] → (poll_read remaining got s).0 ≢ [])
unfolding poll_read
poll_read-parts remaining got pos none inner =
    let i = inner-unread (min got remaining) pos none inner refl in
    (i.0, λ a b c. i.1 (omega arith) c)
poll_read-parts remaining got pos (some prefix) inner =
    elim (Bool-cases (ltb pos (length prefix))) [
      | inl e ↦ rw e (
        poll_prefix-unread remaining pos prefix inner (ltb→lt _ _ e),
        λ a b c. poll_prefix-some remaining pos prefix inner (ltb→lt _ _ e) a,
      )
      | inr e ↦
          let i =
            inner-unread (min got remaining) pos (some prefix) inner
              (drop-all pos prefix (ltb→le _ _ e)) in
          rw e (i.0, λ a b c. i.1 (omega arith) c)
    ]

-- A read takes a part of the unread bytes from their front and leaves the others.
pub poll_read-unread :
    (remaining got : ℕ) (s : PrefixedStream)
    → (poll_read remaining got s).0 ++ unread (poll_read remaining got s).1 ≡ unread s
poll_read-unread remaining got s = (poll_read-parts remaining got s.pos s.prefix s.inner).0

-- A read takes some bytes if there are any, there is room, and the inner stream gives some.
pub poll_read-some :
    (remaining got : ℕ) (s : PrefixedStream)
    → 0 < remaining
    → 0 < got
    → unread s ≢ []
    → (poll_read remaining got s).0 ≢ []
poll_read-some remaining got s = (poll_read-parts remaining got s.pos s.prefix s.inner).1
