-- ===== src/Vless/Encryption/Keccak/Absorb.antt =====
-- src/protocol/vless/encryption/mlkem768.rs: a sponge absorbs bytes one by one, so how its input is
-- cut does not matter.
use mathlib.Core.Path.{subst}
use elise_backend.Prelude.{
  ℕ, zero, suc, ◌+◌, ◌-◌, ◌≤◌, ◌<◌, ◌≡◌, refl, sym, ap, ◌∙◌, min, Bool, true, false, List, [], ◌∷◌,
  ◌++◌, if◌then◌else◌, arith, length, take, drop, take-append-drop, length-take, length-drop,
  ==_iff,
}
use elise_backend.Prelude.Strings.{is_empty}
use elise_backend.Vless.Encryption.Keccak.{
  KeccakSponge, xor_at, xor_bytes, full_block, absorb_from, absorb,
}

abbrev sponge : List ℕ → ℕ → ℕ → KeccakSponge
sponge state rate pos = record { state = state; rate = rate; pos = pos }

-- A byte at a time.
unfoldable pub absorb_byte : KeccakSponge → ℕ → KeccakSponge
absorb_byte s b = full_block (sponge (xor_at s.state s.pos b) s.rate (s.pos + 1))

unfoldable pub absorb_each : KeccakSponge → List ℕ → KeccakSponge
absorb_each s [] = s
absorb_each s (b ∷ bytes) = absorb_each (absorb_byte s b) bytes

-- There is room for a byte.
abbrev pub HasRoom : KeccakSponge → Type 0
HasRoom s = s.pos < s.rate

not_full :
    (state : List ℕ) (rate pos : ℕ)
    → pos < rate
    → full_block (sponge state rate pos) ≡ sponge state rate pos
unfolding full_block
not_full state rate pos h = ground (arith, ==_iff pos rate)

full_block-HasRoom :
    (s : KeccakSponge) → 0 < s.rate → s.pos ≤ s.rate → (full_block s).pos < (full_block s).rate
unfolding full_block
full_block-HasRoom s h k = ground (arith, ==_iff s.pos s.rate)

full_block-rate : (s : KeccakSponge) → (full_block s).rate ≡ s.rate
unfolding full_block
full_block-rate s = ground arith

absorb_each-append :
    (s : KeccakSponge) (xs ys : List ℕ)
    → absorb_each s (xs ++ ys) ≡ absorb_each (absorb_each s xs) ys
unfolding absorb_each
absorb_each-append s [] ys = refl
absorb_each-append s (b ∷ xs) ys = absorb_each-append (absorb_byte s b) xs ys

absorb_each-block :
    (state : List ℕ) (rate pos : ℕ) (xs : List ℕ)
    → pos < rate
    → pos + length xs ≤ rate
    → absorb_each (sponge state rate pos) xs
      ≡ full_block (sponge (xor_bytes state pos xs) rate (pos + length xs))
unfolding absorb_each absorb_byte
absorb_each-block state rate pos [] h k =
    let e : pos ≡ pos + 0 = omega arith in
    sym (not_full state rate pos h) ∙ ap (λ p. full_block (sponge state rate p)) e
absorb_each-block state rate pos (b ∷ []) h k = refl
absorb_each-block state rate pos (b ∷ c ∷ xs) h k =
    let e : pos + 1 + length (c ∷ xs) ≡ pos + length (b ∷ c ∷ xs) = omega arith in
    let state' : List ℕ = xor_at state pos b in
    ap (λ s. absorb_each s (c ∷ xs)) (not_full state' rate (pos + 1) (omega arith))
    ∙ absorb_each-block state' rate (pos + 1) (c ∷ xs) (omega arith) (omega arith)
    ∙ ap (λ p. full_block (sponge (xor_bytes state pos (b ∷ c ∷ xs)) rate p)) e

choose :
    (b : Bool) (x y z : KeccakSponge)
    → (b ≡ true → x ≡ z)
    → (b ≡ false → y ≡ z)
    → (if b then x else y) ≡ z
choose true x y z h g = h refl
choose false x y z h g = g refl

something : (xs : List ℕ) → is_empty xs ≡ false → 0 < length xs
something [] h = cc
something (x ∷ xs) h = omega arith

nothing_absorbed :
    (s : KeccakSponge) (input : List ℕ) → is_empty input ≡ true → s ≡ absorb_each s input
unfolding absorb_each
nothing_absorbed s [] h = refl
nothing_absorbed s (b ∷ input) h = cc

absorb_from-each :
    (fuel : ℕ) (s : KeccakSponge) (input : List ℕ)
    → HasRoom s
    → length input ≤ fuel
    → absorb_from fuel s input ≡ absorb_each s input
unfolding absorb_from
absorb_from-each zero s [] h k = unfold absorb_each in refl
absorb_from-each zero s (b ∷ input) h k = absurd (omega arith)
absorb_from-each (suc fuel) s input h k =
    let n = min (s.rate - s.pos) (length input) in
    let t : KeccakSponge =
      full_block (sponge (xor_bytes s.state s.pos (take n input)) s.rate (s.pos + n)) in
    let size : length (take n input) ≡ n = omega (arith, length-take n input) in
    choose (is_empty input) _ _ _ (λ e. nothing_absorbed s input e)
      (λ e.
        absorb_from-each fuel t (drop n input)
          (full_block-HasRoom (sponge (xor_bytes s.state s.pos (take n input)) s.rate (s.pos + n))
            (omega arith) (omega arith))
          (omega (arith, something input e, length-drop n input, h))
        ∙ ap
            (λ p.
              absorb_each
                (full_block (sponge (xor_bytes s.state s.pos (take n input)) s.rate (s.pos + p)))
                (drop n input))
            (sym size)
        ∙ ap (λ r. absorb_each r (drop n input))
            (sym (absorb_each-block s.state s.rate s.pos (take n input) h (omega (arith, size, h))))
        ∙ sym (absorb_each-append s (take n input) (drop n input))
        ∙ ap (absorb_each s) (take-append-drop n input))

absorb_each-HasRoom : (s : KeccakSponge) (xs : List ℕ) → HasRoom s → HasRoom (absorb_each s xs)
unfolding absorb_each absorb_byte
absorb_each-HasRoom s [] h = h
absorb_each-HasRoom s (b ∷ xs) h = absorb_each-HasRoom (absorb_byte s b) xs (
    full_block-HasRoom (sponge (xor_at s.state s.pos b) s.rate (s.pos + 1)) (omega arith)
      (omega arith))

-- A sponge with room for a byte absorbs two inputs one after the other as it absorbs them joined,
-- and has room for a byte then.
pub absorb-append :
    (s : KeccakSponge) (xs ys : List ℕ)
    → HasRoom s
    → (absorb s (xs ++ ys) ≡ absorb (absorb s xs) ys) × HasRoom (absorb s (xs ++ ys))
unfolding absorb
absorb-append s xs ys h =
    let joined = absorb_from-each (length (xs ++ ys)) s (xs ++ ys) h (omega arith) in
    let first = absorb_from-each (length xs) s xs h (omega arith) in
    let second =
      absorb_from-each (length ys) (absorb_each s xs) ys (absorb_each-HasRoom s xs h)
        (omega arith) in
    (
      joined
          ∙ absorb_each-append s xs ys
          ∙ sym second
          ∙ ap (λ t. absorb_from (length ys) t ys) (sym first),
      subst HasRoom (sym joined) (absorb_each-HasRoom s (xs ++ ys) h),
    )
