-- ===== src/Naive/Padding/Reader.antt =====
-- src/protocol/naive/padding.rs: what a reader makes of padded frames, however they arrive.
use mathlib.Core.Path.{subst}
use mathlib.Core.List.{append_assoc}
use elise_backend.Prelude.{
  ℕ, zero, suc, ◌+◌, ◌-◌, ◌*◌, ◌/◌, ◌%◌, ◌^◌, ◌≤◌, ◌<◌, ◌≡◌, refl, sym, ap, ◌∙◌, ◌⊎◌, Bool, true,
  false, not, List, [], ◌∷◌, ◌++◌, leb, ◌==◌, if◌then◌else◌, arith, length, drop, ErrorKind,
  length-append, take-length, drop-length, leb→le, le→leb,
}
use elise_backend.Prelude.Strings.{is_empty}
use elise_backend.Naive.Padding.{
  Event, moves, idle, fails, NaivePaddedStream, ready, pending, failed, write_zero, Polled,
  frame_sizes, has_frame, split_frame, padded_frame, zeros,
}

-- Bytes that carry a payload: up to so many padded frames, and then the payload itself.
pub data Framed : ℕ → List ℕ → List ℕ → Type 0 where
  raw : {left : ℕ} {s p : List ℕ} → left ≡ 0 → s ≡ p → Framed left s p
  ended : {left : ℕ} {s p : List ℕ} → s ≡ [] → p ≡ [] → Framed left s p
  frame :
      {left : ℕ} {s p : List ℕ} (content : List ℕ) (pad left' : ℕ) (rest q : List ℕ)
      → left ≡ suc left'
      → length content < 2 ^ 16
      → pad < 256
      → s ≡ padded_frame content pad ++ rest
      → p ≡ content ++ q
      → Framed left' rest q
      → Framed left s p

-- What is still to be read.
abbrev pub Holds : NaivePaddedStream → List ℕ → Type 0
Holds s payload =
    (q : List ℕ) × (payload ≡ s.pending_data ++ q)
    × Framed s.reads_padded_left (s.read_buf ++ s.source) q

-- An inner stream gives no bytes only at its end.
abbrev pub Good : List Event → Type 0
Good [] = Unit
Good (moves n ∷ events) = (0 < n) × Good events
Good (idle ∷ events) = Good events
Good (fails e ∷ events) = Good events

abbrev pub FailsIn : ErrorKind → List Event → Type 0
FailsIn e [] = ⊥
FailsIn e (moves n ∷ events) = FailsIn e events
FailsIn e (idle ∷ events) = FailsIn e events
FailsIn e (fails e' ∷ events) = (e ≡ e') ⊎ FailsIn e events

-- A poll gives the front of the payload, something unless there is nothing left; or it is pending
-- and loses nothing; or it fails as the inner stream does.
abbrev pub Reads : List Event → List ℕ → Polled (List ℕ) → Type 0
Reads before payload (ready out, s, events) =
    ((rest : List ℕ) × (payload ≡ out ++ rest) × Holds s rest)
    × ((payload ≡ []) ⊎ (0 < length out))
    × Good events
Reads before payload (pending, s, events) = Holds s payload × Good events
Reads before payload (failed e, s, events) = FailsIn e before
Reads before payload (write_zero, s, events) = ⊥

pub pick :
    (before : List Event) (payload : List ℕ) (b : Bool) (m k : Polled (List ℕ))
    → (b ≡ true → Reads before payload m)
    → (b ≡ false → Reads before payload k)
    → Reads before payload (if b then m else k)
pick before payload true m k h g = h refl
pick before payload false m k h g = g refl

pub empty : (xs : List ℕ) → is_empty xs ≡ true → xs ≡ []
empty [] h = refl
empty (x ∷ xs) h = cc

pub none_left : (xs : List ℕ) → not (is_empty xs) ≡ false → xs ≡ []
none_left [] h = refl
none_left (x ∷ xs) h = cc

pub some_left : (xs : List ℕ) → not (is_empty xs) ≡ true → 0 < length xs
some_left [] h = cc
some_left (x ∷ xs) h = omega arith

pub at_zero : {left : ℕ} {s p : List ℕ} → Framed left s p → left ≡ 0 → s ≡ p
at_zero (raw z e) h = e
at_zero (ended e f) h = e ∙ sym f
at_zero (frame content pad left' rest q e hc hp es ep c) h = absurd (omega arith)

-- Two ways to cut a list.
two_cuts :
    (us vs xs ys : List ℕ)
    → xs ++ ys ≡ us ++ vs
    → length us ≤ length xs
    → (m : List ℕ) × (xs ≡ us ++ m) × (vs ≡ m ++ ys)
two_cuts [] vs xs ys e h = (xs, refl, sym e)
two_cuts (u ∷ us) vs [] ys e h = absurd (omega arith)
two_cuts (u ∷ us) vs (x ∷ xs) ys e h =
    let r = two_cuts us vs xs ys (ground (arith, e)) (omega (arith, h)) in
    (r.0, ground (arith, e, r.1), r.2)

pub length-zeros : (n : ℕ) → length (zeros n) ≡ n
length-zeros zero = refl
length-zeros (suc n) = ap suc (length-zeros n)

header : List ℕ → ℕ → List ℕ
header content pad = (length content / 256 % 256) ∷ (length content % 256) ∷ (pad % 256) ∷ []

module _ (content : List ℕ) (pad : ℕ) (hc : length content < 2 ^ 16) (hp : pad < 256) where
  frame_sizes-header : (m : List ℕ) → frame_sizes (header content pad ++ m) ≡ (length content, pad)
  unfolding frame_sizes header
  frame_sizes-header m =
      let word : (length content / 256 % 256) * 256 + length content % 256 ≡ length content =
        omega arith in
      let byte : pad % 256 ≡ pad = omega arith in rw (word, byte) refl

  length-padded_frame :
      (m : List ℕ) → length (padded_frame content pad ++ m) ≡ 3 + length content + pad + length m
  length-padded_frame m = omega (
    arith,
    length-append (content ++ zeros pad) m,
    length-append content (zeros pad),
    length-zeros pad,
  )

  has_frame-padded_frame : (m : List ℕ) → has_frame (padded_frame content pad ++ m) ≡ true
  unfolding has_frame header
  has_frame-padded_frame m =
      rw
        (
          frame_sizes-header ((content ++ zeros pad) ++ m),
          le→leb 3 (length (padded_frame content pad ++ m)) (omega arith),
          le→leb (3 + length content + pad) (length (padded_frame content pad ++ m))
              (omega (arith, length-padded_frame m)),
        )
        refl

  split_frame-padded_frame :
      (m : List ℕ) → split_frame (padded_frame content pad ++ m) ≡ (content, m)
  unfolding split_frame header
  split_frame-padded_frame m =
      let body : (content ++ zeros pad) ++ m ≡ content ++ (zeros pad ++ m) =
        append_assoc content (zeros pad) m in
      let skip : drop pad (zeros pad ++ m) ≡ m =
        ap (λ n. drop n (zeros pad ++ m)) (sym (length-zeros pad)) ∙ drop-length (zeros pad) m in
      rw
        (
          frame_sizes-header ((content ++ zeros pad) ++ m),
          body,
          take-length content (zeros pad ++ m),
          drop-length content (zeros pad ++ m),
          skip,
        )
        refl

  -- A whole frame is buffered only if all of it is.
  buffered_frame :
      (buf source rest : List ℕ)
      → buf ++ source ≡ padded_frame content pad ++ rest
      → has_frame buf ≡ true
      → (m : List ℕ) × (buf ≡ padded_frame content pad ++ m) × (rest ≡ m ++ source)
  unfolding has_frame
  buffered_frame buf source rest e h =
      let three : 3 ≤ length buf = ground (arith, h) in
      let front =
        two_cuts (header content pad) ((content ++ zeros pad) ++ rest) buf source
          (unfold header in e) (unfold header in three) in
      let sizes : frame_sizes buf ≡ (length content, pad) =
        ap frame_sizes front.1 ∙ frame_sizes-header front.0 in
      let whole : leb (3 + length content + pad) (length buf) ≡ true =
        ap (λ (z : ℕ × ℕ). leb (3 + z.0 + z.1) (length buf)) (sym sizes) ∙ ground (arith, h) in
      two_cuts (padded_frame content pad) rest buf source e (
        omega (
          arith,
          leb→le (3 + length content + pad) (length buf) whole,
          length-append content (zeros pad),
          length-zeros pad,
        ))

pub ap-Framed : (left : ℕ) (s s' q : List ℕ) → s ≡ s' → Framed left s q → Framed left s' q
ap-Framed left s s' q e c = subst (λ x. Framed left x q) e c

-- The frame at the front of the buffer is whole: its content, and what the bytes behind it carry.
abbrev pub Front : ℕ → List ℕ → List ℕ → List ℕ → Type 0
Front left buf source q =
    (rest : List ℕ) × (q ≡ (split_frame buf).0 ++ rest)
    × Framed (left - 1) ((split_frame buf).1 ++ source) rest

pub cut_frame :
    (left : ℕ) (buf source s q : List ℕ)
    → Framed left s q
    → s ≡ buf ++ source
    → (left == 0) ≡ false
    → has_frame buf ≡ true
    → Front left buf source q
cut_frame left buf source s q (raw z e) es hl h = absurd (ground (arith, hl, z))
cut_frame left [] source s q (ended e f) es hl h = absurd (unfold has_frame in cc)
cut_frame left (x ∷ buf) source s q (ended e f) es hl h = absurd (ground (arith, e, es))
cut_frame left buf source s q (frame content pad left' rest q' e hc hp es' ep c) es hl h =
    let b = buffered_frame content pad hc hp buf source rest (sym es ∙ es') h in
    let cut : split_frame buf ≡ (content, b.0) =
      ap split_frame b.1 ∙ split_frame-padded_frame content pad hc hp b.0 in
    let less : left - 1 ≡ left' = omega (arith, e) in
    (q', rw cut ep, rw (cut, less) (ap-Framed left' rest (b.0 ++ source) q' b.2 c))

-- With no whole frame and nothing behind, nothing is carried.
pub at_end :
    (left : ℕ) (buf s q : List ℕ)
    → Framed left s q
    → s ≡ buf
    → (left == 0) ≡ false
    → has_frame buf ≡ false
    → (buf ≡ []) × (q ≡ [])
at_end left buf s q (raw z e) es hl h = absurd (ground (arith, hl, z))
at_end left buf s q (ended e f) es hl h = (sym es ∙ e, f)
at_end left buf s q (frame content pad left' rest q' e hc hp es' ep c) es hl h =
    absurd (
      clash (sym (has_frame-padded_frame content pad hc hp rest) ∙ ap has_frame (sym es' ∙ es) ∙ h))
  where
    clash : true ≡ false → ⊥
    clash x = cc
