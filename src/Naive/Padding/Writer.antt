-- ===== src/Naive/Padding/Writer.antt =====
-- src/protocol/naive/padding.rs: what the polls for writing put on the inner stream.
use mathlib.Core.Path.{subst}
use mathlib.Core.List.{append_assoc, append-nil}
use elise_backend.Prelude.{
  ℕ, zero, suc, ◌-◌, ◌%◌, ◌≡◌, refl, sym, ap, ◌∙◌, inl, min, Bool, true, false, List, [], ◌∷◌, ◌++◌,
  ◌==◌, if◌then◌else◌, arith, length, take, drop, ErrorKind, take-append-drop, length-take, ==_iff,
}
use elise_backend.Prelude.Strings.{is_empty}
use elise_backend.Naive.Padding.{
  Event, moves, idle, fails, NaivePaddedStream, ready, pending, failed, write_zero, Polled,
  write_out, write_inner, padded_frame, taken, write_chunk, flushed, poll_write,
}
use elise_backend.Naive.Padding.Reader.{Framed, raw, frame, at_zero, Good, FailsIn, empty}

-- The bytes that are on their way.
abbrev pub outgoing : NaivePaddedStream → List ℕ
outgoing s = s.sink ++ s.write_buf

-- A flush moves bytes and changes nothing else; it ends with an empty buffer.
abbrev Flushes : List Event → NaivePaddedStream → Polled (Unit {0}) → Type 0
Flushes before s (ready u, t, events) =
    (outgoing t ≡ outgoing s)
    × (t.writes_padded_left ≡ s.writes_padded_left)
    × (t.write_buf ≡ [])
    × Good events
    × ((e : ErrorKind) → FailsIn e events → FailsIn e before)
Flushes before s (pending, t, events) =
    (outgoing t ≡ outgoing s)
    × (t.writes_padded_left ≡ s.writes_padded_left)
    × Good events
    × ((e : ErrorKind) → FailsIn e events → FailsIn e before)
Flushes before s (failed e, t, events) = FailsIn e before
Flushes before s (write_zero, t, events) = ⊥

choice :
    (before : List Event) (s : NaivePaddedStream) (b : Bool) (m k : Polled (Unit {0}))
    → (b ≡ true → Flushes before s m)
    → (b ≡ false → Flushes before s k)
    → Flushes before s (if b then m else k)
choice before s true m k h g = h refl
choice before s false m k h g = g refl

moved :
    (n : ℕ) (events : List Event) (s t : NaivePaddedStream) (r : Polled (Unit {0}))
    → outgoing t ≡ outgoing s
    → t.writes_padded_left ≡ s.writes_padded_left
    → Flushes events t r
    → Flushes (moves n ∷ events) s r
moved n events s t (ready u, x, ev) o w h = (h.0 ∙ o, h.1 ∙ w, h.2, h.3, h.4)
moved n events s t (pending, x, ev) o w h = (h.0 ∙ o, h.1 ∙ w, h.2, h.3)
moved n events s t (failed e, x, ev) o w h = h
moved n events s t (write_zero, x, ev) o w h = h

write_out-Flushes :
    (s : NaivePaddedStream) (events : List Event)
    → Good events
    → Flushes events s (write_out s events)
unfolding write_out
write_out-Flushes s [] g =
    choice [] s (is_empty s.write_buf) _ _ (λ e. (refl, refl, empty s.write_buf e, g, λ x f. f))
      (λ e. (refl, refl, g, λ x f. f))
write_out-Flushes s (idle ∷ events) g =
    choice (idle ∷ events) s (is_empty s.write_buf) _ _
      (λ e. (refl, refl, empty s.write_buf e, g, λ x f. f)) (λ e. (refl, refl, g, λ x f. f))
write_out-Flushes s (fails x ∷ events) g =
    choice (fails x ∷ events) s (is_empty s.write_buf) _ _
      (λ e. (refl, refl, empty s.write_buf e, g, λ x f. f)) (λ e. inl refl)
write_out-Flushes s (moves n ∷ events) g =
    let t : NaivePaddedStream = record s {
      sink = s.sink ++ take n s.write_buf;
      write_buf = drop n s.write_buf;
    } in
    choice (moves n ∷ events) s (is_empty s.write_buf) _ _
      (λ e. (refl, refl, empty s.write_buf e, g, λ x f. f))
      (λ more.
        choice (moves n ∷ events) s (n == 0) _ _
          (λ z. absurd (omega (arith, g.0, (==_iff n 0).0 z)))
          (λ some.
            moved n events s t _
              (append_assoc s.sink (take n s.write_buf) (drop n s.write_buf)
                ∙ ap (λ b. s.sink ++ b) (take-append-drop n s.write_buf))
              refl (write_out-Flushes t events (g.1))))

-- A write takes the first `n` bytes, and puts what carries them behind the bytes on their way; or
-- it is pending and takes none; or it fails as the inner stream does.
abbrev pub Writes : List Event → List ℕ → NaivePaddedStream → Polled ℕ → Type 0
Writes before bytes s (ready n, t, events) =
    (added : List ℕ) × (outgoing t ≡ outgoing s ++ added)
    × ((rest p : List ℕ)
        → Framed t.writes_padded_left rest p
        → Framed s.writes_padded_left (added ++ rest) (take n bytes ++ p))
    × Good events
    × ((e : ErrorKind) → FailsIn e events → FailsIn e before)
Writes before bytes s (pending, t, events) =
    (outgoing t ≡ outgoing s)
    × (t.writes_padded_left ≡ s.writes_padded_left)
    × Good events
    × ((e : ErrorKind) → FailsIn e events → FailsIn e before)
Writes before bytes s (failed e, t, events) = FailsIn e before
Writes before bytes s (write_zero, t, events) = ⊥

take-min : (n : ℕ) (xs : List ℕ) → take (min n (length xs)) xs ≡ take n xs
take-min zero xs = let e : min 0 (length xs) ≡ 0 = omega arith in ap (λ m. take m xs) e
take-min (suc n) [] = let e : min (suc n) 0 ≡ 0 = omega arith in ap (λ (m : ℕ). take {A = ℕ} m []) e
take-min (suc n) (x ∷ xs) =
    let e : min (suc n) (suc (length xs)) ≡ suc (min n (length xs)) = omega arith in
    ap (λ m. take m (x ∷ xs)) e ∙ ap (λ t. x ∷ t) (take-min n xs)

pub same_left : {a b : ℕ} {y z : List ℕ} → a ≡ b → Framed a y z → Framed b y z
same_left {a} {b} {y} {z} e f = subst (λ k. Framed k y z) e f

write_inner-Writes :
    (bytes : List ℕ) (s : NaivePaddedStream) (events : List Event)
    → s.writes_padded_left ≡ 0
    → s.write_buf ≡ []
    → Good events
    → Writes events bytes s (write_inner bytes s events)
unfolding write_inner
write_inner-Writes bytes s [] z nb g = (refl, refl, g, λ x f. f)
write_inner-Writes bytes s (idle ∷ events) z nb g = (refl, refl, g, λ x f. f)
write_inner-Writes bytes s (fails x ∷ events) z nb g = inl refl
write_inner-Writes bytes s (moves n ∷ events) z nb g = (
  take n bytes,
  ap (λ b. (s.sink ++ take n bytes) ++ b) nb
      ∙ append-nil (s.sink ++ take n bytes)
      ∙ ap (λ b. b ++ take n bytes) (sym (append-nil s.sink) ∙ ap (λ b. s.sink ++ b) (sym nb)),
  (λ rest p c.
      raw z
        (ap (λ t. take n bytes ++ t) (at_zero c z) ∙ ap (λ t. t ++ p) (sym (take-min n bytes)))),
  g.1,
  λ x f. f,
)

taken-Writes :
    (before : List Event) (bytes added : List ℕ) (n : ℕ) (s t : NaivePaddedStream)
    (r : Polled (Unit {0}))
    → outgoing t ≡ outgoing s ++ added
    → ((rest p : List ℕ)
        → Framed t.writes_padded_left rest p
        → Framed s.writes_padded_left (added ++ rest) (take n bytes ++ p))
    → Flushes before t r
    → Writes before bytes s (taken n r)
unfolding taken
taken-Writes before bytes added n s t (ready u, x, ev) o c h =
    (added, h.0 ∙ o, (λ rest p f. c rest p (same_left (h.1) f)), h.3, h.4)
taken-Writes before bytes added n s t (pending, x, ev) o c h =
    (added, h.0 ∙ o, (λ rest p f. c rest p (same_left (h.1) f)), h.2, h.3)
taken-Writes before bytes added n s t (failed e, x, ev) o c h = h
taken-Writes before bytes added n s t (write_zero, x, ev) o c h = h

take-length-take : (n : ℕ) (xs : List ℕ) → take (length (take n xs)) xs ≡ take n xs
take-length-take zero xs = refl
take-length-take (suc n) [] = refl
take-length-take (suc n) (x ∷ xs) = ap (λ y. x ∷ y) (take-length-take n xs)

option :
    (before : List Event) (bytes : List ℕ) (s : NaivePaddedStream) (b : Bool) (m k : Polled ℕ)
    → (b ≡ true → Writes before bytes s m)
    → (b ≡ false → Writes before bytes s k)
    → Writes before bytes s (if b then m else k)
option before bytes s true m k h g = h refl
option before bytes s false m k h g = g refl

-- A chunk is offered as a padded frame, or as it is when all padded frames are written.
write_chunk-Writes :
    (draw : ℕ) (bytes : List ℕ) (s : NaivePaddedStream) (events : List Event)
    → s.write_buf ≡ []
    → Good events
    → Writes events bytes s (write_chunk draw bytes s events)
unfolding write_chunk
write_chunk-Writes draw bytes s events nb g =
    let chunk : List ℕ = take 65535 bytes in
    let t : NaivePaddedStream = record s {
      write_buf = s.write_buf ++ padded_frame chunk (draw % 256);
      writes_padded_left = s.writes_padded_left - 1;
    } in
    option events bytes s (s.writes_padded_left == 0) _ _
      (λ e. write_inner-Writes bytes s events ((==_iff s.writes_padded_left 0).0 e) nb g)
      (λ e.
        taken-Writes events bytes (padded_frame chunk (draw % 256)) (length chunk) s t
          (write_out t events)
          (sym (append_assoc s.sink s.write_buf (padded_frame chunk (draw % 256))))
          (λ rest p c.
            frame chunk (draw % 256) (s.writes_padded_left - 1) rest p (ground (arith, e))
              (omega (arith, length-take 65535 bytes)) (omega arith) refl
              (ap (λ x. x ++ p) (take-length-take 65535 bytes)) c)
          (write_out-Flushes t events g))

behind :
    (before events : List Event) (bytes : List ℕ) (s t : NaivePaddedStream) (r : Polled ℕ)
    → outgoing t ≡ outgoing s
    → t.writes_padded_left ≡ s.writes_padded_left
    → ((e : ErrorKind) → FailsIn e events → FailsIn e before)
    → Writes events bytes t r
    → Writes before bytes s r
behind before events bytes s t (ready n, x, ev) o w f (added, h, c, g, k) = (
  added,
  h ∙ ap (λ y. y ++ added) o,
  (λ rest p q. same_left w (c rest p q)),
  g,
  λ e x. f e (k e x),
)
behind before events bytes s t (pending, x, ev) o w f (h, k, g, l) =
    (h ∙ o, k ∙ w, g, λ e x. f e (l e x))
behind before events bytes s t (failed e, x, ev) o w f h = f e h
behind before events bytes s t (write_zero, x, ev) o w f h = h

flushed-Writes :
    (draw : ℕ) (before : List Event) (bytes : List ℕ) (s : NaivePaddedStream)
    (r : Polled (Unit {0}))
    → Flushes before s r
    → Writes before bytes s (flushed draw bytes r)
unfolding flushed
flushed-Writes draw before bytes s (ready u, t, ev) h =
    behind before ev bytes s t _ (h.0) (h.1) (h.4) (write_chunk-Writes draw bytes t ev (h.2) (h.3))
flushed-Writes draw before bytes s (pending, t, ev) h = h
flushed-Writes draw before bytes s (failed e, t, ev) h = h
flushed-Writes draw before bytes s (write_zero, t, ev) h = h

pub poll_write-Writes :
    (draw : ℕ) (bytes : List ℕ) (s : NaivePaddedStream) (events : List Event)
    → Good events
    → Writes events bytes s (poll_write draw bytes s events)
unfolding poll_write
poll_write-Writes draw bytes s events g =
    option events bytes s (is_empty bytes) _ _
      (λ e. ([], sym (append-nil (outgoing s)), (λ rest p c. c), g, λ x f. f))
      (λ e. flushed-Writes draw events bytes s (write_out s events) (write_out-Flushes s events g))
