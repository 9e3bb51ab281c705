-- ===== src/Naive/Padding/Steps.antt =====
-- src/protocol/naive/padding.rs: the steps of a poll for reading.
use mathlib.Core.List.{append_assoc, append-nil}
use elise_backend.Prelude.{
  ℕ, zero, suc, ◌+◌, ◌<◌, ◌≡◌, refl, sym, ap, ◌∙◌, ◌⊎◌, inl, inr, min, true, false, List, [], ◌∷◌,
  ◌++◌, ◌==◌, arith, length, take, drop, take-append-drop, length-take,
}
use elise_backend.Prelude.Strings.{is_empty}
use elise_backend.Naive.Padding.{
  Event, moves, idle, fails, NaivePaddedStream, ready, pending, failed, write_zero, Polled,
  from_pending, from_read_buf, poll_inner, has_frame, poll_more, poll_read_from,
}
use elise_backend.Naive.Padding.Reader.{
  Framed, Holds, Good, Reads, pick, empty, at_zero, ap-Framed, at_end, raw, ended,
}

later_event :
    (n : ℕ) (events : List Event) (payload : List ℕ) (r : Polled (List ℕ))
    → Reads events payload r
    → Reads (moves n ∷ events) payload r
later_event n events payload (ready out, s, ev) h = h
later_event n events payload (pending, s, ev) h = h
later_event n events payload (failed e, s, ev) h = h
later_event n events payload (write_zero, s, ev) h = h

pub from_pending-Reads :
    (room : ℕ) (s : NaivePaddedStream) (events : List Event) (payload : List ℕ)
    → Holds s payload
    → Good events
    → 0 < room
    → 0 < length s.pending_data
    → Reads events payload (from_pending room s events)
from_pending-Reads room s events payload (q, e, c) g hr h =
    let n = min (length s.pending_data) room in
    (
      (
        drop n s.pending_data ++ q,
        e
            ∙ ap (λ t. t ++ q) (sym (take-append-drop n s.pending_data))
            ∙ append_assoc (take n s.pending_data) (drop n s.pending_data) q,
        (q, refl, c),
      ),
      inr (omega (arith, length-take n s.pending_data)),
      g,
    )

module _ (room : ℕ) (s : NaivePaddedStream) (events : List Event) (payload q : List ℕ)
    (g : Good events) (hr : 0 < room) (nothing_pending : s.pending_data ≡ []) (e : payload ≡ q)
    (c : Framed s.reads_padded_left (s.read_buf ++ s.source) q) where
  pub from_read_buf-Reads :
      s.reads_padded_left ≡ 0
      → 0 < length s.read_buf
      → Reads events payload (from_read_buf room s events)
  from_read_buf-Reads z h =
      let n = min (length s.read_buf) room in
      let left = drop n s.read_buf ++ s.source in
      (
        (
          left,
          e
              ∙ sym (at_zero c z)
              ∙ ap (λ t. t ++ s.source) (sym (take-append-drop n s.read_buf))
              ∙ append_assoc (take n s.read_buf) (drop n s.read_buf) s.source,
          (left, ap (λ t. t ++ left) (sym nothing_pending), raw z refl),
        ),
        inr (omega (arith, length-take n s.read_buf)),
        g,
      )

  holds : Holds s payload
  holds = (q, e ∙ ap (λ t. t ++ q) (sym nothing_pending), c)

some_taken : (n : ℕ) (xs : List ℕ) → 0 < n → (xs ≡ []) ⊎ (0 < length (take n xs))
some_taken n [] h = inl refl
some_taken zero (x ∷ xs) h = absurd (omega arith)
some_taken (suc n) (x ∷ xs) h = inr (omega arith)

pub poll_inner-Reads :
    (room : ℕ) (s : NaivePaddedStream) (events : List Event) (payload q : List ℕ)
    → Good events
    → 0 < room
    → s.pending_data ≡ []
    → payload ≡ q
    → Framed s.reads_padded_left (s.read_buf ++ s.source) q
    → s.reads_padded_left ≡ 0
    → s.read_buf ≡ []
    → Reads events payload (poll_inner room s events)
unfolding poll_inner
poll_inner-Reads room s [] payload q g hr np e c z nb = (holds room s [] payload q g hr np e c, g)
poll_inner-Reads room s (idle ∷ events) payload q g hr np e c z nb =
    (holds room s events payload q g hr np e c, g)
poll_inner-Reads room s (fails x ∷ events) payload q g hr np e c z nb = inl refl
poll_inner-Reads room s (moves n ∷ events) payload q g hr np e c z nb =
    let left = drop (min n room) s.source in
    let all : payload ≡ s.source = e ∙ sym (at_zero c z) ∙ ap (λ t. t ++ s.source) nb in
    (
      (
        left,
        all ∙ sym (take-append-drop (min n room) s.source),
        (left, ap (λ t. t ++ left) (sym np), raw z (ap (λ t. t ++ left) nb)),
      ),
      some_or_none all (some_taken (min n room) s.source (omega (arith, g.0))),
      g.1,
    )
  where
    some_or_none :
        payload ≡ s.source
        → (s.source ≡ []) ⊎ (0 < length (take (min n room) s.source))
        → (payload ≡ []) ⊎ (0 < length (take (min n room) s.source))
    some_or_none a (inl x) = inl (a ∙ x)
    some_or_none a (inr x) = inr x

-- Loops with this fuel, on states and events that it covers.
abbrev pub ReadsWith : ℕ → ℕ → Type 0
ReadsWith fuel room =
    (s : NaivePaddedStream) (events : List Event) (payload q : List ℕ)
    → payload ≡ s.pending_data ++ q
    → Framed s.reads_padded_left (s.read_buf ++ s.source) q
    → Good events
    → s.reads_padded_left + length events < fuel
    → Reads events payload (poll_read_from fuel room s events)

pub poll_more-Reads :
    (fuel room : ℕ) (s : NaivePaddedStream) (events : List Event) (payload q : List ℕ)
    → ReadsWith fuel room
    → Good events
    → 0 < room
    → s.pending_data ≡ []
    → payload ≡ q
    → Framed s.reads_padded_left (s.read_buf ++ s.source) q
    → (s.reads_padded_left == 0) ≡ false
    → has_frame s.read_buf ≡ false
    → s.reads_padded_left + length events < suc fuel
    → Reads events payload (poll_more (poll_read_from fuel room) s events)
unfolding poll_more
poll_more-Reads fuel room s [] payload q again g hr np e c hl h k =
    (holds room s [] payload q g hr np e c, g)
poll_more-Reads fuel room s (idle ∷ events) payload q again g hr np e c hl h k =
    (holds room s events payload q g hr np e c, g)
poll_more-Reads fuel room s (fails x ∷ events) payload q again g hr np e c hl h k = inl refl
poll_more-Reads fuel room s (moves n ∷ events) payload q again g hr np e c hl h k =
    let got = take (min n 8192) s.source in
    let before = moves n ∷ events in
    pick before payload (is_empty got) _ _
      (λ none_got.
        let source_over = over (some_taken (min n 8192) s.source (omega (arith, g.0))) none_got in
        let done =
          at_end s.reads_padded_left s.read_buf (s.read_buf ++ s.source) q c
            (ap (λ t. s.read_buf ++ t) source_over ∙ append-nil s.read_buf) hl h in
        pick before payload (is_empty s.read_buf) _ _
          (λ nothing. (
            (
              [],
              e ∙ done.1,
              (
                [],
                ap (λ t. t ++ []) (sym np),
                ended (ap (λ t. t ++ s.source) done.0 ∙ source_over) refl,
              ),
            ),
            inl (e ∙ done.1),
            g.1,
          ))
          (λ something. absurd (clash (sym something ∙ ap is_empty done.0))))
      (λ some_got.
        let s' : NaivePaddedStream = record s {
          source = drop (min n 8192) s.source;
          read_buf = s.read_buf ++ got;
        } in
        later_event n events payload _ (
          again s' events payload q (e ∙ ap (λ t. t ++ q) (sym np))
            (ap-Framed s.reads_padded_left (s.read_buf ++ s.source) (s'.read_buf ++ s'.source) q
              (ap (λ t. s.read_buf ++ t) (sym (take-append-drop (min n 8192) s.source))
                ∙ sym (append_assoc s.read_buf got (drop (min n 8192) s.source)))
              c)
            (g.1) (omega (arith, k))))
  where
    over :
        (s.source ≡ []) ⊎ (0 < length (take (min n 8192) s.source))
        → is_empty (take (min n 8192) s.source) ≡ true
        → s.source ≡ []
    over (inl x) t = x
    over (inr x) t = absurd (omega (arith, x, ap length (empty (take (min n 8192) s.source) t)))

    clash : false ≡ true → ⊥
    clash x = cc
