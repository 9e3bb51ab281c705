-- ===== src/Naive/Padding/Polls.antt =====
-- src/protocol/naive/padding.rs: the polls for reading, one after the other.
use mathlib.Core.List.{append_assoc}
use elise_backend.Prelude.{
  ℕ, zero, suc, ◌+◌, ◌-◌, ◌<◌, ◌≡◌, refl, sym, ap, ◌∙◌, inr, min, false, not, List, [], ◌∷◌, ◌++◌,
  ◌==◌, if◌then◌else◌, arith, length, take, drop, take-append-drop, length-take, ==_iff,
}
use elise_backend.Prelude.Strings.{is_empty}
use elise_backend.Naive.Padding.{
  Event, NaivePaddedStream, ready, has_frame, split_frame, poll_read_from, poll_read,
}
use elise_backend.Naive.Padding.Reader.{
  Holds, Good, Reads, pick, empty, none_left, some_left, Front, cut_frame,
}
use elise_backend.Naive.Padding.Steps.{
  ReadsWith, from_pending-Reads, from_read_buf-Reads, poll_inner-Reads, poll_more-Reads,
}

frame-Reads :
    (fuel room : ℕ) (s : NaivePaddedStream) (events : List Event) (payload q : List ℕ)
    → ReadsWith fuel room
    → Good events
    → 0 < room
    → s.pending_data ≡ []
    → payload ≡ q
    → Front s.reads_padded_left s.read_buf s.source q
    → (s.reads_padded_left == 0) ≡ false
    → s.reads_padded_left + length events < suc fuel
    → let frame = split_frame s.read_buf in
      let s' : NaivePaddedStream = record s {
        read_buf = frame.1;
        reads_padded_left = s.reads_padded_left - 1;
      } in
      let n = min (length frame.0) room in
      Reads events payload (
        if is_empty frame.0 then poll_read_from fuel room s' events else (
          ready (take n frame.0),
          record s' { pending_data = s.pending_data ++ drop n frame.0 },
          events,
        ))
frame-Reads fuel room s events payload q again g hr np e fr hl k =
    let content = (split_frame s.read_buf).0 in
    let n = min (length content) room in
    let s' : NaivePaddedStream = record s {
      read_buf = (split_frame s.read_buf).1;
      reads_padded_left = s.reads_padded_left - 1;
    } in
    pick events payload (is_empty content) _ _
      (λ none.
        again s' events payload (fr.0)
          (e ∙ fr.1 ∙ ap (λ t. t ++ fr.0) (empty content none) ∙ ap (λ t. t ++ fr.0) (sym np))
          (fr.2) g (ground (arith, hl, k)))
      (λ some. (
        (
          drop n content ++ fr.0,
          e
              ∙ fr.1
              ∙ ap (λ t. t ++ fr.0) (sym (take-append-drop n content))
              ∙ append_assoc (take n content) (drop n content) (fr.0),
          (fr.0, ap (λ t. (t ++ drop n content) ++ fr.0) (sym np), fr.2),
        ),
        inr (omega (arith, length-take n content, hr, something content some)),
        g,
      ))
  where
    something : (xs : List ℕ) → is_empty xs ≡ false → 0 < length xs
    something [] h = cc
    something (x ∷ xs) h = omega arith

poll_read_from-Reads : (fuel room : ℕ) → 0 < room → ReadsWith fuel room
unfolding poll_read_from
poll_read_from-Reads zero room hr s events payload q e c g k = absurd (omega arith)
poll_read_from-Reads (suc fuel) room hr s events payload q e c g k =
    pick events payload (not (is_empty s.pending_data)) _ _
      (λ some.
        from_pending-Reads room s events payload (q, e, c) g hr (some_left s.pending_data some))
      (λ none.
        let np = none_left s.pending_data none in
        let e' : payload ≡ q = e ∙ ap (λ t. t ++ q) np in
        pick events payload (s.reads_padded_left == 0) _ _
          (λ z.
            let zero_left = (==_iff s.reads_padded_left 0).0 z in
            pick events payload (not (is_empty s.read_buf)) _ _
              (λ some.
                from_read_buf-Reads room s events payload q g hr np e' c zero_left
                  (some_left s.read_buf some))
              (λ nb.
                poll_inner-Reads room s events payload q g hr np e' c zero_left
                  (none_left s.read_buf nb)))
          (λ hl.
            pick events payload (has_frame s.read_buf) _ _
              (λ h.
                frame-Reads fuel room s events payload q (poll_read_from-Reads fuel room hr) g hr np
                  e'
                  (cut_frame s.reads_padded_left s.read_buf s.source (s.read_buf ++ s.source) q c
                    refl hl h)
                  hl k)
              (λ h.
                poll_more-Reads fuel room s events payload q (poll_read_from-Reads fuel room hr) g
                  hr np e' c hl h k)))

-- A poll with room, on a stream that holds a payload.
pub poll_read-Reads :
    (room : ℕ) (s : NaivePaddedStream) (events : List Event) (payload : List ℕ)
    → 0 < room
    → Good events
    → Holds s payload
    → Reads events payload (poll_read room s events)
unfolding poll_read
poll_read-Reads room s events payload hr g (q, e, c) =
    pick events payload (room == 0) _ _ (λ z. absurd (omega (arith, hr, (==_iff room 0).0 z)))
      (λ more.
        poll_read_from-Reads (suc (s.reads_padded_left + length events)) room hr s events payload q
          e c g (omega arith))
