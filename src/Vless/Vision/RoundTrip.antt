-- ===== src/Vless/Vision/RoundTrip.antt =====
-- src/protocol/vless/vision.rs: payloads that are written, and read at the other end.
use mathlib.Core.List.{append_assoc}
use mathlib.Core.Path.{subst}
use elise_backend.Prelude.{
  ℕ, suc, ◌^◌, ◌≤◌, ◌<◌, ◌≡◌, refl, sym, ap, ◌∙◌, ◌⊎◌, inl, inr, Bool, true, false, List, [], ◌∷◌,
  ◌++◌, arith, length, Io, ok, err, panic, ◌>>=◌, Returns, bind-Returns, length-append,
}
use elise_backend.Vless.Vision.{
  VisionWriter, new_writer, set_writer_control, write_payload, VisionReader, new_reader,
  set_reader_control, read_payload,
}
use elise_backend.Vless.Vision.Reader.{Carried, raw, ended, Holds, Reads, read_payload-Reads}
use elise_backend.Vless.Vision.Writer.{Writes, write_payload-Writes}

-- A payload after the other; a number for each is the random one of its padding.
unfoldable pub write_each : VisionWriter → List (ℕ × List ℕ) → Io (List ℕ)
write_each w [] = ok []
write_each w ((draw, s) ∷ more) = do
  (w', out) ← write_payload draw w s
  bytes ← write_each w' more
  ok (out ++ bytes)

abbrev pub payload_of : List (ℕ × List ℕ) → List ℕ
payload_of [] = []
payload_of ((draw, s) ∷ more) = s ++ payload_of more

abbrev pub Fit : List (ℕ × List ℕ) → Type 0
Fit [] = Unit
Fit ((draw, s) ∷ more) = (length s < 2 ^ 16) × Fit more

-- A read after the other, each with the room of its buffer and the bytes that are ready for it.
unfoldable pub read_each :
    List (ℕ × ℕ) → VisionReader → List ℕ → Io (List ℕ × VisionReader × List ℕ)
read_each [] r s = ok ([], r, s)
read_each ((room, ready) ∷ more) r s = do
  (out, r', s') ← read_payload ready (suc (length s)) room r s
  (out', r'', s'') ← read_each more r' s'
  ok (out ++ out', r'', s'')

abbrev pub AllPositive : List (ℕ × ℕ) → Type 0
AllPositive [] = Unit
AllPositive ((room, ready) ∷ more) = (0 < room) × (0 < ready) × AllPositive more

nothing-Carried :
    (uuid : List ℕ) (first direct : Bool)
    → (direct ≡ false → first ≡ false)
    → Carried uuid first direct [] []
nothing-Carried uuid first true h = raw refl refl
nothing-Carried uuid first false h = ended refl (h refl) refl refl

first_write-Carried :
    (w : VisionWriter) (draw : ℕ) (s : List ℕ) (more : List (ℕ × List ℕ))
    → length s < 2 ^ 16
    → ((w' : VisionWriter)
        → (w'.direct ≡ false → w'.is_first ≡ false)
        → Returns
            (λ bytes.
              Carried w'.traffic_state.user_uuid w'.is_first w'.direct bytes (payload_of more))
            (write_each w' more))
    → Returns
        (λ bytes.
          Carried w.traffic_state.user_uuid w.is_first w.direct bytes (s ++ payload_of more))
        (write_each w ((draw, s) ∷ more))
unfolding write_each
first_write-Carried w draw s more h rest =
    let Done : List ℕ → Type 0 =
      λ bytes. Carried w.traffic_state.user_uuid w.is_first w.direct bytes (s ++ payload_of more) in
    bind-Returns (Writes w s) Done (write_payload draw w s) _ (write_payload-Writes draw w s h)
      (λ r q.
        bind-Returns
          (λ bytes.
            Carried r.0.traffic_state.user_uuid r.0.is_first r.0.direct bytes (payload_of more))
          Done (write_each r.0 more) _ (rest r.0 (q.1))
          (λ bytes c.
            q.2 bytes (payload_of more)
              (subst (λ u. Carried u r.0.is_first r.0.direct bytes (payload_of more)) (q.0) c)))

write_each-Carried :
    (w : VisionWriter) (writes : List (ℕ × List ℕ))
    → (w.direct ≡ false → w.is_first ≡ false)
    → Fit writes
    → Returns
        (λ bytes. Carried w.traffic_state.user_uuid w.is_first w.direct bytes (payload_of writes))
        (write_each w writes)
unfolding write_each
write_each-Carried w [] h fit = nothing-Carried w.traffic_state.user_uuid w.is_first w.direct h
write_each-Carried w ((draw, s) ∷ more) h fit =
    first_write-Carried w draw s more (fit.0) (λ w' k. write_each-Carried w' more k (fit.1))

-- What is read is the front of the payload, and all of it after as many reads as it has bytes.
abbrev pub Gets : List ℕ → ℕ → List ℕ × VisionReader × List ℕ → Type 0
Gets payload n (out, r, s) =
    (rest : List ℕ) × (payload ≡ out ++ rest) × (length payload ≤ n → rest ≡ [])

read_each-Gets :
    (reads : List (ℕ × ℕ)) (r : VisionReader) (s payload : List ℕ)
    → AllPositive reads
    → Holds r s payload
    → Returns (Gets payload (length reads)) (read_each reads r s)
unfolding read_each
read_each-Gets [] r s payload h k = (payload, refl, none_left payload)
  where
    none_left : (p : List ℕ) → length p ≤ 0 → p ≡ []
    none_left [] q = refl
    none_left (x ∷ p) q = absurd (omega arith)
read_each-Gets ((room, ready) ∷ more) r s payload h (q, e, c, hu) =
    bind-Returns (λ x. Reads payload (ok x)) (Gets payload (suc (length more)))
      (read_payload ready (suc (length s)) room r s) _
      (read_returns payload _ (
        read_payload-Reads ready room (suc (length s)) (h.0) (h.1) r s payload q c e hu
          (omega arith)))
      (λ x got.
        bind-Returns (Gets (got.0.0) (length more)) (Gets payload (suc (length more)))
          (read_each more x.1 x.2) _ (read_each-Gets more x.1 x.2 (got.0.0) (h.2) (got.0.2))
          (λ y next. (
            next.0,
            got.0.1 ∙ ap (λ t. x.0 ++ t) (next.1) ∙ sym (append_assoc x.0 y.0 (next.0)),
            (λ enough. next.2 (fewer x.0 (got.0.0) (got.0.1) (got.1) enough)),
          )))
  where
    read_returns :
        (p : List ℕ) (m : Io (List ℕ × VisionReader × List ℕ))
        → Reads p m
        → Returns (λ x. Reads p (ok x)) m
    read_returns p (ok x) g = g
    read_returns p (err x) g = g
    read_returns p panic g = g

    fewer :
        (out rest : List ℕ)
        → payload ≡ out ++ rest
        → (payload ≡ []) ⊎ (0 < length out)
        → length payload ≤ suc (length more)
        → length rest ≤ length more
    fewer out rest f (inl none) n =
        omega (arith, ap length f, ap length none, length-append out rest)
    fewer out rest f (inr some) n = omega (arith, ap length f, length-append out rest)

-- Payloads of less than 2 ^ 16 bytes, at least one, that a writer frames, pads and, behind an END or
-- a DIRECT frame, sends directly come out of a reader for the same user of 16 bytes, whether or not
-- either end has a direct control, whatever the padding and for reads of any positive sizes: the
-- reads give what comes next, and as many reads as there are bytes give all.
pub read_each-write_each :
    (uuid : List ℕ) (writer_control reader_control : Bool) (draw : ℕ) (first : List ℕ)
    (more : List (ℕ × List ℕ)) (reads : List (ℕ × ℕ))
    → length uuid ≡ 16
    → Fit ((draw, first) ∷ more)
    → AllPositive reads
    → Returns (Gets (first ++ payload_of more) (length reads)) (
        write_each (set_writer_control writer_control (new_writer uuid)) ((draw, first) ∷ more)
        >>= read_each reads (set_reader_control reader_control (new_reader uuid)))
read_each-write_each uuid writer_control reader_control draw first more reads h fit k =
    let payload : List ℕ = first ++ payload_of more in
    let w : VisionWriter = set_writer_control writer_control (new_writer uuid) in
    let r : VisionReader = set_reader_control reader_control (new_reader uuid) in
    bind-Returns (λ bytes. Carried uuid true false bytes payload) (Gets payload (length reads))
      (write_each w ((draw, first) ∷ more)) _
      (first_write-Carried w draw first more (fit.0) (λ w' q. write_each-Carried w' more q (fit.1)))
      (λ bytes c. read_each-Gets reads r bytes payload k (payload, refl, c, h))
