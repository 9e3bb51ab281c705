-- ===== src/AnyTls/Session/Codec.antt =====
-- src/protocol/anytls/session.rs: frames read back, and the loop ends.
use elise_backend.Prelude.{
  ℕ, zero, suc, ◌+◌, ◌*◌, ◌/◌, ◌%◌, ◌^◌, ◌≤◌, ◌<◌, ◌≡◌, refl, ap, ◌∙◌, Option, none, some, List, [],
  ◌∷◌, ◌++◌, leb, arith, length, drop, read_exact, read_exact-append, Bool-cases, inl, inr,
  length-drop, leb→le,
}
use elise_backend.Prelude.Bytes.{to_be_u16, to_be_bytes, from_be_bytes, from-to_be_bytes}
use elise_backend.AnyTls.Session.{
  make_frame, Frame, read_header, read_payload, read_frame, Session, Effect, Handled, next, failed,
  panicked, Services, handle_frame, continue_with, on_frame, session_loop,
}

abbrev pub frame_of : Frame → List ℕ
frame_of f = make_frame f.command f.stream_id f.payload

-- The fields fit their widths.
abbrev pub Fits : Frame → Type 0
Fits f = (f.stream_id < 2 ^ 32) × (length f.payload < 2 ^ 16)

-- A frame reads back as it was made, and what follows it is left.
pub read_frame-make_frame :
    (f : Frame) (rest : List ℕ)
    → Fits f
    → read_frame (make_frame f.command f.stream_id f.payload ++ rest) ≡ some (f, rest)
unfolding read_frame make_frame
read_frame-make_frame f rest h =
    let header : List ℕ = f.command ∷ (to_be_bytes 4 f.stream_id ++ to_be_u16 (length f.payload)) in
    let word : (length f.payload / 256 % 256) * 256 + length f.payload % 256 ≡ length f.payload =
      omega arith in
    ap read_header (read_exact-append 7 header (f.payload ++ rest) refl)
    ∙ ap
        (λ n.
          read_payload f.command (from_be_bytes (to_be_bytes 4 f.stream_id))
            (read_exact n (f.payload ++ rest)))
        word
    ∙ ap (λ n. read_payload f.command n (read_exact (length f.payload) (f.payload ++ rest)))
        (from-to_be_bytes 4 f.stream_id h.0)
    ∙ ap (read_payload f.command f.stream_id)
        (read_exact-append (length f.payload) f.payload rest refl)

-- A frame that is read leaves fewer bytes.
abbrev Shrinks : List ℕ → Option (Frame × List ℕ) → Type 0
Shrinks s none = Unit
Shrinks s (some (f, rest)) = length rest < length s

read_payload-Shrinks :
    (command stream_id n : ℕ) (s s₀ : List ℕ)
    → length s < length s₀
    → Shrinks s₀ (read_payload command stream_id (read_exact n s))
unfolding read_payload read_exact
read_payload-Shrinks command stream_id n s s₀ h = elim (Bool-cases (leb n (length s))) [
  | inl e ↦ rw e (omega (arith, length-drop n s))
  | inr e ↦ rw e tt
]

read_frame-Shrinks : (s : List ℕ) → Shrinks s (read_frame s)
unfolding read_frame read_exact
read_frame-Shrinks s = elim (Bool-cases (leb 7 (length s))) [
  | inl e ↦ rw e (
      read_payload-Shrinks _ _ _ (drop 7 s) s
        (omega (arith, length-drop 7 s, leb→le 7 (length s) e)))
  | inr e ↦ rw e tt
]

module _ (v : Services) where
  -- Two loops that agree on what follows a frame.
  module _ (f g : ℕ) (bytes : List ℕ)
      (agree : (t : Session) (rest : List ℕ)
        → length rest < length bytes
        → session_loop v f t rest ≡ session_loop v g t rest) where
    after_handled :
        (h : Handled) (s : Session) (rest : List ℕ)
        → length rest < length bytes
        → continue_with v (session_loop v f) s rest h ≡ continue_with v (session_loop v g) s rest h
    after_handled (next t effects) s rest q =
        ap (λ (r : List Effect × Option Session). (effects ++ r.0, r.1)) (agree t rest q)
    after_handled (failed effects) s rest q = refl
    after_handled panicked s rest q = refl

    after_read :
        (o : Option (Frame × List ℕ)) (s : Session)
        → Shrinks bytes o
        → on_frame v (session_loop v f) s o ≡ on_frame v (session_loop v g) s o
    unfolding on_frame
    after_read none s q = refl
    after_read (some (fr, rest)) s q = after_handled (handle_frame v s fr) s rest q

  pub enough :
      (f g : ℕ) (s : Session) (bytes : List ℕ)
      → length bytes ≤ f
      → length bytes ≤ g
      → session_loop v f s bytes ≡ session_loop v g s bytes
  unfolding session_loop read_frame read_exact on_frame
  enough zero zero s bytes hf hg = refl
  enough zero (suc g) s [] hf hg = refl
  enough (suc f) zero s [] hf hg = refl
  enough zero (suc g) s (b ∷ bytes) hf hg = absurd (omega arith)
  enough (suc f) zero s (b ∷ bytes) hf hg = absurd (omega arith)
  enough (suc f) (suc g) s bytes hf hg =
      after_read f g bytes (λ t rest q. enough f g t rest (omega arith) (omega arith))
        (read_frame bytes) s (read_frame-Shrinks bytes)
