-- ===== src/AnyTls/Session/Delivery.antt =====
-- src/protocol/anytls: frames written under a padding scheme, as the other end's session reads them.
use mathlib.Core.List.{append_assoc, append-nil}
use elise_backend.Prelude.{
  ℕ, zero, suc, ◌/◌, ◌%◌, ◌≤◌, ◌≡◌, refl, sym, ap, ◌∙◌, Bool, true, false, Option, some, List, [],
  ◌∷◌, ◌++◌, map, arith, length, length-append, read_exact,
}
use elise_backend.Prelude.Bytes.{All}
use elise_backend.AnyTls.Padding.{
  CompiledPaddingScheme, max_frame_size, zeros, waste_frame, write_padded_frame,
}
use elise_backend.AnyTls.Padding.Waste.{wastes, AreSizes, Padded, write_padded_frame-Padded}
use elise_backend.AnyTls.Session.{
  make_frame, Frame, read_frame, Session, Effect, Handled, next, failed, panicked, Services,
  handle_frame, continue_with, on_frame, session_loop, writer_task, handle_anytls_session,
  new_session,
}
use elise_backend.AnyTls.Session.Codec.{frame_of, Fits, read_frame-make_frame, enough}

-- Frames handled one after the other.
unfoldable pub handle_all : Services → Session → List Frame → List Effect × Option Session
handle_all v s [] = ([], some s)
handle_all v s (f ∷ fs) = continue_with v (λ t rest. handle_all v t fs) s [] (handle_frame v s f)

length-zeros : (n : ℕ) → length (zeros n) ≡ n
length-zeros zero = refl
length-zeros (suc n) = ap suc (length-zeros n)

module _ (v : Services) where
  -- A frame at the front, with fuel for what follows it.
  one_round :
      (fuel : ℕ) (s : Session) (f : Frame) (rest : List ℕ)
      → Fits f
      → session_loop v (suc fuel) s (frame_of f ++ rest)
        ≡ continue_with v (session_loop v fuel) s rest (handle_frame v s f)
  unfolding session_loop on_frame
  one_round fuel s f rest h =
      ap (on_frame v (session_loop v fuel) s) (read_frame-make_frame f rest h)

  waste_of : ℕ → Frame
  waste_of w = record { command = 0; stream_id = 0; payload = zeros w }

  waste_round :
      (fuel w : ℕ) (s : Session) (rest : List ℕ)
      → w ≤ max_frame_size
      → length (waste_frame w ++ rest) ≤ fuel
      → session_loop v fuel s (waste_frame w ++ rest) ≡ session_loop v fuel s rest
  unfolding make_frame waste_of handle_frame
  waste_round zero w s rest h k = absurd (omega arith)
  waste_round (suc fuel) w s rest h k =
      let front : frame_of (waste_of w) ++ rest ≡ waste_frame w ++ rest =
        ap (λ n. 0 ∷ 0 ∷ 0 ∷ 0 ∷ 0 ∷ (n / 256 % 256) ∷ (n % 256) ∷ (zeros w ++ rest))
          (length-zeros w) in
      ap (session_loop v (suc fuel) s) (sym front)
      ∙ one_round fuel s (waste_of w) rest (omega arith, omega (arith, length-zeros w))
      ∙ enough v fuel (suc fuel) s rest (omega (arith, k, length-append (zeros w) rest))
          (omega (arith, k, length-append (zeros w) rest))

  wastes_skipped :
      (fuel : ℕ) (ws : List ℕ) (s : Session) (rest : List ℕ)
      → AreSizes ws
      → length (wastes ws ++ rest) ≤ fuel
      → session_loop v fuel s (wastes ws ++ rest) ≡ session_loop v fuel s rest
  wastes_skipped fuel [] s rest h k = refl
  wastes_skipped fuel (w ∷ ws) s rest h k =
      let assoc = append_assoc (waste_frame w) (wastes ws) rest in
      let more : length (waste_frame w ++ (wastes ws ++ rest)) ≤ fuel =
        omega (arith, ap length assoc, k) in
      ap (session_loop v fuel s) assoc
      ∙ waste_round fuel w s (wastes ws ++ rest) (h.0) more
      ∙ wastes_skipped fuel ws s rest (h.1)
          (omega (arith, more, length-append (waste_frame w) (wastes ws ++ rest)))

  -- The same continuation gives the same outcome.
  continued :
      (h : Handled) (s : Session) (rest rest' : List ℕ)
      (loop loop' : Session → List ℕ → List Effect × Option Session)
      → ((t : Session) → loop t rest ≡ loop' t rest')
      → continue_with v loop s rest h ≡ continue_with v loop' s rest' h
  continued (next t effects) s rest rest' loop loop' q =
      ap (λ (r : List Effect × Option Session). (effects ++ r.0, r.1)) (q t)
  continued (failed effects) s rest rest' loop loop' q = refl
  continued panicked s rest rest' loop loop' q = refl

  -- A padded frame is handled, and the loop goes on with what is behind its padding.
  frame_round :
      (fuel : ℕ) (s : Session) (f : Frame) (out rest : List ℕ)
      → Fits f
      → Padded (frame_of f) out
      → length (out ++ rest) ≤ fuel
      → session_loop v fuel s (out ++ rest)
        ≡ continue_with v (session_loop v fuel) s rest (handle_frame v s f)
  unfolding make_frame
  frame_round zero s f out rest h p k = absurd (omega (arith, k, ap (λ t. length (t ++ rest)) p.2))
  frame_round (suc fuel) s f out rest h p k =
      let shape : out ++ rest ≡ frame_of f ++ (wastes p.0 ++ rest) =
        ap (λ t. t ++ rest) p.2 ∙ append_assoc (frame_of f) (wastes p.0) rest in
      let room : length (wastes p.0 ++ rest) ≤ fuel =
        omega (arith, k, ap length shape, length-append (f.payload) (wastes p.0 ++ rest)) in
      ap (session_loop v (suc fuel) s) shape
      ∙ one_round fuel s f (wastes p.0 ++ rest) h
      ∙ continued (handle_frame v s f) s (wastes p.0 ++ rest) rest (session_loop v fuel)
          (session_loop v (suc fuel))
          (λ t.
            wastes_skipped fuel p.0 t rest p.1 room
            ∙ enough v fuel (suc fuel) t rest (omega (arith, room, length-append (wastes p.0) rest))
                (omega (arith, room, length-append (wastes p.0) rest)))

  loop_end : (fuel : ℕ) (s : Session) → session_loop v fuel s [] ≡ ([], some s)
  unfolding session_loop on_frame read_frame read_exact
  loop_end zero s = refl
  loop_end (suc fuel) s = refl

  delivered :
      (fuel : ℕ) (draw : ℕ → ℕ → ℕ) (scheme : CompiledPaddingScheme) (count : ℕ)
      (send_padding : Bool) (fs : List Frame) (s : Session)
      → All Fits fs
      → length (writer_task draw scheme count send_padding (map frame_of fs)) ≤ fuel
      → session_loop v fuel s (writer_task draw scheme count send_padding (map frame_of fs))
        ≡ handle_all v s fs
  unfolding writer_task handle_all
  delivered fuel draw scheme count send_padding [] s h k = loop_end fuel s
  delivered fuel draw scheme count true (f ∷ fs) s h k =
      let w = write_padded_frame (draw (length (map frame_of fs))) scheme (frame_of f) count true in
      let more = writer_task draw scheme w.0 w.1 (map frame_of fs) in
      frame_round fuel s f w.2 more (h.0)
        (write_padded_frame-Padded (draw (length (map frame_of fs))) scheme (frame_of f) count true)
        k
      ∙ continued (handle_frame v s f) s more [] (session_loop v fuel) (λ t rest. handle_all v t fs)
          (λ t.
            delivered fuel draw scheme w.0 w.1 fs t (h.1)
              (omega (arith, k, length-append w.2 more)))
  delivered fuel draw scheme count false (f ∷ fs) s h k =
      let more = writer_task draw scheme count false (map frame_of fs) in
      frame_round fuel s f (frame_of f) more (h.0) ([], tt, sym (append-nil (frame_of f))) k
      ∙ continued (handle_frame v s f) s more [] (session_loop v fuel) (λ t rest. handle_all v t fs)
          (λ t.
            delivered fuel draw scheme count false fs t (h.1)
              (omega (arith, k, length-append (frame_of f) more)))

-- A session that reads what a writer wrote for frames, padded under any scheme and with any random
-- numbers, does just what these frames one after the other do.
pub session-writer_task :
    (v : Services) (draw : ℕ → ℕ → ℕ) (scheme : CompiledPaddingScheme) (fs : List Frame)
    → All Fits fs
    → handle_anytls_session v (writer_task draw scheme 0 true (map frame_of fs))
      ≡ handle_all v new_session fs
unfolding handle_anytls_session
session-writer_task v draw scheme fs h =
    delivered v _ draw scheme 0 true fs new_session h (omega arith)
