-- ===== src/Vless/Vision/Writer.antt =====
-- src/protocol/vless/vision.rs: what a writer makes of payloads.
use mathlib.Core.List.{append_assoc}
use elise_backend.Prelude.{
  ℕ, ◌^◌, ◌<◌, ◌≡◌, refl, sym, ap, ◌∙◌, Bool, true, false, List, ◌++◌, if◌then◌else◌, arith, length,
  Returns, bind-Returns, if-Returns,
}
use elise_backend.Vless.Vision.{
  TrafficState, filter_tls, VisionWriter, choose_command, padding_len, switched, write_payload,
  vision_frame,
}
use elise_backend.Vless.Vision.Filter.{filter_tls-user}
use elise_backend.Vless.Vision.Reader.{Carried, raw, ended, framed, ends, prefix}

choose_command-ends :
    (w : VisionWriter) (t : TrafficState) (s : List ℕ)
    → ends (choose_command w t s).0 ≡ (choose_command w t s).1
unfolding choose_command
choose_command-ends w t s = ground arith

padding_len-bounds : (draw n : ℕ) → padding_len draw n < 2 ^ 16
unfolding padding_len
padding_len-bounds draw n = ground arith

-- Once direct, a stream carries itself.
direct-raw :
    (uuid s p : List ℕ) (first direct : Bool)
    → Carried uuid first direct s p
    → direct ≡ true
    → s ≡ p
direct-raw uuid s p first direct (raw d e) t = e
direct-raw uuid s p first direct (ended d f e q) t = cc
direct-raw uuid s p first direct (framed command content pad rest q d hc hp es ep c) t = cc

-- What a write adds in front: `out` carries the data, whatever payload what follows carries.
abbrev pub Writes : VisionWriter → List ℕ → VisionWriter × List ℕ → Type 0
Writes w s r =
    (r.0.traffic_state.user_uuid ≡ w.traffic_state.user_uuid)
    × (r.0.direct ≡ false → r.0.is_first ≡ false)
    × ((rest p : List ℕ)
        → Carried w.traffic_state.user_uuid r.0.is_first r.0.direct rest p
        → Carried w.traffic_state.user_uuid w.is_first w.direct (r.1 ++ rest) (s ++ p))

switched-fields :
    (w : VisionWriter) (command : ℕ) (b : Bool)
    → w.direct ≡ false
    → ((switched w command b).direct ≡ b)
      × ((switched w command b).is_first ≡ w.is_first)
      × ((switched w command b).traffic_state ≡ w.traffic_state)
unfolding switched
switched-fields w command true h = (refl, refl, refl)
switched-fields w command false h = (h, refl, refl)

in_front :
    (first : Bool) (uuid frame rest : List ℕ)
    → (if first then uuid ++ frame else frame) ++ rest ≡ prefix first uuid ++ (frame ++ rest)
in_front true uuid frame rest = append_assoc uuid frame rest
in_front false uuid frame rest = refl

recast :
    (uuid s p : List ℕ) (first direct first' direct' : Bool)
    → first ≡ first'
    → direct ≡ direct'
    → Carried uuid first direct s p
    → Carried uuid first' direct' s p
recast uuid s p first direct first' direct' e d c = rw (← e, ← d) c

framed_write :
    (draw : ℕ) (w : VisionWriter) (t : TrafficState) (s : List ℕ)
    → length s < 2 ^ 16
    → w.direct ≡ false
    → t.user_uuid ≡ w.traffic_state.user_uuid
    → let c = choose_command w t s in
      let frame = vision_frame c.0 s (padding_len draw (length s)) in
      Writes w s (
        switched (record w { traffic_state = t; is_first = false }) c.0 c.1,
        (if w.is_first then t.user_uuid ++ frame else frame),
      )
framed_write draw w t s h framed_yet same =
    let c = choose_command w t s in
    let frame = vision_frame c.0 s (padding_len draw (length s)) in
    let f = switched-fields (record w { traffic_state = t; is_first = false }) c.0 c.1 framed_yet in
    (
      ap (λ (u : TrafficState). u.user_uuid) f.2 ∙ same,
      (λ e. f.1),
      λ rest p car.
          framed c.0 s (padding_len draw (length s)) rest p framed_yet h
            (padding_len-bounds draw (length s))
            (in_front w.is_first t.user_uuid frame rest
              ∙ ap (λ u. prefix w.is_first u ++ (frame ++ rest)) same)
            refl
            (recast w.traffic_state.user_uuid rest p _ _ false (ends c.0) f.1
              (f.0 ∙ sym (choose_command-ends w t s)) car),
    )

pub write_payload-Writes :
    (draw : ℕ) (w : VisionWriter) (s : List ℕ)
    → length s < 2 ^ 16
    → Returns (Writes w s) (write_payload draw w s)
unfolding write_payload
write_payload-Writes draw w s h =
    if-Returns (Writes w s) w.direct _ _
      (λ direct. (
        refl,
        (λ e. cc),
        λ rest p c.
            raw direct (ap (λ t. s ++ t) (direct-raw _ rest p w.is_first w.direct c direct)),
      ))
      (λ framed_yet.
        bind-Returns (λ (u : TrafficState). u.user_uuid ≡ w.traffic_state.user_uuid) (Writes w s)
          (filter_tls w.traffic_state s true) _ (filter_tls-user w.traffic_state s true)
          (λ t same. framed_write draw w t s h framed_yet same))
