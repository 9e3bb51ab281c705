-- ===== src/AnyTls/Padding/Waste.antt =====
-- src/protocol/anytls/padding.rs: what padding does to the bytes of a frame.
use mathlib.Core.List.{append_assoc, append-nil}
use elise_backend.Prelude.{
  ℕ, zero, suc, ◌+◌, ◌-◌, ◌%◌, ◌^◌, ◌≤◌, ◌≡◌, refl, sym, ap, ◌∙◌, min, Bool, true, false, Option,
  none, some, List, [], ◌∷◌, ◌++◌, ltb, leb, if◌then◌else◌, length, take, drop, arith,
  take-append-drop,
}
use elise_backend.Prelude.Bytes.{All, All-append}
use elise_backend.AnyTls.Padding.{
  CompiledPaddingScheme, max_frame_size, waste_frame, pad_after, pad_full, pad_record, write_sizes,
  generate_record_payload_sizes, write_padded_frame,
}

-- Waste frames of these lengths.
abbrev pub wastes : List ℕ → List ℕ
wastes [] = []
wastes (w ∷ ws) = waste_frame w ++ wastes ws

abbrev pub AreSizes : List ℕ → Type 0
AreSizes ws = All (λ w. w ≤ max_frame_size) ws

-- Bytes, and behind them waste frames alone.
abbrev pub Padded : List ℕ → List ℕ → Type 0
Padded bytes out = (ws : List ℕ) × AreSizes ws × (out ≡ bytes ++ wastes ws)

wastes-append : (us ws : List ℕ) → wastes us ++ wastes ws ≡ wastes (us ++ ws)
wastes-append [] ws = refl
wastes-append (u ∷ us) ws =
    append_assoc (waste_frame u) (wastes us) (wastes ws)
    ∙ ap (λ t. waste_frame u ++ t) (wastes-append us ws)

one_more :
    (w : ℕ) (out : List ℕ) → w ≤ max_frame_size → Padded [] out → Padded [] (waste_frame w ++ out)
one_more w out h p = (w ∷ p.0, (h, p.1), ap (λ t. waste_frame w ++ t) p.2)

if-Padded :
    (b : Bool) (bytes out out' : List ℕ)
    → (b ≡ true → Padded bytes out)
    → (b ≡ false → Padded bytes out')
    → Padded bytes (if b then out else out')
if-Padded true bytes out out' h k = h refl
if-Padded false bytes out out' h k = k refl

nothing : Padded [] []
nothing = ([], tt, refl)

pad_after-Padded : (fuel remaining : ℕ) → Padded [] (pad_after fuel remaining)
unfolding pad_after
pad_after-Padded zero remaining = nothing
pad_after-Padded (suc fuel) remaining =
    let w = min (remaining - 7) max_frame_size in
    if-Padded (ltb 7 remaining) [] _ []
      (λ h. one_more w _ (omega arith) (pad_after-Padded fuel (remaining - (7 + w)))) (λ h. nothing)

pad_full-Padded : (fuel remaining : ℕ) → Padded [] (pad_full fuel remaining)
unfolding pad_full
pad_full-Padded zero remaining = nothing
pad_full-Padded (suc fuel) remaining =
    let w = min remaining max_frame_size in
    if-Padded (ltb 0 remaining) [] _ []
      (λ h. one_more w _ (omega arith) (pad_full-Padded fuel (remaining - w))) (λ h. nothing)

behind : (bytes out : List ℕ) → Padded [] out → Padded bytes (bytes ++ out)
behind bytes out p = (p.0, p.1, ap (λ t. bytes ++ t) p.2)

followed :
    (bytes out more : List ℕ) → Padded bytes out → Padded [] more → Padded bytes (out ++ more)
followed bytes out more p q = (
  p.0 ++ q.0,
  All-append (λ w. w ≤ max_frame_size) p.0 q.0 p.1 q.1,
  rw (p.2, q.2)
      (append_assoc bytes (wastes p.0) (wastes q.0) ∙ ap (λ t. bytes ++ t) (wastes-append p.0 q.0)),
)

pad_record-Padded : (target_size : ℕ) (bytes : List ℕ) → Padded bytes (pad_record target_size bytes)
unfolding pad_record
pad_record-Padded target_size [] = pad_full-Padded target_size target_size
pad_record-Padded target_size (b ∷ bytes) =
    behind (b ∷ bytes) _ (pad_after-Padded target_size (target_size - suc (length bytes)))

write_sizes-Padded :
    (sizes : List (Option ℕ)) (bytes : List ℕ) → Padded bytes (write_sizes sizes bytes)
unfolding write_sizes
write_sizes-Padded [] bytes = ([], tt, sym (append-nil bytes))
write_sizes-Padded (none ∷ sizes) [] = nothing
write_sizes-Padded (none ∷ sizes) (b ∷ bytes) = write_sizes-Padded sizes (b ∷ bytes)
write_sizes-Padded (some target ∷ sizes) bytes =
    if-Padded (ltb target (length bytes)) bytes _ _
      (λ h.
        let p = write_sizes-Padded sizes (drop target bytes) in
        (
          p.0,
          p.1,
          ap (λ t. take target bytes ++ t) p.2
              ∙ sym (append_assoc (take target bytes) (drop target bytes) (wastes p.0))
              ∙ ap (λ t. t ++ wastes p.0) (take-append-drop target bytes),
        ))
      (λ h. followed bytes _ _ (pad_record-Padded target bytes) (write_sizes-Padded sizes []))

sizes-Padded :
    (o : Option (List (Option ℕ))) (frame : List ℕ)
    → Padded frame (elim o [ none ↦ frame | some sizes ↦ write_sizes sizes frame ])
sizes-Padded none frame = ([], tt, sym (append-nil frame))
sizes-Padded (some sizes) frame = write_sizes-Padded sizes frame

chosen :
    (stopped : Bool) (count : ℕ) (send_padding : Bool) (frame out : List ℕ)
    → Padded frame out
    → let r : ℕ × Bool × List ℕ =
        if stopped then (count, false, frame) else (count, send_padding, out) in
      Padded frame r.2
chosen true count send_padding frame out p = ([], tt, sym (append-nil frame))
chosen false count send_padding frame out p = p

-- Under every scheme and for all random numbers, the bytes that are written for a frame are the
-- frame, and behind it nothing but waste frames of at most 65535 bytes.
pub write_padded_frame-Padded :
    (draw : ℕ → ℕ) (scheme : CompiledPaddingScheme) (frame : List ℕ) (packet_count : ℕ)
    (send_padding : Bool)
    → Padded frame (write_padded_frame draw scheme frame packet_count send_padding).2
unfolding write_padded_frame
write_padded_frame-Padded draw scheme frame packet_count send_padding =
    let count = (packet_count + 1) % 2 ^ 32 in
    chosen (leb scheme.stop count) count send_padding frame _
      (sizes-Padded (generate_record_payload_sizes draw scheme count) frame)
