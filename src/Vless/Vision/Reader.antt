-- ===== src/Vless/Vision/Reader.antt =====
-- src/protocol/vless/vision.rs: what a reader makes of frames and of the bytes behind them.
use mathlib.Core.List.{append_assoc}
use elise_backend.Prelude.{
  ℕ, zero, suc, ◌+◌, ◌-◌, ◌*◌, ◌/◌, ◌%◌, ◌^◌, ◌≤◌, ◌<◌, ◌≡◌, refl, sym, ap, ◌∙◌, ◌⊎◌, inl, inr, min,
  Bool, true, false, not, ◌&&◌, ◌||◌, List, [], ◌∷◌, ◌++◌, ltb, ◌==◌, if◌then◌else◌, arith, length,
  take, drop, Io, ok, err, panic, ◌>>=◌, read_exact-append, Bool-cases, length-append,
  take-append-drop, length-take, length-drop, ltb→lt, ltb→le,
}
use elise_backend.Prelude.Bytes.{to_be_u16}
use elise_backend.Prelude.Position.{drop-drop, drop-all}
use elise_backend.Prelude.Text.{bytes_eq_self}
use elise_backend.Prelude.Strings.{is_empty}
use elise_backend.Vless.Vision.{
  VisionReader, check_uuid, discard, after_command, next_frame, buffered, read_payload,
  vision_frame, zeros, vision_cmd_end, vision_cmd_direct,
}

abbrev pub ends : ℕ → Bool
ends command = command == vision_cmd_end || command == vision_cmd_direct

abbrev pub prefix : Bool → List ℕ → List ℕ
prefix true uuid = uuid
prefix false uuid = []

-- A stream that carries a payload: frames, the last of which may switch to direct bytes. The
-- Booleans are whether the user's id comes first and whether the stream is direct already.
pub data Carried (uuid : List ℕ) : Bool → Bool → List ℕ → List ℕ → Type 0 where
  raw : {first direct : Bool} {s p : List ℕ} → direct ≡ true → s ≡ p → Carried uuid first direct s p
  ended :
      {first direct : Bool} {s p : List ℕ}
      → direct ≡ false
      → first ≡ false
      → s ≡ []
      → p ≡ []
      → Carried uuid first direct s p
  framed :
      {first direct : Bool} {s p : List ℕ} (command : ℕ) (content : List ℕ) (pad : ℕ)
      (rest q : List ℕ)
      → direct ≡ false
      → length content < 2 ^ 16
      → pad < 2 ^ 16
      → s ≡ prefix first uuid ++ (vision_frame command content pad ++ rest)
      → p ≡ content ++ q
      → Carried uuid false (ends command) rest q
      → Carried uuid first direct s p

length-zeros : (n : ℕ) → length (zeros n) ≡ n
length-zeros zero = refl
length-zeros (suc n) = ap suc (length-zeros n)

discard-append :
    (fuel n : ℕ) (xs s : List ℕ) → n ≡ length xs → n ≤ fuel → discard fuel n (xs ++ s) ≡ ok s
unfolding discard
discard-append zero n [] s e h = refl
discard-append zero n (x ∷ xs) s e h = absurd (omega arith)
discard-append (suc fuel) n xs s e h = elim (Bool-cases (ltb 0 n)) [
  | inr done ↦ rw done (ap ok (ap (λ t. t ++ s) (none_left xs (omega (arith, ltb→le 0 n done)))))
  | inl more ↦
      let m = min n 1024 in
      let cut : xs ++ s ≡ take m xs ++ (drop m xs ++ s) =
        ap (λ t. t ++ s) (sym (take-append-drop m xs)) ∙ append_assoc (take m xs) (drop m xs) s in
      rw
        (
          more,
          cut,
          read_exact-append m (take m xs) (drop m xs ++ s) (omega (arith, length-take m xs)),
        )
        (discard-append fuel (n - m) (drop m xs) s (omega (arith, length-drop m xs))
          (omega (arith, ltb→lt 0 n more)))
]
  where
    none_left : (ys : List ℕ) → length ys ≡ 0 → ys ≡ []
    none_left [] q = refl
    none_left (y ∷ ys) q = absurd (omega arith)

next_frame-vision_frame :
    (r : VisionReader) (command : ℕ) (content : List ℕ) (pad : ℕ) (rest : List ℕ)
    → length content < 2 ^ 16
    → pad < 2 ^ 16
    → next_frame r (vision_frame command content pad ++ rest)
      ≡ ok (after_command (record r { buf = content; buf_pos = 0 }) command, rest)
unfolding next_frame
next_frame-vision_frame r command content pad rest hc hp =
    let lengths : List ℕ = to_be_u16 (length content) ++ to_be_u16 pad in
    let word : (length content / 256 % 256) * 256 + length content % 256 ≡ length content =
      omega arith in
    let word' : (pad / 256 % 256) * 256 + pad % 256 ≡ pad = omega arith in
    let body : (content ++ zeros pad) ++ rest ≡ content ++ (zeros pad ++ rest) =
      append_assoc content (zeros pad) rest in
    rw
      (
        body,
        read_exact-append 1 (command ∷ []) (lengths ++ (content ++ (zeros pad ++ rest))) refl,
        read_exact-append 4 lengths (content ++ (zeros pad ++ rest)) refl,
        word,
        word',
        read_exact-append (length content) content (zeros pad ++ rest) refl,
        discard-append pad pad (zeros pad) rest (sym (length-zeros pad)) (omega arith),
      )
      refl

check_uuid-prefix :
    (r : VisionReader) (first : Bool) (s : List ℕ)
    → length r.user_uuid ≡ 16
    → r.is_first ≡ first
    → check_uuid r (prefix first r.user_uuid ++ s) ≡ ok (record r { is_first = false }, s)
unfolding check_uuid
check_uuid-prefix r true s h e =
    rw (e, read_exact-append 16 r.user_uuid s (sym h), bytes_eq_self r.user_uuid) refl
check_uuid-prefix r false s h e = rw e refl

-- What is still to be read: the buffer from its position on, and what the stream carries.
abbrev pub Holds : VisionReader → List ℕ → List ℕ → Type 0
Holds r s payload =
    (q : List ℕ) × (payload ≡ drop r.buf_pos r.buf ++ q)
    × Carried r.user_uuid r.is_first r.direct s q
    × (length r.user_uuid ≡ 16)

-- A read gives the front of the payload, and something unless there is nothing left.
abbrev pub Reads : List ℕ → Io (List ℕ × VisionReader × List ℕ) → Type 0
Reads payload (ok (out, r, s)) =
    ((rest : List ℕ) × (payload ≡ out ++ rest) × Holds r s rest)
    × ((payload ≡ []) ⊎ (0 < length out))
Reads payload (err e) = ⊥
Reads payload panic = ⊥

buffered-Reads :
    (r : VisionReader) (room : ℕ) (s payload : List ℕ)
    → Holds r s payload
    → 0 < room
    → r.buf_pos < length r.buf
    → Reads payload (buffered r room s)
unfolding buffered
buffered-Reads r room s payload (q, e, c, h) hr hb =
    let n = min (length r.buf - r.buf_pos) room in
    let left = drop r.buf_pos r.buf in
    let front : payload ≡ take n left ++ (drop n left ++ q) =
      e
      ∙ ap (λ t. t ++ q) (sym (take-append-drop n left))
      ∙ append_assoc (take n left) (drop n left) q in
    (
      (
        drop n left ++ q,
        front,
        (q, ap (λ t. t ++ q) (sym (drop-drop (r.buf_pos + n) r.buf_pos n r.buf refl)), c, h),
      ),
      inr (omega (arith, length-take n left, length-drop r.buf_pos r.buf)),
    )

raw-Reads :
    (r : VisionReader) (room ready : ℕ) (s payload : List ℕ)
    → length r.user_uuid ≡ 16
    → length r.buf ≤ r.buf_pos
    → r.direct ≡ true
    → s ≡ payload
    → 0 < room
    → 0 < ready
    → Reads payload (ok (take (min room ready) s, r, drop (min room ready) s))
raw-Reads r room ready s payload h hb d e hr hk = (
  (
    drop (min room ready) s,
    sym e ∙ sym (take-append-drop (min room ready) s),
    (
      drop (min room ready) s,
      ap (λ t. t ++ drop (min room ready) s) (sym (drop-all r.buf_pos r.buf hb)),
      raw d refl,
      h,
    ),
  ),
  some_or_none s e,
)
  where
    some_or_none :
        (t : List ℕ) → t ≡ payload → (payload ≡ []) ⊎ (0 < length (take (min room ready) t))
    some_or_none [] q = inl (sym q)
    some_or_none (x ∷ t) q = inr (omega (arith, length-take (min room ready) (x ∷ t)))

taken :
    (payload : List ℕ) (b : Bool) (m k : Io (List ℕ × VisionReader × List ℕ))
    → b ≡ true
    → Reads payload m
    → Reads payload (if b then m else k)
taken payload b m k e h = rw e h

left_out :
    (payload : List ℕ) (b : Bool) (m k : Io (List ℕ × VisionReader × List ℕ))
    → b ≡ false
    → Reads payload k
    → Reads payload (if b then m else k)
left_out payload b m k e h = rw e h

now_direct :
    (direct : Bool) (command : ℕ)
    → direct ≡ false
    → (if ends command && not direct then true else direct) ≡ ends command
now_direct direct command e = ground (arith, e)

-- Reads with this fuel, on streams that it covers.
abbrev ReadsWith : ℕ → ℕ → ℕ → Type 0
ReadsWith fuel ready room =
    (r : VisionReader) (s payload q : List ℕ)
    → Carried r.user_uuid r.is_first r.direct s q
    → payload ≡ drop r.buf_pos r.buf ++ q
    → length r.user_uuid ≡ 16
    → length s < fuel
    → Reads payload (read_payload ready fuel room r s)

module _ (fuel ready room : ℕ) (r : VisionReader) (s payload q : List ℕ)
    (again : ReadsWith fuel ready room) (e : payload ≡ drop r.buf_pos r.buf ++ q)
    (h : length r.user_uuid ≡ 16) (k : length s < suc fuel) (hr : 0 < room) (hk : 0 < ready)
    (empty : length r.buf ≤ r.buf_pos) where
  payload_left : payload ≡ q
  payload_left = e ∙ ap (λ t. t ++ q) (drop-all r.buf_pos r.buf empty)

  framed-Reads :
      (r₂ : VisionReader) (content rest q' : List ℕ)
      → r₂.buf ≡ content
      → r₂.buf_pos ≡ 0
      → payload ≡ content ++ q'
      → Carried r₂.user_uuid r₂.is_first r₂.direct rest q'
      → length r₂.user_uuid ≡ 16
      → length rest < fuel
      → Reads payload (
          if ltb 0 (length r₂.buf)
          then buffered r₂ room rest
          else read_payload ready fuel room r₂ rest)
  framed-Reads r₂ content rest q' eb e0 ep c hu hl =
      let left : payload ≡ drop r₂.buf_pos r₂.buf ++ q' =
        ep ∙ ap (λ t. t ++ q') (sym (ap (λ n. drop n r₂.buf) e0 ∙ eb)) in
      elim (Bool-cases (ltb 0 (length r₂.buf))) [
        | inl some_left ↦ taken payload (ltb 0 (length r₂.buf)) _ _ some_left (
            buffered-Reads r₂ room rest payload (q', left, c, hu) hr
              (omega (arith, e0, ltb→lt 0 (length r₂.buf) some_left)))
        | inr none_left ↦
            left_out payload (ltb 0 (length r₂.buf)) _ _ none_left
              (again r₂ rest payload q' c left hu hl)
      ]

  fresh-Reads :
      (first direct : Bool)
      → Carried r.user_uuid first direct s q
      → r.is_first ≡ first
      → r.direct ≡ direct
      → Reads payload (
          if r.direct
          then ok (take (min room ready) s, r, drop (min room ready) s)
          else (check_uuid r s >>= λ x.
              if is_empty x.1
              then ok ([], x.0, x.1)
              else (next_frame x.0 x.1 >>= λ y.
                  if ltb 0 (length y.0.buf)
                  then buffered y.0 room y.1
                  else read_payload ready fuel room y.0 y.1)))
  fresh-Reads first direct (raw d es) hf hd =
      taken payload r.direct _ _ (hd ∙ d)
        (raw-Reads r room ready s payload h empty (hd ∙ d) (es ∙ sym payload_left) hr hk)
  fresh-Reads first direct (ended d f es ep) hf hd =
      let at_end : check_uuid r s ≡ ok (record r { is_first = false }, []) =
        ap (check_uuid r) es ∙ check_uuid-prefix r false [] h (hf ∙ f) in
      left_out payload r.direct _ _ (hd ∙ d) (
        rw at_end (
          (
            [],
            payload_left ∙ ep,
            (
              [],
              sym (ap (λ t. t ++ []) (drop-all r.buf_pos r.buf empty)),
              ended (hd ∙ d) refl refl refl,
              h,
            ),
          ),
          inl (payload_left ∙ ep),
        ))
  fresh-Reads first direct (framed command content pad rest q' d hc hp es ep c) hf hd =
      let at_frame : check_uuid r s
          ≡ ok (record r { is_first = false }, vision_frame command content pad ++ rest) =
        ap (check_uuid r) es
        ∙ check_uuid-prefix r first (vision_frame command content pad ++ rest) h hf in
      left_out payload r.direct _ _ (hd ∙ d) (
        rw at_frame (
          rw
            (next_frame-vision_frame (record r { is_first = false }) command content pad rest hc hp)
            (framed-Reads
              (after_command (record r { is_first = false; buf = content; buf_pos = 0 }) command)
              content rest q' refl refl (payload_left ∙ ep)
              (rw (now_direct r.direct command (hd ∙ d)) c) h
              (omega (
                arith,
                k,
                ap length es,
                length-append (prefix first r.user_uuid) (vision_frame command content pad ++ rest),
                length-append (content ++ zeros pad) rest,
              )))))

pub read_payload-Reads : (ready room fuel : ℕ) → 0 < room → 0 < ready → ReadsWith fuel ready room
unfolding read_payload
read_payload-Reads ready room zero hr hk r s payload q c e h k = absurd (omega arith)
read_payload-Reads ready room (suc fuel) hr hk r s payload q c e h k =
    left_out payload (room == 0) _ _ (ground (arith, hr))
      (elim (Bool-cases (ltb r.buf_pos (length r.buf))) [
        | inl some_left ↦ taken payload (ltb r.buf_pos (length r.buf)) _ _ some_left (
            buffered-Reads r room s payload (q, e, c, h) hr
              (ltb→lt r.buf_pos (length r.buf) some_left))
        | inr none_left ↦ left_out payload (ltb r.buf_pos (length r.buf)) _ _ none_left (
            fresh-Reads fuel ready room r s payload q (read_payload-Reads ready room fuel hr hk) e h
              k hr hk (ltb→le r.buf_pos (length r.buf) none_left) r.is_first r.direct c refl refl)
      ])
