-- ===== src/Conn/ProxyStream/HeaderTwo.antt =====
-- `read_v2` on a stream that begins with a whole header, however its first bytes arrive.
use elise_backend.Prelude.{
  ℕ, zero, suc, ◌+◌, ◌-◌, ◌/◌, ◌^◌, ◌≤◌, ◌<◌, ◌≡◌, refl, sym, ap, ◌∙◌, Bool, true, List, [], ◌∷◌,
  ◌++◌, arith, ltb, ◌==◌, length, drop, take, take-append-drop, length-take, Bool-cases, inl, inr,
  ltb→lt, ltb→le, length-append, ok, index, read_exact, le→leb, drop-length,
}
use mathlib.Core.Path.{subst}
use mathlib.Core.List.{append_assoc}
use elise_backend.Prelude.Bytes.{to_be_u16}
use elise_backend.Prelude.Position.{At, At-append, At-index}
use elise_backend.Conn.ProxyHeader.{ProxyProtocolMode, v2_signature, port_from}
use elise_backend.Conn.ProxyHeader.Fields.{port_from-At}
use elise_backend.Conn.ProxyStream.{
  PrefixedStream, new_stream, ConnectionMeta, Opened, left_over, push_bytes, fill_to, v2_command,
  read_v2,
}
use elise_backend.Conn.ProxyStream.Poll.{unread}
use elise_backend.Conn.ProxyStream.Keeps.{unread-left_over}

tail_eq : (p b : ℕ) (s t : List ℕ) → b ∷ s ≡ p ∷ t → s ≡ t
tail_eq p b s t h = cc

head_eq : (p b : ℕ) (s t : List ℕ) → b ∷ s ≡ p ∷ t → b ≡ p
head_eq p b s t h = cc

cons_eq : (b p : ℕ) (s t : List ℕ) → b ≡ p → s ≡ t → b ∷ s ≡ p ∷ t
cons_eq b p s t h k = cc

-- A buffer that is long enough begins as the bytes do that it was read from.
pub prefix_of :
    (ps xs buf rest : List ℕ)
    → buf ++ rest ≡ ps ++ xs
    → length ps ≤ length buf
    → (more : List ℕ) × (buf ≡ ps ++ more) × (more ++ rest ≡ xs)
prefix_of [] xs buf rest e h = (buf, refl, e)
prefix_of (p ∷ ps) xs [] rest e h = absurd (omega arith)
prefix_of (p ∷ ps) xs (b ∷ buf) rest e h =
    let r = prefix_of ps xs buf rest (tail_eq p b (buf ++ rest) (ps ++ xs) e) (omega arith) in
    (r.0, cons_eq b p buf (ps ++ r.0) (head_eq p b (buf ++ rest) (ps ++ xs) e) (r.1), r.2)

push_bytes-ok :
    (n : ℕ) (buf rest : List ℕ)
    → n ≤ length rest
    → (r : List ℕ × List ℕ) × (push_bytes n buf rest ≡ ok r)
      × (r.0 ++ r.1 ≡ buf ++ rest)
      × (length r.0 ≡ length buf + n)
unfolding push_bytes
push_bytes-ok zero buf rest h = ((buf, rest), refl, refl, omega arith)
push_bytes-ok (suc n) buf [] h = absurd (omega arith)
push_bytes-ok (suc n) buf (b ∷ rest) h =
    let r = push_bytes-ok n (buf ++ b ∷ []) rest (omega arith) in
    (r.0, r.1, r.2 ∙ append_assoc buf (b ∷ []) rest, omega (arith, r.3, length-append buf (b ∷ [])))

fill_to-ok :
    (total : ℕ) (buf rest : List ℕ)
    → total ≤ length buf + length rest
    → (r : List ℕ × List ℕ) × (fill_to total buf rest ≡ ok r)
      × (r.0 ++ r.1 ≡ buf ++ rest)
      × (total ≤ length r.0)
unfolding fill_to read_exact
fill_to-ok total buf rest h =
    let n = total - length buf in
    elim (Bool-cases (ltb (length buf) total)) [
      | inr e ↦ ((buf, rest), rw e refl, refl, ltb→le (length buf) total e)
      | inl e ↦ (
        (buf ++ take n rest, drop n rest),
        rw (e, le→leb n (length rest) (omega arith)) refl,
        append_assoc buf (take n rest) (drop n rest) ∙ ap (λ t. buf ++ t) (take-append-drop n rest),
        omega (arith, length-append buf (take n rest), length-take n rest, ltb→lt _ _ e),
      )
    ]

read_v2-steps :
    (mode : ProxyProtocolMode) (trusted : Bool) (meta : ConnectionMeta)
    (chunk rest buf₁ rest₁ buf₂ rest₂ : List ℕ) (vc ft n : ℕ)
    → push_bytes (16 - length chunk) chunk rest ≡ ok (buf₁, rest₁)
    → index buf₁ 12 ≡ ok vc
    → index buf₁ 13 ≡ ok ft
    → port_from buf₁ 14 ≡ ok n
    → (vc / 2 ^ 4 == 2) ≡ true
    → fill_to (16 + n) buf₁ rest₁ ≡ ok (buf₂, rest₂)
    → read_v2 mode trusted meta chunk rest
      ≡ v2_command mode trusted meta buf₂ vc ft n
          (new_stream rest₂ (left_over (drop (16 + n) buf₂)))
unfolding read_v2
read_v2-steps mode trusted meta chunk rest buf₁ rest₁ buf₂ rest₂ vc ft n e₁ e₂ e₃ e₄ e₅ e₆ =
    rw (e₁, e₂, e₃, e₄, e₅, e₆) refl

module _ (vc ft : ℕ) (fields payload : List ℕ) where
  abbrev pub header : List ℕ
  header = v2_signature ++ (vc ∷ ft ∷ (to_be_u16 (length fields) ++ fields))

  -- The header is read whole, and what is behind it is unread.
  pub read_v2-header :
      (mode : ProxyProtocolMode) (trusted : Bool) (meta : ConnectionMeta) (chunk rest : List ℕ)
      → (vc / 2 ^ 4 == 2) ≡ true
      → length fields < 2 ^ 16
      → chunk ++ rest ≡ header ++ payload
      → (more : List ℕ) × (s : PrefixedStream) × (unread s ≡ payload)
        × (read_v2 mode trusted meta chunk rest
            ≡ v2_command mode trusted meta (header ++ more) vc ft (length fields) s)
  read_v2-header mode trusted meta chunk rest version fits e =
      let n : ℕ = length fields in
      let size : length chunk + length rest ≡ 16 + n + length payload =
        omega (arith, ap length e, length-append chunk rest, length-append fields payload) in
      let r = push_bytes-ok (16 - length chunk) chunk rest (omega arith) in
      let buf₁ : List ℕ = r.0.0 in
      let rest₁ : List ℕ = r.0.1 in
      let start : List ℕ = v2_signature ++ (vc ∷ ft ∷ to_be_u16 n) in
      let p₁ = prefix_of start (fields ++ payload) buf₁ rest₁ (r.2 ∙ e) (omega (arith, r.3)) in
      let q =
        fill_to-ok (16 + n) buf₁ rest₁
          (omega (arith, ap length (r.2), length-append buf₁ rest₁, length-append chunk rest)) in
      let p₂ = prefix_of header payload (q.0.0) (q.0.1) (q.2 ∙ r.2 ∙ e) (omega (arith, q.3)) in
      let more = p₂.0 in
      let h₁₂ : At buf₁ 12 (vc ∷ ft ∷ (to_be_u16 n ++ p₁.0)) =
        subst (λ b. At b 12 (vc ∷ ft ∷ (to_be_u16 n ++ p₁.0))) (sym (p₁.1)) (omega arith, refl) in
      let h₁₃ = At-append buf₁ 12 (vc ∷ []) (ft ∷ (to_be_u16 n ++ p₁.0)) 13 h₁₂ refl in
      let h₁₄ = At-append buf₁ 12 (vc ∷ ft ∷ []) (to_be_u16 n ++ p₁.0) 14 h₁₂ refl in
      let header_length : 16 + n ≡ length header = omega arith in
      let cut : drop (16 + n) (header ++ more) ≡ more =
        ap (λ (k : ℕ). drop k (header ++ more)) header_length ∙ drop-length header more in
      let step =
        read_v2-steps mode trusted meta chunk rest buf₁ rest₁ (q.0.0) (q.0.1) vc ft n (r.1)
          (At-index buf₁ 12 vc _ h₁₂) (At-index buf₁ 13 ft _ h₁₃)
          (port_from-At buf₁ 14 n _ fits h₁₄) version (q.1) in
      let command : List ℕ → List ℕ → Opened =
        λ b m. v2_command mode trusted meta b vc ft n (new_stream (q.0.1) (left_over m)) in
      (
        more,
        new_stream (q.0.1) (left_over more),
        unread-left_over (q.0.1) more ∙ p₂.2,
        step ∙ ap (λ b. command b (drop (16 + n) b)) (p₂.1) ∙ ap (command (header ++ more)) cut,
      )
