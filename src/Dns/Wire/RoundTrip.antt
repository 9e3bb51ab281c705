-- ===== src/Dns/Wire/RoundTrip.antt =====
-- The reply to a query that dns/wire.rs built, as dns/wire.rs reads it.
use elise_backend.Prelude.{
  ℕ, suc, ◌+◌, ◌≤◌, ◌≡◌, refl, sym, ◌∙◌, List, [], ◌∷◌, ◌++◌, arith, bit_and, Io, ok, err, inl, inr,
  take, drop, length, length-append, invalid_input, le→ltb,
}
use mathlib.Core.Path.{subst}
use mathlib.Core.List.{append_assoc}
use elise_backend.Prelude.Position.{At, At-append}
use elise_backend.Prelude.Bytes.{to_be_u16}
use elise_backend.Prelude.Net.{IpAddr}
use elise_backend.Dns.Wire.{
  skip_name, build_query, clean_domain, split, be_u16_at, skip_questions, parse_sections,
  parse_response, class_in,
}
use elise_backend.Dns.Wire.Layout.{
  At-be_u16, positive, skip_labels-At, root, end_bytes, labels_bytes, AreLabels,
}
use elise_backend.Dns.Wire.Answers.{
  Answer, answers_bytes, addresses, AreAnswers, IsWord, read_answers-At,
}
use elise_backend.Dns.Wire.Query.{query_bytes, build_query-cases}

-- A server's reply: the query's id and question, its own flags, the answers, and further sections.
abbrev pub respond : ℕ → List ℕ → List Answer → List ℕ → List ℕ
respond flags query answers rest =
    take 2 query
    ++ (to_be_u16 flags
        ++ (take 2 (drop 4 query)
            ++ (to_be_u16 (length answers)
                ++ ((0 ∷ 0 ∷ 0 ∷ 0 ∷ []) ++ (drop 12 query ++ answers_bytes answers rest)))))

answered :
    (buf labels_tail : List ℕ) (labels : List (List ℕ)) (answers : List Answer) (rest : List ℕ)
    → length labels_tail ≡ 4
    → AreLabels labels
    → length labels ≤ 128
    → AreAnswers answers
    → be_u16_at buf 4 ≡ ok 1
    → be_u16_at buf 6 ≡ ok (length answers)
    → At buf 12
        (labels_bytes labels (end_bytes root) ++ (labels_tail ++ answers_bytes answers rest))
    → parse_sections buf ≡ ok (addresses answers)
unfolding parse_sections skip_questions
answered buf tail labels [] rest ht v hl va h₄ h₆ h₁₂ = rw (h₄, h₆) refl
answered buf tail labels (a ∷ answers) rest ht v hl va h₄ h₆ h₁₂ =
    let name : List ℕ = labels_bytes labels (end_bytes root) in
    let ans : List ℕ = answers_bytes (a ∷ answers) rest in
    let pos : ℕ = 12 + length name in
    let h = At-append buf 12 name (tail ++ ans) pos h₁₂ refl in
    let h' = At-append buf pos tail ans (pos + 4) h (omega (arith, ht)) in
    let named : skip_name buf 12 ≡ ok pos =
      unfold skip_name in skip_labels-At labels 128 buf 12 root (tail ++ ans) hl v tt h₁₂ in
    rw
      (
        h₄,
        h₆,
        positive (suc (length answers)) (omega arith),
        named,
        le→ltb (length buf) (pos + 4) (omega (arith, h'.0)),
      )
      (read_answers-At (a ∷ answers) buf (pos + 4) [] rest va h')

without_error :
    (buf : List ℕ) (flags : ℕ) (r : Io (List IpAddr))
    → 12 ≤ length buf
    → be_u16_at buf 2 ≡ ok flags
    → bit_and flags 0x000f ≡ 0
    → parse_sections buf ≡ r
    → parse_response buf ≡ r
unfolding parse_response
without_error buf flags r h e z p = rw (le→ltb (length buf) 12 h, e, z, p) refl

parse_response-labels :
    (labels : List (List ℕ)) (qtype id flags : ℕ) (answers : List Answer) (rest : List ℕ)
    → AreLabels labels
    → length labels ≤ 128
    → IsWord flags
    → bit_and flags 0x000f ≡ 0
    → AreAnswers answers
    → IsWord (length answers)
    → parse_response (respond flags (query_bytes labels qtype id) answers rest)
      ≡ ok (addresses answers)
parse_response-labels labels qtype id flags answers rest v hl hf hz va hn =
    let buf : List ℕ = respond flags (query_bytes labels qtype id) answers rest in
    let name : List ℕ = labels_bytes labels (end_bytes root) in
    let tail : List ℕ = to_be_u16 qtype ++ to_be_u16 class_in in
    let ans : List ℕ = answers_bytes answers rest in
    let h₂ : At buf 2 (to_be_u16 flags ++ drop 4 buf) = (omega arith, refl) in
    let h₄ : At buf 4 (to_be_u16 1 ++ drop 6 buf) = (omega arith, refl) in
    let h₆ : At buf 6 (to_be_u16 (length answers) ++ drop 8 buf) = (omega arith, refl) in
    let h₁₂ : At buf 12 (name ++ (tail ++ ans)) = (
      omega (
        arith,
        length-append name tail,
        length-append (name ++ tail) ans,
        length-append name (tail ++ ans),
      ),
      append_assoc name tail ans,
    ) in
    without_error buf flags (ok (addresses answers)) (omega arith) (At-be_u16 buf 2 flags _ hf h₂)
      hz
      (answered buf tail labels answers rest refl v hl va (At-be_u16 buf 4 1 _ (omega arith) h₄)
        (At-be_u16 buf 6 (length answers) _ hn h₆) h₁₂)

-- The reply to a query yields the addresses of its A and AAAA records, in order, whatever else it
-- holds: the query was built from a domain of at most 128 labels, the reply reports no error, and
-- its records have names of at most 128 labels, possibly compressed.
pub parse_response-build_query :
    (domain query : List ℕ) (qtype id flags : ℕ) (answers : List Answer) (rest : List ℕ)
    → build_query domain qtype id ≡ ok query
    → length (split (clean_domain domain)) ≤ 128
    → IsWord flags
    → bit_and flags 0x000f ≡ 0
    → AreAnswers answers
    → IsWord (length answers)
    → parse_response (respond flags query answers rest) ≡ ok (addresses answers)
parse_response-build_query domain query qtype id flags answers rest e hl hf hz va hn =
    elim (build_query-cases domain qtype id) [
      | inl (v, p) ↦
          subst (λ q. parse_response (respond flags q answers rest) ≡ ok (addresses answers))
            (the_result (sym p ∙ e))
            (parse_response-labels (split (clean_domain domain)) qtype id flags answers rest v hl hf
              hz va hn)
      | inr (v, p) ↦ absurd (no_result (sym p ∙ e))
    ]
  where
    the_result : {a b : List ℕ} → ok a ≡ ok b → a ≡ b
    the_result h = cc

    no_result : {a : List ℕ} → Path (Io (List ℕ)) (err invalid_input) (ok a) → ⊥
    no_result h = cc
