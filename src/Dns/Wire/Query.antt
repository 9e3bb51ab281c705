-- ===== src/Dns/Wire/Query.antt =====
-- The query that dns/wire.rs builds.
use elise_backend.Prelude.{
  ℕ, suc, ◌%◌, ◌≤◌, ◌<◌, ◌≡◌, refl, sym, ap, ◌∙◌, true, false, ◌||◌, List, [], ◌∷◌, ◌++◌, arith,
  ltb, ◌==◌, if◌then◌else◌, Io, ok, err, ◌⊎◌, inl, inr, Bool-cases, ◌>>=◌, length, invalid_input,
}
use mathlib.Core.List.{append_assoc, append-nil}
use elise_backend.Prelude.Bytes.{to_be_u16}
use elise_backend.Dns.Wire.{push_labels, build_query, clean_domain, split, class_in}
use elise_backend.Dns.Wire.Layout.{positive, root, end_bytes, labels_bytes, AreLabels}

-- The bytes of a query: the header with the recursion bit and one question, then the question.
abbrev pub query_bytes : List (List ℕ) → ℕ → ℕ → List ℕ
query_bytes labels qtype id =
    to_be_u16 id
    ++ (1 ∷ 0 ∷ 0 ∷ 1 ∷ 0 ∷ 0 ∷ 0 ∷ 0 ∷ 0 ∷ 0 ∷ [])
    ++ (labels_bytes labels (end_bytes root) ++ (to_be_u16 qtype ++ to_be_u16 class_in))

labels-append :
    (labels : List (List ℕ)) (s t : List ℕ)
    → labels_bytes labels s ++ t ≡ labels_bytes labels (s ++ t)
labels-append [] s t = refl
labels-append (label ∷ labels) s t =
    ap (◌∷◌ (length label)) (
      append_assoc label (labels_bytes labels s) t
      ∙ ap (λ u. label ++ u) (labels-append labels s t))

-- Some label is empty or longer than 63 bytes.
abbrev pub HasBadLabel : List (List ℕ) → Type 0
HasBadLabel [] = ⊥
HasBadLabel (label ∷ labels) = ((length label ≡ 0) ⊎ (63 < length label)) ⊎ HasBadLabel labels

push_labels-cases :
    (buf : List ℕ) (labels : List (List ℕ))
    → (AreLabels labels × (push_labels buf labels ≡ ok (buf ++ labels_bytes labels [])))
      ⊎ (HasBadLabel labels × (push_labels buf labels ≡ err invalid_input))
unfolding push_labels
push_labels-cases buf [] = inl (tt, ap ok (sym (append-nil buf)))
push_labels-cases buf (label ∷ labels) =
    let n = length label in
    elim (Bool-cases (n == 0 || ltb 63 n)) [
      | inl e ↦ inr (inl (bad n e), rw e refl)
      | inr e ↦
          let good = fine n e in
          elim (push_labels-cases (buf ++ ((n % 256) ∷ label)) labels) [
            | inl (v, p) ↦ inl (
              (good.0, good.1, v),
              rw (e, p)
                  (ap ok (
                    append_assoc buf ((n % 256) ∷ label) (labels_bytes labels [])
                    ∙ ap (λ m. buf ++ m ∷ (label ++ labels_bytes labels [])) (small n (good.1)))),
            )
            | inr (v, p) ↦ inr (inr v, rw (e, p) refl)
          ]
    ]
  where
    bad : (n : ℕ) → (n == 0 || ltb 63 n) ≡ true → (n ≡ 0) ⊎ (63 < n)
    bad n e = ground arith

    fine : (n : ℕ) → (n == 0 || ltb 63 n) ≡ false → (1 ≤ n) × (n ≤ 63)
    fine n e = ground arith

    small : (n : ℕ) → n ≤ 63 → n % 256 ≡ n
    small n h = omega arith

-- A domain without a bad label (cleaned of outer blanks and dots at the end) gives the bytes of
-- its query; any other domain, the empty one too, is refused as invalid input.
pub build_query-cases :
    (domain : List ℕ) (qtype id : ℕ)
    → (AreLabels (split (clean_domain domain))
        × (build_query domain qtype id ≡ ok (query_bytes (split (clean_domain domain)) qtype id)))
      ⊎ (HasBadLabel (split (clean_domain domain))
          × (build_query domain qtype id ≡ err invalid_input))
unfolding build_query
build_query-cases domain qtype id = query_cases (clean_domain domain)
  where
    header : List ℕ
    header = to_be_u16 id ++ (1 ∷ 0 ∷ 0 ∷ 1 ∷ 0 ∷ 0 ∷ 0 ∷ 0 ∷ 0 ∷ 0 ∷ [])

    tail : List ℕ
    tail = to_be_u16 qtype ++ to_be_u16 class_in

    built : List ℕ → Io (List ℕ)
    built clean =
        if length clean == 0
        then err invalid_input
        else (push_labels header (split clean) >>= λ buf. ok (buf ++ (0x00 ∷ tail)))

    shape :
        (labels : List (List ℕ))
        → (header ++ labels_bytes labels []) ++ (0 ∷ tail) ≡ query_bytes labels qtype id
    shape labels =
        append_assoc header (labels_bytes labels []) (0 ∷ tail)
        ∙ ap (λ t. header ++ t)
            (labels-append labels [] (0 ∷ tail) ∙ sym (labels-append labels (0 ∷ []) tail))

    query_cases :
        (clean : List ℕ)
        → (AreLabels (split clean) × (built clean ≡ ok (query_bytes (split clean) qtype id)))
          ⊎ (HasBadLabel (split clean) × (built clean ≡ err invalid_input))
    query_cases [] = inr (unfold split in inl (inl refl), refl)
    query_cases (c ∷ clean) = elim (push_labels-cases header (split (c ∷ clean))) [
      | inl (v, p) ↦ inl (
        v,
        rw (positive (suc (length clean)) (omega arith), p) (ap ok (shape (split (c ∷ clean)))),
      )
      | inr (v, p) ↦ inr (v, rw (positive (suc (length clean)) (omega arith), p) refl)
    ]
