-- ===== src/Dns/Wire/Layout.antt =====
-- Where the parts of a DNS message stand in a buffer, and the names (dns/wire.rs, `skip_name`).
use elise_backend.Prelude.{
  ℕ, zero, suc, ◌+◌, ◌/◌, ◌%◌, ◌^◌, ◌≤◌, ◌<◌, ◌≡◌, refl, ap, false, List, [], ◌∷◌, ◌++◌, arith,
  bit_and, ◌==◌, Io, ok, length, length-append, lt→ltb, le→ltb,
}
use mathlib.Core.Path.{subst}
use mathlib.Core.List.{append_assoc}
use elise_backend.Prelude.Position.{At, At-append, index-drop}
use elise_backend.Prelude.Bytes.{to_be_u16, table_below, agree_below}
use elise_backend.Dns.Wire.{at_label, skip_label, skip_labels, be_u16_at}

pub At-be_u16 :
    (buf : List ℕ) (pos n : ℕ) (s : List ℕ)
    → n < 2 ^ 16
    → At buf pos (to_be_u16 n ++ s)
    → be_u16_at buf pos ≡ ok n
unfolding be_u16_at
At-be_u16 buf pos n s hn h =
    let r = At-append buf pos (n / 256 % 256 ∷ []) (n % 256 ∷ s) (pos + 1) h refl in
    rw (index-drop buf pos _ _ (h.1), index-drop buf (pos + 1) _ _ (r.1)) (ap ok (omega arith))

-- The end of a name: the root, or a pointer to the rest.
pub data NameEnd : Type 0 where
  root : NameEnd
  pointer : ℕ → ℕ → NameEnd

abbrev pub end_bytes : NameEnd → List ℕ
end_bytes root = 0 ∷ []
end_bytes (pointer hi lo) = hi ∷ lo ∷ []

abbrev pub IsEnd : NameEnd → Type 0
IsEnd root = Unit {0}
IsEnd (pointer hi lo) = bit_and hi 0xc0 ≡ 0xc0

abbrev pub labels_bytes : List (List ℕ) → List ℕ → List ℕ
labels_bytes [] s = s
labels_bytes (label ∷ labels) s = length label ∷ (label ++ labels_bytes labels s)

abbrev pub AreLabels : List (List ℕ) → Type 0
AreLabels [] = Unit {0}
AreLabels (label ∷ labels) = (1 ≤ length label) × (length label ≤ 63) × AreLabels labels

short_label : (n : ℕ) → n < 64 → bit_and n 0xc0 ≡ 0
unfolding agree_below
short_label = table_below _ _ 64 refl

skip_label-At :
    (buf : List ℕ) (pos : ℕ) (more : ℕ → Io ℕ) (x : ℕ) (s : List ℕ)
    → At buf pos (x ∷ s)
    → skip_label buf pos more ≡ at_label buf pos more x
unfolding skip_label
skip_label-At buf pos more x s h =
    rw (lt→ltb pos (length buf) (omega (arith, h.0)), index-drop buf pos x s (h.1)) refl

pub positive : (n : ℕ) → 1 ≤ n → (n == 0) ≡ false
positive n h = ground arith

label-At :
    (buf : List ℕ) (pos : ℕ) (more : ℕ → Io ℕ) (len : ℕ) (s : List ℕ)
    → 1 ≤ len
    → len ≤ 63
    → At buf pos (len ∷ s)
    → skip_label buf pos more ≡ more len
unfolding at_label
label-At buf pos more len s h k a =
    rw (skip_label-At buf pos more len s a, positive len h, short_label len (omega arith)) refl

end-At :
    (buf : List ℕ) (pos : ℕ) (more : ℕ → Io ℕ) (end : NameEnd) (s : List ℕ)
    → IsEnd end
    → At buf pos (end_bytes end ++ s)
    → skip_label buf pos more ≡ ok (pos + length (end_bytes end))
unfolding at_label
end-At buf pos more root s he h = rw (skip_label-At buf pos more 0 s h) refl
end-At buf pos more (pointer zero lo) s he h = absurd (ground (arith, he))
end-At buf pos more (pointer (suc hi) lo) s he h =
    rw
      (
        skip_label-At buf pos more (suc hi) (lo ∷ s) h,
        positive (suc hi) (omega arith),
        he,
        le→ltb (length buf) (pos + 2) (omega (arith, h.0)),
      )
      refl

-- Past a name whose labels are not more than the loop allows.
pub skip_labels-At :
    (labels : List (List ℕ)) (left : ℕ) (buf : List ℕ) (pos : ℕ) (end : NameEnd) (s : List ℕ)
    → length labels ≤ left
    → AreLabels labels
    → IsEnd end
    → At buf pos (labels_bytes labels (end_bytes end) ++ s)
    → skip_labels left buf pos ≡ ok (pos + length (labels_bytes labels (end_bytes end)))
unfolding skip_labels
skip_labels-At [] zero buf pos end s hl hs he h = end-At buf pos _ end s he h
skip_labels-At [] (suc left) buf pos end s hl hs he h = end-At buf pos _ end s he h
skip_labels-At (label ∷ labels) zero buf pos end s hl hs he h = absurd (omega arith)
skip_labels-At (label ∷ labels) (suc left) buf pos end s hl hs he h =
    let L : List ℕ = labels_bytes labels (end_bytes end) in
    let h' = subst (λ t. At buf pos (length label ∷ t)) (append_assoc label L s) h in
    let pos' : ℕ = pos + (1 + length label) in
    let a = At-append buf pos (length label ∷ label) (L ++ s) pos' h' (omega arith) in
    rw
      (
        label-At buf pos (λ len. skip_labels left buf (pos + (1 + len))) (length label)
            ((label ++ L) ++ s) (hs.0) (hs.1) h,
        skip_labels-At labels left buf pos' end s (omega (arith, hl)) hs.2 he a,
      )
      (ap ok (omega (arith, length-append label L)))
