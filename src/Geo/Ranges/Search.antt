-- ===== src/Geo/Ranges/Search.antt =====
-- Binary search over increasing ranges finds exactly the values that a range covers.
use elise_backend.Prelude.{
  ℕ, zero, suc, ◌+◌, ◌-◌, ◌/◌, ◌≤◌, ◌<◌, ◌≡◌, refl, sym, ap, ◌∙◌, Bool, true, false, ◌||◌, some,
  List, [], ◌∷◌, ◌++◌, arith, ltb, leb, ◌==◌, length, take, drop, get_elem?, Bool-cases, inl, inr,
  ltb→lt, ltb→le, leb→le, leb→lt, length-drop,
}
use elise_backend.Geo.Ranges.{Range, is_inside, is_equal, search_from, binary_search}

-- Some range covers the value.
abbrev pub covers : ℕ → List Range → Bool
covers val [] = false
covers val (r ∷ ranges) = is_inside val r || covers val ranges

-- From `b` on, each range is behind the one before.
abbrev pub Increasing : ℕ → List Range → Type 0
Increasing b [] = Unit {0}
Increasing b (r ∷ ranges) = (b ≤ r.0) × (r.0 ≤ r.1) × Increasing (suc r.1) ranges

none_above :
    (val b : ℕ) (ranges : List Range) → Increasing b ranges → val < b → covers val ranges ≡ false
none_above val b [] h k = refl
none_above val b ((s, e) ∷ ranges) h k =
    ground (arith, h.0, h.1, none_above val (suc e) ranges h.2 (omega (arith, h.0, h.1)))

take-Increasing :
    (k b : ℕ) (ranges : List Range) → Increasing b ranges → Increasing b (take k ranges)
take-Increasing zero b ranges h = tt
take-Increasing (suc k) b [] h = tt
take-Increasing (suc k) b (r ∷ ranges) h = (h.0, h.1, take-Increasing k (suc r.1) ranges h.2)

take_split : (n k m : ℕ) (xs : List Range) → n ≡ k + m → take n xs ≡ take k xs ++ take m (drop k xs)
take_split zero zero zero xs e = refl
take_split zero zero (suc m) xs e = absurd (omega arith)
take_split zero (suc k) m xs e = absurd (omega arith)
take_split (suc n) zero zero xs e = absurd (omega arith)
take_split (suc n) zero (suc m) xs e = ap (λ j. take j xs) (whole (suc n) (suc m) e)
  where
    whole : (n m : ℕ) → n ≡ 0 + m → n ≡ m
    whole n m e = omega (arith, e)
take_split (suc n) (suc k) zero [] e = refl
take_split (suc n) (suc k) (suc m) [] e = refl
take_split (suc n) (suc k) m (x ∷ xs) e = ap (λ l. x ∷ l) (take_split n k m xs (omega (arith, e)))

-- The range in the middle.
module _ (val : ℕ) where
  middle :
      (k b : ℕ) (ranges : List Range)
      → Increasing b ranges
      → k < length ranges
      → (r : Range) × (get_elem? ranges k ≡ some r)
        × (b ≤ r.0)
        × Increasing r.0 (drop k ranges)
        × (r.0 ≤ val → covers val (take k ranges) ≡ false)
  middle k b [] h l = absurd (omega arith)
  middle zero b ((s, e) ∷ ranges) h l = ((s, e), refl, h.0, (omega arith, h.1, h.2), λ _. refl)
  middle (suc k) b ((s, e) ∷ ranges) h l =
      let m = middle k (suc e) ranges h.2 (omega arith) in
      (m.0, m.1, omega (arith, m.2, h.0, h.1), m.3, λ q. ground (arith, m.2, q, m.4 q))

  covers-append : (xs ys : List Range) → covers val (xs ++ ys) ≡ (covers val xs || covers val ys)
  covers-append [] ys = refl
  covers-append (x ∷ xs) ys = ground (arith, covers-append xs ys)

  only :
      (size : ℕ) (ranges : List Range)
      → size ≡ 1
      → 1 ≤ length ranges
      → is_equal val (get_elem? ranges 0) ≡ covers val (take size ranges)
  only size [] e h = absurd (omega arith)
  only size (r ∷ ranges) e h = rw e (or_false (is_inside val r))
    where
      or_false : (b : Bool) → b ≡ (b || false)
      or_false true = refl
      or_false false = refl

  -- Behind a range that is too high, nothing covers the value.
  cut :
      (half n start : ℕ) (ranges : List Range)
      → Increasing start (drop half ranges)
      → val < start
      → half ≤ n
      → covers val (take n ranges) ≡ covers val (take half ranges)
  cut half n start ranges v h k =
      let rest = take (n - half) (drop half ranges) in
      ap (covers val) (take_split n half (n - half) ranges (omega arith))
      ∙ covers-append (take half ranges) rest
      ∙ ground (
        arith,
        none_above val start rest (take-Increasing (n - half) start (drop half ranges) v) h,
      )

  -- In front of a range that is not too high, nothing but it covers the value.
  beyond :
      (half n : ℕ) (ranges : List Range)
      → half ≤ n
      → covers val (take half ranges) ≡ false
      → covers val (take n ranges) ≡ covers val (take (n - half) (drop half ranges))
  beyond half n ranges k h =
      ap (covers val) (take_split n half (n - half) ranges (omega arith))
      ∙ covers-append (take half ranges) (take (n - half) (drop half ranges))
      ∙ ground (arith, h)

  search-covers :
      (fuel size b : ℕ) (ranges : List Range)
      → 1 ≤ size
      → size ≤ fuel
      → size ≤ length ranges
      → Increasing b ranges
      → search_from fuel size val ranges ≡ covers val (take size ranges)
  unfolding search_from
  search-covers zero size b ranges h f l v = absurd (omega arith)
  search-covers (suc fuel) size b ranges h f l v =
      let half = size / 2 in
      elim (Bool-cases (leb size 1)) [
        | inl e ↦ rw e (only size ranges (omega (arith, leb→le size 1 e)) (omega arith))
        | inr e ↦
            let big = leb→lt size 1 e in
            let m = middle half b ranges v (omega arith) in
            elim (Bool-cases (ltb val (m.0.0))) [
              | inl g ↦
                  rw (e, m.1, g)
                    (search-covers fuel (size - half) b ranges (omega arith) (omega arith)
                        (omega arith) v
                      ∙ cut half (size - half) (m.0.0) ranges (m.3) (ltb→lt val (m.0.0) g)
                          (omega arith)
                      ∙ sym
                          (cut half size (m.0.0) ranges (m.3) (ltb→lt val (m.0.0) g) (omega arith)))
              | inr g ↦
                  rw (e, m.1, g)
                    (search-covers fuel (size - half) (m.0.0) (drop half ranges) (omega arith)
                        (omega arith) (omega (arith, length-drop half ranges)) (m.3)
                      ∙ sym (beyond half size ranges (omega arith) (m.4 (ltb→le val (m.0.0) g))))
            ]
      ]

take-all : (xs : List Range) → take (length xs) xs ≡ xs
take-all [] = refl
take-all (x ∷ xs) = ap (λ l. x ∷ l) (take-all xs)

pub binary_search-covers :
    (val : ℕ) (ranges : List Range)
    → Increasing 0 ranges
    → binary_search val ranges ≡ covers val ranges
unfolding binary_search
binary_search-covers val [] v = refl
binary_search-covers val (r ∷ ranges) v =
    let n = length (r ∷ ranges) in
    let some_left : (n == 0) ≡ false = ground arith in
    rw some_left (
      search-covers val n n 0 (r ∷ ranges) (omega arith) (omega arith) (omega arith) v
      ∙ ap (covers val) (take-all (r ∷ ranges)))
