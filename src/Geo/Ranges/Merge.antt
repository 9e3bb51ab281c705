-- ===== src/Geo/Ranges/Merge.antt =====
-- `merge_and_sort` leaves increasing ranges that cover the same addresses.
use elise_backend.Prelude.{
  ℕ, suc, ◌+◌, ◌-◌, ◌^◌, ◌≤◌, max, ◌≡◌, refl, ap, ◌∙◌, Bool, true, false, ◌||◌, List, [], ◌∷◌,
  arith, leb, Bool-cases, inl, inr, leb→le, leb→lt,
}
use elise_backend.Prelude.Bytes.{All}
use elise_backend.Prelude.Net.{IpAddr, v4, v6}
use elise_backend.Geo.Ranges.{
  Range, CountryIpList, is_inside, insert_by_start, sort_by_start, saturating_suc, merge_from,
  merge_sorted, merge_and_sort, contains,
}
use elise_backend.Geo.Ranges.Search.{covers, Increasing, binary_search-covers}

abbrev pub IsRange : ℕ → Range → Type 0
IsRange top r = (r.0 ≤ r.1) × (r.1 ≤ top)

abbrev Sorted : ℕ → List Range → Type 0
Sorted b [] = Unit {0}
Sorted b (r ∷ ranges) = (b ≤ r.0) × Sorted r.0 ranges

insert-Sorted :
    (b : ℕ) (r : Range) (ranges : List Range)
    → b ≤ r.0
    → Sorted b ranges
    → Sorted b (insert_by_start r ranges)
unfolding insert_by_start
insert-Sorted b r [] h v = (h, tt)
insert-Sorted b r (s ∷ ranges) h v = elim (Bool-cases (leb r.0 s.0)) [
  | inl e ↦ rw e (h, (leb→le r.0 s.0 e, v.1))
  | inr e ↦ rw e (v.0, insert-Sorted s.0 r ranges (omega (arith, leb→lt r.0 s.0 e)) v.1)
]

insert-covers :
    (val : ℕ) (r : Range) (ranges : List Range)
    → covers val (insert_by_start r ranges) ≡ (is_inside val r || covers val ranges)
unfolding insert_by_start
insert-covers val r [] = refl
insert-covers val r (s ∷ ranges) = elim (Bool-cases (leb r.0 s.0)) [
  | inl e ↦ rw e refl
  | inr e ↦
      rw (e, insert-covers val r ranges)
        (swap (is_inside val s) (is_inside val r) (covers val ranges))
]
  where
    swap : (a b c : Bool) → (a || (b || c)) ≡ (b || (a || c))
    swap true true c = refl
    swap true false c = refl
    swap false true c = refl
    swap false false c = refl

insert-All :
    (top : ℕ) (r : Range) (ranges : List Range)
    → IsRange top r
    → All (IsRange top) ranges
    → All (IsRange top) (insert_by_start r ranges)
unfolding insert_by_start
insert-All top r [] h v = (h, tt)
insert-All top r (s ∷ ranges) h v = elim (Bool-cases (leb r.0 s.0)) [
  | inl e ↦ rw e (h, v)
  | inr e ↦ rw e (v.0, insert-All top r ranges h v.1)
]

sort_lem :
    (top val : ℕ) (ranges : List Range)
    → All (IsRange top) ranges
    → Sorted 0 (sort_by_start ranges)
      × All (IsRange top) (sort_by_start ranges)
      × (covers val (sort_by_start ranges) ≡ covers val ranges)
unfolding sort_by_start
sort_lem top val [] h = (tt, tt, refl)
sort_lem top val (r ∷ ranges) h =
    let i = sort_lem top val ranges h.1 in
    (
      insert-Sorted 0 r (sort_by_start ranges) (omega arith) i.0,
      insert-All top r (sort_by_start ranges) h.0 i.1,
      insert-covers val r (sort_by_start ranges) ∙ ap (λ c. is_inside val r || c) i.2,
    )

Sorted-weaken : (b c : ℕ) (ranges : List Range) → b ≤ c → Sorted c ranges → Sorted b ranges
Sorted-weaken b c [] h v = tt
Sorted-weaken b c (r ∷ ranges) h v = (omega (arith, v.0), v.1)

Increasing-weaken :
    (b c : ℕ) (ranges : List Range) → b ≤ c → Increasing c ranges → Increasing b ranges
Increasing-weaken b c [] h v = tt
Increasing-weaken b c (r ∷ ranges) h v = (omega (arith, v.0), v.1, v.2)

-- Two ranges that touch cover what their union does.
union-is_inside :
    (val a b c d : ℕ)
    → a ≤ b
    → c ≤ d
    → a ≤ c
    → c ≤ b + 1
    → is_inside val (a, max b d) ≡ (is_inside val (a, b) || is_inside val (c, d))
union-is_inside val a b c d h k m n = ground arith

either : (a b u c : Bool) → u ≡ (a || b) → (u || c) ≡ (a || (b || c))
either true b u c h = rw h refl
either false b u c h = rw h refl

module _ (top val : ℕ) where
  merge_from-covers :
      (cur : Range) (ranges : List Range)
      → IsRange top cur
      → Sorted cur.0 ranges
      → All (IsRange top) ranges
      → Increasing cur.0 (merge_from top cur ranges)
        × (covers val (merge_from top cur ranges) ≡ (is_inside val cur || covers val ranges))
  unfolding merge_from
  merge_from-covers cur [] h v a = ((omega arith, h.0, tt), refl)
  merge_from-covers cur (next ∷ ranges) h v a =
      elim (Bool-cases (leb next.0 (saturating_suc top cur.1))) [
        | inl e ↦
            let touch = leb→le next.0 (saturating_suc top cur.1) e in
            let union : Range = (cur.0, max cur.1 next.1) in
            let i =
              merge_from-covers union ranges (omega (arith, h.0), omega (arith, h.1, a.0.1))
                (Sorted-weaken cur.0 next.0 ranges v.0 v.1) a.1 in
            rw e (
              i.0,
              i.1
                  ∙ either (is_inside val cur) (is_inside val next) (is_inside val union)
                      (covers val ranges)
                      (union-is_inside val cur.0 cur.1 next.0 next.1 h.0 (a.0.0) v.0 (omega arith)),
            )
        | inr e ↦
            let gap = leb→lt next.0 (saturating_suc top cur.1) e in
            let i = merge_from-covers next ranges a.0 v.1 a.1 in
            rw e (
              (
                omega arith,
                h.0,
                Increasing-weaken (suc cur.1) next.0 _ (omega (arith, gap, a.0.0, a.0.1)) i.0,
              ),
              ap (λ c. is_inside val cur || c) i.1,
            )
      ]

merged :
    (top val : ℕ) (ranges : List Range)
    → Sorted 0 ranges
    → All (IsRange top) ranges
    → Increasing 0 (merge_sorted top ranges)
      × (covers val (merge_sorted top ranges) ≡ covers val ranges)
merged top val [] s a = (tt, refl)
merged top val (cur ∷ ranges) s a =
    let m = merge_from-covers top val cur ranges a.0 s.1 a.1 in
    (Increasing-weaken 0 cur.0 (merge_from top cur ranges) (omega arith) m.0, m.1)

merge_sorted-covers :
    (top val : ℕ) (ranges : List Range)
    → All (IsRange top) ranges
    → Increasing 0 (merge_sorted top (sort_by_start ranges))
      × (covers val (merge_sorted top (sort_by_start ranges)) ≡ covers val ranges)
merge_sorted-covers top val ranges h =
    let s = sort_lem top val ranges h in
    let m = merged top val (sort_by_start ranges) s.0 s.1 in (m.0, m.1 ∙ s.2)

-- The ranges of the list are ranges of its family.
abbrev pub AreRanges : CountryIpList → Type 0
AreRanges l = All (IsRange (2 ^ 32 - 1)) l.ipv4_ranges × All (IsRange (2 ^ 128 - 1)) l.ipv6_ranges

-- Some range of the address's family covers it.
abbrev pub is_covered : IpAddr → CountryIpList → Bool
is_covered (v4 val) l = covers val l.ipv4_ranges
is_covered (v6 val) l = covers val l.ipv6_ranges

-- After `merge_and_sort`, the binary search of `contains` finds exactly the addresses that some of
-- the ranges covered before, in whatever order and however overlapping they came.
pub contains-merge_and_sort :
    (ip : IpAddr) (l : CountryIpList)
    → AreRanges l
    → contains ip (merge_and_sort l) ≡ is_covered ip l
unfolding contains merge_and_sort
contains-merge_and_sort (v4 val) l h =
    let m = merge_sorted-covers (2 ^ 32 - 1) val l.ipv4_ranges h.0 in
    binary_search-covers val _ m.0 ∙ m.1
contains-merge_and_sort (v6 val) l h =
    let m = merge_sorted-covers (2 ^ 128 - 1) val l.ipv6_ranges h.1 in
    binary_search-covers val _ m.0 ∙ m.1
