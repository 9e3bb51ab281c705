-- ===== src/Geo/Ranges.antt =====
-- src/geo/dat.rs: `CountryIpList`. `sort_unstable_by_key` is an insertion sort, and `binary_search_by`
-- the standard library's loop, with what is left from `base` on as the list.
pub mod Search
pub mod Merge
use elise_backend.Prelude.{
  ℕ, zero, suc, ◌+◌, ◌-◌, ◌/◌, ◌^◌, min, max, Bool, true, false, ◌&&◌, Option, none, some, List, [],
  ◌∷◌, ltb, leb, ◌==◌, if◌then◌else◌, length, drop, get_elem?,
}
use elise_backend.Prelude.Net.{IpAddr, v4, v6}

abbrev pub Range : Type 0
Range = ℕ × ℕ

pub record CountryIpList : Type 0 where
  pub ipv4_ranges : List Range
  pub ipv6_ranges : List Range

-- The closure is `Equal`.
abbrev pub is_inside : ℕ → Range → Bool
is_inside val r = leb r.0 val && leb val r.1

abbrev pub is_equal : ℕ → Option Range → Bool
is_equal val none = false
is_equal val (some r) = is_inside val r

-- The closure is `Greater`.
abbrev pub is_greater : ℕ → Option Range → Bool
is_greater val none = true
is_greater val (some r) = ltb val r.0

-- `size` ranges are left; each round at least takes one of them away.
unfoldable pub search_from : ℕ → ℕ → ℕ → List Range → Bool
search_from zero size val ranges = is_equal val (get_elem? ranges 0)
search_from (suc fuel) size val ranges =
    let half = size / 2 in
    let left = search_from fuel (size - half) val ranges in
    let right = search_from fuel (size - half) val (drop half ranges) in
    if leb size 1
    then is_equal val (get_elem? ranges 0)
    else if is_greater val (get_elem? ranges half)
    then left
    else right

unfoldable pub binary_search : ℕ → List Range → Bool
unfolding search_from
binary_search val ranges =
    if length ranges == 0 then false else search_from (length ranges) (length ranges) val ranges

unfoldable pub contains : IpAddr → CountryIpList → Bool
unfolding binary_search
contains (v4 val) l = binary_search val l.ipv4_ranges
contains (v6 val) l = binary_search val l.ipv6_ranges

unfoldable pub insert_by_start : Range → List Range → List Range
insert_by_start r [] = r ∷ []
insert_by_start r (s ∷ ranges) =
    let rest = insert_by_start r ranges in if leb r.0 s.0 then r ∷ s ∷ ranges else s ∷ rest

unfoldable pub sort_by_start : List Range → List Range
unfolding insert_by_start
sort_by_start [] = []
sort_by_start (r ∷ ranges) = insert_by_start r (sort_by_start ranges)

-- `saturating_add(1)` below `top`, the highest address.
abbrev pub saturating_suc : ℕ → ℕ → ℕ
saturating_suc top n = min (n + 1) top

-- The loop with `cur`.
unfoldable pub merge_from : ℕ → Range → List Range → List Range
merge_from top cur [] = cur ∷ []
merge_from top cur (next ∷ ranges) =
    let joined = merge_from top (cur.0, max cur.1 next.1) ranges in
    let apart = merge_from top next ranges in
    if leb next.0 (saturating_suc top cur.1) then joined else cur ∷ apart

abbrev pub merge_sorted : ℕ → List Range → List Range
merge_sorted top [] = []
merge_sorted top (cur ∷ ranges) = merge_from top cur ranges

unfoldable pub merge_and_sort : CountryIpList → CountryIpList
unfolding sort_by_start merge_from
merge_and_sort l = record {
  ipv4_ranges = merge_sorted (2 ^ 32 - 1) (sort_by_start l.ipv4_ranges);
  ipv6_ranges = merge_sorted (2 ^ 128 - 1) (sort_by_start l.ipv6_ranges);
}
