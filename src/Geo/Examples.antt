-- ===== src/Geo/Examples.antt =====
-- src/geo/dat.rs on concrete ranges, and the theorem about it there.
use elise_backend.Prelude.{◌≡◌, refl, [], ◌∷◌, arith}
use elise_backend.Prelude.Net.{v4}
use elise_backend.Prelude.{◌-◌, ◌^◌, panic}
use elise_backend.Geo.ProtoReader.{ProtoReader, read_bytes}
use elise_backend.Geo.ProtoReader.Varint.{encoded, read_bytes-wrapped}
use elise_backend.Geo.Ranges.{
  CountryIpList, contains, merge_and_sort, sort_by_start, insert_by_start, merge_from,
}
use elise_backend.Geo.Ranges.Merge.{is_covered, contains-merge_and_sort}

-- Out of order, overlapping, and touching.
abbrev ranges : CountryIpList
ranges = record { ipv4_ranges = (90, 99) ∷ (20, 29) ∷ (10, 19) ∷ (25, 40) ∷ []; ipv6_ranges = [] }

merged_ranges : (merge_and_sort ranges).ipv4_ranges ≡ (10, 40) ∷ (90, 99) ∷ []
unfolding merge_and_sort sort_by_start insert_by_start merge_from
merged_ranges = refl

contains-merge_and_sort_example :
    contains (v4 33) (merge_and_sort ranges) ≡ is_covered (v4 33) ranges
contains-merge_and_sort_example = contains-merge_and_sort (v4 33) ranges (
  (
    (omega arith, omega arith),
    ((omega arith, omega arith), ((omega arith, omega arith), ((omega arith, omega arith), tt))),
  ),
  tt,
)

-- A field of three bytes.
abbrev field : ProtoReader
field = record { buf = 3 ∷ 65 ∷ 66 ∷ 67 ∷ 8 ∷ []; pos = 0 }

abbrev long_field : ProtoReader
long_field = record { buf = encoded (2 ^ 64 - 1); pos = 0 }

read_bytes-wrapped_example : read_bytes long_field ≡ panic
read_bytes-wrapped_example =
    read_bytes-wrapped long_field (2 ^ 64 - 1) [] (omega arith) (omega arith) (omega arith, refl)
      (omega arith)
