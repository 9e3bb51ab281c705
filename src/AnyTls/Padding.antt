-- ===== src/AnyTls/Padding.antt =====
-- src/protocol/anytls/padding.rs: the padding scheme and the frames written under it. The sinks
-- of `write_all` take every byte, and the random numbers are the argument `draw`.
pub mod Waste
use elise_backend.Prelude.{
  ℕ, zero, suc, ◌+◌, ◌-◌, ◌%◌, ◌^◌, ◌≤◌, min, Bool, true, false, ◌&&◌, ◌||◌, Option, none, some,
  List, [], ◌∷◌, ◌++◌, ltb, leb, ◌==◌, if◌then◌else◌, length, take, drop, starts_with,
}
use elise_backend.Prelude.Bytes.{to_be_u16, to_be_bytes}
use elise_backend.Prelude.Text.{codes, bytes_eq}
use elise_backend.Prelude.Map.{HashMap, get, insert, nat_eq}
use elise_backend.Prelude.Strings.{is_empty, lines, split_on, split_once, digits_below, parse_below}

abbrev pub cmd_waste : ℕ
cmd_waste = 0

abbrev pub frame_overhead : ℕ
frame_overhead = 7

abbrev pub max_frame_size : ℕ
max_frame_size = 0xffff

pub data PaddingRange : Type 0 where
  check_mark : PaddingRange
  range : ℕ → ℕ → PaddingRange
  exact : ℕ → PaddingRange

pub record CompiledPaddingScheme : Type 0 where
  pub raw : List ℕ
  pub md5_bytes : List ℕ
  pub md5_hex : List ℕ
  pub stop : ℕ
  pub records : HashMap ℕ (List PaddingRange)

infixl 5 ◌>>=◌
abbrev ◌>>=◌ {ℓ κ} : {A : Type ℓ} {B : Type κ} → Option A → (A → Option B) → Option B
none >>= f = none
some a >>= f = f a

-- `parse::<i64>()`: whether it has a minus, and its absolute value.
signed : Bool → Option ℕ → Option (Bool × ℕ)
signed minus none = none
signed minus (some n) = some (minus, n)

unfoldable pub parse_i64 : List ℕ → Option (Bool × ℕ)
unfolding signed
parse_i64 [] = none
parse_i64 (c ∷ []) = signed false (parse_below (2 ^ 63) (c ∷ []))
parse_i64 (c ∷ d ∷ s) =
    if c == b'-'
    then signed true (digits_below (2 ^ 63 + 1) 0 (d ∷ s))
    else signed false (parse_below (2 ^ 63) (c ∷ d ∷ s))

-- `s < 0`, and else `s as u32`.
stop_of : Bool × ℕ → Option ℕ
stop_of (minus, n) = if minus && ltb 0 n then none else some (n % 2 ^ 32)

-- The range between two sizes, in either order; nothing if one is zero.
unfoldable pub range_of : ℕ → ℕ → Option PaddingRange
range_of a b =
    let min_val = min a b in
    let max_val = a + b - min_val in
    if min_val == 0 || max_val == 0
    then none
    else if min_val == max_val
    then some (exact min_val)
    else some (range min_val max_val)

module _ (trim : List ℕ → List ℕ) where
  -- The loop over the items of a line; the outer `none` is an error.
  unfoldable pub parse_items : List PaddingRange → List (List ℕ) → Option (List PaddingRange)
  unfolding range_of
  parse_items ranges [] = some ranges
  parse_items ranges (item ∷ items) =
      let marked = parse_items (ranges ++ check_mark ∷ []) items in
      let parsed : Option (List PaddingRange) = do
        (min_s, max_s) ← split_once b'-' (trim item)
        a ← parse_below (2 ^ 16) (trim min_s)
        b ← parse_below (2 ^ 16) (trim max_s)
        parse_items (elim (range_of a b) [ none ↦ ranges | some r ↦ ranges ++ r ∷ [] ]) items
      in if bytes_eq (trim item) (codes "c") then marked else parsed

  -- The loop over the lines.
  unfoldable pub parse_lines :
      Option ℕ
      → HashMap ℕ (List PaddingRange)
      → List (List ℕ)
      → Option (Option ℕ × HashMap ℕ (List PaddingRange))
  unfolding stop_of parse_items
  parse_lines stop records [] = some (stop, records)
  parse_lines stop records (l ∷ ls) =
      let line = trim l in
      let skip = parse_lines stop records ls in
      let entry : Option (Option ℕ × HashMap ℕ (List PaddingRange)) = do
        (k, v) ← split_once b'=' line
        let key = trim k
        let value = trim v
        let stopped : Option (Option ℕ × HashMap ℕ (List PaddingRange)) = do
          s ← parse_i64 value
          n ← stop_of s
          parse_lines (some n) records ls
        let sized : Option (Option ℕ × HashMap ℕ (List PaddingRange)) = do
          packet_id ← parse_below (2 ^ 32) key
          ranges ← parse_items [] (split_on b',' value)
          parse_lines stop (if is_empty ranges then records else insert packet_id ranges records) ls
        if bytes_eq key (codes "stop") then stopped else sized
      in if is_empty line || starts_with line (codes "#") then skip else entry

  -- `md5` is the digest of another library, `hex` its encoding as text.
  unfoldable pub parse : (md5 hex : List ℕ → List ℕ) → List ℕ → Option CompiledPaddingScheme
  unfolding parse_lines
  parse md5 hex raw = do
    (stop, records) ← parse_lines none [] (lines raw)
    n ← stop
    some (record {
      raw = raw;
      md5_bytes = md5 raw;
      md5_hex = hex (md5 raw);
      stop = n;
      records = records;
    })

-- A size, or none for a check mark; `draw` is the random number of the range.
unfoldable pub size_of : ℕ → PaddingRange → Option ℕ
size_of draw check_mark = none
size_of draw (exact val) = some val
size_of draw (range min_val max_val) =
    let diff = max_val - min_val in some (min_val + (if ltb 0 diff then draw % diff else 0))

sizes_of : (ℕ → ℕ) → List PaddingRange → List (Option ℕ)
sizes_of draw [] = []
sizes_of draw (r ∷ rs) = size_of (draw (length rs)) r ∷ sizes_of draw rs

unfoldable pub generate_record_payload_sizes :
    (ℕ → ℕ) → CompiledPaddingScheme → ℕ → Option (List (Option ℕ))
unfolding sizes_of size_of
generate_record_payload_sizes draw scheme packet = elim (get packet scheme.records) [
  | none ↦ none
  | some ranges ↦ if is_empty ranges then none else some (sizes_of draw ranges)
]

-- `vec.resize(len + n, 0)`: the bytes that are added.
abbrev pub zeros : ℕ → List ℕ
zeros zero = []
zeros (suc n) = 0 ∷ zeros n

abbrev pub waste_frame : ℕ → List ℕ
waste_frame waste_len = cmd_waste ∷ (to_be_bytes 4 0 ++ (to_be_u16 waste_len ++ zeros waste_len))

-- The padding behind the end of the data.
unfoldable pub pad_after : ℕ → ℕ → List ℕ
pad_after zero remaining_pad = []
pad_after (suc fuel) remaining_pad =
    let waste_len = min (remaining_pad - frame_overhead) max_frame_size in
    let more = pad_after fuel (remaining_pad - (frame_overhead + waste_len)) in
    if ltb frame_overhead remaining_pad then waste_frame waste_len ++ more else []

-- A record of padding alone.
unfoldable pub pad_full : ℕ → ℕ → List ℕ
pad_full zero remaining_pad = []
pad_full (suc fuel) remaining_pad =
    let waste_len = min remaining_pad max_frame_size in
    let more = pad_full fuel (remaining_pad - waste_len) in
    if ltb 0 remaining_pad then waste_frame waste_len ++ more else []

-- The last record with data, and those behind it. A size is fuel enough: each round takes some.
unfoldable pub pad_record : ℕ → List ℕ → List ℕ
unfolding pad_after pad_full
pad_record target_size remaining_data =
    if is_empty remaining_data
    then pad_full target_size target_size
    else remaining_data ++ pad_after target_size (target_size - length remaining_data)

-- The loop over the sizes: the bytes that are written.
unfoldable pub write_sizes : List (Option ℕ) → List ℕ → List ℕ
unfolding pad_record
write_sizes [] remaining_data = remaining_data
write_sizes (none ∷ sizes) remaining_data =
    let more = write_sizes sizes remaining_data in if is_empty remaining_data then [] else more
write_sizes (some target_size ∷ sizes) remaining_data =
    let cut =
      take target_size remaining_data ++ write_sizes sizes (drop target_size remaining_data) in
    let last = pad_record target_size remaining_data ++ write_sizes sizes [] in
    if ltb target_size (length remaining_data) then cut else last

-- The counter and the flag of the writer, and the bytes. The counter is a `u32`.
unfoldable pub write_padded_frame :
    (ℕ → ℕ) → CompiledPaddingScheme → List ℕ → ℕ → Bool → ℕ × Bool × List ℕ
unfolding generate_record_payload_sizes write_sizes
write_padded_frame draw scheme frame packet_count send_padding =
    let count = (packet_count + 1) % 2 ^ 32 in
    if leb scheme.stop count then (count, false, frame) else (
      count,
      send_padding,
      elim (generate_record_payload_sizes draw scheme count) [
        | none ↦ frame
        | some sizes ↦ write_sizes sizes frame
      ],
    )
