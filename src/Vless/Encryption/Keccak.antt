-- ===== src/Vless/Encryption/Keccak.antt =====
-- src/protocol/vless/encryption/mlkem768.rs: the permutation Keccak-f[1600] and the sponge on it. A
-- state is the list of its 25 words of 64 bits.
pub mod Absorb
mod Examples
use elise_backend.Prelude.{
  ℕ, zero, suc, ◌+◌, ◌-◌, ◌*◌, ◌/◌, ◌%◌, ◌^◌, min, Option, none, some, List, [], ◌∷◌, ◌++◌, bit_and,
  bit_xor, ◌==◌, if◌then◌else◌, get_elem?, length, take, drop,
}
use mathlib.Core.List.{foldl}
use elise_backend.Prelude.Strings.{is_empty}

abbrev pub round_constants : List ℕ
round_constants =
    0x0000000000000001 ∷ 0x0000000000008082 ∷ 0x800000000000808a ∷ 0x8000000080008000
    ∷ 0x000000000000808b ∷ 0x0000000080000001 ∷ 0x8000000080008081 ∷ 0x8000000000008009
    ∷ 0x000000000000008a ∷ 0x0000000000000088 ∷ 0x0000000080008009 ∷ 0x000000008000000a
    ∷ 0x000000008000808b ∷ 0x800000000000008b ∷ 0x8000000000008089 ∷ 0x8000000000008003
    ∷ 0x8000000000008002 ∷ 0x8000000000000080 ∷ 0x000000000000800a ∷ 0x800000008000000a
    ∷ 0x8000000080008081 ∷ 0x8000000000008080 ∷ 0x0000000080000001 ∷ 0x8000000080008008 ∷ []

-- The rows one behind the other.
abbrev pub rot_constants : List ℕ
rot_constants =
    0 ∷ 36 ∷ 3 ∷ 41 ∷ 18 ∷ 1 ∷ 44 ∷ 10 ∷ 45 ∷ 2 ∷ 62 ∷ 6 ∷ 43 ∷ 15 ∷ 61 ∷ 28 ∷ 55 ∷ 25 ∷ 21 ∷ 56
    ∷ 27 ∷ 20 ∷ 39 ∷ 8 ∷ 14 ∷ []

-- Reads and writes of an array at an index that it has.
abbrev pub at : List ℕ → ℕ → ℕ
at words i = elim (get_elem? words i) [ none ↦ 0 | some w ↦ w ]

abbrev pub set_at : List ℕ → ℕ → ℕ → List ℕ
set_at [] i w = []
set_at (x ∷ words) zero w = w ∷ words
set_at (x ∷ words) (suc i) w = x ∷ set_at words i w

abbrev pub rotate_left : ℕ → ℕ → ℕ
rotate_left w r = (w * 2 ^ r) % 2 ^ 64 + w / 2 ^ (64 - r)

abbrev five : List ℕ
five = 0 ∷ 1 ∷ 2 ∷ 3 ∷ 4 ∷ []

-- A loop over `x` and `y` that updates an array.
abbrev each : (List ℕ → ℕ → ℕ → List ℕ) → List ℕ → List ℕ
each body init = foldl (λ acc x. foldl (λ acc y. body acc x y) acc five) init five

abbrev tabulate : (ℕ → ℕ) → List ℕ
tabulate f = f 0 ∷ f 1 ∷ f 2 ∷ f 3 ∷ f 4 ∷ []

unfoldable pub keccak_round : List ℕ → ℕ → List ℕ
keccak_round state rc =
    let c = tabulate (λ x.
      bit_xor
        (bit_xor (bit_xor (bit_xor (at state x) (at state (x + 5))) (at state (x + 10)))
          (at state (x + 15)))
        (at state (x + 20))) in
    let d = tabulate (λ x. bit_xor (at c ((x + 4) % 5)) (rotate_left (at c ((x + 1) % 5)) 1)) in
    let theta = each (λ s x y. set_at s (x + 5 * y) (bit_xor (at s (x + 5 * y)) (at d x))) state in
    let b =
      each
        (λ s x y.
          set_at s (y + 5 * ((2 * x + 3 * y) % 5))
            (rotate_left (at theta (x + 5 * y)) (at rot_constants (5 * x + y))))
        theta in
    let chi =
      each
        (λ s x y. set_at s (x + 5 * y) (
          bit_xor (at b (x + 5 * y))
            (bit_and (2 ^ 64 - 1 - at b ((x + 1) % 5 + 5 * y)) (at b ((x + 2) % 5 + 5 * y)))))
        theta in
    set_at chi 0 (bit_xor (at chi 0) rc)

unfoldable pub keccak_f1600 : List ℕ → List ℕ
unfolding keccak_round
keccak_f1600 state = foldl keccak_round state round_constants

pub record KeccakSponge : Type 0 where
  pub state : List ℕ
  pub rate : ℕ
  pub pos : ℕ

abbrev zeros : ℕ → List ℕ
zeros zero = []
zeros (suc n) = 0 ∷ zeros n

abbrev pub new_sponge : ℕ → KeccakSponge
new_sponge rate = record { state = zeros 25; rate = rate; pos = 0 }

-- `state[i / 8] ^= (byte as u64) << ((i % 8) * 8)`
abbrev pub xor_at : List ℕ → ℕ → ℕ → List ℕ
xor_at state i byte =
    set_at state (i / 8) (bit_xor (at state (i / 8)) ((byte * 2 ^ (i % 8 * 8)) % 2 ^ 64))

abbrev pub xor_bytes : List ℕ → ℕ → List ℕ → List ℕ
xor_bytes state i [] = state
xor_bytes state i (byte ∷ bytes) = xor_bytes (xor_at state i byte) (i + 1) bytes

-- A full block is permuted.
unfoldable pub full_block : KeccakSponge → KeccakSponge
full_block s = if s.pos == s.rate then record s { state = keccak_f1600 s.state; pos = 0 } else s

-- The loop of `absorb`; each round takes a byte at least, so the number of bytes is fuel enough.
unfoldable pub absorb_from : ℕ → KeccakSponge → List ℕ → KeccakSponge
unfolding full_block
absorb_from zero s input = s
absorb_from (suc fuel) s input =
    let to_absorb = min (s.rate - s.pos) (length input) in
    let next =
      absorb_from fuel
        (full_block (record s {
          state = xor_bytes s.state s.pos (take to_absorb input);
          pos = s.pos + to_absorb;
        }))
        (drop to_absorb input) in
    if is_empty input then s else next

unfoldable pub absorb : KeccakSponge → List ℕ → KeccakSponge
unfolding absorb_from
absorb s input = absorb_from (length input) s input

unfoldable pub pad_and_finalize : KeccakSponge → ℕ → KeccakSponge
pad_and_finalize s delim = record s {
  state = keccak_f1600 (xor_at (xor_at s.state s.pos delim) (s.rate - 1) 0x80);
  pos = 0;
}

-- `(state[i / 8] >> ((i % 8) * 8)) & 0xff` for `n` places from `i`.
abbrev pub bytes_at : List ℕ → ℕ → ℕ → List ℕ
bytes_at state i zero = []
bytes_at state i (suc n) = (at state (i / 8) / 2 ^ (i % 8 * 8) % 256) ∷ bytes_at state (i + 1) n

-- The loop of `squeeze` for `n` bytes; each round gives a byte at least.
unfoldable pub squeeze_from : ℕ → KeccakSponge → ℕ → List ℕ × KeccakSponge
unfolding full_block
squeeze_from zero s n = ([], s)
squeeze_from (suc fuel) s n =
    let t = full_block s in
    let to_squeeze = min (t.rate - t.pos) n in
    let rest = squeeze_from fuel (record t { pos = t.pos + to_squeeze }) (n - to_squeeze) in
    if n == 0 then ([], s) else (bytes_at t.state t.pos to_squeeze ++ rest.0, rest.1)

unfoldable pub squeeze : KeccakSponge → ℕ → List ℕ × KeccakSponge
unfolding squeeze_from
squeeze s n = squeeze_from n s n

unfoldable pub sha3_256 : List ℕ → List ℕ
unfolding absorb pad_and_finalize squeeze
sha3_256 input = (squeeze (pad_and_finalize (absorb (new_sponge 136) input) 0x06) 32).0

unfoldable pub sha3_512 : List ℕ → List ℕ
unfolding absorb pad_and_finalize squeeze
sha3_512 input = (squeeze (pad_and_finalize (absorb (new_sponge 72) input) 0x06) 64).0

unfoldable pub shake256 : List ℕ → ℕ → List ℕ
unfolding absorb pad_and_finalize squeeze
shake256 input n = (squeeze (pad_and_finalize (absorb (new_sponge 136) input) 0x1f) n).0
