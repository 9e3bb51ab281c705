-- ===== src/Vless/Header.antt =====
-- src/protocol/vless/header.rs: the addons and the header of a request. A stream is the bytes that are
-- left. `lossy`, the text of bytes that may not be UTF-8, is an argument; a host that is printed
-- from an address is kept as the address.
pub mod RoundTrip
pub mod Rounds
use elise_backend.Prelude.{
  ℕ, zero, suc, ◌+◌, ◌*◌, ◌/◌, ◌%◌, ◌^◌, Bool, true, false, ◌||◌, Option, none, some, List, [], ◌∷◌,
  ◌++◌, bit_and, bit_or, ltb, leb, ◌==◌, if◌then◌else◌, length, take, drop, Io, ok, err, panic,
  ◌>>=◌, read_exact, unexpected_eof, invalid_data,
}
use elise_backend.Prelude.Bytes.{from_be_u16, from_be_bytes}
use elise_backend.Prelude.Text.{codes}
use elise_backend.Prelude.Net.{IpAddr, v4, v6}

-- The two bytes of a user's id that do not count.
unfoldable pub process_uuid : List ℕ → List ℕ
process_uuid id = take 6 id ++ (0 ∷ 0 ∷ drop 8 id)

pub record VlessAddons : Type 0 where
  pub flow : List ℕ
  pub seed : List ℕ

abbrev pub no_addons : VlessAddons
no_addons = record { flow = []; seed = [] }

-- The loop of `read_uvarint`; the shift is beyond 63 after the tenth round.
unfoldable pub read_uvarint_from : ℕ → ℕ → ℕ → List ℕ → Option (ℕ × List ℕ)
read_uvarint_from zero value shift buf = none
read_uvarint_from (suc rounds) value shift [] = none
read_uvarint_from (suc rounds) value shift (b ∷ buf) =
    let value' = bit_or value (bit_and b 0x7f * 2 ^ shift % 2 ^ 64) in
    let more = read_uvarint_from rounds value' (shift + 7) buf in
    if bit_and b 0x80 == 0 then some (value', buf) else if ltb 63 (shift + 7) then none else more

unfoldable pub read_uvarint : List ℕ → Option (ℕ × List ℕ)
unfolding read_uvarint_from
read_uvarint buf = read_uvarint_from 10 0 0 buf

module _ (lossy : List ℕ → List ℕ) where
  abbrev pub set_field : ℕ → List ℕ → VlessAddons → VlessAddons
  set_field field_num bytes addons =
      if field_num == 1
      then record addons { flow = lossy bytes }
      else if field_num == 2
      then record addons { seed = bytes }
      else addons

  -- The `match` on the wire type: none where the loop breaks, else the rest and the addons.
  unfoldable pub one_field : ℕ → ℕ → List ℕ → VlessAddons → Option (List ℕ × VlessAddons)
  one_field wire_type field_num buf addons =
      let number : Option (ℕ × List ℕ) = read_uvarint buf in
      if wire_type == 0
      then elim number [ none ↦ none | some r ↦ some (r.1, addons) ]
      else if wire_type == 1
      then (if ltb (length buf) 8 then none else some (drop 8 buf, addons))
      else if wire_type == 2
      then elim number [
        | none ↦ none
        | some r ↦
            if ltb (length r.1) r.0
            then none
            else some (drop r.0 r.1, set_field field_num (take r.0 r.1) addons)
      ]
      else if wire_type == 5
      then (if ltb (length buf) 4 then none else some (drop 4 buf, addons))
      else none

  -- `while !buf.is_empty()` with the rounds that are left; none where they do not suffice.
  unfoldable pub parse_fields : ℕ → List ℕ → VlessAddons → Option VlessAddons
  unfolding one_field
  parse_fields zero [] addons = some addons
  parse_fields zero (b ∷ buf) addons = none
  parse_fields (suc fuel) [] addons = some addons
  parse_fields (suc fuel) (b ∷ buf) addons = elim (read_uvarint (b ∷ buf)) [
    | none ↦ some addons
    | some tag ↦ elim (one_field (bit_and tag.0 0x07) (tag.0 / 2 ^ 3) tag.1 addons) [
      | none ↦ some addons
      | some next ↦ parse_fields fuel next.0 next.1
    ]
  ]

  -- A round takes a byte at least, so the bytes are rounds enough, and there is always a result.
  unfoldable pub parse_addons : List ℕ → VlessAddons
  unfolding parse_fields
  parse_addons buf = elim (parse_fields (length buf) buf no_addons) [
    | none ↦ no_addons
    | some addons ↦ addons
  ]

-- `target_host`: a text, or what an address prints as.
pub data Host : Type 0 where
  text : List ℕ → Host
  printed : IpAddr → Host

pub record VlessRequestHeader : Type 0 where
  pub version : ℕ
  pub uuid_bytes : List ℕ
  pub addons : VlessAddons
  pub command : ℕ
  pub target_port : ℕ
  pub target_host : Host
  pub target_ip : Option IpAddr

-- `read_exact` of one byte.
unfoldable pub read_u8 : List ℕ → Io (ℕ × List ℕ)
read_u8 [] = err unexpected_eof
read_u8 (b ∷ s) = ok (b, s)

unfoldable pub read_u16 : List ℕ → Io (ℕ × List ℕ)
unfolding read_u8
read_u16 s = do (hi, s₁) ← read_u8 s; (lo, s₂) ← read_u8 s₁; ok (from_be_u16 hi lo, s₂)

module _ (lossy : List ℕ → List ℕ) where
  unfoldable pub read_domain : List ℕ → Io (List ℕ × List ℕ)
  read_domain s = do (len, s₁) ← read_u8 s; (domain, s₂) ← read_exact len s₁; ok (lossy domain, s₂)

  -- The `match` on the address type.
  unfoldable pub read_host : List ℕ → Io (Host × Option IpAddr × List ℕ)
  unfolding read_domain
  read_host s = do
    (atyp, s₁) ← read_u8 s
    if atyp == 0x01
        then (do
          (o, s₂) ← read_exact 4 s₁
          ok (printed (v4 (from_be_bytes o)), some (v4 (from_be_bytes o)), s₂))
        else if atyp == 0x02
        then (do (domain, s₂) ← read_domain s₁; ok (text domain, none, s₂))
        else if atyp == 0x03
        then (do
          (o, s₂) ← read_exact 16 s₁
          ok (printed (v6 (from_be_bytes o)), some (v6 (from_be_bytes o)), s₂))
        else err invalid_data

  -- The `match` on the command.
  unfoldable pub read_target : ℕ → List ℕ → Io (ℕ × Host × Option IpAddr × List ℕ)
  unfolding read_host
  read_target command s =
      if command == 0x01 || command == 0x02
      then (do (port, s₁) ← read_u16 s; (host, ip, s₂) ← read_host s₁; ok (port, host, ip, s₂))
      else if command == 0x03
      then ok (0, text (codes "v1.mux.cool"), none, s)
      else if command == 0x04
      then ok (0, text (codes "v1.rvs.cool"), none, s)
      else err invalid_data

  unfoldable pub read_addons : List ℕ → Io (VlessAddons × List ℕ)
  read_addons s = do
    (addon_len, s₁) ← read_u8 s
    if ltb 0 addon_len
        then (do (buf, s₂) ← read_exact addon_len s₁; ok (parse_addons lossy buf, s₂))
        else ok (no_addons, s₁)

  unfoldable pub parse_vless_request_header : List ℕ → Io (VlessRequestHeader × List ℕ)
  unfolding read_target read_addons
  parse_vless_request_header s = do
    (ver, s₁) ← read_u8 s
    if ver == 0
        then (do
          (uuid, s₂) ← read_exact 16 s₁
          (addons, s₃) ← read_addons s₂
          (command, s₄) ← read_u8 s₃
          (port, host, ip, s₅) ← read_target command s₄
          ok (
            record {
              version = ver;
              uuid_bytes = uuid;
              addons = addons;
              command = command;
              target_port = port;
              target_host = host;
              target_ip = ip;
            },
            s₅,
          ))
        else err invalid_data
