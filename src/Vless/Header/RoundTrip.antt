-- ===== src/Vless/Header/RoundTrip.antt =====
-- A request as the VLESS protocol lays it out, read by src/protocol/vless/header.rs.
use elise_backend.Prelude.{
  ℕ, zero, suc, ◌+◌, ◌*◌, ◌/◌, ◌%◌, ◌^◌, ◌<◌, ◌≡◌, refl, sym, ap, ◌∙◌, true, ◌||◌, Option, none,
  some, List, [], ◌∷◌, ◌++◌, arith, bit_and, bit_or, ◌==◌, length, ok, read_exact-append, lt→ltb,
  le→ltb, length-append, take-length, drop-length,
}
use Prim.Native.Nat.{bit_or-bitwise}
use native.Mathlib.Nat.{mod-eq_of_lt}
use mathlib.Core.List.{append_assoc, append-nil}
use elise_backend.Prelude.Bytes.{
  to_be_u16, to_be_bytes, length-to_be_bytes, from-to_be_bytes, bit_80_clear, mask_7f,
}
use elise_backend.Prelude.Net.{IpAddr, v4, v6}
use elise_backend.Vless.Header.{
  VlessAddons, no_addons, read_uvarint_from, read_uvarint, set_field, one_field, parse_fields,
  parse_addons, Host, text, printed, read_u8, read_u16, read_domain, read_host, read_target,
  read_addons, parse_vless_request_header,
}

-- Where a request wants to go.
pub data Target : Type 0 where
  ipv4 ipv6 : ℕ → Target
  domain : List ℕ → Target

abbrev pub target_bytes : Target → List ℕ
target_bytes (ipv4 a) = 1 ∷ to_be_bytes 4 a
target_bytes (domain name) = 2 ∷ length name ∷ name
target_bytes (ipv6 a) = 3 ∷ to_be_bytes 16 a

abbrev pub IsTarget : Target → Type 0
IsTarget (ipv4 a) = a < 2 ^ 32
IsTarget (ipv6 a) = a < 2 ^ 128
IsTarget (domain name) = length name < 256

abbrev pub target_host_of : (List ℕ → List ℕ) → Target → Host
target_host_of lossy (ipv4 a) = printed (v4 a)
target_host_of lossy (ipv6 a) = printed (v6 a)
target_host_of lossy (domain name) = text (lossy name)

abbrev pub target_ip_of : Target → Option IpAddr
target_ip_of (ipv4 a) = some (v4 a)
target_ip_of (ipv6 a) = some (v6 a)
target_ip_of (domain name) = none

abbrev pub request_bytes : List ℕ → List ℕ → ℕ → ℕ → Target → List ℕ
request_bytes uuid addons command port target =
    0 ∷ (uuid ++ (length addons ∷ (addons ++ (command ∷ (to_be_u16 port ++ target_bytes target)))))

module _ (lossy : List ℕ → List ℕ) where
  read_host-target :
      (target : Target) (s : List ℕ)
      → IsTarget target
      → read_host lossy (target_bytes target ++ s)
        ≡ ok (target_host_of lossy target, target_ip_of target, s)
  unfolding read_host read_domain read_u8
  read_host-target (ipv4 a) s h =
      rw (read_exact-append 4 (to_be_bytes 4 a) s refl, from-to_be_bytes 4 a h) refl
  read_host-target (ipv6 a) s h =
      rw
        (
          read_exact-append 16 (to_be_bytes 16 a) s (omega (arith, length-to_be_bytes 16 a)),
          from-to_be_bytes 16 a h,
        )
        refl
  read_host-target (domain name) s h = rw (read_exact-append (length name) name s refl) refl

  read_target-command :
      (command port : ℕ) (target : Target) (s : List ℕ)
      → (command == 0x01 || command == 0x02) ≡ true
      → port < 2 ^ 16
      → IsTarget target
      → read_target lossy command (to_be_u16 port ++ (target_bytes target ++ s))
        ≡ ok (port, target_host_of lossy target, target_ip_of target, s)
  unfolding read_target read_u16 read_u8
  read_target-command command port target s c hp h =
      let word : (port / 256 % 256) * 256 + port % 256 ≡ port = omega arith in
      rw (c, word, read_host-target target s h) refl

  read_addons-bytes :
      (addons s : List ℕ)
      → read_addons lossy (length addons ∷ (addons ++ s)) ≡ ok (parse_addons lossy addons, s)
  unfolding read_addons read_u8
  read_addons-bytes [] s = unfold parse_addons parse_fields in refl
  read_addons-bytes (b ∷ addons) s =
      rw
        (
          lt→ltb 0 (suc (length addons)) (omega arith),
          read_exact-append (suc (length addons)) (b ∷ addons) s refl,
        )
        refl

-- A request for TCP or UDP reads back: its user, its addons as they parse, its command, port and
-- target, and what follows it is left.
pub parse-request_bytes :
    (lossy : List ℕ → List ℕ) (uuid addons : List ℕ) (command port : ℕ) (target : Target)
    (rest : List ℕ)
    → length uuid ≡ 16
    → (command == 0x01 || command == 0x02) ≡ true
    → port < 2 ^ 16
    → IsTarget target
    → parse_vless_request_header lossy (request_bytes uuid addons command port target ++ rest)
      ≡ ok (
        record {
          version = 0;
          uuid_bytes = uuid;
          addons = parse_addons lossy addons;
          command = command;
          target_port = port;
          target_host = target_host_of lossy target;
          target_ip = target_ip_of target;
        },
        rest,
      )
unfolding parse_vless_request_header read_u8
parse-request_bytes lossy uuid addons command port target rest hu hc hp ht =
    let tail : List ℕ = to_be_u16 port ++ (target_bytes target ++ rest) in
    let shape : ((uuid
            ++ (length addons ∷ (addons ++ (command ∷ (to_be_u16 port ++ target_bytes target)))))
          ++ rest)
        ≡ uuid ++ (length addons ∷ (addons ++ (command ∷ tail))) =
      append_assoc uuid _ rest
      ∙ ap (λ t. uuid ++ (length addons ∷ t))
          (append_assoc addons (command ∷ (to_be_u16 port ++ target_bytes target)) rest) in
    rw
      (
        shape,
        read_exact-append 16 uuid (length addons ∷ (addons ++ (command ∷ tail))) (sym hu),
        read_addons-bytes lossy addons (command ∷ tail),
        read_target-command lossy command port target rest hc hp ht,
      )
      refl

short_uvarint : (n : ℕ) (s : List ℕ) → n < 128 → read_uvarint (n ∷ s) ≡ some (n, s)
unfolding read_uvarint read_uvarint_from
short_uvarint n s h =
    let mask : bit_and n 0x7f ≡ n = mask_7f n (omega arith) ∙ mod-eq_of_lt h in
    let word : n * 1 % 2 ^ 64 ≡ n = omega arith in
    let alone : bit_or 0 n ≡ n = bit_or-bitwise 0 n in rw (bit_80_clear n h, mask, word, alone) refl

module _ (lossy : List ℕ → List ℕ) where
  one_field-bytes :
      (field_num : ℕ) (bytes rest : List ℕ) (addons : VlessAddons)
      → length bytes < 128
      → one_field lossy 2 field_num (length bytes ∷ (bytes ++ rest)) addons
        ≡ some (rest, set_field lossy field_num bytes addons)
  unfolding one_field
  one_field-bytes field_num bytes rest addons h =
      rw
        (
          short_uvarint (length bytes) (bytes ++ rest) h,
          le→ltb (length (bytes ++ rest)) (length bytes) (omega (arith, length-append bytes rest)),
          take-length bytes rest,
          drop-length bytes rest,
        )
        refl

  parse_fields-bytes :
      (fuel tag : ℕ) (bytes rest : List ℕ) (addons : VlessAddons)
      → tag < 128
      → bit_and tag 0x07 ≡ 2
      → length bytes < 128
      → parse_fields lossy (suc fuel) (tag ∷ length bytes ∷ (bytes ++ rest)) addons
        ≡ parse_fields lossy fuel rest (set_field lossy (tag / 2 ^ 3) bytes addons)
  unfolding parse_fields
  parse_fields-bytes fuel tag bytes rest addons ht wire h =
      let read = short_uvarint tag (length bytes ∷ (bytes ++ rest)) ht in
      ap
        (λ o. elim o [
          | none ↦ some addons
          | some r ↦ elim (one_field lossy (bit_and r.0 0x07) (r.0 / 2 ^ 3) r.1 addons) [
            | none ↦ some addons
            | some next ↦ parse_fields lossy fuel next.0 next.1
          ]
        ])
        read
      ∙ rw (wire, one_field-bytes (tag / 2 ^ 3) bytes rest addons h) refl

  parse_fields-end :
      (fuel : ℕ) (addons : VlessAddons) → parse_fields lossy fuel [] addons ≡ some addons
  unfolding parse_fields
  parse_fields-end zero addons = refl
  parse_fields-end (suc fuel) addons = refl

-- Addons with a flow and a seed, each shorter than 128 bytes, as Protocol Buffers lay them out.
pub parse_addons-fields :
    (lossy : List ℕ → List ℕ) (flow seed : List ℕ)
    → length flow < 128
    → length seed < 128
    → parse_addons lossy (0x0a ∷ length flow ∷ (flow ++ (0x12 ∷ length seed ∷ seed)))
      ≡ record { flow = lossy flow; seed = seed }
unfolding parse_addons
parse_addons-fields lossy flow seed hf hs =
    let rest : List ℕ = 0x12 ∷ length seed ∷ seed in
    let fuel : ℕ = length (flow ++ rest) in
    let with_flow : VlessAddons = record { flow = lossy flow; seed = [] } in
    ap (λ o. elim o [ none ↦ no_addons | some addons ↦ addons ])
      (parse_fields-bytes lossy (suc fuel) 0x0a flow rest no_addons (omega arith) refl hf
        ∙ ap (λ t. parse_fields lossy (suc fuel) (0x12 ∷ length seed ∷ t) with_flow)
            (sym (append-nil seed))
        ∙ parse_fields-bytes lossy fuel 0x12 seed [] with_flow (omega arith) refl hs
        ∙ parse_fields-end lossy fuel (record { flow = lossy flow; seed = seed }))
