-- ===== src/Limiter/Device.antt =====
-- src/limiter/device.rs: `DeviceLimiter` without its Redis side. An `Instant` is in nanoseconds and an
-- argument of each operation. A device's text is kept as what it is printed from.
pub mod Identity
pub mod Online
use elise_backend.Prelude.{
  ℕ, zero, suc, ◌+◌, ◌-◌, ◌*◌, ◌/◌, ◌%◌, ◌^◌, ◌≡◌, refl, ◌↔◌, Bool, true, false, ◌&&◌, Option, none,
  some, List, [], ◌∷◌, map, min, arith, ltb, leb, ◌==◌, if◌then◌else◌, length, bit_and,
}
use elise_backend.Prelude.Net.{IpAddr, v4, v6, ip_eq, ip_eq_iff, to_canonical}
use elise_backend.Prelude.Map.{Eq, HashMap, nat_eq, get, insert, remove, retain}

-- `network ip p` prints as `ip/p`, and `host ip` as the address alone.
pub data DeviceKey : Type 0 where
  host : IpAddr → DeviceKey
  network : IpAddr → ℕ → DeviceKey

unfoldable pub key_eq : DeviceKey → DeviceKey → Bool
unfolding ip_eq
key_eq (host a) (host b) = ip_eq a b
key_eq (host a) (network b q) = false
key_eq (network a p) (host b) = false
key_eq (network a p) (network b q) = ip_eq a b && p == q

pub key_eq_iff : (a b : DeviceKey) → (key_eq a b ≡ true) ↔ (a ≡ b)
unfolding key_eq
key_eq_iff (host a) (host b) = ground (arith, ip_eq_iff a b)
key_eq_iff (host a) (network b q) = ground arith
key_eq_iff (network a p) (host b) = ground arith
key_eq_iff (network a p) (network b q) = ground (arith, ip_eq_iff a b)

instance abbrev pub key_eq_instance : Eq DeviceKey
key_eq_instance = record { beq = key_eq; beq_iff = key_eq_iff }

pub record DeviceLimiter : Type 0 where
  pub window_duration : ℕ
  pub prefix_v4 : ℕ
  pub prefix_v6 : ℕ
  pub user_devices : HashMap ℕ (HashMap DeviceKey ℕ)
  pub user_limits : HashMap ℕ ℕ
  pub global_alive : HashMap ℕ ℕ

unfoldable pub new : ℕ → ℕ → ℕ → DeviceLimiter
new window_secs prefix_v4 prefix_v6 = record {
  window_duration = window_secs * 10 ^ 9;
  prefix_v4 = min prefix_v4 32;
  prefix_v6 = min prefix_v6 128;
  user_devices = [];
  user_limits = [];
  global_alive = [];
}

unfoldable pub update_global_alive : HashMap ℕ ℕ → DeviceLimiter → DeviceLimiter
update_global_alive m l = record l { global_alive = m }

unfoldable pub set_user_limit : ℕ → ℕ → DeviceLimiter → DeviceLimiter
set_user_limit user_id limit l =
    if ltb 0 limit
    then record l { user_limits = insert user_id limit l.user_limits }
    else record l { user_limits = remove user_id l.user_limits }

-- The masks are `!((1 << k) - 1)` in 64 bits cut to 32, and in 128 bits.
unfoldable pub normalize_ip : ℕ → ℕ → IpAddr → DeviceKey
normalize_ip prefix_v4 prefix_v6 ip = elim (to_canonical ip) [
  | v4 a ↦
      if leb 32 prefix_v4
      then host (v4 a)
      else if prefix_v4 == 0
      then network (v4 0) 0
      else network (v4 (bit_and a ((2 ^ 64 - 1 - (2 ^ (32 - prefix_v4) - 1)) % 2 ^ 32))) prefix_v4
  | v6 a ↦
      if leb 128 prefix_v6
      then host (v6 a)
      else if prefix_v6 == 0
      then network (v6 0) 0
      else network (v6 (bit_and a (2 ^ 128 - 1 - (2 ^ (128 - prefix_v6) - 1)))) prefix_v6
]

-- `now.duration_since(last_seen) <= window`; a later instant counts as no time at all.
abbrev pub is_live : ℕ → ℕ → DeviceKey → ℕ → Bool
is_live window now _ last_seen = leb (now - last_seen) window

abbrev pub or_default : Option (HashMap DeviceKey ℕ) → HashMap DeviceKey ℕ
or_default none = []
or_default (some m) = m

abbrev pub or_zero : Option ℕ → ℕ
or_zero none = 0
or_zero (some n) = n

abbrev pub is_some : Option ℕ → Bool
is_some none = false
is_some (some n) = true

-- The devices of a user that are still in the window.
unfoldable pub live_devices : DeviceLimiter → ℕ → ℕ → HashMap DeviceKey ℕ
live_devices l user_id now =
    retain (is_live l.window_duration now) (or_default (get user_id l.user_devices))

-- The check against the limit of the user, if it has one.
unfoldable pub refused : DeviceLimiter → ℕ → DeviceKey → HashMap DeviceKey ℕ → Bool
refused l user_id key devices = elim (get user_id l.user_limits) [
  | none ↦ false
  | some max_dev ↦
      if is_some (get key devices)
      then false
      else leb max_dev ((length devices % 2 ^ 32 + or_zero (get user_id l.global_alive)) % 2 ^ 32)
]

unfoldable pub check_and_record : ℕ → IpAddr → ℕ → DeviceLimiter → DeviceLimiter × Bool
unfolding live_devices refused
check_and_record user_id ip now l =
    let device_key = normalize_ip l.prefix_v4 l.prefix_v6 ip in
    let devices = live_devices l user_id now in
    if refused l user_id device_key devices
    then (record l { user_devices = insert user_id devices l.user_devices }, false)
    else (
      record l { user_devices = insert user_id (insert device_key now devices) l.user_devices },
      true,
    )

keys : HashMap DeviceKey ℕ → List DeviceKey
keys m = map (λ e. e.0) m

unfoldable pub get_online_devices : ℕ → ℕ → DeviceLimiter → DeviceLimiter × List DeviceKey
unfolding keys
get_online_devices user_id now l = elim (get user_id l.user_devices) [
  | none ↦ (l, [])
  | some devices ↦
      let live = retain (is_live l.window_duration now) devices in
      (
        elim live [
          | [] ↦ record l { user_devices = remove user_id l.user_devices }
          | d ∷ ds ↦ record l { user_devices = insert user_id (d ∷ ds) l.user_devices }
        ],
        keys live,
      )
]

-- The `retain` over all users that `prune_expired` and `get_all_online_devices` make.
prune_users : ℕ → ℕ → HashMap ℕ (HashMap DeviceKey ℕ) → HashMap ℕ (HashMap DeviceKey ℕ)
prune_users window now [] = []
prune_users window now ((user_id, devices) ∷ m) =
    let rest = prune_users window now m in
    elim (retain (is_live window now) devices) [ [] ↦ rest | d ∷ ds ↦ (user_id, d ∷ ds) ∷ rest ]

unfoldable pub prune_expired : ℕ → DeviceLimiter → DeviceLimiter
unfolding prune_users
prune_expired now l = record l { user_devices = prune_users l.window_duration now l.user_devices }

all_keys : HashMap ℕ (HashMap DeviceKey ℕ) → HashMap ℕ (List DeviceKey)
unfolding keys
all_keys [] = []
all_keys ((user_id, devices) ∷ m) = (user_id, keys devices) ∷ all_keys m

unfoldable pub get_all_online_devices :
    ℕ → DeviceLimiter → DeviceLimiter × HashMap ℕ (List DeviceKey)
unfolding prune_users all_keys
get_all_online_devices now l =
    let m = prune_users l.window_duration now l.user_devices in
    (record l { user_devices = m }, all_keys m)
