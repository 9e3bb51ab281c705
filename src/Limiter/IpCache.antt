-- ===== src/Limiter/IpCache.antt =====
-- src/limiter/ip_cache.rs: `IpUserCache`. An `Instant` is in nanoseconds, a timestamp in seconds; both
-- are arguments. The file is the list of its entries, with each address as its text parses.
pub mod Restart
use elise_backend.Prelude.{
  ℕ, ◌+◌, ◌-◌, ◌*◌, ◌/◌, ◌^◌, max, Bool, true, false, Option, none, some, List, [], ◌∷◌, leb,
  if◌then◌else◌,
}
use elise_backend.Prelude.Net.{IpAddr, ip_eq_instance}
use elise_backend.Prelude.Map.{HashMap}
use elise_backend.Prelude.Map

pub record PersistentEntry : Type 0 where
  pub ip : Option IpAddr
  pub user_id : ℕ
  pub timestamp : ℕ

pub record IpUserCache : Type 0 where
  pub ttl : ℕ
  pub cache : HashMap IpAddr (ℕ × ℕ)

unfoldable pub new : ℕ → IpUserCache
new cache_hours = record { ttl = max cache_hours 1 * 3600 * 10 ^ 9; cache = [] }

-- `instant.elapsed() <= ttl`
abbrev pub is_fresh : ℕ → ℕ → ℕ → Bool
is_fresh ttl now instant = leb (now - instant) ttl

abbrev pub answer : ℕ → ℕ → Option (ℕ × ℕ) → Option ℕ
answer ttl now none = none
answer ttl now (some (user_id, instant)) = if is_fresh ttl now instant then some user_id else none

unfoldable pub get : IpAddr → ℕ → IpUserCache → Option ℕ
get ip now c = answer c.ttl now (Map.get ip c.cache)

unfoldable pub insert : IpAddr → ℕ → ℕ → IpUserCache → IpUserCache
insert ip user_id now c = record c { cache = Map.insert ip (user_id, now) c.cache }

unfoldable pub prune : ℕ → IpUserCache → IpUserCache
prune now c = record c { cache = Map.retain (λ _ e. is_fresh c.ttl now e.1) c.cache }

-- The entries that `save_to_disk` writes.
unfoldable pub saved_entries : ℕ → ℕ → ℕ → HashMap IpAddr (ℕ × ℕ) → List PersistentEntry
saved_entries ttl now_unix now [] = []
saved_entries ttl now_unix now ((ip, (user_id, instant)) ∷ m) =
    let rest = saved_entries ttl now_unix now m in
    let entry : PersistentEntry = record {
      ip = some ip;
      user_id = user_id;
      timestamp = now_unix - (now - instant) / 10 ^ 9;
    } in
    if is_fresh ttl now instant then entry ∷ rest else rest

unfoldable pub save_to_disk : ℕ → ℕ → IpUserCache → List PersistentEntry
unfolding saved_entries
save_to_disk now_unix now c = saved_entries c.ttl now_unix now c.cache

-- `Instant::now().checked_sub(age).unwrap_or_else(Instant::now)`
abbrev pub back_dated : ℕ → ℕ → ℕ
back_dated now age = if leb (age * 10 ^ 9) now then now - age * 10 ^ 9 else now

unfoldable pub load_entry : ℕ → ℕ → PersistentEntry → IpUserCache → IpUserCache
load_entry now_unix now e c = elim e.ip [
  | none ↦ c
  | some ip ↦
      let age = now_unix - e.timestamp in
      if leb (age * 10 ^ 9) c.ttl
      then record c { cache = Map.insert ip (e.user_id, back_dated now age) c.cache }
      else c
]

unfoldable pub load_from_disk : ℕ → ℕ → List PersistentEntry → IpUserCache → IpUserCache
unfolding load_entry
load_from_disk now_unix now [] c = c
load_from_disk now_unix now (e ∷ es) c =
    load_from_disk now_unix now es (load_entry now_unix now e c)
