-- ===== src/Security/Defense.antt =====
-- src/security/defense.rs: `AttackDefenseManager`. An `Instant` is in nanoseconds and an argument of
-- each operation. The key that a full map gives up is its first; a map has no order of its own.
pub mod Bounded
pub mod Failures
use elise_backend.Prelude.{
  ℕ, ◌+◌, ◌-◌, ◌*◌, ◌%◌, ◌^◌, Bool, true, false, Option, none, some, List, [], ◌∷◌, ltb, leb,
  if◌then◌else◌, length,
}
use elise_backend.Prelude.Net.{IpAddr, ip_eq_instance}
use elise_backend.Prelude.Map.{HashMap, get, insert, remove, retain}

abbrev pub max_defense_records : ℕ
max_defense_records = 50000

pub record BanRecord : Type 0 where
  pub fail_count : ℕ
  pub first_fail : ℕ
  pub banned_until : Option ℕ

pub record AttackDefenseManager : Type 0 where
  pub max_failures : ℕ
  pub observation_window : ℕ
  pub ban_duration : ℕ
  pub records : HashMap IpAddr BanRecord

unfoldable pub new : ℕ → ℕ → ℕ → AttackDefenseManager
new max_failures window_secs ban_secs = record {
  max_failures = max_failures;
  observation_window = window_secs * 10 ^ 9;
  ban_duration = ban_secs * 10 ^ 9;
  records = [];
}

unfoldable pub default : AttackDefenseManager
unfolding new
default = new 5 60 600

unfoldable pub is_banned : IpAddr → AttackDefenseManager → Bool
is_banned ip d = false

-- The test of both `retain`s.
abbrev pub is_current : ℕ → ℕ → IpAddr → BanRecord → Bool
is_current obs now ip rec = elim rec.banned_until [
  | none ↦ leb (now - rec.first_fail) obs
  | some until ↦ ltb now until
]

abbrev pub remove_first : HashMap IpAddr BanRecord → HashMap IpAddr BanRecord
remove_first [] = []
remove_first ((ip, rec) ∷ m) = remove ip ((ip, rec) ∷ m)

-- What makes room in a full map.
unfoldable pub make_room : ℕ → ℕ → HashMap IpAddr BanRecord → HashMap IpAddr BanRecord
make_room obs now m =
    let current = retain (is_current obs now) m in
    if leb max_defense_records (length m)
    then (if leb max_defense_records (length current) then remove_first current else current)
    else m

-- A record that does not exist yet is a fresh one.
abbrev pub or_fresh : ℕ → Option BanRecord → BanRecord
or_fresh now none = record { fail_count = 0; first_fail = now; banned_until = none }
or_fresh now (some rec) = rec

-- The window that is over starts anew.
abbrev pub in_window : ℕ → ℕ → BanRecord → BanRecord
in_window obs now rec =
    if ltb obs (now - rec.first_fail) then record rec { first_fail = now; fail_count = 0 } else rec

unfoldable pub count_failure : AttackDefenseManager → ℕ → BanRecord → BanRecord
count_failure d now rec =
    let rec' = in_window d.observation_window now rec in
    let fails = (rec'.fail_count + 1) % 2 ^ 32 in
    if leb d.max_failures fails
    then record rec' { fail_count = fails; banned_until = some (now + d.ban_duration) }
    else record rec' { fail_count = fails }

unfoldable pub record_failure : IpAddr → ℕ → AttackDefenseManager → AttackDefenseManager
unfolding make_room count_failure
record_failure ip now d =
    let m = make_room d.observation_window now d.records in
    record d { records = insert ip (count_failure d now (or_fresh now (get ip m))) m }

unfoldable pub record_success : IpAddr → AttackDefenseManager → AttackDefenseManager
record_success ip d = record d { records = remove ip d.records }

unfoldable pub prune_expired : ℕ → AttackDefenseManager → AttackDefenseManager
prune_expired now d = record d { records = retain (is_current d.observation_window now) d.records }
