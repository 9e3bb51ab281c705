-- ===== src/Security/Defense/Failures.antt =====
-- What a run of failures within the window leaves.
use elise_backend.Prelude.{
  ℕ, suc, ◌+◌, ◌-◌, ◌%◌, ◌^◌, ◌≤◌, ◌<◌, ◌≡◌, refl, ap, ◌∙◌, false, none, some, List, [], ◌∷◌, arith,
  leb, if◌then◌else◌, length, Bool-cases, inl, inr, leb→lt, le→ltb, lt→leb,
}
use elise_backend.Prelude.Bytes.{All}
use elise_backend.Prelude.Net.{IpAddr, ip_eq_instance}
use elise_backend.Prelude.Map.{HashMap, get, insert, get-insert_self, length-insert}
use elise_backend.Security.Defense.{
  BanRecord, AttackDefenseManager, max_defense_records, make_room, or_fresh, count_failure,
  record_failure, is_banned,
}

-- Failures of one address at these times.
abbrev pub record_failures : IpAddr → List ℕ → AttackDefenseManager → AttackDefenseManager
record_failures ip [] d = d
record_failures ip (now ∷ times) d = record_failures ip times (record_failure ip now d)

abbrev pub last_of : ℕ → List ℕ → ℕ
last_of t [] = t
last_of t (u ∷ times) = last_of u times

-- The record of `n` failures from `first` to `last`, with `banned_until` once they are too many.
abbrev pub failed : AttackDefenseManager → ℕ → ℕ → ℕ → BanRecord
failed d n first last = record {
  fail_count = n;
  first_fail = first;
  banned_until = if leb d.max_failures n then some (last + d.ban_duration) else none;
}

known :
    (ip : IpAddr) (rec : BanRecord) (m : HashMap IpAddr BanRecord) (old : BanRecord)
    → get ip m ≡ some old
    → length (insert ip rec m) ≡ length m
known ip rec m old e = rw (length-insert ip rec m, e) refl

fresh :
    (ip : IpAddr) (rec : BanRecord) (m : HashMap IpAddr BanRecord)
    → get ip m ≡ none
    → length (insert ip rec m) ≡ suc (length m)
fresh ip rec m e = rw (length-insert ip rec m, e) refl

first_failure :
    (d : AttackDefenseManager) (now : ℕ)
    → count_failure d now (or_fresh now none) ≡ failed d 1 now now
unfolding count_failure
first_failure d now =
    rw (le→ltb d.observation_window (now - now) (omega arith))
      (elim (Bool-cases (leb d.max_failures 1)) [ inl e ↦ rw e refl | inr e ↦ rw e refl ])

module _ (ip : IpAddr) where
  with_room :
      (d : AttackDefenseManager) (now : ℕ)
      → length d.records < max_defense_records
      → make_room d.observation_window now d.records ≡ d.records
  unfolding make_room
  with_room d now h = rw (lt→leb max_defense_records (length d.records) h) refl

  record_failure-records :
      (d : AttackDefenseManager) (now : ℕ)
      → length d.records < max_defense_records
      → (record_failure ip now d).records
        ≡ insert ip (count_failure d now (or_fresh now (get ip d.records))) d.records
  unfolding record_failure
  record_failure-records d now h = rw (with_room d now h) refl

  count-failed :
      (d : AttackDefenseManager) (n first last now : ℕ)
      → suc n < 2 ^ 32
      → now - first ≤ d.observation_window
      → count_failure d now (failed d n first last) ≡ failed d (suc n) first now
  unfolding count_failure
  count-failed d n first last now small inside =
      let one_more : (n + 1) % 2 ^ 32 ≡ suc n = omega arith in
      rw (le→ltb d.observation_window (now - first) inside, one_more)
        (elim (Bool-cases (leb d.max_failures (suc n))) [
          | inl e ↦ rw e refl
          | inr e ↦
              rw (e, lt→leb d.max_failures n (omega (arith, leb→lt d.max_failures (suc n) e))) refl
        ])

  more_failures :
      (times : List ℕ) (d : AttackDefenseManager) (n first last : ℕ)
      → length d.records < max_defense_records
      → get ip d.records ≡ some (failed d n first last)
      → All (λ t. t - first ≤ d.observation_window) times
      → n + length times < 2 ^ 32
      → get ip (record_failures ip times d).records
        ≡ some (failed d (n + length times) first (last_of last times))
  unfolding record_failure
  more_failures [] d n first last room e inside small =
      e ∙ ap (λ k. some (failed d k first last)) (omega arith)
  more_failures (now ∷ times) d n first last room e inside small =
      let d' = record_failure ip now d in
      let r = record_failure-records d now room in
      let e' : get ip d'.records ≡ some (failed d (suc n) first now) =
        ap (get ip) r
        ∙ get-insert_self ip (count_failure d now (or_fresh now (get ip d.records))) d.records
        ∙ ap (λ o. some (count_failure d now (or_fresh now o))) e
        ∙ ap some (count-failed d n first last now (omega arith) inside.0) in
      let same_size : length d'.records ≡ length d.records =
        ap length r
        ∙ known ip (count_failure d now (or_fresh now (get ip d.records))) d.records
            (failed d n first last) e in
      more_failures times d' (suc n) first now (omega (arith, same_size)) e' inside.1 (omega arith)
      ∙ ap (λ k. some (failed d k first (last_of now times))) (omega arith)

-- What the record of the address is after the failures.
record_failures-record :
    (ip : IpAddr) (first : ℕ) (times : List ℕ) (d : AttackDefenseManager)
    → get ip d.records ≡ none
    → suc (length d.records) < max_defense_records
    → All (λ t. t - first ≤ d.observation_window) times
    → suc (length times) < 2 ^ 32
    → get ip (record_failures ip (first ∷ times) d).records
      ≡ some (failed d (suc (length times)) first (last_of first times))
unfolding record_failure
record_failures-record ip first times d e room inside small =
    let d' = record_failure ip first d in
    let r = record_failure-records ip d first (omega arith) in
    let e' : get ip d'.records ≡ some (failed d 1 first first) =
      ap (get ip) r
      ∙ get-insert_self ip (count_failure d first (or_fresh first (get ip d.records))) d.records
      ∙ ap (λ o. some (count_failure d first (or_fresh first o))) e
      ∙ ap some (first_failure d first) in
    let size : length d'.records ≡ suc (length d.records) =
      ap length r
      ∙ fresh ip (count_failure d first (or_fresh first (get ip d.records))) d.records e in
    more_failures ip times d' 1 first first (omega (arith, size)) e' inside (omega arith)
    ∙ ap (λ k. some (failed d k first (last_of first times))) (omega arith)

-- An address without a record whose failures all come within the window of the first, into a map
-- that is not nearly full: its record counts them all from the first, and its field `banned_until`
-- is set, to the last failure plus the ban's duration, once they are `max_failures` or more. The
-- ban is only on record: `is_banned` says no for the address however many failures there were.
pub record_failures-get :
    (ip : IpAddr) (first : ℕ) (times : List ℕ) (d : AttackDefenseManager)
    → get ip d.records ≡ none
    → suc (length d.records) < max_defense_records
    → All (λ t. t - first ≤ d.observation_window) times
    → suc (length times) < 2 ^ 32
    → (get ip (record_failures ip (first ∷ times) d).records
        ≡ some (failed d (suc (length times)) first (last_of first times)))
      × (is_banned ip (record_failures ip (first ∷ times) d) ≡ false)
unfolding is_banned
record_failures-get ip first times d e room inside small =
    (record_failures-record ip first times d e room inside small, refl)
