-- ===== src/Security/Defense/Bounded.antt =====
-- The records stay within their bound, one for each address.
use elise_backend.Prelude.{
  ℕ, suc, ◌≤◌, [], ◌∷◌, arith, leb, length, Bool-cases, Option-cases, inl, inr, leb→le, leb→lt,
}
use elise_backend.Prelude.Net.{IpAddr, ip_eq_instance, ip_eq_iff}
use elise_backend.Prelude.Map.{
  HashMap, Unique, get, insert, remove, retain, length-retain, length-insert, length-remove,
  insert-Unique, remove-Unique, retain-Unique,
}
use elise_backend.Security.Defense.{
  BanRecord, AttackDefenseManager, max_defense_records, is_current, remove_first, make_room,
  record_failure, record_success, prune_expired,
}

abbrev pub Bounded : AttackDefenseManager → Type 0
Bounded d = Unique d.records × (length d.records ≤ max_defense_records)

remove_first-Unique : (m : HashMap IpAddr BanRecord) → Unique m → Unique (remove_first m)
remove_first-Unique [] u = tt
remove_first-Unique ((ip, rec) ∷ m) u = remove-Unique ip ((ip, rec) ∷ m) u

remove_first-length :
    (m : HashMap IpAddr BanRecord) → 1 ≤ length m → suc (length (remove_first m)) ≤ length m
unfolding remove
remove_first-length [] h = absurd (omega arith)
remove_first-length ((ip, rec) ∷ m) h = ground (arith, ip_eq_iff ip ip, length-remove ip m)

module _ (obs now : ℕ) (m : HashMap IpAddr BanRecord) where
  make_room-Unique : Unique m → Unique (make_room obs now m)
  unfolding make_room
  make_room-Unique u =
      let current = retain (is_current obs now) m in
      let v = retain-Unique (is_current obs now) m u in
      elim (Bool-cases (leb max_defense_records (length m))) [
        | inr e ↦ rw e u
        | inl e ↦ elim (Bool-cases (leb max_defense_records (length current))) [
          | inl e' ↦ rw (e, e') (remove_first-Unique current v)
          | inr e' ↦ rw (e, e') v
        ]
      ]

  make_room-length :
      length m ≤ max_defense_records → suc (length (make_room obs now m)) ≤ max_defense_records
  unfolding make_room
  make_room-length h =
      let current = retain (is_current obs now) m in
      elim (Bool-cases (leb max_defense_records (length m))) [
        | inr e ↦ rw e (omega (arith, leb→lt max_defense_records (length m) e))
        | inl e ↦ elim (Bool-cases (leb max_defense_records (length current))) [
          | inl e' ↦
              rw (e, e')
                (omega (
                  arith,
                  remove_first-length current (omega (arith, leb→le _ _ e')),
                  length-retain (is_current obs now) m,
                ))
          | inr e' ↦ rw (e, e') (omega (arith, leb→lt max_defense_records (length current) e'))
        ]
      ]

insert_one :
    (ip : IpAddr) (rec : BanRecord) (m : HashMap IpAddr BanRecord)
    → length (insert ip rec m) ≤ suc (length m)
insert_one ip rec m = elim (Option-cases (get ip m)) [
  | inl e ↦ rw (length-insert ip rec m, e) (omega arith)
  | inr (r, e) ↦ rw (length-insert ip rec m, e) (omega arith)
]

-- Every operation keeps at most 50000 records, one for each address.
pub operations-Bounded :
    (d : AttackDefenseManager) (ip : IpAddr) (now : ℕ)
    → Bounded d
    → Bounded (record_failure ip now d)
      × Bounded (record_success ip d)
      × Bounded (prune_expired now d)
unfolding record_failure record_success prune_expired
operations-Bounded d ip now b =
    let room = make_room d.observation_window now d.records in
    (
      (
        insert-Unique ip _ room (make_room-Unique d.observation_window now d.records b.0),
        omega
            (arith, insert_one ip _ room, make_room-length d.observation_window now d.records b.1),
      ),
      (remove-Unique ip d.records b.0, omega (arith, length-remove ip d.records, b.1)),
      (
        retain-Unique (is_current d.observation_window now) d.records b.0,
        omega (arith, length-retain (is_current d.observation_window now) d.records, b.1),
      ),
    )
