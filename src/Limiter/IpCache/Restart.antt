-- ===== src/Limiter/IpCache/Restart.antt =====
-- What `IpUserCache` answers after a prune, and after a save and a load.
use elise_backend.Prelude.{
  ℕ, ◌-◌, ◌*◌, ◌/◌, ◌^◌, ◌≡◌, ◌≤◌, refl, Bool, none, some, arith, leb, if◌then◌else◌, ◌∙◌,
  Bool-cases, Option-cases, inl, inr, List, [], ◌∷◌, ◌&&◌,
}
use elise_backend.Prelude.Net.{IpAddr, ip_eq, ip_eq_iff, ip_eq_instance}
use elise_backend.Prelude.Map.{HashMap, Unique, get-insert, get-retain}
use elise_backend.Prelude.Map
use elise_backend.Limiter.IpCache.{
  IpUserCache, PersistentEntry, is_fresh, get, prune, answer, saved_entries, save_to_disk,
  back_dated, load_entry, load_from_disk,
}

-- A prune is not seen: it drops only what would not be answered from then on.
pub get-prune :
    (ip : IpAddr) (now t : ℕ) (c : IpUserCache)
    → Unique c.cache
    → now ≤ t
    → get ip t (prune now c) ≡ get ip t c
unfolding get prune
get-prune ip now t c v h = elim (Option-cases (Map.get ip c.cache)) [
  | inl e ↦ rw (get-retain (λ _ e. is_fresh c.ttl now e.1) ip c.cache v, e)
  | inr ((u, i), e) ↦ rw (get-retain (λ _ e. is_fresh c.ttl now e.1) ip c.cache v, e) (ground arith)
]

-- The age in seconds that a load at `unix'` finds in an entry that was saved at `unix`.
abbrev pub saved_age : ℕ → ℕ → ℕ → ℕ → ℕ
saved_age unix now unix' instant = unix' - (unix - (now - instant) / 10 ^ 9)

module _ (unix' now' : ℕ) where
  load_entry-ttl : (e : PersistentEntry) (c : IpUserCache) → (load_entry unix' now' e c).ttl ≡ c.ttl
  unfolding load_entry
  load_entry-ttl e c = ground arith

  load_entry-get :
      (j ip : IpAddr) (u ts : ℕ) (c : IpUserCache)
      → Map.get ip
          (load_entry unix' now' (record { ip = some j; user_id = u; timestamp = ts }) c).cache
        ≡ (if leb ((unix' - ts) * 10 ^ 9) c.ttl && ip_eq j ip
            then some (u, back_dated now' (unix' - ts))
            else Map.get ip c.cache)
  unfolding load_entry
  load_entry-get j ip u ts c = elim (Bool-cases (leb ((unix' - ts) * 10 ^ 9) c.ttl)) [
    | inl e ↦ rw e (get-insert j ip (u, back_dated now' (unix' - ts)) c.cache)
    | inr e ↦ rw e
  ]

  module _ (ttl unix now : ℕ) where
    load_absent :
        (ip : IpAddr) (m : HashMap IpAddr (ℕ × ℕ)) (c : IpUserCache)
        → Map.get ip m ≡ none
        → Map.get ip (load_from_disk unix' now' (saved_entries ttl unix now m) c).cache
          ≡ Map.get ip c.cache
    unfolding load_from_disk saved_entries Map.get
    load_absent ip [] c h = refl
    load_absent ip ((j, (u, i)) ∷ m) c h =
        let ts = unix - (now - i) / 10 ^ 9 in
        let c' = load_entry unix' now' (record { ip = some j; user_id = u; timestamp = ts }) c in
        elim (Bool-cases (is_fresh ttl now i)) [
          | inl e ↦
              rw e
                (load_absent ip m c' (ground arith) ∙ (load_entry-get j ip u ts c ∙ ground arith))
          | inr e ↦ rw e (load_absent ip m c (ground arith))
        ]

    load_present :
        (ip : IpAddr) (u i : ℕ) (m : HashMap IpAddr (ℕ × ℕ)) (c : IpUserCache)
        → Unique m
        → Map.get ip m ≡ some (u, i)
        → Map.get ip (load_from_disk unix' now' (saved_entries ttl unix now m) c).cache ≡ (
            if is_fresh ttl now i && leb (saved_age unix now unix' i * 10 ^ 9) c.ttl
            then some (u, back_dated now' (saved_age unix now unix' i))
            else Map.get ip c.cache)
    unfolding load_from_disk saved_entries Map.get
    load_present ip u i [] c v h = cc
    load_present ip u i ((j, (w, k)) ∷ m) c v h =
        let ts = unix - (now - k) / 10 ^ 9 in
        let c' = load_entry unix' now' (record { ip = some j; user_id = w; timestamp = ts }) c in
        let entry = load_entry-get j ip w ts c in
        elim (Bool-cases (ip_eq j ip)) [
          | inl same ↦
              let gone : Map.get ip m ≡ none = rw ((ip_eq_iff j ip).0 same) at v.0 in
              let hu : w ≡ u = ground (arith, same) in
              let hi : k ≡ i = ground (arith, same) in
              elim (Bool-cases (is_fresh ttl now k)) [
                | inl e ↦
                    rw (← hu, ← hi, e) (load_absent ip m c' gone ∙ entry ∙ rw same (ground arith))
                | inr e ↦ rw (← hi, e) (load_absent ip m c gone)
              ]
          | inr other ↦
              let there : Map.get ip m ≡ some (u, i) = ground (arith, other) in
              elim (Bool-cases (is_fresh ttl now k)) [
                | inl e ↦ rw e (
                    load_present ip u i m c' v.1 there
                    ∙ ground (
                      arith,
                      entry,
                      other,
                      load_entry-ttl (record { ip = some j; user_id = w; timestamp = ts }) c,
                    ))
                | inr e ↦ rw e (load_present ip u i m c v.1 there)
              ]
        ]

load_from_disk-ttl :
    (unix' now' : ℕ) (es : List PersistentEntry) (c : IpUserCache)
    → (load_from_disk unix' now' es c).ttl ≡ c.ttl
unfolding load_from_disk
load_from_disk-ttl unix' now' [] c = refl
load_from_disk-ttl unix' now' (e ∷ es) c =
    load_from_disk-ttl unix' now' es (load_entry unix' now' e c) ∙ load_entry-ttl unix' now' e c

-- A back-dated entry is fresh exactly when its age is.
answer-back_dated :
    (ttl now age u : ℕ) (saved : Bool)
    → answer ttl now
        (if saved && leb (age * 10 ^ 9) ttl then some (u, back_dated now age) else none)
      ≡ (if saved && leb (age * 10 ^ 9) ttl then some u else none)
answer-back_dated ttl now age u saved = ground arith

-- After a save at `now` and a load at `now'` into an empty cache with the same time to live, an
-- address has its user again exactly when it was fresh at the save and its age in whole seconds,
-- by the system clock, fits the time to live; all other addresses have none.
pub get-load-save :
    (ip : IpAddr) (unix now unix' now' : ℕ) (c : IpUserCache)
    → Unique c.cache
    → get ip now'
        (load_from_disk unix' now' (save_to_disk unix now c) (record { ttl = c.ttl; cache = [] }))
      ≡ elim (Map.get ip c.cache) [
        | none ↦ none
        | some (u, i) ↦
            if is_fresh c.ttl now i && leb (saved_age unix now unix' i * 10 ^ 9) c.ttl
            then some u
            else none
      ]
unfolding get save_to_disk
get-load-save ip unix now unix' now' c v =
    let empty : IpUserCache = record { ttl = c.ttl; cache = [] } in
    let es = saved_entries c.ttl unix now c.cache in
    rw (load_from_disk-ttl unix' now' es empty) (elim (Option-cases (Map.get ip c.cache)) [
      | inl e ↦
          rw (load_absent unix' now' c.ttl unix now ip c.cache empty e, e) (unfold Map.get in refl)
      | inr ((u, i), e) ↦
          rw (load_present unix' now' c.ttl unix now ip u i c.cache empty v e, e)
            (unfold Map.get in
              answer-back_dated c.ttl now' (saved_age unix now unix' i) u (is_fresh c.ttl now i))
    ])
