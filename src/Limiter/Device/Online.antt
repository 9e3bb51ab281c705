-- ===== src/Limiter/Device/Online.antt =====
-- What `check_and_record` changes of the devices that are online.
use elise_backend.Prelude.{
  ℕ, ◌+◌, ◌-◌, ◌^◌, ◌≡◌, ◌≤◌, ◌<◌, Bool, false, Option, none, some, arith, leb, ◌==◌, if◌then◌else◌,
  length, Bool-cases, Option-cases, not, ◌&&◌, ==_iff, ==_self, inl, inr,
}
use elise_backend.Prelude.Net.{IpAddr}
use elise_backend.Prelude.Map.{
  HashMap, Unique, nat_eq, get, insert, retain, get-insert, get-retain, insert-Unique,
  retain-Unique, length-insert,
}
use elise_backend.Limiter.Device.{
  DeviceKey, DeviceLimiter, key_eq, key_eq_instance, normalize_ip, is_live, or_default, or_zero,
  live_devices, refused, check_and_record,
}

-- Each device of a user stands in its map once.
abbrev pub IsValid : DeviceLimiter → Type 0
IsValid l = (u : ℕ) → Unique (or_default (get u l.user_devices))

abbrev seen_within : ℕ → ℕ → Option ℕ → Bool
seen_within window t none = false
seen_within window t (some seen) = leb (t - seen) window

-- The device was seen by this user within the window before `t`.
abbrev pub is_online : DeviceLimiter → ℕ → DeviceKey → ℕ → Bool
is_online l u k t = seen_within l.window_duration t (get k (or_default (get u l.user_devices)))

devices-insert :
    (u w : ℕ) (d : HashMap DeviceKey ℕ) (m : HashMap ℕ (HashMap DeviceKey ℕ))
    → or_default (get w (insert u d m)) ≡ (if u == w then d else or_default (get w m))
devices-insert u w d m = rw (get-insert u w d m) (ground arith)

-- Pruning at `now` is not seen later.
seen_within-retain :
    (window now t : ℕ) (k : DeviceKey) (m : HashMap DeviceKey ℕ)
    → Unique m
    → now ≤ t
    → seen_within window t (get k (retain (is_live window now) m)) ≡ seen_within window t (get k m)
seen_within-retain window now t k m v h = elim (Option-cases (get k m)) [
  | inl e ↦ rw (get-retain (is_live window now) k m v, e)
  | inr (seen, e) ↦ rw (get-retain (is_live window now) k m v, e) (ground arith)
]

seen_within-insert :
    (window now t : ℕ) (j k : DeviceKey) (m : HashMap DeviceKey ℕ)
    → seen_within window t (get k (insert j now m))
      ≡ (if key_eq j k then leb (t - now) window else seen_within window t (get k m))
seen_within-insert window now t j k m = rw (get-insert j k now m) (ground arith)

module _ (u now : ℕ) (ip : IpAddr) (l : DeviceLimiter) where
  abbrev pub key : DeviceKey
  key = normalize_ip l.prefix_v4 l.prefix_v6 ip

  -- The devices that the user has after the check.
  recorded : HashMap DeviceKey ℕ
  recorded =
      let live = live_devices l u now in if refused l u key live then live else insert key now live

  check_and_record_lem : check_and_record u ip now l ≡ (
    record l { user_devices = insert u recorded l.user_devices },
    not (refused l u key (live_devices l u now)),
  )
  unfolding check_and_record recorded
  check_and_record_lem = elim (Bool-cases (refused l u key (live_devices l u now))) [
    | inl e ↦ rw e
    | inr e ↦ rw e
  ]

  recorded-Unique : Unique (or_default (get u l.user_devices)) → Unique recorded
  unfolding recorded live_devices
  recorded-Unique v =
      let live =
        retain-Unique (is_live l.window_duration now) (or_default (get u l.user_devices)) v in
      elim (Bool-cases (refused l u key (live_devices l u now))) [
        | inl e ↦ rw e live
        | inr e ↦ rw e (insert-Unique key now _ live)
      ]

  -- A check keeps every user's table of devices free of repeated devices.
  pub check_and_record-IsValid : IsValid l → IsValid (check_and_record u ip now l).0
  check_and_record-IsValid v w =
      rw (check_and_record_lem, devices-insert u w recorded l.user_devices)
        (elim (Bool-cases (u == w)) [ inl e ↦ rw e (recorded-Unique (v u)) | inr e ↦ rw e (v w) ])

  seen_within-recorded :
      (t : ℕ) (k : DeviceKey)
      → IsValid l
      → now ≤ t
      → seen_within l.window_duration t (get k recorded) ≡ (
          if not (refused l u key (live_devices l u now)) && key_eq key k
          then leb (t - now) l.window_duration
          else is_online l u k t)
  unfolding recorded live_devices
  seen_within-recorded t k v h =
      let same =
        seen_within-retain l.window_duration now t k (or_default (get u l.user_devices)) (v u) h in
      elim (Bool-cases (refused l u key (live_devices l u now))) [
        | inl e ↦ rw e same
        | inr e ↦
            rw (e, seen_within-insert l.window_duration now t key k (live_devices l u now), same)
      ]

  -- A check that passes makes the device online for as long as the window, and changes no other;
  -- a check that is refused changes none. Both at every time from `now` on.
  pub check_and_record-is_online :
      (t w : ℕ) (k : DeviceKey)
      → IsValid l
      → now ≤ t
      → is_online (check_and_record u ip now l).0 w k t ≡ (
          if (check_and_record u ip now l).1 && (u == w && key_eq key k)
          then leb (t - now) l.window_duration
          else is_online l w k t)
  check_and_record-is_online t w k v h =
      rw (check_and_record_lem, devices-insert u w recorded l.user_devices)
        (elim (Bool-cases (u == w)) [
          | inl e ↦ rw (e, seen_within-recorded t k v h, (==_iff u w).0 e)
          | inr e ↦ rw e (ground arith)
        ])

  -- With the remote devices counted in, a user that is within its limit stays within it.
  pub check_and_record-within_limit :
      (max_dev : ℕ)
      → get u l.user_limits ≡ some max_dev
      → max_dev < 2 ^ 32
      → length (live_devices l u now) + or_zero (get u l.global_alive) ≤ max_dev
      → length (or_default (get u (check_and_record u ip now l).0.user_devices))
          + or_zero (get u l.global_alive)
        ≤ max_dev
  check_and_record-within_limit max_dev limit small within =
      rw (check_and_record_lem, devices-insert u u recorded l.user_devices, ==_self u)
        (unfold recorded refused in
          ground (arith, limit, length-insert key now (live_devices l u now)))
