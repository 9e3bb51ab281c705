-- ===== src/Limiter/Examples.antt =====
-- The limiters at concrete states, and the theorems about them there.
use elise_backend.Prelude.{
  ℕ, zero, suc, ap, ◌≡◌, ◌≤◌, ◌+◌, ◌*◌, ◌-◌, ◌^◌, refl, false, none, some, [], ◌∷◌, arith, length,
  ◌&&◌, ◌==◌, leb, if◌then◌else◌,
}
use elise_backend.Prelude.Net.{v4, ip_eq_instance}
use elise_backend.Prelude.Map.{HashMap, nat_eq, Unique, get, insert, remove, retain}
use elise_backend.Prelude.Map
use elise_backend.Prelude.Threads.{update, tally}
use elise_backend.Limiter.Connection.{
  idle, called, guard, new, set_user_limit, step, prune_idle, read_limit, get_counter,
  insert_counter, compare_exchange,
}
use elise_backend.Limiter.Device
use elise_backend.Limiter.Device.Online
use elise_backend.Limiter.IpCache
use elise_backend.Limiter.IpCache.Restart
use elise_backend.Limiter.Connection.System.{
  System, run_thread, call, run, set, init, Reach, start, later,
}
use elise_backend.Limiter.Connection.Invariant.{target, holds}
use elise_backend.Limiter.Connection.Safety.{
  holds_for, guards-le-limit, prune_keeps_owned, prune_idle-quiescent,
}

-- Every user may hold one guard.
abbrev one_each : ℕ → ℕ
one_each _ = 1

-- Thread 0 has called `try_acquire` for user 7, whose limit is set.
abbrev called_state : System
called_state =
    let s : System = record init { limiter = set_user_limit 7 1 init.limiter } in
    record s { pc = update s.pc 0 (called 7) }

abbrev turns : ℕ → System → System
turns zero s = s
turns (suc k) s = run_thread false 0 (turns k s)

called_state-Reach : Reach 1 one_each called_state
called_state-Reach =
    later (later start (set init 7 1 (omega arith))) (call _ 0 7 (omega arith) refl)

turns-Reach : (k : ℕ) → Reach 1 one_each (turns k called_state)
turns-Reach zero = called_state-Reach
turns-Reach (suc k) = later (turns-Reach k) (run (turns k called_state) 0 false (omega arith))

-- The thread holds a guard after five steps, and is idle again after seven.
held : (turns 5 called_state).pc 0 ≡ guard 7 0
unfolding run_thread step read_limit get_counter insert_counter compare_exchange set_user_limit new
held = refl

guards-le-limit_example : tally (holds_for 7) 1 (turns 5 called_state).pc ≤ one_each 7
guards-le-limit_example = guards-le-limit (turns-Reach 5) 7

prune_keeps_owned_example :
    ((prune_idle 1 (turns 5 called_state).pc (turns 5 called_state).limiter).active_conns 7
      ≡ some 0)
    × (holds 0 ((turns 5 called_state).pc 0) ≤ (turns 5 called_state).limiter.counter 0)
prune_keeps_owned_example = prune_keeps_owned (turns-Reach 5) 0 7 0 (ap target held)

all_idle : (i : ℕ) → (turns 7 called_state).pc i ≡ idle
unfolding run_thread step read_limit get_counter insert_counter compare_exchange set_user_limit new
all_idle zero = refl
all_idle (suc i) = let e : (0 == suc i) ≡ false = ground arith in rw e refl

prune_idle-quiescent_example :
    ((prune_idle 1 (turns 7 called_state).pc (turns 7 called_state).limiter).active_conns 7 ≡ none)
    × ((turns 7 called_state).limiter.counter 0 ≡ 0)
prune_idle-quiescent_example = prune_idle-quiescent (turns-Reach 7) all_idle 7 0

-- Two devices allowed, one of them on a remote node.
abbrev two_devices : Device.DeviceLimiter
two_devices = record (Device.new 60 24 64) { user_limits = (7, 2) ∷ []; global_alive = (7, 1) ∷ [] }

two_devices-IsValid : Online.IsValid two_devices
two_devices-IsValid u = unfold Device.new get in tt

abbrev minute : ℕ
minute = 60 * 10 ^ 9

check_and_record-is_online_example :
    Online.is_online
      (Device.check_and_record 7 (v4 0x0a000001) 5 two_devices).0
      7
      (Device.network (v4 0x0a000000) 24)
      minute
    ≡ (if (Device.check_and_record 7 (v4 0x0a000001) 5 two_devices).1
          && (7 == 7
              && Device.key_eq
                  (Online.key 7 5 (v4 0x0a000001) two_devices)
                  (Device.network (v4 0x0a000000) 24))
        then leb (minute - 5) two_devices.window_duration
        else Online.is_online two_devices 7 (Device.network (v4 0x0a000000) 24) minute)
check_and_record-is_online_example =
    Online.check_and_record-is_online 7 5 (v4 0x0a000001) two_devices minute 7
      (Device.network (v4 0x0a000000) 24) two_devices-IsValid (omega arith)

check_and_record-within_limit_example :
    length (
        Device.or_default
          (get 7 (Device.check_and_record 7 (v4 0x0a000001) 5 two_devices).0.user_devices))
      + Device.or_zero (get 7 two_devices.global_alive)
    ≤ 2
check_and_record-within_limit_example =
    Online.check_and_record-within_limit 7 5 (v4 0x0a000001) two_devices 2
      (unfold Device.new get in refl) (omega arith)
      (unfold Device.new Device.live_devices get retain in omega arith)

abbrev alice_at : ℕ → IpCache.IpUserCache
alice_at now = IpCache.insert (v4 1) 42 now (IpCache.new 24)

alice-Unique : Unique (alice_at (5 * 10 ^ 9)).cache
alice-Unique = unfold IpCache.insert IpCache.new insert get in (refl, tt)

get-load-save_example :
    IpCache.get (v4 1) (2 * 10 ^ 9) (
      IpCache.load_from_disk 1010
        (2 * 10 ^ 9)
        (IpCache.save_to_disk 1000 (7 * 10 ^ 9) (alice_at (5 * 10 ^ 9)))
        (record { ttl = (alice_at (5 * 10 ^ 9)).ttl; cache = [] }))
    ≡ elim (Map.get (v4 1) (alice_at (5 * 10 ^ 9)).cache) [
      | none ↦ none
      | some (u, i) ↦
          if IpCache.is_fresh (alice_at (5 * 10 ^ 9)).ttl (7 * 10 ^ 9) i
            && leb (Restart.saved_age 1000 (7 * 10 ^ 9) 1010 i * 10 ^ 9) (alice_at (5 * 10 ^ 9)).ttl
          then some u
          else none
    ]
get-load-save_example =
    Restart.get-load-save (v4 1) 1000 (7 * 10 ^ 9) 1010 (2 * 10 ^ 9) (alice_at (5 * 10 ^ 9))
      alice-Unique
