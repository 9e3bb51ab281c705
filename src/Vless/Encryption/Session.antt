-- ===== src/Vless/Encryption/Session.antt =====
-- src/protocol/vless/encryption/session.rs: the tickets of sessions, and the keys that each has
-- seen. An `Instant` is in nanoseconds and an argument of each operation.
pub mod Invariant
pub mod Replay
use elise_backend.Prelude.{
  ℕ, ◌+◌, ◌-◌, ◌*◌, ◌^◌, Bool, true, false, ◌||◌, Option, none, some, List, [], ◌∷◌, ltb, leb,
  if◌then◌else◌, length,
}
use elise_backend.Prelude.Map.{HashMap, get, insert, retain, bytes_eq_instance}

abbrev pub max_sessions : ℕ
max_sessions = 16384

abbrev pub max_nfs_keys_per_session : ℕ
max_nfs_keys_per_session = 256

abbrev pub sweep_interval : ℕ
sweep_interval = 30 * 10 ^ 9

pub record ServerSession : Type 0 where
  pub pfs_key : List ℕ
  pub nfs_keys : HashMap (List ℕ) (Unit {0})
  pub expires_at : ℕ

pub record SessionStore : Type 0 where
  pub sessions : HashMap (List ℕ) ServerSession
  pub last_sweep : ℕ

abbrev pub new_store : ℕ → SessionStore
new_store now = record { sessions = []; last_sweep = now }

abbrev pub is_live : ℕ → List ℕ → ServerSession → Bool
is_live now ticket s = ltb now s.expires_at

-- The tickets that have expired go at times, and when the store is full.
unfoldable pub sweep : ℕ → SessionStore → SessionStore
sweep now s =
    if ltb sweep_interval (now - s.last_sweep) || leb max_sessions (length s.sessions)
    then record { sessions = retain (is_live now) s.sessions; last_sweep = now }
    else s

-- A full store takes no ticket.
unfoldable pub insert_ticket : List ℕ → List ℕ → ℕ → ℕ → SessionStore → SessionStore
unfolding sweep
insert_ticket ticket pfs_key ttl now s =
    let swept = sweep now s in
    if leb max_sessions (length swept.sessions) then swept else record swept {
      sessions =
          insert ticket (record { pfs_key = pfs_key; nfs_keys = []; expires_at = now + ttl })
            swept.sessions;
    }

-- `Result<[u8; 64], SessionError>`
pub data Validated : Type 0 where
  granted : List ℕ → Validated
  expired_ticket : Validated
  replay_detected : Validated

-- The result for a session, and the session behind it.
unfoldable pub record_nfs_key : List ℕ → ServerSession → Validated × ServerSession
record_nfs_key nfs_key s =
    if leb max_nfs_keys_per_session (length s.nfs_keys)
    then (replay_detected, s)
    else elim (get nfs_key s.nfs_keys) [
      | some seen ↦ (replay_detected, s)
      | none ↦ (granted s.pfs_key, record s { nfs_keys = insert nfs_key tt s.nfs_keys })
    ]

-- What is found under the ticket.
unfoldable pub validated :
    List ℕ → List ℕ → ℕ → SessionStore → Option ServerSession → Validated × SessionStore
unfolding record_nfs_key
validated ticket nfs_key now store none = (expired_ticket, store)
validated ticket nfs_key now store (some s) =
    let r = record_nfs_key nfs_key s in
    if is_live now ticket s
    then (r.0, record store { sessions = insert ticket r.1 store.sessions })
    else (expired_ticket, store)

unfoldable pub validate_and_record_nfs_key :
    List ℕ → List ℕ → ℕ → SessionStore → Validated × SessionStore
unfolding validated
validate_and_record_nfs_key ticket nfs_key now store =
    validated ticket nfs_key now store (get ticket store.sessions)

abbrev pub clear : SessionStore → SessionStore
clear s = record s { sessions = [] }
