-- ===== src/Vless/Encryption/Session/Invariant.antt =====
-- src/protocol/vless/encryption/session.rs: the bounds of the store.
use mathlib.Core.Path.{subst}
use elise_backend.Prelude.Text.{bytes_eq}
use elise_backend.Prelude.{
  ℕ, ◌+◌, ◌≤◌, ◌≡◌, refl, sym, Bool, true, false, Option, none, some, List, [], ◌∷◌, leb,
  if◌then◌else◌, arith, length,
}
use elise_backend.Prelude.Map.{
  get, insert, retain, bytes_eq_instance, bytes_eq_iff, Unique, get-retain, get-insert,
  insert-Unique, retain-Unique, length-insert, length-retain,
}
use elise_backend.Vless.Encryption.Session.{
  max_sessions, max_nfs_keys_per_session, ServerSession, SessionStore, new_store, is_live, sweep,
  insert_ticket, record_nfs_key, validated, validate_and_record_nfs_key, clear,
}

-- The operations of a store, each with the time at which it runs.
pub data Operation : Type 0 where
  inserts : List ℕ → List ℕ → ℕ → ℕ → Operation
  validates : List ℕ → List ℕ → ℕ → Operation
  clears : Operation

abbrev pub perform : Operation → SessionStore → SessionStore
perform (inserts ticket pfs_key ttl now) s = insert_ticket ticket pfs_key ttl now s
perform (validates ticket nfs_key now) s = (validate_and_record_nfs_key ticket nfs_key now s).1
perform clears s = clear s

abbrev pub perform_all : List Operation → SessionStore → SessionStore
perform_all [] s = s
perform_all (o ∷ os) s = perform_all os (perform o s)

abbrev pub Limited : ServerSession → Type 0
Limited s = length s.nfs_keys ≤ max_nfs_keys_per_session

abbrev pub At : (ServerSession → Type 0) → Option ServerSession → Type 0
At P none = Unit
At P (some s) = P s

-- What holds of the session of each ticket.
abbrev pub Every : (List ℕ → ServerSession → Type 0) → SessionStore → Type 0
Every P s = (ticket : List ℕ) → At (P ticket) (get ticket s.sessions)

-- One entry for each ticket, as many as there may be, and each with as many keys as it may have.
abbrev pub IsValid : SessionStore → Type 0
IsValid s = Unique s.sessions × (length s.sessions ≤ max_sessions) × Every (λ ticket x. Limited x) s

-- `P` holds of a new session, and still when a session records a key.
module _ (P : List ℕ → ServerSession → Type 0) where
  At-kept :
      (ticket : List ℕ) (keep : ServerSession → Bool) (o : Option ServerSession)
      → At (P ticket) o
      → At (P ticket) (elim o [ none ↦ none | some v ↦ if keep v then some v else none ])
  At-kept ticket keep none h = tt
  At-kept ticket keep (some v) h = by_test (keep v)
    where
      by_test : (b : Bool) → At (P ticket) (if b then some v else none)
      by_test true = h
      by_test false = tt

  pub sweep-Every :
      (now : ℕ) (s : SessionStore) → Unique s.sessions → Every P s → Every P (sweep now s)
  unfolding sweep
  sweep-Every now s u h = by_test _
    where
      by_test :
          (b : Bool)
          → Every P (
              if b
              then record { sessions = retain (is_live now) s.sessions; last_sweep = now }
              else s)
      by_test true ticket =
          subst (At (P ticket)) (sym (get-retain (is_live now) ticket s.sessions u))
            (At-kept ticket (is_live now ticket) (get ticket s.sessions) (h ticket))
      by_test false ticket = h ticket

  pub insert-Every :
      (ticket : List ℕ) (x : ServerSession) (s : SessionStore)
      → P ticket x
      → Every P s
      → Every P (record s { sessions = insert ticket x s.sessions })
  insert-Every ticket x s p h other =
      subst (At (P other)) (sym (get-insert ticket other x s.sessions))
        (by_test (bytes_eq ticket other) refl)
    where
      by_test :
          (b : Bool)
          → bytes_eq ticket other ≡ b
          → At (P other) (if b then some x else get other s.sessions)
      by_test true e = subst (λ t. P t x) ((bytes_eq_iff ticket other).0 e) p
      by_test false e = h other

  -- A session that records a key.
  pub validate-Every :
      (ticket key : List ℕ) (now : ℕ) (s : SessionStore)
      → ((x : ServerSession) → P ticket x → P ticket (record_nfs_key key x).1)
      → Every P s
      → Every P (validate_and_record_nfs_key ticket key now s).1
  unfolding validate_and_record_nfs_key
  validate-Every ticket key now s step h = by_get (get ticket s.sessions) (h ticket)
    where
      by_get :
          (o : Option ServerSession) → At (P ticket) o → Every P (validated ticket key now s o).1
      by_get none p = h
      by_get (some x) p = by_test (is_live now ticket x) refl
        where
          by_test :
              (b : Bool)
              → is_live now ticket x ≡ b
              → Every P (validated ticket key now s (some x)).1
          by_test true e = rw e (insert-Every ticket (record_nfs_key key x).1 s (step x p) h)
          by_test false e = rw e h

sweep-Unique : (now : ℕ) (s : SessionStore) → Unique s.sessions → Unique (sweep now s).sessions
unfolding sweep
sweep-Unique now s u = ground (arith, retain-Unique (is_live now) s.sessions)

sweep-length :
    (now : ℕ) (s : SessionStore)
    → length s.sessions ≤ max_sessions
    → length (sweep now s).sessions ≤ max_sessions
unfolding sweep
sweep-length now s h = ground (arith, length-retain (is_live now) s.sessions)

record_nfs_key-Limited :
    (key : List ℕ) (s : ServerSession) → Limited s → Limited (record_nfs_key key s).1
unfolding record_nfs_key
record_nfs_key-Limited key s h = ground (arith, length-insert key tt s.nfs_keys)

insert_ticket-Unique :
    (ticket pfs_key : List ℕ) (ttl now : ℕ) (s : SessionStore)
    → Unique s.sessions
    → Unique (insert_ticket ticket pfs_key ttl now s).sessions
unfolding insert_ticket
insert_ticket-Unique ticket pfs_key ttl now s u =
    let x : ServerSession = record { pfs_key = pfs_key; nfs_keys = []; expires_at = now + ttl } in
    ground (arith, sweep-Unique now s u, insert-Unique ticket x (sweep now s).sessions)

insert_ticket-length :
    (ticket pfs_key : List ℕ) (ttl now : ℕ) (s : SessionStore)
    → length s.sessions ≤ max_sessions
    → length (insert_ticket ticket pfs_key ttl now s).sessions ≤ max_sessions
unfolding insert_ticket
insert_ticket-length ticket pfs_key ttl now s h =
    let x : ServerSession = record { pfs_key = pfs_key; nfs_keys = []; expires_at = now + ttl } in
    ground (arith, sweep-length now s h, length-insert ticket x (sweep now s).sessions)

validate-Unique :
    (ticket key : List ℕ) (now : ℕ) (s : SessionStore)
    → Unique s.sessions
    → Unique (validate_and_record_nfs_key ticket key now s).1.sessions
unfolding validate_and_record_nfs_key
validate-Unique ticket key now s u = by_get (get ticket s.sessions)
  where
    by_get : (o : Option ServerSession) → Unique (validated ticket key now s o).1.sessions
    by_get none = u
    by_get (some x) = ground (arith, u, insert-Unique ticket (record_nfs_key key x).1 s.sessions)

validate-length :
    (ticket key : List ℕ) (now : ℕ) (s : SessionStore)
    → length s.sessions ≤ max_sessions
    → length (validate_and_record_nfs_key ticket key now s).1.sessions ≤ max_sessions
unfolding validate_and_record_nfs_key
validate-length ticket key now s h = by_get (get ticket s.sessions) refl
  where
    by_get :
        (o : Option ServerSession)
        → get ticket s.sessions ≡ o
        → length (validated ticket key now s o).1.sessions ≤ max_sessions
    by_get none e = h
    by_get (some x) e =
        ground (arith, h, e, length-insert ticket (record_nfs_key key x).1 s.sessions)

module _ (P : List ℕ → ServerSession → Type 0) where
  pub insert_ticket-Every :
      (ticket pfs_key : List ℕ) (ttl now : ℕ) (s : SessionStore)
      → Unique s.sessions
      → P ticket (record { pfs_key = pfs_key; nfs_keys = []; expires_at = now + ttl })
      → Every P s
      → Every P (insert_ticket ticket pfs_key ttl now s)
  unfolding insert_ticket
  insert_ticket-Every ticket pfs_key ttl now s u p h =
      by_test (leb max_sessions (length (sweep now s).sessions))
    where
      x : ServerSession
      x = record { pfs_key = pfs_key; nfs_keys = []; expires_at = now + ttl }

      by_test :
          (b : Bool)
          → Every P (
              if b
              then sweep now s
              else record (sweep now s) { sessions = insert ticket x (sweep now s).sessions })
      by_test true = sweep-Every P now s u h
      by_test false = insert-Every P ticket x (sweep now s) p (sweep-Every P now s u h)

pub new_store-IsValid : (now : ℕ) → IsValid (new_store now)
unfolding get
new_store-IsValid now = (tt, omega arith, λ ticket. tt)

-- Every operation keeps a store valid: at most 16384 tickets, each once, with at most 256 keys.
pub perform-IsValid : (o : Operation) (s : SessionStore) → IsValid s → IsValid (perform o s)
unfolding get
perform-IsValid (inserts ticket pfs_key ttl now) s (u, n, all) = (
  insert_ticket-Unique ticket pfs_key ttl now s u,
  insert_ticket-length ticket pfs_key ttl now s n,
  insert_ticket-Every (λ t x. Limited x) ticket pfs_key ttl now s u (omega arith) all,
)
perform-IsValid (validates ticket key now) s (u, n, all) = (
  validate-Unique ticket key now s u,
  validate-length ticket key now s n,
  validate-Every (λ t x. Limited x) ticket key now s (record_nfs_key-Limited key) all,
)
perform-IsValid clears s v = (tt, omega arith, λ ticket. tt)
