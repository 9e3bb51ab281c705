-- ===== src/Vless/Encryption/Session/Replay.antt =====
-- src/protocol/vless/encryption/session.rs: a key is granted once for a ticket.
use mathlib.Core.Path.{subst}
use elise_backend.Prelude.{
  ℕ, ◌≡◌, ◌≢◌, refl, sym, ap, ◌∙◌, Bool, true, false, Option, none, some, List, [], ◌∷◌, arith,
}
use elise_backend.Prelude.Map.{get, bytes_eq_instance, get-insert, get-insert_self}
use elise_backend.Vless.Encryption.Session.{
  ServerSession, SessionStore, granted, expired_ticket, replay_detected, is_live, record_nfs_key,
  validated, validate_and_record_nfs_key,
}
use elise_backend.Vless.Encryption.Session.Invariant.{
  At, Operation, inserts, validates, clears, perform, perform_all, Every, IsValid, perform-IsValid,
  validate-Every, insert_ticket-Every,
}

-- The session of the ticket has seen the key.
abbrev Seen : List ℕ → List ℕ → List ℕ → ServerSession → Type 0
Seen ticket key t s = t ≡ ticket → get key s.nfs_keys ≡ some tt

abbrev pub Reissues : List ℕ → Operation → Type 0
Reissues ticket (inserts t pfs_key ttl now) = t ≡ ticket
Reissues ticket (validates t key now) = ⊥
Reissues ticket clears = ⊥

-- No operation issues the ticket anew.
abbrev pub KeepsTicket : List ℕ → List Operation → Type 0
KeepsTicket ticket [] = Unit
KeepsTicket ticket (o ∷ os) = (¬ Reissues ticket o) × KeepsTicket ticket os

record_nfs_key-Seen :
    (ticket key other : List ℕ) (t : List ℕ) (s : ServerSession)
    → Seen ticket key t s
    → Seen ticket key t (record_nfs_key other s).1
unfolding record_nfs_key
record_nfs_key-Seen ticket key other t s h e =
    ground (arith, h e, get-insert other key tt s.nfs_keys)

perform-Seen :
    (ticket key : List ℕ) (o : Operation) (s : SessionStore)
    → IsValid s
    → (¬ Reissues ticket o)
    → Every (Seen ticket key) s
    → Every (Seen ticket key) (perform o s)
unfolding get
perform-Seen ticket key (inserts t pfs_key ttl now) s v fresh h =
    insert_ticket-Every (Seen ticket key) t pfs_key ttl now s (v.0) (λ e. absurd (fresh e)) h
perform-Seen ticket key (validates t other now) s v fresh h =
    validate-Every (Seen ticket key) t other now s (record_nfs_key-Seen ticket key other t) h
perform-Seen ticket key clears s v fresh h = λ t. tt

perform_all-Seen :
    (ticket key : List ℕ) (os : List Operation) (s : SessionStore)
    → IsValid s
    → KeepsTicket ticket os
    → Every (Seen ticket key) s
    → Every (Seen ticket key) (perform_all os s)
perform_all-Seen ticket key [] s v fresh h = h
perform_all-Seen ticket key (o ∷ os) s v fresh h =
    perform_all-Seen ticket key os (perform o s) (perform-IsValid o s v) (fresh.1)
      (perform-Seen ticket key o s v (fresh.0) h)

Used : List ℕ → ServerSession → Type 0
Used key s = get key s.nfs_keys ≡ some tt

ticket-Seen :
    (ticket key : List ℕ) (s : SessionStore)
    → At (Used key) (get ticket s.sessions)
    → Every (Seen ticket key) s
unfolding Used
ticket-Seen ticket key s h t = by_get (get t s.sessions) refl
  where
    by_get : (o : Option ServerSession) → get t s.sessions ≡ o → At (Seen ticket key t) o
    by_get none q = tt
    by_get (some x) q = λ e. subst (At (Used key)) (ap (λ u. get u s.sessions) (sym e) ∙ q) h

not_granted : {A : Type 0} {k : List ℕ} → expired_ticket ≡ granted k → A
not_granted h = cc

not_a_replay : {A : Type 0} {k : List ℕ} → replay_detected ≡ granted k → A
not_a_replay h = cc

record_nfs_key-Used :
    (key k : List ℕ) (s : ServerSession)
    → (record_nfs_key key s).0 ≡ granted k
    → Used key (record_nfs_key key s).1
unfolding record_nfs_key Used
record_nfs_key-Used key k s h = ground (arith, h, get-insert_self key tt s.nfs_keys)

validated-Used :
    (ticket key k : List ℕ) (now : ℕ) (s : SessionStore) (o : Option ServerSession)
    → (validated ticket key now s o).0 ≡ granted k
    → At (Used key) (get ticket (validated ticket key now s o).1.sessions)
unfolding validated
validated-Used ticket key k now s none h = not_granted h
validated-Used ticket key k now s (some x) h = by_test (is_live now ticket x) refl
  where
    by_test :
        (b : Bool)
        → is_live now ticket x ≡ b
        → At (Used key) (get ticket (validated ticket key now s (some x)).1.sessions)
    by_test true e =
        rw (e, get-insert_self ticket (record_nfs_key key x).1 s.sessions)
          (record_nfs_key-Used key k x (ground (arith, e, h)))
    by_test false e = not_granted {k = k} (ground (arith, e, h))

Used-denied :
    (ticket key k : List ℕ) (now : ℕ) (s : SessionStore) (o : Option ServerSession)
    → At (Used key) o
    → (validated ticket key now s o).0 ≢ granted k
unfolding validated record_nfs_key Used
Used-denied ticket key k now s none h = not_granted
Used-denied ticket key k now s (some x) h = λ g. ground (arith, h, g)

-- A key that a ticket was granted for is refused for good: whatever happens to the store, as long
-- as the ticket is not issued anew.
pub granted_once :
    (ticket key : List ℕ) (now later : ℕ) (os : List Operation) (s : SessionStore) (k k' : List ℕ)
    → IsValid s
    → (validate_and_record_nfs_key ticket key now s).0 ≡ granted k
    → KeepsTicket ticket os
    → let s' = perform_all os (validate_and_record_nfs_key ticket key now s).1 in
      (validate_and_record_nfs_key ticket key later s').0 ≢ granted k'
unfolding validate_and_record_nfs_key Used
granted_once ticket key now later os s k k' v g fresh =
    let after : SessionStore = (validate_and_record_nfs_key ticket key now s).1 in
    let used = validated-Used ticket key k now s (get ticket s.sessions) g in
    let seen =
      perform_all-Seen ticket key os after (perform-IsValid (validates ticket key now) s v) fresh
        (ticket-Seen ticket key after used) in
    let s' : SessionStore = perform_all os after in
    Used-denied ticket key k' later s' (get ticket s'.sessions)
      (seen_there s' (get ticket s'.sessions) (seen ticket))
  where
    seen_there :
        (s' : SessionStore) (o : Option ServerSession)
        → At (Seen ticket key ticket) o
        → At (Used key) o
    seen_there s' none h = tt
    seen_there s' (some x) h = h refl
