-- ===== src/AnyTls/Session/Invariant.antt =====
-- src/protocol/anytls/session.rs: the table of streams, however frames and the ends of workers mix.
use mathlib.Core.Path.{subst}
use elise_backend.Prelude.{
  ℕ, ◌≤◌, ◌<◌, ◌≡◌, ◌≢◌, refl, sym, ap, ◌∙◌, Bool, true, false, not, Option, none, some, List, [],
  ◌∷◌, ltb, leb, ◌==◌, if◌then◌else◌, arith, length, Io, ok, err, panic, Safe, ltb→lt, leb→lt,
  ==_iff,
}
use elise_backend.Prelude.Map.{
  get, insert, remove, Unique, nat_eq, get-insert, get-remove, insert-Unique, remove-Unique,
  length-insert, length-remove,
}
use elise_backend.AnyTls.Session.{
  Frame, StreamState, waiting_for_destination, active, Session, new_session, Effect, deliver,
  Handled, next, failed, panicked, Services, Target, max_concurrent_streams, parse_socks5_addr,
  handle_settings, handle_syn, open_stream, handle_psh, handle_frame,
}
use elise_backend.AnyTls.Session.Address.{parse_socks5_addr-Safe}

pub record IsValid (s : Session) : Type 0 where
  pub bounded : (id : ℕ) (st : StreamState) → get id s.streams ≡ some st → id ≤ s.last_stream_id
  pub few : length s.streams ≤ max_concurrent_streams
  pub unique : Unique s.streams

-- A stream that is closed in `s` is closed in `t`.
abbrev pub StaysClosed : Session → Session → Type 0
StaysClosed s t =
    (id : ℕ) → id ≤ s.last_stream_id → get id s.streams ≡ none → get id t.streams ≡ none

abbrev pub Goes : Session → Session → Type 0
Goes s t = IsValid t × (s.last_stream_id ≤ t.last_stream_id) × StaysClosed s t

abbrev After : Session → Handled → Type 0
After s (next t effects) = Goes s t
After s (failed effects) = Unit
After s panicked = ⊥

-- A step that leaves the streams and the last id alone.
kept :
    (s t : Session)
    → IsValid s
    → t.streams ≡ s.streams
    → t.last_stream_id ≡ s.last_stream_id
    → Goes s t
kept s t h q r = (
  record {
    bounded = λ id st e. rw r (h.bounded id st (ap (get id) (sym q) ∙ e));
    few = rw q h.few;
    unique = rw q h.unique;
  },
  omega (arith, r),
  λ id k e. ap (get id) q ∙ e,
)

removed : (s : Session) (k : ℕ) → IsValid s → Goes s (record s { streams = remove k s.streams })
removed s k h = (
  record {
    bounded = λ id st e. ground (arith, get-remove k id s.streams, h.bounded id st, e);
    few = omega (arith, h.few, length-remove k s.streams);
    unique = remove-Unique k s.streams h.unique;
  },
  omega arith,
  λ id q e. ground (arith, get-remove k id s.streams, e),
)

same_length :
    (s : Session) (k : ℕ) (st : StreamState)
    → get k s.streams ≡ some waiting_for_destination
    → length (insert k st s.streams) ≡ length s.streams
same_length s k st e = length-insert k st s.streams ∙ rw e refl

-- An open stream changes its state.
changed :
    (s : Session) (k : ℕ) (st : StreamState)
    → IsValid s
    → get k s.streams ≡ some waiting_for_destination
    → Goes s (record s { streams = insert k st s.streams })
changed s k st h e = (
  record {
    bounded = λ id st' q. ground (
      arith,
      get-insert k id st s.streams,
      h.bounded id st',
      h.bounded k waiting_for_destination e,
      q,
      ==_iff k id,
    );
    few = omega (arith, h.few, same_length s k st e);
    unique = insert-Unique k st s.streams h.unique;
  },
  omega arith,
  λ id q n. ground (arith, get-insert k id st s.streams, ==_iff k id, e, n),
)

opened :
    (s : Session) (k : ℕ)
    → IsValid s
    → s.last_stream_id < k
    → length s.streams < max_concurrent_streams
    → Goes s (record s { last_stream_id = k; streams = insert k waiting_for_destination s.streams })
opened s k h q room = (
  record {
    bounded = λ id st e.
        ground (
          arith,
          get-insert k id waiting_for_destination s.streams,
          h.bounded id st,
          e,
          ==_iff k id,
        );
    few = ground (arith, length-insert k waiting_for_destination s.streams);
    unique = insert-Unique k waiting_for_destination s.streams h.unique;
  },
  omega (arith, q),
  λ id p n. ground (arith, get-insert k id waiting_for_destination s.streams, ==_iff k id, n, p, q),
)

module _ (v : Services) where
  handle_settings-After :
      (s : Session) (payload : List ℕ) → IsValid s → After s (handle_settings v s payload)
  unfolding handle_settings
  handle_settings-After s payload h = kept s _ h refl refl

  if-After :
      (s : Session) (b : Bool) (h k : Handled)
      → (b ≡ true → After s h)
      → (b ≡ false → After s k)
      → After s (if b then h else k)
  if-After s true h k p q = p refl
  if-After s false h k p q = q refl

  handle_syn-After : (s : Session) (stream_id : ℕ) → IsValid s → After s (handle_syn v s stream_id)
  unfolding handle_syn
  handle_syn-After s stream_id h =
      if-After s (not s.settings_received) _ _ (λ _. tt)
        (λ _.
          if-After s (leb stream_id s.last_stream_id) _ _ (λ _. tt)
            (λ above.
              if-After s (ltb (length s.streams) max_concurrent_streams) _ _
                (λ room.
                  opened s stream_id h (leb→lt stream_id s.last_stream_id above)
                    (ltb→lt (length s.streams) max_concurrent_streams room))
                (λ full. (
                  record {
                    bounded = λ id st e.
                        omega (arith, h.bounded id st e, leb→lt stream_id s.last_stream_id above);
                    few = h.few;
                    unique = h.unique;
                  },
                  omega (arith, leb→lt stream_id s.last_stream_id above),
                  λ id q n. n,
                ))))

  open_stream-After :
      (s : Session) (k : ℕ) (o : Io (Option Target))
      → IsValid s
      → get k s.streams ≡ some waiting_for_destination
      → Safe (λ _. Unit {0}) o
      → After s (open_stream v s k o)
  unfolding open_stream
  open_stream-After s k (ok (some target)) h e fine = changed s k active h e
  open_stream-After s k (ok none) h e fine = removed s k h
  open_stream-After s k (err x) h e fine = tt
  open_stream-After s k panic h e fine = fine

  handle_psh-After :
      (s : Session) (k : ℕ) (payload : List ℕ) → IsValid s → After s (handle_psh v s k payload)
  unfolding handle_psh
  handle_psh-After s k payload h = found (get k s.streams) refl
    where
      found :
          (o : Option StreamState)
          → get k s.streams ≡ o
          → After s (elim o [
            | none ↦ next s []
            | some waiting_for_destination ↦ open_stream v s k (parse_socks5_addr v.lossy payload)
            | some active ↦ next s (deliver k payload ∷ [])
          ])
      found none e = kept s s h refl refl
      found (some waiting_for_destination) e =
          open_stream-After s k _ h e (parse_socks5_addr-Safe v.lossy payload)
      found (some active) e = kept s s h refl refl

  handle_frame-After : (s : Session) (f : Frame) → IsValid s → After s (handle_frame v s f)
  unfolding handle_frame
  handle_frame-After s f h =
      if-After s (f.command == 4) _ _ (λ _. handle_settings-After s f.payload h)
        (λ _.
          if-After s (f.command == 1) _ _ (λ _. handle_syn-After s f.stream_id h)
            (λ _.
              if-After s (f.command == 2) _ _ (λ _. handle_psh-After s f.stream_id f.payload h)
                (λ _.
                  if-After s (f.command == 3) _ _ (λ _. removed s f.stream_id h)
                    (λ _.
                      if-After s (f.command == 8) _ _ (λ _. kept s s h refl refl)
                        (λ _. kept s s h refl refl)))))

-- A frame that is handled, or a worker that ends and removes its stream, in any order.
pub data Step (v : Services) (s : Session) : Session → Type 0 where
  frame :
      (f : Frame) {t : Session} {effects : List Effect}
      → handle_frame v s f ≡ next t effects
      → Step v s t
  ended : (stream_id : ℕ) → Step v s (record s { streams = remove stream_id s.streams })

pub data Reach (v : Services) (s : Session) : Session → Type 0 where
  here : Reach v s s
  later : {t u : Session} → Reach v s t → Step v t u → Reach v s u

Step-Goes : (v : Services) {s t : Session} → Step v s t → IsValid s → Goes s t
Step-Goes v {s} (frame f {t} {effects} e) h = subst (After s) e (handle_frame-After v s f h)
Step-Goes v {s} (ended k) h = removed s k h

Goes-trans : (s t u : Session) → Goes s t → Goes t u → Goes s u
Goes-trans s t u p q =
    (q.0, omega (arith, p.1, q.1), λ id k n. q.2 id (omega (arith, k, p.1)) (p.2 id k n))

Reach-Goes : (v : Services) (s : Session) {t : Session} → IsValid s → Reach v s t → Goes s t
Reach-Goes v s h here = kept s s h refl refl
Reach-Goes v s h (later {t} {u} r st) =
    let p = Reach-Goes v s h r in Goes-trans s t u p (Step-Goes v st (p.0))

new_session-IsValid : IsValid new_session
unfolding get
new_session-IsValid = record { bounded = λ id st e. cc; few = omega arith; unique = tt }

-- However frames and the ends of workers mix, a session has at most 1024 streams, one entry for
-- each, with ids up to the last that was opened; and an id whose stream is closed is never opened
-- again, so a worker that ends late removes no stream but its own.
pub Reach-IsValid :
    (v : Services) {s t : Session}
    → Reach v new_session s
    → Reach v s t
    → IsValid s × StaysClosed s t
Reach-IsValid v {s} {t} r q =
    let h = (Reach-Goes v new_session new_session-IsValid r).0 in (h, (Reach-Goes v s h q).2)

-- No frame makes a session panic, in any state that frames and the ends of workers lead to.
pub handle_frame-ne-panicked :
    (v : Services) {s : Session} (f : Frame) → Reach v new_session s → handle_frame v s f ≢ panicked
handle_frame-ne-panicked v {s} f r e =
    subst (After s) e (handle_frame-After v s f (Reach-Goes v new_session new_session-IsValid r).0)
