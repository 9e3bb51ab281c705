-- ===== src/Naive/Padding/Run.antt =====
-- src/protocol/naive/padding.rs: polls for writing, one after the other, and what a reader at the
-- other end holds then.
use mathlib.Core.Path.{subst}
use mathlib.Core.Option.{map}
use mathlib.Core.List.{append_assoc, append-nil}
use elise_backend.Prelude.{
  ℕ, ◌≡◌, refl, sym, ap, ◌∙◌, Bool, List, [], ◌∷◌, ◌++◌, Option, none, some, take, ErrorKind,
}
use elise_backend.Naive.Padding.{
  Event, NaivePaddedStream, new_stream, ready, pending, failed, write_zero, Polled, poll_write,
}
use elise_backend.Naive.Padding.Reader.{Framed, ended, Holds, Good, FailsIn}
use elise_backend.Naive.Padding.Writer.{outgoing, Writes, poll_write-Writes, same_left}

-- What a caller makes of a poll, and the polls behind it; it gives the stream up when one fails.
unfoldable next_poll :
    (NaivePaddedStream → List Event → Option (List ℕ × NaivePaddedStream))
    → List ℕ
    → Polled ℕ
    → Option (List ℕ × NaivePaddedStream)
next_poll next bytes (ready n, s, events) = map (λ r. (take n bytes ++ r.0, r.1)) (next s events)
next_poll next bytes (pending, s, events) = next s events
next_poll next bytes (failed e, s, events) = none
next_poll next bytes (write_zero, s, events) = none

-- Polls for writing, one after the other: the bytes that are accepted, and the stream. The number
-- of each is the random one of its padding.
unfoldable pub write_polls :
    List (ℕ × List ℕ) → NaivePaddedStream → List Event → Option (List ℕ × NaivePaddedStream)
unfolding next_poll
write_polls [] s events = some ([], s)
write_polls (call ∷ more) s events =
    next_poll (write_polls more) call.1 (poll_write call.0 call.1 s events)

-- The bytes put on the way carry the accepted ones.
abbrev Carries : NaivePaddedStream → NaivePaddedStream → List ℕ → Type 0
Carries s t accepted =
    (added : List ℕ) × (outgoing t ≡ outgoing s ++ added)
    × ((rest p : List ℕ)
        → Framed t.writes_padded_left rest p
        → Framed s.writes_padded_left (added ++ rest) (accepted ++ p))

abbrev Runs : List Event → NaivePaddedStream → Option (List ℕ × NaivePaddedStream) → Type 0
Runs before s none = (e : ErrorKind) × FailsIn e before
Runs before s (some (accepted, t)) = Carries s t accepted

same_bytes : {left : ℕ} {s s' p p' : List ℕ} → s ≡ s' → p ≡ p' → Framed left s' p' → Framed left s p
same_bytes {left} {s} {s'} {p} {p'} e f c =
    subst (λ x. Framed left x p) (sym e) (subst (λ x. Framed left s' x) (sym f) c)

Carries-trans :
    (s t u : NaivePaddedStream) (a b : List ℕ)
    → Carries s t a
    → Carries t u b
    → Carries s u (a ++ b)
Carries-trans s t u a b (x, o, f) (y, o', f') = (
  x ++ y,
  o' ∙ ap (λ l. l ++ y) o ∙ append_assoc (outgoing s) x y,
  (λ rest p c.
      same_bytes (append_assoc x y rest) (append_assoc a b p)
        (f (y ++ rest) (b ++ p) (f' rest p c))),
)

next-Runs :
    (before events : List Event) (s t : NaivePaddedStream) (bytes : List ℕ)
    (r : Option (List ℕ × NaivePaddedStream))
    → ((e : ErrorKind) → FailsIn e events → FailsIn e before)
    → Carries s t bytes
    → Runs events t r
    → Runs before s (map (λ x. (bytes ++ x.0, x.1)) r)
next-Runs before events s t bytes none f c (e, h) = (e, f e h)
next-Runs before events s t bytes (some (accepted, u)) f c h =
    Carries-trans s t u bytes accepted c h

idle-Runs :
    (before events : List Event) (s t : NaivePaddedStream) (r : Option (List ℕ × NaivePaddedStream))
    → ((e : ErrorKind) → FailsIn e events → FailsIn e before)
    → outgoing t ≡ outgoing s
    → t.writes_padded_left ≡ s.writes_padded_left
    → Runs events t r
    → Runs before s r
idle-Runs before events s t none f o w (e, h) = (e, f e h)
idle-Runs before events s t (some (accepted, u)) f o w (added, o', c) =
    (added, o' ∙ ap (λ l. l ++ added) o, (λ rest p q. same_left w (c rest p q)))

next_poll-Runs :
    (before : List Event) (s : NaivePaddedStream) (bytes : List ℕ)
    (next : NaivePaddedStream → List Event → Option (List ℕ × NaivePaddedStream)) (r : Polled ℕ)
    → ((t : NaivePaddedStream) (events : List Event) → Good events → Runs events t (next t events))
    → Writes before bytes s r
    → Runs before s (next_poll next bytes r)
unfolding next_poll
next_poll-Runs before s bytes next (ready n, t, events) again (added, o, c, g, f) =
    next-Runs before events s t (take n bytes) (next t events) f (added, o, c) (again t events g)
next_poll-Runs before s bytes next (pending, t, events) again (o, w, g, f) =
    idle-Runs before events s t (next t events) f o w (again t events g)
next_poll-Runs before s bytes next (failed e, t, events) again h = (e, h)
next_poll-Runs before s bytes next (write_zero, t, events) again h = absurd h

write_polls-Runs :
    (calls : List (ℕ × List ℕ)) (s : NaivePaddedStream) (events : List Event)
    → Good events
    → Runs events s (write_polls calls s events)
unfolding write_polls
write_polls-Runs [] s events g = ([], sym (append-nil (outgoing s)), (λ rest p c. c))
write_polls-Runs (call ∷ more) s events g =
    next_poll-Runs events s (call.1) (write_polls more) (poll_write call.0 call.1 s events)
      (λ t ev h. write_polls-Runs more t ev h) (poll_write-Writes call.0 call.1 s events g)

-- What the runs promise a reader at the other end.
abbrev pub Delivers : Bool → List Event → Option (List ℕ × NaivePaddedStream) → Type 0
Delivers padding before none = (e : ErrorKind) × FailsIn e before
Delivers padding before (some (accepted, t)) =
    Holds (new_stream (t.sink ++ t.write_buf) padding) accepted

delivered :
    (padding : Bool) (events : List Event) (r : Option (List ℕ × NaivePaddedStream))
    → Runs events (new_stream [] padding) r
    → Delivers padding events r
delivered padding events none h = h
delivered padding events (some (accepted, t)) (added, o, c) = (
  accepted,
  refl,
  same_bytes (o ∙ sym (append-nil added)) (sym (append-nil accepted)) (c [] [] (ended refl refl)),
)

-- Whatever is written to a new stream, with or without padding and with any random padding lengths,
-- while the inner stream takes the bytes of a frame in any pieces: the bytes that reached the inner
-- stream, with those that are still buffered, are ones from which a new stream at the other end
-- reads what was accepted; a poll fails only if one of the inner stream does.
pub write_polls-Delivers :
    (padding : Bool) (calls : List (ℕ × List ℕ)) (events : List Event)
    → Good events
    → Delivers padding events (write_polls calls (new_stream [] padding) events)
write_polls-Delivers padding calls events g =
    delivered padding events (write_polls calls (new_stream [] padding) events)
      (write_polls-Runs calls (new_stream [] padding) events g)
