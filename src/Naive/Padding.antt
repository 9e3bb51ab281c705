-- ===== src/Naive/Padding.antt =====
-- src/protocol/naive/padding.rs: `NaivePaddedStream` over an inner stream. What the polls of the
-- inner stream find is a list of events, one for each poll; a poll behind the last is pending.
pub mod Reader
pub mod Steps
pub mod Writer
pub mod Polls
pub mod Run
use elise_backend.Prelude.{
  ℕ, zero, suc, ◌+◌, ◌-◌, ◌*◌, ◌/◌, ◌%◌, ◌^◌, min, Bool, true, false, not, ◌&&◌, ◌||◌, List, [],
  ◌∷◌, ◌++◌, ltb, leb, ◌==◌, if◌then◌else◌, length, take, drop, ErrorKind, unexpected_eof,
}
use elise_backend.Prelude.Strings.{is_empty}

abbrev pub k_first_paddings : ℕ
k_first_paddings = 8

-- A poll of the inner stream moves at most so many bytes, finds it not ready, or fails.
pub data Event : Type 0 where
  moves : ℕ → Event
  idle : Event
  fails : ErrorKind → Event

-- `source` is what the inner stream still has to give, and `sink` what was written to it.
pub record NaivePaddedStream : Type 0 where
  pub source : List ℕ
  pub sink : List ℕ
  pub reads_padded_left : ℕ
  pub writes_padded_left : ℕ
  pub read_buf : List ℕ
  pub write_buf : List ℕ
  pub pending_data : List ℕ

abbrev pub new_stream : List ℕ → Bool → NaivePaddedStream
new_stream source padding_enabled =
    let count = if padding_enabled then k_first_paddings else 0 in
    record {
      source = source;
      sink = [];
      reads_padded_left = count;
      writes_padded_left = count;
      read_buf = [];
      write_buf = [];
      pending_data = [];
    }

-- `Poll<io::Result<_>>`
pub data Poll (A : Type 0) : Type 0 where
  ready : A → Poll A
  pending : Poll A
  failed : ErrorKind → Poll A
  write_zero : Poll A

-- A poll gives its result, the stream, and the events that are left.
abbrev pub Polled : Type 0 → Type 0
Polled A = Poll A × NaivePaddedStream × List Event

-- Bytes of a buffer go to the output, at most `room`; the buffer is cut.
abbrev pub from_pending : ℕ → NaivePaddedStream → List Event → Polled (List ℕ)
from_pending room s events = (
  ready (take (min (length s.pending_data) room) s.pending_data),
  record s { pending_data = drop (min (length s.pending_data) room) s.pending_data },
  events,
)

abbrev pub from_read_buf : ℕ → NaivePaddedStream → List Event → Polled (List ℕ)
from_read_buf room s events = (
  ready (take (min (length s.read_buf) room) s.read_buf),
  record s { read_buf = drop (min (length s.read_buf) room) s.read_buf },
  events,
)

-- The inner stream's own `poll_read` into the output.
unfoldable pub poll_inner : ℕ → NaivePaddedStream → List Event → Polled (List ℕ)
poll_inner room s [] = (pending, s, [])
poll_inner room s (moves n ∷ events) =
    (ready (take (min n room) s.source), record s { source = drop (min n room) s.source }, events)
poll_inner room s (idle ∷ events) = (pending, s, events)
poll_inner room s (fails e ∷ events) = (failed e, s, events)

-- `(read_buf[0] << 8) | read_buf[1]` and `read_buf[2]`, where there are three bytes.
unfoldable pub frame_sizes : List ℕ → ℕ × ℕ
frame_sizes (hi ∷ lo ∷ pad ∷ more) = (hi * 256 + lo, pad)
frame_sizes _ = (0, 0)

-- Whether a whole frame is buffered.
unfoldable pub has_frame : List ℕ → Bool
has_frame buf =
    leb 3 (length buf) && leb (3 + (frame_sizes buf).0 + (frame_sizes buf).1) (length buf)

-- The payload of the first frame, and what is behind the frame.
unfoldable pub split_frame : List ℕ → List ℕ × List ℕ
split_frame buf =
    let sizes = frame_sizes buf in
    (take sizes.0 (drop 3 buf), drop sizes.1 (drop sizes.0 (drop 3 buf)))

-- The inner stream is polled for more.
unfoldable pub poll_more :
    (NaivePaddedStream → List Event → Polled (List ℕ))
    → NaivePaddedStream
    → List Event
    → Polled (List ℕ)
poll_more again s [] = (pending, s, [])
poll_more again s (idle ∷ events) = (pending, s, events)
poll_more again s (fails e ∷ events) = (failed e, s, events)
poll_more again s (moves n ∷ events) =
    let got = take (min n 8192) s.source in
    if is_empty got
    then (if is_empty s.read_buf then (ready [], s, events) else (failed unexpected_eof, s, events))
    else again (record s { source = drop (min n 8192) s.source; read_buf = s.read_buf ++ got })
        events

-- The loop of `poll_read`. A round takes a frame or an event, so their numbers are fuel enough.
unfoldable pub poll_read_from : ℕ → ℕ → NaivePaddedStream → List Event → Polled (List ℕ)
unfolding poll_inner has_frame split_frame
poll_read_from zero room s events = (pending, s, events)
poll_read_from (suc fuel) room s events =
    if not (is_empty s.pending_data)
    then from_pending room s events
    else if s.reads_padded_left == 0
    then (if not (is_empty s.read_buf)
        then from_read_buf room s events
        else poll_inner room s events)
    else if has_frame s.read_buf
    then (let frame = split_frame s.read_buf in
        let s' = record s { read_buf = frame.1; reads_padded_left = s.reads_padded_left - 1 } in
        let n = min (length frame.0) room in
        let skip = poll_read_from fuel room s' events in
        if is_empty frame.0 then skip else (
          ready (take n frame.0),
          record s' { pending_data = s.pending_data ++ drop n frame.0 },
          events,
        ))
    else poll_more (poll_read_from fuel room) s events

unfoldable pub poll_read : ℕ → NaivePaddedStream → List Event → Polled (List ℕ)
unfolding poll_read_from
poll_read room s events =
    if room == 0
    then (ready [], s, events)
    else poll_read_from (suc (s.reads_padded_left + length events)) room s events

-- The loop that writes the buffer away: ready when it is empty.
unfoldable pub write_out : NaivePaddedStream → List Event → Polled (Unit {0})
write_out s [] = if is_empty s.write_buf then (ready tt, s, []) else (pending, s, [])
write_out s (moves n ∷ events) =
    let s' = record s { sink = s.sink ++ take n s.write_buf; write_buf = drop n s.write_buf } in
    let more = write_out s' events in
    if is_empty s.write_buf
    then (ready tt, s, moves n ∷ events)
    else if n == 0
    then (write_zero, s, events)
    else more
write_out s (idle ∷ events) =
    if is_empty s.write_buf then (ready tt, s, idle ∷ events) else (pending, s, events)
write_out s (fails e ∷ events) =
    if is_empty s.write_buf then (ready tt, s, fails e ∷ events) else (failed e, s, events)

-- The inner stream's own `poll_write`.
unfoldable pub write_inner : List ℕ → NaivePaddedStream → List Event → Polled ℕ
write_inner bytes s [] = (pending, s, [])
write_inner bytes s (moves n ∷ events) =
    (ready (min n (length bytes)), record s { sink = s.sink ++ take n bytes }, events)
write_inner bytes s (idle ∷ events) = (pending, s, events)
write_inner bytes s (fails e ∷ events) = (failed e, s, events)

abbrev pub zeros : ℕ → List ℕ
zeros zero = []
zeros (suc n) = 0 ∷ zeros n

abbrev pub padded_frame : List ℕ → ℕ → List ℕ
padded_frame chunk pad_len =
    (length chunk / 256 % 256) ∷ (length chunk % 256) ∷ (pad_len % 256) ∷ (chunk ++ zeros pad_len)

-- What a poll answers when the new frame was offered: the chunk is taken also if the sink is not
-- ready.
taken : ℕ → Polled (Unit {0}) → Polled ℕ
taken n (ready u, s, events) = (ready n, s, events)
taken n (pending, s, events) = (ready n, s, events)
taken n (failed e, s, events) = (failed e, s, events)
taken n (write_zero, s, events) = (write_zero, s, events)

-- `draw` is the random number of the padding.
write_chunk : ℕ → List ℕ → NaivePaddedStream → List Event → Polled ℕ
unfolding taken write_out write_inner
write_chunk draw bytes s events =
    if s.writes_padded_left == 0
    then write_inner bytes s events
    else (let chunk = take 65535 bytes in
        taken (length chunk) (
          write_out
            (record s {
              write_buf = s.write_buf ++ padded_frame chunk (draw % 256);
              writes_padded_left = s.writes_padded_left - 1;
            })
            events))

flushed : ℕ → List ℕ → Polled (Unit {0}) → Polled ℕ
unfolding write_chunk
flushed draw bytes (ready u, s, events) = write_chunk draw bytes s events
flushed draw bytes (pending, s, events) = (pending, s, events)
flushed draw bytes (failed e, s, events) = (failed e, s, events)
flushed draw bytes (write_zero, s, events) = (write_zero, s, events)

unfoldable pub poll_write : ℕ → List ℕ → NaivePaddedStream → List Event → Polled ℕ
unfolding flushed
poll_write draw bytes s events =
    if is_empty bytes then (ready 0, s, events) else flushed draw bytes (write_out s events)

-- `poll_flush` and `poll_shutdown` write the buffer away, and then do the same to the inner stream,
-- whose own flush or shutdown is the argument.
flush_with :
    (NaivePaddedStream → List Event → Polled (Unit {0})) → Polled (Unit {0}) → Polled (Unit {0})
flush_with inner (ready u, s, events) = inner s events
flush_with inner (pending, s, events) = (pending, s, events)
flush_with inner (failed e, s, events) = (failed e, s, events)
flush_with inner (write_zero, s, events) = (write_zero, s, events)

unfoldable pub poll_flush :
    (NaivePaddedStream → List Event → Polled (Unit {0}))
    → NaivePaddedStream
    → List Event
    → Polled (Unit {0})
unfolding write_out flush_with
poll_flush inner s events = flush_with inner (write_out s events)
