-- ===== src/Naive/Examples.antt =====
-- src/protocol/naive/padding.rs on a concrete connection, and the theorems about it there.
use elise_backend.Prelude.{ℕ, ◌≡◌, refl, true, List, [], ◌∷◌, arith, unexpected_eof}
use elise_backend.Naive.Padding.{
  Event, moves, idle, NaivePaddedStream, new_stream, ready, failed, poll_read, poll_more,
  frame_sizes,
}
use elise_backend.Naive.Padding.Reader.{Reads, frame, ended}
use elise_backend.Naive.Padding.Polls.{poll_read-Reads}
use elise_backend.Naive.Padding.Run.{write_polls, Delivers, write_polls-Delivers}

-- The frame of 7 8 9 with two bytes of padding, the one of nothing, and the one of 5 6.
abbrev on_the_wire : List ℕ
on_the_wire = 0 ∷ 3 ∷ 2 ∷ 7 ∷ 8 ∷ 9 ∷ 0 ∷ 0 ∷ 0 ∷ 0 ∷ 1 ∷ 0 ∷ 0 ∷ 2 ∷ 0 ∷ 5 ∷ 6 ∷ []

abbrev reader : NaivePaddedStream
reader = new_stream on_the_wire true

abbrev arrivals : List Event
arrivals = moves 2 ∷ moves 4 ∷ idle ∷ moves 20 ∷ []

-- A frame in pieces: the poll waits.
poll_waits : (poll_read 2 reader arrivals).1.read_buf ≡ 0 ∷ 3 ∷ 2 ∷ 7 ∷ 8 ∷ 9 ∷ []
unfolding poll_read poll_more frame_sizes
poll_waits = refl

-- The whole frame: as much as there is room for, and the rest is kept.
poll_takes : (poll_read 2 reader (moves 30 ∷ [])).0 ≡ ready (7 ∷ 8 ∷ [])
unfolding poll_read poll_more frame_sizes
poll_takes = refl

poll_cut_short :
    (poll_read 2 (new_stream (0 ∷ 3 ∷ []) true) (moves 30 ∷ moves 1 ∷ [])).0 ≡ failed unexpected_eof
unfolding poll_read poll_more frame_sizes
poll_cut_short = refl

poll_read-Reads_example : Reads arrivals (7 ∷ 8 ∷ 9 ∷ 5 ∷ 6 ∷ []) (poll_read 2 reader arrivals)
poll_read-Reads_example =
    poll_read-Reads 2 reader arrivals (7 ∷ 8 ∷ 9 ∷ 5 ∷ 6 ∷ []) (omega arith)
      (omega arith, (omega arith, (omega arith, tt)))
      (
        7 ∷ 8 ∷ 9 ∷ 5 ∷ 6 ∷ [],
        refl,
        frame (7 ∷ 8 ∷ 9 ∷ []) 2 7 (0 ∷ 0 ∷ 1 ∷ 0 ∷ 0 ∷ 2 ∷ 0 ∷ 5 ∷ 6 ∷ []) (5 ∷ 6 ∷ []) refl
            (omega arith) (omega arith) refl refl
            (frame [] 1 6 (0 ∷ 2 ∷ 0 ∷ 5 ∷ 6 ∷ []) (5 ∷ 6 ∷ []) refl (omega arith) (omega arith)
              refl refl
              (frame (5 ∷ 6 ∷ []) 0 5 [] [] refl (omega arith) (omega arith) refl refl
                (ended refl refl))),
      )

abbrev calls : List (ℕ × List ℕ)
calls = (2, 7 ∷ 8 ∷ 9 ∷ []) ∷ (257, 5 ∷ []) ∷ (0, 6 ∷ []) ∷ []

-- The second poll finds the sink not ready, and is made again as the third.
abbrev departures : List Event
departures = moves 6 ∷ idle ∷ idle ∷ moves 9 ∷ moves 1 ∷ moves 40 ∷ []

write_polls-Delivers_example :
    Delivers true departures (write_polls calls (new_stream [] true) departures)
write_polls-Delivers_example =
    write_polls-Delivers true calls departures
      (omega arith, (omega arith, (omega arith, (omega arith, tt))))
