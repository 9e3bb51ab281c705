-- ===== src/AnyTls/Examples.antt =====
-- src/protocol/anytls on a concrete session, and the theorems about it there.
use elise_backend.Prelude.{
  ℕ, ◌+◌, ◌≡◌, ◌≢◌, refl, true, some, List, [], ◌∷◌, ◌++◌, map, arith, slice,
}
use elise_backend.Prelude.Text.{codes, bytes_eq, is_utf8}
use elise_backend.Prelude.Map.{get, insert}
use elise_backend.Prelude.Strings.{lines, split_on, split_once, digits_below, parse_below}
use elise_backend.AnyTls.Padding.{CompiledPaddingScheme, check_mark, range, exact, parse, parse_i64}
use elise_backend.AnyTls.Session.{
  Frame, Session, new_session, waiting_for_destination, active, panicked, Services, handle_frame,
  writer_task, handle_anytls_session, parse_socks5_addr,
}
use elise_backend.AnyTls.Session.Codec.{frame_of}
use elise_backend.AnyTls.Session.Delivery.{handle_all, session-writer_task}
use elise_backend.AnyTls.Session.Invariant.{
  IsValid, StaysClosed, frame, Reach, here, later, Reach-IsValid, handle_frame-ne-panicked,
}

abbrev scheme : CompiledPaddingScheme
scheme = record {
  raw = codes "stop=3";
  md5_bytes = [];
  md5_hex = [];
  stop = 3;
  records = (1, exact 60 ∷ check_mark ∷ range 10 20 ∷ []) ∷ (2, range 8 40 ∷ []) ∷ [];
}

abbrev services : Services
services = record { trim = λ s. s; lossy = λ s. s; padding_scheme = scheme }

abbrev settings : Frame
settings = record { command = 4; stream_id = 0; payload = codes "v=2" }

abbrev opening : Frame
opening = record { command = 1; stream_id = 1; payload = [] }

-- To 1.2.3.4 at port 443, with two bytes behind.
abbrev target : Frame
target = record { command = 2; stream_id = 1; payload = 1 ∷ 1 ∷ 2 ∷ 3 ∷ 4 ∷ 1 ∷ 187 ∷ 7 ∷ 9 ∷ [] }

abbrev frames : List Frame
frames = settings ∷ opening ∷ target ∷ []

abbrev draw : ℕ → ℕ → ℕ
draw i j = 3 + i + j

default_scheme :
    parse
      (λ s. s)
      (λ s. [])
      (λ s. [])
      (codes "stop=3" ++ 10 ∷ codes "1=60-60,c,20-10" ++ 10 ∷ codes "2=8-40")
    ≡ some (record {
      raw = codes "stop=3" ++ 10 ∷ codes "1=60-60,c,20-10" ++ 10 ∷ codes "2=8-40";
      md5_bytes = [];
      md5_hex = [];
      stop = 3;
      records = scheme.records;
    })
unfolding parse lines split_on split_once digits_below parse_below parse_i64 bytes_eq insert
default_scheme = refl

opened :
    (handle_all services new_session frames).1
    ≡ some (record {
      settings_received = true;
      client_version = 2;
      last_stream_id = 1;
      streams = (1, active) ∷ [];
    })
unfolding handle_all handle_frame is_utf8 lines split_once digits_below parse_below bytes_eq get
    insert parse_socks5_addr slice
opened = refl

session-writer_task_example :
    handle_anytls_session services (writer_task draw scheme 0 true (map frame_of frames))
    ≡ handle_all services new_session frames
session-writer_task_example = session-writer_task services draw scheme frames (omega arith)

abbrev greeted : Session
greeted = record new_session { settings_received = true; client_version = 2 }

abbrev started : Session
started = record greeted { last_stream_id = 1; streams = (1, waiting_for_destination) ∷ [] }

to_greeted : Reach services new_session greeted
unfolding handle_frame is_utf8 lines split_once digits_below parse_below bytes_eq
to_greeted = later here (frame settings refl)

to_started : Reach services greeted started
unfolding handle_frame insert
to_started = later here (frame opening refl)

Reach-IsValid_example : IsValid greeted × StaysClosed greeted started
Reach-IsValid_example = Reach-IsValid services to_greeted to_started

handle_frame-ne-panicked_example : handle_frame services greeted target ≢ panicked
handle_frame-ne-panicked_example = handle_frame-ne-panicked services target to_greeted
