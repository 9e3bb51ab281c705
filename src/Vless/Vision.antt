-- ===== src/Vless/Vision.antt =====
-- src/protocol/vless/vision.rs: the frames of the flow xtls-rprx-vision. A stream is the bytes that
-- are left, and a sink takes every byte. The events that are recorded for timing are left out.
pub mod Reader
pub mod Filter
pub mod Writer
pub mod RoundTrip
use elise_backend.Prelude.{
  ℕ, zero, suc, ◌+◌, ◌-◌, ◌*◌, ◌%◌, ◌^◌, min, Bool, true, false, not, ◌&&◌, ◌||◌, List, [], ◌∷◌,
  ◌++◌, ltb, leb, ◌==◌, if◌then◌else◌, length, take, drop, starts_with, Io, ok, err, ◌>>=◌, index,
  slice, read_exact, unexpected_eof, invalid_data,
}
use elise_backend.Prelude.Bytes.{to_be_u16, from_be_u16}
use elise_backend.Prelude.Int.{ℤ, pos, negsuc, wrapping_sub_i32, is_positive}
use elise_backend.Prelude.Text.{bytes_eq}
use elise_backend.Prelude.Strings.{is_empty, contains_text}
use elise_backend.Vless.Header.{process_uuid}

abbrev pub vision_cmd_continue : ℕ
vision_cmd_continue = 0x00

abbrev pub vision_cmd_end : ℕ
vision_cmd_end = 0x01

abbrev pub vision_cmd_direct : ℕ
vision_cmd_direct = 0x02

abbrev pub tls13_supported_versions : List ℕ
tls13_supported_versions = 0x00 ∷ 0x2b ∷ 0x00 ∷ 0x02 ∷ 0x03 ∷ 0x04 ∷ []

abbrev pub tls_server_handshake_start : List ℕ
tls_server_handshake_start = 0x16 ∷ 0x03 ∷ 0x03 ∷ []

abbrev pub tls_client_handshake_start : List ℕ
tls_client_handshake_start = 0x16 ∷ 0x03 ∷ []

abbrev pub tls_application_data_start : List ℕ
tls_application_data_start = 0x17 ∷ 0x03 ∷ 0x03 ∷ []

pub record TrafficState : Type 0 where
  pub user_uuid : List ℕ
  pub packets_to_filter : ℕ
  pub enable_xtls : Bool
  pub is_tls : Bool
  pub is_tls12_or_above : Bool
  pub cipher : ℕ
  pub remaining_server_hello : ℤ
  pub is_padding : Bool

abbrev pub new_traffic_state : List ℕ → TrafficState
new_traffic_state user_uuid = record {
  user_uuid = user_uuid;
  packets_to_filter = 8;
  enable_xtls = false;
  is_tls = false;
  is_tls12_or_above = false;
  cipher = 0;
  remaining_server_hello = negsuc 0;
  is_padding = true;
}

-- Whether it is a handshake message of this type, in a record that starts so.
unfoldable pub is_handshake : List ℕ → ℕ → List ℕ → Io Bool
is_handshake start kind s =
    if leb 6 (length s) && starts_with s start then (do b ← index s 5; ok (b == kind)) else ok false

-- The cipher suite of a server hello, behind its session id.
unfoldable pub read_cipher : TrafficState → List ℕ → ℕ → Io TrafficState
read_cipher t s hello =
    if leb 79 (length s) && leb 79 hello
    then (do
      session_id_len ← index s 43
      if leb (44 + session_id_len + 2) (length s)
          then (do
            hi ← index s (44 + session_id_len)
            lo ← index s (44 + session_id_len + 1)
            ok (record t { cipher = from_be_u16 hi lo }))
          else ok t)
    else ok t

unfoldable pub server_hello : TrafficState → List ℕ → Io TrafficState
unfolding read_cipher
server_hello t s = do
  hi ← index s 3
  lo ← index s 4
  let hello = from_be_u16 hi lo + 5
  read_cipher
      (record t { remaining_server_hello = pos hello; is_tls12_or_above = true; is_tls = true }) s
      hello

-- What is left of the server hello is looked through. The slice ends within the data.
unfoldable pub scan_hello : TrafficState → List ℕ → ℕ → Io TrafficState
scan_hello t s remaining = do
  let left = wrapping_sub_i32 remaining (length s)
  let t' = record t { remaining_server_hello = left }
  seen ← slice s 0 (min remaining (length s))
  ok (
      if contains_text seen tls13_supported_versions
      then record t' {
        enable_xtls = (if t.cipher == 0x1305 then t.enable_xtls else true);
        packets_to_filter = 0;
      }
      else if not (is_positive left)
      then record t' { packets_to_filter = 0 }
      else t')

unfoldable pub scan_if_left : TrafficState → List ℕ → Io TrafficState
unfolding scan_hello
scan_if_left t s = elim t.remaining_server_hello [
  | negsuc n ↦ ok t
  | pos n ↦ if ltb 0 n then scan_hello t s n else ok t
]

unfoldable pub filter_tls : TrafficState → List ℕ → Bool → Io TrafficState
unfolding is_handshake server_hello scan_if_left
filter_tls t s is_downlink =
    if t.packets_to_filter == 0 || is_empty s
    then ok t
    else (let t₁ = record t { packets_to_filter = t.packets_to_filter - 1 } in
        if not is_downlink
        then (do
          client ← is_handshake tls_client_handshake_start 0x01 s
          ok (if client then record t₁ { is_tls = true } else t₁))
        else (do
          server ← is_handshake tls_server_handshake_start 0x02 s
          t₂ ← if server then server_hello t₁ s else ok t₁
          scan_if_left t₂ s))

-- `has_control` is whether there is a `direct_control`, and `direct_write` its flag.
pub record VisionWriter : Type 0 where
  pub traffic_state : TrafficState
  pub direct : Bool
  pub is_first : Bool
  pub packet_count : ℕ
  pub has_control : Bool
  pub direct_write : Bool

abbrev pub new_writer : List ℕ → VisionWriter
new_writer user_uuid = record {
  traffic_state = new_traffic_state user_uuid;
  direct = false;
  is_first = true;
  packet_count = 0;
  has_control = false;
  direct_write = false;
}

-- `set_direct_control` of the writer: whether there is one now.
abbrev pub set_writer_control : Bool → VisionWriter → VisionWriter
set_writer_control direct_control w = record w { has_control = direct_control }

-- The command of a frame, and whether what follows is direct.
unfoldable pub choose_command : VisionWriter → TrafficState → List ℕ → ℕ × Bool
choose_command w t s =
    if leb 3 (length s) && starts_with s tls_application_data_start
    then (if t.enable_xtls && w.has_control
        then (vision_cmd_direct, true)
        else (vision_cmd_end, true))
    else if not t.is_tls12_or_above && (leb 2 w.packet_count || leb t.packets_to_filter 1)
    then (vision_cmd_end, true)
    else (vision_cmd_continue, false)

-- `draw` is the random `u16`.
unfoldable pub padding_len : ℕ → ℕ → ℕ
padding_len draw content_len =
    min (if ltb content_len 900 then draw % 500 + 900 - content_len else draw % 256) 2048

abbrev pub zeros : ℕ → List ℕ
zeros zero = []
zeros (suc n) = 0 ∷ zeros n

abbrev pub vision_frame : ℕ → List ℕ → ℕ → List ℕ
vision_frame command content pad_len =
    command ∷ (to_be_u16 (length content) ++ (to_be_u16 pad_len ++ (content ++ zeros pad_len)))

-- The writer behind a frame: it goes direct, or counts the packet.
unfoldable pub switched : VisionWriter → ℕ → Bool → VisionWriter
switched w command switch_direct =
    if switch_direct
    then record w {
      direct = true;
      direct_write = w.direct_write || (command == vision_cmd_direct && w.has_control);
    }
    else record w { packet_count = w.packet_count + 1 }

unfoldable pub write_payload : ℕ → VisionWriter → List ℕ → Io (VisionWriter × List ℕ)
unfolding choose_command switched
write_payload draw w s = if w.direct then ok (w, s) else (do
  t ← filter_tls w.traffic_state s true
  let c = choose_command w t s
  let frame = vision_frame c.0 s (padding_len draw (length s))
  ok (
    switched (record w { traffic_state = t; is_first = false }) c.0 c.1,
    (if w.is_first then t.user_uuid ++ frame else frame),
  ))

-- `has_control` and `direct_read` as for the writer.
pub record VisionReader : Type 0 where
  pub user_uuid : List ℕ
  pub buf : List ℕ
  pub buf_pos : ℕ
  pub direct : Bool
  pub is_first : Bool
  pub has_control : Bool
  pub direct_read : Bool

abbrev pub new_reader : List ℕ → VisionReader
new_reader user_uuid = record {
  user_uuid = user_uuid;
  buf = [];
  buf_pos = 0;
  direct = false;
  is_first = true;
  has_control = false;
  direct_read = false;
}

-- `set_direct_control` of the reader.
abbrev pub set_reader_control : Bool → VisionReader → VisionReader
set_reader_control direct_control r = record r { has_control = direct_control }

-- The user's id in front of the first frame.
unfoldable pub check_uuid : VisionReader → List ℕ → Io (VisionReader × List ℕ)
check_uuid r s =
    if r.is_first
    then (do
      (uuid, s₁) ← read_exact 16 s
      if not (bytes_eq uuid r.user_uuid)
            && not (bytes_eq (process_uuid uuid) (process_uuid r.user_uuid))
          then err invalid_data
          else ok (record r { is_first = false }, s₁))
    else ok (r, s)

-- The loop that throws the padding away, at most 1024 bytes a round.
unfoldable pub discard : ℕ → ℕ → List ℕ → Io (List ℕ)
discard zero rem s = ok s
discard (suc fuel) rem s =
    if ltb 0 rem
    then (do (bytes, s₁) ← read_exact (min rem 1024) s; discard fuel (rem - min rem 1024) s₁)
    else ok s

-- Behind a frame with this command.
abbrev pub after_command : VisionReader → ℕ → VisionReader
after_command r command =
    let switch = (command == vision_cmd_end || command == vision_cmd_direct) && not r.direct in
    record r {
      direct = (if switch then true else r.direct);
      direct_read = r.direct_read || (switch && (command == vision_cmd_direct && r.has_control));
    }

-- One frame, of which a first byte is there.
unfoldable pub next_frame : VisionReader → List ℕ → Io (VisionReader × List ℕ)
next_frame r s = do
  (command, s₁) ← read_exact 1 s
  (lengths, s₂) ← read_exact 4 s₁
  c₀ ← index lengths 0
  c₁ ← index lengths 1
  p₀ ← index lengths 2
  p₁ ← index lengths 3
  (content, s₃) ← read_exact (from_be_u16 c₀ c₁) s₂
  s₄ ← discard (from_be_u16 p₀ p₁) (from_be_u16 p₀ p₁) s₃
  b ← index command 0
  ok (after_command (record r { buf = content; buf_pos = 0 }) b, s₄)

-- What the buffer gives: at most `room` bytes.
unfoldable pub buffered : VisionReader → ℕ → List ℕ → Io (List ℕ × VisionReader × List ℕ)
buffered r room s =
    let n = min (length r.buf - r.buf_pos) room in
    ok (take n (drop r.buf_pos r.buf), record r { buf_pos = r.buf_pos + n }, s)

-- `room` is the length of `dest`, and `ready` how many bytes a direct read finds. Each further
-- round takes a frame, so the number of bytes is fuel enough.
unfoldable pub read_payload :
    ℕ → ℕ → ℕ → VisionReader → List ℕ → Io (List ℕ × VisionReader × List ℕ)
unfolding buffered
read_payload ready zero room r s = err unexpected_eof
read_payload ready (suc fuel) room r s =
    if room == 0
    then ok ([], r, s)
    else if ltb r.buf_pos (length r.buf)
    then buffered r room s
    else if r.direct
    then ok (take (min room ready) s, r, drop (min room ready) s)
    else (do
      (r₁, s₁) ← check_uuid r s
      if is_empty s₁ then ok ([], r₁, s₁) else (do
        (r₂, s₂) ← next_frame r₁ s₁
        if ltb 0 (length r₂.buf) then buffered r₂ room s₂ else read_payload ready fuel room r₂ s₂))
