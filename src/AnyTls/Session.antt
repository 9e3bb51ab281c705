-- ===== src/AnyTls/Session.antt =====
-- src/protocol/anytls/session.rs and stream.rs: the frames of a session and what it does with
-- them. The connection is the bytes that are left to read; a timeout or a cancellation is the end
-- of these bytes. What the session sends, starts and hands on is a list of effects, in order.
pub mod Codec
pub mod Invariant
pub mod Address
pub mod Delivery
use elise_backend.Prelude.{
  ℕ, zero, suc, ◌+◌, ◌*◌, ◌%◌, ◌^◌, Bool, true, false, ◌&&◌, ◌||◌, Option, none, some, List, [],
  ◌∷◌, ◌++◌, ltb, leb, not, ◌==◌, if◌then◌else◌, length, take, drop, Io, ok, err, panic, ErrorKind,
  ◌>>=◌, index, slice, read_exact, invalid_data,
}
use elise_backend.Prelude.Bytes.{to_be_u16, to_be_bytes, from_be_u16, from_be_bytes}
use elise_backend.Prelude.Text.{codes, bytes_eq, is_utf8}
use elise_backend.Prelude.Map.{HashMap, get, insert, remove, nat_eq}
use elise_backend.Prelude.Net.{IpAddr, v4, v6}
use elise_backend.Prelude.Strings.{is_empty, lines, split_once, parse_below}
use elise_backend.Vless.Header.{Host, text, printed}
use elise_backend.AnyTls.Padding.{
  write_padded_frame, CompiledPaddingScheme, frame_overhead, max_frame_size,
}

-- The commands; `cmd_waste` is 0.
abbrev pub cmd_syn : ℕ
cmd_syn = 1

abbrev pub cmd_psh : ℕ
cmd_psh = 2

abbrev pub cmd_fin : ℕ
cmd_fin = 3

abbrev pub cmd_settings : ℕ
cmd_settings = 4

abbrev pub cmd_alert : ℕ
cmd_alert = 5

abbrev pub cmd_update_padding_scheme : ℕ
cmd_update_padding_scheme = 6

abbrev pub cmd_synack : ℕ
cmd_synack = 7

abbrev pub cmd_heart_request : ℕ
cmd_heart_request = 8

abbrev pub cmd_heart_response : ℕ
cmd_heart_response = 9

abbrev pub cmd_server_settings : ℕ
cmd_server_settings = 10

abbrev pub max_concurrent_streams : ℕ
max_concurrent_streams = 1024

unfoldable pub make_frame : ℕ → ℕ → List ℕ → List ℕ
make_frame command stream_id payload =
    command ∷ (to_be_bytes 4 stream_id ++ (to_be_u16 (length payload) ++ payload))

-- A frame as it is read: its header's command and stream, and its payload.
pub record Frame : Type 0 where
  pub command : ℕ
  pub stream_id : ℕ
  pub payload : List ℕ

-- `header[0]`, `header[1..5]` and `header[5..7]`.
unfoldable pub header_fields : List ℕ → ℕ × ℕ × ℕ
header_fields (c ∷ a₀ ∷ a₁ ∷ a₂ ∷ a₃ ∷ hi ∷ lo ∷ more) =
    (c, from_be_bytes (a₀ ∷ a₁ ∷ a₂ ∷ a₃ ∷ []), from_be_u16 hi lo)
header_fields _ = (0, 0, 0)

-- The two reads of a round; none where the session ends.
unfoldable pub read_payload : ℕ → ℕ → Io (List ℕ × List ℕ) → Option (Frame × List ℕ)
read_payload command stream_id (ok (payload, s)) =
    some (record { command = command; stream_id = stream_id; payload = payload }, s)
read_payload command stream_id _ = none

unfoldable pub read_header : Io (List ℕ × List ℕ) → Option (Frame × List ℕ)
unfolding header_fields read_payload
read_header (ok (header, s)) =
    let (command, stream_id, len) = header_fields header in
    read_payload command stream_id (read_exact len s)
read_header _ = none

unfoldable pub read_frame : List ℕ → Option (Frame × List ℕ)
unfolding read_header
read_frame s = read_header (read_exact frame_overhead s)

-- Where a stream goes: the host, its address, the port, and the bytes behind.
abbrev pub Target : Type 0
Target = Host × Option IpAddr × ℕ × List ℕ

-- `data[a..]`
abbrev rest_from : List ℕ → ℕ → Io (List ℕ)
rest_from buf a = slice buf a (length buf)

abbrev port_at : List ℕ → ℕ → Io ℕ
port_at buf i = do hi ← index buf i; lo ← index buf (i + 1); ok (from_be_u16 hi lo)

-- `lossy` is `from_utf8_lossy`.
unfoldable pub parse_socks5_addr : (List ℕ → List ℕ) → List ℕ → Io (Option Target)
unfolding slice
parse_socks5_addr lossy buf = if is_empty buf then ok none else (do
  atyp ← index buf 0
  if atyp == 0x01
      then (if ltb (length buf) 7 then ok none else (do
        o ← slice buf 1 5
        port ← port_at buf 5
        rest ← rest_from buf 7
        let ip = v4 (from_be_bytes o)
        ok (some (printed ip, some ip, port, rest))))
      else if atyp == 0x03
      then (if ltb (length buf) 2 then ok none else (do
        len ← index buf 1
        if ltb (length buf) (2 + len + 2) then ok none else (do
          name ← slice buf 2 (2 + len)
          port ← port_at buf (2 + len)
          rest ← rest_from buf (4 + len)
          ok (some (text (lossy name), none, port, rest)))))
      else if atyp == 0x04
      then (if ltb (length buf) 19 then ok none else (do
        o ← slice buf 1 17
        port ← port_at buf 17
        rest ← rest_from buf 19
        let ip = v6 (from_be_bytes o)
        ok (some (printed ip, some ip, port, rest))))
      else ok none)

pub data StreamState : Type 0 where
  waiting_for_destination active : StreamState

pub record Session : Type 0 where
  pub settings_received : Bool
  pub client_version : ℕ
  pub last_stream_id : ℕ
  pub streams : HashMap ℕ StreamState

abbrev pub new_session : Session
new_session = record {
  settings_received = false;
  client_version = 1;
  last_stream_id = 0;
  streams = [];
}

pub data Effect : Type 0 where
  send : List ℕ → Effect
  stream_worker uot_worker : ℕ → ℕ → Target → Effect
  deliver : ℕ → List ℕ → Effect

-- How a frame is handled: the session goes on, or ends with an error, or panics.
pub data Handled : Type 0 where
  next : Session → List Effect → Handled
  failed : List Effect → Handled
  panicked : Handled

-- A line of the settings: the version, and the digest of the client's padding scheme.
unfoldable pub settings_line : (List ℕ → List ℕ) → ℕ × List ℕ → List ℕ → ℕ × List ℕ
settings_line trim peer line = elim (split_once b'=' line) [
  | none ↦ peer
  | some (k, v) ↦
      if bytes_eq (trim k) (codes "v")
      then elim (parse_below (2 ^ 32) (trim v)) [ none ↦ peer | some v_num ↦ (v_num, peer.1) ]
      else if bytes_eq (trim k) (codes "padding-md5")
      then (peer.0, trim v)
      else peer
]

settings_lines : (List ℕ → List ℕ) → ℕ × List ℕ → List (List ℕ) → ℕ × List ℕ
settings_lines trim peer [] = peer
settings_lines trim peer (l ∷ ls) = settings_lines trim (settings_line trim peer l) ls

unfoldable pub peer_settings : (List ℕ → List ℕ) → List ℕ → ℕ × List ℕ
unfolding settings_lines settings_line
peer_settings trim payload =
    if is_utf8 payload then settings_lines trim (1, []) (lines payload) else (1, [])

-- What `handle_anytls_session` uses of other code: texts, and the padding scheme as it stands.
pub record Services : Type 0 where
  pub trim : List ℕ → List ℕ
  pub lossy : List ℕ → List ℕ
  pub padding_scheme : CompiledPaddingScheme

module _ (v : Services) where
  unfoldable pub handle_settings : Session → List ℕ → Handled
  unfolding peer_settings
  handle_settings s payload =
      let peer = peer_settings v.trim payload in
      let update = send (make_frame cmd_update_padding_scheme 0 v.padding_scheme.raw) ∷ [] in
      let hello = send (make_frame cmd_server_settings 0 (codes "v=2" ++ 10 ∷ [])) ∷ [] in
      next (record s { settings_received = true; client_version = peer.0 })
        ((if not (bytes_eq peer.1 v.padding_scheme.md5_hex)
              && leb (length v.padding_scheme.raw) max_frame_size
            then update
            else [])
          ++ (if leb 2 peer.0 then hello else []))

  unfoldable pub handle_syn : Session → ℕ → Handled
  handle_syn s stream_id =
      if not s.settings_received
      then failed
          (send (make_frame cmd_alert 0 (codes "anytls: client did not send its settings")) ∷ [])
      else if leb stream_id s.last_stream_id
      then failed (send (make_frame cmd_alert 0 (codes "anytls: non-monotonic stream id")) ∷ [])
      else if ltb (length s.streams) max_concurrent_streams
      then next
          (record s {
            last_stream_id = stream_id;
            streams = insert stream_id waiting_for_destination s.streams;
          })
          []
      else next (record s { last_stream_id = stream_id })
          (send (make_frame cmd_fin stream_id []) ∷ [])

  -- The magic addresses of UDP over TCP.
  is_uot : Host → Bool
  is_uot (text host) =
      bytes_eq host (codes "sp.v2.udp-over-tcp.arpa")
      || bytes_eq host (codes "sp.udp-over-tcp.arpa")
  is_uot (printed ip) = false

  worker : Session → ℕ → Target → Effect
  unfolding is_uot
  worker s stream_id target =
      if is_uot target.0
      then uot_worker s.client_version stream_id target
      else stream_worker s.client_version stream_id target

  -- `parse_socks5_addr` may panic, and gives no error.
  open_stream : Session → ℕ → Io (Option Target) → Handled
  unfolding worker
  open_stream s stream_id (ok (some target)) =
      next (record s { streams = insert stream_id active s.streams })
        (worker s stream_id target ∷ [])
  open_stream s stream_id (ok none) =
      let refusal = send (make_frame cmd_synack stream_id (codes "invalid target address")) ∷ [] in
      next (record s { streams = remove stream_id s.streams })
        ((if leb 2 s.client_version then refusal else [])
          ++ send (make_frame cmd_fin stream_id []) ∷ [])
  open_stream s stream_id (err e) = failed []
  open_stream s stream_id panic = panicked

  unfoldable pub handle_psh : Session → ℕ → List ℕ → Handled
  unfolding open_stream
  handle_psh s stream_id payload = elim (get stream_id s.streams) [
    | none ↦ next s []
    | some waiting_for_destination ↦ open_stream s stream_id (parse_socks5_addr v.lossy payload)
    | some active ↦ next s (deliver stream_id payload ∷ [])
  ]

  -- The `match` on the command.
  unfoldable pub handle_frame : Session → Frame → Handled
  unfolding handle_settings handle_syn handle_psh
  handle_frame s f =
      if f.command == cmd_settings
      then handle_settings s f.payload
      else if f.command == cmd_syn
      then handle_syn s f.stream_id
      else if f.command == cmd_psh
      then handle_psh s f.stream_id f.payload
      else if f.command == cmd_fin
      then next (record s { streams = remove f.stream_id s.streams }) []
      else if f.command == cmd_heart_request
      then next s (send (make_frame cmd_heart_response f.stream_id []) ∷ [])
      else next s []

  -- What follows a frame; `loop` is the rest of the loop. A session is left unless it panics.
  abbrev pub continue_with :
      (Session → List ℕ → List Effect × Option Session)
      → Session
      → List ℕ
      → Handled
      → List Effect × Option Session
  continue_with loop s rest (next t effects) =
      let after = loop t rest in (effects ++ after.0, after.1)
  continue_with loop s rest (failed effects) = (effects, some s)
  continue_with loop s rest panicked = ([], none)

  unfoldable pub on_frame :
      (Session → List ℕ → List Effect × Option Session)
      → Session
      → Option (Frame × List ℕ)
      → List Effect × Option Session
  on_frame loop s none = ([], some s)
  on_frame loop s (some (f, rest)) = continue_with loop s rest (handle_frame s f)

  -- The loop. Each frame takes bytes, so their number is fuel enough.
  unfoldable pub session_loop : ℕ → Session → List ℕ → List Effect × Option Session
  unfolding on_frame
  session_loop zero s bytes = ([], some s)
  session_loop (suc fuel) s bytes = on_frame (session_loop fuel) s (read_frame bytes)

  unfoldable pub handle_anytls_session : List ℕ → List Effect × Option Session
  unfolding session_loop
  handle_anytls_session bytes = session_loop (length bytes) new_session bytes

-- The writer's task: the bytes that it writes for the frames that are sent.
unfoldable pub writer_task : (ℕ → ℕ → ℕ) → CompiledPaddingScheme → ℕ → Bool → List (List ℕ) → List ℕ
writer_task draw scheme packet_count send_padding [] = []
writer_task draw scheme packet_count send_padding (frame ∷ frames) =
    let w = write_padded_frame (draw (length frames)) scheme frame packet_count send_padding in
    let padded = w.2 ++ writer_task draw scheme w.0 w.1 frames in
    let plain = frame ++ writer_task draw scheme packet_count send_padding frames in
    if send_padding then padded else plain
