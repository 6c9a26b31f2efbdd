-- ===== src/Gateway/Relay.antt =====
-- `_handle_tcp` of labztna/gateway.py. What `recv` returns is a list of the sockets' answers: it
-- ends where the deadline passes, and an empty answer is the end of the stream.
pub mod Bounds
pub mod Requests
use ztna_lab.Base.{
  text_key, ℕ, ◌+◌, Bool, true, false, not, ◌&&◌, ◌||◌, Option, none, some, List, [], ◌∷◌, ◌++◌,
  ltb, ◌==◌, if◌then◌else◌, length, Text, codes, Bytes, Result, ok, err, ◌>>?◌,
}
use ztna_lab.Json.{boolean, text, Json, Fields, no_field, field, lookup, is_text}
use ztna_lab.Auth.{Externals}
use ztna_lab.Audit.{AuditEvent}
use ztna_lab.Protocol.Frame.{
  FrameType, tcp_open, tcp_data, Frame, ProtocolError, is_type, has_fin, has_rst, flag_fin,
}
use ztna_lab.Protocol.Codec.{Codec, Fed, feed, finish}
use ztna_lab.Protocol.Messages.{MessageError, encode_control, decode_control}
use ztna_lab.Session.{Session, SessionStore, get_active}
use ztna_lab.Gateway.Http.{valid_http_request}

abbrev pub max_http_request : ℕ
max_http_request = 16384

abbrev pub max_relay_bytes : ℕ
max_relay_bytes = 4194304

-- `options != {"protocol": "http/1.1", "resource": definition.resource_id}`; the fields of a `dict`
-- have different names.
unfoldable pub options_match : Text → Fields → Bool
options_match resource_id (field n1 v1 (field n2 v2 no_field)) =
    let d = field n1 v1 (field n2 v2 no_field) in
    is_text (codes "http/1.1") (lookup (codes "protocol") d)
    && is_text resource_id (lookup (codes "resource") d)
options_match resource_id _ = false

pub record Reading : Type 0 where
  pub opened : Bool
  pub complete : Bool
  pub request_bytes : Bytes

abbrev pub opened_by : Text → Reading → Result MessageError Fields → Option Reading
opened_by resource_id r (err e) = none
opened_by resource_id r (ok options) =
    if options_match resource_id options then some (record r { opened = true }) else none

-- The body of the loop over the frames; `none` is its `return`.
unfoldable pub read_frame : Externals → Text → Frame → Reading → Option Reading
read_frame x resource_id f r =
    let bytes = r.request_bytes ++ f.payload in
    if not r.opened
    then if not (is_type f.frame_type tcp_open && f.stream_id == 1)
      then none
      else opened_by resource_id r (decode_control x f)
    else if not (is_type f.frame_type tcp_data && f.stream_id == 1)
    then none
    else if has_rst f.flags
    then none
    else if ltb max_http_request (length bytes)
    then none
    else some (record r { request_bytes = bytes; complete = r.complete || has_fin f.flags })

unfoldable pub read_frames : Externals → Text → List Frame → Reading → Option Reading
read_frames x resource_id [] r = some r
read_frames x resource_id (f ∷ fs) r = read_frame x resource_id f r >>? read_frames x resource_id fs

abbrev pub fed_frames : Externals → Text → Reading → Fed → Option (Codec × Reading)
fed_frames x resource_id r (c, err e) = none
fed_frames x resource_id r (c, ok fs) = read_frames x resource_id fs r >>? λ r'. some (c, r')

-- One answer of `recv`; `none` is a `return`.
unfoldable pub read_answer : Externals → Text → Bytes → Codec × Reading → Option (Codec × Reading)
read_answer x resource_id [] (c, r) = none
read_answer x resource_id (b ∷ bs) (c, r) = fed_frames x resource_id r (feed c (b ∷ bs))

-- The loop, which ends when the request is complete.
unfoldable pub read_answers :
    Externals → Text → List Bytes → Codec × Reading → Option (Codec × Reading)
read_answers x resource_id [] s = some s
read_answers x resource_id (a ∷ answers) s =
    let rest = read_answer x resource_id a s >>? read_answers x resource_id answers in
    if s.1.complete then some s else rest

-- The checks after the loop.
unfoldable pub whole_request : Text → Codec × Reading → Option Bytes
whole_request resource_id (c, r) = elim (finish c) [
  | err e ↦ none
  | ok _ ↦
      if not (r.opened && (r.complete && valid_http_request r.request_bytes resource_id))
      then none
      else some r.request_bytes
]

-- The request that is sent upstream, if there is one, from a new decoder of 64 frames at most.
unfoldable pub read_request : Externals → Text → List Bytes → Codec → Option Bytes
read_request x resource_id answers c =
    read_answers x resource_id answers
      (c, record { opened = false; complete = false; request_bytes = [] })
    >>? whole_request resource_id

-- One round of the relay: the time at which the session is looked up, and the answer of the
-- upstream socket, `none` where it timed out.
abbrev pub Round : Type 0
Round = ℕ × Option Bytes

abbrev pub data_frame : ℕ → Bytes → ℕ → Frame
data_frame sequence payload flags = record {
  frame_type = tcp_data;
  sequence = sequence;
  payload = payload;
  stream_id = 1;
  flags = flags;
}

abbrev pub send_frame : Frame → List Frame × SessionStore → List Frame × SessionStore
send_frame f (fs, st) = (f ∷ fs, st)

-- What a round does with the answer, where `next` runs the later rounds from a sequence number and
-- a count of bytes.
abbrev pub relay_answer :
    ℕ
    → ℕ
    → (ℕ → ℕ → SessionStore → List Frame × SessionStore)
    → Option Bytes
    → SessionStore × Option Session
    → List Frame × SessionStore
relay_answer sequence transferred next answer (st, none) = ([], st)
relay_answer sequence transferred next none (st, some s) = next sequence transferred st
relay_answer sequence transferred next (some []) (st, some s) =
    (data_frame sequence [] flag_fin ∷ [], st)
relay_answer sequence transferred next (some (b ∷ bs)) (st, some s) =
    let chunk = b ∷ bs in
    let total = transferred + length chunk in
    if ltb max_relay_bytes total
    then ([], st)
    else send_frame (data_frame sequence chunk 0) (next (sequence + 1) total st)

-- The frames that the relay sends after its first, and the sessions that it leaves.
unfoldable pub relay : Text → List Round → ℕ → ℕ → SessionStore → List Frame × SessionStore
relay session_id [] sequence transferred st = ([], st)
relay session_id ((seen, answer) ∷ rounds) sequence transferred st =
    relay_answer sequence transferred (relay session_id rounds) answer
      (get_active seen session_id st)

-- What the handler does once the upstream socket is connected.
pub record TcpRun : Type 0 where
  pub upstream_bytes : Bytes
  pub opening : Frame
  pub event : AuditEvent
  pub frames : List Frame
  pub sessions : SessionStore

abbrev connect_event : Text → Text → Text → Session → AuditEvent
connect_event stamp resource_id request_id s = record {
  timestamp = stamp;
  event = codes "connect";
  outcome = codes "allow";
  subject = some s.subject;
  resource = some resource_id;
  device_id = some s.posture.device_id;
  request_id = some request_id;
  detail = none;
}

abbrev pub opening_frame : Externals → Text → Result MessageError Frame
opening_frame x resource_id =
    encode_control x tcp_open 0
      (field (codes "ok") (boolean true) (field (codes "resource") (text resource_id) no_field)) 1

abbrev run_with :
    Text
    → Text
    → Text
    → Session
    → List Round
    → SessionStore
    → Bytes
    → Result MessageError Frame
    → Option TcpRun
run_with stamp resource_id request_id s rounds st bytes (err e) = none
run_with stamp resource_id request_id s rounds st bytes (ok opening) =
    let sent = relay s.session_id rounds 1 0 st in
    some (record {
      upstream_bytes = bytes;
      opening = opening;
      event = connect_event stamp resource_id request_id s;
      frames = sent.0;
      sessions = sent.1;
    })

-- `_handle_tcp`; `none` where it ends without a reply.
unfoldable pub handle_tcp :
    Externals
    → Text
    → Text
    → Text
    → Session
    → List Bytes
    → Codec
    → List Round
    → SessionStore
    → Option TcpRun
handle_tcp x stamp resource_id request_id s answers start rounds st =
    read_request x resource_id answers start >>? λ bytes.
    run_with stamp resource_id request_id s rounds st bytes (opening_frame x resource_id)
