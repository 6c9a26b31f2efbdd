-- ===== src/Client/Exchange/Requested.antt =====
-- The request of `fetch` of labztna/client.py at `_handle_tcp` of labztna/gateway.py.
use ztna_lab.Base.{
  ℕ, suc, ◌+◌, ◌≤◌, ◌≡◌, refl, ap, ◌∙◌, true, false, some, List, [], ◌∷◌, ◌++◌, arith, Bytes, Text,
  codes, length, length-append, ltb, ok, err, text_eq, text_eq_iff, text_key, Option, none, not,
  if◌then◌else◌, >>=-eq-ok, Result,
}
use ztna_lab.Json.{text, object, Fields, no_field, field, lookup}
use ztna_lab.Auth.{Externals}
use ztna_lab.Netguard.{is_resource_id}
use ztna_lab.Protocol.Frame.{Frame, ProtocolError, tcp_open, flag_fin}
use ztna_lab.Protocol.Codec.{Codec, init, feed, finish}
use ztna_lab.Protocol.Codec.Wire.{wire, wire_all, length-wire}
use ztna_lab.Protocol.Codec.Transfer.{
  open_frame, stream_frame, whole_stream, IsReceived, whole_stream-IsReceived,
}
use ztna_lab.Protocol.Messages.{encode_control, decode_control}
use ztna_lab.Gateway.Http.{valid_http_request}
use ztna_lab.Gateway.Relay.{
  Reading, options_match, read_frame, read_frames, fed_frames, read_answer, read_answers,
  whole_request, read_request,
}
use ztna_lab.Client.Exchange.{is_safe_path, request_of, request_frames}
use ztna_lab.Client.Exchange.Accepted.{valid_http_request-request_of}
use ztna_lab.Client.Exchange.Delivered.{
  IsKept, encode_control-open_frame, decode_control-open_frame,
}

-- The options that open the request's stream.
abbrev pub request_fields : Text → Fields
request_fields resource =
    field (codes "protocol") (text (codes "http/1.1"))
      (field (codes "resource") (text resource) no_field)

abbrev unread : Reading
unread = record { opened = false; complete = false; request_bytes = [] }

abbrev whole : Bytes → Reading
whole body = record { opened = true; complete = true; request_bytes = body }

options_match-request_fields : (r : Text) → options_match r (request_fields r) ≡ true
unfolding options_match lookup text_eq
options_match-request_fields r = (text_eq_iff r r).1 refl

length-request_of : (path r : Text) → length (request_of path r) ≡ 44 + length path + length r
unfolding request_of
length-request_of path r = omega (
  arith,
  length-append path (
      codes " HTTP/1.1"
      ++ (13 ∷ 10 ∷ codes "Host: "
          ++ (r ++ (13 ∷ 10 ∷ codes "Connection: close" ++ (13 ∷ 10 ∷ 13 ∷ 10 ∷ []))))),
  length-append r (13 ∷ 10 ∷ codes "Connection: close" ++ (13 ∷ 10 ∷ 13 ∷ 10 ∷ [])),
)

path_fits : (path : Text) → is_safe_path path ≡ true → length path ≤ 2048
unfolding is_safe_path
path_fits path h = ground arith

id_fits : (r : Text) → is_resource_id r ≡ true → length r ≤ 128
unfolding is_resource_id
id_fits [] h = omega arith
id_fits (c ∷ r) h = ground arith

read_frames-request :
    (x : Externals) (r : Text) (p : Bytes) (d : Fields) (body : Bytes)
    → decode_control x (open_frame p) ≡ ok d
    → options_match r d ≡ true
    → length body ≤ 16384
    → read_frames x r (whole_stream p [] body) unread ≡ some (whole body)
unfolding read_frames read_frame
read_frames-request x r p d body decoded matched fits =
    let room : ltb 16384 (length body) ≡ false = ground arith in rw (decoded, matched, room) refl

read_answer-bytes :
    (x : Externals) (r : Text) (n : ℕ) (b : Bytes) (c : Codec) (rd : Reading)
    → length b ≡ suc n
    → read_answer x r b (c, rd) ≡ fed_frames x r rd (feed c b)
unfolding read_answer
read_answer-bytes x r n [] c rd h = cc h
read_answer-bytes x r n (b ∷ bs) c rd h = refl

fed_frames-IsReceived :
    (x : Externals) (r : Text) (c : Codec) (fs : List Frame) (rd rd' : Reading)
    (q : IsReceived c fs)
    → read_frames x r fs rd ≡ some rd'
    → fed_frames x r rd (feed c (wire_all fs)) ≡ some (q.codec, rd')
fed_frames-IsReceived x r c fs rd rd' q h = rw (q.received, h) refl

whole_request-whole :
    (r : Text) (c : Codec) (body : Bytes)
    → finish c ≡ ok tt
    → valid_http_request body r ≡ true
    → whole_request r (c, whole body) ≡ some body
unfolding whole_request
whole_request-whole r c body ended valid =
    let accepted : Option Bytes = if not (valid_http_request body r) then none else some body in
    let answer : Result ProtocolError Unit → Option Bytes =
      λ q. elim q [ err e ↦ none | ok _ ↦ accepted ] in
    let valid' : accepted ≡ some body = rw valid refl in ap answer ended ∙ valid'

read_request-answer :
    (x : Externals) (r : Text) (a : Bytes) (c c' : Codec) (body : Bytes)
    → read_answer x r a (c, unread) ≡ some (c', whole body)
    → whole_request r (c', whole body) ≡ some body
    → read_request x r (a ∷ []) c ≡ some body
unfolding read_request read_answers
read_request-answer x r a c c' body answered accepted = rw (answered, accepted) refl

length-wire_all :
    (f : Frame) (fs : List Frame)
    → length (wire_all (f ∷ fs)) ≡ suc (23 + length f.payload + length (wire_all fs))
length-wire_all f fs = omega (arith, length-append (wire f) (wire_all fs), length-wire f)

encode_control-request_frames :
    (x : Externals) (path r : Text) (fs : List Frame)
    → request_frames x path r ≡ ok fs
    → (f : Frame) × (encode_control x tcp_open 0 (request_fields r) 1 ≡ ok f)
      × (fs ≡ f ∷ stream_frame 1 (request_of path r) flag_fin ∷ [])
unfolding request_frames
encode_control-request_frames x path r fs h =
    let (opening, encoded, rest) =
      >>=-eq-ok (encode_control x tcp_open 0 (request_fields r) 1)
        (λ opening. ok (opening ∷ stream_frame 1 (request_of path r) flag_fin ∷ [])) h in
    (opening, encoded, cc rest)

module _ (x : Externals) (path r : Text) (fs : List Frame) (c : Codec) where
  -- A new decoder of the gateway of 64 frames reads, from the bytes of the frames that `fetch` sends
  -- for a safe path and the id of a resource, the whole request that `fetch` wrote, which the
  -- gateway accepts, if JSON reads back what it writes of the options.
  pub read_request-request_frames :
      init 64 ≡ ok c
      → is_safe_path path ≡ true
      → is_resource_id r ≡ true
      → IsKept x (request_fields r)
      → request_frames x path r ≡ ok fs
      → read_request x r (wire_all fs ∷ []) c ≡ some (request_of path r)
  read_request-request_frames made safe named kept sent =
      let d = request_fields r in
      let p = x.json_dumps (object d) in
      let body = request_of path r in
      let (opening, encoded, all) = encode_control-request_frames x path r fs sent in
      let (same, short) = encode_control-open_frame x d opening encoded in
      let small : length body ≤ 2220 =
        omega (arith, length-request_of path r, path_fits path safe, id_fits r named) in
      let received : IsReceived c (whole_stream p [] body) =
        whole_stream-IsReceived 64 c p [] body made (omega arith) tt (omega arith) (omega arith)
          (omega arith) in
      let reading =
        fed_frames-IsReceived x r c (whole_stream p [] body) unread (whole body) received (
          read_frames-request x r p d body (decode_control-open_frame x d kept)
            (options_match-request_fields r) (omega arith)) in
      let answered =
        read_answer-bytes x r _ (wire_all (whole_stream p [] body)) c unread
          (length-wire_all (open_frame p) (stream_frame 1 body flag_fin ∷ []))
        ∙ reading in
      let accepted =
        whole_request-whole r received.codec body received.finished
          (valid_http_request-request_of path r safe named) in
      rw (all, same)
        (read_request-answer x r (wire_all (whole_stream p [] body)) c received.codec body answered
          accepted)
