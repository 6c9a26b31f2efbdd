-- ===== src/Client/Exchange/Delivered.antt =====
-- A response from the relay of labztna/gateway.py to `fetch` of labztna/client.py.
use ztna_lab.Base.{
  ℕ, ◌+◌, ◌≤◌, ◌≡◌, refl, ap, ◌∙◌, Bool, true, false, Option, none, some, List, [], ◌∷◌, ◌++◌,
  arith, Bytes, Text, codes, length, All, ltb, Result, ok, err, text_eq, text_eq_iff, text_key,
}
use ztna_lab.Json.{boolean, text, object, Fields, no_field, field, lookup}
use ztna_lab.Auth.{Externals}
use ztna_lab.Protocol.Frame.{Frame, ProtocolError, tcp_open, has_fin}
use ztna_lab.Protocol.Codec.{Codec, init, feed}
use ztna_lab.Protocol.Codec.Wire.{wire_all}
use ztna_lab.Protocol.Codec.Transfer.{
  open_frame, stream_frames, IsPayload, IsReceived, whole_stream-IsReceived,
}
use ztna_lab.Protocol.Messages.{encode_control, decode_control}
use ztna_lab.Session.{Session, SessionStore, get_active}
use ztna_lab.Gateway.Relay.{Round, max_relay_bytes, data_frame, relay_answer, relay, opening_frame}
use ztna_lab.Client.Exchange.{
  ExchangeError, invalid_stream, is_open_response, are_data, last_fin, payloads, stream_payload,
  all_frames, framed_response,
}

-- What the upstream sends before its end of stream: the chunks, and all their bytes.
abbrev pub chunks_of : List Round → List Bytes
chunks_of [] = []
chunks_of ((seen, none) ∷ rounds) = chunks_of rounds
chunks_of ((seen, some []) ∷ rounds) = []
chunks_of ((seen, some (b ∷ bs)) ∷ rounds) = (b ∷ bs) ∷ chunks_of rounds

abbrev pub concat : List Bytes → Bytes
concat [] = []
concat (c ∷ chunks) = c ++ concat chunks

-- `recv(65_536)` gives no more bytes than that.
abbrev pub IsReceivable : List Round → Type 0
IsReceivable rounds = All IsPayload (chunks_of rounds)

last_fin-cons :
    (f : Frame) (fs : List Frame)
    → has_fin f.flags ≡ false
    → last_fin (f ∷ fs) ≡ true
    → last_fin fs ≡ true
unfolding last_fin
last_fin-cons f [] e h = cc (e, h)
last_fin-cons f (g ∷ fs) e h = h

module _ (n total : ℕ) (next : ℕ → ℕ → SessionStore → List Frame × SessionStore)
    (rounds : List Round)
    (later : (m k : ℕ) (st : SessionStore)
      → last_fin (next m k st).0 ≡ true
      → (next m k st).0 ≡ stream_frames m (chunks_of rounds) []) where
  chunk-stream_frames :
      (st : SessionStore) (s : Session) (b : ℕ) (bs : Bytes) (over : Bool)
      → ltb max_relay_bytes (total + length (b ∷ bs)) ≡ over
      → last_fin (relay_answer n total next (some (b ∷ bs)) (st, some s)).0 ≡ true
      → (relay_answer n total next (some (b ∷ bs)) (st, some s)).0
        ≡ stream_frames n ((b ∷ bs) ∷ chunks_of rounds) []
  unfolding last_fin
  chunk-stream_frames st s b bs true e h = let none_sent = rw e at h in cc none_sent
  chunk-stream_frames st s b bs false e h =
      let h' = rw e at h in
      let f = data_frame n (b ∷ bs) 0 in
      rw e (
        ap (◌∷◌ f) (
          later (n + 1) (total + length (b ∷ bs)) st
            (last_fin-cons f ((next (n + 1) (total + length (b ∷ bs)) st).0) refl h')))

  answer-stream_frames :
      (seen : ℕ) (answer : Option Bytes) (p : SessionStore × Option Session)
      → last_fin (relay_answer n total next answer p).0 ≡ true
      → (relay_answer n total next answer p).0
        ≡ stream_frames n (chunks_of ((seen, answer) ∷ rounds)) []
  unfolding last_fin
  answer-stream_frames seen answer (st, none) h = cc h
  answer-stream_frames seen none (st, some s) h = later n total st h
  answer-stream_frames seen (some []) (st, some s) h = refl
  answer-stream_frames seen (some (b ∷ bs)) (st, some s) h =
      chunk-stream_frames st s b bs (ltb max_relay_bytes (total + length (b ∷ bs))) refl h

-- A relay that ends with FIN has sent every chunk of the upstream in a frame of its own.
relay-stream_frames :
    (session_id : Text) (rounds : List Round) (n total : ℕ) (st : SessionStore)
    → last_fin (relay session_id rounds n total st).0 ≡ true
    → (relay session_id rounds n total st).0 ≡ stream_frames n (chunks_of rounds) []
unfolding relay last_fin
relay-stream_frames session_id [] n total st h = cc h
relay-stream_frames session_id ((seen, answer) ∷ rounds) n total st h =
    answer-stream_frames n total (relay session_id rounds) rounds
      (λ m k st' e. relay-stream_frames session_id rounds m k st' e) seen answer
      (get_active seen session_id st) h

payloads-stream_frames :
    (n : ℕ) (chunks : List Bytes) → payloads (stream_frames n chunks []) ≡ concat chunks
unfolding payloads
payloads-stream_frames n [] = refl
payloads-stream_frames n (c ∷ chunks) = ap (◌++◌ c) (payloads-stream_frames (n + 1) chunks)

are_data-stream_frames : (n : ℕ) (chunks : List Bytes) → are_data (stream_frames n chunks []) ≡ true
unfolding are_data
are_data-stream_frames n [] = refl
are_data-stream_frames n (c ∷ chunks) = are_data-stream_frames (n + 1) chunks

length-stream_frames :
    (n : ℕ) (chunks : List Bytes) → length (stream_frames n chunks []) ≡ length chunks + 1
length-stream_frames n [] = omega arith
length-stream_frames n (c ∷ chunks) = omega (arith, length-stream_frames (n + 1) chunks)

-- The acknowledgement that opens the response's stream.
abbrev pub opening_fields : Text → Fields
opening_fields resource_id =
    field (codes "ok") (boolean true) (field (codes "resource") (text resource_id) no_field)

-- `json.loads` reads what `json.dumps` writes of an object.
abbrev pub IsKept : Externals → Fields → Type 0
IsKept x d = x.json_loads (x.json_dumps (object d)) ≡ some (object d)

pub encode_control-open_frame :
    (x : Externals) (d : Fields) (f : Frame)
    → encode_control x tcp_open 0 d 1 ≡ ok f
    → (f ≡ open_frame (x.json_dumps (object d))) × (length (x.json_dumps (object d)) ≤ 8192)
unfolding encode_control
encode_control-open_frame x d f e = (ground arith, ground arith)

pub decode_control-open_frame :
    (x : Externals) (d : Fields)
    → IsKept x d
    → decode_control x (open_frame (x.json_dumps (object d))) ≡ ok d
unfolding decode_control
decode_control-open_frame x d kept = rw kept refl

opens : (resource : Text) → is_open_response resource (opening_fields resource) ≡ true
unfolding is_open_response lookup text_eq
opens resource = (text_eq_iff resource resource).1 refl

pub all_frames-IsReceived :
    (c : Codec) (fs : List Frame) → IsReceived c fs → all_frames (feed c (wire_all fs)) ≡ ok fs
all_frames-IsReceived c fs r = rw (r.received, r.finished) refl

framed_response-IsReceived :
    (x : Externals) (resource : Text) (c : Codec) (fs : List Frame)
    → IsReceived c fs
    → framed_response x resource c (wire_all fs) ≡ stream_payload x resource fs
unfolding framed_response
framed_response-IsReceived x resource c fs r =
    let payload_of : Result ProtocolError (List Frame) → Result ExchangeError Bytes =
      λ q. elim q [ err e ↦ err invalid_stream | ok all ↦ stream_payload x resource all ] in
    ap payload_of (all_frames-IsReceived c fs r)

stream_payload-stream_frames :
    (x : Externals) (resource : Text) (chunks : List Bytes) (fs : List Frame)
    → IsKept x (opening_fields resource)
    → fs ≡ stream_frames 1 chunks []
    → last_fin fs ≡ true
    → stream_payload x resource (open_frame (x.json_dumps (object (opening_fields resource))) ∷ fs)
      ≡ ok (concat chunks)
unfolding stream_payload
stream_payload-stream_frames x resource chunks fs kept same ended =
    let stream : are_data fs ≡ true = rw same (are_data-stream_frames 1 chunks) in
    let all : payloads fs ≡ concat chunks = rw same (payloads-stream_frames 1 chunks) in
    rw
      (
        decode_control-open_frame x (opening_fields resource) kept,
        opens resource,
        ended,
        stream,
        all,
      )
      refl

module _ (x : Externals) (resource session_id : Text) (rounds : List Round) (st : SessionStore)
    (opening : Frame) (c : Codec) where
  -- Where the relay's last frame has FIN, a new decoder of the client of 1,024 frames reads, from the
  -- bytes of the opening frame and of the relay's frames, exactly the bytes that the upstream sent
  -- before its end of stream, if each answer of `recv` has 65,536 bytes at most, no more than 1,022
  -- of them have bytes, and JSON reads back what it writes of the opening.
  pub framed_response-relay :
      init 1024 ≡ ok c
      → opening_frame x resource ≡ ok opening
      → IsKept x (opening_fields resource)
      → IsReceivable rounds
      → length (chunks_of rounds) ≤ 1022
      → last_fin (relay session_id rounds 1 0 st).0 ≡ true
      → framed_response x resource c (wire_all (opening ∷ (relay session_id rounds 1 0 st).0))
        ≡ ok (concat (chunks_of rounds))
  framed_response-relay made opened kept sizes few ended =
      let d = opening_fields resource in
      let (same, short) = encode_control-open_frame x d opening opened in
      let sent = relay-stream_frames session_id rounds 1 0 st ended in
      let fs = (relay session_id rounds 1 0 st).0 in
      let received : IsReceived c (open_frame (x.json_dumps (object d)) ∷ fs) = rw sent (
        whole_stream-IsReceived 1024 c (x.json_dumps (object d)) (chunks_of rounds) [] made
          (omega arith) sizes (omega arith) (omega arith) (omega arith)) in
      rw same (
        framed_response-IsReceived x resource c (open_frame (x.json_dumps (object d)) ∷ fs) received
        ∙ stream_payload-stream_frames x resource (chunks_of rounds) fs kept sent ended)
