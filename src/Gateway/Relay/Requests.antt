-- ===== src/Gateway/Relay/Requests.antt =====
-- What `_handle_tcp` of labztna/gateway.py sends upstream.
use ztna_lab.Base.{
  >>?-eq-some, ◌≤◌, ◌≡◌, refl, ap, true, false, some, List, [], ◌∷◌, arith, length, Text, Bytes,
  Bool-cases, inl, inr, ok, err, ◌>>?◌, Result,
}
use ztna_lab.Json.{Fields}
use ztna_lab.Auth.{Externals}
use ztna_lab.Protocol.Frame.{Frame, ProtocolError}
use ztna_lab.Protocol.Codec.{Codec, Fed, feed, finish}
use ztna_lab.Protocol.Messages.{MessageError, decode_control}
use ztna_lab.Gateway.Http.{valid_http_request}
use ztna_lab.Gateway.Relay.{
  Reading, max_http_request, opened_by, read_frame, read_frames, fed_frames, read_answer,
  read_answers, whole_request, read_request,
}

-- The bytes read so far are within the limit.
abbrev IsSmall : Reading → Type 0
IsSmall r = length r.request_bytes ≤ max_http_request

module _ (x : Externals) (resource_id : Text) where
  opened_by-IsSmall :
      (r r' : Reading) (o : Result MessageError Fields)
      → IsSmall r
      → opened_by resource_id r o ≡ some r'
      → IsSmall r'
  opened_by-IsSmall r r' (err e) h q = cc q
  opened_by-IsSmall r r' (ok options) h q = ground (arith, h)

  read_frame-IsSmall :
      (f : Frame) (r r' : Reading) → IsSmall r → read_frame x resource_id f r ≡ some r' → IsSmall r'
  unfolding read_frame
  read_frame-IsSmall f r r' h q = ground (arith, h, opened_by-IsSmall r r' (decode_control x f) h)

  read_frames-IsSmall :
      (fs : List Frame) (r r' : Reading)
      → IsSmall r
      → read_frames x resource_id fs r ≡ some r'
      → IsSmall r'
  unfolding read_frames
  read_frames-IsSmall [] r r' h q = ground (arith, h)
  read_frames-IsSmall (f ∷ fs) r r' h q =
      let (m, first, rest) =
        >>?-eq-some (read_frame x resource_id f r) (read_frames x resource_id fs) q in
      read_frames-IsSmall fs m r' (read_frame-IsSmall f r m h first) rest

  fed_frames-IsSmall :
      (r : Reading) (p : Fed) (s : Codec × Reading)
      → IsSmall r
      → fed_frames x resource_id r p ≡ some s
      → IsSmall s.1
  fed_frames-IsSmall r (c, err e) s h q = cc q
  fed_frames-IsSmall r (c, ok fs) s h q =
      let (m, read, same) = >>?-eq-some (read_frames x resource_id fs r) (λ r'. some (c, r')) q in
      let small = read_frames-IsSmall fs r m h read in ground (arith, same, small)

  read_answer-IsSmall :
      (a : Bytes) (s s' : Codec × Reading)
      → IsSmall s.1
      → read_answer x resource_id a s ≡ some s'
      → IsSmall s'.1
  unfolding read_answer
  read_answer-IsSmall [] (c, r) s' h q = cc q
  read_answer-IsSmall (b ∷ bs) (c, r) s' h q = fed_frames-IsSmall r (feed c (b ∷ bs)) s' h q

  read_answers-IsSmall :
      (answers : List Bytes) (s s' : Codec × Reading)
      → IsSmall s.1
      → read_answers x resource_id answers s ≡ some s'
      → IsSmall s'.1
  unfolding read_answers
  read_answers-IsSmall [] s s' h q = ground (arith, h)
  read_answers-IsSmall (a ∷ answers) s s' h q = elim (Bool-cases s.1.complete) [
    | inl done ↦ ground (arith, h, done)
    | inr more ↦
        let q' : (read_answer x resource_id a s >>? read_answers x resource_id answers) ≡ some s' =
          ground (arith, q, more) in
        let (m, first, rest) =
          >>?-eq-some (read_answer x resource_id a s) (read_answers x resource_id answers) q' in
        read_answers-IsSmall answers m s' (read_answer-IsSmall a s m h first) rest
  ]

  whole_cases :
      (c : Codec) (r : Reading) (b : Bytes) (o : Result ProtocolError (Unit {0}))
      → finish c ≡ o
      → whole_request resource_id (c, r) ≡ some b
      → (valid_http_request b resource_id ≡ true) × (r.request_bytes ≡ b)
  unfolding whole_request
  whole_cases c r b (err e) f q = ground (arith, f, q)
  whole_cases c r b (ok _) f q = (ground (arith, f, q), ground (arith, f, q))

  -- What is sent upstream is a valid HTTP request for the resource, of 16 KiB at most.
  pub read_request_valid :
      (answers : List Bytes) (start : Codec) (b : Bytes)
      → read_request x resource_id answers start ≡ some b
      → (valid_http_request b resource_id ≡ true) × (length b ≤ max_http_request)
  unfolding read_request
  read_request_valid answers start b q =
      let s0 : Codec × Reading =
        (start, record { opened = false; complete = false; request_bytes = [] }) in
      let ((c, r), read, whole) =
        >>?-eq-some (read_answers x resource_id answers s0) (whole_request resource_id) q in
      let small = read_answers-IsSmall answers s0 (c, r) (omega arith) read in
      let (valid, same) = whole_cases c r b (finish c) refl whole in
      (valid, omega (arith, small, ap length same))
