-- ===== src/L3/Frames/Allowed.antt =====
-- The frame of an allowed packet of labztna/l3.py, at its receiver and at the gateway.
use ztna_lab.Base.{
  nat_eq, ℕ, true, false, Option, none, some, List, [], ◌∷◌, append-nil, ◌==◌, ==_iff, ◌≤◌, ◌≡◌,
  ◌≢◌, refl, sym, ap, ◌∙◌, arith, length, Bytes, Result, ok, err, passed, if◌then◌else◌, Bool-cases,
  inl, inr,
}
use ztna_lab.Base.Dict
use ztna_lab.Json.{object}
use ztna_lab.Auth.{Externals}
use ztna_lab.Addresses.{ipv4, has_route}
use ztna_lab.Protocol.Frame.{l3_data, pong, Frame, ProtocolError, is_type, encode, sequence_gap}
use ztna_lab.Protocol.Frame.Inversion.{encode-eq-ok}
use ztna_lab.Protocol.Frame.Semantics.{IsWireFrame, check_frame-IsWireFrame}
use ztna_lab.Protocol.Codec.{
  Codec, Streams, l3, Fed, init, expected_sequence, advance, advance_stream, count_frame, feed,
}
use ztna_lab.Protocol.Codec.Steps.{Step, next, done}
use ztna_lab.Protocol.Codec.Wire.{wire, length-wire, feed-wire_all, feed_gap}
use ztna_lab.Protocol.Messages.{encode_control}
use ztna_lab.Routeplan.{RouteEntry, RoutePlan, lookup}
use ztna_lab.L3.{L3Packet, encode_packet, decode_packet}
use ztna_lab.L3.RoundTrip.{decode_packet-encode_packet}
use ztna_lab.L3.Frames.{l3_frame, framed, framed_on, packet_to_frame, frame_to_packet}
use ztna_lab.Policy.{ResourceDefinition}
use ztna_lab.Session.{Session}
use ztna_lab.Gateway.Packets.{
  PacketOutcome, dropped, acknowledged, acknowledgement_fields, acknowledgement, handle_frame,
  first_frame, handle_packets,
}

-- What a frame of `packet_to_frame` has passed.
record IsFramed (sequence : ℕ) (p : L3Packet) (plan : RoutePlan) (f : Frame) : Type 0 where
  bytes : Bytes
  encoded : encode_packet p ≡ ok bytes
  frame : l3_frame sequence bytes ≡ f
  source : p.source ≡ plan.virtual_ip
  entry : RouteEntry
  routed : lookup (ipv4 p.destination) plan ≡ some entry

framed-eq-ok :
    (sequence : ℕ) (r : Result ProtocolError Bytes) (f : Frame)
    → framed sequence r ≡ ok f
    → (b : Bytes) × (r ≡ ok b) × (l3_frame sequence b ≡ f)
framed-eq-ok sequence (ok b) f h = (b, refl, cc h)
framed-eq-ok sequence (err e) f h = cc h

framed_on-IsFramed :
    (sequence : ℕ) (p : L3Packet) (plan : RoutePlan) (o : Option RouteEntry) (f : Frame)
    → lookup (ipv4 p.destination) plan ≡ o
    → framed_on sequence p plan o ≡ ok f
    → IsFramed sequence p plan f
framed_on-IsFramed sequence p plan none f e h = cc h
framed_on-IsFramed sequence p plan (some r) f e h =
    let (same, rest) = passed (p.source == plan.virtual_ip) _ _ h in
    let (b, encoded, made) = framed-eq-ok sequence (encode_packet p) f rest in
    record {
      bytes = b;
      encoded = encoded;
      frame = made;
      source = (==_iff _ _).0 same;
      entry = r;
      routed = e;
    }

-- The streams of a decoder that is new, and after one L3 frame.
abbrev fresh : ℕ → Streams
fresh max = record {
  next_sequence = [];
  stream_kind = [];
  closed_streams = [];
  is_closed = false;
  frames = 0;
  max_frames = max;
}

abbrev after_l3 : ℕ → Streams
after_l3 max = record (fresh max) {
  next_sequence = (1, 1) ∷ [];
  stream_kind = (1, l3) ∷ [];
  frames = 1;
}

new_codec :
    (max : ℕ) (c : Codec) → init max ≡ ok c → c ≡ record { buffer = []; streams = fresh max }
unfolding init
new_codec max c e = ground arith

expected_fresh : (max stream : ℕ) → expected_sequence stream (fresh max) ≡ 0
unfolding expected_sequence Dict.get
expected_fresh max stream = refl

l3_Step :
    (max : ℕ) (f : Frame)
    → IsWireFrame f
    → f.sequence ≡ 0
    → f.stream_id ≡ 1
    → f.frame_type ≡ l3_data
    → 1 ≤ max
    → Step (fresh max) f (after_l3 max)
unfolding expected_sequence advance advance_stream count_frame Dict.get Dict.put
l3_Step max f w number stream typed room = record {
  middle = record (fresh max) { stream_kind = (1, l3) ∷ [] };
  wire = w;
  in_order = number;
  allowed = rw (stream, typed) refl;
  counted = rw (stream, number) refl;
  below_limit = room;
}

acknowledgement_sent :
    (x : Externals) (definition : ResourceDefinition) (p : L3Packet)
    → length (x.json_dumps (object (acknowledgement_fields definition p))) ≤ 8192
    → acknowledgement x definition p
      ≡ ok (record {
        frame_type = pong;
        sequence = 0;
        payload = x.json_dumps (object (acknowledgement_fields definition p));
        stream_id = 0;
        flags = 0;
      })
unfolding encode_control
acknowledgement_sent x definition p small = ground arith

module _ (sequence : ℕ) (p : L3Packet) (plan : RoutePlan) (f : Frame)
    (made : packet_to_frame sequence p plan ≡ ok f) where
  facts : IsFramed sequence p plan f
  unfolding packet_to_frame
  facts = framed_on-IsFramed sequence p plan _ f refl made

  decoded : decode_packet f.payload ≡ ok p
  decoded = let t = facts in rw (← t.frame) (decode_packet-encode_packet p t.bytes t.encoded)

  -- A frame that `packet_to_frame` makes gives its packet back under the same plan.
  pub frame_to_packet-packet_to_frame : frame_to_packet f plan ≡ ok p
  unfolding frame_to_packet
  frame_to_packet-packet_to_frame =
      let t = facts in
      let typed : is_type f.frame_type l3_data ≡ true = rw (← t.frame) refl in
      rw (typed, decoded, t.routed, (==_iff _ _).1 t.source)

  handle_frame-packet_to_frame :
      (x : Externals) (s : Session) (definition : ResourceDefinition)
      → plan.virtual_ip ≡ s.virtual_ip
      → has_route p.destination definition.routes ≡ true
      → handle_frame x s definition f ≡ acknowledged p (acknowledgement x definition p)
  unfolding handle_frame
  handle_frame-packet_to_frame x s definition same route =
      let t = facts in
      let typed : is_type f.frame_type l3_data ≡ true = rw (← t.frame) refl in
      let stream : (f.stream_id == 1) ≡ true = rw (← t.frame) refl in
      let from_session : (p.source == s.virtual_ip) ≡ true = (==_iff _ _).1 (t.source ∙ same) in
      rw (typed, stream, decoded, route, from_session)

  at_number : (f.sequence ≡ sequence) × (f.stream_id ≡ 1) × (f.frame_type ≡ l3_data)
  at_number = let t = facts in rw (← t.frame) (refl, refl, refl)

  module _ (x : Externals) (s : Session) (definition : ResourceDefinition) (answers : List Bytes)
      (c : Codec) (bytes : Bytes) (new : init 2 ≡ ok c) (written : encode f ≡ ok bytes) where
    answered :
        (b : Bytes)
        → 1 ≤ length b
        → handle_packets x s definition (b ∷ answers) c
          ≡ first_frame x s definition (handle_packets x s definition answers) (feed c b)
    unfolding handle_packets
    answered [] h = absurd (omega arith)
    answered (b ∷ bs) h = refl

    on_wire : (IsWireFrame f) × (bytes ≡ wire f)
    on_wire =
        let (checked, same) = encode-eq-ok f bytes written in
        (check_frame-IsWireFrame f checked, same)

    long : 1 ≤ length bytes
    long = omega (arith, ap length on_wire.1, length-wire f)

    read_first : sequence ≡ 0 → (feed c bytes).1 ≡ ok (f ∷ [])
    read_first zero_number =
        let (w, same) = on_wire in
        let (number, stream, typed) = at_number in
        let st = l3_Step 2 f w (number ∙ zero_number) stream typed (omega arith) in
        rw (new_codec 2 c new, same)
          (ap (λ (b : Bytes). (feed (record { buffer = []; streams = fresh 2 }) b).1)
              (sym (append-nil (wire f)))
            ∙ ap (λ (r : Fed). r.1)
                ((feed-wire_all (fresh 2) (after_l3 2) (f ∷ [])).1 (next f [] st done)))

    read_gap : sequence ≢ 0 → (feed c bytes).1 ≡ err sequence_gap
    read_gap other =
        let (w, same) = on_wire in
        let (number, _, _) = at_number in
        rw (new_codec 2 c new, same)
          (ap (λ (r : Fed). r.1)
            (feed_gap (fresh 2) f w (λ e. other (sym number ∙ e ∙ expected_fresh 2 f.stream_id))))

    first_ok :
        (r : Fed) (fs : List Frame) (k : Codec → PacketOutcome)
        → r.1 ≡ ok (f ∷ fs)
        → first_frame x s definition k r ≡ handle_frame x s definition f
    first_ok (d, ok []) fs k e = cc e
    first_ok (d, ok (g ∷ gs)) fs k e =
        let same : g ≡ f = cc e in ap (handle_frame x s definition) same
    first_ok (d, err q) fs k e = cc e

    first_err :
        (r : Fed) (e : ProtocolError) (k : Codec → PacketOutcome)
        → r.1 ≡ err e
        → first_frame x s definition k r ≡ dropped
    first_err (d, ok fs) q k e = cc e
    first_err (d, err q') q k e = refl

    -- The gateway, with a new decoder, gets in one answer of recv the bytes of a frame that
    -- `packet_to_frame` makes, in a session with the plan's address and for a resource with a route
    -- to the destination, and the JSON of the acknowledgement has 8,192 bytes at most: it
    -- acknowledges the packet by a PONG with that JSON if the frame's sequence number is 0, and
    -- closes in silence otherwise.
    pub handle_packets-packet_to_frame :
        plan.virtual_ip ≡ s.virtual_ip
        → has_route p.destination definition.routes ≡ true
        → length (x.json_dumps (object (acknowledgement_fields definition p))) ≤ 8192
        → handle_packets x s definition (bytes ∷ answers) c ≡ (
            if sequence == 0
            then acknowledged p (
                ok (record {
                  frame_type = pong;
                  sequence = 0;
                  payload = x.json_dumps (object (acknowledgement_fields definition p));
                  stream_id = 0;
                  flags = 0;
                }))
            else dropped)
    handle_packets-packet_to_frame same route small =
        answered bytes long ∙ elim (Bool-cases (sequence == 0)) [
          | inl first ↦ rw first (
              first_ok (feed c bytes) [] (handle_packets x s definition answers)
                (read_first ((==_iff _ _).0 first))
              ∙ handle_frame-packet_to_frame x s definition same route
              ∙ ap (acknowledged p) (acknowledgement_sent x definition p small))
          | inr later ↦ rw later (
              first_err (feed c bytes) sequence_gap (handle_packets x s definition answers)
                (read_gap (ground (arith, later))))
        ]
