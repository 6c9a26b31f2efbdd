-- ===== src/Protocol/Codec/Total.antt =====
-- The loop of `FrameCodec.feed` of labztna/protocol.py ends within its fuel, and what `finish`
-- of a decoder says of its streams.
use ztna_lab.Base.{
  take, drop, nat_eq, ℕ, zero, suc, ◌<◌, ◌≡◌, ◌≢◌, refl, true, false, Option, none, some, List, [],
  ◌∷◌, arith, Bytes, length, contains, Result, ok, err, ◌⊎◌, inl, inr, Bool-cases,
}
use ztna_lab.Base.Dict
use ztna_lab.Protocol.Frame.{
  Frame, FrameType, tcp_open, Header, ProtocolError, header_size, unpack, frame_type_of,
  check_frame, encode, checked_frame, decode, out_of_fuel,
}
use ztna_lab.Protocol.Codec.{
  Codec, Streams, StreamKind, tcp, l3, Cut, incomplete, malformed, whole, cut, advance,
  advance_stream, count_frame, accept, accept_decoded, finish_accept, Fed, append_frames,
  continue_with, drain_cut, init, feed, finish, has_open_tcp,
}
use ztna_lab.Protocol.Codec.Buffer.{length-cut-lt}
use ztna_lab.Protocol.Codec.Chunks.{run, run_lem, extend, feed-run}
use ztna_lab.Protocol.Codec.Machine.{phase, open_tcp, feed_phases}
use ztna_lab.Protocol.Codec.Endings.{has_opening, has_ending, opened_ends}

check_frame_real_at :
    (t : FrameType) (n : ℕ) (p : Bytes) (i g : ℕ)
    → check_frame (record { frame_type = t; sequence = n; payload = p; stream_id = i; flags = g })
      ≢ err out_of_fuel
unfolding check_frame
check_frame_real_at tcp_open n p i g = ground arith
check_frame_real_at _ n p i g = ground arith

check_frame_real : (f : Frame) → check_frame f ≢ err out_of_fuel
check_frame_real f = check_frame_real_at f.frame_type f.sequence f.payload f.stream_id f.flags

checked_frame_real :
    (o : Option FrameType) (h : Header) (body : Bytes) → checked_frame o h body ≢ err out_of_fuel
unfolding checked_frame encode
checked_frame_real none h body e = cc
checked_frame_real (some t) h body e =
    let f : Frame = record {
      frame_type = t;
      sequence = h.number;
      payload = body;
      stream_id = h.stream;
      flags = h.flag_word;
    } in
    ground (arith, check_frame_real f)

decode_real : (b : Bytes) → decode b ≢ err out_of_fuel
unfolding decode
decode_real b e =
    let h = unpack (take header_size b) in
    ground (arith, checked_frame_real (frame_type_of h.kind) h (drop header_size b))

advance_stream_real :
    (t : FrameType) (k : Option StreamKind) (f : Frame) (s : Streams)
    → advance_stream t k f s ≢ err out_of_fuel
unfolding advance_stream
advance_stream_real tcp_open k f s = ground arith
advance_stream_real _ k f s = ground arith

advance_real : (f : Frame) (s : Streams) → advance f s ≢ err out_of_fuel
unfolding advance
advance_real f s e =
    ground (arith, advance_stream_real f.frame_type (Dict.get f.stream_id s.stream_kind) f s)

finish_accept_real :
    (stream : ℕ) (f : Frame) (s : Streams) (r : Result ProtocolError Streams)
    → r ≢ err out_of_fuel
    → (finish_accept stream f s r).1 ≢ err out_of_fuel
unfolding finish_accept count_frame
finish_accept_real stream f s (ok m) h = ground arith
finish_accept_real stream f s (err x) h = λ p. h (cc p)

accept_decoded_real :
    (stream : ℕ) (s : Streams) (r : Result ProtocolError Frame)
    → r ≢ err out_of_fuel
    → (accept_decoded stream r s).1 ≢ err out_of_fuel
unfolding accept_decoded
accept_decoded_real stream s (err x) h e = h e
accept_decoded_real stream s (ok f) h e =
    ground (arith, finish_accept_real stream f s (advance f s) (advance_real f s))

accept_real : (stream : ℕ) (raw : Bytes) (s : Streams) → (accept stream raw s).1 ≢ err out_of_fuel
unfolding accept
accept_real stream raw s = accept_decoded_real stream s (decode raw) (decode_real raw)

cut_real : (b : Bytes) → cut b ≢ malformed out_of_fuel
unfolding cut
cut_real b = ground arith

-- The outcome of a loop that did not run out of fuel.
abbrev Ends : Fed → Type 0
Ends r = r.1 ≢ err out_of_fuel

append_frames-Ends : (fs : List Frame) (r : Fed) → Ends r → Ends (append_frames fs r)
append_frames-Ends fs (c, ok gs) h = ground arith
append_frames-Ends fs (c, err e) h = h

continue_with-Ends :
    (rest : Bytes) (r : Streams × Result ProtocolError Frame)
    → r.1 ≢ err out_of_fuel
    → ((s : Streams) → Ends (run (record { buffer = rest; streams = s })))
    → Ends (continue_with rest run r)
continue_with-Ends rest (s, err e) real h = λ p. real (cc p)
continue_with-Ends rest (s, ok f) real h =
    append_frames-Ends (f ∷ []) (run (record { buffer = rest; streams = s })) (h s)

drain_cut-Ends :
    (c : Codec) (x : Cut)
    → cut c.buffer ≡ x
    → ((c' : Codec) → length c'.buffer < length c.buffer → Ends (run c'))
    → Ends (drain_cut c run x)
drain_cut-Ends c incomplete k h = ground arith
drain_cut-Ends c (malformed x) k h = ground (arith, cut_real c.buffer)
drain_cut-Ends c (whole stream raw rest) k h =
    continue_with-Ends rest (accept stream raw c.streams) (accept_real stream raw c.streams)
      (λ s. h (record { buffer = rest; streams = s }) (length-cut-lt c.buffer stream raw rest k))

run-Ends : (n : ℕ) (c : Codec) → length c.buffer < n → Ends (run c)
run-Ends zero c h = elim h [ ]
run-Ends (suc n) c h =
    rw run_lem (drain_cut-Ends c (cut c.buffer) refl (λ c' lt. run-Ends n c' (omega arith)))

-- `feed` ends on every input: its loop takes at least 24 bytes in each round, so a round for each
-- byte of the buffer is more than enough.
pub feed-ne-out_of_fuel : (c : Codec) (bytes : Bytes) → (feed c bytes).1 ≢ err out_of_fuel
feed-ne-out_of_fuel c bytes =
    let d = extend c bytes in rw feed-run (run-Ends (suc (length d.buffer)) d (omega arith))

no_open_tcp :
    (closed : List ℕ) (kinds : Dict.Dict ℕ StreamKind) (stream : ℕ)
    → has_open_tcp closed kinds ≡ false
    → Dict.get stream kinds ≡ some tcp
    → contains stream closed ≡ true
unfolding has_open_tcp Dict.get
no_open_tcp closed [] stream h e = cc
no_open_tcp closed ((j, tcp) ∷ kinds) stream h e = ground (arith, no_open_tcp closed kinds stream)
no_open_tcp closed ((j, l3) ∷ kinds) stream h e = ground (arith, no_open_tcp closed kinds stream)

finish-phase :
    (c : Codec) (stream : ℕ)
    → finish c ≡ ok tt
    → (c.buffer ≡ []) × (phase stream c.streams ≢ open_tcp)
unfolding finish phase
finish-phase c stream h = (
  ground arith,
  λ e. ground (arith, no_open_tcp c.streams.closed_streams c.streams.stream_kind stream),
)

-- Where `finish` accepts a decoder that was new before one call of `feed` which returned frames,
-- no byte is left in its buffer, and for every nonzero stream there was no TCP_OPEN among the
-- frames, or there was a TCP_DATA with FIN or RST.
pub finish_closed :
    (max_frames : ℕ) (c c' : Codec) (bytes : Bytes) (fs : List Frame) (stream : ℕ)
    → stream ≢ 0
    → init max_frames ≡ ok c
    → feed c bytes ≡ (c', ok fs)
    → finish c' ≡ ok tt
    → (c'.buffer ≡ []) × ((has_opening stream fs ≡ false) ⊎ (has_ending stream fs ≡ true))
finish_closed max_frames c c' bytes fs stream nz new read done =
    let (empty, shut) = finish-phase c' stream done in
    (
      empty,
      elim (Bool-cases (has_opening stream fs)) [
        | inr never ↦ inl never
        | inl opened ↦ inr (
            opened_ends stream (phase stream c'.streams) (phase stream c.streams) fs shut
              (feed_phases c c' bytes fs stream nz read) opened)
      ],
    )
