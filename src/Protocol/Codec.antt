-- ===== src/Protocol/Codec.antt =====
-- `FrameCodec` of labztna/protocol.py. What the decoder knows of its streams is a record of its
-- own beside the buffer; a call returns the new state with its result, also when it raises.
pub mod Buffer
pub mod Chunks
pub mod Steps
pub mod Order
pub mod Machine
pub mod Endings
pub mod Total
pub mod Wire
pub mod Transfer
use ztna_lab.Base.{
  nat_eq, ℕ, zero, suc, ◌+◌, Bool, true, false, not, ◌&&◌, ◌||◌, Option, none, some, List, [], ◌∷◌,
  ◌++◌, ltb, leb, ◌==◌, if◌then◌else◌, Bytes, take, drop, length, contains, Result, ok, err, ◌>>=◌,
}
use ztna_lab.Base.Dict
use ztna_lab.Base.Dict.{Dict}
use ztna_lab.Protocol.Frame.{
  FrameType, tcp_open, tcp_data, l3_data, close, Frame, ProtocolError, header_size, max_payload,
  max_frame, unpack, wrong_version, decode, is_type, has_fin, has_rst, payload_exceeds_limit,
  unsupported_frame, truncated_end, unfinished_tcp, sequence_gap, frame_limit, buffer_limit,
  connection_closed, stream_closed, already_open, not_open, mixed_stream, bad_max_frames,
  out_of_fuel,
}

-- The strings "tcp" and "l3".
pub data StreamKind : Type 0 where
  tcp l3 : StreamKind

pub record Streams : Type 0 where
  pub next_sequence : Dict ℕ ℕ
  pub stream_kind : Dict ℕ StreamKind
  pub closed_streams : List ℕ
  pub is_closed : Bool
  pub frames : ℕ
  pub max_frames : ℕ

pub record Codec : Type 0 where
  pub buffer : Bytes
  pub streams : Streams

unfoldable pub init : ℕ → Result ProtocolError Codec
init max_frames =
    if leb max_frames 0
    then err bad_max_frames
    else ok (record {
      buffer = [];
      streams = record {
        next_sequence = [];
        stream_kind = [];
        closed_streams = [];
        is_closed = false;
        frames = 0;
        max_frames = max_frames;
      };
    })

abbrev or_zero : Option ℕ → ℕ
or_zero none = 0
or_zero (some n) = n

-- The method `next_sequence`.
unfoldable pub expected_sequence : ℕ → Streams → ℕ
unfolding Dict.get
expected_sequence stream s = or_zero (Dict.get stream s.next_sequence)

abbrev pub is_tcp : Option StreamKind → Bool
is_tcp (some tcp) = true
is_tcp _ = false

-- The branches of `_advance_stream_state` for a nonzero stream that is not closed, given the kind
-- that the stream has so far.
unfoldable pub advance_stream :
    FrameType → Option StreamKind → Frame → Streams → Result ProtocolError Streams
advance_stream tcp_open (some k) f s = err already_open
advance_stream tcp_open none f s =
    if f.sequence == 0
    then ok (record s { stream_kind = Dict.put f.stream_id tcp s.stream_kind })
    else err already_open
advance_stream tcp_data (some tcp) f s =
    if has_fin f.flags || has_rst f.flags
    then ok (record s { closed_streams = f.stream_id ∷ s.closed_streams })
    else ok s
advance_stream tcp_data _ f s = err not_open
advance_stream l3_data (some tcp) f s = err mixed_stream
advance_stream l3_data _ f s = ok (record s { stream_kind = Dict.put f.stream_id l3 s.stream_kind })
advance_stream _ kind f s = ok s

unfoldable pub advance : Frame → Streams → Result ProtocolError Streams
advance f s =
    if s.is_closed
    then err connection_closed
    else if f.stream_id == 0
    then ok (if is_type f.frame_type close then record s { is_closed = true } else s)
    else if contains f.stream_id s.closed_streams
    then err stream_closed
    else advance_stream f.frame_type (Dict.get f.stream_id s.stream_kind) f s

-- The end of the loop's body: the sequence number and the frame count move on.
unfoldable pub count_frame : ℕ → Frame → Streams → Streams × Result ProtocolError Frame
count_frame stream f s =
    let s' : Streams = record s {
      next_sequence = Dict.put stream (f.sequence + 1) s.next_sequence;
      frames = s.frames + 1;
    } in
    (s', if ltb s'.max_frames s'.frames then err frame_limit else ok f)

finish_accept :
    ℕ → Frame → Streams → Result ProtocolError Streams → Streams × Result ProtocolError Frame
finish_accept stream f s (err e) = (s, err e)
finish_accept stream f s (ok s') = count_frame stream f s'

accept_decoded : ℕ → Result ProtocolError Frame → Streams → Streams × Result ProtocolError Frame
accept_decoded stream (err e) s = (s, err e)
accept_decoded stream (ok f) s =
    if f.sequence == expected_sequence stream s
    then finish_accept stream f s (advance f s)
    else (s, err sequence_gap)

-- The body of the loop of `feed` on the bytes of one frame, whose header names `stream`.
unfoldable pub accept : ℕ → Bytes → Streams → Streams × Result ProtocolError Frame
unfolding accept_decoded finish_accept
accept stream raw s = accept_decoded stream (decode raw) s

-- How the head of the loop of `feed` cuts the buffer.
pub data Cut : Type 0 where
  incomplete : Cut
  malformed : ProtocolError → Cut
  whole : ℕ → Bytes → Bytes → Cut

unfoldable pub cut : Bytes → Cut
cut b =
    let h = unpack (take header_size b) in
    let total = header_size + h.payload_length in
    if ltb (length b) header_size
    then incomplete
    else if wrong_version h
    then malformed unsupported_frame
    else if ltb max_payload h.payload_length
    then malformed payload_exceeds_limit
    else if ltb (length b) total
    then incomplete
    else whole h.stream (take total b) (drop total b)

abbrev pub Fed : Type 0
Fed = Codec × Result ProtocolError (List Frame)

-- `frames.append(frame)`, and the rest of the loop unless an exception was raised.
abbrev pub append_frames : List Frame → Fed → Fed
append_frames fs (c, ok gs) = (c, ok (fs ++ gs))
append_frames fs (c, err e) = (c, err e)

abbrev continue_with : Bytes → (Codec → Fed) → Streams × Result ProtocolError Frame → Fed
continue_with rest k (s, err e) = (record { buffer = rest; streams = s }, err e)
continue_with rest k (s, ok f) = append_frames (f ∷ []) (k (record { buffer = rest; streams = s }))

abbrev drain_cut : Codec → (Codec → Fed) → Cut → Fed
drain_cut c k incomplete = (c, ok [])
drain_cut c k (malformed e) = (c, err e)
drain_cut c k (whole stream raw rest) = continue_with rest k (accept stream raw c.streams)

-- The loop of `feed`, a frame for each unit of fuel.
unfoldable pub drain : ℕ → Codec → Fed
drain zero c = (c, err out_of_fuel)
drain (suc fuel) c = drain_cut c (drain fuel) (cut c.buffer)

abbrev check_buffer : Fed → Fed
check_buffer (c, ok fs) = (c, if ltb max_frame (length c.buffer) then err buffer_limit else ok fs)
check_buffer (c, err e) = (c, err e)

-- Each round of the loop takes 24 bytes at least from the buffer.
unfoldable pub feed : Codec → Bytes → Fed
feed c bytes =
    let c' : Codec = record c { buffer = c.buffer ++ bytes } in
    check_buffer (drain (suc (length c'.buffer)) c')

has_open_tcp : List ℕ → Dict ℕ StreamKind → Bool
has_open_tcp closed [] = false
has_open_tcp closed ((stream, kind) ∷ rest) =
    is_tcp (some kind) && not (contains stream closed) || has_open_tcp closed rest

unfoldable pub finish : Codec → Result ProtocolError (Unit {0})
unfolding has_open_tcp
finish c =
    if not (length c.buffer == 0)
    then err truncated_end
    else if has_open_tcp c.streams.closed_streams c.streams.stream_kind
    then err unfinished_tcp
    else ok tt
