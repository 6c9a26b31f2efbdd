-- ===== src/Protocol/Codec/Machine.antt =====
-- The life of one stream of labztna/protocol.py as a small automaton, and the decoder against it.
use ztna_lab.Base.{
  nat_eq, ℕ, ◌≡◌, ◌≢◌, refl, sym, ap, ◌∙◌, false, ◌||◌, Option, none, some, List, [], ◌∷◌, arith,
  ◌==◌, if◌then◌else◌, Bytes, contains, ok, Bool-cases, inl, inr,
}
use ztna_lab.Base.Dict
use ztna_lab.Base.Dict.{get-put}
use ztna_lab.Protocol.Frame.{FrameType, tcp_open, tcp_data, l3_data, Frame, has_fin, has_rst}
use ztna_lab.Protocol.Frame.Semantics.{HasSemantics}
use ztna_lab.Protocol.Codec.{
  Codec, Streams, StreamKind, tcp, l3, advance, advance_stream, count_frame, feed,
}
use ztna_lab.Protocol.Codec.Steps.{Step, Steps, done, next, feed-Steps}

-- `fresh` before the first frame, `open_tcp` between TCP_OPEN and FIN or RST, `ended` after it.
pub data Phase : Type 0 where
  fresh open_tcp ended open_l3 : Phase

abbrev kind_phase : Option StreamKind → Phase
kind_phase none = fresh
kind_phase (some tcp) = open_tcp
kind_phase (some l3) = open_l3

-- The phase that the decoder's tables give a stream.
unfoldable pub phase : ℕ → Streams → Phase
phase stream s =
    if contains stream s.closed_streams then ended else kind_phase (Dict.get stream s.stream_kind)

-- The automaton: the phase after a frame of the stream, or `none` where the frame is not allowed.
unfoldable pub move : FrameType → Phase → Frame → Option Phase
move tcp_open fresh f = some open_tcp
move tcp_data open_tcp f = if has_fin f.flags || has_rst f.flags then some ended else some open_tcp
move l3_data fresh f = some open_l3
move l3_data open_l3 f = some open_l3
move _ p f = none

abbrev pub move_all : ℕ → Option Phase → List Frame → Option Phase
move_all stream none fs = none
move_all stream (some p) [] = some p
move_all stream (some p) (f ∷ fs) =
    let p' = if f.stream_id == stream then move f.frame_type p f else some p in
    move_all stream p' fs

-- One frame of the wire moves its own stream as the automaton says, and no other.
advance_stream-phase :
    (t : FrameType) (f : Frame) (s m : Streams) (stream : ℕ)
    → HasSemantics t f
    → f.stream_id ≢ 0
    → contains f.stream_id s.closed_streams ≡ false
    → advance_stream t (Dict.get f.stream_id s.stream_kind) f s ≡ ok m
    → (if f.stream_id == stream then move t (phase stream s) f else some (phase stream s))
      ≡ some (phase stream m)
unfolding advance_stream move phase
advance_stream-phase tcp_open f s m stream h nz o e =
    ground (arith, get-put f.stream_id stream tcp s.stream_kind)
advance_stream-phase tcp_data f s m stream h nz o e = ground arith
advance_stream-phase l3_data f s m stream h nz o e =
    ground (arith, get-put f.stream_id stream l3 s.stream_kind)
advance_stream-phase _ f s m stream h nz o e = ground arith

phase-count_frame :
    (n stream : ℕ) (f : Frame) (m : Streams) → phase stream (count_frame n f m).0 ≡ phase stream m
unfolding phase count_frame
phase-count_frame n stream f m = refl

zero_stream_phase :
    (f : Frame) (s m : Streams) (stream : ℕ)
    → stream ≢ 0
    → f.stream_id ≡ 0
    → advance f s ≡ ok m
    → phase stream m ≡ phase stream s
unfolding advance phase
zero_stream_phase f s m stream nz z e = ground arith

advance-phase :
    (f : Frame) (s m : Streams) (stream : ℕ)
    → stream ≢ 0
    → HasSemantics f.frame_type f
    → advance f s ≡ ok m
    → (if f.stream_id == stream
        then move f.frame_type (phase stream s) f
        else some (phase stream s))
      ≡ some (phase stream m)
advance-phase f s m stream nz h e = elim (Bool-cases (f.stream_id == 0)) [
  | inl z ↦ ground (arith, zero_stream_phase f s m stream)
  | inr nonzero ↦
      let open_parts : (contains f.stream_id s.closed_streams ≡ false)
          × (advance_stream f.frame_type (Dict.get f.stream_id s.stream_kind) f s ≡ ok m) =
        unfold advance in ground arith in
      advance_stream-phase f.frame_type f s m stream h (ground arith) open_parts.0 open_parts.1
]

Step-phase :
    (s t : Streams) (f : Frame) (stream : ℕ)
    → stream ≢ 0
    → Step s f t
    → (if f.stream_id == stream
        then move f.frame_type (phase stream s) f
        else some (phase stream s))
      ≡ some (phase stream t)
Step-phase s t f stream nz st =
    advance-phase f s st.middle stream nz st.wire.semantics st.allowed
    ∙ ap some
        (sym (phase-count_frame f.stream_id stream f st.middle) ∙ ap (phase stream) st.counted)

Steps-phase :
    (s t : Streams) (fs : List Frame) (stream : ℕ)
    → stream ≢ 0
    → Steps s fs t
    → move_all stream (some (phase stream s)) fs ≡ some (phase stream t)
Steps-phase s t fs stream nz done = refl
Steps-phase s t fs stream nz (next {t = m} f rest st more) =
    ap (λ (p : Option Phase). move_all stream p rest) (Step-phase s m f stream nz st)
    ∙ Steps-phase m t rest stream nz more

-- The frames that a call of `feed` returns for a nonzero stream are a run of the automaton, from
-- the phase of the stream before the call to its phase after it: TCP_DATA comes only between
-- TCP_OPEN and the first FIN or RST, nothing follows those, and L3 and TCP frames never mix.
pub feed_phases :
    (c c' : Codec) (bytes : Bytes) (fs : List Frame) (stream : ℕ)
    → stream ≢ 0
    → feed c bytes ≡ (c', ok fs)
    → move_all stream (some (phase stream c.streams)) fs ≡ some (phase stream c'.streams)
feed_phases c c' bytes fs stream nz e =
    Steps-phase c.streams c'.streams fs stream nz (feed-Steps c c' bytes fs e)
