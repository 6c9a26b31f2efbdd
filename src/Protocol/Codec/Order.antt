-- ===== src/Protocol/Codec/Order.antt =====
-- Sequence numbers, the frame limit and the life of a stream, over the calls of `FrameCodec.feed`
-- of labztna/protocol.py.
use ztna_lab.Base.{
  nat_eq, ℕ, zero, suc, ◌+◌, ◌≤◌, ◌≡◌, refl, sym, ap, ◌∙◌, Option, none, some, List, [], ◌∷◌, arith,
  ◌==◌, if◌then◌else◌, Bytes, length, ok,
}
use ztna_lab.Base.Dict
use ztna_lab.Base.Dict.{get-put}
use ztna_lab.Protocol.Frame.{FrameType, tcp_open, tcp_data, l3_data, Frame}
use ztna_lab.Protocol.Codec.{
  Codec, Streams, StreamKind, tcp, l3, expected_sequence, advance, advance_stream, count_frame,
  feed,
}
use ztna_lab.Protocol.Codec.Steps.{Step, Steps, done, next, feed-Steps}

-- The sequence numbers of the frames of one stream, in the order of arrival.
abbrev pub numbers_of : ℕ → List Frame → List ℕ
numbers_of stream [] = []
numbers_of stream (f ∷ fs) =
    if f.stream_id == stream then f.sequence ∷ numbers_of stream fs else numbers_of stream fs

abbrev pub count_from : ℕ → ℕ → List ℕ
count_from start zero = []
count_from start (suc n) = start ∷ count_from (start + 1) n

next_sequence-advance_stream :
    (t : FrameType) (k : Option StreamKind) (f : Frame) (s m : Streams)
    → advance_stream t k f s ≡ ok m
    → (m.next_sequence ≡ s.next_sequence) × (m.frames ≡ s.frames) × (m.max_frames ≡ s.max_frames)
unfolding advance_stream
next_sequence-advance_stream tcp_open none f s m e = ground arith
next_sequence-advance_stream tcp_open (some x) f s m e = cc
next_sequence-advance_stream tcp_data none f s m e = cc
next_sequence-advance_stream tcp_data (some tcp) f s m e = ground arith
next_sequence-advance_stream tcp_data (some l3) f s m e = cc
next_sequence-advance_stream l3_data none f s m e = ground arith
next_sequence-advance_stream l3_data (some tcp) f s m e = cc
next_sequence-advance_stream l3_data (some l3) f s m e = ground arith
next_sequence-advance_stream _ k f s m e = ground arith

next_sequence-advance :
    (f : Frame) (s m : Streams)
    → advance f s ≡ ok m
    → (m.next_sequence ≡ s.next_sequence) × (m.frames ≡ s.frames) × (m.max_frames ≡ s.max_frames)
unfolding advance
next_sequence-advance f s m e =
    ground
      (arith, next_sequence-advance_stream f.frame_type (Dict.get f.stream_id s.stream_kind) f s m)

expected-Step :
    (s t : Streams) (f : Frame) (stream : ℕ)
    → Step s f t
    → expected_sequence stream t ≡ (
        if f.stream_id == stream
        then expected_sequence stream s + 1
        else expected_sequence stream s)
unfolding expected_sequence count_frame
expected-Step s t f stream st =
    let (same, _, _) = next_sequence-advance f s st.middle st.allowed in
    let written : Dict.get stream t.next_sequence ≡ (
        if f.stream_id == stream then some (f.sequence + 1) else Dict.get stream s.next_sequence) =
      ap (λ (u : Streams). Dict.get stream u.next_sequence) (sym st.counted)
      ∙ get-put f.stream_id stream (f.sequence + 1) st.middle.next_sequence
      ∙ ap
          (λ (d : Dict.Dict ℕ ℕ).
            if f.stream_id == stream then some (f.sequence + 1) else Dict.get stream d)
          same in
    ground (arith, written, st.in_order)

frames-Step :
    (s t : Streams) (f : Frame)
    → Step s f t
    → (t.frames ≡ s.frames + 1) × (t.max_frames ≡ s.max_frames)
unfolding count_frame
frames-Step s t f st =
    let (_, same, limit) = next_sequence-advance f s st.middle st.allowed in
    let c = st.counted in ground arith

-- The numbers of a stream's frames are consecutive, from the one that the stream expected.
Steps-numbers :
    (stream : ℕ) (s t : Streams) (fs : List Frame)
    → Steps s fs t
    → (numbers_of stream fs
        ≡ count_from (expected_sequence stream s) (length (numbers_of stream fs)))
      × (expected_sequence stream t ≡ expected_sequence stream s + length (numbers_of stream fs))
Steps-numbers stream s t fs done = (refl, omega arith)
Steps-numbers stream s t fs (next {t = m} f rest st more) =
    let (numbers, total) = Steps-numbers stream m t rest more in
    ground (arith, numbers, total, st.in_order, expected-Step s m f stream st)

-- In what one call of `feed` returns, the frames of each stream carry consecutive sequence
-- numbers from the one the stream expected before the call; afterwards the stream expects the next
-- one. No frame of a stream is repeated, skipped or reordered.
pub feed_numbers :
    (c c' : Codec) (bytes : Bytes) (fs : List Frame) (stream : ℕ)
    → feed c bytes ≡ (c', ok fs)
    → (numbers_of stream fs
        ≡ count_from (expected_sequence stream c.streams) (length (numbers_of stream fs)))
      × (expected_sequence stream c'.streams
          ≡ expected_sequence stream c.streams + length (numbers_of stream fs))
feed_numbers c c' bytes fs stream e =
    Steps-numbers stream c.streams c'.streams fs (feed-Steps c c' bytes fs e)

Steps-frames :
    (s t : Streams) (fs : List Frame)
    → Steps s fs t
    → (t.frames ≡ s.frames + length fs)
      × (t.max_frames ≡ s.max_frames)
      × (s.frames ≤ s.max_frames → t.frames ≤ t.max_frames)
Steps-frames s t fs done = (omega arith, refl, λ h. h)
Steps-frames s t fs (next {t = m} f rest st more) =
    let (total, limit, below) = Steps-frames m t rest more in
    let (one, same) = frames-Step s m f st in
    (omega arith, same_limit limit same, λ _. below st.below_limit)
  where
    same_limit : {a b c : ℕ} → a ≡ b → b ≡ c → a ≡ c
    same_limit p q = p ∙ q

-- A call of `feed` that returns frames counts each of them, and never passes the limit that the
-- decoder was made with.
pub feed_limit :
    (c c' : Codec) (bytes : Bytes) (fs : List Frame)
    → c.streams.frames ≤ c.streams.max_frames
    → feed c bytes ≡ (c', ok fs)
    → (c'.streams.frames ≡ c.streams.frames + length fs)
      × (c'.streams.max_frames ≡ c.streams.max_frames)
      × (c'.streams.frames ≤ c'.streams.max_frames)
feed_limit c c' bytes fs h e =
    let (total, limit, below) = Steps-frames c.streams c'.streams fs (feed-Steps c c' bytes fs e) in
    (total, limit, below h)
