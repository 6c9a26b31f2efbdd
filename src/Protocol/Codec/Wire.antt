-- ===== src/Protocol/Codec/Wire.antt =====
-- Frames on the wire: what `Frame.encode` of labztna/protocol.py writes, `FrameCodec.feed` reads.
use ztna_lab.Base.{
  ℕ, ◌+◌, ◌≤◌, ◌≡◌, ◌≢◌, refl, sym, ap, ◌∙◌, ◌↔◌, List, [], ◌∷◌, ◌++◌, arith, Bytes, take, drop,
  length, length-append, ltb, ◌==◌, ok, err, append-nil, ==_iff, false, true,
}
use ztna_lab.Protocol.Frame.{Frame, header_size, pack, unpack, header_of, sequence_gap}
use ztna_lab.Protocol.Frame.Semantics.{IsWireFrame, check_of_IsWireFrame}
use ztna_lab.Protocol.Frame.Packing.{length-pack, take-left}
use ztna_lab.Protocol.Frame.RoundTrip.{wire_header, wire_version, decode_wire}
use ztna_lab.Protocol.Codec.{
  Codec, Streams, whole, cut, accept, accept_decoded, finish_accept, count_frame, expected_sequence,
  append_frames, continue_with, drain_cut, feed,
}
use ztna_lab.Protocol.Codec.Buffer.{cut-append_whole}
use ztna_lab.Protocol.Codec.Chunks.{run, run_lem, feed-run}
use ztna_lab.Protocol.Codec.Steps.{Step, Steps, done, next, feed-Steps}

-- The bytes of a frame, and of several.
abbrev pub wire : Frame → Bytes
wire f = pack (header_of f) ++ f.payload

abbrev pub wire_all : List Frame → Bytes
wire_all [] = []
wire_all (f ∷ fs) = wire f ++ wire_all fs

take_all : {A : Type 0} (xs : List A) → take (length xs) xs ≡ xs
take_all [] = refl
take_all (x ∷ xs) = ap (◌∷◌ x) (take_all xs)

drop_all : {A : Type 0} (xs : List A) → drop (length xs) xs ≡ []
drop_all [] = refl
drop_all (x ∷ xs) = drop_all xs

pub length-wire : (f : Frame) → length (wire f) ≡ 24 + length f.payload
length-wire f =
    omega (arith, length-append (pack (header_of f)) f.payload, length-pack (header_of f) refl)

cut-wire :
    (f : Frame) (rest : Bytes)
    → IsWireFrame f
    → cut (wire f ++ rest) ≡ whole f.stream_id (wire f) rest
unfolding cut
cut-wire f rest w =
    let size : length (pack (header_of f)) ≡ 24 = length-pack (header_of f) refl in
    let front : unpack (take header_size (wire f)) ≡ header_of f =
      ap unpack (take-left 24 (pack (header_of f)) f.payload size) ∙ wire_header f w in
    let taken = ap (λ (n : ℕ). take n (wire f)) (sym (length-wire f)) ∙ take_all (wire f) in
    let dropped = ap (λ (n : ℕ). drop n (wire f)) (sym (length-wire f)) ∙ drop_all (wire f) in
    let alone : cut (wire f) ≡ whole f.stream_id (wire f) [] =
      rw (front, length-wire f, wire_version f, taken, dropped) (ground (arith, w.payload_fits)) in
    cut-append_whole (wire f) rest f.stream_id (wire f) [] alone

counted-ok :
    (m t : Streams) (stream : ℕ) (f : Frame)
    → (count_frame stream f m).0 ≡ t
    → t.frames ≤ t.max_frames
    → count_frame stream f m ≡ (t, ok f)
unfolding count_frame
counted-ok m t stream f same below =
    let within : m.frames + 1 ≤ m.max_frames = rw (← same) at below in
    let fine : ltb m.max_frames (m.frames + 1) ≡ false = ground arith in
    rw fine (ap (λ (u : Streams). (u, ok f)) same)

accept-wire : (s t : Streams) (f : Frame) → Step s f t → accept f.stream_id (wire f) s ≡ (t, ok f)
unfolding accept accept_decoded finish_accept
accept-wire s t f st =
    let decoded = decode_wire f (check_of_IsWireFrame f st.wire) in
    let ordered : (f.sequence == expected_sequence f.stream_id s) ≡ true =
      (==_iff _ _).1 st.in_order in
    rw (decoded, ordered, st.allowed)
      (counted-ok st.middle t f.stream_id f st.counted st.below_limit)

-- The loop on a buffer that holds frames which the streams allow.
run-wire_all :
    (s t : Streams) (fs : List Frame)
    → Steps s fs t
    → run (record { buffer = wire_all fs; streams = s })
      ≡ (record { buffer = []; streams = t }, ok fs)
unfolding cut
run-wire_all s t [] done = run_lem (record { buffer = []; streams = s })
run-wire_all s t (f ∷ fs) (next {t = u} _ _ st rest) =
    let c : Codec = record { buffer = wire f ++ wire_all fs; streams = s } in
    run_lem c
    ∙ ap (drain_cut c run) (cut-wire f (wire_all fs) st.wire)
    ∙ ap (continue_with (wire_all fs) run) (accept-wire s u f st)
    ∙ ap (append_frames (f ∷ [])) (run-wire_all u t fs rest)

accept_gap :
    (s : Streams) (f : Frame)
    → IsWireFrame f
    → f.sequence ≢ expected_sequence f.stream_id s
    → accept f.stream_id (wire f) s ≡ (s, err sequence_gap)
unfolding accept accept_decoded
accept_gap s f w ne =
    let decoded = decode_wire f (check_of_IsWireFrame f w) in
    let gap : (f.sequence == expected_sequence f.stream_id s) ≡ false =
      ground (arith, ==_iff f.sequence (expected_sequence f.stream_id s)) in
    rw (decoded, gap) refl

-- A frame that has not the number which its stream expects is refused.
pub feed_gap :
    (s : Streams) (f : Frame)
    → IsWireFrame f
    → f.sequence ≢ expected_sequence f.stream_id s
    → feed (record { buffer = []; streams = s }) (wire f)
      ≡ (record { buffer = []; streams = s }, err sequence_gap)
feed_gap s f w ne =
    let c : Codec = record { buffer = wire f; streams = s } in
    let alone : cut (wire f) ≡ whole f.stream_id (wire f) [] =
      ap cut (sym (append-nil (wire f))) ∙ cut-wire f [] w in
    feed-run (record { buffer = []; streams = s }) (wire f)
    ∙ run_lem c
    ∙ ap (drain_cut c run) alone
    ∙ ap (continue_with [] run) (accept_gap s f w ne)

-- A decoder with an empty buffer that gets the bytes of frames, one after another, returns exactly
-- these frames, has no byte left, and is left with the streams `t`, exactly if the frames are
-- allowed steps from its streams to `t`.
pub feed-wire_all :
    (s t : Streams) (fs : List Frame)
    → (feed (record { buffer = []; streams = s }) (wire_all fs)
        ≡ (record { buffer = []; streams = t }, ok fs))
      ↔ Steps s fs t
feed-wire_all s t fs = (
  λ e.
      feed-Steps (record { buffer = []; streams = s }) (record { buffer = []; streams = t })
        (wire_all fs) fs e,
  λ st. feed-run (record { buffer = []; streams = s }) (wire_all fs) ∙ run-wire_all s t fs st,
)
