-- ===== src/Protocol/Frame/Semantics.antt =====
-- What the checks of labztna/protocol.py accept, as a predicate on frames.
use ztna_lab.Base.{ℕ, ◌<◌, ◌≤◌, ◌≡◌, ◌≢◌, ok, length, arith, Bytes}
use ztna_lab.Protocol.Frame.{FrameType, tcp_open, tcp_data, l3_data, Frame, check_frame}

-- The flags and the stream that a type of frame may have.
abbrev pub HasSemantics : FrameType → Frame → Type 0
HasSemantics tcp_open f = (f.stream_id ≢ 0) × (f.flags ≡ 0)
HasSemantics l3_data f = (f.stream_id ≢ 0) × (f.flags ≡ 0)
HasSemantics tcp_data f = (f.stream_id ≢ 0) × (f.flags ≤ 2) × ((f.flags ≡ 2) → length f.payload ≡ 0)
HasSemantics _ f = (f.stream_id ≡ 0) × (f.flags ≡ 0)

pub record IsWireFrame (f : Frame) : Type 0 where
  pub payload_fits : length f.payload ≤ 65536
  pub sequence_fits : f.sequence < 18446744073709551616
  pub stream_fits : f.stream_id < 4294967296
  pub semantics : HasSemantics f.frame_type f

module _ (s : ℕ) (p : Bytes) (i g : ℕ) where
  abbrev at_type : FrameType → Frame
  at_type t = record { frame_type = t; sequence = s; payload = p; stream_id = i; flags = g }

  check_frame-IsWireFrame_at :
      (t : FrameType) → check_frame (at_type t) ≡ ok tt → IsWireFrame (at_type t)
  unfolding check_frame
  check_frame-IsWireFrame_at tcp_open h = ground arith
  check_frame-IsWireFrame_at _ h = ground arith

  check_of_IsWireFrame_at :
      (t : FrameType) → IsWireFrame (at_type t) → check_frame (at_type t) ≡ ok tt
  unfolding check_frame
  check_of_IsWireFrame_at tcp_open h = ground arith
  check_of_IsWireFrame_at _ h = ground arith

pub check_frame-IsWireFrame : (f : Frame) → check_frame f ≡ ok tt → IsWireFrame f
check_frame-IsWireFrame f =
    check_frame-IsWireFrame_at f.sequence f.payload f.stream_id f.flags f.frame_type

pub check_of_IsWireFrame : (f : Frame) → IsWireFrame f → check_frame f ≡ ok tt
check_of_IsWireFrame f =
    check_of_IsWireFrame_at f.sequence f.payload f.stream_id f.flags f.frame_type
