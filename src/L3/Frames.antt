-- ===== src/L3/Frames.antt =====
-- `packet_to_frame` and `frame_to_packet` of labztna/l3.py: packets that a route plan allows.
pub mod Allowed
use ztna_lab.Base.{
  ℕ, Bool, not, Option, none, some, ◌==◌, if◌then◌else◌, Bytes, Result, ok, err, ◌>>=◌,
}
use ztna_lab.Addresses.{ipv4}
use ztna_lab.Protocol.Frame.{l3_data, Frame, ProtocolError, is_type}
use ztna_lab.Routeplan.{RouteEntry, RoutePlan, lookup}
use ztna_lab.L3.{L3Packet, encode_packet, decode_packet}

-- The `PermissionError`s, the frame of another type, and what the packet's form raises.
pub data RoutedError : Type 0 where
  outside_plan wrong_source plan_violated expected_l3 : RoutedError
  packet_error : ProtocolError → RoutedError

abbrev pub l3_frame : ℕ → Bytes → Frame
l3_frame sequence payload = record {
  frame_type = l3_data;
  sequence = sequence;
  payload = payload;
  stream_id = 1;
  flags = 0;
}

abbrev pub framed : ℕ → Result ProtocolError Bytes → Result RoutedError Frame
framed sequence (ok b) = ok (l3_frame sequence b)
framed sequence (err e) = err (packet_error e)

abbrev pub framed_on : ℕ → L3Packet → RoutePlan → Option RouteEntry → Result RoutedError Frame
framed_on sequence p plan none = err outside_plan
framed_on sequence p plan (some route) =
    if not (p.source == plan.virtual_ip)
    then err wrong_source
    else framed sequence (encode_packet p)

-- `packet_to_frame`
unfoldable pub packet_to_frame : ℕ → L3Packet → RoutePlan → Result RoutedError Frame
packet_to_frame sequence p plan = framed_on sequence p plan (lookup (ipv4 p.destination) plan)

abbrev pub allowed_on : L3Packet → RoutePlan → Option RouteEntry → Result RoutedError L3Packet
allowed_on p plan none = err plan_violated
allowed_on p plan (some route) =
    if not (p.source == plan.virtual_ip) then err plan_violated else ok p

abbrev pub allowed : RoutePlan → Result ProtocolError L3Packet → Result RoutedError L3Packet
allowed plan (err e) = err (packet_error e)
allowed plan (ok p) = allowed_on p plan (lookup (ipv4 p.destination) plan)

-- `frame_to_packet`
unfoldable pub frame_to_packet : Frame → RoutePlan → Result RoutedError L3Packet
frame_to_packet f plan =
    if not (is_type f.frame_type l3_data)
    then err expected_l3
    else allowed plan (decode_packet f.payload)
