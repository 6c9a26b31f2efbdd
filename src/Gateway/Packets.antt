-- ===== src/Gateway/Packets.antt =====
-- `_handle_l3` of labztna/gateway.py: the answers of `recv` as in the relay.
use ztna_lab.Base.{
  text_key, ℕ, ◌+◌, ◌/◌, ◌%◌, true, not, ◌&&◌, ◌||◌, Option, none, some, List, [], ◌∷◌, ◌++◌, ltb,
  ◌==◌, if◌then◌else◌, length, Text, codes, Bytes, Result, ok, err,
}
use ztna_lab.Json.{pos, boolean, number, text, Fields, no_field, field}
use ztna_lab.Auth.{Externals}
use ztna_lab.Audit.{AuditEvent}
use ztna_lab.Addresses.{has_route}
use ztna_lab.Policy.{ResourceDefinition}
use ztna_lab.Protocol.Frame.{l3_data, pong, Frame, ProtocolError, is_type}
use ztna_lab.Protocol.Codec.{Codec, Fed, feed}
use ztna_lab.Protocol.Messages.{encode_control, MessageError}
use ztna_lab.L3.{L3Packet, decode_packet}
use ztna_lab.Session.{Session}
use ztna_lab.Gateway.{dotted}

-- What the handler does with a packet: it closes in silence, denies the packet, or acknowledges it.
-- `acknowledged` holds the frame, unless its encoding raises.
pub data PacketOutcome : Type 0 where
  dropped denied : PacketOutcome
  acknowledged : L3Packet → Result MessageError Frame → PacketOutcome

-- The value that the acknowledgement of a packet carries.
abbrev pub acknowledgement_fields : ResourceDefinition → L3Packet → Fields
acknowledgement_fields definition p = field (codes "ok") (boolean true) (
    field (codes "mode") (text (codes "l3")) (
      field (codes "resource") (text definition.resource_id) (
        field (codes "destination") (text (dotted p.destination))
          (field (codes "bytes") (number (pos (length p.payload))) no_field))))

abbrev pub acknowledgement : Externals → ResourceDefinition → L3Packet → Result MessageError Frame
acknowledgement x definition p = encode_control x pong 0 (acknowledgement_fields definition p) 0

abbrev pub judged :
    Externals → Session → ResourceDefinition → Result ProtocolError L3Packet → PacketOutcome
judged x s definition (err e) = dropped
judged x s definition (ok p) =
    if not (has_route p.destination definition.routes) || not (p.source == s.virtual_ip)
    then denied
    else acknowledged p (acknowledgement x definition p)

-- The first frame decides.
unfoldable pub handle_frame : Externals → Session → ResourceDefinition → Frame → PacketOutcome
handle_frame x s definition f =
    if not (is_type f.frame_type l3_data && f.stream_id == 1)
    then dropped
    else judged x s definition (decode_packet f.payload)

abbrev pub first_frame :
    Externals → Session → ResourceDefinition → (Codec → PacketOutcome) → Fed → PacketOutcome
first_frame x s definition next (c, err e) = dropped
first_frame x s definition next (c, ok []) = next c
first_frame x s definition next (c, ok (f ∷ fs)) = handle_frame x s definition f

unfoldable pub handle_packets :
    Externals → Session → ResourceDefinition → List Bytes → Codec → PacketOutcome
handle_packets x s definition [] c = dropped
handle_packets x s definition ([] ∷ answers) c = dropped
handle_packets x s definition ((b ∷ bs) ∷ answers) c =
    first_frame x s definition (handle_packets x s definition answers) (feed c (b ∷ bs))

-- The decimal digits of a packet's length, which is below 100,000.
unfoldable pub decimal : ℕ → Text
decimal n =
    let d0 = (b'0' + n % 10) ∷ [] in
    let d1 = (b'0' + n / 10 % 10) ∷ d0 in
    let d2 = (b'0' + n / 100 % 10) ∷ d1 in
    let d3 = (b'0' + n / 1000 % 10) ∷ d2 in
    if ltb n 10
    then d0
    else if ltb n 100
    then d1
    else if ltb n 1000
    then d2
    else if ltb n 10000
    then d3
    else (b'0' + n / 10000 % 10) ∷ d3

abbrev packet_audit : Text → Session → ResourceDefinition → Text → Text → Text → AuditEvent
packet_audit stamp s definition request_id outcome detail = record {
  timestamp = stamp;
  event = codes "l3_packet";
  outcome = outcome;
  subject = some s.subject;
  resource = some definition.resource_id;
  device_id = some s.posture.device_id;
  request_id = some request_id;
  detail = some detail;
}

-- The event that a packet leaves in the audit log.
unfoldable pub packet_event :
    Text → Session → ResourceDefinition → Text → PacketOutcome → Option AuditEvent
packet_event stamp s definition request_id dropped = none
packet_event stamp s definition request_id denied =
    some (packet_audit stamp s definition request_id (codes "deny") (codes "route_denied"))
packet_event stamp s definition request_id (acknowledged p (err e)) = none
packet_event stamp s definition request_id (acknowledged p (ok f)) = some (
    packet_audit stamp s definition request_id (codes "allow")
      (codes "bytes=" ++ decimal (length p.payload)))
