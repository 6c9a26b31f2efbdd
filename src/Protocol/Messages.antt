-- ===== src/Protocol/Messages.antt =====
-- `encode_control` and `decode_control` of labztna/protocol.py.
use ztna_lab.Base.{
  ℕ, Bool, not, ◌&&◌, ltb, ◌==◌, if◌then◌else◌, length, Result, ok, err, ◌>>=◌, or_raise, true,
  false,
}
use ztna_lab.Json.{object, Fields, as_fields}
use ztna_lab.Auth.{Externals}
use ztna_lab.Protocol.Frame.{FrameType, tcp_open, tcp_data, l3_data, Frame, is_type}

-- One constructor for each `raise ProtocolError` of the two.
pub data MessageError : Type 0 where
  invalid_type payload_too_large zero_stream nonzero_stream not_control : MessageError
  invalid_json not_object : MessageError

abbrev pub is_message : FrameType → Bool
is_message tcp_data = false
is_message l3_data = false
is_message _ = true

unfoldable pub encode_control : Externals → FrameType → ℕ → Fields → ℕ → Result MessageError Frame
encode_control x kind sequence value stream_id =
    let payload = x.json_dumps (object value) in
    if not (is_message kind)
    then err invalid_type
    else if ltb 8192 (length payload)
    then err payload_too_large
    else if is_type kind tcp_open && stream_id == 0
    then err zero_stream
    else if not (is_type kind tcp_open) && not (stream_id == 0)
    then err nonzero_stream
    else ok (record {
      frame_type = kind;
      sequence = sequence;
      payload = payload;
      stream_id = stream_id;
      flags = 0;
    })

unfoldable pub decode_control : Externals → Frame → Result MessageError Fields
decode_control x f =
    if not (is_message f.frame_type)
    then err not_control
    else or_raise invalid_json (x.json_loads f.payload) >>= λ value.
        or_raise not_object (as_fields value)
