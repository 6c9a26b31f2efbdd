-- ===== src/L3.antt =====
-- `L3Packet` of labztna/l3.py. An IPv4 address is its number; the code keeps its dotted text.
pub mod RoundTrip
pub mod Frames
use ztna_lab.Base.{
  ℕ, ◌+◌, ◌-◌, Bool, not, ◌||◌, List, ◌++◌, ltb, ◌==◌, if◌then◌else◌, Bytes, to_be, from_be, take,
  drop, length, Result, ok, err,
}
use ztna_lab.Protocol.Frame.{
  ProtocolError, max_payload, l3_too_large, l3_address, l3_truncated, l3_length,
}

abbrev pub max_packet : ℕ
max_packet = max_payload - 12

pub record L3Packet : Type 0 where
  pub source : ℕ
  pub destination : ℕ
  pub payload : Bytes

-- `L3Packet.encode`; a number that is no IPv4 address is refused as its text is.
unfoldable pub encode_packet : L3Packet → Result ProtocolError Bytes
encode_packet p =
    if ltb max_packet (length p.payload)
    then err l3_too_large
    else if ltb 0xffff_ffff p.source || ltb 0xffff_ffff p.destination
    then err l3_address
    else ok
        (to_be 4 p.source ++ (to_be 4 p.destination ++ (to_be 4 (length p.payload) ++ p.payload)))

-- `L3Packet.decode`
unfoldable pub decode_packet : Bytes → Result ProtocolError L3Packet
decode_packet encoded =
    let rest = drop 4 encoded in
    let size = from_be (take 4 (drop 4 rest)) in
    if ltb (length encoded) 12
    then err l3_truncated
    else if ltb max_packet size || not (size == length encoded - 12)
    then err l3_length
    else ok (record {
      source = from_be (take 4 encoded);
      destination = from_be (take 4 rest);
      payload = drop 4 (drop 4 rest);
    })
