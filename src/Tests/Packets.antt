-- ===== src/Tests/Packets.antt =====
-- A packet of labztna/l3.py from the lab's pool to a fake address.
use ztna_lab.Base.{◌≡◌, refl, [], ◌∷◌, Bytes, to_be, from_be_onto, ok}
use ztna_lab.L3.{L3Packet, encode_packet, decode_packet}
use ztna_lab.L3.RoundTrip.{decode_packet-encode_packet}

program : Unit {0}
unfolding to_be from_be_onto encode_packet decode_packet
program = tt

abbrev packet : L3Packet
packet = record { source = 1681915905; destination = 3323068417; payload = b'h' ∷ b'i' ∷ [] }

abbrev packet_bytes : Bytes
packet_bytes = 100 ∷ 64 ∷ 0 ∷ 1 ∷ 198 ∷ 18 ∷ 0 ∷ 1 ∷ 0 ∷ 0 ∷ 0 ∷ 2 ∷ b'h' ∷ b'i' ∷ []

packet_encodes : encode_packet packet ≡ ok packet_bytes
unfolding program
packet_encodes = refl

decode_packet-encode_packet_example : decode_packet packet_bytes ≡ ok packet
decode_packet-encode_packet_example = decode_packet-encode_packet packet packet_bytes packet_encodes
