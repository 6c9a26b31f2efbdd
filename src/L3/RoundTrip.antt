-- ===== src/L3/RoundTrip.antt =====
-- `L3Packet.encode` and `L3Packet.decode` of labztna/l3.py are inverse to one another.
use ztna_lab.Base.{
  ℕ, ◌+◌, ◌≤◌, ◌<◌, ◌≡◌, ap, ◌∙◌, ◌++◌, arith, Bytes, to_be, length, length-append, length-to_be,
  from_be-to_be, ok,
}
use ztna_lab.Protocol.Frame.Packing.{take-to_be, drop-to_be}
use ztna_lab.L3.{L3Packet, max_packet, encode_packet, decode_packet}

encode_packet-eq-ok :
    (p : L3Packet) (b : Bytes)
    → encode_packet p ≡ ok b
    → (length p.payload ≤ max_packet)
      × (p.source < 4294967296)
      × (p.destination < 4294967296)
      × (b
          ≡ to_be 4 p.source
            ++ (to_be 4 p.destination ++ (to_be 4 (length p.payload) ++ p.payload)))
unfolding encode_packet
encode_packet-eq-ok p b e = (ground arith, ground arith, ground arith, ground arith)

decode_body :
    (s d : ℕ) (pl : Bytes)
    → length pl ≤ max_packet
    → s < 4294967296
    → d < 4294967296
    → decode_packet (to_be 4 s ++ (to_be 4 d ++ (to_be 4 (length pl) ++ pl)))
      ≡ ok (record { source = s; destination = d; payload = pl })
unfolding decode_packet
decode_body s d pl fits hs hd =
    let tail = to_be 4 (length pl) ++ pl in
    let size : length (to_be 4 s ++ (to_be 4 d ++ tail)) ≡ 4 + (4 + (4 + length pl)) =
      simp (length-append, length-to_be) in
    rw
      (
        size,
        take-to_be 4 s (to_be 4 d ++ tail),
        drop-to_be 4 s (to_be 4 d ++ tail),
        take-to_be 4 d tail,
        drop-to_be 4 d tail,
        take-to_be 4 (length pl) pl,
        drop-to_be 4 (length pl) pl,
        from_be-to_be 4 s hs,
        from_be-to_be 4 d hd,
        from_be-to_be 4 (length pl) (omega arith),
      )
      (ground arith)

-- `decode` gives back every packet that `encode` accepts.
pub decode_packet-encode_packet :
    (p : L3Packet) (b : Bytes) → encode_packet p ≡ ok b → decode_packet b ≡ ok p
decode_packet-encode_packet p b e =
    let (fits, hs, hd, same) = encode_packet-eq-ok p b e in
    ap decode_packet same ∙ decode_body p.source p.destination p.payload fits hs hd
