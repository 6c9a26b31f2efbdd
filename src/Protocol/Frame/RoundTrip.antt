-- ===== src/Protocol/Frame/RoundTrip.antt =====
-- `encode` and `decode` of labztna/protocol.py are inverse on what they accept.
use mathlib.Core.Path.{ap₂}
use ztna_lab.Base.{
  ◌<◌, ◌+◌, ◌≡◌, refl, ap, ◌∙◌, false, ◌++◌, arith, Bytes, IsByte, take, drop, length, ok, All,
  All-take, length-append, length-take, length-drop, take-append-drop, text_eq, text_eq_iff,
}
use ztna_lab.Protocol.Frame.{
  magic, version, header_size, type_code, Frame, FrameType, tcp_open, Header, pack, unpack,
  header_of, check_frame, encode, checked_frame, wrong_version, decode,
}
use ztna_lab.Protocol.Frame.Packing.{
  take-left, drop-left, length-pack, unpack-pack, pack-unpack, Header-eq,
}
use ztna_lab.Protocol.Frame.Semantics.{IsWireFrame, HasSemantics, check_frame-IsWireFrame}
use ztna_lab.Protocol.Frame.Inversion.{
  frame_type_of-type_code, encode-eq-ok, encode_of_check, Decoded, decode-eq-ok,
}

flags_fit : (t : FrameType) (f : Frame) → HasSemantics t f → f.flags < 65536
flags_fit tcp_open f h = omega arith
flags_fit _ f h = omega arith

kind_fits : (t : FrameType) → type_code t < 256
kind_fits tcp_open = omega arith
kind_fits _ = omega arith

pub wire_header : (f : Frame) → IsWireFrame f → unpack (pack (header_of f)) ≡ header_of f
wire_header f w = unpack-pack (header_of f) (record {
  magic_size = refl;
  version_fits = omega arith;
  kind_fits = kind_fits f.frame_type;
  flags_fit = flags_fit f.frame_type f w.semantics;
  stream_fits = w.stream_fits;
  number_fits = w.sequence_fits;
  size_fits = omega arith;
})

pub wire_version : (f : Frame) → wrong_version (header_of f) ≡ false
unfolding wrong_version text_eq
wire_version f = refl

pub decode_wire :
    (f : Frame) → check_frame f ≡ ok tt → decode (pack (header_of f) ++ f.payload) ≡ ok f
unfolding decode checked_frame
decode_wire f c =
    let w = check_frame-IsWireFrame f c in
    let h = header_of f in
    let size : length (pack h) ≡ 24 = length-pack h refl in
    let total : length (pack h ++ f.payload) ≡ 24 + length f.payload =
      omega (arith, length-append (pack h) f.payload) in
    let front : unpack (take 24 (pack h ++ f.payload)) ≡ h =
      ap unpack (take-left 24 (pack h) f.payload size) ∙ wire_header f w in
    let body : drop 24 (pack h ++ f.payload) ≡ f.payload = drop-left 24 (pack h) f.payload size in
    rw (front, body, total)
      (ground (
        arith,
        wire_version f,
        frame_type_of-type_code f.frame_type,
        encode_of_check f c,
        w.payload_fits,
      ))

-- `decode` gives back every frame that `encode` accepts.
pub decode-encode : (f : Frame) (b : Bytes) → encode f ≡ ok b → decode b ≡ ok f
decode-encode f b h = let (c, e) = encode-eq-ok f b h in rw e (decode_wire f c)

known_magic :
    (h : Header) → wrong_version h ≡ false → (magic ≡ h.magic_bytes) × (version ≡ h.version_byte)
unfolding wrong_version
known_magic h e = ground (arith, text_eq_iff h.magic_bytes magic)

header_of-unpack : (b : Bytes) (f : Frame) → Decoded b f → header_of f ≡ unpack (take header_size b)
header_of-unpack b f d =
    let h = unpack (take header_size b) in
    let (m, v) = known_magic h d.known in
    Header-eq (header_of f) h m v d.kind (ap (λ (g : Frame). g.flags) d.same)
      (ap (λ (g : Frame). g.stream_id) d.same) (ap (λ (g : Frame). g.sequence) d.same)
      (ap (λ (g : Frame). length g.payload) d.same
        ∙ omega (arith, d.sized, length-drop header_size b))

-- Bytes that `decode` accepts are those that `encode` writes for the frame: a frame has one form
-- on the wire.
pub encode-decode : (b : Bytes) (f : Frame) → All IsByte b → decode b ≡ ok f → encode f ≡ ok b
encode-decode b f bytes e =
    let d = decode-eq-ok b f e in
    let front = take header_size b in
    let size : length front ≡ 24 = omega (arith, d.long, length-take header_size b) in
    let packed : pack (header_of f) ≡ front =
      ap pack (header_of-unpack b f d)
      ∙ pack-unpack front (All-take IsByte header_size b bytes) size in
    encode_of_check f d.checked
    ∙ ap₂ (λ (x y : Bytes). ok (x ++ y)) packed (ap (λ (g : Frame). g.payload) d.same)
    ∙ ap ok (take-append-drop header_size b)
