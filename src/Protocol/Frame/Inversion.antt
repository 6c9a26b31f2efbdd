-- ===== src/Protocol/Frame/Inversion.antt =====
-- What an accepted call of `encode` or `decode` of labztna/protocol.py says of its argument.
use ztna_lab.Base.{
  ℕ, ◌+◌, ◌≤◌, ◌≡◌, refl, sym, ap, ◌∙◌, false, Option, none, some, ◌++◌, arith, Bytes, take, drop,
  length, ok,
}
use ztna_lab.Protocol.Frame.{
  header_size, max_payload, FrameType, tcp_open, tcp_data, l3_data, ping, pong, close, type_code,
  frame_type_of, Frame, Header, pack, unpack, header_of, check_frame, encode, checked_frame,
  wrong_version, decode,
}

pub frame_type_of-type_code : (t : FrameType) → frame_type_of (type_code t) ≡ some t
unfolding frame_type_of
frame_type_of-type_code tcp_open = refl
frame_type_of-type_code tcp_data = refl
frame_type_of-type_code l3_data = refl
frame_type_of-type_code ping = refl
frame_type_of-type_code pong = refl
frame_type_of-type_code close = refl

pub type_code-frame_type_of : (n : ℕ) (t : FrameType) → frame_type_of n ≡ some t → type_code t ≡ n
unfolding frame_type_of
type_code-frame_type_of n t h = ground arith

pub encode-eq-ok :
    (f : Frame) (b : Bytes)
    → encode f ≡ ok b
    → (check_frame f ≡ ok tt) × (b ≡ pack (header_of f) ++ f.payload)
unfolding encode
encode-eq-ok f b h = ground arith

pub encode_of_check :
    (f : Frame) → check_frame f ≡ ok tt → encode f ≡ ok (pack (header_of f) ++ f.payload)
unfolding encode
encode_of_check f h = ground arith

-- The frame whose type is `t`, whose other fields stand in the header, and whose payload is `body`.
abbrev pub frame_of : FrameType → Header → Bytes → Frame
frame_of t h body = record {
  frame_type = t;
  sequence = h.number;
  payload = body;
  stream_id = h.stream;
  flags = h.flag_word;
}

checked_frame-eq-ok :
    (o : Option FrameType) (h : Header) (body : Bytes) (f : Frame)
    → checked_frame o h body ≡ ok f
    → (t : FrameType) × (o ≡ some t) × (f ≡ frame_of t h body) × (check_frame f ≡ ok tt)
unfolding checked_frame encode
checked_frame-eq-ok none h body f e = cc
checked_frame-eq-ok (some t) h body f e = (t, refl, ground arith, ground arith)

pub record Decoded (b : Bytes) (f : Frame) : Type 0 where
  pub long : 24 ≤ length b
  pub known : wrong_version (unpack (take header_size b)) ≡ false
  pub sized : length b ≡ 24 + (unpack (take header_size b)).payload_length
  pub small : (unpack (take header_size b)).payload_length ≤ max_payload
  pub kind : type_code f.frame_type ≡ (unpack (take header_size b)).kind
  pub same : f ≡ frame_of f.frame_type (unpack (take header_size b)) (drop header_size b)
  pub checked : check_frame f ≡ ok tt

pub decode-eq-ok : (b : Bytes) (f : Frame) → decode b ≡ ok f → Decoded b f
unfolding decode
decode-eq-ok b f e =
    let h = unpack (take header_size b) in
    let body = drop header_size b in
    let guards : (24 ≤ length b)
        × (wrong_version h ≡ false)
        × (length b ≡ 24 + h.payload_length)
        × (h.payload_length ≤ max_payload)
        × (checked_frame (frame_type_of h.kind) h body ≡ ok f) =
      ground arith in
    let (t, kind, same, checked) = checked_frame-eq-ok (frame_type_of h.kind) h body f guards.4 in
    let typed : f.frame_type ≡ t = ap (λ (g : Frame). g.frame_type) same in
    record {
      long = guards.0;
      known = guards.1;
      sized = guards.2;
      small = guards.3;
      kind = ap type_code typed ∙ type_code-frame_type_of h.kind t kind;
      same = same ∙ ap (λ (u : FrameType). frame_of u h body) (sym typed);
      checked = checked;
    }
