-- ===== src/Protocol/Frame.antt =====
-- `Frame`, its checks, `encode` and `decode` of labztna/protocol.py.
-- A flag word is a natural number: `flags & FLAG_FIN` is `flags % 2`, `flags & FLAG_RST` is
-- `flags / 2 % 2`, and `flags & ~ALLOWED_FLAGS` is nonzero exactly when `flags / 4` is.
pub mod Packing
pub mod Semantics
pub mod Inversion
pub mod RoundTrip
use ztna_lab.Base.{
  ℕ, ◌+◌, ◌/◌, ◌%◌, ◌^◌, ◌-◌, Bool, true, false, not, ◌&&◌, ◌||◌, Option, none, some, List, [], ◌∷◌,
  ◌++◌, ltb, ◌==◌, if◌then◌else◌, Bytes, to_be, from_be, take, drop, length, text_eq, Result, ok,
  err, ◌>>=◌, ◌>>◌,
}

abbrev pub magic : Bytes
magic = b'Z' ∷ b'T' ∷ b'L' ∷ b'1' ∷ []

abbrev pub version : ℕ
version = 1

-- The size of `!4sBBHIQI`.
abbrev pub header_size : ℕ
header_size = 24

abbrev pub max_payload : ℕ
max_payload = 65536

abbrev pub max_frame : ℕ
max_frame = 65560

abbrev pub flag_fin : ℕ
flag_fin = 1

abbrev pub flag_rst : ℕ
flag_rst = 2

abbrev pub allowed_flags : ℕ
allowed_flags = 3

pub data FrameType : Type 0 where
  tcp_open tcp_data l3_data ping pong close : FrameType

-- The value of the `IntEnum` member.
abbrev pub type_code : FrameType → ℕ
type_code tcp_open = 1
type_code tcp_data = 2
type_code l3_data = 3
type_code ping = 4
type_code pong = 5
type_code close = 6

-- `FrameType(n)`; `none` is the `ValueError`.
unfoldable pub frame_type_of : ℕ → Option FrameType
frame_type_of n =
    if n == 1
    then some tcp_open
    else if n == 2
    then some tcp_data
    else if n == 3
    then some l3_data
    else if n == 4
    then some ping
    else if n == 5
    then some pong
    else if n == 6
    then some close
    else none

-- One constructor for each `raise ProtocolError`; `bad_max_frames` is the `ValueError` of
-- `FrameCodec`. `out_of_fuel` is no error of the program: the
-- loop of `feed` would give it if its fuel could run out.
pub data ProtocolError : Type 0 where
  payload_exceeds_limit sequence_out_of_range stream_id_out_of_range : ProtocolError
  unsupported_flags control_fields zero_stream flags_not_permitted fin_and_rst : ProtocolError
  rst_payload truncated_frame unsupported_frame invalid_length unknown_type : ProtocolError
  truncated_end unfinished_tcp sequence_gap frame_limit buffer_limit : ProtocolError
  connection_closed stream_closed already_open not_open mixed_stream : ProtocolError
  not_control invalid_json not_object l3_too_large l3_address : ProtocolError
  l3_truncated l3_length expected_l3 bad_max_frames out_of_fuel : ProtocolError

pub record Frame : Type 0 where
  pub frame_type : FrameType
  pub sequence : ℕ
  pub payload : Bytes
  pub stream_id : ℕ
  pub flags : ℕ

abbrev pub has_fin : ℕ → Bool
has_fin flags = flags % 2 == 1

abbrev pub has_rst : ℕ → Bool
has_rst flags = flags / 2 % 2 == 1

abbrev pub is_control : FrameType → Bool
is_control ping = true
is_control pong = true
is_control close = true
is_control _ = false

abbrev pub is_type : FrameType → FrameType → Bool
is_type t u = type_code t == type_code u

unfoldable pub validate_frame_semantics : Frame → Result ProtocolError (Unit {0})
validate_frame_semantics f =
    if is_control f.frame_type
    then if not (f.stream_id == 0) || not (f.flags == 0) then err control_fields else ok tt
    else if f.stream_id == 0
    then err zero_stream
    else if (is_type f.frame_type tcp_open || is_type f.frame_type l3_data) && not (f.flags == 0)
    then err flags_not_permitted
    else if is_type f.frame_type tcp_data
    then if f.flags == allowed_flags
      then err fin_and_rst
      else if has_rst f.flags && not (length f.payload == 0)
      then err rst_payload
      else ok tt
    else ok tt

-- The fields of the packed header, the constant ones included.
pub record Header : Type 0 where
  pub magic_bytes : Bytes
  pub version_byte : ℕ
  pub kind : ℕ
  pub flag_word : ℕ
  pub stream : ℕ
  pub number : ℕ
  pub payload_length : ℕ

-- `HEADER.pack` and `HEADER.unpack`
unfoldable pub pack : Header → Bytes
pack h =
    h.magic_bytes
    ++ (to_be 1 h.version_byte
        ++ (to_be 1 h.kind
            ++ (to_be 2 h.flag_word
                ++ (to_be 4 h.stream ++ (to_be 8 h.number ++ to_be 4 h.payload_length)))))

unfoldable pub unpack : Bytes → Header
unpack b =
    let b1 = drop 4 b in
    let b2 = drop 1 b1 in
    let b3 = drop 1 b2 in
    let b4 = drop 2 b3 in
    let b5 = drop 4 b4 in
    let b6 = drop 8 b5 in
    record {
      magic_bytes = take 4 b;
      version_byte = from_be (take 1 b1);
      kind = from_be (take 1 b2);
      flag_word = from_be (take 2 b3);
      stream = from_be (take 4 b4);
      number = from_be (take 8 b5);
      payload_length = from_be (take 4 b6);
    }

abbrev pub header_of : Frame → Header
header_of f = record {
  magic_bytes = magic;
  version_byte = version;
  kind = type_code f.frame_type;
  flag_word = f.flags;
  stream = f.stream_id;
  number = f.sequence;
  payload_length = length f.payload;
}

-- The checks that `encode` makes before it packs.
unfoldable pub check_frame : Frame → Result ProtocolError (Unit {0})
unfolding validate_frame_semantics
check_frame f =
    if ltb max_payload (length f.payload)
    then err payload_exceeds_limit
    else if ltb 0xffff_ffff_ffff_ffff f.sequence
    then err sequence_out_of_range
    else if ltb 0xffff_ffff f.stream_id
    then err stream_id_out_of_range
    else if not (f.flags / 4 == 0)
    then err unsupported_flags
    else validate_frame_semantics f

unfoldable pub encode : Frame → Result ProtocolError Bytes
encode f = do check_frame f; ok (pack (header_of f) ++ f.payload)

-- `decode` once the type is known: the new frame passes the checks of `encode`.
unfoldable pub checked_frame : Option FrameType → Header → Bytes → Result ProtocolError Frame
checked_frame none h body = err unknown_type
checked_frame (some kind) h body =
    let f : Frame = record {
      frame_type = kind;
      sequence = h.number;
      payload = body;
      stream_id = h.stream;
      flags = h.flag_word;
    } in
    do encode f; ok f

-- `magic != MAGIC or version != VERSION`
unfoldable pub wrong_version : Header → Bool
wrong_version h = not (text_eq h.magic_bytes magic) || not (h.version_byte == version)

unfoldable pub decode : Bytes → Result ProtocolError Frame
unfolding checked_frame
decode b =
    let h = unpack (take header_size b) in
    if ltb (length b) header_size
    then err truncated_frame
    else if wrong_version h
    then err unsupported_frame
    else if ltb max_payload h.payload_length || not (length b == header_size + h.payload_length)
    then err invalid_length
    else checked_frame (frame_type_of h.kind) h (drop header_size b)
