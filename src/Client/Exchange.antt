-- ===== src/Client/Exchange.antt =====
-- `fetch`, `send_l3` and the reading of answers of labztna/client.py: what is sent and how the bytes
-- that come back are read. The answers of `recv` are a list, which ends where the socket raises;
-- `int(text)` and the text of the request id are arguments.
pub mod Accepted
pub mod Delivered
pub mod Requested
use ztna_lab.Base.{
  text_key, nat_eq, ℕ, zero, suc, ◌+◌, Bool, true, false, not, ◌&&◌, Option, List, [], ◌∷◌, ◌++◌,
  leb, ltb, ◌==◌, if◌then◌else◌, length, Text, codes, starts_with, Bytes, Result, ok, err, ◌>>=◌,
}
use ztna_lab.Json.{is_int, text, Fields, no_field, field, is_text, lookup, Json}
use ztna_lab.Auth.{Externals}
use ztna_lab.Protocol.Frame.{
  tcp_open, tcp_data, pong, Frame, ProtocolError, is_type, has_fin, has_rst, flag_fin,
}
use ztna_lab.Protocol.Codec.{Codec, Fed, feed, finish}
use ztna_lab.Protocol.Messages.{MessageError, encode_control, decode_control}
use ztna_lab.Gateway.Http.{all_bytes}

-- One constructor for each `raise`, and the exceptions that a call lets through.
pub data ExchangeError : Type 0 where
  unsafe_path incomplete_line too_large socket_error invalid_stream no_stream : ExchangeError
  bad_acknowledgement incomplete_stream bad_status invalid_response invalid_header : ExchangeError
  invalid_length truncated_response access_denied other_resource invalid_l3 : ExchangeError
  control_error : MessageError → ExchangeError
  codec_error : ProtocolError → ExchangeError

abbrev pub max_http_response : ℕ
max_http_response = 1048576

abbrev pub max_path_length : ℕ
max_path_length = 2048

-- `_read_all`
unfoldable pub read_all : List Bytes → ℕ → Result ExchangeError Bytes
read_all [] total = err socket_error
read_all ([] ∷ answers) total = ok []
read_all ((b ∷ chunk) ∷ answers) total =
    let rest =
      read_all answers (total + length (b ∷ chunk)) >>= λ data'. ok ((b ∷ chunk) ++ data') in
    if ltb max_http_response (total + length (b ∷ chunk)) then err too_large else rest

-- `_readline`, on the bytes up to the end of the stream, with the room that is left.
unfoldable pub read_line : ℕ → Bytes → Result ExchangeError Bytes
read_line room [] = err incomplete_line
read_line zero (b ∷ bytes) = err incomplete_line
read_line (suc room) (b ∷ bytes) =
    let rest = read_line room bytes >>= λ line. ok (b ∷ line) in
    if b == 10 then ok (b ∷ []) else rest

-- The test of a path, and the request that `fetch` sends.
unfoldable pub is_safe_path : Text → Bool
is_safe_path path =
    starts_with (codes "/") path
    && (leb (length path) max_path_length && all_bytes (λ c. leb 0x21 c && leb c 0x7e) path)

unfoldable pub request_of : Text → Text → Bytes
request_of path resource =
    codes "GET "
    ++ (path
        ++ (codes " HTTP/1.1"
            ++ (13 ∷ 10 ∷ codes "Host: "
                ++ (resource
                    ++ (13 ∷ 10 ∷ codes "Connection: close" ++ (13 ∷ 10 ∷ 13 ∷ 10 ∷ []))))))

-- The frames of the request.
unfoldable pub request_frames : Externals → Text → Text → Result MessageError (List Frame)
request_frames x path resource =
    encode_control x tcp_open 0
      (field (codes "protocol") (text (codes "http/1.1"))
        (field (codes "resource") (text resource) no_field))
      1
    >>= λ opening. ok (
        opening
        ∷ record {
          frame_type = tcp_data;
          sequence = 1;
          payload = request_of path resource;
          stream_id = 1;
          flags = flag_fin;
        }
        ∷ [])

-- `open_response == {"ok": True, "resource": self._resource}`, where `1` is equal to `True`.
abbrev pub is_one : Option Json → Bool
is_one = is_int 1

unfoldable pub is_open_response : Text → Fields → Bool
is_open_response resource (field n1 v1 (field n2 v2 no_field)) =
    let d = field n1 v1 (field n2 v2 no_field) in
    is_one (lookup (codes "ok") d) && is_text resource (lookup (codes "resource") d)
is_open_response resource _ = false

-- The frames after the first: all of them data without a reset, and the last with `FLAG_FIN`.
unfoldable pub are_data : List Frame → Bool
are_data [] = true
are_data (f ∷ fs) = (is_type f.frame_type tcp_data && not (has_rst f.flags)) && are_data fs

unfoldable pub last_fin : List Frame → Bool
last_fin [] = false
last_fin (f ∷ []) = has_fin f.flags
last_fin (f ∷ g ∷ fs) = last_fin (g ∷ fs)

unfoldable pub payloads : List Frame → Bytes
payloads [] = []
payloads (f ∷ fs) = f.payload ++ payloads fs

abbrev pub joined : Text → List Frame → Result MessageError Fields → Result ExchangeError Bytes
joined resource fs (err e) = err (control_error e)
joined resource fs (ok d) =
    if not (is_open_response resource d)
    then err bad_acknowledgement
    else if not (last_fin fs && are_data fs)
    then err incomplete_stream
    else ok (payloads fs)

unfoldable pub stream_payload : Externals → Text → List Frame → Result ExchangeError Bytes
stream_payload x resource [] = err no_stream
stream_payload x resource (f ∷ fs) =
    if not (is_type f.frame_type tcp_open && f.stream_id == 1)
    then err no_stream
    else joined resource fs (decode_control x f)

abbrev pub finished :
    Codec → List Frame → Result ProtocolError (Unit {0}) → Result ProtocolError (List Frame)
finished c fs (err e) = err e
finished c fs (ok _) = ok fs

-- The frames of all the bytes, to a decoder that is finished after them.
abbrev pub all_frames : Fed → Result ProtocolError (List Frame)
all_frames (c, err e) = err e
all_frames (c, ok fs) = finished c fs (finish c)

-- The response's bytes, from a new decoder of 1024 frames at most.
unfoldable pub framed_response : Externals → Text → Codec → Bytes → Result ExchangeError Bytes
framed_response x resource codec raw = elim (all_frames (feed codec raw)) [
  | err e ↦ err invalid_stream
  | ok fs ↦ stream_payload x resource fs
]

-- `send_l3`: the acknowledgement, from a new decoder of 2 frames at most.
abbrev pub l3_answer : Externals → List Frame → Result ExchangeError Fields
l3_answer x (f ∷ []) =
    if not (is_type f.frame_type pong)
    then err invalid_l3
    else elim (decode_control x f) [ err e ↦ err (control_error e) | ok d ↦ ok d ]
l3_answer x _ = err invalid_l3

unfoldable pub l3_response : Externals → Codec → Bytes → Result ExchangeError Fields
l3_response x codec raw = elim (all_frames (feed codec raw)) [
  | err e ↦ err (codec_error e)
  | ok fs ↦ l3_answer x fs
]
