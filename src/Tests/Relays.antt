-- ===== src/Tests/Relays.antt =====
-- The relay of labztna/gateway.py: an HTTP request, and a run that ends with the session's deadline.
use ztna_lab.Base.{
  text_key, nat_eq, ◌≡◌, ◌≤◌, ◌+◌, refl, true, false, none, some, List, [], ◌∷◌, ◌++◌, arith,
  length, codes, text_eq, starts_with, ends_with, lstrip_by, rstrip_by, to_be, from_be_onto, Bytes,
}
use ztna_lab.Base.Dict
use ztna_lab.Json.{text, object, no_field, field, lookup}
use ztna_lab.Auth.{Externals}
use ztna_lab.Protocol.Frame.{
  validate_frame_semantics, check_frame, pack, unpack, encode, decode, frame_type_of, checked_frame,
  wrong_version,
}
use ztna_lab.Protocol.Codec.{
  Codec, init, expected_sequence, advance_stream, advance, count_frame, accept, cut, drain, feed,
  finish,
}
use ztna_lab.Protocol.Codec.Order.{count_from}
use ztna_lab.Protocol.Messages.{decode_control}
use ztna_lab.Session.{get_active, drop_session}
use ztna_lab.Ipam.{release}
use ztna_lab.Gateway.Http.{
  split_lines, all_bytes, lower, strip, split_colon, read_header, host_values, valid_request_line,
  valid_http_request,
}
use ztna_lab.Gateway.Http.Valid.{IsHttpRequest, valid_http_request-IsHttpRequest}
use ztna_lab.Gateway.Relay.{
  Round, options_match, read_frame, read_frames, read_answer, read_answers, whole_request,
  read_request, relay, data_frame, max_relay_bytes, max_http_request,
}
use ztna_lab.Gateway.Relay.Bounds.{numbers, payload_total, relay-IsBounded}
use ztna_lab.Gateway.Relay.Requests.{read_request_valid}
use ztna_lab.Tests.Gateways.{externals, gateway}

program : Unit {0}
unfolding Dict.get Dict.put Dict.remove text_eq starts_with ends_with lstrip_by rstrip_by to_be
    from_be_onto lookup validate_frame_semantics check_frame pack unpack encode decode frame_type_of
    checked_frame wrong_version init expected_sequence advance_stream advance count_frame accept cut
    drain feed finish decode_control get_active drop_session release split_lines all_bytes lower
    strip split_colon read_header host_values valid_request_line valid_http_request options_match
    read_frame read_frames read_answer read_answers whole_request read_request relay
program = tt

abbrev crlf : Bytes
crlf = 13 ∷ 10 ∷ []

abbrev http_request : Bytes
http_request = codes "GET / HTTP/1.1" ++ (crlf ++ (codes "Host: demo" ++ (crlf ++ crlf)))

accepted : valid_http_request http_request (codes "demo") ≡ true
unfolding program
accepted = refl

two_hosts :
    valid_http_request
      (codes "GET / HTTP/1.1"
        ++ (crlf ++ (codes "Host: demo" ++ (crlf ++ (codes "HOST: other" ++ (crlf ++ crlf))))))
      (codes "demo")
    ≡ false
unfolding program
two_hosts = refl

-- The control payload is read as the options of the resource.
abbrev options_externals : Externals
options_externals = record externals {
  json_loads = λ b. some (
      object (
        field (codes "protocol") (text (codes "http/1.1"))
          (field (codes "resource") (text (codes "demo")) no_field)));
}

abbrev opening : Bytes
opening =
    b'Z' ∷ b'T' ∷ b'L' ∷ b'1' ∷ 1 ∷ 1 ∷ 0 ∷ 0 ∷ 0 ∷ 0 ∷ 0 ∷ 1 ∷ 0 ∷ 0 ∷ 0 ∷ 0 ∷ 0 ∷ 0 ∷ 0 ∷ 0 ∷ 0
    ∷ 0 ∷ 0 ∷ 2 ∷ b'{' ∷ b'}' ∷ []

abbrev request_frame : Bytes
request_frame =
    (b'Z' ∷ b'T' ∷ b'L' ∷ b'1' ∷ 1 ∷ 2 ∷ 0 ∷ 1 ∷ 0 ∷ 0 ∷ 0 ∷ 1 ∷ 0 ∷ 0 ∷ 0 ∷ 0 ∷ 0 ∷ 0 ∷ 0 ∷ 1 ∷ 0
      ∷ 0 ∷ 0 ∷ 30 ∷ [])
    ++ http_request

abbrev start : Codec
start = record {
  buffer = [];
  streams = record {
    next_sequence = [];
    stream_kind = [];
    closed_streams = [];
    is_closed = false;
    frames = 0;
    max_frames = 64;
  };
}

request_read :
    read_request options_externals (codes "demo") (opening ∷ request_frame ∷ []) start
    ≡ some http_request
unfolding program
request_read = refl

abbrev rounds : List Round
rounds =
    (1010, none)
    ∷ (1020, some (codes "abc"))
    ∷ (1030, some (codes "de"))
    ∷ (1200, some (codes "f"))
    ∷ []

-- The session is over at the last round.
two_sent :
    (relay (codes "a") rounds 1 0 gateway.sessions).0
    ≡ data_frame 1 (codes "abc") 0 ∷ data_frame 2 (codes "de") 0 ∷ []
unfolding program
two_sent = refl

valid_http_request-IsHttpRequest_example : IsHttpRequest http_request (codes "demo")
valid_http_request-IsHttpRequest_example =
    valid_http_request-IsHttpRequest http_request (codes "demo") accepted

read_request_valid_example :
    (valid_http_request http_request (codes "demo") ≡ true)
    × (length http_request ≤ max_http_request)
read_request_valid_example =
    read_request_valid options_externals (codes "demo") (opening ∷ request_frame ∷ []) start
      http_request request_read

relay-IsBounded_example :
    (numbers (relay (codes "a") rounds 1 0 gateway.sessions).0
      ≡ count_from 1 (length (relay (codes "a") rounds 1 0 gateway.sessions).0))
    × (0 + payload_total (relay (codes "a") rounds 1 0 gateway.sessions).0 ≤ max_relay_bytes)
relay-IsBounded_example = relay-IsBounded (codes "a") rounds 1 0 gateway.sessions (omega arith)
