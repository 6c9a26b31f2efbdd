-- ===== src/Tests/Transfers.antt =====
-- A request and a response of labztna/client.py through the relay of labztna/gateway.py.
use ztna_lab.Base.{
  text_key, nat_eq, ℕ, ◌≡◌, ◌==◌, ◌↔◌, refl, false, none, some, Option, List, [], ◌∷◌, ◌++◌, arith,
  length, codes, text_eq, starts_with, ends_with, to_be, from_be_onto, Bytes, ok, if◌then◌else◌,
}
use ztna_lab.Base.Dict
use ztna_lab.Json.{Json, text, object, no_field, field, lookup}
use ztna_lab.Auth.{Externals}
use ztna_lab.Netguard.{is_resource_id, is_id_character, all_id_characters}
use ztna_lab.Protocol.Frame.{
  Frame, validate_frame_semantics, check_frame, pack, unpack, encode, decode, frame_type_of,
  checked_frame, wrong_version,
}
use ztna_lab.Protocol.Codec.{
  Codec, Streams, tcp, init, expected_sequence, advance_stream, advance, count_frame, accept, cut,
  drain, feed, finish,
}
use ztna_lab.Protocol.Codec.Steps.{Steps}
use ztna_lab.Protocol.Codec.Wire.{wire_all, feed-wire_all}
use ztna_lab.Protocol.Codec.Transfer.{open_frame, stream_frames}
use ztna_lab.Protocol.Messages.{encode_control, decode_control}
use ztna_lab.Session.{get_active, drop_session}
use ztna_lab.Ipam.{release}
use ztna_lab.Gateway.Http.{all_bytes}
use ztna_lab.Gateway.Relay.{Round, relay, read_request}
use ztna_lab.Client.Exchange.{is_safe_path, request_of, request_frames, last_fin, framed_response}
use ztna_lab.Client.Exchange.Delivered.{opening_fields, framed_response-relay}
use ztna_lab.Client.Exchange.Requested.{request_fields, read_request-request_frames}
use ztna_lab.Tests.Gateways.{externals, gateway}

program : Unit {0}
unfolding Dict.get Dict.put Dict.remove text_eq starts_with ends_with to_be from_be_onto lookup
    is_resource_id is_id_character all_id_characters validate_frame_semantics check_frame pack
    unpack encode decode frame_type_of checked_frame wrong_version init expected_sequence
    advance_stream advance count_frame accept cut drain feed finish encode_control decode_control
    get_active drop_session release all_bytes relay is_safe_path request_of request_frames last_fin
    framed_response
program = tt

-- A stand-in for `json`, on an object whose second field is a text.
abbrev written : Json → Bytes
written (object (field n1 v1 (field n2 (text r) no_field))) = length n1 ∷ r
written j = []

abbrev read_back : Bytes → Option Json
read_back [] = none
read_back (b ∷ r) = some (object (if b == 2 then opening_fields r else request_fields r))

abbrev json_externals : Externals
json_externals = record externals { json_loads = read_back; json_dumps = written }

abbrev new_streams : ℕ → Streams
new_streams max = record {
  next_sequence = [];
  stream_kind = [];
  closed_streams = [];
  is_closed = false;
  frames = 0;
  max_frames = max;
}

abbrev new_codec : ℕ → Codec
new_codec max = record { buffer = []; streams = new_streams max }

abbrev two_frames : List Frame
two_frames = open_frame (codes "o") ∷ stream_frames 1 [] (codes "hi")

abbrev after_two : Streams
after_two = record (new_streams 2) {
  next_sequence = (1, 2) ∷ [];
  stream_kind = (1, tcp) ∷ [];
  closed_streams = 1 ∷ [];
  frames = 2;
}

two_received :
    feed (new_codec 2) (wire_all two_frames)
    ≡ (record { buffer = []; streams = after_two }, ok two_frames)
unfolding program
two_received = refl

feed-wire_all_example :
    (feed (new_codec 2) (wire_all two_frames)
      ≡ (record { buffer = []; streams = after_two }, ok two_frames))
    ↔ Steps (new_streams 2) two_frames after_two
feed-wire_all_example = feed-wire_all (new_streams 2) after_two two_frames

-- The upstream sends two chunks and ends its stream.
abbrev rounds : List Round
rounds =
    (1010, none) ∷ (1020, some (codes "abc")) ∷ (1030, some (codes "de")) ∷ (1040, some []) ∷ []

framed_response-relay_example :
    framed_response json_externals
      (codes "demo")
      (new_codec 1024)
      (wire_all (open_frame (2 ∷ codes "demo") ∷ (relay (codes "a") rounds 1 0 gateway.sessions).0))
    ≡ ok (codes "abc" ++ (codes "de" ++ []))
unfolding program
framed_response-relay_example =
    framed_response-relay json_externals (codes "demo") (codes "a") rounds gateway.sessions
      (open_frame (2 ∷ codes "demo")) (new_codec 1024) refl refl refl
      (omega arith, (omega arith, tt)) (omega arith) refl

abbrev frames_sent : List Frame
frames_sent =
    open_frame (8 ∷ codes "demo") ∷ stream_frames 1 [] (request_of (codes "/a") (codes "demo"))

read_request-request_frames_example :
    read_request json_externals (codes "demo") (wire_all frames_sent ∷ []) (new_codec 64)
    ≡ some (request_of (codes "/a") (codes "demo"))
unfolding program
read_request-request_frames_example =
    read_request-request_frames json_externals (codes "/a") (codes "demo") frames_sent
      (new_codec 64) refl refl refl refl refl
