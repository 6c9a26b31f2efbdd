-- ===== src/Tests/Wire.antt =====
-- Two frames of labztna/protocol.py on the wire: TCP_OPEN and a last TCP_DATA on stream 1.
use ztna_lab.Base.{
  nat_eq, ◌+◌, ◌≡◌, ◌≢◌, ◌⊎◌, refl, true, false, some, [], ◌∷◌, ◌++◌, arith, Bytes, length, ok, err,
  text_eq, to_be, from_be_onto,
}
use ztna_lab.Base.Dict
use ztna_lab.Protocol.Frame.{
  Frame, tcp_open, tcp_data, encode, decode, frame_type_of, check_frame, checked_frame, pack,
  unpack, wrong_version, sequence_gap, out_of_fuel,
}
use ztna_lab.Protocol.Frame.RoundTrip.{decode-encode, encode-decode}
use ztna_lab.Protocol.Codec.{
  Codec, tcp, init, expected_sequence, advance, advance_stream, count_frame, accept, cut, drain,
  feed, finish,
}
use ztna_lab.Protocol.Codec.Chunks.{feed_after, feed-append}
use ztna_lab.Protocol.Codec.Order.{numbers_of, count_from, feed_numbers}
use ztna_lab.Protocol.Codec.Machine.{phase, move_all, feed_phases}
use ztna_lab.Protocol.Codec.Endings.{has_opening, has_ending}
use ztna_lab.Protocol.Codec.Total.{feed-ne-out_of_fuel, finish_closed}

abbrev opening : Frame
opening = record {
  frame_type = tcp_open;
  sequence = 0;
  payload = b'{' ∷ b'}' ∷ [];
  stream_id = 1;
  flags = 0;
}

abbrev last_data : Frame
last_data = record {
  frame_type = tcp_data;
  sequence = 1;
  payload = b'h' ∷ [];
  stream_id = 1;
  flags = 1;
}

abbrev opening_bytes : Bytes
opening_bytes =
    b'Z' ∷ b'T' ∷ b'L' ∷ b'1' ∷ 1 ∷ 1 ∷ 0 ∷ 0 ∷ 0 ∷ 0 ∷ 0 ∷ 1 ∷ 0 ∷ 0 ∷ 0 ∷ 0 ∷ 0 ∷ 0 ∷ 0 ∷ 0 ∷ 0
    ∷ 0 ∷ 0 ∷ 2 ∷ b'{' ∷ b'}' ∷ []

abbrev data_bytes : Bytes
data_bytes =
    b'Z' ∷ b'T' ∷ b'L' ∷ b'1' ∷ 1 ∷ 2 ∷ 0 ∷ 1 ∷ 0 ∷ 0 ∷ 0 ∷ 1 ∷ 0 ∷ 0 ∷ 0 ∷ 0 ∷ 0 ∷ 0 ∷ 0 ∷ 1 ∷ 0
    ∷ 0 ∷ 0 ∷ 1 ∷ b'h' ∷ []

abbrev start : Codec
start = record {
  buffer = [];
  streams = record {
    next_sequence = [];
    stream_kind = [];
    closed_streams = [];
    is_closed = false;
    frames = 0;
    max_frames = 64;
  };
}

abbrev both_read : Codec
both_read = record {
  buffer = [];
  streams = record {
    next_sequence = (1, 2) ∷ [];
    stream_kind = (1, tcp) ∷ [];
    closed_streams = 1 ∷ [];
    is_closed = false;
    frames = 2;
    max_frames = 64;
  };
}

program : Unit {0}
unfolding encode decode frame_type_of check_frame checked_frame pack unpack wrong_version text_eq
    to_be from_be_onto init expected_sequence advance advance_stream count_frame accept cut drain
    feed finish Dict.get Dict.put phase
program = tt

start_made : init 64 ≡ ok start
unfolding program
start_made = refl

opening_encodes : encode opening ≡ ok opening_bytes
unfolding program
opening_encodes = refl

opening_decodes : decode opening_bytes ≡ ok opening
unfolding program
opening_decodes = refl

feed_both : feed start (opening_bytes ++ data_bytes) ≡ (both_read, ok (opening ∷ last_data ∷ []))
unfolding program
feed_both = refl

-- The second frame alone leaves a gap in the numbers of its stream.
feed_gap : (feed start data_bytes).1 ≡ err sequence_gap
unfolding program
feed_gap = refl

decode-encode_example : decode opening_bytes ≡ ok opening
decode-encode_example = decode-encode opening opening_bytes opening_encodes

encode-decode_example : encode opening ≡ ok opening_bytes
encode-decode_example = encode-decode opening_bytes opening (omega arith) opening_decodes

feed-append_example :
    feed start (opening_bytes ++ data_bytes) ≡ feed_after data_bytes (feed start opening_bytes)
feed-append_example = feed-append start opening_bytes data_bytes

feed_numbers_example :
    (numbers_of 1 (opening ∷ last_data ∷ [])
      ≡ count_from
          (expected_sequence 1 start.streams)
          (length (numbers_of 1 (opening ∷ last_data ∷ []))))
    × (expected_sequence 1 both_read.streams
        ≡ expected_sequence 1 start.streams + length (numbers_of 1 (opening ∷ last_data ∷ [])))
feed_numbers_example =
    feed_numbers start both_read (opening_bytes ++ data_bytes) (opening ∷ last_data ∷ []) 1
      feed_both

feed_phases_example :
    move_all 1 (some (phase 1 start.streams)) (opening ∷ last_data ∷ [])
    ≡ some (phase 1 both_read.streams)
feed_phases_example =
    feed_phases start both_read (opening_bytes ++ data_bytes) (opening ∷ last_data ∷ []) 1
      (omega arith) feed_both

feed-ne-out_of_fuel_example : (feed start opening_bytes).1 ≢ err out_of_fuel
feed-ne-out_of_fuel_example = feed-ne-out_of_fuel start opening_bytes

finish_read : finish both_read ≡ ok tt
unfolding program
finish_read = refl

finish_closed_example :
    (both_read.buffer ≡ [])
    × ((has_opening 1 (opening ∷ last_data ∷ []) ≡ false)
        ⊎ (has_ending 1 (opening ∷ last_data ∷ []) ≡ true))
finish_closed_example =
    finish_closed 64 start both_read (opening_bytes ++ data_bytes) (opening ∷ last_data ∷ []) 1
      (omega arith) start_made feed_both finish_read
