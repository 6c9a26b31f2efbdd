-- ===== src/Protocol/Codec/Transfer.antt =====
-- One TCP stream of labztna/protocol.py from its opening to its end, at the decoder of the receiver.
use ztna_lab.Base.{
  nat_eq, ℕ, ◌+◌, ◌≤◌, ◌<◌, ◌≡◌, refl, List, [], ◌∷◌, arith, Bytes, length, ok, false, All,
}
use ztna_lab.Base.Dict
use ztna_lab.Protocol.Frame.{Frame, tcp_open, tcp_data, flag_fin}
use ztna_lab.Protocol.Codec.{
  Codec, Streams, tcp, expected_sequence, advance, advance_stream, count_frame, feed, finish, init,
}
use ztna_lab.Protocol.Codec.Steps.{Step, Steps, done, next}
use ztna_lab.Protocol.Codec.Wire.{wire_all, feed-wire_all}

abbrev pub open_frame : Bytes → Frame
open_frame payload = record {
  frame_type = tcp_open;
  sequence = 0;
  payload = payload;
  stream_id = 1;
  flags = 0;
}

abbrev pub stream_frame : ℕ → Bytes → ℕ → Frame
stream_frame sequence payload flags = record {
  frame_type = tcp_data;
  sequence = sequence;
  payload = payload;
  stream_id = 1;
  flags = flags;
}

-- The data frames of a stream from a sequence number on: the chunks, and the last one with FIN.
abbrev pub stream_frames : ℕ → List Bytes → Bytes → List Frame
stream_frames n [] end = stream_frame n end flag_fin ∷ []
stream_frames n (c ∷ chunks) end = stream_frame n c 0 ∷ stream_frames (n + 1) chunks end

abbrev pub whole_stream : Bytes → List Bytes → Bytes → List Frame
whole_stream opening chunks end = open_frame opening ∷ stream_frames 1 chunks end

abbrev pub IsPayload : Bytes → Type 0
IsPayload b = length b ≤ 65536

-- The tables of the decoder before the stream, in it, and after it.
abbrev fresh : ℕ → Streams
fresh max = record {
  next_sequence = [];
  stream_kind = [];
  closed_streams = [];
  is_closed = false;
  frames = 0;
  max_frames = max;
}

abbrev sending : ℕ → ℕ → ℕ → Streams
sending max n seen = record {
  next_sequence = (1, n) ∷ [];
  stream_kind = (1, tcp) ∷ [];
  closed_streams = [];
  is_closed = false;
  frames = seen;
  max_frames = max;
}

abbrev ended : ℕ → ℕ → ℕ → Streams
ended max n seen = record (sending max n seen) { closed_streams = 1 ∷ [] }

open-Step :
    (max : ℕ) (p : Bytes)
    → IsPayload p
    → 1 ≤ max
    → Step (fresh max) (open_frame p) (sending max 1 1)
unfolding expected_sequence advance advance_stream count_frame Dict.get Dict.put
open-Step max p fits room = record {
  middle = record (fresh max) { stream_kind = (1, tcp) ∷ [] };
  wire = record {
    payload_fits = fits;
    sequence_fits = omega arith;
    stream_fits = omega arith;
    semantics = (omega arith, refl);
  };
  in_order = refl;
  allowed = refl;
  counted = refl;
  below_limit = room;
}

module _ (max n seen : ℕ) (p : Bytes) (fits : IsPayload p) (small : n < 18446744073709551616)
    (room : seen + 1 ≤ max) where
  data-Step : Step (sending max n seen) (stream_frame n p 0) (sending max (n + 1) (seen + 1))
  unfolding expected_sequence advance advance_stream count_frame Dict.get Dict.put
  data-Step = record {
    middle = sending max n seen;
    wire = record {
      payload_fits = fits;
      sequence_fits = small;
      stream_fits = omega arith;
      semantics = (omega arith, omega arith, λ e. omega arith);
    };
    in_order = refl;
    allowed = refl;
    counted = refl;
    below_limit = room;
  }

  fin-Step : Step (sending max n seen) (stream_frame n p flag_fin) (ended max (n + 1) (seen + 1))
  unfolding expected_sequence advance advance_stream count_frame Dict.get Dict.put
  fin-Step = record {
    middle = ended max n seen;
    wire = record {
      payload_fits = fits;
      sequence_fits = small;
      stream_fits = omega arith;
      semantics = (omega arith, omega arith, λ e. omega arith);
    };
    in_order = refl;
    allowed = refl;
    counted = refl;
    below_limit = room;
  }

-- The last state of a stream whose frames are allowed.
record IsTransfer (max n seen : ℕ) (fs : List Frame) : Type 0 where
  number : ℕ
  count : ℕ
  steps : Steps (sending max n seen) fs (ended max number count)

stream-IsTransfer :
    (max n seen : ℕ) (chunks : List Bytes) (end : Bytes)
    → All IsPayload chunks
    → IsPayload end
    → n + length chunks < 18446744073709551616
    → seen + length chunks + 1 ≤ max
    → IsTransfer max n seen (stream_frames n chunks end)
stream-IsTransfer max n seen [] end all fits small room = record {
  number = n + 1;
  count = seen + 1;
  steps =
      next (stream_frame n end flag_fin) []
        (fin-Step max n seen end fits (omega arith) (omega arith)) done;
}
stream-IsTransfer max n seen (c ∷ chunks) end all fits small room =
    let rest =
      stream-IsTransfer max (n + 1) (seen + 1) chunks end all.1 fits (omega arith) (omega arith) in
    record {
      number = rest.number;
      count = rest.count;
      steps =
          next (stream_frame n c 0) (stream_frames (n + 1) chunks end)
            (data-Step max n seen c all.0 (omega arith) (omega arith)) rest.steps;
    }

-- What a new decoder makes of the bytes of a whole stream.
pub record IsReceived (c : Codec) (fs : List Frame) : Type 0 where
  pub codec : Codec
  pub received : feed c (wire_all fs) ≡ (codec, ok fs)
  pub finished : finish codec ≡ ok tt

new_codec :
    (max : ℕ) (c : Codec) → init max ≡ ok c → c ≡ record { buffer = []; streams = fresh max }
unfolding init
new_codec max c e = ground arith

-- A new decoder that gets the bytes of a whole stream, whose payloads are 65,536 bytes at most and
-- whose frames are no more than the decoder allows, returns its frames, and can then be finished.
pub whole_stream-IsReceived :
    (max : ℕ) (c : Codec) (opening : Bytes) (chunks : List Bytes) (end : Bytes)
    → init max ≡ ok c
    → IsPayload opening
    → All IsPayload chunks
    → IsPayload end
    → max ≤ 4294967296
    → length chunks + 2 ≤ max
    → IsReceived c (whole_stream opening chunks end)
unfolding finish
whole_stream-IsReceived max c opening chunks end made fits all last few room =
    let t = stream-IsTransfer max 1 1 chunks end all last (omega arith) (omega arith) in
    let final : Codec = record { buffer = []; streams = ended max t.number t.count } in
    record {
      codec = final;
      received = rw (new_codec max c made) (
          (feed-wire_all (fresh max) final.streams (whole_stream opening chunks end)).1 (
            next (open_frame opening) (stream_frames 1 chunks end)
              (open-Step max opening fits (omega arith)) t.steps));
      finished = refl;
    }
