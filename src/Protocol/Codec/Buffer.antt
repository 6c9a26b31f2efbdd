-- ===== src/Protocol/Codec/Buffer.antt =====
-- How `feed` of labztna/protocol.py cuts its buffer: more bytes behind a frame change nothing.
use ztna_lab.Base.{
  ℕ, ◌+◌, ◌≤◌, ◌<◌, ◌≡◌, ap, ◌++◌, arith, Bytes, take, drop, length, length-append, length-drop,
  take-append, drop-append,
}
use ztna_lab.Protocol.Frame.{ProtocolError, header_size, max_frame, unpack}
use ztna_lab.Protocol.Codec.{incomplete, malformed, whole, cut}

-- What the buffer is when a frame is cut off it.
pub record IsWhole (b : Bytes) (stream : ℕ) (raw rest : Bytes) : Type 0 where
  pub long : 24 ≤ length b
  pub fits : 24 + (unpack (take header_size b)).payload_length ≤ length b
  pub named : stream ≡ (unpack (take header_size b)).stream
  pub front : raw ≡ take (header_size + (unpack (take header_size b)).payload_length) b
  pub back : rest ≡ drop (header_size + (unpack (take header_size b)).payload_length) b

pub cut-whole :
    (b : Bytes) (stream : ℕ) (raw rest : Bytes)
    → cut b ≡ whole stream raw rest
    → IsWhole b stream raw rest
unfolding cut
cut-whole b stream raw rest e = ground arith

pub length-cut-lt :
    (b : Bytes) (stream : ℕ) (raw rest : Bytes)
    → cut b ≡ whole stream raw rest
    → length rest < length b
length-cut-lt b stream raw rest e =
    let w = cut-whole b stream raw rest e in
    omega (
      arith,
      w.fits,
      ap length w.back,
      length-drop (header_size + (unpack (take header_size b)).payload_length) b,
    )

-- A buffer that waits for more bytes is shorter than the largest frame.
pub incomplete-lt-max_frame : (b : Bytes) → cut b ≡ incomplete → length b < max_frame
unfolding cut
incomplete-lt-max_frame b e = ground arith

module _ (b more : Bytes) where
  same_header : 24 ≤ length b → unpack (take header_size (b ++ more)) ≡ unpack (take header_size b)
  same_header long = ap unpack (take-append header_size b more long)

  pub cut-append_malformed :
      (e : ProtocolError) → cut b ≡ malformed e → cut (b ++ more) ≡ malformed e
  unfolding cut
  cut-append_malformed e h =
      let long : 24 ≤ length b = ground arith in
      rw (same_header long) (ground (arith, length-append b more))

  pub cut-append_whole :
      (stream : ℕ) (raw rest : Bytes)
      → cut b ≡ whole stream raw rest
      → cut (b ++ more) ≡ whole stream raw (rest ++ more)
  unfolding cut
  cut-append_whole stream raw rest h =
      let w = cut-whole b stream raw rest h in
      let total = header_size + (unpack (take header_size b)).payload_length in
      rw (same_header w.long) (
        ground (
          arith,
          length-append b more,
          take-append total b more w.fits,
          drop-append total b more w.fits,
        ))
