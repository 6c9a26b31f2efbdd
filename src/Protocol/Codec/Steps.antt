-- ===== src/Protocol/Codec/Steps.antt =====
-- The frames that `FrameCodec.feed` of labztna/protocol.py lets through, as steps of the decoder.
use mathlib.Core.Path.{subst}
use ztna_lab.Base.{
  nat_eq, ℕ, zero, suc, ◌+◌, ◌≤◌, ◌<◌, ◌≡◌, refl, sym, ap, ◌∙◌, List, [], ◌∷◌, arith, ◌==◌, Bytes,
  take, length, Result, ok, err, Bool-cases, inl, inr,
}
use ztna_lab.Protocol.Frame.{Frame, ProtocolError, header_size, unpack, decode}
use ztna_lab.Protocol.Frame.Semantics.{IsWireFrame, check_frame-IsWireFrame}
use ztna_lab.Protocol.Frame.Inversion.{decode-eq-ok}
use ztna_lab.Protocol.Codec.{
  Codec, Streams, Cut, incomplete, malformed, whole, cut, expected_sequence, advance, count_frame,
  accept_decoded, finish_accept, accept, Fed, append_frames, continue_with, drain_cut, feed,
}
use ztna_lab.Protocol.Codec.Buffer.{cut-whole, length-cut-lt}
use ztna_lab.Protocol.Codec.Chunks.{run, run_lem, extend, feed-run}

-- One frame is accepted: it is well formed, it has the number that its stream expects, and the
-- state of the streams moves on.
pub record Step (s : Streams) (f : Frame) (t : Streams) : Type 0 where
  pub middle : Streams
  pub wire : IsWireFrame f
  pub in_order : f.sequence ≡ expected_sequence f.stream_id s
  pub allowed : advance f s ≡ ok middle
  pub counted : (count_frame f.stream_id f middle).0 ≡ t
  pub below_limit : t.frames ≤ t.max_frames

pub data Steps : Streams → List Frame → Streams → Type 0 where
  done : {s : Streams} → Steps s [] s
  next :
      {s t u : Streams} (f : Frame) (fs : List Frame)
      → Step s f t
      → Steps t fs u
      → Steps s (f ∷ fs) u

take-take : (m n : ℕ) (b : Bytes) → m ≤ n → take m (take n b) ≡ take m b
take-take zero n b h = refl
take-take (suc m) zero b h = elim h [ ]
take-take (suc m) (suc n) [] h = refl
take-take (suc m) (suc n) (x ∷ b) h = ap (◌∷◌ x) (take-take m n b (omega arith))

module _ (stream : ℕ) (raw : Bytes) (s t : Streams) (f : Frame)
    (named : (unpack (take header_size raw)).stream ≡ stream) where
  count-Step :
      (m : Streams)
      → decode raw ≡ ok f
      → f.sequence ≡ expected_sequence stream s
      → advance f s ≡ ok m
      → count_frame stream f m ≡ (t, ok f)
      → Step s f t
  unfolding count_frame
  count-Step m d o a c =
      let d' = decode-eq-ok raw f d in
      let same : f.stream_id ≡ stream = ap (λ (g : Frame). g.stream_id) d'.same ∙ named in
      let counted : (count_frame stream f m).0 ≡ t =
        ap (λ (r : Streams × Result ProtocolError Frame). r.0) c in
      record {
        middle = m;
        wire = check_frame-IsWireFrame f d'.checked;
        in_order = rw same o;
        allowed = a;
        counted = rw same counted;
        below_limit = ground arith;
      }

  finish_accept-Step :
      (r : Result ProtocolError Streams)
      → advance f s ≡ r
      → decode raw ≡ ok f
      → f.sequence ≡ expected_sequence stream s
      → finish_accept stream f s r ≡ (t, ok f)
      → Step s f t
  unfolding finish_accept
  finish_accept-Step (ok m) a d o e = count-Step m d o a e
  finish_accept-Step (err x) a d o e = cc (ap (λ (p : Streams × Result ProtocolError Frame). p.1) e)

result_of_accept :
    (stream : ℕ) (g f : Frame) (s t : Streams) (r : Result ProtocolError Streams)
    → finish_accept stream g s r ≡ (t, ok f)
    → g ≡ f
unfolding finish_accept count_frame
result_of_accept stream g f s t (ok m) e = ground arith
result_of_accept stream g f s t (err x) e =
    cc (ap (λ (p : Streams × Result ProtocolError Frame). p.1) e)

accept_decoded-Step :
    (stream : ℕ) (raw : Bytes) (s t : Streams) (f : Frame)
    → (unpack (take header_size raw)).stream ≡ stream
    → (d : Result ProtocolError Frame) → decode raw ≡ d
    → accept_decoded stream d s ≡ (t, ok f)
    → Step s f t
unfolding accept_decoded
accept_decoded-Step stream raw s t f named (err x) d e =
    cc (ap (λ (p : Streams × Result ProtocolError Frame). p.1) e)
accept_decoded-Step stream raw s t f named (ok g) d e =
    elim (Bool-cases (g.sequence == expected_sequence stream s)) [
      | inl yes_seq ↦
          let e' : finish_accept stream g s (advance g s) ≡ (t, ok f) = ground arith in
          let same : g ≡ f = result_of_accept stream g f s t (advance g s) e' in
          subst (λ (h : Frame). Step s h t) same
            (finish_accept-Step stream raw s t g named (advance g s) refl d (ground arith)
              (rw (← same) at e'))
      | inr gap ↦ cc (ap (λ (p : Streams × Result ProtocolError Frame). p.1) (rw gap at e))
    ]

pub accept-Step :
    (b : Bytes) (stream : ℕ) (raw rest : Bytes) (s t : Streams) (f : Frame)
    → cut b ≡ whole stream raw rest
    → accept stream raw s ≡ (t, ok f)
    → Step s f t
unfolding accept
accept-Step b stream raw rest s t f c e =
    let w = cut-whole b stream raw rest c in
    let h = unpack (take header_size b) in
    let same : take header_size raw ≡ take header_size b =
      ap (take header_size) w.front
      ∙ take-take header_size (header_size + h.payload_length) b (omega arith) in
    accept_decoded-Step stream raw s t f (ap (λ (x : Bytes). (unpack x).stream) same ∙ sym w.named)
      (decode raw) refl e

StepsOf : Streams → Fed → Type 0
StepsOf s (c, ok fs) = Steps s fs c.streams
StepsOf s (c, err e) = Unit

append_frames-StepsOf :
    (s t : Streams) (f : Frame) (r : Fed)
    → Step s f t
    → StepsOf t r
    → StepsOf s (append_frames (f ∷ []) r)
unfolding StepsOf
append_frames-StepsOf s t f (c, ok fs) st h = next f fs st h
append_frames-StepsOf s t f (c, err e) st h = tt

continue_with-StepsOf :
    (c : Codec) (stream : ℕ) (raw rest : Bytes) (r : Streams × Result ProtocolError Frame)
    → cut c.buffer ≡ whole stream raw rest
    → accept stream raw c.streams ≡ r
    → ((t : Streams) → StepsOf t (run (record { buffer = rest; streams = t })))
    → StepsOf c.streams (continue_with rest run r)
unfolding StepsOf
continue_with-StepsOf c stream raw rest (t, err e) k a h = tt
continue_with-StepsOf c stream raw rest (t, ok f) k a h =
    append_frames-StepsOf c.streams t f (run (record { buffer = rest; streams = t }))
      (accept-Step c.buffer stream raw rest c.streams t f k a) (h t)

drain_cut-StepsOf :
    (c : Codec) (x : Cut)
    → cut c.buffer ≡ x
    → ((c' : Codec) → length c'.buffer < length c.buffer → StepsOf c'.streams (run c'))
    → StepsOf c.streams (drain_cut c run x)
unfolding StepsOf
drain_cut-StepsOf c incomplete k h = done
drain_cut-StepsOf c (malformed e) k h = tt
drain_cut-StepsOf c (whole stream raw rest) k h =
    continue_with-StepsOf c stream raw rest (accept stream raw c.streams) k refl
      (λ t. h (record { buffer = rest; streams = t }) (length-cut-lt c.buffer stream raw rest k))

run-StepsOf : (n : ℕ) (c : Codec) → length c.buffer < n → StepsOf c.streams (run c)
run-StepsOf zero c h = elim h [ ]
run-StepsOf (suc n) c h =
    rw run_lem (drain_cut-StepsOf c (cut c.buffer) refl (λ c' lt. run-StepsOf n c' (omega arith)))

-- A call of `feed` that returns frames has made a step for each of them.
pub feed-Steps :
    (c c' : Codec) (bytes : Bytes) (fs : List Frame)
    → feed c bytes ≡ (c', ok fs)
    → Steps c.streams fs c'.streams
unfolding StepsOf
feed-Steps c c' bytes fs e =
    let d = extend c bytes in
    subst (StepsOf c.streams) (sym (feed-run c bytes) ∙ e)
      (run-StepsOf (suc (length d.buffer)) d (omega arith))
