-- ===== src/Protocol/Codec/Chunks.antt =====
-- `FrameCodec.feed` of labztna/protocol.py on the same bytes in one call and in two.
use ztna_lab.Base.{
  ℕ, zero, suc, ◌<◌, ◌≡◌, refl, sym, ap, ◌∙◌, List, [], ◌∷◌, ◌++◌, append_assoc, arith, Bytes,
  length, Result, ok, err,
}
use ztna_lab.Protocol.Frame.{Frame, ProtocolError}
use ztna_lab.Protocol.Codec.{
  Codec, Streams, Cut, incomplete, malformed, whole, cut, accept, Fed, append_frames, continue_with,
  drain_cut, drain, check_buffer, feed,
}
use ztna_lab.Protocol.Codec.Buffer.{
  length-cut-lt, incomplete-lt-max_frame, cut-append_malformed, cut-append_whole,
}

-- The decoder with more bytes behind its buffer.
abbrev pub extend : Codec → Bytes → Codec
extend c more = record { buffer = c.buffer ++ more; streams = c.streams }

-- The loop with the fuel that `feed` gives it.
abbrev pub run : Codec → Fed
run c = drain (suc (length c.buffer)) c

module _ (k k' : Codec → Fed) (c : Codec)
    (same : (c' : Codec) → length c'.buffer < length c.buffer → k c' ≡ k' c') where
  continue_with_ext :
      (rest : Bytes) (r : Streams × Result ProtocolError Frame)
      → length rest < length c.buffer
      → continue_with rest k r ≡ continue_with rest k' r
  continue_with_ext rest (s, err e) h = refl
  continue_with_ext rest (s, ok f) h =
      ap (append_frames (f ∷ [])) (same (record { buffer = rest; streams = s }) h)

  drain_cut_ext : (x : Cut) → cut c.buffer ≡ x → drain_cut c k x ≡ drain_cut c k' x
  drain_cut_ext incomplete e = refl
  drain_cut_ext (malformed x) e = refl
  drain_cut_ext (whole stream raw rest) e =
      continue_with_ext rest (accept stream raw c.streams)
        (length-cut-lt c.buffer stream raw rest e)

-- The fuel makes no difference once there is enough of it.
drain_fuel :
    (m n : ℕ) (c : Codec) → length c.buffer < m → length c.buffer < n → drain m c ≡ drain n c
unfolding drain
drain_fuel zero n c hm hn = elim hm [ ]
drain_fuel (suc m) zero c hm hn = elim hn [ ]
drain_fuel (suc m) (suc n) c hm hn =
    drain_cut_ext (drain m) (drain n) c (λ c' h. drain_fuel m n c' (omega arith) (omega arith))
      (cut c.buffer) refl

pub run_lem : (c : Codec) → run c ≡ drain_cut c run (cut c.buffer)
unfolding drain
run_lem c =
    drain_cut_ext (drain (length c.buffer)) run c
      (λ c' h. drain_fuel (length c.buffer) (suc (length c'.buffer)) c' h (omega arith))
      (cut c.buffer) refl

-- What is left in the buffer after a call that did not raise waits for more bytes.
Rests : Fed → Type 0
Rests (c, ok fs) = cut c.buffer ≡ incomplete
Rests (c, err e) = Unit

append_frames-Rests : (fs : List Frame) (r : Fed) → Rests r → Rests (append_frames fs r)
unfolding Rests
append_frames-Rests fs (c, ok gs) h = h
append_frames-Rests fs (c, err e) h = h

continue_with-Rests :
    (rest : Bytes) (k : Codec → Fed) (r : Streams × Result ProtocolError Frame)
    → ((s : Streams) → Rests (k (record { buffer = rest; streams = s })))
    → Rests (continue_with rest k r)
unfolding Rests
continue_with-Rests rest k (s, err e) h = tt
continue_with-Rests rest k (s, ok f) h = append_frames-Rests (f ∷ []) _ (h s)

drain_cut-Rests :
    (c : Codec) (k : Codec → Fed) (x : Cut)
    → cut c.buffer ≡ x
    → ((c' : Codec) → length c'.buffer < length c.buffer → Rests (k c'))
    → Rests (drain_cut c k x)
unfolding Rests
drain_cut-Rests c k incomplete e h = e
drain_cut-Rests c k (malformed x) e h = tt
drain_cut-Rests c k (whole stream raw rest) e h =
    continue_with-Rests rest k (accept stream raw c.streams)
      (λ s. h (record { buffer = rest; streams = s }) (length-cut-lt c.buffer stream raw rest e))

run-Rests : (n : ℕ) (c : Codec) → length c.buffer < n → Rests (run c)
run-Rests zero c h = elim h [ ]
run-Rests (suc n) c h =
    rw run_lem (drain_cut-Rests c run (cut c.buffer) refl (λ c' lt. run-Rests n c' (omega arith)))

check_buffer-Rests : (r : Fed) → Rests r → check_buffer r ≡ r
unfolding Rests
check_buffer-Rests (c, err e) h = refl
check_buffer-Rests (c, ok fs) h = ground (arith, incomplete-lt-max_frame c.buffer h)

-- The test of the buffer's size at the end of `feed` never fails.
pub feed-run : (c : Codec) (bytes : Bytes) → feed c bytes ≡ run (extend c bytes)
unfolding feed
feed-run c bytes =
    let c' = extend c bytes in
    check_buffer-Rests (run c') (run-Rests (suc (length c'.buffer)) c' (omega arith))

-- What a later call makes of the outcome of an earlier one, with `again` for the later call.
abbrev after_outcome : (Codec → Fed) → Bytes → Fed → Fed
after_outcome again more (c, ok fs) = append_frames fs (again c)
after_outcome again more (c, err e) = (extend c more, err e)

append_frames-append_frames :
    (fs gs : List Frame) (r : Fed)
    → append_frames (fs ++ gs) r ≡ append_frames fs (append_frames gs r)
append_frames-append_frames fs gs (c, ok hs) = rw append_assoc
append_frames-append_frames fs gs (c, err e) = refl

append_frames-nil : (r : Fed) → append_frames [] r ≡ r
append_frames-nil (c, ok fs) = refl
append_frames-nil (c, err e) = refl

after_outcome-append_frames :
    (again : Codec → Fed) (more : Bytes) (fs : List Frame) (r : Fed)
    → after_outcome again more (append_frames fs r) ≡ append_frames fs (after_outcome again more r)
after_outcome-append_frames again more fs (c, ok gs) = append_frames-append_frames fs gs (again c)
after_outcome-append_frames again more fs (c, err e) = refl

module _ (more : Bytes) where
  abbrev again : Codec → Fed
  again c = run (extend c more)

  continue_with-extend :
      (rest : Bytes) (r : Streams × Result ProtocolError Frame)
      → ((s : Streams)
          → let c : Codec = record { buffer = rest; streams = s } in
            run (extend c more) ≡ after_outcome again more (run c))
      → continue_with (rest ++ more) run r ≡ after_outcome again more (continue_with rest run r)
  continue_with-extend rest (s, err e) h = refl
  continue_with-extend rest (s, ok f) h =
      ap (append_frames (f ∷ [])) (h s)
      ∙ sym (
          after_outcome-append_frames again more (f ∷ [])
            (run (record { buffer = rest; streams = s })))

  drain_cut-extend :
      (c : Codec) (x : Cut)
      → cut c.buffer ≡ x
      → ((c' : Codec)
          → length c'.buffer < length c.buffer
          → run (extend c' more) ≡ after_outcome again more (run c'))
      → run (extend c more) ≡ after_outcome again more (drain_cut c run x)
  drain_cut-extend c incomplete e h = sym (append_frames-nil (again c))
  drain_cut-extend c (malformed x) e h =
      run_lem (extend c more)
      ∙ ap (drain_cut (extend c more) run) (cut-append_malformed c.buffer more x e)
  drain_cut-extend c (whole stream raw rest) e h =
      run_lem (extend c more)
      ∙ ap (drain_cut (extend c more) run) (cut-append_whole c.buffer more stream raw rest e)
      ∙ continue_with-extend rest (accept stream raw c.streams) (λ s.
        h (record { buffer = rest; streams = s }) (length-cut-lt c.buffer stream raw rest e))

  run-extend :
      (n : ℕ) (c : Codec)
      → length c.buffer < n
      → run (extend c more) ≡ after_outcome again more (run c)
  run-extend zero c h = elim h [ ]
  run-extend (suc n) c h =
      drain_cut-extend c (cut c.buffer) refl (λ c' lt. run-extend n c' (omega arith))
      ∙ ap (after_outcome again more) (sym (run_lem c))

-- The outcome of a call of `feed` on `more` after an outcome of an earlier call: the frames of
-- both, or the exception of the earlier call, with the bytes of `more` left in the buffer.
abbrev pub feed_after : Bytes → Fed → Fed
feed_after more (c, ok fs) = append_frames fs (feed c more)
feed_after more (c, err e) = (extend c more, err e)

feed_after-after_outcome :
    (more : Bytes) (r : Fed) → after_outcome (again more) more r ≡ feed_after more r
feed_after-after_outcome more (c, ok fs) = ap (append_frames fs) (sym (feed-run c more))
feed_after-after_outcome more (c, err e) = refl

-- One call of `feed` on `a ++ b` against a call on `a` and one on `b`: where both return, it returns
-- the frames of both and leaves the state that they leave; where the call on `a` raises, it raises
-- the same, and leaves that state with `b` behind the buffer; where only the call on `b` raises, it
-- raises the same and leaves the same state, and does not return the frames of the call on `a`.
pub feed-append : (c : Codec) (a b : Bytes) → feed c (a ++ b) ≡ feed_after b (feed c a)
feed-append c a b =
    feed-run c (a ++ b)
    ∙ ap (λ (x : Bytes). run (record { buffer = x; streams = c.streams }))
        (sym (append_assoc c.buffer a b))
    ∙ run-extend b (suc (length (c.buffer ++ a))) (extend c a) (omega arith)
    ∙ feed_after-after_outcome b (run (extend c a))
    ∙ ap (feed_after b) (sym (feed-run c a))
