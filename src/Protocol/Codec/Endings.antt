-- ===== src/Protocol/Codec/Endings.antt =====
-- Which frames open and end a TCP stream of labztna/protocol.py.
use mathlib.Core.Path.{subst}
use ztna_lab.Base.{
  nat_eq, ℕ, ◌≡◌, ◌≢◌, ◌⊎◌, inl, inr, refl, ap, ◌∙◌, Bool, true, false, ◌&&◌, ◌||◌, Option, none,
  some, List, [], ◌∷◌, arith, ◌==◌, if◌then◌else◌, Bool-cases,
}
use ztna_lab.Protocol.Frame.{FrameType, tcp_open, tcp_data, l3_data, Frame, has_fin, has_rst}
use ztna_lab.Protocol.Codec.Machine.{Phase, fresh, open_tcp, ended, open_l3, move, move_all}

abbrev is_opening : FrameType → Bool
is_opening tcp_open = true
is_opening _ = false

abbrev is_ending : FrameType → ℕ → Bool
is_ending tcp_data flags = has_fin flags || has_rst flags
is_ending _ flags = false

-- There is a TCP_OPEN for the stream.
abbrev pub has_opening : ℕ → List Frame → Bool
has_opening stream [] = false
has_opening stream (f ∷ fs) =
    (f.stream_id == stream && is_opening f.frame_type) || has_opening stream fs

-- There is a TCP_DATA for the stream with FIN or RST.
abbrev pub has_ending : ℕ → List Frame → Bool
has_ending stream [] = false
has_ending stream (f ∷ fs) =
    (f.stream_id == stream && is_ending f.frame_type f.flags) || has_ending stream fs

move_open :
    (t : FrameType) (f : Frame) (p : Phase)
    → move t open_tcp f ≡ some p
    → (p ≡ open_tcp) ⊎ (is_ending t f.flags ≡ true)
unfolding move
move_open tcp_open f p h = cc h
move_open tcp_data f p h = elim (Bool-cases (has_fin f.flags || has_rst f.flags)) [
  | inl last ↦ inr last
  | inr more ↦ inl (ground (arith, more, h))
]
move_open l3_data f p h = cc h
move_open _ f p h = cc h

move_opening :
    (t : FrameType) (p q : Phase) (f : Frame)
    → is_opening t ≡ true
    → move t p f ≡ some q
    → q ≡ open_tcp
unfolding move
move_opening tcp_open fresh q f o h = cc h
move_opening tcp_open open_tcp q f o h = cc h
move_opening tcp_open ended q f o h = cc h
move_opening tcp_open open_l3 q f o h = cc h
move_opening tcp_data p q f o h = cc o
move_opening l3_data p q f o h = cc o
move_opening _ p q f o h = cc o

module _ (stream : ℕ) (q : Phase) where
  moved :
      (o : Option Phase) (fs : List Frame)
      → move_all stream o fs ≡ some q
      → (p : Phase) × (o ≡ some p) × (move_all stream (some p) fs ≡ some q)
  moved none fs h = cc h
  moved (some p) fs h = (p, refl, h)

  split_on :
      (p : Phase) (f : Frame) (fs : List Frame) (b : Bool)
      → (f.stream_id == stream) ≡ b
      → move_all stream (some p) (f ∷ fs) ≡ some q
      → move_all stream (if b then move f.frame_type p f else some p) fs ≡ some q
  split_on p f fs b e h =
      subst
        (λ (c : Bool). move_all stream (if c then move f.frame_type p f else some p) fs ≡ some q) e
        h

  -- A stream that is open comes out of its phase only by FIN or RST.
  open_ends :
      (fs : List Frame)
      → q ≢ open_tcp
      → move_all stream (some open_tcp) fs ≡ some q
      → has_ending stream fs ≡ true
  open_ends [] ne h = absurd (ne (cc h))
  open_ends (f ∷ fs) ne h = elim (Bool-cases (f.stream_id == stream)) [
    | inr elsewhere ↦
        let rest : has_ending stream fs ≡ true =
          open_ends fs ne (split_on open_tcp f fs false elsewhere h) in
        ground (arith, rest)
    | inl here ↦
        let (p, step, rest) =
          moved (move f.frame_type open_tcp f) fs (split_on open_tcp f fs true here h) in
        elim (move_open f.frame_type f p step) [
          | inr last ↦ ground (arith, here, last)
          | inl still ↦
              let later : has_ending stream fs ≡ true =
                open_ends fs ne
                  (ap (λ (r : Phase). move_all stream (some r) fs) (flip still) ∙ rest) in
              ground (arith, later)
        ]
  ]
    where
      flip : {a b : Phase} → a ≡ b → b ≡ a
      flip e = cc e

  -- A run in which the stream was opened, and that does not leave it open, has ended it.
  pub opened_ends :
      (p : Phase) (fs : List Frame)
      → q ≢ open_tcp
      → move_all stream (some p) fs ≡ some q
      → has_opening stream fs ≡ true
      → has_ending stream fs ≡ true
  opened_ends p [] ne h o = cc o
  opened_ends p (f ∷ fs) ne h o = elim (Bool-cases (f.stream_id == stream)) [
    | inr elsewhere ↦
        let rest : has_ending stream fs ≡ true =
          opened_ends p fs ne (split_on p f fs false elsewhere h) (ground (arith, o, elsewhere)) in
        ground (arith, rest)
    | inl here ↦
        let (r, step, rest) = moved (move f.frame_type p f) fs (split_on p f fs true here h) in
        elim (Bool-cases (is_opening f.frame_type)) [
          | inl opening ↦
              let same : r ≡ open_tcp = move_opening f.frame_type p r f opening step in
              let later : has_ending stream fs ≡ true = open_ends fs ne (rw same at rest) in
              ground (arith, later)
          | inr other ↦
              let later : has_ending stream fs ≡ true =
                opened_ends r fs ne rest (ground (arith, o, other)) in
              ground (arith, later)
        ]
  ]
