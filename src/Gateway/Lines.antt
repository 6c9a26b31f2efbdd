-- ===== src/Gateway/Lines.antt =====
-- `_readline` of labztna/gateway.py, on the bytes up to the end of the connection.
use ztna_lab.Base.{
  ℕ, zero, suc, ◌<◌, ◌≡◌, ◌≢◌, ◌↔◌, refl, ap, false, [], ◌∷◌, ◌++◌, arith, ◌==◌, length, All, Bytes,
  Result, ok, err, ◌>>=◌, >>=-eq-ok, if◌then◌else◌, Bool-cases, inl, inr, Text,
}
use ztna_lab.Auth.{Externals}
use ztna_lab.Gateway.{Refusal, closed, Gateway, Grant, handle}

-- `ConnectionError` and `ValueError`.
pub data LineError : Type 0 where
  incomplete_handshake handshake_too_large : LineError

-- `line[:-1] if line.endswith(b"\r") else line`
unfoldable pub without_cr : Bytes → Bytes
without_cr [] = []
without_cr (c ∷ []) = if c == 13 then [] else c ∷ []
without_cr (c ∷ d ∷ line) = c ∷ without_cr (d ∷ line)

-- The loop, with the room that is left below the limit: the bytes before the line feed.
unfoldable pub line_bytes : ℕ → Bytes → Result LineError Bytes
line_bytes zero bytes = err handshake_too_large
line_bytes (suc room) [] = err incomplete_handshake
line_bytes (suc room) (b ∷ bytes) =
    let rest = line_bytes room bytes >>= λ line. ok (b ∷ line) in if b == 10 then ok [] else rest

unfoldable pub readline : ℕ → Bytes → Result LineError Bytes
readline limit bytes = line_bytes limit bytes >>= λ line. ok (without_cr line)

-- `handle` up to the relay, on the bytes of the connection: an exception of `_readline` closes it
-- without a reply.
abbrev pub handle_line :
    Externals → Text → ℕ → ℕ → ℕ → Gateway → Result LineError Bytes → Gateway × Result Refusal Grant
handle_line x stamp verified seen now g (err e) = (g, err closed)
handle_line x stamp verified seen now g (ok line) = handle x stamp verified seen now line g

unfoldable pub handle_connection :
    Externals → Text → ℕ → ℕ → ℕ → Bytes → Gateway → Gateway × Result Refusal Grant
handle_connection x stamp verified seen now bytes g =
    handle_line x stamp verified seen now g (readline 8192 bytes)

-- The line is what stands before the first line feed, which stands below the limit, without a
-- carriage return at its end.
pub record IsLine (limit : ℕ) (bytes line : Bytes) : Type 0 where
  pub raw : Bytes
  pub rest : Bytes
  pub parts : bytes ≡ raw ++ 10 ∷ rest
  pub is_first : All (λ b. b ≢ 10) raw
  pub fits : length raw < limit
  pub stripped : line ≡ without_cr raw

record IsCut (room : ℕ) (bytes raw : Bytes) : Type 0 where
  rest : Bytes
  parts : bytes ≡ raw ++ 10 ∷ rest
  is_first : All (λ b. b ≢ 10) raw
  fits : length raw < room

line_bytes-eq-ok :
    (room : ℕ) (bytes raw : Bytes) → line_bytes room bytes ≡ ok raw → IsCut room bytes raw
unfolding line_bytes
line_bytes-eq-ok zero bytes raw h = cc h
line_bytes-eq-ok (suc room) [] raw h = cc h
line_bytes-eq-ok (suc room) (b ∷ bytes) raw h = elim (Bool-cases (b == 10)) [
  | inl e ↦
      let h' = rw e at h in
      let nothing : raw ≡ [] = cc h' in
      rw nothing (record { rest = bytes; parts = ground arith; is_first = tt; fits = omega arith })
  | inr e ↦
      let h' = rw e at h in
      let (line, read, same) = >>=-eq-ok (line_bytes room bytes) (λ line. ok (b ∷ line)) h' in
      let inner = line_bytes-eq-ok room bytes line read in
      let whole : raw ≡ b ∷ line = cc same in
      rw whole (record {
        rest = inner.rest;
        parts = ap (◌∷◌ b) inner.parts;
        is_first = (ground arith, inner.is_first);
        fits = omega (arith, inner.fits);
      })
]

line_bytes_of_cut :
    (room : ℕ) (raw rest : Bytes)
    → All (λ b. b ≢ 10) raw
    → length raw < room
    → line_bytes room (raw ++ 10 ∷ rest) ≡ ok raw
unfolding line_bytes
line_bytes_of_cut zero raw rest first fits = ground arith
line_bytes_of_cut (suc room) [] rest first fits = refl
line_bytes_of_cut (suc room) (b ∷ raw) rest first fits =
    let other : (b == 10) ≡ false = ground (arith, first.0) in
    rw (other, line_bytes_of_cut room raw rest first.1 (omega arith)) refl

-- The gateway reads a line exactly if the line is what stands before the first line feed of the
-- bytes, without a carriage return at its end, and that line feed is among the first `limit` bytes.
pub readline_iff :
    (limit : ℕ) (bytes line : Bytes) → (readline limit bytes ≡ ok line) ↔ IsLine limit bytes line
unfolding readline
readline_iff limit bytes line = (
  λ h.
      let (raw, read, same) = >>=-eq-ok (line_bytes limit bytes) (λ l. ok (without_cr l)) h in
      let cut = line_bytes-eq-ok limit bytes raw read in
      record {
        raw = raw;
        rest = cut.rest;
        parts = cut.parts;
        is_first = cut.is_first;
        fits = cut.fits;
        stripped = cc same;
      },
  λ l. rw (l.parts, line_bytes_of_cut limit l.raw l.rest l.is_first l.fits, l.stripped) refl,
)
