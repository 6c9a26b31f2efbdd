-- ===== src/Protocol/Frame/Packing.antt =====
-- `HEADER.pack` and `HEADER.unpack` of labztna/protocol.py are inverse to one another.
use ztna_lab.Base.{
  ◌^◌, All-drop, length-drop, All, ℕ, zero, suc, ◌≤◌, ◌<◌, ◌≡◌, refl, ap, List, [], ◌∷◌, ◌++◌,
  arith, Bytes, IsByte, to_be, from_be, take, drop, length, length-append, length-take,
  take-append-drop, All, All-take, length-to_be, to_be-from_be, from_be-to_be, append-nil,
}
use ztna_lab.Protocol.Frame.{Header, pack, unpack, header_size}

-- Each field fits its width.
pub record IsPackable (h : Header) : Type 0 where
  pub magic_size : length h.magic_bytes ≡ 4
  pub version_fits : h.version_byte < 256
  pub kind_fits : h.kind < 256
  pub flags_fit : h.flag_word < 65536
  pub stream_fits : h.stream < 4294967296
  pub number_fits : h.number < 18446744073709551616
  pub size_fits : h.payload_length < 4294967296

pub take-left {ℓ} : {A : Type ℓ} (n : ℕ) (xs ys : List A) → length xs ≡ n → take n (xs ++ ys) ≡ xs
take-left zero [] ys h = refl
take-left zero (x ∷ xs) ys h = absurd (omega arith)
take-left (suc n) [] ys h = absurd (omega arith)
take-left (suc n) (x ∷ xs) ys h = ap (◌∷◌ x) (take-left n xs ys (omega arith))

pub drop-left {ℓ} : {A : Type ℓ} (n : ℕ) (xs ys : List A) → length xs ≡ n → drop n (xs ++ ys) ≡ ys
drop-left zero [] ys h = refl
drop-left zero (x ∷ xs) ys h = absurd (omega arith)
drop-left (suc n) [] ys h = absurd (omega arith)
drop-left (suc n) (x ∷ xs) ys h = drop-left n xs ys (omega arith)

pub take-to_be : (w n : ℕ) (ys : Bytes) → take w (to_be w n ++ ys) ≡ to_be w n
take-to_be w n ys = take-left w (to_be w n) ys (length-to_be w n)

pub drop-to_be : (w n : ℕ) (ys : Bytes) → drop w (to_be w n ++ ys) ≡ ys
drop-to_be w n ys = drop-left w (to_be w n) ys (length-to_be w n)

take-to_be_all : (w n : ℕ) → take w (to_be w n) ≡ to_be w n
take-to_be_all w n = rw append-nil at (take-to_be w n [])

pub length-pack : (h : Header) → length h.magic_bytes ≡ 4 → length (pack h) ≡ header_size
unfolding pack
length-pack h m = simp (length-append, length-to_be, m)

pub Header-eq :
    (g h : Header)
    → g.magic_bytes ≡ h.magic_bytes
    → g.version_byte ≡ h.version_byte
    → g.kind ≡ h.kind
    → g.flag_word ≡ h.flag_word
    → g.stream ≡ h.stream
    → g.number ≡ h.number
    → g.payload_length ≡ h.payload_length
    → g ≡ h
Header-eq g h p0 p1 p2 p3 p4 p5 p6 = λ i. record {
  magic_bytes = p0 i;
  version_byte = p1 i;
  kind = p2 i;
  flag_word = p3 i;
  stream = p4 i;
  number = p5 i;
  payload_length = p6 i;
}

ruleset cuts = (take-to_be, drop-to_be, take-to_be_all)

pub unpack-pack : (h : Header) → IsPackable h → unpack (pack h) ≡ h
unfolding pack unpack
unpack-pack h p =
    Header-eq (unpack (pack h)) h (take-left 4 m _ size)
      (simp (front, cuts) (fits 1 h.version_byte p.version_fits))
      (simp (front, cuts) (fits 1 h.kind p.kind_fits))
      (simp (front, cuts) (fits 2 h.flag_word p.flags_fit))
      (simp (front, cuts) (fits 4 h.stream p.stream_fits))
      (simp (front, cuts) (fits 8 h.number p.number_fits))
      (simp (front, cuts) (fits 4 h.payload_length p.size_fits))
  where
    m : Bytes
    m = h.magic_bytes

    size : length m ≡ 4
    size = p.magic_size

    front : (ys : Bytes) → drop 4 (m ++ ys) ≡ ys
    front ys = drop-left 4 m ys size

    fits : (w n : ℕ) → n < 256 ^ w → from_be (to_be w n) ≡ n
    fits = from_be-to_be

-- A field that was read is written back in front of what follows it.
pub to_be-read :
    (w : ℕ) (b : Bytes) → All IsByte b → w ≤ length b → to_be w (from_be (take w b)) ++ drop w b ≡ b
to_be-read w b h fits =
    let size : length (take w b) ≡ w = omega (arith, length-take w b) in
    let back = rw size at (to_be-from_be (take w b) (All-take IsByte w b h)) in
    rw back (take-append-drop w b)

to_be-read-All :
    (w : ℕ) (b : Bytes) → All IsByte b → length b ≡ w → to_be w (from_be (take w b)) ≡ b
to_be-read-All w b h size =
    let whole : take w b ≡ b = rw append-nil at (take-left w b [] size) in
    rw (whole, ← size) (to_be-from_be b h)

-- Repacking the header of any 24 bytes gives those bytes.
pub pack-unpack : (b : Bytes) → All IsByte b → length b ≡ 24 → pack (unpack b) ≡ b
unfolding pack unpack
pack-unpack b h size =
    let b1 = drop 4 b in
    let b2 = drop 1 b1 in
    let b3 = drop 1 b2 in
    let b4 = drop 2 b3 in
    let b5 = drop 4 b4 in
    let b6 = drop 8 b5 in
    let h1 = All-drop IsByte 4 b h in
    let h2 = All-drop IsByte 1 b1 h1 in
    let h3 = All-drop IsByte 1 b2 h2 in
    let h4 = All-drop IsByte 2 b3 h3 in
    let h5 = All-drop IsByte 4 b4 h4 in
    let h6 = All-drop IsByte 8 b5 h5 in
    let s1 : length b1 ≡ 20 = omega (arith, length-drop 4 b) in
    let s2 : length b2 ≡ 19 = omega (arith, length-drop 1 b1) in
    let s3 : length b3 ≡ 18 = omega (arith, length-drop 1 b2) in
    let s4 : length b4 ≡ 16 = omega (arith, length-drop 2 b3) in
    let s5 : length b5 ≡ 12 = omega (arith, length-drop 4 b4) in
    let s6 : length b6 ≡ 4 = omega (arith, length-drop 8 b5) in
    rw
      (
        to_be-read-All 4 b6 h6 s6,
        to_be-read 8 b5 h5 (omega arith),
        to_be-read 4 b4 h4 (omega arith),
        to_be-read 2 b3 h3 (omega arith),
        to_be-read 1 b2 h2 (omega arith),
        to_be-read 1 b1 h1 (omega arith),
      )
      (take-append-drop 4 b)
