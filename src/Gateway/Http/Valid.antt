-- ===== src/Gateway/Http/Valid.antt =====
-- Which requests `_valid_http_request` of labztna/gateway.py accepts.
use mathlib.Core.Path.{subst}
use ztna_lab.Base.{
  nat_eq, ℕ, ◌++◌, ◌-◌, ◌≤◌, ◌<◌, ◌==◌, ◌≡◌, ◌≢◌, refl, ap, ◌∙◌, Bool, true, false, ◌&&◌, ◌||◌,
  Option, none, some, List, [], ◌∷◌, arith, leb, ltb, take, drop, length, contains, Text, codes,
  text_eq, text_eq_iff, starts_with, ends_with, Bytes, All, if◌then◌else◌, Bool-cases, inl, inr,
}
use ztna_lab.Gateway.Http.{
  HeaderLine, bad, other, host, add_host, first_put, split_colon, all_bytes, lower, strip,
  host_value, named_header, parts_header, read_header, host_values, only_host, target_of,
  valid_lines, valid_request_line, split_lines, valid_http_request,
}

-- A path in printable ASCII between "GET " and " HTTP/1.1".
pub record IsRequestLine (line : Bytes) : Type 0 where
  pub get : starts_with (codes "GET ") line ≡ true
  pub version : ends_with (codes " HTTP/1.1") line ≡ true
  pub rooted : starts_with (codes "/") (take (length line - 9 - 4) (drop 4 line)) ≡ true
  pub printable : All (λ c. (0x21 ≤ c) × (c ≤ 0x7e)) (take (length line - 9 - 4) (drop 4 line))

-- The name and the value that the first colon of a line separates.
pub record IsSplit (line name value : Bytes) : Type 0 where
  pub parts : line ≡ name ++ b':' ∷ value
  pub first : contains b':' name ≡ false

-- The header lines, with the hosts that they name: each has a colon, none gives a length or an
-- encoding of a body, and a host is ASCII.
pub data Headers : List Bytes → List Text → Type 0 where
  done : Headers [] []
  plain :
      (line name value : Bytes) {lines : List Bytes} {hosts : List Text}
      → IsSplit line name value
      → lower (strip name) ≢ codes "host"
      → lower (strip name) ≢ codes "content-length"
      → lower (strip name) ≢ codes "transfer-encoding"
      → Headers lines hosts
      → Headers (line ∷ lines) hosts
  named :
      (line name value : Bytes) {lines : List Bytes} {hosts : List Text}
      → IsSplit line name value
      → lower (strip name) ≡ codes "host"
      → All (λ c. c < 128) (strip value)
      → Headers lines hosts
      → Headers (line ∷ lines) (strip value ∷ hosts)

all_bytes_printable :
    (t : Bytes)
    → all_bytes (λ byte. leb 0x21 byte && leb byte 0x7e) t ≡ true
    → All (λ c. (0x21 ≤ c) × (c ≤ 0x7e)) t
unfolding all_bytes
all_bytes_printable [] h = tt
all_bytes_printable (c ∷ t) h = ((ground arith, ground arith), all_bytes_printable t (ground arith))

all_bytes_ascii : (t : Bytes) → all_bytes (λ c. ltb c 128) t ≡ true → All (λ c. c < 128) t
unfolding all_bytes
all_bytes_ascii [] h = tt
all_bytes_ascii (c ∷ t) h = (ground arith, all_bytes_ascii t (ground arith))

valid_request_line-IsRequestLine :
    (line : Bytes) → valid_request_line line ≡ true → IsRequestLine line
unfolding valid_request_line
valid_request_line-IsRequestLine line h = record {
  get = ground arith;
  version = ground arith;
  rooted = ground arith;
  printable = all_bytes_printable (target_of line) (ground arith);
}

first_put-eq-some :
    (c : ℕ) (o : Option (Bytes × Bytes)) (name value : Bytes)
    → first_put c o ≡ some (name, value)
    → (short : Bytes) × (o ≡ some (short, value)) × (c ∷ short ≡ name)
first_put-eq-some c none name value h = cc h
first_put-eq-some c (some (short, v)) name value h = (short, cc h, cc h)

split_colon-IsSplit :
    (line name value : Bytes) → split_colon line ≡ some (name, value) → IsSplit line name value
unfolding split_colon
split_colon-IsSplit [] name value h = cc h
split_colon-IsSplit (c ∷ t) name value h = elim (Bool-cases (c == b':')) [
  | inl colon ↦ at_colon colon (rw colon at h)
  | inr no_colon ↦
      let (short, rest, same) = first_put-eq-some c (split_colon t) name value (rw no_colon at h) in
      let split = split_colon-IsSplit t short value rest in
      record {
        parts = ap (◌∷◌ c) split.parts ∙ ap (λ (n : Bytes). n ++ b':' ∷ value) same;
        first = rw (← same) (ground (arith, split.first, no_colon));
      }
]
  where
    at_colon :
        (c == b':') ≡ true
        → ◌≡◌ {A = Option (Bytes × Bytes)} (some ([], t)) (some (name, value))
        → IsSplit (c ∷ t) name value
    at_colon colon e = record { parts = ground arith; first = ground arith }

add_host-none : (h : HeaderLine) (hosts : List Text) → add_host h none ≢ some hosts
add_host-none bad hosts e = cc e
add_host-none other hosts e = cc e
add_host-none (host h) hosts e = cc e

-- What a line's header is, by its name.
named_header_cases :
    (line name value : Bytes) (lines : List Bytes) (o : Option (List Text)) (hosts : List Text)
    → IsSplit line name value
    → ((rest : List Text) → o ≡ some rest → Headers lines rest)
    → add_host (named_header (lower (strip name)) value) o ≡ some hosts
    → Headers (line ∷ lines) hosts
named_header_cases line name value lines none hosts split h e =
    absurd (add_host-none (named_header (lower (strip name)) value) hosts e)
named_header_cases line name value lines (some rest) hosts split h e =
    elim (Bool-cases (text_eq (lower (strip name)) (codes "host"))) [
      | inl is_host ↦
          let (ascii, same) = host_cases (strip value) rest hosts (rw is_host at e) in
          subst (Headers (line ∷ lines)) same (
            named line name value split
              ((text_eq_iff (lower (strip name)) (codes "host")).0 is_host)
              (all_bytes_ascii (strip value) ascii) (h rest refl))
      | inr other_name ↦
          let refused =
            text_eq (lower (strip name)) (codes "content-length")
            || text_eq (lower (strip name)) (codes "transfer-encoding") in
          let (allowed, same) = other_cases refused rest hosts (rw other_name at e) in
          subst (Headers (line ∷ lines)) same (
            plain line name value split
              (ground (arith, text_eq_iff (lower (strip name)) (codes "host"), other_name))
              (ground (arith, text_eq_iff (lower (strip name)) (codes "content-length"), allowed))
              (ground
                (arith, text_eq_iff (lower (strip name)) (codes "transfer-encoding"), allowed))
              (h rest refl))
    ]
  where
    host_cases :
        (v : Bytes) (rest hosts : List Text)
        → add_host (host_value v) (some rest) ≡ some hosts
        → (all_bytes (λ c. ltb c 128) v ≡ true) × (v ∷ rest ≡ hosts)
    host_cases v rest hosts e = (ground arith, ground arith)

    other_cases :
        (b : Bool) (rest hosts : List Text)
        → add_host (if b then bad else other) (some rest) ≡ some hosts
        → (b ≡ false) × (rest ≡ hosts)
    other_cases true rest hosts e = cc e
    other_cases false rest hosts e = (refl, cc e)

parts_header_cases :
    (line : Bytes) (lines : List Bytes) (parts : Option (Bytes × Bytes)) (o : Option (List Text))
    (hosts : List Text)
    → split_colon line ≡ parts
    → ((rest : List Text) → o ≡ some rest → Headers lines rest)
    → add_host (parts_header parts) o ≡ some hosts
    → Headers (line ∷ lines) hosts
parts_header_cases line lines none o hosts p h e = cc e
parts_header_cases line lines (some (name, value)) o hosts p h e =
    named_header_cases line name value lines o hosts (split_colon-IsSplit line name value p) h e

-- The hosts are those of the header lines, none of which is refused.
host_values-Headers :
    (lines : List Bytes) (hosts : List Text) → host_values lines ≡ some hosts → Headers lines hosts
unfolding host_values read_header
host_values-Headers [] hosts e = subst (Headers []) (cc e) done
host_values-Headers (line ∷ lines) hosts e =
    parts_header_cases line lines (split_colon line) (host_values lines) hosts refl
      (host_values-Headers lines) e

only_host-eq :
    (resource_id : Text) (o : Option (List Text))
    → only_host resource_id o ≡ true
    → o ≡ some (resource_id ∷ [])
only_host-eq resource_id none e = cc e
only_host-eq resource_id (some []) e = cc e
only_host-eq resource_id (some (h ∷ [])) e =
    ap (λ (t : Text). some (t ∷ [])) ((text_eq_iff h resource_id).0 e)
only_host-eq resource_id (some (h ∷ k ∷ hs)) e = cc e

-- The shape of an accepted request.
pub record IsHttpRequest (payload : Bytes) (resource_id : Text) : Type 0 where
  pub request_line : Bytes
  pub headers : List Bytes
  pub ended : ends_with (13 ∷ 10 ∷ 13 ∷ 10 ∷ []) payload ≡ true
  pub no_zero : contains 0 payload ≡ false
  pub lines : split_lines false (take (length payload - 4) payload) ≡ request_line ∷ headers
  pub requested : IsRequestLine request_line
  pub one_host : Headers headers (resource_id ∷ [])

lines_request :
    (payload : Bytes) (resource_id : Text) (lines : List Bytes)
    → split_lines false (take (length payload - 4) payload) ≡ lines
    → ends_with (13 ∷ 10 ∷ 13 ∷ 10 ∷ []) payload ≡ true
    → contains 0 payload ≡ false
    → valid_lines resource_id lines ≡ true
    → IsHttpRequest payload resource_id
lines_request payload resource_id [] split ended no_zero e = cc e
lines_request payload resource_id (first ∷ headers) split ended no_zero e =
    let host_ok : only_host resource_id (host_values headers) ≡ true = ground (arith, e) in
    record {
      request_line = first;
      headers = headers;
      ended = ended;
      no_zero = no_zero;
      lines = split;
      requested = valid_request_line-IsRequestLine first (ground (arith, e));
      one_host =
          host_values-Headers headers (resource_id ∷ [])
            (only_host-eq resource_id (host_values headers) host_ok);
    }

-- An accepted request ends with an empty line and has no zero byte; its first line is "GET ", a
-- path of bytes from 0x21 to 0x7e and " HTTP/1.1"; each header line has a colon, none names
-- content-length or transfer-encoding, whatever its case and the blanks around it, and exactly one
-- names host, with the resource as its ASCII value.
pub valid_http_request-IsHttpRequest :
    (payload : Bytes) (resource_id : Text)
    → valid_http_request payload resource_id ≡ true
    → IsHttpRequest payload resource_id
unfolding valid_http_request
valid_http_request-IsHttpRequest payload resource_id e =
    lines_request payload resource_id (split_lines false (take (length payload - 4) payload)) refl
      (ground (arith, e)) (ground (arith, e)) (ground (arith, e))
