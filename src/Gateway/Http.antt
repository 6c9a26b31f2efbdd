-- ===== src/Gateway/Http.antt =====
-- `_GatewayHandler._valid_http_request` of labztna/gateway.py.
pub mod Valid
use ztna_lab.Base.{
  nat_eq, ℕ, ◌+◌, ◌-◌, Bool, true, false, not, ◌&&◌, ◌||◌, Option, none, some, List, [], ◌∷◌, leb,
  ltb, ◌==◌, if◌then◌else◌, take, drop, length, contains, Text, codes, text_eq, starts_with,
  ends_with, lstrip_by, rstrip_by, Bytes, ◌>>?◌,
}

-- A byte before the first of the lines.
abbrev put_first : ℕ → List Bytes → List Bytes
put_first c [] = (c ∷ []) ∷ []
put_first c (line ∷ lines) = (c ∷ line) ∷ lines

-- `payload.split(b"\r\n")`; `skip` says that the byte is the second of a separator.
unfoldable pub split_lines : Bool → Bytes → List Bytes
split_lines skip [] = [] ∷ []
split_lines skip (c ∷ t) =
    let separates = not skip && starts_with (13 ∷ 10 ∷ []) (c ∷ t) in
    let lines = split_lines separates t in
    if skip then lines else if separates then [] ∷ lines else put_first c lines

-- What `bytes.strip` removes, and `bytes.lower`.
abbrev pub is_space : ℕ → Bool
is_space c = (leb 9 c && leb c 13) || (c == 32)

abbrev lower_byte : ℕ → ℕ
lower_byte c = if leb b'A' c && leb c b'Z' then c + 32 else c

unfoldable pub lower : Bytes → Bytes
lower [] = []
lower (c ∷ t) = lower_byte c ∷ lower t

unfoldable pub strip : Bytes → Bytes
strip t = rstrip_by is_space (lstrip_by is_space t)

abbrev first_put : ℕ → Option (Bytes × Bytes) → Option (Bytes × Bytes)
first_put c none = none
first_put c (some (name, value)) = some (c ∷ name, value)

-- `line.split(b":", 1)`; `none` where there is no colon.
unfoldable pub split_colon : Bytes → Option (Bytes × Bytes)
split_colon [] = none
split_colon (c ∷ t) =
    let rest = split_colon t in if c == b':' then some ([], t) else first_put c rest

unfoldable pub all_bytes : (ℕ → Bool) → Bytes → Bool
all_bytes test [] = true
all_bytes test (c ∷ t) = test c && all_bytes test t

-- What one header line does: it is refused, it names the host, or neither.
pub data HeaderLine : Type 0 where
  bad other : HeaderLine
  host : Text → HeaderLine

abbrev host_value : Bytes → HeaderLine
host_value value = if all_bytes (λ c. ltb c 128) value then host value else bad

abbrev pub named_header : Bytes → Bytes → HeaderLine
named_header name value =
    if text_eq name (codes "host")
    then host_value (strip value)
    else if text_eq name (codes "content-length") || text_eq name (codes "transfer-encoding")
    then bad
    else other

abbrev pub parts_header : Option (Bytes × Bytes) → HeaderLine
parts_header none = bad
parts_header (some (name, value)) = named_header (lower (strip name)) value

unfoldable pub read_header : Bytes → HeaderLine
unfolding all_bytes lower strip
read_header line = parts_header (split_colon line)

abbrev pub add_host : HeaderLine → Option (List Text) → Option (List Text)
add_host bad hosts = none
add_host other hosts = hosts
add_host (host h) none = none
add_host (host h) (some hosts) = some (h ∷ hosts)

-- The loop over the header lines: `host_values`, or `none` where a line is refused.
unfoldable pub host_values : List Bytes → Option (List Text)
host_values [] = some []
host_values (line ∷ lines) = add_host (read_header line) (host_values lines)

-- `lines[0][4:-9]`
abbrev pub target_of : Bytes → Bytes
target_of line = take (length line - 9 - 4) (drop 4 line)

unfoldable pub valid_request_line : Bytes → Bool
valid_request_line line =
    starts_with (codes "GET ") line
    && (ends_with (codes " HTTP/1.1") line
        && (starts_with (codes "/") (target_of line)
            && all_bytes (λ byte. leb 0x21 byte && leb byte 0x7e) (target_of line)))

abbrev pub only_host : Text → Option (List Text) → Bool
only_host resource_id (some (h ∷ [])) = text_eq h resource_id
only_host resource_id _ = false

abbrev pub valid_lines : Text → List Bytes → Bool
valid_lines resource_id [] = false
valid_lines resource_id (first ∷ lines) =
    valid_request_line first && only_host resource_id (host_values lines)

unfoldable pub valid_http_request : Bytes → Text → Bool
valid_http_request payload resource_id =
    if not (ends_with (13 ∷ 10 ∷ 13 ∷ 10 ∷ []) payload) || contains 0 payload
    then false
    else valid_lines resource_id (split_lines false (take (length payload - 4) payload))
