-- ===== src/Client/Http.antt =====
-- The response of `_http_json_request` of labztna/client.py, and the status line of `fetch`. The
-- built-in `int` of a text is an argument, with `none` for a `ValueError`.
pub mod Request
use ztna_lab.Base.{
  text_key, nat_eq, ℕ, Bool, true, false, not, ◌&&◌, ◌||◌, Option, none, some, List, [], ◌∷◌, leb,
  ltb, ◌==◌, if◌then◌else◌, length, drop, Text, codes, text_eq, starts_with, Bytes, Result, ok, err,
  ◌>>=◌, ◌>>?◌, or_raise,
}
use ztna_lab.Json.{ℤ, pos}
use ztna_lab.Gateway.Http.{split_lines, split_colon, lower, strip, is_space}
use ztna_lab.Client.{Answer}
use ztna_lab.Client.Exchange.{
  ExchangeError, invalid_response, bad_status, invalid_header, invalid_length, truncated_response,
}

abbrev head_put : ℕ → Bytes × Bool × Bytes → Bytes × Bool × Bytes
head_put c (head, found, body) = (c ∷ head, found, body)

-- `partition(b"\r\n\r\n")`: the head, whether the separator is there, and the body.
unfoldable pub partition_blank : Bytes → Bytes × Bool × Bytes
partition_blank [] = ([], false, [])
partition_blank (c ∷ t) =
    let later = head_put c (partition_blank t) in
    if starts_with (13 ∷ 10 ∷ 13 ∷ 10 ∷ []) (c ∷ t) then ([], true, drop 3 t) else later

-- The first characters up to a space, and what follows them.
abbrev word_put : ℕ → Bytes × Bytes → Bytes × Bytes
word_put c (word, rest) = (c ∷ word, rest)

unfoldable pub first_word : (ℕ → Bool) → Bytes → Bytes × Bytes
first_word space [] = ([], [])
first_word space (c ∷ t) =
    let later = word_put c (first_word space t) in if space c then ([], t) else later

unfoldable pub skip_spaces : (ℕ → Bool) → Bytes → Bytes
skip_spaces space [] = []
skip_spaces space (c ∷ t) = let rest = skip_spaces space t in if space c then rest else c ∷ t

-- `split()[1]`; `none` is the `IndexError`.
unfoldable pub second_word : (ℕ → Bool) → Bytes → Option Bytes
second_word space t =
    let (first, rest) = first_word space (skip_spaces space t) in
    let (second, others) = first_word space (skip_spaces space rest) in
    if length second == 0 then none else some second

-- `int(lines[0].split()[1])`
unfoldable pub status_of_lines : (Bytes → Option ℤ) → List Bytes → Option ℤ
status_of_lines to_int [] = none
status_of_lines to_int (line ∷ lines) = second_word is_space line >>? to_int

abbrev pub declared_by :
    (Bytes → Option ℤ) → Option ℤ → Option (Bytes × Bytes) → Result ExchangeError (Option ℤ)
declared_by to_int declared none = err invalid_header
declared_by to_int declared (some (name, value)) =
    if not (text_eq (lower name) (codes "content-length"))
    then ok declared
    else or_raise invalid_length (to_int (strip value)) >>= λ n. ok (some n)

-- The loop over the header lines: `declared_length`, of several the last.
unfoldable pub declared_length :
    (Bytes → Option ℤ) → Option ℤ → List Bytes → Result ExchangeError (Option ℤ)
declared_length to_int declared [] = ok declared
declared_length to_int declared (line ∷ lines) =
    declared_by to_int declared (split_colon line) >>= λ d. declared_length to_int d lines

abbrev pub is_length : Option ℤ → ℕ → Bool
is_length none n = true
is_length (some (pos m)) n = m == n
is_length (some _) n = false

abbrev pub other_lines : List Bytes → List Bytes
other_lines [] = []
other_lines (line ∷ lines) = lines

abbrev pub read_head : (Bytes → Option ℤ) → Bytes → List Bytes → Result ExchangeError Answer
read_head to_int body lines = or_raise bad_status (status_of_lines to_int lines) >>= λ status.
    declared_length to_int none (other_lines lines) >>= λ declared.
    if not (is_length declared (length body)) then err truncated_response else ok (status, body)

abbrev pub read_parts : (Bytes → Option ℤ) → Bytes × Bool × Bytes → Result ExchangeError Answer
read_parts to_int (head, found, body) =
    if not (found && leb (length head) 16384)
    then err invalid_response
    else read_head to_int body (split_lines false head)

-- What `_http_json_request` makes of the bytes of the response.
unfoldable pub read_http_response : (Bytes → Option ℤ) → Bytes → Result ExchangeError Answer
read_http_response to_int raw = read_parts to_int (partition_blank raw)

-- `head.splitlines()[0].decode("ascii", "replace")`; `none` is the `IndexError` of an empty head.
unfoldable pub first_line : Bytes → Text
first_line [] = []
first_line (c ∷ t) =
    let rest = (if ltb c 128 then c else 0xfffd) ∷ first_line t in
    if c == 13 || c == 10 then [] else rest

abbrev pub status_line_of : Bytes → Option Text
status_line_of [] = none
status_line_of (c ∷ t) = some (first_line (c ∷ t))

-- What `str.split` splits an ASCII text at.
abbrev pub is_text_space : ℕ → Bool
is_text_space c = is_space c || (leb 28 c && leb c 31)

abbrev pub fetched : (Text → Option ℤ) → Bytes × Bool × Bytes → Option (ℤ × Bytes × Text)
fetched to_int (head, found, body) = status_line_of head >>? λ line.
    (second_word is_text_space line >>? to_int) >>? λ status. some (status, body, line)

-- The end of `fetch`: status, body and status line of the response's bytes.
unfoldable pub read_fetched : (Text → Option ℤ) → Bytes → Option (ℤ × Bytes × Text)
read_fetched to_int raw = fetched to_int (partition_blank raw)
