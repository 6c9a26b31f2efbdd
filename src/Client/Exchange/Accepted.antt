-- ===== src/Client/Exchange/Accepted.antt =====
-- The request of `fetch` of labztna/client.py at `_valid_http_request` of labztna/gateway.py.
use ztna_lab.Base.{
  text_key, nat_eq, ℕ, ◌+◌, ◌-◌, ◌≡◌, refl, ap, ◌∙◌, Bool, true, false, not, ◌&&◌, some, [], ◌∷◌,
  ◌++◌, arith, length, take, length-append, contains, starts_with, ends_with, text_eq, text_eq_iff,
  rstrip_by, lstrip_by, leb, ltb, ◌==◌, Text, Bytes, codes, append_assoc,
}
use ztna_lab.Netguard.{is_resource_id, is_id_character, all_id_characters}
use ztna_lab.Gateway.Http.{
  split_lines, split_colon, lower, strip, is_space, all_bytes, read_header, host_values, host,
  other, valid_request_line, valid_http_request, target_of,
}
use ztna_lab.Client.Exchange.{is_safe_path, request_of}

-- No carriage return, so that no line ends inside.
abbrev has_no_cr : Bytes → Bool
has_no_cr = all_bytes (λ c. not (c == 13))

ends_with-append : (t s : Bytes) → ends_with s (t ++ s) ≡ true
unfolding ends_with
ends_with-append [] [] = ground (arith, text_eq_iff [] [])
ends_with-append [] (c ∷ s) = ground (arith, text_eq_iff (c ∷ s) (c ∷ s))
ends_with-append (c ∷ t) s = ground (arith, ends_with-append t s)

all_bytes-append :
    (test : ℕ → Bool) (s t : Bytes)
    → all_bytes test s ≡ true
    → all_bytes test t ≡ true
    → all_bytes test (s ++ t) ≡ true
unfolding all_bytes
all_bytes-append test [] t hs ht = ht
all_bytes-append test (c ∷ s) t hs ht = ground (arith, all_bytes-append test s t)

contains-all_bytes : (s : Bytes) → all_bytes (λ c. not (c == 0)) s ≡ true → contains 0 s ≡ false
unfolding all_bytes
contains-all_bytes [] h = refl
contains-all_bytes (c ∷ s) h = ground (arith, contains-all_bytes s)

split_lines-line :
    (line rest : Bytes)
    → has_no_cr line ≡ true
    → split_lines false (line ++ 13 ∷ 10 ∷ rest) ≡ line ∷ split_lines false rest
unfolding split_lines all_bytes starts_with
split_lines-line [] rest h = refl
split_lines-line (c ∷ line) rest h = ground (arith, split_lines-line line rest)

rstrip_by-none : (t : Text) → all_id_characters t ≡ true → rstrip_by is_space t ≡ t
unfolding rstrip_by all_id_characters is_id_character
rstrip_by-none [] h = refl
rstrip_by-none (c ∷ t) h = ground (arith, rstrip_by-none t)

all_bytes-weaken :
    (p q : ℕ → Bool) (s : Bytes)
    → ((c : ℕ) → p c ≡ true → q c ≡ true)
    → all_bytes p s ≡ true
    → all_bytes q s ≡ true
unfolding all_bytes
all_bytes-weaken p q [] h all = refl
all_bytes-weaken p q (c ∷ s) h all = ground (arith, h c, all_bytes-weaken p q s h)

id_characters : (t : Text) → all_id_characters t ≡ true → all_bytes is_id_character t ≡ true
unfolding all_id_characters all_bytes
id_characters [] h = refl
id_characters (c ∷ t) h = ground (arith, id_characters t)

resource_characters : (r : Text) → is_resource_id r ≡ true → all_id_characters r ≡ true
unfolding is_resource_id all_id_characters is_id_character
resource_characters [] h = refl
resource_characters (c ∷ t) h = ground arith

lstrip_by-none : (r : Text) → is_resource_id r ≡ true → lstrip_by is_space r ≡ r
unfolding is_resource_id lstrip_by
lstrip_by-none [] h = refl
lstrip_by-none (c ∷ t) h = ground arith

-- A printable byte, or one of an id, is no end of a line and no zero.
abbrev is_plain : ℕ → Bool
is_plain c = ltb c 128 && (not (c == 13) && not (c == 0))

id-is_plain : (c : ℕ) → is_id_character c ≡ true → is_plain c ≡ true
unfolding is_id_character
id-is_plain c h = ground arith

printed-is_plain : (c : ℕ) → (leb 0x21 c && leb c 0x7e) ≡ true → is_plain c ≡ true
printed-is_plain c h = ground arith

take-all : (s t : Bytes) → take (length s) (s ++ t) ≡ s
take-all [] t = refl
take-all (c ∷ s) t = ap (◌∷◌ c) (take-all s t)

abbrev suffix : Bytes
suffix = codes " HTTP/1.1"

abbrev host_line : Text → Bytes
host_line r = codes "Host: " ++ r

abbrev request_line : Text → Bytes
request_line path = codes "GET " ++ (path ++ suffix)

read_header-host : (r : Text) → is_resource_id r ≡ true → read_header (host_line r) ≡ host r
unfolding read_header split_colon lower strip lstrip_by rstrip_by text_eq all_bytes
read_header-host r h =
    let all = resource_characters r h in
    let ascii =
      all_bytes-weaken is_id_character (λ c. ltb c 128) r
        (λ c i. let p = id-is_plain c i in ground arith) (id_characters r all) in
    rw (lstrip_by-none r h, rstrip_by-none r all, ascii) refl

target_of-request_line : (path : Text) → target_of (request_line path) ≡ path
target_of-request_line path =
    let size : length (path ++ suffix) ≡ length path + 9 = length-append path suffix in
    let less_four : length (request_line path) - 9 - 4 ≡ length path = omega arith in
    rw less_four (take-all path suffix)

valid_request_line-request_line :
    (path : Text) → is_safe_path path ≡ true → valid_request_line (request_line path) ≡ true
unfolding valid_request_line is_safe_path starts_with
valid_request_line-request_line path h =
    let ended : ends_with suffix (request_line path) ≡ true =
      rw (← append_assoc (codes "GET ") path suffix)
        (ends_with-append (codes "GET " ++ path) suffix) in
    rw (target_of-request_line path, ended) (ground arith)

abbrev closing : Bytes
closing = codes "Connection: close"

abbrev body_of : Text → Text → Bytes
body_of path r = request_line path ++ (13 ∷ 10 ∷ (host_line r ++ (13 ∷ 10 ∷ closing)))

abbrev blank : Bytes
blank = 13 ∷ 10 ∷ 13 ∷ 10 ∷ []

request_of-body_of : (path r : Text) → request_of path r ≡ body_of path r ++ blank
unfolding request_of
request_of-body_of path r = simp append_assoc

plain-no_cr : (s : Bytes) → all_bytes is_plain s ≡ true → has_no_cr s ≡ true
plain-no_cr s h = all_bytes-weaken is_plain (λ c. not (c == 13)) s (λ c p. ground arith) h

plain-no_zero : (s : Bytes) → all_bytes is_plain s ≡ true → all_bytes (λ c. not (c == 0)) s ≡ true
plain-no_zero s h = all_bytes-weaken is_plain (λ c. not (c == 0)) s (λ c p. ground arith) h

request_line-is_plain :
    (path : Text) → is_safe_path path ≡ true → all_bytes is_plain (request_line path) ≡ true
unfolding is_safe_path all_bytes
request_line-is_plain path h =
    let printed : all_bytes (λ c. leb 0x21 c && leb c 0x7e) path ≡ true = ground arith in
    all_bytes-append is_plain path suffix
      (all_bytes-weaken (λ c. leb 0x21 c && leb c 0x7e) is_plain path printed-is_plain printed) refl

host_line-is_plain : (r : Text) → is_resource_id r ≡ true → all_bytes is_plain (host_line r) ≡ true
unfolding all_bytes
host_line-is_plain r h =
    all_bytes-weaken is_id_character is_plain r id-is_plain
      (id_characters r (resource_characters r h))

closing_header : read_header closing ≡ other
unfolding read_header split_colon lower strip lstrip_by rstrip_by text_eq
closing_header = refl

module _ (path r : Text) (safe : is_safe_path path ≡ true) (named : is_resource_id r ≡ true) where
  lines : split_lines false (body_of path r) ≡ request_line path ∷ host_line r ∷ closing ∷ []
  unfolding split_lines starts_with
  lines =
      split_lines-line (request_line path) (host_line r ++ (13 ∷ 10 ∷ closing))
        (plain-no_cr _ (request_line-is_plain path safe))
      ∙ ap (◌∷◌ (request_line path))
          (split_lines-line (host_line r) closing (plain-no_cr _ (host_line-is_plain r named)))

  no_zero : contains 0 (body_of path r ++ blank) ≡ false
  unfolding all_bytes
  no_zero =
      let test = λ (c : ℕ). not (c == 0) in
      let rest =
        all_bytes-append test (host_line r) (13 ∷ 10 ∷ closing)
          (plain-no_zero (host_line r) (host_line-is_plain r named)) refl in
      contains-all_bytes (body_of path r ++ blank) (
        all_bytes-append test (body_of path r) blank
          (all_bytes-append test (request_line path)
            (13 ∷ 10 ∷ (host_line r ++ (13 ∷ 10 ∷ closing)))
            (plain-no_zero (request_line path) (request_line-is_plain path safe)) rest)
          refl)

  hosts : host_values (host_line r ∷ closing ∷ []) ≡ some (r ∷ [])
  unfolding host_values
  hosts =
      let last : read_header closing ≡ other = closing_header in
      rw (read_header-host r named, last) refl

  -- The gateway accepts the request that `fetch` writes for a safe path and the id of a resource.
  pub valid_http_request-request_of : valid_http_request (request_of path r) r ≡ true
  unfolding valid_http_request
  valid_http_request-request_of =
      let body = body_of path r in
      let size : length (body ++ blank) - 4 ≡ length body =
        omega (arith, length-append {0} body blank) in
      rw
        (
          request_of-body_of path r,
          ends_with-append body blank,
          no_zero,
          size,
          take-all body blank,
          lines,
          valid_request_line-request_line path safe,
          hosts,
        )
        ((text_eq_iff r r).1 refl)
