-- ===== src/Tests/Responses.antt =====
-- Requests and responses of labztna/client.py, and resources of labztna/policy.py.
use ztna_lab.Base.{
  text_key, nat_eq, ◌≡◌, refl, true, Option, some, none, List, [], ◌∷◌, ◌++◌, Text, Bytes, codes,
  text_eq, starts_with, ends_with, lstrip_by, rstrip_by, ok, err, if◌then◌else◌,
}
use ztna_lab.Base.Dict
use ztna_lab.Json.{ℤ, pos}
use ztna_lab.Addresses.{
  in_network, broadcast, is_multicast, has_whole, has_part, collapses, covers_entire_ipv4,
}
use ztna_lab.Dnsmap.{has_forbidden, is_forbidden}
use ztna_lab.Netguard.{is_loopback, is_resource_id, is_id_character, all_id_characters}
use ztna_lab.Policy.Resources.{
  RawResource, checked_route, parsed_routes, are_domains, define_resource, registered, all_routes,
  new_registry, full_tunnel, not_loopback, duplicate_id, definition_of,
}
use ztna_lab.Gateway.Http.{
  split_lines, split_colon, lower, strip, all_bytes, read_header, host_values, valid_request_line,
  valid_http_request,
}
use ztna_lab.Client.Exchange.{
  truncated_response, incomplete_line, read_all, read_line, is_safe_path, request_of,
}
use ztna_lab.Client.Http.{
  partition_blank, first_word, skip_spaces, second_word, status_of_lines, declared_length,
  read_http_response, first_line, read_fetched,
}
use ztna_lab.Tests.Plans.{library}
use ztna_lab.Auth.{encode_ascii}
use ztna_lab.Client.Http.Request.{unsafe_http_header, header_lines, http_json_request}

program : Unit {0}
unfolding text_eq starts_with ends_with lstrip_by rstrip_by Dict.get Dict.put in_network broadcast
    is_multicast has_whole has_part collapses covers_entire_ipv4 has_forbidden is_forbidden
    is_loopback is_resource_id is_id_character all_id_characters checked_route parsed_routes
    are_domains define_resource registered all_routes new_registry split_lines split_colon lower
    strip all_bytes read_header host_values valid_request_line valid_http_request read_all read_line
    is_safe_path request_of partition_blank first_word skip_spaces second_word status_of_lines
    declared_length read_http_response first_line read_fetched encode_ascii header_lines
    http_json_request
program = tt

abbrev crlf : Bytes
crlf = 13 ∷ 10 ∷ []

-- A stand-in for `int`.
abbrev to_int : Text → Option ℤ
to_int t =
    if text_eq t (codes "200")
    then some (pos 200)
    else if text_eq t (codes "2")
    then some (pos 2)
    else if text_eq t (codes "3")
    then some (pos 3)
    else none

abbrev response : Text → Bytes
response size =
    codes "HTTP/1.1 200 OK"
    ++ (crlf ++ (codes "Content-Length: " ++ (size ++ (crlf ++ (crlf ++ codes "hi")))))

read : read_http_response to_int (response (codes "2")) ≡ ok (pos 200, codes "hi")
unfolding program
read = refl

cut : read_http_response to_int (response (codes "3")) ≡ err truncated_response
unfolding program
cut = refl

fetched :
    read_fetched to_int (response (codes "2")) ≡ some (pos 200, codes "hi", codes "HTTP/1.1 200 OK")
unfolding program
fetched = refl

line_read : read_line 10 (codes "ok" ++ 10 ∷ codes "x") ≡ ok (codes "ok" ++ 10 ∷ [])
unfolding program
line_read = refl

no_room : read_line 2 (codes "ok" ++ 10 ∷ []) ≡ err incomplete_line
unfolding program
no_room = refl

-- The gateway accepts the request that the client writes.
accepted : valid_http_request (request_of (codes "/a") (codes "demo")) (codes "demo") ≡ true
unfolding program
accepted = refl

abbrev raw : List Text → RawResource
raw routes = record {
  resource_id = codes "demo";
  host = codes "127.0.0.1";
  port = 8080;
  domains = codes "demo.lab" ∷ [];
  routes = routes;
  actions = codes "read" ∷ [];
}

halves_refused :
    define_resource library (raw (codes "0.0.0.0/1" ∷ codes "128.0.0.0/1" ∷ [])) ≡ err full_tunnel
unfolding program
halves_refused = refl

other_host :
    define_resource library (record (raw []) { host = codes "localhost" }) ≡ err not_loopback
unfolding program
other_host = refl

twice : new_registry (definition_of (raw []) [] ∷ definition_of (raw []) [] ∷ []) ≡ err duplicate_id
unfolding program
twice = refl

safe : is_safe_path (codes "/a") ≡ true
unfolding program
safe = refl

named : is_resource_id (codes "demo") ≡ true
unfolding program
named = refl

requested :
    http_json_request
      (λ n. codes "2")
      (codes "127.0.0.1", 443)
      (codes "POST")
      (codes "/v1/login")
      (codes "{}")
      (codes "application/json")
      ((codes "A", codes "b") ∷ [])
    ≡ ok (
        codes "POST /v1/login HTTP/1.1"
        ++ (crlf
            ++ (codes "Host: localhost"
                ++ (crlf
                    ++ (codes "Content-Type: application/json"
                        ++ (crlf
                            ++ (codes "Content-Length: 2"
                                ++ (crlf
                                    ++ (codes "Connection: close"
                                        ++ (crlf
                                            ++ (codes "A: b"
                                                ++ (crlf ++ (crlf ++ codes "{}")))))))))))))
unfolding program
requested = refl

injected :
    http_json_request
      (λ n. codes "2")
      (codes "127.0.0.1", 443)
      (codes "GET")
      (codes "/")
      []
      (codes "text")
      ((codes "A", codes "b" ++ (crlf ++ codes "C: d")) ∷ [])
    ≡ err unsafe_http_header
unfolding program
injected = refl
