-- ===== src/Client/Http/Request.antt =====
-- The request of `_http_json_request` of labztna/client.py. `str` of the payload's length is an
-- argument; the connection that is made before the headers are tested is the libraries'.
use ztna_lab.Base.{
  text_key, nat_eq, ℕ, Bool, not, ◌&&◌, ◌||◌, List, [], ◌∷◌, ◌++◌, leb, contains, starts_with,
  length, Text, codes, Bytes, Result, ok, err, ◌>>=◌, or_raise, if◌then◌else◌,
}
use ztna_lab.Auth.{encode_ascii}
use ztna_lab.Netguard.{is_loopback}

-- One constructor for each `raise`, and `UnicodeEncodeError`.
pub data RequestError : Type 0 where
  foreign_host invalid_port unsafe_http_path unsafe_http_header not_ascii : RequestError

abbrev breaks_line : Text → Bool
breaks_line t = contains 13 t || contains 10 t

abbrev line_end : Bytes
line_end = 13 ∷ 10 ∷ []

unfoldable pub header_lines : List (Text × Text) → Result RequestError Bytes
header_lines [] = ok []
header_lines ((name, value) ∷ headers) =
    let rest = header_lines headers in
    let line = or_raise not_ascii (encode_ascii (name ++ (codes ": " ++ (value ++ line_end)))) in
    if breaks_line name || breaks_line value
    then err unsafe_http_header
    else line >>= λ l. rest >>= λ ls. ok (l ++ ls)

abbrev pub request_head : (ℕ → Text) → Text → Text → Text → Bytes → Text
request_head to_text method path content_type payload =
    method
    ++ (codes " "
        ++ (path
            ++ (codes " HTTP/1.1"
                ++ (line_end
                    ++ (codes "Host: localhost"
                        ++ (line_end
                            ++ (codes "Content-Type: "
                                ++ (content_type
                                    ++ (line_end
                                        ++ (codes "Content-Length: "
                                            ++ (to_text (length payload)
                                                ++ (line_end
                                                    ++ (codes "Connection: close"
                                                        ++ line_end)))))))))))))

-- The bytes that are sent.
unfoldable pub http_json_request :
    (ℕ → Text)
    → Text × ℕ
    → Text
    → Text
    → Bytes
    → Text
    → List (Text × Text)
    → Result RequestError Bytes
http_json_request to_text (host, port) method path payload content_type headers =
    let head =
      or_raise not_ascii (encode_ascii (request_head to_text method path content_type payload)) in
    if not (is_loopback host)
    then err foreign_host
    else if not (leb 1 port && leb port 65535)
    then err invalid_port
    else if not (starts_with (codes "/") path) || breaks_line path
    then err unsafe_http_path
    else head >>= λ h. header_lines headers >>= λ ls. ok (h ++ (ls ++ (line_end ++ payload)))
