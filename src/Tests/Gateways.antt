-- ===== src/Tests/Gateways.antt =====
-- A granted connection to the gateway of labztna/gateway.py, with stand-ins for the libraries: a
-- signature is right if it is "s".
use ztna_lab.Base.{
  ◌++◌, text_key, pair_key, ◌≡◌, refl, false, Option, none, some, [], ◌∷◌, codes, text_eq, pair_eq,
  starts_with, contains, Bytes, ok, err, if◌then◌else◌,
}
use ztna_lab.Base.Dict
use ztna_lab.Json.{
  pos, Json, number, text, array, object, no_item, item, no_field, field, lookup, all_texts,
}
use ztna_lab.Auth.{
  Externals, encode_ascii, repeated, b64d, split_dots, loaded, loaded_parts, opened_parts,
  header_supported, rightly_issued, in_lifetime, issued_by, check_claims, verify,
}
use ztna_lab.Policy.{is_compliant, decide}
use ztna_lab.Session.{Session, get_active}
use ztna_lab.Replay.Window.{Tracks, keep_last, empty-Tracks}
use ztna_lab.Replay.{empty, discard, evict, consume, consume_request_id}
use ztna_lab.Gateway.{
  Gateway, Hello, Grant, replayed_request, connection_proof_message, proof_holds, dotted,
  check_session, active_session, claims_of, connect, parse_fields, parse_hello, handle,
}
use ztna_lab.Gateway.Access.{IsGranted, connect-IsGranted}
use ztna_lab.Tests.Policies.{device, resource, registry}
use ztna_lab.Netguard.{is_loopback}
use ztna_lab.Gateway.Construction.{invalid_manifest_hash, are_hex_digits, new_gateway}
use ztna_lab.Gateway.Lines.{without_cr, line_bytes, readline, handle_connection}
use ztna_lab.Gateway.Granted.{IsAdmitted, handle_connection-IsAdmitted}

program : Unit {0}
unfolding is_compliant decide Dict.get text_eq pair_eq starts_with lookup all_texts encode_ascii
    repeated b64d split_dots loaded loaded_parts opened_parts header_supported rightly_issued
    in_lifetime issued_by check_claims verify get_active discard evict consume consume_request_id
    connection_proof_message proof_holds dotted check_session active_session claims_of connect
    without_cr line_bytes readline handle_connection parse_fields parse_hello handle is_loopback
    are_hex_digits new_gateway
program = tt

abbrev token_header : Json
token_header = object (
    field (codes "alg") (text (codes "EdDSA")) (
      field (codes "typ") (text (codes "ZTNA1"))
        (field (codes "kid") (text (codes "k1")) no_field)))

abbrev token_claims : Json
token_claims = object (
    field (codes "iss") (text (codes "lab")) (
      field (codes "aud") (text (codes "ztna-gateway")) (
        field (codes "sub") (text (codes "u")) (
          field (codes "resource") (text (codes "demo")) (
            field (codes "scope") (array (item (text (codes "resource:read")) no_item)) (
              field (codes "iat") (number (pos 1000)) (
                field (codes "exp") (number (pos 1120)) (
                  field (codes "jti") (text (codes "12345678")) (
                    field (codes "sid") (text (codes "a")) (
                      field (codes "manifest_hash") (text (codes "m")) (
                        field (codes "manifest_version") (number (pos 1)) (
                          field (codes "device_id") (text (codes "laptop")) (
                            field (codes "device_key_hash") (text (codes "f")) (
                              field (codes "virtual_ip") (text (codes "100.64.0.1")) (
                                field (codes "lease_generation") (number (pos 1))
                                  no_field)))))))))))))))

abbrev loads : Bytes → Option Json
loads b =
    if text_eq b (codes "h===")
    then some token_header
    else if text_eq b (codes "p===")
    then some token_claims
    else none

abbrev pub externals : Externals
externals = record {
  b64decode = λ t. some t;
  urlsafe_b64decode = λ t. some t;
  urlsafe_b64encode = λ b. b ++ codes "===";
  json_loads = loads;
  json_dumps = λ j. [];
  sha256_hex = λ b. codes "f";
  verify_signature = λ key sig message. text_eq sig (codes "s===");
  sign = λ key message. codes "s===";
}

abbrev pub session : Session
session = record {
  session_id = codes "a";
  subject = codes "u";
  posture = device;
  virtual_ip = 1681915905;
  lease_generation = 1;
  expires_at = 1300;
  absolute_expires_at = 4600;
  last_seen = 1000;
  revoked = false;
}

abbrev pub gateway : Gateway
gateway = record {
  signer = record { public_key = []; issuer = codes "lab"; key_id = codes "k1" };
  registry = registry;
  sessions = record {
    ip_pool = record { available = []; allocated = (codes "a", 1681915905) ∷ []; released = [] };
    ttl_seconds = 300;
    absolute_ttl_seconds = 3600;
    idle_seconds = 120;
    sessions = (codes "a", session) ∷ [];
    lease_generation = 1;
  };
  audit = record { events = []; max_events = 512 };
  manifest_hash = codes "m";
  manifest_version = 1;
  replay = empty;
}

abbrev hello : Hello
hello = record {
  token = codes "h.p.s";
  resource = codes "demo";
  device_id = codes "laptop";
  mode = codes "tcp";
  request_id = codes "r1";
  timestamp = pos 1010;
  proof = codes "s";
}

abbrev grant : Grant
grant = record { session = session; definition = resource; hello = hello }

granted : (connect externals 1010 1010 1010 hello gateway).1 ≡ ok grant
unfolding program
granted = refl

refused_again :
    (connect externals 1011 1011 1011 hello (connect externals 1010 1010 1010 hello gateway).0).1
    ≡ err replayed_request
unfolding program
refused_again = refl

connect-IsGranted_example :
    IsGranted externals gateway 1010 1010 1010 hello grant
    × (contains (codes "a", codes "r1") (keep_last 4096 []) ≡ false)
    × Tracks 4096
        ((codes "a", codes "r1") ∷ [])
        (connect externals 1010 1010 1010 hello gateway).0.replay
connect-IsGranted_example =
    connect-IsGranted externals 1010 1010 1010 hello gateway grant [] (empty-Tracks 4096) granted

-- The handshake on the wire, with a carriage return, before the first frame.
abbrev handshake : Bytes
handshake = codes "hello" ++ 13 ∷ 10 ∷ codes "ZTL1"

abbrev handshake_fields : Json
handshake_fields = object (
    field (codes "token") (text (codes "h.p.s")) (
      field (codes "resource") (text (codes "demo")) (
        field (codes "device_id") (text (codes "laptop")) (
          field (codes "request_id") (text (codes "r1")) (
            field (codes "timestamp") (number (pos 1010))
              (field (codes "proof") (text (codes "s")) no_field))))))

abbrev wire_externals : Externals
wire_externals = record externals {
  json_loads = λ b. if text_eq b (codes "hello") then some handshake_fields else loads b;
}

connected :
    (handle_connection wire_externals (codes "t") 1010 1010 1010 handshake gateway).1 ≡ ok grant
unfolding program
connected = refl

handle_connection-IsAdmitted_example :
    IsAdmitted wire_externals gateway 1010 1010 1010 handshake grant
handle_connection-IsAdmitted_example =
    handle_connection-IsAdmitted wire_externals (codes "t") 1010 1010 1010 gateway grant handshake
      connected

refused_hash :
    new_gateway gateway.signer registry gateway.sessions gateway.audit
      (codes "0F")
      1
      (codes "127.0.0.1")
    ≡ err invalid_manifest_hash
unfolding program
refused_hash = refl
