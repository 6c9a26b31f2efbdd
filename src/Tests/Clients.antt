-- ===== src/Tests/Clients.antt =====
-- A login and a heartbeat of the client of labztna/client.py.
use ztna_lab.Base.{
  text_key, nat_eq, ◌≡◌, refl, some, none, Option, [], codes, text_eq, rstrip, ok, err,
}
use ztna_lab.Json.{
  ℤ, pos, Json, lookup, field_names, without, number, text, object, field, no_field,
}
use ztna_lab.Auth.{Externals, encode_ascii, repeated, b64d, b64e, in_lifetime, issued_by}
use ztna_lab.Manifest.{
  within, has_envelope_names, signed_part, signature_holds, check_body, check_signature,
  verify_fields, verify_envelope, append_field, lists_resource, require_manifest_binding,
}
use ztna_lab.Netguard.{is_loopback, is_resource_id, is_id_character, all_id_characters}
use ztna_lab.Client.{
  LabClient, new_client, parse_grant, fits, answered, verified_in, bound_grant, granted, login,
  require_login, bound_envelope, resources, heartbeat_token, heartbeat_manifest, heartbeat_grant,
  heartbeat, logout, rejected, login_required, not_loopback,
}
use ztna_lab.Client.Bound.{none_yet, then_call, logging_in, IsClient, Calls-new_client}
use ztna_lab.Tests.Gateways.{externals}
use ztna_lab.Tests.Plans.{manifest}
use ztna_lab.Tests.Helpers.{signer, envelope}

program : Unit {0}
unfolding text_eq rstrip lookup field_names without encode_ascii repeated b64d b64e in_lifetime
    issued_by within has_envelope_names signed_part signature_holds check_body check_signature
    verify_fields verify_envelope append_field lists_resource require_manifest_binding is_loopback
    is_resource_id is_id_character all_id_characters new_client parse_grant fits answered
    verified_in bound_grant granted login require_login bound_envelope resources heartbeat_token
    heartbeat_manifest heartbeat_grant heartbeat logout
program = tt

abbrev answer_body : Json
answer_body = object (
    field (codes "token") (text (codes "h.p.s")) (
      field (codes "resource") (text (codes "demo")) (
        field (codes "expires_in") (number (pos 120)) (
          field (codes "gateway_port") (number (pos 9443)) (
            field (codes "session_id") (text (codes "a")) (
              field (codes "virtual_ip") (text (codes "100.64.0.1")) (
                field (codes "lease_generation") (number (pos 1))
                  (field (codes "manifest") envelope no_field))))))))

abbrev answering : Externals
answering = record externals { json_loads = λ b. some answer_body }

abbrev to_int : Json → Option ℤ
to_int (number n) = some n
to_int _ = none

abbrev fresh : LabClient
fresh = record {
  control_address = (codes "127.0.0.1", 8443);
  gateway_address = (codes "127.0.0.1", 9443);
  manifest_verifier = signer.verifier;
  token = none;
  resource = none;
  session_id = none;
  device_id = none;
  binding = none;
  manifest = no_field;
  device_key = [];
}

made : new_client (codes "127.0.0.1", 8443) (codes "127.0.0.1", 9443) signer.verifier [] ≡ ok fresh
unfolding program
made = refl

other_host :
    new_client (codes "localhost", 8443) (codes "127.0.0.1", 9443) signer.verifier []
    ≡ err not_loopback
unfolding program
other_host = refl

abbrev in_session : LabClient
in_session = record fresh {
  token = some (codes "h.p.s");
  resource = some (codes "demo");
  session_id = some (codes "a");
  device_id = some (codes "laptop");
  binding = some (record {
    session_id = codes "a";
    virtual_ip = codes "100.64.0.1";
    device_id = codes "laptop";
    lease_generation = 1;
    resource_id = codes "demo";
  });
  manifest = manifest;
}

logged_in : (login answering to_int 1050 (codes "laptop") (pos 200, []) fresh).0 ≡ in_session
unfolding program
logged_in = refl

refused : (login answering to_int 1050 (codes "laptop") (pos 401, []) fresh).1 ≡ err rejected
unfolding program
refused = refl

no_session : (logout (pos 200) fresh).1 ≡ err login_required
unfolding program
no_session = refl

Calls-new_client_example : IsClient answering in_session
Calls-new_client_example =
    Calls-new_client answering to_int (codes "127.0.0.1", 8443) (codes "127.0.0.1", 9443)
      signer.verifier [] fresh in_session made
      (then_call none_yet (logging_in 1050 (codes "laptop") (pos 200, []) logged_in))
