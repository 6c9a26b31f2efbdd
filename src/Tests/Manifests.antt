-- ===== src/Tests/Manifests.antt =====
-- A manifest of labztna/manifest.py, signed and verified with the stand-ins of the gateway's tests.
use ztna_lab.Base.{◌≡◌, refl, true, some, [], arith, length, ◌≤◌, codes, text_eq, rstrip, ok, err}
use ztna_lab.Json.{
  pos, Json, number, text, object, Fields, no_field, field, lookup, field_names, without, no_item,
  item, array,
}
use ztna_lab.Auth.{encode_ascii, repeated, b64d, b64e, in_lifetime, issued_by}
use ztna_lab.Manifest.{
  ManifestSigner, within, has_envelope_names, signed_part, signature_holds, check_body,
  check_signature, verify_fields, verify_envelope, issue_envelope, append_field, lists_resource,
  require_manifest_binding, other_session, invalid_lifetime, unsigned,
}
use ztna_lab.Manifest.Verified.{IsVerified, verify_envelope-IsVerified}
use ztna_lab.Manifest.Issued.{verify_envelope-issue_envelope}
use ztna_lab.Tests.Gateways.{externals}

program : Unit {0}
unfolding text_eq rstrip lookup field_names without encode_ascii repeated b64d b64e in_lifetime
    issued_by within has_envelope_names signed_part signature_holds check_body check_signature
    verify_fields verify_envelope issue_envelope append_field lists_resource
    require_manifest_binding
program = tt

abbrev signer : ManifestSigner
signer = record {
  verifier = record { public_key = []; key_id = codes "lab-manifest-1" };
  private_key = [];
}

abbrev session_part : Json
session_part = object (
    field (codes "id") (text (codes "a")) (
      field (codes "virtual_ip") (text (codes "100.64.0.1")) (
        field (codes "lease_generation") (number (pos 1))
          (field (codes "device_id") (text (codes "laptop")) no_field))))

abbrev manifest : Fields
manifest = field (codes "version") (number (pos 1)) (
    field (codes "resources")
      (array (item (object (field (codes "id") (text (codes "demo")) no_field)) no_item))
      (field (codes "manifest_hash") (text (codes "f"))
        (field (codes "session") session_part no_field)))

abbrev envelope : Json
envelope =
    object (append_field (unsigned signer 1000 120 manifest) (codes "signature") (text (codes "s")))

issued : issue_envelope externals signer 1000 120 manifest ≡ ok envelope
unfolding program
issued = refl

verified : verify_envelope externals signer.verifier 1050 envelope ≡ ok manifest
unfolding program
verified = refl

too_late : verify_envelope externals signer.verifier 1120 envelope ≡ err invalid_lifetime
unfolding program
too_late = refl

bound :
    require_manifest_binding manifest (record {
      session_id = codes "a";
      virtual_ip = codes "100.64.0.1";
      device_id = codes "laptop";
      lease_generation = 1;
      resource_id = codes "demo";
    })
    ≡ ok tt
unfolding program
bound = refl

stale_lease :
    require_manifest_binding manifest (record {
      session_id = codes "a";
      virtual_ip = codes "100.64.0.1";
      device_id = codes "laptop";
      lease_generation = 2;
      resource_id = codes "demo";
    })
    ≡ err other_session
unfolding program
stale_lease = refl

body_checked : check_body externals manifest ≡ ok manifest
unfolding program
body_checked = refl

short_seal : length (b64e externals (codes "s===")) ≤ 256
unfolding program
short_seal = omega arith

seal_read : b64d externals (b64e externals (codes "s===")) ≡ some (codes "s===")
unfolding program
seal_read = refl

seal_right : text_eq (codes "s===") (codes "s===") ≡ true
unfolding program
seal_right = refl

verify_envelope-IsVerified_example : IsVerified externals signer.verifier 1050 envelope manifest
verify_envelope-IsVerified_example =
    verify_envelope-IsVerified externals signer.verifier 1050 envelope manifest verified

verify_envelope-issue_envelope_example :
    verify_envelope externals signer.verifier 1050 envelope ≡ ok manifest
verify_envelope-issue_envelope_example =
    verify_envelope-issue_envelope externals signer 1000 1050 120 manifest envelope issued
      (omega arith) (omega arith) body_checked short_seal seal_read seal_right
