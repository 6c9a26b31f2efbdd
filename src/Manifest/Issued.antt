-- ===== src/Manifest/Issued.antt =====
-- What the signer of labztna/manifest.py issues is accepted by its verifier.

use ztna_lab.Base.{
  text_key, ℕ, ◌+◌, ◌≤◌, ◌<◌, ◌≡◌, refl, sym, ap, ◌∙◌, Bool, true, not, ◌&&◌, Option, some, arith,
  length, Text, text_eq, text_eq_iff, codes, Bytes, leb, ok, err, passed, pass, ◌>>?◌,
  if◌then◌else◌,
}
use ztna_lab.Json.{pos, Json, text, object, Fields, lookup, field_names}
use ztna_lab.Auth.{Externals, b64d, b64e, in_lifetime, issued_by}
use ztna_lab.Manifest.{
  ManifestSigner, has_envelope_names, signature_holds, is_true, check_body, check_signature,
  short_signature, verify_envelope, with_manifest, with_signature, verify_fields, issue_envelope,
  unsigned, canonical_json, signed_part, append_field, within, ttl_range, unsupported_signature,
  invalid_signature, invalid_lifetime,
}

text_eq_self : (t : Text) → text_eq t t ≡ true
text_eq_self t = (text_eq_iff t t).1 refl

module _ (x : Externals) (signer : ManifestSigner) (issued now ttl : ℕ) (manifest : Fields) where
  -- The signature that `issue` makes.
  abbrev pub signed_bytes : Bytes
  signed_bytes =
      x.sign signer.private_key (canonical_json x (object (unsigned signer issued ttl manifest)))

  abbrev sealed : Text
  sealed = b64e x signed_bytes

  issue_envelope-eq-ok :
      (envelope : Json)
      → issue_envelope x signer issued ttl manifest ≡ ok envelope
      → (1 ≤ ttl)
        × (ttl ≤ 600)
        × (object
              (append_field (unsigned signer issued ttl manifest) (codes "signature") (text sealed))
            ≡ envelope)
  unfolding issue_envelope
  issue_envelope-eq-ok envelope e =
      let (range, e1) =
        passed (leb 1 ttl && leb ttl 600) ttl_range
          (ok (
            object (
              append_field (unsigned signer issued ttl manifest) (codes "signature")
                (text sealed))))
          e in
      (ground arith, ground arith, cc e1)

  timely :
      1 ≤ ttl
      → ttl ≤ 600
      → issued ≤ now + 30
      → now < issued + ttl
      → (in_lifetime now (some (pos issued)) (some (pos (issued + ttl)))
          && issued_by now (some (pos issued)))
        ≡ true
  unfolding in_lifetime issued_by
  timely low high begun living = ground arith

  short_enough : (t : Text) → length t ≤ 256 → short_signature (some t) ≡ some t
  short_enough t h = ground arith

  sealed_accepted :
      (in_lifetime now (some (pos issued)) (some (pos (issued + ttl)))
          && issued_by now (some (pos issued)))
        ≡ true
      → check_body x manifest ≡ ok manifest
      → length sealed ≤ 256
      → b64d x sealed ≡ some signed_bytes
      → x.verify_signature signer.verifier.public_key signed_bytes
          (canonical_json x (object (unsigned signer issued ttl manifest)))
        ≡ true
      → verify_envelope x signer.verifier now (
          object
            (append_field (unsigned signer issued ttl manifest) (codes "signature") (text sealed)))
        ≡ ok manifest
  unfolding verify_envelope verify_fields check_signature signature_holds signed_part append_field
      has_envelope_names field_names lookup text_eq within
  sealed_accepted living sound short back right =
      let d =
        append_field (unsigned signer issued ttl manifest) (codes "signature") (text sealed) in
      let v = signer.verifier in
      let key = text_eq_self v.key_id in
      ap
        (λ (b : Bool).
          if not b
          then err unsupported_signature
          else with_signature x v now d (short_signature (some sealed)))
        key
      ∙ ap (with_signature x v now d) (short_enough sealed short)
      ∙ pass _ invalid_lifetime (with_manifest x v d sealed (some manifest)) living
      ∙ ap
          (λ (o : Option Bytes).
            if not (
              is_true (
                o >>? λ s. some (
                  x.verify_signature v.public_key s
                    (canonical_json x (object (unsigned signer issued ttl manifest))))))
            then err invalid_signature
            else check_body x manifest)
          back
      ∙ pass _ invalid_signature (check_body x manifest) (ap (λ (b : Bool). is_true (some b)) right)
      ∙ sound

-- What `issue` signs is accepted while it lives, also by a clock up to 30 seconds behind the
-- signer's, if the manifest has the version and the digest, the signature is right for the public
-- key, and base64 gives back its 256 characters at most.
pub verify_envelope-issue_envelope :
    (x : Externals) (signer : ManifestSigner) (issued now ttl : ℕ) (manifest : Fields)
    (envelope : Json)
    → issue_envelope x signer issued ttl manifest ≡ ok envelope
    → issued ≤ now + 30
    → now < issued + ttl
    → check_body x manifest ≡ ok manifest
    → length (b64e x (signed_bytes x signer issued now ttl manifest)) ≤ 256
    → b64d x (b64e x (signed_bytes x signer issued now ttl manifest))
      ≡ some (signed_bytes x signer issued now ttl manifest)
    → x.verify_signature signer.verifier.public_key
        (signed_bytes x signer issued now ttl manifest)
        (canonical_json x (object (unsigned signer issued ttl manifest)))
      ≡ true
    → verify_envelope x signer.verifier now envelope ≡ ok manifest
verify_envelope-issue_envelope x signer issued now ttl manifest envelope e begun living sound short
      back right =
    let (low, high, same) = issue_envelope-eq-ok x signer issued now ttl manifest envelope e in
    ap (verify_envelope x signer.verifier now) (sym same)
    ∙ sealed_accepted x signer issued now ttl manifest
        (timely x signer issued now ttl manifest low high begun living) sound short back right
