-- ===== src/Manifest/Verified.antt =====
-- What an envelope that labztna/manifest.py accepts has proved.
use mathlib.Core.Path.{subst}
use ztna_lab.Base.{
  text_key, ℕ, ◌+◌, ◌≤◌, ◌≡◌, refl, ap, Bool, true, false, not, ◌&&◌, Option, none, some, List, [],
  ◌∷◌, arith, Text, text_eq_iff, codes, length, contains, Bytes, ok, err, ◌>>=◌, >>?-eq-some,
  passed, or_raise, if◌then◌else◌,
}
use ztna_lab.Json.{
  ℤ, pos, less, plus, Json, number, text, object, Fields, no_field, field, lookup, as_text, as_int,
  as_fields, is_text, is_int, without, object_in, field_names,
}
use ztna_lab.Json.Inversion.{is_text-eq, as_text-eq-some, as_int-eq-some, object_in-eq-some}
use ztna_lab.Auth.{Externals, in_lifetime, issued_by, b64d}
use ztna_lab.Manifest.{
  ManifestVerifier, within, envelope_names, signed_part, has_envelope_names, signature_holds,
  is_true, check_body, check_signature, short_signature, verify_envelope, with_manifest,
  with_signature, verify_fields, manifest_digest, not_object, wrong_fields, unsupported_signature,
  invalid_signature, invalid_lifetime,
}

-- What the signature of an envelope is over.
abbrev pub signed_message : ManifestVerifier → ℤ → ℤ → Fields → Json
signed_message v issued_at expires_at manifest = object (
    field (codes "alg") (text (codes "Ed25519")) (
      field (codes "kid") (text v.key_id) (
        field (codes "issued_at") (number issued_at) (
          field (codes "expires_at") (number expires_at)
            (field (codes "manifest") (object manifest) no_field)))))

-- The manifest stands in the envelope, the envelope has the six names and no other and is in its
-- lifetime, its field `signature` decodes to a signature over the other five, and the manifest has
-- the digest of the rest of it.
pub record IsVerified (x : Externals) (v : ManifestVerifier) (now : ℕ) (envelope : Json)
    (manifest : Fields) : Type 0 where
  pub fields : Fields
  pub signature : Text
  pub issued_at : ℤ
  pub expires_at : ℤ
  pub is_object : as_fields envelope ≡ some fields
  pub names : (t : Text) → contains t (field_names fields) ≡ contains t envelope_names
  pub algorithm : lookup (codes "alg") fields ≡ some (text (codes "Ed25519"))
  pub key : lookup (codes "kid") fields ≡ some (text v.key_id)
  pub issued : lookup (codes "issued_at") fields ≡ some (number issued_at)
  pub expires : lookup (codes "expires_at") fields ≡ some (number expires_at)
  pub started : less (pos (now + 30)) issued_at ≡ false
  pub short_lived : less (plus issued_at 600) expires_at ≡ false
  pub unexpired : less (pos now) expires_at ≡ true
  pub body : lookup (codes "manifest") fields ≡ some (object manifest)
  pub given : lookup (codes "signature") fields ≡ some (text signature)
  pub signature_le : length signature ≤ 256
  pub decoded : Bytes
  pub decodes : b64d x signature ≡ some decoded
  pub signed :
      x.verify_signature v.public_key decoded
        (x.json_dumps (signed_message v issued_at expires_at manifest))
      ≡ true
  pub version : is_int 1 (lookup (codes "version") manifest) ≡ true
  pub digest :
      lookup (codes "manifest_hash") manifest
      ≡ some (
          text (
            x.sha256_hex (
              x.json_dumps
                (object (without (codes "manifest_hash" ∷ codes "session" ∷ []) manifest)))))

lifetime_bounds :
    (now : ℕ) (i e : Option ℤ)
    → in_lifetime now i e ≡ true
    → issued_by now i ≡ true
    → (issued_at : ℤ) × (expires_at : ℤ) × (i ≡ some issued_at)
      × (e ≡ some expires_at)
      × (less (pos (now + 30)) issued_at ≡ false)
      × (less (plus issued_at 600) expires_at ≡ false)
      × (less (pos now) expires_at ≡ true)
unfolding in_lifetime issued_by
lifetime_bounds now none e h k = cc h
lifetime_bounds now (some i) none h k = cc h
lifetime_bounds now (some i) (some e) h k =
    (i, e, refl, refl, ground arith, ground arith, ground arith)

check_body-eq-ok :
    (x : Externals) (m manifest : Fields)
    → check_body x m ≡ ok manifest
    → (m ≡ manifest)
      × (is_int 1 (lookup (codes "version") manifest) ≡ true)
      × (is_text
            (manifest_digest x (without (codes "manifest_hash" ∷ codes "session" ∷ []) manifest))
            (lookup (codes "manifest_hash") manifest)
          ≡ true)
unfolding check_body
check_body-eq-ok x m manifest e =
    let (v, e1) = passed _ _ _ e in
    let (d, e2) = passed _ _ _ e1 in
    let same : m ≡ manifest = cc e2 in
    (
      same,
      subst (λ (n : Fields). is_int 1 (lookup (codes "version") n) ≡ true) same v,
      subst
          (λ (n : Fields).
            is_text (manifest_digest x (without (codes "manifest_hash" ∷ codes "session" ∷ []) n))
              (lookup (codes "manifest_hash") n)
            ≡ true)
          same d,
    )

both : (a b : Bool) → (a && b) ≡ true → (a ≡ true) × (b ≡ true)
both a b h = ground arith

short_signature-eq-some :
    (o : Option Text) (s : Text) → short_signature o ≡ some s → (o ≡ some s) × (length s ≤ 256)
short_signature-eq-some none s h = cc h
short_signature-eq-some (some t) s h = (ground arith, ground arith)

contains-within :
    (ts names : List Text) (t : Text)
    → within ts names ≡ true
    → contains t ts ≡ true
    → contains t names ≡ true
unfolding within
contains-within [] names t h c = cc c
contains-within (s ∷ ts) names t h c = ground (arith, text_eq_iff t s, contains-within ts names t)

has_envelope_names-contains :
    (d : Fields)
    → has_envelope_names d ≡ true
    → (t : Text) → contains t (field_names d) ≡ contains t envelope_names
unfolding has_envelope_names
has_envelope_names-contains d h t =
    let (known, complete) =
      both (within (field_names d) envelope_names) (within envelope_names (field_names d)) h in
    same (contains t (field_names d)) (contains t envelope_names)
      (contains-within (field_names d) envelope_names t known)
      (contains-within envelope_names (field_names d) t complete)
  where
    same : (a b : Bool) → (a ≡ true → b ≡ true) → (b ≡ true → a ≡ true) → a ≡ b
    same true true f g = refl
    same true false f g = cc (f refl)
    same false true f g = cc (g refl)
    same false false f g = refl

checked_signature : (r : Option Bool) → is_true r ≡ true → r ≡ some true
checked_signature (some true) h = refl
checked_signature (some false) h = cc h
checked_signature none h = cc h

module _ (x : Externals) (v : ManifestVerifier) (now : ℕ) (envelope : Json)
    (manifest : Fields) where
  signed_part-signed_message :
      (d : Fields) (issued_at expires_at : ℤ)
      → lookup (codes "alg") d ≡ some (text (codes "Ed25519"))
      → lookup (codes "kid") d ≡ some (text v.key_id)
      → lookup (codes "issued_at") d ≡ some (number issued_at)
      → lookup (codes "expires_at") d ≡ some (number expires_at)
      → lookup (codes "manifest") d ≡ some (object manifest)
      → signed_part d ≡ signed_message v issued_at expires_at manifest
  unfolding signed_part
  signed_part-signed_message d i e alg kid issued expires body =
      rw (alg, kid, issued, expires, body) refl

  signature_holds-signed :
      (d : Fields) (signature : Text)
      → is_true (signature_holds x v signature d) ≡ true
      → (decoded : Bytes) × (b64d x signature ≡ some decoded)
        × (x.verify_signature v.public_key decoded (x.json_dumps (signed_part d)) ≡ true)
  unfolding signature_holds
  signature_holds-signed d signature h =
      let (decoded, decodes, right) = >>?-eq-some _ _ (checked_signature _ h) in
      (decoded, decodes, cc right)

  with_manifest-eq-ok :
      (d : Fields) (signature : Text) (o : Option Fields)
      → with_manifest x v d signature o ≡ ok manifest
      → (o ≡ some manifest)
        × (is_true (signature_holds x v signature d) ≡ true)
        × (is_int 1 (lookup (codes "version") manifest) ≡ true)
        × (is_text
              (manifest_digest x (without (codes "manifest_hash" ∷ codes "session" ∷ []) manifest))
              (lookup (codes "manifest_hash") manifest)
            ≡ true)
  unfolding check_signature
  with_manifest-eq-ok d signature none e = cc e
  with_manifest-eq-ok d signature (some m) e =
      let (signed, e1) =
        passed (is_true (signature_holds x v signature d)) invalid_signature (check_body x m) e in
      let (same, version, digest) = check_body-eq-ok x m manifest e1 in
      (ap some same, signed, version, digest)

  with_signature-IsVerified :
      (d : Fields) (o : Option Text)
      → as_fields envelope ≡ some d
      → has_envelope_names d ≡ true
      → lookup (codes "alg") d ≡ some (text (codes "Ed25519"))
      → lookup (codes "kid") d ≡ some (text v.key_id)
      → short_signature (as_text (lookup (codes "signature") d)) ≡ o
      → with_signature x v now d o ≡ ok manifest
      → IsVerified x v now envelope manifest
  with_signature-IsVerified d none is_object names algorithm key short e = cc e
  with_signature-IsVerified d (some signature) is_object names algorithm key short e =
      let i = as_int (lookup (codes "issued_at") d) in
      let u = as_int (lookup (codes "expires_at") d) in
      let (timely, e1) =
        passed (in_lifetime now i u && issued_by now i) invalid_lifetime
          (with_manifest x v d signature (object_in (lookup (codes "manifest") d))) e in
      let (living, begun) = both (in_lifetime now i u) (issued_by now i) timely in
      let (issued_at, expires_at, issued, expires, started, short_lived, unexpired) =
        lifetime_bounds now i u living begun in
      let (found, seal, version, digest) =
        with_manifest-eq-ok d signature (object_in (lookup (codes "manifest") d)) e1 in
      let (given, signature_le) =
        short_signature-eq-some (as_text (lookup (codes "signature") d)) signature short in
      let body = object_in-eq-some (lookup (codes "manifest") d) manifest found in
      let began = as_int-eq-some (lookup (codes "issued_at") d) issued_at issued in
      let ends = as_int-eq-some (lookup (codes "expires_at") d) expires_at expires in
      let (decoded, decodes, signed) = signature_holds-signed d signature seal in
      record {
        fields = d;
        signature = signature;
        issued_at = issued_at;
        expires_at = expires_at;
        is_object = is_object;
        names = has_envelope_names-contains d names;
        algorithm = algorithm;
        key = key;
        issued = began;
        expires = ends;
        started = started;
        short_lived = short_lived;
        unexpired = unexpired;
        body = body;
        given = as_text-eq-some (lookup (codes "signature") d) signature given;
        signature_le = signature_le;
        decoded = decoded;
        decodes = decodes;
        signed =
            subst (λ (m : Json). x.verify_signature v.public_key decoded (x.json_dumps m) ≡ true)
              (signed_part-signed_message d issued_at expires_at algorithm key began ends body)
              signed;
        version = version;
        digest =
            is_text-eq
              (manifest_digest x (without (codes "manifest_hash" ∷ codes "session" ∷ []) manifest))
              (lookup (codes "manifest_hash") manifest) digest;
      }

  verify_fields-IsVerified :
      (o : Option Fields)
      → as_fields envelope ≡ o
      → (or_raise not_object o >>= verify_fields x v now) ≡ ok manifest
      → IsVerified x v now envelope manifest
  unfolding verify_fields
  verify_fields-IsVerified none h e = cc e
  verify_fields-IsVerified (some d) h e =
      let alg = is_text (codes "Ed25519") (lookup (codes "alg") d) in
      let kid = is_text v.key_id (lookup (codes "kid") d) in
      let o = short_signature (as_text (lookup (codes "signature") d)) in
      let (names, e1) =
        passed (has_envelope_names d) wrong_fields
          (if not (alg && kid) then err unsupported_signature else with_signature x v now d o) e in
      let (right, e2) = passed (alg && kid) unsupported_signature (with_signature x v now d o) e1 in
      let (algorithm, key) = both alg kid right in
      with_signature-IsVerified d o h names
        (is_text-eq (codes "Ed25519") (lookup (codes "alg") d) algorithm)
        (is_text-eq v.key_id (lookup (codes "kid") d) key) refl e2

  -- An envelope is accepted only with the six names of an envelope, the algorithm Ed25519 and the
  -- verifier's key id, in its lifetime of 600 seconds at most, where its own field `signature`, of
  -- 256 characters at most, decodes to a signature by the verifier's key over the other five
  -- fields, and with a manifest of version 1 and the right digest; that manifest is what `verify`
  -- gives.
  pub verify_envelope-IsVerified :
      verify_envelope x v now envelope ≡ ok manifest → IsVerified x v now envelope manifest
  unfolding verify_envelope
  verify_envelope-IsVerified e = verify_fields-IsVerified (as_fields envelope) refl e
