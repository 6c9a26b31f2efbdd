-- ===== src/Manifest.antt =====
-- labztna/manifest.py: `ManifestVerifier`, `ManifestSigner.issue` and `require_manifest_binding`.
-- The clock is an argument. `canonical_json` and `manifest_digest` of labztna/policy.py are
-- `json_dumps` and its hash.
pub mod Verified
pub mod Issued
pub mod Binding
use ztna_lab.Base.{
  text_key, ℕ, ◌+◌, Bool, true, false, not, ◌&&◌, ◌||◌, Option, none, some, List, [], ◌∷◌, ltb, leb,
  if◌then◌else◌, length, contains, Text, codes, text_eq, Bytes, Result, ok, err, ◌>>=◌, ◌>>?◌,
  or_raise,
}
use ztna_lab.Json.{
  ℤ, pos, Json, null, number, text, object, Items, no_item, item, Fields, no_field, field, lookup,
  as_text, as_int, as_fields, is_text, is_int, field_names, without, or_null, object_in, array_in,
}
use ztna_lab.Auth.{Externals, b64d, b64e, in_lifetime, issued_by}

-- One constructor for each `raise ManifestError`.
pub data ManifestError : Type 0 where
  not_object wrong_fields unsupported_signature invalid_signature invalid_lifetime : ManifestError
  unsupported_version digest_mismatch missing_session other_session missing_resource : ManifestError
  ttl_range : ManifestError

pub record ManifestVerifier : Type 0 where
  pub public_key : Bytes
  pub key_id : Text

pub record ManifestSigner : Type 0 where
  pub verifier : ManifestVerifier
  pub private_key : Bytes

pub record ManifestBinding : Type 0 where
  pub session_id : Text
  pub virtual_ip : Text
  pub device_id : Text
  pub lease_generation : ℕ
  pub resource_id : Text

abbrev pub manifest_version : ℕ
manifest_version = 1

abbrev pub envelope_names : List Text
envelope_names =
    codes "alg"
    ∷ codes "kid"
    ∷ codes "issued_at"
    ∷ codes "expires_at"
    ∷ codes "manifest"
    ∷ codes "signature"
    ∷ []

-- Each text of the first list is in the second.
unfoldable pub within : List Text → List Text → Bool
within [] names = true
within (t ∷ ts) names = contains t names && within ts names

-- `set(envelope) == {...}`
unfoldable pub has_envelope_names : Fields → Bool
has_envelope_names d =
    within (field_names d) envelope_names && within envelope_names (field_names d)

-- The part of an envelope that is signed.
unfoldable pub signed_part : Fields → Json
signed_part d = object (
    field (codes "alg") (or_null (lookup (codes "alg") d)) (
      field (codes "kid") (or_null (lookup (codes "kid") d)) (
        field (codes "issued_at") (or_null (lookup (codes "issued_at") d)) (
          field (codes "expires_at") (or_null (lookup (codes "expires_at") d))
            (field (codes "manifest") (or_null (lookup (codes "manifest") d)) no_field)))))

-- `canonical_json`
abbrev pub canonical_json : Externals → Json → Bytes
canonical_json x value = x.json_dumps value

-- `manifest_digest`
abbrev pub manifest_digest : Externals → Fields → Text
manifest_digest x manifest = x.sha256_hex (canonical_json x (object manifest))

-- `_public_key.verify(_b64d(signature), canonical_json(signed))`; `none` is an exception of `_b64d`.
unfoldable pub signature_holds : Externals → ManifestVerifier → Text → Fields → Option Bool
signature_holds x v signature d = b64d x signature >>? λ s.
    some (x.verify_signature v.public_key s (canonical_json x (signed_part d)))

abbrev pub is_true : Option Bool → Bool
is_true (some true) = true
is_true _ = false

-- The last checks of `verify`, on the manifest itself.
unfoldable pub check_body : Externals → Fields → Result ManifestError Fields
check_body x manifest =
    if not (is_int manifest_version (lookup (codes "version") manifest))
    then err unsupported_version
    else if not (
        is_text
          (manifest_digest x (without (codes "manifest_hash" ∷ codes "session" ∷ []) manifest))
          (lookup (codes "manifest_hash") manifest))
    then err digest_mismatch
    else ok manifest

unfoldable pub check_signature :
    Externals → ManifestVerifier → Text → Fields → Fields → Result ManifestError Fields
check_signature x v signature d manifest =
    if not (is_true (signature_holds x v signature d))
    then err invalid_signature
    else check_body x manifest

abbrev pub short_signature : Option Text → Option Text
short_signature t = t >>? λ s. if ltb 256 (length s) then none else some s

abbrev pub with_manifest :
    Externals → ManifestVerifier → Fields → Text → Option Fields → Result ManifestError Fields
with_manifest x v d signature none = err invalid_lifetime
with_manifest x v d signature (some manifest) = check_signature x v signature d manifest

abbrev pub with_signature :
    Externals → ManifestVerifier → ℕ → Fields → Option Text → Result ManifestError Fields
with_signature x v now d none = err invalid_signature
with_signature x v now d (some signature) =
    let issued_at = as_int (lookup (codes "issued_at") d) in
    if not (
      in_lifetime now issued_at (as_int (lookup (codes "expires_at") d)) && issued_by now issued_at)
    then err invalid_lifetime
    else with_manifest x v d signature (object_in (lookup (codes "manifest") d))

unfoldable pub verify_fields :
    Externals → ManifestVerifier → ℕ → Fields → Result ManifestError Fields
verify_fields x v now d =
    if not (has_envelope_names d)
    then err wrong_fields
    else if not (
        is_text (codes "Ed25519") (lookup (codes "alg") d)
        && is_text v.key_id (lookup (codes "kid") d))
    then err unsupported_signature
    else with_signature x v now d (short_signature (as_text (lookup (codes "signature") d)))

-- `ManifestVerifier.verify`
unfoldable pub verify_envelope :
    Externals → ManifestVerifier → ℕ → Json → Result ManifestError Fields
verify_envelope x v now envelope =
    or_raise not_object (as_fields envelope) >>= verify_fields x v now

-- What `ManifestSigner.issue` signs.
abbrev pub unsigned : ManifestSigner → ℕ → ℕ → Fields → Fields
unsigned signer now ttl manifest = field (codes "alg") (text (codes "Ed25519")) (
    field (codes "kid") (text signer.verifier.key_id) (
      field (codes "issued_at") (number (pos now)) (
        field (codes "expires_at") (number (pos (now + ttl)))
          (field (codes "manifest") (object manifest) no_field))))

unfoldable pub append_field : Fields → Text → Json → Fields
append_field no_field name value = field name value no_field
append_field (field n v rest) name value = field n v (append_field rest name value)

-- `ManifestSigner.issue`
unfoldable pub issue_envelope :
    Externals → ManifestSigner → ℕ → ℕ → Fields → Result ManifestError Json
unfolding append_field
issue_envelope x signer now ttl manifest =
    let signed = unsigned signer now ttl manifest in
    if not (leb 1 ttl && leb ttl 600)
    then err ttl_range
    else ok (
        object (
          append_field signed (codes "signature")
            (text (b64e x (x.sign signer.private_key (canonical_json x (object signed)))))))

-- A resource entry of the manifest with the id.
unfoldable pub lists_resource : Text → Items → Bool
lists_resource resource_id no_item = false
lists_resource resource_id (item j rest) =
    is_text resource_id (object_in (some j) >>? lookup (codes "id"))
    || lists_resource resource_id rest

abbrev pub lists_in : Text → Option Items → Bool
lists_in resource_id none = false
lists_in resource_id (some items) = lists_resource resource_id items

unfoldable pub require_manifest_binding : Fields → ManifestBinding → Result ManifestError (Unit {0})
require_manifest_binding manifest binding =
    or_raise missing_session (object_in (lookup (codes "session") manifest)) >>= λ s.
    if not (is_text binding.session_id (lookup (codes "id") s))
      || (not (is_text binding.virtual_ip (lookup (codes "virtual_ip") s))
          || (not (is_text binding.device_id (lookup (codes "device_id") s))
              || not (is_int binding.lease_generation (lookup (codes "lease_generation") s))))
    then err other_session
    else if not (lists_in binding.resource_id (array_in (lookup (codes "resources") manifest)))
    then err missing_resource
    else ok tt
