-- ===== src/Manifest/Binding.antt =====
-- What `require_manifest_binding` of labztna/manifest.py says of a manifest.
use ztna_lab.Base.{
  ◌≡◌, Bool, true, not, ◌||◌, some, arith, codes, Result, ok, err, >>=-eq-ok, or_raise,
  or_raise-eq-ok, if◌then◌else◌,
}
use ztna_lab.Json.{text, object, Fields, lookup, is_text, is_int, array_in}
use ztna_lab.Json.Inversion.{is_text-eq, object_in-eq-some}
use ztna_lab.Manifest.{
  ManifestError, ManifestBinding, lists_in, require_manifest_binding, missing_session,
  other_session, missing_resource,
}

-- The session of the manifest is that of the binding, and the binding's resource is listed.
pub record IsBoundTo (b : ManifestBinding) (manifest : Fields) : Type 0 where
  pub session : Fields
  pub session_held : lookup (codes "session") manifest ≡ some (object session)
  pub session_id : lookup (codes "id") session ≡ some (text b.session_id)
  pub virtual_ip : lookup (codes "virtual_ip") session ≡ some (text b.virtual_ip)
  pub device_id : lookup (codes "device_id") session ≡ some (text b.device_id)
  pub generation : is_int b.lease_generation (lookup (codes "lease_generation") session) ≡ true
  pub resource : lists_in b.resource_id (array_in (lookup (codes "resources") manifest)) ≡ true

abbrev accepted : Result ManifestError (Unit {0})
accepted = ok tt

five_tests :
    (i p d g r : Bool)
    → (if not i || (not p || (not d || not g))
        then err other_session
        else if not r
        then err missing_resource
        else ok tt)
      ≡ accepted
    → (i ≡ true) × (p ≡ true) × (d ≡ true) × (g ≡ true) × (r ≡ true)
five_tests i p d g r h = ground arith

pub require_manifest_binding-IsBoundTo :
    (b : ManifestBinding) (manifest : Fields)
    → require_manifest_binding manifest b ≡ ok tt
    → IsBoundTo b manifest
unfolding require_manifest_binding
require_manifest_binding-IsBoundTo b manifest h =
    let (s, found, rest) = >>=-eq-ok (or_raise missing_session _) _ h in
    let (i, p, d, g, r) =
      five_tests (is_text b.session_id (lookup (codes "id") s))
        (is_text b.virtual_ip (lookup (codes "virtual_ip") s))
        (is_text b.device_id (lookup (codes "device_id") s))
        (is_int b.lease_generation (lookup (codes "lease_generation") s))
        (lists_in b.resource_id (array_in (lookup (codes "resources") manifest))) rest in
    record {
      session = s;
      session_held =
          object_in-eq-some (lookup (codes "session") manifest) s
            (or_raise-eq-ok missing_session _ found);
      session_id = is_text-eq b.session_id (lookup (codes "id") s) i;
      virtual_ip = is_text-eq b.virtual_ip (lookup (codes "virtual_ip") s) p;
      device_id = is_text-eq b.device_id (lookup (codes "device_id") s) d;
      generation = g;
      resource = r;
    }
