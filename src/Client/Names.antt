-- ===== src/Client/Names.antt =====
-- `resolve` and `route_plan` of labztna/client.py. The answer of the control plane is read where the
-- client holds no manifest.
use ztna_lab.Base.{
  text_key, ℕ, not, ◌&&◌, Option, none, some, [], ◌∷◌, leb, if◌then◌else◌, length, Text, codes,
  Result, ok, err, ◌>>=◌, or_raise,
}
use ztna_lab.Json.{Json, Fields, no_field, field, object_in, is_text, without}
use ztna_lab.Json
use ztna_lab.Auth.{Externals}
use ztna_lab.Addresses.{AddressLibrary}
use ztna_lab.Dnsmap.{canonical}
use ztna_lab.Manifest.{manifest_digest}
use ztna_lab.Routeplan.{RoutePlan}
use ztna_lab.Routeplan.Build.{PlanError, build_from}
use ztna_lab.Client.{
  ClientError, invalid_name, binding_mismatch, hash_mismatch, plan_error, login_required, LabClient,
  Answer, require_login, resources, bound_to,
}

-- `self._manifest or self.resources()`
abbrev pub held_manifest :
    Externals → ℕ → Answer → LabClient → Fields → LabClient × Result ClientError Fields
held_manifest x now answer c no_field = resources x now answer c
held_manifest x now answer c (field n v rest) = (c, ok (field n v rest))

-- The manifest, bound once more to the session.
abbrev pub rebound : LabClient → Result ClientError Fields → Result ClientError Fields
rebound c r = r >>= λ manifest.
    or_raise login_required c.binding >>= λ b. bound_to binding_mismatch b manifest

abbrev pub name_in : Text → Option Fields → Option Json
name_in name none = none
name_in name (some dns) = Json.lookup name dns

unfoldable pub resolve_in : AddressLibrary → Text → Fields → Option Json
resolve_in a domain manifest =
    name_in (canonical a.lower domain) (object_in (Json.lookup (codes "dns") manifest))

-- `resolve`
unfoldable pub resolve :
    Externals
    → AddressLibrary
    → ℕ
    → Answer
    → Text
    → LabClient
    → LabClient × Result ClientError (Option Json)
resolve x a now answer domain c =
    if not (leb 1 (length domain) && leb (length domain) 253)
    then (c, err invalid_name)
    else let (d, r) = held_manifest x now answer c c.manifest in
      (d, rebound d r >>= λ manifest. ok (resolve_in a domain manifest))

-- The fields of the manifest under its hash.
abbrev pub hashed : Fields → Fields
hashed = without (codes "manifest_hash" ∷ codes "session" ∷ [])

abbrev pub planned : Result PlanError RoutePlan → Result ClientError RoutePlan
planned (ok plan) = ok plan
planned (err e) = err (plan_error e)

unfoldable pub plan_in : Externals → AddressLibrary → Fields → Result ClientError RoutePlan
plan_in x a manifest =
    if not
      (is_text (manifest_digest x (hashed manifest)) (Json.lookup (codes "manifest_hash") manifest))
    then err hash_mismatch
    else planned (build_from a manifest)

-- `route_plan`
unfoldable pub route_plan :
    Externals → AddressLibrary → ℕ → Answer → LabClient → LabClient × Result ClientError RoutePlan
route_plan x a now answer c =
    let (d, r) = held_manifest x now answer c c.manifest in
    (elim (require_login c) [ err e ↦ (c, err e) | ok b ↦ (d, rebound d r >>= plan_in x a) ])
