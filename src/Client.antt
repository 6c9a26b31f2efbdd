-- ===== src/Client.antt =====
-- `LabClient` of labztna/client.py: its state and the calls to the control plane. What the control
-- plane answers, a status and a body, is an argument, and so is the clock of the manifest's
-- verifier. A call that raises leaves the client as it was.
pub mod Bound
pub mod Names
pub mod Exchange
pub mod Http
use ztna_lab.Base.{
  text_key, ℕ, ◌-◌, Bool, true, false, not, ◌&&◌, ◌||◌, Option, none, some, List, [], ◌∷◌, leb, ltb,
  ◌==◌, if◌then◌else◌, length, Text, codes, text_eq, Bytes, Result, ok, err, ◌>>=◌, ◌>>?◌, or_raise,
}
use ztna_lab.Json.{
  ℤ, pos, negsuc, less, Json, text, object, Fields, no_field, field, as_text, as_int, as_fields,
  is_text, object_in, without,
}
use ztna_lab.Json
use ztna_lab.Auth.{Externals}
use ztna_lab.Addresses.{AddressLibrary}
use ztna_lab.Dnsmap.{canonical}
use ztna_lab.Manifest.{
  ManifestError, ManifestVerifier, ManifestBinding, verify_envelope, require_manifest_binding,
  manifest_digest,
}
use ztna_lab.Netguard.{is_loopback, is_resource_id}
use ztna_lab.Routeplan.{RoutePlan}
use ztna_lab.Routeplan.Build.{PlanError, build_from}

-- One constructor for each `raise`, and the exceptions that a call lets through.
pub data ClientError : Type 0 where
  not_loopback bad_port login_required rejected invalid_json invalid_object : ClientError
  invalid_grant binding_mismatch invalid_heartbeat invalid_name hash_mismatch : ClientError
  manifest_error : ManifestError → ClientError
  plan_error : PlanError → ClientError

pub record LoginResult : Type 0 where
  pub token : Text
  pub resource : Text
  pub expires_in : ℤ
  pub gateway_port : ℤ
  pub session_id : Text
  pub virtual_ip : Text
  pub lease_generation : ℕ
  pub manifest : Fields

pub record LabClient : Type 0 where
  pub control_address : Text × ℕ
  pub gateway_address : Text × ℕ
  pub manifest_verifier : ManifestVerifier
  pub token : Option Text
  pub resource : Option Text
  pub session_id : Option Text
  pub device_id : Option Text
  pub binding : Option ManifestBinding
  pub manifest : Fields
  pub device_key : Bytes

-- A status and a body.
abbrev pub Answer : Type 0
Answer = ℤ × Bytes

abbrev pub is_success : ℤ → Bool
is_success (pos n) = n == 200
is_success (negsuc n) = false

abbrev pub is_port : ℕ → Bool
is_port n = leb 1 n && leb n 65535

-- `__init__`
unfoldable pub new_client :
    Text × ℕ → Text × ℕ → ManifestVerifier → Bytes → Result ClientError LabClient
new_client control gateway v key =
    if not (is_loopback control.0)
    then err not_loopback
    else if not (is_loopback gateway.0)
    then err not_loopback
    else if not (is_port control.1 && is_port gateway.1)
    then err bad_port
    else ok (record {
      control_address = control;
      gateway_address = gateway;
      manifest_verifier = v;
      token = none;
      resource = none;
      session_id = none;
      device_id = none;
      binding = none;
      manifest = no_field;
      device_key = key;
    })

-- A field of a grant that must be there.
abbrev pub text_at : Text → Fields → Option Text
text_at name d = as_text (Json.lookup name d)

-- A positive `int` that is no `bool`.
abbrev pub positive : Option ℤ → Option ℕ
positive (some (pos n)) = if n == 0 then none else some n
positive _ = none

-- The fields of a grant with their types; `to_int` is the built-in `int`, with `none` for an
-- exception. The order of these steps is not seen, since each ends in the same exception.
unfoldable pub parse_grant : (Json → Option ℤ) → Fields → Fields → Option LoginResult
parse_grant to_int body manifest = text_at (codes "token") body >>? λ token.
    text_at (codes "resource") body >>? λ resource.
    (Json.lookup (codes "expires_in") body >>? to_int) >>? λ expires_in.
    (Json.lookup (codes "gateway_port") body >>? to_int) >>? λ gateway_port.
    text_at (codes "session_id") body >>? λ session_id.
    text_at (codes "virtual_ip") body >>? λ virtual_ip.
    positive (as_int (Json.lookup (codes "lease_generation") body)) >>? λ lease_generation.
    some (record {
      token = token;
      resource = resource;
      expires_in = expires_in;
      gateway_port = gateway_port;
      session_id = session_id;
      virtual_ip = virtual_ip;
      lease_generation = lease_generation;
      manifest = manifest;
    })

abbrev pub in_ten_minutes : ℤ → Bool
in_ten_minutes n = not (less n (pos 1)) && not (less (pos 600) n)

abbrev pub is_pos : ℤ → ℕ → Bool
is_pos (pos m) n = m == n
is_pos (negsuc m) n = false

-- The test of a grant after its types.
unfoldable pub fits : LabClient → LoginResult → Bool
fits c r =
    not (length r.token == 0)
    && (is_resource_id r.resource
        && (is_pos r.gateway_port c.gateway_address.1 && in_ten_minutes r.expires_in))

abbrev pub binding_of : Text → LoginResult → ManifestBinding
binding_of device_id r = record {
  session_id = r.session_id;
  virtual_ip = r.virtual_ip;
  device_id = device_id;
  lease_generation = r.lease_generation;
  resource_id = r.resource;
}

-- An exception in place of another.
abbrev pub raised : {A : Type 0} → ClientError → Result ManifestError A → Result ClientError A
raised e (ok a) = ok a
raised e (err e') = err e

-- The body of a successful answer.
unfoldable pub answered : Externals → Answer → Result ClientError Fields
answered x (status, body) =
    if not (is_success status)
    then err rejected
    else or_raise invalid_json (x.json_loads body) >>= λ j. or_raise invalid_object (as_fields j)

unfoldable pub verified_in :
    Externals → LabClient → ℕ → ClientError → Fields → Result ClientError Fields
verified_in x c now e d = or_raise e (object_in (Json.lookup (codes "manifest") d)) >>= λ envelope.
    raised e (verify_envelope x c.manifest_verifier now (object envelope))

-- A manifest that is bound to the session.
abbrev pub bound_to : ClientError → ManifestBinding → Fields → Result ClientError Fields
bound_to e b manifest = raised e (require_manifest_binding manifest b) >>= λ _. ok manifest

-- The grant of an answer, with its manifest verified and bound.
unfoldable pub bound_grant : Text → LabClient → LoginResult → Result ClientError LoginResult
bound_grant device_id c r =
    if not (fits c r)
    then err invalid_grant
    else bound_to binding_mismatch (binding_of device_id r) r.manifest >>= λ _. ok r

unfoldable pub granted :
    Externals → (Json → Option ℤ) → ℕ → Text → LabClient → Fields → Result ClientError LoginResult
granted x to_int now device_id c body = verified_in x c now invalid_grant body >>= λ manifest.
    or_raise invalid_grant (parse_grant to_int body manifest) >>= bound_grant device_id c

abbrev pub logged_in : Text → LoginResult → LabClient → LabClient
logged_in device_id r c = record c {
  token = some r.token;
  resource = some r.resource;
  session_id = some r.session_id;
  device_id = some device_id;
  binding = some (binding_of device_id r);
  manifest = r.manifest;
}

abbrev pub kept_grant :
    Text → LabClient → Result ClientError LoginResult → LabClient × Result ClientError LoginResult
kept_grant device_id c (err e) = (c, err e)
kept_grant device_id c (ok r) = (logged_in device_id r c, ok r)

-- `login`, on the answer to its request.
unfoldable pub login :
    Externals
    → (Json → Option ℤ)
    → ℕ
    → Text
    → Answer
    → LabClient
    → LabClient × Result ClientError LoginResult
login x to_int now device_id answer c =
    kept_grant device_id c (answered x answer >>= granted x to_int now device_id c)

-- `_require_login` and `_binding_or_raise`.
unfoldable pub require_login : LabClient → Result ClientError ManifestBinding
require_login c =
    or_raise login_required (c.token >>? λ t. c.resource >>? λ r. c.session_id >>? λ s. c.binding)

abbrev pub let_through : {A : Type 0} → Result ManifestError A → Result ClientError A
let_through (ok a) = ok a
let_through (err e) = err (manifest_error e)

unfoldable pub bound_envelope :
    Externals → ℕ → LabClient → ManifestBinding → Fields → Result ClientError Fields
bound_envelope x now c b envelope =
    let_through (verify_envelope x c.manifest_verifier now (object envelope))
    >>= bound_to binding_mismatch b

abbrev pub kept_manifest :
    LabClient → Result ClientError Fields → LabClient × Result ClientError Fields
kept_manifest c (err e) = (c, err e)
kept_manifest c (ok m) = (record c { manifest = m }, ok m)

-- `resources`
unfoldable pub resources :
    Externals → ℕ → Answer → LabClient → LabClient × Result ClientError Fields
resources x now answer c =
    kept_manifest c (require_login c >>= λ b. answered x answer >>= bound_envelope x now c b)

-- The grant of a heartbeat: a token with ten minutes at most, and a manifest.
unfoldable pub heartbeat_token : Fields → Result ClientError Text
heartbeat_token d = or_raise invalid_heartbeat (text_at (codes "token") d) >>= λ token.
    or_raise invalid_heartbeat (as_int (Json.lookup (codes "expires_in") d)) >>= λ expires_in.
    if not (in_ten_minutes expires_in) then err invalid_heartbeat else ok token

unfoldable pub heartbeat_manifest :
    Externals → ℕ → LabClient → ManifestBinding → Fields → Result ClientError Fields
heartbeat_manifest x now c b d =
    verified_in x c now invalid_heartbeat d >>= bound_to invalid_heartbeat b

abbrev pub heartbeat_with :
    Externals → ℕ → LabClient → ManifestBinding → Fields → Text → Result ClientError (Text × Fields)
heartbeat_with x now c b d token =
    heartbeat_manifest x now c b d >>= λ manifest. ok (token, manifest)

unfoldable pub heartbeat_grant :
    Externals → ℕ → LabClient → ManifestBinding → Fields → Result ClientError (Text × Fields)
heartbeat_grant x now c b d = heartbeat_token d >>= heartbeat_with x now c b d

abbrev pub not_json : {A : Type 0} → Result ClientError A → Result ClientError A
not_json (err invalid_json) = err invalid_heartbeat
not_json (err invalid_object) = err invalid_heartbeat
not_json r = r

abbrev pub kept_heartbeat :
    LabClient → Result ClientError (Text × Fields) → LabClient × Result ClientError (Unit {0})
kept_heartbeat c (err e) = (c, err e)
kept_heartbeat c (ok (t, m)) = (record c { token = some t; manifest = m }, ok tt)

-- `heartbeat`
unfoldable pub heartbeat :
    Externals → ℕ → Answer → LabClient → LabClient × Result ClientError (Unit {0})
heartbeat x now answer c =
    kept_heartbeat c
      (require_login c >>= λ b. not_json (answered x answer) >>= heartbeat_grant x now c b)

abbrev pub logged_out : LabClient → LabClient
logged_out c = record c {
  token = none;
  resource = none;
  session_id = none;
  device_id = none;
  binding = none;
  manifest = no_field;
}

abbrev pub left :
    LabClient → Result ClientError (Unit {0}) → LabClient × Result ClientError (Unit {0})
left c (err e) = (c, err e)
left c (ok _) = (logged_out c, ok tt)

-- `logout`, on the status of the answer.
unfoldable pub logout : ℤ → LabClient → LabClient × Result ClientError (Unit {0})
logout status c =
    left c (require_login c >>= λ b. if not (is_success status) then err rejected else ok tt)
