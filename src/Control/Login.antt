-- ===== src/Control/Login.antt =====
-- `/v1/login` of `_ControlHandler.do_POST` of labztna/control.py, with `grant_for` and
-- `manifest_for` of `ControlPlane` and `verify_password` of labztna/auth.py. Each reading of the
-- clock and each fresh text is an argument.
pub mod Granted
use ztna_lab.Base.{
  text_key, ℕ, ◌+◌, ◌%◌, ◌==◌, Bool, true, false, not, ◌&&◌, ◌||◌, Option, none, some, [], ◌∷◌,
  ◌++◌, if◌then◌else◌, length, Text, codes, text_eq, Bytes, Result, ok, err, ◌>>?◌, leb,
}
use ztna_lab.Json.{
  pos, Json, boolean, number, text, object, Fields, no_field, field, assign, lookup, as_text,
}
use ztna_lab.Auth.{Externals, padding}
use ztna_lab.Auth.Signer.{TokenSigner, GrantClaims, IssueError, issue}
use ztna_lab.Audit.{AuditEvent, record_event}
use ztna_lab.Policy.{DevicePosture, Reason, PolicyDecision, decide}
use ztna_lab.Ipam.{PoolError}
use ztna_lab.Gateway.{dotted, reason_text}
use ztna_lab.Manifest.{ManifestError, issue_envelope}
use ztna_lab.Session.{Session, SessionStore, create}
use ztna_lab.Otp.{OtpExternals, OtpError, consume_otp}
use ztna_lab.Control.{ControlPlane, PasswordHash}

-- `password.encode("utf-8")`, and `hashlib.pbkdf2_hmac` of a password and a salt.
pub record PasswordExternals : Type 0 where
  pub utf8 : Text → Option Bytes
  pub pbkdf2 : Bytes → Bytes → Bytes

-- `verify_password`; `none` is the `UnicodeEncodeError`.
unfoldable pub verify_password : PasswordExternals → Text → PasswordHash → Option Bool
verify_password w password h = w.utf8 password >>? λ b. some (text_eq (w.pbkdf2 b h.salt) h.digest)

-- The body of a login, once the types are checked.
pub record LoginRequest : Type 0 where
  pub username : Text
  pub password : Text
  pub otp : Text
  pub device_id : Text
  pub os : Text
  pub managed : Bool
  pub client_version : Text
  pub device_public_key : Text

abbrev as_bool : Option Json → Option Bool
as_bool (some (boolean b)) = some b
as_bool _ = none

abbrev text_in : Fields → Text → Option Text
text_in d name = as_text (lookup name d)

-- The test on `required_types`.
unfoldable pub parse_login : Fields → Option LoginRequest
parse_login d = text_in d (codes "username") >>? λ username.
    text_in d (codes "password") >>? λ password. text_in d (codes "otp") >>? λ otp.
    text_in d (codes "device_id") >>? λ device_id. text_in d (codes "os") >>? λ os.
    as_bool (lookup (codes "managed") d) >>? λ managed.
    text_in d (codes "client_version") >>? λ client_version.
    text_in d (codes "device_public_key") >>? λ key. some (record {
      username = username;
      password = password;
      otp = otp;
      device_id = device_id;
      os = os;
      managed = managed;
      client_version = client_version;
      device_public_key = key;
    })

abbrev exactly_32 : Option Bytes → Bytes
exactly_32 none = []
exactly_32 (some b) = if length b == 32 then b else []

-- `_decode_device_key`
unfoldable pub decode_device_key : Externals → Text → Bytes
decode_device_key x value =
    if leb 40 (length value) && leb (length value) 64
    then exactly_32 (x.urlsafe_b64decode (value ++ padding (length value)))
    else []

abbrev pub posture_of : Externals → LoginRequest → DevicePosture
posture_of x r = record {
  device_id = r.device_id;
  os = r.os;
  managed = r.managed;
  client_version = r.client_version;
  public_key = decode_device_key x r.device_public_key;
}

-- The clock's readings in the order in which they are made, and the fresh texts.
pub record Readings : Type 0 where
  pub otp_matched : ℕ
  pub otp_purged : ℕ
  pub swept : ℕ
  pub created : ℕ
  pub granted : ℕ
  pub enveloped : ℕ
  pub session_id : Text
  pub token_id : Text
  pub stamp : Text

-- `grant_for`
unfoldable pub grant_for : Externals → ControlPlane → Session → ℕ → Text → Result IssueError Text
grant_for x c s now token_id =
    issue x c.signer s.subject c.resource_id c.grant_ttl_seconds now token_id (record {
      session_id = some s.session_id;
      device_id = some s.posture.device_id;
      device_key_hash = some (x.sha256_hex s.posture.public_key);
      manifest_hash = some c.manifest_hash;
      manifest_version = some c.manifest_version;
      virtual_ip = some (dotted s.virtual_ip);
      lease_generation = some s.lease_generation;
    })

-- `manifest_for`
unfoldable pub manifest_for : ControlPlane → Session → Fields
manifest_for c s =
    assign (codes "session")
      (object (
        field (codes "id") (text s.session_id) (
          field (codes "virtual_ip") (text (dotted s.virtual_ip)) (
            field (codes "lease_generation") (number (pos s.lease_generation)) (
              field (codes "expires_at") (number (pos s.expires_at))
                (field (codes "device_id") (text s.posture.device_id) no_field))))))
      (assign (codes "manifest_hash") (text c.manifest_hash) c.manifest_base)

-- `manifest_envelope_for`; a manifest lives for the 120 seconds that `issue` takes by default.
unfoldable pub manifest_envelope_for :
    Externals → ControlPlane → Session → ℕ → Result ManifestError Json
manifest_envelope_for x c s now = issue_envelope x c.manifest_signer now 120 (manifest_for c s)

-- How a login ends without a session. The constructors from `not_utf8` on are exceptions that
-- `do_POST` does not catch.
pub data LoginRefusal : Type 0 where
  invalid_login_request invalid_credentials invalid_otp : LoginRefusal
  denied : Reason → LoginRefusal
  not_utf8 : LoginRefusal
  otp_error : OtpError → LoginRefusal
  pool_error : PoolError → LoginRefusal
  issue_error : IssueError → LoginRefusal
  manifest_error : ManifestError → LoginRefusal

-- What the reply to a login holds beside the control plane's own settings.
pub record LoginGrant : Type 0 where
  pub session : Session
  pub token : Text
  pub envelope : Json

abbrev login_event : Text → Text → LoginRequest → Option Text → Option Text → AuditEvent
login_event stamp outcome r resource detail = record {
  timestamp = stamp;
  event = codes "login";
  outcome = outcome;
  subject = some r.username;
  resource = resource;
  device_id = some r.device_id;
  request_id = none;
  detail = detail;
}

abbrev pub logged : AuditEvent → ControlPlane → ControlPlane
logged e c = record c { audit = record_event e c.audit }

abbrev pub with_envelope :
    Session
    → Text
    → ControlPlane
    → Result ManifestError Json
    → ControlPlane × Result LoginRefusal LoginGrant
with_envelope s token c (err e) = (c, err (manifest_error e))
with_envelope s token c (ok envelope) =
    (c, ok (record { session = s; token = token; envelope = envelope }))

abbrev pub with_token :
    Externals
    → Readings
    → LoginRequest
    → Session
    → ControlPlane
    → Result IssueError Text
    → ControlPlane × Result LoginRefusal LoginGrant
with_token x t r s c (err e) = (c, err (issue_error e))
with_token x t r s c (ok token) =
    with_envelope s token
      (logged (login_event t.stamp (codes "allow") r (some c.resource_id) none) c)
      (manifest_envelope_for x c s t.enveloped)

abbrev pub with_created :
    Externals
    → Readings
    → LoginRequest
    → ControlPlane
    → SessionStore × Result PoolError Session
    → ControlPlane × Result LoginRefusal LoginGrant
with_created x t r c (st, err e) = (record c { sessions = st }, err (pool_error e))
with_created x t r c (st, ok s) =
    let c' : ControlPlane = record c { sessions = st } in
    with_token x t r s c' (grant_for x c' s t.granted t.token_id)

abbrev pub with_decision :
    Externals
    → Readings
    → LoginRequest
    → ControlPlane
    → PolicyDecision
    → ControlPlane × Result LoginRefusal LoginGrant
with_decision x t r c d =
    if not d.allowed
    then (
      logged (login_event t.stamp (codes "deny") r none (some (reason_text d.reason))) c,
      err (denied d.reason),
    )
    else with_created x t r c
        (create t.swept t.created r.username (posture_of x r) t.session_id c.sessions)

abbrev pub with_otp :
    Externals
    → Readings
    → LoginRequest
    → ControlPlane
    → Result OtpError Bool
    → ControlPlane × Result LoginRefusal LoginGrant
with_otp x t r c (err e) = (c, err (otp_error e))
with_otp x t r c (ok false) = (c, err invalid_otp)
with_otp x t r c (ok true) =
    with_decision x t r c
      (decide c.registry r.username c.resource_id (codes "read") (posture_of x r))

abbrev pub with_password :
    Externals
    → OtpExternals
    → Readings
    → LoginRequest
    → ControlPlane
    → Option Bool
    → ControlPlane × Result LoginRefusal LoginGrant
with_password x y t r c none = (c, err not_utf8)
with_password x y t r c (some false) = (c, err invalid_credentials)
with_password x y t r c (some true) =
    let used = consume_otp y c.otp_secret r.otp t.otp_matched t.otp_purged c.used_otp_steps in
    with_otp x t r (record c { used_otp_steps = used.0 }) used.1

-- The login of a request whose types are right.
unfoldable pub login :
    Externals
    → OtpExternals
    → PasswordExternals
    → Readings
    → LoginRequest
    → ControlPlane
    → ControlPlane × Result LoginRefusal LoginGrant
login x y w t r c =
    if not (text_eq r.username c.username)
    then (c, err invalid_credentials)
    else with_password x y t r c (verify_password w r.password c.password_hash)

abbrev with_request :
    Externals
    → OtpExternals
    → PasswordExternals
    → Readings
    → ControlPlane
    → Option LoginRequest
    → ControlPlane × Result LoginRefusal LoginGrant
with_request x y w t c none = (c, err invalid_login_request)
with_request x y w t c (some r) = login x y w t r c

-- `/v1/login` on a body that is a `dict`.
unfoldable pub post_login :
    Externals
    → OtpExternals
    → PasswordExternals
    → Readings
    → Fields
    → ControlPlane
    → ControlPlane × Result LoginRefusal LoginGrant
post_login x y w t payload c = with_request x y w t c (parse_login payload)
