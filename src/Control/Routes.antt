-- ===== src/Control/Routes.antt =====
-- `do_GET`, `do_POST` and `_read_json` of `_ControlHandler` of labztna/control.py. Python's
-- `int(text)` and `str.strip` are arguments.
pub mod Logout
use ztna_lab.Base.{
  text_key, ℕ, Bool, true, false, not, ◌&&◌, ◌||◌, Option, none, some, List, [], ◌∷◌, if◌then◌else◌,
  leb, take, Text, codes, text_eq, Bytes, Result, ok, err, ◌>>?◌,
}
use ztna_lab.Json.{ℤ, pos, negsuc, Json, Fields, no_field, as_fields}
use ztna_lab.Auth.{Externals}
use ztna_lab.Auth.Signer.{IssueError}
use ztna_lab.Audit.{AuditEvent}
use ztna_lab.Manifest.{ManifestError}
use ztna_lab.Session.{Session, SessionStore, heartbeat, revoke}
use ztna_lab.Otp.{OtpExternals, OtpError, compare_digest}
use ztna_lab.Control.{ControlPlane, Request, Unauthorized, undefined_name, authorized_session}
use ztna_lab.Control.Login.{
  PasswordExternals, Readings, LoginRefusal, LoginGrant, invalid_login_request, invalid_credentials,
  invalid_otp, denied, logged, grant_for, manifest_envelope_for, post_login,
}

-- The libraries and builtins of a request.
pub record Builtins : Type 0 where
  pub libraries : Externals
  pub codes_of : OtpExternals
  pub passwords : PasswordExternals
  pub parse_int : Text → Option ℤ
  pub strip : Text → Text

-- A request with the clock's readings: those of `_authorized_session`, that of the heartbeat, and
-- the rest.
pub record Exchange : Type 0 where
  pub request : Request
  pub content_length : Text
  pub stream : Bytes
  pub admin_header : Text
  pub verified : ℕ
  pub seen : ℕ
  pub now : ℕ
  pub beat : ℕ
  pub readings : Readings

-- `uncaught` is an exception that the handler lets through: no reply is sent.
pub data Response : Type 0 where
  not_found invalid_json admin_required session_over healthy logged_out uncaught : Response
  unauthorized : Unauthorized → Response
  login_refused : LoginRefusal → Response
  resources : Json → Response
  events : List AuditEvent → Response
  logged_in : LoginGrant → Response
  refreshed : LoginGrant → Response

abbrev body_of : Externals → Bytes → ℕ → Option Fields
body_of x stream n =
    if leb 1 n && leb n 16384 then x.json_loads (take n stream) >>? as_fields else none

abbrev sized_body : Externals → Bool → Bytes → ℤ → Option Fields
sized_body x required stream (negsuc n) = none
sized_body x required stream (pos n) =
    if leb n 0 && not required then some no_field else body_of x stream n

-- `_read_json`; `none` is the reply `invalid_json`.
unfoldable pub read_json : Builtins → Bool → Exchange → Option Fields
read_json b required e = b.parse_int e.content_length >>? sized_body b.libraries required e.stream

abbrev pub authorize :
    Builtins → Exchange → ControlPlane → ControlPlane × Result Unauthorized Session
authorize b e c =
    authorized_session b.libraries b.parse_int b.strip e.verified e.seen e.now e.request c

abbrev refusal_response : Unauthorized → Response
refusal_response undefined_name = uncaught
refusal_response u = unauthorized u

abbrev session_event : Text → Text → Session → AuditEvent
session_event stamp event s = record {
  timestamp = stamp;
  event = event;
  outcome = codes "allow";
  subject = some s.subject;
  resource = none;
  device_id = some s.posture.device_id;
  request_id = none;
  detail = none;
}

abbrev pub answer : Session → Result IssueError Text → Result ManifestError Json → Response
answer s (ok token) (ok envelope) =
    refreshed (record { session = s; token = token; envelope = envelope })
answer s _ _ = uncaught

-- The heartbeat of a session that is authorized as `s`.
abbrev pub after_beat :
    Builtins
    → Exchange
    → Session
    → ControlPlane
    → SessionStore × Option Session
    → ControlPlane × Response
after_beat b e s c (st, none) = (record c { sessions = st }, session_over)
after_beat b e s c (st, some s') =
    let t = e.readings in
    (
      logged (session_event t.stamp (codes "heartbeat") s) (record c { sessions = st }),
      answer s' (grant_for b.libraries c s' t.granted t.token_id)
          (manifest_envelope_for b.libraries c s' t.enveloped),
    )

abbrev pub heartbeat_as :
    Builtins → Exchange → ControlPlane × Result Unauthorized Session → ControlPlane × Response
heartbeat_as b e (c, err u) = (c, refusal_response u)
heartbeat_as b e (c, ok s) = after_beat b e s c (heartbeat e.beat s.session_id c.sessions)

-- `/v1/heartbeat`
unfoldable pub post_heartbeat : Builtins → Exchange → ControlPlane → ControlPlane × Response
post_heartbeat b e c = heartbeat_as b e (authorize b e c)

abbrev pub logout_as :
    Exchange → ControlPlane × Result Unauthorized Session → ControlPlane × Response
logout_as e (c, err u) = (c, refusal_response u)
logout_as e (c, ok s) = (
  logged (session_event e.readings.stamp (codes "logout") s)
      (record c { sessions = (revoke s.session_id c.sessions).0 }),
  logged_out,
)

-- `/v1/logout`
unfoldable pub post_logout : Builtins → Exchange → ControlPlane → ControlPlane × Response
post_logout b e c = logout_as e (authorize b e c)

abbrev login_response : ControlPlane × Result LoginRefusal LoginGrant → ControlPlane × Response
login_response (c, ok g) = (c, logged_in g)
login_response (c, err invalid_login_request) = (c, login_refused invalid_login_request)
login_response (c, err invalid_credentials) = (c, login_refused invalid_credentials)
login_response (c, err invalid_otp) = (c, login_refused invalid_otp)
login_response (c, err (denied reason)) = (c, login_refused (denied reason))
login_response (c, err _) = (c, uncaught)

abbrev dispatch_post : Builtins → Exchange → ControlPlane → Option Fields → ControlPlane × Response
dispatch_post b e c none = (c, invalid_json)
dispatch_post b e c (some payload) =
    if text_eq e.request.path (codes "/v1/heartbeat")
    then post_heartbeat b e c
    else if text_eq e.request.path (codes "/v1/logout")
    then post_logout b e c
    else login_response (post_login b.libraries b.codes_of b.passwords e.readings payload c)

unfoldable pub do_post : Builtins → Exchange → ControlPlane → ControlPlane × Response
do_post b e c =
    let path = e.request.path in
    if text_eq path (codes "/v1/login")
      || (text_eq path (codes "/v1/heartbeat") || text_eq path (codes "/v1/logout"))
    then dispatch_post b e c (read_json b (text_eq path (codes "/v1/login")) e)
    else (c, not_found)

abbrev envelope_response : Result ManifestError Json → Response
envelope_response (ok envelope) = resources envelope
envelope_response (err e) = uncaught

abbrev resources_as :
    Builtins → Exchange → ControlPlane × Result Unauthorized Session → ControlPlane × Response
resources_as b e (c, err u) = (c, refusal_response u)
resources_as b e (c, ok s) =
    (c, envelope_response (manifest_envelope_for b.libraries c s e.readings.enveloped))

abbrev audit_response : ControlPlane → Result OtpError Bool → Response
audit_response c (ok true) = events c.audit.events
audit_response c (ok false) = admin_required
audit_response c (err e) = uncaught

unfoldable pub do_get : Builtins → Exchange → ControlPlane → ControlPlane × Response
do_get b e c =
    let path = e.request.path in
    if text_eq path (codes "/health")
    then (c, healthy)
    else if text_eq path (codes "/v1/resources")
    then resources_as b e (authorize b e c)
    else if text_eq path (codes "/v1/audit")
    then (c, audit_response c (compare_digest e.admin_header c.admin_secret))
    else (c, not_found)

abbrev login_status : LoginRefusal → Option ℕ
login_status invalid_login_request = some 400
login_status invalid_credentials = some 401
login_status invalid_otp = some 401
login_status (denied reason) = some 403
login_status _ = none

-- The status of the reply, where there is one.
unfoldable pub status_of : Response → Option ℕ
status_of not_found = some 404
status_of invalid_json = some 400
status_of admin_required = some 401
status_of session_over = some 401
status_of (unauthorized u) = some 401
status_of (login_refused r) = login_status r
status_of uncaught = none
status_of _ = some 200
