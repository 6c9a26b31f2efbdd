-- ===== src/Gateway.antt =====
-- `_GatewayHandler.handle` of labztna/gateway.py up to the relay, which its children Relay and
-- Packets model, and `connection_proof_message` of labztna/protocol.py. The request line, the three readings of the
-- clock and the time stamp of the audit log are arguments. The connection is closed without a
-- reply on a line that is no JSON.
pub mod Access
pub mod Construction
pub mod Granted
pub mod Http
pub mod Lines
pub mod Server
pub mod Relay
pub mod Packets
pub mod Proof
use ztna_lab.Base.{
  text_key, ℕ, ◌+◌, ◌/◌, ◌%◌, Bool, true, false, not, ◌&&◌, ◌||◌, Option, none, some, List, [], ◌∷◌,
  ◌++◌, leb, ltb, ◌==◌, if◌then◌else◌, length, Text, codes, text_eq, Bytes, Result, ok, err, ◌>>=◌,
  ◌>>?◌, or_raise,
}
use ztna_lab.Base.Dict
use ztna_lab.Json.{
  ℤ, pos, less, distance, Json, null, number, text, object, Fields, no_field, field, lookup,
  as_text, as_int, as_fields, is_text, is_int,
}
use ztna_lab.Auth.{Externals, TokenVerifier, verify, encode_ascii, padding, is_named}
use ztna_lab.Audit.{AuditEvent, AuditLog, record_event}
use ztna_lab.Policy.{
  DevicePosture, ResourceDefinition, ResourceRegistry, Reason, invalid_subject,
  device_not_compliant, unknown_resource, action_not_allowed, policy_allow, PolicyDecision, decide,
}
use ztna_lab.Session.{Session, SessionStore, get_active}
use ztna_lab.Replay.{ReplayGuard, consume_request_id}

-- How `handle` ends before the relay: one constructor for each `return`.
pub data Refusal : Type 0 where
  closed invalid_handshake invalid_request_id invalid_proof invalid_token : Refusal
  session_denied key_mismatch lease_denied stale_proof bad_proof replayed_request : Refusal
  stale_manifest device_mismatch : Session → Refusal
  policy_denied : Session → Reason → Refusal

-- The fields of the handshake once their types are checked.
pub record Hello : Type 0 where
  pub token : Text
  pub resource : Text
  pub device_id : Text
  pub mode : Text
  pub request_id : Text
  pub timestamp : ℤ
  pub proof : Text

pub record Gateway : Type 0 where
  pub signer : TokenVerifier
  pub registry : ResourceRegistry
  pub sessions : SessionStore
  pub audit : AuditLog
  pub manifest_hash : Text
  pub manifest_version : ℕ
  pub replay : ReplayGuard

-- What the relay is started with.
pub record Grant : Type 0 where
  pub session : Session
  pub definition : ResourceDefinition
  pub hello : Hello

abbrev pub max_proof_skew : ℕ
max_proof_skew = 30

-- `lo <= len(t) <= hi`
abbrev pub sized : ℕ → ℕ → Text → Bool
sized lo hi t = leb lo (length t) && leb (length t) hi

abbrev pub is_mode : Text → Bool
is_mode t = text_eq t (codes "tcp") || text_eq t (codes "l3")

-- The first test: a request id, where there is one, is a text of 128 characters at most.
abbrev pub request_id_ok : Option Json → Bool
request_id_ok (some (text t)) = leb (length t) 128
request_id_ok (some null) = true
request_id_ok none = true
request_id_ok _ = false

-- `hello.get("mode", "tcp")`
abbrev pub mode_of : Option Json → Option Text
mode_of none = some (codes "tcp")
mode_of (some j) = as_text (some j)

abbrev pub checked_text : (Text → Bool) → Option Text → Option Text
checked_text test t = t >>? λ s. if test s then some s else none

unfoldable pub parse_fields : Fields → Result Refusal Hello
parse_fields d =
    if not (request_id_ok (lookup (codes "request_id") d))
    then err invalid_request_id
    else or_raise invalid_proof
        (checked_text (λ t. not (length t == 0)) (as_text (lookup (codes "request_id") d)))
      >>= λ request_id.
          or_raise invalid_proof (as_int (lookup (codes "timestamp") d)) >>= λ timestamp.
          or_raise invalid_proof (checked_text (sized 1 256) (as_text (lookup (codes "proof") d)))
          >>= λ proof.
              or_raise invalid_handshake
                (checked_text (sized 1 8192) (as_text (lookup (codes "token") d)))
              >>= λ token.
                  or_raise invalid_handshake
                    (checked_text (sized 1 256) (as_text (lookup (codes "resource") d)))
                  >>= λ resource.
                      or_raise invalid_handshake
                        (checked_text (sized 1 128) (as_text (lookup (codes "device_id") d)))
                      >>= λ device_id.
                          or_raise invalid_handshake
                            (checked_text is_mode (mode_of (lookup (codes "mode") d)))
                          >>= λ mode. ok (record {
                            token = token;
                            resource = resource;
                            device_id = device_id;
                            mode = mode;
                            request_id = request_id;
                            timestamp = timestamp;
                            proof = proof;
                          })

unfoldable pub parse_hello : Externals → Bytes → Result Refusal Hello
parse_hello x line = or_raise closed (x.json_loads line) >>= λ j.
    or_raise invalid_handshake (as_fields j) >>= parse_fields

-- `connection_proof_message` of the arguments that `handle` gives it; the keys are in the order of
-- `sort_keys`.
unfoldable pub connection_proof_message : Externals → Hello → Option Bytes
connection_proof_message x h =
    if not (is_mode h.mode)
      || (length h.token == 0
          || (not (sized 1 256 h.resource)
              || (not (sized 1 128 h.request_id)
                  || (less h.timestamp (pos 0) || less (pos 4294967295) h.timestamp))))
    then none
    else encode_ascii h.token >>? λ token. some (
        x.json_dumps (
          object (
            field (codes "mode") (text h.mode) (
              field (codes "request_id") (text h.request_id) (
                field (codes "resource") (text h.resource) (
                  field (codes "timestamp") (number h.timestamp)
                    (field (codes "token_sha256") (text (x.sha256_hex token)) no_field)))))))

-- The `try` around the proof.
unfoldable pub proof_holds : Externals → Session → Hello → Bool
proof_holds x s h =
    elim (x.urlsafe_b64decode (h.proof ++ padding (length h.proof)) >>? λ proof.
    connection_proof_message x h >>? λ message.
    some (x.verify_signature s.posture.public_key proof message)) [ some true ↦ true | _ ↦ false ]

-- The decimal digits of a number below 1000, and the dotted text of an address.
abbrev digits : ℕ → Text
digits n =
    if ltb n 10
    then (b'0' + n) ∷ []
    else if ltb n 100
    then (b'0' + n / 10) ∷ (b'0' + n % 10) ∷ []
    else (b'0' + n / 100) ∷ (b'0' + n / 10 % 10) ∷ (b'0' + n % 10) ∷ []

unfoldable pub dotted : ℕ → Text
dotted a =
    digits (a / 16777216)
    ++ (b'.' ∷ digits (a / 65536 % 256)
        ++ (b'.' ∷ digits (a / 256 % 256) ++ (b'.' ∷ digits (a % 256))))

-- The guards from the session's subject to its proof, in their order.
unfoldable pub check_session :
    Externals → Gateway → ℕ → Fields → Hello → Session → Result Refusal (Unit {0})
check_session x g now claims h s =
    if not (is_text s.subject (lookup (codes "sub") claims))
    then err session_denied
    else if not (is_text g.manifest_hash (lookup (codes "manifest_hash") claims))
        || not (is_int g.manifest_version (lookup (codes "manifest_version") claims))
    then err (stale_manifest s)
    else if not (is_text s.posture.device_id (lookup (codes "device_id") claims))
        || not (text_eq h.device_id s.posture.device_id)
    then err (device_mismatch s)
    else if not
        (is_text (x.sha256_hex s.posture.public_key) (lookup (codes "device_key_hash") claims))
    then err key_mismatch
    else if not (is_text (dotted s.virtual_ip) (lookup (codes "virtual_ip") claims))
        || not (is_int s.lease_generation (lookup (codes "lease_generation") claims))
    then err lease_denied
    else if ltb max_proof_skew (distance now h.timestamp)
    then err stale_proof
    else if not (proof_holds x s h)
    then err bad_proof
    else ok tt

-- The policy's decision on a request that is no replay.
abbrev decided : Hello → ResourceDefinition → Session → PolicyDecision → Result Refusal Grant
decided h definition s decision =
    if not decision.allowed
    then err (policy_denied s decision.reason)
    else ok (record { session = s; definition = definition; hello = h })

abbrev first_use :
    Gateway
    → Hello
    → ResourceDefinition
    → Session
    → ReplayGuard × Bool
    → Gateway × Result Refusal Grant
first_use g h definition s (guard, false) = (record g { replay = guard }, err replayed_request)
first_use g h definition s (guard, true) = (
  record g { replay = guard },
  decided h definition s (decide g.registry s.subject h.resource (codes "read") s.posture),
)

abbrev admit :
    Gateway
    → Hello
    → ResourceDefinition
    → Session
    → Result Refusal (Unit {0})
    → Gateway × Result Refusal Grant
admit g h definition s (err e) = (g, err e)
admit g h definition s (ok _) =
    first_use g h definition s (consume_request_id s.session_id h.request_id g.replay)

abbrev with_session :
    Externals
    → ℕ
    → Fields
    → Hello
    → Option ResourceDefinition
    → Option Session
    → Gateway
    → Gateway × Result Refusal Grant
with_session x now claims h (some definition) (some s) g =
    admit g h definition s (check_session x g now claims h s)
with_session x now claims h _ _ g = (g, err session_denied)

-- `get_active` is called only for a session id that is a text.
unfoldable pub active_session : ℕ → Option Text → SessionStore → SessionStore × Option Session
active_session now none st = (st, none)
active_session now (some session_id) st = get_active now session_id st

abbrev with_claims :
    Externals → ℕ → ℕ → Hello → Gateway → Result Refusal Fields → Gateway × Result Refusal Grant
with_claims x seen now h g (err e) = (g, err e)
with_claims x seen now h g (ok claims) =
    let found = active_session seen (as_text (lookup (codes "sid") claims)) g.sessions in
    with_session x now claims h (Dict.get h.resource g.registry) found.1
      (record g { sessions = found.0 })

-- A token that `verify` refuses.
unfoldable pub claims_of : Externals → Gateway → Hello → ℕ → Result Refusal Fields
claims_of x g h now = elim (verify x g.signer h.token (some h.resource) now) [
  | ok claims ↦ ok claims
  | err _ ↦ err invalid_token
]

-- The handshake once it is parsed; the clock is read for the token, the session and the proof.
unfoldable pub connect : Externals → ℕ → ℕ → ℕ → Hello → Gateway → Gateway × Result Refusal Grant
connect x verified seen now h g = with_claims x seen now h g (claims_of x g h verified)

abbrev pub reason_text : Reason → Text
reason_text invalid_subject = codes "invalid_subject"
reason_text device_not_compliant = codes "device_not_compliant"
reason_text unknown_resource = codes "unknown_resource"
reason_text action_not_allowed = codes "action_not_allowed"
reason_text policy_allow = codes "policy_allow"

-- The `error` of the reply; none is sent where the connection is only closed.
abbrev pub reply_error : Refusal → Option Text
reply_error closed = none
reply_error invalid_handshake = some (codes "invalid_handshake")
reply_error invalid_request_id = some (codes "invalid_request_id")
reply_error invalid_proof = some (codes "invalid_proof")
reply_error invalid_token = some (codes "access_denied")
reply_error session_denied = some (codes "resource_denied")
reply_error key_mismatch = some (codes "device_denied")
reply_error lease_denied = some (codes "lease_denied")
reply_error stale_proof = some (codes "stale_proof")
reply_error bad_proof = some (codes "invalid_proof")
reply_error replayed_request = some (codes "replayed_request")
reply_error (stale_manifest s) = some (codes "stale_manifest")
reply_error (device_mismatch s) = some (codes "device_denied")
reply_error (policy_denied s reason) = some (reason_text reason)

abbrev denied : Text → Hello → Option Session → Text → AuditEvent
denied stamp h s detail = record {
  timestamp = stamp;
  event = codes "connect";
  outcome = codes "deny";
  subject = s >>? λ t. some t.subject;
  resource = some h.resource;
  device_id = s >>? λ t. some t.posture.device_id;
  request_id = some h.request_id;
  detail = some detail;
}

-- The event that a refusal leaves in the audit log: not every branch records one.
unfoldable pub audit_event : Text → Hello → Refusal → Option AuditEvent
audit_event stamp h invalid_token = some (denied stamp h none (codes "invalid_token"))
audit_event stamp h session_denied = some (denied stamp h none (codes "session_denied"))
audit_event stamp h (stale_manifest s) = some (denied stamp h (some s) (codes "stale_manifest"))
audit_event stamp h (device_mismatch s) = some (denied stamp h (some s) (codes "device_mismatch"))
audit_event stamp h (policy_denied s reason) = some (denied stamp h (some s) (reason_text reason))
audit_event stamp h _ = none

abbrev log_event : Option AuditEvent → Gateway → Gateway
log_event none g = g
log_event (some e) g = record g { audit = record_event e g.audit }

abbrev pub audited : Text → Hello → Gateway × Result Refusal Grant → Gateway × Result Refusal Grant
audited stamp h (g, ok grant) = (g, ok grant)
audited stamp h (g, err e) = (log_event (audit_event stamp h e) g, err e)

abbrev pub after_hello :
    Externals → Text → ℕ → ℕ → ℕ → Gateway → Result Refusal Hello → Gateway × Result Refusal Grant
after_hello x stamp verified seen now g (err e) = (g, err e)
after_hello x stamp verified seen now g (ok h) = audited stamp h (connect x verified seen now h g)

-- `handle` up to the relay.
unfoldable pub handle :
    Externals → Text → ℕ → ℕ → ℕ → Bytes → Gateway → Gateway × Result Refusal Grant
handle x stamp verified seen now line g =
    after_hello x stamp verified seen now g (parse_hello x line)
