-- ===== src/Control.antt =====
-- `_ControlHandler._authorized_session` of labztna/control.py and `control_proof_message` of
-- labztna/protocol.py. The headers and the readings of the clock are arguments; so are Python's
-- `int(text)` and `str.strip`.
pub mod Access
pub mod Login
pub mod Proof
pub mod Routes
use ztna_lab.Base.{
  text_key, nat_eq, ℕ, ◌==◌, Bool, true, false, not, ◌&&◌, ◌||◌, Option, none, some, List, [], ◌∷◌,
  ltb, if◌then◌else◌, length, drop, contains, Text, codes, text_eq, starts_with, Bytes, Result, ok,
  err, ◌>>?◌,
}
use ztna_lab.Json.{
  ℤ, pos, less, distance, number, text, object, Fields, no_field, field, lookup, as_text, is_text,
  is_int,
}
use ztna_lab.Auth.{Externals, TokenError, verify, encode_ascii, b64d}
use ztna_lab.Auth.Signer.{TokenSigner}
use ztna_lab.Audit.{AuditLog}
use ztna_lab.Policy.{ResourceRegistry}
use ztna_lab.Manifest.{ManifestSigner}
use ztna_lab.Gateway.{sized, dotted}
use ztna_lab.Session.{Session, SessionStore, get_active}
use ztna_lab.Replay.{ReplayGuard, consume_control_request_id}

-- The `error` of each refusal. `undefined_name` is none: `except TokenError` names a class that
-- labztna/control.py does not import, so a token that `verify` refuses ends in a `NameError`, with
-- no reply.
pub data Unauthorized : Type 0 where
  authorization_required undefined_name invalid_session session_expired : Unauthorized
  invalid_device_proof replayed_device_proof : Unauthorized

pub record Request : Type 0 where
  pub method : Text
  pub path : Text
  pub authorization : Text
  pub request_id : Text
  pub timestamp : Text
  pub proof : Text

pub record PasswordHash : Type 0 where
  pub salt : Bytes
  pub digest : Bytes

pub record ControlPlane : Type 0 where
  pub username : Text
  pub password_hash : PasswordHash
  pub otp_secret : Text
  pub resource_id : Text
  pub gateway_port : ℕ
  pub signer : TokenSigner
  pub registry : ResourceRegistry
  pub sessions : SessionStore
  pub audit : AuditLog
  pub admin_secret : Text
  pub manifest_base : Fields
  pub manifest_version : ℕ
  pub manifest_hash : Text
  pub manifest_signer : ManifestSigner
  pub grant_ttl_seconds : ℕ
  pub used_otp_steps : List ℕ
  pub control_replay : ReplayGuard

abbrev pub max_control_proof_skew : ℕ
max_control_proof_skew = 30

unfoldable pub control_proof_message : Externals → Text → Request → ℤ → Option Bytes
control_proof_message x token r timestamp =
    if length token == 0
      || (not (text_eq r.method (codes "GET") || text_eq r.method (codes "POST"))
          || (not (starts_with (codes "/") r.path)
              || ((contains 13 r.path || contains 10 r.path)
                  || (not (sized 1 128 r.request_id)
                      || (less timestamp (pos 0) || less (pos 4294967295) timestamp)))))
    then none
    else encode_ascii token >>? λ ascii. some (
        x.json_dumps (
          object (
            field (codes "method") (text r.method) (
              field (codes "path") (text r.path) (
                field (codes "request_id") (text r.request_id) (
                  field (codes "timestamp") (number timestamp)
                    (field (codes "token_sha256") (text (x.sha256_hex ascii)) no_field)))))))

-- The claims agree with the session and with the control plane.
unfoldable pub claims_match : Externals → ControlPlane → Fields → Session → Bool
claims_match x c claims s =
    is_text s.subject (lookup (codes "sub") claims)
    && (is_text c.resource_id (lookup (codes "resource") claims)
        && (is_text s.posture.device_id (lookup (codes "device_id") claims)
            && (is_text (x.sha256_hex s.posture.public_key)
                  (lookup (codes "device_key_hash") claims)
                && (is_text (dotted s.virtual_ip) (lookup (codes "virtual_ip") claims)
                    && (is_int s.lease_generation (lookup (codes "lease_generation") claims)
                        && (is_text c.manifest_hash (lookup (codes "manifest_hash") claims)
                            && is_int c.manifest_version
                                (lookup (codes "manifest_version") claims)))))))

-- What the `try` of the device proof computes; `none` is an exception.
unfoldable pub proof_checked :
    Externals → (Text → Option ℤ) → ℕ → Session → Text → Request → Option Bool
proof_checked x parse_int now s token r =
    if not (sized 1 128 r.request_id && sized 1 256 r.proof)
    then none
    else parse_int r.timestamp >>? λ timestamp.
        if ltb max_control_proof_skew (distance now timestamp)
        then none
        else b64d x r.proof >>? λ proof. control_proof_message x token r timestamp >>? λ message.
            some (x.verify_signature s.posture.public_key proof message)

abbrev pub is_proved : Option Bool → Bool
is_proved (some true) = true
is_proved _ = false

abbrev pub claim_request :
    ControlPlane → Session → ReplayGuard × Bool → ControlPlane × Result Unauthorized Session
claim_request c s (guard, false) = (record c { control_replay = guard }, err replayed_device_proof)
claim_request c s (guard, true) = (record c { control_replay = guard }, ok s)

abbrev pub with_session :
    Externals
    → (Text → Option ℤ)
    → ℕ
    → Text
    → Request
    → Fields
    → ControlPlane
    → Option Session
    → ControlPlane × Result Unauthorized Session
with_session x parse_int now token r claims c none = (c, err session_expired)
with_session x parse_int now token r claims c (some s) =
    if not (claims_match x c claims s)
    then (c, err session_expired)
    else if not (is_proved (proof_checked x parse_int now s token r))
    then (c, err invalid_device_proof)
    else claim_request c s (consume_control_request_id s.session_id r.request_id c.control_replay)

abbrev pub with_sid :
    Externals
    → (Text → Option ℤ)
    → ℕ
    → ℕ
    → Text
    → Request
    → Fields
    → ControlPlane
    → Option Text
    → ControlPlane × Result Unauthorized Session
with_sid x parse_int seen now token r claims c none = (c, err invalid_session)
with_sid x parse_int seen now token r claims c (some session_id) =
    let found = get_active seen session_id c.sessions in
    with_session x parse_int now token r claims (record c { sessions = found.0 }) found.1

abbrev pub with_claims :
    Externals
    → (Text → Option ℤ)
    → ℕ
    → ℕ
    → Text
    → Request
    → ControlPlane
    → Result TokenError Fields
    → ControlPlane × Result Unauthorized Session
with_claims x parse_int seen now token r c (err e) = (c, err undefined_name)
with_claims x parse_int seen now token r c (ok claims) =
    with_sid x parse_int seen now token r claims c (as_text (lookup (codes "sid") claims))

-- The clock is read for the token, the session and the proof.
unfoldable pub authorized_session :
    Externals
    → (Text → Option ℤ)
    → (Text → Text)
    → ℕ
    → ℕ
    → ℕ
    → Request
    → ControlPlane
    → ControlPlane × Result Unauthorized Session
authorized_session x parse_int strip verified seen now r c =
    let token = strip (drop 7 r.authorization) in
    if not (starts_with (codes "Bearer ") r.authorization)
    then (c, err authorization_required)
    else with_claims x parse_int seen now token r c (verify x c.signer.verifier token none verified)
