-- ===== src/Control/Proof.antt =====
-- The claims and the device proof of a request to labztna/control.py: what the first say of the
-- session, and what the second signs, with which key.
use ztna_lab.Base.{
  ℕ, ◌≤◌, ◌≡◌, refl, ap, ◌∙◌, Bool, true, false, not, ◌&&◌, Option, none, some, arith, Text, codes,
  length, Bytes, ltb, if◌then◌else◌, ◌>>?◌, >>?-eq-some,
}
use ztna_lab.Json.{ℤ, Json, number, text, object, Fields, no_field, field, lookup, is_int, distance}
use ztna_lab.Json.Inversion.{is_text-eq}
use ztna_lab.Auth.{Externals, encode_ascii, b64d}
use ztna_lab.Gateway.{sized, dotted}
use ztna_lab.Session.{Session}
use ztna_lab.Control.{
  ControlPlane, Request, control_proof_message, max_control_proof_skew, claims_match, proof_checked,
  is_proved,
}

-- The claims are those of the session as it is now, and of the control plane's resource and manifest.
pub record IsMatch (x : Externals) (c : ControlPlane) (claims : Fields) (s : Session) : Type 0 where
  pub subject : lookup (codes "sub") claims ≡ some (text s.subject)
  pub resource : lookup (codes "resource") claims ≡ some (text c.resource_id)
  pub device : lookup (codes "device_id") claims ≡ some (text s.posture.device_id)
  pub key :
      lookup (codes "device_key_hash") claims ≡ some (text (x.sha256_hex s.posture.public_key))
  pub address : lookup (codes "virtual_ip") claims ≡ some (text (dotted s.virtual_ip))
  pub generation : is_int s.lease_generation (lookup (codes "lease_generation") claims) ≡ true
  pub manifest : lookup (codes "manifest_hash") claims ≡ some (text c.manifest_hash)
  pub version : is_int c.manifest_version (lookup (codes "manifest_version") claims) ≡ true

eight :
    (a b c d e f g h : Bool)
    → (a && (b && (c && (d && (e && (f && (g && h))))))) ≡ true
    → (a ≡ true)
      × (b ≡ true)
      × (c ≡ true)
      × (d ≡ true)
      × (e ≡ true)
      × (f ≡ true)
      × (g ≡ true)
      × (h ≡ true)
eight a b c d e f g h p = ground arith

pub claims_match-IsMatch :
    (x : Externals) (c : ControlPlane) (claims : Fields) (s : Session)
    → claims_match x c claims s ≡ true
    → IsMatch x c claims s
unfolding claims_match
claims_match-IsMatch x c claims s e =
    let (a0, a1, a2, a3, a4, a5, a6, a7) = eight _ _ _ _ _ _ _ _ e in
    record {
      subject = is_text-eq s.subject (lookup (codes "sub") claims) a0;
      resource = is_text-eq c.resource_id (lookup (codes "resource") claims) a1;
      device = is_text-eq s.posture.device_id (lookup (codes "device_id") claims) a2;
      key =
          is_text-eq (x.sha256_hex s.posture.public_key) (lookup (codes "device_key_hash") claims)
            a3;
      address = is_text-eq (dotted s.virtual_ip) (lookup (codes "virtual_ip") claims) a4;
      generation = a5;
      manifest = is_text-eq c.manifest_hash (lookup (codes "manifest_hash") claims) a6;
      version = a7;
    }

-- What the proof of a request signs.
abbrev pub proof_object : Externals → Bytes → Request → ℤ → Json
proof_object x token r timestamp = object (
    field (codes "method") (text r.method) (
      field (codes "path") (text r.path) (
        field (codes "request_id") (text r.request_id) (
          field (codes "timestamp") (number timestamp)
            (field (codes "token_sha256") (text (x.sha256_hex token)) no_field)))))

-- The timestamp is at most 30 seconds from the clock, and the proof decodes to a signature by the
-- key of the session's device over the hash of the token, the method, the path, the request id and
-- the timestamp.
pub record IsProof (x : Externals) (parse_int : Text → Option ℤ) (now : ℕ) (s : Session)
    (token : Text) (r : Request) : Type 0 where
  pub timestamp : ℤ
  pub decoded : Bytes
  pub token_bytes : Bytes
  pub named : (1 ≤ length r.request_id) × (length r.request_id ≤ 128)
  pub timed : parse_int r.timestamp ≡ some timestamp
  pub fresh : distance now timestamp ≤ 30
  pub decodes : b64d x r.proof ≡ some decoded
  pub ascii : encode_ascii token ≡ some token_bytes
  pub signed :
      x.verify_signature s.posture.public_key decoded
        (x.json_dumps (proof_object x token_bytes r timestamp))
      ≡ true

proved_true : (o : Option Bool) → is_proved o ≡ true → o ≡ some true
proved_true (some true) e = refl
proved_true (some false) e = cc e
proved_true none e = cc e

message_signed :
    (x : Externals) (token : Text) (r : Request) (timestamp : ℤ) (message : Bytes)
    → control_proof_message x token r timestamp ≡ some message
    → (ascii : Bytes) × (encode_ascii token ≡ some ascii)
      × (x.json_dumps (proof_object x ascii r timestamp) ≡ message)
unfolding control_proof_message
message_signed x token r timestamp message e =
    let made : (encode_ascii token >>? λ ascii.
    some (x.json_dumps (proof_object x ascii r timestamp)))
        ≡ some message =
      ground arith in
    let (ascii, found, same) =
      >>?-eq-some (encode_ascii token)
        (λ ascii. some (x.json_dumps (proof_object x ascii r timestamp))) made in
    (ascii, found, cc same)

passed_some :
    {A : Type 0} (b : Bool) (o : Option A) {a : A}
    → (if b then none else o) ≡ some a
    → (b ≡ false) × (o ≡ some a)
passed_some true o e = cc e
passed_some false o e = (refl, e)

pub proof_checked-IsProof :
    (x : Externals) (parse_int : Text → Option ℤ) (now : ℕ) (s : Session) (token : Text)
    (r : Request)
    → is_proved (proof_checked x parse_int now s token r) ≡ true
    → IsProof x parse_int now s token r
unfolding proof_checked
proof_checked-IsProof x parse_int now s token r e =
    let named = sized 1 128 r.request_id && sized 1 256 r.proof in
    let checked : ℤ → Bytes → Option Bool = λ timestamp decoded.
      control_proof_message x token r timestamp >>? λ message.
      some (x.verify_signature s.posture.public_key decoded message) in
    let timely : ℤ → Option Bool = λ timestamp.
      if ltb max_control_proof_skew (distance now timestamp)
      then none
      else b64d x r.proof >>? checked timestamp in
    let (sizes, e1) =
      passed_some (not named) (parse_int r.timestamp >>? timely) (proved_true _ e) in
    let (timestamp, timed, e2) = >>?-eq-some (parse_int r.timestamp) timely e1 in
    let (fresh, e3) =
      passed_some (ltb max_control_proof_skew (distance now timestamp))
        (b64d x r.proof >>? checked timestamp) e2 in
    let (decoded, decodes, e4) = >>?-eq-some (b64d x r.proof) (checked timestamp) e3 in
    let (message, made, right) =
      >>?-eq-some (control_proof_message x token r timestamp)
        (λ message. some (x.verify_signature s.posture.public_key decoded message)) e4 in
    let (ascii, found, same) = message_signed x token r timestamp message made in
    record {
      timestamp = timestamp;
      decoded = decoded;
      token_bytes = ascii;
      named = (ground arith, ground arith);
      timed = timed;
      fresh = ground arith;
      decodes = decodes;
      ascii = found;
      signed = ap (x.verify_signature s.posture.public_key decoded) same ∙ (cc right);
    }
