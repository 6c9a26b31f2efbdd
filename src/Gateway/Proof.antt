-- ===== src/Gateway/Proof.antt =====
-- The proof of a handshake to labztna/gateway.py: what it signs, and with which key.
use ztna_lab.Base.{
  ◌≡◌, refl, ap, ◌∙◌, Bool, true, false, Option, none, some, arith, ◌++◌, length, Bytes, codes,
  ◌>>?◌, >>?-eq-some,
}
use ztna_lab.Json.{Json, number, text, object, no_field, field}
use ztna_lab.Auth.{Externals, encode_ascii, padding}
use ztna_lab.Session.{Session}
use ztna_lab.Gateway.{Hello, connection_proof_message, proof_holds}

-- What the proof of a handshake signs.
abbrev pub proof_object : Externals → Bytes → Hello → Json
proof_object x token h = object (
    field (codes "mode") (text h.mode) (
      field (codes "request_id") (text h.request_id) (
        field (codes "resource") (text h.resource) (
          field (codes "timestamp") (number h.timestamp)
            (field (codes "token_sha256") (text (x.sha256_hex token)) no_field)))))

-- The proof decodes to a signature by the key of the session's device over the hash of the token,
-- the mode, the resource, the request id and the timestamp.
pub record IsProof (x : Externals) (h : Hello) (s : Session) : Type 0 where
  pub decoded : Bytes
  pub token : Bytes
  pub decodes : x.urlsafe_b64decode (h.proof ++ padding (length h.proof)) ≡ some decoded
  pub token_bytes : encode_ascii h.token ≡ some token
  pub signed :
      x.verify_signature s.posture.public_key decoded (x.json_dumps (proof_object x token h)) ≡ true

only_true : (o : Option Bool) → (elim o [ some true ↦ true | _ ↦ false ]) ≡ true → o ≡ some true
only_true (some true) e = refl
only_true (some false) e = cc e
only_true none e = cc e

message_signed :
    (x : Externals) (h : Hello) (message : Bytes)
    → connection_proof_message x h ≡ some message
    → (token : Bytes) × (encode_ascii h.token ≡ some token)
      × (x.json_dumps (proof_object x token h) ≡ message)
unfolding connection_proof_message
message_signed x h message e =
    let made : (encode_ascii h.token >>? λ token. some (x.json_dumps (proof_object x token h)))
        ≡ some message =
      ground arith in
    let (token, ascii, same) =
      >>?-eq-some (encode_ascii h.token) (λ token. some (x.json_dumps (proof_object x token h)))
        made in
    (token, ascii, cc same)

pub proof_holds-IsProof :
    (x : Externals) (h : Hello) (s : Session) → proof_holds x s h ≡ true → IsProof x h s
unfolding proof_holds
proof_holds-IsProof x h s e =
    let (decoded, decodes, rest) = >>?-eq-some (x.urlsafe_b64decode _) _ (only_true _ e) in
    let (message, made, right) = >>?-eq-some (connection_proof_message x h) _ rest in
    let (token, token_bytes, same) = message_signed x h message made in
    record {
      decoded = decoded;
      token = token;
      decodes = decodes;
      token_bytes = token_bytes;
      signed = ap (x.verify_signature s.posture.public_key decoded) same ∙ (cc right);
    }
