-- ===== src/Auth/Signer.antt =====
-- `TokenSigner.issue` of labztna/auth.py. The clock and the fresh token id are arguments.
use ztna_lab.Base.{
  ℕ, ◌+◌, not, ◌&&◌, Option, none, some, ◌∷◌, ◌++◌, leb, if◌then◌else◌, Text, codes, Bytes, Result,
  ok, err, ◌>>=◌, or_raise,
}
use ztna_lab.Json.{pos, number, text, array, object, no_item, item, Fields, no_field, field, assign}
use ztna_lab.Auth.{Externals, TokenVerifier, encode_ascii, b64e}

pub record TokenSigner : Type 0 where
  pub verifier : TokenVerifier
  pub private_key : Bytes

pub data IssueError : Type 0 where
  ttl_range not_ascii : IssueError

-- The keyword arguments of `issue` that may be left out.
pub record GrantClaims : Type 0 where
  pub session_id : Option Text
  pub device_id : Option Text
  pub device_key_hash : Option Text
  pub manifest_hash : Option Text
  pub manifest_version : Option ℕ
  pub virtual_ip : Option Text
  pub lease_generation : Option ℕ

-- `if value is not None: payload[name] = value`
unfoldable pub claim_text : Text → Option Text → Fields → Fields
claim_text name none d = d
claim_text name (some t) d = assign name (text t) d

unfoldable pub claim_number : Text → Option ℕ → Fields → Fields
claim_number name none d = d
claim_number name (some n) d = assign name (number (pos n)) d

abbrev pub token_header : TokenVerifier → Fields
token_header v =
    field (codes "alg") (text (codes "EdDSA"))
      (field (codes "kid") (text v.key_id) (field (codes "typ") (text (codes "ZTNA1")) no_field))

-- The claims of every token.
abbrev pub base_claims : TokenVerifier → Text → Text → ℕ → ℕ → Text → Fields
base_claims v subject resource ttl now jti = field (codes "iss") (text v.issuer) (
    field (codes "aud") (text (codes "ztna-gateway")) (
      field (codes "sub") (text subject) (
        field (codes "resource") (text resource) (
          field (codes "scope") (array (item (text (codes "resource:read")) no_item)) (
            field (codes "iat") (number (pos now)) (
              field (codes "exp") (number (pos (now + ttl)))
                (field (codes "jti") (text jti) no_field)))))))

abbrev pub token_claims : TokenVerifier → Text → Text → ℕ → ℕ → Text → GrantClaims → Fields
token_claims v subject resource ttl now jti c =
    claim_number (codes "lease_generation") c.lease_generation (
      claim_text (codes "virtual_ip") c.virtual_ip (
        claim_number (codes "manifest_version") c.manifest_version (
          claim_text (codes "manifest_hash") c.manifest_hash (
            claim_text (codes "device_key_hash") c.device_key_hash (
              claim_text (codes "device_id") c.device_id (
                claim_text (codes "sid") c.session_id
                  (base_claims v subject resource ttl now jti)))))))

-- A part of the token.
abbrev pub encoded : Externals → Fields → Text
encoded x d = b64e x (x.json_dumps (object d))

abbrev pub joined : Text → Text → Text → Text
joined header payload signature = header ++ (b'.' ∷ payload ++ (b'.' ∷ signature))

-- The token of a header and a payload that are encoded already.
unfoldable pub seal : Externals → TokenSigner → Text → Text → Result IssueError Text
seal x signer header payload =
    or_raise not_ascii (encode_ascii (header ++ b'.' ∷ payload)) >>= λ input.
    ok (joined header payload (b64e x (x.sign signer.private_key input)))

-- `issue`
unfoldable pub issue :
    Externals → TokenSigner → Text → Text → ℕ → ℕ → Text → GrantClaims → Result IssueError Text
issue x signer subject resource ttl now jti c =
    let v = signer.verifier in
    if not (leb 1 ttl && leb ttl 600)
    then err ttl_range
    else seal x signer (encoded x (token_header v))
        (encoded x (token_claims v subject resource ttl now jti c))
