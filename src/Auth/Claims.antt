-- ===== src/Auth/Claims.antt =====
-- The claims that `TokenSigner.issue` of labztna/auth.py writes pass the checks of `verify`.

use ztna_lab.Base.{
  nat_eq, ℕ, ◌+◌, ◌≤◌, ◌<◌, ◌≡◌, refl, ◌∙◌, true, false, Option, none, some, arith, length, Text,
  text_eq, text_eq_iff, codes, ok,
}
use ztna_lab.Json.{
  pos, Json, no_field, field, no_item, item, number, text, array, Fields, lookup, assign, all_texts,
}
use ztna_lab.Auth.{
  TokenVerifier, header_supported, rightly_issued, in_lifetime, issued_by, check_claims,
}
use ztna_lab.Auth.Signer.{
  GrantClaims, claim_text, claim_number, token_header, base_claims, token_claims,
}

lookup-assign :
    (j k : Text) (v : Json) (d : Fields)
    → text_eq k j ≡ false
    → lookup j (assign k v d) ≡ lookup j d
unfolding lookup assign
lookup-assign j k v no_field h = ground arith
lookup-assign j k v (field name old rest) h =
    ground
      (arith, text_eq_iff name k, text_eq_iff name j, text_eq_iff k j, lookup-assign j k v rest)

lookup-claim_text :
    (j k : Text) (o : Option Text) (d : Fields)
    → text_eq k j ≡ false
    → lookup j (claim_text k o d) ≡ lookup j d
unfolding claim_text
lookup-claim_text j k none d h = refl
lookup-claim_text j k (some t) d h = lookup-assign j k (text t) d h

lookup-claim_number :
    (j k : Text) (o : Option ℕ) (d : Fields)
    → text_eq k j ≡ false
    → lookup j (claim_number k o d) ≡ lookup j d
unfolding claim_number
lookup-claim_number j k none d h = refl
lookup-claim_number j k (some n) d h = lookup-assign j k (number (pos n)) d h

-- A claim of every token is not changed by the optional ones.
module _ (v : TokenVerifier) (subject resource : Text) (ttl now : ℕ) (jti : Text) (c : GrantClaims)
    (j : Text) where
  lookup-token_claims :
      text_eq (codes "sid") j ≡ false
      → text_eq (codes "device_id") j ≡ false
      → text_eq (codes "device_key_hash") j ≡ false
      → text_eq (codes "manifest_hash") j ≡ false
      → text_eq (codes "manifest_version") j ≡ false
      → text_eq (codes "virtual_ip") j ≡ false
      → text_eq (codes "lease_generation") j ≡ false
      → lookup j (token_claims v subject resource ttl now jti c)
        ≡ lookup j (base_claims v subject resource ttl now jti)
  lookup-token_claims a0 a1 a2 a3 a4 a5 a6 =
      lookup-claim_number j (codes "lease_generation") c.lease_generation _ a6
      ∙ lookup-claim_text j (codes "virtual_ip") c.virtual_ip _ a5
      ∙ lookup-claim_number j (codes "manifest_version") c.manifest_version _ a4
      ∙ lookup-claim_text j (codes "manifest_hash") c.manifest_hash _ a3
      ∙ lookup-claim_text j (codes "device_key_hash") c.device_key_hash _ a2
      ∙ lookup-claim_text j (codes "device_id") c.device_id _ a1
      ∙ lookup-claim_text j (codes "sid") c.session_id _ a0

text_eq_self : (t : Text) → text_eq t t ≡ true
text_eq_self t = (text_eq_iff t t).1 refl

header_supported_own : (v : TokenVerifier) → header_supported v (token_header v) ≡ true
unfolding header_supported lookup text_eq
header_supported_own v = text_eq_self v.key_id

-- The claims of every token, as the verifier finds them.
pub record HasClaims (v : TokenVerifier) (subject resource : Text) (ttl issued : ℕ) (jti : Text)
    (d : Fields) : Type 0 where
  iss : lookup (codes "iss") d ≡ some (text v.issuer)
  aud : lookup (codes "aud") d ≡ some (text (codes "ztna-gateway"))
  sub : lookup (codes "sub") d ≡ some (text subject)
  target : lookup (codes "resource") d ≡ some (text resource)
  scope : lookup (codes "scope") d ≡ some (array (item (text (codes "resource:read")) no_item))
  iat : lookup (codes "iat") d ≡ some (number (pos issued))
  exp : lookup (codes "exp") d ≡ some (number (pos (issued + ttl)))
  token_id : lookup (codes "jti") d ≡ some (text jti)

module _ (v : TokenVerifier) (subject resource : Text) (ttl issued now : ℕ) (jti : Text)
    (d : Fields) (h : HasClaims v subject resource ttl issued jti d) (named : 1 ≤ length subject)
    (targeted : 1 ≤ length resource) (long : 8 ≤ length jti) (short : length jti ≤ 128)
    (low : 1 ≤ ttl) (high : ttl ≤ 600) (begun : issued ≤ now + 30)
    (living : now < issued + ttl) where
  rightly_issued_own : rightly_issued v d ≡ true
  unfolding rightly_issued text_eq all_texts
  rightly_issued_own = simp (h.iss, h.aud, h.sub, h.target, h.scope, text_eq_self) (ground arith)

  pub check_claims_own : check_claims v (some resource) now (token_header v, d) ≡ ok d
  unfolding check_claims in_lifetime issued_by text_eq all_texts
  check_claims_own =
      rw
        (
          header_supported_own v,
          rightly_issued_own,
          h.target,
          h.scope,
          h.iat,
          h.exp,
          h.token_id,
          text_eq_self resource,
        )
        (ground arith)

pub own_claims :
    (v : TokenVerifier) (subject resource : Text) (ttl issued : ℕ) (jti : Text) (c : GrantClaims)
    (d : Fields)
    → ((k : Text) → lookup k d ≡ lookup k (token_claims v subject resource ttl issued jti c))
    → HasClaims v subject resource ttl issued jti d
unfolding lookup text_eq
own_claims v subject resource ttl issued jti c d agree = record {
  iss = found (codes "iss") refl refl refl refl refl refl refl;
  aud = found (codes "aud") refl refl refl refl refl refl refl;
  sub = found (codes "sub") refl refl refl refl refl refl refl;
  target = found (codes "resource") refl refl refl refl refl refl refl;
  scope = found (codes "scope") refl refl refl refl refl refl refl;
  iat = found (codes "iat") refl refl refl refl refl refl refl;
  exp = found (codes "exp") refl refl refl refl refl refl refl;
  token_id = found (codes "jti") refl refl refl refl refl refl refl;
}
  where
    found :
        (j : Text)
        → text_eq (codes "sid") j ≡ false
        → text_eq (codes "device_id") j ≡ false
        → text_eq (codes "device_key_hash") j ≡ false
        → text_eq (codes "manifest_hash") j ≡ false
        → text_eq (codes "manifest_version") j ≡ false
        → text_eq (codes "virtual_ip") j ≡ false
        → text_eq (codes "lease_generation") j ≡ false
        → lookup j d ≡ lookup j (base_claims v subject resource ttl issued jti)
    found j a0 a1 a2 a3 a4 a5 a6 =
        agree j ∙ lookup-token_claims v subject resource ttl issued jti c j a0 a1 a2 a3 a4 a5 a6
