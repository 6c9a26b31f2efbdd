-- ===== src/Auth.antt =====
-- `TokenVerifier.verify` of labztna/auth.py. The libraries it calls are the fields of `Externals`,
-- with `none` or `false` for a call that raises.
pub mod Signer
pub mod Claims
pub mod Issued
use ztna_lab.Base.{
  text_key, ℕ, zero, suc, ◌+◌, ◌-◌, ◌%◌, Bool, true, false, not, ◌&&◌, Option, none, some, List, [],
  ◌∷◌, ◌++◌, leb, ltb, ◌==◌, if◌then◌else◌, length, contains, Text, codes, Bytes, Result, ok, err,
  ◌>>=◌, ◌>>?◌, or_raise, rstrip,
}
use ztna_lab.Json.{
  ℤ, pos, less, plus, Json, Fields, lookup, as_text, as_int, as_fields, as_texts, is_text,
}

pub record Externals : Type 0 where
  pub b64decode : Bytes → Option Bytes
  pub urlsafe_b64decode : Text → Option Bytes
  pub urlsafe_b64encode : Bytes → Text
  pub json_loads : Bytes → Option Json
  -- With `separators=(",", ":")` and `sort_keys=True`, encoded.
  pub json_dumps : Json → Bytes
  pub sha256_hex : Bytes → Text
  -- A key, a signature and a message.
  pub verify_signature : Bytes → Bytes → Bytes → Bool
  -- A private key and a message.
  pub sign : Bytes → Bytes → Bytes

pub data TokenError : Type 0 where
  malformed_token bad_signature unsupported_token wrong_issuer resource_denied : TokenError
  scope_denied expired_token invalid_issue_time invalid_token_id : TokenError

pub record TokenVerifier : Type 0 where
  pub public_key : Bytes
  pub issuer : Text
  pub key_id : Text

-- `encode("ascii")`
unfoldable pub encode_ascii : Text → Option Bytes
encode_ascii [] = some []
encode_ascii (c ∷ t) = encode_ascii t >>? λ b. if ltb c 128 then some (c ∷ b) else none

unfoldable pub repeated : ℕ → ℕ → Text
repeated c zero = []
repeated c (suc n) = c ∷ repeated c n

-- `"=" * (-n % 4)`
abbrev pub padding : ℕ → Text
padding n = repeated b'=' ((4 - n % 4) % 4)

-- `_b64d`
unfoldable pub b64d : Externals → Text → Option Bytes
b64d x value = encode_ascii (value ++ padding (length value)) >>? x.b64decode

-- `_b64e`
unfoldable pub b64e : Externals → Bytes → Text
b64e x value = rstrip b'=' (x.urlsafe_b64encode value)

-- A character before the first of the parts.
abbrev put_first : ℕ → List Text → List Text
put_first c [] = (c ∷ []) ∷ []
put_first c (part ∷ parts) = (c ∷ part) ∷ parts

-- `str.split(".")`
unfoldable pub split_dots : Text → List Text
split_dots [] = [] ∷ []
split_dots (c ∷ t) = let parts = split_dots t in if c == b'.' then [] ∷ parts else put_first c parts

-- `json.loads(_b64d(part))`
unfoldable pub loaded : Externals → Text → Option Json
loaded x part = b64d x part >>? x.json_loads

-- The two parsed parts, where each is a `dict`.
unfoldable pub loaded_parts : Externals → Text → Text → Option (Fields × Fields)
loaded_parts x header payload = loaded x header >>? λ h.
    loaded x payload >>? λ p. as_fields h >>? λ hd. as_fields p >>? λ pd. some (hd, pd)

-- The `try` of `verify` with the test of the two types after it.
unfoldable pub opened_parts :
    Externals → TokenVerifier → List Text → Result TokenError (Fields × Fields)
opened_parts x v (header ∷ payload ∷ signature ∷ []) =
    or_raise malformed_token (encode_ascii (header ++ b'.' ∷ payload)) >>= λ signed.
    or_raise malformed_token (b64d x signature) >>= λ sig.
    if x.verify_signature v.public_key sig signed
    then or_raise malformed_token (loaded_parts x header payload)
    else err bad_signature
opened_parts x v _ = err malformed_token

-- A nonempty `str`.
abbrev pub is_named : Option Text → Bool
is_named (some t) = not (length t == 0)
is_named none = false

abbrev pub is_list_with : Text → Option (List Text) → Bool
is_list_with t (some ts) = contains t ts
is_list_with t none = false

abbrev pub is_some {ℓ} : {A : Type ℓ} → Option A → Bool
is_some (some a) = true
is_some none = false

unfoldable pub header_supported : TokenVerifier → Fields → Bool
header_supported v header =
    is_text (codes "EdDSA") (lookup (codes "alg") header)
    && (is_text (codes "ZTNA1") (lookup (codes "typ") header)
        && is_text v.key_id (lookup (codes "kid") header))

unfoldable pub rightly_issued : TokenVerifier → Fields → Bool
rightly_issued v payload =
    is_text v.issuer (lookup (codes "iss") payload)
    && (is_text (codes "ztna-gateway") (lookup (codes "aud") payload)
        && (is_named (as_text (lookup (codes "sub") payload))
            && (is_named (as_text (lookup (codes "resource") payload))
                && is_some (as_texts (lookup (codes "scope") payload)))))

-- `expires_at` is no sooner than `issued_at`, 600 seconds later at most, and still to come.
unfoldable pub in_lifetime : ℕ → Option ℤ → Option ℤ → Bool
in_lifetime now (some issued_at) (some expires_at) =
    not (less expires_at issued_at)
    && (not (less (plus issued_at 600) expires_at) && less (pos now) expires_at)
in_lifetime now _ _ = false

unfoldable pub issued_by : ℕ → Option ℤ → Bool
issued_by now (some issued_at) = not (less (pos (now + 30)) issued_at)
issued_by now none = false

abbrev pub is_token_id : Option Text → Bool
is_token_id (some t) = leb 8 (length t) && leb (length t) 128
is_token_id none = false

-- `expected_resource`, where the caller names one, is the resource of the token.
abbrev pub is_expected : Option Text → Option Json → Bool
is_expected none resource = true
is_expected (some expected) resource = is_text expected resource

-- The checks of `verify` on the decoded parts.
unfoldable pub check_claims :
    TokenVerifier → Option Text → ℕ → Fields × Fields → Result TokenError Fields
check_claims v expected now (header, payload) =
    let issued_at = as_int (lookup (codes "iat") payload) in
    if not (header_supported v header)
    then err unsupported_token
    else if not (rightly_issued v payload)
    then err wrong_issuer
    else if not (is_expected expected (lookup (codes "resource") payload))
    then err resource_denied
    else if not (is_list_with (codes "resource:read") (as_texts (lookup (codes "scope") payload)))
    then err scope_denied
    else if not (in_lifetime now issued_at (as_int (lookup (codes "exp") payload)))
    then err expired_token
    else if not (issued_by now issued_at)
    then err invalid_issue_time
    else if not (is_token_id (as_text (lookup (codes "jti") payload)))
    then err invalid_token_id
    else ok payload

-- The method `verify`.
unfoldable pub verify :
    Externals → TokenVerifier → Text → Option Text → ℕ → Result TokenError Fields
verify x v token expected now =
    if not (leb 1 (length token) && leb (length token) 8192)
    then err malformed_token
    else opened_parts x v (split_dots token) >>= check_claims v expected now
