-- ===== src/Auth/Issued.antt =====
-- What `TokenSigner.issue` of labztna/auth.py makes is what `TokenVerifier.verify` accepts.
use mathlib.Core.Path.{subst}
use ztna_lab.Base.{
  nat_eq, ℕ, ◌+◌, ◌≤◌, ◌<◌, ◌≡◌, refl, sym, ap, ◌∙◌, true, false, ◌&&◌, some, List, [], ◌∷◌, ◌++◌,
  arith, leb, contains, length, length-append, Text, Bytes, Result, ok, ◌>>=◌, >>=-eq-ok, or_raise,
  or_raise-eq-ok, passed, pass,
}
use ztna_lab.Json.{object, Fields, lookup}
use ztna_lab.Auth.{
  Externals, TokenVerifier, TokenError, malformed_token, encode_ascii, b64d, b64e, split_dots,
  loaded, loaded_parts, opened_parts, check_claims, verify,
}
use ztna_lab.Auth.Claims.{check_claims_own, own_claims}
use ztna_lab.Auth.Signer.{
  TokenSigner, GrantClaims, token_header, token_claims, encoded, joined, seal, issue, ttl_range,
  not_ascii,
}

abbrev pub NoDot : Text → Type 0
NoDot t = contains b'.' t ≡ false

split_dots-plain : (t : Text) → NoDot t → split_dots t ≡ t ∷ []
unfolding split_dots
split_dots-plain [] h = refl
split_dots-plain (c ∷ t) h = ground (arith, split_dots-plain t)

split_dots-dot : (t rest : Text) → NoDot t → split_dots (t ++ b'.' ∷ rest) ≡ t ∷ split_dots rest
unfolding split_dots
split_dots-dot [] rest h = refl
split_dots-dot (c ∷ t) rest h = ground (arith, split_dots-dot t rest)

split_dots-joined :
    (h p s : Text) → NoDot h → NoDot p → NoDot s → split_dots (joined h p s) ≡ h ∷ p ∷ s ∷ []
split_dots-joined h p s nh np ns =
    split_dots-dot h (p ++ b'.' ∷ s) nh
    ∙ ap (◌∷◌ h) (split_dots-dot p s np ∙ ap (◌∷◌ p) (split_dots-plain s ns))

issue-eq-ok :
    (x : Externals) (signer : TokenSigner) (subject resource : Text) (ttl now : ℕ) (jti : Text)
    (c : GrantClaims) (token : Text)
    → issue x signer subject resource ttl now jti c ≡ ok token
    → (1 ≤ ttl)
      × (ttl ≤ 600)
      × (seal x signer
            (encoded x (token_header signer.verifier))
            (encoded x (token_claims signer.verifier subject resource ttl now jti c))
          ≡ ok token)
unfolding issue
issue-eq-ok x signer subject resource ttl now jti c token e =
    let (range, e1) =
      passed (leb 1 ttl && leb ttl 600) ttl_range
        (seal x signer (encoded x (token_header signer.verifier))
          (encoded x (token_claims signer.verifier subject resource ttl now jti c)))
        e in
    (ground arith, ground arith, e1)

seal-eq-ok :
    (x : Externals) (signer : TokenSigner) (h p token : Text)
    → seal x signer h p ≡ ok token
    → (input : Bytes) × (encode_ascii (h ++ b'.' ∷ p) ≡ some input)
      × (joined h p (b64e x (x.sign signer.private_key input)) ≡ token)
unfolding seal
seal-eq-ok x signer h p token e =
    let (input, e1, e2) =
      >>=-eq-ok (or_raise not_ascii (encode_ascii (h ++ b'.' ∷ p)))
        (λ i. ok (joined h p (b64e x (x.sign signer.private_key i)))) e in
    (input, or_raise-eq-ok not_ascii (encode_ascii (h ++ b'.' ∷ p)) e1, cc e2)

-- The parts of a sealed token open to its header and its claims.
opened_own :
    (x : Externals) (v : TokenVerifier) (h p s : Text) (input sig : Bytes) (hd d : Fields)
    → encode_ascii (h ++ b'.' ∷ p) ≡ some input
    → b64d x s ≡ some sig
    → x.verify_signature v.public_key sig input ≡ true
    → loaded x h ≡ some (object hd)
    → loaded x p ≡ some (object d)
    → opened_parts x v (h ∷ p ∷ s ∷ []) ≡ ok (hd, d)
unfolding opened_parts loaded_parts
opened_own x v h p s input sig hd d e0 e1 e2 e3 e4 = rw (e0, e1, e2, e3, e4) refl

verify_parts :
    (x : Externals) (v : TokenVerifier) (token resource : Text) (now : ℕ) (parts : List Text)
    (hd d : Fields)
    → 1 ≤ length token
    → length token ≤ 8192
    → split_dots token ≡ parts
    → opened_parts x v parts ≡ ok (hd, d)
    → check_claims v (some resource) now (hd, d) ≡ ok d
    → verify x v token (some resource) now ≡ ok d
unfolding verify
verify_parts x v token resource now parts hd d low high e0 e1 e2 =
    pass (leb 1 (length token) && leb (length token) 8192) malformed_token
      (opened_parts x v (split_dots token) >>= check_claims v (some resource) now) (ground arith)
    ∙ ap (λ (ps : List Text). opened_parts x v ps >>= check_claims v (some resource) now) e0
    ∙ ap (λ (r : Result TokenError (Fields × Fields)). r >>= check_claims v (some resource) now) e1
    ∙ e2

joined_pos : (h p s : Text) → 1 ≤ length (joined h p s)
joined_pos h p s = omega (arith, length-append h (b'.' ∷ p ++ b'.' ∷ s))

-- A token that `issue` makes is accepted for its resource while it lives, also by a clock up to 30
-- seconds behind, and gives its claims: if it has 8192 characters at most, the subject and the
-- resource are not empty, and the token id has between 8 and 128 characters; where base64 and
-- JSON give back what they encode, base64 writes no dot, and a signature is right for its message.
pub verify-issue :
    (x : Externals) (signer : TokenSigner) (subject resource : Text) (ttl issued now : ℕ)
    (jti : Text) (c : GrantClaims) (token : Text) (d : Fields)
    → issue x signer subject resource ttl issued jti c ≡ ok token
    → length token ≤ 8192
    → 1 ≤ length subject
    → 1 ≤ length resource
    → 8 ≤ length jti
    → length jti ≤ 128
    → issued ≤ now + 30
    → now < issued + ttl
    → loaded x (encoded x (token_header signer.verifier))
      ≡ some (object (token_header signer.verifier))
    → loaded x (encoded x (token_claims signer.verifier subject resource ttl issued jti c))
      ≡ some (object d)
    → ((k : Text)
        → lookup k d ≡ lookup k (token_claims signer.verifier subject resource ttl issued jti c))
    → NoDot (encoded x (token_header signer.verifier))
    → NoDot (encoded x (token_claims signer.verifier subject resource ttl issued jti c))
    → ((m : Bytes) → NoDot (b64e x (x.sign signer.private_key m)))
    → ((m : Bytes)
        → b64d x (b64e x (x.sign signer.private_key m)) ≡ some (x.sign signer.private_key m))
    → ((m : Bytes)
        → x.verify_signature signer.verifier.public_key (x.sign signer.private_key m) m ≡ true)
    → verify x signer.verifier token (some resource) now ≡ ok d
verify-issue x signer subject resource ttl issued now jti c token d e size named targeted long short
      begun living lh lp agree nh np ns back right =
    let v = signer.verifier in
    let h = encoded x (token_header v) in
    let p = encoded x (token_claims v subject resource ttl issued jti c) in
    let (low, high, e1) = issue-eq-ok x signer subject resource ttl issued jti c token e in
    let (input, e2, same) = seal-eq-ok x signer h p token e1 in
    let sig = x.sign signer.private_key input in
    let s = b64e x sig in
    verify_parts x v token resource now (h ∷ p ∷ s ∷ []) (token_header v) d
      (subst (λ (t : Text). 1 ≤ length t) same (joined_pos h p s)) size
      (ap split_dots (sym same) ∙ split_dots-joined h p s nh np (ns input))
      (opened_own x v h p s input sig (token_header v) d e2 (back input) (right input) lh lp)
      (check_claims_own v subject resource ttl issued now jti d
        (own_claims v subject resource ttl issued jti c d agree) named targeted long short low high
        begun living)
