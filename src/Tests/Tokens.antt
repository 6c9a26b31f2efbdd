-- ===== src/Tests/Tokens.antt =====
-- A token of labztna/auth.py issued and verified, with stand-ins for the libraries: a document with
-- an algorithm is written "h" and any other one "p".
use ztna_lab.Base.{
  ◌≡◌, refl, true, Option, none, some, [], ◌++◌, arith, if◌then◌else◌, codes, text_eq, rstrip,
  Bytes, ok,
}
use ztna_lab.Json.{Json, object, Fields, lookup, assign}
use ztna_lab.Auth.{Externals, encode_ascii, repeated, b64d, b64e, loaded, verify}
use ztna_lab.Auth.Signer.{
  TokenSigner, GrantClaims, claim_text, claim_number, token_header, token_claims, encoded, seal,
  issue,
}
use ztna_lab.Auth.Issued.{verify-issue, NoDot}

program : Unit {0}
unfolding text_eq rstrip lookup assign encode_ascii repeated b64d b64e loaded claim_text
    claim_number seal issue
program = tt

abbrev signer : TokenSigner
signer = record {
  verifier = record { public_key = []; issuer = codes "lab"; key_id = codes "k1" };
  private_key = [];
}

abbrev claims : GrantClaims
claims = record {
  session_id = some (codes "a");
  device_id = some (codes "laptop");
  device_key_hash = none;
  manifest_hash = none;
  manifest_version = some 1;
  virtual_ip = none;
  lease_generation = some 7;
}

abbrev payload : Fields
payload = token_claims signer.verifier (codes "u") (codes "demo") 120 1000 (codes "12345678") claims

abbrev written_as : Option Json → Bytes
written_as (some alg) = codes "h"
written_as none = codes "p"

abbrev dumps : Json → Bytes
dumps (object d) = written_as (lookup (codes "alg") d)
dumps j = []

abbrev loads : Bytes → Option Json
loads b =
    if text_eq b (codes "h===")
    then some (object (token_header signer.verifier))
    else some (object payload)

abbrev externals : Externals
externals = record {
  b64decode = λ t. some t;
  urlsafe_b64decode = λ t. some t;
  urlsafe_b64encode = λ b. b ++ codes "===";
  json_loads = loads;
  json_dumps = dumps;
  sha256_hex = λ b. codes "f";
  verify_signature = λ key sig message. text_eq sig (codes "s===");
  sign = λ key message. codes "s===";
}

issued :
    issue externals signer (codes "u") (codes "demo") 120 1000 (codes "12345678") claims
    ≡ ok (codes "h.p.s")
unfolding program
issued = refl

header_read :
    loaded externals (encoded externals (token_header signer.verifier))
    ≡ some (object (token_header signer.verifier))
unfolding program
header_read = refl

payload_read : loaded externals (encoded externals payload) ≡ some (object payload)
unfolding program
payload_read = refl

header_dotless : NoDot (encoded externals (token_header signer.verifier))
unfolding program
header_dotless = refl

payload_dotless : NoDot (encoded externals payload)
unfolding program
payload_dotless = refl

seal_dotless : NoDot (b64e externals (codes "s==="))
unfolding program
seal_dotless = refl

seal_read : b64d externals (b64e externals (codes "s===")) ≡ some (codes "s===")
unfolding program
seal_read = refl

seal_right : text_eq (codes "s===") (codes "s===") ≡ true
unfolding program
seal_right = refl

verify-issue_example :
    verify externals signer.verifier (codes "h.p.s") (some (codes "demo")) 1050 ≡ ok payload
verify-issue_example =
    verify-issue externals signer (codes "u") (codes "demo") 120 1000 1050 (codes "12345678") claims
      (codes "h.p.s") payload issued (omega arith) (omega arith) (omega arith) (omega arith)
      (omega arith) (omega arith) (omega arith) header_read payload_read (λ k. refl) header_dotless
      payload_dotless (λ m. seal_dotless) (λ m. seal_read) (λ m. seal_right)
