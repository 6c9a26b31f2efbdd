-- ===== src/Tests/Codes.antt =====
-- One-time codes with stand-ins for the libraries: the digest begins with the counter's low bytes,
-- so the code of a counter is its last six digits.
use ztna_lab.Base.{
  nat_eq, ℕ, ◌≡◌, ◌≢◌, ◌≤◌, ◌<◌, ◌+◌, ◌/◌, refl, true, some, List, [], ◌∷◌, ◌++◌, arith, drop, leb,
  Text, codes, text_eq, to_be, from_be_onto, Bytes, ok, err, Bool, ◌==◌, ◌&&◌, ◌||◌,
}
use ztna_lab.Otp.{
  OtpExternals, normalized, totp_key, code_of_digest, totp_at, all_chars, compare_digest,
  try_windows, is_code, matching_totp_step, purge, use_step, consume_otp, not_ascii,
}
use ztna_lab.Otp.Matching.{matching_totp_step_found}
use ztna_lab.Otp.Once.{Attempt, spent_steps, NoRepeat, spent_steps-NoRepeat}

program : Unit {0}
unfolding normalized totp_key code_of_digest totp_at all_chars compare_digest try_windows
    matching_totp_step purge use_step consume_otp spent_steps to_be from_be_onto text_eq
program = tt

abbrev digest : Bytes → Bytes → Bytes
digest key message =
    drop 4 message ++ (0 ∷ 0 ∷ 0 ∷ 0 ∷ 0 ∷ 0 ∷ 0 ∷ 0 ∷ 0 ∷ 0 ∷ 0 ∷ 0 ∷ 0 ∷ 0 ∷ 0 ∷ 0 ∷ [])

-- Some digits of other scripts are digits too.
abbrev digit : ℕ → Bool
digit c = (leb b'0' c && leb c b'9') || (leb 1632 c && leb c 1641)

abbrev pub codes_externals : OtpExternals
codes_externals = record {
  b32decode = λ t. some t;
  hmac_sha1 = digest;
  is_digit = digit;
  is_space = λ c. c == 32;
  upper = λ c. c ∷ [];
}

abbrev secret : Text
secret = codes "AB CD"

matching : matching_totp_step codes_externals secret (codes "000034") 1000 ≡ ok (some 34)
unfolding program
matching = refl

foreign_digits :
    matching_totp_step codes_externals secret (1632 ∷ 1632 ∷ 1632 ∷ 1632 ∷ 1635 ∷ 1636 ∷ []) 1000
    ≡ err not_ascii
unfolding program
foreign_digits = refl

matching_totp_step_found_example :
    (is_code codes_externals (codes "000034") ≡ true)
    × (totp_at codes_externals secret 34 ≡ ok (codes "000034"))
    × (◌≤◌ (1000 / 30) (34 + 1))
    × (◌≤◌ 34 (1000 / 30 + 1))
    × ((j : ℕ)
        → 1000 / 30 ≤ j + 1
        → j < 34
        → totp_at codes_externals secret j ≢ ok (codes "000034"))
matching_totp_step_found_example =
    matching_totp_step_found codes_externals secret (codes "000034") 34 1000 matching

abbrev attempts : List Attempt
attempts =
    record { matched = 1000; purged = 1000; otp = codes "000034" }
    ∷ record { matched = 1010; purged = 1020; otp = codes "000034" }
    ∷ record { matched = 1030; purged = 1030; otp = codes "000035" }
    ∷ []

-- The second attempt is refused.
two_spent : spent_steps codes_externals secret attempts [] ≡ 34 ∷ 35 ∷ []
unfolding program
two_spent = refl

-- With the second reading a long time after the first a step is used up twice.
spent_again :
    (consume_otp codes_externals secret
      (codes "000034")
      1000
      1200
      (consume_otp codes_externals secret (codes "000034") 1000 1000 []).0).1
    ≡ ok true
unfolding program
spent_again = refl

spent_steps-NoRepeat_example : NoRepeat (spent_steps codes_externals secret attempts [])
spent_steps-NoRepeat_example = spent_steps-NoRepeat codes_externals secret attempts (omega arith)
