-- ===== src/Otp.antt =====
-- One-time codes: `totp_now` and `matching_totp_step` of labztna/auth.py and
-- `ControlPlane.consume_otp` of labztna/control.py. The libraries are the fields of `OtpExternals`;
-- the clock is in whole seconds, and each reading is an argument. The lock of `consume_otp` makes
-- its last part one step.
pub mod Matching
pub mod Once
use ztna_lab.Base.{
  nat_eq, ℕ, zero, suc, ◌+◌, ◌-◌, ◌*◌, ◌/◌, ◌%◌, ◌^◌, Bool, true, false, not, ◌&&◌, ◌||◌, Option,
  none, some, List, [], ◌∷◌, ◌++◌, ltb, leb, ◌==◌, if◌then◌else◌, Bytes, to_be, from_be, take, drop,
  length, contains, Text, text_eq, Result, ok, err, ◌>>=◌, or_raise,
}

pub record OtpExternals : Type 0 where
  pub b32decode : Text → Option Bytes
  -- A key and a message.
  pub hmac_sha1 : Bytes → Bytes → Bytes
  -- What `str` knows of a code point.
  pub is_digit : ℕ → Bool
  pub is_space : ℕ → Bool
  pub upper : ℕ → Text

-- `TypeError` of `compare_digest`, `struct.error`, `binascii.Error`, and an index out of range.
pub data OtpError : Type 0 where
  not_ascii counter_range bad_secret short_digest : OtpError

-- `"".join(secret.split()).upper()`
unfoldable pub normalized : OtpExternals → Text → Text
normalized x [] = []
normalized x (c ∷ t) = let rest = normalized x t in if x.is_space c then rest else x.upper c ++ rest

unfoldable pub equal_signs : ℕ → Text
equal_signs zero = []
equal_signs (suc n) = b'=' ∷ equal_signs n

-- `_totp_key`
unfoldable pub totp_key : OtpExternals → Text → Result OtpError Bytes
unfolding equal_signs
totp_key x secret =
    let t = normalized x secret in
    or_raise bad_secret (x.b32decode (t ++ equal_signs ((8 - length t % 8) % 8)))

-- `f"{number:06d}"` of a number below 1,000,000.
abbrev pub six_digits : ℕ → Text
six_digits n =
    (b'0' + n / 100000)
    ∷ (b'0' + n / 10000 % 10)
    ∷ (b'0' + n / 1000 % 10)
    ∷ (b'0' + n / 100 % 10)
    ∷ (b'0' + n / 10 % 10)
    ∷ (b'0' + n % 10)
    ∷ []

abbrev last_byte : Bytes → Option ℕ
last_byte [] = none
last_byte (b ∷ []) = some b
last_byte (b ∷ bs) = last_byte bs

-- The code that a digest stands for: four bytes at the offset that its last byte names.
unfoldable pub code_of_digest : Bytes → Result OtpError Text
code_of_digest digest = or_raise short_digest (last_byte digest) >>= λ low.
    let word = take 4 (drop (low % 16) digest) in
    if length word == 4 then ok (six_digits (from_be word % 2 ^ 31 % 1000000)) else err short_digest

-- `totp_now(secret, counter * 30)`
unfoldable pub totp_at : OtpExternals → Text → ℕ → Result OtpError Text
totp_at x secret counter = totp_key x secret >>= λ key.
    if ltb counter (2 ^ 64)
    then code_of_digest (x.hmac_sha1 key (to_be 8 counter))
    else err counter_range

-- `all` of a test on the characters.
unfoldable pub all_chars : (ℕ → Bool) → Text → Bool
all_chars test [] = true
all_chars test (c ∷ t) = test c && all_chars test t

-- `hmac.compare_digest` of two `str`.
unfoldable pub compare_digest : Text → Text → Result OtpError Bool
compare_digest s t =
    if all_chars (λ c. ltb c 128) s && all_chars (λ c. ltb c 128) t
    then ok (text_eq s t)
    else err not_ascii

-- The counters of the windows -1, 0 and 1; `none` is the counter -1.
abbrev pub windows : ℕ → List (Option ℕ)
windows zero = none ∷ some 0 ∷ some 1 ∷ []
windows (suc n) = some n ∷ some (suc n) ∷ some (suc (suc n)) ∷ []

unfoldable pub try_windows :
    OtpExternals → Text → Text → List (Option ℕ) → Result OtpError (Option ℕ)
try_windows x secret supplied [] = ok none
try_windows x secret supplied (counter ∷ rest) =
    let later = try_windows x secret supplied rest in
    or_raise counter_range counter >>= λ n. totp_at x secret n >>= λ code.
    compare_digest code supplied >>= λ same. if same then ok (some n) else later

-- `isdigit` of a text of six characters.
abbrev pub is_code : OtpExternals → Text → Bool
is_code x supplied = (length supplied == 6) && all_chars x.is_digit supplied

unfoldable pub matching_totp_step : OtpExternals → Text → Text → ℕ → Result OtpError (Option ℕ)
matching_totp_step x secret supplied now =
    if not (is_code x supplied) then ok none else try_windows x secret supplied (windows (now / 30))

-- `{current - 2, current - 1, current, current + 1}`
abbrev pub kept_step : ℕ → ℕ → Bool
kept_step current step = leb current (step + 2) && leb step (current + 1)

-- `intersection_update`
unfoldable pub purge : ℕ → List ℕ → List ℕ
purge current [] = []
purge current (s ∷ used) =
    let rest = purge current used in if kept_step current s then s ∷ rest else rest

-- The locked part of `consume_otp`.
unfoldable pub use_step : ℕ → ℕ → List ℕ → List ℕ × Bool
use_step current step used =
    let kept = purge current used in
    if contains step kept then (kept, false) else (step ∷ kept, true)

abbrev pub use_match : ℕ → List ℕ → Result OtpError (Option ℕ) → List ℕ × Result OtpError Bool
use_match purged used (err e) = (used, err e)
use_match purged used (ok none) = (used, ok false)
use_match purged used (ok (some step)) = let r = use_step (purged / 30) step used in (r.0, ok r.1)

-- `consume_otp`, which reads the clock for the match and again for the purge.
unfoldable pub consume_otp :
    OtpExternals → Text → Text → ℕ → ℕ → List ℕ → List ℕ × Result OtpError Bool
consume_otp x secret otp matched purged used =
    use_match purged used (matching_totp_step x secret otp matched)
