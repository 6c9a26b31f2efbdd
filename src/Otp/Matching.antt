-- ===== src/Otp/Matching.antt =====
-- Which counter `matching_totp_step` of labztna/auth.py finds.
use mathlib.Core.Path.{subst}
use ztna_lab.Base.{
  ℕ, zero, suc, ◌+◌, ◌/◌, ◌≤◌, ◌<◌, ◌≡◌, ◌≢◌, ◌⊎◌, inl, inr, refl, ap, sym, Bool, true, false,
  Option, none, some, List, [], ◌∷◌, arith, Text, text_eq_iff, Result, ok, err, ◌>>=◌,
  if◌then◌else◌,
}
use ztna_lab.Otp.{
  OtpExternals, OtpError, totp_at, compare_digest, windows, try_windows, is_code,
  matching_totp_step,
}

compare_digest-eq-true : (s t : Text) → compare_digest s t ≡ ok true → s ≡ t
unfolding compare_digest
compare_digest-eq-true s t e = ground (arith, text_eq_iff s t)

compare_digest-eq-false : (s t : Text) → compare_digest s t ≡ ok false → s ≢ t
unfolding compare_digest
compare_digest-eq-false s t e same = ground (arith, text_eq_iff s t)

abbrev Gives : Result OtpError Text → Text → Type 0
Gives code supplied = code ≡ ok supplied

compared_cases :
    (n c : ℕ) (supplied d : Text) (later : Result OtpError (Option ℕ)) (same : Result OtpError Bool)
    → compare_digest d supplied ≡ same
    → (same >>= λ b. if b then ok (some n) else later) ≡ ok (some c)
    → ((n ≡ c) × Gives (ok d) supplied) ⊎ ((Gives (ok d) supplied → ⊥) × (later ≡ ok (some c)))
compared_cases n c supplied d later (err r) m e = cc e
compared_cases n c supplied d later (ok true) m e =
    inl (cc e, ap ok (compare_digest-eq-true d supplied m))
compared_cases n c supplied d later (ok false) m e =
    inr (λ (q : Gives (ok d) supplied). compare_digest-eq-false d supplied m (cc q), e)

-- One round of the loop that leads to `some c`.
round_cases :
    (n c : ℕ) (supplied : Text) (code : Result OtpError Text) (later : Result OtpError (Option ℕ))
    → (code >>= λ d. compare_digest d supplied >>= λ same. if same then ok (some n) else later)
      ≡ ok (some c)
    → ((n ≡ c) × Gives code supplied) ⊎ ((Gives code supplied → ⊥) × (later ≡ ok (some c)))
round_cases n c supplied (err r) later e = cc e
round_cases n c supplied (ok d) later e =
    compared_cases n c supplied d later (compare_digest d supplied) refl e

two_before : (n j : ℕ) → n ≤ j → j < suc (suc n) → (n ≡ j) ⊎ (suc n ≡ j)
two_before n j low high = ground arith

module _ (x : OtpExternals) (secret supplied : Text) (c : ℕ) where
  abbrev Matches : ℕ → Type 0
  Matches n = Gives (totp_at x secret n) supplied

  -- The counter `n` and those after it in the list lead to `c`.
  try_round :
      (n : ℕ) (rest : List (Option ℕ))
      → try_windows x secret supplied (some n ∷ rest) ≡ ok (some c)
      → ((n ≡ c) × Matches n)
        ⊎ ((Matches n → ⊥) × (try_windows x secret supplied rest ≡ ok (some c)))
  unfolding try_windows
  try_round n rest e =
      round_cases n c supplied (totp_at x secret n) (try_windows x secret supplied rest) e

  try_none : try_windows x secret supplied [] ≡ ok (some c) → ⊥
  unfolding try_windows
  try_none e = cc e

  try_negative :
      (rest : List (Option ℕ)) → try_windows x secret supplied (none ∷ rest) ≢ ok (some c)
  unfolding try_windows
  try_negative rest e = cc e

  -- `c` is the first counter at or after the current one less one whose code is the supplied one.
  abbrev Found : ℕ → Type 0
  Found current =
      Matches c
      × (current ≤ c + 1)
      × (c ≤ current + 1)
      × ((j : ℕ) → current ≤ j + 1 → j < c → Matches j → ⊥)

  first_match :
      (n current : ℕ)
      → n ≡ c
      → Matches n
      → current ≤ n + 1
      → n ≤ current + 1
      → ((j : ℕ) → current ≤ j + 1 → j < n → Matches j → ⊥)
      → Found current
  first_match n current same m low high first =
      (subst Matches same m, omega arith, omega arith, λ j lo hi. first j lo (omega arith))

  three_rounds :
      (n : ℕ) → try_windows x secret supplied (windows (suc n)) ≡ ok (some c) → Found (suc n)
  three_rounds n e = elim (try_round n (some (suc n) ∷ some (suc (suc n)) ∷ []) e) [
    | inl (same, g) ↦
        first_match n (suc n) same g (omega arith) (omega arith) λ j low high. absurd (omega arith)
    | inr (not_first, e1) ↦ elim (try_round (suc n) (some (suc (suc n)) ∷ []) e1) [
      | inl (same, g) ↦
          first_match (suc n) (suc n) same g (omega arith) (omega arith)
            λ j low high g'. not_first (subst Matches (omega arith) g')
      | inr (not_second, e2) ↦ elim (try_round (suc (suc n)) [] e2) [
        | inl (same, g) ↦
            first_match (suc (suc n)) (suc n) same g (omega arith) (omega arith) λ j low high g'.
              elim (two_before n j (omega arith) high) [
                | inl q ↦ not_first (subst Matches (sym q) g')
                | inr q ↦ not_second (subst Matches (sym q) g')
              ]
        | inr (_, e3) ↦ absurd (try_none e3)
      ]
    ]
  ]

  all_rounds :
      (current : ℕ) → try_windows x secret supplied (windows current) ≡ ok (some c) → Found current
  all_rounds zero e = absurd (try_negative (some 0 ∷ some 1 ∷ []) e)
  all_rounds (suc n) e = three_rounds n e

  -- A counter that is found is at most one step from the clock's, its code is the supplied text,
  -- a text of six digits, and no earlier counter of the window has that code.
  pub matching_totp_step_found :
      (now : ℕ)
      → matching_totp_step x secret supplied now ≡ ok (some c)
      → (is_code x supplied ≡ true)
        × (totp_at x secret c ≡ ok supplied)
        × (now / 30 ≤ c + 1)
        × (c ≤ now / 30 + 1)
        × ((j : ℕ) → now / 30 ≤ j + 1 → j < c → totp_at x secret j ≢ ok supplied)
  unfolding matching_totp_step
  matching_totp_step_found now e =
      let code : is_code x supplied ≡ true = ground (arith, e) in
      let (m, low, high, first) = all_rounds (now / 30) (ground (arith, e)) in
      (code, m, low, high, first)
