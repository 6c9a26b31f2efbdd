-- ===== src/Otp/Once.antt =====
-- Calls of `consume_otp` of labztna/control.py, one after the other.
use mathlib.Core.Path.{subst}
use mathlib.Core.Logic.{◌⊎◌}
use ztna_lab.Base.{
  nat_eq, ℕ, ◌+◌, ◌/◌, ◌≤◌, ◌≡◌, refl, sym, Bool, true, false, ◌&&◌, Option, none, some, List, [],
  ◌∷◌, ◌++◌, arith, contains, Text, Result, ok, err, Bool-cases, inl, inr,
}
use ztna_lab.Otp.{
  OtpExternals, OtpError, matching_totp_step, kept_step, purge, use_step, use_match, consume_otp,
}
use ztna_lab.Otp.Matching.{matching_totp_step_found}

-- One call: its two readings of the clock and the code.
pub record Attempt : Type 0 where
  pub matched : ℕ
  pub purged : ℕ
  pub otp : Text

-- The step that a call uses up.
abbrev spent_step : Result OtpError (Option ℕ) → Bool → List ℕ
spent_step (ok (some step)) true = step ∷ []
spent_step _ _ = []

abbrev accepted : Result OtpError Bool → Bool
accepted (ok b) = b
accepted (err e) = false

-- The steps that the calls use up, in their order.
unfoldable pub spent_steps : OtpExternals → Text → List Attempt → List ℕ → List ℕ
spent_steps x secret [] used = []
spent_steps x secret (a ∷ rest) used =
    let r = consume_otp x secret a.otp a.matched a.purged used in
    spent_step (matching_totp_step x secret a.otp a.matched) (accepted r.1)
    ++ spent_steps x secret rest r.0

-- Time does not run backwards from one call's match to the next one's, and within a call the
-- second reading is 30 seconds after the first at most.
abbrev pub Timely : ℕ → List Attempt → Type 0
Timely last [] = Unit {0}
Timely last (a ∷ rest) =
    (last ≤ a.matched)
    × (a.matched ≤ a.purged)
    × (a.purged ≤ a.matched + 30)
    × Timely a.matched rest

-- No number stands twice.
abbrev pub NoRepeat : List ℕ → Type 0
NoRepeat [] = Unit {0}
NoRepeat (s ∷ ss) = (contains s ss ≡ false) × NoRepeat ss

contains-purge :
    (s current : ℕ) (used : List ℕ)
    → contains s (purge current used) ≡ (contains s used && kept_step current s)
unfolding purge
contains-purge s current [] = refl
contains-purge s current (t ∷ used) = ground (arith, contains-purge s current used)

-- The steps spent so far that a match at `last` or later can still find are all in the set, and
-- none of them lies in the future.
record Remembers (last : ℕ) (history used : List ℕ) : Type 0 where
  kept : (s : ℕ) → contains s history ≡ true → last ≤ s + 1 → contains s used ≡ true
  past : (s : ℕ) → contains s history ≡ true → s ≤ last + 1

module _ (last current purged : ℕ) (history used : List ℕ) (h : Remembers last history used)
    (later : last ≤ current) (ordered : current ≤ purged) (close : purged ≤ current + 1) where
  -- What the purge keeps is enough.
  purge-Remembers : Remembers current history (purge purged used)
  purge-Remembers = record {
    kept = λ s old near. ground (arith, contains-purge s purged used, h.kept s old, h.past s old);
    past = λ s old. omega (arith, h.past s old);
  }

  use_step-Remembers :
      (step : ℕ)
      → current ≤ step + 1
      → step ≤ current + 1
      → (use_step purged step used).1 ≡ true
      → (contains step history ≡ false)
        × Remembers current (step ∷ history) (use_step purged step used).0
  unfolding use_step
  use_step-Remembers step low high e =
      let r = purge-Remembers in
      let fresh : contains step (purge purged used) ≡ false = ground (arith, e) in
      (
        elim (Bool-cases (contains step history)) [
          | inl old ↦ absurd (cc (fresh, r.kept step old low))
          | inr new ↦ new
        ],
        rw fresh (record {
          kept = λ s old near. ground (arith, r.kept s);
          past = λ s old. ground (arith, r.past s);
        }),
      )

use_step_refused :
    (purged step : ℕ) (used : List ℕ)
    → (use_step purged step used).1 ≡ false
    → (use_step purged step used).0 ≡ purge purged used
unfolding use_step
use_step_refused purged step used e = ground (arith, e)

Remembers-later :
    (last current : ℕ) (history used : List ℕ)
    → Remembers last history used
    → last ≤ current
    → Remembers current history used
Remembers-later last current history used h later = record {
  kept = λ s old near. h.kept s old (omega arith);
  past = λ s old. omega (arith, h.past s old);
}

-- What one call does: it spends no step, or one that was not spent before.
abbrev Spends : ℕ → List ℕ → List ℕ → List ℕ → Type 0
Spends current history spent used =
    ((spent ≡ []) × Remembers current history used)
    ⊎ ((step : ℕ) × (spent ≡ step ∷ [])
        × (contains step history ≡ false)
        × Remembers current (step ∷ history) used)

module _ (x : OtpExternals) (secret : Text) (last : ℕ) (a : Attempt) (history used : List ℕ)
    (h : Remembers (last / 30) history used) (later : last ≤ a.matched)
    (ordered : a.matched ≤ a.purged) (close : a.purged ≤ a.matched + 30) where
  used_Spends :
      (step : ℕ) (fresh : Bool)
      → matching_totp_step x secret a.otp a.matched ≡ ok (some step)
      → (use_step (a.purged / 30) step used).1 ≡ fresh
      → Spends
          (a.matched / 30)
          history
          (spent_step (ok (some step)) fresh)
          (use_step (a.purged / 30) step used).0
  used_Spends step true m e =
      let (_, _, low, high, _) = matching_totp_step_found x secret a.otp step a.matched m in
      let (new, r) =
        use_step-Remembers (last / 30) (a.matched / 30) (a.purged / 30) history used h (omega arith)
          (omega arith) (omega arith) step low high e in
      inr (step, refl, new, r)
  used_Spends step false m e =
      let r =
        purge-Remembers (last / 30) (a.matched / 30) (a.purged / 30) history used h (omega arith)
          (omega arith) (omega arith) in
      inl (
        refl,
        subst (Remembers (a.matched / 30) history)
            (sym (use_step_refused (a.purged / 30) step used e)) r,
      )

  attempt_Spends :
      (o : Result OtpError (Option ℕ))
      → matching_totp_step x secret a.otp a.matched ≡ o
      → Spends
          (a.matched / 30)
          history
          (spent_step o (accepted (use_match a.purged used o).1))
          (use_match a.purged used o).0
  attempt_Spends (err e) m =
      inl (refl, Remembers-later (last / 30) (a.matched / 30) history used h (omega arith))
  attempt_Spends (ok none) m =
      inl (refl, Remembers-later (last / 30) (a.matched / 30) history used h (omega arith))
  attempt_Spends (ok (some step)) m = used_Spends step (use_step (a.purged / 30) step used).1 m refl

  consume_otp-Spends :
      Spends
        (a.matched / 30)
        history
        (spent_step
          (matching_totp_step x secret a.otp a.matched)
          (accepted (consume_otp x secret a.otp a.matched a.purged used).1))
        (consume_otp x secret a.otp a.matched a.purged used).0
  unfolding consume_otp
  consume_otp-Spends = attempt_Spends (matching_totp_step x secret a.otp a.matched) refl

-- The steps of the later calls repeat none of the history.
abbrev Avoids : List ℕ → List ℕ → Type 0
Avoids history steps = (s : ℕ) → contains s history ≡ true → contains s steps ≡ false

step_on :
    (current : ℕ) (history spent used rest : List ℕ)
    → Spends current history spent used
    → ((past : List ℕ) → Remembers current past used → NoRepeat rest × Avoids past rest)
    → NoRepeat (spent ++ rest) × Avoids history (spent ++ rest)
step_on current history spent used rest (inl (e, r)) next =
    subst (λ (sp : List ℕ). NoRepeat (sp ++ rest) × Avoids history (sp ++ rest)) (sym e)
      (next history r)
step_on current history spent used rest (inr (step, e, new, r)) next =
    let (once, avoids) = next (step ∷ history) r in
    subst (λ (sp : List ℕ). NoRepeat (sp ++ rest) × Avoids history (sp ++ rest)) (sym e)
      ((ground (arith, avoids step), once), λ s old. ground (arith, avoids s, old, new))

spent_steps_from :
    (x : OtpExternals) (secret : Text) (calls : List Attempt) (last : ℕ) (history used : List ℕ)
    → Remembers (last / 30) history used
    → Timely last calls
    → NoRepeat (spent_steps x secret calls used) × Avoids history (spent_steps x secret calls used)
unfolding spent_steps
spent_steps_from x secret [] last history used h t = (tt, λ s old. refl)
spent_steps_from x secret (a ∷ calls) last history used h (later, ordered, close, t) =
    let used' = (consume_otp x secret a.otp a.matched a.purged used).0 in
    step_on (a.matched / 30) history
      (spent_step (matching_totp_step x secret a.otp a.matched)
        (accepted (consume_otp x secret a.otp a.matched a.purged used).1))
      used' (spent_steps x secret calls used')
      (consume_otp-Spends x secret last a history used h later ordered close)
      λ past r. spent_steps_from x secret calls a.matched past used' r t

-- No step is used up twice by any calls of `consume_otp` on an empty set, if time does not run
-- backwards between the calls and the two readings of a call are 30 seconds apart at most.
pub spent_steps-NoRepeat :
    (x : OtpExternals) (secret : Text) (calls : List Attempt)
    → Timely 0 calls
    → NoRepeat (spent_steps x secret calls [])
spent_steps-NoRepeat x secret calls t =
    (spent_steps_from x secret calls 0 [] []
      (record { kept = λ s old near. cc old; past = λ s old. cc old }) t).0
