-- ===== src/Control/Access.antt =====
-- What a request that labztna/control.py authorizes has proved.
use ztna_lab.Base.{
  text_key, pair_key, ℕ, ◌≡◌, refl, ap, sym, ◌∙◌, Bool, true, false, not, if◌then◌else◌, Option,
  none, some, List, [], ◌∷◌, ◌++◌, contains, arith, Text, codes, Result, ok, err, drop, starts_with,
}
use mathlib.Core.Path.{subst}
use ztna_lab.Base.Dict
use ztna_lab.Json.{ℤ, Fields, lookup, as_text}
use ztna_lab.Auth.{Externals, TokenError, verify}
use ztna_lab.Session.{Session, SessionStore, get_active}
use ztna_lab.Session.Expiry.{IsCurrent, get_active-IsCurrent}
use ztna_lab.Replay.{Key, ReplayGuard, max_control_replay_ids, consume_control_request_id}
use ztna_lab.Replay.Window.{Tracks, keep_last, consume_accepted, consume_new, consume_unused}
use ztna_lab.Control.Proof.{IsMatch, IsProof, claims_match-IsMatch, proof_checked-IsProof}
use ztna_lab.Control.{
  ControlPlane, Request, Unauthorized, authorization_required, session_expired,
  invalid_device_proof, claims_match, proof_checked, is_proved, claim_request, with_session,
  with_sid, with_claims, authorized_session,
}

guards_passed :
    (c : ControlPlane) (m p : Bool) (q : ControlPlane × Result Unauthorized Session) (t : Session)
    → (if not m
        then (c, err session_expired)
        else if not p
        then (c, err invalid_device_proof)
        else q).1
      ≡ ok t
    → (m ≡ true) × (p ≡ true) × (q.1 ≡ ok t)
guards_passed c true true q t e = (refl, refl, e)
guards_passed c true false q t e = cc e
guards_passed c false p q t e = cc e

-- What `authorized_session` has checked before it hands out a session.
pub record IsAuthorized (x : Externals) (parse_int : Text → Option ℤ) (verified seen now : ℕ)
    (token : Text) (r : Request) (c : ControlPlane) (s : Session) : Type 0 where
  pub claims : Fields
  pub session_id : Text
  pub bearer : starts_with (codes "Bearer ") r.authorization ≡ true
  pub genuine : verify x c.signer.verifier token none verified ≡ ok claims
  pub sid : as_text (lookup (codes "sid") claims) ≡ some session_id
  pub held : Dict.get session_id c.sessions.sessions ≡ some s
  pub current : IsCurrent c.sessions.idle_seconds seen s
  pub same : IsMatch x c claims s
  pub proved : IsProof x parse_int now s token r
  pub unused : contains (s.session_id, r.request_id) c.control_replay.replay_ids ≡ false

module _ (x : Externals) (parse_int : Text → Option ℤ) (seen now : ℕ) (token : Text)
    (r : Request) where
  claim_request_ok :
      (c : ControlPlane) (s t : Session) (p : ReplayGuard × Bool)
      → (claim_request c s p).1 ≡ ok t
      → (p.1 ≡ true) × (s ≡ t)
  claim_request_ok c s t (guard, false) e = cc e
  claim_request_ok c s t (guard, true) e = ground (arith, e)

  with_session_ok :
      (claims : Fields) (c : ControlPlane) (found : Option Session) (t : Session)
      → (with_session x parse_int now token r claims c found).1 ≡ ok t
      → (found ≡ some t)
        × (claims_match x c claims t ≡ true)
        × (is_proved (proof_checked x parse_int now t token r) ≡ true)
        × ((consume_control_request_id t.session_id r.request_id c.control_replay).1 ≡ true)
  with_session_ok claims c none t e = cc e
  with_session_ok claims c (some s) t e =
      let claimed = consume_control_request_id s.session_id r.request_id c.control_replay in
      let proved = is_proved (proof_checked x parse_int now s token r) in
      let (m, p, q) =
        guards_passed c (claims_match x c claims s) proved (claim_request c s claimed) t e in
      let (unused, same) = claim_request_ok c s t claimed q in
      subst
        (λ (u : Session).
          (some s ≡ some u)
          × (claims_match x c claims u ≡ true)
          × (is_proved (proof_checked x parse_int now u token r) ≡ true)
          × ((consume_control_request_id u.session_id r.request_id c.control_replay).1 ≡ true))
        same (refl, m, p, unused)

  claims_match-sessions :
      (c : ControlPlane) (st : SessionStore) (claims : Fields) (s : Session)
      → claims_match x (record c { sessions = st }) claims s ≡ claims_match x c claims s
  unfolding claims_match
  claims_match-sessions c st claims s = refl

  with_sid_ok :
      (claims : Fields) (c : ControlPlane) (sid : Option Text) (t : Session)
      → (with_sid x parse_int seen now token r claims c sid).1 ≡ ok t
      → (session_id : Text) × (sid ≡ some session_id)
        × (Dict.get session_id c.sessions.sessions ≡ some t)
        × IsCurrent c.sessions.idle_seconds seen t
        × (claims_match x c claims t ≡ true)
        × (is_proved (proof_checked x parse_int now t token r) ≡ true)
        × ((consume_control_request_id t.session_id r.request_id c.control_replay).1 ≡ true)
  with_sid_ok claims c none t e = cc e
  with_sid_ok claims c (some k) t e =
      let found = get_active seen k c.sessions in
      let (active, same, proved, unused) =
        with_session_ok claims (record c { sessions = found.0 }) found.1 t e in
      let (held, current) = (get_active-IsCurrent seen k c.sessions t).0 active in
      (
        k,
        refl,
        held,
        current,
        sym (claims_match-sessions c found.0 claims t) ∙ same,
        proved,
        unused,
      )

  with_claims-IsAuthorized :
      (verified : ℕ) (c : ControlPlane) (t : Session) (claimed : Result TokenError Fields)
      → starts_with (codes "Bearer ") r.authorization ≡ true
      → verify x c.signer.verifier token none verified ≡ claimed
      → (with_claims x parse_int seen now token r c claimed).1 ≡ ok t
      → IsAuthorized x parse_int verified seen now token r c t
  unfolding consume_control_request_id
  with_claims-IsAuthorized verified c t (err a) b v e = cc e
  with_claims-IsAuthorized verified c t (ok claims) b v e =
      let (session_id, sid, held, current, same, proved, unused) =
        with_sid_ok claims c (as_text (lookup (codes "sid") claims)) t e in
      record {
        claims = claims;
        session_id = session_id;
        bearer = b;
        genuine = v;
        sid = sid;
        held = held;
        current = current;
        same = claims_match-IsMatch x c claims t same;
        proved = proof_checked-IsProof x parse_int now t token r proved;
        unused =
            consume_unused max_control_replay_ids (t.session_id, r.request_id) c.control_replay
              unused;
      }

bearer_passed :
    (c : ControlPlane) (b : Bool) (q : ControlPlane × Result Unauthorized Session) (t : Session)
    → (if not b then (c, err authorization_required) else q).1 ≡ ok t
    → (b ≡ true) × (q.1 ≡ ok t)
bearer_passed c true q t e = (refl, e)
bearer_passed c false q t e = cc e

pub authorized_session_checked :
    (x : Externals) (parse_int : Text → Option ℤ) (strip : Text → Text) (verified seen now : ℕ)
    (r : Request) (c : ControlPlane) (s : Session)
    → (authorized_session x parse_int strip verified seen now r c).1 ≡ ok s
    → IsAuthorized x parse_int verified seen now (strip (drop 7 r.authorization)) r c s
unfolding authorized_session
authorized_session_checked x parse_int strip verified seen now r c s e =
    let token = strip (drop 7 r.authorization) in
    let claimed = verify x c.signer.verifier token none verified in
    let (b, q) =
      bearer_passed c (starts_with (codes "Bearer ") r.authorization)
        (with_claims x parse_int seen now token r c claimed) s e in
    with_claims-IsAuthorized x parse_int seen now token r verified c s claimed b refl q

-- Whatever is authorized has taken up its request id.
module _ (x : Externals) (parse_int : Text → Option ℤ) (seen now : ℕ) (token : Text) (r : Request)
    (t : Session) where
  replay-claim_request :
      (c : ControlPlane) (s : Session) (p : ReplayGuard × Bool)
      → (claim_request c s p).0.control_replay ≡ p.0
  replay-claim_request c s (guard, true) = refl
  replay-claim_request c s (guard, false) = refl

  replay-guards :
      (m p : Bool) (c : ControlPlane) (q : ControlPlane × Result Unauthorized Session)
      → (m ≡ true)
      → (p ≡ true)
      → (if not m
          then (c, err session_expired)
          else if not p
          then (c, err invalid_device_proof)
          else q)
        ≡ q
  replay-guards m p c q hm hp = rw (hm, hp) refl

  replay-with_session :
      (claims : Fields) (c : ControlPlane) (found : Option Session)
      → (with_session x parse_int now token r claims c found).1 ≡ ok t
      → (with_session x parse_int now token r claims c found).0.control_replay
        ≡ (consume_control_request_id t.session_id r.request_id c.control_replay).0
  replay-with_session claims c none e = cc e
  replay-with_session claims c (some s) e =
      let claimed = consume_control_request_id s.session_id r.request_id c.control_replay in
      let (m, p, q) =
        guards_passed c (claims_match x c claims s)
          (is_proved (proof_checked x parse_int now s token r)) (claim_request c s claimed) t e in
      let (unused, same) = claim_request_ok x parse_int seen now token r c s t claimed q in
      ap (λ (o : ControlPlane × Result Unauthorized Session). o.0.control_replay)
        (replay-guards (claims_match x c claims s)
          (is_proved (proof_checked x parse_int now s token r)) c (claim_request c s claimed) m p)
      ∙ replay-claim_request c s claimed
      ∙ ap
          (λ (u : Session).
            (consume_control_request_id u.session_id r.request_id c.control_replay).0)
          same

  replay-with_sid :
      (claims : Fields) (c : ControlPlane) (sid : Option Text)
      → (with_sid x parse_int seen now token r claims c sid).1 ≡ ok t
      → (with_sid x parse_int seen now token r claims c sid).0.control_replay
        ≡ (consume_control_request_id t.session_id r.request_id c.control_replay).0
  replay-with_sid claims c none e = cc e
  replay-with_sid claims c (some k) e =
      let found = get_active seen k c.sessions in
      replay-with_session claims (record c { sessions = found.0 }) found.1 e

  replay-with_claims :
      (c : ControlPlane) (claimed : Result TokenError Fields)
      → (with_claims x parse_int seen now token r c claimed).1 ≡ ok t
      → (with_claims x parse_int seen now token r c claimed).0.control_replay
        ≡ (consume_control_request_id t.session_id r.request_id c.control_replay).0
  replay-with_claims c (err a) e = cc e
  replay-with_claims c (ok claims) e =
      replay-with_sid claims c (as_text (lookup (codes "sid") claims)) e

  replay-bearer :
      (b : Bool) (c : ControlPlane) (q : ControlPlane × Result Unauthorized Session)
      → (if not b then (c, err authorization_required) else q).1 ≡ ok t
      → (if not b then (c, err authorization_required) else q) ≡ q
  replay-bearer true c q e = refl
  replay-bearer false c q e = cc e

replay-authorized_session :
    (x : Externals) (parse_int : Text → Option ℤ) (strip : Text → Text) (verified seen now : ℕ)
    (r : Request) (c : ControlPlane) (s : Session)
    → (authorized_session x parse_int strip verified seen now r c).1 ≡ ok s
    → (authorized_session x parse_int strip verified seen now r c).0.control_replay
      ≡ (consume_control_request_id s.session_id r.request_id c.control_replay).0
unfolding authorized_session
replay-authorized_session x parse_int strip verified seen now r c s e =
    let token = strip (drop 7 r.authorization) in
    let made =
      with_claims x parse_int seen now token r c (verify x c.signer.verifier token none verified) in
    let same =
      replay-bearer x parse_int seen now token r s (starts_with (codes "Bearer ") r.authorization) c
        made e in
    ap (λ (o : ControlPlane × Result Unauthorized Session). o.0.control_replay) same
    ∙ replay-with_claims x parse_int seen now token r s c
        (verify x c.signer.verifier token none verified)
        (sym (ap (λ (o : ControlPlane × Result Unauthorized Session). o.1) same) ∙ e)

-- A request gets a session only if its bearer token verifies, the session that the token names is
-- held and current, the claims agree with it and with the control plane, the proof is at most 30
-- seconds old or early and decodes to a signature by the device's key over the request; where the
-- replay guard follows a history of accepted request ids, the session's request id is none of the
-- last 4,096, and afterwards the guard follows the history with it at the end.
pub authorized_session-IsAuthorized :
    (x : Externals) (parse_int : Text → Option ℤ) (strip : Text → Text) (verified seen now : ℕ)
    (r : Request) (c : ControlPlane) (s : Session) (history : List Key)
    → Tracks 4096 history c.control_replay
    → (authorized_session x parse_int strip verified seen now r c).1 ≡ ok s
    → IsAuthorized x parse_int verified seen now (strip (drop 7 r.authorization)) r c s
      × (contains (s.session_id, r.request_id) (keep_last 4096 history) ≡ false)
      × Tracks 4096
          (history ++ (s.session_id, r.request_id) ∷ [])
          (authorized_session x parse_int strip verified seen now r c).0.control_replay
unfolding consume_control_request_id
authorized_session-IsAuthorized x parse_int strip verified seen now r c s history follows e =
    let granted = authorized_session_checked x parse_int strip verified seen now r c s e in
    let k : Key = (s.session_id, r.request_id) in
    let (new, longer) =
      consume_accepted 4096 history k c.control_replay follows
        (consume_new 4096 k c.control_replay granted.unused) in
    (
      granted,
      new,
      subst (Tracks 4096 (history ++ k ∷ []))
          (sym (replay-authorized_session x parse_int strip verified seen now r c s e)) longer,
    )
