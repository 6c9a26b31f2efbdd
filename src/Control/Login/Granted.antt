-- ===== src/Control/Login/Granted.antt =====
-- What a login that labztna/control.py accepts has passed.
use mathlib.Core.Path.{subst}
use ztna_lab.Base.{
  List, text_key, ℕ, ◌≡◌, refl, sym, ap, ◌∙◌, Bool, true, false, not, Option, none, some, arith,
  Text, text_eq, text_eq_iff, codes, Result, ok, err, if◌then◌else◌,
}
use ztna_lab.Json.{Json}
use ztna_lab.Auth.{Externals}
use ztna_lab.Auth.Signer.{IssueError}
use ztna_lab.Policy.{PolicyDecision, decide}
use ztna_lab.Policy.Decisions.{IsAllowed, decide-IsAllowed}
use ztna_lab.Ipam.{PoolError}
use ztna_lab.Manifest.{ManifestError}
use ztna_lab.Session.{Session, SessionStore, create}
use ztna_lab.Otp.{OtpExternals, OtpError, consume_otp}
use ztna_lab.Control.{ControlPlane}
use ztna_lab.Control.Login.{
  PasswordExternals, Readings, LoginRequest, LoginGrant, LoginRefusal, verify_password, posture_of,
  grant_for, manifest_for, manifest_envelope_for, with_envelope, with_token, with_created,
  with_decision, with_otp, with_password, login,
}

not_refused :
    (b : Bool) (c : ControlPlane) (e : LoginRefusal)
    (p : ControlPlane × Result LoginRefusal LoginGrant) (g : LoginGrant)
    → (if not b then (c, err e) else p).1 ≡ ok g
    → (b ≡ true) × ((if not b then (c, err e) else p) ≡ p)
not_refused true c e p g h = (refl, refl)
not_refused false c e p g h = cc h

module _ (x : Externals) (y : OtpExternals) (w : PasswordExternals) (t : Readings)
    (r : LoginRequest) where
  abbrev created_by : ControlPlane → SessionStore × Result PoolError Session
  created_by c = create t.swept t.created r.username (posture_of x r) t.session_id c.sessions

  -- The session is the one that `create` makes for the posture of the request, and the token and
  -- the envelope are issued for it.
  pub record IsIssued (c c' : ControlPlane) (g : LoginGrant) : Type 0 where
    pub session : (created_by c).1 ≡ ok g.session
    pub store : c'.sessions ≡ (created_by c).0
    pub token : grant_for x c g.session t.granted t.token_id ≡ ok g.token
    pub envelope : manifest_envelope_for x c g.session t.enveloped ≡ ok g.envelope

  with_envelope_ok :
      (c : ControlPlane) (s : Session) (token : Text) (g : LoginGrant)
      (o : Result ManifestError Json)
      → (with_envelope s token c o).1 ≡ ok g
      → (s ≡ g.session)
        × (token ≡ g.token)
        × (o ≡ ok g.envelope)
        × ((with_envelope s token c o).0.sessions ≡ c.sessions)
  with_envelope_ok c s token g (err e) h = cc h
  with_envelope_ok c s token g (ok envelope) h = ground (arith, h)

  with_token_ok :
      (c : ControlPlane) (s : Session) (g : LoginGrant) (o : Result IssueError Text)
      → (with_token x t r s c o).1 ≡ ok g
      → (s ≡ g.session)
        × (o ≡ ok g.token)
        × (manifest_envelope_for x c s t.enveloped ≡ ok g.envelope)
        × ((with_token x t r s c o).0.sessions ≡ c.sessions)
  with_token_ok c s g (err e) h = cc h
  with_token_ok c s g (ok token) h =
      let (same, written, enveloped, store) =
        with_envelope_ok _ s token g (manifest_envelope_for x c s t.enveloped) h in
      (same, ap ok written, enveloped, store)

  -- Neither a token nor an envelope depends on the sessions and the codes.
  grant_for-set :
      (c : ControlPlane) (st : SessionStore) (used : List ℕ) (s : Session)
      → grant_for x (record c { sessions = st; used_otp_steps = used }) s t.granted t.token_id
        ≡ grant_for x c s t.granted t.token_id
  unfolding grant_for
  grant_for-set c st used s = refl

  manifest_envelope_for-set :
      (c : ControlPlane) (st : SessionStore) (used : List ℕ) (s : Session)
      → manifest_envelope_for x (record c { sessions = st; used_otp_steps = used }) s t.enveloped
        ≡ manifest_envelope_for x c s t.enveloped
  unfolding manifest_envelope_for manifest_for
  manifest_envelope_for-set c st used s = refl

  -- `c'` differs from `c` in the used codes only.
  with_created-IsIssued :
      (c : ControlPlane) (used : List ℕ) (g : LoginGrant)
      (p : SessionStore × Result PoolError Session)
      → created_by c ≡ p
      → (with_created x t r (record c { used_otp_steps = used }) p).1 ≡ ok g
      → IsIssued c (with_created x t r (record c { used_otp_steps = used }) p).0 g
  with_created-IsIssued c used g (st, err e) q h = cc h
  with_created-IsIssued c used g (st, ok s) q h =
      let c1 : ControlPlane = record c { sessions = st; used_otp_steps = used } in
      let (same, granted, enveloped, store) =
        with_token_ok c1 s g (grant_for x c1 s t.granted t.token_id) h in
      record {
        session = ap (λ (u : SessionStore × Result PoolError Session). u.1) q ∙ ap ok same;
        store = store ∙ sym (ap (λ (u : SessionStore × Result PoolError Session). u.0) q);
        token =
            subst (λ (u : Session). grant_for x c u t.granted t.token_id ≡ ok g.token) same
              (sym (grant_for-set c st used s) ∙ granted);
        envelope =
            subst (λ (u : Session). manifest_envelope_for x c u t.enveloped ≡ ok g.envelope) same
              (sym (manifest_envelope_for-set c st used s) ∙ enveloped);
      }

  with_decision-IsIssued :
      (c : ControlPlane) (used : List ℕ) (g : LoginGrant) (d : PolicyDecision)
      → (with_decision x t r (record c { used_otp_steps = used }) d).1 ≡ ok g
      → (d.allowed ≡ true)
        × IsIssued c (with_decision x t r (record c { used_otp_steps = used }) d).0 g
  with_decision-IsIssued c used g d h =
      let made = with_created x t r (record c { used_otp_steps = used }) (created_by c) in
      let (allowed, same) = not_refused d.allowed _ _ made g h in
      (
        allowed,
        subst (λ (p : ControlPlane × Result LoginRefusal LoginGrant). IsIssued c p.0 g) (sym same)
            (with_created-IsIssued c used g (created_by c) refl
              (sym (ap (λ (p : ControlPlane × Result LoginRefusal LoginGrant). p.1) same) ∙ h)),
      )

  -- What `login` has checked before it makes the session.
  pub record IsLogin (c c' : ControlPlane) (g : LoginGrant) : Type 0 where
    pub username : r.username ≡ c.username
    pub password : verify_password w r.password c.password_hash ≡ some true
    pub code :
        (consume_otp y c.otp_secret r.otp t.otp_matched t.otp_purged c.used_otp_steps).1 ≡ ok true
    pub allowed : IsAllowed c.registry r.username c.resource_id (codes "read") (posture_of x r)
    pub issued : IsIssued c c' g

  with_otp_ok :
      (c : ControlPlane) (used : List ℕ) (g : LoginGrant) (o : Result OtpError Bool)
      → (with_otp x t r (record c { used_otp_steps = used }) o).1 ≡ ok g
      → (o ≡ ok true)
        × IsAllowed c.registry r.username c.resource_id (codes "read") (posture_of x r)
        × IsIssued c (with_otp x t r (record c { used_otp_steps = used }) o).0 g
  with_otp_ok c used g (err e) h = cc h
  with_otp_ok c used g (ok false) h = cc h
  with_otp_ok c used g (ok true) h =
      let d = decide c.registry r.username c.resource_id (codes "read") (posture_of x r) in
      let (allowed, issued) = with_decision-IsIssued c used g d h in
      (
        refl,
        (decide-IsAllowed c.registry r.username c.resource_id (codes "read") (posture_of x r)).0
            allowed,
        issued,
      )

  with_password-IsLogin :
      (c : ControlPlane) (g : LoginGrant) (o : Option Bool)
      → r.username ≡ c.username
      → verify_password w r.password c.password_hash ≡ o
      → (with_password x y t r c o).1 ≡ ok g
      → IsLogin c (with_password x y t r c o).0 g
  with_password-IsLogin c g none n v h = cc h
  with_password-IsLogin c g (some false) n v h = cc h
  with_password-IsLogin c g (some true) n v h =
      let used = consume_otp y c.otp_secret r.otp t.otp_matched t.otp_purged c.used_otp_steps in
      let (code, allowed, issued) = with_otp_ok c used.0 g used.1 h in
      record { username = n; password = v; code = code; allowed = allowed; issued = issued }

  -- A login gives a session only if the user name and the password are right, the one-time code is
  -- accepted, and the policy allows the resource to the device; the session is then the one that
  -- `create` makes, and the token and the manifest are issued for it.
  pub login-IsLogin :
      (c : ControlPlane) (g : LoginGrant)
      → (login x y w t r c).1 ≡ ok g
      → IsLogin c (login x y w t r c).0 g
  unfolding login
  login-IsLogin c g h =
      let made = with_password x y t r c (verify_password w r.password c.password_hash) in
      let (named, same) = not_refused (text_eq r.username c.username) _ _ made g h in
      subst (λ (p : ControlPlane × Result LoginRefusal LoginGrant). IsLogin c p.0 g) (sym same)
        (with_password-IsLogin c g (verify_password w r.password c.password_hash)
          ((text_eq_iff r.username c.username).0 named) refl
          (sym (ap (λ (p : ControlPlane × Result LoginRefusal LoginGrant). p.1) same) ∙ h))
