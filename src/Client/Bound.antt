-- ===== src/Client/Bound.antt =====
-- The state of the client of labztna/client.py between its calls.
use ztna_lab.Base.{
  ℕ, true, Option, none, some, ◌≡◌, ◌⊎◌, inl, inr, refl, ◌∙◌, arith, Text, Bytes, Result, ok, err,
  ◌>>=◌, >>=-eq-ok, or_raise, or_raise-eq-ok, passed,
}
use ztna_lab.Json.{ℤ, Json, object, Fields, no_field}
use ztna_lab.Auth.{Externals}
use ztna_lab.Manifest.{
  ManifestError, ManifestVerifier, ManifestBinding, verify_envelope, require_manifest_binding,
}
use ztna_lab.Netguard.{is_resource_id}
use ztna_lab.Client.{
  ClientError, LoginResult, LabClient, Answer, new_client, parse_grant, fits, binding_of, raised,
  verified_in, bound_grant, bound_to, granted, logged_in, kept_grant, login, require_login,
  let_through, bound_envelope, kept_manifest, resources, heartbeat_grant, heartbeat_token,
  heartbeat_manifest, heartbeat_with, not_json, kept_heartbeat, heartbeat, left, logout, answered,
  invalid_grant, invalid_heartbeat, binding_mismatch,
}

-- The manifest was verified by the client's verifier, at some time, and is bound to the session.
pub record IsBound (x : Externals) (v : ManifestVerifier) (b : ManifestBinding) (m : Fields)
    : Type 0 where
  pub now : ℕ
  pub envelope : Fields
  pub verified : verify_envelope x v now (object envelope) ≡ ok m
  pub bound : require_manifest_binding m b ≡ ok tt

pub record IsLoggedIn (x : Externals) (c : LabClient) : Type 0 where
  pub session : ManifestBinding
  pub access : Text
  pub token_held : c.token ≡ some access
  pub binding_held : c.binding ≡ some session
  pub resource_held : c.resource ≡ some session.resource_id
  pub session_held : c.session_id ≡ some session.session_id
  pub device_held : c.device_id ≡ some session.device_id
  pub named : is_resource_id session.resource_id ≡ true
  pub manifest_held : IsBound x c.manifest_verifier session c.manifest

abbrev pub IsLoggedOut : LabClient → Type 0
IsLoggedOut c =
    (c.token ≡ none)
    × (c.resource ≡ none)
    × (c.session_id ≡ none)
    × (c.device_id ≡ none)
    × (c.binding ≡ none)
    × (c.manifest ≡ no_field)

abbrev pub IsClient : Externals → LabClient → Type 0
IsClient x c = IsLoggedOut c ⊎ IsLoggedIn x c

raised-eq-ok :
    {A : Type 0} (e : ClientError) (r : Result ManifestError A) (a : A)
    → raised e r ≡ ok a
    → r ≡ ok a
raised-eq-ok e (ok b) a h = cc h
raised-eq-ok e (err f) a h = cc h

let_through-eq-ok :
    {A : Type 0} (r : Result ManifestError A) (a : A) → let_through r ≡ ok a → r ≡ ok a
let_through-eq-ok (ok b) a h = cc h
let_through-eq-ok (err f) a h = cc h

bound_to-eq-ok :
    (e : ClientError) (b : ManifestBinding) (m n : Fields)
    → bound_to e b m ≡ ok n
    → (require_manifest_binding m b ≡ ok tt) × (m ≡ n)
bound_to-eq-ok e b m n h =
    let (u, done, same) = >>=-eq-ok (raised e (require_manifest_binding m b)) (λ _. ok m) h in
    (raised-eq-ok e _ tt done, cc same)

parse_grant-manifest :
    (to_int : Json → Option ℤ) (body m : Fields) (q : LoginResult)
    → parse_grant to_int body m ≡ some q
    → q.manifest ≡ m
unfolding parse_grant
parse_grant-manifest to_int body m q h = ground arith

module _ (x : Externals) (now : ℕ) (c : LabClient) where
  verified_in-eq-ok :
      (e : ClientError) (d m : Fields)
      → verified_in x c now e d ≡ ok m
      → (envelope : Fields) × (verify_envelope x c.manifest_verifier now (object envelope) ≡ ok m)
  unfolding verified_in
  verified_in-eq-ok e d m h =
      let (envelope, _, rest) =
        >>=-eq-ok (or_raise e _)
          (λ envelope. raised e (verify_envelope x c.manifest_verifier now (object envelope))) h in
      (envelope, raised-eq-ok e _ m rest)

  bound_envelope-IsBound :
      (b : ManifestBinding) (envelope m : Fields)
      → bound_envelope x now c b envelope ≡ ok m
      → IsBound x c.manifest_verifier b m
  unfolding bound_envelope
  bound_envelope-IsBound b envelope m h =
      let v = verify_envelope x c.manifest_verifier now (object envelope) in
      let (n, done, rest) = >>=-eq-ok (let_through v) (bound_to binding_mismatch b) h in
      let (held, same) = bound_to-eq-ok binding_mismatch b n m rest in
      rw (← same) (record {
        now = now;
        envelope = envelope;
        verified = let_through-eq-ok v n done;
        bound = held;
      })

  bound_grant-eq-ok :
      (device_id : Text) (q r : LoginResult)
      → bound_grant device_id c q ≡ ok r
      → (is_resource_id r.resource ≡ true)
        × (require_manifest_binding r.manifest (binding_of device_id r) ≡ ok tt)
        × (q ≡ r)
  unfolding bound_grant fits
  bound_grant-eq-ok device_id q r h =
      let (fit, rest) = passed (fits c q) _ _ h in
      let (n, bound, done) =
        >>=-eq-ok (bound_to binding_mismatch (binding_of device_id q) q.manifest) (λ _. ok q)
          rest in
      let same : q ≡ r = cc done in
      rw (← same) (
        ground arith,
        (bound_to-eq-ok binding_mismatch (binding_of device_id q) q.manifest n bound).0,
        refl,
      )

  granted-IsLoggedIn :
      (to_int : Json → Option ℤ) (device_id : Text) (body : Fields) (r : LoginResult)
      → granted x to_int now device_id c body ≡ ok r
      → IsLoggedIn x (logged_in device_id r c)
  unfolding granted
  granted-IsLoggedIn to_int device_id body r h =
      let (m, verified, h1) =
        >>=-eq-ok (verified_in x c now invalid_grant body)
          (λ manifest.
            or_raise invalid_grant (parse_grant to_int body manifest) >>= bound_grant device_id c)
          h in
      let (q, parsed, h2) =
        >>=-eq-ok (or_raise invalid_grant (parse_grant to_int body m)) (bound_grant device_id c)
          h1 in
      let (named, bound, same) = bound_grant-eq-ok device_id q r h2 in
      let (envelope, signed) = verified_in-eq-ok invalid_grant body m verified in
      let kept : q.manifest ≡ m =
        parse_grant-manifest to_int body m q (or_raise-eq-ok invalid_grant _ parsed) in
      record {
        session = binding_of device_id r;
        access = r.token;
        token_held = refl;
        binding_held = refl;
        resource_held = refl;
        session_held = refl;
        device_held = refl;
        named = named;
        manifest_held = record {
          now = now;
          envelope = envelope;
          verified = rw (← same, kept) signed;
          bound = bound;
        };
      }

  heartbeat_grant-IsBound :
      (b : ManifestBinding) (d m : Fields) (t : Text)
      → heartbeat_grant x now c b d ≡ ok (t, m)
      → IsBound x c.manifest_verifier b m
  unfolding heartbeat_grant heartbeat_manifest
  heartbeat_grant-IsBound b d m t h =
      let (u, _, h1) = >>=-eq-ok (heartbeat_token d) (heartbeat_with x now c b d) h in
      let (n, made, done) = >>=-eq-ok (heartbeat_manifest x now c b d) (λ n. ok (u, n)) h1 in
      let (o, verified, h2) =
        >>=-eq-ok (verified_in x c now invalid_heartbeat d) (bound_to invalid_heartbeat b) made in
      let (bound, same) = bound_to-eq-ok invalid_heartbeat b o n h2 in
      let (envelope, signed) = verified_in-eq-ok invalid_heartbeat d o verified in
      let last : o ≡ m = same ∙ cc done in
      record {
        now = now;
        envelope = envelope;
        verified = rw (← last) signed;
        bound = rw (← last) bound;
      }

-- A client with a binding is logged in with it.
require_login-eq-ok :
    (c : LabClient) (b : ManifestBinding) → require_login c ≡ ok b → c.binding ≡ some b
unfolding require_login
require_login-eq-ok c b h = ground arith

module _ (x : Externals) where
  relogged :
      (c : LabClient) (b : ManifestBinding) (m : Fields) (t : Option Text)
      → IsClient x c
      → c.binding ≡ some b
      → IsBound x c.manifest_verifier b m
      → ((u : Text) → c.token ≡ some u → (w : Text) × (t ≡ some w))
      → IsClient x (record c { token = t; manifest = m })
  relogged c b m t (inl out) e bound again = cc (out.4, e)
  relogged c b m t (inr in_session) e bound again =
      let same : in_session.session ≡ b = cc (in_session.binding_held, e) in
      let (w, held) = again in_session.access in_session.token_held in
      inr (record {
        session = in_session.session;
        access = w;
        token_held = held;
        binding_held = in_session.binding_held;
        resource_held = in_session.resource_held;
        session_held = in_session.session_held;
        device_held = in_session.device_held;
        named = in_session.named;
        manifest_held = rw same bound;
      })

  kept_grant-IsClient :
      (to_int : Json → Option ℤ) (now : ℕ) (device_id : Text) (c : LabClient)
      (r : Result ClientError Fields) (q : Result ClientError LoginResult)
      → (r >>= granted x to_int now device_id c) ≡ q
      → IsClient x c
      → IsClient x (kept_grant device_id c q).0
  kept_grant-IsClient to_int now device_id c r (err e) h w = w
  kept_grant-IsClient to_int now device_id c r (ok g) h w =
      let (body, _, made) = >>=-eq-ok r (granted x to_int now device_id c) h in
      inr (granted-IsLoggedIn x now c to_int device_id body g made)

  kept_manifest-IsClient :
      (now : ℕ) (c : LabClient) (a : Result ClientError Fields) (q : Result ClientError Fields)
      → (require_login c >>= λ b. a >>= bound_envelope x now c b) ≡ q
      → IsClient x c
      → IsClient x (kept_manifest c q).0
  kept_manifest-IsClient now c a (err e) h w = w
  kept_manifest-IsClient now c a (ok m) h w =
      let (b, held, h1) = >>=-eq-ok (require_login c) (λ b. a >>= bound_envelope x now c b) h in
      let (d, _, made) = >>=-eq-ok a (bound_envelope x now c b) h1 in
      relogged c b m c.token w (require_login-eq-ok c b held)
        (bound_envelope-IsBound x now c b d m made) (λ u e. (u, e))

  kept_heartbeat-IsClient :
      (now : ℕ) (c : LabClient) (a : Result ClientError Fields)
      (q : Result ClientError (Text × Fields))
      → (require_login c >>= λ b. a >>= heartbeat_grant x now c b) ≡ q
      → IsClient x c
      → IsClient x (kept_heartbeat c q).0
  kept_heartbeat-IsClient now c a (err e) h w = w
  kept_heartbeat-IsClient now c a (ok (t, m)) h w =
      let (b, held, h1) = >>=-eq-ok (require_login c) (λ b. a >>= heartbeat_grant x now c b) h in
      let (d, _, made) = >>=-eq-ok a (heartbeat_grant x now c b) h1 in
      relogged c b m (some t) w (require_login-eq-ok c b held)
        (heartbeat_grant-IsBound x now c b d m t made) (λ u e. (t, refl))

  left-IsClient :
      (c : LabClient) (q : Result ClientError (Unit {0})) → IsClient x c → IsClient x (left c q).0
  left-IsClient c (err e) w = w
  left-IsClient c (ok _) w = inl (refl, refl, refl, refl, refl, refl)

-- One call of the client, with any answer of the control plane.
pub data Call (x : Externals) (to_int : Json → Option ℤ) (c k : LabClient) : Type 0 where
  logging_in :
      (now : ℕ) (device_id : Text) (answer : Answer)
      → (login x to_int now device_id answer c).0 ≡ k
      → Call x to_int c k
  reading_resources :
      (now : ℕ) (answer : Answer) → (resources x now answer c).0 ≡ k → Call x to_int c k
  beating : (now : ℕ) (answer : Answer) → (heartbeat x now answer c).0 ≡ k → Call x to_int c k
  logging_out : (status : ℤ) → (logout status c).0 ≡ k → Call x to_int c k

pub data Calls (x : Externals) (to_int : Json → Option ℤ) (c : LabClient) : LabClient → Type 0 where
  none_yet : Calls x to_int c c
  then_call : {k l : LabClient} → Calls x to_int c k → Call x to_int k l → Calls x to_int c l

Call-IsClient :
    (x : Externals) (to_int : Json → Option ℤ) (c k : LabClient)
    → Call x to_int c k
    → IsClient x c
    → IsClient x k
unfolding login resources heartbeat logout
Call-IsClient x to_int c k (logging_in now device_id answer e) w =
    rw (← e) (kept_grant-IsClient x to_int now device_id c (answered x answer) _ refl w)
Call-IsClient x to_int c k (reading_resources now answer e) w =
    rw (← e) (kept_manifest-IsClient x now c (answered x answer) _ refl w)
Call-IsClient x to_int c k (beating now answer e) w =
    rw (← e) (kept_heartbeat-IsClient x now c (not_json (answered x answer)) _ refl w)
Call-IsClient x to_int c k (logging_out status e) w = rw (← e) (left-IsClient x c _ w)

Calls-IsClient :
    (x : Externals) (to_int : Json → Option ℤ) (c : LabClient) {k : LabClient}
    → Calls x to_int c k
    → IsClient x c
    → IsClient x k
Calls-IsClient x to_int c none_yet w = w
Calls-IsClient x to_int c (then_call s call) w =
    Call-IsClient x to_int _ _ call (Calls-IsClient x to_int c s w)

new_client-IsLoggedOut :
    (control gateway : Text × ℕ) (v : ManifestVerifier) (key : Bytes) (c : LabClient)
    → new_client control gateway v key ≡ ok c
    → IsLoggedOut c
unfolding new_client
new_client-IsLoggedOut control gateway v key c h = ground arith

-- After any calls of a new client, whatever the control plane answers, the client is logged out and
-- holds nothing, or it holds a token, and a manifest that its verifier accepted at some time and
-- that is bound to the session, the device and the resource which it holds.
pub Calls-new_client :
    (x : Externals) (to_int : Json → Option ℤ) (control gateway : Text × ℕ) (v : ManifestVerifier)
    (key : Bytes) (c k : LabClient)
    → new_client control gateway v key ≡ ok c
    → Calls x to_int c k
    → IsClient x k
Calls-new_client x to_int control gateway v key c k made s =
    Calls-IsClient x to_int c s (inl (new_client-IsLoggedOut control gateway v key c made))
