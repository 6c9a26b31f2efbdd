-- ===== src/Gateway/Access.antt =====
-- What a connection that labztna/gateway.py accepts has proved.
use ztna_lab.Base.{
  text_key, pair_key, ℕ, ◌≤◌, ◌≡◌, refl, ap, sym, ◌∙◌, Bool, true, false, Option, none, some, List,
  [], ◌∷◌, ◌++◌, arith, contains, Text, codes, text_eq_iff, Result, ok, err,
}
use mathlib.Core.Path.{subst}
use ztna_lab.Base.Dict
use ztna_lab.Json.Inversion.{is_text-eq}
use ztna_lab.Json.{text, Fields, lookup, as_text, is_int, distance}
use ztna_lab.Auth.{Externals, verify}
use ztna_lab.Policy.{ResourceDefinition, decide}
use ztna_lab.Policy.Decisions.{IsAllowed, decide-IsAllowed}
use ztna_lab.Session.{Session, SessionStore}
use ztna_lab.Session.Expiry.{IsCurrent, get_active-IsCurrent}
use ztna_lab.Replay.{Key, ReplayGuard, max_replay_ids, consume_request_id}
use ztna_lab.Replay.Window.{Tracks, keep_last, consume_accepted, consume_new, consume_unused}
use ztna_lab.Gateway.Proof.{IsProof, proof_holds-IsProof}
use ztna_lab.Gateway.{
  Gateway, Hello, Grant, Refusal, check_session, active_session, admit, first_use, with_session,
  with_claims, claims_of, connect, dotted,
}

-- The claims bind the token to the session as it is now: its subject, device, key and lease, and
-- the manifest of the gateway; the proof is fresh, and signed with the key of the session.
pub record IsBound (x : Externals) (manifest_hash : Text) (manifest_version now : ℕ)
    (claims : Fields) (h : Hello) (s : Session) : Type 0 where
  pub subject : lookup (codes "sub") claims ≡ some (text s.subject)
  pub manifest : lookup (codes "manifest_hash") claims ≡ some (text manifest_hash)
  pub version : is_int manifest_version (lookup (codes "manifest_version") claims) ≡ true
  pub claimed_device : lookup (codes "device_id") claims ≡ some (text s.posture.device_id)
  pub same_device : h.device_id ≡ s.posture.device_id
  pub key :
      lookup (codes "device_key_hash") claims ≡ some (text (x.sha256_hex s.posture.public_key))
  pub address : lookup (codes "virtual_ip") claims ≡ some (text (dotted s.virtual_ip))
  pub generation : is_int s.lease_generation (lookup (codes "lease_generation") claims) ≡ true
  pub fresh : distance now h.timestamp ≤ 30
  pub proof : IsProof x h s

check_session-IsBound :
    (x : Externals) (g : Gateway) (now : ℕ) (claims : Fields) (h : Hello) (s : Session)
    → check_session x g now claims h s ≡ ok tt
    → IsBound x g.manifest_hash g.manifest_version now claims h s
unfolding check_session
check_session-IsBound x g now claims h s e = record {
  subject = is_text-eq s.subject (lookup (codes "sub") claims) (ground arith);
  manifest = is_text-eq g.manifest_hash (lookup (codes "manifest_hash") claims) (ground arith);
  version = ground arith;
  claimed_device =
      is_text-eq s.posture.device_id (lookup (codes "device_id") claims) (ground arith);
  same_device = ground (arith, text_eq_iff h.device_id s.posture.device_id);
  key =
      is_text-eq (x.sha256_hex s.posture.public_key) (lookup (codes "device_key_hash") claims)
        (ground arith);
  address = is_text-eq (dotted s.virtual_ip) (lookup (codes "virtual_ip") claims) (ground arith);
  generation = ground arith;
  fresh = ground arith;
  proof = proof_holds-IsProof x h s (ground arith);
}

first_use_granted :
    (g : Gateway) (h : Hello) (definition : ResourceDefinition) (s : Session) (grant : Grant)
    (p : ReplayGuard × Bool)
    → (first_use g h definition s p).1 ≡ ok grant
    → (p.1 ≡ true)
      × ((decide g.registry s.subject h.resource (codes "read") s.posture).allowed ≡ true)
      × (record { session = s; definition = definition; hello = h } ≡ grant)
first_use_granted g h definition s grant (guard, false) e = cc e
first_use_granted g h definition s grant (guard, true) e = ground (arith, e)

admit_granted :
    (g : Gateway) (h : Hello) (definition : ResourceDefinition) (s : Session) (grant : Grant)
    (checked : Result Refusal (Unit {0}))
    → (admit g h definition s checked).1 ≡ ok grant
    → (checked ≡ ok tt)
      × ((consume_request_id s.session_id h.request_id g.replay).1 ≡ true)
      × ((decide g.registry s.subject h.resource (codes "read") s.posture).allowed ≡ true)
      × (record { session = s; definition = definition; hello = h } ≡ grant)
admit_granted g h definition s grant (err r) e = cc e
admit_granted g h definition s grant (ok _) e =
    let (unused, permitted, same) =
      first_use_granted g h definition s grant
        (consume_request_id s.session_id h.request_id g.replay) e in
    (refl, unused, permitted, same)

-- What `connect` has checked before it grants a connection.
pub record IsGranted (x : Externals) (g : Gateway) (verified seen now : ℕ) (h : Hello)
    (grant : Grant) : Type 0 where
  pub claims : Fields
  pub session_id : Text
  pub token : verify x g.signer h.token (some h.resource) verified ≡ ok claims
  pub sid : as_text (lookup (codes "sid") claims) ≡ some session_id
  pub held : Dict.get session_id g.sessions.sessions ≡ some grant.session
  pub current : IsCurrent g.sessions.idle_seconds seen grant.session
  pub bound : IsBound x g.manifest_hash g.manifest_version now claims h grant.session
  pub unused : contains (grant.session.session_id, h.request_id) g.replay.replay_ids ≡ false
  pub registered : Dict.get h.resource g.registry ≡ some grant.definition
  pub allowed :
      IsAllowed g.registry grant.session.subject h.resource (codes "read") grant.session.posture
  pub same_hello : grant.hello ≡ h

with_session_granted :
    (x : Externals) (now : ℕ) (claims : Fields) (h : Hello) (definition : Option ResourceDefinition)
    (found : Option Session) (g : Gateway) (grant : Grant)
    → (with_session x now claims h definition found g).1 ≡ ok grant
    → (definition ≡ some grant.definition)
      × (found ≡ some grant.session)
      × (grant.hello ≡ h)
      × IsBound x g.manifest_hash g.manifest_version now claims h grant.session
      × ((consume_request_id grant.session.session_id h.request_id g.replay).1 ≡ true)
      × ((decide g.registry grant.session.subject h.resource
            (codes "read")
            grant.session.posture).allowed
          ≡ true)
with_session_granted x now claims h none found g grant e = cc e
with_session_granted x now claims h (some definition) none g grant e = cc e
with_session_granted x now claims h (some definition) (some s) g grant e =
    let (checked, unused, permitted, same) =
      admit_granted g h definition s grant (check_session x g now claims h s) e in
    let s_same : s ≡ grant.session = ap (λ (r : Grant). r.session) same in
    (
      ap (λ (r : Grant). some r.definition) same,
      ap some s_same,
      ap (λ (r : Grant). r.hello) (sym same),
      subst (λ (t : Session). IsBound x g.manifest_hash g.manifest_version now claims h t) s_same
          (check_session-IsBound x g now claims h s checked),
      subst (λ (t : Session). (consume_request_id t.session_id h.request_id g.replay).1 ≡ true)
          s_same unused,
      subst
          (λ (t : Session).
            (decide g.registry t.subject h.resource (codes "read") t.posture).allowed ≡ true)
          s_same permitted,
    )

active_session_found :
    (seen : ℕ) (sid : Option Text) (st : SessionStore) (s : Session)
    → (active_session seen sid st).1 ≡ some s
    → (session_id : Text) × (sid ≡ some session_id)
      × (Dict.get session_id st.sessions ≡ some s)
      × IsCurrent st.idle_seconds seen s
unfolding active_session
active_session_found seen none st s e = cc e
active_session_found seen (some k) st s e =
    let (held, current) = (get_active-IsCurrent seen k st s).0 e in (k, refl, held, current)

claims_of-verify :
    (x : Externals) (g : Gateway) (h : Hello) (verified : ℕ) (claims : Fields)
    → claims_of x g h verified ≡ ok claims
    → verify x g.signer h.token (some h.resource) verified ≡ ok claims
unfolding claims_of
claims_of-verify x g h verified claims e = ground arith

with_claims-IsGranted :
    (x : Externals) (verified seen now : ℕ) (h : Hello) (g : Gateway) (grant : Grant)
    (claimed : Result Refusal Fields)
    → claims_of x g h verified ≡ claimed
    → (with_claims x seen now h g claimed).1 ≡ ok grant
    → IsGranted x g verified seen now h grant
unfolding consume_request_id
with_claims-IsGranted x verified seen now h g grant (err r) c e = cc e
with_claims-IsGranted x verified seen now h g grant (ok claims) c e =
    let sid = as_text (lookup (codes "sid") claims) in
    let found = active_session seen sid g.sessions in
    let (registered, active, same_hello, bound, unused, permitted) =
      with_session_granted x now claims h (Dict.get h.resource g.registry) found.1
        (record g { sessions = found.0 }) grant e in
    let (session_id, named, held, current) =
      active_session_found seen sid g.sessions grant.session active in
    record {
      claims = claims;
      session_id = session_id;
      token = claims_of-verify x g h verified claims c;
      sid = named;
      held = held;
      current = current;
      bound = bound;
      unused =
          consume_unused max_replay_ids (grant.session.session_id, h.request_id) g.replay unused;
      registered = registered;
      allowed =
          (decide-IsAllowed g.registry grant.session.subject h.resource (codes "read")
              grant.session.posture).0
            permitted;
      same_hello = same_hello;
    }

pub connect_checked :
    (x : Externals) (verified seen now : ℕ) (h : Hello) (g : Gateway) (grant : Grant)
    → (connect x verified seen now h g).1 ≡ ok grant
    → IsGranted x g verified seen now h grant
unfolding connect
connect_checked x verified seen now h g grant e =
    with_claims-IsGranted x verified seen now h g grant (claims_of x g h verified) refl e

-- Whatever grants a connection has taken up its request id.
replay-first_use :
    (g : Gateway) (h : Hello) (definition : ResourceDefinition) (s : Session)
    (p : ReplayGuard × Bool)
    → (first_use g h definition s p).0.replay ≡ p.0
replay-first_use g h definition s (guard, true) = refl
replay-first_use g h definition s (guard, false) = refl

replay-with_session :
    (x : Externals) (now : ℕ) (claims : Fields) (h : Hello) (definition : Option ResourceDefinition)
    (found : Option Session) (g : Gateway) (grant : Grant)
    → (with_session x now claims h definition found g).1 ≡ ok grant
    → (with_session x now claims h definition found g).0.replay
      ≡ (consume_request_id grant.session.session_id h.request_id g.replay).0
replay-with_session x now claims h none found g grant e = cc e
replay-with_session x now claims h (some definition) none g grant e = cc e
replay-with_session x now claims h (some definition) (some s) g grant e =
    let (checked, _, _, same) =
      admit_granted g h definition s grant (check_session x g now claims h s) e in
    ap (λ (c : Result Refusal (Unit {0})). (admit g h definition s c).0.replay) checked
    ∙ replay-first_use g h definition s (consume_request_id s.session_id h.request_id g.replay)
    ∙ ap (λ (r : Grant). (consume_request_id r.session.session_id h.request_id g.replay).0) same

replay-with_claims :
    (x : Externals) (seen now : ℕ) (h : Hello) (g : Gateway) (grant : Grant)
    (claimed : Result Refusal Fields)
    → (with_claims x seen now h g claimed).1 ≡ ok grant
    → (with_claims x seen now h g claimed).0.replay
      ≡ (consume_request_id grant.session.session_id h.request_id g.replay).0
replay-with_claims x seen now h g grant (err r) e = cc e
replay-with_claims x seen now h g grant (ok claims) e =
    let found = active_session seen (as_text (lookup (codes "sid") claims)) g.sessions in
    replay-with_session x now claims h (Dict.get h.resource g.registry) found.1
      (record g { sessions = found.0 }) grant e

replay-connect :
    (x : Externals) (verified seen now : ℕ) (h : Hello) (g : Gateway) (grant : Grant)
    → (connect x verified seen now h g).1 ≡ ok grant
    → (connect x verified seen now h g).0.replay
      ≡ (consume_request_id grant.session.session_id h.request_id g.replay).0
unfolding connect
replay-connect x verified seen now h g grant e =
    replay-with_claims x seen now h g grant (claims_of x g h verified) e

-- A connection is granted only if the token verifies for the resource, its session is held and
-- current, the claims agree with the session and the gateway's manifest, the proof is at most 30
-- seconds old or early and decodes to a signature by the device's key over the handshake, and the
-- policy allows the request; where the replay guard follows a history of accepted request ids, the
-- session's request id is none of the last 4,096, and afterwards the guard follows the history
-- with it at the end.
pub connect-IsGranted :
    (x : Externals) (verified seen now : ℕ) (h : Hello) (g : Gateway) (grant : Grant)
    (history : List Key)
    → Tracks 4096 history g.replay
    → (connect x verified seen now h g).1 ≡ ok grant
    → IsGranted x g verified seen now h grant
      × (contains (grant.session.session_id, h.request_id) (keep_last 4096 history) ≡ false)
      × Tracks 4096
          (history ++ (grant.session.session_id, h.request_id) ∷ [])
          (connect x verified seen now h g).0.replay
unfolding consume_request_id
connect-IsGranted x verified seen now h g grant history follows e =
    let granted = connect_checked x verified seen now h g grant e in
    let k : Key = (grant.session.session_id, h.request_id) in
    let (new, longer) =
      consume_accepted 4096 history k g.replay follows
        (consume_new 4096 k g.replay granted.unused) in
    (
      granted,
      new,
      subst (Tracks 4096 (history ++ k ∷ [])) (sym (replay-connect x verified seen now h g grant e))
          longer,
    )
