-- ===== src/Session/Invariant.antt =====
-- The invariant of the store of labztna/session.py, kept by every method: the table of sessions
-- and the leases of the address pool agree.
use mathlib.Core.Path.{subst}
use ztna_lab.Base.{
  text_key, ℕ, ◌+◌, ◌≤◌, ◌≡◌, refl, sym, ap, ◌∙◌, inl, inr, ◌⊎◌, false, Option, none, some, List,
  [], arith, if◌then◌else◌, Text, text_eq_iff, Result, ok, err, Option-cases, Bool-cases,
}
use ztna_lab.Base.Dict
use ztna_lab.Base.Dict.{
  Dict, DistinctKeys, DistinctKeys-remove, DistinctKeys-put, get-remove, get-put,
}
use ztna_lab.Ipam.{Pool, PoolError, allocate}
use ztna_lab.Ipam.Leases.{
  IsPool, release-IsPool, get-release, allocate-IsPool, get-allocate, allocate_failed,
}
use ztna_lab.Policy.{DevicePosture}
use ztna_lab.Session.{
  Session, SessionStore, init, is_over, reclaimed_ids, scavenge, new_session, create, create_with,
  drop_session, get_active, get_active_found, heartbeat, heartbeat_found, renewed, revoke,
}
use ztna_lab.Session.Sweep.{
  swept_entry, get-sweep, DistinctKeys-sweep, contains-reclaimed_ids, release_all-IsPool,
  get-release_all,
}

abbrev pub address_of : Option Session → Option ℕ
address_of none = none
address_of (some s) = some s.virtual_ip

-- A session of the table under the key `k`, where `n` generations have been given out.
pub record IsEntry (n : ℕ) (k : Text) (s : Session) : Type 0 where
  pub named : s.session_id ≡ k
  pub unrevoked : s.revoked ≡ false
  pub generation_pos : 1 ≤ s.lease_generation
  pub generation_le : s.lease_generation ≤ n
  pub bounded : s.expires_at ≤ s.absolute_expires_at

-- `all` are the addresses that the pool was made with.
pub record IsStore (all : List ℕ) (st : SessionStore) : Type 0 where
  pub pool : IsPool all st.ip_pool
  pub keyed : DistinctKeys st.sessions
  -- A session holds the lease of its address, and nothing else holds a lease.
  pub leases : (k : Text) → Dict.get k st.ip_pool.allocated ≡ address_of (Dict.get k st.sessions)
  pub entries :
      (k : Text) (s : Session) → Dict.get k st.sessions ≡ some s → IsEntry st.lease_generation k s
  -- No two sessions of the table have one generation.
  pub generations :
      (j k : Text) (s t : Session)
      → Dict.get j st.sessions ≡ some s
      → Dict.get k st.sessions ≡ some t
      → s.lease_generation ≡ t.lease_generation
      → j ≡ k
  pub ttl_le : st.ttl_seconds ≤ st.absolute_ttl_seconds

IsEntry-mono : (m n : ℕ) (k : Text) (s : Session) → m ≤ n → IsEntry m k s → IsEntry n k s
IsEntry-mono m n k s h e = record {
  named = e.named;
  unrevoked = e.unrevoked;
  generation_pos = e.generation_pos;
  generation_le = omega arith;
  bounded = e.bounded;
}

-- A store whose table is a part of an earlier table keeps the invariant, if its leases agree.
shrink-IsStore :
    (all : List ℕ) (st st' : SessionStore)
    → IsStore all st
    → IsPool all st'.ip_pool
    → DistinctKeys st'.sessions
    → ((k : Text) → Dict.get k st'.ip_pool.allocated ≡ address_of (Dict.get k st'.sessions))
    → ((k : Text) (s : Session)
        → Dict.get k st'.sessions ≡ some s
        → Dict.get k st.sessions ≡ some s)
    → st'.lease_generation ≡ st.lease_generation
    → st'.ttl_seconds ≡ st.ttl_seconds
    → st'.absolute_ttl_seconds ≡ st.absolute_ttl_seconds
    → IsStore all st'
shrink-IsStore all st st' h pool keyed leases part gen ttl absolute = record {
  pool = pool;
  keyed = keyed;
  leases = leases;
  entries = λ k s g.
      IsEntry-mono st.lease_generation st'.lease_generation k s (omega arith)
        (h.entries k s (part k s g));
  generations = λ j k s t gj gk. h.generations j k s t (part j s gj) (part k t gk);
  ttl_le = omega arith;
}

pub drop_session-IsStore :
    (all : List ℕ) (k : Text) (st : SessionStore) → IsStore all st → IsStore all (drop_session k st)
unfolding drop_session
drop_session-IsStore all k st h =
    shrink-IsStore all st (drop_session k st) h (release-IsPool all k st.ip_pool h.pool)
      (DistinctKeys-remove k st.sessions h.keyed)
      (λ j. ground (arith, get-release k j st.ip_pool, get-remove k j st.sessions, h.leases j))
      (λ j s g. ground (arith, get-remove k j st.sessions)) refl refl refl

pub get-scavenge :
    (now : ℕ) (k : Text) (st : SessionStore)
    → DistinctKeys st.sessions
    → Dict.get k (scavenge now st).0.sessions
      ≡ swept_entry st.idle_seconds now (Dict.get k st.sessions) (Dict.get k st.sessions)
unfolding scavenge
get-scavenge now k st h = get-sweep st.idle_seconds now k st.sessions st.sessions h

scavenge_leases :
    (all : List ℕ) (now : ℕ) (k : Text) (st : SessionStore)
    → IsStore all st
    → Dict.get k (scavenge now st).0.ip_pool.allocated
      ≡ address_of (Dict.get k (scavenge now st).0.sessions)
unfolding scavenge
scavenge_leases all now k st h =
    let idle = st.idle_seconds in
    let ids = reclaimed_ids idle now st.sessions in
    let pool_entry = get-release_all k ids st.ip_pool in
    let reclaimed = contains-reclaimed_ids idle now k st.sessions h.keyed in
    let table = get-sweep idle now k st.sessions st.sessions h.keyed in
    elim (Option-cases (Dict.get k st.sessions)) [
      | inl free ↦ ground (arith, pool_entry, reclaimed, table, h.leases k)
      | inr (s, held) ↦
          let live = (h.entries k s held).unrevoked in
          ground (arith, pool_entry, reclaimed, table, h.leases k)
    ]

pub scavenge-IsStore :
    (all : List ℕ) (now : ℕ) (st : SessionStore) → IsStore all st → IsStore all (scavenge now st).0
unfolding scavenge
scavenge-IsStore all now st h =
    let idle = st.idle_seconds in
    shrink-IsStore all st (scavenge now st).0 h
      (release_all-IsPool all (reclaimed_ids idle now st.sessions) st.ip_pool h.pool)
      (DistinctKeys-sweep idle now st.sessions st.sessions h.keyed)
      (λ k. scavenge_leases all now k st h)
      (λ k s g. ground (arith, get-sweep idle now k st.sessions st.sessions h.keyed)) refl refl refl

put_cases :
    (k j : Text) (s' s : Session) (m : Dict Text Session)
    → Dict.get j (Dict.put k s' m) ≡ some s
    → ((k ≡ j) × (s' ≡ s)) ⊎ (Dict.get j m ≡ some s)
put_cases k j s' s m g = elim (Bool-cases (text_key.beq k j)) [
  | inl here ↦ inl (ground (arith, text_eq_iff k j), ground (arith, get-put k j s' m))
  | inr other ↦ inr (ground (arith, get-put k j s' m))
]

generations_cases :
    (all : List ℕ) (st : SessionStore)
    → IsStore all st
    → (k i j : Text) (s' s t : Session) → ((k ≡ i) × (s' ≡ s)) ⊎ (Dict.get i st.sessions ≡ some s)
    → ((k ≡ j) × (s' ≡ t)) ⊎ (Dict.get j st.sessions ≡ some t)
    → s.lease_generation ≡ t.lease_generation
    → s'.lease_generation ≡ st.lease_generation + 1
    → i ≡ j
generations_cases all st h k i j s' s t (inl (p, a)) (inl (q, b)) e n = sym p ∙ q
generations_cases all st h k i j s' s t (inl (p, a)) (inr b) e n =
    let le = (h.entries j t b).generation_le in
    absurd (omega (arith, ap (λ (x : Session). x.lease_generation) a))
generations_cases all st h k i j s' s t (inr a) (inl (q, b)) e n =
    let le = (h.entries i s a).generation_le in
    absurd (omega (arith, ap (λ (x : Session). x.lease_generation) b))
generations_cases all st h k i j s' s t (inr a) (inr b) e n = h.generations i j s t a b e

-- Entering a session of a new generation, with its lease, keeps the invariant.
enter-IsStore :
    (all : List ℕ) (now : ℕ) (subject : Text) (posture : DevicePosture) (k : Text)
    (st : SessionStore) (p : Pool) (a : ℕ)
    → IsStore all st
    → IsPool all p
    → ((j : Text)
        → Dict.get j p.allocated
          ≡ (if text_key.beq k j then some a else Dict.get j st.ip_pool.allocated))
    → IsStore all (create_with now subject posture k st (p, ok a)).0
unfolding create_with
enter-IsStore all now subject posture k st p a h pool leased =
    let s' = new_session now subject posture k a st in
    record {
      pool = pool;
      keyed = DistinctKeys-put k s' st.sessions h.keyed;
      leases = λ j. ground (arith, leased j, get-put k j s' st.sessions, h.leases j);
      entries = λ j s g. elim (Bool-cases (text_key.beq k j)) [
        | inl here ↦
            let same : s' ≡ s = ground (arith, get-put k j s' st.sessions) in
            let key : k ≡ j = ground (arith, text_eq_iff k j) in
            let fits = h.ttl_le in
            subst (IsEntry (st.lease_generation + 1) j) same (record {
              named = key;
              unrevoked = refl;
              generation_pos = omega arith;
              generation_le = omega arith;
              bounded = omega arith;
            })
        | inr other ↦
            let old : Dict.get j st.sessions ≡ some s =
              ground (arith, get-put k j s' st.sessions) in
            IsEntry-mono st.lease_generation (st.lease_generation + 1) j s (omega arith)
              (h.entries j s old)
      ];
      generations = λ i j s t gi gj e.
          let ci = put_cases k i s' s st.sessions gi in
          let cj = put_cases k j s' t st.sessions gj in
          generations_cases all st h k i j s' s t ci cj e refl;
      ttl_le = h.ttl_le;
    }

create_with-IsStore :
    (all : List ℕ) (now : ℕ) (subject : Text) (posture : DevicePosture) (k : Text)
    (st : SessionStore) (p : Pool) (r : Result PoolError ℕ)
    → IsStore all st
    → allocate k st.ip_pool ≡ (p, r)
    → IsStore all (create_with now subject posture k st (p, r)).0
create_with-IsStore all now subject posture k st p (ok a) h e =
    let pool : IsPool all p =
      subst (IsPool all) (ap (λ (x : Pool × Result PoolError ℕ). x.0) e)
        (allocate-IsPool all k st.ip_pool h.pool) in
    enter-IsStore all now subject posture k st p a h pool (λ j. get-allocate k j st.ip_pool p a e)
create_with-IsStore all now subject posture k st p (err x) h e =
    let same : p ≡ st.ip_pool = allocate_failed k st.ip_pool p x e in
    unfold create_with in
    shrink-IsStore all st (record st { ip_pool = p }) h (rw same h.pool) h.keyed
      (λ j. rw same (h.leases j)) (λ j s g. g) refl refl refl

pub create-IsStore :
    (all : List ℕ) (swept now : ℕ) (subject : Text) (posture : DevicePosture) (k : Text)
    (st : SessionStore)
    → IsStore all st
    → IsStore all (create swept now subject posture k st).0
unfolding create
create-IsStore all swept now subject posture k st h =
    let st' = (scavenge swept st).0 in
    let made = allocate k st'.ip_pool in
    create_with-IsStore all now subject posture k st' made.0 made.1
      (scavenge-IsStore all swept st h) refl

written_generation :
    (k j : Text) (s s' t : Session) (m : Dict Text Session)
    → Dict.get k m ≡ some s
    → s'.lease_generation ≡ s.lease_generation
    → Dict.get j (Dict.put k s' m) ≡ some t
    → (y : Session) × (Dict.get j m ≡ some y) × (y.lease_generation ≡ t.lease_generation)
written_generation k j s s' t m g e gj = elim (put_cases k j s' t m gj) [
  | inl (key, same) ↦
      (s, ground arith, omega (arith, ap (λ (x : Session). x.lease_generation) same))
  | inr old ↦ (t, old, refl)
]

-- Writing a session back with a new time and no later end keeps the invariant.
renewed-IsStore :
    (all : List ℕ) (now : ℕ) (k : Text) (s : Session) (st : SessionStore)
    → IsStore all st
    → Dict.get k st.sessions ≡ some s
    → IsStore all (record st { sessions = Dict.put k (renewed now st.ttl_seconds s) st.sessions })
renewed-IsStore all now k s st h g =
    let s' = renewed now st.ttl_seconds s in
    let e = h.entries k s g in
    record {
      pool = h.pool;
      keyed = DistinctKeys-put k s' st.sessions h.keyed;
      leases = λ j. ground (arith, get-put k j s' st.sessions, h.leases j, text_eq_iff k j);
      entries = λ j t gj. elim (put_cases k j s' t st.sessions gj) [
        | inl (key, same) ↦ subst (IsEntry st.lease_generation j) same (record {
          named = e.named ∙ key;
          unrevoked = e.unrevoked;
          generation_pos = e.generation_pos;
          generation_le = e.generation_le;
          bounded = omega arith;
        })
        | inr old ↦ h.entries j t old
      ];
      generations = λ i j t u gi gj same.
          let old =
            λ (x : Text) (y : Session) (gx : Dict.get x (Dict.put k s' st.sessions) ≡ some y).
              written_generation k x s s' y st.sessions g refl gx in
          let (y, gy, ey) = old i t gi in
          let (z, gz, ez) = old j u gj in h.generations i j y z gy gz (omega arith);
      ttl_le = h.ttl_le;
    }

found_active-IsStore :
    (all : List ℕ) (now : ℕ) (k : Text) (st : SessionStore) (o : Option Session)
    → IsStore all st
    → IsStore all (get_active_found now k st o).0
unfolding get_active_found
found_active-IsStore all now k st none h = h
found_active-IsStore all now k st (some s) h = elim (Bool-cases (is_over st.idle_seconds now s)) [
  | inl over ↦ rw over (drop_session-IsStore all k st h)
  | inr live ↦ rw live h
]

pub get_active-IsStore :
    (all : List ℕ) (now : ℕ) (k : Text) (st : SessionStore)
    → IsStore all st
    → IsStore all (get_active now k st).0
unfolding get_active
get_active-IsStore all now k st h = found_active-IsStore all now k st (Dict.get k st.sessions) h

found_heartbeat-IsStore :
    (all : List ℕ) (now : ℕ) (k : Text) (st : SessionStore) (o : Option Session)
    → IsStore all st
    → Dict.get k st.sessions ≡ o
    → IsStore all (heartbeat_found now k st o).0
unfolding heartbeat_found
found_heartbeat-IsStore all now k st none h g = h
found_heartbeat-IsStore all now k st (some s) h g =
    elim (Bool-cases (is_over st.idle_seconds now s)) [
      | inl over ↦ rw over (drop_session-IsStore all k st h)
      | inr live ↦ rw live (renewed-IsStore all now k s st h g)
    ]

pub heartbeat-IsStore :
    (all : List ℕ) (now : ℕ) (k : Text) (st : SessionStore)
    → IsStore all st
    → IsStore all (heartbeat now k st).0
unfolding heartbeat
heartbeat-IsStore all now k st h =
    found_heartbeat-IsStore all now k st (Dict.get k st.sessions) h refl

pub revoke-IsStore :
    (all : List ℕ) (k : Text) (st : SessionStore) → IsStore all st → IsStore all (revoke k st).0
unfolding revoke
revoke-IsStore all k st h = elim (Option-cases (Dict.get k st.sessions)) [
  | inl free ↦ rw (free, revoke) h
  | inr (s, held) ↦ rw (held, revoke) (drop_session-IsStore all k st h)
]

-- A store that was just made over a pool without leases has the invariant.
pub init-IsStore :
    (all : List ℕ) (p : Pool) (ttl absolute idle : ℕ) (st : SessionStore)
    → IsPool all p
    → p.allocated ≡ []
    → init p ttl absolute idle ≡ ok st
    → IsStore all st
unfolding init Dict.get
init-IsStore all p ttl absolute idle st pool empty e =
    let fresh : (st.sessions ≡ []) × (st.ip_pool ≡ p) × (st.ttl_seconds ≤ st.absolute_ttl_seconds) =
      ground arith in
    record {
      pool = rw fresh.1 pool;
      keyed = rw fresh.0 tt;
      leases = λ k. ground (arith, fresh.0, fresh.1, empty);
      entries = λ k s g. cc (g, fresh.0);
      generations = λ j k s t gj gk same. cc (gj, fresh.0);
      ttl_le = fresh.2;
    }
