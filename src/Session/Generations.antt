-- ===== src/Session/Generations.antt =====
-- The lease generations that the store of labztna/session.py gives out.
use ztna_lab.Base.{
  text_key, ℕ, ◌+◌, ◌<◌, ◌≡◌, ◌⊎◌, inl, inr, refl, Option, none, some, List, [], ◌∷◌, ◌++◌, arith,
  Text, Result, ok, err, Option-cases,
}
use ztna_lab.Base.Dict
use ztna_lab.Ipam.{Pool, PoolError, allocate}
use ztna_lab.Policy.{DevicePosture}
use ztna_lab.Session.{
  Session, SessionStore, scavenge, create, create_with, drop_session, get_active, get_active_found,
  heartbeat, heartbeat_found, revoke,
}
use ztna_lab.Session.Calls.{Call, creates, gets, beats, revokes, sweeps, perform}

abbrev pub generation_of : Result PoolError Session → List ℕ
generation_of (ok s) = s.lease_generation ∷ []
generation_of (err e) = []

-- The generation of the session that a call creates, if it creates one.
unfoldable pub given_by : Call → SessionStore → List ℕ
given_by (creates swept now subject posture id) st =
    generation_of (create swept now subject posture id st).1
given_by (gets now id) st = []
given_by (beats now id) st = []
given_by (revokes id) st = []
given_by (sweeps now) st = []

-- The generations of all sessions that calls create, in their order.
unfoldable pub generations_given : List Call → SessionStore → List ℕ
generations_given [] st = []
generations_given (c ∷ cs) st = given_by c st ++ generations_given cs (perform c st)

-- Each number is greater than the one before, and the first is greater than `n`.
abbrev pub Increasing : ℕ → List ℕ → Type 0
Increasing n [] = Unit {0}
Increasing n (m ∷ ms) = (n < m) × Increasing m ms

-- The call gives out nothing, or the next generation.
Counts : ℕ → SessionStore → List ℕ → Type 0
Counts n st gs =
    ((gs ≡ []) × (st.lease_generation ≡ n)) ⊎ ((gs ≡ (n + 1) ∷ []) × (st.lease_generation ≡ n + 1))

scavenge_generation :
    (now : ℕ) (st : SessionStore) → (scavenge now st).0.lease_generation ≡ st.lease_generation
unfolding scavenge
scavenge_generation now st = refl

create_with-Counts :
    (now : ℕ) (subject : Text) (posture : DevicePosture) (id : Text) (st : SessionStore)
    (p : Pool × Result PoolError ℕ)
    → Counts st.lease_generation
        (create_with now subject posture id st p).0
        (generation_of (create_with now subject posture id st p).1)
unfolding create_with Counts
create_with-Counts now subject posture id st (p, ok a) = inr (refl, refl)
create_with-Counts now subject posture id st (p, err e) = inl (refl, refl)

get_active_generation :
    (now : ℕ) (id : Text) (st : SessionStore) (o : Option Session)
    → (get_active_found now id st o).0.lease_generation ≡ st.lease_generation
unfolding get_active_found drop_session
get_active_generation now id st none = refl
get_active_generation now id st (some s) = ground arith

heartbeat_generation :
    (now : ℕ) (id : Text) (st : SessionStore) (o : Option Session)
    → (heartbeat_found now id st o).0.lease_generation ≡ st.lease_generation
unfolding heartbeat_found drop_session
heartbeat_generation now id st none = refl
heartbeat_generation now id st (some s) = ground arith

revoke_generation :
    (id : Text) (st : SessionStore) → (revoke id st).0.lease_generation ≡ st.lease_generation
unfolding revoke drop_session
revoke_generation id st = elim (Option-cases (Dict.get id st.sessions)) [
  | inl free ↦ rw (free, revoke) refl
  | inr (s, held) ↦ rw (held, revoke) refl
]

perform-Counts :
    (c : Call) (st : SessionStore) → Counts st.lease_generation (perform c st) (given_by c st)
unfolding perform given_by create get_active heartbeat Counts scavenge
perform-Counts (creates swept now subject posture id) st =
    let st' = (scavenge swept st).0 in
    create_with-Counts now subject posture id st' (allocate id st'.ip_pool)
perform-Counts (gets now id) st =
    inl (refl, get_active_generation now id st (Dict.get id st.sessions))
perform-Counts (beats now id) st =
    inl (refl, heartbeat_generation now id st (Dict.get id st.sessions))
perform-Counts (revokes id) st = inl (refl, revoke_generation id st)
perform-Counts (sweeps now) st = inl (refl, scavenge_generation now st)

Counts-Increasing :
    (n : ℕ) (st : SessionStore) (gs rest : List ℕ)
    → Counts n st gs
    → Increasing st.lease_generation rest
    → Increasing n (gs ++ rest)
unfolding Counts
Counts-Increasing n st gs rest (inl (none_given, same)) h = rw (none_given, ← same) h
Counts-Increasing n st gs rest (inr (given, next)) h = rw given (omega arith, rw (← next) h)

-- The generations that calls give out increase, from the one that the store gave out last.
pub generations_given-Increasing :
    (cs : List Call) (st : SessionStore) → Increasing st.lease_generation (generations_given cs st)
unfolding generations_given
generations_given-Increasing [] st = tt
generations_given-Increasing (c ∷ cs) st =
    Counts-Increasing st.lease_generation (perform c st) (given_by c st)
      (generations_given cs (perform c st)) (perform-Counts c st)
      (generations_given-Increasing cs (perform c st))
