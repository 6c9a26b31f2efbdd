-- ===== src/Session/Ended.antt =====
-- A session that has left the table of labztna/session.py does not come back.
use ztna_lab.Base.{
  text_key, ℕ, ◌≡◌, ◌≢◌, refl, Bool, true, false, Option, none, some, List, [], ◌∷◌, arith, All,
  contains, ◌⊎◌, if◌then◌else◌, Text, text_eq_iff, Result, ok, err, Option-cases, Bool-cases, inl,
  inr,
}
use ztna_lab.Base.Dict
use ztna_lab.Base.Dict.{Dict, get-put, get-remove, get-remove_self}
use ztna_lab.Ipam.{Pool, PoolError, allocate}
use ztna_lab.Policy.{DevicePosture}
use ztna_lab.Session.{
  Session, SessionStore, is_over, is_live, sweep, scavenge, create, create_with, new_session,
  reread, drop_session, get_active, get_active_found, heartbeat, heartbeat_found, renewed, revoke,
}
use ztna_lab.Session.Calls.{Call, creates, gets, beats, revokes, sweeps, perform, perform_all}

-- The ids under which calls create sessions.
abbrev pub created_ids : List Call → List Text
created_ids [] = []
created_ids (creates swept now subject posture id ∷ cs) = id ∷ created_ids cs
created_ids (_ ∷ cs) = created_ids cs

-- No session is created under the id.
abbrev CreatesOther : Text → Call → Type 0
CreatesOther k (creates swept now subject posture id) = id ≢ k
CreatesOther k _ = Unit {0}

module _ (k : Text) where
  abbrev Absent : SessionStore → Type 0
  Absent st = Dict.get k st.sessions ≡ none

  remove_absent :
      (j : Text) (m : Dict Text Session) → Dict.get k m ≡ none → Dict.get k (Dict.remove j m) ≡ none
  remove_absent j m h = ground (arith, get-remove j k m)

  sweep_absent :
      (idle now : ℕ) (items m : Dict Text Session)
      → Dict.get k m ≡ none
      → Dict.get k (sweep idle now items m) ≡ none
  unfolding sweep
  sweep_absent idle now [] m h = h
  sweep_absent idle now ((j, s) ∷ items) m h =
      sweep_absent idle now items (if is_live idle now s then m else Dict.remove j m)
        (kept (is_live idle now s))
    where
      kept : (b : Bool) → Dict.get k (if b then m else Dict.remove j m) ≡ none
      kept true = h
      kept false = remove_absent j m h

  drop-Absent : (j : Text) (st : SessionStore) → Absent st → Absent (drop_session j st)
  unfolding drop_session
  drop-Absent j st h = remove_absent j st.sessions h

  scavenge-Absent : (now : ℕ) (st : SessionStore) → Absent st → Absent (scavenge now st).0
  unfolding scavenge
  scavenge-Absent now st h = sweep_absent st.idle_seconds now st.sessions st.sessions h

  create_with-Absent :
      (now : ℕ) (subject : Text) (posture : DevicePosture) (id : Text) (st : SessionStore)
      (p : Pool × Result PoolError ℕ)
      → id ≢ k
      → Absent st
      → Absent (create_with now subject posture id st p).0
  unfolding create_with
  create_with-Absent now subject posture id st (p, err e) ne h = h
  create_with-Absent now subject posture id st (p, ok a) ne h =
      ground (
        arith,
        get-put id k (new_session now subject posture id a st) st.sessions,
        text_eq_iff id k,
      )

  create-Absent :
      (swept now : ℕ) (subject : Text) (posture : DevicePosture) (id : Text) (st : SessionStore)
      → id ≢ k
      → Absent st
      → Absent (create swept now subject posture id st).0
  unfolding create
  create-Absent swept now subject posture id st ne h =
      let st' = (scavenge swept st).0 in
      create_with-Absent now subject posture id st' (allocate id st'.ip_pool) ne
        (scavenge-Absent swept st h)

  get_active-Absent :
      (now : ℕ) (j : Text) (st : SessionStore) (o : Option Session)
      → Absent st
      → Absent (get_active_found now j st o).0
  unfolding get_active_found
  get_active-Absent now j st none h = h
  get_active-Absent now j st (some s) h = elim (Bool-cases (is_over st.idle_seconds now s)) [
    | inl over ↦ rw over (drop-Absent j st h)
    | inr live ↦ rw live h
  ]

  heartbeat-Absent :
      (now : ℕ) (j : Text) (st : SessionStore) (o : Option Session)
      → Dict.get j st.sessions ≡ o
      → Absent st
      → Absent (heartbeat_found now j st o).0
  unfolding heartbeat_found
  heartbeat-Absent now j st none g h = h
  heartbeat-Absent now j st (some s) g h = elim (Bool-cases (is_over st.idle_seconds now s)) [
    | inl over ↦ rw over (drop-Absent j st h)
    | inr live ↦
        rw live (
          ground
            (arith, get-put j k (renewed now st.ttl_seconds s) st.sessions, text_eq_iff j k, g))
  ]

  revoke-Absent : (j : Text) (st : SessionStore) → Absent st → Absent (revoke j st).0
  unfolding revoke
  revoke-Absent j st h = elim (Option-cases (Dict.get j st.sessions)) [
    | inl free ↦ rw (free, revoke) h
    | inr (s, held) ↦ rw (held, revoke) (drop-Absent j st h)
  ]

  perform-Absent :
      (c : Call) (st : SessionStore) → CreatesOther k c → Absent st → Absent (perform c st)
  unfolding perform get_active heartbeat
  perform-Absent (creates swept now subject posture id) st ne h =
      create-Absent swept now subject posture id st ne h
  perform-Absent (gets now id) st ne h = get_active-Absent now id st (Dict.get id st.sessions) h
  perform-Absent (beats now id) st ne h =
      heartbeat-Absent now id st (Dict.get id st.sessions) refl h
  perform-Absent (revokes id) st ne h = revoke-Absent id st h
  perform-Absent (sweeps now) st ne h = scavenge-Absent now st h

  perform_all-Absent :
      (cs : List Call) (st : SessionStore)
      → All (CreatesOther k) cs
      → Absent st
      → Absent (perform_all cs st)
  unfolding perform_all
  perform_all-Absent [] st others h = h
  perform_all-Absent (c ∷ cs) st others h =
      perform_all-Absent cs (perform c st) others.1 (perform-Absent c st others.0 h)

  revoked-Absent : (st : SessionStore) → Absent (revoke k st).0
  unfolding revoke drop_session
  revoked-Absent st = elim (Option-cases (Dict.get k st.sessions)) [
    | inl free ↦ rw (free, revoke) free
    | inr (s, held) ↦ rw (held, revoke) (get-remove_self k st.sessions)
  ]

  Absent-inactive : (later : ℕ) (st : SessionStore) → Absent st → (get_active later k st).1 ≡ none
  unfolding get_active get_active_found reread
  Absent-inactive later st h = ground (arith, h)

  creates_other : (cs : List Call) → contains k (created_ids cs) ≡ false → All (CreatesOther k) cs
  creates_other [] h = tt
  creates_other (creates swept now subject posture id ∷ cs) h =
      (ground (arith, text_eq_iff k id), creates_other cs (ground arith))
  creates_other (gets now id ∷ cs) h = (tt, creates_other cs h)
  creates_other (beats now id ∷ cs) h = (tt, creates_other cs h)
  creates_other (revokes id ∷ cs) h = (tt, creates_other cs h)
  creates_other (sweeps now ∷ cs) h = (tt, creates_other cs h)

  -- After `revoke` and any calls, either one of these created a session under the id, or the id
  -- gives no session at any time.
  pub get_active-perform_all-revoke :
      (later : ℕ) (cs : List Call) (st : SessionStore)
      → (contains k (created_ids cs) ≡ true)
        ⊎ ((get_active later k (perform_all cs (revoke k st).0)).1 ≡ none)
  get_active-perform_all-revoke later cs st = elim (Bool-cases (contains k (created_ids cs))) [
    | inl again ↦ inl again
    | inr never ↦ inr (
        Absent-inactive later (perform_all cs (revoke k st).0)
          (perform_all-Absent cs (revoke k st).0 (creates_other cs never) (revoked-Absent st)))
  ]
