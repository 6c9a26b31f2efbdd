-- ===== src/Session/Expiry.antt =====
-- When a session of labztna/session.py is handed out, renewed, and given up.
use ztna_lab.Base.{
  text_key, nat_eq, ℕ, ◌+◌, ◌≤◌, ◌≡◌, ◌↔◌, ◌⊎◌, refl, ap, ◌∙◌, inl, inr, true, false, Option, none,
  some, List, arith, Text, text_eq_iff, contains, min, Option-cases, Bool-cases,
}
use ztna_lab.Base.Dict
use ztna_lab.Base.Dict.{Dict, get-remove, get-remove_self, get-put_self}
use ztna_lab.Ipam.Leases.{get-release}
use ztna_lab.Session.{
  Session, SessionStore, is_over, reclaimed_ids, scavenge, drop_session, get_active,
  get_active_found, reread, heartbeat, heartbeat_found, renewed, revoke,
}
use ztna_lab.Session.Sweep.{
  is_live-is_over, is_reclaimed, contains-reclaimed_ids, release_all_available,
}
use ztna_lab.Session.Invariant.{IsStore, address_of, get-scavenge, scavenge-IsStore}

-- The session is inside its lifetime, its absolute lifetime and its idle time.
pub record IsCurrent (idle now : ℕ) (s : Session) : Type 0 where
  pub unrevoked : s.revoked ≡ false
  pub in_time : now ≤ s.expires_at
  pub in_absolute_time : now ≤ s.absolute_expires_at
  pub active : now ≤ s.last_seen + idle

is_over-IsCurrent :
    (idle now : ℕ) (s : Session) → (is_over idle now s ≡ false) ↔ IsCurrent idle now s
is_over-IsCurrent idle now s = ground arith

module _ (now : ℕ) (k : Text) (st : SessionStore) where
  active_cases :
      (o : Option Session) (s : Session)
      → Dict.get k st.sessions ≡ o
      → ((get_active_found now k st o).1 ≡ some s)
        ↔ ((o ≡ some s) × (is_over st.idle_seconds now s ≡ false))
  unfolding get_active_found reread
  active_cases none s g = ground (arith, g)
  active_cases (some t) s g = ground (arith, g)

  -- `get_active` hands out the session that the table has for the id, exactly when it is not
  -- revoked and none of its three deadlines has passed.
  pub get_active-IsCurrent :
      (s : Session)
      → ((get_active now k st).1 ≡ some s)
        ↔ ((Dict.get k st.sessions ≡ some s) × IsCurrent st.idle_seconds now s)
  unfolding get_active
  get_active-IsCurrent s =
      let (to, from) = active_cases (Dict.get k st.sessions) s refl in
      let (current, back) = is_over-IsCurrent st.idle_seconds now s in
      (λ e. let (g, live) = to e in (g, current live), λ p. from (p.0, back p.1))

  dropped :
      (Dict.get k (drop_session k st).sessions ≡ none)
      × (Dict.get k (drop_session k st).ip_pool.allocated ≡ none)
  unfolding drop_session
  dropped =
      (get-remove_self k st.sessions, ground (arith, get-release k k st.ip_pool, text_eq_iff k k))

  refused_cases :
      (all : List ℕ) (o : Option Session)
      → IsStore all st
      → Dict.get k st.sessions ≡ o
      → (get_active_found now k st o).1 ≡ none
      → (Dict.get k (get_active_found now k st o).0.sessions ≡ none)
        × (Dict.get k (get_active_found now k st o).0.ip_pool.allocated ≡ none)
  unfolding get_active_found reread
  refused_cases all none h g e = (g, ground (arith, h.leases k))
  refused_cases all (some s) h g e =
      let live = (h.entries k s g).unrevoked in ground (arith, g, dropped.0, dropped.1)

  -- Where `get_active` gives nothing, the store then has neither a session nor a lease for the id.
  pub get_active_refused :
      (all : List ℕ)
      → IsStore all st
      → (get_active now k st).1 ≡ none
      → (Dict.get k (get_active now k st).0.sessions ≡ none)
        × (Dict.get k (get_active now k st).0.ip_pool.allocated ≡ none)
  unfolding get_active
  get_active_refused all h e = refused_cases all (Dict.get k st.sessions) h refl e

  renewed_cases :
      (o : Option Session) (s' : Session)
      → Dict.get k st.sessions ≡ o
      → (heartbeat_found now k st o).1 ≡ some s'
      → (s : Session) × (o ≡ some s)
        × (is_over st.idle_seconds now s ≡ false)
        × (s' ≡ renewed now st.ttl_seconds s)
  unfolding heartbeat_found reread
  renewed_cases none s' g e = cc (g, e)
  renewed_cases (some s) s' g e = (
    s,
    refl,
    ground arith,
    ground (arith, get-put_self k (renewed now st.ttl_seconds s) st.sessions),
  )

  -- A heartbeat renews only a session that is still current. It leaves the absolute end, the
  -- address and the lease generation as they were, and the new end is the sooner of the absolute
  -- end and a full lifetime from now.
  pub heartbeat_renews :
      (s' : Session)
      → (heartbeat now k st).1 ≡ some s'
      → (s : Session) × (Dict.get k st.sessions ≡ some s)
        × IsCurrent st.idle_seconds now s
        × (s'.absolute_expires_at ≡ s.absolute_expires_at)
        × (s'.expires_at ≡ min (now + st.ttl_seconds) s.absolute_expires_at)
        × (s'.last_seen ≡ now)
        × (s'.virtual_ip ≡ s.virtual_ip)
        × (s'.lease_generation ≡ s.lease_generation)
  unfolding heartbeat
  heartbeat_renews s' e =
      let (s, g, live, same) = renewed_cases (Dict.get k st.sessions) s' refl e in
      (
        s,
        g,
        (is_over-IsCurrent st.idle_seconds now s).0 live,
        ap (λ (t : Session). t.absolute_expires_at) same,
        ap (λ (t : Session). t.expires_at) same,
        ap (λ (t : Session). t.last_seen) same,
        ap (λ (t : Session). t.virtual_ip) same,
        ap (λ (t : Session). t.lease_generation) same,
      )

  -- After `revoke` the id gives no session at any time, until a session is created under it.
  pub get_active-revoke : (later : ℕ) → (get_active later k (revoke k st).0).1 ≡ none
  unfolding get_active get_active_found reread revoke
  get_active-revoke later = elim (Option-cases (Dict.get k st.sessions)) [
    | inl free ↦ ground (arith, free)
    | inr (s, held) ↦ ground (arith, held, dropped.0)
  ]

  reclaimed :
      (all : List ℕ) (s : Session)
      → IsStore all st
      → Dict.get k st.sessions ≡ some s
      → is_over st.idle_seconds now s ≡ true
      → contains s.virtual_ip (scavenge now st).0.ip_pool.available ≡ true
  unfolding scavenge
  reclaimed all s h held over =
      let live = is_live-is_over st.idle_seconds now s in
      let unrevoked = (h.entries k s held).unrevoked in
      release_all_available all k (reclaimed_ids st.idle_seconds now st.sessions) st.ip_pool
        s.virtual_ip h.pool (h.leases k ∙ ap address_of held)
        (contains-reclaimed_ids st.idle_seconds now k st.sessions h.keyed
          ∙ ap (is_reclaimed st.idle_seconds now) held
          ∙ ground arith)

  -- The id had a session that is not current; its address is available.
  pub record IsReclaimed : Type 0 where
    pub session : Session
    pub held : Dict.get k st.sessions ≡ some session
    pub not_current : ¬ IsCurrent st.idle_seconds now session
    pub available : contains session.virtual_ip (scavenge now st).0.ip_pool.available ≡ true

  given_back :
      (all : List ℕ)
      → IsStore all st
      → (Dict.get k (scavenge now st).0.sessions ≡ Dict.get k st.sessions) ⊎ IsReclaimed
  given_back all h =
      let entry = get-scavenge now k st h.keyed in
      elim (Option-cases (Dict.get k st.sessions)) [
        | inl free ↦ inl (ground (arith, entry, free))
        | inr (s, held) ↦ elim (Bool-cases (is_over st.idle_seconds now s)) [
          | inl over ↦ inr (record {
            session = s;
            held = held;
            not_current = λ c. cc (over, (is_over-IsCurrent st.idle_seconds now s).1 c);
            available = reclaimed all s h held over;
          })
          | inr live ↦ inl (ground (arith, entry, held, is_live-is_over st.idle_seconds now s))
        ]
      ]

  -- After `scavenge` the table has a session under an id exactly if it had it before and the
  -- session is current, and an id has a lease exactly where it has a session, of its address.
  -- Either the entry of an id is left as it was, or it was a session that is not current, and its
  -- address is among the available ones.
  pub scavenge-IsCurrent :
      (all : List ℕ) (s : Session)
      → IsStore all st
      → ((Dict.get k (scavenge now st).0.sessions ≡ some s)
          ↔ ((Dict.get k st.sessions ≡ some s) × IsCurrent st.idle_seconds now s))
        × (Dict.get k (scavenge now st).0.ip_pool.allocated
            ≡ address_of (Dict.get k (scavenge now st).0.sessions))
        × ((Dict.get k (scavenge now st).0.sessions ≡ Dict.get k st.sessions) ⊎ IsReclaimed)
  scavenge-IsCurrent all s h =
      let entry = get-scavenge now k st h.keyed in
      let live = is_live-is_over st.idle_seconds now s in
      let (current, back) = is_over-IsCurrent st.idle_seconds now s in
      let to : (Dict.get k (scavenge now st).0.sessions ≡ some s)
          → (Dict.get k st.sessions ≡ some s) × (is_over st.idle_seconds now s ≡ false) =
        λ e. ground (arith, entry, live) in
      let from : (Dict.get k st.sessions ≡ some s)
          → is_over st.idle_seconds now s ≡ false
          → Dict.get k (scavenge now st).0.sessions ≡ some s =
        λ g e. ground (arith, entry, live) in
      (
        (λ e. let (g, l) = to e in (g, current l), λ p. from p.0 (back p.1)),
        (scavenge-IsStore all now st h).leases k,
        given_back all h,
      )
