-- ===== src/Session/Reach.antt =====
-- Whatever the control plane and the gateway call, in whatever order: the store of
-- labztna/session.py keeps its invariant.
use mathlib.Core.Path.{subst}
use ztna_lab.Base.{text_key, ℕ, ◌+◌, ◌≡◌, ◌≢◌, ap, ◌∙◌, some, List, [], ◌∷◌, arith, ok, Text}
use ztna_lab.Base.Dict
use ztna_lab.Base.Dict.{values}
use ztna_lab.Base.Counts.{count}
use ztna_lab.Ipam
use ztna_lab.Ipam.{Pool, hosts}
use ztna_lab.Ipam.Leases.{init-IsPool, leases_differ, fresh_leases}
use ztna_lab.Session.{Session, SessionStore, init}
use ztna_lab.Session.Calls.{Call, creates, gets, beats, revokes, sweeps, perform, perform_all}
use ztna_lab.Session.Generations.{Increasing, generations_given, generations_given-Increasing}
use ztna_lab.Session.Invariant.{
  IsStore, init-IsStore, scavenge-IsStore, create-IsStore, get_active-IsStore, heartbeat-IsStore,
  revoke-IsStore, address_of,
}

perform-IsStore :
    (all : List ℕ) (c : Call) (st : SessionStore) → IsStore all st → IsStore all (perform c st)
unfolding perform
perform-IsStore all (creates swept now subject posture id) st h =
    create-IsStore all swept now subject posture id st h
perform-IsStore all (gets now id) st h = get_active-IsStore all now id st h
perform-IsStore all (beats now id) st h = heartbeat-IsStore all now id st h
perform-IsStore all (revokes id) st h = revoke-IsStore all id st h
perform-IsStore all (sweeps now) st h = scavenge-IsStore all now st h

perform_all_keeps :
    (all : List ℕ) (cs : List Call) (st : SessionStore)
    → IsStore all st
    → IsStore all (perform_all cs st)
unfolding perform_all
perform_all_keeps all [] st h = h
perform_all_keeps all (c ∷ cs) st h =
    perform_all_keeps all cs (perform c st) (perform-IsStore all c st h)

fresh_generation :
    (p : Pool) (ttl absolute idle : ℕ) (st : SessionStore)
    → init p ttl absolute idle ≡ ok st
    → st.lease_generation ≡ 0
unfolding init
fresh_generation p ttl absolute idle st e = ground arith

module _ (base prefixlen ttl absolute idle : ℕ) (p : Pool) (st : SessionStore)
    (pool : Ipam.init base prefixlen ≡ ok p) (store : init p ttl absolute idle ≡ ok st) where
  stays-IsStore : (cs : List Call) → IsStore (hosts base prefixlen) (perform_all cs st)
  stays-IsStore cs =
      let (fresh, _) = init-IsPool base prefixlen p pool in
      perform_all_keeps (hosts base prefixlen) cs st (
        init-IsStore (hosts base prefixlen) p ttl absolute idle st fresh
          (fresh_leases base prefixlen p pool) store)

  -- After any calls on a new store the invariant holds: the sessions and the leases agree, every
  -- session is unrevoked under its own id and ends no later than its absolute end, and no two
  -- sessions of the table have one lease generation. The generations of all sessions that the calls
  -- have created, in their order, increase from 1 on, so none is given out twice.
  pub perform_all-IsStore :
      (cs : List Call)
      → IsStore (hosts base prefixlen) (perform_all cs st) × Increasing 0 (generations_given cs st)
  perform_all-IsStore cs = (
    stays-IsStore cs,
    subst (λ (n : ℕ). Increasing n (generations_given cs st))
        (fresh_generation p ttl absolute idle st store) (generations_given-Increasing cs st),
  )

  -- After any calls on a new store, two sessions in its table have different addresses.
  pub addresses_differ :
      (cs : List Call) (j k : Text) (s t : Session)
      → j ≢ k
      → Dict.get j (perform_all cs st).sessions ≡ some s
      → Dict.get k (perform_all cs st).sessions ≡ some t
      → s.virtual_ip ≢ t.virtual_ip
  addresses_differ cs j k s t ne gj gk =
      let h = stays-IsStore cs in
      let u = perform_all cs st in
      leases_differ (hosts base prefixlen) u.ip_pool j k s.virtual_ip t.virtual_ip h.pool ne
        (h.leases j ∙ ap address_of gj) (h.leases k ∙ ap address_of gk)

  -- After any calls on a new store every address of the network is as often available or leased
  -- as it is a host address: none is lost and none is made up.
  pub addresses_conserved :
      (cs : List Call) (a : ℕ)
      → count a (perform_all cs st).ip_pool.available
          + count a (values (perform_all cs st).ip_pool.allocated)
        ≡ count a (hosts base prefixlen)
  addresses_conserved cs a = (stays-IsStore cs).pool.conserved a
